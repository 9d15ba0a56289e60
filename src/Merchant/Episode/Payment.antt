-- ===== src/Merchant/Episode/Payment.antt =====
-- Which carrier outputs pay an invoice.
use kaspa_x.Base.{
  ℕ, ◌≡◌, ◌↔◌, refl, sym, ◌∙◌, Bool, true, false, ◌&&◌, ◌||◌, Option, none, some, List, [], ◌∷◌,
  leb, any, is_some, Bool-cases, Option-cases, inl, inr, arith,
}
use kaspa_x.Base.Slices.{bytes_eq}
use kaspa_x.Kdapp.Episode.{TxOutputInfo}
use kaspa_x.Merchant.Storage.{Codecs}
use kaspa_x.Merchant.Invoices.{
  ReceiptEpisode, Scan, scan, scan_start, scan_error, payment_error, allowed_scripts,
}

-- An output worth the amount; one whose script is also known; one that pays an allowed script.
abbrev pub enough : ℕ → TxOutputInfo → Bool
enough amount o = leb amount o.value

abbrev pub scripted : ℕ → TxOutputInfo → Bool
scripted amount o = enough amount o && is_some o.script_bytes

abbrev pub is_allowed : List (List ℕ) → Option (List ℕ) → Bool
is_allowed allowed none = false
is_allowed allowed (some sb) = any (λ s. bytes_eq s sb) allowed

abbrev pub pays_to : ℕ → List (List ℕ) → TxOutputInfo → Bool
pays_to amount allowed o = enough amount o && is_allowed allowed o.script_bytes

abbrev Flags : Scan → Bool → Bool → Bool → Type 0
Flags f a c k = (f.amount_ok ≡ a) × (f.script_checked ≡ c) × (f.script_ok ≡ k)

or_true : (b : Bool) → (b || true) ≡ true
or_true true = refl
or_true false = refl

-- The loop's flags, for all that its `break` leaves out.
scan-Flags :
    (amount : ℕ) (allowed : List (List ℕ)) (outs : List TxOutputInfo) (a c : Bool)
    → Flags
        (scan amount allowed outs (record { amount_ok = a; script_checked = c; script_ok = false }))
        (a || any (enough amount) outs)
        (c || any (scripted amount) outs)
        (any (pays_to amount allowed) outs)
unfolding scan
scan-Flags amount allowed [] true true = (refl, refl, refl)
scan-Flags amount allowed [] true false = (refl, refl, refl)
scan-Flags amount allowed [] false true = (refl, refl, refl)
scan-Flags amount allowed [] false false = (refl, refl, refl)
scan-Flags amount allowed (o ∷ outs) a c = elim (Bool-cases (leb amount o.value)) [
  | inr little ↦ rw (little, scan) (scan-Flags amount allowed outs a c)
  | inl worth ↦ elim (Option-cases o.script_bytes) [
    | inl unknown ↦
        let ih = scan-Flags amount allowed outs true c in
        rw (worth, unknown, scan) (ih.0 ∙ sym (or_true a), ih.1, ih.2)
    | inr (sb, known) ↦ elim (Bool-cases (any (λ s. bytes_eq s sb) allowed)) [
      | inl good ↦ rw (worth, known, good, scan) (sym (or_true a), sym (or_true c), refl)
      | inr bad ↦
          let ih = scan-Flags amount allowed outs true true in
          rw (worth, known, bad, scan) (ih.0 ∙ sym (or_true a), ih.1 ∙ sym (or_true c), ih.2)
    ]
  ]
]

-- What the code's scan accepts, said of the outputs as a set.
abbrev pub Pays : ℕ → List (List ℕ) → List TxOutputInfo → Type 0
Pays amount allowed outs =
    (any (enough amount) outs ≡ true)
    × (any (scripted amount) outs ≡ true → any (pays_to amount allowed) outs ≡ true)

Flags-iff :
    (f : Scan) (a c k : Bool)
    → Flags f a c k
    → (scan_error f ≡ none) ↔ ((a ≡ true) × (c ≡ true → k ≡ true))
Flags-iff f a c k h = rw (h.0, h.1, h.2) (go a c k)
  where
    go :
        (a c k : Bool)
        → (scan_error (record { amount_ok = a; script_checked = c; script_ok = k }) ≡ none)
          ↔ ((a ≡ true) × (c ≡ true → k ≡ true))
    go true true true = ground arith
    go true true false = ground arith
    go true false k = ground arith
    go false true true = ground arith
    go false true false = ground arith
    go false false k = ground arith

-- When the transaction's outputs are known, a payment passes exactly if some output is worth the
-- invoice's amount and, should any such output show its script, some output worth the amount pays
-- the standard script of one of the merchant's keys.
pub payment_error_iff :
    (codecs : Codecs) (s : ReceiptEpisode) (amount : ℕ) (outs : List TxOutputInfo)
    → (payment_error codecs s amount (some outs) ≡ none)
      ↔ Pays amount (allowed_scripts codecs s) outs
payment_error_iff codecs s amount outs =
    Flags-iff (scan amount (allowed_scripts codecs s) outs scan_start) _ _ _
      (scan-Flags amount (allowed_scripts codecs s) outs false false)
