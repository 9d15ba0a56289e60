-- ===== src/Merchant/Episode/Spending.antt =====
-- Carrier transactions and the invoices that they pay.
use native.Mathlib.Decide.{ℕ_discrete}
use kaspa_x.Base.{
  ℕ, ◌≡◌, ◌≢◌, refl, sym, ap, ◌∙◌, true, false, ◌||◌, Option, none, some, List, if◌then◌else◌, ◌==◌,
  contains, Bool-cases, inl, inr, arith, ◌⊎◌, ==_refl,
}
use kaspa_x.Base.Sets.{set_insert, contains-set_insert, contains-set_erase}
use kaspa_x.Base.Assoc.{Map, lookup, insert, erase, lookup-insert, lookup-erase}
use kaspa_x.Merchant.Storage.{Invoice}
use kaspa_x.Merchant.Invoices.{ReceiptEpisode}
use kaspa_x.Merchant.Episode.{set_remove}

-- The carrier transaction that an invoice names.
abbrev pub carrier_of : Option Invoice → Option ℕ
carrier_of none = none
carrier_of (some inv) = inv.carrier_tx

abbrev pub carrier : Map Invoice → ℕ → Option ℕ
carrier m k = carrier_of (lookup k m)

pub carrier-insert :
    (id k : ℕ) (inv : Invoice) (m : Map Invoice)
    → carrier (insert id inv m) k ≡ (if id == k then inv.carrier_tx else carrier m k)
carrier-insert id k inv m = elim (Bool-cases (id == k)) [
  | inl here ↦ ap carrier_of (lookup-insert id k inv m) ∙ rw here refl
  | inr away ↦ ap carrier_of (lookup-insert id k inv m) ∙ rw away refl
]

pub carrier-erase :
    (id k : ℕ) (m : Map Invoice) → carrier (erase id m) k ≡ (if id == k then none else carrier m k)
carrier-erase id k m = elim (Bool-cases (id == k)) [
  | inl here ↦ ap carrier_of (lookup-erase id k m) ∙ rw here refl
  | inr away ↦ ap carrier_of (lookup-erase id k m) ∙ rw away refl
]

-- Every carrier in use is on the list, and no two invoices have one in common.
pub record Spends (c : ℕ → Option ℕ) (used : List ℕ) : Type 0 where
  pub spent : (k t : ℕ) → c k ≡ some t → contains used t ≡ true
  pub once : (j k t : ℕ) → c j ≡ some t → c k ≡ some t → j ≡ k

module _ {c c' : ℕ → Option ℕ} {used : List ℕ} (id : ℕ) (h : Spends c used) where
  pub Spends-keep :
      (o : Option ℕ) → o ≡ c id → ((k : ℕ) → c' k ≡ (if id == k then o else c k)) → Spends c' used
  Spends-keep o same upd = record {
    spent = λ k t e. h.spent k t (sym (back k) ∙ e);
    once = λ j k t e f. h.once j k t (sym (back j) ∙ e) (sym (back k) ∙ f);
  }
    where
      back : (k : ℕ) → c' k ≡ c k
      back k = elim (ℕ_discrete id k) [
        | yes here ↦ upd k ∙ rw (sym here) (rw (==_refl id) same)
        | no away ↦ ground (arith, upd k)
      ]

  pub Spends-drop : ((k : ℕ) → c' k ≡ (if id == k then none else c k)) → Spends c' used
  Spends-drop upd = record {
    spent = λ k t e. h.spent k t (back k t e);
    once = λ j k t e f. h.once j k t (back j t e) (back k t f);
  }
    where
      back : (k t : ℕ) → c' k ≡ some t → c k ≡ some t
      back k t e = ground (arith, upd k)

  -- Taking the carrier off an invoice, and off the list.
  pub Spends-unspend :
      (o : Option ℕ)
      → c id ≡ o
      → ((k : ℕ) → c' k ≡ (if id == k then none else c k))
      → Spends c' (set_remove o used)
  Spends-unspend none e upd = Spends-drop upd
  Spends-unspend (some x) e upd = record {
    spent =
        λ k t f. contains-set_erase x t used ∙ ground (arith, h.spent k t (old k t f), apart k t f);
    once = λ j k t f g. h.once j k t (old j t f) (old k t g);
  }
    where
      old : (k t : ℕ) → c' k ≡ some t → c k ≡ some t
      old k t f = ground (arith, upd k)

      apart : (k t : ℕ) → c' k ≡ some t → x ≢ t
      apart k t f same = ground (arith, upd k, h.once id k t (e ∙ ap some same) (old k t f))

  -- Naming a carrier that is not on the list.
  pub Spends-spend :
      (x : ℕ)
      → contains used x ≡ false
      → ((k : ℕ) → c' k ≡ (if id == k then some x else c k))
      → Spends c' (set_insert x used)
  Spends-spend x fresh upd = record {
    spent = λ k t e. contains-set_insert x t used ∙ listed k t e;
    once = λ j k t e f. same j k t e f;
  }
    where
      cases : (k t : ℕ) → c' k ≡ some t → ((id ≡ k) × (x ≡ t)) ⊎ (c k ≡ some t)
      cases k t e = ground (arith, upd k)

      listed : (k t : ℕ) → c' k ≡ some t → (x == t || contains used t) ≡ true
      listed k t e = elim (cases k t e) [
        | inl p ↦ ground arith
        | inr old ↦ ground (arith, h.spent k t old)
      ]

      unused : (k : ℕ) → c k ≢ some x
      unused k e = ground (arith, h.spent k x e)

      same : (j k t : ℕ) → c' j ≡ some t → c' k ≡ some t → j ≡ k
      same j k t e f = elim (cases j t e) [
        | inl p ↦ elim (cases k t f) [
          | inl q ↦ sym p.0 ∙ q.0
          | inr old ↦ absurd (unused k (old ∙ ap some (sym p.1)))
        ]
        | inr old ↦ elim (cases k t f) [
          | inl q ↦ absurd (unused j (old ∙ ap some (sym q.1)))
          | inr older ↦ h.once j k t old older
        ]
      ]

abbrev pub NoDoubleSpend : ReceiptEpisode → Type 0
NoDoubleSpend s = Spends (carrier s.invoices) s.used_carrier_txs
