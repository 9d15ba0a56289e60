-- ===== src/Merchant/Episode/Recovery.antt =====
-- The database beside the episode.
use native.Mathlib.Decide.{ℕ_discrete}
use kaspa_x.Base.{
  ℕ, ◌≡◌, ◌≢◌, refl, sym, ap, ◌∙◌, Option, none, some, List, [], ◌∷◌, if◌then◌else◌, ◌==◌, inl, inr,
  arith, ==_refl, ==_ne,
}
use kaspa_x.Base.Assoc.{
  Map, lookup, insert, erase, lookup-insert, lookup-erase, lookup-insert_cases, lookup-erase_cases,
}
use kaspa_x.Merchant.Storage.{Codecs, Borsh, IsLossless, load, kept}
use kaspa_x.Merchant.Invoices.{ReceiptEpisode}

module _ {V : Type 0} (b : Borsh V) where
  -- A tree holds what a map holds.
  abbrev pub Mirrors : Map (List ℕ) → Map V → Type 0
  Mirrors tree m = (k : ℕ) → lookup k (load b tree) ≡ lookup k m

  lookup-kept : (k j : ℕ) (o : Option V) (m : Map V) → k ≢ j → lookup j (kept k o m) ≡ lookup j m
  lookup-kept k j none m h = refl
  lookup-kept k j (some v) m h = ground arith

  -- An entry of another key stands before an update of k.
  lookup-kept_if :
      (k j i : ℕ) (o x : Option V) (m' m : Map V)
      → i ≢ k
      → lookup j m' ≡ (if k == j then x else lookup j m)
      → lookup j (kept i o m') ≡ (if k == j then x else lookup j (kept i o m))
  lookup-kept_if k j i none x m' m h e = e
  lookup-kept_if k j i (some w) x m' m h e = ground arith

  lookup-load-insert :
      IsLossless b
      → (k j : ℕ) (v : V) (tree : Map (List ℕ))
      → lookup j (load b (insert k (b.to_vec v) tree))
        ≡ (if k == j then some v else lookup j (load b tree))
  unfolding load insert
  lookup-load-insert lossless k j v [] = rw (lossless v) refl
  lookup-load-insert lossless k j v ((i, bytes) ∷ tree) = elim (ℕ_discrete i k) [
    | yes same ↦ elim (ℕ_discrete k j) [
      | yes here ↦ rw (same, here, ==_refl j, lossless v) (rw (==_refl j) refl)
      | no away ↦
          rw (same, ==_refl k, lossless v, ==_ne k j away)
            (sym (lookup-kept k j (b.from_slice bytes) (load b tree) away))
    ]
    | no other ↦ rw (==_ne i k other) (
        lookup-kept_if k j i (b.from_slice bytes) (some v) _ (load b tree) other
          (lookup-load-insert lossless k j v tree))
  ]

  lookup-load-erase :
      (k j : ℕ) (tree : Map (List ℕ))
      → lookup j (load b (erase k tree)) ≡ (if k == j then none else lookup j (load b tree))
  unfolding load erase
  lookup-load-erase k j [] = ground arith
  lookup-load-erase k j ((i, bytes) ∷ tree) = elim (ℕ_discrete i k) [
    | yes same ↦ elim (ℕ_discrete k j) [
      | yes here ↦
          rw (same, here, ==_refl j) (lookup-load-erase k j tree ∙ rw (here, ==_refl j) refl)
      | no away ↦
          rw (same, ==_refl k)
            (lookup-load-erase k j tree
              ∙ rw (==_ne k j away) (sym (lookup-kept k j (b.from_slice bytes) (load b tree) away)))
    ]
    | no other ↦ rw (==_ne i k other) (
        lookup-kept_if k j i (b.from_slice bytes) none _ (load b tree) other
          (lookup-load-erase k j tree))
  ]

  pub insert-Mirrors :
      IsLossless b
      → (k : ℕ) (v : V) (tree : Map (List ℕ)) (m : Map V) → Mirrors tree m
      → Mirrors (insert k (b.to_vec v) tree) (insert k v m)
  insert-Mirrors lossless k v tree m h j =
      lookup-load-insert lossless k j v tree ∙ rw (h j) (sym (lookup-insert k j v m))

  pub erase-Mirrors :
      (k : ℕ) (tree : Map (List ℕ)) (m : Map V)
      → Mirrors tree m
      → Mirrors (erase k tree) (erase k m)
  erase-Mirrors k tree m h j = lookup-load-erase k j tree ∙ rw (h j) (sym (lookup-erase k j m))

-- Every codec gives back what it was given.
pub record AllLossless (codecs : Codecs) : Type 0 where
  pub invoice : IsLossless codecs.invoice
  pub customer : IsLossless codecs.customer
  pub subscription : IsLossless codecs.subscription

-- Rows stand under their own ids.
abbrev pub HasIds : {V : Type 0} → (V → ℕ) → Map V → Type 0
HasIds {V} id m = (k : ℕ) (v : V) → lookup k m ≡ some v → id v ≡ k

pub insert-HasIds :
    {V : Type 0} (id : V → ℕ) (k : ℕ) (v : V) (m : Map V)
    → id v ≡ k
    → HasIds id m
    → HasIds id (insert k v m)
insert-HasIds id k v m own h j w e = elim (lookup-insert_cases k j v w m e) [
  | inl (here, same) ↦ sym (ap id same) ∙ own ∙ here
  | inr (away, found) ↦ h j w found
]

pub erase-HasIds :
    {V : Type 0} (id : V → ℕ) (k : ℕ) (m : Map V) → HasIds id m → HasIds id (erase k m)
erase-HasIds id k m h j w e = h j w (lookup-erase_cases k j w m e).1

-- The database holds exactly the episode's rows.
pub record Mirror (codecs : Codecs) (s : ReceiptEpisode) : Type 0 where
  pub invoices : Mirrors codecs.invoice s.db.invoices s.invoices
  pub customers : Mirrors codecs.customer s.db.customers s.customers
  pub subscriptions : Mirrors codecs.subscription s.db.subscriptions s.subscriptions
  pub invoice_ids : HasIds (λ inv. inv.id) s.invoices
  pub subscription_ids : HasIds (λ sub. sub.id) s.subscriptions
