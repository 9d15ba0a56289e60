-- ===== src/CommentBoard/Wallet/Selection/Sorting.antt =====
-- The coins in the order of their amounts.
use mathlib.Core.List.{Perm}
use mathlib.Core.List.Perm
use kaspa_x.Base.{ℕ, ◌+◌, ◌≡◌, ◌≤◌, refl, ap, ◌∙◌, inl, inr, List, [], ◌∷◌, leb, arith, Bool-cases}
use kaspa_x.CommentBoard.Wallet.{Utxo, total}
use kaspa_x.CommentBoard.Wallet.Selection.{insert_by_amount, sort_by_amount}

insert-Perm : (u : Utxo) (vs : List Utxo) → Perm (insert_by_amount u vs) (u ∷ vs)
unfolding insert_by_amount
insert-Perm u [] = Perm.refl (u ∷ [])
insert-Perm u (v ∷ vs) = elim (Bool-cases (leb u.amount v.amount)) [
  | inl small ↦ rw small (Perm.refl (u ∷ v ∷ vs))
  | inr large ↦ rw large (Perm.trans (Perm.cons v (insert-Perm u vs)) (Perm.swap u v vs))
]

pub sort-Perm : (us : List Utxo) → Perm (sort_by_amount us) us
unfolding sort_by_amount
sort-Perm [] = Perm.refl []
sort-Perm (u ∷ us) = Perm.trans (insert-Perm u (sort_by_amount us)) (Perm.cons u (sort-Perm us))

-- No coin is larger than one that comes after it.
abbrev pub NoLarger : ℕ → List Utxo → Type 0
NoLarger n [] = Unit {0}
NoLarger n (u ∷ us) = (n ≤ u.amount) × NoLarger n us

abbrev pub Ascending : List Utxo → Type 0
Ascending [] = Unit {0}
Ascending (u ∷ us) = NoLarger u.amount us × Ascending us

NoLarger-trans : (n k : ℕ) (us : List Utxo) → n ≤ k → NoLarger k us → NoLarger n us
NoLarger-trans n k [] le h = tt
NoLarger-trans n k (u ∷ us) le h = (omega (arith, h.0), NoLarger-trans n k us le h.1)

NoLarger-insert :
    (n : ℕ) (u : Utxo) (vs : List Utxo)
    → n ≤ u.amount
    → NoLarger n vs
    → NoLarger n (insert_by_amount u vs)
unfolding insert_by_amount
NoLarger-insert n u [] le h = (le, tt)
NoLarger-insert n u (v ∷ vs) le h = elim (Bool-cases (leb u.amount v.amount)) [
  | inl small ↦ rw small (le, h)
  | inr large ↦ rw large (h.0, NoLarger-insert n u vs le h.1)
]

insert-Ascending : (u : Utxo) (vs : List Utxo) → Ascending vs → Ascending (insert_by_amount u vs)
unfolding insert_by_amount
insert-Ascending u [] h = (tt, tt)
insert-Ascending u (v ∷ vs) h = elim (Bool-cases (leb u.amount v.amount)) [
  | inl small ↦
      let le : u.amount ≤ v.amount = ground arith in
      rw small ((le, NoLarger-trans u.amount v.amount vs le h.0), h)
  | inr large ↦
      rw large (NoLarger-insert v.amount u vs (ground arith) h.0, insert-Ascending u vs h.1)
]

pub sort-Ascending : (us : List Utxo) → Ascending (sort_by_amount us)
unfolding sort_by_amount
sort-Ascending [] = tt
sort-Ascending (u ∷ us) = insert-Ascending u (sort_by_amount us) (sort-Ascending us)

total-insert : (u : Utxo) (vs : List Utxo) → total (insert_by_amount u vs) ≡ u.amount + total vs
unfolding insert_by_amount
total-insert u [] = refl
total-insert u (v ∷ vs) = ground (arith, total-insert u vs)

pub total-sort : (us : List Utxo) → total (sort_by_amount us) ≡ total us
unfolding sort_by_amount
total-sort [] = refl
total-sort (u ∷ us) = total-insert u (sort_by_amount us) ∙ ap (λ n. u.amount + n) (total-sort us)
