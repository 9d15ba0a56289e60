-- ===== src/Indexer/Ordered.antt =====
-- BTreeMap and BTreeSet, as the code iterates over them: lists in the order of their keys. A set is a
-- map to nothing.
use kaspa_x.Base.{
  ℕ, ◌≤◌, ◌<◌, ◌≡◌, ◌≢◌, refl, Bool, true, false, Bool-cases, inl, inr, ◌&&◌, ◌||◌, List, [], ◌∷◌,
  ◌++◌, arith, ltb, ◌==◌, ==_refl, if◌then◌else◌,
}

module _ {K V : Type 0} (lt : K → K → Bool) where
  unfoldable pub tree_insert : K → V → List (K × V) → List (K × V)
  tree_insert k v [] = (k, v) ∷ []
  tree_insert k v ((j, w) ∷ m) =
      if lt k j
      then (k, v) ∷ (j, w) ∷ m
      else if lt j k
      then (j, w) ∷ tree_insert k v m
      else (j, v) ∷ m

-- The order of pairs.
abbrev pub pair_lt : ℕ × ℕ → ℕ × ℕ → Bool
pair_lt (a, b) (c, d) = ltb a c || (a == c && ltb b d)

abbrev pub has_key : {V : Type 0} → ℕ → List (ℕ × V) → Bool
has_key k [] = false
has_key k ((j, w) ∷ m) = j == k || has_key k m

module _ {V : Type 0} where
  pub has_key-tree_insert :
      (k j : ℕ) (v : V) (m : List (ℕ × V))
      → has_key j (tree_insert ltb k v m) ≡ (k == j || has_key j m)
  unfolding tree_insert
  has_key-tree_insert k j v [] = ground arith
  has_key-tree_insert k j v ((i, w) ∷ m) = ground (arith, has_key-tree_insert k j v m)

  -- The values of the keys that begin with `id`.
  abbrev pub rows_of : ℕ → List ((ℕ × ℕ) × V) → List V
  rows_of id [] = []
  rows_of id (((e, c), r) ∷ m) = if e == id then r ∷ rows_of id m else rows_of id m

  -- All keys are above (a, b); they rise; those that begin with `id` go on below `n`.
  abbrev pub Above : ℕ → ℕ → List ((ℕ × ℕ) × V) → Type 0
  Above a b [] = Unit {0}
  Above a b (((e, c), r) ∷ m) = (pair_lt (a, b) (e, c) ≡ true) × Above a b m

  abbrev pub Sorted : List ((ℕ × ℕ) × V) → Type 0
  Sorted [] = Unit {0}
  Sorted (((e, c), r) ∷ m) = Above e c m × Sorted m

  abbrev pub Below : ℕ → ℕ → List ((ℕ × ℕ) × V) → Type 0
  Below id n [] = Unit {0}
  Below id n (((e, c), r) ∷ m) = ((e ≡ id) → c < n) × Below id n m

  Above-trans :
      (a b c d : ℕ) (m : List ((ℕ × ℕ) × V))
      → pair_lt (a, b) (c, d) ≡ true
      → Above c d m
      → Above a b m
  Above-trans a b c d [] h above = tt
  Above-trans a b c d (((e, f), r) ∷ m) h above =
      (ground (arith, above.0), Above-trans a b c d m h above.1)

  Above-tree_insert :
      (a b c d : ℕ) (v : V) (m : List ((ℕ × ℕ) × V))
      → pair_lt (a, b) (c, d) ≡ true
      → Above a b m
      → Above a b (tree_insert pair_lt (c, d) v m)
  unfolding tree_insert
  Above-tree_insert a b c d v [] h above = (h, tt)
  Above-tree_insert a b c d v (((e, f), r) ∷ m) h above =
      ground (arith, above.0, above.1, Above-tree_insert a b c d v m h above.1)

  pub tree_insert-Sorted :
      (a b : ℕ) (v : V) (m : List ((ℕ × ℕ) × V))
      → Sorted m
      → Sorted (tree_insert pair_lt (a, b) v m)
  unfolding tree_insert
  tree_insert-Sorted a b v [] h = (tt, tt)
  tree_insert-Sorted a b v (((e, c), r) ∷ m) h = elim (Bool-cases (pair_lt (a, b) (e, c))) [
    | inl first ↦ rw first ((first, Above-trans a b e c m first h.0), h)
    | inr late ↦ elim (Bool-cases (pair_lt (e, c) (a, b))) [
      | inl later ↦
          rw (late, later) (Above-tree_insert e c a b v m later h.0, tree_insert-Sorted a b v m h.1)
      | inr same ↦ rw (late, same) h
    ]
  ]

  pub Below-weaken : (id k n : ℕ) (m : List ((ℕ × ℕ) × V)) → k ≤ n → Below id k m → Below id n m
  Below-weaken id k n [] le h = tt
  Below-weaken id k n (((e, c), r) ∷ m) le h =
      (λ same. omega (arith, h.0 same), Below-weaken id k n m le h.1)

  pub Below-tree_insert :
      (id n a b : ℕ) (v : V) (m : List ((ℕ × ℕ) × V))
      → (a ≡ id → b < n)
      → Below id n m
      → Below id n (tree_insert pair_lt (a, b) v m)
  unfolding tree_insert
  Below-tree_insert id n a b v [] new h = (new, tt)
  Below-tree_insert id n a b v (((e, c), r) ∷ m) new h = elim (Bool-cases (pair_lt (a, b) (e, c))) [
    | inl first ↦ rw first (new, h)
    | inr late ↦ elim (Bool-cases (pair_lt (e, c) (a, b))) [
      | inl later ↦ rw (late, later) (h.0, Below-tree_insert id n a b v m new h.1)
      | inr same ↦ rw (late, same) h
    ]
  ]

  pub rows_of-none :
      (id n : ℕ) (m : List ((ℕ × ℕ) × V)) → Above id n m → Below id n m → rows_of id m ≡ []
  rows_of-none id n [] above below = refl
  rows_of-none id n (((e, c), r) ∷ m) above below =
      ground (arith, above.0, below.0, rows_of-none id n m above.1 below.1)

  pub rows_of-tree_insert_self :
      (id n : ℕ) (v : V) (m : List ((ℕ × ℕ) × V))
      → Sorted m
      → Below id n m
      → rows_of id (tree_insert pair_lt (id, n) v m) ≡ rows_of id m ++ v ∷ []
  unfolding tree_insert
  rows_of-tree_insert_self id n v [] sorted below = ground arith
  rows_of-tree_insert_self id n v (((e, c), r) ∷ m) sorted below =
      elim (Bool-cases (pair_lt (id, n) (e, c))) [
        | inl first ↦
            rw
              (
                first,
                ==_refl id,
                rows_of-none id n (((e, c), r) ∷ m) (first, Above-trans id n e c m first sorted.0)
                    below,
              )
              refl
        | inr late ↦ elim (Bool-cases (pair_lt (e, c) (id, n))) [
          | inl later ↦
              rw (late, later) (ground (arith, rows_of-tree_insert_self id n v m sorted.1 below.1))
          | inr same ↦ absurd (ground (arith, below.0))
        ]
      ]

  pub rows_of-tree_insert_ne :
      (id a b : ℕ) (v : V) (m : List ((ℕ × ℕ) × V))
      → a ≢ id
      → rows_of id (tree_insert pair_lt (a, b) v m) ≡ rows_of id m
  unfolding tree_insert
  rows_of-tree_insert_ne id a b v [] h = ground arith
  rows_of-tree_insert_ne id a b v (((e, c), r) ∷ m) h =
      ground (arith, rows_of-tree_insert_ne id a b v m h)

  pub rows_of-absent : (id : ℕ) (m : List ((ℕ × ℕ) × V)) → Below id 0 m → rows_of id m ≡ []
  rows_of-absent id [] h = refl
  rows_of-absent id (((e, c), r) ∷ m) h = ground (arith, h.0, rows_of-absent id m h.1)
