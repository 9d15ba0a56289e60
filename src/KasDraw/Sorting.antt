-- ===== src/KasDraw/Sorting.antt =====
-- `sort_unstable` on numbers: the ascending order, as insertion sort gives it.
use kaspa_x.Base.{
  ℕ, ◌≡◌, ◌<◌, ◌≤◌, refl, ap, ◌∙◌, inl, inr, Bool, true, false, not, ◌&&◌, ◌||◌, List, [], ◌∷◌, ltb,
  leb, ◌==◌, if◌then◌else◌, contains, length, all, arith, Bool-cases, suc, ==_ne,
}

unfoldable pub insert_sorted : ℕ → List ℕ → List ℕ
insert_sorted x [] = x ∷ []
insert_sorted x (y ∷ ys) = let rest = insert_sorted x ys in if leb x y then x ∷ y ∷ ys else y ∷ rest

unfoldable pub sort : List ℕ → List ℕ
unfolding insert_sorted
sort [] = []
sort (x ∷ xs) = insert_sorted x (sort xs)

-- `windows(2).all(|w| w[0] < w[1])`.
unfoldable pub ascending : List ℕ → Bool
ascending [] = true
ascending (x ∷ []) = true
ascending (x ∷ y ∷ ys) = ltb x y && ascending (y ∷ ys)

unfoldable pub has_duplicate : List ℕ → Bool
has_duplicate [] = false
has_duplicate (x ∷ xs) = contains xs x || has_duplicate xs

contains-insert_sorted :
    (x z : ℕ) (ys : List ℕ) → contains (insert_sorted x ys) z ≡ (x == z || contains ys z)
unfolding insert_sorted
contains-insert_sorted x z [] = refl
contains-insert_sorted x z (y ∷ ys) = ground (arith, contains-insert_sorted x z ys)

pub contains-sort : (xs : List ℕ) (z : ℕ) → contains (sort xs) z ≡ contains xs z
unfolding sort
contains-sort [] z = refl
contains-sort (x ∷ xs) z =
    contains-insert_sorted x z (sort xs) ∙ ap (λ b. x == z || b) (contains-sort xs z)

length-insert_sorted : (x : ℕ) (ys : List ℕ) → length (insert_sorted x ys) ≡ suc (length ys)
unfolding insert_sorted
length-insert_sorted x [] = refl
length-insert_sorted x (y ∷ ys) = ground (arith, length-insert_sorted x ys)

pub length-sort : (xs : List ℕ) → length (sort xs) ≡ length xs
unfolding sort
length-sort [] = refl
length-sort (x ∷ xs) = length-insert_sorted x (sort xs) ∙ ap suc (length-sort xs)

-- A list is in order when no element is above a later one.
abbrev pub Below : ℕ → List ℕ → Type 0
Below x [] = Unit {0}
Below x (y ∷ ys) = (x ≤ y) × Below x ys

abbrev pub IsSorted : List ℕ → Type 0
IsSorted [] = Unit {0}
IsSorted (x ∷ xs) = Below x xs × IsSorted xs

Below-weaken : (x y : ℕ) (zs : List ℕ) → x ≤ y → Below y zs → Below x zs
Below-weaken x y [] h b = tt
Below-weaken x y (z ∷ zs) h b = (omega (arith, b.0), Below-weaken x y zs h b.1)

insert_sorted-Below : (w x : ℕ) (ys : List ℕ) → w ≤ x → Below w ys → Below w (insert_sorted x ys)
unfolding insert_sorted
insert_sorted-Below w x [] h b = (h, tt)
insert_sorted-Below w x (y ∷ ys) h b = elim (Bool-cases (leb x y)) [
  | inl low ↦ rw low (h, b)
  | inr high ↦ rw high (b.0, insert_sorted-Below w x ys h b.1)
]

insert_sorted-IsSorted : (x : ℕ) (ys : List ℕ) → IsSorted ys → IsSorted (insert_sorted x ys)
unfolding insert_sorted
insert_sorted-IsSorted x [] h = (tt, tt)
insert_sorted-IsSorted x (y ∷ ys) h = elim (Bool-cases (leb x y)) [
  | inl low ↦ rw low ((ground arith, Below-weaken x y ys (ground arith) h.0), h)
  | inr high ↦
      rw high (insert_sorted-Below y x ys (ground arith) h.0, insert_sorted-IsSorted x ys h.1)
]

pub sort-IsSorted : (xs : List ℕ) → IsSorted (sort xs)
unfolding sort
sort-IsSorted [] = tt
sort-IsSorted (x ∷ xs) = insert_sorted-IsSorted x (sort xs) (sort-IsSorted xs)

has_duplicate-insert_sorted :
    (x : ℕ) (ys : List ℕ) → has_duplicate (insert_sorted x ys) ≡ (contains ys x || has_duplicate ys)
unfolding insert_sorted has_duplicate
has_duplicate-insert_sorted x [] = refl
has_duplicate-insert_sorted x (y ∷ ys) =
    ground (arith, has_duplicate-insert_sorted x ys, contains-insert_sorted x y ys)

has_duplicate-sort : (xs : List ℕ) → has_duplicate (sort xs) ≡ has_duplicate xs
unfolding sort has_duplicate
has_duplicate-sort [] = refl
has_duplicate-sort (x ∷ xs) =
    has_duplicate-insert_sorted x (sort xs) ∙ λ i. contains-sort xs x i || has_duplicate-sort xs i

Below-contains : (x : ℕ) (ys : List ℕ) → (z : ℕ) → z < x → Below x ys → contains ys z ≡ false
Below-contains x [] z h b = refl
Below-contains x (y ∷ ys) z h b = ground (arith, Below-contains x ys z h b.1)

-- On an ordered list the neighbours' test finds every duplicate.
ascending-IsSorted : (xs : List ℕ) → IsSorted xs → ascending xs ≡ not (has_duplicate xs)
unfolding ascending has_duplicate
ascending-IsSorted [] h = refl
ascending-IsSorted (x ∷ []) h = refl
ascending-IsSorted (x ∷ y ∷ ys) h = elim (Bool-cases (ltb x y)) [
  | inl lt ↦
      rw (lt, ==_ne y x (λ e. ground arith), Below-contains y ys x (ground arith) h.1.0)
        (ascending-IsSorted (y ∷ ys) h.1)
  | inr ge ↦ ground (arith, h.0.0)
]

pub ascending-sort : (xs : List ℕ) → ascending (sort xs) ≡ not (has_duplicate xs)
ascending-sort xs = ascending-IsSorted (sort xs) (sort-IsSorted xs) ∙ ap not (has_duplicate-sort xs)

all-insert_sorted :
    (p : ℕ → Bool) (x : ℕ) (ys : List ℕ) → all p (insert_sorted x ys) ≡ (p x && all p ys)
unfolding insert_sorted
all-insert_sorted p x [] = refl
all-insert_sorted p x (y ∷ ys) = ground (arith, all-insert_sorted p x ys)

pub all-sort : (p : ℕ → Bool) (xs : List ℕ) → all p (sort xs) ≡ all p xs
unfolding sort
all-sort p [] = refl
all-sort p (x ∷ xs) = all-insert_sorted p x (sort xs) ∙ ap (λ b. p x && b) (all-sort p xs)
