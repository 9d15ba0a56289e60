-- ===== src/Base/Sets.antt =====
-- Sets of numbers as lists: HashSet and BTreeSet, where the code inserts, removes and looks up.
use native.Mathlib.Decide.{ℕ_discrete}
use Prim.Native.Nat.{ℕ}
use mathlib.Core.Path.{◌≡◌, refl, ◌∙◌, subst}
use mathlib.Core.Logic.{inl, inr}
use mathlib.Core.Bool.{◌&&◌, ◌||◌, not}
use mathlib.Core.List.{List, [], ◌∷◌}
use native.Mathlib.Omega.{arith}
use kaspa_x.Base.Tests.{if◌then◌else◌, ◌==◌, ==_refl, Bool-cases}
use kaspa_x.Base.Lists.{contains, retain}

abbrev pub set_insert : ℕ → List ℕ → List ℕ
set_insert x xs = if contains xs x then xs else x ∷ xs

abbrev pub set_erase : ℕ → List ℕ → List ℕ
set_erase x xs = retain (λ y. not (y == x)) xs

pub contains-set_insert :
    (x y : ℕ) (xs : List ℕ) → contains (set_insert x xs) y ≡ (x == y || contains xs y)
contains-set_insert x y xs = elim (Bool-cases (contains xs x)) [
  | inl there ↦ elim (ℕ_discrete x y) [
    | yes same ↦
        rw there (
          subst (λ z. contains xs z ≡ (x == z || contains xs z)) same (there ∙ rw (==_refl x) refl))
    | no other ↦ ground arith
  ]
  | inr away ↦ rw away refl
]

pub contains-set_erase :
    (x y : ℕ) (xs : List ℕ) → contains (set_erase x xs) y ≡ (not (x == y) && contains xs y)
contains-set_erase x y [] = ground arith
contains-set_erase x y (z ∷ xs) = ground (arith, contains-set_erase x y xs)
