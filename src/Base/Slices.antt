-- ===== src/Base/Slices.antt =====
-- Slices of byte strings, and their comparison.
use Prim.Native.Nat.{ℕ, zero, suc, ◌+◌, ◌-◌, ◌≤◌}
use mathlib.Core.Path.{◌≡◌, refl, sym, ap, ◌∙◌}
use mathlib.Core.Bool.{Bool, true, false, ◌&&◌}
use mathlib.Core.List.{List, [], ◌∷◌, ◌++◌}
use native.Mathlib.Omega.{arith}
use kaspa_x.Base.Tests.{◌==◌}
use kaspa_x.Base.Lists.{length, take, drop, take-append, length-take_le, length-drop}

module _ {ℓ} {A : Type ℓ} where
  -- `&bytes[a..b]`, for a ≤ b ≤ length bytes.
  abbrev pub slice : List A → ℕ → ℕ → List A
  slice xs a b = take (b - a) (drop a xs)

  drop-nil : (n : ℕ) → drop {A = A} n [] ≡ []
  drop-nil zero = refl
  drop-nil (suc n) = refl

  pub drop-drop : (a b : ℕ) (xs : List A) → drop (a + b) xs ≡ drop b (drop a xs)
  drop-drop zero b xs = ap (λ k. drop k xs) same
    where
      same : zero + b ≡ b
      same = omega arith
  drop-drop (suc a) b [] = drop-nil _ ∙ sym (drop-nil b)
  drop-drop (suc a) b (x ∷ xs) = ap (λ k. drop k (x ∷ xs)) same ∙ drop-drop a b xs
    where
      same : suc a + b ≡ suc (a + b)
      same = omega arith

  pub slice_prefix : (n : ℕ) (xs ys : List A) → length xs ≡ n → slice (xs ++ ys) 0 n ≡ xs
  slice_prefix n xs ys h = ap (λ k. take k (xs ++ ys)) (omega arith) ∙ take-append n xs ys h

  pub length-slice : (a b : ℕ) (xs : List A) → a ≤ b → b ≤ length xs → length (slice xs a b) ≡ b - a
  length-slice a b xs h k = length-take_le (b - a) (drop a xs) (omega (arith, length-drop a xs))

-- `bytes[i]`, for i < length bytes.
abbrev pub byte : List ℕ → ℕ → ℕ
byte [] i = 0
byte (x ∷ xs) zero = x
byte (x ∷ xs) (suc i) = byte xs i

abbrev pub bytes_eq : List ℕ → List ℕ → Bool
bytes_eq [] [] = true
bytes_eq [] (y ∷ ys) = false
bytes_eq (x ∷ xs) [] = false
bytes_eq (x ∷ xs) (y ∷ ys) = x == y && bytes_eq xs ys

pub bytes_eq_refl : (xs : List ℕ) → bytes_eq xs xs ≡ true
bytes_eq_refl [] = refl
bytes_eq_refl (x ∷ xs) = ground (arith, bytes_eq_refl xs)

pub eq_of_bytes_eq : (xs ys : List ℕ) → bytes_eq xs ys ≡ true → xs ≡ ys
eq_of_bytes_eq [] [] h = refl
eq_of_bytes_eq [] (y ∷ ys) h = cc
eq_of_bytes_eq (x ∷ xs) [] h = cc
eq_of_bytes_eq (x ∷ xs) (y ∷ ys) h = ground (arith, eq_of_bytes_eq xs ys)
