-- ===== src/Base/Decimal.antt =====
-- Numbers in decimal: what `format!` writes of a u64, and what `parse::<u64>` reads.
use Prim.Native.Nat.{ℕ, zero, suc, ◌+◌, ◌-◌, ◌*◌, ◌/◌, ◌%◌, ◌^◌, ◌<◌}
use mathlib.Core.Path.{◌≡◌, refl, sym, ap, ◌∙◌}
use mathlib.Core.Logic.{inl, inr}
use mathlib.Core.Bool.{Bool, true, ◌&&◌}
use mathlib.Core.List.{List, [], ◌∷◌, ◌++◌}
use mathlib.Core.Option.{Option, none, some}
use native.Mathlib.Omega.{arith}
use native.Mathlib.Nat.{pow-suc}
use kaspa_x.Base.Tests.{if◌then◌else◌, ◌==◌, ltb, leb, Bool-cases}
use kaspa_x.Base.Lists.{all}

-- A u64 has at most twenty digits.
unfoldable pub digits : ℕ → ℕ → List ℕ
digits zero n = []
digits (suc fuel) n =
    let more = digits fuel (n / 10) in
    if ltb n 10 then (48 + n) ∷ [] else more ++ (48 + n % 10) ∷ []

abbrev pub is_digit : ℕ → Bool
is_digit c = leb 48 c && leb c 57

-- One more digit, if it is one and the value still fits.
abbrev push_digit : ℕ → ℕ → Option ℕ
push_digit acc c =
    if is_digit c
    then (if ltb (acc * 10 + (c - 48)) (2 ^ 64) then some (acc * 10 + (c - 48)) else none)
    else none

abbrev then_push : ℕ → Option ℕ → Option ℕ
then_push c none = none
then_push c (some v) = push_digit v c

unfoldable pub parse_from : Option ℕ → List ℕ → Option ℕ
parse_from acc [] = acc
parse_from acc (c ∷ cs) = parse_from (then_push c acc) cs

abbrev pub parse_unsigned : List ℕ → Option ℕ
parse_unsigned [] = none
parse_unsigned (c ∷ cs) = parse_from (some 0) (c ∷ cs)

-- `str::parse::<u64>().ok()`: a plus sign may stand before the digits.
unfoldable pub parse_u64 : List ℕ → Option ℕ
unfolding parse_from
parse_u64 [] = none
parse_u64 (c ∷ cs) = if c == 43 then parse_unsigned cs else parse_from (some 0) (c ∷ cs)

parse_from-append :
    (acc : Option ℕ) (xs : List ℕ) (d : ℕ)
    → parse_from acc (xs ++ d ∷ []) ≡ then_push d (parse_from acc xs)
unfolding parse_from
parse_from-append acc [] d = refl
parse_from-append acc (c ∷ cs) d = parse_from-append (then_push c acc) cs d

push-last : (n : ℕ) → n < 2 ^ 64 → push_digit (n / 10) (48 + n % 10) ≡ some n
push-last n h = ground arith

parse_from-digits :
    (fuel n : ℕ) → n < 10 ^ fuel → n < 2 ^ 64 → parse_from (some 0) (digits fuel n) ≡ some n
unfolding digits parse_from
parse_from-digits zero n small h = ap some (omega arith)
parse_from-digits (suc fuel) n small h = elim (Bool-cases (ltb n 10)) [
  | inl one ↦ rw one (ground arith)
  | inr more ↦ rw more (
      parse_from-append (some 0) (digits fuel (n / 10)) (48 + n % 10)
      ∙ ap (then_push (48 + n % 10))
          (parse_from-digits fuel (n / 10) (omega (arith, pow-suc 10 fuel)) (omega arith))
      ∙ push-last n h)
]

all-append :
    (p : ℕ → Bool) (xs : List ℕ) (d : ℕ)
    → all p xs ≡ true
    → p d ≡ true
    → all p (xs ++ d ∷ []) ≡ true
all-append p [] d h k = ground arith
all-append p (x ∷ xs) d h k = ground (arith, all-append p xs d)

pub all-digits : (fuel n : ℕ) → all is_digit (digits fuel n) ≡ true
unfolding digits
all-digits zero n = refl
all-digits (suc fuel) n = elim (Bool-cases (ltb n 10)) [
  | inl one ↦ rw one (ground arith)
  | inr more ↦ rw more (
      all-append is_digit (digits fuel (n / 10)) (48 + n % 10) (all-digits fuel (n / 10))
        (ground arith))
]

digits-cons : (fuel n : ℕ) → (c : ℕ) × (cs : List ℕ) × (digits (suc fuel) n ≡ c ∷ cs)
unfolding digits
digits-cons fuel n = elim (Bool-cases (ltb n 10)) [
  | inl one ↦ (48 + n, [], rw one refl)
  | inr more ↦ rw more (append-cons (digits fuel (n / 10)) (48 + n % 10))
]
  where
    append-cons : (xs : List ℕ) (d : ℕ) → (c : ℕ) × (cs : List ℕ) × (xs ++ d ∷ [] ≡ c ∷ cs)
    append-cons [] d = (d, [], refl)
    append-cons (x ∷ xs) d = (x, xs ++ d ∷ [], refl)

-- Reading back what was written.
pub parse_u64-digits :
    (fuel n : ℕ) → n < 10 ^ suc fuel → n < 2 ^ 64 → parse_u64 (digits (suc fuel) n) ≡ some n
unfolding parse_u64 parse_from
parse_u64-digits fuel n small h =
    ap parse_u64 (c.2)
    ∙ plain (all_of (all-digits (suc fuel) n))
        (sym (ap (parse_from (some 0)) c.2) ∙ parse_from-digits (suc fuel) n small h)
  where
    c : (c : ℕ) × (cs : List ℕ) × (digits (suc fuel) n ≡ c ∷ cs)
    c = digits-cons fuel n

    all_of : all is_digit (digits (suc fuel) n) ≡ true → all is_digit (c.0 ∷ c.1) ≡ true
    all_of e = sym (ap (all is_digit) c.2) ∙ e

    plain :
        all is_digit (c.0 ∷ c.1) ≡ true
        → parse_from (some 0) (c.0 ∷ c.1) ≡ some n
        → parse_u64 (c.0 ∷ c.1) ≡ some n
    plain digit e = ground arith
