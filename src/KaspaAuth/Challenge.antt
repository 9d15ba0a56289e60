-- ===== src/KaspaAuth/Challenge.antt =====
-- kaspa-auth/src/crypto/challenges.rs: challenges that carry the time of their making, and their age.
-- A string is the list of its characters' code points.
use kaspa_x.Base.{
  ℕ, ◌+◌, ◌-◌, ◌^◌, ◌≡◌, ◌↔◌, ◌≤◌, ◌<◌, refl, Bool, true, ◌&&◌, Option, none, some, List, [], ◌∷◌,
  ◌++◌, if◌then◌else◌, leb, ◌==◌, all, take, to_le_bytes, from_le_bytes, arith,
}
use kaspa_x.Base.Decimal.{digits, is_digit, parse_u64, all-digits, parse_u64-digits}

-- SHA-256 of a byte string, and the number that a ChaCha8 generator seeded with a u64 yields first.
pub record Random : Type 0 where
  pub sha256 : List ℕ → List ℕ
  pub first_u64 : ℕ → ℕ

-- `format!("auth_{}_{}", time, nonce)`.
unfoldable pub challenge_text : ℕ → ℕ → List ℕ
challenge_text time nonce = 97 ∷ 117 ∷ 116 ∷ 104 ∷ 95 ∷ (digits 20 time ++ 95 ∷ digits 20 nonce)

unfoldable pub generate_with_entropy : Random → ℕ → List ℕ → List ℕ
unfolding challenge_text
generate_with_entropy random time extra =
    challenge_text time
      (random.first_u64 (from_le_bytes (take 8 (random.sha256 (to_le_bytes 8 time ++ extra)))))

-- `challenge.strip_prefix("auth_")`.
unfoldable pub strip_auth : List ℕ → Option (List ℕ)
strip_auth (a ∷ b ∷ c ∷ d ∷ e ∷ rest) =
    if a == 97 && (b == 117 && (c == 116 && (d == 104 && e == 95))) then some rest else none
strip_auth (a ∷ b ∷ c ∷ d ∷ []) = none
strip_auth (a ∷ b ∷ c ∷ []) = none
strip_auth (a ∷ b ∷ []) = none
strip_auth (a ∷ []) = none
strip_auth [] = none

-- `s.split('_').next()`: what stands before the first underscore.
unfoldable pub before_underscore : List ℕ → List ℕ
before_underscore [] = []
before_underscore (c ∷ cs) = let rest = before_underscore cs in if c == 95 then [] else c ∷ rest

abbrev pub timestamp_of : Option (List ℕ) → Option ℕ
timestamp_of none = none
timestamp_of (some rest) = parse_u64 (before_underscore rest)

abbrev pub young : Option ℕ → ℕ → ℕ → Bool
young none max_age now = true
young (some time) max_age now = leb (now - time) max_age

-- `is_valid`, by a clock that shows `now`.
unfoldable pub is_valid : List ℕ → ℕ → ℕ → Bool
unfolding strip_auth before_underscore
is_valid challenge max_age now = young (timestamp_of (strip_auth challenge)) max_age now

before_underscore-append :
    (xs ys : List ℕ) → all is_digit xs ≡ true → before_underscore (xs ++ 95 ∷ ys) ≡ xs
unfolding before_underscore
before_underscore-append [] ys h = refl
before_underscore-append (x ∷ xs) ys h = ground (arith, before_underscore-append xs ys)

-- The age test reads the time back that the generator wrote: a challenge made at a u64 time is valid
-- exactly as long as no more than the allowed seconds have passed since.
pub is_valid-generate :
    (random : Random) (time : ℕ) (extra : List ℕ) (max_age now : ℕ)
    → time < 2 ^ 64
    → (is_valid (generate_with_entropy random time extra) max_age now ≡ true)
      ↔ (now ≤ time + max_age)
unfolding is_valid generate_with_entropy challenge_text strip_auth
is_valid-generate random time extra max_age now range =
    rw
      (
        before_underscore-append (digits 20 time) (digits 20 _) (all-digits 20 time),
        parse_u64-digits 19 time (omega arith) range,
      )
      (ground arith)
