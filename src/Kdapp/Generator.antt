-- ===== src/Kdapp/Generator.antt =====
-- kdapp/src/generator.rs: the header of a payload, the pattern that a transaction's id must match, and
-- the search for a nonce that makes it match.
-- A hash is the little-endian value of its 32 bytes. How a transaction's id comes from its payload, the
-- rest of it fixed, is a parameter. A panic is `none`.
pub mod Payloads
use kaspa_x.Base.{
  ℕ, zero, suc, ◌+◌, ◌-◌, ◌/◌, ◌%◌, ◌^◌, Bool, true, false, not, ◌&&◌, Option, none, some, List, [],
  ◌∷◌, ◌++◌, ltb, ◌==◌, if◌then◌else◌, length, take, drop, all, to_le_bytes,
}
use kaspa_x.Base.Slices.{bytes_eq}

-- Ten pairs of a bit's position and its value.
abbrev pub PatternType : Type 0
PatternType = List (ℕ × ℕ)

-- `words[i]`, and `(word >> b) & 1`.
abbrev pub word : ℕ → ℕ → ℕ
word hash i = hash / 256 ^ i % 256

abbrev pub bit : ℕ → ℕ → ℕ
bit w b = w / 2 ^ b % 2

unfoldable pub check_pattern : ℕ → PatternType → Bool
check_pattern tx_id pattern = all (λ p. bit (word tx_id (p.0 / 8)) (p.0 % 8) == p.1) pattern

unfoldable pub pack_header : List ℕ → ℕ → List ℕ
unfolding to_le_bytes
pack_header inner prefix = to_le_bytes 4 prefix ++ (to_le_bytes 4 0 ++ inner)

unfoldable pub check_header : List ℕ → ℕ → Bool
unfolding to_le_bytes
check_header payload prefix =
    if ltb (length payload) 8 then false else bytes_eq (take 4 payload) (to_le_bytes 4 prefix)

-- For a payload of at least eight bytes, as here.
unfoldable pub set_nonce : List ℕ → ℕ → List ℕ
unfolding to_le_bytes
set_nonce payload nonce = take 4 payload ++ (to_le_bytes 4 nonce ++ drop 8 payload)

unfoldable pub strip_header : List ℕ → List ℕ
strip_header payload = drop 8 payload

module _ (id_of : List ℕ → ℕ) (pattern : PatternType) where
  -- The loop of `build_transaction`, from a payload and its nonce. Each turn raises the nonce, which
  -- panics at 2^32, so that many turns are enough.
  unfoldable pub search : ℕ → ℕ → List ℕ → Option (List ℕ)
  unfolding check_pattern set_nonce
  search zero nonce payload = none
  search (suc fuel) nonce payload =
      let next = search fuel (nonce + 1) (set_nonce payload (nonce + 1)) in
      if check_pattern (id_of payload) pattern
      then some payload
      else if ltb (nonce + 1) (2 ^ 32)
      then next
      else none

  unfoldable pub build_payload : List ℕ → ℕ → Option (List ℕ)
  unfolding pack_header search
  build_payload inner prefix = search (2 ^ 32) 0 (pack_header inner prefix)
