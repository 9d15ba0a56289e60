-- ===== src/Tests/Generator.antt =====
-- A payload whose id is the value of its nonce's first byte.
use kaspa_x.Base.{ℕ, ◌≡◌, refl, true, List, [], ◌∷◌, arith, to_le_bytes}
use kaspa_x.Base.Slices.{byte}
use kaspa_x.Kdapp.Generator.{PatternType, check_pattern, build_payload}
use kaspa_x.Kdapp.Generator.Payloads.{Found, framed, build_payload-Found}

abbrev id_of : List ℕ → ℕ
id_of payload = byte payload 4

-- Bits 0 and 2 are set, bit 1 is not: the nonce 5 matches first.
abbrev pattern : PatternType
pattern = (0, 1) ∷ (1, 0) ∷ (2, 1) ∷ []

five_matches : check_pattern (id_of (framed 858598618 5 (9 ∷ 8 ∷ []))) pattern ≡ true
unfolding check_pattern to_le_bytes
five_matches = refl

build_payload-Found_example :
    Found id_of pattern 858598618 (9 ∷ 8 ∷ []) (build_payload id_of pattern (9 ∷ 8 ∷ []) 858598618)
build_payload-Found_example =
    build_payload-Found id_of pattern (9 ∷ 8 ∷ []) 858598618 5 (omega arith) (omega arith)
      five_matches
