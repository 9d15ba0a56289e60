-- ===== src/Base/Words.antt =====
-- Unsigned machine words as native numbers: wrap-around written out, and little-endian bytes.
use Prim.Native.Nat.{ℕ, zero, suc, ◌+◌, ◌-◌, ◌*◌, ◌/◌, ◌%◌, ◌^◌, ◌<◌}
use mathlib.Core.Path.{◌≡◌, refl, ap}
use mathlib.Core.List.{List, [], ◌∷◌}
use native.Mathlib.Omega.{arith}
use native.Mathlib.Nat.{pow-suc}
use kaspa_x.Base.Lists.{length}
use kaspa_x.Base.Tests.{ltb, if◌then◌else◌}

-- u64 `+`, as a release build computes it.
abbrev pub add64 : ℕ → ℕ → ℕ
add64 a b = (a + b) % 2 ^ 64

abbrev pub sat_add64 : ℕ → ℕ → ℕ
sat_add64 a b = if ltb (a + b) (2 ^ 64) then a + b else 2 ^ 64 - 1

-- `x.to_le_bytes()` of a word of w bytes.
unfoldable pub to_le_bytes : ℕ → ℕ → List ℕ
to_le_bytes zero x = []
to_le_bytes (suc w) x = (x % 256) ∷ to_le_bytes w (x / 256)

-- `from_le_bytes`.
unfoldable pub from_le_bytes : List ℕ → ℕ
from_le_bytes [] = 0
from_le_bytes (b ∷ bs) = b + 256 * from_le_bytes bs

pub length-to_le_bytes : (w x : ℕ) → length (to_le_bytes w x) ≡ w
unfolding to_le_bytes
length-to_le_bytes zero x = refl
length-to_le_bytes (suc w) x = ap suc (length-to_le_bytes w (x / 256))

pub from-to_le_bytes : (w x : ℕ) → x < 256 ^ w → from_le_bytes (to_le_bytes w x) ≡ x
unfolding to_le_bytes from_le_bytes
from-to_le_bytes zero x h = omega arith
from-to_le_bytes (suc w) x h =
    omega (arith, from-to_le_bytes w (x / 256) (omega (arith, pow-suc 256 w)))
