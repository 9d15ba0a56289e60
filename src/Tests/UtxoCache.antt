-- ===== src/Tests/UtxoCache.antt =====
-- A cache that has asked for one address, asked again 400 ms later.
use kaspa_x.Base.{ℕ, ◌≡◌, refl, Option, some, List, [], ◌∷◌}
use kaspa_x.Base.Assoc.{insert}
use kaspa_x.Kdapp.UtxoCache.{UtxoCache, new, get}
use kaspa_x.Kdapp.UtxoCache.Freshness.{Backed, get-Recent}

-- An entry is its outpoint; an address has one, from the time of the answer.
abbrev client : ℕ → ℕ → Option (List (ℕ × ℕ))
client now addr = some ((now, addr) ∷ [])

abbrev empty : UtxoCache (ℕ × ℕ)
empty = new 500

empty-Backed : Backed client empty
unfolding new
empty-Backed addr t entries h = cc

abbrev warm : UtxoCache (ℕ × ℕ)
warm = (get client 1000 7 empty).0

warm-Backed : Backed client warm
warm-Backed = (get-Recent client 1000 7 empty empty-Backed).1

cached : (get client 400001000 7 warm).1 ≡ some ((1000, 7) ∷ [])
unfolding get new insert
cached = refl
