-- ===== src/Kdapp/UtxoCache/Outpoints.antt =====
-- What the invalidation of an outpoint removes.
use kaspa_x.Base.{
  ℕ, ◌≡◌, refl, Bool, false, Option, none, some, List, [], ◌∷◌, arith, contains, if◌then◌else◌,
}
use kaspa_x.Base.Assoc.{Map, lookup, IsMap}
use kaspa_x.Kdapp.Engine.Run.{lookup-erase_all}
use kaspa_x.Kdapp.UtxoCache.{UtxoCache, spends, to_invalidate, invalidate_outpoint}

module _ {Entry : Type 0} (outpoint : Entry → ℕ × ℕ) where
  -- Whether an address's entry lists the outpoint.
  abbrev pub holds : ℕ → ℕ → Option (ℕ × List Entry) → Bool
  holds txid index none = false
  holds txid index (some (t, entries)) = spends outpoint txid index entries

  contains-to_invalidate :
      (txid index j : ℕ) (m : Map (ℕ × List Entry))
      → IsMap m
      → contains (to_invalidate outpoint txid index m) j ≡ holds txid index (lookup j m)
  unfolding to_invalidate
  contains-to_invalidate txid index j [] h = refl
  contains-to_invalidate txid index j ((k, (t, entries)) ∷ m) h =
      ground (arith, contains-to_invalidate txid index j m h.1)

-- In a cache that has no address twice: exactly the addresses whose entries list the outpoint are
-- forgotten, and every other keeps its entries and their time.
pub invalidate_outpoint-lookup :
    {Entry : Type 0} (outpoint : Entry → ℕ × ℕ) (txid index j : ℕ) (c : UtxoCache Entry)
    → IsMap c.inner
    → lookup j (invalidate_outpoint outpoint txid index c).inner
      ≡ (if holds outpoint txid index (lookup j c.inner) then none else lookup j c.inner)
unfolding invalidate_outpoint
invalidate_outpoint-lookup outpoint txid index j c h =
    rw (lookup-erase_all, contains-to_invalidate outpoint txid index j c.inner h) refl
