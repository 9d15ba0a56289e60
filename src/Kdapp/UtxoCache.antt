-- ===== src/Kdapp/UtxoCache.antt =====
-- kdapp/src/utils/utxo_cache.rs: the cache of the unspent outputs of an address.
-- An address is a number, an instant counts nanoseconds. What the client answers is a parameter, as is
-- the outpoint of one of its entries. The lock is never poisoned, since nothing panics that holds it.
pub mod Freshness
pub mod Outpoints
use kaspa_x.Base.{
  ℕ, ◌-◌, ◌/◌, ◌&&◌, Bool, Option, none, some, List, [], ◌∷◌, if◌then◌else◌, ltb, ◌==◌, any,
}
use kaspa_x.Base.Assoc.{Map, lookup, insert, erase}
use kaspa_x.Kdapp.Engine.{erase_all}

-- `ttl_ms.clamp(100, 2000)`.
unfoldable pub clamp_ttl : ℕ → ℕ
clamp_ttl ttl_ms = if ltb ttl_ms 100 then 100 else if ltb 2000 ttl_ms then 2000 else ttl_ms

-- `now.duration_since(t).as_millis() < ttl_ms`.
abbrev pub is_fresh : ℕ → ℕ → ℕ → Bool
is_fresh ttl_ms now t = ltb ((now - t) / 1000000) ttl_ms

module _ (Entry : Type 0) where
  pub record UtxoCache : Type 0 where
    pub ttl_ms : ℕ
    pub inner : Map (ℕ × List Entry)

module _ {Entry : Type 0} where
  unfoldable pub new : ℕ → UtxoCache Entry
  unfolding clamp_ttl
  new ttl_ms = record { ttl_ms = clamp_ttl ttl_ms; inner = [] }

  unfoldable pub set_ttl_ms : ℕ → UtxoCache Entry → UtxoCache Entry
  unfolding clamp_ttl
  set_ttl_ms ttl_ms c = record c { ttl_ms = clamp_ttl ttl_ms }

  -- The client's answer goes into the cache; an error of its leaves the cache.
  abbrev pub fetched :
      ℕ → ℕ → Option (List Entry) → UtxoCache Entry → UtxoCache Entry × Option (List Entry)
  fetched now addr none c = (c, none)
  fetched now addr (some fresh) c =
      (record c { inner = insert addr (now, fresh) c.inner }, some fresh)

  abbrev pub get_from :
      ℕ
      → ℕ
      → Option (List Entry)
      → Option (ℕ × List Entry)
      → UtxoCache Entry
      → UtxoCache Entry × Option (List Entry)
  get_from now addr answer none c = fetched now addr answer c
  get_from now addr answer (some (t, cached)) c =
      if is_fresh c.ttl_ms now t then (c, some cached) else fetched now addr answer c

  unfoldable pub get :
      (ℕ → ℕ → Option (List Entry))
      → ℕ
      → ℕ
      → UtxoCache Entry
      → UtxoCache Entry × Option (List Entry)
  get client now addr c = get_from now addr (client now addr) (lookup addr c.inner) c

  -- Each address with the time at which it is its turn; the first error ends the batch.
  unfoldable pub get_many :
      (ℕ → ℕ → Option (List Entry))
      → List (ℕ × ℕ)
      → Map (List Entry)
      → UtxoCache Entry
      → UtxoCache Entry × Option (Map (List Entry))
  unfolding get
  get_many client [] out c = (c, some out)
  get_many client ((addr, now) ∷ addrs) out c =
      let (c', r) = get client now addr c in
      elim r [ none ↦ (c', none) | some v ↦ get_many client addrs (insert addr v out) c' ]

  unfoldable pub invalidate_address : ℕ → UtxoCache Entry → UtxoCache Entry
  invalidate_address addr c = record c { inner = erase addr c.inner }

  module _ (outpoint : Entry → ℕ × ℕ) where
    abbrev pub spends : ℕ → ℕ → List Entry → Bool
    spends txid index entries =
        any (λ e. ((outpoint e).0 == txid) && ((outpoint e).1 == index)) entries

    unfoldable pub to_invalidate : ℕ → ℕ → Map (ℕ × List Entry) → List ℕ
    to_invalidate txid index [] = []
    to_invalidate txid index ((k, (t, entries)) ∷ m) =
        let rest = to_invalidate txid index m in
        if spends txid index entries then k ∷ rest else rest

    unfoldable pub invalidate_outpoint : ℕ → ℕ → UtxoCache Entry → UtxoCache Entry
    unfolding to_invalidate erase_all
    invalidate_outpoint txid index c = record c {
      inner = erase_all (to_invalidate txid index c.inner) c.inner;
    }
