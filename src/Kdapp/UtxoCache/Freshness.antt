-- ===== src/Kdapp/UtxoCache/Freshness.antt =====
-- How old what the cache answers can be.
use kaspa_x.Base.{
  ℕ, ◌≡◌, ◌⊎◌, refl, sym, ap, ◌∙◌, inl, inr, true, Option, none, some, List, [], ◌∷◌, Bool-cases,
}
use kaspa_x.Base.Assoc.{Map, lookup, insert, lookup-insert_cases}
use kaspa_x.Kdapp.UtxoCache.{UtxoCache, is_fresh, fetched, get_from, get, get_many}

module _ {Entry : Type 0} (client : ℕ → ℕ → Option (List Entry)) where
  -- What the cache holds is what the client answered at the time that stands beside it.
  abbrev pub Backed : UtxoCache Entry → Type 0
  Backed c =
      (addr t : ℕ) (entries : List Entry)
      → lookup addr c.inner ≡ some (t, entries)
      → client t addr ≡ some entries

  abbrev pub Recent : ℕ → ℕ → ℕ → Option (List Entry) → Type 0
  Recent ttl_ms now addr r =
      (r ≡ client now addr) ⊎ ((t : ℕ) × (r ≡ client t addr) × (is_fresh ttl_ms now t ≡ true))

  abbrev Answers : ℕ → ℕ → ℕ → UtxoCache Entry × Option (List Entry) → Type 0
  Answers ttl_ms now addr x = Recent ttl_ms now addr x.1 × Backed x.0

  fetched-Answers :
      (now addr : ℕ) (answer : Option (List Entry)) (c : UtxoCache Entry)
      → client now addr ≡ answer
      → Backed c
      → Answers c.ttl_ms now addr (fetched now addr answer c)
  fetched-Answers now addr none c e h = (inl (sym e), h)
  fetched-Answers now addr (some fresh) c e h = (
    inl (sym e),
    λ j t entries found. elim (lookup-insert_cases addr j (now, fresh) (t, entries) c.inner found) [
      | inl (here, same) ↦
          ap (λ p. client p j) (sym (ap (λ x. x.0) same))
          ∙ ap (client now) (sym here)
          ∙ e
          ∙ ap (λ x. some x.1) same
      | inr (away, old) ↦ h j t entries old
    ],
  )

  get_from-Answers :
      (now addr : ℕ) (found : Option (ℕ × List Entry)) (c : UtxoCache Entry)
      → lookup addr c.inner ≡ found
      → Backed c
      → Answers c.ttl_ms now addr (get_from now addr (client now addr) found c)
  get_from-Answers now addr none c e h = fetched-Answers now addr _ c refl h
  get_from-Answers now addr (some (t, cached)) c e h = elim (Bool-cases (is_fresh c.ttl_ms now t)) [
    | inl fresh ↦ rw fresh (inr (t, sym (h addr t cached e), fresh), h)
    | inr stale ↦ rw stale (fetched-Answers now addr _ c refl h)
  ]

-- If what the cache holds is what the client answered at the time beside it, then this is so after get,
-- and what get returns, an error included, is the client's answer at present, or its answer at a time
-- less than the cache's time to live before.
pub get-Recent :
    {Entry : Type 0} (client : ℕ → ℕ → Option (List Entry)) (now addr : ℕ) (c : UtxoCache Entry)
    → Backed client c
    → Recent client c.ttl_ms now addr (get client now addr c).1
      × Backed client (get client now addr c).0
unfolding get
get-Recent client now addr c h = get_from-Answers client now addr _ c refl h

-- The same invariant through a batch, of any length and with an error at any address.
pub get_many-Backed :
    {Entry : Type 0} (client : ℕ → ℕ → Option (List Entry)) (addrs : List (ℕ × ℕ))
    (out : Map (List Entry)) (c : UtxoCache Entry)
    → Backed client c
    → Backed client (get_many client addrs out c).0
unfolding get_many
get_many-Backed client [] out c h = h
get_many-Backed {Entry} client ((addr, now) ∷ addrs) out c h =
    go (get client now addr c).1 (get-Recent client now addr c h).1
      λ v. get_many-Backed client addrs (insert addr v out) (get client now addr c).0
  where
    go :
        (r : Option (List Entry))
        → Backed client (get client now addr c).0
        → ((v : List Entry)
            → Backed client (get client now addr c).0
            → Backed client (get_many client addrs (insert addr v out) (get client now addr c).0).0)
        → Backed client
            (elim r as (λ x. UtxoCache Entry × Option (Map (List Entry))) [
              | none ↦ ((get client now addr c).0, none)
              | some v ↦ get_many client addrs (insert addr v out) (get client now addr c).0
            ]).0
    go none kept rest = kept
    go (some v) kept rest = rest v kept
