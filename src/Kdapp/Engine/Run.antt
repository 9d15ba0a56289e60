-- ===== src/Kdapp/Engine/Run.antt =====
-- Whole runs of the engine's receive loop.
use kaspa_x.Base.{
  ℕ, ◌≡◌, refl, inl, inr, Option, none, some, List, [], ◌∷◌, arith, reverse, Option-cases,
  Bool-cases, ltb, if◌then◌else◌, contains, add64,
}
use kaspa_x.Base.Assoc.{Map, lookup, erase, contains_key, lookup-erase, IsMap, erase-IsMap}
use kaspa_x.Kdapp.Episode.{PayloadMetadata, Episode, IsReversible}
use kaspa_x.Kdapp.Engine.{
  Engine, EpisodeWrapper, EpisodeMessage, new_episode, signed_command, unsigned_command, revert,
  new, Codec, Event, EngineMsg, blk_accepted, blk_reverted, exit, AssociatedTx, handle_message,
  handle_revert, filter_old_episodes, accept_message, tx_metadata, accept_txs, asserted, logged,
  Handled, revert_all, on_blk_accepted, on_blk_reverted, start, pop_rollback, after_rollback,
  old_ids, erase_all, sample_removal_time,
}
use kaspa_x.Kdapp.Engine.Invariant.{Inv, AdmitsMessage, handle_revert-Inv, handle_message-Inv}

module _ {V W : Type 0} where
  erase_all-synced :
      (ids : List ℕ) (m : Map V) (n : Map W)
      → ((j : ℕ) → contains_key j m ≡ contains_key j n)
      → (j : ℕ) → contains_key j (erase_all ids m) ≡ contains_key j (erase_all ids n)
  unfolding erase_all
  erase_all-synced [] m n h j = h j
  erase_all-synced (id ∷ ids) m n h j =
      erase_all-synced ids (erase id m) (erase id n)
        (λ i. ground (arith, h i, lookup-erase id i m, lookup-erase id i n)) j

module _ {V : Type 0} where
  erase_all-IsMap : (ids : List ℕ) (m : Map V) → IsMap m → IsMap (erase_all ids m)
  unfolding erase_all
  erase_all-IsMap [] m h = h
  erase_all-IsMap (id ∷ ids) m h = erase_all-IsMap ids (erase id m) (erase-IsMap id m h)

  pub lookup-erase_all :
      (ids : List ℕ) (j : ℕ) (m : Map V)
      → lookup j (erase_all ids m) ≡ (if contains ids j then none else lookup j m)
  unfolding erase_all
  lookup-erase_all [] j m = refl
  lookup-erase_all (id ∷ ids) j m =
      ground (arith, lookup-erase_all ids j (erase id m), lookup-erase id j m)

-- The participants that a block's transactions, or a run's messages, bring in are admitted.
module _ {C : Type 0} (Admits : List ℕ → Type 0) (ext : Codec C) where
  abbrev pub AdmitsParsed : Option (EpisodeMessage C) → Type 0
  AdmitsParsed none = Unit {0}
  AdmitsParsed (some m) = AdmitsMessage Admits m

  abbrev pub AdmitsTxs : List AssociatedTx → Type 0
  AdmitsTxs [] = Unit {0}
  AdmitsTxs (tx ∷ txs) = AdmitsParsed (ext.from_slice tx.1) × AdmitsTxs txs

  abbrev pub AdmitsRun : List EngineMsg → Type 0
  AdmitsRun [] = Unit {0}
  AdmitsRun (blk_accepted _ _ _ txs ∷ msgs) = AdmitsTxs txs × AdmitsRun msgs
  AdmitsRun (blk_reverted _ ∷ msgs) = AdmitsRun msgs
  AdmitsRun (exit ∷ msgs) = Unit {0}

module _ {S C R E : Type 0} (ep : Episode S C R E) (Valid : S → Type 0) where
  pub new-Inv : Inv ep Valid new
  unfolding new
  new-Inv = record { synced = λ _. refl; keys = tt; sound = λ id w e. cc }

  pub filter-Inv :
      (daa : ℕ) (e : Engine S R) → Inv ep Valid e → Inv ep Valid (filter_old_episodes daa e)
  unfolding filter_old_episodes
  filter-Inv daa e h = elim (Bool-cases (ltb (add64 e.next_filtering sample_removal_time) daa)) [
    | inl due ↦ rw due (record {
      synced = erase_all-synced ids e.episodes e.episode_creation_times h.synced;
      keys = erase_all-IsMap ids e.episode_creation_times h.keys;
      sound = λ j w at. h.sound j w (kept j w at);
    })
    | inr early ↦ rw early h
  ]
    where
      ids : List ℕ
      ids = old_ids daa e.episode_creation_times

      kept :
          (j : ℕ) (w : EpisodeWrapper S R)
          → lookup j (erase_all ids e.episodes) ≡ some w
          → lookup j e.episodes ≡ some w
      kept j w at = ground (arith, lookup-erase_all ids j e.episodes)

module _ {S C R E : Type 0} {ep : Episode S C R E} {Admits : List ℕ → Type 0} {Valid : S → Type 0}
    (law : IsReversible ep Admits Valid) (ext : Codec C) {H : Type 0} (handlers : List H) where
  pub accept_message-Inv :
      (m : Option (EpisodeMessage C)) (md : PayloadMetadata) (e : Engine S R)
      → AdmitsParsed Admits ext m
      → Inv ep Valid e
      → Inv ep Valid (accept_message ep ext handlers m md e).0
  accept_message-Inv none md e a h = h
  accept_message-Inv (some (revert id)) md e a h = h
  accept_message-Inv (some (new_episode id ps)) md e a h =
      handle_message-Inv law ext handlers h (new_episode id ps) md a
  accept_message-Inv (some (signed_command id c pk sig)) md e a h =
      handle_message-Inv law ext handlers h (signed_command id c pk sig) md a
  accept_message-Inv (some (unsigned_command id c)) md e a h =
      handle_message-Inv law ext handlers h (unsigned_command id c) md a

  pub accept_txs-Inv :
      (hash daa time : ℕ) (txs : List AssociatedTx) (e : Engine S R)
      → AdmitsTxs Admits ext txs
      → Inv ep Valid e
      → Inv ep Valid (accept_txs ep ext handlers hash daa time txs e).0
  unfolding accept_txs
  accept_txs-Inv hash daa time [] e a h = h
  accept_txs-Inv hash daa time (tx ∷ txs) e a h = accept_txs-Inv hash daa time txs _ a.1 (
      accept_message-Inv (ext.from_slice tx.1) (tx_metadata ep ext handlers hash daa time tx) e a.0
        h)

  -- The result of a part of the run: there is one, and the invariant holds of it.
  abbrev pub Returns : Option (Engine S R × List (H × Event S C)) → Type 0
  Returns none = ⊥
  Returns (some (e, _)) = Inv ep Valid e

  logged-Returns :
      (log : List (H × Event S C)) (r : Option (Engine S R × List (H × Event S C)))
      → Returns r
      → Returns (logged ep ext handlers log r)
  logged-Returns log none h = h
  logged-Returns log (some (e, logs)) h = h

  -- `assert_eq!(…, None)` holds: a revert adds nothing to a revert list.
  after_pop-none :
      (id : ℕ) (e : Engine S R) (w : EpisodeWrapper S R) (rs : List R)
      → (after_rollback ep ext handlers id e (pop_rollback ep w rs)).1 ≡ none
  after_pop-none id e w [] = refl
  after_pop-none id e w (r ∷ rs) = refl

  handle_revert-none : (id : ℕ) (e : Engine S R) → (handle_revert ep ext handlers id e).1 ≡ none
  unfolding handle_revert
  handle_revert-none id e = elim (Option-cases (lookup id e.episodes)) [
    | inl missing ↦ rw (missing, handle_revert)
    | inr (w, at) ↦ rw (at, handle_revert) (after_pop-none id e w w.rollback_stack)
  ]

  asserted-some :
      (p : Handled ep ext handlers) → p.1 ≡ none → asserted ep ext handlers p ≡ some (p.0, p.2)
  asserted-some (e, none, log) h = refl
  asserted-some (e, some x, log) h = cc

  pub revert-asserted :
      (id : ℕ) (md : PayloadMetadata) (e : Engine S R)
      → asserted ep ext handlers (handle_message ep ext handlers (revert id) md e)
        ≡ some ((handle_revert ep ext handlers id e).0, (handle_revert ep ext handlers id e).2)
  unfolding handle_message
  revert-asserted id md e =
      asserted-some (handle_revert ep ext handlers id e) (handle_revert-none id e)

  pub revert_all_step :
      (hash id : ℕ) (md : PayloadMetadata) (rs : List (ℕ × PayloadMetadata)) (e : Engine S R)
      → revert_all ep ext handlers hash ((id, md) ∷ rs) e
        ≡ logged ep ext handlers
            (handle_revert ep ext handlers id e).2
            (revert_all ep ext handlers hash rs (handle_revert ep ext handlers id e).0)
  unfolding revert_all
  revert_all_step hash id md rs e =
      rw (revert-asserted id (record md { accepting_hash = hash }) e, revert_all)

  revert_all-Returns :
      (hash : ℕ) (rs : List (ℕ × PayloadMetadata)) (e : Engine S R)
      → Inv ep Valid e
      → Returns (revert_all ep ext handlers hash rs e)
  unfolding revert_all
  revert_all-Returns hash [] e h = h
  revert_all-Returns hash ((id, md) ∷ rs) e h =
      rw (revert_all_step hash id md rs e) (
        logged-Returns _ _ (revert_all-Returns hash rs _ (handle_revert-Inv law ext handlers h id)))

  pub on_blk_accepted-Inv :
      (hash daa time : ℕ) (txs : List AssociatedTx) (e : Engine S R)
      → AdmitsTxs Admits ext txs
      → Inv ep Valid e
      → Inv ep Valid (on_blk_accepted ep ext handlers hash daa time txs e).0
  unfolding on_blk_accepted
  on_blk_accepted-Inv hash daa time txs e a h =
      let i = accept_txs-Inv hash daa time txs _ a (filter-Inv ep Valid daa e h) in
      record { synced = i.synced; keys = i.keys; sound = i.sound }

  on_blk_reverted-Returns :
      (hash : ℕ) (e : Engine S R)
      → Inv ep Valid e
      → Returns (on_blk_reverted ep ext handlers hash e)
  unfolding on_blk_reverted
  on_blk_reverted-Returns hash e h = elim (Option-cases (lookup hash e.revert_map)) [
    | inl unknown ↦ rw (unknown, on_blk_reverted) h
    | inr (rs, at) ↦
        rw (at, on_blk_reverted)
          (revert_all-Returns hash (reverse rs) _
            (record { synced = h.synced; keys = h.keys; sound = h.sound }))
  ]

  -- Over any messages from the channel that open episodes with admitted participants only, the engine
  -- never panics, in particular the assertion in a block's reversion holds, and it ends in the
  -- invariant: episodes and creation times have the same keys, no creation time is stored twice, and each
  -- episode's rollback stack can be unwound to the end, every rollback succeeding. The invariant must
  -- hold at the start.
  pub start-Returns :
      (msgs : List EngineMsg) (e : Engine S R)
      → AdmitsRun Admits ext msgs
      → Inv ep Valid e
      → Returns (start ep ext handlers msgs e)
  unfolding start
  start-Returns [] e a h = h
  start-Returns (exit ∷ msgs) e a h = h
  start-Returns (blk_accepted hash daa time txs ∷ msgs) e a h =
      logged-Returns _ _ (start-Returns msgs _ a.1 (on_blk_accepted-Inv hash daa time txs e a.0 h))
  start-Returns (blk_reverted hash ∷ msgs) e a h =
      go (on_blk_reverted ep ext handlers hash e) refl (on_blk_reverted-Returns hash e h)
        (λ e'. start-Returns msgs e' a)
    where
      go :
          (r : Option (Engine S R × List (H × Event S C)))
          → on_blk_reverted ep ext handlers hash e ≡ r
          → Returns r
          → ((e' : Engine S R) → Inv ep Valid e' → Returns (start ep ext handlers msgs e'))
          → Returns (start ep ext handlers (blk_reverted hash ∷ msgs) e)
      go none eq i next = absurd i
      go (some (e', log)) eq i next = rw (eq, start) (logged-Returns _ _ (next e' i))
