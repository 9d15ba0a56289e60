-- ===== src/Kdapp/Engine.antt =====
-- applications/kdapps/kdapp/src/engine.rs (and verify_signature of pki.rs): the engine that runs the
-- episodes of one type and follows the reorganisations of the DAG.
-- The head of a `rollback_stack` is the top of the code's vector. What the event handlers are told is
-- a log of (handler, event) pairs. A panic is `none`.
pub mod Reorg
pub mod Invariant
pub mod Run
pub mod Filter
pub mod Blocks
pub mod Guards
pub mod Authority
use kaspa_x.Base.{
  ℕ, ◌+◌, ◌-◌, ◌%◌, ◌^◌, Bool, true, false, Option, none, some, List, [], ◌∷◌, ◌++◌, map, reverse,
  arith, ltb, if◌then◌else◌, add64,
}
use kaspa_x.Base.Assoc.{Map, lookup, contains_key, insert, erase}
use kaspa_x.Kdapp.Episode.{
  PayloadMetadata, TxOutputInfo, EpisodeError, invalid_signature, delete_episode, Result, ok, err,
  Episode,
}

abbrev pub episode_lifetime : ℕ
episode_lifetime = 2592000

abbrev pub sample_removal_time : ℕ
sample_removal_time = 432000

pub record EpisodeWrapper (S R : Type 0) : Type 0 where
  pub episode : S
  pub rollback_stack : List R

pub data EpisodeMessage (C : Type 0) : Type 0 where
  new_episode : ℕ → List ℕ → EpisodeMessage C
  signed_command : ℕ → C → ℕ → ℕ → EpisodeMessage C
  unsigned_command : ℕ → C → EpisodeMessage C
  revert : ℕ → EpisodeMessage C

-- A carrier transaction: its id, its payload and its outputs.
abbrev pub AssociatedTx : Type 0
AssociatedTx = ℕ × List ℕ × Option (List TxOutputInfo)

pub data EngineMsg : Type 0 where
  blk_accepted : ℕ → ℕ → ℕ → List AssociatedTx → EngineMsg
  blk_reverted : ℕ → EngineMsg
  exit : EngineMsg

pub record Engine (S R : Type 0) : Type 0 where
  pub episodes : Map (EpisodeWrapper S R)
  pub revert_map : Map (List (ℕ × PayloadMetadata))
  pub next_filtering : ℕ
  pub episode_creation_times : Map ℕ

pub data Event (S C : Type 0) : Type 0 where
  on_initialize : ℕ → S → Event S C
  on_command : ℕ → S → C → Option ℕ → PayloadMetadata → Event S C
  on_rollback : ℕ → S → Event S C

-- borsh, SHA-256 and secp256k1: `borsh::from_slice`, `to_message`, `verify_ecdsa`.
pub record Codec (C : Type 0) : Type 0 where
  pub from_slice : List ℕ → Option (EpisodeMessage C)
  pub to_message : C → ℕ
  pub verify_ecdsa : ℕ → ℕ → ℕ → Bool

unfoldable pub episode_id : {C : Type 0} → EpisodeMessage C → ℕ
episode_id (new_episode id _) = id
episode_id (signed_command id _ _ _) = id
episode_id (unsigned_command id _) = id
episode_id (revert id) = id

unfoldable pub new : {S R : Type 0} → Engine S R
new = record { episodes = []; revert_map = []; next_filtering = 0; episode_creation_times = [] }

abbrev pub notify : {H S C : Type 0} → List H → Event S C → List (H × Event S C)
notify hs ev = map (λ h. (h, ev)) hs

-- `creation_time < &daa_score.saturating_sub(episode_lifetime)`.
abbrev pub is_old : ℕ → ℕ → Bool
is_old daa time = ltb time (daa - episode_lifetime)

unfoldable pub old_ids : ℕ → Map ℕ → List ℕ
old_ids daa [] = []
old_ids daa ((id, time) ∷ m) =
    let rest = old_ids daa m in if is_old daa time then id ∷ rest else rest

unfoldable pub erase_all {ℓ} : {V : Type ℓ} → List ℕ → Map V → Map V
erase_all [] m = m
erase_all (id ∷ ids) m = erase_all ids (erase id m)

unfoldable pub filter_old_episodes : {S R : Type 0} → ℕ → Engine S R → Engine S R
unfolding old_ids erase_all
filter_old_episodes daa e =
    if ltb (add64 e.next_filtering sample_removal_time) daa
    then (let ids = old_ids daa e.episode_creation_times in
        record e {
          episodes = erase_all ids e.episodes;
          episode_creation_times = erase_all ids e.episode_creation_times;
          next_filtering = daa;
        })
    else e

abbrev pub pushed :
    {S R E : Type 0}
    → EpisodeWrapper S R
    → S × Result R (EpisodeError E)
    → EpisodeWrapper S R × Result (Unit {0}) (EpisodeError E)
pushed w (s, ok r) = (record { episode = s; rollback_stack = r ∷ w.rollback_stack }, ok tt)
pushed w (s, err e) = (record w { episode = s }, err e)

module _ {S C R E : Type 0} (ep : Episode S C R E) where
  unfoldable pub wrapper_initialize : List ℕ → PayloadMetadata → EpisodeWrapper S R
  wrapper_initialize ps md = record { episode = ep.initialize ps md; rollback_stack = [] }

  unfoldable pub execute_unsigned :
      C
      → PayloadMetadata
      → EpisodeWrapper S R
      → EpisodeWrapper S R × Result (Unit {0}) (EpisodeError E)
  execute_unsigned c md w = pushed w (ep.execute c none md w.episode)

  abbrev pub pop_rollback :
      EpisodeWrapper S R → List R → EpisodeWrapper S R × Result (Unit {0}) (EpisodeError E)
  pop_rollback w [] = (w, err delete_episode)
  pop_rollback w (r ∷ rs) =
      (record { episode = (ep.rollback r w.episode).0; rollback_stack = rs }, ok tt)

  unfoldable pub wrapper_rollback :
      EpisodeWrapper S R → EpisodeWrapper S R × Result (Unit {0}) (EpisodeError E)
  wrapper_rollback w = pop_rollback w w.rollback_stack

unfoldable pub verify_signature : {C : Type 0} → Codec C → ℕ → ℕ → ℕ → Bool
verify_signature ext public_key message signature = ext.verify_ecdsa message signature public_key

module _ {S C R E : Type 0} (ep : Episode S C R E) (ext : Codec C) where
  unfoldable pub execute_signed :
      C
      → ℕ
      → ℕ
      → PayloadMetadata
      → EpisodeWrapper S R
      → EpisodeWrapper S R × Result (Unit {0}) (EpisodeError E)
  unfolding verify_signature
  execute_signed c pk sig md w =
      if verify_signature ext pk (ext.to_message c) sig
      then pushed w (ep.execute c (some pk) md w.episode)
      else (w, err invalid_signature)

  module _ {H : Type 0} (handlers : List H) where
    -- The engine after a message, what it returns for the block's revert list, and its notices.
    abbrev pub Handled : Type 0
    Handled = Engine S R × Option (ℕ × PayloadMetadata) × List (H × Event S C)

    unfoldable pub handle_new : ℕ → List ℕ → PayloadMetadata → Engine S R → Handled
    unfolding wrapper_initialize
    handle_new id ps md e =
        if contains_key id e.episodes
        then (e, none, [])
        else let ew = wrapper_initialize ep ps md in
          (
            record e {
              episodes = insert id ew e.episodes;
              episode_creation_times = insert id md.accepting_daa e.episode_creation_times;
            },
            some (id, md),
            notify handlers (on_initialize id ew.episode),
          )

    abbrev pub after_command :
        ℕ
        → C
        → Option ℕ
        → PayloadMetadata
        → Engine S R
        → EpisodeWrapper S R × Result (Unit {0}) (EpisodeError E)
        → Handled
    after_command id c auth md e (w, ok _) = (
      record e { episodes = insert id w e.episodes },
      some (id, md),
      notify handlers (on_command id w.episode c auth md),
    )
    after_command id c auth md e (w, err _) =
        (record e { episodes = insert id w e.episodes }, none, [])

    unfoldable pub handle_signed : ℕ → C → ℕ → ℕ → PayloadMetadata → Engine S R → Handled
    unfolding execute_signed
    handle_signed id c pk sig md e = elim (lookup id e.episodes) [
      | none ↦ (e, none, [])
      | some w ↦ after_command id c (some pk) md e (execute_signed c pk sig md w)
    ]

    unfoldable pub handle_unsigned : ℕ → C → PayloadMetadata → Engine S R → Handled
    unfolding execute_unsigned
    handle_unsigned id c md e = elim (lookup id e.episodes) [
      | none ↦ (e, none, [])
      | some w ↦ after_command id c none md e (execute_unsigned ep c md w)
    ]

    -- Of the errors only `delete_episode` removes the episode.
    abbrev pub after_rollback :
        ℕ → Engine S R → EpisodeWrapper S R × Result (Unit {0}) (EpisodeError E) → Handled
    after_rollback id e (w, err delete_episode) = (
      record e {
        episodes = erase id e.episodes;
        episode_creation_times = erase id e.episode_creation_times;
      },
      none,
      notify handlers (on_rollback id w.episode),
    )
    after_rollback id e (w, _) = (
      record e { episodes = insert id w e.episodes },
      none,
      notify handlers (on_rollback id w.episode),
    )

    unfoldable pub handle_revert : ℕ → Engine S R → Handled
    unfolding wrapper_rollback
    handle_revert id e = elim (lookup id e.episodes) [
      | none ↦ (e, none, [])
      | some w ↦ after_rollback id e (wrapper_rollback ep w)
    ]

    unfoldable pub handle_message : EpisodeMessage C → PayloadMetadata → Engine S R → Handled
    unfolding handle_new handle_signed handle_unsigned handle_revert
    handle_message (new_episode id ps) md e = handle_new id ps md e
    handle_message (signed_command id c pk sig) md e = handle_signed id c pk sig md e
    handle_message (unsigned_command id c) md e = handle_unsigned id c md e
    handle_message (revert id) md e = handle_revert id e

    -- One transaction of an accepted block: a revert from outside and a payload that does not parse
    -- are skipped.
    abbrev pub accept_message : Option (EpisodeMessage C) → PayloadMetadata → Engine S R → Handled
    accept_message (some (revert _)) md e = (e, none, [])
    accept_message (some m) md e = handle_message m md e
    accept_message none md e = (e, none, [])

    abbrev pub tx_metadata : ℕ → ℕ → ℕ → AssociatedTx → PayloadMetadata
    tx_metadata hash daa time (tx_id, _, outputs) = record {
      accepting_hash = hash;
      accepting_daa = daa;
      accepting_time = time;
      tx_id = tx_id;
      tx_outputs = outputs;
    }

    abbrev pub push_revert {ℓ} : {A : Type ℓ} → Option A → List A → List A
    push_revert none rs = rs
    push_revert (some r) rs = r ∷ rs

    unfoldable pub accept_txs :
        ℕ
        → ℕ
        → ℕ
        → List AssociatedTx
        → Engine S R
        → Engine S R × List (ℕ × PayloadMetadata) × List (H × Event S C)
    unfolding handle_message
    accept_txs hash daa time [] e = (e, [], [])
    accept_txs hash daa time (tx ∷ txs) e =
        let (e', r, log) = accept_message (ext.from_slice tx.1) (tx_metadata hash daa time tx) e in
        let (e'', rs, logs) = accept_txs hash daa time txs e' in
        (e'', push_revert r rs, log ++ logs)

    abbrev pub asserted : Handled → Option (Engine S R × List (H × Event S C))
    asserted (e, none, log) = some (e, log)
    asserted (e, some _, log) = none

    -- More of the run, after what has been logged.
    abbrev pub logged :
        List (H × Event S C)
        → Option (Engine S R × List (H × Event S C))
        → Option (Engine S R × List (H × Event S C))
    logged log none = none
    logged log (some (e, logs)) = some (e, log ++ logs)

    -- `for reversion in … { assert_eq!(self.handle_message(…), None) }`.
    unfoldable pub revert_all :
        ℕ → List (ℕ × PayloadMetadata) → Engine S R → Option (Engine S R × List (H × Event S C))
    unfolding handle_message
    revert_all hash [] e = some (e, [])
    revert_all hash ((id, md) ∷ rs) e =
        elim (asserted (handle_message (revert id) (record md { accepting_hash = hash }) e)) [
          | none ↦ none
          | some (e', log) ↦ logged log (revert_all hash rs e')
        ]

    unfoldable pub on_blk_accepted :
        ℕ → ℕ → ℕ → List AssociatedTx → Engine S R → Engine S R × List (H × Event S C)
    unfolding filter_old_episodes accept_txs
    on_blk_accepted hash daa time txs e =
        let (e', rs, log) = accept_txs hash daa time txs (filter_old_episodes daa e) in
        (record e' { revert_map = insert hash rs e'.revert_map }, log)

    unfoldable pub on_blk_reverted : ℕ → Engine S R → Option (Engine S R × List (H × Event S C))
    unfolding revert_all
    on_blk_reverted hash e = elim (lookup hash e.revert_map) [
      | none ↦ some (e, [])
      | some rs ↦ revert_all hash (reverse rs) (record e { revert_map = erase hash e.revert_map })
    ]

    -- The receive loop over the messages that arrive before the channel closes.
    unfoldable pub start : List EngineMsg → Engine S R → Option (Engine S R × List (H × Event S C))
    unfolding on_blk_accepted on_blk_reverted
    start [] e = some (e, [])
    start (exit ∷ msgs) e = some (e, [])
    start (blk_accepted hash daa time txs ∷ msgs) e =
        let (e', log) = on_blk_accepted hash daa time txs e in logged log (start msgs e')
    start (blk_reverted hash ∷ msgs) e = elim (on_blk_reverted hash e) [
      | none ↦ none
      | some (e', log) ↦ elim (start msgs e') [
        | none ↦ none
        | some (e'', logs) ↦ some (e'', log ++ logs)
      ]
    ]
