-- ===== src/Indexer/Mirror/Blocks.antt =====
-- A block's transactions in the engine and in the store.
use kaspa_x.Base.{
  ℕ, suc, ◌+◌, ◌^◌, ◌<◌, ◌≡◌, refl, sym, subst, inl, inr, Option, none, some, List, [], ◌∷◌, length,
  arith, Bool-cases, Option-cases,
}
use kaspa_x.Base.Assoc.{lookup, insert}
use kaspa_x.Kdapp.Episode.{PayloadMetadata, ok, err}
use kaspa_x.Kdapp.Engine.{
  Engine, EpisodeWrapper, EpisodeMessage, new_episode, signed_command, unsigned_command, revert,
  AssociatedTx, on_command, on_initialize, Codec, Handled, pushed, after_command, execute_signed,
  execute_unsigned, verify_signature, wrapper_initialize, handle_new, handle_signed,
  handle_unsigned, handle_message, accept_message, accept_txs, tx_metadata,
}
use kaspa_x.CommentIt.Episode.{UnifiedCommand, UnifiedRollback, Room, Crypto, Executed, initialize}
use kaspa_x.CommentIt.Episode.Rules.{Judged, room-Judged}
use kaspa_x.Indexer.Store.{Mem}
use kaspa_x.Indexer.Listener.{rooms, notice, notice_command, absorb}
use kaspa_x.Indexer.Mirror.Writes.{
  Undisturbed-refl, notice_command-Undisturbed, refresh-Undisturbed, notice-Sorted,
}
use kaspa_x.Indexer.Mirror.Rooms.{refresh, initialize-Listed, Mirrored, Step-Mirrored}
use kaspa_x.Indexer.Mirror.Watched.{
  Watched, Watched-suc, stored-Watched, Step-numbers, absorb-append,
}

module _ (crypto : Crypto) (ext : Codec UnifiedCommand) (n : ℕ) where
  -- What a message leaves of the engine, and the store that has heard of it.
  abbrev Followed : Handled (rooms crypto) ext (tt ∷ []) → Mem → Type 0
  Followed x m = Watched n x.0.episodes (absorb x.2 m)

  module _ (md : PayloadMetadata) (e : Engine Room UnifiedRollback) (m : Mem)
      (h : Watched (suc n) e.episodes m) (id : ℕ) where
    -- A command that changes nothing.
    kept-Watched :
        (w : EpisodeWrapper Room UnifiedRollback) (s' : Room)
        → lookup id e.episodes ≡ some w
        → s' ≡ w.episode
        → Watched n (insert id (record w { episode = s' }) e.episodes) m
    kept-Watched w s' found same =
        let (mirrored, room) = h.mirrored id w found in
        stored-Watched n e.episodes m h id (record w { episode = s' }) m h.sorted
          (subst (λ s. Mirrored id s m) (sym same) mirrored)
          (subst (λ s. s.next_comment_id + n < 2 ^ 64) (sym same) (omega (arith, room)))
          λ j other. Undisturbed-refl j m

    ran-Followed :
        (c : UnifiedCommand) (auth : Option ℕ) (w : EpisodeWrapper Room UnifiedRollback)
        (x : Executed)
        → lookup id e.episodes ≡ some w
        → Judged crypto md w.episode c auth x
        → Followed (after_command (rooms crypto) ext (tt ∷ []) id c auth md e (pushed w x)) m
    unfolding absorb notice
    ran-Followed c auth w (s', err _) found j = kept-Watched w s' found j
    ran-Followed c auth w (s', ok rb) found (pk, same, known, few, step) =
        let (mirrored, room) = h.mirrored id w found in
        let w' : EpisodeWrapper Room UnifiedRollback = record {
          episode = s';
          rollback_stack = rb ∷ w.rollback_stack;
        } in
        subst (λ a. Watched n (insert id w' e.episodes) (notice_command id s' c a md m)) (sym same)
          (stored-Watched n e.episodes m h id w' (notice_command id s' c (some pk) md m)
            (notice-Sorted (on_command id s' c (some pk) md) m h.sorted)
            (Step-Mirrored crypto md pk w.episode m id h.sorted step (omega (arith, room)) mirrored)
            (omega (arith, room, Step-numbers step))
            λ j other. notice_command-Undisturbed j id s' md m c (some pk) other)

    signed-Followed :
        (c : UnifiedCommand) (pk sig : ℕ) (w : EpisodeWrapper Room UnifiedRollback)
        → lookup id e.episodes ≡ some w
        → Followed
            (after_command
              (rooms crypto)
              ext
              (tt ∷ [])
              id
              c
              (some pk)
              md
              e
              (execute_signed (rooms crypto) ext c pk sig md w))
            m
    unfolding execute_signed absorb
    signed-Followed c pk sig w found =
        elim (Bool-cases (verify_signature ext pk (ext.to_message c) sig)) [
          | inl good ↦
              rw good
                (ran-Followed c (some pk) w _ found (room-Judged crypto md w.episode c (some pk)))
          | inr bad ↦ rw bad (kept-Watched w w.episode found refl)
        ]

    unsigned-Followed :
        (c : UnifiedCommand) (w : EpisodeWrapper Room UnifiedRollback)
        → lookup id e.episodes ≡ some w
        → Followed
            (after_command
              (rooms crypto)
              ext
              (tt ∷ [])
              id
              c
              none
              md
              e
              (execute_unsigned (rooms crypto) c md w))
            m
    unfolding execute_unsigned
    unsigned-Followed c w found =
        ran-Followed c none w _ found (room-Judged crypto md w.episode c none)

    same-Followed : Followed (e, none, []) m
    unfolding absorb
    same-Followed = Watched-suc n e.episodes m h

    initial_room : (ps : List ℕ) → (initialize ps md).next_comment_id + n < 2 ^ 64
    unfolding initialize
    initial_room ps = omega (arith, h.short)

    new-Followed :
        (ps : List ℕ)
        → lookup id e.episodes ≡ none
        → Followed (handle_new (rooms crypto) ext (tt ∷ []) id ps md e) m
    unfolding handle_new absorb notice wrapper_initialize
    new-Followed ps missing =
        let r = initialize ps md in
        rw missing (
          stored-Watched n e.episodes m h id (record { episode = r; rollback_stack = [] })
            (notice (on_initialize id r) m) (notice-Sorted (on_initialize id r) m h.sorted)
            (refresh id r m (initialize-Listed id ps md m (h.unknown id missing))) (initial_room ps)
            λ j other. refresh-Undisturbed j id r md m m other)

    known-Followed :
        (ps : List ℕ) (w : EpisodeWrapper Room UnifiedRollback)
        → lookup id e.episodes ≡ some w
        → Followed (handle_new (rooms crypto) ext (tt ∷ []) id ps md e) m
    unfolding handle_new
    known-Followed ps w found = rw found same-Followed

    handle_signed-Followed :
        (c : UnifiedCommand) (pk sig : ℕ)
        → Followed (handle_signed (rooms crypto) ext (tt ∷ []) id c pk sig md e) m
    unfolding handle_signed
    handle_signed-Followed c pk sig = elim (Option-cases (lookup id e.episodes)) [
      | inl missing ↦ rw (handle_signed, missing) same-Followed
      | inr (w, found) ↦ rw (handle_signed, found) (signed-Followed c pk sig w found)
    ]

    handle_unsigned-Followed :
        (c : UnifiedCommand) → Followed (handle_unsigned (rooms crypto) ext (tt ∷ []) id c md e) m
    unfolding handle_unsigned
    handle_unsigned-Followed c = elim (Option-cases (lookup id e.episodes)) [
      | inl missing ↦ rw (handle_unsigned, missing) same-Followed
      | inr (w, found) ↦ rw (handle_unsigned, found) (unsigned-Followed c w found)
    ]

  -- One transaction's message, unless it is a revert.
  accept_message-Followed :
      (o : Option (EpisodeMessage UnifiedCommand)) (md : PayloadMetadata)
      (e : Engine Room UnifiedRollback) (m : Mem)
      → Watched (suc n) e.episodes m
      → Followed (accept_message (rooms crypto) ext (tt ∷ []) o md e) m
  unfolding handle_message
  accept_message-Followed none md e m h = same-Followed md e m h 0
  accept_message-Followed (some (revert id)) md e m h = same-Followed md e m h id
  accept_message-Followed (some (new_episode id ps)) md e m h =
      elim (Option-cases (lookup id e.episodes)) [
        | inl missing ↦ new-Followed md e m h id ps missing
        | inr (w, found) ↦ known-Followed md e m h id ps w found
      ]
  accept_message-Followed (some (signed_command id c pk sig)) md e m h =
      handle_signed-Followed md e m h id c pk sig
  accept_message-Followed (some (unsigned_command id c)) md e m h =
      handle_unsigned-Followed md e m h id c

-- Whatever a block's transactions carry: if the store mirrors the engine's rooms before it, then after
-- the engine has run them and the store has heard of it, the store again has of each room its snapshot,
-- its comments, in order and no others, and its authenticated participants as members; and it has
-- no comments of others. Each room must have comment numbers left for all transactions.
pub accept_txs-Watched :
    (crypto : Crypto) (ext : Codec UnifiedCommand) (hash daa time : ℕ) (txs : List AssociatedTx)
    (e : Engine Room UnifiedRollback) (m : Mem)
    → Watched (length txs) e.episodes m
    → Watched 0
        (accept_txs (rooms crypto) ext (tt ∷ []) hash daa time txs e).0.episodes
        (absorb (accept_txs (rooms crypto) ext (tt ∷ []) hash daa time txs e).2 m)
unfolding accept_txs absorb
accept_txs-Watched crypto ext hash daa time [] e m h = h
accept_txs-Watched crypto ext hash daa time (tx ∷ txs) e m h =
    let md = tx_metadata (rooms crypto) ext (tt ∷ []) hash daa time tx in
    let x = accept_message (rooms crypto) ext (tt ∷ []) (ext.from_slice tx.1) md e in
    subst (Watched 0 (accept_txs (rooms crypto) ext (tt ∷ []) hash daa time txs x.0).0.episodes)
      (sym (absorb-append x.2 (accept_txs (rooms crypto) ext (tt ∷ []) hash daa time txs x.0).2 m))
      (accept_txs-Watched crypto ext hash daa time txs x.0 (absorb x.2 m)
        (accept_message-Followed crypto ext (length txs) (ext.from_slice tx.1) md e m h))
