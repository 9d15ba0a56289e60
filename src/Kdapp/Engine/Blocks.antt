-- ===== src/Kdapp/Engine/Blocks.antt =====
-- Reorganisations, block by block.
use mathlib.Core.List.{reverse-cons}
use kaspa_x.Base.{
  ℕ, ◌≡◌, refl, sym, subst, ap, ◌∙◌, inl, inr, Option, none, some, List, [], ◌∷◌, ◌++◌, arith,
  reverse, Option-cases, Bool-cases,
}
use kaspa_x.Base.Assoc.{lookup, insert, erase, contains_key, lookup-insert_self, erase-insert}
use kaspa_x.Kdapp.Episode.{PayloadMetadata, Episode, IsReversible, Result, ok, err, EpisodeError}
use kaspa_x.Kdapp.Engine.{
  Engine, EpisodeWrapper, EpisodeMessage, new_episode, signed_command, unsigned_command, revert,
  Codec, Event, AssociatedTx, Handled, handle_message, handle_new, handle_signed, handle_unsigned,
  handle_revert, after_command, filter_old_episodes, accept_message, tx_metadata, accept_txs,
  push_revert, logged, revert_all, on_blk_accepted, on_blk_reverted, pop_rollback, after_rollback,
}
use kaspa_x.Kdapp.Engine.Invariant.{Inv}
use kaspa_x.Kdapp.Engine.Reorg.{Undoes, accept_message-Undoes}
use kaspa_x.Kdapp.Engine.Run.{AdmitsTxs, filter-Inv, accept_message-Inv, revert_all_step}

module _ {S C R E : Type 0} {ep : Episode S C R E} {Admits : List ℕ → Type 0} {Valid : S → Type 0}
    (law : IsReversible ep Admits Valid) (ext : Codec C) {H : Type 0} (handlers : List H) where
  -- The part of a run ends, without a panic, in the engine that is named.
  abbrev pub EndsIn : Option (Engine S R × List (H × Event S C)) → Engine S R → Type 0
  EndsIn none e = ⊥
  EndsIn (some (e', _)) e = e' ≡ e

  logged-EndsIn :
      (log : List (H × Event S C)) (r : Option (Engine S R × List (H × Event S C))) (e : Engine S R)
      → EndsIn r e
      → EndsIn (logged ep ext handlers log r) e
  logged-EndsIn log none e h = h
  logged-EndsIn log (some (e', logs)) e h = h

  EndsIn-logged :
      (log : List (H × Event S C)) (r : Option (Engine S R × List (H × Event S C))) (e : Engine S R)
      → EndsIn (logged ep ext handlers log r) e
      → EndsIn r e
  EndsIn-logged log none e h = h
  EndsIn-logged log (some (e', logs)) e h = h

  revert_all-append :
      (hash id : ℕ) (md : PayloadMetadata) (rs : List (ℕ × PayloadMetadata)) (e e' : Engine S R)
      → EndsIn (revert_all ep ext handlers hash rs e) e'
      → EndsIn
          (revert_all ep ext handlers hash (rs ++ (id, md) ∷ []) e)
          (handle_revert ep ext handlers id e').0
  unfolding revert_all
  revert_all-append hash id md [] e e' h =
      rw (revert_all_step law ext handlers hash id md [] e)
        (ap (λ x. (handle_revert ep ext handlers id x).0) h)
  revert_all-append hash id md ((j, mj) ∷ rs) e e' h =
      rw (revert_all_step law ext handlers hash j mj (rs ++ (id, md) ∷ []) e) (
        logged-EndsIn _ _ _ (
          revert_all-append hash id md rs (handle_revert ep ext handlers j e).0 e' (
            EndsIn-logged _ _ _
              (subst (λ r. EndsIn r e') (revert_all_step law ext handlers hash j mj rs e) h))))

  -- A block's revert list, backwards, leads from the engine behind it to `e`.
  abbrev Backs :
      ℕ → Engine S R × List (ℕ × PayloadMetadata) × List (H × Event S C) → Engine S R → Type 0
  Backs hash (e', rs, _) e = EndsIn (revert_all ep ext handlers hash (reverse rs) e') e

  push_revert-Backs :
      (hash : ℕ) (e : Engine S R) (p : Handled ep ext handlers)
      (q : Engine S R × List (ℕ × PayloadMetadata) × List (H × Event S C))
      → Undoes law ext handlers e p
      → Backs hash q p.0
      → Backs hash (q.0, push_revert ep ext handlers p.1 q.1, p.2 ++ q.2) e
  push_revert-Backs hash e (e', none, log) q undoes rest = subst (Backs hash q) undoes rest
  push_revert-Backs hash e (e', some (id, md), log) q undoes rest = rw (reverse-cons (id, md) q.1) (
      subst (EndsIn (revert_all ep ext handlers hash (reverse q.1 ++ (id, md) ∷ []) q.0)) undoes
        (revert_all-append hash id md (reverse q.1) q.0 e' rest))

  accept_txs-Backs :
      (hash daa time h : ℕ) (txs : List AssociatedTx) (e : Engine S R)
      → AdmitsTxs Admits ext txs
      → Inv ep Valid e
      → Backs h (accept_txs ep ext handlers hash daa time txs e) e
  unfolding accept_txs revert_all
  accept_txs-Backs hash daa time h [] e a i = refl
  accept_txs-Backs hash daa time h (tx ∷ txs) e a i =
      let md = tx_metadata ep ext handlers hash daa time tx in
      let p = accept_message ep ext handlers (ext.from_slice tx.1) md e in
      push_revert-Backs h e p (accept_txs ep ext handlers hash daa time txs p.0)
        (accept_message-Undoes law ext handlers i (ext.from_slice tx.1) md)
        (accept_txs-Backs hash daa time h txs p.0 a.1
          (accept_message-Inv law ext handlers (ext.from_slice tx.1) md e a.0 i))

  after_pop-revert_map :
      (id : ℕ) (e : Engine S R) (w : EpisodeWrapper S R) (rs : List R)
      → (after_rollback ep ext handlers id e (pop_rollback ep w rs)).0.revert_map ≡ e.revert_map
  after_pop-revert_map id e w [] = refl
  after_pop-revert_map id e w (r ∷ rs) = refl

  after_command-revert_map :
      (id : ℕ) (c : C) (auth : Option ℕ) (md : PayloadMetadata) (e : Engine S R)
      (x : EpisodeWrapper S R × Result (Unit {0}) (EpisodeError E))
      → (after_command ep ext handlers id c auth md e x).0.revert_map ≡ e.revert_map
  after_command-revert_map id c auth md e (w, ok _) = refl
  after_command-revert_map id c auth md e (w, err _) = refl

  accept_message-revert_map :
      (m : Option (EpisodeMessage C)) (md : PayloadMetadata) (e : Engine S R)
      → (accept_message ep ext handlers m md e).0.revert_map ≡ e.revert_map
  unfolding handle_message handle_new handle_signed handle_unsigned
  accept_message-revert_map none md e = refl
  accept_message-revert_map (some (revert id)) md e = refl
  accept_message-revert_map (some (new_episode id ps)) md e =
      elim (Bool-cases (contains_key id e.episodes)) [
        | inl present ↦ rw present
        | inr absent ↦ rw absent
      ]
  accept_message-revert_map (some (signed_command id c pk sig)) md e =
      elim (Option-cases (lookup id e.episodes)) [
        | inl missing ↦ rw (missing, handle_signed)
        | inr (w, at) ↦ rw (at, handle_signed) (after_command-revert_map id c (some pk) md e _)
      ]
  accept_message-revert_map (some (unsigned_command id c)) md e =
      elim (Option-cases (lookup id e.episodes)) [
        | inl missing ↦ rw (missing, handle_unsigned)
        | inr (w, at) ↦ rw (at, handle_unsigned) (after_command-revert_map id c none md e _)
      ]

  accept_txs-revert_map :
      (hash daa time : ℕ) (txs : List AssociatedTx) (e : Engine S R)
      → (accept_txs ep ext handlers hash daa time txs e).0.revert_map ≡ e.revert_map
  unfolding accept_txs
  accept_txs-revert_map hash daa time [] e = refl
  accept_txs-revert_map hash daa time (tx ∷ txs) e =
      accept_txs-revert_map hash daa time txs _
      ∙ accept_message-revert_map (ext.from_slice tx.1)
          (tx_metadata ep ext handlers hash daa time tx) e

  filter-revert_map :
      (daa : ℕ) (e : Engine S R) → (filter_old_episodes daa e).revert_map ≡ e.revert_map
  unfolding filter_old_episodes
  filter-revert_map daa e = ground arith

  -- An accepted block that is reverted leaves the engine as the filtering at its start has left it:
  -- every episode, every rollback stack, every creation time and the revert map. The block's hash
  -- must be new, its new episodes' participants admitted, and the episodes' type reversible.
  pub on_blk_reverted-on_blk_accepted :
      (hash daa time : ℕ) (txs : List AssociatedTx) (e : Engine S R)
      → AdmitsTxs Admits ext txs
      → Inv ep Valid e
      → lookup hash e.revert_map ≡ none
      → EndsIn
          (on_blk_reverted ep ext handlers hash
            (on_blk_accepted ep ext handlers hash daa time txs e).0)
          (filter_old_episodes daa e)
  unfolding on_blk_accepted on_blk_reverted
  on_blk_reverted-on_blk_accepted hash daa time txs e a i fresh =
      rw (lookup-insert_self hash q.1 q.0.revert_map, on_blk_reverted)
        (subst (λ x. EndsIn (revert_all ep ext handlers hash (reverse q.1) x) f) (sym whole)
          (accept_txs-Backs hash daa time hash txs f a (filter-Inv ep Valid daa e i)))
    where
      f : Engine S R
      f = filter_old_episodes daa e

      q : Engine S R × List (ℕ × PayloadMetadata) × List (H × Event S C)
      q = accept_txs ep ext handlers hash daa time txs f

      absent : lookup hash q.0.revert_map ≡ none
      absent =
          ap (lookup hash) (accept_txs-revert_map hash daa time txs f ∙ filter-revert_map daa e)
          ∙ fresh

      whole : record q.0 { revert_map = erase hash (insert hash q.1 q.0.revert_map) } ≡ q.0
      whole = λ i. record q.0 { revert_map = erase-insert hash q.1 q.0.revert_map absent i }
