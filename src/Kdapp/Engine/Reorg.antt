-- ===== src/Kdapp/Engine/Reorg.antt =====
-- Reorganisations, message by message.
use kaspa_x.Base.{
  ℕ, ◌≡◌, refl, sym, subst, ap, ◌∙◌, inl, inr, true, false, Option, none, some, List, ◌∷◌, arith,
  Option-cases, Bool-cases,
}
use kaspa_x.Base.Assoc.{
  lookup, insert, erase, contains_key, lookup-insert_self, erase-insert, insert-insert, insert_same,
}
use kaspa_x.Kdapp.Episode.{PayloadMetadata, Episode, IsReversible, Result, ok, err, EpisodeError}
use kaspa_x.Kdapp.Engine.{
  Engine, EpisodeWrapper, EpisodeMessage, new_episode, signed_command, unsigned_command, revert,
  Codec, Handled, handle_message, handle_new, handle_signed, handle_unsigned, handle_revert,
  execute_signed, execute_unsigned, pushed, after_command, accept_message, pop_rollback,
  after_rollback, wrapper_initialize,
}
use kaspa_x.Kdapp.Engine.Invariant.{Inv, Undoable-Valid}

module _ {S C R E : Type 0} {ep : Episode S C R E} {Admits : List ℕ → Type 0} {Valid : S → Type 0}
    (law : IsReversible ep Admits Valid) (ext : Codec C) {H : Type 0} (handlers : List H) where
  -- A message that was recorded is undone by its revert, any other has changed nothing.
  abbrev pub Undoes : Engine S R → Handled ep ext handlers → Type 0
  Undoes e (e', none, _) = e' ≡ e
  Undoes e (e', some (id, _), _) = (handle_revert ep ext handlers id e').0 ≡ e

  handle_revert_at :
      (id : ℕ) (e : Engine S R) (w : EpisodeWrapper S R)
      → lookup id e.episodes ≡ some w
      → handle_revert ep ext handlers id e
        ≡ after_rollback ep ext handlers id e (pop_rollback ep w w.rollback_stack)
  unfolding handle_revert
  handle_revert_at id e w at = rw (at, handle_revert)

  module _ {e : Engine S R} (h : Inv ep Valid e) where
    handle_new-Undoes :
        (id : ℕ) (ps : List ℕ) (md : PayloadMetadata)
        → Undoes e (handle_new ep ext handlers id ps md e)
    unfolding handle_new wrapper_initialize
    handle_new-Undoes id ps md = elim (Bool-cases (contains_key id e.episodes)) [
      | inl present ↦ rw present refl
      | inr absent ↦ rw absent (
          ap (λ p. p.0)
            (handle_revert_at id _ (wrapper_initialize ep ps md)
              (lookup-insert_self id (wrapper_initialize ep ps md) e.episodes))
          ∙ restored absent)
    ]
      where
        restored :
            contains_key id e.episodes ≡ false
            → record e {
              episodes = erase id (insert id (wrapper_initialize ep ps md) e.episodes);
              episode_creation_times =
                  erase id (insert id md.accepting_daa e.episode_creation_times);
            }
              ≡ e
        restored absent =
            let fresh : lookup id e.episodes ≡ none = ground arith in
            let undated : lookup id e.episode_creation_times ≡ none = ground (arith, h.synced id) in
            λ i. record e {
              episodes = erase-insert id (wrapper_initialize ep ps md) e.episodes fresh i;
              episode_creation_times =
                  erase-insert id md.accepting_daa e.episode_creation_times undated i;
            }

    rewritten :
        (id : ℕ) (u v w : EpisodeWrapper S R)
        → lookup id e.episodes ≡ some w
        → u ≡ w
        → record e { episodes = insert id u (insert id v e.episodes) } ≡ e
    rewritten id u v w at same = λ i. record e {
      episodes =
          (ap (λ x. insert id x (insert id v e.episodes)) same ∙ insert-insert id w v e.episodes at)
            i;
    }

    command-Undoes :
        (id : ℕ) (c : C) (auth : Option ℕ) (md : PayloadMetadata) (w : EpisodeWrapper S R)
        → lookup id e.episodes ≡ some w
        → Undoes e (
            after_command ep ext handlers id c auth md e
              (pushed w (ep.execute c auth md w.episode)))
    command-Undoes id c auth md w at = go (ep.execute c auth md w.episode) refl
      where
        valid : Valid w.episode
        valid = Undoable-Valid ep Valid w.episode w.rollback_stack (h.sound id w at)

        go :
            (x : S × Result R (EpisodeError E))
            → ep.execute c auth md w.episode ≡ x
            → Undoes e (after_command ep ext handlers id c auth md e (pushed w x))
        go (s, ok r) eq =
            ap (λ p. p.0)
              (handle_revert_at id _ (record { episode = s; rollback_stack = r ∷ w.rollback_stack })
                (lookup-insert_self id _ e.episodes))
            ∙ rewritten id _ _ w at (λ i. record w { episode = undone i })
          where
            undone : (ep.rollback r s).0 ≡ w.episode
            undone =
                ap (λ p. p.0)
                  (subst (λ x. ep.rollback r x ≡ (w.episode, true)) (ap (λ p. p.0) eq)
                    (law.execute-undo c auth md w.episode r valid (ap (λ p. p.1) eq)))
        go (s, err x) eq = λ i. record e {
          episodes =
              (ap (λ t. insert id (record w { episode = t }) e.episodes) same
                  ∙ insert_same id w e.episodes at)
                i;
        }
          where
            same : s ≡ w.episode
            same =
                sym (ap (λ p. p.0) eq)
                ∙ law.execute-atomic c auth md w.episode x valid (ap (λ p. p.1) eq)

    handle_signed-Undoes :
        (id : ℕ) (c : C) (pk sig : ℕ) (md : PayloadMetadata)
        → Undoes e (handle_signed ep ext handlers id c pk sig md e)
    unfolding handle_signed execute_signed
    handle_signed-Undoes id c pk sig md = elim (Option-cases (lookup id e.episodes)) [
      | inl missing ↦ rw (missing, handle_signed) refl
      | inr (w, at) ↦ elim (Bool-cases (ext.verify_ecdsa (ext.to_message c) sig pk)) [
        | inl good ↦ rw (at, good, handle_signed) (command-Undoes id c (some pk) md w at)
        | inr bad ↦
            rw (at, bad, handle_signed)
              (λ i. record e { episodes = insert_same id w e.episodes at i })
      ]
    ]

    handle_unsigned-Undoes :
        (id : ℕ) (c : C) (md : PayloadMetadata)
        → Undoes e (handle_unsigned ep ext handlers id c md e)
    unfolding handle_unsigned execute_unsigned
    handle_unsigned-Undoes id c md = elim (Option-cases (lookup id e.episodes)) [
      | inl missing ↦ rw (missing, handle_unsigned) refl
      | inr (w, at) ↦ rw (at, handle_unsigned) (command-Undoes id c none md w at)
    ]

    pub accept_message-Undoes :
        (m : Option (EpisodeMessage C)) (md : PayloadMetadata)
        → Undoes e (accept_message ep ext handlers m md e)
    unfolding handle_message
    accept_message-Undoes none md = refl
    accept_message-Undoes (some (revert id)) md = refl
    accept_message-Undoes (some (new_episode id ps)) md = handle_new-Undoes id ps md
    accept_message-Undoes (some (signed_command id c pk sig)) md =
        handle_signed-Undoes id c pk sig md
    accept_message-Undoes (some (unsigned_command id c)) md = handle_unsigned-Undoes id c md
