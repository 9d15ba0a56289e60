-- ===== src/Kdapp/Engine/Guards.antt =====
-- Messages and the episodes that they are not about.
use kaspa_x.Base.{
  ℕ, ◌≡◌, ◌≢◌, refl, inl, inr, false, Option, none, some, List, [], ◌∷◌, Option-cases, Bool-cases,
}
use kaspa_x.Base.Assoc.{lookup, contains_key, lookup-insert_ne, lookup-erase_ne, insert_same}
use kaspa_x.Kdapp.Episode.{PayloadMetadata, Episode, Result, ok, err, EpisodeError}
use kaspa_x.Kdapp.Engine.{
  Engine, EpisodeWrapper, EpisodeMessage, new_episode, signed_command, unsigned_command, revert,
  Codec, episode_id, handle_message, handle_new, handle_signed, handle_unsigned, handle_revert,
  execute_signed, after_command, after_rollback, pop_rollback, verify_signature,
}

module _ {S C R E : Type 0} (ep : Episode S C R E) (ext : Codec C) {H : Type 0}
    (handlers : List H) where
  -- A signed command whose signature does not verify changes nothing, is not recorded, and no
  -- handler hears of it.
  pub handle_signed_forged :
      (id : ℕ) (c : C) (pk sig : ℕ) (md : PayloadMetadata) (e : Engine S R)
      → verify_signature ext pk (ext.to_message c) sig ≡ false
      → handle_message ep ext handlers (signed_command id c pk sig) md e ≡ (e, none, [])
  unfolding handle_message handle_signed execute_signed
  handle_signed_forged id c pk sig md e bad = elim (Option-cases (lookup id e.episodes)) [
    | inl missing ↦ rw (missing, handle_signed)
    | inr (w, at) ↦
        rw (at, bad, handle_signed)
          (λ i. (record e { episodes = insert_same id w e.episodes at i }, none, []))
  ]

  -- The engine agrees with another on an episode and on its creation time.
  abbrev pub Agrees : ℕ → Engine S R → Engine S R → Type 0
  Agrees j e e' =
      (lookup j e'.episodes ≡ lookup j e.episodes)
      × (lookup j e'.episode_creation_times ≡ lookup j e.episode_creation_times)

  module _ (id j : ℕ) (ne : id ≢ j) (e : Engine S R) where
    new-Agrees :
        (ps : List ℕ) (md : PayloadMetadata) → Agrees j e (handle_new ep ext handlers id ps md e).0
    unfolding handle_new
    new-Agrees ps md = elim (Bool-cases (contains_key id e.episodes)) [
      | inl present ↦ rw present (refl, refl)
      | inr absent ↦ rw absent (
        lookup-insert_ne id j _ e.episodes ne,
        lookup-insert_ne id j md.accepting_daa e.episode_creation_times ne,
      )
    ]

    after_command-Agrees :
        (c : C) (auth : Option ℕ) (md : PayloadMetadata)
        (x : EpisodeWrapper S R × Result (Unit {0}) (EpisodeError E))
        → Agrees j e (after_command ep ext handlers id c auth md e x).0
    after_command-Agrees c auth md (w, ok _) = (lookup-insert_ne id j w e.episodes ne, refl)
    after_command-Agrees c auth md (w, err _) = (lookup-insert_ne id j w e.episodes ne, refl)

    signed-Agrees :
        (c : C) (pk sig : ℕ) (md : PayloadMetadata)
        → Agrees j e (handle_signed ep ext handlers id c pk sig md e).0
    unfolding handle_signed
    signed-Agrees c pk sig md = elim (Option-cases (lookup id e.episodes)) [
      | inl missing ↦ rw (missing, handle_signed) (refl, refl)
      | inr (w, at) ↦ rw (at, handle_signed) (after_command-Agrees c (some pk) md _)
    ]

    unsigned-Agrees :
        (c : C) (md : PayloadMetadata) → Agrees j e (handle_unsigned ep ext handlers id c md e).0
    unfolding handle_unsigned
    unsigned-Agrees c md = elim (Option-cases (lookup id e.episodes)) [
      | inl missing ↦ rw (missing, handle_unsigned) (refl, refl)
      | inr (w, at) ↦ rw (at, handle_unsigned) (after_command-Agrees c none md _)
    ]

    after_pop-Agrees :
        (w : EpisodeWrapper S R) (rs : List R)
        → Agrees j e (after_rollback ep ext handlers id e (pop_rollback ep w rs)).0
    after_pop-Agrees w [] =
        (lookup-erase_ne id j e.episodes ne, lookup-erase_ne id j e.episode_creation_times ne)
    after_pop-Agrees w (r ∷ rs) = (lookup-insert_ne id j _ e.episodes ne, refl)

    revert-Agrees : Agrees j e (handle_revert ep ext handlers id e).0
    unfolding handle_revert
    revert-Agrees = elim (Option-cases (lookup id e.episodes)) [
      | inl missing ↦ rw (missing, handle_revert) (refl, refl)
      | inr (w, at) ↦ rw (at, handle_revert) (after_pop-Agrees w w.rollback_stack)
    ]

  -- A message of any kind leaves every episode but its own as it was, with its rollback stack and
  -- its creation time.
  pub handle_message-Agrees :
      (m : EpisodeMessage C) (j : ℕ) (md : PayloadMetadata) (e : Engine S R)
      → episode_id m ≢ j
      → Agrees j e (handle_message ep ext handlers m md e).0
  unfolding handle_message episode_id
  handle_message-Agrees (new_episode id ps) j md e ne = new-Agrees id j ne e ps md
  handle_message-Agrees (signed_command id c pk sig) j md e ne = signed-Agrees id j ne e c pk sig md
  handle_message-Agrees (unsigned_command id c) j md e ne = unsigned-Agrees id j ne e c md
  handle_message-Agrees (revert id) j md e ne = revert-Agrees id j ne e
