-- ===== src/Kdapp/Engine/Authority.antt =====
-- Under whose authority the commands run that the event handlers hear of.
use kaspa_x.Base.{
  ℕ, ◌≡◌, refl, inl, inr, true, Option, none, some, List, [], ◌∷◌, Option-cases, Bool-cases,
}
use kaspa_x.Base.Assoc.{lookup, contains_key}
use kaspa_x.Kdapp.Episode.{PayloadMetadata, Episode, Result, ok, err, EpisodeError}
use kaspa_x.Kdapp.Engine.{
  Engine, EpisodeWrapper, EpisodeMessage, new_episode, signed_command, unsigned_command, revert,
  Event, on_initialize, on_command, on_rollback, notify, Codec, handle_message, handle_new,
  handle_signed, handle_unsigned, handle_revert, execute_signed, after_command, after_rollback,
  pop_rollback, verify_signature,
}

module _ {S C R E : Type 0} (ep : Episode S C R E) (ext : Codec C) {H : Type 0}
    (handlers : List H) where
  -- A command is heard of with the key of a signature that verifies, or with no key when none came.
  abbrev pub Authorized : EpisodeMessage C → Event S C → Type 0
  Authorized m (on_command id s c (some pk) md) =
      (sig : ℕ) × (m ≡ signed_command id c pk sig)
      × (verify_signature ext pk (ext.to_message c) sig ≡ true)
  Authorized m (on_command id s c none md) = m ≡ unsigned_command id c
  Authorized m (on_initialize id s) = (ps : List ℕ) × (m ≡ new_episode id ps)
  Authorized m (on_rollback id s) = m ≡ revert id

  abbrev pub AllAuthorized : EpisodeMessage C → List (H × Event S C) → Type 0
  AllAuthorized m [] = Unit {0}
  AllAuthorized m ((h, ev) ∷ log) = Authorized m ev × AllAuthorized m log

  notify-AllAuthorized :
      (m : EpisodeMessage C) (hs : List H) (ev : Event S C)
      → Authorized m ev
      → AllAuthorized m (notify hs ev)
  notify-AllAuthorized m [] ev a = tt
  notify-AllAuthorized m (h ∷ hs) ev a = (a, notify-AllAuthorized m hs ev a)

  after_command-AllAuthorized :
      (m : EpisodeMessage C) (id : ℕ) (c : C) (auth : Option ℕ) (md : PayloadMetadata)
      (e : Engine S R) (x : EpisodeWrapper S R × Result (Unit {0}) (EpisodeError E))
      → ((s : S) → Authorized m (on_command id s c auth md))
      → AllAuthorized m (after_command ep ext handlers id c auth md e x).2
  after_command-AllAuthorized m id c auth md e (w, ok _) a =
      notify-AllAuthorized m handlers _ (a w.episode)
  after_command-AllAuthorized m id c auth md e (w, err _) a = tt

  signed-AllAuthorized :
      (id : ℕ) (c : C) (pk sig : ℕ) (md : PayloadMetadata) (w : EpisodeWrapper S R) (e : Engine S R)
      → AllAuthorized
          (signed_command id c pk sig)
          (after_command ep ext handlers id c
            (some pk)
            md
            e
            (execute_signed ep ext c pk sig md w)).2
  unfolding execute_signed
  signed-AllAuthorized id c pk sig md w e =
      elim (Bool-cases (verify_signature ext pk (ext.to_message c) sig)) [
        | inl good ↦
            rw good (after_command-AllAuthorized _ id c (some pk) md e _ (λ s. (sig, refl, good)))
        | inr bad ↦ rw bad tt
      ]

  after_pop-AllAuthorized :
      (id : ℕ) (e : Engine S R) (w : EpisodeWrapper S R) (rs : List R)
      → AllAuthorized (revert id) (after_rollback ep ext handlers id e (pop_rollback ep w rs)).2
  after_pop-AllAuthorized id e w [] = notify-AllAuthorized _ handlers _ refl
  after_pop-AllAuthorized id e w (r ∷ rs) = notify-AllAuthorized _ handlers _ refl

  -- Whatever the handlers hear of, the message asked for: a command under a key, only if the message is
  -- this command with this key and a signature over it that verifies under the key; a command under no
  -- key, only if the message is this command unsigned; a start or a rollback, only if it is one of them.
  pub handle_message-AllAuthorized :
      (m : EpisodeMessage C) (md : PayloadMetadata) (e : Engine S R)
      → AllAuthorized m (handle_message ep ext handlers m md e).2
  unfolding handle_message handle_new handle_signed handle_unsigned handle_revert
  handle_message-AllAuthorized (new_episode id ps) md e =
      elim (Bool-cases (contains_key id e.episodes)) [
        | inl present ↦ rw present tt
        | inr absent ↦ rw absent (notify-AllAuthorized _ handlers _ (ps, refl))
      ]
  handle_message-AllAuthorized (signed_command id c pk sig) md e =
      elim (Option-cases (lookup id e.episodes)) [
        | inl missing ↦ rw (missing, handle_signed) tt
        | inr (w, at) ↦ rw (at, handle_signed) (signed-AllAuthorized id c pk sig md w e)
      ]
  handle_message-AllAuthorized (unsigned_command id c) md e =
      elim (Option-cases (lookup id e.episodes)) [
        | inl missing ↦ rw (missing, handle_unsigned) tt
        | inr (w, at) ↦
            rw (at, handle_unsigned) (after_command-AllAuthorized _ id c none md e _ (λ s. refl))
      ]
  handle_message-AllAuthorized (revert id) md e = elim (Option-cases (lookup id e.episodes)) [
    | inl missing ↦ rw (missing, handle_revert) tt
    | inr (w, at) ↦ rw (at, handle_revert) (after_pop-AllAuthorized id e w w.rollback_stack)
  ]
