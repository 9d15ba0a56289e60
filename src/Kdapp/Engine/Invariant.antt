-- ===== src/Kdapp/Engine/Invariant.antt =====
-- The engine's invariant: the keys of its maps, and the stacks of its episodes.
use kaspa_x.Base.{
  ℕ, ◌≡◌, refl, sym, subst, ap, ◌∙◌, inl, inr, true, Option, none, some, List, [], ◌∷◌, arith,
  Option-cases, Bool-cases,
}
use kaspa_x.Base.Assoc.{
  lookup, insert, erase, contains_key, lookup-insert, lookup-erase, lookup-insert_cases,
  lookup-erase_cases, IsMap, insert-IsMap, erase-IsMap,
}
use kaspa_x.Kdapp.Episode.{PayloadMetadata, Episode, IsReversible, Result, ok, err, EpisodeError}
use kaspa_x.Kdapp.Engine.{
  Engine, EpisodeWrapper, EpisodeMessage, new_episode, signed_command, unsigned_command, revert,
  Codec, handle_message, handle_new, handle_signed, handle_unsigned, handle_revert, execute_signed,
  pushed, pop_rollback, after_command, after_rollback,
}

-- What a message asks of the participants that it names.
abbrev pub AdmitsMessage : {C : Type 0} → (List ℕ → Type 0) → EpisodeMessage C → Type 0
AdmitsMessage Admits (new_episode _ ps) = Admits ps
AdmitsMessage Admits _ = Unit {0}

module _ {S C R E : Type 0} (ep : Episode S C R E) (Valid : S → Type 0) where
  -- The stack can be unwound: each rollback succeeds, through valid states.
  abbrev pub Undoable : S → List R → Type 0
  Undoable s [] = Valid s
  Undoable s (r ∷ rs) = Valid s × ((ep.rollback r s).1 ≡ true) × Undoable (ep.rollback r s).0 rs

  pub Undoable-Valid : (s : S) (rs : List R) → Undoable s rs → Valid s
  Undoable-Valid s [] h = h
  Undoable-Valid s (r ∷ rs) h = h.0

  abbrev pub IsSound : EpisodeWrapper S R → Type 0
  IsSound w = Undoable w.episode w.rollback_stack

  pub record Inv (e : Engine S R) : Type 0 where
    pub synced : (id : ℕ) → contains_key id e.episodes ≡ contains_key id e.episode_creation_times
    pub keys : IsMap e.episode_creation_times
    pub sound : (id : ℕ) (w : EpisodeWrapper S R) → lookup id e.episodes ≡ some w → IsSound w

  -- Writing a sound wrapper under a key that is there keeps the invariant.
  pub put-Inv :
      (e : Engine S R) (id : ℕ) (w v : EpisodeWrapper S R)
      → Inv e
      → lookup id e.episodes ≡ some v
      → IsSound w
      → Inv (record e { episodes = insert id w e.episodes })
  put-Inv e id w v h found sound = record {
    synced = λ j. ground (arith, h.synced j, h.synced id, lookup-insert id j w e.episodes);
    keys = h.keys;
    sound = λ j u at. elim (lookup-insert_cases id j w u e.episodes at) [
      | inl (_, same) ↦ subst IsSound same sound
      | inr (_, before) ↦ h.sound j u before
    ];
  }

  pub drop-Inv :
      (e : Engine S R) (id : ℕ)
      → Inv e
      → Inv (record e {
        episodes = erase id e.episodes;
        episode_creation_times = erase id e.episode_creation_times;
      })
  drop-Inv e id h = record {
    synced = λ j. ground (
      arith,
      h.synced j,
      lookup-erase id j e.episodes,
      lookup-erase id j e.episode_creation_times,
    );
    keys = erase-IsMap id e.episode_creation_times h.keys;
    sound = λ j u at. h.sound j u (lookup-erase_cases id j u e.episodes at).1;
  }

  pub add-Inv :
      (e : Engine S R) (id daa : ℕ) (w : EpisodeWrapper S R)
      → Inv e
      → IsSound w
      → Inv (record e {
        episodes = insert id w e.episodes;
        episode_creation_times = insert id daa e.episode_creation_times;
      })
  add-Inv e id daa w h sound = record {
    synced = λ j. ground (
      arith,
      h.synced j,
      lookup-insert id j w e.episodes,
      lookup-insert id j daa e.episode_creation_times,
    );
    keys = insert-IsMap id daa e.episode_creation_times h.keys;
    sound = λ j u at. elim (lookup-insert_cases id j w u e.episodes at) [
      | inl (_, same) ↦ subst IsSound same sound
      | inr (_, before) ↦ h.sound j u before
    ];
  }

module _ {S C R E : Type 0} {ep : Episode S C R E} {Admits : List ℕ → Type 0} {Valid : S → Type 0}
    (law : IsReversible ep Admits Valid) (ext : Codec C) {H : Type 0} (handlers : List H) where
  stacked-IsSound :
      (s s' : S) (r : R) (rs : List R)
      → Undoable ep Valid s rs
      → Valid s'
      → ep.rollback r s' ≡ (s, true)
      → Undoable ep Valid s' (r ∷ rs)
  stacked-IsSound s s' r rs h v u =
      (v, ap (λ p. p.1) u, subst (λ x. Undoable ep Valid x rs) (sym (ap (λ p. p.0) u)) h)

  pub pushed-IsSound :
      (c : C) (auth : Option ℕ) (md : PayloadMetadata) (w : EpisodeWrapper S R)
      → IsSound ep Valid w
      → IsSound ep Valid (pushed w (ep.execute c auth md w.episode)).0
  pushed-IsSound c auth md w h = go (ep.execute c auth md w.episode) refl
    where
      valid : Valid w.episode
      valid = Undoable-Valid ep Valid w.episode w.rollback_stack h

      go :
          (x : S × Result R (EpisodeError E))
          → ep.execute c auth md w.episode ≡ x
          → IsSound ep Valid (pushed w x).0
      go (s, ok r) e =
          stacked-IsSound w.episode s r w.rollback_stack h
            (subst Valid (ap (λ p. p.0) e) (law.execute-Valid c auth md w.episode valid))
            (subst (λ x. ep.rollback r x ≡ (w.episode, true)) (ap (λ p. p.0) e)
              (law.execute-undo c auth md w.episode r valid (ap (λ p. p.1) e)))
      go (s, err x) e =
          subst (λ x. Undoable ep Valid x w.rollback_stack)
            (sym (law.execute-atomic c auth md w.episode x valid (ap (λ p. p.1) e))
              ∙ ap (λ p. p.0) e)
            h

  module _ {e : Engine S R} (h : Inv ep Valid e) where
    handle_new-Inv :
        (id : ℕ) (ps : List ℕ) (md : PayloadMetadata)
        → Admits ps
        → Inv ep Valid (handle_new ep ext handlers id ps md e).0
    unfolding handle_new
    handle_new-Inv id ps md a = elim (Bool-cases (contains_key id e.episodes)) [
      | inl present ↦ rw present h
      | inr absent ↦
          rw absent (add-Inv ep Valid e id md.accepting_daa _ h (law.initialize-Valid ps md a))
    ]

    after_command-Inv :
        (id : ℕ) (c : C) (auth : Option ℕ) (md : PayloadMetadata) (v : EpisodeWrapper S R)
        (x : EpisodeWrapper S R × Result (Unit {0}) (EpisodeError E))
        → lookup id e.episodes ≡ some v
        → IsSound ep Valid x.0
        → Inv ep Valid (after_command ep ext handlers id c auth md e x).0
    after_command-Inv id c auth md v (w, ok _) at s = put-Inv ep Valid e id w v h at s
    after_command-Inv id c auth md v (w, err _) at s = put-Inv ep Valid e id w v h at s

    execute_signed-IsSound :
        (c : C) (pk sig : ℕ) (md : PayloadMetadata) (w : EpisodeWrapper S R)
        → IsSound ep Valid w
        → IsSound ep Valid (execute_signed ep ext c pk sig md w).0
    unfolding execute_signed
    execute_signed-IsSound c pk sig md w s =
        elim (Bool-cases (ext.verify_ecdsa (ext.to_message c) sig pk)) [
          | inl good ↦ rw good (pushed-IsSound c (some pk) md w s)
          | inr bad ↦ rw bad s
        ]

    handle_signed-Inv :
        (id : ℕ) (c : C) (pk sig : ℕ) (md : PayloadMetadata)
        → Inv ep Valid (handle_signed ep ext handlers id c pk sig md e).0
    unfolding handle_signed
    handle_signed-Inv id c pk sig md = elim (Option-cases (lookup id e.episodes)) [
      | inl missing ↦ rw (missing, handle_signed) h
      | inr (w, at) ↦
          rw (at, handle_signed)
            (after_command-Inv id c (some pk) md w _ at
              (execute_signed-IsSound c pk sig md w (h.sound id w at)))
    ]

    handle_unsigned-Inv :
        (id : ℕ) (c : C) (md : PayloadMetadata)
        → Inv ep Valid (handle_unsigned ep ext handlers id c md e).0
    unfolding handle_unsigned
    handle_unsigned-Inv id c md = elim (Option-cases (lookup id e.episodes)) [
      | inl missing ↦ rw (missing, handle_unsigned) h
      | inr (w, at) ↦
          rw (at, handle_unsigned)
            (after_command-Inv id c none md w _ at (pushed-IsSound c none md w (h.sound id w at)))
    ]

    after_pop-Inv :
        (id : ℕ) (w : EpisodeWrapper S R) (rs : List R)
        → lookup id e.episodes ≡ some w
        → Undoable ep Valid w.episode rs
        → Inv ep Valid (after_rollback ep ext handlers id e (pop_rollback ep w rs)).0
    after_pop-Inv id w [] at s = drop-Inv ep Valid e id h
    after_pop-Inv id w (r ∷ rs) at s = put-Inv ep Valid e id _ w h at s.2

    pub handle_revert-Inv : (id : ℕ) → Inv ep Valid (handle_revert ep ext handlers id e).0
    unfolding handle_revert
    handle_revert-Inv id = elim (Option-cases (lookup id e.episodes)) [
      | inl missing ↦ rw (missing, handle_revert) h
      | inr (w, at) ↦
          rw (at, handle_revert) (after_pop-Inv id w w.rollback_stack at (h.sound id w at))
    ]

    pub handle_message-Inv :
        (m : EpisodeMessage C) (md : PayloadMetadata)
        → AdmitsMessage Admits m
        → Inv ep Valid (handle_message ep ext handlers m md e).0
    unfolding handle_message
    handle_message-Inv (new_episode id ps) md a = handle_new-Inv id ps md a
    handle_message-Inv (signed_command id c pk sig) md a = handle_signed-Inv id c pk sig md
    handle_message-Inv (unsigned_command id c) md a = handle_unsigned-Inv id c md
    handle_message-Inv (revert id) md a = handle_revert-Inv id
