-- ===== src/CommentIt/Episode/Undoing.antt =====
-- What a rollback gives back; the field `active_challenges`.
use native.Mathlib.Decide.{ℕ_discrete}
use kaspa_x.Base.{
  ℕ, ◌≡◌, refl, sym, ap, ◌∙◌, inl, inr, Bool, true, false, not, ◌&&◌, ◌||◌, Option, none, some,
  List, [], ◌∷◌, ◌++◌, if◌then◌else◌, ◌==◌, ltb, contains, arith, subst, Bool-cases, ==_refl,
}
use kaspa_x.Base.Assoc.{Map}
use kaspa_x.Base.Sets.{set_insert, set_erase, contains-set_insert, contains-set_erase}
use kaspa_x.Kdapp.Episode.{PayloadMetadata, EpisodeError, Result, ok, err}
use kaspa_x.CommentIt.Episode.{
  UnifiedCommand, request_challenge, submit_response, revoke_session, submit_comment,
  UnifiedRollback, AuthError, Comment, Room, Executed, Crypto, is_blank, byte_len, verify,
  is_rate_limited, is_authenticated, has_comment, remove_comment, challenge, increment_rate_limit,
  authenticate, revoke, undo_authentication, undo_session_revoked, execute_as, execute, rollback,
}
use kaspa_x.CommentIt.Episode.Rules.{Step, Judged, room-Judged}
use kaspa_x.CommentIt.Episode.Members.{Orderly, AllProper-fresh}

remove_comment-append :
    (cs : List Comment) (c : Comment)
    → has_comment c.id cs ≡ false
    → (has_comment c.id (cs ++ c ∷ []) ≡ true) × (remove_comment c.id (cs ++ c ∷ []) ≡ cs)
unfolding remove_comment
remove_comment-append [] c h = rw (==_refl c.id) (refl, refl)
remove_comment-append (d ∷ cs) c h = elim (Bool-cases (d.id == c.id)) [
  | inl same ↦ absurd (ground arith)
  | inr other ↦
      let ih = remove_comment-append cs c (ground arith) in rw other (ih.0, ap (◌∷◌ d) ih.1)
]

module _ (crypto : Crypto) where
  -- The comments and their counter are what they were, and so is who is authenticated.
  abbrev pub Back : Room → Room × Bool → Type 0
  Back s r =
      (r.1 ≡ true)
      × (r.0.comments ≡ s.comments)
      × (r.0.next_comment_id ≡ s.next_comment_id)
      × ((k : ℕ) → is_authenticated r.0 k ≡ is_authenticated s k)

  joined_left :
      (pk k : ℕ) (xs : List ℕ)
      → contains xs pk ≡ false
      → contains (set_erase pk (set_insert pk xs)) k ≡ contains xs k
  joined_left pk k xs away = contains-set_erase pk k (set_insert pk xs) ∙ go
    where
      go : (not (pk == k) && contains (set_insert pk xs) k) ≡ contains xs k
      go = elim (ℕ_discrete pk k) [
        | yes here ↦
            subst (λ j. (not (pk == j) && contains (set_insert pk xs) j) ≡ contains xs j) here
              (rw (==_refl pk) (sym away))
        | no other ↦ ground (arith, contains-set_insert pk k xs)
      ]

  left_joined :
      (pk k : ℕ) (xs : List ℕ)
      → contains xs pk ≡ true
      → contains (set_insert pk (set_erase pk xs)) k ≡ contains xs k
  left_joined pk k xs there = contains-set_insert pk k (set_erase pk xs) ∙ go
    where
      go : (pk == k || contains (set_erase pk xs) k) ≡ contains xs k
      go = elim (ℕ_discrete pk k) [
        | yes here ↦
            subst (λ j. (pk == j || contains (set_erase pk xs) j) ≡ contains xs j) here
              (rw (==_refl pk) (sym there))
        | no other ↦ ground (arith, contains-set_erase pk k xs)
      ]

  Step-Back :
      {md : PayloadMetadata} {pk : ℕ} {s s' : Room} {c : UnifiedCommand} {rb : UnifiedRollback}
      → Step crypto md s pk c s' rb
      → Orderly s
      → Back s (rollback rb s')
  unfolding rollback challenge increment_rate_limit
  Step-Back (Step.challenged new) h = (refl, refl, refl, λ k. refl)
  Step-Back {md} {pk} {s} (Step.admitted signature nonce new good) h =
      subst (λ b. Back s (rollback (undo_authentication pk b) (authenticate crypto pk s))) (sym new)
        (refl, refl, refl, λ k. joined_left pk k s.authenticated_participants new)
  Step-Back {md} {pk} {s} (Step.revoked token signature there good) h =
      subst (λ b. Back s (rollback (undo_session_revoked pk b) (revoke crypto pk s))) (sym there)
        (refl, refl, refl, λ k. left_joined pk k s.authenticated_participants there)
  Step-Back {md} {pk} {s} (Step.commented text token full short there) h =
      rw (taken.0) (refl, taken.1, refl, λ k. refl)
    where
      added : Comment
      added = record {
        id = s.next_comment_id;
        text = text;
        author = pk;
        timestamp = md.accepting_time;
      }

      taken :
          (has_comment s.next_comment_id (s.comments ++ added ∷ []) ≡ true)
          × (remove_comment s.next_comment_id (s.comments ++ added ∷ []) ≡ s.comments)
      taken =
          remove_comment-append s.comments added
            (AllProper-fresh s.authorized_participants s.next_comment_id s.comments h.proper)

  abbrev rollback_of :
      UnifiedRollback → Result UnifiedRollback (EpisodeError AuthError) → UnifiedRollback
  rollback_of d (ok rb) = rb
  rollback_of d (err _) = d

  Judged-Back :
      (md : PayloadMetadata) (s : Room) (c : UnifiedCommand) (auth : Option ℕ) (x : Executed)
      (rb : UnifiedRollback)
      → Judged crypto md s c auth x
      → Orderly s
      → x.1 ≡ ok rb
      → Back s (rollback rb x.0)
  Judged-Back md s c auth (s', err e) rb j h same = cc
  Judged-Back md s c auth (s', ok r) rb (pk, _, _, _, step) h same =
      subst (λ z. Back s (rollback z s')) (ap (rollback_of rb) same) (Step-Back step h)

  -- In an orderly room the rollback of an accepted command succeeds when it comes next; it gives the
  -- comments and their counter back as they were, and the same participants are authenticated as
  -- before.
  pub rollback-Back :
      (c : UnifiedCommand) (auth : Option ℕ) (md : PayloadMetadata) (s : Room)
      (rb : UnifiedRollback)
      → Orderly s
      → (execute crypto c auth md s).1 ≡ ok rb
      → Back s (rollback rb (execute crypto c auth md s).0)
  rollback-Back c auth md s rb h same =
      Judged-Back md s c auth (execute crypto c auth md s) rb (room-Judged crypto md s c auth) h
        same

  if-second :
      (b : Bool) (x y x' y' : Executed)
      → x.1 ≡ x'.1
      → y.1 ≡ y'.1
      → (if b then x else y).1 ≡ (if b then x' else y').1
  if-second true x y x' y' e f = e
  if-second false x y x' y' e f = f

  as-challenge_free :
      (c : UnifiedCommand) (pk : ℕ) (md : PayloadMetadata) (s : Room) (challenges : Map (List ℕ))
      → (execute_as crypto c pk md (record s { active_challenges = challenges })).1
        ≡ (execute_as crypto c pk md s).1
  as-challenge_free request_challenge pk md s challenges =
      if-second (is_authenticated s pk) _ _ _ _ refl refl
  as-challenge_free (submit_response signature nonce) pk md s challenges =
      if-second (is_authenticated s pk) _ _ _ _ refl
        (if-second (not (verify crypto pk nonce signature)) _ _ _ _ refl refl)
  as-challenge_free (revoke_session token signature) pk md s challenges =
      if-second (not (is_authenticated s pk)) _ _ _ _ refl
        (if-second (not (verify crypto pk token signature)) _ _ _ _ refl refl)
  as-challenge_free (submit_comment text token) pk md s challenges =
      if-second (is_blank text) _ _ _ _ refl (
        if-second (ltb 2000 (byte_len text)) _ _ _ _ refl
          (if-second (not (is_authenticated s pk)) _ _ _ _ refl refl))

  -- Whether a command is accepted, and with which rollback object or error, does not depend on the
  -- active challenges: a response in particular is admitted whatever challenge was given out, or with
  -- none.
  pub execute-challenge_free :
      (c : UnifiedCommand) (auth : Option ℕ) (md : PayloadMetadata) (s : Room)
      (challenges : Map (List ℕ))
      → (execute crypto c auth md (record s { active_challenges = challenges })).1
        ≡ (execute crypto c auth md s).1
  unfolding execute is_rate_limited
  execute-challenge_free c none md s challenges = refl
  execute-challenge_free c (some pk) md s challenges =
      if-second (not (contains s.authorized_participants pk)) _ _ _ _ refl
        (if-second (is_rate_limited s pk) _ _ _ _ refl (as-challenge_free c pk md s challenges))
