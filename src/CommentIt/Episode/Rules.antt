-- ===== src/CommentIt/Episode/Rules.antt =====
-- What an accepted command required and did.
use kaspa_x.Base.{
  of_not, ℕ, ◌≡◌, ◌≤◌, ◌<◌, refl, Bool, true, false, not, Option, none, some, List, if◌then◌else◌,
  ltb, contains, arith,
}
use kaspa_x.Base.Assoc.{lookup}
use kaspa_x.Kdapp.Episode.{PayloadMetadata, ok, err}
use kaspa_x.CommentIt.Episode.{
  UnifiedCommand, request_challenge, submit_response, revoke_session, submit_comment,
  UnifiedRollback, undo_challenge, undo_authentication, undo_session_revoked, undo_comment_added,
  Room, Executed, Crypto, is_blank, byte_len, verify, attempts, is_rate_limited, is_authenticated,
  challenge, authenticate, revoke, add_comment, execute_as, execute,
}

module _ (crypto : Crypto) (md : PayloadMetadata) (s : Room) where
  -- A step of the participant `pk`.
  pub data Step (pk : ℕ) : UnifiedCommand → Room → UnifiedRollback → Type 0 where
    challenged :
        is_authenticated s pk ≡ false
        → Step pk request_challenge (challenge crypto pk md s) (undo_challenge pk)
    admitted :
        (signature nonce : List ℕ)
        → is_authenticated s pk ≡ false
        → verify crypto pk nonce signature ≡ true
        → Step pk
            (submit_response signature nonce)
            (authenticate crypto pk s)
            (undo_authentication pk (is_authenticated s pk))
    revoked :
        (token signature : List ℕ)
        → is_authenticated s pk ≡ true
        → verify crypto pk token signature ≡ true
        → Step pk
            (revoke_session token signature)
            (revoke crypto pk s)
            (undo_session_revoked pk (is_authenticated s pk))
    commented :
        (text token : List ℕ)
        → is_blank text ≡ false
        → byte_len text ≤ 2000
        → is_authenticated s pk ≡ true
        → Step pk
            (submit_comment text token)
            (add_comment crypto text pk md s)
            (undo_comment_added s.next_comment_id)

  -- A command was refused and nothing has changed, or it is a step of an authorized participant with
  -- fewer than five challenges.
  abbrev pub Judged : UnifiedCommand → Option ℕ → Executed → Type 0
  Judged c auth (s', err _) = s' ≡ s
  Judged c auth (s', ok rb) =
      (pk : ℕ) × (auth ≡ some pk)
      × (contains s.authorized_participants pk ≡ true)
      × (attempts (lookup pk s.rate_limits) < 5)
      × Step pk c s' rb

  if-Judged :
      (c : UnifiedCommand) (auth : Option ℕ) (b : Bool) (x y : Executed)
      → (b ≡ true → Judged c auth x)
      → (b ≡ false → Judged c auth y)
      → Judged c auth (if b then x else y)
  if-Judged c auth true x y f g = f refl
  if-Judged c auth false x y f g = g refl

  module _ (pk : ℕ) (known : contains s.authorized_participants pk ≡ true)
      (slow : attempts (lookup pk s.rate_limits) < 5) where
    as-Judged : (c : UnifiedCommand) → Judged c (some pk) (execute_as crypto c pk md s)
    as-Judged request_challenge =
        if-Judged request_challenge (some pk) (is_authenticated s pk) _ _ (λ _. refl)
          λ new. (pk, refl, known, slow, challenged new)
    as-Judged (submit_response signature nonce) =
        let c = submit_response signature nonce in
        if-Judged c (some pk) (is_authenticated s pk) _ _ (λ _. refl)
          λ new.
            if-Judged c (some pk) (not (verify crypto pk nonce signature)) _ _ (λ _. refl)
              λ good. (pk, refl, known, slow, admitted signature nonce new (of_not _ good))
    as-Judged (revoke_session token signature) =
        let c = revoke_session token signature in
        if-Judged c (some pk) (not (is_authenticated s pk)) _ _ (λ _. refl)
          λ there.
            if-Judged c (some pk) (not (verify crypto pk token signature)) _ _ (λ _. refl)
              λ good.
                (pk, refl, known, slow, revoked token signature (of_not _ there) (of_not _ good))
    as-Judged (submit_comment text token) =
        let c = submit_comment text token in
        if-Judged c (some pk) (is_blank text) _ _ (λ _. refl)
          λ full.
            if-Judged c (some pk) (ltb 2000 (byte_len text)) _ _ (λ _. refl)
              λ short.
                if-Judged c (some pk) (not (is_authenticated s pk)) _ _ (λ _. refl)
                  λ there. (
                    pk,
                    refl,
                    known,
                    slow,
                    commented text token full (ground arith) (of_not _ there),
                  )

  -- A refused command leaves the room as it was. An accepted one came from an authorized participant
  -- who has asked for fewer than five challenges, and is a step of the relation `Step`: challenges go
  -- to who is not authenticated, a signature that verifies admits or revokes, and only an authenticated
  -- participant comments, with a text that is neither blank nor above 2000 bytes.
  pub room-Judged :
      (c : UnifiedCommand) (auth : Option ℕ) → Judged c auth (execute crypto c auth md s)
  unfolding execute is_rate_limited
  room-Judged c none = refl
  room-Judged c (some pk) =
      if-Judged c (some pk) (not (contains s.authorized_participants pk)) _ _ (λ _. refl)
        λ known.
          if-Judged c (some pk) (is_rate_limited s pk) _ _ (λ _. refl)
            λ slow. as-Judged pk (of_not _ known) (ground arith) c
