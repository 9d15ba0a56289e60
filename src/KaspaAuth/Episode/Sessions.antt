-- ===== src/KaspaAuth/Episode/Sessions.antt =====
-- What an accepted command required and did, and what its rollback gives back.
use kaspa_x.Base.{
  of_not, ℕ, ◌≡◌, ◌<◌, refl, sym, ap, ◌∙◌, Bool, true, false, not, Option, none, some, List,
  if◌then◌else◌, length, contains, arith, subst,
}
use kaspa_x.Base.Assoc.{lookup}
use kaspa_x.Base.Slices.{bytes_eq, eq_of_bytes_eq}
use kaspa_x.Kdapp.Episode.{PayloadMetadata, ok, err}
use kaspa_x.CommentIt.Episode.{verify}
use kaspa_x.KaspaAuth.Challenge.{is_valid}
use kaspa_x.KaspaAuth.Episode.{
  AuthCommand, request_challenge, submit_response, revoke_session, AuthRollback, undo_challenge,
  undo_authentication, undo_session_revoked, SimpleAuth, Libraries, Executed, attempts, recent,
  max_attempts, is_rate_limited, give_challenge, authenticate, check_response, check_session,
  execute_as, execute,
}

module _ (lib : Libraries) (md : PayloadMetadata) (now : ℕ) (s : SimpleAuth) where
  -- A step of the participant `pk`.
  pub data Step (pk : ℕ) : AuthCommand → SimpleAuth → AuthRollback → Type 0 where
    challenged :
        Step pk request_challenge
          (give_challenge lib pk md s)
          (undo_challenge s.challenge s.challenge_timestamp)
    admitted :
        (signature nonce : List ℕ)
        → s.is_authenticated ≡ false
        → s.challenge ≡ some nonce
        → is_valid nonce 3600 now ≡ true
        → verify lib.crypto pk nonce signature ≡ true
        → Step pk
            (submit_response signature nonce)
            (authenticate lib s)
            (undo_authentication s.is_authenticated s.session_token)
    revoked :
        (token signature : List ℕ)
        → s.is_authenticated ≡ true
        → s.session_token ≡ some token
        → verify lib.crypto pk token signature ≡ true
        → Step pk
            (revoke_session token signature)
            (record s { is_authenticated = false; session_token = none })
            (undo_session_revoked token s.is_authenticated)

  abbrev pub Judged : AuthCommand → Option ℕ → Executed → Type 0
  Judged c auth (s', err _) = s' ≡ s
  Judged c auth (s', ok rb) =
      (pk : ℕ) × (auth ≡ some pk)
      × (contains s.authorized_participants pk ≡ true)
      × (length (recent md.accepting_time (attempts (lookup pk s.rate_limits))) < max_attempts)
      × Step pk c s' rb

  if-Judged :
      (c : AuthCommand) (auth : Option ℕ) (b : Bool) (x y : Executed)
      → (b ≡ true → Judged c auth x)
      → (b ≡ false → Judged c auth y)
      → Judged c auth (if b then x else y)
  if-Judged c auth true x y f g = f refl
  if-Judged c auth false x y f g = g refl

  module _ (pk : ℕ) (known : contains s.authorized_participants pk ≡ true)
      (slow : length (recent md.accepting_time (attempts (lookup pk s.rate_limits)))
        < max_attempts) where
    response-Judged :
        (signature nonce : List ℕ) (o : Option (List ℕ))
        → s.is_authenticated ≡ false
        → s.challenge ≡ o
        → Judged
            (submit_response signature nonce)
            (some pk)
            (check_response lib signature nonce pk now s o)
    response-Judged signature nonce none out e = refl
    response-Judged signature nonce (some current) out e =
        let c = submit_response signature nonce in
        if-Judged c (some pk) (not (bytes_eq nonce current)) _ _ (λ _. refl)
          λ same.
            if-Judged c (some pk) (not (is_valid current 3600 now)) _ _ (λ _. refl)
              λ young.
                if-Judged c (some pk) (not (verify lib.crypto pk current signature)) _ _ (λ _. refl)
                  λ good.
                    let eq = sym (eq_of_bytes_eq nonce current (of_not _ same)) in
                    (
                      pk,
                      refl,
                      known,
                      slow,
                      admitted signature nonce out (e ∙ ap some eq)
                          (subst (λ t. is_valid t 3600 now ≡ true) eq (of_not _ young))
                          (subst (λ t. verify lib.crypto pk t signature ≡ true) eq (of_not _ good)),
                    )

    session-Judged :
        (token signature : List ℕ) (o : Option (List ℕ))
        → s.session_token ≡ o
        → Judged
            (revoke_session token signature)
            (some pk)
            (check_session lib token signature pk s o)
    session-Judged token signature none e = refl
    session-Judged token signature (some current) e =
        let c = revoke_session token signature in
        if-Judged c (some pk) (not (bytes_eq token current)) _ _ (λ _. refl)
          λ same.
            if-Judged c (some pk) (not s.is_authenticated) _ _ (λ _. refl)
              λ inside.
                if-Judged c (some pk) (not (verify lib.crypto pk token signature)) _ _ (λ _. refl)
                  λ good.
                    let eq = eq_of_bytes_eq token current (of_not _ same) in
                    (
                      pk,
                      refl,
                      known,
                      slow,
                      subst
                          (λ t.
                            Step pk (revoke_session token signature)
                              (record s { is_authenticated = false; session_token = none })
                              (undo_session_revoked t s.is_authenticated))
                          eq
                          (revoked token signature (of_not _ inside) (e ∙ ap some (sym eq))
                            (of_not _ good)),
                    )

    as-Judged : (c : AuthCommand) → Judged c (some pk) (execute_as lib c pk md now s)
    as-Judged request_challenge = (pk, refl, known, slow, challenged)
    as-Judged (submit_response signature nonce) =
        if-Judged (submit_response signature nonce) (some pk) s.is_authenticated _ _ (λ _. refl)
          λ out. response-Judged signature nonce s.challenge out refl
    as-Judged (revoke_session token signature) = session-Judged token signature s.session_token refl

  -- A refused command leaves the episode as it was. An accepted one came from an authorized participant
  -- with fewer than five challenges in the last five minutes, and is a step of the relation `Step`: a
  -- response is to the current challenge, no more than an hour old, and signed; a session ends by a
  -- signature over its token.
  pub auth-Judged :
      (c : AuthCommand) (auth : Option ℕ) → Judged c auth (execute lib c auth md now s)
  unfolding execute is_rate_limited
  auth-Judged c none = refl
  auth-Judged c (some pk) =
      if-Judged c (some pk) (not (contains s.authorized_participants pk)) _ _ (λ _. refl)
        λ known.
          if-Judged c (some pk) (is_rate_limited s pk md.accepting_time) _ _ (λ _. refl)
            λ slow. as-Judged pk (of_not _ known) (ground arith) c
