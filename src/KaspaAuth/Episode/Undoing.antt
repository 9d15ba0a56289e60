-- ===== src/KaspaAuth/Episode/Undoing.antt =====
-- What a rollback gives back.
use kaspa_x.Base.{ℕ, ◌≡◌, refl, sym, ap, true, some, subst}
use kaspa_x.Kdapp.Episode.{PayloadMetadata, EpisodeError, Result, ok, err}
use kaspa_x.KaspaAuth.Episode.{
  AuthCommand, request_challenge, submit_response, revoke_session, AuthRollback, AuthError,
  SimpleAuth, Libraries, Executed, increment_rate_limit, execute, rollback,
}
use kaspa_x.KaspaAuth.Episode.Sessions.{Step, Judged, auth-Judged}

-- The state after a command of `pk` and its rollback, given the state before.
abbrev pub undone : AuthCommand → ℕ → PayloadMetadata → SimpleAuth → SimpleAuth
undone request_challenge pk md s =
    increment_rate_limit pk md.accepting_time (record s { owner = some pk })
undone (submit_response _ _) pk md s = s
undone (revoke_session _ _) pk md s = s

module _ (lib : Libraries) where
  Step-undone :
      {md : PayloadMetadata} {now pk : ℕ} {s s' : SimpleAuth} {c : AuthCommand} {rb : AuthRollback}
      → Step lib md now s pk c s' rb
      → rollback rb s' ≡ (undone c pk md s, true)
  unfolding rollback increment_rate_limit
  Step-undone Step.challenged = refl
  Step-undone (Step.admitted signature nonce _ _ _ _) = refl
  Step-undone {md} {now} {pk} {s} (Step.revoked token signature _ held _) =
      λ i. (record s { session_token = sym held i }, true)

  abbrev rollback_of : AuthRollback → Result AuthRollback (EpisodeError AuthError) → AuthRollback
  rollback_of d (ok rb) = rb
  rollback_of d (err _) = d

  Judged-undone :
      (md : PayloadMetadata) (now pk : ℕ) (s : SimpleAuth) (c : AuthCommand) (x : Executed)
      (rb : AuthRollback)
      → Judged lib md now s c (some pk) x
      → x.1 ≡ ok rb
      → rollback rb x.0 ≡ (undone c pk md s, true)
  Judged-undone md now pk s c (s', err e) rb j same = cc
  Judged-undone md now pk s c (s', ok r) rb (p, mine, _, _, step) same =
      subst (λ z. rollback z s' ≡ (undone c pk md s, true)) (ap (rollback_of rb) same)
        (subst (λ q. rollback r s' ≡ (undone c q md s, true)) (owner_eq mine) (Step-undone step))
    where
      owner_eq : some pk ≡ some p → p ≡ pk
      owner_eq e = cc

  -- The rollback of an accepted command succeeds when it comes next. A response and a revocation are
  -- undone exactly; of a request the challenge and its time are undone, but not the owner, who is then
  -- the requester, nor the attempt that is counted for the rate limit.
  pub auth-undone :
      (c : AuthCommand) (pk : ℕ) (md : PayloadMetadata) (now : ℕ) (s : SimpleAuth)
      (rb : AuthRollback)
      → (execute lib c (some pk) md now s).1 ≡ ok rb
      → rollback rb (execute lib c (some pk) md now s).0 ≡ (undone c pk md s, true)
  auth-undone c pk md now s rb same =
      Judged-undone md now pk s c (execute lib c (some pk) md now s) rb
        (auth-Judged lib md now s c (some pk)) same
