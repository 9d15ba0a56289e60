-- ===== src/KaspaAuth/Episode/Limits.antt =====
-- The rate limit: challenges in any five minutes.
use native.Mathlib.Decide.{ℕ_discrete}
use kaspa_x.Base.{
  ℕ, suc, ◌-◌, ◌≡◌, ◌≤◌, ◌<◌, refl, sym, ap, Option, List, [], ◌∷◌, ◌++◌, leb, length, arith, subst,
  Bool-cases, inl, inr,
}
use kaspa_x.Base.Assoc.{lookup, insert, lookup-insert_self, lookup-insert_ne}
use kaspa_x.Kdapp.Episode.{PayloadMetadata, ok, err}
use kaspa_x.KaspaAuth.Episode.{
  AuthCommand, AuthRollback, SimpleAuth, Libraries, Executed, attempts, recent, max_attempts,
  increment_rate_limit, execute,
}
use kaspa_x.KaspaAuth.Episode.Sessions.{Step, Judged, auth-Judged}

-- Time only takes attempts out of the window.
recent_later : (t u : ℕ) (xs : List ℕ) → t ≤ u → length (recent u xs) ≤ length (recent t xs)
recent_later t u [] h = omega arith
recent_later t u (x ∷ xs) h = ground (arith, recent_later t u xs h)

recent_self : (t : ℕ) (xs : List ℕ) → recent t (recent t xs) ≡ recent t xs
recent_self t [] = refl
recent_self t (x ∷ xs) = elim (Bool-cases (leb (t - x) 300)) [
  | inl near ↦ rw near (rw near (ap (◌∷◌ x) (recent_self t xs)))
  | inr far ↦ rw far (recent_self t xs)
]

recent_push : (t : ℕ) (xs : List ℕ) → length (recent t (xs ++ t ∷ [])) ≡ suc (length (recent t xs))
recent_push t [] = ground arith
recent_push t (x ∷ xs) = ground (arith, recent_push t xs)

-- Nobody has more than five attempts in the window that ends at t.
abbrev pub Limited : ℕ → SimpleAuth → Type 0
Limited t s = (pk : ℕ) → length (recent t (attempts (lookup pk s.rate_limits))) ≤ max_attempts

pushed_limit :
    (t : ℕ) (xs : List ℕ)
    → length (recent t xs) < max_attempts
    → length (recent t (recent t (xs ++ t ∷ []))) ≤ max_attempts
pushed_limit t xs few = rw (recent_self t (xs ++ t ∷ []), recent_push t xs) (omega arith)

increment-Limited :
    (pk t : ℕ) (s : SimpleAuth)
    → length (recent t (attempts (lookup pk s.rate_limits))) < max_attempts
    → Limited t s
    → Limited t (increment_rate_limit pk t s)
unfolding increment_rate_limit
increment-Limited pk t s few h k = elim (ℕ_discrete pk k) [
  | yes here ↦
      subst
        (λ j.
          length (recent t (attempts (lookup j (insert pk after s.rate_limits)))) ≤ max_attempts)
        here
        (rw (lookup-insert_self pk after s.rate_limits)
          (pushed_limit t (attempts (lookup pk s.rate_limits)) few))
  | no away ↦ rw (lookup-insert_ne pk k after s.rate_limits away) (h k)
]
  where
    after : List ℕ
    after = recent t (attempts (lookup pk s.rate_limits) ++ t ∷ [])

module _ (lib : Libraries) where
  Step-Limited :
      {md : PayloadMetadata} {now pk : ℕ} {s s' : SimpleAuth} {c : AuthCommand} {rb : AuthRollback}
      → Step lib md now s pk c s' rb
      → length (recent md.accepting_time (attempts (lookup pk s.rate_limits))) < max_attempts
      → Limited md.accepting_time s
      → Limited md.accepting_time s'
  Step-Limited {md} {now} {pk} {s} Step.challenged few h =
      increment-Limited pk md.accepting_time _ few h
  Step-Limited (Step.admitted signature nonce _ _ _ _) few h = h
  Step-Limited (Step.revoked token signature _ _ _) few h = h

  Judged-Limited :
      (md : PayloadMetadata) (now : ℕ) (s : SimpleAuth) (c : AuthCommand) (auth : Option ℕ)
      (x : Executed)
      → Judged lib md now s c auth x
      → Limited md.accepting_time s
      → Limited md.accepting_time x.0
  Judged-Limited md now s c auth (s', err e) j h = subst (Limited md.accepting_time) (sym j) h
  Judged-Limited md now s c auth (s', ok rb) (pk, same, known, few, step) h =
      Step-Limited step few h

  -- If nobody has more than five attempts in the five minutes before one time, then after a command
  -- accepted at this time or later nobody has more than five in the five minutes before that.
  pub execute-Limited :
      (c : AuthCommand) (auth : Option ℕ) (md : PayloadMetadata) (now t : ℕ) (s : SimpleAuth)
      → t ≤ md.accepting_time
      → Limited t s
      → Limited md.accepting_time (execute lib c auth md now s).0
  execute-Limited c auth md now t s later h =
      Judged-Limited md now s c auth (execute lib c auth md now s) (auth-Judged lib md now s c auth)
        (λ pk. omega (
          arith,
          h pk,
          recent_later t md.accepting_time (attempts (lookup pk s.rate_limits)) later,
        ))
