-- ===== src/Kdapp/Generator/Payloads.antt =====
-- The payloads that the search for a nonce returns.
use native.Mathlib.Decide.{ℕ_discrete}
use kaspa_x.Base.{
  ℕ, zero, suc, ◌+◌, ◌^◌, ◌≡◌, ◌≢◌, ◌≤◌, ◌<◌, refl, sym, ap, ◌∙◌, inl, inr, true, false, Option,
  none, some, List, ◌++◌, ltb, length, take, drop, to_le_bytes, from_le_bytes, from-to_le_bytes,
  arith, Bool-cases, lt→ltb,
}
use kaspa_x.Base.Slices.{bytes_eq, bytes_eq_refl, eq_of_bytes_eq}
use kaspa_x.Kdapp.Generator.{
  PatternType, check_pattern, pack_header, check_header, set_nonce, strip_header, search,
  build_payload,
}

true_ne_false : true ≢ false
true_ne_false e = cc

-- A header of a prefix and a nonce, and the data.
abbrev pub framed : ℕ → ℕ → List ℕ → List ℕ
framed prefix nonce inner = to_le_bytes 4 prefix ++ (to_le_bytes 4 nonce ++ inner)

drop_header : (prefix nonce : ℕ) (inner : List ℕ) → drop 8 (framed prefix nonce inner) ≡ inner
unfolding to_le_bytes
drop_header prefix nonce inner = refl

take_prefix :
    (prefix nonce : ℕ) (inner : List ℕ) → take 4 (framed prefix nonce inner) ≡ to_le_bytes 4 prefix
unfolding to_le_bytes
take_prefix prefix nonce inner = refl

set_nonce-framed :
    (prefix nonce new_nonce : ℕ) (inner : List ℕ)
    → set_nonce (framed prefix nonce inner) new_nonce ≡ framed prefix new_nonce inner
unfolding set_nonce to_le_bytes
set_nonce-framed prefix nonce new_nonce inner = refl

length-framed :
    (prefix nonce : ℕ) (inner : List ℕ) → length (framed prefix nonce inner) ≡ 8 + length inner
unfolding to_le_bytes
length-framed prefix nonce inner = omega arith

check_header-framed :
    (prefix other nonce : ℕ) (inner : List ℕ)
    → check_header (framed prefix nonce inner) other
      ≡ bytes_eq (to_le_bytes 4 prefix) (to_le_bytes 4 other)
unfolding check_header
check_header-framed prefix other nonce inner =
    elim (Bool-cases (ltb (length (framed prefix nonce inner)) 8)) [
      | inl short ↦ absurd (ground (arith, length-framed prefix nonce inner))
      | inr long ↦
          rw long (ap (λ x. bytes_eq x (to_le_bytes 4 other)) (take_prefix prefix nonce inner))
    ]

-- Two prefixes below 2^32 have the same bytes only if they are the same.
prefix_eq : (a b : ℕ) → a < 2 ^ 32 → b < 2 ^ 32 → to_le_bytes 4 a ≡ to_le_bytes 4 b → a ≡ b
prefix_eq a b ha hb e =
    sym (from-to_le_bytes 4 a (omega arith))
    ∙ ap from_le_bytes e
    ∙ from-to_le_bytes 4 b (omega arith)

module _ (id_of : List ℕ → ℕ) (pattern : PatternType) where
  -- A payload as the proxy takes it: the id matches, the header is the prefix's and no other's, and
  -- behind it stands the data.
  pub record Delivers (prefix : ℕ) (inner payload : List ℕ) : Type 0 where
    pub matches : check_pattern (id_of payload) pattern ≡ true
    pub own : check_header payload prefix ≡ true
    pub apart : (other : ℕ) → other < 2 ^ 32 → other ≢ prefix → check_header payload other ≡ false
    pub stripped : strip_header payload ≡ inner

  framed-Delivers :
      (prefix nonce : ℕ) (inner : List ℕ)
      → prefix < 2 ^ 32
      → check_pattern (id_of (framed prefix nonce inner)) pattern ≡ true
      → Delivers prefix inner (framed prefix nonce inner)
  unfolding strip_header
  framed-Delivers prefix nonce inner range good = record {
    matches = good;
    own = check_header-framed prefix prefix nonce inner ∙ bytes_eq_refl (to_le_bytes 4 prefix);
    apart = λ other small ne. elim (Bool-cases (check_header (framed prefix nonce inner) other)) [
      | inl same ↦ absurd (
          ne (
            sym (
              prefix_eq prefix other range small
                (eq_of_bytes_eq _ _ (sym (check_header-framed prefix other nonce inner) ∙ same)))))
      | inr differs ↦ differs
    ];
    stripped = drop_header prefix nonce inner;
  }

  abbrev pub Found : ℕ → List ℕ → Option (List ℕ) → Type 0
  Found prefix inner none = ⊥
  Found prefix inner (some payload) = Delivers prefix inner payload

  -- From a nonce up to one that is known to match, the search finds one that does.
  search-Found :
      (fuel nonce target prefix : ℕ) (inner : List ℕ)
      → prefix < 2 ^ 32
      → target < 2 ^ 32
      → nonce ≤ target
      → target < nonce + fuel
      → check_pattern (id_of (framed prefix target inner)) pattern ≡ true
      → Found prefix inner (search id_of pattern fuel nonce (framed prefix nonce inner))
  unfolding search
  search-Found zero nonce target prefix inner range below le room good = absurd (omega arith)
  search-Found (suc fuel) nonce target prefix inner range below le room good =
      elim (Bool-cases (check_pattern (id_of (framed prefix nonce inner)) pattern)) [
        | inl hit ↦ rw hit (framed-Delivers prefix nonce inner range hit)
        | inr miss ↦
            let later = missed nonce target miss good le in
            let more = lt→ltb (nonce + 1) (2 ^ 32) (omega (arith, later, below)) in
            rw (miss, more, set_nonce-framed prefix nonce (nonce + 1) inner)
              (search-Found fuel (nonce + 1) target prefix inner range below (omega (arith, later))
                (omega arith) good)
      ]
    where
      missed :
          (n t : ℕ)
          → check_pattern (id_of (framed prefix n inner)) pattern ≡ false
          → check_pattern (id_of (framed prefix t inner)) pattern ≡ true
          → n ≤ t
          → n < t
      missed n t miss good le = elim (ℕ_discrete n t) [
        | yes same ↦ absurd (
            true_ne_false (
              sym good
              ∙ ap (λ k. check_pattern (id_of (framed prefix k inner)) pattern) (sym same)
              ∙ miss))
        | no differ ↦ omega arith
      ]

  -- If some nonce makes the id match, the search ends without a panic, with a payload that the proxy
  -- delivers to the prefix's engine and to no other one, and that strips to the data that went in.
  pub build_payload-Found :
      (inner : List ℕ) (prefix target : ℕ)
      → prefix < 2 ^ 32
      → target < 2 ^ 32
      → check_pattern (id_of (framed prefix target inner)) pattern ≡ true
      → Found prefix inner (build_payload id_of pattern inner prefix)
  unfolding build_payload pack_header
  build_payload-Found inner prefix target range below good =
      search-Found (2 ^ 32) 0 target prefix inner range below (omega arith) (omega arith) good
