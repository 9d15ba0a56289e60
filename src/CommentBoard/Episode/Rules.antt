-- ===== src/CommentBoard/Episode/Rules.antt =====
-- What an accepted command of the board required and did.
use kaspa_x.Base.{
  of_not, ℕ, ◌≡◌, ◌≢◌, ◌⊎◌, ◌≤◌, refl, sym, ap, ◌∙◌, inl, inr, Bool, true, false, not, Option, none,
  some, List, [], ltb, leb, ◌==◌, if◌then◌else◌, length, get_elem?, any, arith, Bool-cases, ==_iff,
}
use kaspa_x.Base.Slices.{bytes_eq, eq_of_bytes_eq}
use kaspa_x.Kdapp.Episode.{TxOutputInfo, PayloadMetadata, ok, err, unauthorized}
use kaspa_x.CommentIt.Episode.{is_blank}
use kaspa_x.CommentBoard.Commands.{
  BondScriptKind, p2pk, time_lock, moderator_multisig, time_or_moderator, ContractCommand,
  join_room, request_challenge, submit_response, submit_comment, ContractError,
  room_rules_violation, bonds_disabled, insufficient_bond,
}
use kaspa_x.CommentBoard.Scripts.{decode_bond_descriptor}
use kaspa_x.CommentBoard.Contract.{RoomRules}
use kaspa_x.CommentBoard.Board.{
  ContractCommentBoard, ContractRollback, Executed, add_member, join_rollback, plain_rollback,
  op_authenticate, op_request_challenge, set_challenge, authenticate, respond, kind_eq,
  script_error, decoded_error, descriptor_error, output_error, carrier_error, bond_error, post,
  post_rollback, post_checked,
}
use kaspa_x.CommentBoard.Episode.{challenge, execute_as, execute}

kind_eq-eq : (d e : BondScriptKind) → kind_eq d e ≡ true → d ≡ e
kind_eq-eq p2pk p2pk h = refl
kind_eq-eq p2pk (time_lock u) h = cc
kind_eq-eq p2pk (moderator_multisig q n) h = cc
kind_eq-eq p2pk (time_or_moderator u q n) h = cc
kind_eq-eq (time_lock t) p2pk h = cc
kind_eq-eq (time_lock t) (time_lock u) h = ground arith
kind_eq-eq (time_lock t) (moderator_multisig q n) h = cc
kind_eq-eq (time_lock t) (time_or_moderator u q n) h = cc
kind_eq-eq (moderator_multisig r m) p2pk h = cc
kind_eq-eq (moderator_multisig r m) (time_lock u) h = cc
kind_eq-eq (moderator_multisig r m) (moderator_multisig q n) h = ground arith
kind_eq-eq (moderator_multisig r m) (time_or_moderator u q n) h = cc
kind_eq-eq (time_or_moderator t r m) p2pk h = cc
kind_eq-eq (time_or_moderator t r m) (time_lock u) h = cc
kind_eq-eq (time_or_moderator t r m) (moderator_multisig q n) h = cc
kind_eq-eq (time_or_moderator t r m) (time_or_moderator u q n) h = ground arith

-- The output's script bytes, where they are known and decode to a descriptor, decode to the declared one.
abbrev pub BytesAgree : BondScriptKind → Option (List ℕ) → Type 0
BytesAgree d none = Unit {0}
BytesAgree d (some bytes) =
    (decode_bond_descriptor bytes ≡ none) ⊎ (decode_bond_descriptor bytes ≡ some d)

abbrev pub ScriptAgrees : Option BondScriptKind → TxOutputInfo → Type 0
ScriptAgrees none o = Unit {0}
ScriptAgrees (some d) o = BytesAgree d o.script_bytes

-- The carrier's outputs, where they are known, carry the bond: the declared one exactly, and with a
-- script that agrees; or, with none declared, some output is worth as much.
abbrev pub Carried : ℕ → Option BondScriptKind → Option ℕ → Option (List TxOutputInfo) → Type 0
Carried bond script idx none = Unit {0}
Carried bond script (some i) (some outs) =
    (o : TxOutputInfo) × (get_elem? outs i ≡ some o) × (o.value ≡ bond) × ScriptAgrees script o
Carried bond script none (some outs) = any (λ o. leb bond o.value) outs ≡ true

abbrev pub BondCovered :
    RoomRules → ℕ → Option ℕ → Option BondScriptKind → Option (List TxOutputInfo) → Type 0
BondCovered rules bond idx script outs =
    (bond ≡ 0)
    ⊎ ((rules.bonds_enabled ≡ true) × (rules.min_bond ≤ bond) × Carried bond script idx outs)

descriptor-agrees :
    (d : BondScriptKind) (o : Option BondScriptKind)
    → descriptor_error d o ≡ none
    → (o ≡ none) ⊎ (o ≡ some d)
descriptor-agrees d none h = inl refl
descriptor-agrees d (some e) h = elim (Bool-cases (kind_eq e d)) [
  | inl same ↦ inr (ap some (kind_eq-eq e d same))
  | inr other ↦ absurd (ground arith)
]

bytes-agree : (d : BondScriptKind) (b : Option (List ℕ)) → decoded_error d b ≡ none → BytesAgree d b
bytes-agree d none h = tt
bytes-agree d (some bytes) h = descriptor-agrees d (decode_bond_descriptor bytes) h

script-agrees :
    (script : Option BondScriptKind) (o : TxOutputInfo)
    → script_error script o ≡ none
    → ScriptAgrees script o
script-agrees none o h = tt
script-agrees (some d) o h = bytes-agree d o.script_bytes h

output-Carried :
    (bond : ℕ) (script : Option BondScriptKind) (i : ℕ) (outs : List TxOutputInfo)
    (found : Option TxOutputInfo)
    → get_elem? outs i ≡ found
    → output_error bond script found ≡ none
    → Carried bond script (some i) (some outs)
output-Carried bond script i outs none e h = absurd (cc)
output-Carried bond script i outs (some o) e h = elim (Bool-cases (o.value == bond)) [
  | inl exact ↦
      (o, e, (==_iff o.value bond).0 exact, script-agrees script o (sym (rw exact refl) ∙ h))
  | inr short ↦ absurd (ground arith)
]

carrier-Carried :
    (bond : ℕ) (script : Option BondScriptKind) (idx : Option ℕ) (outs : Option (List TxOutputInfo))
    → carrier_error bond script idx outs ≡ none
    → Carried bond script idx outs
carrier-Carried bond script idx none h = tt
carrier-Carried bond script none (some outs) h = ground arith
carrier-Carried bond script (some i) (some outs) h =
    output-Carried bond script i outs (get_elem? outs i) refl h

if-none {ℓ} :
    {E : Type ℓ} (b : Bool) (e : E) (x : Option E)
    → (if b then some e else x) ≡ none
    → (b ≡ false) × (x ≡ none)
if-none true e x h = absurd (cc)
if-none false e x h = (refl, h)

module _ (rules : RoomRules) (bond : ℕ) (idx : Option ℕ) (script : Option BondScriptKind)
    (outs : Option (List TxOutputInfo)) where
  nonzero-covered :
      (b : Bool)
      → (bond == 0) ≡ b
      → (if b
          then none
          else if not rules.bonds_enabled
          then some (room_rules_violation bonds_disabled)
          else if ltb bond rules.min_bond
          then some (insufficient_bond rules.min_bond bond)
          else carrier_error bond script idx outs)
        ≡ none
      → BondCovered rules bond idx script outs
  nonzero-covered true e h = inl ((==_iff bond 0).0 e)
  nonzero-covered false e h =
      let enabled = if-none (not rules.bonds_enabled) _ _ h in
      let enough = if-none (ltb bond rules.min_bond) _ _ enabled.1 in
      inr (of_not _ enabled.0, at_least enough.0, carrier-Carried bond script idx outs enough.1)
    where
      at_least : ltb bond rules.min_bond ≡ false → rules.min_bond ≤ bond
      at_least k = ground arith

  bond_error-covered :
      bond_error rules bond idx script outs ≡ none → BondCovered rules bond idx script outs
  unfolding bond_error
  bond_error-covered h = nonzero-covered (bond == 0) refl h

module _ (hex : ℕ → List ℕ) (participant : ℕ) (md : PayloadMetadata)
    (s : ContractCommentBoard) where
  pub data Step : ContractCommand → ContractCommentBoard → ContractRollback → Type 0 where
    joined :
        (bond : ℕ)
        → Step (join_room bond) (add_member participant bond s) (join_rollback participant bond md)
    asked :
        Step request_challenge
          (set_challenge (some (challenge hex md)) s)
          (plain_rollback op_request_challenge md)
    answered :
        (signature nonce : List ℕ)
        → s.contract.current_challenge ≡ some nonce
        → signature ≢ []
        → Step
            (submit_response signature nonce)
            (authenticate participant s)
            (plain_rollback op_authenticate md)
    commented :
        (text : List ℕ) (bond : ℕ) (idx : Option ℕ) (script : Option BondScriptKind)
        → is_blank text ≡ false
        → BondCovered s.contract.room_rules bond idx script md.tx_outputs
        → Step
            (submit_comment text bond idx script)
            (post participant text bond md s)
            (post_rollback bond md s)

  abbrev pub Judged : ContractCommand → Executed → Type 0
  Judged c (s', err _) = s' ≡ s
  Judged c (s', ok rb) = (md.accepting_time ≤ s.contract_expires_at) × Step c s' rb

  respond-Judged :
      (signature nonce : List ℕ) (o : Option (List ℕ))
      → md.accepting_time ≤ s.contract_expires_at
      → s.contract.current_challenge ≡ o
      → Judged (submit_response signature nonce) (respond participant signature nonce o md s)
  respond-Judged signature nonce none live e = refl
  respond-Judged signature nonce (some challenge) live e =
      elim (Bool-cases (bytes_eq nonce challenge)) [
        | inl same ↦ elim (Bool-cases (length signature == 0)) [
          | inl empty ↦ rw (same, empty) refl
          | inr signed ↦
              rw (same, signed)
                (
                  live,
                  answered signature nonce (e ∙ ap some (sym (eq_of_bytes_eq nonce challenge same)))
                      (λ k. absurd (ground (arith, ap length k))),
                )
        ]
        | inr other ↦ rw other refl
      ]

  post-Judged :
      (text : List ℕ) (bond : ℕ) (idx : Option ℕ) (script : Option BondScriptKind)
      (o : Option ContractError)
      → md.accepting_time ≤ s.contract_expires_at
      → is_blank text ≡ false
      → bond_error s.contract.room_rules bond idx script md.tx_outputs ≡ o
      → Judged (submit_comment text bond idx script) (post_checked participant text bond o md s)
  post-Judged text bond idx script (some e) live shown h = refl
  post-Judged text bond idx script none live shown h = (
    live,
    commented text bond idx script shown
        (bond_error-covered s.contract.room_rules bond idx script md.tx_outputs h),
  )

  live-Judged :
      (c : ContractCommand)
      → md.accepting_time ≤ s.contract_expires_at
      → Judged c (execute_as hex c participant md s)
  live-Judged (join_room bond) live = (live, joined bond)
  live-Judged request_challenge live = (live, asked)
  live-Judged (submit_response signature nonce) live =
      respond-Judged signature nonce s.contract.current_challenge live refl
  live-Judged (submit_comment text bond idx script) live = elim (Bool-cases (is_blank text)) [
    | inl blank ↦ rw blank refl
    | inr shown ↦ rw shown (post-Judged text bond idx script _ live shown refl)
  ]

  some-Judged : (c : ContractCommand) → Judged c (execute hex c (some participant) md s)
  unfolding execute
  some-Judged c = elim (Bool-cases (ltb s.contract_expires_at md.accepting_time)) [
    | inl late ↦ rw late refl
    | inr early ↦ rw early (live-Judged c (ground arith))
  ]

-- A command without a signature is refused. A refused command leaves the board as it was. An accepted one
-- came before the board's expiry and is a step of the relation `Step`: a response repeats the challenge and
-- has some signature, a comment is not blank and its bond is nothing, or at least the room's minimum and
-- carried by the transaction's outputs where these are known; the state and the rollback object are the
-- step's.
pub board-Judged :
    (hex : ℕ → List ℕ) (c : ContractCommand) (participant : ℕ) (md : PayloadMetadata)
    (s : ContractCommentBoard)
    → (execute hex c none md s ≡ (s, err unauthorized))
      × Judged hex participant md s c (execute hex c (some participant) md s)
unfolding execute
board-Judged hex c participant md s = (refl, some-Judged hex participant md s c)
