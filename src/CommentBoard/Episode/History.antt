-- ===== src/CommentBoard/Episode/History.antt =====
-- What holds of the board's comments through any history of commands and rollbacks.
use kaspa_x.Base.{
  ℕ, ◌+◌, ◌^◌, ◌≡◌, ◌≤◌, ◌<◌, ◌⊎◌, refl, inl, inr, Bool, true, false, not, Option, none, some, List,
  [], ◌∷◌, ◌++◌, ◌==◌, length, retain, length-append, length-retain, add64, arith, Bool-cases,
}
use kaspa_x.Kdapp.Episode.{TxOutputInfo, PayloadMetadata, ok, err}
use kaspa_x.CommentIt.Episode.{is_blank}
use kaspa_x.CommentBoard.Commands.{BondScriptKind, ContractCommand}
use kaspa_x.CommentBoard.Contract.{EconomicComment, RoomRules}
use kaspa_x.CommentBoard.Board.{
  ContractCommentBoard, ContractRollback, Executed, Operation, op_join_room, op_request_challenge,
  op_authenticate, op_submit_comment, economic_comment,
}
use kaspa_x.CommentBoard.Episode.{release, remove_comment, uncomment, undo, execute, rollback}
use kaspa_x.CommentBoard.Episode.Rules.{Step, Judged, BondCovered, board-Judged}

-- Ids that rise from lo and stay below hi.
abbrev pub Rising : ℕ → List EconomicComment → ℕ → Type 0
Rising lo [] hi = lo ≤ hi
Rising lo (c ∷ cs) hi = (lo ≤ c.id) × Rising (c.id + 1) cs hi

-- A comment as the rules admit it.
abbrev pub Admitted : RoomRules → EconomicComment → Type 0
Admitted rules c =
    (is_blank c.text ≡ false)
    × ((c.bond_amount ≡ 0) ⊎ ((rules.bonds_enabled ≡ true) × (rules.min_bond ≤ c.bond_amount)))

abbrev pub AllAdmitted : RoomRules → List EconomicComment → Type 0
AllAdmitted rules [] = Unit {0}
AllAdmitted rules (c ∷ cs) = Admitted rules c × AllAdmitted rules cs

-- The ids of the comments rise and are below the next one, the comments are as many as are counted, and
-- each is one that the rules admit.
pub record IsBoard (s : ContractCommentBoard) : Type 0 where
  pub rising : Rising 1 s.contract.comments s.next_comment_id
  pub counted : s.contract.total_comments ≡ length s.contract.comments
  pub admitted : AllAdmitted s.contract.room_rules s.contract.comments

Rising-weaken :
    (lo lo' hi : ℕ) (cs : List EconomicComment) → lo' ≤ lo → Rising lo cs hi → Rising lo' cs hi
Rising-weaken lo lo' hi [] h r = omega arith
Rising-weaken lo lo' hi (c ∷ cs) h r = (omega arith, r.1)

pub Rising-length : (lo hi : ℕ) (cs : List EconomicComment) → Rising lo cs hi → lo + length cs ≤ hi
Rising-length lo hi [] r = omega arith
Rising-length lo hi (c ∷ cs) r = omega (arith, Rising-length (c.id + 1) hi cs r.1)

Rising-append :
    (lo hi : ℕ) (cs : List EconomicComment) (c : EconomicComment)
    → c.id ≡ hi
    → Rising lo cs hi
    → Rising lo (cs ++ c ∷ []) (hi + 1)
Rising-append lo hi [] c e r = (omega arith, omega arith)
Rising-append lo hi (d ∷ cs) c e r = (r.0, Rising-append (d.id + 1) hi cs c e r.1)

Rising-retain :
    (p : EconomicComment → Bool) (lo hi : ℕ) (cs : List EconomicComment)
    → Rising lo cs hi
    → Rising lo (retain p cs) hi
Rising-retain p lo hi [] r = r
Rising-retain p lo hi (c ∷ cs) r = elim (Bool-cases (p c)) [
  | inl keep ↦ rw keep (r.0, Rising-retain p (c.id + 1) hi cs r.1)
  | inr go ↦ rw go (
      Rising-weaken (c.id + 1) lo hi (retain p cs) (omega (arith, r.0))
        (Rising-retain p (c.id + 1) hi cs r.1))
]

Admitted-append :
    (rules : RoomRules) (cs : List EconomicComment) (c : EconomicComment)
    → Admitted rules c
    → AllAdmitted rules cs
    → AllAdmitted rules (cs ++ c ∷ [])
Admitted-append rules [] c a h = (a, tt)
Admitted-append rules (d ∷ cs) c a h = (h.0, Admitted-append rules cs c a h.1)

Admitted-retain :
    (rules : RoomRules) (p : EconomicComment → Bool) (cs : List EconomicComment)
    → AllAdmitted rules cs
    → AllAdmitted rules (retain p cs)
Admitted-retain rules p [] h = tt
Admitted-retain rules p (c ∷ cs) h = elim (Bool-cases (p c)) [
  | inl keep ↦ rw keep (h.0, Admitted-retain rules p cs h.1)
  | inr go ↦ rw go (Admitted-retain rules p cs h.1)
]

covered-admitted :
    (rules : RoomRules) (bond : ℕ) (idx : Option ℕ) (script : Option BondScriptKind)
    (outs : Option (List TxOutputInfo))
    → BondCovered rules bond idx script outs
    → (bond ≡ 0) ⊎ ((rules.bonds_enabled ≡ true) × (rules.min_bond ≤ bond))
covered-admitted rules bond idx script outs (inl e) = inl e
covered-admitted rules bond idx script outs (inr (enabled, enough, _)) = inr (enabled, enough)

module _ {hex : ℕ → List ℕ} {participant : ℕ} {md : PayloadMetadata}
    {s : ContractCommentBoard} where
  Step-IsBoard :
      {c : ContractCommand} {s' : ContractCommentBoard} {rb : ContractRollback}
      → Step hex participant md s c s' rb
      → s.next_comment_id + 1 < 2 ^ 64
      → IsBoard s
      → IsBoard s' × (s'.next_comment_id ≤ s.next_comment_id + 1)
  Step-IsBoard (Step.joined bond) room b =
      (record { rising = b.rising; counted = b.counted; admitted = b.admitted }, omega arith)
  Step-IsBoard Step.asked room b =
      (record { rising = b.rising; counted = b.counted; admitted = b.admitted }, omega arith)
  Step-IsBoard (Step.answered signature nonce _ _) room b =
      (record { rising = b.rising; counted = b.counted; admitted = b.admitted }, omega arith)
  Step-IsBoard (Step.commented text bond idx script shown covered) room b = (
    record {
      rising = rw next (Rising-append 1 s.next_comment_id s.contract.comments posted refl b.rising);
      counted = omega (
        arith,
        b.counted,
        length-append s.contract.comments (posted ∷ []),
        Rising-length 1 s.next_comment_id s.contract.comments b.rising,
      );
      admitted =
          Admitted-append s.contract.room_rules s.contract.comments posted
            (shown, covered-admitted s.contract.room_rules bond idx script md.tx_outputs covered)
            b.admitted;
    },
    omega arith,
  )
    where
      posted : EconomicComment
      posted = economic_comment participant text bond md s.next_comment_id

      next : add64 s.next_comment_id 1 ≡ s.next_comment_id + 1
      next = omega arith

Judged-IsBoard :
    (hex : ℕ → List ℕ) (participant : ℕ) (md : PayloadMetadata) (s : ContractCommentBoard)
    (c : ContractCommand) (x : Executed)
    → Judged hex participant md s c x
    → s.next_comment_id + 1 < 2 ^ 64
    → IsBoard s
    → IsBoard x.0 × (x.0.next_comment_id ≤ s.next_comment_id + 1)
Judged-IsBoard hex participant md s c (s', err e) j room b = rw j (b, omega arith)
Judged-IsBoard hex participant md s c (s', ok rb) j room b = Step-IsBoard j.1 room b

execute-IsBoard :
    (hex : ℕ → List ℕ) (c : ContractCommand) (auth : Option ℕ) (md : PayloadMetadata)
    (s : ContractCommentBoard)
    → s.next_comment_id + 1 < 2 ^ 64
    → IsBoard s
    → IsBoard (execute hex c auth md s).0
      × ((execute hex c auth md s).0.next_comment_id ≤ s.next_comment_id + 1)
execute-IsBoard hex c none md s room b = rw ((board-Judged hex c 0 md s).0) (b, omega arith)
execute-IsBoard hex c (some participant) md s room b =
    Judged-IsBoard hex participant md s c _ (board-Judged hex c participant md s).1 room b

-- Of comments with rising ids at most one has a given id.
retain-all :
    (cid lo hi : ℕ) (cs : List EconomicComment)
    → cid < lo
    → Rising lo cs hi
    → length (retain (λ c. not (c.id == cid)) cs) ≡ length cs
retain-all cid lo hi [] h r = refl
retain-all cid lo hi (c ∷ cs) h r = ground (arith, retain-all cid (c.id + 1) hi cs, r.0)

retain-one :
    (cid lo hi : ℕ) (cs : List EconomicComment)
    → Rising lo cs hi
    → length cs ≤ length (retain (λ c. not (c.id == cid)) cs) + 1
retain-one cid lo hi [] r = omega arith
retain-one cid lo hi (c ∷ cs) r =
    ground (arith, retain-all cid (c.id + 1) hi cs, retain-one cid (c.id + 1) hi cs r.1)

remove_comment-IsBoard :
    (cid : ℕ) (s : ContractCommentBoard) → IsBoard s → IsBoard (remove_comment cid s)
remove_comment-IsBoard cid s b = record {
  rising = Rising-retain (λ c. not (c.id == cid)) 1 s.next_comment_id s.contract.comments b.rising;
  counted = ground (
    arith,
    b.counted,
    retain-one cid 1 s.next_comment_id s.contract.comments b.rising,
    length-retain (λ c. not (c.id == cid)) s.contract.comments,
  );
  admitted =
      Admitted-retain s.contract.room_rules (λ c. not (c.id == cid)) s.contract.comments b.admitted;
}

release-IsBoard :
    (bond : Option ℕ) (s : ContractCommentBoard) → IsBoard s → IsBoard (release bond s)
release-IsBoard none s b = b
release-IsBoard (some n) s b = record {
  rising = b.rising;
  counted = b.counted;
  admitted = b.admitted;
}

uncomment-IsBoard :
    (cid bond : Option ℕ) (s : ContractCommentBoard) → IsBoard s → IsBoard (uncomment cid bond s)
uncomment-IsBoard none bond s b = b
uncomment-IsBoard (some cid) bond s b =
    release-IsBoard bond (remove_comment cid s) (remove_comment-IsBoard cid s b)

undo-IsBoard :
    (op : Operation) (r : ContractRollback) (s : ContractCommentBoard)
    → IsBoard s
    → IsBoard (undo op r s)
undo-IsBoard op_join_room r s b = release-IsBoard r.bond_amount s b
undo-IsBoard op_request_challenge r s b = b
undo-IsBoard op_authenticate r s b = b
undo-IsBoard op_submit_comment r s b = uncomment-IsBoard r.comment_id r.bond_amount s b

release-next :
    (bond : Option ℕ) (s : ContractCommentBoard)
    → (release bond s).next_comment_id ≡ s.next_comment_id
release-next none s = refl
release-next (some n) s = refl

uncomment-next :
    (cid bond : Option ℕ) (s : ContractCommentBoard)
    → (uncomment cid bond s).next_comment_id ≡ s.next_comment_id
uncomment-next none bond s = refl
uncomment-next (some cid) bond s = release-next bond (remove_comment cid s)

undo-next :
    (op : Operation) (r : ContractRollback) (s : ContractCommentBoard)
    → (undo op r s).next_comment_id ≡ s.next_comment_id
undo-next op_join_room r s = release-next r.bond_amount s
undo-next op_request_challenge r s = refl
undo-next op_authenticate r s = refl
undo-next op_submit_comment r s = uncomment-next r.comment_id r.bond_amount s

rollback-next :
    (r : ContractRollback) (s : ContractCommentBoard)
    → (rollback r s).0.next_comment_id ≡ s.next_comment_id
unfolding rollback
rollback-next r s = undo-next r.operation_type r _

rollback-IsBoard :
    (r : ContractRollback) (s : ContractCommentBoard) → IsBoard s → IsBoard (rollback r s).0
unfolding rollback
rollback-IsBoard r s b =
    undo-IsBoard r.operation_type r _
      (record { rising = b.rising; counted = b.counted; admitted = b.admitted })

-- What happens to a board: a command by anybody, or the rollback of any object.
pub data Happening : Type 0 where
  commanded : ContractCommand → Option ℕ → PayloadMetadata → Happening
  undone : ContractRollback → Happening

abbrev pub after : (ℕ → List ℕ) → List Happening → ContractCommentBoard → ContractCommentBoard
after hex [] s = s
after hex (commanded c auth md ∷ hs) s = after hex hs (execute hex c auth md s).0
after hex (undone r ∷ hs) s = after hex hs (rollback r s).0

-- Through any history of commands by anybody and of rollbacks of any objects in any order, shorter than
-- what is left of the comment ids: the ids of the comments rise and stay below the next one, the comments
-- are as many as are counted, and each has a text that is not blank and a bond that is nothing or at least
-- the room's minimum.
pub after-IsBoard :
    (hex : ℕ → List ℕ) (hs : List Happening) (s : ContractCommentBoard)
    → s.next_comment_id + length hs < 2 ^ 64
    → IsBoard s
    → IsBoard (after hex hs s)
after-IsBoard hex [] s room b = b
after-IsBoard hex (commanded c auth md ∷ hs) s room b =
    let kept = execute-IsBoard hex c auth md s (omega arith) b in
    after-IsBoard hex hs (execute hex c auth md s).0 (omega (arith, kept.1)) kept.0
after-IsBoard hex (undone r ∷ hs) s room b =
    after-IsBoard hex hs (rollback r s).0 (omega (arith, rollback-next r s))
      (rollback-IsBoard r s b)
