-- ===== src/CommentBoard/Episode/Undoing.antt =====
-- What the rollback of a command gives back, and what it does not.
use kaspa_x.Base.{
  ℕ, zero, suc, ◌+◌, ◌-◌, ◌^◌, ◌≡◌, ◌≤◌, ◌<◌, refl, ap, true, not, ◌&&◌, none, some, List, [], ◌∷◌,
  ◌++◌, ltb, ◌==◌, if◌then◌else◌, length, retain, length-append, add64, arith, subst,
}
use kaspa_x.Kdapp.Episode.{PayloadMetadata, EpisodeError, Result, ok, err}
use kaspa_x.CommentBoard.Commands.{
  ContractCommand, join_room, request_challenge, submit_response, submit_comment, ContractError,
}
use kaspa_x.CommentBoard.Contract.{EconomicComment}
use kaspa_x.CommentBoard.Board.{
  UtxoId, join_bond, comment_bond, utxo_eq, Locks, lock, unlock, locked, ContractCommentBoard,
  ContractRollback, Executed, set_challenge, authenticate, economic_comment,
}
use kaspa_x.CommentBoard.Episode.{challenge, execute, rollback}
use kaspa_x.CommentBoard.Episode.Rules.{Step, Judged, board-Judged}
use kaspa_x.CommentBoard.Episode.History.{IsBoard, Rising, Rising-length}

utxo_eq_refl : (u : UtxoId) → utxo_eq u u ≡ true
utxo_eq_refl (join_bond p) = ground arith
utxo_eq_refl (comment_bond i t) = ground arith

unlock_absent : (u : UtxoId) (m : Locks) → locked u m ≡ none → unlock u m ≡ m
unfolding unlock
unlock_absent u [] h = refl
unlock_absent u ((v, k) ∷ m) h = ground (arith, unlock_absent u m)

unlock-lock : (u : UtxoId) (n : ℕ) (m : Locks) → locked u m ≡ none → unlock u (lock u n m) ≡ m
unfolding unlock lock
unlock-lock u n [] h = rw (utxo_eq_refl u) refl
unlock-lock u n ((v, k) ∷ m) h = ground (arith, unlock-lock u n m)

-- Writing a lock again changes nothing.
lock-lock : (u : UtxoId) (n : ℕ) (m : Locks) → lock u n (lock u n m) ≡ lock u n m
unfolding lock
lock-lock u n [] = rw (utxo_eq_refl u) refl
lock-lock u n ((v, k) ∷ m) = ground (arith, lock-lock u n m)

-- The newest comment is the only one with its id.
retain-Rising :
    (lo hi : ℕ) (cs : List EconomicComment) (c : EconomicComment)
    → c.id ≡ hi
    → Rising lo cs hi
    → retain (λ d. not (d.id == hi)) (cs ++ c ∷ []) ≡ cs
retain-Rising lo hi [] c e r = ground arith
retain-Rising lo hi (d ∷ cs) c e r =
    ground (arith, retain-Rising (d.id + 1) hi cs c e r.1, below (d.id + 1) hi cs r.1)
  where
    below : (k n : ℕ) (ds : List EconomicComment) → Rising k ds n → k ≤ n
    below k n [] r = r
    below k n (d ∷ ds) r = omega (arith, below (d.id + 1) n ds r.1)

-- The locks after a lock of a bond has been reversed: a bond of nothing stays.
abbrev pub residue : UtxoId → ℕ → Locks → Locks
residue u bond m = if bond == 0 then lock u 0 m else m

-- The board after a command and its rollback, given the board before.
abbrev pub undone :
    (ℕ → List ℕ)
    → ContractCommand
    → ℕ
    → PayloadMetadata
    → ContractCommentBoard
    → ContractCommentBoard
undone hex (join_room bond) participant md s = record s {
  contract = record (s.contract) { room_members = s.contract.room_members ++ participant ∷ [] };
  locked_utxos = residue (join_bond participant) bond s.locked_utxos;
}
undone hex request_challenge participant md s = set_challenge (some (challenge hex md)) s
undone hex (submit_response _ _) participant md s = authenticate participant s
undone hex (submit_comment _ bond _ _) participant md s = record s {
  locked_utxos = residue (comment_bond s.next_comment_id md.tx_id) bond s.locked_utxos;
  next_comment_id = s.next_comment_id + 1;
}

-- The bond fits what is locked, and its lock is new.
abbrev pub HasRoom : ContractCommand → ℕ → PayloadMetadata → ContractCommentBoard → Type 0
HasRoom (join_room bond) participant md s =
    (s.contract.total_locked_value + bond < 2 ^ 64)
    × (locked (join_bond participant) s.locked_utxos ≡ none)
HasRoom (submit_comment _ bond _ _) participant md s =
    (s.contract.total_locked_value + bond < 2 ^ 64)
    × (locked (comment_bond s.next_comment_id md.tx_id) s.locked_utxos ≡ none)
    × (s.next_comment_id + 1 < 2 ^ 64)
HasRoom request_challenge participant md s = Unit {0}
HasRoom (submit_response _ _) participant md s = Unit {0}

reversed-absent :
    (u : UtxoId) (bond : ℕ) (m : Locks)
    → locked u m ≡ none
    → (if ltb 0 bond then unlock u m else lock u bond m) ≡ residue u bond m
reversed-absent u zero m h = refl
reversed-absent u (suc n) m h = ground (arith, unlock_absent u m h)

reversed-lock :
    (u : UtxoId) (bond : ℕ) (m : Locks)
    → locked u m ≡ none
    → (if ltb 0 bond then unlock u (lock u bond m) else lock u bond (lock u bond m))
      ≡ residue u bond m
reversed-lock u zero m h = lock-lock u 0 m
reversed-lock u (suc n) m h = ground (arith, unlock-lock u (suc n) m h)

module _ {hex : ℕ → List ℕ} {participant : ℕ} {md : PayloadMetadata}
    {s : ContractCommentBoard} where
  Step-undone :
      {c : ContractCommand} {s' : ContractCommentBoard} {rb : ContractRollback}
      → Step hex participant md s c s' rb
      → IsBoard s
      → HasRoom c participant md s
      → rollback rb s' ≡ (undone hex c participant md s, true)
  unfolding rollback
  Step-undone (Step.joined bond) b room = λ i. (
    record s {
      contract = record (s.contract) {
        room_members = s.contract.room_members ++ participant ∷ [];
        total_locked_value = pool i;
      };
      locked_utxos = reversed-absent (join_bond participant) bond s.locked_utxos room.1 i;
    },
    true,
  )
    where
      pool : add64 s.contract.total_locked_value bond - bond ≡ s.contract.total_locked_value
      pool = omega (arith, room.0)
  Step-undone Step.asked b room = refl
  Step-undone (Step.answered signature nonce _ _) b room = refl
  Step-undone (Step.commented text bond idx script shown covered) b room = λ i. (
    record s {
      contract = record (s.contract) {
        comments = kept i;
        total_comments = count i;
        total_locked_value = pool i;
      };
      locked_utxos =
          reversed-lock (comment_bond s.next_comment_id md.tx_id) bond s.locked_utxos room.1 i;
      next_comment_id = next i;
    },
    true,
  )
    where
      posted : EconomicComment
      posted = economic_comment participant text bond md s.next_comment_id

      kept :
          retain (λ d. not (d.id == s.next_comment_id)) (s.contract.comments ++ posted ∷ [])
          ≡ s.contract.comments
      kept = retain-Rising 1 s.next_comment_id s.contract.comments posted refl b.rising

      next : add64 s.next_comment_id 1 ≡ s.next_comment_id + 1
      next = omega (arith, room.2)

      pool : add64 s.contract.total_locked_value bond - bond ≡ s.contract.total_locked_value
      pool = omega (arith, room.0)

      before : ℕ
      before = add64 s.contract.total_comments 1

      count :
          (if ltb 0 before
              && ltb
                  (length (
                    retain
                      (λ d. not (d.id == s.next_comment_id))
                      (s.contract.comments ++ posted ∷ [])))
                  (length (s.contract.comments ++ posted ∷ []))
            then before - 1
            else before)
          ≡ s.contract.total_comments
      count = rw kept (
          ground (
            arith,
            length-append s.contract.comments (posted ∷ []),
            b.counted,
            Rising-length 1 s.next_comment_id s.contract.comments b.rising,
            room.2,
          ))

abbrev rollback_of :
    ContractRollback → Result ContractRollback (EpisodeError ContractError) → ContractRollback
rollback_of d (ok rb) = rb
rollback_of d (err _) = d

Judged-undone :
    (hex : ℕ → List ℕ) (participant : ℕ) (md : PayloadMetadata) (s : ContractCommentBoard)
    (c : ContractCommand) (x : Executed) (rb : ContractRollback)
    → Judged hex participant md s c x
    → IsBoard s
    → HasRoom c participant md s
    → x.1 ≡ ok rb
    → rollback rb x.0 ≡ (undone hex c participant md s, true)
Judged-undone hex participant md s c (s', err e) rb j b room same = cc
Judged-undone hex participant md s c (s', ok r) rb j b room same =
    subst (λ z. rollback z s' ≡ (undone hex c participant md s, true)) (ap (rollback_of rb) same)
      (Step-undone j.1 b room)

-- The rollback of an accepted command that comes next, on a board of the invariant whose locked value has
-- room for the bond and where the bond's lock is new: of a comment the comment, its count and its bond are
-- undone, but not the next id; of a join the bond, but not the membership; a lock of no bond is left behind;
-- of a challenge and of an authentication nothing is undone.
pub rollback-reversed :
    (hex : ℕ → List ℕ) (c : ContractCommand) (participant : ℕ) (md : PayloadMetadata)
    (s : ContractCommentBoard) (rb : ContractRollback)
    → IsBoard s
    → HasRoom c participant md s
    → (execute hex c (some participant) md s).1 ≡ ok rb
    → rollback rb (execute hex c (some participant) md s).0 ≡ (undone hex c participant md s, true)
rollback-reversed hex c participant md s rb b room same =
    Judged-undone hex participant md s c _ rb (board-Judged hex c participant md s).1 b room same
