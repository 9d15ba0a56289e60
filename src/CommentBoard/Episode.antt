-- ===== src/CommentBoard/Episode.antt =====
-- comment-board/src/episode/board_with_contract.rs: the board's episode: its commands together, and its
-- rollbacks.
-- How a transaction's id is written in hexadecimal, and the key of the registration-only path, are
-- parameters.

pub mod Rules
pub mod History
pub mod Undoing
use kaspa_x.Base.{
  ℕ, zero, suc, ◌+◌, ◌-◌, Bool, true, false, not, ◌&&◌, Option, none, some, List, [], ◌∷◌, ◌++◌,
  ltb, leb, ◌==◌, if◌then◌else◌, length, get_elem?, any, retain, add64,
}
use kaspa_x.Base.Slices.{bytes_eq}
use kaspa_x.Kdapp.Episode.{
  TxOutputInfo, PayloadMetadata, EpisodeError, unauthorized, invalid_command, Result, ok, err,
  Episode,
}
use kaspa_x.CommentIt.Episode.{is_blank}
use kaspa_x.CommentBoard.Commands.{
  BondScriptKind, p2pk, time_lock, moderator_multisig, time_or_moderator, ContractCommand,
  join_room, request_challenge, submit_response, submit_comment, empty_comment, bonds_disabled,
  ContractError, insufficient_bond, user_not_authenticated, descriptor_mismatch,
  room_rules_violation, contract_expired,
}
use kaspa_x.CommentBoard.Scripts.{decode_bond_descriptor}
use kaspa_x.CommentBoard.Contract.{
  RoomRules, EconomicComment, active, CommentRoomContract, default_rules, new,
}
use kaspa_x.CommentBoard.Board.{
  ContractCommentBoard, ContractRollback, Executed, Locks, Operation, UtxoId, bond_error,
  execute_join_room, execute_submit_comment, execute_submit_response, lock, op_authenticate,
  op_join_room, op_request_challenge, op_submit_comment, plain_rollback, refuse, set_challenge,
  start_board, unlock,
}

-- `for (utxo_id, amount) in rollback.utxo_changes`.
unfoldable pub reverse_changes : List (UtxoId × ℕ) → Locks → Locks
unfolding lock unlock
reverse_changes [] m = m
reverse_changes ((u, amount) ∷ changes) m =
    reverse_changes changes (if ltb 0 amount then unlock u m else lock u amount m)

abbrev pub release : Option ℕ → ContractCommentBoard → ContractCommentBoard
release none s = s
release (some bond) s = record s {
  contract = record (s.contract) { total_locked_value = s.contract.total_locked_value - bond };
}

-- `comments.retain(|c| c.id != cid)`, and the count where that has removed one.
abbrev pub remove_comment : ℕ → ContractCommentBoard → ContractCommentBoard
remove_comment cid s =
    let kept = retain (λ c. not (c.id == cid)) s.contract.comments in
    record s {
      contract = record (s.contract) {
        comments = kept;
        total_comments =
            if ltb 0 s.contract.total_comments && ltb (length kept) (length s.contract.comments)
            then s.contract.total_comments - 1
            else s.contract.total_comments;
      };
    }

abbrev pub uncomment : Option ℕ → Option ℕ → ContractCommentBoard → ContractCommentBoard
uncomment none bond s = s
uncomment (some cid) bond s = release bond (remove_comment cid s)

abbrev pub undo : Operation → ContractRollback → ContractCommentBoard → ContractCommentBoard
undo op_submit_comment r s = uncomment r.comment_id r.bond_amount s
undo op_join_room r s = release r.bond_amount s
undo op_request_challenge r s = s
undo op_authenticate r s = s

unfoldable pub rollback : ContractRollback → ContractCommentBoard → ContractCommentBoard × Bool
unfolding reverse_changes
rollback r s = (
  undo r.operation_type r
      (record s { locked_utxos = reverse_changes r.utxo_changes s.locked_utxos }),
  true,
)

unfoldable pub initialize : ℕ → List ℕ → PayloadMetadata → ContractCommentBoard
unfolding new
initialize stub_creator [] md = start_board stub_creator md
initialize stub_creator (p ∷ ps) md = start_board p md

-- `format!("auth_{tx}")`.
abbrev pub challenge : (ℕ → List ℕ) → PayloadMetadata → List ℕ
challenge hex md = 97 ∷ 117 ∷ 116 ∷ 104 ∷ 95 ∷ hex md.tx_id

module _ (hex : ℕ → List ℕ) where
  abbrev pub execute_request_challenge : PayloadMetadata → ContractCommentBoard → Executed
  execute_request_challenge md s =
      (set_challenge (some (challenge hex md)) s, ok (plain_rollback op_request_challenge md))

  abbrev pub execute_as : ContractCommand → ℕ → PayloadMetadata → ContractCommentBoard → Executed
  execute_as (join_room bond) participant md s = execute_join_room participant bond md s
  execute_as request_challenge participant md s = execute_request_challenge md s
  execute_as (submit_response signature nonce) participant md s =
      execute_submit_response participant signature nonce md s
  execute_as (submit_comment text bond idx script) participant md s =
      execute_submit_comment participant text bond idx script md s

  unfoldable pub execute :
      ContractCommand → Option ℕ → PayloadMetadata → ContractCommentBoard → Executed
  unfolding bond_error is_blank lock
  execute c none md s = (s, err unauthorized)
  execute c (some participant) md s =
      if ltb s.contract_expires_at md.accepting_time
      then refuse (contract_expired 0) s
      else execute_as c participant md s

  abbrev pub episode :
      ℕ → Episode ContractCommentBoard ContractCommand ContractRollback ContractError
  episode stub_creator = record {
    initialize = initialize stub_creator;
    execute = execute;
    rollback = rollback;
  }
