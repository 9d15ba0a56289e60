-- ===== src/CommentBoard/Board.antt =====
-- comment-board/src/episode/board_with_contract.rs: the board and what a command does to it.
-- A participant's string is its key; the id of a locked output is the data that its string is made of.
-- The caches, the ids of disputes and votes and the highlights, which no operation changes, are left
-- out.
use kaspa_x.Base.{
  ℕ, Bool, true, false, not, ◌&&◌, Option, none, some, List, [], ◌∷◌, ◌++◌, ltb, leb, ◌==◌,
  if◌then◌else◌, length, get_elem?, any, add64,
}
use kaspa_x.Base.Slices.{bytes_eq}
use kaspa_x.Kdapp.Episode.{
  TxOutputInfo, PayloadMetadata, EpisodeError, invalid_command, Result, ok, err,
}
use kaspa_x.CommentIt.Episode.{is_blank}
use kaspa_x.CommentBoard.Commands.{
  BondScriptKind, p2pk, time_lock, moderator_multisig, time_or_moderator, empty_comment,
  bonds_disabled, ContractError, insufficient_bond, user_not_authenticated, descriptor_mismatch,
  room_rules_violation,
}
use kaspa_x.CommentBoard.Scripts.{decode_bond_descriptor}
use kaspa_x.CommentBoard.Contract.{
  RoomRules, EconomicComment, active, CommentRoomContract, default_rules, new,
}

-- `join_bond_{participant}` and `comment_bond_{comment_id}_{txid}`.
pub data UtxoId : Type 0 where
  join_bond : ℕ → UtxoId
  comment_bond : ℕ → ℕ → UtxoId

abbrev pub utxo_eq : UtxoId → UtxoId → Bool
utxo_eq (join_bond p) (join_bond q) = p == q
utxo_eq (join_bond p) (comment_bond j u) = false
utxo_eq (comment_bond i t) (join_bond q) = false
utxo_eq (comment_bond i t) (comment_bond j u) = i == j && t == u

-- `locked_utxos`.
abbrev pub Locks : Type 0
Locks = List (UtxoId × ℕ)

unfoldable pub lock : UtxoId → ℕ → Locks → Locks
lock u n [] = (u, n) ∷ []
lock u n ((v, k) ∷ m) = if utxo_eq v u then (v, n) ∷ m else (v, k) ∷ lock u n m

unfoldable pub unlock : UtxoId → Locks → Locks
unlock u [] = []
unlock u ((v, k) ∷ m) = if utxo_eq v u then unlock u m else (v, k) ∷ unlock u m

abbrev pub locked : UtxoId → Locks → Option ℕ
locked u [] = none
locked u ((v, k) ∷ m) = if utxo_eq v u then some k else locked u m

pub record ContractCommentBoard : Type 0 where
  pub contract : CommentRoomContract
  pub locked_utxos : Locks
  pub next_comment_id : ℕ
  pub contract_created_at : ℕ
  pub contract_expires_at : ℕ

pub data Operation : Type 0 where
  op_join_room op_request_challenge op_authenticate op_submit_comment : Operation

-- The changes of reputation and of the penalty pool are always none.
pub record ContractRollback : Type 0 where
  pub operation_type : Operation
  pub comment_id : Option ℕ
  pub bond_amount : Option ℕ
  pub prev_timestamp : ℕ
  pub utxo_changes : List (UtxoId × ℕ)

abbrev pub Executed : Type 0
Executed = ContractCommentBoard × Result ContractRollback (EpisodeError ContractError)

abbrev pub refuse : ContractError → ContractCommentBoard → Executed
refuse e s = (s, err (invalid_command e))

abbrev pub max : ℕ → ℕ → ℕ
max a b = if ltb a b then b else a

abbrev pub start_board : ℕ → PayloadMetadata → ContractCommentBoard
start_board creator md = record {
  contract = new creator default_rules [] 0 (some 7776000);
  locked_utxos = [];
  next_comment_id = 1;
  contract_created_at = md.accepting_time;
  contract_expires_at = max (add64 md.accepting_time 7776000) 2000000000;
}

abbrev pub add_member : ℕ → ℕ → ContractCommentBoard → ContractCommentBoard
add_member participant bond s = record s {
  contract = record (s.contract) {
    room_members = s.contract.room_members ++ participant ∷ [];
    total_locked_value = add64 s.contract.total_locked_value bond;
  };
}

abbrev pub join_rollback : ℕ → ℕ → PayloadMetadata → ContractRollback
join_rollback participant bond md = record {
  operation_type = op_join_room;
  comment_id = none;
  bond_amount = some bond;
  prev_timestamp = md.accepting_time;
  utxo_changes = (join_bond participant, bond) ∷ [];
}

abbrev pub execute_join_room : ℕ → ℕ → PayloadMetadata → ContractCommentBoard → Executed
execute_join_room participant bond md s =
    (add_member participant bond s, ok (join_rollback participant bond md))

abbrev pub plain_rollback : Operation → PayloadMetadata → ContractRollback
plain_rollback op md = record {
  operation_type = op;
  comment_id = none;
  bond_amount = none;
  prev_timestamp = md.accepting_time;
  utxo_changes = [];
}

abbrev pub set_challenge : Option (List ℕ) → ContractCommentBoard → ContractCommentBoard
set_challenge c s = record s { contract = record (s.contract) { current_challenge = c } }

abbrev pub authenticate : ℕ → ContractCommentBoard → ContractCommentBoard
authenticate participant s = record s {
  contract = record (s.contract) {
    authenticated_users = s.contract.authenticated_users ++ participant ∷ [];
    current_challenge = none;
  };
}

abbrev pub respond :
    ℕ → List ℕ → List ℕ → Option (List ℕ) → PayloadMetadata → ContractCommentBoard → Executed
respond participant signature nonce none md s = refuse user_not_authenticated s
respond participant signature nonce (some challenge) md s =
    if bytes_eq nonce challenge && not (length signature == 0)
    then (authenticate participant s, ok (plain_rollback op_authenticate md))
    else refuse user_not_authenticated s

abbrev pub execute_submit_response :
    ℕ → List ℕ → List ℕ → PayloadMetadata → ContractCommentBoard → Executed
execute_submit_response participant signature nonce md s =
    respond participant signature nonce s.contract.current_challenge md s

abbrev pub kind_eq : BondScriptKind → BondScriptKind → Bool
kind_eq p2pk p2pk = true
kind_eq (time_lock t) (time_lock u) = t == u
kind_eq (moderator_multisig r m) (moderator_multisig q n) = r == q && m == n
kind_eq (time_or_moderator t r m) (time_or_moderator u q n) = t == u && (r == q && m == n)
kind_eq _ _ = false

-- The comparison with the descriptor that the script bytes decode to, where there is one.
abbrev pub descriptor_error : BondScriptKind → Option BondScriptKind → Option ContractError
descriptor_error d none = none
descriptor_error d (some onchain) = if kind_eq onchain d then none else some descriptor_mismatch

abbrev pub decoded_error : BondScriptKind → Option (List ℕ) → Option ContractError
decoded_error d none = none
decoded_error d (some bytes) = descriptor_error d (decode_bond_descriptor bytes)

abbrev pub script_error : Option BondScriptKind → TxOutputInfo → Option ContractError
script_error none o = none
script_error (some d) o = decoded_error d o.script_bytes

-- The output at the declared index.
abbrev pub output_error : ℕ → Option BondScriptKind → Option TxOutputInfo → Option ContractError
output_error bond script none = some (insufficient_bond bond 0)
output_error bond script (some o) =
    if o.value == bond then script_error script o else some (insufficient_bond bond 0)

abbrev pub carrier_error :
    ℕ → Option BondScriptKind → Option ℕ → Option (List TxOutputInfo) → Option ContractError
carrier_error bond script idx none = none
carrier_error bond script (some i) (some outs) = output_error bond script (get_elem? outs i)
carrier_error bond script none (some outs) =
    if any (λ o. leb bond o.value) outs then none else some (insufficient_bond bond 0)

-- Why a comment's bond is refused, if it is.
unfoldable pub bond_error :
    RoomRules
    → ℕ
    → Option ℕ
    → Option BondScriptKind
    → Option (List TxOutputInfo)
    → Option ContractError
bond_error rules bond idx script outs =
    if bond == 0
    then none
    else if not rules.bonds_enabled
    then some (room_rules_violation bonds_disabled)
    else if ltb bond rules.min_bond
    then some (insufficient_bond rules.min_bond bond)
    else carrier_error bond script idx outs

abbrev pub economic_comment : ℕ → List ℕ → ℕ → PayloadMetadata → ℕ → EconomicComment
economic_comment participant text bond md id = record {
  id = id;
  text = text;
  author = participant;
  timestamp = md.accepting_time;
  bond_amount = bond;
  upvotes = 0;
  downvotes = 0;
  quality_score = 0;
  earned_rewards = 0;
  moderation_status = active;
  dispute_id = none;
}

abbrev pub post : ℕ → List ℕ → ℕ → PayloadMetadata → ContractCommentBoard → ContractCommentBoard
post participant text bond md s = record s {
  locked_utxos = lock (comment_bond s.next_comment_id md.tx_id) bond s.locked_utxos;
  contract = record (s.contract) {
    comments =
        s.contract.comments ++ economic_comment participant text bond md s.next_comment_id ∷ [];
    total_comments = add64 s.contract.total_comments 1;
    total_locked_value = add64 s.contract.total_locked_value bond;
  };
  next_comment_id = add64 s.next_comment_id 1;
}

abbrev pub post_rollback : ℕ → PayloadMetadata → ContractCommentBoard → ContractRollback
post_rollback bond md s = record {
  operation_type = op_submit_comment;
  comment_id = some s.next_comment_id;
  bond_amount = some bond;
  prev_timestamp = md.accepting_time;
  utxo_changes = (comment_bond s.next_comment_id md.tx_id, bond) ∷ [];
}

abbrev pub post_checked :
    ℕ → List ℕ → ℕ → Option ContractError → PayloadMetadata → ContractCommentBoard → Executed
post_checked participant text bond (some e) md s = refuse e s
post_checked participant text bond none md s =
    (post participant text bond md s, ok (post_rollback bond md s))

abbrev pub execute_submit_comment :
    ℕ
    → List ℕ
    → ℕ
    → Option ℕ
    → Option BondScriptKind
    → PayloadMetadata
    → ContractCommentBoard
    → Executed
execute_submit_comment participant text bond idx script md s =
    if is_blank text
    then refuse (room_rules_violation empty_comment) s
    else post_checked participant text bond
        (bond_error s.contract.room_rules bond idx script md.tx_outputs) md s
