-- ===== src/CommentBoard/Commands.antt =====
-- comment-board/src/episode/commands.rs: the commands of the default build, and the errors.
-- Strings are lists of code points; a key is a number.
use kaspa_x.Base.{ℕ, Option, List}

pub data BondScriptKind : Type 0 where
  p2pk : BondScriptKind
  time_lock : ℕ → BondScriptKind
  moderator_multisig : ℕ → ℕ → BondScriptKind
  time_or_moderator : ℕ → ℕ → ℕ → BondScriptKind

-- A comment: its text, its bond, the output that carries the bond, the policy of that output's script.
pub data ContractCommand : Type 0 where
  join_room : ℕ → ContractCommand
  request_challenge : ContractCommand
  submit_response : List ℕ → List ℕ → ContractCommand
  submit_comment : List ℕ → ℕ → Option ℕ → Option BondScriptKind → ContractCommand

-- The rules that a comment can violate, and the reason of an invalid command, are their texts in the
-- code.
pub data Rule : Type 0 where
  empty_comment bonds_disabled : Rule

-- The errors that the episode returns.
pub data ContractError : Type 0 where
  insufficient_bond : ℕ → ℕ → ContractError
  user_not_authenticated descriptor_mismatch : ContractError
  room_rules_violation : Rule → ContractError
  contract_expired : ℕ → ContractError
