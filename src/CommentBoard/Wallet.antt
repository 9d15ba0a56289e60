-- ===== src/CommentBoard/Wallet.antt =====
-- comment-board/src/wallet/utxo_manager.rs: the wallet's state, its balance, and how a transaction is
-- submitted.
-- An outpoint is a transaction's id and an index. Of an entry only the amount matters. The wallet's
-- address, its script, the signing and a transaction's id are parameters; a bond's address is always the
-- wallet's. Messages and warnings are left out.
pub mod Selection
pub mod Bonds
pub mod Making
pub mod Splitting
pub mod Submitting
pub mod Accounts
pub mod Ledger
pub mod Coins
pub mod Operations
use kaspa_x.Base.{
  ℕ, zero, suc, ◌+◌, ◌-◌, ◌%◌, ◌^◌, Bool, true, false, Option, none, some, List, [], ◌∷◌, leb,
  length, if◌then◌else◌, sat_add64, add64,
}
use kaspa_x.Base.Assoc.{Map}
use kaspa_x.Kdapp.Episode.{Result, ok, err}
use kaspa_x.CommentBoard.Scripts.{ScriptUnlockCondition, ScriptError}

-- comment-board/src/utils/mod.rs.
abbrev pub fee : ℕ
fee = 5000

pub record Utxo : Type 0 where
  pub outpoint : ℕ × ℕ
  pub amount : ℕ

pub data UnlockCondition : Type 0 where
  time_based_release : ℕ → UnlockCondition
  community_vote : ℕ → ℕ → UnlockCondition
  moderator_decision : ℕ → ℕ → UnlockCondition
  forfeited : List ℕ → UnlockCondition

pub data BondEnforcementLevel : Type 0 where
  application_layer : ℕ → BondEnforcementLevel
  script_based : List ℕ → ScriptUnlockCondition → BondEnforcementLevel

pub record LockedUtxo : Type 0 where
  pub source : Utxo
  pub comment_id : ℕ
  pub bond_amount : ℕ
  pub lock_time : ℕ
  pub unlock_conditions : UnlockCondition
  pub bond_transaction_id : ℕ
  pub confirmation_height : Option ℕ
  pub enforcement_level : BondEnforcementLevel

pub record UtxoLockManager : Type 0 where
  pub available_utxos : List Utxo
  pub locked_utxos : Map LockedUtxo
  pub total_available_balance : ℕ
  pub total_locked_balance : ℕ
  pub pending_bonds : Map ℕ

pub record TransactionOutput : Type 0 where
  pub value : ℕ
  pub script : List ℕ

pub record Transaction : Type 0 where
  pub inputs : List Utxo
  pub outputs : List TransactionOutput
  pub payload : List ℕ

-- What the code looks for in the message of a refusal.
pub record Refusal : Type 0 where
  pub already_accepted : Bool
  pub orphan : Bool
  pub text : List ℕ

pub data WalletError : Type 0 where
  insufficient_balance no_utxo mass_limit too_small not_yet no_bond already_script_based
        not_enough_splits nonce_overflow index_panic unreachable no_answer :
      WalletError
  invalid_conditions script_failed : ScriptError → WalletError
  submission_failed : Refusal → WalletError

-- The node: its answers to the attempts of one submission, and the outputs of the wallet's address.
pub record Client : Type 0 where
  pub submit : Transaction → ℕ → Option Refusal
  pub utxos : Option (List Utxo)

-- u64 `-`, as a release build computes it.
abbrev pub sub64 : ℕ → ℕ → ℕ
sub64 a b = (a + 2 ^ 64 - b) % 2 ^ 64

-- `iter().map(|(_, entry)| entry.amount).sum()`, for amounts whose sum is a u64.
abbrev pub total : List Utxo → ℕ
total [] = 0
total (u ∷ us) = u.amount + total us

abbrev pub available_balance : UtxoLockManager → ℕ
available_balance m = sub64 m.total_available_balance m.total_locked_balance

abbrev pub can_afford_bond : ℕ → UtxoLockManager → Bool
can_afford_bond bond m = leb bond (available_balance m)

-- The attempts from the k-th on, with `left` more after it.
abbrev pub submit_from : (ℕ → Option Refusal) → ℕ → ℕ → Result (Unit {0}) Refusal
submit_from answers zero k = elim (answers k) [
  | none ↦ ok tt
  | some e ↦ if e.already_accepted then ok tt else err e
]
submit_from answers (suc left) k = elim (answers k) [
  | none ↦ ok tt
  | some e ↦ elim (e.already_accepted) [ true ↦ ok tt | false ↦ submit_from answers left (k + 1) ]
]

-- Three attempts.
unfoldable pub submit_with_retry : Client → Transaction → Result (Unit {0}) Refusal
submit_with_retry client tx = submit_from (client.submit tx) 2 0

unfoldable pub refresh_utxos :
    Client → UtxoLockManager → UtxoLockManager × Result (Unit {0}) WalletError
refresh_utxos client m = elim (client.utxos) [
  | none ↦ (m, err no_answer)
  | some us ↦ (record m { available_utxos = us; total_available_balance = total us }, ok tt)
]

abbrev pub opened : List Utxo → UtxoLockManager
opened us = record {
  available_utxos = us;
  locked_utxos = [];
  total_available_balance = total us;
  total_locked_balance = 0;
  pending_bonds = [];
}

unfoldable pub new : Client → Result UtxoLockManager WalletError
new client = elim (client.utxos) [ none ↦ err no_answer | some us ↦ ok (opened us) ]
