-- ===== src/CommentBoard/Wallet/Bonds.antt =====
-- comment-board/src/wallet/utxo_manager.rs: the books of the bonds, and how bonds are released, forfeited
-- and confirmed. Each operation is given the time, in seconds, and the node's answers while it runs.
use kaspa_x.Base.{
  ℕ, ◌-◌, Bool, false, not, Option, none, some, List, [], ◌∷◌, ◌++◌, ltb, leb, if◌then◌else◌, add64,
}
use kaspa_x.Base.Assoc.{Map, lookup, insert, erase}
use kaspa_x.Kdapp.Engine.{erase_all}
use kaspa_x.Kdapp.Episode.{Result, ok, err}
use kaspa_x.CommentBoard.Wallet.{
  Utxo, UnlockCondition, time_based_release, community_vote, moderator_decision, forfeited,
  LockedUtxo, UtxoLockManager, WalletError, not_yet, no_bond, Client, sub64,
}

abbrev pub Done : Type 0 → Type 0
Done A = UtxoLockManager × Result A WalletError

-- The three writes that record a bond.
abbrev pub record_bond : LockedUtxo → UtxoLockManager → UtxoLockManager
record_bond b m = record m {
  pending_bonds = insert b.comment_id b.bond_transaction_id m.pending_bonds;
  locked_utxos = insert b.comment_id b m.locked_utxos;
  total_locked_balance = add64 m.total_locked_balance b.bond_amount;
}

abbrev pub recorded : LockedUtxo → UtxoLockManager → Done ℕ
recorded b m = (record_bond b m, ok b.bond_transaction_id)

abbrev pub unlockable : ℕ → UnlockCondition → Bool
unlockable now (time_based_release unlock_time) = leb unlock_time now
unlockable now (community_vote _ _) = false
unlockable now (moderator_decision _ _) = false
unlockable now (forfeited _) = false

unfoldable pub can_unlock_bond : ℕ → ℕ → UtxoLockManager → Bool
can_unlock_bond now comment_id m = elim (lookup comment_id m.locked_utxos) [
  | none ↦ false
  | some b ↦ unlockable now b.unlock_conditions
]

-- The bond leaves the map, and its amount the locked balance.
abbrev pub remove_bond : ℕ → Option LockedUtxo → UtxoLockManager → Done ℕ
remove_bond comment_id none m = (m, err no_bond)
remove_bond comment_id (some b) m = (
  record m {
    locked_utxos = erase comment_id m.locked_utxos;
    total_locked_balance = sub64 m.total_locked_balance b.bond_amount;
  },
  ok b.bond_amount,
)

unfoldable pub unlock_bond : ℕ → ℕ → UtxoLockManager → Done ℕ
unfolding can_unlock_bond
unlock_bond now comment_id m =
    if not (can_unlock_bond now comment_id m)
    then (m, err not_yet)
    else remove_bond comment_id (lookup comment_id m.locked_utxos) m

-- The violation's type is set on a bond that is dropped.
unfoldable pub forfeit_bond : ℕ → List ℕ → UtxoLockManager → Done ℕ
forfeit_bond comment_id violation_type m =
    remove_bond comment_id (lookup comment_id m.locked_utxos) m

-- One pending bond, by the node's answer about it: the bond that is marked, and its id if it is confirmed.
abbrev pub check_bond :
    Option (List Utxo) → ℕ → Option LockedUtxo → UtxoLockManager → UtxoLockManager × List ℕ
check_bond none comment_id locked m = (m, [])
check_bond (some []) comment_id locked m = (m, [])
check_bond (some (u ∷ us)) comment_id none m = (m, [])
check_bond (some (u ∷ us)) comment_id (some b) m = (
  record m {
    locked_utxos = insert comment_id (record b { confirmation_height = some 1 }) m.locked_utxos;
  },
  comment_id ∷ [],
)

-- The loop over the pending bonds, and the ids that it confirms. The node is asked once for each bond;
-- the answers are given by the bond's id, whatever the order in which the map yields them.
unfoldable pub check_bonds : (ℕ → Client) → Map ℕ → UtxoLockManager → UtxoLockManager × List ℕ
check_bonds clients [] m = (m, [])
check_bonds clients ((comment_id, tx_id) ∷ pending) m =
    let (m', confirmed) =
      check_bond (clients comment_id).utxos comment_id (lookup comment_id m.locked_utxos) m in
    let (m'', later) = check_bonds clients pending m' in (m'', confirmed ++ later)

-- What is confirmed is no longer pending.
abbrev pub drop_confirmed : UtxoLockManager × List ℕ → UtxoLockManager
drop_confirmed (m, confirmed_bonds) = record m {
  pending_bonds = erase_all confirmed_bonds m.pending_bonds;
}

unfoldable pub scan_pending_bonds : (ℕ → Client) → UtxoLockManager → UtxoLockManager
unfolding check_bonds erase_all
scan_pending_bonds clients m = drop_confirmed (check_bonds clients m.pending_bonds m)

-- The remaining lock time of a bond, or ten minutes.
abbrev pub remaining_lock_time : ℕ → UnlockCondition → ℕ
remaining_lock_time now (time_based_release unlock_time) =
    if ltb now unlock_time then unlock_time - now else 600
remaining_lock_time now (community_vote _ _) = 600
remaining_lock_time now (moderator_decision _ _) = 600
remaining_lock_time now (forfeited _) = 600
