-- ===== src/CommentBoard/Wallet/Making.antt =====
-- comment-board/src/wallet/utxo_manager.rs: how bonds are made and upgraded.
use kaspa_x.Base.{ℕ, ◌+◌, not, Option, none, some, List, [], ◌∷◌, ltb, if◌then◌else◌, add64}
use kaspa_x.Base.Assoc.{lookup, erase}
use kaspa_x.Kdapp.Episode.{Result, ok, err}
use kaspa_x.CommentBoard.Scripts.{
  ScriptUnlockCondition, until, until_or_moderator, ScriptError, validate_script_conditions,
  create_bond_script_pubkey,
}
use kaspa_x.CommentBoard.Wallet.{
  fee, Utxo, time_based_release, BondEnforcementLevel, application_layer, script_based, LockedUtxo,
  UtxoLockManager, Transaction, Refusal, WalletError, insufficient_balance, no_utxo, mass_limit,
  too_small, no_bond, already_script_based, index_panic, invalid_conditions, script_failed,
  submission_failed, Client, can_afford_bond, submit_with_retry,
}
use kaspa_x.CommentBoard.Wallet.Selection.{
  bond_transaction, best_utxo, script_bond_payload, proof_transaction,
}
use kaspa_x.CommentBoard.Wallet.Bonds.{Done, recorded, remaining_lock_time}

-- The wallet's script and key, the bytes of a key, the signed transaction's id.
module _ (own : List ℕ) (user : ℕ) (serialize : ℕ → List ℕ) (tx_id : Transaction → ℕ) where
  abbrev pub proof_submitted : Client → Option Transaction → Result ℕ WalletError
  proof_submitted client none = err too_small
  proof_submitted client (some tx) = elim (submit_with_retry client tx) [
    | ok _ ↦ ok (tx_id tx)
    | err e ↦ err (submission_failed e)
  ]

  unfoldable pub create_bond_transaction : Client → ℕ → ℕ → Utxo → Result ℕ WalletError
  unfolding proof_transaction submit_with_retry
  create_bond_transaction client comment_id bond source =
      proof_submitted client (proof_transaction comment_id bond source own)

  abbrev pub proven_bond : ℕ → ℕ → ℕ → ℕ → Utxo → ℕ → LockedUtxo
  proven_bond now comment_id bond duration source tx = record {
    source = source;
    comment_id = comment_id;
    bond_amount = bond;
    lock_time = now;
    unlock_conditions = time_based_release (add64 now duration);
    bond_transaction_id = tx;
    confirmation_height = none;
    enforcement_level = application_layer tx;
  }

  abbrev pub lock_proven : ℕ → ℕ → ℕ → ℕ → Utxo → Result ℕ WalletError → UtxoLockManager → Done ℕ
  lock_proven now comment_id bond duration source (err e) m = (m, err e)
  lock_proven now comment_id bond duration source (ok tx) m =
      recorded (proven_bond now comment_id bond duration source tx) m

  abbrev pub lock_with : Client → ℕ → ℕ → ℕ → ℕ → Option Utxo → UtxoLockManager → Done ℕ
  lock_with client now comment_id bond duration none m = (m, err no_utxo)
  lock_with client now comment_id bond duration (some source) m =
      if ltb 100000 source.amount
      then (m, err mass_limit)
      else lock_proven now comment_id bond duration source
          (create_bond_transaction client comment_id bond source) m

  unfoldable pub lock_utxo_for_comment : Client → ℕ → ℕ → ℕ → ℕ → UtxoLockManager → Done ℕ
  unfolding best_utxo create_bond_transaction
  lock_utxo_for_comment client now comment_id bond duration m =
      if not (can_afford_bond bond m)
      then (m, err insufficient_balance)
      else lock_with client now comment_id bond duration
          (best_utxo (fee + fee + 1000) none m.available_utxos) m

  abbrev pub script_condition : ℕ → Option (List ℕ) → Option ℕ → ScriptUnlockCondition
  script_condition unlock_time (some mods) (some required) =
      until_or_moderator unlock_time user mods required
  script_condition unlock_time none required = until unlock_time user
  script_condition unlock_time (some mods) none = until unlock_time user

  abbrev pub scripted_bond :
      ℕ → ℕ → ℕ → ℕ → List ℕ → ScriptUnlockCondition → Utxo → Transaction → LockedUtxo
  scripted_bond now comment_id bond duration script condition source tx = record {
    source = source;
    comment_id = comment_id;
    bond_amount = bond;
    lock_time = now;
    unlock_conditions = time_based_release (add64 now duration);
    bond_transaction_id = tx_id tx;
    confirmation_height = none;
    enforcement_level = script_based script condition;
  }

  -- The record names the first input, `selected_inputs[0]`.
  abbrev pub lock_scripted :
      ℕ
      → ℕ
      → ℕ
      → ℕ
      → List ℕ
      → ScriptUnlockCondition
      → Transaction
      → List Utxo
      → Option Refusal
      → UtxoLockManager
      → Done ℕ
  lock_scripted now comment_id bond duration script condition tx inputs (some e) m =
      (m, err (submission_failed e))
  lock_scripted now comment_id bond duration script condition tx [] none m = (m, err index_panic)
  lock_scripted now comment_id bond duration script condition tx (source ∷ us) none m =
      recorded (scripted_bond now comment_id bond duration script condition source tx) m

  abbrev pub submit_scripted :
      Client
      → ℕ
      → ℕ
      → ℕ
      → ℕ
      → List ℕ
      → ScriptUnlockCondition
      → Option Transaction
      → UtxoLockManager
      → Done ℕ
  submit_scripted client now comment_id bond duration script condition none m = (m, err no_utxo)
  submit_scripted client now comment_id bond duration script condition (some tx) m =
      lock_scripted now comment_id bond duration script condition tx tx.inputs (client.submit tx 0)
        m

  abbrev pub fund_scripted :
      Client
      → ℕ
      → ℕ
      → ℕ
      → ℕ
      → ScriptUnlockCondition
      → Result (List ℕ) ScriptError
      → UtxoLockManager
      → Done ℕ
  fund_scripted client now comment_id bond duration condition (err e) m = (m, err (script_failed e))
  fund_scripted client now comment_id bond duration condition (ok script) m =
      submit_scripted client now comment_id bond duration script condition
        (bond_transaction bond script own (script_bond_payload comment_id bond script)
          m.available_utxos)
        m

  abbrev pub create_validated :
      Client
      → ℕ
      → ℕ
      → ℕ
      → ℕ
      → ScriptUnlockCondition
      → Result (Unit {0}) ScriptError
      → UtxoLockManager
      → Done ℕ
  create_validated client now comment_id bond duration condition (err e) m =
      (m, err (invalid_conditions e))
  create_validated client now comment_id bond duration condition (ok _) m =
      fund_scripted client now comment_id bond duration condition
        (create_bond_script_pubkey serialize condition) m

  unfoldable pub create_script_based_bond :
      Client → ℕ → ℕ → ℕ → ℕ → Option (List ℕ) → Option ℕ → UtxoLockManager → Done ℕ
  unfolding validate_script_conditions create_bond_script_pubkey bond_transaction
      script_bond_payload
  create_script_based_bond client now comment_id bond duration mods required m =
      let condition = script_condition (add64 now duration) mods required in
      if not (can_afford_bond bond m)
      then (m, err insufficient_balance)
      else create_validated client now comment_id bond duration condition
          (validate_script_conditions condition now) m

  -- The old bond leaves both maps, but not the locked balance.
  abbrev pub drop_upgraded : ℕ → Done ℕ → Done ℕ
  drop_upgraded comment_id (m, err e) = (m, err e)
  drop_upgraded comment_id (m, ok tx) = (
    record m {
      locked_utxos = erase comment_id m.locked_utxos;
      pending_bonds = erase comment_id m.pending_bonds;
    },
    ok tx,
  )

  abbrev pub upgrade_level :
      Client
      → ℕ
      → ℕ
      → LockedUtxo
      → BondEnforcementLevel
      → Option (List ℕ)
      → Option ℕ
      → UtxoLockManager
      → Done ℕ
  upgrade_level client now comment_id b (script_based _ _) mods required m =
      (m, err already_script_based)
  upgrade_level client now comment_id b (application_layer _) mods required m =
      drop_upgraded comment_id (
        create_script_based_bond client now (add64 comment_id 1000000) b.bond_amount
          (remaining_lock_time now b.unlock_conditions) mods required m)

  abbrev pub upgrade_found :
      Client → ℕ → ℕ → Option LockedUtxo → Option (List ℕ) → Option ℕ → UtxoLockManager → Done ℕ
  upgrade_found client now comment_id none mods required m = (m, err no_bond)
  upgrade_found client now comment_id (some b) mods required m =
      upgrade_level client now comment_id b b.enforcement_level mods required m

  unfoldable pub upgrade_bond_to_script_based :
      Client → ℕ → ℕ → Option (List ℕ) → Option ℕ → UtxoLockManager → Done ℕ
  unfolding create_script_based_bond
  upgrade_bond_to_script_based client now comment_id mods required m =
      upgrade_found client now comment_id (lookup comment_id m.locked_utxos) mods required m
