-- ===== src/CommentBoard/Wallet/Ledger.antt =====
-- Every operation of the wallet on its books.
use kaspa_x.Base.{
  ℕ, ◌+◌, ◌^◌, ◌≡◌, ◌≢◌, ◌<◌, refl, sym, ap, ◌∙◌, Bool, true, false, not, Option, none, some, List,
  [], ◌∷◌, ltb, if◌then◌else◌, add64, arith, subst,
}
use kaspa_x.Base.Assoc.{lookup, erase-IsMap, lookup-insert_ne}
use kaspa_x.Kdapp.Episode.{Result, ok, err}
use kaspa_x.CommentBoard.Scripts.{ScriptUnlockCondition, ScriptError, validate_script_conditions}
use kaspa_x.CommentBoard.Wallet.{
  Utxo, BondEnforcementLevel, application_layer, script_based, LockedUtxo, UtxoLockManager,
  Transaction, can_afford_bond, fee, Refusal, WalletError, Client,
}
use kaspa_x.CommentBoard.Wallet.Bonds.{Done, remaining_lock_time}
use kaspa_x.CommentBoard.Wallet.Making.{
  lock_proven, lock_with, lock_utxo_for_comment, lock_scripted, submit_scripted, fund_scripted,
  create_validated, create_script_based_bond, drop_upgraded, upgrade_level, upgrade_found,
  proven_bond, scripted_bond, script_condition,
}
use kaspa_x.CommentBoard.Wallet.Selection.{best_utxo}
use kaspa_x.CommentBoard.Wallet.Accounts.{worth, bonds-erase, Books, Records, if_ok, Records-Books}

module _ (own : List ℕ) (user : ℕ) (serialize : ℕ → List ℕ) (tx_id : Transaction → ℕ) where
  if-Records :
      (comment_id bond : ℕ) (m : UtxoLockManager) (b : Bool) (x y : Done ℕ)
      → Records comment_id bond m x
      → Records comment_id bond m y
      → Records comment_id bond m (if b then x else y)
  if-Records comment_id bond m true x y h k = h
  if-Records comment_id bond m false x y h k = k

  proven-Records :
      (now comment_id bond duration : ℕ) (source : Utxo) (r : Result ℕ WalletError)
      (m : UtxoLockManager)
      → Records comment_id bond m
          (lock_proven own user serialize tx_id now comment_id bond duration source r m)
  proven-Records now comment_id bond duration source (err e) m = refl
  proven-Records now comment_id bond duration source (ok tx) m = (
    proven_bond own user serialize tx_id now comment_id bond duration source tx,
    refl,
    refl,
    refl,
  )

  lock_with-Records :
      (client : Client) (now comment_id bond duration : ℕ) (o : Option Utxo) (m : UtxoLockManager)
      → Records comment_id bond m
          (lock_with own user serialize tx_id client now comment_id bond duration o m)
  lock_with-Records client now comment_id bond duration none m = refl
  lock_with-Records client now comment_id bond duration (some source) m =
      if-Records comment_id bond m (ltb 100000 source.amount) _ _ refl
        (proven-Records now comment_id bond duration source _ m)

  pub lock-Records :
      (client : Client) (now comment_id bond duration : ℕ) (m : UtxoLockManager)
      → Records comment_id bond m
          (lock_utxo_for_comment own user serialize tx_id client now comment_id bond duration m)
  unfolding lock_utxo_for_comment
  lock-Records client now comment_id bond duration m =
      if-Records comment_id bond m (not (can_afford_bond bond m)) _ _ refl (
        lock_with-Records client now comment_id bond duration
          (best_utxo (fee + fee + 1000) none m.available_utxos) m)

  scripted-Records :
      (now comment_id bond duration : ℕ) (script : List ℕ) (condition : ScriptUnlockCondition)
      (tx : Transaction) (us : List Utxo) (answer : Option Refusal) (m : UtxoLockManager)
      → Records comment_id bond m (
          lock_scripted own user serialize tx_id now comment_id bond duration script condition tx us
            answer m)
  scripted-Records now comment_id bond duration script condition tx us (some e) m = refl
  scripted-Records now comment_id bond duration script condition tx [] none m = refl
  scripted-Records now comment_id bond duration script condition tx (source ∷ us) none m = (
    scripted_bond own user serialize tx_id now comment_id bond duration script condition source tx,
    refl,
    refl,
    refl,
  )

  submitted-Records :
      (client : Client) (now comment_id bond duration : ℕ) (script : List ℕ)
      (condition : ScriptUnlockCondition) (o : Option Transaction) (m : UtxoLockManager)
      → Records comment_id bond m (
          submit_scripted own user serialize tx_id client now comment_id bond duration script
            condition o m)
  submitted-Records client now comment_id bond duration script condition none m = refl
  submitted-Records client now comment_id bond duration script condition (some tx) m =
      scripted-Records now comment_id bond duration script condition tx tx.inputs _ m

  funded-Records :
      (client : Client) (now comment_id bond duration : ℕ) (condition : ScriptUnlockCondition)
      (r : Result (List ℕ) ScriptError) (m : UtxoLockManager)
      → Records comment_id bond m
          (fund_scripted own user serialize tx_id client now comment_id bond duration condition r m)
  funded-Records client now comment_id bond duration condition (err e) m = refl
  funded-Records client now comment_id bond duration condition (ok script) m =
      submitted-Records client now comment_id bond duration script condition _ m

  validated-Records :
      (client : Client) (now comment_id bond duration : ℕ) (condition : ScriptUnlockCondition)
      (r : Result (Unit {0}) ScriptError) (m : UtxoLockManager)
      → Records comment_id bond m (
          create_validated own user serialize tx_id client now comment_id bond duration condition r
            m)
  validated-Records client now comment_id bond duration condition (err e) m = refl
  validated-Records client now comment_id bond duration condition (ok _) m =
      funded-Records client now comment_id bond duration condition _ m

  pub script-Records :
      (client : Client) (now comment_id bond duration : ℕ) (mods : Option (List ℕ))
      (required : Option ℕ) (m : UtxoLockManager)
      → Records comment_id bond m (
          create_script_based_bond own user serialize tx_id client now comment_id bond duration mods
            required m)
  unfolding create_script_based_bond
  script-Records client now comment_id bond duration mods required m =
      if-Records comment_id bond m (not (can_afford_bond bond m)) _ _ refl (
        validated-Records client now comment_id bond duration condition
          (validate_script_conditions condition now) m)
    where
      condition : ScriptUnlockCondition
      condition = script_condition own user serialize tx_id (add64 now duration) mods required

  -- An upgrade records the bond again, under another id, and drops the old record, but keeps the old amount
  -- in the balance.
  dropped-Books :
      (comment_id new_id : ℕ) (b : LockedUtxo) (m : UtxoLockManager) (e : ℕ) (x : Done ℕ)
      → lookup comment_id m.locked_utxos ≡ some b
      → comment_id ≢ new_id
      → Records new_id b.bond_amount m x
      → Books m e
      → m.total_locked_balance + b.bond_amount < 2 ^ 64
      → Books
          (drop_upgraded own user serialize tx_id comment_id x).0
          (e + if_ok x.1 (worth (lookup new_id m.locked_utxos) + b.bond_amount))
  dropped-Books comment_id new_id b m e (m', err w) found other r h room = rw r (rw plain h)
    where
      plain : e + 0 ≡ e
      plain = omega arith
  dropped-Books comment_id new_id b m e (m', ok tx) found other (c, made, key, amount) h room =
      record {
        keyed = erase-IsMap comment_id m'.locked_utxos k.keyed;
        balanced =
            omega
              (arith, k.balanced, bonds-erase comment_id m'.locked_utxos k.keyed, ap worth still);
        small = k.small;
      }
    where
      k : Books m' (e + worth (lookup new_id m.locked_utxos))
      k = Records-Books new_id b.bond_amount m e (m', ok tx) (c, made, key, amount) h room

      apart : c.comment_id ≢ comment_id
      apart same = other (sym same ∙ key)

      still : lookup comment_id m'.locked_utxos ≡ some b
      still =
          ap (λ z. lookup comment_id z.locked_utxos) made
          ∙ lookup-insert_ne c.comment_id comment_id c m.locked_utxos apart
          ∙ found

  -- What the operation leaves in the locked balance without a bond for it.
  abbrev pub upgrade_excess : ℕ → Option LockedUtxo → UtxoLockManager → Done ℕ → ℕ
  upgrade_excess comment_id none m x = 0
  upgrade_excess comment_id (some b) m x =
      if_ok x.1 (worth (lookup (add64 comment_id 1000000) m.locked_utxos) + b.bond_amount)

  upgrade_level-Books :
      (client : Client) (now comment_id : ℕ) (b : LockedUtxo) (level : BondEnforcementLevel)
      (mods : Option (List ℕ)) (required : Option ℕ) (m : UtxoLockManager) (e : ℕ)
      → lookup comment_id m.locked_utxos ≡ some b
      → Books m e
      → m.total_locked_balance + b.bond_amount < 2 ^ 64
      → Books
          (upgrade_level own user serialize tx_id client now comment_id b level mods required m).0
          (e
            + upgrade_excess comment_id (some b) m (
                upgrade_level own user serialize tx_id client now comment_id b level mods required
                  m))
  upgrade_level-Books client now comment_id b (script_based script condition) mods required m e
        found h room =
      rw plain h
    where
      plain : e + 0 ≡ e
      plain = omega arith
  upgrade_level-Books client now comment_id b (application_layer proof) mods required m e found h
        room =
      subst (λ n. Books (drop_upgraded own user serialize tx_id comment_id made).0 (e + n))
        (same made)
        (dropped-Books comment_id (add64 comment_id 1000000) b m e made found (omega arith)
          (script-Records client now (add64 comment_id 1000000) b.bond_amount
            (remaining_lock_time now b.unlock_conditions) mods required m)
          h room)
    where
      made : Done ℕ
      made =
          create_script_based_bond own user serialize tx_id client now (add64 comment_id 1000000)
            b.bond_amount (remaining_lock_time now b.unlock_conditions) mods required m

      same :
          (x : Done ℕ)
          → if_ok x.1 (worth (lookup (add64 comment_id 1000000) m.locked_utxos) + b.bond_amount)
            ≡ if_ok
                (drop_upgraded own user serialize tx_id comment_id x).1
                (worth (lookup (add64 comment_id 1000000) m.locked_utxos) + b.bond_amount)
      same (m', err w) = refl
      same (m', ok tx) = refl

  pub upgrade_found-Books :
      (client : Client) (now comment_id : ℕ) (o : Option LockedUtxo) (mods : Option (List ℕ))
      (required : Option ℕ) (m : UtxoLockManager) (e : ℕ)
      → lookup comment_id m.locked_utxos ≡ o
      → Books m e
      → m.total_locked_balance + worth o < 2 ^ 64
      → Books (upgrade_found own user serialize tx_id client now comment_id o mods required m).0 (
          e
          + upgrade_excess comment_id o m
              (upgrade_found own user serialize tx_id client now comment_id o mods required m))
  upgrade_found-Books client now comment_id none mods required m e found h room = rw plain h
    where
      plain : e + 0 ≡ e
      plain = omega arith
  upgrade_found-Books client now comment_id (some b) mods required m e found h room =
      upgrade_level-Books client now comment_id b b.enforcement_level mods required m e found h room
