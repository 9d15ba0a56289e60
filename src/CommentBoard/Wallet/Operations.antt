-- ===== src/CommentBoard/Wallet/Operations.antt =====
-- Every operation of the wallet on its books.
use kaspa_x.Base.{
  ℕ, ◌+◌, ◌^◌, ◌≡◌, ◌<◌, refl, Bool, Option, List, arith, not, true, false, if◌then◌else◌,
}
use kaspa_x.Base.Assoc.{lookup}
use kaspa_x.Kdapp.Episode.{err}
use kaspa_x.Kdapp.Generator.{PatternType}
use kaspa_x.CommentBoard.Wallet.{UtxoLockManager, Transaction, not_yet, Client, refresh_utxos}
use kaspa_x.CommentBoard.Wallet.Bonds.{
  can_unlock_bond, unlock_bond, forfeit_bond, scan_pending_bonds, remove_bond,
}
use kaspa_x.CommentBoard.Wallet.Splitting.{split_large_utxo, ensure_micro_utxos}
use kaspa_x.CommentBoard.Wallet.Making.{
  lock_utxo_for_comment, create_script_based_bond, upgrade_bond_to_script_based,
}
use kaspa_x.CommentBoard.Wallet.Submitting.{submit_comment_with_bond_payload}
use kaspa_x.CommentBoard.Wallet.Accounts.{
  worth, Books, if_ok, Records-Books, remove_bond-Books, scan-Books,
}
use kaspa_x.CommentBoard.Wallet.Ledger.{
  lock-Records, script-Records, upgrade_excess, upgrade_found-Books,
}
use kaspa_x.CommentBoard.Wallet.Coins.{
  SameBonds, SameBonds-Books, refresh-SameBonds, split-SameBonds, ensure-SameBonds,
  comment-SameBonds,
}

released-Books :
    (id : ℕ) (m : UtxoLockManager) (e : ℕ) (b : Bool)
    → Books m e
    → Books (if b then (m, err not_yet) else remove_bond id (lookup id m.locked_utxos) m).0 e
released-Books id m e true h = h
released-Books id m e false h = remove_bond-Books id m e (lookup id m.locked_utxos) refl h

unlock-Books :
    (now id : ℕ) (m : UtxoLockManager) (e : ℕ) → Books m e → Books (unlock_bond now id m).0 e
unfolding unlock_bond
unlock-Books now id m e h = released-Books id m e (not (can_unlock_bond now id m)) h

-- An operation with its arguments, the time and the node's answers.
pub data Operation : Type 0 where
  lock_utxo : Client → ℕ → ℕ → ℕ → ℕ → Operation
  script_bond : Client → ℕ → ℕ → ℕ → ℕ → Option (List ℕ) → Option ℕ → Operation
  upgrade : Client → ℕ → ℕ → Option (List ℕ) → Option ℕ → Operation
  unlock : ℕ → ℕ → Operation
  forfeit : ℕ → List ℕ → Operation
  scan : (ℕ → Client) → Operation
  refresh : Client → Operation
  split : Client → ℕ → ℕ → Operation
  ensure : (ℕ → Client) → ℕ → ℕ → ℕ → Operation
  comment : Client → Client → ℕ → ℕ → ℕ → ℕ → PatternType → ℕ → Bool → List ℕ → Operation

module _ (own : List ℕ) (user : ℕ) (serialize : ℕ → List ℕ) (tx_id : Transaction → ℕ) where
  abbrev pub apply : Operation → UtxoLockManager → UtxoLockManager
  apply (lock_utxo client now id bond duration) m =
      (lock_utxo_for_comment own user serialize tx_id client now id bond duration m).0
  apply (script_bond client now id bond duration mods required) m =
      (create_script_based_bond own user serialize tx_id client now id bond duration mods required
        m).0
  apply (upgrade client now id mods required) m =
      (upgrade_bond_to_script_based own user serialize tx_id client now id mods required m).0
  apply (unlock now id) m = (unlock_bond now id m).0
  apply (forfeit id violation) m = (forfeit_bond id violation m).0
  apply (scan clients) m = scan_pending_bonds clients m
  apply (refresh client) m = (refresh_utxos client m).0
  apply (split client max_size chunk) m =
      (split_large_utxo own user serialize tx_id client max_size chunk m).0
  apply (ensure clients min_count max_size chunk) m =
      (ensure_micro_utxos own user serialize tx_id clients min_count max_size chunk m).0
  apply (comment first second now later bond duration pattern prefix use_script inner) m =
      (submit_comment_with_bond_payload own user serialize tx_id first second now later bond
        duration pattern prefix use_script inner m).0

  -- What an operation leaves in the locked balance with no bond for it: where a bond is made, what the
  -- one that it replaces was worth; where a bond is upgraded, its own amount besides.
  abbrev pub excess : Operation → UtxoLockManager → ℕ
  excess (lock_utxo client now id bond duration) m =
      if_ok (lock_utxo_for_comment own user serialize tx_id client now id bond duration m).1
        (worth (lookup id m.locked_utxos))
  excess (script_bond client now id bond duration mods required) m =
      if_ok
        (create_script_based_bond own user serialize tx_id client now id bond duration mods required
          m).1
        (worth (lookup id m.locked_utxos))
  excess (upgrade client now id mods required) m =
      upgrade_excess own user serialize tx_id id (lookup id m.locked_utxos) m
        (upgrade_bond_to_script_based own user serialize tx_id client now id mods required m)
  excess (unlock now id) m = 0
  excess (forfeit id violation) m = 0
  excess (scan clients) m = 0
  excess (refresh client) m = 0
  excess (split client max_size chunk) m = 0
  excess (ensure clients min_count max_size chunk) m = 0
  excess (comment first second now later bond duration pattern prefix use_script inner) m = 0

  -- The bond that is made fits the locked balance.
  abbrev pub Fits : Operation → UtxoLockManager → Type 0
  Fits (lock_utxo client now id bond duration) m = m.total_locked_balance + bond < 2 ^ 64
  Fits (script_bond client now id bond duration mods required) m =
      m.total_locked_balance + bond < 2 ^ 64
  Fits (upgrade client now id mods required) m =
      m.total_locked_balance + worth (lookup id m.locked_utxos) < 2 ^ 64
  Fits (unlock now id) m = Unit {0}
  Fits (forfeit id violation) m = Unit {0}
  Fits (scan clients) m = Unit {0}
  Fits (refresh client) m = Unit {0}
  Fits (split client max_size chunk) m = Unit {0}
  Fits (ensure clients min_count max_size chunk) m = Unit {0}
  Fits (comment first second now later bond duration pattern prefix use_script inner) m = Unit {0}

  same-Books : (m m' : UtxoLockManager) (e : ℕ) → SameBonds m m' → Books m e → Books m' (e + 0)
  same-Books m m' e h b = rw plain (SameBonds-Books m m' e h b)
    where
      plain : e + 0 ≡ e
      plain = omega arith

  -- With a locked balance that is what the bonds on record are worth and e more, and a new bond that fits:
  -- after any operation it is what they are worth then and e more, and besides what `excess` says: nothing,
  -- but where a bond is made under an id that has one, the replaced bond's worth, and where a bond is upgraded
  -- to a script, its own amount.
  pub apply-Books :
      (op : Operation) (m : UtxoLockManager) (e : ℕ)
      → Books m e
      → Fits op m
      → Books (apply op m) (e + excess op m)
  unfolding forfeit_bond upgrade_bond_to_script_based
  apply-Books (lock_utxo client now id bond duration) m e h room =
      Records-Books id bond m e
        (lock_utxo_for_comment own user serialize tx_id client now id bond duration m)
        (lock-Records own user serialize tx_id client now id bond duration m) h room
  apply-Books (script_bond client now id bond duration mods required) m e h room =
      Records-Books id bond m e
        (create_script_based_bond own user serialize tx_id client now id bond duration mods required
          m)
        (script-Records own user serialize tx_id client now id bond duration mods required m) h room
  apply-Books (upgrade client now id mods required) m e h room =
      upgrade_found-Books own user serialize tx_id client now id (lookup id m.locked_utxos) mods
        required m e refl h room
  apply-Books (unlock now id) m e h room = rw plain (unlock-Books now id m e h)
    where
      plain : e + 0 ≡ e
      plain = omega arith
  apply-Books (forfeit id violation) m e h room =
      rw plain (remove_bond-Books id m e (lookup id m.locked_utxos) refl h)
    where
      plain : e + 0 ≡ e
      plain = omega arith
  apply-Books (scan clients) m e h room = rw plain (scan-Books clients m e h)
    where
      plain : e + 0 ≡ e
      plain = omega arith
  apply-Books (refresh client) m e h room = same-Books m _ e (refresh-SameBonds client m) h
  apply-Books (split client max_size chunk) m e h room =
      same-Books m _ e (split-SameBonds own user serialize tx_id client max_size chunk m) h
  apply-Books (ensure clients min_count max_size chunk) m e h room =
      same-Books m _ e
        (ensure-SameBonds own user serialize tx_id clients min_count max_size chunk m) h
  apply-Books (comment first second now later bond duration pattern prefix use_script inner) m e h
        room =
      same-Books m _ e
        (comment-SameBonds own user serialize tx_id first second now later bond duration pattern
          prefix use_script inner m)
        h
