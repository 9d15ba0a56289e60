-- ===== src/CommentBoard/Wallet/Coins.antt =====
-- The operations of the wallet that are about its coins, and its bonds.
use kaspa_x.Base.{
  ℕ, zero, suc, ◌+◌, ◌≡◌, refl, ◌∙◌, inl, inr, Bool, Option, none, some, List, leb, Bool-cases,
}
use kaspa_x.Kdapp.Episode.{Result, ok, err}
use kaspa_x.Kdapp.Generator.{PatternType}
use kaspa_x.CommentBoard.Wallet.{
  Utxo, UtxoLockManager, Transaction, Refusal, WalletError, submission_failed, Client,
  refresh_utxos, submit_with_retry,
}
use kaspa_x.CommentBoard.Wallet.Selection.{split_transaction}
use kaspa_x.CommentBoard.Wallet.Bonds.{Done}
use kaspa_x.CommentBoard.Wallet.Splitting.{
  split_answered, split_made, split_found, split_large_utxo, after_split, ensure_from,
  ensure_micro_utxos, small_count, find_large,
}
use kaspa_x.CommentBoard.Wallet.Submitting.{
  attempt_again, comment_attempt, submit_comment_with_bond_payload,
}
use kaspa_x.CommentBoard.Wallet.Accounts.{Books}

abbrev pub SameBonds : UtxoLockManager → UtxoLockManager → Type 0
SameBonds m m' =
    (m'.locked_utxos ≡ m.locked_utxos) × (m'.total_locked_balance ≡ m.total_locked_balance)

pub SameBonds-Books : (m m' : UtxoLockManager) (e : ℕ) → SameBonds m m' → Books m e → Books m' e
SameBonds-Books m m' e (locks, total) h = record {
  keyed = rw locks h.keyed;
  balanced = rw (total, locks) h.balanced;
  small = rw total h.small;
}

SameBonds-trans : (a b c : UtxoLockManager) → SameBonds a b → SameBonds b c → SameBonds a c
SameBonds-trans a b c h k = (k.0 ∙ h.0, k.1 ∙ h.1)

refresh_with :
    (o : Option (List Utxo)) (m : UtxoLockManager) (client : Client)
    → client.utxos ≡ o
    → SameBonds m (refresh_utxos client m).0
unfolding refresh_utxos
refresh_with none m client e = rw (e, refresh_utxos) (refl, refl)
refresh_with (some us) m client e = rw (e, refresh_utxos) (refl, refl)

pub refresh-SameBonds :
    (client : Client) (m : UtxoLockManager) → SameBonds m (refresh_utxos client m).0
refresh-SameBonds client m = refresh_with client.utxos m client refl

answered-SameBonds :
    (outpoint : ℕ × ℕ) (r : Result (Unit {0}) Refusal) (m : UtxoLockManager)
    → SameBonds m (split_answered outpoint r m).0
answered-SameBonds outpoint (err e) m = (refl, refl)
answered-SameBonds outpoint (ok _) m = (refl, refl)

made-SameBonds :
    (client : Client) (outpoint : ℕ × ℕ) (o : Option Transaction) (m : UtxoLockManager)
    → SameBonds m (split_made client outpoint o m).0
made-SameBonds client outpoint none m = (refl, refl)
made-SameBonds client outpoint (some tx) m =
    answered-SameBonds outpoint (submit_with_retry client tx) m

module _ (own : List ℕ) (user : ℕ) (serialize : ℕ → List ℕ) (tx_id : Transaction → ℕ) where
  found-SameBonds :
      (client : Client) (chunk : ℕ) (o : Option Utxo) (m : UtxoLockManager)
      → SameBonds m (split_found own user serialize tx_id client chunk o m).0
  found-SameBonds client chunk none m = (refl, refl)
  found-SameBonds client chunk (some source) m =
      made-SameBonds client source.outpoint (split_transaction chunk source own) m

  pub split-SameBonds :
      (client : Client) (max_size chunk : ℕ) (m : UtxoLockManager)
      → SameBonds m (split_large_utxo own user serialize tx_id client max_size chunk m).0
  unfolding split_large_utxo
  split-SameBonds client max_size chunk m =
      found-SameBonds client chunk (find_large max_size m.available_utxos) m

  after-SameBonds :
      (client : Client) (more : UtxoLockManager → Done (Unit {0})) (m : UtxoLockManager)
      (x : Done (Unit {0}))
      → ((m' : UtxoLockManager) → SameBonds m' (more m').0)
      → SameBonds m x.0
      → SameBonds m (after_split own user serialize tx_id client more x).0
  after-SameBonds client more m (m', err e) next h = h
  after-SameBonds client more m (m', ok _) next h =
      SameBonds-trans m (refresh_utxos client m').0 (more (refresh_utxos client m').0).0
        (SameBonds-trans m m' (refresh_utxos client m').0 h (refresh-SameBonds client m'))
        (next (refresh_utxos client m').0)

  from-SameBonds :
      (clients : ℕ → Client) (left k min_count max_size chunk : ℕ) (m : UtxoLockManager)
      → SameBonds m
          (ensure_from own user serialize tx_id clients left k min_count max_size chunk m).0
  unfolding ensure_from
  from-SameBonds clients zero k min_count max_size chunk m =
      elim (Bool-cases (leb min_count (small_count max_size m.available_utxos))) [
        | inl enough ↦ rw enough (refl, refl)
        | inr few ↦ rw few (refl, refl)
      ]
  from-SameBonds clients (suc left) k min_count max_size chunk m =
      elim (Bool-cases (leb min_count (small_count max_size m.available_utxos))) [
        | inl enough ↦ rw (enough, ensure_from) (refl, refl)
        | inr few ↦
            rw (few, ensure_from)
              (after-SameBonds (clients k)
                (ensure_from own user serialize tx_id clients left (k + 1) min_count max_size chunk)
                m (split_large_utxo own user serialize tx_id (clients k) max_size chunk m)
                (λ m'. from-SameBonds clients left (k + 1) min_count max_size chunk m')
                (split-SameBonds (clients k) max_size chunk m))
      ]

  pub ensure-SameBonds :
      (clients : ℕ → Client) (min_count max_size chunk : ℕ) (m : UtxoLockManager)
      → SameBonds m
          (ensure_micro_utxos own user serialize tx_id clients min_count max_size chunk m).0
  unfolding ensure_micro_utxos
  ensure-SameBonds clients min_count max_size chunk m =
      from-SameBonds clients 30 0 min_count max_size chunk m

  again-SameBonds :
      (m : UtxoLockManager) (again : Done ℕ) (r : Result ℕ WalletError)
      → SameBonds m again.0
      → SameBonds m (attempt_again own user serialize tx_id m again r).0
  again-SameBonds m again (ok tx) h = (refl, refl)
  again-SameBonds m again (err (submission_failed e)) h = elim (Bool-cases (e.orphan)) [
    | inl orphan ↦ rw orphan h
    | inr other ↦ rw other (refl, refl)
  ]
  again-SameBonds m again (err _) h = (refl, refl)

  pub comment-SameBonds :
      (first second : Client) (now later bond duration : ℕ) (pattern : PatternType) (prefix : ℕ)
      (use_script : Bool) (inner : List ℕ) (m : UtxoLockManager)
      → SameBonds m
          (submit_comment_with_bond_payload own user serialize tx_id first second now later bond
            duration pattern prefix use_script inner m).0
  unfolding submit_comment_with_bond_payload
  comment-SameBonds first second now later bond duration pattern prefix use_script inner m =
      again-SameBonds m
        (
          (refresh_utxos second m).0,
          comment_attempt own user serialize tx_id second later bond duration pattern prefix
              use_script inner (refresh_utxos second m).0,
        )
        (comment_attempt own user serialize tx_id first now bond duration pattern prefix use_script
          inner m)
        (refresh-SameBonds second m)
