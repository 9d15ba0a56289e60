-- ===== src/CommentBoard/Wallet/Splitting.antt =====
-- comment-board/src/wallet/utxo_manager.rs: how large coins are split.
use kaspa_x.Base.{
  ℕ, zero, suc, ◌+◌, true, false, not, ◌&&◌, Option, none, some, List, [], ◌∷◌, ltb, leb, ◌==◌,
  if◌then◌else◌, length, retain,
}
use kaspa_x.Kdapp.Episode.{Result, ok, err}
use kaspa_x.CommentBoard.Wallet.{
  Utxo, UtxoLockManager, Transaction, Refusal, too_small, not_enough_splits, submission_failed,
  Client, submit_with_retry, refresh_utxos,
}
use kaspa_x.CommentBoard.Wallet.Selection.{split_transaction}
use kaspa_x.CommentBoard.Wallet.Bonds.{Done}

abbrev pub split_answered : ℕ × ℕ → Result (Unit {0}) Refusal → UtxoLockManager → Done (Unit {0})
split_answered outpoint (err e) m = (m, err (submission_failed e))
split_answered outpoint (ok _) m = (
  record m {
    available_utxos =
        retain (λ u. not (u.outpoint.0 == outpoint.0 && u.outpoint.1 == outpoint.1))
          m.available_utxos;
  },
  ok tt,
)

abbrev pub split_made : Client → ℕ × ℕ → Option Transaction → UtxoLockManager → Done (Unit {0})
split_made client outpoint none m = (m, err too_small)
split_made client outpoint (some tx) m = split_answered outpoint (submit_with_retry client tx) m

-- `iter().find(|(_, entry)| entry.amount > max_utxo_size)`.
abbrev pub find_large : ℕ → List Utxo → Option Utxo
find_large limit [] = none
find_large limit (u ∷ us) = if ltb limit u.amount then some u else find_large limit us

abbrev pub small_count : ℕ → List Utxo → ℕ
small_count limit us = length (retain (λ u. leb u.amount limit) us)

-- The wallet's script and key, the bytes of a key, the signed transaction's id.
module _ (own : List ℕ) (user : ℕ) (serialize : ℕ → List ℕ) (tx_id : Transaction → ℕ) where
  abbrev pub split_found : Client → ℕ → Option Utxo → UtxoLockManager → Done (Unit {0})
  split_found client chunk none m = (m, ok tt)
  split_found client chunk (some source) m =
      split_made client source.outpoint (split_transaction chunk source own) m

  unfoldable pub split_large_utxo : Client → ℕ → ℕ → UtxoLockManager → Done (Unit {0})
  unfolding split_transaction submit_with_retry
  split_large_utxo client max_size chunk m =
      split_found client chunk (find_large max_size m.available_utxos) m

  -- After a split, whether it found a coin or not, the coins are asked for again.
  abbrev pub after_split :
      Client → (UtxoLockManager → Done (Unit {0})) → Done (Unit {0}) → Done (Unit {0})
  after_split client more (m, err e) = (m, err e)
  after_split client more (m, ok _) = more (refresh_utxos client m).0

  -- The loop, with `left` of its thirty attempts; the k-th has the node's k-th answers.
  unfoldable pub ensure_from : (ℕ → Client) → ℕ → ℕ → ℕ → ℕ → ℕ → UtxoLockManager → Done (Unit {0})
  unfolding split_large_utxo refresh_utxos
  ensure_from clients zero k min_count max_size chunk m =
      if leb min_count (small_count max_size m.available_utxos)
      then (m, ok tt)
      else (m, err not_enough_splits)
  ensure_from clients (suc left) k min_count max_size chunk m =
      elim (leb min_count (small_count max_size m.available_utxos)) [
        | true ↦ (m, ok tt)
        | false ↦
            after_split (clients k) (ensure_from clients left (k + 1) min_count max_size chunk)
              (split_large_utxo (clients k) max_size chunk m)
      ]

  unfoldable pub ensure_micro_utxos : (ℕ → Client) → ℕ → ℕ → ℕ → UtxoLockManager → Done (Unit {0})
  unfolding ensure_from
  ensure_micro_utxos clients min_count max_size chunk m =
      ensure_from clients 30 0 min_count max_size chunk m
