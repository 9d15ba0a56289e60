-- ===== src/CommentBoard/Wallet/Submitting.antt =====
-- comment-board/src/wallet/utxo_manager.rs: how a comment is submitted in its bond's transaction.
use kaspa_x.Base.{ℕ, Bool, true, false, Option, none, some, List, if◌then◌else◌, add64}
use kaspa_x.Kdapp.Episode.{Result, ok, err}
use kaspa_x.Kdapp.Generator.{PatternType, build_payload}
use kaspa_x.CommentBoard.Scripts.{until, ScriptError, create_bond_script_pubkey}
use kaspa_x.CommentBoard.Wallet.{
  UtxoLockManager, Transaction, WalletError, no_utxo, nonce_overflow, submission_failed, Client,
  submit_with_retry, refresh_utxos,
}
use kaspa_x.CommentBoard.Wallet.Selection.{bond_transaction}
use kaspa_x.CommentBoard.Wallet.Bonds.{Done}

-- The wallet's script and key, the bytes of a key, the signed transaction's id.
module _ (own : List ℕ) (user : ℕ) (serialize : ℕ → List ℕ) (tx_id : Transaction → ℕ) where
  -- The script of a comment's bond: where it cannot be built, the wallet's.
  abbrev pub script_or_own : Result (List ℕ) ScriptError → List ℕ
  script_or_own (ok script) = script
  script_or_own (err e) = own

  abbrev pub bond_script : ℕ → ℕ → Bool → List ℕ
  bond_script now duration false = own
  bond_script now duration true =
      script_or_own (create_bond_script_pubkey serialize (until (add64 now duration) user))

  abbrev pub comment_submitted : Client → Transaction → Option (List ℕ) → Result ℕ WalletError
  comment_submitted client tx none = err nonce_overflow
  comment_submitted client tx (some payload) =
      elim (submit_with_retry client (record tx { payload = payload })) [
        | ok _ ↦ ok (tx_id (record tx { payload = payload }))
        | err e ↦ err (submission_failed e)
      ]

  abbrev pub comment_funded :
      Client → PatternType → ℕ → List ℕ → Option Transaction → Result ℕ WalletError
  comment_funded client pattern prefix inner none = err no_utxo
  comment_funded client pattern prefix inner (some tx) =
      comment_submitted client tx
        (build_payload (λ payload. tx_id (record tx { payload = payload })) pattern inner prefix)

  -- One attempt: `inner` is the encoded message.
  unfoldable pub comment_attempt :
      Client → ℕ → ℕ → ℕ → PatternType → ℕ → Bool → List ℕ → UtxoLockManager → Result ℕ WalletError
  unfolding create_bond_script_pubkey bond_transaction build_payload submit_with_retry
  comment_attempt client now bond duration pattern prefix use_script inner m =
      comment_funded client pattern prefix inner
        (bond_transaction bond (bond_script now duration use_script) own inner m.available_utxos)

  abbrev pub attempt_again : UtxoLockManager → Done ℕ → Result ℕ WalletError → Done ℕ
  attempt_again m again (ok tx) = (m, ok tx)
  attempt_again m again (err (submission_failed e)) =
      if e.orphan then again else (m, err (submission_failed e))
  attempt_again m again (err e) = (m, err e)

  -- Two attempts, the second after a refusal as an orphan and a refresh.
  unfoldable pub submit_comment_with_bond_payload :
      Client → Client → ℕ → ℕ → ℕ → ℕ → PatternType → ℕ → Bool → List ℕ → UtxoLockManager → Done ℕ
  unfolding comment_attempt refresh_utxos
  submit_comment_with_bond_payload first second now later bond duration pattern prefix use_script
        inner m =
      let m' = (refresh_utxos second m).0 in
      attempt_again m
        (m', comment_attempt second later bond duration pattern prefix use_script inner m')
        (comment_attempt first now bond duration pattern prefix use_script inner m)
