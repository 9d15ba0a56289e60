-- ===== src/Merchant/Episode.antt =====
-- kdapp-merchant/src/episode.rs: the commands and their rollbacks.
pub mod Steps
pub mod Mirroring
pub mod History
pub mod Spending
pub mod DoubleSpend
pub mod Lifecycle
pub mod Undoing
pub mod Restart
pub mod Recovery
pub mod Payment
use kaspa_x.Base.{
  ℕ, Bool, true, false, not, Option, none, some, List, [], ◌∷◌, ◌++◌, if◌then◌else◌, ◌==◌, retain,
  contains,
}
use kaspa_x.Base.Sets.{set_erase}
use kaspa_x.Base.Assoc.{lookup, contains_key, erase}
use kaspa_x.Kdapp.Episode.{PayloadMetadata}
use kaspa_x.Merchant.Storage.{
  opened, paid, Invoice, Subscription, CustomerInfo, Codecs, delete_invoice, delete_subscription,
}
use kaspa_x.Merchant.Invoices.{
  MerchantCommand, create_invoice, mark_paid, ack_receipt, cancel_invoice, create_subscription,
  process_subscription, cancel_subscription, MerchantRollback, undo_create, undo_paid, undo_ack,
  undo_cancel, undo_create_subscription, undo_process_subscription, undo_cancel_subscription,
  ReceiptEpisode, Executed, store_invoice, store_customer, store_subscription, do_create_invoice,
  do_mark_paid, do_ack_receipt, do_cancel_invoice,
}
use kaspa_x.Merchant.Subscriptions.{
  do_create_subscription, do_process_subscription, do_cancel_subscription, remove_subscription,
}

-- `used_carrier_txs.remove(&tx)`.
abbrev pub set_remove : Option ℕ → List ℕ → List ℕ
set_remove none xs = xs
set_remove (some x) xs = set_erase x xs

module _ (codecs : Codecs) where
  unfoldable pub execute : MerchantCommand → Option ℕ → PayloadMetadata → ReceiptEpisode → Executed
  execute (create_invoice id amount memo) auth md s =
      do_create_invoice codecs id amount memo auth md s
  execute (mark_paid id payer) auth md s = do_mark_paid codecs id payer auth md s
  execute (ack_receipt id) auth md s = do_ack_receipt codecs id md s (lookup id s.invoices)
  execute (cancel_invoice id) auth md s = do_cancel_invoice codecs id md s (lookup id s.invoices)
  execute (create_subscription id customer amount interval) auth md s =
      do_create_subscription codecs id customer amount interval auth md s
  execute (process_subscription id) auth md s =
      do_process_subscription codecs id md s (lookup id s.subscriptions)
  execute (cancel_subscription id) auth md s =
      do_cancel_subscription codecs id s (lookup id s.subscriptions)

  abbrev pub forget_invoice_of : ℕ → ℕ → ReceiptEpisode → Option CustomerInfo → ReceiptEpisode
  forget_invoice_of id payer s none = s
  forget_invoice_of id payer s (some info) =
      store_customer codecs payer
        (record info { invoices = retain (λ i. not (i == id)) info.invoices }) s

  abbrev pub forget_invoice : ℕ → Option ℕ → ReceiptEpisode → ReceiptEpisode
  forget_invoice id none s = s
  forget_invoice id (some payer) s = forget_invoice_of id payer s (lookup payer s.customers)

  abbrev pub unpay : ℕ → ReceiptEpisode → Option Invoice → ReceiptEpisode × Bool
  unpay id s none = (s, false)
  unpay id s (some inv) = (
    store_invoice codecs id (record inv { status = opened; payer = none; carrier_tx = none })
        (forget_invoice id inv.payer
          (record s { used_carrier_txs = set_remove inv.carrier_tx s.used_carrier_txs })),
    true,
  )

  abbrev pub unack : ℕ → ReceiptEpisode → Option Invoice → ReceiptEpisode × Bool
  unack id s none = (s, false)
  unack id s (some inv) = (store_invoice codecs id (record inv { status = paid }) s, true)

  abbrev pub uncancel : ℕ → ReceiptEpisode → Option Invoice → ReceiptEpisode × Bool
  uncancel id s none = (s, false)
  uncancel id s (some inv) = (store_invoice codecs id (record inv { status = opened }) s, true)

  -- The row is deleted from the database whether or not the episode has the subscription.
  abbrev pub uncreate_subscription :
      ℕ → ReceiptEpisode → Option Subscription → ReceiptEpisode × Bool
  uncreate_subscription id s none = (record s { db = delete_subscription id s.db }, false)
  uncreate_subscription id s (some sub) = (remove_subscription codecs id sub s, true)

  abbrev pub unprocess : ℕ → ℕ → ReceiptEpisode → Option Subscription → ReceiptEpisode × Bool
  unprocess id prev s none = (s, false)
  unprocess id prev s (some sub) =
      (store_subscription codecs id (record sub { next_run = prev }) s, true)

  abbrev pub resubscribe : ℕ → ℕ → ReceiptEpisode → Option CustomerInfo → ReceiptEpisode
  resubscribe id customer s none = s
  resubscribe id customer s (some info) =
      if contains info.subscriptions id
      then s
      else store_customer codecs customer
          (record info { subscriptions = info.subscriptions ++ id ∷ [] }) s

  unfoldable pub rollback : MerchantRollback → ReceiptEpisode → ReceiptEpisode × Bool
  rollback (undo_create id) s = (
    record s { invoices = erase id s.invoices; db = delete_invoice id s.db },
    contains_key id s.invoices,
  )
  rollback (undo_paid id) s = unpay id s (lookup id s.invoices)
  rollback (undo_ack id) s = unack id s (lookup id s.invoices)
  rollback (undo_cancel id) s = uncancel id s (lookup id s.invoices)
  rollback (undo_create_subscription id) s = uncreate_subscription id s (lookup id s.subscriptions)
  rollback (undo_process_subscription id prev) s = unprocess id prev s (lookup id s.subscriptions)
  rollback (undo_cancel_subscription sub) s = (
    resubscribe sub.id sub.customer (store_subscription codecs sub.id sub s)
        (lookup sub.customer s.customers),
    true,
  )
