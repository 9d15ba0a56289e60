-- ===== src/Merchant/Invoices.antt =====
-- kdapp-merchant/src/episode.rs: the state, and the commands on invoices. The state is the episode
-- with the database that it writes to.
use kaspa_x.Base.{
  ℕ, Bool, true, false, not, ◌&&◌, Option, none, some, List, [], ◌∷◌, ◌++◌, map, if◌then◌else◌, leb,
  ◌==◌, any, contains, opt_eq,
}
use kaspa_x.Base.Sets.{set_insert}
use kaspa_x.Base.Assoc.{Map, lookup, contains_key, insert}
use kaspa_x.Base.Slices.{bytes_eq}
use kaspa_x.Kdapp.Episode.{
  TxOutputInfo, PayloadMetadata, EpisodeError, unauthorized, invalid_command, Result, ok, err,
}
use kaspa_x.Merchant.Storage.{
  InvoiceStatus, opened, paid, acked, canceled, Invoice, Subscription, CustomerInfo, Codecs, Db,
  load_invoices, load_customers, load_subscriptions, put_invoice, put_customer, put_subscription,
}

pub data MerchantCommand : Type 0 where
  create_invoice : ℕ → ℕ → Option (List ℕ) → MerchantCommand
  mark_paid : ℕ → ℕ → MerchantCommand
  ack_receipt cancel_invoice : ℕ → MerchantCommand
  create_subscription : ℕ → ℕ → ℕ → ℕ → MerchantCommand
  process_subscription cancel_subscription : ℕ → MerchantCommand

pub data MerchantRollback : Type 0 where
  undo_create undo_paid undo_ack undo_cancel undo_create_subscription : ℕ → MerchantRollback
  undo_process_subscription : ℕ → ℕ → MerchantRollback
  undo_cancel_subscription : Subscription → MerchantRollback

pub data MerchantError : Type 0 where
  exists not_found invalid_amount already_paid already_acked already_canceled unknown_customer
        invalid_script duplicate_payment subscription_exists subscription_not_found :
      MerchantError

pub record ReceiptEpisode : Type 0 where
  pub merchant_keys : List ℕ
  pub invoices : Map Invoice
  pub subscriptions : Map Subscription
  pub customers : Map CustomerInfo
  pub used_carrier_txs : List ℕ
  pub db : Db

abbrev pub Executed : Type 0
Executed = ReceiptEpisode × Result MerchantRollback (EpisodeError MerchantError)

abbrev pub refuse : MerchantError → ReceiptEpisode → Executed
refuse e s = (s, err (invalid_command e))

-- `invoices.values().filter_map(|inv| inv.carrier_tx).collect::<BTreeSet<Hash>>()`.
abbrev pub add_some : Option ℕ → List ℕ → List ℕ
add_some none xs = xs
add_some (some x) xs = set_insert x xs

unfoldable pub carrier_txs : Map Invoice → List ℕ
carrier_txs [] = []
carrier_txs ((k, inv) ∷ m) = add_some inv.carrier_tx (carrier_txs m)

-- `if let Some(pk) = authorization { if !self.merchant_keys.contains(&pk) …`.
abbrev pub is_merchant : ReceiptEpisode → Option ℕ → Bool
is_merchant s none = false
is_merchant s (some pk) = contains s.merchant_keys pk

-- The loop over the carrier's outputs, with its three flags.
pub record Scan : Type 0 where
  pub amount_ok : Bool
  pub script_checked : Bool
  pub script_ok : Bool

abbrev pub scan_start : Scan
scan_start = record { amount_ok = false; script_checked = false; script_ok = false }

unfoldable pub scan : ℕ → List (List ℕ) → List TxOutputInfo → Scan → Scan
scan amount allowed [] f = f
scan amount allowed (o ∷ outs) f = elim (leb amount o.value) [
  | false ↦ scan amount allowed outs f
  | true ↦ elim o.script_bytes [
    | none ↦ scan amount allowed outs (record f { amount_ok = true })
    | some sb ↦ elim (any (λ s. bytes_eq s sb) allowed) [
      | true ↦ record { amount_ok = true; script_checked = true; script_ok = true }
      | false ↦ scan amount allowed outs (record f { amount_ok = true; script_checked = true })
    ]
  ]
]

abbrev pub scan_error : Scan → Option MerchantError
scan_error f =
    if f.script_checked && not f.script_ok
    then some invalid_script
    else if not f.amount_ok
    then some invalid_amount
    else none

module _ (codecs : Codecs) where
  unfoldable pub initialize : List ℕ → PayloadMetadata → Db → ReceiptEpisode
  unfolding load_invoices load_customers load_subscriptions carrier_txs
  initialize participants md db = record {
    merchant_keys = participants;
    invoices = load_invoices codecs db;
    subscriptions = load_subscriptions codecs db;
    customers = load_customers codecs db;
    used_carrier_txs = carrier_txs (load_invoices codecs db);
    db = db;
  }

  -- The standard P2PK scripts of the merchant's keys.
  abbrev pub allowed_scripts : ReceiptEpisode → List (List ℕ)
  allowed_scripts s = map (λ k. 33 ∷ (codecs.serialize k ++ 0xac ∷ [])) s.merchant_keys

  abbrev pub payment_error : ReceiptEpisode → ℕ → Option (List TxOutputInfo) → Option MerchantError
  payment_error s amount none = none
  payment_error s amount (some outs) = scan_error (scan amount (allowed_scripts s) outs scan_start)

  abbrev pub store_invoice : ℕ → Invoice → ReceiptEpisode → ReceiptEpisode
  store_invoice id inv s = record s {
    invoices = insert id inv s.invoices;
    db = put_invoice codecs inv s.db;
  }

  abbrev pub store_customer : ℕ → CustomerInfo → ReceiptEpisode → ReceiptEpisode
  store_customer pk info s = record s {
    customers = insert pk info s.customers;
    db = put_customer codecs pk info s.db;
  }

  abbrev pub store_subscription : ℕ → Subscription → ReceiptEpisode → ReceiptEpisode
  store_subscription id sub s = record s {
    subscriptions = insert id sub s.subscriptions;
    db = put_subscription codecs sub s.db;
  }

  abbrev pub do_create_invoice :
      ℕ → ℕ → Option (List ℕ) → Option ℕ → PayloadMetadata → ReceiptEpisode → Executed
  do_create_invoice id amount memo auth md s =
      if contains_key id s.invoices
      then refuse exists s
      else if amount == 0
      then refuse invalid_amount s
      else if is_merchant s auth
      then (
        store_invoice id
            (record {
              id = id;
              amount = amount;
              memo = memo;
              created_at = md.accepting_time;
              last_update = md.accepting_time;
              status = opened;
              payer = none;
              carrier_tx = none;
            })
            s,
        ok (undo_create id),
      )
      else (s, err unauthorized)

  abbrev pub with_invoice : ℕ → CustomerInfo → CustomerInfo
  with_invoice id info =
      if contains info.invoices id
      then info
      else record info { invoices = info.invoices ++ id ∷ [] }

  abbrev pub pay :
      ℕ → ℕ → PayloadMetadata → Invoice → CustomerInfo → ReceiptEpisode → ReceiptEpisode
  pay id payer md inv info s = store_customer payer (with_invoice id info) (
      store_invoice id
        (record inv {
          status = paid;
          last_update = md.accepting_time;
          payer = some payer;
          carrier_tx = some md.tx_id;
        })
        (record s { used_carrier_txs = set_insert md.tx_id s.used_carrier_txs }))

  abbrev pub pay_checked :
      ℕ
      → ℕ
      → PayloadMetadata
      → Invoice
      → CustomerInfo
      → ReceiptEpisode
      → Option MerchantError
      → Executed
  pay_checked id payer md inv info s (some e) = refuse e s
  pay_checked id payer md inv info s none = (pay id payer md inv info s, ok (undo_paid id))

  abbrev pub pay_customer :
      ℕ → ℕ → PayloadMetadata → Invoice → ReceiptEpisode → Option CustomerInfo → Executed
  pay_customer id payer md inv s none = refuse unknown_customer s
  pay_customer id payer md inv s (some info) =
      pay_checked id payer md inv info s (payment_error s inv.amount md.tx_outputs)

  abbrev pub pay_status :
      ℕ → ℕ → PayloadMetadata → Invoice → ReceiptEpisode → InvoiceStatus → Executed
  pay_status id payer md inv s canceled = refuse already_canceled s
  pay_status id payer md inv s acked = refuse already_paid s
  pay_status id payer md inv s paid = refuse already_paid s
  pay_status id payer md inv s opened = pay_customer id payer md inv s (lookup payer s.customers)

  abbrev pub pay_invoice : ℕ → ℕ → PayloadMetadata → ReceiptEpisode → Option Invoice → Executed
  pay_invoice id payer md s none = refuse not_found s
  pay_invoice id payer md s (some inv) = pay_status id payer md inv s inv.status

  abbrev pub do_mark_paid : ℕ → ℕ → Option ℕ → PayloadMetadata → ReceiptEpisode → Executed
  do_mark_paid id payer auth md s =
      if not (opt_eq auth payer)
      then (s, err unauthorized)
      else if contains s.used_carrier_txs md.tx_id
      then refuse duplicate_payment s
      else pay_invoice id payer md s (lookup id s.invoices)

  abbrev pub touch : ℕ → InvoiceStatus → PayloadMetadata → Invoice → ReceiptEpisode → ReceiptEpisode
  touch id st md inv s =
      store_invoice id (record inv { status = st; last_update = md.accepting_time }) s

  abbrev pub ack_status : ℕ → PayloadMetadata → Invoice → ReceiptEpisode → InvoiceStatus → Executed
  ack_status id md inv s canceled = refuse already_canceled s
  ack_status id md inv s acked = refuse already_acked s
  ack_status id md inv s opened = refuse not_found s
  ack_status id md inv s paid = (touch id acked md inv s, ok (undo_ack id))

  abbrev pub do_ack_receipt : ℕ → PayloadMetadata → ReceiptEpisode → Option Invoice → Executed
  do_ack_receipt id md s none = refuse not_found s
  do_ack_receipt id md s (some inv) = ack_status id md inv s inv.status

  abbrev pub cancel_status :
      ℕ → PayloadMetadata → Invoice → ReceiptEpisode → InvoiceStatus → Executed
  cancel_status id md inv s canceled = refuse already_canceled s
  cancel_status id md inv s paid = refuse already_paid s
  cancel_status id md inv s acked = refuse already_paid s
  cancel_status id md inv s opened = (touch id canceled md inv s, ok (undo_cancel id))

  abbrev pub do_cancel_invoice : ℕ → PayloadMetadata → ReceiptEpisode → Option Invoice → Executed
  do_cancel_invoice id md s none = refuse not_found s
  do_cancel_invoice id md s (some inv) = cancel_status id md inv s inv.status
