-- ===== src/Merchant/Episode/Steps.antt =====
-- What an accepted command requires and does, as a relation.
use kaspa_x.Base.{
  ℕ, ◌≡◌, ◌≢◌, refl, inl, inr, ◌++◌, arith, true, false, ◌||◌, Option, none, some, List, [], ◌∷◌,
  ◌==◌, contains, opt_eq, add64, Bool-cases, Option-cases,
}
use kaspa_x.Base.Assoc.{lookup}
use kaspa_x.Kdapp.Episode.{PayloadMetadata, ok, err}
use kaspa_x.Merchant.Storage.{
  opened, paid, acked, canceled, InvoiceStatus, Invoice, Subscription, CustomerInfo, Codecs,
}
use kaspa_x.Merchant.Invoices.{
  MerchantCommand, create_invoice, mark_paid, ack_receipt, cancel_invoice, create_subscription,
  process_subscription, cancel_subscription, MerchantRollback, undo_create, undo_paid, undo_ack,
  undo_cancel, undo_create_subscription, undo_process_subscription, undo_cancel_subscription,
  MerchantError, ReceiptEpisode, Executed, is_merchant, payment_error, store_invoice,
  store_customer, store_subscription, do_create_invoice, pay, pay_checked, pay_status, do_mark_paid,
  touch, ack_status, do_ack_receipt, cancel_status, do_cancel_invoice,
}
use kaspa_x.Merchant.Subscriptions.{
  do_create_subscription, do_process_subscription, do_cancel_subscription, remove_subscription,
}
use kaspa_x.Merchant.Episode.{execute}

module _ (codecs : Codecs) (auth : Option ℕ) (md : PayloadMetadata) (s : ReceiptEpisode) where
  pub data Step : MerchantCommand → ReceiptEpisode → MerchantRollback → Type 0 where
    created :
        (id amount : ℕ) (memo : Option (List ℕ))
        → lookup id s.invoices ≡ none
        → amount ≢ 0
        → is_merchant s auth ≡ true
        → Step
            (create_invoice id amount memo)
            (store_invoice codecs id
              (record {
                id = id;
                amount = amount;
                memo = memo;
                created_at = md.accepting_time;
                last_update = md.accepting_time;
                status = opened;
                payer = none;
                carrier_tx = none;
              })
              s)
            (undo_create id)
    settled :
        (id payer : ℕ) (inv : Invoice) (info : CustomerInfo)
        → opt_eq auth payer ≡ true
        → contains s.used_carrier_txs md.tx_id ≡ false
        → lookup id s.invoices ≡ some inv
        → inv.status ≡ opened
        → lookup payer s.customers ≡ some info
        → payment_error codecs s inv.amount md.tx_outputs ≡ none
        → Step (mark_paid id payer) (pay codecs id payer md inv info s) (undo_paid id)
    acknowledged :
        (id : ℕ) (inv : Invoice)
        → lookup id s.invoices ≡ some inv
        → inv.status ≡ paid
        → Step (ack_receipt id) (touch codecs id acked md inv s) (undo_ack id)
    withdrawn :
        (id : ℕ) (inv : Invoice)
        → lookup id s.invoices ≡ some inv
        → inv.status ≡ opened
        → Step (cancel_invoice id) (touch codecs id canceled md inv s) (undo_cancel id)
    subscribed :
        (id customer amount interval : ℕ) (info : CustomerInfo)
        → lookup id s.subscriptions ≡ none
        → amount ≢ 0
        → interval ≢ 0
        → is_merchant s auth ≡ true
        → lookup customer s.customers ≡ some info
        → Step
            (create_subscription id customer amount interval)
            (store_subscription codecs id
              (record {
                id = id;
                customer = customer;
                amount = amount;
                interval = interval;
                next_run = add64 md.accepting_time interval;
              })
              (store_customer codecs customer
                (record info { subscriptions = info.subscriptions ++ id ∷ [] })
                s))
            (undo_create_subscription id)
    processed :
        (id : ℕ) (sub : Subscription)
        → lookup id s.subscriptions ≡ some sub
        → Step
            (process_subscription id)
            (store_subscription codecs id
              (record sub { next_run = add64 md.accepting_time sub.interval })
              s)
            (undo_process_subscription id sub.next_run)
    unsubscribed :
        (id : ℕ) (sub : Subscription)
        → lookup id s.subscriptions ≡ some sub
        → Step
            (cancel_subscription id)
            (remove_subscription codecs id sub s)
            (undo_cancel_subscription sub)

  abbrev pub Judged : MerchantCommand → Executed → Type 0
  Judged c (s', err _) = s' ≡ s
  Judged c (s', ok rb) = Step c s' rb

  create-Judged :
      (id amount : ℕ) (memo : Option (List ℕ))
      → Judged (create_invoice id amount memo) (do_create_invoice codecs id amount memo auth md s)
  create-Judged id amount memo = elim (Option-cases (lookup id s.invoices)) [
    | inr (inv, found) ↦ rw found refl
    | inl free ↦ elim (Bool-cases (amount == 0)) [
      | inl zero_amount ↦ rw (free, zero_amount) refl
      | inr positive ↦ elim (Bool-cases (is_merchant s auth)) [
        | inr stranger ↦ rw (free, positive, stranger) refl
        | inl own ↦ rw (free, positive, own) (created id amount memo free (λ z. ground arith) own)
      ]
    ]
  ]

  checked-Judged :
      (id payer : ℕ) (inv : Invoice) (info : CustomerInfo)
      → opt_eq auth payer ≡ true
      → contains s.used_carrier_txs md.tx_id ≡ false
      → lookup id s.invoices ≡ some inv
      → inv.status ≡ opened
      → lookup payer s.customers ≡ some info
      → (o : Option MerchantError) → payment_error codecs s inv.amount md.tx_outputs ≡ o
      → Judged (mark_paid id payer) (pay_checked codecs id payer md inv info s o)
  checked-Judged id payer inv info signed fresh found is_open known none e =
      settled id payer inv info signed fresh found is_open known e
  checked-Judged id payer inv info signed fresh found is_open known (some _) e = refl

  status-Judged :
      (id payer : ℕ) (inv : Invoice)
      → opt_eq auth payer ≡ true
      → contains s.used_carrier_txs md.tx_id ≡ false
      → lookup id s.invoices ≡ some inv
      → (st : InvoiceStatus) → inv.status ≡ st
      → Judged (mark_paid id payer) (pay_status codecs id payer md inv s st)
  status-Judged id payer inv signed fresh found canceled e = refl
  status-Judged id payer inv signed fresh found acked e = refl
  status-Judged id payer inv signed fresh found paid e = refl
  status-Judged id payer inv signed fresh found opened e =
      elim (Option-cases (lookup payer s.customers)) [
        | inl unknown ↦ rw unknown refl
        | inr (info, known) ↦
            rw known (checked-Judged id payer inv info signed fresh found e known _ refl)
      ]

  paid-Judged :
      (id payer : ℕ) → Judged (mark_paid id payer) (do_mark_paid codecs id payer auth md s)
  paid-Judged id payer = elim (Bool-cases (opt_eq auth payer)) [
    | inr forged ↦ rw forged refl
    | inl signed ↦ elim (Bool-cases (contains s.used_carrier_txs md.tx_id)) [
      | inl used ↦ rw (signed, used) refl
      | inr fresh ↦ elim (Option-cases (lookup id s.invoices)) [
        | inl missing ↦ rw (signed, fresh, missing) refl
        | inr (inv, found) ↦
            rw (signed, fresh, found) (status-Judged id payer inv signed fresh found _ refl)
      ]
    ]
  ]

  ack-Judged :
      (id : ℕ) (inv : Invoice)
      → lookup id s.invoices ≡ some inv
      → (st : InvoiceStatus) → inv.status ≡ st
      → Judged (ack_receipt id) (ack_status codecs id md inv s st)
  ack-Judged id inv found canceled e = refl
  ack-Judged id inv found acked e = refl
  ack-Judged id inv found opened e = refl
  ack-Judged id inv found paid e = acknowledged id inv found e

  cancel-Judged :
      (id : ℕ) (inv : Invoice)
      → lookup id s.invoices ≡ some inv
      → (st : InvoiceStatus) → inv.status ≡ st
      → Judged (cancel_invoice id) (cancel_status codecs id md inv s st)
  cancel-Judged id inv found canceled e = refl
  cancel-Judged id inv found acked e = refl
  cancel-Judged id inv found paid e = refl
  cancel-Judged id inv found opened e = withdrawn id inv found e

  subscribe-Judged :
      (id customer amount interval : ℕ)
      → Judged
          (create_subscription id customer amount interval)
          (do_create_subscription codecs id customer amount interval auth md s)
  subscribe-Judged id customer amount interval = elim (Option-cases (lookup id s.subscriptions)) [
    | inr (sub, found) ↦ rw found refl
    | inl free ↦ elim (Bool-cases (amount == 0 || interval == 0)) [
      | inl zeros ↦ rw (free, zeros) refl
      | inr positive ↦ elim (Bool-cases (is_merchant s auth)) [
        | inr stranger ↦ rw (free, positive, stranger) refl
        | inl own ↦ elim (Option-cases (lookup customer s.customers)) [
          | inl unknown ↦ rw (free, positive, own, unknown) refl
          | inr (info, known) ↦
              rw (free, positive, own, known)
                (subscribed id customer amount interval info free (λ z. ground arith)
                  (λ z. ground arith) own known)
        ]
      ]
    ]
  ]

  found-Judged :
      (id : ℕ) (o : Option Invoice)
      → lookup id s.invoices ≡ o
      → Judged (ack_receipt id) (do_ack_receipt codecs id md s o)
        × Judged (cancel_invoice id) (do_cancel_invoice codecs id md s o)
  found-Judged id none e = (refl, refl)
  found-Judged id (some inv) e =
      (ack-Judged id inv e inv.status refl, cancel-Judged id inv e inv.status refl)

  found_subscription-Judged :
      (id : ℕ) (o : Option Subscription)
      → lookup id s.subscriptions ≡ o
      → Judged (process_subscription id) (do_process_subscription codecs id md s o)
        × Judged (cancel_subscription id) (do_cancel_subscription codecs id s o)
  found_subscription-Judged id none e = (refl, refl)
  found_subscription-Judged id (some sub) e = (processed id sub e, unsubscribed id sub e)

  -- A refused command leaves the episode and its database as they were. An accepted one is a step of
  -- the relation `Step`: what it required held, and the state and the rollback object are the step's.
  pub execute-Judged : (c : MerchantCommand) → Judged c (execute codecs c auth md s)
  unfolding execute
  execute-Judged (create_invoice id amount memo) = create-Judged id amount memo
  execute-Judged (mark_paid id payer) = paid-Judged id payer
  execute-Judged (ack_receipt id) = (found-Judged id _ refl).0
  execute-Judged (cancel_invoice id) = (found-Judged id _ refl).1
  execute-Judged (create_subscription id customer amount interval) =
      subscribe-Judged id customer amount interval
  execute-Judged (process_subscription id) = (found_subscription-Judged id _ refl).0
  execute-Judged (cancel_subscription id) = (found_subscription-Judged id _ refl).1
