-- ===== src/Tests/Receipts.antt =====
-- The merchant's episode over small concrete codecs.
use kaspa_x.Base.{ℕ, zero, suc, ◌≡◌, ◌↔◌, refl, Option, none, some, List, [], ◌∷◌, arith}
use kaspa_x.Base.Assoc.{lookup, insert}
use kaspa_x.Kdapp.Episode.{TxOutputInfo, PayloadMetadata}
use kaspa_x.Merchant.Storage.{
  InvoiceStatus, opened, paid, acked, canceled, Invoice, Subscription, CustomerInfo, Borsh,
  IsLossless, Codecs, Db, load, load_invoices, load_customers, load_subscriptions,
}
use kaspa_x.Merchant.Invoices.{
  ReceiptEpisode, initialize, allowed_scripts, payment_error, create_invoice, mark_paid,
  ack_receipt, create_subscription, process_subscription, undo_ack, undo_create, undo_paid, scan,
}
use kaspa_x.Merchant.Episode.{execute, rollback}
use kaspa_x.Merchant.Episode.Steps.{Judged, execute-Judged}
use kaspa_x.Merchant.Episode.Payment.{Pays, payment_error_iff}
use kaspa_x.Merchant.Episode.Recovery.{AllLossless, Mirror}
use kaspa_x.Merchant.Episode.History.{Op, exec, undo, history}
use kaspa_x.Merchant.Episode.Restart.{SameRows, restart-SameRows}
use kaspa_x.Merchant.Episode.Spending.{NoDoubleSpend}
use kaspa_x.Merchant.Episode.DoubleSpend.{history-NoDoubleSpend}
use kaspa_x.Merchant.Episode.Lifecycle.{Moves, execute-Moves}
use kaspa_x.Merchant.Episode.Undoing.{Back, OpenIsUnpaid, rollback-execute}

abbrev status_code : InvoiceStatus → ℕ
status_code opened = 0
status_code paid = 1
status_code acked = 2
status_code canceled = 3

abbrev status_at : ℕ → InvoiceStatus
status_at zero = opened
status_at (suc zero) = paid
status_at (suc (suc zero)) = acked
status_at (suc (suc (suc n))) = canceled

status_at-status_code : (st : InvoiceStatus) → status_at (status_code st) ≡ st
status_at-status_code opened = refl
status_at-status_code paid = refl
status_at-status_code acked = refl
status_at-status_code canceled = refl

abbrev option_code : Option ℕ → ℕ
option_code none = 0
option_code (some x) = suc x

abbrev option_at : ℕ → Option ℕ
option_at zero = none
option_at (suc x) = some x

option_at-option_code : (o : Option ℕ) → option_at (option_code o) ≡ o
option_at-option_code none = refl
option_at-option_code (some x) = refl

abbrev memo_code : Option (List ℕ) → List ℕ
memo_code none = []
memo_code (some bytes) = 0 ∷ bytes

abbrev memo_at : List ℕ → Option (List ℕ)
memo_at [] = none
memo_at (x ∷ bytes) = some bytes

memo_at-memo_code : (o : Option (List ℕ)) → memo_at (memo_code o) ≡ o
memo_at-memo_code none = refl
memo_at-memo_code (some bytes) = refl

abbrev invoice_at : List ℕ → Option Invoice
invoice_at (id ∷ amount ∷ created ∷ updated ∷ st ∷ payer ∷ carrier ∷ memo) = some (record {
  id = id;
  amount = amount;
  memo = memo_at memo;
  created_at = created;
  last_update = updated;
  status = status_at st;
  payer = option_at payer;
  carrier_tx = option_at carrier;
})
invoice_at _ = none

abbrev invoice_borsh : Borsh Invoice
invoice_borsh = record {
  to_vec = λ inv.
      inv.id
      ∷ inv.amount
      ∷ inv.created_at
      ∷ inv.last_update
      ∷ status_code inv.status
      ∷ option_code inv.payer
      ∷ option_code inv.carrier_tx
      ∷ memo_code inv.memo;
  from_slice = invoice_at;
}

invoice_borsh-IsLossless : IsLossless invoice_borsh
invoice_borsh-IsLossless inv = λ i. some (record inv {
  status = status_at-status_code inv.status i;
  payer = option_at-option_code inv.payer i;
  carrier_tx = option_at-option_code inv.carrier_tx i;
  memo = memo_at-memo_code inv.memo i;
})

-- Two lists as one: the first one's entries are raised by one, and a zero ends it.
abbrev lists_code : List ℕ → List ℕ → List ℕ
lists_code [] ys = 0 ∷ ys
lists_code (x ∷ xs) ys = suc x ∷ lists_code xs ys

abbrev push_first : ℕ → CustomerInfo → CustomerInfo
push_first x info = record info { invoices = x ∷ info.invoices }

abbrev customer_at : List ℕ → CustomerInfo
customer_at [] = record { invoices = []; subscriptions = [] }
customer_at (zero ∷ ys) = record { invoices = []; subscriptions = ys }
customer_at (suc x ∷ ys) = push_first x (customer_at ys)

customer_at-lists_code :
    (xs ys : List ℕ) → customer_at (lists_code xs ys) ≡ record { invoices = xs; subscriptions = ys }
customer_at-lists_code [] ys = refl
customer_at-lists_code (x ∷ xs) ys = λ i. push_first x (customer_at-lists_code xs ys i)

abbrev customer_borsh : Borsh CustomerInfo
customer_borsh = record {
  to_vec = λ info. lists_code info.invoices info.subscriptions;
  from_slice = λ bytes. some (customer_at bytes);
}

customer_borsh-IsLossless : IsLossless customer_borsh
customer_borsh-IsLossless info =
    λ i. some (customer_at-lists_code info.invoices info.subscriptions i)

abbrev subscription_at : List ℕ → Option Subscription
subscription_at (id ∷ customer ∷ amount ∷ interval ∷ next_run ∷ []) = some (record {
  id = id;
  customer = customer;
  amount = amount;
  interval = interval;
  next_run = next_run;
})
subscription_at _ = none

abbrev codecs : Codecs
codecs = record {
  invoice = invoice_borsh;
  customer = customer_borsh;
  subscription = record {
    to_vec = λ sub. sub.id ∷ sub.customer ∷ sub.amount ∷ sub.interval ∷ sub.next_run ∷ [];
    from_slice = subscription_at;
  };
  serialize = λ pk. 2 ∷ pk ∷ [];
}

codecs-AllLossless : AllLossless codecs
codecs-AllLossless = record {
  invoice = invoice_borsh-IsLossless;
  customer = customer_borsh-IsLossless;
  subscription = λ sub. refl;
}

-- A database that knows one customer, 20.
abbrev db : Db
db = record { invoices = []; customers = (20, lists_code [] []) ∷ []; subscriptions = [] }

abbrev md : ℕ → ℕ → Option (List TxOutputInfo) → PayloadMetadata
md time tx outs = record {
  accepting_hash = 1;
  accepting_daa = 2;
  accepting_time = time;
  tx_id = tx;
  tx_outputs = outs;
}

-- The merchant's key is 10.
abbrev fresh : ReceiptEpisode
fresh = initialize codecs (10 ∷ []) (md 0 0 none) db

fresh-Mirror : Mirror codecs fresh
unfolding initialize load_invoices load_customers load_subscriptions load
fresh-Mirror = record {
  invoices = λ k. refl;
  customers = λ k. refl;
  subscriptions = λ k. refl;
  invoice_ids = λ k inv e. cc;
  subscription_ids = λ k sub e. cc;
}

fresh-NoDoubleSpend : NoDoubleSpend fresh
unfolding initialize load_invoices load
fresh-NoDoubleSpend = record { spent = λ k t e. cc; once = λ j k t e f. cc }

abbrev outputs : List TxOutputInfo
outputs =
    record { value = 5; script_version = 0; script_bytes = none }
    ∷ record { value = 100; script_version = 0; script_bytes = some (33 ∷ 2 ∷ 10 ∷ 0xac ∷ []) }
    ∷ []

abbrev opened_one : ReceiptEpisode
opened_one = (execute codecs (create_invoice 1 100 none) (some 10) (md 1 7 none) fresh).0

-- A customer pays, the receipt is acknowledged, a subscription comes and goes, with some rollbacks.
abbrev ops : List Op
ops =
    exec (create_invoice 1 100 (some (3 ∷ []))) (some 10) (md 1 7 none)
    ∷ exec (mark_paid 1 20) (some 20) (md 2 8 (some outputs))
    ∷ exec (create_invoice 2 30 none) (some 10) (md 3 9 none)
    ∷ exec (mark_paid 2 20) (some 20) (md 4 8 none)
    ∷ exec (ack_receipt 1) none (md 5 11 none)
    ∷ undo (undo_ack 1)
    ∷ exec (create_subscription 4 20 50 60) (some 10) (md 6 12 none)
    ∷ exec (process_subscription 4) none (md 7 13 none)
    ∷ undo (undo_create 2)
    ∷ []

restart-SameRows_example :
    SameRows
      (initialize codecs (10 ∷ []) (md 9 0 none) (history codecs ops fresh).db)
      (history codecs ops fresh)
restart-SameRows_example =
    restart-SameRows codecs-AllLossless ops fresh (10 ∷ []) (md 9 0 none) fresh-Mirror

history-NoDoubleSpend_example : NoDoubleSpend (history codecs ops fresh)
history-NoDoubleSpend_example = history-NoDoubleSpend codecs ops fresh fresh-NoDoubleSpend

execute-Judged_example :
    Judged codecs
      (some 20)
      (md 2 8 (some outputs))
      opened_one
      (mark_paid 1 20)
      (execute codecs (mark_paid 1 20) (some 20) (md 2 8 (some outputs)) opened_one)
execute-Judged_example =
    execute-Judged codecs (some 20) (md 2 8 (some outputs)) opened_one (mark_paid 1 20)

payment_error_iff_example :
    (payment_error codecs opened_one 100 (some outputs) ≡ none)
    ↔ Pays 100 (allowed_scripts codecs opened_one) outputs
payment_error_iff_example = payment_error_iff codecs opened_one 100 outputs

execute-Moves_example : Moves (some 20) (md 2 8 (some outputs)) (lookup 1 opened_one.invoices) (
    lookup 1
      (execute codecs (mark_paid 1 20) (some 20) (md 2 8 (some outputs)) opened_one).0.invoices)
execute-Moves_example =
    execute-Moves codecs (mark_paid 1 20) (some 20) (md 2 8 (some outputs)) opened_one 1

opened_one-OpenIsUnpaid : OpenIsUnpaid opened_one.invoices
unfolding execute initialize load_invoices load_customers load_subscriptions load insert
opened_one-OpenIsUnpaid k inv e is_open = ground arith

rollback-execute_example : Back codecs 1 opened_one (
    rollback codecs
      (undo_paid 1)
      (execute codecs (mark_paid 1 20) (some 20) (md 2 8 (some outputs)) opened_one).0)
unfolding execute initialize load_invoices load_customers load_subscriptions load insert scan
rollback-execute_example =
    rollback-execute codecs (mark_paid 1 20) (some 20) (md 2 8 (some outputs)) opened_one
      (undo_paid 1) 1 opened_one-OpenIsUnpaid refl
