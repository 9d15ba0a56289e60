-- ===== src/Merchant/Subscriptions.antt =====
-- kdapp-merchant/src/episode.rs: the commands on subscriptions.
use kaspa_x.Base.{
  ℕ, not, ◌||◌, Option, none, some, [], ◌∷◌, ◌++◌, if◌then◌else◌, ◌==◌, retain, add64,
}
use kaspa_x.Base.Assoc.{lookup, contains_key, erase}
use kaspa_x.Kdapp.Episode.{PayloadMetadata, unauthorized, ok, err}
use kaspa_x.Merchant.Storage.{Subscription, CustomerInfo, Codecs, delete_subscription}
use kaspa_x.Merchant.Invoices.{
  ReceiptEpisode, Executed, refuse, is_merchant, store_customer, store_subscription, invalid_amount,
  unknown_customer, subscription_exists, subscription_not_found, undo_create_subscription,
  undo_process_subscription, undo_cancel_subscription,
}

module _ (codecs : Codecs) where
  abbrev pub subscribe :
      ℕ → ℕ → ℕ → ℕ → PayloadMetadata → ReceiptEpisode → Option CustomerInfo → Executed
  subscribe id customer amount interval md s none = refuse unknown_customer s
  subscribe id customer amount interval md s (some info) = (
    store_subscription codecs id
        (record {
          id = id;
          customer = customer;
          amount = amount;
          interval = interval;
          next_run = add64 md.accepting_time interval;
        })
        (store_customer codecs customer
          (record info { subscriptions = info.subscriptions ++ id ∷ [] }) s),
    ok (undo_create_subscription id),
  )

  abbrev pub do_create_subscription :
      ℕ → ℕ → ℕ → ℕ → Option ℕ → PayloadMetadata → ReceiptEpisode → Executed
  do_create_subscription id customer amount interval auth md s =
      if contains_key id s.subscriptions
      then refuse subscription_exists s
      else if amount == 0 || interval == 0
      then refuse invalid_amount s
      else if is_merchant s auth
      then subscribe id customer amount interval md s (lookup customer s.customers)
      else (s, err unauthorized)

  abbrev pub do_process_subscription :
      ℕ → PayloadMetadata → ReceiptEpisode → Option Subscription → Executed
  do_process_subscription id md s none = refuse subscription_not_found s
  do_process_subscription id md s (some sub) = (
    store_subscription codecs id (record sub { next_run = add64 md.accepting_time sub.interval }) s,
    ok (undo_process_subscription id sub.next_run),
  )

  -- `info.subscriptions.retain(|id| id != subscription_id)`, where the customer is known.
  abbrev pub unsubscribe : ℕ → ℕ → ReceiptEpisode → Option CustomerInfo → ReceiptEpisode
  unsubscribe id customer s none = s
  unsubscribe id customer s (some info) =
      store_customer codecs customer
        (record info { subscriptions = retain (λ i. not (i == id)) info.subscriptions }) s

  abbrev pub remove_subscription : ℕ → Subscription → ReceiptEpisode → ReceiptEpisode
  remove_subscription id sub s =
      unsubscribe id sub.customer
        (record s { subscriptions = erase id s.subscriptions; db = delete_subscription id s.db })
        (lookup sub.customer s.customers)

  abbrev pub do_cancel_subscription : ℕ → ReceiptEpisode → Option Subscription → Executed
  do_cancel_subscription id s none = refuse subscription_not_found s
  do_cancel_subscription id s (some sub) =
      (remove_subscription id sub s, ok (undo_cancel_subscription sub))
