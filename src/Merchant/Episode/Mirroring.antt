-- ===== src/Merchant/Episode/Mirroring.antt =====
-- The database and the commands.
use kaspa_x.Base.{ℕ, ◌≡◌, refl, sym, Option, none, some, List, subst}
use kaspa_x.Base.Assoc.{lookup, insert}
use kaspa_x.Kdapp.Episode.{PayloadMetadata, ok, err}
use kaspa_x.Merchant.Storage.{Invoice, Subscription, CustomerInfo, Codecs}
use kaspa_x.Merchant.Invoices.{
  MerchantCommand, MerchantRollback, ReceiptEpisode, Executed, store_invoice, store_customer,
  store_subscription,
}
use kaspa_x.Merchant.Subscriptions.{remove_subscription, unsubscribe}
use kaspa_x.Merchant.Episode.{execute}
use kaspa_x.Merchant.Episode.Steps.{Step, Judged, execute-Judged}
use kaspa_x.Merchant.Episode.Recovery.{
  Mirrors, Mirror, AllLossless, insert-Mirrors, erase-Mirrors, insert-HasIds, erase-HasIds,
}

module _ {codecs : Codecs} (lossless : AllLossless codecs) where
  pub used-Mirror :
      (used : List ℕ) (s : ReceiptEpisode)
      → Mirror codecs s
      → Mirror codecs (record s { used_carrier_txs = used })
  used-Mirror used s h = record {
    invoices = h.invoices;
    customers = h.customers;
    subscriptions = h.subscriptions;
    invoice_ids = h.invoice_ids;
    subscription_ids = h.subscription_ids;
  }

  pub store_invoice-Mirror :
      (id : ℕ) (inv : Invoice) (s : ReceiptEpisode)
      → inv.id ≡ id
      → Mirror codecs s
      → Mirror codecs (store_invoice codecs id inv s)
  store_invoice-Mirror id inv s own h = record {
    invoices =
        subst
          (λ k.
            Mirrors codecs.invoice (insert k (codecs.invoice.to_vec inv) s.db.invoices)
              (insert id inv s.invoices))
          (sym own)
          (insert-Mirrors codecs.invoice lossless.invoice id inv s.db.invoices s.invoices
            h.invoices);
    customers = h.customers;
    subscriptions = h.subscriptions;
    invoice_ids = insert-HasIds (λ i. i.id) id inv s.invoices own h.invoice_ids;
    subscription_ids = h.subscription_ids;
  }

  pub store_customer-Mirror :
      (pk : ℕ) (info : CustomerInfo) (s : ReceiptEpisode)
      → Mirror codecs s
      → Mirror codecs (store_customer codecs pk info s)
  store_customer-Mirror pk info s h = record {
    invoices = h.invoices;
    customers =
        insert-Mirrors codecs.customer lossless.customer pk info s.db.customers s.customers
          h.customers;
    subscriptions = h.subscriptions;
    invoice_ids = h.invoice_ids;
    subscription_ids = h.subscription_ids;
  }

  pub store_subscription-Mirror :
      (id : ℕ) (sub : Subscription) (s : ReceiptEpisode)
      → sub.id ≡ id
      → Mirror codecs s
      → Mirror codecs (store_subscription codecs id sub s)
  store_subscription-Mirror id sub s own h = record {
    invoices = h.invoices;
    customers = h.customers;
    subscriptions =
        subst
          (λ k.
            Mirrors codecs.subscription
              (insert k (codecs.subscription.to_vec sub) s.db.subscriptions)
              (insert id sub s.subscriptions))
          (sym own)
          (insert-Mirrors codecs.subscription lossless.subscription id sub s.db.subscriptions
            s.subscriptions h.subscriptions);
    invoice_ids = h.invoice_ids;
    subscription_ids = insert-HasIds (λ i. i.id) id sub s.subscriptions own h.subscription_ids;
  }

  unsubscribe-Mirror :
      (id customer : ℕ) (s : ReceiptEpisode) (o : Option CustomerInfo)
      → Mirror codecs s
      → Mirror codecs (unsubscribe codecs id customer s o)
  unsubscribe-Mirror id customer s none h = h
  unsubscribe-Mirror id customer s (some info) h = store_customer-Mirror customer _ s h

  pub remove_subscription-Mirror :
      (id : ℕ) (sub : Subscription) (s : ReceiptEpisode)
      → Mirror codecs s
      → Mirror codecs (remove_subscription codecs id sub s)
  remove_subscription-Mirror id sub s h =
      unsubscribe-Mirror id sub.customer _ (lookup sub.customer s.customers) (record {
        invoices = h.invoices;
        customers = h.customers;
        subscriptions =
            erase-Mirrors codecs.subscription id s.db.subscriptions s.subscriptions h.subscriptions;
        invoice_ids = h.invoice_ids;
        subscription_ids = erase-HasIds (λ i. i.id) id s.subscriptions h.subscription_ids;
      })

  Step-Mirror :
      {auth : Option ℕ} {md : PayloadMetadata} {s s' : ReceiptEpisode} {c : MerchantCommand}
      {rb : MerchantRollback}
      → Step codecs auth md s c s' rb
      → Mirror codecs s
      → Mirror codecs s'
  Step-Mirror {s} (Step.created id amount memo _ _ _) h = store_invoice-Mirror id _ s refl h
  Step-Mirror {s} (Step.settled id payer inv info _ _ found _ _ _) h =
      store_customer-Mirror payer _ _
        (store_invoice-Mirror id _ _ (h.invoice_ids id inv found) (used-Mirror _ s h))
  Step-Mirror {s} (Step.acknowledged id inv found _) h =
      store_invoice-Mirror id _ s (h.invoice_ids id inv found) h
  Step-Mirror {s} (Step.withdrawn id inv found _) h =
      store_invoice-Mirror id _ s (h.invoice_ids id inv found) h
  Step-Mirror {s} (Step.subscribed id customer amount interval info _ _ _ _ _) h =
      store_subscription-Mirror id _ _ refl (store_customer-Mirror customer _ s h)
  Step-Mirror {s} (Step.processed id sub found) h =
      store_subscription-Mirror id _ s (h.subscription_ids id sub found) h
  Step-Mirror {s} (Step.unsubscribed id sub found) h = remove_subscription-Mirror id sub s h

  Judged-Mirror :
      (auth : Option ℕ) (md : PayloadMetadata) (c : MerchantCommand) (s : ReceiptEpisode)
      (x : Executed)
      → Judged codecs auth md s c x
      → Mirror codecs s
      → Mirror codecs x.0
  Judged-Mirror auth md c s (s', ok rb) o h = Step-Mirror o h
  Judged-Mirror auth md c s (s', err e) o h = subst (Mirror codecs) (sym o) h

  pub execute-Mirror :
      (c : MerchantCommand) (auth : Option ℕ) (md : PayloadMetadata) (s : ReceiptEpisode)
      → Mirror codecs s
      → Mirror codecs (execute codecs c auth md s).0
  execute-Mirror c auth md s h =
      Judged-Mirror auth md c s (execute codecs c auth md s) (execute-Judged codecs auth md s c) h
