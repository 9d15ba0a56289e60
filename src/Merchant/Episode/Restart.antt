-- ===== src/Merchant/Episode/Restart.antt =====
-- The database and the rollbacks; what a restart reads.
use kaspa_x.Base.{
  ℕ, ◌≡◌, refl, Option, none, some, List, [], ◌∷◌, contains, Bool-cases, inl, inr, subst,
}
use kaspa_x.Base.Assoc.{lookup, erase, erase_absent}
use kaspa_x.Kdapp.Episode.{PayloadMetadata}
use kaspa_x.Merchant.Storage.{
  Invoice, Subscription, CustomerInfo, Codecs, load_invoices, load_customers, load_subscriptions,
}
use kaspa_x.Merchant.Invoices.{
  MerchantRollback, ReceiptEpisode, initialize, undo_create, undo_paid, undo_ack, undo_cancel,
  undo_create_subscription, undo_process_subscription, undo_cancel_subscription,
}
use kaspa_x.Merchant.Episode.{
  rollback, unpay, unack, uncancel, uncreate_subscription, unprocess, resubscribe, forget_invoice,
  forget_invoice_of,
}
use kaspa_x.Merchant.Episode.Recovery.{Mirrors, Mirror, AllLossless, erase-Mirrors, erase-HasIds}
use kaspa_x.Merchant.Episode.History.{Op, exec, undo, history}
use kaspa_x.Merchant.Episode.Mirroring.{
  used-Mirror, store_invoice-Mirror, store_customer-Mirror, store_subscription-Mirror,
  remove_subscription-Mirror, execute-Mirror,
}

-- Two episodes with the same rows.
abbrev pub SameRows : ReceiptEpisode → ReceiptEpisode → Type 0
SameRows s t =
    (k : ℕ)
    → (lookup k s.invoices ≡ lookup k t.invoices)
      × (lookup k s.customers ≡ lookup k t.customers)
      × (lookup k s.subscriptions ≡ lookup k t.subscriptions)

module _ {codecs : Codecs} (lossless : AllLossless codecs) where
  forget_invoice_of-Mirror :
      (id payer : ℕ) (s : ReceiptEpisode) (o : Option CustomerInfo)
      → Mirror codecs s
      → Mirror codecs (forget_invoice_of codecs id payer s o)
  forget_invoice_of-Mirror id payer s none h = h
  forget_invoice_of-Mirror id payer s (some info) h = store_customer-Mirror lossless payer _ s h

  forget_invoice-Mirror :
      (id : ℕ) (o : Option ℕ) (s : ReceiptEpisode)
      → Mirror codecs s
      → Mirror codecs (forget_invoice codecs id o s)
  forget_invoice-Mirror id none s h = h
  forget_invoice-Mirror id (some payer) s h =
      forget_invoice_of-Mirror id payer s (lookup payer s.customers) h

  invoice_undo-Mirror :
      (id : ℕ) (s : ReceiptEpisode)
      → Mirror codecs s
      → (o : Option Invoice) → lookup id s.invoices ≡ o
      → Mirror codecs (unpay codecs id s o).0
        × Mirror codecs (unack codecs id s o).0
        × Mirror codecs (uncancel codecs id s o).0
  invoice_undo-Mirror id s h none e = (h, h, h)
  invoice_undo-Mirror id s h (some inv) e = (
    store_invoice-Mirror lossless id _ _ own
        (forget_invoice-Mirror id inv.payer _ (used-Mirror lossless _ s h)),
    store_invoice-Mirror lossless id _ s own h,
    store_invoice-Mirror lossless id _ s own h,
  )
    where
      own : inv.id ≡ id
      own = h.invoice_ids id inv e

  subscription_undo-Mirror :
      (id prev : ℕ) (s : ReceiptEpisode)
      → Mirror codecs s
      → (o : Option Subscription) → lookup id s.subscriptions ≡ o
      → Mirror codecs (uncreate_subscription codecs id s o).0
        × Mirror codecs (unprocess codecs id prev s o).0
  subscription_undo-Mirror id prev s h none e = (
    record {
      invoices = h.invoices;
      customers = h.customers;
      subscriptions =
          subst (Mirrors codecs.subscription (erase id s.db.subscriptions))
            (erase_absent id s.subscriptions e)
            (erase-Mirrors codecs.subscription id s.db.subscriptions s.subscriptions
              h.subscriptions);
      invoice_ids = h.invoice_ids;
      subscription_ids = h.subscription_ids;
    },
    h,
  )
  subscription_undo-Mirror id prev s h (some sub) e = (
    remove_subscription-Mirror lossless id sub s h,
    store_subscription-Mirror lossless id _ s (h.subscription_ids id sub e) h,
  )

  resubscribe-Mirror :
      (id customer : ℕ) (s : ReceiptEpisode) (o : Option CustomerInfo)
      → Mirror codecs s
      → Mirror codecs (resubscribe codecs id customer s o)
  resubscribe-Mirror id customer s none h = h
  resubscribe-Mirror id customer s (some info) h =
      elim (Bool-cases (contains info.subscriptions id)) [
        | inl there ↦ rw there h
        | inr away ↦ rw away (store_customer-Mirror lossless customer _ s h)
      ]

  rollback-Mirror :
      (rb : MerchantRollback) (s : ReceiptEpisode)
      → Mirror codecs s
      → Mirror codecs (rollback codecs rb s).0
  unfolding rollback
  rollback-Mirror (undo_create id) s h = record {
    invoices = erase-Mirrors codecs.invoice id s.db.invoices s.invoices h.invoices;
    customers = h.customers;
    subscriptions = h.subscriptions;
    invoice_ids = erase-HasIds (λ i. i.id) id s.invoices h.invoice_ids;
    subscription_ids = h.subscription_ids;
  }
  rollback-Mirror (undo_paid id) s h = (invoice_undo-Mirror id s h _ refl).0
  rollback-Mirror (undo_ack id) s h = (invoice_undo-Mirror id s h _ refl).1
  rollback-Mirror (undo_cancel id) s h = (invoice_undo-Mirror id s h _ refl).2
  rollback-Mirror (undo_create_subscription id) s h = (subscription_undo-Mirror id 0 s h _ refl).0
  rollback-Mirror (undo_process_subscription id prev) s h =
      (subscription_undo-Mirror id prev s h _ refl).1
  rollback-Mirror (undo_cancel_subscription sub) s h =
      resubscribe-Mirror sub.id sub.customer _ (lookup sub.customer s.customers)
        (store_subscription-Mirror lossless sub.id sub s refl h)

  history-Mirror :
      (ops : List Op) (s : ReceiptEpisode) → Mirror codecs s → Mirror codecs (history codecs ops s)
  unfolding history
  history-Mirror [] s h = h
  history-Mirror (exec c auth md ∷ ops) s h =
      history-Mirror ops _ (execute-Mirror lossless c auth md s h)
  history-Mirror (undo rb ∷ ops) s h = history-Mirror ops _ (rollback-Mirror rb s h)

  -- However an episode whose database mirrors it has gone on, by commands of anybody and by rollbacks
  -- in any order: an episode started on the database that it leaves has the same invoices, customers
  -- and subscriptions.
  pub restart-SameRows :
      (ops : List Op) (s : ReceiptEpisode) (participants : List ℕ) (md : PayloadMetadata)
      → Mirror codecs s
      → SameRows
          (initialize codecs participants md (history codecs ops s).db)
          (history codecs ops s)
  unfolding initialize load_invoices load_customers load_subscriptions
  restart-SameRows ops s participants md h k =
      let m = history-Mirror ops s h in (m.invoices k, m.customers k, m.subscriptions k)
