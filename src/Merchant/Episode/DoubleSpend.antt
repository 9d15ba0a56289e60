-- ===== src/Merchant/Episode/DoubleSpend.antt =====
-- Carrier transactions over histories of the episode.
use kaspa_x.Base.{
  ℕ, ◌≡◌, refl, sym, ap, ◌∙◌, Option, none, some, List, [], ◌∷◌, contains, Bool-cases, inl, inr,
  subst,
}
use kaspa_x.Base.Assoc.{lookup, insert}
use kaspa_x.Kdapp.Episode.{PayloadMetadata, ok, err}
use kaspa_x.Merchant.Storage.{Invoice, Subscription, CustomerInfo, Codecs}
use kaspa_x.Merchant.Invoices.{
  MerchantCommand, MerchantRollback, ReceiptEpisode, Executed, undo_create, undo_paid, undo_ack,
  undo_cancel, undo_create_subscription, undo_process_subscription, undo_cancel_subscription,
}
use kaspa_x.Merchant.Subscriptions.{unsubscribe}
use kaspa_x.Merchant.Episode.{
  execute, rollback, unpay, unack, uncancel, uncreate_subscription, unprocess, resubscribe,
  forget_invoice, forget_invoice_of, set_remove,
}
use kaspa_x.Merchant.Episode.Steps.{Step, Judged, execute-Judged}
use kaspa_x.Merchant.Episode.History.{Op, exec, undo, history}
use kaspa_x.Merchant.Episode.Spending.{
  carrier, carrier_of, Spends, Spends-keep, Spends-drop, Spends-unspend, Spends-spend,
  carrier-insert, carrier-erase, NoDoubleSpend,
}

module _ (codecs : Codecs) where
  unsubscribe-NoDoubleSpend :
      (id customer : ℕ) (s : ReceiptEpisode) (o : Option CustomerInfo)
      → NoDoubleSpend s
      → NoDoubleSpend (unsubscribe codecs id customer s o)
  unsubscribe-NoDoubleSpend id customer s none h = h
  unsubscribe-NoDoubleSpend id customer s (some info) h = h

  keep-NoDoubleSpend :
      (id : ℕ) (inv new_inv : Invoice) (s : ReceiptEpisode)
      → lookup id s.invoices ≡ some inv
      → new_inv.carrier_tx ≡ inv.carrier_tx
      → NoDoubleSpend s
      → Spends (carrier (insert id new_inv s.invoices)) s.used_carrier_txs
  keep-NoDoubleSpend id inv new_inv s found same h =
      Spends-keep id h new_inv.carrier_tx (same ∙ sym (ap carrier_of found))
        (λ k. carrier-insert id k new_inv s.invoices)

  Step-NoDoubleSpend :
      {auth : Option ℕ} {md : PayloadMetadata} {s s' : ReceiptEpisode} {c : MerchantCommand}
      {rb : MerchantRollback}
      → Step codecs auth md s c s' rb
      → NoDoubleSpend s
      → NoDoubleSpend s'
  Step-NoDoubleSpend {s} (Step.created id amount memo _ _ _) h =
      Spends-drop id h (λ k. carrier-insert id k _ s.invoices)
  Step-NoDoubleSpend {md} {s} (Step.settled id payer inv info _ fresh found _ _ _) h =
      Spends-spend id h md.tx_id fresh (λ k. carrier-insert id k _ s.invoices)
  Step-NoDoubleSpend {s} (Step.acknowledged id inv found _) h =
      keep-NoDoubleSpend id inv _ s found refl h
  Step-NoDoubleSpend {s} (Step.withdrawn id inv found _) h =
      keep-NoDoubleSpend id inv _ s found refl h
  Step-NoDoubleSpend {s} (Step.subscribed id customer amount interval info _ _ _ _ _) h = h
  Step-NoDoubleSpend {s} (Step.processed id sub found) h = h
  Step-NoDoubleSpend {s} (Step.unsubscribed id sub found) h =
      unsubscribe-NoDoubleSpend id sub.customer _ (lookup sub.customer s.customers) h

  Judged-NoDoubleSpend :
      (auth : Option ℕ) (md : PayloadMetadata) (c : MerchantCommand) (s : ReceiptEpisode)
      (x : Executed)
      → Judged codecs auth md s c x
      → NoDoubleSpend s
      → NoDoubleSpend x.0
  Judged-NoDoubleSpend auth md c s (s', ok rb) o h = Step-NoDoubleSpend o h
  Judged-NoDoubleSpend auth md c s (s', err e) o h = subst NoDoubleSpend (sym o) h

  -- Forgetting an invoice in its payer's row leaves invoices and carriers alone.
  forget_frame :
      (id : ℕ) (o : Option ℕ) (s : ReceiptEpisode)
      → ((forget_invoice codecs id o s).invoices ≡ s.invoices)
        × ((forget_invoice codecs id o s).used_carrier_txs ≡ s.used_carrier_txs)
  forget_frame id none s = (refl, refl)
  forget_frame id (some payer) s = go (lookup payer s.customers)
    where
      go :
          (o : Option CustomerInfo)
          → ((forget_invoice_of codecs id payer s o).invoices ≡ s.invoices)
            × ((forget_invoice_of codecs id payer s o).used_carrier_txs ≡ s.used_carrier_txs)
      go none = (refl, refl)
      go (some info) = (refl, refl)

  invoice_undo-NoDoubleSpend :
      (id : ℕ) (s : ReceiptEpisode)
      → NoDoubleSpend s
      → (o : Option Invoice) → lookup id s.invoices ≡ o
      → NoDoubleSpend (unpay codecs id s o).0
        × NoDoubleSpend (unack codecs id s o).0
        × NoDoubleSpend (uncancel codecs id s o).0
  invoice_undo-NoDoubleSpend id s h none e = (h, h, h)
  invoice_undo-NoDoubleSpend id s h (some inv) e = (
    rw (frame.0, frame.1)
        (Spends-unspend id h inv.carrier_tx (ap carrier_of e)
          (λ k. carrier-insert id k _ s.invoices)),
    keep-NoDoubleSpend id inv _ s e refl h,
    keep-NoDoubleSpend id inv _ s e refl h,
  )
    where
      taken : ReceiptEpisode
      taken = record s { used_carrier_txs = set_remove inv.carrier_tx s.used_carrier_txs }

      frame :
          ((forget_invoice codecs id inv.payer taken).invoices ≡ s.invoices)
          × ((forget_invoice codecs id inv.payer taken).used_carrier_txs
              ≡ set_remove inv.carrier_tx s.used_carrier_txs)
      frame = forget_frame id inv.payer taken

  subscription_undo-NoDoubleSpend :
      (id prev : ℕ) (s : ReceiptEpisode) (o : Option Subscription)
      → NoDoubleSpend s
      → NoDoubleSpend (uncreate_subscription codecs id s o).0
        × NoDoubleSpend (unprocess codecs id prev s o).0
  subscription_undo-NoDoubleSpend id prev s none h = (h, h)
  subscription_undo-NoDoubleSpend id prev s (some sub) h =
      (unsubscribe-NoDoubleSpend id sub.customer _ (lookup sub.customer s.customers) h, h)

  resubscribe-NoDoubleSpend :
      (id customer : ℕ) (s : ReceiptEpisode) (o : Option CustomerInfo)
      → NoDoubleSpend s
      → NoDoubleSpend (resubscribe codecs id customer s o)
  resubscribe-NoDoubleSpend id customer s none h = h
  resubscribe-NoDoubleSpend id customer s (some info) h =
      elim (Bool-cases (contains info.subscriptions id)) [
        | inl there ↦ rw there h
        | inr away ↦ rw away h
      ]

  rollback-NoDoubleSpend :
      (rb : MerchantRollback) (s : ReceiptEpisode)
      → NoDoubleSpend s
      → NoDoubleSpend (rollback codecs rb s).0
  unfolding rollback
  rollback-NoDoubleSpend (undo_create id) s h =
      Spends-drop id h (λ k. carrier-erase id k s.invoices)
  rollback-NoDoubleSpend (undo_paid id) s h = (invoice_undo-NoDoubleSpend id s h _ refl).0
  rollback-NoDoubleSpend (undo_ack id) s h = (invoice_undo-NoDoubleSpend id s h _ refl).1
  rollback-NoDoubleSpend (undo_cancel id) s h = (invoice_undo-NoDoubleSpend id s h _ refl).2
  rollback-NoDoubleSpend (undo_create_subscription id) s h =
      (subscription_undo-NoDoubleSpend id 0 s _ h).0
  rollback-NoDoubleSpend (undo_process_subscription id prev) s h =
      (subscription_undo-NoDoubleSpend id prev s _ h).1
  rollback-NoDoubleSpend (undo_cancel_subscription sub) s h =
      resubscribe-NoDoubleSpend sub.id sub.customer _ (lookup sub.customer s.customers) h

  -- If the carriers of the invoices are all on the list of used ones and no two invoices share one,
  -- this is so after any history of commands by anybody and of rollbacks in any order.
  pub history-NoDoubleSpend :
      (ops : List Op) (s : ReceiptEpisode) → NoDoubleSpend s → NoDoubleSpend (history codecs ops s)
  unfolding history
  history-NoDoubleSpend [] s h = h
  history-NoDoubleSpend (exec c auth md ∷ ops) s h = history-NoDoubleSpend ops _ (
      Judged-NoDoubleSpend auth md c s (execute codecs c auth md s)
        (execute-Judged codecs auth md s c) h)
  history-NoDoubleSpend (undo rb ∷ ops) s h =
      history-NoDoubleSpend ops _ (rollback-NoDoubleSpend rb s h)
