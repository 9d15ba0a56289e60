-- ===== src/Merchant/Episode/Lifecycle.antt =====
-- How an invoice moves from one status to the next, and back.
use native.Mathlib.Decide.{ℕ_discrete}
use kaspa_x.Base.{ℕ, ◌≡◌, refl, sym, true, Option, none, some, subst, opt_eq}
use kaspa_x.Base.Assoc.{Map, lookup, insert, lookup-insert_self, lookup-insert_ne}
use kaspa_x.Kdapp.Episode.{PayloadMetadata, ok, err}
use kaspa_x.Merchant.Storage.{Invoice, CustomerInfo, Codecs, opened, paid, acked, canceled}
use kaspa_x.Merchant.Invoices.{MerchantCommand, MerchantRollback, ReceiptEpisode, Executed}
use kaspa_x.Merchant.Subscriptions.{unsubscribe}
use kaspa_x.Merchant.Episode.{execute}
use kaspa_x.Merchant.Episode.Steps.{Step, Judged, execute-Judged}

-- The moves of an invoice under one command, by the signer and at the time given.
pub data Moves (auth : Option ℕ) (md : PayloadMetadata)
    : Option Invoice → Option Invoice → Type 0 where
  stays : (o : Option Invoice) → Moves auth md o o
  opens :
      (inv : Invoice)
      → inv.status ≡ opened
      → inv.payer ≡ none
      → inv.carrier_tx ≡ none
      → Moves auth md none (some inv)
  pays :
      (inv : Invoice) (payer : ℕ)
      → inv.status ≡ opened
      → opt_eq auth payer ≡ true
      → Moves auth md (some inv) (
          some (record inv {
            status = paid;
            last_update = md.accepting_time;
            payer = some payer;
            carrier_tx = some md.tx_id;
          }))
  acks :
      (inv : Invoice)
      → inv.status ≡ paid
      → Moves auth md
          (some inv)
          (some (record inv { status = acked; last_update = md.accepting_time }))
  cancels :
      (inv : Invoice)
      → inv.status ≡ opened
      → Moves auth md
          (some inv)
          (some (record inv { status = canceled; last_update = md.accepting_time }))

module _ {auth : Option ℕ} {md : PayloadMetadata} where
  insert-Moves :
      (id k : ℕ) (o : Option Invoice) (inv : Invoice) (m : Map Invoice)
      → lookup id m ≡ o
      → Moves auth md o (some inv)
      → Moves auth md (lookup k m) (lookup k (insert id inv m))
  insert-Moves id k o inv m e move = elim (ℕ_discrete id k) [
    | yes here ↦
        subst (λ j. Moves auth md (lookup j m) (lookup j (insert id inv m))) here
          (rw (e, lookup-insert_self id inv m) move)
    | no away ↦ rw (lookup-insert_ne id k inv m away) (stays (lookup k m))
  ]

module _ (codecs : Codecs) where
  pub unsubscribe-invoices :
      (id customer : ℕ) (s : ReceiptEpisode) (o : Option CustomerInfo)
      → (unsubscribe codecs id customer s o).invoices ≡ s.invoices
  unsubscribe-invoices id customer s none = refl
  unsubscribe-invoices id customer s (some info) = refl

  Step-Moves :
      {auth : Option ℕ} {md : PayloadMetadata} {s s' : ReceiptEpisode} {c : MerchantCommand}
      {rb : MerchantRollback} (k : ℕ)
      → Step codecs auth md s c s' rb
      → Moves auth md (lookup k s.invoices) (lookup k s'.invoices)
  Step-Moves {s} k (Step.created id amount memo free _ _) =
      insert-Moves id k none _ s.invoices free (opens _ refl refl refl)
  Step-Moves {s} k (Step.settled id payer inv info signed _ found is_open _ _) =
      insert-Moves id k (some inv) _ s.invoices found (pays inv payer is_open signed)
  Step-Moves {s} k (Step.acknowledged id inv found is_paid) =
      insert-Moves id k (some inv) _ s.invoices found (acks inv is_paid)
  Step-Moves {s} k (Step.withdrawn id inv found is_open) =
      insert-Moves id k (some inv) _ s.invoices found (cancels inv is_open)
  Step-Moves {s} k (Step.subscribed id customer amount interval info _ _ _ _ _) =
      stays (lookup k s.invoices)
  Step-Moves {s} k (Step.processed id sub found) = stays (lookup k s.invoices)
  Step-Moves {auth} {md} {s} k (Step.unsubscribed id sub found) =
      subst (λ m. Moves auth md (lookup k s.invoices) (lookup k m))
        (sym (unsubscribe-invoices id sub.customer _ (lookup sub.customer s.customers)))
        (stays (lookup k s.invoices))

  Judged-Moves :
      (auth : Option ℕ) (md : PayloadMetadata) (c : MerchantCommand) (s : ReceiptEpisode)
      (x : Executed) (k : ℕ)
      → Judged codecs auth md s c x
      → Moves auth md (lookup k s.invoices) (lookup k x.0.invoices)
  Judged-Moves auth md c s (s', ok rb) k o = Step-Moves k o
  Judged-Moves auth md c s (s', err e) k o =
      subst (λ t. Moves auth md (lookup k s.invoices) (lookup k t.invoices)) (sym o)
        (stays (lookup k s.invoices))

  -- Under a command, by anybody, every invoice keeps as it is or makes one of four moves: it is opened
  -- where there was none; it is paid while open, by the key that signed, with the command's carrier
  -- transaction; it is acknowledged once paid; it is canceled while open. Amount, memo and creation
  -- time never change, and no invoice goes away.
  pub execute-Moves :
      (c : MerchantCommand) (auth : Option ℕ) (md : PayloadMetadata) (s : ReceiptEpisode) (k : ℕ)
      → Moves auth md (lookup k s.invoices) (lookup k (execute codecs c auth md s).0.invoices)
  execute-Moves c auth md s k =
      Judged-Moves auth md c s (execute codecs c auth md s) k (execute-Judged codecs auth md s c)
