-- ===== src/Merchant/Episode/Undoing.antt =====
-- What a rollback gives back.
use native.Mathlib.Decide.{ℕ_discrete}
use kaspa_x.Base.{
  ℕ, ◌≡◌, refl, sym, ap, ◌∙◌, Bool, true, Option, none, some, contains, Bool-cases, inl, inr, subst,
  is_some, add64,
}
use kaspa_x.Base.Assoc.{Map, lookup, insert, lookup-insert_self, lookup-insert_ne, erase-insert}
use kaspa_x.Kdapp.Episode.{PayloadMetadata, EpisodeError, Result, ok, err}
use kaspa_x.Merchant.Storage.{Invoice, CustomerInfo, Codecs, opened, paid, acked, canceled}
use kaspa_x.Merchant.Invoices.{
  MerchantCommand, MerchantRollback, ReceiptEpisode, Executed, MerchantError,
}
use kaspa_x.Merchant.Episode.{execute, rollback, resubscribe, forget_invoice_of}
use kaspa_x.Merchant.Episode.Steps.{Step, Judged, execute-Judged}
use kaspa_x.Merchant.Episode.Lifecycle.{unsubscribe-invoices}

-- The second is the first, but for the time of its last update.
abbrev pub Undone : Option Invoice → Option Invoice → Type 0
Undone none none = Unit {0}
Undone none (some b) = ⊥
Undone (some a) none = ⊥
Undone (some a) (some b) = a ≡ record b { last_update = a.last_update }

Undone-refl : (o : Option Invoice) → Undone o o
Undone-refl none = tt
Undone-refl (some a) = refl

-- An open invoice names neither a payer nor a carrier transaction.
abbrev pub OpenIsUnpaid : Map Invoice → Type 0
OpenIsUnpaid m =
    (k : ℕ) (inv : Invoice)
    → lookup k m ≡ some inv
    → inv.status ≡ opened
    → (inv.payer ≡ none) × (inv.carrier_tx ≡ none)

insert-Undone :
    (id k : ℕ) (inv v w : Invoice) (m : Map Invoice)
    → lookup id m ≡ some inv
    → Undone (some w) (some inv)
    → Undone (lookup k (insert id w (insert id v m))) (lookup k m)
insert-Undone id k inv v w m found u = elim (ℕ_discrete id k) [
  | yes here ↦
      subst (λ j. Undone (lookup j (insert id w (insert id v m))) (lookup j m)) here
        (rw (lookup-insert_self id w (insert id v m), found) u)
  | no away ↦
      rw (lookup-insert_ne id k w (insert id v m) away, lookup-insert_ne id k v m away)
        (Undone-refl (lookup k m))
]

same_Undone : (k : ℕ) (m n : Map Invoice) → n ≡ m → (true ≡ true) × Undone (lookup k n) (lookup k m)
same_Undone k m n e =
    (refl, subst (λ x. Undone (lookup k x) (lookup k m)) (sym e) (Undone-refl (lookup k m)))

-- The rollback object of a result that has one.
abbrev undo_of :
    MerchantRollback → Result MerchantRollback (EpisodeError MerchantError) → MerchantRollback
undo_of d (ok rb) = rb
undo_of d (err _) = d

module _ (codecs : Codecs) where
  abbrev pub Back : ℕ → ReceiptEpisode → ReceiptEpisode × Bool → Type 0
  Back k s r = (r.1 ≡ true) × Undone (lookup k r.0.invoices) (lookup k s.invoices)

  forget_invoice_of-invoices :
      (id payer : ℕ) (s : ReceiptEpisode) (o : Option CustomerInfo)
      → (forget_invoice_of codecs id payer s o).invoices ≡ s.invoices
  forget_invoice_of-invoices id payer s none = refl
  forget_invoice_of-invoices id payer s (some info) = refl

  resubscribe-invoices :
      (id customer : ℕ) (s : ReceiptEpisode) (o : Option CustomerInfo)
      → (resubscribe codecs id customer s o).invoices ≡ s.invoices
  resubscribe-invoices id customer s none = refl
  resubscribe-invoices id customer s (some info) =
      elim (Bool-cases (contains info.subscriptions id)) [
        | inl there ↦ rw there refl
        | inr away ↦ rw away refl
      ]

  Step-Back :
      {auth : Option ℕ} {md : PayloadMetadata} {s s' : ReceiptEpisode} {c : MerchantCommand}
      {rb : MerchantRollback} (k : ℕ)
      → Step codecs auth md s c s' rb
      → OpenIsUnpaid s.invoices
      → Back k s (rollback codecs rb s')
  unfolding rollback
  Step-Back {s} k (Step.created id amount memo free _ _) h = (
    ap is_some (lookup-insert_self id _ s.invoices),
    subst (λ m. Undone (lookup k m) (lookup k s.invoices)) (sym (erase-insert id _ s.invoices free))
        (Undone-refl _),
  )
  Step-Back {md} {s} k (Step.settled id payer inv info _ _ found is_open _ _) h =
      rw
        (lookup-insert_self id
          (record inv {
            status = paid;
            last_update = md.accepting_time;
            payer = some payer;
            carrier_tx = some md.tx_id;
          })
          s.invoices)
        (
          refl,
          subst
              (λ m.
                Undone
                  (lookup k (
                    insert id
                      (record inv {
                        status = opened;
                        last_update = md.accepting_time;
                        payer = none;
                        carrier_tx = none;
                      })
                      m))
                  (lookup k s.invoices))
              (sym (forget_invoice_of-invoices id payer _ _))
              (insert-Undone id k inv _ _ s.invoices found (λ i. record inv {
                last_update = md.accepting_time;
                status = sym is_open i;
                payer = sym (h id inv found is_open).0 i;
                carrier_tx = sym (h id inv found is_open).1 i;
              })),
        )
  Step-Back {md} {s} k (Step.acknowledged id inv found is_paid) h =
      rw
        (lookup-insert_self id (record inv { status = acked; last_update = md.accepting_time })
          s.invoices)
        (
          refl,
          insert-Undone id k inv _ _ s.invoices found
              (λ i. record inv { last_update = md.accepting_time; status = sym is_paid i }),
        )
  Step-Back {md} {s} k (Step.withdrawn id inv found is_open) h =
      rw
        (lookup-insert_self id (record inv { status = canceled; last_update = md.accepting_time })
          s.invoices)
        (
          refl,
          insert-Undone id k inv _ _ s.invoices found
              (λ i. record inv { last_update = md.accepting_time; status = sym is_open i }),
        )
  Step-Back {md} {s} k (Step.subscribed id customer amount interval info _ _ _ _ _) h =
      rw
        (lookup-insert_self id
          (record {
            id = id;
            customer = customer;
            amount = amount;
            interval = interval;
            next_run = add64 md.accepting_time interval;
          })
          s.subscriptions)
        (same_Undone k s.invoices _ (unsubscribe-invoices codecs id customer _ _))
  Step-Back {md} {s} k (Step.processed id sub found) h =
      rw
        (lookup-insert_self id (record sub { next_run = add64 md.accepting_time sub.interval })
          s.subscriptions)
        (same_Undone k s.invoices _ refl)
  Step-Back {s} k (Step.unsubscribed id sub found) h = same_Undone k s.invoices _ (
      resubscribe-invoices sub.id sub.customer _ _
      ∙ unsubscribe-invoices codecs id sub.customer _ (lookup sub.customer s.customers))

  Judged-Back :
      (auth : Option ℕ) (md : PayloadMetadata) (c : MerchantCommand) (s : ReceiptEpisode)
      (x : Executed) (rb : MerchantRollback) (k : ℕ)
      → Judged codecs auth md s c x
      → OpenIsUnpaid s.invoices
      → x.1 ≡ ok rb
      → Back k s (rollback codecs rb x.0)
  Judged-Back auth md c s (s', err e) rb k o h same = cc
  Judged-Back auth md c s (s', ok r) rb k o h same =
      subst (λ z. Back k s (rollback codecs z s')) (ap (undo_of rb) same) (Step-Back k o h)

  -- The rollback of an accepted command succeeds when it comes next, and gives every invoice back as it
  -- was before the command, but for `last_update`, on a state whose open invoices name neither a payer
  -- nor a carrier transaction.
  pub rollback-execute :
      (c : MerchantCommand) (auth : Option ℕ) (md : PayloadMetadata) (s : ReceiptEpisode)
      (rb : MerchantRollback) (k : ℕ)
      → OpenIsUnpaid s.invoices
      → (execute codecs c auth md s).1 ≡ ok rb
      → Back k s (rollback codecs rb (execute codecs c auth md s).0)
  rollback-execute c auth md s rb k h same =
      Judged-Back auth md c s (execute codecs c auth md s) rb k (execute-Judged codecs auth md s c)
        h same
