-- ===== src/Merchant/Storage.antt =====
-- kdapp-merchant/src/storage.rs, with the records of episode.rs that it stores.
-- The three sled trees are maps from keys to byte strings; an id stands for its eight bytes and a
-- public key for its 33, so no tree holds a key of another length. A write that sled refuses, which
-- the code ignores, is not modelled. The value of a memo is a byte string.
use kaspa_x.Base.{ℕ, Option, none, some, List, [], ◌∷◌, ◌≡◌}
use kaspa_x.Base.Assoc.{Map, insert, erase}

pub data InvoiceStatus : Type 0 where
  opened paid acked canceled : InvoiceStatus

pub record Invoice : Type 0 where
  pub id : ℕ
  pub amount : ℕ
  pub memo : Option (List ℕ)
  pub created_at : ℕ
  pub last_update : ℕ
  pub status : InvoiceStatus
  pub payer : Option ℕ
  pub carrier_tx : Option ℕ

pub record Subscription : Type 0 where
  pub id : ℕ
  pub customer : ℕ
  pub amount : ℕ
  pub interval : ℕ
  pub next_run : ℕ

pub record CustomerInfo : Type 0 where
  pub invoices : List ℕ
  pub subscriptions : List ℕ

-- borsh's encoding of one type: `borsh::to_vec` and `borsh::from_slice(…).ok()`.
pub record Borsh (V : Type 0) : Type 0 where
  pub to_vec : V → List ℕ
  pub from_slice : List ℕ → Option V

abbrev pub IsLossless : {V : Type 0} → Borsh V → Type 0
IsLossless {V} b = (v : V) → b.from_slice (b.to_vec v) ≡ some v

pub record Codecs : Type 0 where
  pub invoice : Borsh Invoice
  pub customer : Borsh CustomerInfo
  pub subscription : Borsh Subscription
  -- `PublicKey::serialize`.
  pub serialize : ℕ → List ℕ

-- `DB`: its trees "invoices", "customers" and "subscriptions".
pub record Db : Type 0 where
  pub invoices : Map (List ℕ)
  pub customers : Map (List ℕ)
  pub subscriptions : Map (List ℕ)

-- `tree.iter().filter_map(…)`: what does not parse is skipped.
abbrev pub kept {ℓ} : {V : Type ℓ} → ℕ → Option V → Map V → Map V
kept k none m = m
kept k (some v) m = (k, v) ∷ m

unfoldable pub load : {V : Type 0} → Borsh V → Map (List ℕ) → Map V
load b [] = []
load b ((k, bytes) ∷ tree) = kept k (b.from_slice bytes) (load b tree)

module _ (codecs : Codecs) where
  unfoldable pub load_invoices : Db → Map Invoice
  unfolding load
  load_invoices db = load codecs.invoice db.invoices

  unfoldable pub load_customers : Db → Map CustomerInfo
  unfolding load
  load_customers db = load codecs.customer db.customers

  unfoldable pub load_subscriptions : Db → Map Subscription
  unfolding load
  load_subscriptions db = load codecs.subscription db.subscriptions

  abbrev pub put_invoice : Invoice → Db → Db
  put_invoice inv db = record db {
    invoices = insert inv.id (codecs.invoice.to_vec inv) db.invoices;
  }

  abbrev pub put_customer : ℕ → CustomerInfo → Db → Db
  put_customer pk info db = record db {
    customers = insert pk (codecs.customer.to_vec info) db.customers;
  }

  abbrev pub put_subscription : Subscription → Db → Db
  put_subscription sub db = record db {
    subscriptions = insert sub.id (codecs.subscription.to_vec sub) db.subscriptions;
  }

abbrev pub delete_invoice : ℕ → Db → Db
delete_invoice id db = record db { invoices = erase id db.invoices }

abbrev pub delete_subscription : ℕ → Db → Db
delete_subscription id db = record db { subscriptions = erase id db.subscriptions }
