-- ===== src/Kdapp/Proxy/Dispatch.antt =====
-- How the transactions of a block are shared out among the engines.
use native.Mathlib.Decide.{ℕ_discrete}
use kaspa_x.Base.{
  ℕ, ◌+◌, ◌≡◌, refl, ap, ◌∙◌, inl, inr, false, Option, none, some, List, [], ◌∷◌, ◌++◌,
  if◌then◌else◌, ◌==◌, length, arith, subst, Bool-cases, is_some, ==_refl,
}
use kaspa_x.Base.Assoc.{Map, lookup, contains_key, erase, lookup-erase}
use kaspa_x.Kdapp.Engine.{AssociatedTx, EngineMsg, blk_accepted, blk_reverted, exit}
use kaspa_x.Kdapp.Generator.{PatternType, check_pattern, check_header}
use kaspa_x.Kdapp.Proxy.Addressing.{Addressed, dispatch-Addressed}
use kaspa_x.Kdapp.Proxy.{
  Required, take_payload, take_tx, push_tx, collect, Message, message, dispatch,
}

-- How often a transaction is delivered.
abbrev pub count : ℕ → List AssociatedTx → ℕ
count id [] = 0
count id (tx ∷ txs) = (if tx.0 == id then 1 else 0) + count id txs

abbrev pub count_message : ℕ → EngineMsg → ℕ
count_message id (blk_accepted _ _ _ txs) = count id txs
count_message id (blk_reverted _) = 0
count_message id exit = 0

abbrev pub deliveries : ℕ → List Message → ℕ
deliveries id [] = 0
deliveries id ((prefix, msg) ∷ msgs) = count_message id msg + deliveries id msgs

-- 1 while its payload is there, 0 once it is taken.
abbrev pub present : ℕ → Required → ℕ
present id r = if contains_key id r.payloads then 1 else 0

present-erase :
    (k j : ℕ) (m : Map (Option (List ℕ)))
    → contains_key j (erase k m) ≡ (if k == j then false else contains_key j m)
present-erase k j m = elim (Bool-cases (k == j)) [
  | inl here ↦ ap is_some (lookup-erase k j m) ∙ rw here refl
  | inr away ↦ ap is_some (lookup-erase k j m) ∙ rw away refl
]

-- What is delivered and what is left makes what was there.
abbrev Balances : ℕ → Required → Option AssociatedTx × Required → Type 0
Balances j r x = count j (push_tx x.0 []) + present j x.1 ≡ present j r

take_payload-Balances :
    (prefix id j : ℕ) (o : Option (Option (List ℕ))) (r : Required)
    → lookup id r.payloads ≡ o
    → Balances j r (take_payload prefix id o r)
take_payload-Balances prefix id j none r e = omega arith
take_payload-Balances prefix id j (some none) r e = omega arith
take_payload-Balances prefix id j (some (some payload)) r e =
    elim (Bool-cases (check_header payload prefix)) [
      | inr other ↦ rw other (omega arith)
      | inl own ↦ rw own (elim (ℕ_discrete id j) [
        | yes here ↦
            subst
              (λ k.
                (if id == k then 1 else 0)
                  + 0
                  + (if contains_key k (erase id r.payloads) then 1 else 0)
                ≡ (if contains_key k r.payloads then 1 else 0))
              here (rw (==_refl id, present-erase id id r.payloads, e) (rw (==_refl id) refl))
        | no away ↦ ground (arith, present-erase id j r.payloads)
      ])
    ]

take_tx-Balances :
    (prefix : ℕ) (pattern : PatternType) (id j : ℕ) (r : Required)
    → Balances j r (take_tx prefix pattern id r)
unfolding take_tx
take_tx-Balances prefix pattern id j r = elim (Bool-cases (check_pattern id pattern)) [
  | inl hit ↦ rw hit (take_payload-Balances prefix id j _ r refl)
  | inr miss ↦ rw miss (omega arith)
]

count-push :
    (j : ℕ) (o : Option AssociatedTx) (txs : List AssociatedTx)
    → count j (push_tx o txs) ≡ count j (push_tx o []) + count j txs
count-push j none txs = omega arith
count-push j (some tx) txs = omega arith

collect-count :
    (prefix : ℕ) (pattern : PatternType) (ids : List ℕ) (j : ℕ) (r : Required)
    → count j (collect prefix pattern ids r).0 + present j (collect prefix pattern ids r).1
      ≡ present j r
unfolding collect
collect-count prefix pattern [] j r = omega arith
collect-count prefix pattern (id ∷ ids) j r =
    let step = take_tx prefix pattern id r in
    omega (
      arith,
      collect-count prefix pattern ids j step.1,
      take_tx-Balances prefix pattern id j r,
      count-push j step.0 (collect prefix pattern ids step.1).0,
    )

deliveries-message :
    (j prefix hash daa time_ms : ℕ) (txs : List AssociatedTx)
    → deliveries j (message prefix hash daa time_ms txs) ≡ count j txs
deliveries-message j prefix hash daa time_ms [] = omega arith
deliveries-message j prefix hash daa time_ms (tx ∷ txs) = omega arith

deliveries-append :
    (j : ℕ) (xs ys : List Message) → deliveries j (xs ++ ys) ≡ deliveries j xs + deliveries j ys
deliveries-append j [] ys = omega arith
deliveries-append j (x ∷ xs) ys = omega (arith, deliveries-append j xs ys)

module _ (hash daa time_ms : ℕ) (required : List ℕ) where
  count-dispatch :
      (engines : List (ℕ × PatternType)) (j : ℕ) (r : Required)
      → deliveries j (dispatch hash daa time_ms required engines r).0
          + present j (dispatch hash daa time_ms required engines r).1
        ≡ present j r
  unfolding dispatch
  count-dispatch [] j r = omega arith
  count-dispatch ((prefix, pattern) ∷ engines) j r =
      elim (Bool-cases (c.1.consumed_txs == length required)) [
        | inl all_taken ↦
            rw all_taken (omega (arith, deliveries-message j prefix hash daa time_ms c.0, taken))
        | inr more ↦ rw more (
            omega (
              arith,
              deliveries-append j (message prefix hash daa time_ms c.0) rest.0,
              deliveries-message j prefix hash daa time_ms c.0,
              taken,
              count-dispatch engines j c.1,
            ))
      ]
    where
      c : List AssociatedTx × Required
      c = collect prefix pattern required r

      rest : List Message × Required
      rest = dispatch hash daa time_ms required engines c.1

      taken : count j c.0 + present j c.1 ≡ present j r
      taken = collect-count prefix pattern required j r

  -- Over all engines a transaction is delivered exactly as often as its payload has been taken out of what
  -- was required: once if it was there and is not left, and never otherwise; whatever ids repeat among
  -- those that are required. Every message is the block's acceptance and goes to the prefix of an engine
  -- whose pattern the ids of its transactions have, and which is the prefix in the headers of their
  -- required payloads; each transaction comes with its payload behind the header and with its outputs.
  pub dispatch-deliveries :
      (engines : List (ℕ × PatternType)) (j : ℕ) (r : Required)
      → (deliveries j (dispatch hash daa time_ms required engines r).0
            + present j (dispatch hash daa time_ms required engines r).1
          ≡ present j r)
        × Addressed hash daa time_ms engines r (dispatch hash daa time_ms required engines r).0
  dispatch-deliveries engines j r =
      (count-dispatch engines j r, dispatch-Addressed hash daa time_ms required engines r)
