-- ===== src/Kdapp/Proxy/Addressing.antt =====
-- Which engine a block's transactions go to, and with what.
use mathlib.Core.List.{Mem, mem-cons_self, mem-cons_of_mem}
use kaspa_x.Base.{
  ℕ, ◌+◌, ◌/◌, ◌≡◌, refl, sym, ap, ◌∙◌, inl, inr, true, Option, none, some, List, [], ◌∷◌, ◌++◌,
  if◌then◌else◌, ◌==◌, length, Bool-cases, is_some,
}
use kaspa_x.Base.Assoc.{lookup, contains_key, erase, lookup-erase}
use kaspa_x.Kdapp.Engine.{AssociatedTx, blk_accepted}
use kaspa_x.Kdapp.Generator.{PatternType, check_pattern, check_header, strip_header}
use kaspa_x.Kdapp.Proxy.{
  Required, flatten, take_payload, take_tx, push_tx, collect, Message, message, dispatch,
}

-- What is left in the first was in the second, with the same payload and outputs.
abbrev LeftOf : Required → Required → Type 0
LeftOf r' r =
    (id : ℕ)
    → contains_key id r'.payloads ≡ true
    → (lookup id r'.payloads ≡ lookup id r.payloads) × (lookup id r'.outputs ≡ lookup id r.outputs)

LeftOf-trans : (a b c : Required) → LeftOf a b → LeftOf b c → LeftOf a c
LeftOf-trans a b c h k id here =
    let first = h id here in
    let second = k id (sym (ap is_some first.0) ∙ here) in (first.0 ∙ second.0, first.1 ∙ second.1)

-- The transaction's id has the pattern, its payload was required and is headed by the prefix; it comes
-- with the payload behind the header and with its own outputs.
abbrev pub IsFor : ℕ → PatternType → Required → AssociatedTx → Type 0
IsFor prefix pattern r (id, body, outputs) =
    (payload : List ℕ) × (check_pattern id pattern ≡ true)
    × (lookup id r.payloads ≡ some (some payload))
    × (check_header payload prefix ≡ true)
    × (body ≡ strip_header payload)
    × (outputs ≡ flatten (lookup id r.outputs))

abbrev pub AllFor : ℕ → PatternType → Required → List AssociatedTx → Type 0
AllFor prefix pattern r [] = Unit {0}
AllFor prefix pattern r (tx ∷ txs) = IsFor prefix pattern r tx × AllFor prefix pattern r txs

-- A message's prefix and a pattern are an engine's, and its transactions are for that engine.
abbrev pub IsAddressed : ℕ → ℕ → ℕ → List (ℕ × PatternType) → Required → Message → Type 0
IsAddressed hash daa time_ms engines r (prefix, msg) =
    (pattern : PatternType) × (txs : List AssociatedTx) × Mem (prefix, pattern) engines
    × (msg ≡ blk_accepted hash daa (time_ms / 1000) txs)
    × AllFor prefix pattern r txs

abbrev pub Addressed : ℕ → ℕ → ℕ → List (ℕ × PatternType) → Required → List Message → Type 0
Addressed hash daa time_ms engines r [] = Unit {0}
Addressed hash daa time_ms engines r (msg ∷ msgs) =
    IsAddressed hash daa time_ms engines r msg × Addressed hash daa time_ms engines r msgs

-- What is left when a transaction is taken.
abbrev without : ℕ → Required → Required
without id r = record {
  payloads = erase id r.payloads;
  outputs = erase id r.outputs;
  consumed_txs = r.consumed_txs + 1;
}

without-LeftOf : (k : ℕ) (r : Required) → LeftOf (without k r) r
without-LeftOf k r id here = elim (Bool-cases (k == id)) [
  | inl gone ↦ absurd (
      cc (
        here,
        ap is_some (lookup-erase k id r.payloads),
        ap (λ b. is_some (if b then none else lookup id r.payloads)) gone,
      ))
  | inr kept ↦ (
    lookup-erase k id r.payloads ∙ ap (λ b. if b then none else lookup id r.payloads) kept,
    lookup-erase k id r.outputs ∙ ap (λ b. if b then none else lookup id r.outputs) kept,
  )
]

module _ (prefix : ℕ) (pattern : PatternType) where
  -- What is taken is for the engine, and the rest stays.
  abbrev Took : Required → List AssociatedTx × Required → Type 0
  Took r x = AllFor prefix pattern r x.0 × LeftOf x.1 r

  weaken :
      (r' r : Required) (txs : List AssociatedTx)
      → LeftOf r' r
      → AllFor prefix pattern r' txs
      → AllFor prefix pattern r txs
  weaken r' r [] h a = tt
  weaken r' r ((id, body, outputs) ∷ txs) h ((payload, hit, found, own, same, outs), a) =
      let (p, o) = h id (ap is_some found) in
      ((payload, hit, sym p ∙ found, own, same, outs ∙ ap flatten o), weaken r' r txs h a)

  push-AllFor :
      (r : Required) (o : Option AssociatedTx) (txs : List AssociatedTx)
      → AllFor prefix pattern r (push_tx o [])
      → AllFor prefix pattern r txs
      → AllFor prefix pattern r (push_tx o txs)
  push-AllFor r none txs h k = k
  push-AllFor r (some tx) txs h k = (h.0, k)

  take_payload-Took :
      (id : ℕ) (o : Option (Option (List ℕ))) (r : Required)
      → check_pattern id pattern ≡ true
      → lookup id r.payloads ≡ o
      → Took r (push_tx (take_payload prefix id o r).0 [], (take_payload prefix id o r).1)
  take_payload-Took id none r hit found = (tt, λ j h. (refl, refl))
  take_payload-Took id (some none) r hit found = (tt, λ j h. (refl, refl))
  take_payload-Took id (some (some payload)) r hit found =
      elim (Bool-cases (check_header payload prefix)) [
        | inl own ↦ rw own (((payload, hit, found, own, refl, refl), tt), without-LeftOf id r)
        | inr other ↦ rw other (tt, λ j h. (refl, refl))
      ]

  take_tx-Took :
      (id : ℕ) (r : Required)
      → Took r (push_tx (take_tx prefix pattern id r).0 [], (take_tx prefix pattern id r).1)
  unfolding take_tx
  take_tx-Took id r = elim (Bool-cases (check_pattern id pattern)) [
    | inl hit ↦ rw hit (take_payload-Took id _ r hit refl)
    | inr miss ↦ rw miss (tt, λ j h. (refl, refl))
  ]

  collect-Took : (ids : List ℕ) (r : Required) → Took r (collect prefix pattern ids r)
  unfolding collect
  collect-Took [] r = (tt, λ j h. (refl, refl))
  collect-Took (id ∷ ids) r =
      let step = take_tx prefix pattern id r in
      let (first, left) = take_tx-Took id r in
      let (later, left') = collect-Took ids step.1 in
      (
        push-AllFor r step.0 _ first (weaken step.1 r _ left later),
        LeftOf-trans (collect prefix pattern ids step.1).1 step.1 r left' left,
      )

module _ (hash daa time_ms : ℕ) where
  message-Addressed :
      (prefix : ℕ) (pattern : PatternType) (engines : List (ℕ × PatternType)) (r : Required)
      (txs : List AssociatedTx)
      → AllFor prefix pattern r txs
      → Addressed hash daa time_ms
          ((prefix, pattern) ∷ engines)
          r
          (message prefix hash daa time_ms txs)
  message-Addressed prefix pattern engines r [] a = tt
  message-Addressed prefix pattern engines r (tx ∷ txs) a =
      ((pattern, tx ∷ txs, mem-cons_self, refl, a), tt)

  append-Addressed :
      (engines : List (ℕ × PatternType)) (r : Required) (xs ys : List Message)
      → Addressed hash daa time_ms engines r xs
      → Addressed hash daa time_ms engines r ys
      → Addressed hash daa time_ms engines r (xs ++ ys)
  append-Addressed engines r [] ys h k = k
  append-Addressed engines r (x ∷ xs) ys h k = (h.0, append-Addressed engines r xs ys h.1 k)

  later-Addressed :
      (e : ℕ × PatternType) (engines : List (ℕ × PatternType)) (r' r : Required)
      (msgs : List Message)
      → LeftOf r' r
      → Addressed hash daa time_ms engines r' msgs
      → Addressed hash daa time_ms (e ∷ engines) r msgs
  later-Addressed e engines r' r [] h a = tt
  later-Addressed e engines r' r ((prefix, msg) ∷ msgs) h ((pattern, txs, m, same, all), a) = (
    (pattern, txs, mem-cons_of_mem e m, same, weaken prefix pattern r' r txs h all),
    later-Addressed e engines r' r msgs h a,
  )

  pub dispatch-Addressed :
      (required : List ℕ) (engines : List (ℕ × PatternType)) (r : Required)
      → Addressed hash daa time_ms engines r (dispatch hash daa time_ms required engines r).0
  unfolding dispatch
  dispatch-Addressed required [] r = tt
  dispatch-Addressed required ((prefix, pattern) ∷ engines) r =
      elim (Bool-cases (c.1.consumed_txs == length required)) [
        | inl all_taken ↦ rw all_taken first
        | inr more ↦ rw more (
            append-Addressed _ r _ _ first (
              later-Addressed (prefix, pattern) engines c.1 r _ took.1
                (dispatch-Addressed required engines c.1)))
      ]
    where
      c : List AssociatedTx × Required
      c = collect prefix pattern required r

      took : AllFor prefix pattern r c.0 × LeftOf c.1 r
      took = collect-Took prefix pattern required r

      first :
          Addressed hash daa time_ms
            ((prefix, pattern) ∷ engines)
            r
            (message prefix hash daa time_ms c.0)
      first = message-Addressed prefix pattern engines r c.0 took.0
