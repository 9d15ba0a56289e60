-- ===== src/Kdapp/Proxy.antt =====
-- kdapp/src/proxy.rs: how the payloads of an accepted block's transactions go to the engines.
-- What the node returned is given: the required transactions in acceptance order, their payloads and
-- outputs by id, and the accepting block's hash, DAA score and time in milliseconds. The engines come in
-- the order in which the map yields them. A message is paired with its engine's prefix.
pub mod Addressing
pub mod Dispatch
use kaspa_x.Base.{
  ℕ, ◌+◌, ◌/◌, Bool, true, false, Option, none, some, List, [], ◌∷◌, ◌++◌, if◌then◌else◌, ◌==◌,
  length,
}
use kaspa_x.Base.Assoc.{Map, lookup, erase}
use kaspa_x.Kdapp.Episode.{TxOutputInfo}
use kaspa_x.Kdapp.Engine.{AssociatedTx, EngineMsg, blk_accepted, blk_reverted}
use kaspa_x.Kdapp.Generator.{PatternType, check_pattern, check_header, strip_header}

-- `required_payloads` and `required_outputs`, with what has been taken out of them.
pub record Required : Type 0 where
  pub payloads : Map (Option (List ℕ))
  pub outputs : Map (Option (List TxOutputInfo))
  pub consumed_txs : ℕ

abbrev pub flatten {ℓ} : {A : Type ℓ} → Option (Option A) → Option A
flatten none = none
flatten (some o) = o

-- One transaction for an engine: the pattern, the entry, the header.
abbrev pub take_payload :
    ℕ → ℕ → Option (Option (List ℕ)) → Required → Option AssociatedTx × Required
take_payload prefix id none r = (none, r)
take_payload prefix id (some none) r = (none, r)
take_payload prefix id (some (some payload)) r =
    if check_header payload prefix
    then (
      some (id, strip_header payload, flatten (lookup id r.outputs)),
      record {
        payloads = erase id r.payloads;
        outputs = erase id r.outputs;
        consumed_txs = r.consumed_txs + 1;
      },
    )
    else (none, r)

unfoldable pub take_tx : ℕ → PatternType → ℕ → Required → Option AssociatedTx × Required
unfolding check_pattern check_header strip_header
take_tx prefix pattern id r =
    if check_pattern id pattern then take_payload prefix id (lookup id r.payloads) r else (none, r)

abbrev pub push_tx : Option AssociatedTx → List AssociatedTx → List AssociatedTx
push_tx none txs = txs
push_tx (some tx) txs = tx ∷ txs

-- The engine's transactions, in the order of `required_txs`.
unfoldable pub collect : ℕ → PatternType → List ℕ → Required → List AssociatedTx × Required
unfolding take_tx
collect prefix pattern [] r = ([], r)
collect prefix pattern (id ∷ ids) r =
    let (tx, r') = take_tx prefix pattern id r in
    let (txs, r'') = collect prefix pattern ids r' in (push_tx tx txs, r'')

abbrev pub Message : Type 0
Message = ℕ × EngineMsg

abbrev pub message : ℕ → ℕ → ℕ → ℕ → List AssociatedTx → List Message
message prefix hash daa time_ms [] = []
message prefix hash daa time_ms (tx ∷ txs) =
    (prefix, blk_accepted hash daa (time_ms / 1000) (tx ∷ txs)) ∷ []

-- The loop over the engines, which ends early when all that is required has been consumed.
unfoldable pub dispatch :
    ℕ → ℕ → ℕ → List ℕ → List (ℕ × PatternType) → Required → List Message × Required
unfolding collect
dispatch hash daa time_ms required [] r = ([], r)
dispatch hash daa time_ms required ((prefix, pattern) ∷ engines) r =
    let (txs, r') = collect prefix pattern required r in
    let (msgs, r'') = dispatch hash daa time_ms required engines r' in
    if r'.consumed_txs == length required
    then (message prefix hash daa time_ms txs, r')
    else (message prefix hash daa time_ms txs ++ msgs, r'')
