-- ===== src/Tests/Proxy.antt =====
-- Two engines with open patterns, a transaction for each, one of them required twice.
use kaspa_x.Base.{ℕ, ◌+◌, ◌≡◌, none, some, List, [], ◌∷◌}
use kaspa_x.Kdapp.Episode.{TxOutputInfo}
use kaspa_x.Kdapp.Generator.{PatternType}
use kaspa_x.Kdapp.Proxy.{Required, Message, dispatch}
use kaspa_x.Kdapp.Proxy.Addressing.{Addressed}
use kaspa_x.Kdapp.Proxy.Dispatch.{deliveries, present, dispatch-deliveries}

-- The prefixes are 1 and 2.
abbrev payload_1 : List ℕ
payload_1 = 1 ∷ 0 ∷ 0 ∷ 0 ∷ 5 ∷ 0 ∷ 0 ∷ 0 ∷ 77 ∷ []

abbrev payload_2 : List ℕ
payload_2 = 2 ∷ 0 ∷ 0 ∷ 0 ∷ 6 ∷ 0 ∷ 0 ∷ 0 ∷ 88 ∷ []

abbrev output : TxOutputInfo
output = record { value = 100; script_version = 0; script_bytes = none }

abbrev found : Required
found = record {
  payloads = (40, some payload_2) ∷ (41, some payload_1) ∷ [];
  outputs = (40, some (output ∷ [])) ∷ (41, none) ∷ [];
  consumed_txs = 0;
}

abbrev engines : List (ℕ × PatternType)
engines = (1, []) ∷ (2, (3, 1) ∷ []) ∷ []

abbrev sent : List Message × Required
sent = dispatch 900 70 5000 (40 ∷ 41 ∷ 40 ∷ []) engines found

dispatch-deliveries_example :
    (deliveries 40 sent.0 + present 40 sent.1 ≡ 1) × Addressed 900 70 5000 engines found sent.0
dispatch-deliveries_example = dispatch-deliveries 900 70 5000 (40 ∷ 41 ∷ 40 ∷ []) engines 40 found
