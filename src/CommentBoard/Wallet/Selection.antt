-- ===== src/CommentBoard/Wallet/Selection.antt =====
-- comment-board/src/wallet/utxo_manager.rs: which coins pay for a bond, and the transactions that spend
-- them. `sort_by_key` is stable, as insertion sort is.
pub mod Sorting
pub mod Conservation
use kaspa_x.Base.{
  ℕ, zero, suc, ◌+◌, ◌-◌, Bool, true, false, Option, none, some, List, [], ◌∷◌, ◌++◌, ltb, leb,
  if◌then◌else◌, length, sat_add64, add64,
}
use kaspa_x.Base.Decimal.{digits}
use kaspa_x.CommentBoard.Wallet.{fee, Utxo, Transaction, TransactionOutput, sub64}

unfoldable pub insert_by_amount : Utxo → List Utxo → List Utxo
insert_by_amount u [] = u ∷ []
insert_by_amount u (v ∷ vs) =
    let rest = insert_by_amount u vs in if leb u.amount v.amount then u ∷ v ∷ vs else v ∷ rest

unfoldable pub sort_by_amount : List Utxo → List Utxo
unfolding insert_by_amount
sort_by_amount [] = []
sort_by_amount (u ∷ us) = insert_by_amount u (sort_by_amount us)

-- The loop over the sorted coins, from what has been selected so far.
unfoldable pub select : ℕ → ℕ → List Utxo → List Utxo × ℕ
select required sum [] = ([], sum)
select required sum (u ∷ us) =
    let (more, sum') = select required (sat_add64 sum u.amount) us in
    if leb required (sat_add64 sum u.amount)
    then (u ∷ [], sat_add64 sum u.amount)
    else (u ∷ more, sum')

-- The inputs with their sum, if they cover what is required.
unfoldable pub select_inputs : ℕ → List Utxo → Option (List Utxo × ℕ)
unfolding sort_by_amount select
select_inputs required us =
    let (selected, sum) = select required 0 (sort_by_amount us) in
    if ltb sum required then none else some (selected, sum)

-- The change, where there is any.
abbrev pub change_outputs : ℕ → List ℕ → List TransactionOutput
change_outputs zero own = []
change_outputs (suc n) own = record { value = suc n; script = own } ∷ []

abbrev pub bond_outputs : ℕ → List ℕ → ℕ → List ℕ → List TransactionOutput
bond_outputs bond script sum own =
    record { value = bond; script = script } ∷ change_outputs (sum - add64 bond fee) own

abbrev pub spend : ℕ → List ℕ → List ℕ → List ℕ → List Utxo × ℕ → Transaction
spend bond script own payload (selected, sum) = record {
  inputs = selected;
  outputs = bond_outputs bond script sum own;
  payload = payload;
}

abbrev pub spent : ℕ → List ℕ → List ℕ → List ℕ → Option (List Utxo × ℕ) → Option Transaction
spent bond script own payload none = none
spent bond script own payload (some chosen) = some (spend bond script own payload chosen)

-- The transaction of a bond, if the coins cover it and the fee.
unfoldable pub bond_transaction : ℕ → List ℕ → List ℕ → List ℕ → List Utxo → Option Transaction
unfolding select_inputs
bond_transaction bond script own payload us =
    spent bond script own payload (select_inputs (add64 bond fee) us)

-- The smallest coin of at least `min_required`, the first of such.
abbrev pub better : Utxo → Option Utxo → Option Utxo
better u none = some u
better u (some v) = if ltb u.amount v.amount then some u else some v

unfoldable pub best_utxo : ℕ → Option Utxo → List Utxo → Option Utxo
best_utxo min_required best [] = best
best_utxo min_required best (u ∷ us) =
    best_utxo min_required (if leb min_required u.amount then better u best else best) us

-- `BOND:{comment_id}:{bond_amount}`.
abbrev pub bond_reference : ℕ → ℕ → List ℕ
bond_reference comment_id bond =
    66 ∷ 79 ∷ 78 ∷ 68 ∷ 58 ∷ (digits 20 comment_id ++ 58 ∷ digits 20 bond)

-- `SCRIPT_BOND:{comment_id}:{bond_amount}:{len}`.
unfoldable pub script_bond_payload : ℕ → ℕ → List ℕ → List ℕ
unfolding digits
script_bond_payload comment_id bond script =
    83
    ∷ 67
    ∷ 82
    ∷ 73
    ∷ 80
    ∷ 84
    ∷ 95
    ∷ 66
    ∷ 79
    ∷ 78
    ∷ 68
    ∷ 58
    ∷ (digits 20 comment_id ++ 58 ∷ (digits 20 bond ++ 58 ∷ digits 20 (length script)))

-- The proof of a bond: two outputs to the wallet itself.
unfoldable pub proof_transaction : ℕ → ℕ → Utxo → List ℕ → Option Transaction
unfolding digits
proof_transaction comment_id bond source own =
    let change = sub64 source.amount (fee + fee) in
    if ltb change fee
    then none
    else some (record {
      inputs = source ∷ [];
      outputs =
          record { value = fee + fee; script = own } ∷ record { value = change; script = own } ∷ [];
      payload = bond_reference comment_id bond;
    })

-- One small output and the change.
unfoldable pub split_transaction : ℕ → Utxo → List ℕ → Option Transaction
split_transaction chunk source own =
    if leb (source.amount - fee) (add64 chunk 1000)
    then none
    else some (record {
      inputs = source ∷ [];
      outputs =
          record { value = chunk; script = own }
          ∷ record { value = sub64 (source.amount - fee) chunk; script = own }
          ∷ [];
      payload = [];
    })
