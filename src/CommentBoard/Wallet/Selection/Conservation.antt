-- ===== src/CommentBoard/Wallet/Selection/Conservation.antt =====
-- What a bond's transaction spends and pays.
use mathlib.Core.List.{Perm}
use kaspa_x.Base.{
  ℕ, zero, suc, ◌+◌, ◌-◌, ◌^◌, ◌≡◌, ◌≤◌, ◌<◌, ◌⊎◌, refl, sym, ap, inl, inr, Option, none, some,
  List, [], ◌∷◌, ◌++◌, ltb, leb, if◌then◌else◌, sat_add64, add64, arith, Bool-cases, subst,
}
use kaspa_x.CommentBoard.Wallet.{fee, Utxo, Transaction, TransactionOutput, total}
use kaspa_x.CommentBoard.Wallet.Selection.Sorting.{Ascending, sort-Perm, sort-Ascending, total-sort}
use kaspa_x.CommentBoard.Wallet.Selection.{
  sort_by_amount, select, change_outputs, spent, bond_transaction,
}

total-append : (us vs : List Utxo) → total (us ++ vs) ≡ total us + total vs
total-append [] vs = omega arith
total-append (u ∷ us) vs = omega (arith, total-append us vs)

-- Of coins in a row, each comes while those before it are short of what is required.
abbrev pub ShortBefore : ℕ → ℕ → List Utxo → Type 0
ShortBefore required sum [] = Unit {0}
ShortBefore required sum (u ∷ us) = (sum < required) × ShortBefore required (sum + u.amount) us

abbrev Chosen : ℕ → ℕ → List Utxo → List Utxo × ℕ → Type 0
Chosen required sum us x =
    (rest : List Utxo) × (x.0 ++ rest ≡ us)
    × (x.1 ≡ sum + total x.0)
    × ((required ≤ x.1) ⊎ (rest ≡ []))
    × ShortBefore required sum x.0

select-Chosen :
    (required sum : ℕ) (us : List Utxo)
    → sum < required
    → sum + total us < 2 ^ 64
    → Chosen required sum us (select required sum us)
unfolding select
select-Chosen required sum [] short room = ([], refl, omega arith, inr refl, tt)
select-Chosen required sum (u ∷ us) short room = elim (Bool-cases (leb required (sum + u.amount))) [
  | inl enough ↦ rw (exact, enough) (us, refl, omega arith, inl (ground arith), (short, tt))
  | inr more ↦
      let (rest, whole, sums, ends, short_before) =
        select-Chosen required (sum + u.amount) us (ground arith) (omega arith) in
      rw (exact, more) (rest, ap (◌∷◌ u) whole, omega (arith, sums), ends, (short, short_before))
]
  where
    exact : sat_add64 sum u.amount ≡ sum + u.amount
    exact = ground arith

abbrev pub paid : List TransactionOutput → ℕ
paid [] = 0
paid (o ∷ os) = o.value + paid os

paid-change : (n : ℕ) (own : List ℕ) → paid (change_outputs n own) ≡ n
paid-change zero own = refl
paid-change (suc n) own = omega arith

-- What is asked of the transaction that is made, or of there being none.
abbrev pub Pays : ℕ → List ℕ → List ℕ → List ℕ → List Utxo → Option Transaction → Type 0
Pays bond script own payload us none = total us < bond + fee
Pays bond script own payload us (some tx) =
    (rest : List Utxo) × (change : ℕ) × Perm (tx.inputs ++ rest) us
    × Ascending (tx.inputs ++ rest)
    × ShortBefore (bond + fee) 0 tx.inputs
    × (tx.outputs ≡ record { value = bond; script = script } ∷ change_outputs change own)
    × (total tx.inputs ≡ bond + change + fee)
    × (tx.payload ≡ payload)

abbrev Selected : ℕ → List Utxo → Option (List Utxo × ℕ) → Type 0
Selected required us none = total us < required
Selected required us (some x) =
    (rest : List Utxo) × Perm (x.0 ++ rest) us
    × Ascending (x.0 ++ rest)
    × (x.1 ≡ total x.0)
    × (required ≤ x.1)
    × ShortBefore required 0 x.0

select-Selected :
    (required : ℕ) (us sorted : List Utxo) (x : List Utxo × ℕ)
    → Perm sorted us
    → Ascending sorted
    → total sorted ≡ total us
    → Chosen required 0 sorted x
    → Selected required us (if ltb x.1 required then none else some x)
select-Selected required us sorted x perm ascending same (rest, whole, sums, ends, short_before) =
    elim (Bool-cases (ltb x.1 required)) [
      | inl short ↦ rw short (all_taken ends (ground arith))
      | inr enough ↦ rw enough (
        rest,
        subst (λ l. Perm l us) (sym whole) perm,
        subst Ascending (sym whole) ascending,
        omega (arith, sums),
        ground arith,
        short_before,
      )
    ]
  where
    all : rest ≡ [] → total x.0 ≡ total sorted
    all none_left = omega (arith, total-append x.0 rest, ap total whole, ap total none_left)

    all_taken : (required ≤ x.1) ⊎ (rest ≡ []) → x.1 < required → total us < required
    all_taken (inl enough) short = absurd (omega arith)
    all_taken (inr none_left) short = omega (arith, sums, same, all none_left)

spent-Pays :
    (bond : ℕ) (script own payload : List ℕ) (us : List Utxo) (o : Option (List Utxo × ℕ))
    → bond + fee < 2 ^ 64
    → Selected (bond + fee) us o
    → Pays bond script own payload us (spent bond script own payload o)
spent-Pays bond script own payload us none room s = s
spent-Pays bond script own payload us (some (chosen, sum)) room
      (rest, perm, ascending, sums, enough, short_before) =
    (
      rest,
      sum - (bond + fee),
      perm,
      ascending,
      short_before,
      rw exact refl,
      omega (arith, sums, enough),
      refl,
    )
  where
    exact : add64 bond fee ≡ bond + fee
    exact = omega arith

-- With amounts whose sum is a u64 and a bond that leaves room for the fee: if there is no transaction, the
-- wallet's coins are worth less than the bond and the fee; otherwise the inputs are the smallest of the
-- coins, in ascending order, and before each of them those taken were short of the bond and the fee; the
-- first output is the bond with its script, the only other one is the change, if there is any, to the wallet;
-- the inputs are worth the bond, the change and the fee, and the payload is the given one.
pub bond_transaction-Pays :
    (bond : ℕ) (script own payload : List ℕ) (us : List Utxo)
    → total us < 2 ^ 64
    → bond + fee < 2 ^ 64
    → Pays bond script own payload us (bond_transaction bond script own payload us)
unfolding bond_transaction
bond_transaction-Pays bond script own payload us small room =
    spent-Pays bond script own payload us _ room (
      rw exact (
        select-Selected (bond + fee) us (sort_by_amount us) _ (sort-Perm us) (sort-Ascending us)
          (total-sort us)
          (select-Chosen (bond + fee) 0 (sort_by_amount us) (omega arith)
            (omega (arith, total-sort us)))))
  where
    exact : add64 bond fee ≡ bond + fee
    exact = omega arith
