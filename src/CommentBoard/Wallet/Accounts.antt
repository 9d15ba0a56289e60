-- ===== src/CommentBoard/Wallet/Accounts.antt =====
-- The wallet's books: the locked balance against the bonds that are on record.
use kaspa_x.Base.{
  ℕ, ◌+◌, ◌^◌, ◌≡◌, ◌<◌, refl, ap, inl, inr, Option, none, some, List, [], ◌∷◌, ◌==◌, arith,
  Bool-cases, ==_iff, subst,
}
use kaspa_x.Base.Assoc.{Map, lookup, insert, erase, IsMap, insert-IsMap, erase-IsMap, erase_absent}
use kaspa_x.Kdapp.Episode.{Result, ok, err}
use kaspa_x.CommentBoard.Wallet.{Utxo, LockedUtxo, UtxoLockManager, WalletError, Client}
use kaspa_x.CommentBoard.Wallet.Bonds.{
  Done, record_bond, remove_bond, check_bond, check_bonds, scan_pending_bonds,
}

-- What the bonds on record are worth, and one of them.
abbrev pub bonds : Map LockedUtxo → ℕ
bonds [] = 0
bonds ((k, b) ∷ m) = b.bond_amount + bonds m

abbrev pub worth : Option LockedUtxo → ℕ
worth none = 0
worth (some b) = b.bond_amount

bonds-insert :
    (k : ℕ) (b : LockedUtxo) (m : Map LockedUtxo)
    → bonds (insert k b m) + worth (lookup k m) ≡ bonds m + b.bond_amount
unfolding insert
bonds-insert k b [] = omega arith
bonds-insert k b ((j, c) ∷ m) = ground (arith, bonds-insert k b m)

pub bonds-erase :
    (k : ℕ) (m : Map LockedUtxo) → IsMap m → bonds (erase k m) + worth (lookup k m) ≡ bonds m
unfolding erase
bonds-erase k [] h = omega arith
bonds-erase k ((j, c) ∷ m) h = elim (Bool-cases (j == k)) [
  | inl here ↦ rw here (
      omega (
        arith,
        ap bonds (erase_absent k m (subst (λ i. lookup i m ≡ none) ((==_iff j k).0 here) h.0)),
      ))
  | inr away ↦ rw away (omega (arith, bonds-erase k m h.1))
]

-- The locked balance is what the bonds are worth, and so much more.
pub record Books (m : UtxoLockManager) (excess : ℕ) : Type 0 where
  pub keyed : IsMap m.locked_utxos
  pub balanced : m.total_locked_balance ≡ bonds m.locked_utxos + excess
  pub small : m.total_locked_balance < 2 ^ 64

record_bond-Books :
    (b : LockedUtxo) (m : UtxoLockManager) (e : ℕ)
    → Books m e
    → m.total_locked_balance + b.bond_amount < 2 ^ 64
    → Books (record_bond b m) (e + worth (lookup b.comment_id m.locked_utxos))
record_bond-Books b m e h room = record {
  keyed = insert-IsMap b.comment_id b m.locked_utxos h.keyed;
  balanced = omega (arith, h.balanced, bonds-insert b.comment_id b m.locked_utxos);
  small = omega arith;
}

-- The result of making a bond: nothing is recorded, or one bond under the id and of the amount.
abbrev pub Records : ℕ → ℕ → UtxoLockManager → Done ℕ → Type 0
Records comment_id bond m (m', err _) = m' ≡ m
Records comment_id bond m (m', ok _) =
    (b : LockedUtxo) × (m' ≡ record_bond b m) × (b.comment_id ≡ comment_id) × (b.bond_amount ≡ bond)

abbrev pub if_ok : {A : Type 0} → Result A WalletError → ℕ → ℕ
if_ok (ok _) n = n
if_ok (err _) n = 0

pub Records-Books :
    (comment_id bond : ℕ) (m : UtxoLockManager) (e : ℕ) (x : Done ℕ)
    → Records comment_id bond m x
    → Books m e
    → m.total_locked_balance + bond < 2 ^ 64
    → Books x.0 (e + if_ok x.1 (worth (lookup comment_id m.locked_utxos)))
Records-Books comment_id bond m e (m', err w) r h room = rw r (rw plain h)
  where
    plain : e + 0 ≡ e
    plain = omega arith
Records-Books comment_id bond m e (m', ok tx) (b, made, key, amount) h room = rw made (
    subst (λ k. Books (record_bond b m) (e + worth (lookup k m.locked_utxos))) key
      (record_bond-Books b m e h (omega (arith, amount))))

pub remove_bond-Books :
    (comment_id : ℕ) (m : UtxoLockManager) (e : ℕ) (o : Option LockedUtxo)
    → lookup comment_id m.locked_utxos ≡ o
    → Books m e
    → Books (remove_bond comment_id o m).0 e
remove_bond-Books comment_id m e none found h = h
remove_bond-Books comment_id m e (some b) found h = record {
  keyed = erase-IsMap comment_id m.locked_utxos h.keyed;
  balanced =
      omega
        (arith, h.balanced, h.small, bonds-erase comment_id m.locked_utxos h.keyed, ap worth found);
  small = omega arith;
}

check_bond-Books :
    (answer : Option (List Utxo)) (comment_id : ℕ) (m : UtxoLockManager) (e : ℕ)
    (o : Option LockedUtxo)
    → lookup comment_id m.locked_utxos ≡ o
    → Books m e
    → Books (check_bond answer comment_id o m).0 e
check_bond-Books none comment_id m e o found h = h
check_bond-Books (some []) comment_id m e o found h = h
check_bond-Books (some (u ∷ us)) comment_id m e none found h = h
check_bond-Books (some (u ∷ us)) comment_id m e (some b) found h = record {
  keyed = insert-IsMap comment_id _ m.locked_utxos h.keyed;
  balanced = omega (
    arith,
    h.balanced,
    bonds-insert comment_id (record b { confirmation_height = some 1 }) m.locked_utxos,
    ap worth found,
  );
  small = h.small;
}

check_bonds-Books :
    (clients : ℕ → Client) (pending : Map ℕ) (m : UtxoLockManager) (e : ℕ)
    → Books m e
    → Books (check_bonds clients pending m).0 e
unfolding check_bonds
check_bonds-Books clients [] m e h = h
check_bonds-Books clients ((comment_id, tx) ∷ pending) m e h =
    check_bonds-Books clients pending _ e
      (check_bond-Books (clients comment_id).utxos comment_id m e _ refl h)

pub scan-Books :
    (clients : ℕ → Client) (m : UtxoLockManager) (e : ℕ)
    → Books m e
    → Books (scan_pending_bonds clients m) e
unfolding scan_pending_bonds
scan-Books clients m e h =
    let checked = check_bonds-Books clients m.pending_bonds m e h in
    record { keyed = checked.keyed; balanced = checked.balanced; small = checked.small }
