-- ===== src/Tests/CommentBoard.antt =====
-- A room in which two comment, their bonds' scripts, and a wallet that makes and upgrades a bond.
use kaspa_x.Base.{
  ℕ, suc, ◌+◌, ◌≡◌, ◌≢◌, refl, ap, true, none, some, List, [], ◌∷◌, arith, length, map, ◌==◌,
  if◌then◌else◌, to_le_bytes, length-to_le_bytes,
}
use kaspa_x.Base.Assoc.{insert, erase}
use kaspa_x.Kdapp.Episode.{TxOutputInfo, PayloadMetadata, err, unauthorized}
use kaspa_x.CommentBoard.Commands.{
  BondScriptKind, time_lock, time_or_moderator, ContractCommand, join_room, submit_comment,
}
use kaspa_x.CommentBoard.Scripts.{
  decode_bond_descriptor, encode_bond_descriptor, create_bond_timelock_script,
}
use kaspa_x.CommentBoard.Scripts.Descriptors.{
  decode_bond_descriptor-encode, decode-create_bond_timelock_script,
}
use kaspa_x.CommentBoard.Board.{ContractCommentBoard, post_rollback, join_rollback}
use kaspa_x.CommentBoard.Episode.{initialize, execute, rollback}
use kaspa_x.CommentBoard.Episode.Rules.{Judged, board-Judged}
use kaspa_x.CommentBoard.Episode.History.{
  IsBoard, Happening, commanded, undone, after, after-IsBoard,
}
use kaspa_x.CommentBoard.Episode.Undoing.{rollback-reversed}
use kaspa_x.CommentBoard.Wallet.{Utxo, Client, UtxoLockManager, Transaction, opened}
use kaspa_x.Kdapp.Engine.{erase_all}
use kaspa_x.CommentBoard.Wallet.Bonds.{scan_pending_bonds, check_bonds}
use kaspa_x.CommentBoard.Wallet.Making.{lock_utxo_for_comment, upgrade_bond_to_script_based}
use kaspa_x.CommentBoard.Wallet.Selection.{bond_transaction}
use kaspa_x.CommentBoard.Wallet.Selection.Conservation.{Pays, bond_transaction-Pays}
use kaspa_x.CommentBoard.Wallet.Accounts.{Books}
use kaspa_x.CommentBoard.Wallet.Operations.{lock_utxo, upgrade, apply, excess, apply-Books}

-- A key's 33 bytes.
abbrev serialize : ℕ → List ℕ
serialize k = 2 ∷ to_le_bytes 32 k

length-serialize : (k : ℕ) → length (serialize k) ≡ 33
length-serialize k = ap suc (length-to_le_bytes 32 k)

abbrev policy : BondScriptKind
policy = time_or_moderator 1700000000 2 3

decode_bond_descriptor-encode_example :
    decode_bond_descriptor (encode_bond_descriptor serialize policy 9 (some (5 ∷ 6 ∷ 7 ∷ [])))
    ≡ some policy
decode_bond_descriptor-encode_example =
    decode_bond_descriptor-encode serialize length-serialize policy 9 (some (5 ∷ 6 ∷ 7 ∷ []))
      (omega arith)

decode-create_bond_timelock_script_example :
    decode_bond_descriptor (create_bond_timelock_script serialize 1700000000 9)
    ≢ some (time_lock 1700000000)
decode-create_bond_timelock_script_example =
    decode-create_bond_timelock_script serialize 1700000000 9 (omega arith) (length-serialize 9)
      (omega arith)

abbrev hex : ℕ → List ℕ
hex n = n ∷ []

abbrev output : TxOutputInfo
output = record { value = 200000000; script_version = 0; script_bytes = none }

-- A transaction whose first output carries two coins' worth.
abbrev carrier : PayloadMetadata
carrier = record {
  accepting_hash = 1;
  accepting_daa = 2;
  accepting_time = 1700000000;
  tx_id = 60;
  tx_outputs = some (output ∷ []);
}

abbrev room : ContractCommentBoard
room = initialize 1 (7 ∷ 8 ∷ []) carrier

room-IsBoard : IsBoard room
unfolding initialize
room-IsBoard = record { rising = omega arith; counted = refl; admitted = tt }

-- `hi`, with the first output as its bond.
abbrev bonded : ContractCommand
bonded = submit_comment (104 ∷ 105 ∷ []) 200000000 (some 0) none

board-Judged_example :
    (execute hex bonded none carrier room ≡ (room, err unauthorized))
    × Judged hex 7 carrier room bonded (execute hex bonded (some 7) carrier room)
board-Judged_example = board-Judged hex bonded 7 carrier room

abbrev history : List Happening
history =
    commanded (join_room 5) (some 8) carrier
    ∷ commanded bonded (some 7) carrier
    ∷ undone (post_rollback 200000000 carrier room)
    ∷ undone (post_rollback 200000000 carrier room)
    ∷ commanded bonded (some 8) carrier
    ∷ []

after-IsBoard_example : IsBoard (after hex history room)
unfolding initialize
after-IsBoard_example = after-IsBoard hex history room (omega arith) room-IsBoard

-- The membership stays.
rollback-reversed_example :
    rollback (join_rollback 8 5 carrier) (execute hex (join_room 5) (some 8) carrier room).0
    ≡ (record room { contract = record (room.contract) { room_members = 8 ∷ [] } }, true)
unfolding initialize execute
rollback-reversed_example =
    rollback-reversed hex (join_room 5) 8 carrier room (join_rollback 8 5 carrier) room-IsBoard
      (omega arith, refl) refl

abbrev coin : ℕ → ℕ → Utxo
coin i amount = record { outpoint = (i, 0); amount = amount }

abbrev coins : List Utxo
coins = coin 1 90000 ∷ coin 2 20000 ∷ coin 3 30000 ∷ []

-- The two smaller coins pay for the bond, and 5000 are left.
bond_transaction-Pays_example :
    Pays 40000
      (1 ∷ [])
      (9 ∷ [])
      (7 ∷ [])
      coins
      (bond_transaction 40000 (1 ∷ []) (9 ∷ []) (7 ∷ []) coins)
bond_transaction-Pays_example =
    bond_transaction-Pays 40000 (1 ∷ []) (9 ∷ []) (7 ∷ []) coins (omega arith) (omega arith)

abbrev node : Client
node = record { submit = λ tx k. none; utxos = some coins }

abbrev tx_id : Transaction → ℕ
tx_id tx = length tx.inputs + length tx.payload

abbrev wallet : UtxoLockManager
wallet = apply (9 ∷ []) 9 serialize tx_id (lock_utxo node 100 4 40000 3600) (opened coins)

-- The node answers about the bond of comment 4, and fails on that of comment 5.
abbrev answers : ℕ → Client
answers id = if id == 4 then node else record node { utxos = none }

abbrev two_bonds : UtxoLockManager
two_bonds = apply (9 ∷ []) 9 serialize tx_id (lock_utxo node 200 5 20000 3600) wallet

one_confirmed : map (λ p. p.0) (scan_pending_bonds answers two_bonds).pending_bonds ≡ 5 ∷ []
unfolding scan_pending_bonds check_bonds erase_all lock_utxo_for_comment insert erase
one_confirmed = refl

opened-Books : Books (opened coins) 0
opened-Books = record { keyed = tt; balanced = omega arith; small = omega arith }

wallet-Books :
    Books wallet
      (0 + excess (9 ∷ []) 9 serialize tx_id (lock_utxo node 100 4 40000 3600) (opened coins))
wallet-Books =
    apply-Books (9 ∷ []) 9 serialize tx_id (lock_utxo node 100 4 40000 3600) (opened coins) 0
      opened-Books (omega arith)

nothing_replaced :
    excess (9 ∷ []) 9 serialize tx_id (lock_utxo node 100 4 40000 3600) (opened coins) ≡ 0
unfolding lock_utxo_for_comment
nothing_replaced = refl

-- After the upgrade the balance has the bond twice.
counted_twice : excess (9 ∷ []) 9 serialize tx_id (upgrade node 200 4 none none) wallet ≡ 40000
unfolding lock_utxo_for_comment upgrade_bond_to_script_based insert
counted_twice = refl

apply-Books_example :
    Books (apply (9 ∷ []) 9 serialize tx_id (upgrade node 200 4 none none) wallet) (
      0
      + excess (9 ∷ []) 9 serialize tx_id (lock_utxo node 100 4 40000 3600) (opened coins)
      + excess (9 ∷ []) 9 serialize tx_id (upgrade node 200 4 none none) wallet)
unfolding lock_utxo_for_comment insert
apply-Books_example =
    apply-Books (9 ∷ []) 9 serialize tx_id (upgrade node 200 4 none none) wallet
      (0 + excess (9 ∷ []) 9 serialize tx_id (lock_utxo node 100 4 40000 3600) (opened coins))
      wallet-Books (omega arith)
