-- ===== src/Tests/Engine.antt =====
-- The engine running tic-tac-toe over a small concrete codec.
use kaspa_x.Base.{
  ℕ, zero, suc, ◌+◌, ◌*◌, ◌≡◌, refl, Option, none, some, List, [], ◌∷◌, arith, ◌==◌, length,
}
use kaspa_x.Base.Assoc.{lookup, insert}
use kaspa_x.Kdapp.Episode.{PayloadMetadata}
use kaspa_x.Kdapp.Engine.{
  Engine, EpisodeWrapper, EpisodeMessage, new_episode, signed_command, revert, Codec, EngineMsg,
  blk_accepted, blk_reverted, exit, AssociatedTx, new, filter_old_episodes, handle_message,
  on_blk_accepted, on_blk_reverted, start, episode_id,
}
use kaspa_x.Kdapp.Engine.Invariant.{Inv}
use kaspa_x.Kdapp.Engine.Run.{AdmitsTxs, new-Inv, on_blk_accepted-Inv, Returns, start-Returns}
use kaspa_x.Kdapp.Engine.Blocks.{EndsIn, on_blk_reverted-on_blk_accepted}
use kaspa_x.Kdapp.Engine.Guards.{Agrees, handle_message-Agrees}
use kaspa_x.Kdapp.Engine.Authority.{AllAuthorized, handle_message-AllAuthorized}
use kaspa_x.Kdapp.Engine.Filter.{filter_old_episodes_lem}
use kaspa_x.TicTacToe.Game.{TicTacToe, TttMove, TttRollback, episode, initialize, execute, play}
use kaspa_x.TicTacToe.Grid.{cell, set_cell}
use kaspa_x.TicTacToe.Marks.{IsGame}
use kaspa_x.TicTacToe.Play.{IsPair, game-IsReversible}

abbrev move : ℕ → ℕ → TttMove
move r c = record { row = r; col = c }

-- A payload is a tag and its fields, one number each; a signature is the message plus the key.
abbrev from_slice : List ℕ → Option (EpisodeMessage TttMove)
from_slice (zero ∷ id ∷ p ∷ q ∷ []) = some (new_episode id (p ∷ q ∷ []))
from_slice (suc zero ∷ id ∷ r ∷ c ∷ pk ∷ sig ∷ []) = some (signed_command id (move r c) pk sig)
from_slice (suc (suc zero) ∷ id ∷ []) = some (revert id)
from_slice _ = none

abbrev codec : Codec TttMove
codec = record {
  from_slice = from_slice;
  to_message = λ m. m.row * 3 + m.col;
  verify_ecdsa = λ message signature key. signature == message + key;
}

-- A game between 7 and 8, two moves, a forged one, a payload that does not parse, a revert from
-- outside.
abbrev txs : List AssociatedTx
txs =
    (1, 0 ∷ 5 ∷ 7 ∷ 8 ∷ [], none)
    ∷ (2, 1 ∷ 5 ∷ 1 ∷ 1 ∷ 7 ∷ 11 ∷ [], none)
    ∷ (3, 1 ∷ 5 ∷ 0 ∷ 0 ∷ 8 ∷ 8 ∷ [], none)
    ∷ (4, 1 ∷ 5 ∷ 2 ∷ 0 ∷ 7 ∷ 99 ∷ [], none)
    ∷ (5, 9 ∷ 9 ∷ [], none)
    ∷ (6, 2 ∷ 5 ∷ [], none)
    ∷ []

abbrev started : Engine TicTacToe TttRollback
started = new

abbrev txs_admitted : AdmitsTxs IsPair codec txs
txs_admitted = ((7, 8, refl), (tt, (tt, (tt, (tt, (tt, tt))))))

abbrev handlers : List ℕ
handlers = 0 ∷ 1 ∷ []

abbrev one_block : Engine TicTacToe TttRollback
one_block = (on_blk_accepted episode codec handlers 100 1000 50 txs started).0

one_block-Inv : Inv episode IsGame one_block
one_block-Inv =
    on_blk_accepted-Inv game-IsReversible codec handlers 100 1000 50 txs started txs_admitted
      (new-Inv episode IsGame)

-- The block's two moves are played and can be unwound, and both handlers have heard of each step.
one_block_stack :
    (w : EpisodeWrapper TicTacToe TttRollback) × (lookup 5 one_block.episodes ≡ some w)
    × (length w.rollback_stack ≡ 2)
    × (w.episode.move_history ≡ (1, 1) ∷ (0, 0) ∷ [])
unfolding on_blk_accepted insert initialize execute play cell set_cell new
one_block_stack = (_, refl, refl, refl)

abbrev more_txs : List AssociatedTx
more_txs = (7, 1 ∷ 5 ∷ 2 ∷ 2 ∷ 7 ∷ 15 ∷ [], none) ∷ (8, 0 ∷ 6 ∷ 3 ∷ 4 ∷ [], none) ∷ []

on_blk_reverted-on_blk_accepted_example :
    EndsIn game-IsReversible codec handlers
      (on_blk_reverted episode codec handlers 101
        (on_blk_accepted episode codec handlers 101 1001 51 more_txs one_block).0)
      (filter_old_episodes 1001 one_block)
unfolding on_blk_accepted insert new execute initialize cell set_cell
on_blk_reverted-on_blk_accepted_example =
    on_blk_reverted-on_blk_accepted game-IsReversible codec handlers 101 1001 51 more_txs one_block
      (tt, ((3, 4, refl), tt)) one_block-Inv refl

abbrev messages : List EngineMsg
messages =
    blk_accepted 100 1000 50 txs
    ∷ blk_accepted 101 1001 51 more_txs
    ∷ blk_reverted 101
    ∷ blk_reverted 77
    ∷ blk_reverted 100
    ∷ exit
    ∷ []

start-Returns_example :
    Returns game-IsReversible codec handlers (start episode codec handlers messages started)
start-Returns_example =
    start-Returns game-IsReversible codec handlers messages started
      (txs_admitted, ((tt, ((3, 4, refl), tt)), tt)) (new-Inv episode IsGame)

handle_message-Agrees_example :
    Agrees episode codec handlers 5 one_block
      (handle_message episode codec handlers
        (new_episode 6 (3 ∷ 4 ∷ []))
        (record {
          accepting_hash = 1;
          accepting_daa = 2;
          accepting_time = 3;
          tx_id = 4;
          tx_outputs = none;
        })
        one_block).0
unfolding episode_id
handle_message-Agrees_example =
    handle_message-Agrees episode codec handlers (new_episode 6 (3 ∷ 4 ∷ [])) 5 _ one_block
      (omega arith)

filter_old_episodes_lem_example : lookup 5 (filter_old_episodes 3000000 one_block).episodes ≡ none
unfolding on_blk_accepted insert new execute initialize cell set_cell
filter_old_episodes_lem_example =
    (filter_old_episodes_lem one_block-Inv 3000000 5 1000 refl (omega arith)).0

-- The next move of 7, signed, in the game that the block leaves.
abbrev carrier : PayloadMetadata
carrier = record {
  accepting_hash = 101;
  accepting_daa = 1001;
  accepting_time = 51;
  tx_id = 9;
  tx_outputs = none;
}

handle_message-AllAuthorized_example :
    AllAuthorized episode codec handlers
      (signed_command 5 (move 2 2) 7 15)
      (handle_message episode codec handlers (signed_command 5 (move 2 2) 7 15) carrier one_block).2
handle_message-AllAuthorized_example =
    handle_message-AllAuthorized episode codec handlers (signed_command 5 (move 2 2) 7 15) carrier
      one_block
