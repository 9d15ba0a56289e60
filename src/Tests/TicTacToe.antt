-- ===== src/Tests/TicTacToe.antt =====
-- A game of tic-tac-toe.
use kaspa_x.Base.{ℕ, refl, none, some, [], ◌∷◌, arith}
use kaspa_x.Kdapp.Episode.{PayloadMetadata}
use kaspa_x.TicTacToe.Grid.{cell, set_cell, marks, weight}
use kaspa_x.TicTacToe.Game.{TicTacToe, TttMove, execute, initialize, episode}
use kaspa_x.TicTacToe.Marks.{Game}
use kaspa_x.TicTacToe.Play.{Outcome, execute-Outcome}

abbrev metadata : PayloadMetadata
metadata = record {
  accepting_hash = 1;
  accepting_daa = 2;
  accepting_time = 30;
  tx_id = 4;
  tx_outputs = none;
}

abbrev move : ℕ → ℕ → TttMove
move r c = record { row = r; col = c }

abbrev then_move : TicTacToe → ℕ × ℕ × ℕ → TicTacToe
then_move g (player, r, c) = (episode.execute (move r c) (some player) metadata g).0

-- Six moves of 7 and 8, so that the next one takes the oldest mark off the board.
abbrev six_moves : TicTacToe
six_moves =
    then_move
      (then_move
        (then_move
          (then_move (then_move (then_move (initialize (7 ∷ 8 ∷ []) metadata) (7, 0, 0)) (8, 1, 0))
            (7, 1, 1))
          (8, 2, 0))
        (7, 0, 2))
      (8, 1, 2)

six_moves-Game : Game 7 8 six_moves
unfolding execute initialize cell set_cell marks weight
six_moves-Game = record {
  two = refl;
  turn = omega arith;
  size = omega arith;
  placed = ground arith;
  total = refl;
}

execute-Outcome_example : Outcome 7 8 six_moves (execute (move 2 2) (some 7) metadata six_moves)
execute-Outcome_example = execute-Outcome six_moves-Game (move 2 2) (some 7) metadata
