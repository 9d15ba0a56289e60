-- ===== src/Tests/McpServer.antt =====
-- A game of the server in which the seventh mark drives out the first.
use kaspa_x.Base.{◌≡◌, refl, none, some, [], ◌∷◌, length}
use kaspa_x.Kdapp.Episode.{PayloadMetadata}
use kaspa_x.TicTacToe.Grid.{cell, set_cell}
use kaspa_x.McpServer.Game.{TicTacToeEpisode, move, initialize, execute, symbol_at}
use kaspa_x.McpServer.Window.{IsWindow}
use kaspa_x.McpServer.Contract.{Outcome, execute-Window, IsWindow-IsReversible}

abbrev md : PayloadMetadata
md = record {
  accepting_hash = 1;
  accepting_daa = 2;
  accepting_time = 30;
  tx_id = 4;
  tx_outputs = none;
}

-- The participants 7 and 8 play in turn.
abbrev played : TicTacToeEpisode
played =
    let s1 = (execute (move 0 0 0) (some 7) md (initialize (7 ∷ 8 ∷ []) md)).0 in
    let s2 = (execute (move 0 1 1) (some 8) md s1).0 in
    let s3 = (execute (move 0 2 0) (some 7) md s2).0 in
    let s4 = (execute (move 1 0 1) (some 8) md s3).0 in
    let s5 = (execute (move 1 1 0) (some 7) md s4).0 in (execute (move 1 2 1) (some 8) md s5).0

full : length played.move_history ≡ 6
unfolding execute initialize cell set_cell
full = refl

driven_out : symbol_at (execute (move 2 0 0) (some 7) md played).0.board 0 0 ≡ 0
unfolding execute initialize cell set_cell
driven_out = refl

played-IsWindow : IsWindow played
played-IsWindow =
    let keep = IsWindow-IsReversible.execute-Valid in
    keep (move 1 2 1) (some 8) md _ (
      keep (move 1 1 0) (some 7) md _ (
        keep (move 1 0 1) (some 8) md _ (
          keep (move 0 2 0) (some 7) md _ (
            keep (move 0 1 1) (some 8) md _ (
              keep (move 0 0 0) (some 7) md _
                (IsWindow-IsReversible.initialize-Valid (7 ∷ 8 ∷ []) md tt))))))

execute-Window_example : Outcome played (execute (move 2 0 0) (some 7) md played)
execute-Window_example = execute-Window (move 2 0 0) (some 7) md played played-IsWindow
