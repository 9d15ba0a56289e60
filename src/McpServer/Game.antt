-- ===== src/McpServer/Game.antt =====
-- kdapp-mcp-server/src/state.rs: the game of tic-tac-toe that the server runs.
-- The head of `move_history` is the front of the deque. A mark is 1 or 2, an empty place 0.
use kaspa_x.Base.{
  ℕ, Bool, true, false, not, ◌&&◌, ◌||◌, Option, none, some, List, [], ◌∷◌, ◌++◌, ltb, leb, ◌==◌,
  if◌then◌else◌, length, get_elem?,
}
use kaspa_x.Kdapp.Episode.{
  PayloadMetadata, EpisodeError, unauthorized, invalid_command, Result, ok, err, Episode,
}
use kaspa_x.TicTacToe.Grid.{Array3, cell, set_cell}
use kaspa_x.TicTacToe.Game.{pop_back}

pub data Player : Type 0 where
  x o : Player

abbrev pub Symbols : Type 0
Symbols = Array3 (Array3 ℕ)

pub record TicTacToeEpisode : Type 0 where
  pub board : Symbols
  pub current : Player
  pub participants : List ℕ
  pub move_history : List (ℕ × ℕ)

pub data TicTacToeError : Type 0 where
  out_of_bounds cell_occupied wrong_turn : TicTacToeError

-- `Move`, the only command: the row, the column and the player.
pub data TttCommand : Type 0 where
  move : ℕ → ℕ → ℕ → TttCommand

pub record TttRemoved : Type 0 where
  pub row : ℕ
  pub col : ℕ
  pub symbol : ℕ

pub record TttRollback : Type 0 where
  pub row : ℕ
  pub col : ℕ
  pub prev_player : ℕ
  pub removed : Option TttRemoved

abbrev pub Executed : Type 0
Executed = TicTacToeEpisode × Result TttRollback (EpisodeError TicTacToeError)

abbrev pub blank : Array3 ℕ
blank = record { x0 = 0; x1 = 0; x2 = 0 }

unfoldable pub initialize : List ℕ → PayloadMetadata → TicTacToeEpisode
initialize participants md = record {
  board = record { x0 = blank; x1 = blank; x2 = blank };
  current = x;
  participants = participants;
  move_history = [];
}

-- `board[r][c]`, for places in bounds: those of a move behind the check, and those of the history.
abbrev pub symbol_of : Option ℕ → ℕ
symbol_of none = 0
symbol_of (some v) = v

abbrev pub symbol_at : Symbols → ℕ → ℕ → ℕ
symbol_at b r c = symbol_of (cell b r c)

abbrev pub want : Player → ℕ
want x = 0
want o = 1

abbrev pub player_of : ℕ → Player
player_of player = if player == 0 then x else o

-- The oldest mark goes when there are six.
abbrev pub evict : List (ℕ × ℕ) → TicTacToeEpisode → TicTacToeEpisode × Option TttRemoved
evict [] s = (s, none)
evict ((r, c) ∷ rest) s =
    if symbol_at s.board r c == 0 then (record s { move_history = rest }, none) else (
      record s { board = set_cell s.board r c 0; move_history = rest },
      some (record { row = r; col = c; symbol = symbol_at s.board r c }),
    )

abbrev pub make_room : TicTacToeEpisode → TicTacToeEpisode × Option TttRemoved
make_room s = if length s.move_history == 6 then evict s.move_history s else (s, none)

abbrev pub place : ℕ → ℕ → ℕ → TicTacToeEpisode → TicTacToeEpisode
place row col player s = record s {
  board = set_cell s.board row col (if player == 0 then 1 else 2);
  move_history = s.move_history ++ (row, col) ∷ [];
  current = if player == 0 then o else x;
}

unfoldable pub play : ℕ → ℕ → ℕ → TicTacToeEpisode → TicTacToeEpisode × TttRollback
play row col player s =
    let (s', removed) = make_room s in
    (
      place row col player s',
      record { row = row; col = col; prev_player = want s.current; removed = removed },
    )

abbrev pub played : TicTacToeEpisode × TttRollback → Executed
played (s, rb) = (s, ok rb)

-- The authorization, against the participant that plays.
abbrev pub play_as : ℕ → ℕ → ℕ → TicTacToeEpisode → Option ℕ → Option ℕ → Executed
play_as row col player s none designated = (s, err unauthorized)
play_as row col player s (some pk) none = (s, err unauthorized)
play_as row col player s (some pk) (some expected) =
    if pk == expected then played (play row col player s) else (s, err unauthorized)

unfoldable pub execute : TttCommand → Option ℕ → PayloadMetadata → TicTacToeEpisode → Executed
unfolding play
execute (move row col player) auth md s =
    if ltb 2 row || ltb 2 col
    then (s, err (invalid_command out_of_bounds))
    else if not (symbol_at s.board row col == 0)
    then (s, err (invalid_command cell_occupied))
    else if not (player == want s.current)
    then (s, err (invalid_command wrong_turn))
    else play_as row col player s auth (get_elem? s.participants (if player == 0 then 0 else 1))

abbrev pub restore : Option TttRemoved → TicTacToeEpisode → TicTacToeEpisode
restore none s = s
restore (some rem) s =
    if leb rem.row 2 && leb rem.col 2
    then record s {
      board = set_cell s.board rem.row rem.col rem.symbol;
      move_history = (rem.row, rem.col) ∷ s.move_history;
    }
    else s

abbrev pub unplace : TttRollback → TicTacToeEpisode → TicTacToeEpisode
unplace rb s = record s {
  board = set_cell s.board rb.row rb.col 0;
  move_history = pop_back s.move_history;
}

abbrev pub turn_back : ℕ → TicTacToeEpisode → TicTacToeEpisode
turn_back prev s = record s { current = player_of prev }

unfoldable pub rollback : TttRollback → TicTacToeEpisode → TicTacToeEpisode × Bool
rollback rb s =
    if ltb 2 rb.row || ltb 2 rb.col
    then (s, false)
    else (turn_back rb.prev_player (restore rb.removed (unplace rb s)), true)

abbrev pub episode : Episode TicTacToeEpisode TttCommand TttRollback TicTacToeError
episode = record { initialize = initialize; execute = execute; rollback = rollback }
