-- ===== src/TicTacToe/Game.antt =====
-- game.rs: the episode. A panic is `none`; the log lines are left out.
use kaspa_x.Base.{
  ℕ, ◌+◌, ◌%◌, Bool, true, false, ◌||◌, ◌&&◌, Option, none, some, List, [], ◌∷◌, ◌++◌,
  if◌then◌else◌, leb, ◌==◌, length, get_elem?, is_some,
}
use kaspa_x.Kdapp.Episode.{
  PayloadMetadata, EpisodeError, unauthorized, invalid_command, Result, ok, err, Episode,
}
use kaspa_x.TicTacToe.Grid.{Array3, Board, empty_board, cell, set_cell}

pub data TttError : Type 0 where
  out_of_bounds occupied not_players_turn game_over no_new_players unauthorized_participant :
      TttError

pub record TttMove : Type 0 where
  pub row : ℕ
  pub col : ℕ

pub record TttRollback : Type 0 where
  pub mv : TttMove
  pub removed_mv : Option TttMove
  pub prev_timestamp : ℕ

pub data TttGameStatus : Type 0 where
  in_progress winner : ℕ → TttGameStatus
  draw : TttGameStatus

pub record TttState : Type 0 where
  pub board : Board
  pub first_player : ℕ
  pub status : TttGameStatus

-- The head of `move_history` is the front of the deque.
pub record TicTacToe : Type 0 where
  pub board : Board
  pub players : List ℕ
  pub current_index : ℕ
  pub timestamp : ℕ
  pub move_history : List (ℕ × ℕ)

unfoldable pub initialize : List ℕ → PayloadMetadata → TicTacToe
initialize participants metadata = record {
  board = empty_board;
  players = participants;
  current_index = 0;
  timestamp = metadata.accepting_time;
  move_history = [];
}

-- `(self.current_index + 1) % self.players.len()`; with no players the code panics before.
abbrev pub next_index : TicTacToe → ℕ
next_index g = (g.current_index + 1) % length g.players

-- `if self.move_history.len() == 6 { … pop_front … }`, on the history.
abbrev pub evict : TicTacToe → List (ℕ × ℕ) → TicTacToe × Option TttMove
evict g [] = (g, none)
evict g ((r, c) ∷ rest) = (
  record g { board = set_cell g.board r c none; move_history = rest },
  some (record { row = r; col = c }),
)

abbrev pub make_room : TicTacToe → TicTacToe × Option TttMove
make_room g = if length g.move_history == 6 then evict g g.move_history else (g, none)

abbrev pub place : TttMove → ℕ → ℕ → TicTacToe → TicTacToe
place mv player time g = record g {
  board = set_cell g.board mv.row mv.col (some player);
  move_history = g.move_history ++ (mv.row, mv.col) ∷ [];
  timestamp = time;
  current_index = next_index g;
}

unfoldable pub play : TttMove → ℕ → PayloadMetadata → TicTacToe → TicTacToe × TttRollback
play mv player metadata g =
    let (g', removed) = make_room g in
    (
      place mv player metadata.accepting_time g',
      record { mv = mv; removed_mv = removed; prev_timestamp = g.timestamp },
    )

-- The checks after the player's: the bounds, and the cell, whose read cannot panic behind them.
abbrev pub checked_play :
    TttMove
    → ℕ
    → PayloadMetadata
    → TicTacToe
    → Option (Option ℕ)
    → Option (TicTacToe × Result TttRollback (EpisodeError TttError))
checked_play mv player metadata g none = none
checked_play mv player metadata g (some (some _)) = some (g, err (invalid_command occupied))
checked_play mv player metadata g (some none) =
    let (g', rb) = play mv player metadata g in some (g', ok rb)

abbrev pub execute_for :
    TttMove
    → ℕ
    → PayloadMetadata
    → TicTacToe
    → Option ℕ
    → Option (TicTacToe × Result TttRollback (EpisodeError TttError))
execute_for mv player metadata g none = none
execute_for mv player metadata g (some current) =
    if player == current
    then (if leb 3 mv.row || leb 3 mv.col
        then some (g, err (invalid_command out_of_bounds))
        else checked_play mv player metadata g (cell g.board mv.row mv.col))
    else some (g, err (invalid_command not_players_turn))

unfoldable pub execute :
    TttMove
    → Option ℕ
    → PayloadMetadata
    → TicTacToe
    → Option (TicTacToe × Result TttRollback (EpisodeError TttError))
unfolding play
execute mv none metadata g = some (g, err unauthorized)
execute mv (some player) metadata g =
    execute_for mv player metadata g (get_elem? g.players g.current_index)

-- `pop_back`.
abbrev pub pop_back {ℓ} : {A : Type ℓ} → List A → List A
pop_back [] = []
pop_back (x ∷ []) = []
pop_back (x ∷ y ∷ xs) = x ∷ pop_back (y ∷ xs)

abbrev pub unplace : TttRollback → TicTacToe → TicTacToe
unplace rb g = record g {
  timestamp = rb.prev_timestamp;
  board = set_cell g.board rb.mv.row rb.mv.col none;
  current_index = next_index g;
  move_history = pop_back g.move_history;
}

-- The removed mark comes back as the current player's.
abbrev pub restore : Option TttMove → Option ℕ → TicTacToe → Option (TicTacToe × Bool)
restore none current g = some (g, true)
restore (some m) none g = none
restore (some m) (some player) g = elim (cell g.board m.row m.col) [
  | none ↦ none
  | some _ ↦ some (
    record g {
      board = set_cell g.board m.row m.col (some player);
      move_history = (m.row, m.col) ∷ g.move_history;
    },
    true,
  )
]

abbrev pub rollback_at : TttRollback → TicTacToe → Option (Option ℕ) → Option (TicTacToe × Bool)
rollback_at rb g none = none
rollback_at rb g (some none) = some (g, false)
rollback_at rb g (some (some _)) =
    if length g.players == 0
    then none
    else (let g' = unplace rb g in restore rb.removed_mv (get_elem? g'.players g'.current_index) g')

unfoldable pub rollback : TttRollback → TicTacToe → Option (TicTacToe × Bool)
rollback rb g = rollback_at rb g (cell g.board rb.mv.row rb.mv.col)

-- The trait's instance. On the states that a game reaches nothing panics; elsewhere a panic is shown
-- as a refusal that changes nothing.
abbrev pub or_refuse :
    TicTacToe
    → Option (TicTacToe × Result TttRollback (EpisodeError TttError))
    → TicTacToe × Result TttRollback (EpisodeError TttError)
or_refuse g none = (g, err unauthorized)
or_refuse g (some x) = x

abbrev pub or_false : TicTacToe → Option (TicTacToe × Bool) → TicTacToe × Bool
or_false g none = (g, false)
or_false g (some x) = x

abbrev pub episode : Episode TicTacToe TttMove TttRollback TttError
episode = record {
  initialize = initialize;
  execute = λ mv auth metadata g. or_refuse g (execute mv auth metadata g);
  rollback = λ rb g. or_false g (rollback rb g);
}

abbrev pub Line : Type 0
Line = (ℕ × ℕ) × (ℕ × ℕ) × (ℕ × ℕ)

abbrev pub lines : List Line
lines =
    ((0, 0), (0, 1), (0, 2))
    ∷ ((1, 0), (1, 1), (1, 2))
    ∷ ((2, 0), (2, 1), (2, 2))
    ∷ ((0, 0), (1, 0), (2, 0))
    ∷ ((0, 1), (1, 1), (2, 1))
    ∷ ((0, 2), (1, 2), (2, 2))
    ∷ ((0, 0), (1, 1), (2, 2))
    ∷ ((0, 2), (1, 1), (2, 0))
    ∷ []

-- `b[r][c]` at a place of the board, all of which are in bounds.
abbrev pub mark : Board → ℕ × ℕ → Option ℕ
mark b (r, c) = elim (cell b r c) [ none ↦ none | some v ↦ v ]

abbrev pub same_mark : Option ℕ → Option ℕ → Option ℕ → Option ℕ
same_mark (some p1) (some p2) (some p3) = if p1 == p2 && p2 == p3 then some p1 else none
same_mark _ _ _ = none

-- The first line that one player owns.
abbrev pub or_else {ℓ} : {A : Type ℓ} → Option A → Option A → Option A
or_else none y = y
or_else (some x) y = some x

unfoldable pub first_owned : Board → List Line → Option ℕ
first_owned b [] = none
first_owned b ((x, y, z) ∷ rest) =
    or_else (same_mark (mark b x) (mark b y) (mark b z)) (first_owned b rest)

unfoldable pub check_winner : TicTacToe → Option ℕ
check_winner g = first_owned g.board lines

abbrev pub full_row : Array3 (Option ℕ) → Bool
full_row a = is_some a.x0 && (is_some a.x1 && is_some a.x2)

unfoldable pub is_draw : TicTacToe → Bool
is_draw g = full_row g.board.x0 && (full_row g.board.x1 && full_row g.board.x2)

abbrev pub poll_status : TicTacToe → Option ℕ → Option ℕ → Option TttGameStatus
poll_status g (some w) current = some (winner w)
poll_status g none current =
    if is_draw g then some draw else elim current [ none ↦ none | some p ↦ some (in_progress p) ]

abbrev pub polled : TicTacToe → Option ℕ → Option TttGameStatus → Option TttState
polled g none _ = none
polled g (some first) none = none
polled g (some first) (some s) = some (record { board = g.board; first_player = first; status = s })

-- `none`: there are no players, or the turn is none of theirs.
unfoldable pub poll : TicTacToe → Option TttState
poll g =
    polled g (get_elem? g.players 0)
      (poll_status g (check_winner g) (get_elem? g.players g.current_index))
