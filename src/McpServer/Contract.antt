-- ===== src/McpServer/Contract.antt =====
-- The engine's contract for the server's game.
use kaspa_x.Base.{
  ℕ, ◌<◌, ◌≡◌, refl, sym, ap, ◌∙◌, subst, inl, inr, Bool-cases, Bool, true, false, Option, none,
  some, List, [], ◌∷◌, arith, ◌==◌, ltb, ◌||◌, not, get_elem?, length-append, if◌then◌else◌,
}
use kaspa_x.Kdapp.Episode.{PayloadMetadata, EpisodeError, ok, err, IsReversible}
use kaspa_x.TicTacToe.Grid.{
  cell, set_cell, weight, cell-set_self, cell_below, weight-set, set-set, set_same,
}
use kaspa_x.TicTacToe.Undo.{pop_back-append}
use kaspa_x.McpServer.Game.{
  Player, x, o, TicTacToeEpisode, TicTacToeError, TttCommand, move, TttRollback, Executed,
  symbol_at, symbol_of, want, make_room, place, play, play_as, execute, restore, unplace, turn_back,
  rollback, initialize, episode,
}
use kaspa_x.McpServer.Window.{
  IsWindow, sign, Apart-of_blank, Marked-set, Marked-append, Roomy, make_room-Roomy,
  restore-current, player_of-want,
}

module _ (row col player : ℕ) (row_in : row < 3) (col_in : col < 3) (s : TicTacToeEpisode)
    (w : IsWindow s) (free : cell s.board row col ≡ some 0) where
  abbrev room : TicTacToeEpisode
  room = (make_room s).0

  abbrev mark : ℕ
  mark = if player == 0 then 1 else 2

  sign-mark : sign mark ≡ 1
  sign-mark = elim (Bool-cases (player == 0)) [
    | inl zeroth ↦ rw zeroth refl
    | inr other ↦ rw other refl
  ]

  play-IsWindow : IsWindow (play row col player s).0
  unfolding play
  play-IsWindow =
      let roomy = make_room-Roomy row col s w free in
      let apart = Apart-of_blank room.board row col room.move_history roomy.marked roomy.blank in
      record {
        size = omega (arith, length-append room.move_history ((row, col) ∷ []), roomy.size);
        marked =
            Marked-append (set_cell room.board row col mark) row col mark room.move_history
              (Marked-set room.board row col mark room.move_history roomy.marked apart) apart row_in
              col_in (cell-set_self room.board row col mark 0 roomy.blank) (ground arith);
        total =
            let one : sign mark ≡ 1 = sign-mark in
            omega (
              arith,
              length-append room.move_history ((row, col) ∷ []),
              weight-set sign room.board row col mark 0 roomy.blank,
              roomy.total,
            );
      }

  rollback-play_back : rollback (play row col player s).1 (play row col player s).0 ≡ (s, true)
  unfolding play rollback
  rollback-play_back = rw inside (
      ap (λ t. (t, true))
        (ap (λ t. turn_back (want s.current) (restore (make_room s).1 t)) unplaced
          ∙ ap (turn_back (want s.current)) (restore-current (make_room s).1 next room)
          ∙ ap (λ t. turn_back (want s.current) (record t { current = next })) roomy.restored
          ∙ (λ i. record s { current = player_of-want s.current i })))
    where
      next : Player
      next = if player == 0 then o else x

      roomy : Roomy row col s (make_room s)
      roomy = make_room-Roomy row col s w free

      inside : (ltb 2 row || ltb 2 col) ≡ false
      inside = ground (arith, row_in, col_in)

      unplaced :
          unplace
            (record {
              row = row;
              col = col;
              prev_player = want s.current;
              removed = (make_room s).1;
            })
            (place row col player room)
          ≡ record room { current = next }
      unplaced = λ i. record room {
        current = next;
        board = (set-set room.board row col mark 0 ∙ set_same room.board row col 0 roomy.blank) i;
        move_history = pop_back-append room.move_history (row, col) i;
      }

-- A refused move changes nothing; an accepted one keeps the window, and its rollback object leads back.
abbrev pub Outcome : TicTacToeEpisode → Executed → Type 0
Outcome s (s', err _) = s' ≡ s
Outcome s (s', ok rb) = IsWindow s' × (rollback rb s' ≡ (s, true))

if-Outcome :
    (s : TicTacToeEpisode) (b : Bool) (y z : Executed)
    → (b ≡ true → Outcome s y)
    → (b ≡ false → Outcome s z)
    → Outcome s (if b then y else z)
if-Outcome s true y z f g = f refl
if-Outcome s false y z f g = g refl

-- In a game whose history lists the marks on the board, each once, six at most: a move by anybody,
-- refused, changes nothing; accepted, it leaves such a game again, and its rollback object gives back
-- exactly the board, the turn and the history from before.
pub execute-Window :
    (c : TttCommand) (auth : Option ℕ) (md : PayloadMetadata) (s : TicTacToeEpisode)
    → IsWindow s
    → Outcome s (execute c auth md s)
unfolding execute
execute-Window (move row col player) auth md s w =
    if-Outcome s (ltb 2 row || ltb 2 col) _ _ (λ _. refl)
      λ inside.
        if-Outcome s (not (symbol_at s.board row col == 0)) _ _ (λ _. refl)
          λ vacant.
            if-Outcome s (not (player == want s.current)) _ _ (λ _. refl)
              λ turn.
                by_whom inside vacant auth (get_elem? s.participants (if player == 0 then 0 else 1))
  where
    free :
        row < 3
        → col < 3
        → not (symbol_at s.board row col == 0) ≡ false
        → cell s.board row col ≡ some 0
    free row_in col_in vacant =
        let (v, found) = cell_below s.board row col row_in col_in in
        found ∙ ap some (ground (arith, ap (λ k. not (symbol_of k == 0)) (sym found) ∙ vacant))

    by_whom :
        (ltb 2 row || ltb 2 col) ≡ false
        → not (symbol_at s.board row col == 0) ≡ false
        → (auth designated : Option ℕ) → Outcome s (play_as row col player s auth designated)
    by_whom inside vacant none designated = refl
    by_whom inside vacant (some pk) none = refl
    by_whom inside vacant (some pk) (some expected) =
        let row_in : row < 3 = ground arith in
        let col_in : col < 3 = ground arith in
        let empty = free row_in col_in vacant in
        if-Outcome s (pk == expected) _ _
          (λ _. (
            play-IsWindow row col player row_in col_in s w empty,
            rollback-play_back row col player row_in col_in s w empty,
          ))
          (λ _. refl)

valid_of : {s : TicTacToeEpisode} → IsWindow s → (r : Executed) → Outcome s r → IsWindow r.0
valid_of w (s', err _) out = subst IsWindow (sym out) w
valid_of w (s', ok rb) out = out.0

undo_of :
    (s : TicTacToeEpisode) (r : Executed) (rb : TttRollback)
    → Outcome s r
    → r.1 ≡ ok rb
    → rollback rb r.0 ≡ (s, true)
undo_of s (s', err _) rb out e = cc
undo_of s (s', ok rb') rb out e =
    let same : rb' ≡ rb = cc in subst (λ z. rollback z s' ≡ (s, true)) same out.1

atomic_of :
    (s : TicTacToeEpisode) (r : Executed) (e : EpisodeError TicTacToeError)
    → Outcome s r
    → r.1 ≡ err e
    → r.0 ≡ s
atomic_of s (s', err _) e out same = out
atomic_of s (s', ok rb) e out same = cc

initialize-IsWindow : (ps : List ℕ) (md : PayloadMetadata) → IsWindow (initialize ps md)
unfolding initialize weight
initialize-IsWindow ps md = record { size = omega arith; marked = tt; total = refl }

-- The engine's contract, whoever takes part.
pub IsWindow-IsReversible : IsReversible episode (λ ps. Unit {0}) IsWindow
IsWindow-IsReversible = record {
  initialize-Valid = λ ps md any. initialize-IsWindow ps md;
  execute-Valid = λ c auth md s w. valid_of w (execute c auth md s) (execute-Window c auth md s w);
  execute-undo =
      λ c auth md s rb w e. undo_of s (execute c auth md s) rb (execute-Window c auth md s w) e;
  execute-atomic = λ c auth md s e w same.
      atomic_of s (execute c auth md s) e (execute-Window c auth md s w) same;
}
