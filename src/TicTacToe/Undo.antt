-- ===== src/TicTacToe/Undo.antt =====
-- A move and its rollback object, for two players.
use kaspa_x.Base.{
  ℕ, ◌+◌, ◌%◌, ◌<◌, ◌≡◌, refl, ap, ◌∙◌, inl, inr, true, false, Option, none, some, List, [], ◌∷◌,
  ◌++◌, arith, if◌then◌else◌, ◌==◌, length, get_elem?, Bool-cases,
}
use kaspa_x.Kdapp.Episode.{PayloadMetadata, ok}
use kaspa_x.TicTacToe.Grid.{cell, set_cell, cell-set_ne, cell-set_self, set-set, set_same}
use kaspa_x.TicTacToe.Game.{
  TicTacToe, TttMove, TttRollback, execute, play, rollback, pop_back, place, unplace, restore,
  evict,
}
use kaspa_x.TicTacToe.Marks.{Game, Differ-sym, Differ-of_cells, Marks, owner, current_player}

pub pop_back-append {ℓ} : {A : Type ℓ} (xs : List A) (x : A) → pop_back (xs ++ x ∷ []) ≡ xs
pop_back-append [] x = refl
pop_back-append (y ∷ []) x = refl
pop_back-append (y ∷ z ∷ xs) x = ap (◌∷◌ y) (pop_back-append (z ∷ xs) x)

-- What an accepted move has passed.
pub record Accepted (mv : TttMove) (auth : Option ℕ) (md : PayloadMetadata) (g g' : TicTacToe)
    (rb : TttRollback) : Type 0 where
  pub player : ℕ
  pub signed : auth ≡ some player
  pub current : get_elem? g.players g.current_index ≡ some player
  pub row_in : mv.row < 3
  pub col_in : mv.col < 3
  pub free : cell g.board mv.row mv.col ≡ some none
  pub result : play mv player md g ≡ (g', rb)

pub execute-Accepted :
    (mv : TttMove) (auth : Option ℕ) (md : PayloadMetadata) (g g' : TicTacToe) (rb : TttRollback)
    → execute mv auth md g ≡ some (g', ok rb)
    → Accepted mv auth md g g' rb
unfolding execute
execute-Accepted mv none md g g' rb h = cc
execute-Accepted mv (some player) md g g' rb h = record {
  player = player;
  signed = refl;
  current = ground arith;
  row_in = ground arith;
  col_in = ground arith;
  free = ground arith;
  result = ground arith;
}

module _ (p q : ℕ) (mv : TttMove) (player time ts : ℕ) (g : TicTacToe)
    (two : g.players ≡ p ∷ q ∷ []) (turn : g.current_index < 2)
    (free : cell g.board mv.row mv.col ≡ some none) where
  twice : ((g.current_index + 1) % length g.players + 1) % length g.players ≡ g.current_index
  twice = rw (ap length two) (omega arith)

  unplace-place :
      (removed : Option TttMove)
      → unplace
          (record { mv = mv; removed_mv = removed; prev_timestamp = ts })
          (place mv player time g)
        ≡ record g { timestamp = ts }
  unplace-place removed = λ i. record g {
    timestamp = ts;
    board =
        (set-set g.board mv.row mv.col (some player) none
            ∙ set_same g.board mv.row mv.col none free)
          i;
    move_history = pop_back-append g.move_history (mv.row, mv.col) i;
    current_index = twice i;
  }

  -- Up to the removed mark, the rollback is back at the state in which the mark was set.
  rollback-place :
      (removed : Option TttMove)
      → rollback
          (record { mv = mv; removed_mv = removed; prev_timestamp = ts })
          (place mv player time g)
        ≡ restore removed (get_elem? g.players g.current_index) (record g { timestamp = ts })
  unfolding rollback
  rollback-place removed = rw (cell-set_self g.board mv.row mv.col (some player) none free) (
      rw (nonempty, if◌then◌else◌)
        (ap (λ x. restore removed (get_elem? x.players x.current_index) x) (unplace-place removed)))
    where
      nonempty : (length g.players == 0) ≡ false
      nonempty = rw (ap length two)

pub at_turn :
    {p q : ℕ} {g : TicTacToe}
    → Game p q g
    → get_elem? g.players g.current_index ≡ some (owner p q g.current_index)
at_turn {p} {q} {g} h =
    ap (λ x. get_elem? x g.current_index) h.two ∙ current_player p q g.current_index h.turn

module _ {p q : ℕ} {g : TicTacToe} (h : Game p q g) (mv : TttMove) (md : PayloadMetadata)
    (free : cell g.board mv.row mv.col ≡ some none) where
  abbrev mover : ℕ
  mover = owner p q g.current_index

  rollback-evict :
      (ms : List (ℕ × ℕ))
      → Marks p q g.board g.current_index ms
      → length ms ≡ 6
      → rollback
          (record { mv = mv; removed_mv = (evict g ms).1; prev_timestamp = g.timestamp })
          (place mv mover md.accepting_time (evict g ms).0)
        ≡ some (record g { move_history = ms }, true)
  rollback-evict [] marked six = absurd (omega arith)
  rollback-evict ((r, c) ∷ ms) marked six =
      rollback-place p q mv mover md.accepting_time g.timestamp
        (record g { board = set_cell g.board r c none; move_history = ms }) h.two h.turn
        (cell-set_ne g.board r c mv.row mv.col none (
            Differ-sym (mv.row, mv.col) (r, c)
              (Differ-of_cells g.board mv.row mv.col r c _ free marked.0))
          ∙ free)
        (some (record { row = r; col = c }))
      ∙ rw (at_turn h, cell-set_self g.board r c none _ marked.0, restore)
          (λ i. some (
            record g {
              board =
                  (set-set g.board r c none (some mover)
                      ∙ set_same g.board r c (some mover) (marked.0 ∙ ap (λ x. some (some x)) same))
                    i;
              move_history = (r, c) ∷ ms;
            },
            true,
          ))
    where
      same : owner p q (g.current_index + length ms + 1) ≡ mover
      same = ground arith

  pub rollback-play : rollback (play mv mover md g).1 (play mv mover md g).0 ≡ some (g, true)
  unfolding play
  rollback-play = elim (Bool-cases (length g.move_history == 6)) [
    | inl full ↦ rw full (rollback-evict g.move_history h.placed (ground arith))
    | inr room ↦
        rw room (rollback-place p q mv mover md.accepting_time g.timestamp g h.two h.turn free none)
  ]
