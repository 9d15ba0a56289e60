-- ===== src/McpServer/Window.antt =====
-- The window of six marks, and what making room in it does.
use native.Mathlib.Decide.{ℕ_discrete}
use kaspa_x.Base.{
  ℕ, zero, suc, ◌≤◌, ◌<◌, ◌≡◌, refl, sym, ap, ◌∙◌, inl, inr, true, false, Option, none, some, List,
  [], ◌∷◌, ◌++◌, arith, ◌==◌, leb, ◌&&◌, length, Bool-cases,
}
use kaspa_x.TicTacToe.Grid.{cell, set_cell, weight, weight-set, cell-set_ne, set-set, set_same}
use kaspa_x.TicTacToe.Marks.{Differ, Differ-sym, Apart, Apart-append}
use kaspa_x.McpServer.Game.{
  Player, x, o, Symbols, TicTacToeEpisode, TttRemoved, want, player_of, evict, make_room, restore,
}

-- The history lists places with marks, each once.
abbrev pub Marked : Symbols → List (ℕ × ℕ) → Type 0
Marked b [] = Unit {0}
Marked b ((r, c) ∷ ms) =
    (r < 3) × (c < 3) × ((v : ℕ) × (cell b r c ≡ some v) × (0 < v)) × Apart (r, c) ms × Marked b ms

-- 1 for a mark, 0 for an empty place.
abbrev pub sign : ℕ → ℕ
sign zero = 0
sign (suc n) = 1

-- The history is short, it lists marks, each once, and there are no other marks on the board.
pub record IsWindow (s : TicTacToeEpisode) : Type 0 where
  pub size : length s.move_history ≤ 6
  pub marked : Marked s.board s.move_history
  pub total : weight sign s.board ≡ length s.move_history

Differ-of_symbols :
    (b : Symbols) (r c i j v : ℕ)
    → cell b r c ≡ some 0
    → cell b i j ≡ some v
    → 0 < v
    → Differ (r, c) (i, j)
Differ-of_symbols b r c i j v e f pos = elim (ℕ_discrete r i) [
  | no ne ↦ inl ne
  | yes same ↦ elim (ℕ_discrete c j) [
    | no ne ↦ inr ne
    | yes too ↦
        absurd (ground (arith, sym e ∙ ap (λ k. cell b k c) same ∙ ap (cell b i) too ∙ f, pos))
  ]
]

module _ (b : Symbols) (r c : ℕ) where
  pub Apart-of_blank : (ms : List (ℕ × ℕ)) → Marked b ms → cell b r c ≡ some 0 → Apart (r, c) ms
  Apart-of_blank [] h e = tt
  Apart-of_blank ((i, j) ∷ ms) (_, _, (v, found, pos), _, rest) e =
      (Differ-of_symbols b r c i j v e found pos, Apart-of_blank ms rest e)

  pub Marked-set :
      (v : ℕ) (ms : List (ℕ × ℕ)) → Marked b ms → Apart (r, c) ms → Marked (set_cell b r c v) ms
  Marked-set v [] h a = tt
  Marked-set v ((i, j) ∷ ms) (row, col, (w, found, pos), apart, rest) a =
      (row, col, (w, cell-set_ne b r c i j v a.0 ∙ found, pos), apart, Marked-set v ms rest a.1)

  pub Marked-append :
      (v : ℕ) (ms : List (ℕ × ℕ))
      → Marked b ms
      → Apart (r, c) ms
      → r < 3
      → c < 3
      → cell b r c ≡ some v
      → 0 < v
      → Marked b (ms ++ (r, c) ∷ [])
  Marked-append v [] h a row col found pos = (row, col, (v, found, pos), tt, tt)
  Marked-append v ((i, j) ∷ ms) h a row col found pos = (
    h.0,
    h.1,
    h.2,
    Apart-append (i, j) (r, c) ms h.3 (Differ-sym (r, c) (i, j) a.0),
    Marked-append v ms h.4 a.1 row col found pos,
  )

-- What making room leaves: a window of at most five marks, with no others on the board, in which a blank
-- place is still blank, and from which the removed mark leads back.
pub record Roomy (row col : ℕ) (s : TicTacToeEpisode) (r : TicTacToeEpisode × Option TttRemoved)
    : Type 0 where
  pub marked : Marked r.0.board r.0.move_history
  pub size : length r.0.move_history ≤ 5
  pub total : weight sign r.0.board ≡ length r.0.move_history
  pub blank : cell r.0.board row col ≡ some 0
  pub same_turn : r.0.current ≡ s.current
  pub restored : restore r.1 r.0 ≡ s

sign_pos : (v : ℕ) → 0 < v → sign v ≡ 1
sign_pos zero h = absurd (omega arith)
sign_pos (suc v) h = refl

module _ (row col : ℕ) (s : TicTacToeEpisode) (w : IsWindow s)
    (free : cell s.board row col ≡ some 0) where
  evict-Roomy :
      (ms : List (ℕ × ℕ))
      → s.move_history ≡ ms
      → length ms ≡ 6
      → Marked s.board ms
      → Roomy row col s (evict ms s)
  evict-Roomy [] same six h = absurd (omega arith)
  evict-Roomy ((r, c) ∷ ms) same six (row_in, col_in, (v, found, pos), apart, rest) =
      rw (found, marked_place)
        (record {
          marked = Marked-set s.board r c 0 ms rest apart;
          size = omega arith;
          total = omega (
            arith,
            weight-set sign s.board r c 0 v found,
            sign_pos v pos,
            w.total,
            ap length same,
          );
          blank =
              cell-set_ne s.board r c row col 0 (
                Differ-sym (row, col) (r, c)
                  (Differ-of_symbols s.board row col r c v free found pos))
              ∙ free;
          same_turn = refl;
          restored = rw (in_board) (λ i. record s {
            board = (set-set s.board r c 0 v ∙ set_same s.board r c v found) i;
            move_history = sym same i;
          });
        })
    where
      marked_place : (v == 0) ≡ false
      marked_place = ground (arith, pos)

      in_board : (leb r 2 && leb c 2) ≡ true
      in_board = ground (arith, row_in, col_in)

  pub make_room-Roomy : Roomy row col s (make_room s)
  make_room-Roomy = elim (Bool-cases (length s.move_history == 6)) [
    | inl full ↦ rw full (evict-Roomy s.move_history refl (ground arith) w.marked)
    | inr room ↦ rw room (record {
      marked = w.marked;
      size = ground (arith, w.size);
      total = w.total;
      blank = free;
      same_turn = refl;
      restored = refl;
    })
  ]

pub restore-current :
    (removed : Option TttRemoved) (n : Player) (s : TicTacToeEpisode)
    → restore removed (record s { current = n }) ≡ record (restore removed s) { current = n }
restore-current none n s = refl
restore-current (some rem) n s = elim (Bool-cases (leb rem.row 2 && leb rem.col 2)) [
  | inl inside ↦ rw inside refl
  | inr outside ↦ rw outside refl
]

pub player_of-want : (p : Player) → player_of (want p) ≡ p
player_of-want x = refl
player_of-want o = refl
