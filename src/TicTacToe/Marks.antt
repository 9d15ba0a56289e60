-- ===== src/TicTacToe/Marks.antt =====
-- The invariant of a two-player game: its history, its board and its turns.
use native.Mathlib.Decide.{ℕ_discrete}
use kaspa_x.Base.{
  ℕ, zero, suc, ◌+◌, ◌%◌, ◌≤◌, ◌<◌, ◌≡◌, ◌≢◌, refl, sym, ap, ◌∙◌, ◌⊎◌, inl, inr, Option, none, some,
  List, [], ◌∷◌, ◌++◌, arith, if◌then◌else◌, ◌==◌, length, get_elem?, length-append,
}
use kaspa_x.TicTacToe.Grid.{Board, cell, set_cell, marks, cell-set_ne}
use kaspa_x.TicTacToe.Game.{TicTacToe}

module _ (p q : ℕ) where
  -- Whose turn it is after k moves.
  abbrev pub owner : ℕ → ℕ
  owner k = if k % 2 == 0 then p else q

  pub current_player : (k : ℕ) → k < 2 → get_elem? (p ∷ q ∷ []) k ≡ some (owner k)
  current_player zero h = refl
  current_player (suc zero) h = refl
  current_player (suc (suc k)) h = absurd (omega arith)

abbrev pub Differ : ℕ × ℕ → ℕ × ℕ → Type 0
Differ (r, c) (i, j) = (r ≢ i) ⊎ (c ≢ j)

abbrev pub Apart : ℕ × ℕ → List (ℕ × ℕ) → Type 0
Apart m [] = Unit {0}
Apart m (n ∷ ms) = Differ m n × Apart m ms

abbrev pub Marks : ℕ → ℕ → Board → ℕ → List (ℕ × ℕ) → Type 0
Marks p q b turn [] = Unit {0}
Marks p q b turn ((r, c) ∷ ms) =
    (cell b r c ≡ some (some (owner p q (turn + length ms + 1))))
    × Apart (r, c) ms
    × Marks p q b turn ms

pub record Game (p q : ℕ) (g : TicTacToe) : Type 0 where
  pub two : g.players ≡ p ∷ q ∷ []
  pub turn : g.current_index < 2
  pub size : length g.move_history ≤ 6
  pub placed : Marks p q g.board g.current_index g.move_history
  pub total : marks g.board ≡ length g.move_history

-- A state that a game between two players reaches.
pub record IsGame (g : TicTacToe) : Type 0 where
  pub first : ℕ
  pub second : ℕ
  pub game : Game first second g

pub Differ-of_cells :
    (b : Board) (r c i j v : ℕ)
    → cell b r c ≡ some none
    → cell b i j ≡ some (some v)
    → Differ (r, c) (i, j)
Differ-of_cells b r c i j v e f = elim (ℕ_discrete r i) [
  | no ne ↦ inl ne
  | yes same ↦ elim (ℕ_discrete c j) [
    | no ne ↦ inr ne
    | yes too ↦ absurd (cc (ap (λ x. cell b x c) same, ap (cell b i) too))
  ]
]

pub Differ-sym : (m n : ℕ × ℕ) → Differ m n → Differ n m
Differ-sym (r, c) (i, j) (inl h) = inl (λ e. h (sym e))
Differ-sym (r, c) (i, j) (inr h) = inr (λ e. h (sym e))

pub Apart-append :
    (m n : ℕ × ℕ) (ms : List (ℕ × ℕ)) → Apart m ms → Differ m n → Apart m (ms ++ n ∷ [])
Apart-append m n [] a d = (d, tt)
Apart-append m n (k ∷ ms) a d = (a.0, Apart-append m n ms a.1 d)

module _ (p q : ℕ) (b : Board) where
  -- An empty cell is none of the history's.
  pub Apart-of_empty :
      (r c turn : ℕ) (ms : List (ℕ × ℕ))
      → Marks p q b turn ms
      → cell b r c ≡ some none
      → Apart (r, c) ms
  Apart-of_empty r c turn [] h e = tt
  Apart-of_empty r c turn ((i, j) ∷ ms) h e =
      (Differ-of_cells b r c i j _ e h.0, Apart-of_empty r c turn ms h.2 e)

  pub Marks-set :
      (r c turn : ℕ) (v : Option ℕ) (ms : List (ℕ × ℕ))
      → Marks p q b turn ms
      → Apart (r, c) ms
      → Marks p q (set_cell b r c v) turn ms
  Marks-set r c turn v [] h a = tt
  Marks-set r c turn v ((i, j) ∷ ms) h a =
      (cell-set_ne b r c i j v a.0 ∙ h.0, h.1, Marks-set r c turn v ms h.2 a.1)

  owner_shift :
      (turn n m : ℕ) → m ≡ n + 1 → owner p q (turn + n + 1) ≡ owner p q ((turn + 1) % 2 + m + 1)
  owner_shift turn n m e = ground arith

  -- The next mark joins the history at its end, and the turn passes.
  pub Marks-append :
      (r c turn : ℕ) (ms : List (ℕ × ℕ))
      → Marks p q b turn ms
      → Apart (r, c) ms
      → turn < 2
      → cell b r c ≡ some (some (owner p q turn))
      → Marks p q b ((turn + 1) % 2) (ms ++ (r, c) ∷ [])
  Marks-append r c turn [] h a t e = (e ∙ ap (λ x. some (some x)) (ground arith), tt, tt)
  Marks-append r c turn ((i, j) ∷ ms) h a t e = (
    h.0 ∙ ap (λ x. some (some x)) (owner_shift turn (length ms) _ (length-append ms ((r, c) ∷ []))),
    Apart-append (i, j) (r, c) ms h.1 (Differ-sym (r, c) (i, j) a.0),
    Marks-append r c turn ms h.2 a.1 t e,
  )
