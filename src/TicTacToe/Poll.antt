-- ===== src/TicTacToe/Poll.antt =====
-- What `poll` reports of a game.
use kaspa_x.Base.{
  ℕ, ◌≡◌, ◌≢◌, refl, inl, inr, ◌⊎◌, true, false, Option, none, some, List, [], ◌∷◌, arith,
  Option-cases, get_elem?, ap, Bool-cases,
}
use kaspa_x.TicTacToe.Grid.{Board, marks}
use kaspa_x.TicTacToe.Game.{
  TicTacToe, TttState, TttGameStatus, winner, in_progress, Line, lines, mark, same_mark,
  first_owned, or_else, check_winner, is_draw, poll,
}
use kaspa_x.TicTacToe.Undo.{at_turn}
use kaspa_x.TicTacToe.Marks.{Game, owner}

abbrev pub Owns : ℕ → Board → Line → Type 0
Owns p b (x, y, z) = (mark b x ≡ some p) × (mark b y ≡ some p) × (mark b z ≡ some p)

-- Some line of the list belongs to the player.
abbrev pub OwnsOne : ℕ → Board → List Line → Type 0
OwnsOne p b [] = ⊥
OwnsOne p b (l ∷ ls) = Owns p b l ⊎ OwnsOne p b ls

same_mark-some :
    (x y z : Option ℕ) (p : ℕ)
    → same_mark x y z ≡ some p
    → (x ≡ some p) × (y ≡ some p) × (z ≡ some p)
same_mark-some (some x) (some y) (some z) p e = ground arith
same_mark-some (some x) (some y) none p e = cc
same_mark-some (some x) none z p e = cc
same_mark-some none y z p e = cc

or_else-some : (x y : Option ℕ) (p : ℕ) → or_else x y ≡ some p → (x ≡ some p) ⊎ (y ≡ some p)
or_else-some none y p e = inr e
or_else-some (some x) y p e = inl e

or_else-none : (x y : Option ℕ) → or_else x y ≡ none → (x ≡ none) × (y ≡ none)
or_else-none none y e = (refl, e)
or_else-none (some x) y e = cc

first_owned_sound :
    (b : Board) (ls : List Line) (p : ℕ) → first_owned b ls ≡ some p → OwnsOne p b ls
unfolding first_owned
first_owned_sound b [] p e = cc
first_owned_sound b ((x, y, z) ∷ ls) p e = elim (or_else-some _ (first_owned b ls) p e) [
  | inl own ↦ inl (same_mark-some (mark b x) (mark b y) (mark b z) p own)
  | inr later ↦ inr (first_owned_sound b ls p later)
]

same_mark-own :
    (x y z : Option ℕ) (p : ℕ) → (x ≡ some p) × (y ≡ some p) × (z ≡ some p) → same_mark x y z ≢ none
same_mark-own x y z p o e = ground arith

first_owned_complete :
    (b : Board) (ls : List Line) (p : ℕ) → OwnsOne p b ls → first_owned b ls ≢ none
unfolding first_owned
first_owned_complete b [] p o e = o
first_owned_complete b ((x, y, z) ∷ ls) p (inl o) e =
    same_mark-own (mark b x) (mark b y) (mark b z) p o (or_else-none _ (first_owned b ls) e).0
first_owned_complete b ((x, y, z) ∷ ls) p (inr o) e =
    first_owned_complete b ls p o
      (or_else-none (same_mark (mark b x) (mark b y) (mark b z)) (first_owned b ls) e).1

-- A reported winner has a line of three, and where any player has one, a winner is reported.
pub check_winner_iff :
    (g : TicTacToe) (p : ℕ)
    → (check_winner g ≡ some p → OwnsOne p g.board lines)
      × (OwnsOne p g.board lines → check_winner g ≢ none)
unfolding check_winner
check_winner_iff g p = (first_owned_sound g.board lines p, first_owned_complete g.board lines p)

full_marks : (g : TicTacToe) → is_draw g ≡ true → marks g.board ≡ 9
unfolding is_draw marks
full_marks g e = ground arith

is_draw-false : {p q : ℕ} {g : TicTacToe} → Game p q g → is_draw g ≡ false
is_draw-false {g} h = elim (Bool-cases (is_draw g)) [
  | inl full ↦ absurd (omega (arith, full_marks g full, h.total, h.size))
  | inr free ↦ free
]

-- Whatever is played, the status of a two-player game is a winner or that it goes on, never a draw:
-- the board holds six marks at most. It is reported without a panic.
pub poll-ne-draw :
    {p q : ℕ} {g : TicTacToe}
    → Game p q g
    → (s : TttState) × (poll g ≡ some s)
      × (s.board ≡ g.board)
      × (s.first_player ≡ p)
      × ((s.status ≡ in_progress (owner p q g.current_index)) ⊎ ((w : ℕ) × (s.status ≡ winner w)))
unfolding poll
poll-ne-draw {p} {q} {g} h = elim (Option-cases (check_winner g)) [
  | inl open_game ↦ (
    reported (in_progress (owner p q g.current_index)),
    rw (first, open_game, at_turn h, is_draw-false h),
    refl,
    refl,
    inl refl,
  )
  | inr (w, won) ↦ (reported (winner w), rw (first, won), refl, refl, inr (w, refl))
]
  where
    first : get_elem? g.players 0 ≡ some p
    first = ap (λ x. get_elem? x 0) h.two

    reported : TttGameStatus → TttState
    reported s = record { board = g.board; first_player = p; status = s }
