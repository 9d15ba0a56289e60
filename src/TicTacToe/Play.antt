-- ===== src/TicTacToe/Play.antt =====
-- Moves, the invariant of a two-player game, and the engine's contract.
use kaspa_x.Base.{
  ℕ, ◌+◌, ◌≤◌, ◌≡◌, ◌≢◌, refl, sym, ap, ◌∙◌, subst, inl, inr, true, Option, none, some, List, [],
  ◌∷◌, arith, ◌==◌, length, length-append, Bool-cases,
}
use kaspa_x.Kdapp.Episode.{PayloadMetadata, EpisodeError, Result, ok, err, IsReversible}
use kaspa_x.TicTacToe.Grid.{cell, marks, cell-set_ne, cell-set_self, cell_below, marks-set}
use kaspa_x.TicTacToe.Game.{
  TicTacToe, TttMove, TttRollback, TttError, initialize, execute, play, rollback, episode,
  make_room, evict, or_refuse, or_false,
}
use kaspa_x.TicTacToe.Undo.{execute-Accepted, at_turn, rollback-play}
use kaspa_x.TicTacToe.Marks.{
  Game, IsGame, Differ-sym, Differ-of_cells, Marks, owner, Apart-of_empty, Marks-set, Marks-append,
}

module _ {p q : ℕ} {g : TicTacToe} (h : Game p q g) (mv : TttMove) (md : PayloadMetadata)
    (free : cell g.board mv.row mv.col ≡ some none) where
  abbrev player : ℕ
  player = owner p q g.current_index

  -- The evicted state is one of five marks, with the cell still free.
  room-Marks :
      let g' = (make_room g).0 in
      Marks p q g'.board g'.current_index g'.move_history
      × (length g'.move_history ≤ 5)
      × (marks g'.board ≡ length g'.move_history)
      × (cell g'.board mv.row mv.col ≡ some none)
      × (g'.players ≡ p ∷ q ∷ [])
      × (g'.current_index ≡ g.current_index)
  room-Marks = elim (Bool-cases (length g.move_history == 6)) [
    | inl full ↦ rw full (evicted g.move_history h.placed h.total (ground arith))
    | inr room ↦ rw room (h.placed, ground (arith, h.size), h.total, free, h.two, refl)
  ]
    where
      evicted :
          (ms : List (ℕ × ℕ))
          → Marks p q g.board g.current_index ms
          → marks g.board ≡ length ms
          → length ms ≡ 6
          → let g' = (evict g ms).0 in
            Marks p q g'.board g'.current_index g'.move_history
            × (length g'.move_history ≤ 5)
            × (marks g'.board ≡ length g'.move_history)
            × (cell g'.board mv.row mv.col ≡ some none)
            × (g'.players ≡ p ∷ q ∷ [])
            × (g'.current_index ≡ g.current_index)
      evicted [] marked total six = absurd (omega arith)
      evicted ((r, c) ∷ ms) marked total six = (
        Marks-set p q g.board r c g.current_index none ms marked.2 marked.1,
        omega arith,
        omega (
          arith,
          marks-set g.board r c none (some (owner p q (g.current_index + length ms + 1))) marked.0,
        ),
        cell-set_ne g.board r c mv.row mv.col none (
              Differ-sym (mv.row, mv.col) (r, c)
                (Differ-of_cells g.board mv.row mv.col r c _ free marked.0))
            ∙ free,
        h.two,
        refl,
      )

  play-Game : Game p q (play mv player md g).0
  unfolding play
  play-Game =
      let (placed, five, total, empty, two, turn) = room-Marks in
      let g' = (make_room g).0 in
      let apart =
        Apart-of_empty p q g'.board mv.row mv.col g'.current_index g'.move_history placed empty in
      record {
        two = two;
        turn = rw (ap length two) (omega arith);
        size = omega (arith, length-append g'.move_history ((mv.row, mv.col) ∷ []));
        placed = rw (ap length two) (
            Marks-append p q _ mv.row mv.col g'.current_index g'.move_history
              (Marks-set p q g'.board mv.row mv.col g'.current_index (some player) g'.move_history
                placed apart)
              apart (omega (arith, h.turn))
              (cell-set_self g'.board mv.row mv.col (some player) none empty
                ∙ ap (λ k. some (some (owner p q k))) (sym turn)));
        total = omega (
          arith,
          length-append g'.move_history ((mv.row, mv.col) ∷ []),
          marks-set g'.board mv.row mv.col (some player) none empty,
        );
      }

-- An accepted move leads from a game to a game.
execute-Game :
    {p q : ℕ} {g : TicTacToe} (mv : TttMove) (auth : Option ℕ) (md : PayloadMetadata)
    (g' : TicTacToe) (rb : TttRollback)
    → Game p q g
    → execute mv auth md g ≡ some (g', ok rb)
    → Game p q g' × (rollback rb g' ≡ some (g, true))
execute-Game {p} {q} {g} mv auth md g' rb h e =
    let a = execute-Accepted mv auth md g g' rb e in
    let mine : a.player ≡ owner p q g.current_index = cc (a.current, at_turn h) in
    let done : play mv (owner p q g.current_index) md g ≡ (g', rb) =
      subst (λ x. play mv x md g ≡ (g', rb)) mine a.result in
    (
      subst (λ x. Game p q x.0) done (play-Game h mv md a.free),
      subst (λ x. rollback x.1 x.0 ≡ some (g, true)) done (rollback-play h mv md a.free),
    )

-- A game in which nothing has been played yet.
initialize-Game : (p q : ℕ) (md : PayloadMetadata) → Game p q (initialize (p ∷ q ∷ []) md)
unfolding initialize marks
initialize-Game p q md = record {
  two = refl;
  turn = omega arith;
  size = omega arith;
  placed = tt;
  total = refl;
}

-- Two participants.
abbrev pub IsPair : List ℕ → Type 0
IsPair ps = (p : ℕ) × (q : ℕ) × (ps ≡ p ∷ q ∷ [])

execute-err :
    (mv : TttMove) (auth : Option ℕ) (md : PayloadMetadata) (g g' : TicTacToe)
    (x : EpisodeError TttError)
    → execute mv auth md g ≡ some (g', err x)
    → g' ≡ g
unfolding execute
execute-err mv none md g g' x e = ground arith
execute-err mv (some player) md g g' x e = ground arith

execute-ne-none :
    {p q : ℕ} {g : TicTacToe} (mv : TttMove) (auth : Option ℕ) (md : PayloadMetadata)
    → Game p q g
    → execute mv auth md g ≢ none
unfolding execute
execute-ne-none mv none md h e = cc
execute-ne-none {g} mv (some player) md h e =
    ground (arith, at_turn h, cell_below g.board mv.row mv.col)

-- What a move leaves: a refused one the game as it was, an accepted one a game that its rollback
-- object leads back from.
abbrev pub Outcome :
    ℕ → ℕ → TicTacToe → Option (TicTacToe × Result TttRollback (EpisodeError TttError)) → Type 0
Outcome p q g none = ⊥
Outcome p q g (some (g', err _)) = g' ≡ g
Outcome p q g (some (g', ok rb)) = Game p q g' × (rollback rb g' ≡ some (g, true))

-- In a game between two players a move, by anybody, never panics. Refused, it changes nothing;
-- accepted, it leads to a game between the same players, and its rollback object, which then does not
-- panic either, gives back exactly the board, the turn, the timestamp and the history from before.
pub execute-Outcome :
    {p q : ℕ} {g : TicTacToe}
    → Game p q g
    → (mv : TttMove) (auth : Option ℕ) (md : PayloadMetadata) → Outcome p q g (execute mv auth md g)
execute-Outcome {p} {q} {g} h mv auth md = go (execute mv auth md g) refl
  where
    go :
        (r : Option (TicTacToe × Result TttRollback (EpisodeError TttError)))
        → execute mv auth md g ≡ r
        → Outcome p q g r
    go none e = execute-ne-none mv auth md h e
    go (some (g', err x)) e = execute-err mv auth md g g' x e
    go (some (g', ok rb)) e = execute-Game mv auth md g' rb h e

abbrev Executed : Type 0
Executed = Option (TicTacToe × Result TttRollback (EpisodeError TttError))

valid_of :
    {g : TicTacToe} (v : IsGame g) (x : Executed)
    → Outcome v.first v.second g x
    → IsGame (or_refuse g x).0
valid_of v none o = absurd o
valid_of v (some (g', err _)) o = subst IsGame (sym o) v
valid_of v (some (g', ok rb)) o = record { first = v.first; second = v.second; game = o.0 }

undo_of :
    (p q : ℕ) (g : TicTacToe) (x : Executed) (r : TttRollback)
    → Outcome p q g x
    → (or_refuse g x).1 ≡ ok r
    → or_false (or_refuse g x).0 (rollback r (or_refuse g x).0) ≡ (g, true)
undo_of p q g none r o e = absurd o
undo_of p q g (some (g', err _)) r o e = cc
undo_of p q g (some (g', ok rb)) r o e =
    let same : rb ≡ r = cc in
    subst (λ z. or_false g' (rollback z g') ≡ (g, true)) same (ap (or_false g') o.1)

atomic_of :
    (p q : ℕ) (g : TicTacToe) (x : Executed) (r : EpisodeError TttError)
    → Outcome p q g x
    → (or_refuse g x).1 ≡ err r
    → (or_refuse g x).0 ≡ g
atomic_of p q g none r o e = absurd o
atomic_of p q g (some (g', err _)) r o e = o
atomic_of p q g (some (g', ok rb)) r o e = cc

-- The engine's contract, for episodes of two participants.
pub game-IsReversible : IsReversible episode IsPair IsGame
game-IsReversible = record {
  initialize-Valid = λ ps md pair. record {
    first = pair.0;
    second = pair.1;
    game =
        subst (λ x. Game pair.0 pair.1 (initialize x md)) (sym pair.2)
          (initialize-Game pair.0 pair.1 md);
  };
  execute-Valid = λ c a md s v. valid_of v (execute c a md s) (execute-Outcome v.game c a md);
  execute-undo = λ c a md s r v e.
      undo_of v.first v.second s (execute c a md s) r (execute-Outcome v.game c a md) e;
  execute-atomic = λ c a md s x v e.
      atomic_of v.first v.second s (execute c a md s) x (execute-Outcome v.game c a md) e;
}
