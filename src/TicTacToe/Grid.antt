-- ===== src/TicTacToe/Grid.antt =====
-- Boards of three by three places, `[[Option<PubKey>; 3]; 3]` here: arrays of three, read and written
-- by index.
use kaspa_x.Base.{ℕ, zero, suc, ◌+◌, ◌<◌, ◌≡◌, refl, ◌≢◌, ◌⊎◌, inl, inr, Option, none, some, arith}

pub record Array3 (A : Type 0) : Type 0 where
  pub x0 : A
  pub x1 : A
  pub x2 : A

module _ {A : Type 0} where
  -- `none` is a read out of bounds, which panics.
  abbrev pub at3 : Array3 A → ℕ → Option A
  at3 a zero = some a.x0
  at3 a (suc zero) = some a.x1
  at3 a (suc (suc zero)) = some a.x2
  at3 a (suc (suc (suc i))) = none

  abbrev pub put3 : Array3 A → ℕ → A → Array3 A
  put3 a zero v = record a { x0 = v }
  put3 a (suc zero) v = record a { x1 = v }
  put3 a (suc (suc zero)) v = record a { x2 = v }
  put3 a (suc (suc (suc i))) v = a

  at3-put3_self : (a : Array3 A) (i : ℕ) (v w : A) → at3 a i ≡ some w → at3 (put3 a i v) i ≡ some v
  at3-put3_self a zero v w h = refl
  at3-put3_self a (suc zero) v w h = refl
  at3-put3_self a (suc (suc zero)) v w h = refl
  at3-put3_self a (suc (suc (suc i))) v w h = cc

  at3-put3_ne : (a : Array3 A) (i j : ℕ) (v : A) → i ≢ j → at3 (put3 a i v) j ≡ at3 a j
  at3-put3_ne a zero zero v h = absurd (h refl)
  at3-put3_ne a zero (suc zero) v h = refl
  at3-put3_ne a zero (suc (suc zero)) v h = refl
  at3-put3_ne a zero (suc (suc (suc j))) v h = refl
  at3-put3_ne a (suc zero) zero v h = refl
  at3-put3_ne a (suc zero) (suc zero) v h = absurd (h refl)
  at3-put3_ne a (suc zero) (suc (suc zero)) v h = refl
  at3-put3_ne a (suc zero) (suc (suc (suc j))) v h = refl
  at3-put3_ne a (suc (suc zero)) zero v h = refl
  at3-put3_ne a (suc (suc zero)) (suc zero) v h = refl
  at3-put3_ne a (suc (suc zero)) (suc (suc zero)) v h = absurd (h refl)
  at3-put3_ne a (suc (suc zero)) (suc (suc (suc j))) v h = refl
  at3-put3_ne a (suc (suc (suc i))) j v h = refl

  put3-put3 : (a : Array3 A) (i : ℕ) (v w : A) → put3 (put3 a i v) i w ≡ put3 a i w
  put3-put3 a zero v w = refl
  put3-put3 a (suc zero) v w = refl
  put3-put3 a (suc (suc zero)) v w = refl
  put3-put3 a (suc (suc (suc i))) v w = refl

  put3_same : (a : Array3 A) (i : ℕ) (v : A) → at3 a i ≡ some v → put3 a i v ≡ a
  put3_same a zero v h = ground arith
  put3_same a (suc zero) v h = ground arith
  put3_same a (suc (suc zero)) v h = ground arith
  put3_same a (suc (suc (suc i))) v h = refl

  at3_below : (a : Array3 A) (i : ℕ) → i < 3 → (v : A) × (at3 a i ≡ some v)
  at3_below a zero h = (a.x0, refl)
  at3_below a (suc zero) h = (a.x1, refl)
  at3_below a (suc (suc zero)) h = (a.x2, refl)
  at3_below a (suc (suc (suc i))) h = absurd (omega arith)

abbrev pub Board : Type 0
Board = Array3 (Array3 (Option ℕ))

abbrev pub empty_board : Board
empty_board = record { x0 = row; x1 = row; x2 = row }
  where
    row : Array3 (Option ℕ)
    row = record { x0 = none; x1 = none; x2 = none }

module _ {A : Type 0} where
  -- `board[r][c]`.
  unfoldable pub cell : Array3 (Array3 A) → ℕ → ℕ → Option A
  cell b r c = elim (at3 b r) [ none ↦ none | some row ↦ at3 row c ]

  -- `board[r][c] = v`, where the place has been read.
  unfoldable pub set_cell : Array3 (Array3 A) → ℕ → ℕ → A → Array3 (Array3 A)
  set_cell b r c v = elim (at3 b r) [ none ↦ b | some row ↦ put3 b r (put3 row c v) ]

-- The weight of a row, and of a board: of all its places together.
module _ {A : Type 0} (f : A → ℕ) where
  abbrev row_weight : Array3 A → ℕ
  row_weight a = f a.x0 + f a.x1 + f a.x2

  unfoldable pub weight : Array3 (Array3 A) → ℕ
  weight b = row_weight b.x0 + row_weight b.x1 + row_weight b.x2

  row_weight-put3 :
      (a : Array3 A) (i : ℕ) (v w : A)
      → at3 a i ≡ some w
      → row_weight (put3 a i v) + f w ≡ row_weight a + f v
  row_weight-put3 a zero v w h = ground arith
  row_weight-put3 a (suc zero) v w h = ground arith
  row_weight-put3 a (suc (suc zero)) v w h = ground arith
  row_weight-put3 a (suc (suc (suc i))) v w h = cc

  pub weight-set :
      (b : Array3 (Array3 A)) (r c : ℕ) (v w : A)
      → cell b r c ≡ some w
      → weight (set_cell b r c v) + f w ≡ weight b + f v
  unfolding cell set_cell weight
  weight-set b zero c v w h = omega (arith, row_weight-put3 b.x0 c v w h)
  weight-set b (suc zero) c v w h = omega (arith, row_weight-put3 b.x1 c v w h)
  weight-set b (suc (suc zero)) c v w h = omega (arith, row_weight-put3 b.x2 c v w h)
  weight-set b (suc (suc (suc r))) c v w h = cc

-- The number of marks on the board.
abbrev pub bit : Option ℕ → ℕ
bit none = 0
bit (some _) = 1

unfoldable pub marks : Board → ℕ
unfolding weight
marks b = weight bit b

module _ {A : Type 0} where
  row_cases :
      (b : Array3 (Array3 A)) (r c : ℕ) {v : A}
      → cell b r c ≡ some v
      → (row : Array3 A) × (at3 b r ≡ some row) × (at3 row c ≡ some v)
  unfolding cell
  row_cases b zero c h = (b.x0, refl, h)
  row_cases b (suc zero) c h = (b.x1, refl, h)
  row_cases b (suc (suc zero)) c h = (b.x2, refl, h)
  row_cases b (suc (suc (suc r))) c h = cc

  pub cell_below :
      (b : Array3 (Array3 A)) (r c : ℕ) → r < 3 → c < 3 → (v : A) × (cell b r c ≡ some v)
  unfolding cell
  cell_below b zero c h k = at3_below b.x0 c k
  cell_below b (suc zero) c h k = at3_below b.x1 c k
  cell_below b (suc (suc zero)) c h k = at3_below b.x2 c k
  cell_below b (suc (suc (suc r))) c h k = absurd (omega arith)

  pub cell-set_self :
      (b : Array3 (Array3 A)) (r c : ℕ) (v w : A)
      → cell b r c ≡ some w
      → cell (set_cell b r c v) r c ≡ some v
  unfolding cell set_cell
  cell-set_self b r c v w h =
      let (row, e, f) = row_cases b r c h in
      rw (e, set_cell)
        (rw (at3-put3_self b r (put3 row c v) row e, cell) (at3-put3_self row c v w f))

  same_row : (a : Array3 A) (r c j : ℕ) (v : A) → (r ≢ r) ⊎ (c ≢ j) → at3 (put3 a c v) j ≡ at3 a j
  same_row a r c j v (inl h) = absurd (h refl)
  same_row a r c j v (inr h) = at3-put3_ne a c j v h

  pub cell-set_ne :
      (b : Array3 (Array3 A)) (r c i j : ℕ) (v : A)
      → (r ≢ i) ⊎ (c ≢ j)
      → cell (set_cell b r c v) i j ≡ cell b i j
  unfolding cell set_cell
  cell-set_ne b zero c zero j v h = same_row b.x0 0 c j v h
  cell-set_ne b zero c (suc zero) j v h = refl
  cell-set_ne b zero c (suc (suc zero)) j v h = refl
  cell-set_ne b zero c (suc (suc (suc i))) j v h = refl
  cell-set_ne b (suc zero) c zero j v h = refl
  cell-set_ne b (suc zero) c (suc zero) j v h = same_row b.x1 1 c j v h
  cell-set_ne b (suc zero) c (suc (suc zero)) j v h = refl
  cell-set_ne b (suc zero) c (suc (suc (suc i))) j v h = refl
  cell-set_ne b (suc (suc zero)) c zero j v h = refl
  cell-set_ne b (suc (suc zero)) c (suc zero) j v h = refl
  cell-set_ne b (suc (suc zero)) c (suc (suc zero)) j v h = same_row b.x2 2 c j v h
  cell-set_ne b (suc (suc zero)) c (suc (suc (suc i))) j v h = refl
  cell-set_ne b (suc (suc (suc r))) c i j v h = refl

  pub set-set :
      (b : Array3 (Array3 A)) (r c : ℕ) (v w : A)
      → set_cell (set_cell b r c v) r c w ≡ set_cell b r c w
  unfolding cell set_cell
  set-set b zero c v w = λ i. record b { x0 = put3-put3 b.x0 c v w i }
  set-set b (suc zero) c v w = λ i. record b { x1 = put3-put3 b.x1 c v w i }
  set-set b (suc (suc zero)) c v w = λ i. record b { x2 = put3-put3 b.x2 c v w i }
  set-set b (suc (suc (suc r))) c v w = refl

  pub set_same :
      (b : Array3 (Array3 A)) (r c : ℕ) (v : A) → cell b r c ≡ some v → set_cell b r c v ≡ b
  unfolding cell set_cell
  set_same b r c v h =
      let (row, e, f) = row_cases b r c h in
      rw (e, set_cell) (rw (put3_same row c v f) (put3_same b r row e))

pub marks-set :
    (b : Board) (r c : ℕ) (v w : Option ℕ)
    → cell b r c ≡ some w
    → marks (set_cell b r c v) + bit w ≡ marks b + bit v
unfolding marks
marks-set b r c v w h = weight-set bit b r c v w h
