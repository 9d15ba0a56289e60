-- ===== src/KasDraw/Episode/Rules.antt =====
-- What an accepted command required and did; which numbers a ticket may have.
use kaspa_x.Base.{
  of_not, ℕ, ◌≡◌, ◌↔◌, ◌≤◌, refl, sym, ap, ◌∙◌, Bool, true, false, not, ◌&&◌, Option, none, some,
  List, ltb, leb, ◌==◌, if◌then◌else◌, contains, all, add64, arith, ==_iff,
}
use kaspa_x.Base.Assoc.{lookup}
use kaspa_x.Kdapp.Episode.{PayloadMetadata, ok, err}
use kaspa_x.KasDraw.Sorting.{has_duplicate, ascending-sort, all-sort}
use kaspa_x.KasDraw.Episode.{
  LotteryCommand, buy_ticket, execute_draw, claim_prize, close_episode, LotteryRollback,
  undo_buy_ticket, undo_execute_draw, undo_claim_prize, undo_close, LotteryEpisode, Ticket,
  Executed, validate_numbers, pays_ticket, add_ticket, do_buy_ticket, draw, set_winner, claim,
  execute_open, execute,
}

-- A ticket's numbers are valid exactly if they are as many as the code counts on, no two are the same
-- and all are in range; their order does not matter.
pub validate_numbers_iff :
    (s : LotteryEpisode) (numbers : List ℕ)
    → (validate_numbers s numbers ≡ true) ↔ (
        (s.numbers_per_ticket ≡ 5)
        × (has_duplicate numbers ≡ false)
        × (all (λ n. leb s.numbers_range.0 n && leb n s.numbers_range.1) numbers ≡ true))
unfolding validate_numbers
validate_numbers_iff s numbers = ground (
  arith,
  ascending-sort numbers,
  all-sort (λ n. leb s.numbers_range.0 n && leb n s.numbers_range.1) numbers,
)

false_of_neg : (b : Bool) → not b ≡ true → b ≡ false
false_of_neg true h = sym h
false_of_neg false h = refl

left_of : (a b : Bool) → (a && b) ≡ true → a ≡ true
left_of true b h = refl
left_of false b h = h

right_of : (a b : Bool) → (a && b) ≡ true → b ≡ true
right_of true b h = h
right_of false b h = cc

module _ (auth : Option ℕ) (md : PayloadMetadata) (s : LotteryEpisode) where
  pub data Step : LotteryCommand → LotteryEpisode → LotteryRollback → Type 0 where
    bought :
        (numbers : List ℕ) (amount pk : ℕ)
        → auth ≡ some pk
        → contains s.authorized pk ≡ true
        → validate_numbers s numbers ≡ true
        → amount ≡ s.ticket_price
        → pays_ticket s md.tx_outputs ≡ true
        → Step
            (buy_ticket numbers amount)
            (add_ticket pk numbers amount s)
            (undo_buy_ticket s.next_ticket_id)
    drawn :
        (entropy : List ℕ)
        → s.next_draw_time ≤ md.accepting_time
        → Step
            (execute_draw entropy)
            (record (set_winner (draw md.accepting_hash s.tickets) s) {
              next_draw_time = add64 md.accepting_time s.draw_interval_secs;
            })
            (undo_execute_draw s.current_round s.prize_pool)
    claimed :
        (id round : ℕ) (t : Ticket)
        → s.last_winner ≡ some id
        → lookup id s.tickets ≡ some t
        → s.winner_paid ≡ false
        → Step
            (claim_prize id round)
            (record s { prize_pool = 0; winner_paid = true })
            (undo_claim_prize id)
    closed : Step close_episode (record s { paused = true }) undo_close

  abbrev pub Judged : LotteryCommand → Executed → Type 0
  Judged c (s', err _) = s' ≡ s
  Judged c (s', ok rb) = (s.paused ≡ false) × Step c s' rb

  if-Judged :
      (c : LotteryCommand) (b : Bool) (x y : Executed)
      → (b ≡ true → Judged c x)
      → (b ≡ false → Judged c y)
      → Judged c (if b then x else y)
  if-Judged c true x y f g = f refl
  if-Judged c false x y f g = g refl

  buy-Judged :
      (numbers : List ℕ) (amount : ℕ) (o : Option ℕ)
      → s.paused ≡ false
      → auth ≡ o
      → Judged (buy_ticket numbers amount) (do_buy_ticket numbers amount o md s)
  buy-Judged numbers amount none live e = refl
  buy-Judged numbers amount (some pk) live e =
      if-Judged (buy_ticket numbers amount) (not (contains s.authorized pk)) _ _ (λ _. refl)
        λ known.
          if-Judged (buy_ticket numbers amount) (not (validate_numbers s numbers)) _ _ (λ _. refl)
            λ valid.
              if-Judged (buy_ticket numbers amount) (not (amount == s.ticket_price)) _ _ (λ _. refl)
                λ right.
                  if-Judged (buy_ticket numbers amount) (not (pays_ticket s md.tx_outputs)) _ _
                    (λ _. refl)
                    λ pays. (
                      live,
                      bought numbers amount pk e (of_not _ known) (of_not _ valid)
                          ((==_iff amount s.ticket_price).0 (of_not _ right)) (of_not _ pays),
                    )

  claim-Judged :
      (id round : ℕ) (w : Option ℕ) (t : Option Ticket)
      → s.paused ≡ false
      → s.last_winner ≡ w
      → lookup id s.tickets ≡ t
      → Judged (claim_prize id round) (claim id s w t)
  claim-Judged id round none t live e f = refl
  claim-Judged id round (some w) none live e f = refl
  claim-Judged id round (some w) (some t) live e f =
      if-Judged (claim_prize id round) (w == id && not s.winner_paid) _ _
        (λ h. (
          live,
          claimed id round t (e ∙ ap some ((==_iff w id).0 (left_of _ _ h))) f
              (false_of_neg _ (right_of _ _ h)),
        ))
        (λ _. refl)

  open-Judged : (c : LotteryCommand) → s.paused ≡ false → Judged c (execute_open c auth md s)
  open-Judged (buy_ticket numbers amount) live = buy-Judged numbers amount auth live refl
  open-Judged (execute_draw entropy) live =
      if-Judged (execute_draw entropy) (ltb md.accepting_time s.next_draw_time) _ _ (λ _. refl)
        (λ due. (live, drawn entropy (ground arith)))
  open-Judged (claim_prize id round) live = claim-Judged id round _ _ live refl refl
  open-Judged close_episode live =
      if-Judged close_episode s.paused _ _ (λ _. refl) (λ _. (live, closed))

  -- A refused command leaves the lottery as it was. An accepted one found the lottery open and is a
  -- step of the relation `Step`: what it required held, and the state and the rollback object are the
  -- step's.
  pub lottery-Judged : (c : LotteryCommand) → Judged c (execute c auth md s)
  unfolding execute
  lottery-Judged c = if-Judged c s.paused _ _ (λ _. refl) (open-Judged c)
