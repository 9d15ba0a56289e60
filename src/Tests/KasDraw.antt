-- ===== src/Tests/KasDraw.antt =====
-- A lottery with two tickets, a draw and a claim.
use kaspa_x.Base.{ℕ, ◌≡◌, refl, true, none, some, [], ◌∷◌, arith}
use kaspa_x.Base.Assoc.{insert}
use kaspa_x.Kdapp.Episode.{PayloadMetadata}
use kaspa_x.KasDraw.Sorting.{sort, ascending}
use kaspa_x.KasDraw.Episode.{
  LotteryEpisode, buy_ticket, execute_draw, claim_prize, undo_claim_prize, initialize, execute,
  rollback, validate_numbers, draw,
}
use kaspa_x.KasDraw.Episode.Rules.{Judged, lottery-Judged}
use kaspa_x.KasDraw.Episode.Fairness.{Fair, execute-Fair}
use kaspa_x.KasDraw.Episode.Undoing.{undone, rollback-undone}

abbrev md : ℕ → ℕ → PayloadMetadata
md hash time = record {
  accepting_hash = hash;
  accepting_daa = 2;
  accepting_time = time;
  tx_id = 4;
  tx_outputs = none;
}

abbrev fresh : LotteryEpisode
fresh = initialize (7 ∷ 8 ∷ []) (md 0 100)

abbrev buy : ℕ → LotteryEpisode → LotteryEpisode
buy pk s = (execute (buy_ticket (5 ∷ 3 ∷ 9 ∷ 35 ∷ 1 ∷ []) 100000000) (some pk) (md 1 101) s).0

abbrev two_tickets : LotteryEpisode
two_tickets = buy 8 (buy 7 fresh)

abbrev drawn_one : LotteryEpisode
drawn_one = (execute (execute_draw []) none (md 5 120) two_tickets).0

-- The second of the two tickets wins, and the claim empties the pool.
drawn_one_winner : (drawn_one.last_winner ≡ some 2) × (drawn_one.prize_pool ≡ 200000000)
unfolding execute initialize validate_numbers sort ascending insert draw
drawn_one_winner = (refl, refl)

lottery-Judged_example :
    Judged none
      (md 5 120)
      two_tickets
      (execute_draw [])
      (execute (execute_draw []) none (md 5 120) two_tickets)
lottery-Judged_example = lottery-Judged none (md 5 120) two_tickets (execute_draw [])

fresh-Fair : Fair fresh
unfolding initialize
fresh-Fair = record { fresh = λ k e. cc; pool = omega arith; winner = λ w e. cc }

execute-Fair_example :
    Fair (execute (buy_ticket (5 ∷ 3 ∷ 9 ∷ 35 ∷ 1 ∷ []) 100000000) (some 7) (md 1 101) fresh).0
unfolding initialize
execute-Fair_example =
    execute-Fair (buy_ticket (5 ∷ 3 ∷ 9 ∷ 35 ∷ 1 ∷ []) 100000000) (some 7) (md 1 101) fresh
      (omega arith) fresh-Fair

-- The claim's rollback leaves the pool at one ticket's price, where it was two tickets'.
rollback-undone_example :
    rollback (undo_claim_prize 2) (execute (claim_prize 2 0) none (md 6 121) drawn_one).0
    ≡ (undone (claim_prize 2 0) (md 6 121) drawn_one, true)
unfolding execute initialize validate_numbers sort ascending insert draw
rollback-undone_example =
    rollback-undone (claim_prize 2 0) none (md 6 121) drawn_one (undo_claim_prize 2) refl
      (omega arith) refl
