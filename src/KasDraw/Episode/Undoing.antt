-- ===== src/KasDraw/Episode/Undoing.antt =====
-- What a rollback gives back, and what it does not.
use kaspa_x.Base.{
  ℕ, ◌+◌, ◌-◌, ◌^◌, ◌≡◌, ◌<◌, refl, sym, ap, Bool, true, false, Option, none, some, List, add64,
  sat_add64, is_some, arith, subst, if◌then◌else◌,
}
use kaspa_x.Base.Assoc.{lookup, erase, lookup-insert_self, erase-insert}
use kaspa_x.Kdapp.Episode.{PayloadMetadata, EpisodeError, Result, ok, err}
use kaspa_x.KasDraw.Episode.{
  LotteryCommand, buy_ticket, execute_draw, claim_prize, close_episode, LotteryRollback,
  LotteryEpisode, LotteryError, Ticket, Executed, draw, set_winner, add_ticket, execute, rollback,
}
use kaspa_x.KasDraw.Episode.Rules.{Step, Judged, lottery-Judged}

-- The state after a command and its rollback, given the state before.
abbrev pub undone : LotteryCommand → PayloadMetadata → LotteryEpisode → LotteryEpisode
undone (buy_ticket _ _) md s = record s { next_ticket_id = add64 s.next_ticket_id 1 }
undone (execute_draw _) md s = record s {
  next_draw_time = add64 md.accepting_time s.draw_interval_secs;
  last_winner = none;
  winner_paid = false;
}
undone (claim_prize _ _) md s = record s { prize_pool = s.ticket_price }
undone close_episode md s = s

drawn-undone :
    (o : Option ℕ) (md : PayloadMetadata) (s : LotteryEpisode) (entropy : List ℕ) (t : ℕ)
    → record (record (set_winner o s) { next_draw_time = t }) {
      current_round = s.current_round;
      prize_pool = s.prize_pool;
      last_winner = none;
      winner_paid = false;
    }
      ≡ record s { next_draw_time = t; last_winner = none; winner_paid = false }
drawn-undone none md s entropy t = refl
drawn-undone (some w) md s entropy t = refl

Step-undone :
    {auth : Option ℕ} {md : PayloadMetadata} {s s' : LotteryEpisode} {c : LotteryCommand}
    {rb : LotteryRollback}
    → Step auth md s c s' rb
    → s.paused ≡ false
    → lookup s.next_ticket_id s.tickets ≡ none
    → s.prize_pool + s.ticket_price < 2 ^ 64
    → rollback rb s' ≡ (undone c md s, true)
unfolding rollback
Step-undone {s} (Step.bought numbers amount pk _ _ _ price _) live free room =
    subst (λ b. back b ≡ goal) (sym (ap is_some (lookup-insert_self s.next_ticket_id _ s.tickets)))
      (λ i. (
        record s {
          next_ticket_id = add64 s.next_ticket_id 1;
          tickets = erase-insert s.next_ticket_id bought s.tickets free i;
          prize_pool = pool i;
        },
        true,
      ))
  where
    bought : Ticket
    bought = record {
      ticket_id = s.next_ticket_id;
      player = pk;
      numbers = numbers;
      round = s.current_round;
    }

    taken : LotteryEpisode
    taken = add_ticket pk numbers amount s

    back : Bool → LotteryEpisode × Bool
    back b =
        if b
        then (
          record taken {
            tickets = erase s.next_ticket_id taken.tickets;
            prize_pool = taken.prize_pool - s.ticket_price;
          },
          true,
        )
        else (taken, false)

    goal : LotteryEpisode × Bool
    goal = (record s { next_ticket_id = add64 s.next_ticket_id 1 }, true)

    pool : sat_add64 s.prize_pool amount - s.ticket_price ≡ s.prize_pool
    pool = ground arith
Step-undone {md} {s} (Step.drawn entropy _) live free room = λ i. (
  drawn-undone (draw md.accepting_hash s.tickets) md s entropy
      (add64 md.accepting_time s.draw_interval_secs) i,
  true,
)
Step-undone {s} (Step.claimed id round t _ _ unpaid) live free room =
    λ i. (record s { prize_pool = s.ticket_price; winner_paid = sym unpaid i }, true)
Step-undone {s} Step.closed live free room = λ i. (record s { paused = sym live i }, true)

abbrev rollback_of :
    LotteryRollback → Result LotteryRollback (EpisodeError LotteryError) → LotteryRollback
rollback_of d (ok rb) = rb
rollback_of d (err _) = d

Judged-undone :
    (auth : Option ℕ) (md : PayloadMetadata) (s : LotteryEpisode) (c : LotteryCommand)
    (x : Executed) (rb : LotteryRollback)
    → Judged auth md s c x
    → lookup s.next_ticket_id s.tickets ≡ none
    → s.prize_pool + s.ticket_price < 2 ^ 64
    → x.1 ≡ ok rb
    → rollback rb x.0 ≡ (undone c md s, true)
Judged-undone auth md s c (s', err e) rb j free room same = cc
Judged-undone auth md s c (s', ok r) rb j free room same =
    subst (λ z. rollback z s' ≡ (undone c md s, true)) (ap (rollback_of rb) same)
      (Step-undone j.1 j.0 free room)

-- The rollback of an accepted command succeeds when it comes next. Closing is undone exactly; buying
-- but for the ticket counter; a claim but for the pool, which comes back as one ticket's price,
-- whatever it was; a draw but for the time of the next draw and the winner, of which there is none
-- then. The next ticket's number must be free, and the pool must hold one more ticket.
pub rollback-undone :
    (c : LotteryCommand) (auth : Option ℕ) (md : PayloadMetadata) (s : LotteryEpisode)
    (rb : LotteryRollback)
    → lookup s.next_ticket_id s.tickets ≡ none
    → s.prize_pool + s.ticket_price < 2 ^ 64
    → (execute c auth md s).1 ≡ ok rb
    → rollback rb (execute c auth md s).0 ≡ (undone c md s, true)
rollback-undone c auth md s rb free room same =
    Judged-undone auth md s c (execute c auth md s) rb (lottery-Judged auth md s c) free room same
