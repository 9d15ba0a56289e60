-- ===== src/KasDraw/Episode.antt =====
-- kas-draw/src/episode.rs: a lottery.
-- An entropy source is a byte string. A hash is the little-endian value of its bytes.
pub mod Rules
pub mod Undoing
pub mod Fairness
use kaspa_x.Base.{
  ℕ, zero, suc, ◌+◌, ◌-◌, ◌%◌, ◌^◌, Bool, true, false, not, ◌&&◌, Option, none, some, List, [], ◌∷◌,
  ltb, leb, ◌==◌, if◌then◌else◌, length, get_elem?, contains, any, all, add64, sat_add64,
}
use kaspa_x.Base.Assoc.{Map, lookup, contains_key, insert, erase}
use kaspa_x.Kdapp.Episode.{
  TxOutputInfo, PayloadMetadata, EpisodeError, unauthorized, invalid_command, Result, ok, err,
  Episode,
}
use kaspa_x.KasDraw.Sorting.{sort, ascending}

pub data LotteryCommand : Type 0 where
  buy_ticket : List ℕ → ℕ → LotteryCommand
  execute_draw : List ℕ → LotteryCommand
  claim_prize : ℕ → ℕ → LotteryCommand
  close_episode : LotteryCommand

pub data LotteryRollback : Type 0 where
  undo_buy_ticket : ℕ → LotteryRollback
  undo_execute_draw : ℕ → ℕ → LotteryRollback
  undo_claim_prize : ℕ → LotteryRollback
  undo_close : LotteryRollback

pub data LotteryError : Type 0 where
  invalid_numbers incorrect_price no_ticket draw_not_ready not_authorized : LotteryError

pub record Ticket : Type 0 where
  pub ticket_id : ℕ
  pub player : ℕ
  pub numbers : List ℕ
  pub round : ℕ

pub record LotteryEpisode : Type 0 where
  pub ticket_price : ℕ
  pub numbers_range : ℕ × ℕ
  pub numbers_per_ticket : ℕ
  pub draw_interval_secs : ℕ
  pub current_round : ℕ
  pub round_start_time : ℕ
  pub next_draw_time : ℕ
  pub prize_pool : ℕ
  pub authorized : List ℕ
  pub tickets : Map Ticket
  pub next_ticket_id : ℕ
  pub last_winner : Option ℕ
  pub winner_paid : Bool
  pub paused : Bool

abbrev pub Executed : Type 0
Executed = LotteryEpisode × Result LotteryRollback (EpisodeError LotteryError)

abbrev pub refuse : LotteryError → LotteryEpisode → Executed
refuse e s = (s, err (invalid_command e))

unfoldable pub validate_numbers : LotteryEpisode → List ℕ → Bool
unfolding sort ascending
validate_numbers s numbers =
    if not (s.numbers_per_ticket == 5)
    then false
    else (let v = sort numbers in
        ascending v && all (λ n. leb s.numbers_range.0 n && leb n s.numbers_range.1) v)

unfoldable pub initialize : List ℕ → PayloadMetadata → LotteryEpisode
initialize participants md = record {
  ticket_price = 100000000;
  numbers_range = (1, 35);
  numbers_per_ticket = 5;
  draw_interval_secs = 15;
  current_round = 0;
  round_start_time = md.accepting_time;
  next_draw_time = add64 md.accepting_time 15;
  prize_pool = 0;
  authorized = participants;
  tickets = [];
  next_ticket_id = 1;
  last_winner = none;
  winner_paid = false;
  paused = false;
}

-- Whether some known output is worth the ticket; with no outputs known, nothing is asked.
abbrev pub pays_ticket : LotteryEpisode → Option (List TxOutputInfo) → Bool
pays_ticket s none = true
pays_ticket s (some outs) = any (λ o. leb s.ticket_price o.value) outs

abbrev pub add_ticket : ℕ → List ℕ → ℕ → LotteryEpisode → LotteryEpisode
add_ticket player numbers amount s = record s {
  next_ticket_id = add64 s.next_ticket_id 1;
  tickets =
      insert s.next_ticket_id
        (record {
          ticket_id = s.next_ticket_id;
          player = player;
          numbers = numbers;
          round = s.current_round;
        })
        s.tickets;
  prize_pool = sat_add64 s.prize_pool amount;
}

abbrev pub do_buy_ticket : List ℕ → ℕ → Option ℕ → PayloadMetadata → LotteryEpisode → Executed
do_buy_ticket numbers amount none md s = (s, err unauthorized)
do_buy_ticket numbers amount (some pk) md s =
    if not (contains s.authorized pk)
    then (s, err unauthorized)
    else if not (validate_numbers s numbers)
    then refuse invalid_numbers s
    else if not (amount == s.ticket_price)
    then refuse incorrect_price s
    else if not (pays_ticket s md.tx_outputs)
    then refuse incorrect_price s
    else (add_ticket pk numbers amount s, ok (undo_buy_ticket s.next_ticket_id))

abbrev pub keys : Map Ticket → List ℕ
keys [] = []
keys ((k, t) ∷ m) = k ∷ keys m

-- `u64::from_le_bytes(hash[..8]) as usize % ids.len()`.
abbrev pub draw_index : ℕ → List ℕ → ℕ
draw_index hash ids = hash % 2 ^ 64 % length ids

-- The winner among the tickets, if there are any.
unfoldable pub draw : ℕ → Map Ticket → Option ℕ
unfolding sort
draw hash tickets = let ids = sort (keys tickets) in get_elem? ids (draw_index hash ids)

abbrev pub set_winner : Option ℕ → LotteryEpisode → LotteryEpisode
set_winner none s = s
set_winner (some w) s = record s { last_winner = some w; winner_paid = false }

abbrev pub do_execute_draw : PayloadMetadata → LotteryEpisode → Executed
do_execute_draw md s = if ltb md.accepting_time s.next_draw_time then refuse draw_not_ready s else (
  record (set_winner (draw md.accepting_hash s.tickets) s) {
    next_draw_time = add64 md.accepting_time s.draw_interval_secs;
  },
  ok (undo_execute_draw s.current_round s.prize_pool),
)

abbrev pub claim : ℕ → LotteryEpisode → Option ℕ → Option Ticket → Executed
claim id s (some w) (some t) =
    if w == id && not s.winner_paid
    then (record s { prize_pool = 0; winner_paid = true }, ok (undo_claim_prize id))
    else refuse no_ticket s
claim id s (some w) none = refuse no_ticket s
claim id s none t = refuse no_ticket s

abbrev pub execute_open : LotteryCommand → Option ℕ → PayloadMetadata → LotteryEpisode → Executed
execute_open (buy_ticket numbers amount) auth md s = do_buy_ticket numbers amount auth md s
execute_open (execute_draw _) auth md s = do_execute_draw md s
execute_open (claim_prize id _) auth md s = claim id s s.last_winner (lookup id s.tickets)
execute_open close_episode auth md s =
    if s.paused then refuse not_authorized s else (record s { paused = true }, ok undo_close)

unfoldable pub execute : LotteryCommand → Option ℕ → PayloadMetadata → LotteryEpisode → Executed
unfolding validate_numbers draw
execute c auth md s = if s.paused then refuse not_authorized s else execute_open c auth md s

-- `saturating_sub` is the subtraction of ℕ.
unfoldable pub rollback : LotteryRollback → LotteryEpisode → LotteryEpisode × Bool
rollback (undo_buy_ticket id) s =
    if contains_key id s.tickets
    then (
      record s { tickets = erase id s.tickets; prize_pool = s.prize_pool - s.ticket_price },
      true,
    )
    else (s, false)
rollback (undo_execute_draw round pool) s = (
  record s { current_round = round; prize_pool = pool; last_winner = none; winner_paid = false },
  true,
)
rollback (undo_claim_prize _) s =
    (record s { prize_pool = s.ticket_price; winner_paid = false }, true)
rollback undo_close s = (record s { paused = false }, true)

abbrev pub episode : Episode LotteryEpisode LotteryCommand LotteryRollback LotteryError
episode = record { initialize = initialize; execute = execute; rollback = rollback }
