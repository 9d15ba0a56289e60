-- ===== src/KasDraw/Episode/Fairness.antt =====
-- Tickets, the draw among them and the pool.
use kaspa_x.Base.{
  ℕ, zero, suc, ◌+◌, ◌*◌, ◌^◌, ◌≡◌, ◌<◌, ◌≤◌, refl, sym, ap, ◌∙◌, inl, inr, Bool, true, false, ◌||◌,
  Option, none, some, List, [], ◌∷◌, ◌==◌, length, get_elem?, contains, add64, sat_add64, is_some,
  arith, subst, Bool-cases,
}
use kaspa_x.Base.Assoc.{Map, contains_key, insert, lookup-insert}
use kaspa_x.Kdapp.Episode.{PayloadMetadata, ok, err}
use kaspa_x.KasDraw.Sorting.{sort, contains-sort, length-sort}
use kaspa_x.KasDraw.Episode.{
  LotteryCommand, LotteryRollback, LotteryEpisode, Ticket, Executed, keys, draw, draw_index,
  set_winner, add_ticket, execute,
}
use kaspa_x.KasDraw.Episode.Rules.{Step, Judged, lottery-Judged}

contains-keys : (m : Map Ticket) (k : ℕ) → contains (keys m) k ≡ contains_key k m
contains-keys [] k = refl
contains-keys ((j, t) ∷ m) k = ground (arith, contains-keys m k)

length-keys : (m : Map Ticket) → length (keys m) ≡ length m
length-keys [] = refl
length-keys ((j, t) ∷ m) = ap suc (length-keys m)

get_elem-contains : (xs : List ℕ) (i w : ℕ) → get_elem? xs i ≡ some w → contains xs w ≡ true
get_elem-contains [] i w h = cc
get_elem-contains (x ∷ xs) zero w h = ground arith
get_elem-contains (x ∷ xs) (suc i) w h = ground (arith, get_elem-contains xs i w h)

get_elem_below : (xs : List ℕ) (i : ℕ) → i < length xs → (w : ℕ) × (get_elem? xs i ≡ some w)
get_elem_below [] i h = absurd (omega arith)
get_elem_below (x ∷ xs) zero h = (x, refl)
get_elem_below (x ∷ xs) (suc i) h = get_elem_below xs i (omega arith)

-- Who wins has a ticket.
draw-contains_key :
    (hash w : ℕ) (tickets : Map Ticket) → draw hash tickets ≡ some w → contains_key w tickets ≡ true
unfolding draw
draw-contains_key hash w tickets h =
    sym (contains-keys tickets w)
    ∙ sym (contains-sort (keys tickets) w)
    ∙ get_elem-contains (sort (keys tickets)) _ w h

-- Where there is a ticket, somebody wins, and it is the holder of one, whatever the accepting hash.
pub draw_lem :
    (hash : ℕ) (tickets : Map Ticket)
    → 0 < length tickets
    → (w : ℕ) × (draw hash tickets ≡ some w) × (contains_key w tickets ≡ true)
unfolding draw
draw_lem hash tickets h = (found.0, found.1, draw-contains_key hash found.0 tickets found.1)
  where
    count : length (sort (keys tickets)) ≡ length tickets
    count = length-sort (keys tickets) ∙ length-keys tickets

    found :
        (w : ℕ) × (get_elem? (sort (keys tickets)) (draw_index hash (sort (keys tickets))) ≡ some w)
    found = get_elem_below (sort (keys tickets)) _ (omega (arith, count))

-- Tickets are numbered below the next number, the pool holds no more than they have cost, and a
-- winner has a ticket.
pub record Fair (s : LotteryEpisode) : Type 0 where
  pub fresh : (k : ℕ) → contains_key k s.tickets ≡ true → k < s.next_ticket_id
  pub pool : s.prize_pool ≤ s.ticket_price * length s.tickets
  pub winner : (w : ℕ) → s.last_winner ≡ some w → contains_key w s.tickets ≡ true

length-insert :
    (k : ℕ) (t : Ticket) (m : Map Ticket)
    → contains_key k m ≡ false
    → length (insert k t m) ≡ suc (length m)
unfolding insert
length-insert k t [] h = refl
length-insert k t ((j, u) ∷ m) h = ground (arith, length-insert k t m)

contains_key-insert :
    (k j : ℕ) (t : Ticket) (m : Map Ticket)
    → contains_key j (insert k t m) ≡ (k == j || contains_key j m)
contains_key-insert k j t m = elim (Bool-cases (k == j)) [
  | inl here ↦ ap is_some (lookup-insert k j t m) ∙ rw here refl
  | inr away ↦ ap is_some (lookup-insert k j t m) ∙ rw away refl
]

next-fresh : (s : LotteryEpisode) → Fair s → contains_key s.next_ticket_id s.tickets ≡ false
next-fresh s h = elim (Bool-cases (contains_key s.next_ticket_id s.tickets)) [
  | inl there ↦ absurd (omega (arith, h.fresh s.next_ticket_id there))
  | inr away ↦ away
]

add_ticket-Fair :
    (pk amount : ℕ) (numbers : List ℕ) (s : LotteryEpisode)
    → amount ≡ s.ticket_price
    → s.next_ticket_id + 1 < 2 ^ 64
    → Fair s
    → Fair (add_ticket pk numbers amount s)
add_ticket-Fair pk amount numbers s price room h = record {
  fresh = λ k e.
      below s.next_ticket_id k (contains_key k s.tickets) room (h.fresh k)
        (sym (contains_key-insert s.next_ticket_id k _ s.tickets) ∙ e);
  pool =
      rw (length-insert s.next_ticket_id _ s.tickets (next-fresh s h))
        (pool_le s.prize_pool amount s.ticket_price (length s.tickets) price h.pool);
  winner = λ w e. contains_key-insert s.next_ticket_id w _ s.tickets ∙ ground (arith, h.winner w e);
}
  where
    below :
        (n k : ℕ) (b : Bool)
        → n + 1 < 2 ^ 64
        → (b ≡ true → k < n)
        → (n == k || b) ≡ true
        → k < add64 n 1
    below n k true room old e = omega (arith, old refl)
    below n k false room old e = ground arith

    pool_le : (p a c n : ℕ) → a ≡ c → p ≤ c * n → sat_add64 p a ≤ c * suc n
    pool_le p a c n e le = ground arith

set_winner-Fair :
    (o : Option ℕ) (t : ℕ) (s : LotteryEpisode)
    → ((w : ℕ) → o ≡ some w → contains_key w s.tickets ≡ true)
    → Fair s
    → Fair (record (set_winner o s) { next_draw_time = t })
set_winner-Fair none t s v h = record { fresh = h.fresh; pool = h.pool; winner = h.winner }
set_winner-Fair (some w) t s v h = record {
  fresh = h.fresh;
  pool = h.pool;
  winner = λ w' e. v w' e;
}

Step-Fair :
    {auth : Option ℕ} {md : PayloadMetadata} {s s' : LotteryEpisode} {c : LotteryCommand}
    {rb : LotteryRollback}
    → Step auth md s c s' rb
    → s.next_ticket_id + 1 < 2 ^ 64
    → Fair s
    → Fair s'
Step-Fair {s} (Step.bought numbers amount pk _ _ _ price _) room h =
    add_ticket-Fair pk amount numbers s price room h
Step-Fair {md} {s} (Step.drawn entropy _) room h =
    set_winner-Fair (draw md.accepting_hash s.tickets) _ s
      (λ w e. draw-contains_key md.accepting_hash w s.tickets e) h
Step-Fair {s} (Step.claimed id round t _ _ _) room h = record {
  fresh = h.fresh;
  pool = omega arith;
  winner = h.winner;
}
Step-Fair {s} Step.closed room h = record { fresh = h.fresh; pool = h.pool; winner = h.winner }

Judged-Fair :
    (auth : Option ℕ) (md : PayloadMetadata) (s : LotteryEpisode) (c : LotteryCommand)
    (x : Executed)
    → Judged auth md s c x
    → s.next_ticket_id + 1 < 2 ^ 64
    → Fair s
    → Fair x.0
Judged-Fair auth md s c (s', ok rb) j room h = Step-Fair j.1 room h
Judged-Fair auth md s c (s', err e) j room h = subst Fair (sym j) h

-- A command, by anybody, keeps it that tickets are numbered below the next number, that the pool holds
-- no more than the tickets have cost, and that the last winner has a ticket; as long as ticket numbers
-- are left.
pub execute-Fair :
    (c : LotteryCommand) (auth : Option ℕ) (md : PayloadMetadata) (s : LotteryEpisode)
    → s.next_ticket_id + 1 < 2 ^ 64
    → Fair s
    → Fair (execute c auth md s).0
execute-Fair c auth md s room h =
    Judged-Fair auth md s c (execute c auth md s) (lottery-Judged auth md s c) room h
