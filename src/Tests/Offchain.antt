-- ===== src/Tests/Offchain.antt =====
-- The lottery's off-chain channel: an episode is opened, commanded, closed and opened again.
use kaspa_x.Base.{
  ℕ, zero, suc, ◌≡◌, refl, Bool, true, false, none, List, [], ◌∷◌, length, to_le_bytes,
  from_le_bytes,
}
use kaspa_x.Base.Assoc.{lookup, insert, erase}
use kaspa_x.Kdapp.Engine.{blk_accepted, EpisodeMessage, unsigned_command}
use kaspa_x.KasDraw.Episode.{LotteryCommand, close_episode}
use kaspa_x.KasDraw.Tlv.{TlvMsg, encode, decode}
use kaspa_x.KasDraw.Offchain.{Numbers, is_accepted, run_udp}
use kaspa_x.KasDraw.Offchain.Sessions.{Session, run_udp-Session}

abbrev zeros : ℕ → List ℕ
zeros zero = []
zeros (suc n) = 0 ∷ zeros n

abbrev message : ℕ → ℕ → TlvMsg
message type seq = record {
  version = 1;
  msg_type = type;
  episode_id = 4294967301;
  seq = seq;
  state_hash = zeros 32;
  payload = 8 ∷ 9 ∷ [];
}

abbrev to_vec : EpisodeMessage LotteryCommand → List ℕ
to_vec (unsigned_command id close_episode) = id ∷ []
to_vec _ = []

-- The command of number 3 comes too early, and the second close is lost on its way to the engine.
abbrev datagrams : List (List ℕ × ℕ × Bool)
datagrams =
    (encode (message 0 0), 10, true)
    ∷ (encode (message 1 1), 11, true)
    ∷ (encode (message 1 3), 12, true)
    ∷ (encode (message 3 2), 13, true)
    ∷ (encode (message 0 0), 14, true)
    ∷ (encode (message 3 1), 15, false)
    ∷ []

abbrev empty : Numbers
empty = []

run_udp-Session_example :
    Session true 4294967301 none
      (run_udp true true to_vec datagrams empty).1
      (lookup 4294967301 (run_udp true true to_vec datagrams empty).0)
run_udp-Session_example = run_udp-Session true true to_vec 4294967301 datagrams empty

five_taken : length (run_udp true true to_vec datagrams empty).1 ≡ 5
unfolding run_udp is_accepted encode decode insert erase to_le_bytes from_le_bytes
five_taken = refl

-- The close of episode 2^32 + 5, opened under its own numbers, reaches the engine as one of episode 5.
closes_five :
    (run_udp true true to_vec
      ((encode (message 0 0), 10, true) ∷ (encode (message 3 1), 11, true) ∷ [])
      empty).2
    ≡ blk_accepted 0 0 10 ((0, 8 ∷ 9 ∷ [], none) ∷ [])
      ∷ blk_accepted 0 1 11 ((0, 5 ∷ [], none) ∷ [])
      ∷ []
unfolding run_udp is_accepted encode decode insert erase to_le_bytes from_le_bytes
closes_five = refl
