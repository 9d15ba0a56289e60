-- ===== src/KasDraw/Offchain.antt =====
-- kas-draw/src/offchain.rs: the lottery's off-chain messages, in order for each episode, are handed to
-- the engine as blocks of one transaction. What arrives is a list of datagrams, each with the time of
-- the clock and whether the engine's channel takes an event then.
pub mod Sessions
use kaspa_x.Base.{
  ℕ, ◌%◌, ◌^◌, Bool, true, false, not, ◌&&◌, Option, none, some, List, [], ◌∷◌, ◌==◌, if◌then◌else◌,
  add64,
}
use kaspa_x.Base.Assoc.{Map, lookup, insert, erase}
use kaspa_x.Kdapp.Engine.{EngineMsg, blk_accepted, EpisodeMessage, unsigned_command}
use kaspa_x.KasDraw.Episode.{LotteryCommand, close_episode}
use kaspa_x.KasDraw.Tlv.{
  TlvMsg, MsgType, new, cmd, ack, close, ack_close, checkpoint, tlv_version, to_u8, from_u8, encode,
  decode,
}

-- The last number of each episode.
abbrev pub Numbers : Type 0
Numbers = Map ℕ

abbrev pub is_next : Option ℕ → ℕ → Bool
is_next none seq = false
is_next (some prev) seq = seq == add64 prev 1

abbrev pub is_first : Option ℕ → ℕ → Bool
is_first none seq = seq == 0
is_first (some prev) seq = false

abbrev pub is_close : MsgType → Bool
is_close close = true
is_close new = false
is_close cmd = false
is_close ack = false
is_close ack_close = false
is_close checkpoint = false

-- A message that was taken, and whether the engine has it.
abbrev pub Taken : Type 0
Taken = TlvMsg × MsgType × Bool

-- The numbers afterwards, the event for the engine, the bytes sent back, and the message if it was
-- taken.
abbrev pub Routed : Type 0
Routed = Numbers × Option EngineMsg × Option (List ℕ) × Option Taken

abbrev pub default_hash : ℕ
default_hash = 0

abbrev pub ack_type : MsgType → ℕ
ack_type mt = if is_close mt then to_u8 ack_close else to_u8 ack

-- `OffchainRouter`: whether it answers and whether it lets episodes be closed; borsh comes from outside.
module _ (ack_enabled close_enabled : Bool) (to_vec : EpisodeMessage LotteryCommand → List ℕ) where
  unfoldable pub is_accepted : MsgType → Option ℕ → ℕ → Bool
  is_accepted new last seq = is_first last seq
  is_accepted cmd last seq = is_next last seq
  is_accepted ack last seq = false
  is_accepted close last seq = close_enabled && is_next last seq
  is_accepted ack_close last seq = false
  is_accepted checkpoint last seq = is_next last seq

  abbrev pub event : TlvMsg → ℕ → List ℕ → EngineMsg
  event msg now payload = blk_accepted default_hash msg.seq now ((default_hash, payload, none) ∷ [])

  abbrev pub acknowledgement : TlvMsg → MsgType → Option (List ℕ)
  acknowledgement msg mt =
      if ack_enabled
      then some (
          encode (record {
            version = tlv_version;
            msg_type = ack_type mt;
            episode_id = msg.episode_id;
            seq = msg.seq;
            state_hash = msg.state_hash;
            payload = [];
          }))
      else none

  -- A message that goes to the engine, if the channel takes it.
  abbrev pub deliver : TlvMsg → MsgType → ℕ → Bool → List ℕ → Numbers → Routed
  deliver msg mt now false payload map = (map, none, none, some (msg, mt, false))
  deliver msg mt now true payload map = (
    if is_close mt then erase msg.episode_id map else map,
    some (event msg now payload),
    acknowledgement msg mt,
    some (msg, mt, true),
  )

  -- `msg.episode_id as u32`.
  abbrev pub close_message : TlvMsg → EpisodeMessage LotteryCommand
  close_message msg = unsigned_command (msg.episode_id % 2 ^ 32) close_episode

  abbrev pub forward : TlvMsg → MsgType → ℕ → Bool → Numbers → Routed
  forward msg close now sent map = deliver msg close now sent (to_vec (close_message msg)) map
  forward msg checkpoint now sent map =
      (map, none, acknowledgement msg checkpoint, some (msg, checkpoint, false))
  forward msg new now sent map = deliver msg new now sent msg.payload map
  forward msg cmd now sent map = deliver msg cmd now sent msg.payload map
  forward msg ack now sent map = deliver msg ack now sent msg.payload map
  forward msg ack_close now sent map = deliver msg ack_close now sent msg.payload map

  abbrev pub number : MsgType → ℕ → ℕ
  number new seq = 0
  number cmd seq = seq
  number ack seq = seq
  number close seq = seq
  number ack_close seq = seq
  number checkpoint seq = seq

  abbrev pub route_type : TlvMsg → Option MsgType → ℕ → Bool → Numbers → Routed
  route_type msg none now sent map = (map, none, none, none)
  route_type msg (some mt) now sent map =
      if is_accepted mt (lookup msg.episode_id map) msg.seq
      then forward msg mt now sent (insert msg.episode_id (number mt msg.seq) map)
      else (map, none, none, none)

  abbrev pub route : Option TlvMsg → ℕ → Bool → Numbers → Routed
  route none now sent map = (map, none, none, none)
  route (some msg) now sent map =
      if msg.version == tlv_version
      then route_type msg (from_u8 msg.msg_type) now sent map
      else (map, none, none, none)

  -- One datagram.
  unfoldable pub on_datagram : List ℕ × ℕ × Bool → Numbers → Routed
  unfolding is_accepted
  on_datagram (bytes, now, sent) map = route (decode bytes) now sent map

  abbrev pub push_some {ℓ} : {A : Type ℓ} → Option A → List A → List A
  push_some none xs = xs
  push_some (some x) xs = x ∷ xs

  -- `run_udp` over the datagrams that arrive: the numbers, the messages taken and the engine's events.
  unfoldable pub run_udp :
      List (List ℕ × ℕ × Bool) → Numbers → Numbers × List Taken × List EngineMsg
  unfolding on_datagram
  run_udp [] map = (map, [], [])
  run_udp (d ∷ ds) map =
      let (map', ev, _, msg) = on_datagram d map in
      let (map'', msgs, evs) = run_udp ds map' in (map'', push_some msg msgs, push_some ev evs)
