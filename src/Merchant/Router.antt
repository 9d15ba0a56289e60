-- ===== src/Merchant/Router.antt =====
-- kdapp-merchant/src/udp_router.rs and tcp_router.rs: off-chain messages, in order for each episode,
-- are handed to the engine as blocks of one transaction. The two routers treat a message alike;
-- they differ in how they cut it out of what arrives.
-- A send on the engine's channel that fails is only logged, so the router's step does not depend on
-- it. The clock is an argument.
pub mod Order
pub mod Replies
pub mod Delivery
use kaspa_x.Base.{
  ℕ, zero, suc, ◌+◌, Bool, true, false, Option, none, some, List, [], ◌∷◌, ◌++◌, ltb, ◌==◌,
  if◌then◌else◌, length, add64, take, drop, from_le_bytes,
}
use kaspa_x.Base.Assoc.{Map, lookup, insert}
use kaspa_x.Base.Slices.{byte}
use kaspa_x.Kdapp.Engine.{EngineMsg, blk_accepted}
use kaspa_x.Merchant.Tlv.{
  TlvMsg, MsgType, new, cmd, ack, close, ack_close, checkpoint, tlv_version, to_u8, from_u8, encode,
  decode, sign, verify,
}

pub record AckState : Type 0 where
  pub seq : ℕ
  pub ack : List ℕ

abbrev pub Router : Type 0
Router = Map AckState

-- What the sequencing says of a message: take it, answer it again, drop it.
pub data Verdict : Type 0 where
  accepted : Verdict
  replayed : List ℕ → Verdict
  dropped : Verdict

abbrev judge_next : Option AckState → ℕ → Verdict
judge_next none seq = dropped
judge_next (some info) seq =
    if seq == add64 info.seq 1
    then accepted
    else if seq == info.seq
    then replayed info.ack
    else dropped

abbrev judge_new : Option AckState → ℕ → Verdict
judge_new none seq = if seq == 0 then accepted else dropped
judge_new (some info) seq = if seq == info.seq then replayed info.ack else dropped

unfoldable pub judge : MsgType → Option AckState → ℕ → Verdict
judge new entry seq = judge_new entry seq
judge cmd entry seq = judge_next entry seq
judge close entry seq = judge_next entry seq
judge checkpoint entry seq = judge_next entry seq
judge ack entry seq = dropped
judge ack_close entry seq = dropped

-- The router afterwards, the event for the engine, the bytes sent back, and the message if it was
-- accepted.
abbrev pub Routed : Type 0
Routed = Router × Option EngineMsg × Option (List ℕ) × Option TlvMsg

-- The hash of the synthetic block, and its transaction's id: `Hash::default()`.
abbrev pub default_hash : ℕ
default_hash = 0

abbrev pub event : TlvMsg → ℕ → MsgType → Option EngineMsg
event msg now checkpoint = none
event msg now new =
    some (blk_accepted default_hash msg.seq now ((default_hash, msg.payload, none) ∷ []))
event msg now cmd =
    some (blk_accepted default_hash msg.seq now ((default_hash, msg.payload, none) ∷ []))
event msg now close =
    some (blk_accepted default_hash msg.seq now ((default_hash, msg.payload, none) ∷ []))
event msg now ack =
    some (blk_accepted default_hash msg.seq now ((default_hash, msg.payload, none) ∷ []))
event msg now ack_close =
    some (blk_accepted default_hash msg.seq now ((default_hash, msg.payload, none) ∷ []))

abbrev pub ack_type : MsgType → ℕ
ack_type close = to_u8 ack_close
ack_type new = to_u8 ack
ack_type cmd = to_u8 ack
ack_type ack = to_u8 ack
ack_type ack_close = to_u8 ack
ack_type checkpoint = to_u8 ack

abbrev pub zeros : ℕ → List ℕ
zeros zero = []
zeros (suc n) = 0 ∷ zeros n

module _ (blake2b : List ℕ → List ℕ) (key : List ℕ) where
  unfoldable pub acknowledgement : TlvMsg → MsgType → List ℕ
  acknowledgement msg mt = encode (
      sign blake2b key (record {
        version = tlv_version;
        msg_type = ack_type mt;
        episode_id = msg.episode_id;
        seq = msg.seq;
        state_hash = msg.state_hash;
        payload = [];
        auth = zeros 32;
      }))

  abbrev pub settle : TlvMsg → MsgType → ℕ → Router → Verdict → Routed
  settle msg mt now map accepted =
      let bytes = acknowledgement msg mt in
      (
        insert msg.episode_id (record { seq = msg.seq; ack = bytes }) map,
        event msg now mt,
        some bytes,
        some msg,
      )
  settle msg mt now map (replayed bytes) = (map, none, some bytes, none)
  settle msg mt now map dropped = (map, none, none, none)

  abbrev pub route_type : TlvMsg → Option MsgType → ℕ → Router → Routed
  route_type msg none now map = (map, none, none, none)
  route_type msg (some mt) now map =
      if verify blake2b key msg
      then settle msg mt now map (judge mt (lookup msg.episode_id map) msg.seq)
      else (map, none, none, none)

  abbrev pub route_decoded : Option TlvMsg → ℕ → Router → Routed
  route_decoded none now map = (map, none, none, none)
  route_decoded (some msg) now map =
      if msg.version == tlv_version
      then route_type msg (from_u8 msg.msg_type) now map
      else (map, none, none, none)

  -- One datagram, at a time of the clock.
  unfoldable pub on_datagram : List ℕ → ℕ → Router → Routed
  on_datagram bytes now map = route_decoded (decode bytes) now map

  abbrev pub push_some {ℓ} : {A : Type ℓ} → Option A → List A → List A
  push_some none xs = xs
  push_some (some x) xs = x ∷ xs

  -- `UdpRouter::run` over the datagrams that arrive: the router, and the accepted messages in order.
  unfoldable pub run : List (List ℕ × ℕ) → Router → Router × List TlvMsg
  run [] map = (map, [])
  run ((bytes, now) ∷ rest) map =
      let (map', _, _, msg) = on_datagram bytes now map in
      let (map'', msgs) = run rest map' in (map'', push_some msg msgs)

  -- `TcpRouter::handle_stream`: messages are cut out of the stream by the length in their header, as
  -- long as they are whole. Each takes at least 84 bytes, so the stream's length is enough fuel.
  unfoldable pub handle_stream : ℕ → List ℕ → ℕ → Router → Router × List TlvMsg
  handle_stream zero stream now map = (map, [])
  handle_stream (suc fuel) stream now map =
      let payload_len = from_le_bytes (byte stream 50 ∷ byte stream 51 ∷ []) in
      let size = 52 + (payload_len + 32) in
      let next : Router × List TlvMsg =
        (let (map', _, _, msg) = route_decoded (decode (take size stream)) now map in
          let (map'', msgs) = handle_stream fuel (drop size stream) now map' in
          (map'', push_some msg msgs)) in
      if ltb (length stream) 52
      then (map, [])
      else if ltb (length stream) size
      then (map, [])
      else next
