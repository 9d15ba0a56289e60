-- ===== src/Merchant/Router/Replies.antt =====
-- What the routers send: to the engine, and to the sender of a message.
use kaspa_x.Base.{
  ℕ, ◌≡◌, refl, sym, inl, inr, true, false, Option, none, some, List, [], ◌∷◌, arith, ◌==◌, add64,
  Bool-cases, Option-cases, ==_refl, ==_ne,
}
use kaspa_x.Base.Assoc.{lookup, insert, lookup-insert_self}
use kaspa_x.Merchant.Tlv.{
  TlvMsg, MsgType, new, cmd, ack, close, ack_close, checkpoint, decode, from_u8, verify,
  tlv_version,
}
use kaspa_x.Kdapp.Engine.{EngineMsg, blk_accepted}
use kaspa_x.Merchant.Router.{
  AckState, Router, Verdict, accepted, replayed, dropped, judge, settle, route_type, route_decoded,
  on_datagram, Routed, event, acknowledgement, default_hash,
}

next_ne : (n : ℕ) → (n == add64 n 1) ≡ false
next_ne n = ==_ne n (add64 n 1) (λ h. omega arith)

-- A taken message, met again, is a repetition.
judge_again :
    (mt : MsgType) (entry : Option AckState) (seq : ℕ) (bytes : List ℕ)
    → judge mt entry seq ≡ accepted
    → judge mt (some (record { seq = seq; ack = bytes })) seq ≡ replayed bytes
unfolding judge
judge_again new entry seq bytes h = rw (==_refl seq) refl
judge_again cmd entry seq bytes h = rw (next_ne seq, ==_refl seq) refl
judge_again close entry seq bytes h = rw (next_ne seq, ==_refl seq) refl
judge_again checkpoint entry seq bytes h = rw (next_ne seq, ==_refl seq) refl
judge_again ack entry seq bytes h = cc
judge_again ack_close entry seq bytes h = cc

-- An event says what its message says.
event-Says :
    (msg : TlvMsg) (now : ℕ) (mt : MsgType) (ev : EngineMsg)
    → event msg now mt ≡ some ev
    → some ev
      ≡ some (blk_accepted default_hash msg.seq now ((default_hash, msg.payload, none) ∷ []))
event-Says msg now new ev e = sym e
event-Says msg now cmd ev e = sym e
event-Says msg now close ev e = sym e
event-Says msg now ack ev e = sym e
event-Says msg now ack_close ev e = sym e
event-Says msg now checkpoint ev e = cc

module _ (blake2b : List ℕ → List ℕ) (key : List ℕ) where
  -- What one message did, met again.
  abbrev pub Repeats : Option TlvMsg → ℕ → Routed → Type 0
  Repeats m later (map, _, _, none) = Unit {0}
  Repeats m later (map, _, reply, some _) =
      route_decoded blake2b key m later map ≡ (map, none, reply, none)

  settle-Repeats :
      (msg : TlvMsg) (mt : MsgType) (now later : ℕ) (map : Router) (v : Verdict)
      → (msg.version == tlv_version) ≡ true
      → from_u8 msg.msg_type ≡ some mt
      → verify blake2b key msg ≡ true
      → judge mt (lookup msg.episode_id map) msg.seq ≡ v
      → Repeats (some msg) later (settle blake2b key msg mt now map v)
  settle-Repeats msg mt now later map accepted current typed good e =
      let bytes = acknowledgement blake2b key msg mt in
      rw
        (
          current,
          typed,
          good,
          lookup-insert_self msg.episode_id (record { seq = msg.seq; ack = bytes }) map,
          judge_again mt (lookup msg.episode_id map) msg.seq bytes e,
        )
        refl
  settle-Repeats msg mt now later map (replayed bytes) current typed good e = tt
  settle-Repeats msg mt now later map dropped current typed good e = tt

  route-Repeats :
      (m : Option TlvMsg) (now later : ℕ) (map : Router)
      → Repeats m later (route_decoded blake2b key m now map)
  route-Repeats none now later map = tt
  route-Repeats (some msg) now later map = elim (Bool-cases (msg.version == tlv_version)) [
    | inr other ↦ rw other tt
    | inl current ↦ elim (Option-cases (from_u8 msg.msg_type)) [
      | inl untyped ↦ rw (current, untyped) tt
      | inr (mt, typed) ↦ elim (Bool-cases (verify blake2b key msg)) [
        | inr bad ↦ rw (current, typed, bad) tt
        | inl good ↦
            rw (current, typed, good)
              (settle-Repeats msg mt now later map _ current typed good refl)
      ]
    ]
  ]

  -- A datagram whose message the router took is, when it arrives again next, answered with the same
  -- acknowledgement, byte for byte; nothing goes to the engine and the router stays as it is.
  pub on_datagram-twice :
      (bytes : List ℕ) (now later : ℕ) (map : Router) (msg : TlvMsg)
      → (on_datagram blake2b key bytes now map).3 ≡ some msg
      → on_datagram blake2b key bytes later (on_datagram blake2b key bytes now map).0 ≡ (
        (on_datagram blake2b key bytes now map).0,
        none,
        (on_datagram blake2b key bytes now map).2,
        none,
      )
  unfolding on_datagram
  on_datagram-twice bytes now later map msg e =
      taken (route_decoded blake2b key (decode bytes) now map) e
        (route-Repeats (decode bytes) now later map)
    where
      taken :
          (r : Routed)
          → r.3 ≡ some msg
          → Repeats (decode bytes) later r
          → route_decoded blake2b key (decode bytes) later r.0 ≡ (r.0, none, r.2, none)
      taken (map', sent, reply, none) e h = cc
      taken (map', sent, reply, some _) e h = h

  -- Where an event, if there is one, comes from.
  abbrev pub Authentic : Option TlvMsg → ℕ → Routed → Type 0
  Authentic m now (map, none, _, _) = Unit {0}
  Authentic m now (map, some ev, _, _) =
      (msg : TlvMsg) × (m ≡ some msg)
      × (verify blake2b key msg ≡ true)
      × (some ev
          ≡ some (blk_accepted default_hash msg.seq now ((default_hash, msg.payload, none) ∷ [])))

  settle-Authentic :
      (msg : TlvMsg) (mt : MsgType) (now : ℕ) (map : Router) (v : Verdict)
      → verify blake2b key msg ≡ true
      → Authentic (some msg) now (settle blake2b key msg mt now map v)
  settle-Authentic msg mt now map accepted good = go (event msg now mt) refl
    where
      go :
          (o : Option EngineMsg)
          → event msg now mt ≡ o
          → Authentic (some msg) now (
            insert msg.episode_id
                (record { seq = msg.seq; ack = acknowledgement blake2b key msg mt })
                map,
            o,
            some (acknowledgement blake2b key msg mt),
            some msg,
          )
      go none e = tt
      go (some ev) e = (msg, refl, good, event-Says msg now mt ev e)
  settle-Authentic msg mt now map (replayed bytes) good = tt
  settle-Authentic msg mt now map dropped good = tt

  -- What goes to the engine is a block of one transaction whose payload is that of an authenticated
  -- message: the datagram decodes, its MAC is the key's, and the block's DAA score is the message's
  -- number. Any other datagram sends the engine nothing.
  pub on_datagram-Authentic :
      (bytes : List ℕ) (now : ℕ) (map : Router)
      → Authentic (decode bytes) now (on_datagram blake2b key bytes now map)
  unfolding on_datagram
  on_datagram-Authentic bytes now map = go (decode bytes)
    where
      typed_case :
          (msg : TlvMsg) (mt : Option MsgType)
          → Authentic (some msg) now (route_type blake2b key msg mt now map)
      typed_case msg none = tt
      typed_case msg (some mt) = elim (Bool-cases (verify blake2b key msg)) [
        | inl good ↦ rw good (settle-Authentic msg mt now map _ good)
        | inr bad ↦ rw bad tt
      ]

      go : (m : Option TlvMsg) → Authentic m now (route_decoded blake2b key m now map)
      go none = tt
      go (some msg) = elim (Bool-cases (msg.version == tlv_version)) [
        | inl current ↦ rw current (typed_case msg (from_u8 msg.msg_type))
        | inr other ↦ rw other tt
      ]
