-- ===== src/Merchant/Router/Order.antt =====
-- The order of an episode's accepted messages.
use native.Mathlib.Decide.{ℕ_discrete}
use kaspa_x.Base.{
  ℕ, zero, suc, ◌+◌, ◌≤◌, ◌<◌, ◌^◌, ◌≡◌, ◌≢◌, refl, sym, ap, ◌∙◌, subst, inl, inr, ◌⊎◌, Option,
  none, some, List, [], ◌∷◌, arith, ◌==◌, if◌then◌else◌, length, Bool-cases, ==_refl, ==_ne, ltb,
  drop, take, from_le_bytes,
}
use kaspa_x.Base.Assoc.{lookup, insert, lookup-insert_self, lookup-insert_ne}
use kaspa_x.Base.Slices.{byte}
use kaspa_x.Merchant.Tlv.{
  TlvMsg, MsgType, new, cmd, ack, close, ack_close, checkpoint, decode, from_u8, verify,
  tlv_version,
}
use kaspa_x.Kdapp.Engine.{EngineMsg}
use kaspa_x.Merchant.Router.{
  AckState, Router, Verdict, accepted, replayed, dropped, judge, settle, route_type, route_decoded,
  on_datagram, run, push_some, Routed, event, acknowledgement, handle_stream,
}

-- The number that an episode's next message must have.
abbrev pub expected_of : Option AckState → ℕ
expected_of none = 0
expected_of (some info) = info.seq + 1

abbrev pub expected : ℕ → Router → ℕ
expected ep map = expected_of (lookup ep map)

-- A taken message has the expected number, unless the counter has wrapped round.
judge-accepted :
    (mt : MsgType) (entry : Option AckState) (seq : ℕ)
    → expected_of entry < 2 ^ 64
    → judge mt entry seq ≡ accepted
    → seq ≡ expected_of entry
unfolding judge
judge-accepted new none seq h e = ground arith
judge-accepted new (some info) seq h e = ground arith
judge-accepted cmd none seq h e = cc
judge-accepted cmd (some info) seq h e = ground arith
judge-accepted close none seq h e = cc
judge-accepted close (some info) seq h e = ground arith
judge-accepted checkpoint none seq h e = cc
judge-accepted checkpoint (some info) seq h e = ground arith
judge-accepted ack entry seq h e = cc
judge-accepted ack_close entry seq h e = cc

-- The sequence numbers of an episode's messages.
abbrev pub seqs : ℕ → List TlvMsg → List ℕ
seqs ep [] = []
seqs ep (m ∷ ms) = if m.episode_id == ep then m.seq ∷ seqs ep ms else seqs ep ms

abbrev pub range_from : ℕ → ℕ → List ℕ
range_from n zero = []
range_from n (suc k) = n ∷ range_from (n + 1) k

-- A step takes an episode's expected message and expects the next one, or leaves its count alone.
abbrev pub Steps : ℕ → Router → Routed → Type 0
Steps ep map (map', _, _, none) = expected ep map' ≡ expected ep map
Steps ep map (map', _, _, some msg) =
    ((msg.episode_id ≡ ep) × (msg.seq ≡ expected ep map) × (expected ep map' ≡ expected ep map + 1))
    ⊎ ((msg.episode_id ≢ ep) × (expected ep map' ≡ expected ep map))

module _ (blake2b : List ℕ → List ℕ) (key : List ℕ) (ep : ℕ) where
  -- Taking the message that its episode waits for.
  taken-Steps :
      (msg : TlvMsg) (info : AckState) (map : Router) (sent : Option EngineMsg)
      (reply : Option (List ℕ))
      → info.seq ≡ msg.seq
      → (msg.episode_id ≡ ep → msg.seq ≡ expected ep map)
      → Steps ep map (insert msg.episode_id info map, sent, reply, some msg)
  taken-Steps msg info map sent reply same right = elim (ℕ_discrete msg.episode_id ep) [
    | yes mine ↦
        let found : lookup ep (insert msg.episode_id info map) ≡ some info =
          ap (λ k. lookup k (insert msg.episode_id info map)) (sym mine)
          ∙ lookup-insert_self msg.episode_id info map in
        inl (mine, right mine, ap expected_of found ∙ omega (arith, right mine))
    | no other ↦ inr (other, ap expected_of (lookup-insert_ne msg.episode_id ep info map other))
  ]

  settle-Steps :
      (msg : TlvMsg) (mt : MsgType) (now : ℕ) (map : Router) (v : Verdict)
      → expected ep map < 2 ^ 64
      → judge mt (lookup msg.episode_id map) msg.seq ≡ v
      → Steps ep map (settle blake2b key msg mt now map v)
  settle-Steps msg mt now map accepted bound e =
      taken-Steps msg _ map (event msg now mt) (some (acknowledgement blake2b key msg mt)) refl
        λ mine.
          subst (λ k. msg.seq ≡ expected k map) mine
            (judge-accepted mt (lookup msg.episode_id map) msg.seq
              (subst (λ k. expected k map < 2 ^ 64) (sym mine) bound) e)
  settle-Steps msg mt now map (replayed bytes) bound e = refl
  settle-Steps msg mt now map dropped bound e = refl

  route_type-Steps :
      (msg : TlvMsg) (mt : Option MsgType) (now : ℕ) (map : Router)
      → expected ep map < 2 ^ 64
      → Steps ep map (route_type blake2b key msg mt now map)
  route_type-Steps msg none now map bound = refl
  route_type-Steps msg (some mt) now map bound = elim (Bool-cases (verify blake2b key msg)) [
    | inl good ↦ rw good (settle-Steps msg mt now map _ bound refl)
    | inr bad ↦ rw bad refl
  ]

  pub route_decoded-Steps :
      (m : Option TlvMsg) (now : ℕ) (map : Router)
      → expected ep map < 2 ^ 64
      → Steps ep map (route_decoded blake2b key m now map)
  route_decoded-Steps none now map bound = refl
  route_decoded-Steps (some msg) now map bound = elim (Bool-cases (msg.version == tlv_version)) [
    | inl current ↦ rw current (route_type-Steps msg (from_u8 msg.msg_type) now map bound)
    | inr other ↦ rw other refl
  ]

  -- From `before` on, the messages taken are numbered in a row, and the router counts them.
  abbrev pub InOrder : ℕ → Router × List TlvMsg → Type 0
  InOrder before r =
      (seqs ep r.1 ≡ range_from before (length (seqs ep r.1)))
      × (expected ep r.0 ≡ before + length (seqs ep r.1))

  pub step-InOrder :
      (map : Router) (r : Routed) (rest : Router × List TlvMsg)
      → Steps ep map r
      → InOrder (expected ep r.0) rest
      → InOrder (expected ep map) (rest.0, push_some blake2b key r.3 rest.1)
  step-InOrder map (map', sent, reply, none) rest s o = rw s at o
  step-InOrder map (map', sent, reply, some msg) rest (inl (mine, num, moved)) o =
      rw (mine, ==_refl ep)
        (
          λ i. num i ∷ (o.0 ∙ ap (λ k. range_from k (length (seqs ep rest.1))) moved) i,
          omega (arith, o.1, moved),
        )
  step-InOrder map (map', sent, reply, some msg) rest (inr (other, kept)) o =
      rw (==_ne msg.episode_id ep other) (rw kept at o)

  expected-step :
      (map : Router) (r : Routed) → Steps ep map r → expected ep r.0 ≤ expected ep map + 1
  expected-step map (map', sent, reply, none) s = omega (arith, s)
  expected-step map (map', sent, reply, some msg) (inl s) = omega (arith, s.2)
  expected-step map (map', sent, reply, some msg) (inr s) = omega (arith, s.1)

  -- Over any datagrams, at any times: the messages of an episode that the UDP router accepts carry
  -- the numbers that it expects, each once, in order and without a gap; and it then expects the one
  -- behind the last. The datagrams must be fewer than the numbers that are left below 2^64.
  pub run-InOrder :
      (ds : List (List ℕ × ℕ)) (map : Router)
      → expected ep map + length ds < 2 ^ 64
      → InOrder (expected ep map) (run blake2b key ds map)
  unfolding run on_datagram
  run-InOrder [] map bound = (refl, omega arith)
  run-InOrder ((bytes, now) ∷ ds) map bound =
      let s = route_decoded-Steps (decode bytes) now map (omega arith) in
      step-InOrder map (route_decoded blake2b key (decode bytes) now map) _ s (
        run-InOrder ds _
          (omega (arith, expected-step map (route_decoded blake2b key (decode bytes) now map) s)))

  -- The same of the messages that the TCP router cuts out of a stream.
  pub handle_stream-InOrder :
      (fuel : ℕ) (stream : List ℕ) (now : ℕ) (map : Router)
      → expected ep map + fuel < 2 ^ 64
      → InOrder (expected ep map) (handle_stream blake2b key fuel stream now map)
  unfolding handle_stream
  handle_stream-InOrder zero stream now map bound = (refl, omega arith)
  handle_stream-InOrder (suc fuel) stream now map bound =
      elim (Bool-cases (ltb (length stream) 52)) [
        | inl short ↦ rw short (refl, omega arith)
        | inr long ↦ elim (Bool-cases (ltb (length stream) size)) [
          | inl cut ↦ rw (long, cut) (refl, omega arith)
          | inr whole ↦
              rw (long, whole)
                (step-InOrder map r _ s (
                  handle_stream-InOrder fuel (drop size stream) now r.0
                    (omega (arith, expected-step map r s))))
        ]
      ]
    where
      size : ℕ
      size = 52 + (from_le_bytes (byte stream 50 ∷ byte stream 51 ∷ []) + 32)

      r : Routed
      r = route_decoded blake2b key (decode (take size stream)) now map

      s : Steps ep map r
      s = route_decoded-Steps (decode (take size stream)) now map (omega arith)
