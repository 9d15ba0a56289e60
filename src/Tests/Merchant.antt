-- ===== src/Tests/Merchant.antt =====
-- The off-chain channel, with a toy digest: the bytes' length and the first of them, in 32 places.
use kaspa_x.Base.{
  ℕ, ◌++◌, ◌≤◌, ◌<◌, ◌^◌, inl, inr, ◌≡◌, refl, none, some, List, [], ◌∷◌, arith, length,
  to_le_bytes, from_le_bytes,
}
use kaspa_x.Base.Slices.{byte}
use kaspa_x.Merchant.Tlv.{TlvMsg, sign, encode, decode, bytes_for_sign, verify, mac}
use kaspa_x.Merchant.Tlv.RoundTrip.{IsWellFormed, decode-encode}
use kaspa_x.Merchant.Router.{Router, on_datagram, run, zeros, judge}
use kaspa_x.Merchant.Router.Order.{run-InOrder, InOrder}
use kaspa_x.Merchant.Router.Delivery
use kaspa_x.Merchant.Router.Delivery.{Sendable, Row, signed, run-delivers}
use kaspa_x.Merchant.Router.Replies.{Authentic, on_datagram-twice, on_datagram-Authentic}

abbrev digest : List ℕ → List ℕ
digest bytes = length bytes ∷ byte bytes 0 ∷ zeros 30

abbrev key : List ℕ
key = 7 ∷ 9 ∷ []

abbrev unsigned : ℕ → ℕ → TlvMsg
unsigned kind seq = record {
  version = 1;
  msg_type = kind;
  episode_id = 258;
  seq = seq;
  state_hash = zeros 32;
  payload = 5 ∷ 6 ∷ [];
  auth = zeros 32;
}

abbrev message : ℕ → ℕ → TlvMsg
message kind seq = sign digest key (unsigned kind seq)

message-IsWellFormed : IsWellFormed (message 1 3)
unfolding sign bytes_for_sign
message-IsWellFormed = record {
  version = refl;
  known = omega arith;
  episode_id = omega arith;
  seq = omega arith;
  state_hash = refl;
  payload = omega arith;
  auth = refl;
}

decode-encode_example : decode (encode (message 1 3) ++ 1 ∷ []) ≡ some (message 1 3)
decode-encode_example = decode-encode message-IsWellFormed (1 ∷ [])

-- An opening, a command, the command again, a command too far ahead, and the close.
abbrev datagrams : List (List ℕ × ℕ)
datagrams =
    (encode (message 0 0), 10)
    ∷ (encode (message 1 1), 11)
    ∷ (encode (message 1 1), 12)
    ∷ (encode (message 1 4), 13)
    ∷ (encode (message 3 2), 14)
    ∷ []

abbrev empty : Router
empty = []

run-InOrder_example : InOrder digest key 258 0 (run digest key datagrams empty)
run-InOrder_example = run-InOrder digest key 258 datagrams empty (omega arith)

on_datagram-twice_example :
    on_datagram digest key
      (encode (message 0 0))
      99
      (on_datagram digest key (encode (message 0 0)) 10 empty).0
    ≡ (
      (on_datagram digest key (encode (message 0 0)) 10 empty).0,
      none,
      (on_datagram digest key (encode (message 0 0)) 10 empty).2,
      none,
    )
unfolding on_datagram decode encode bytes_for_sign to_le_bytes from_le_bytes sign verify mac judge
on_datagram-twice_example =
    on_datagram-twice digest key (encode (message 0 0)) 10 99 empty (message 0 0) refl

on_datagram-Authentic_example :
    Authentic digest key
      (decode (encode (message 0 0)))
      10
      (on_datagram digest key (encode (message 0 0)) 10 empty)
on_datagram-Authentic_example = on_datagram-Authentic digest key (encode (message 0 0)) 10 empty

kind-Sendable : (kind seq : ℕ) → kind ≤ 5 → seq < 2 ^ 64 → Sendable 258 (unsigned kind seq)
kind-Sendable kind seq known small = record {
  version = refl;
  known = known;
  episode_id = refl;
  small = omega arith;
  seq = small;
  state_hash = refl;
  payload = omega arith;
}

-- An opening, a command, a checkpoint and the close.
abbrev sent : List (TlvMsg × ℕ)
sent = (unsigned 0 0, 10) ∷ (unsigned 1 1, 11) ∷ (unsigned 5 2, 12) ∷ (unsigned 3 3, 13) ∷ []

sent-Row : Row 258 none (unsigned 0 0 ∷ unsigned 1 1 ∷ unsigned 5 2 ∷ unsigned 3 3 ∷ [])
sent-Row = (
  kind-Sendable 0 0 (omega arith) (omega arith),
  refl,
  refl,
  (
    kind-Sendable 1 1 (omega arith) (omega arith),
    inl refl,
    refl,
    (
      kind-Sendable 5 2 (omega arith) (omega arith),
      inr (inr refl),
      refl,
      (kind-Sendable 3 3 (omega arith) (omega arith), inr (inl refl), refl, tt),
    ),
  ),
)

digest-Long : (x : List ℕ) → 32 ≤ length (digest x)
digest-Long x = omega arith

run-delivers_example :
    (run digest key (Delivery.datagrams digest digest-Long key sent) empty).1
    ≡ signed digest digest-Long key sent
run-delivers_example = run-delivers digest digest-Long key 258 sent empty sent-Row
