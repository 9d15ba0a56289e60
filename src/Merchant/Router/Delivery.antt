-- ===== src/Merchant/Router/Delivery.antt =====
-- What a sender achieves who signs the messages of an episode and sends them in order.
use mathlib.Core.List.{append-nil}
use kaspa_x.Base.{
  ℕ, suc, ◌+◌, ◌^◌, ◌≤◌, ◌<◌, ◌≡◌, refl, sym, ap, ◌∙◌, subst, inl, inr, ◌⊎◌, true, Option, none,
  some, List, [], ◌∷◌, ◌++◌, arith, ◌==◌, length, length-take_le,
}
use kaspa_x.Base
use kaspa_x.Base.Assoc.{lookup, insert, lookup-insert_self}
use kaspa_x.Base.Slices.{bytes_eq_refl}
use kaspa_x.Merchant.Tlv.{
  TlvMsg, MsgType, new, cmd, close, checkpoint, from_u8, tlv_version, encode, decode, sign, verify,
  mac, bytes_for_sign,
}
use kaspa_x.Merchant.Tlv.RoundTrip.{IsWellFormed, decode-encode}
use kaspa_x.Merchant.Router.{
  AckState, Router, accepted, judge, settle, on_datagram, run, acknowledgement, push_some,
}

-- A message of the episode `ep` that can be signed and sent.
pub record Sendable (ep : ℕ) (u : TlvMsg) : Type 0 where
  pub version : u.version ≡ tlv_version
  pub known : u.msg_type ≤ 5
  pub episode_id : u.episode_id ≡ ep
  pub small : ep < 2 ^ 64
  pub seq : u.seq < 2 ^ 64
  pub state_hash : length u.state_hash ≡ 32
  pub payload : length u.payload < 2 ^ 16

-- A command, a close or a checkpoint.
abbrev pub GoesOn : ℕ → Type 0
GoesOn n = (n ≡ 1) ⊎ ((n ≡ 3) ⊎ (n ≡ 5))

-- The messages begin with a new episode, if there is none, and are numbered in a row.
abbrev pub Row : ℕ → Option ℕ → List TlvMsg → Type 0
Row ep last [] = Unit {0}
Row ep none (u ∷ us) = Sendable ep u × (u.msg_type ≡ 0) × (u.seq ≡ 0) × Row ep (some 0) us
Row ep (some p) (u ∷ us) =
    Sendable ep u × GoesOn u.msg_type × (u.seq ≡ p + 1) × Row ep (some (p + 1)) us

abbrev pub last_of : Option AckState → Option ℕ
last_of none = none
last_of (some info) = some info.seq

module _ (blake2b : List ℕ → List ℕ) (digest_length : (x : List ℕ) → 32 ≤ length (blake2b x))
    (key : List ℕ) where
  verify-sign : (u : TlvMsg) → verify blake2b key (sign blake2b key u) ≡ true
  unfolding verify sign mac bytes_for_sign
  verify-sign u = bytes_eq_refl (mac blake2b key u)

  sign-IsWellFormed : {ep : ℕ} {u : TlvMsg} → Sendable ep u → IsWellFormed (sign blake2b key u)
  unfolding sign mac
  sign-IsWellFormed {ep} {u} w = record {
    version = w.version;
    known = w.known;
    episode_id = omega (arith, w.episode_id, w.small);
    seq = w.seq;
    state_hash = w.state_hash;
    payload = w.payload;
    auth = length-take_le 32 _ (digest_length (key ++ bytes_for_sign u));
  }

  decode-sign :
      {ep : ℕ} {u : TlvMsg}
      → Sendable ep u
      → decode (encode (sign blake2b key u)) ≡ some (sign blake2b key u)
  decode-sign {ep} {u} w =
      ap decode (sym (append-nil (encode (sign blake2b key u))))
      ∙ decode-encode (sign-IsWellFormed w) []

  on_datagram-accepted :
      {ep : ℕ} {u : TlvMsg} (mt : MsgType) (now : ℕ) (map : Router)
      → Sendable ep u
      → from_u8 u.msg_type ≡ some mt
      → judge mt (lookup ep map) u.seq ≡ accepted
      → on_datagram blake2b key (encode (sign blake2b key u)) now map
        ≡ settle blake2b key (sign blake2b key u) mt now map accepted
  unfolding on_datagram sign insert acknowledgement
  on_datagram-accepted {ep} {u} mt now map w typed good =
      rw
        (
          decode-sign w,
          current,
          typed,
          verify-sign u,
          subst (λ e. judge mt (lookup e map) u.seq ≡ accepted) (sym w.episode_id) good,
        )
        refl
    where
      current : (u.version == tlv_version) ≡ true
      current = ground (arith, w.version)

  -- The router takes the message, and then its number is the last.
  abbrev Takes : ℕ → TlvMsg → ℕ → Router → Type 0
  Takes ep u now map =
      ((on_datagram blake2b key (encode (sign blake2b key u)) now map).3
        ≡ some (sign blake2b key u))
      × (last_of (lookup ep (on_datagram blake2b key (encode (sign blake2b key u)) now map).0)
          ≡ some u.seq)

  accepted-Takes :
      {ep : ℕ} {u : TlvMsg} (mt : MsgType) (now : ℕ) (map : Router)
      → Sendable ep u
      → from_u8 u.msg_type ≡ some mt
      → judge mt (lookup ep map) u.seq ≡ accepted
      → Takes ep u now map
  unfolding sign
  accepted-Takes {ep} {u} mt now map w typed good =
      let taken = on_datagram-accepted mt now map w typed good in
      (
        ap (λ r. r.3) taken,
        ap (λ r. last_of (lookup ep r.0)) taken
            ∙ subst
                (λ e.
                  last_of (lookup e (settle blake2b key (sign blake2b key u) mt now map accepted).0)
                  ≡ some u.seq)
                w.episode_id (ap last_of (lookup-insert_self u.episode_id _ map)),
      )

  first-Takes :
      {ep : ℕ} {u : TlvMsg} (now : ℕ) (map : Router)
      → Sendable ep u
      → lookup ep map ≡ none
      → u.msg_type ≡ 0
      → u.seq ≡ 0
      → Takes ep u now map
  unfolding judge
  first-Takes {ep} {u} now map w missing typed first =
      accepted-Takes new now map w (ap from_u8 typed) (rw (missing, first) refl)

  next-Takes :
      {ep : ℕ} {u : TlvMsg} (now : ℕ) (map : Router) (info : AckState)
      → Sendable ep u
      → lookup ep map ≡ some info
      → GoesOn u.msg_type
      → u.seq ≡ info.seq + 1
      → Takes ep u now map
  unfolding judge
  next-Takes {ep} {u} now map info w found (inl kind) next =
      accepted-Takes cmd now map w (ap from_u8 kind) (rw found (ground (arith, next, w.seq)))
  next-Takes {ep} {u} now map info w found (inr (inl kind)) next =
      accepted-Takes close now map w (ap from_u8 kind) (rw found (ground (arith, next, w.seq)))
  next-Takes {ep} {u} now map info w found (inr (inr kind)) next =
      accepted-Takes checkpoint now map w (ap from_u8 kind) (rw found (ground (arith, next, w.seq)))

  abbrev pub messages : List (TlvMsg × ℕ) → List TlvMsg
  messages us = Base.map (λ u. u.0) us

  abbrev pub signed : List (TlvMsg × ℕ) → List TlvMsg
  signed us = Base.map (λ u. sign blake2b key u.0) us

  -- What arrives, and when.
  abbrev pub datagrams : List (TlvMsg × ℕ) → List (List ℕ × ℕ)
  datagrams us = Base.map (λ u. (encode (sign blake2b key u.0), u.1)) us

  head-Takes :
      (ep : ℕ) (u : TlvMsg) (us : List TlvMsg) (now : ℕ) (map : Router) (last : Option AckState)
      → lookup ep map ≡ last
      → Row ep (last_of last) (u ∷ us)
      → Takes ep u now map × Row ep (some u.seq) us
  head-Takes ep u us now map none missing (w, typed, first, rest) =
      (first-Takes now map w missing typed first, subst (λ n. Row ep (some n) us) (sym first) rest)
  head-Takes ep u us now map (some info) found (w, typed, next, rest) =
      (next-Takes now map info w found typed next, subst (λ n. Row ep (some n) us) (sym next) rest)

  -- Whoever has the key and signs messages of an episode that are numbered in a row, from 0 with the
  -- opening of the episode or on from the last that the router has, has them all taken, in order, when
  -- their datagrams arrive in order; if they fit the format and a digest has at least 32 bytes.
  pub run-delivers :
      (ep : ℕ) (us : List (TlvMsg × ℕ)) (map : Router)
      → Row ep (last_of (lookup ep map)) (messages us)
      → (run blake2b key (datagrams us) map).1 ≡ signed us
  unfolding run
  run-delivers ep [] map row = refl
  run-delivers ep ((u, now) ∷ us) map row =
      let (taken, rest) = head-Takes ep u (messages us) now map (lookup ep map) refl row in
      let map' = (on_datagram blake2b key (encode (sign blake2b key u)) now map).0 in
      ap (λ o. push_some blake2b key o (run blake2b key (datagrams us) map').1) taken.0
      ∙ ap (◌∷◌ (sign blake2b key u))
          (run-delivers ep us map' (subst (λ last. Row ep last (messages us)) (sym taken.1) rest))
