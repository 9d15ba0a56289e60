-- ===== src/Merchant/Tlv/RoundTrip.antt =====
-- Encoding and then decoding.
use mathlib.Core.List.{append_assoc}
use kaspa_x.Base.{
  ℕ, zero, suc, ◌+◌, ◌-◌, ◌^◌, ◌≤◌, ◌<◌, ◌≡◌, refl, ap, ◌∙◌, true, false, some, List, ◌++◌, arith,
  ltb, ◌==◌, length, take, drop, take-append, from_le_bytes, length-append,
}
use kaspa_x.Base.Frames.{
  frame, drop_tail, episode_id_back, seq_back, state_hash_back, payload_len_back, payload_back,
  length-frame,
}
use kaspa_x.Base.Slices.{slice}
use kaspa_x.Merchant.Tlv.{TlvMsg, MsgType, from_u8, tlv_version, encode, decode, decoded}

-- A message whose fields fit the format.
pub record IsWellFormed (m : TlvMsg) : Type 0 where
  pub version : m.version ≡ tlv_version
  pub known : m.msg_type ≤ 5
  pub episode_id : m.episode_id < 2 ^ 64
  pub seq : m.seq < 2 ^ 64
  pub state_hash : length m.state_hash ≡ 32
  pub payload : length m.payload < 2 ^ 16
  pub auth : length m.auth ≡ 32

module _ {m : TlvMsg} (w : IsWellFormed m) (rest : List ℕ) where
  -- The encoding as a frame, with what follows it.
  abbrev whole : List ℕ
  whole = frame m.version m.msg_type m.episode_id m.seq m.state_hash m.payload (m.auth ++ rest)

  encode-whole : encode m ++ rest ≡ whole
  unfolding encode
  encode-whole = simp append_assoc

  auth_back : slice whole (52 + length m.payload) (52 + length m.payload + 32) ≡ m.auth
  auth_back =
      ap (λ k. take k (drop (52 + length m.payload) whole)) cut
      ∙ ap (take 32) (drop_tail _ _ _ _ m.state_hash m.payload (m.auth ++ rest) w.state_hash)
      ∙ take-append 32 m.auth rest w.auth
    where
      cut : 52 + length m.payload + 32 - (52 + length m.payload) ≡ 32
      cut = omega arith

  decoded-whole : decoded whole (length m.payload) ≡ m
  decoded-whole =
      let tail = m.auth ++ rest in
      λ i. record {
        version = m.version;
        msg_type = m.msg_type;
        episode_id =
            episode_id_back m.version m.msg_type m.episode_id m.seq m.state_hash m.payload tail
              w.state_hash w.episode_id i;
        seq =
            seq_back m.version m.msg_type m.episode_id m.seq m.state_hash m.payload tail
              w.state_hash w.seq i;
        state_hash =
            state_hash_back m.version m.msg_type m.episode_id m.seq m.state_hash m.payload tail
              w.state_hash i;
        payload =
            payload_back m.version m.msg_type m.episode_id m.seq m.state_hash m.payload tail
              w.state_hash i;
        auth = auth_back i;
      }

  length-whole : length whole ≡ 52 + length m.payload + 32 + length rest
  length-whole = omega (
    arith,
    length-frame m.version m.msg_type m.episode_id m.seq m.state_hash m.payload (m.auth ++ rest)
        w.state_hash,
    length-append m.auth rest,
    w.auth,
  )

  payload_len : from_le_bytes (slice whole 50 52) ≡ length m.payload
  payload_len =
      payload_len_back m.version m.msg_type m.episode_id m.seq m.state_hash m.payload
        (m.auth ++ rest) w.state_hash w.payload

  known_type : (n : ℕ) → n ≤ 5 → (t : MsgType) × (from_u8 n ≡ some t)
  known_type zero h = (MsgType.new, refl)
  known_type (suc zero) h = (MsgType.cmd, refl)
  known_type (suc (suc zero)) h = (MsgType.ack, refl)
  known_type (suc (suc (suc zero))) h = (MsgType.close, refl)
  known_type (suc (suc (suc (suc zero)))) h = (MsgType.ack_close, refl)
  known_type (suc (suc (suc (suc (suc zero))))) h = (MsgType.checkpoint, refl)
  known_type (suc (suc (suc (suc (suc (suc n)))))) h = absurd (omega arith)

  decode-whole : decode whole ≡ some m
  unfolding decode
  decode-whole =
      let (t, known) = known_type m.msg_type w.known in
      rw (long_enough, known_version, known, payload_len, complete) (ap some decoded-whole)
    where
      long_enough : ltb (length whole) 84 ≡ false
      long_enough = ground (arith, length-whole)

      known_version : (m.version == tlv_version) ≡ true
      known_version = ground (arith, w.version)

      complete : ltb (length whole) (52 + length m.payload + 32) ≡ false
      complete = ground (arith, length-whole)

-- A well-formed message is decoded from its encoding, whatever bytes follow it.
pub decode-encode :
    {m : TlvMsg} → IsWellFormed m → (rest : List ℕ) → decode (encode m ++ rest) ≡ some m
decode-encode w rest = rw (encode-whole w rest) (decode-whole w rest)
