-- ===== src/KasDraw/Tlv/RoundTrip.antt =====
-- Encoding and decoding of the lottery's messages.
use mathlib.Core.List.{append_assoc}
use kaspa_x.Base.{
  ℕ, zero, suc, ◌+◌, ◌^◌, ◌≤◌, ◌<◌, ◌≡◌, refl, ap, false, true, some, List, ◌++◌, arith, ltb, ◌==◌,
  length,
}
use kaspa_x.Base.Frames.{
  frame, episode_id_back, seq_back, state_hash_back, payload_len_back, payload_back, length-frame,
}
use kaspa_x.KasDraw.Tlv.{MsgType, from_u8, TlvMsg, tlv_version, encode, decode, decoded}

-- A message whose fields fit the format.
pub record Fits (m : TlvMsg) : Type 0 where
  pub version : m.version ≡ tlv_version
  pub known : m.msg_type ≤ 5
  pub episode_id : m.episode_id < 2 ^ 64
  pub seq : m.seq < 2 ^ 64
  pub state_hash : length m.state_hash ≡ 32
  pub payload : length m.payload < 2 ^ 16

known_type : (n : ℕ) → n ≤ 5 → (t : MsgType) × (from_u8 n ≡ some t)
known_type zero h = (MsgType.new, refl)
known_type (suc zero) h = (MsgType.cmd, refl)
known_type (suc (suc zero)) h = (MsgType.ack, refl)
known_type (suc (suc (suc zero))) h = (MsgType.close, refl)
known_type (suc (suc (suc (suc zero)))) h = (MsgType.ack_close, refl)
known_type (suc (suc (suc (suc (suc zero))))) h = (MsgType.checkpoint, refl)
known_type (suc (suc (suc (suc (suc (suc n)))))) h = absurd (omega arith)

module _ {m : TlvMsg} (w : Fits m) (rest : List ℕ) where
  abbrev whole : List ℕ
  whole = frame m.version m.msg_type m.episode_id m.seq m.state_hash m.payload rest

  encode-whole : encode m ++ rest ≡ whole
  unfolding encode
  encode-whole = simp append_assoc

  decoded-whole : decoded whole (length m.payload) ≡ m
  decoded-whole = λ i. record {
    version = m.version;
    msg_type = m.msg_type;
    episode_id =
        episode_id_back m.version m.msg_type m.episode_id m.seq m.state_hash m.payload rest
          w.state_hash w.episode_id i;
    seq =
        seq_back m.version m.msg_type m.episode_id m.seq m.state_hash m.payload rest w.state_hash
          w.seq i;
    state_hash =
        state_hash_back m.version m.msg_type m.episode_id m.seq m.state_hash m.payload rest
          w.state_hash i;
    payload =
        payload_back m.version m.msg_type m.episode_id m.seq m.state_hash m.payload rest
          w.state_hash i;
  }

  decode-whole : decode whole ≡ some m
  unfolding decode
  decode-whole =
      let (t, known) = known_type m.msg_type w.known in
      let size =
        length-frame m.version m.msg_type m.episode_id m.seq m.state_hash m.payload rest
          w.state_hash in
      let long_enough : ltb (length whole) 52 ≡ false = ground (arith, size) in
      let known_version : (m.version == tlv_version) ≡ true = ground (arith, w.version) in
      let complete : ltb (length whole) (52 + length m.payload) ≡ false = ground (arith, size) in
      let len =
        payload_len_back m.version m.msg_type m.episode_id m.seq m.state_hash m.payload rest
          w.state_hash w.payload in
      rw (long_enough, known_version, known, len, complete) (ap some decoded-whole)

-- A message whose fields fit the format, a payload below 2^16 bytes included, is decoded from its
-- encoding, whatever bytes follow it.
pub decode-encode_plain :
    {m : TlvMsg} → Fits m → (rest : List ℕ) → decode (encode m ++ rest) ≡ some m
decode-encode_plain w rest = rw (encode-whole w rest) (decode-whole w rest)
