-- ===== src/KasDraw/Tlv.antt =====
-- kas-draw/src/tlv.rs: the messages of the lottery's off-chain channel, which carry no authentication.
pub mod RoundTrip
use kaspa_x.Base.{
  ℕ, zero, suc, ◌+◌, ◌%◌, ◌^◌, Option, none, some, List, [], ◌∷◌, ◌++◌, ltb, ◌==◌, if◌then◌else◌,
  length, take, to_le_bytes, from_le_bytes,
}
use kaspa_x.Base.Slices.{slice, byte}

abbrev pub tlv_version : ℕ
tlv_version = 1

pub data MsgType : Type 0 where
  new cmd ack close ack_close checkpoint : MsgType

-- `MsgType as u8`.
abbrev pub to_u8 : MsgType → ℕ
to_u8 new = 0
to_u8 cmd = 1
to_u8 ack = 2
to_u8 close = 3
to_u8 ack_close = 4
to_u8 checkpoint = 5

abbrev pub from_u8 : ℕ → Option MsgType
from_u8 zero = some new
from_u8 (suc zero) = some cmd
from_u8 (suc (suc zero)) = some ack
from_u8 (suc (suc (suc zero))) = some close
from_u8 (suc (suc (suc (suc zero)))) = some ack_close
from_u8 (suc (suc (suc (suc (suc zero))))) = some checkpoint
from_u8 (suc (suc (suc (suc (suc (suc n)))))) = none

pub record TlvMsg : Type 0 where
  pub version : ℕ
  pub msg_type : ℕ
  pub episode_id : ℕ
  pub seq : ℕ
  pub state_hash : List ℕ
  pub payload : List ℕ

-- The payload's length is cut to 16 bits, the payload is not.
unfoldable pub encode : TlvMsg → List ℕ
encode m =
    m.version
    ∷ m.msg_type
    ∷ (to_le_bytes 8 m.episode_id
        ++ (to_le_bytes 8 m.seq
            ++ (m.state_hash ++ (to_le_bytes 2 (length m.payload % 2 ^ 16) ++ m.payload))))

abbrev pub decoded : List ℕ → ℕ → TlvMsg
decoded bytes payload_len = record {
  version = byte bytes 0;
  msg_type = byte bytes 1;
  episode_id = from_le_bytes (slice bytes 2 10);
  seq = from_le_bytes (slice bytes 10 18);
  state_hash = slice bytes 18 50;
  payload = slice bytes 52 (52 + payload_len);
}

abbrev pub decode_body : List ℕ → ℕ → Option TlvMsg
decode_body bytes payload_len =
    if ltb (length bytes) (52 + payload_len) then none else some (decoded bytes payload_len)

abbrev pub decode_type : List ℕ → Option MsgType → Option TlvMsg
decode_type bytes none = none
decode_type bytes (some _) = decode_body bytes (from_le_bytes (slice bytes 50 52))

unfoldable pub decode : List ℕ → Option TlvMsg
decode bytes =
    if ltb (length bytes) 52
    then none
    else if byte bytes 0 == tlv_version
    then decode_type bytes (from_u8 (byte bytes 1))
    else none

-- `hash_state`: the first half of a BLAKE2b-512 digest.
unfoldable pub hash_state : (List ℕ → List ℕ) → List ℕ → List ℕ
hash_state blake2b bytes = take 32 (blake2b bytes)
