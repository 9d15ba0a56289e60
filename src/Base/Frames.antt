-- ===== src/Base/Frames.antt =====
-- The layout that the off-chain messages share: two bytes, an episode's id, a number, a state's hash,
-- and a payload behind its length; then what follows.
use Prim.Native.Nat.{ℕ, ◌+◌, ◌-◌, ◌%◌, ◌^◌, ◌<◌}
use mathlib.Core.Path.{◌≡◌, refl, ap, ◌∙◌}
use mathlib.Core.List.{List, ◌∷◌, ◌++◌}
use native.Mathlib.Omega.{arith}
use kaspa_x.Base.Lists.{length, take, drop, take-append, drop-append, length-append}
use kaspa_x.Base.Slices.{slice, drop-drop}
use kaspa_x.Base.Words.{to_le_bytes, from_le_bytes, length-to_le_bytes, from-to_le_bytes}

module _ (version msg_type episode_id seq : ℕ) (state_hash payload tail : List ℕ) where
  abbrev from_payload : List ℕ
  from_payload = payload ++ tail

  abbrev from_length : List ℕ
  from_length = to_le_bytes 2 (length payload % 2 ^ 16) ++ from_payload

  abbrev from_hash : List ℕ
  from_hash = state_hash ++ from_length

  abbrev from_seq : List ℕ
  from_seq = to_le_bytes 8 seq ++ from_hash

  abbrev pub frame : List ℕ
  frame = version ∷ msg_type ∷ (to_le_bytes 8 episode_id ++ from_seq)

  -- A hash has 32 bytes; an id and a number are a u64's; the payload's length is a u16.
  module _ (hash_length : length state_hash ≡ 32) where
    drop_seq : drop 10 frame ≡ from_seq
    drop_seq = drop-append 8 (to_le_bytes 8 episode_id) from_seq (length-to_le_bytes 8 episode_id)

    drop_hash : drop 18 frame ≡ from_hash
    drop_hash =
        drop-drop 10 8 frame
        ∙ ap (drop 8) drop_seq
        ∙ drop-append 8 (to_le_bytes 8 seq) from_hash (length-to_le_bytes 8 seq)

    drop_length : drop 50 frame ≡ from_length
    drop_length =
        drop-drop 18 32 frame
        ∙ ap (drop 32) drop_hash
        ∙ drop-append 32 state_hash from_length hash_length

    drop_payload : drop 52 frame ≡ from_payload
    drop_payload =
        drop-drop 50 2 frame
        ∙ ap (drop 2) drop_length
        ∙ drop-append 2 (to_le_bytes 2 (length payload % 2 ^ 16)) from_payload
            (length-to_le_bytes 2 (length payload % 2 ^ 16))

    pub drop_tail : drop (52 + length payload) frame ≡ tail
    drop_tail =
        drop-drop 52 (length payload) frame
        ∙ ap (drop (length payload)) drop_payload
        ∙ drop-append (length payload) payload tail refl

    pub episode_id_back : episode_id < 2 ^ 64 → from_le_bytes (slice frame 2 10) ≡ episode_id
    episode_id_back small =
        ap from_le_bytes
          (take-append 8 (to_le_bytes 8 episode_id) from_seq (length-to_le_bytes 8 episode_id))
        ∙ from-to_le_bytes 8 episode_id small

    pub seq_back : seq < 2 ^ 64 → from_le_bytes (slice frame 10 18) ≡ seq
    seq_back small =
        ap (λ x. from_le_bytes (take 8 x)) drop_seq
        ∙ ap from_le_bytes (take-append 8 (to_le_bytes 8 seq) from_hash (length-to_le_bytes 8 seq))
        ∙ from-to_le_bytes 8 seq small

    pub state_hash_back : slice frame 18 50 ≡ state_hash
    state_hash_back = ap (take 32) drop_hash ∙ take-append 32 state_hash from_length hash_length

    pub payload_len_back :
        length payload < 2 ^ 16 → from_le_bytes (slice frame 50 52) ≡ length payload
    payload_len_back small =
        ap (λ x. from_le_bytes (take 2 x)) drop_length
        ∙ ap from_le_bytes (
            take-append 2 (to_le_bytes 2 (length payload % 2 ^ 16)) from_payload
              (length-to_le_bytes 2 (length payload % 2 ^ 16)))
        ∙ from-to_le_bytes 2 (length payload % 2 ^ 16) (omega arith)
        ∙ omega (arith, small)

    pub payload_back : slice frame 52 (52 + length payload) ≡ payload
    payload_back =
        ap (λ k. take k (drop 52 frame)) cut
        ∙ ap (take (length payload)) drop_payload
        ∙ take-append (length payload) payload tail refl
      where
        cut : 52 + length payload - 52 ≡ length payload
        cut = omega arith

    pub length-frame : length frame ≡ 52 + length payload + length tail
    length-frame = omega (
      arith,
      length-append (to_le_bytes 8 episode_id) from_seq,
      length-append (to_le_bytes 8 seq) from_hash,
      length-append state_hash from_length,
      length-append (to_le_bytes 2 (length payload % 2 ^ 16)) from_payload,
      length-append payload tail,
      length-to_le_bytes 8 episode_id,
      length-to_le_bytes 8 seq,
      length-to_le_bytes 2 (length payload % 2 ^ 16),
      hash_length,
    )
