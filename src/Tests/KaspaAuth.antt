-- ===== src/Tests/KaspaAuth.antt =====
-- A participant authenticates.
use kaspa_x.Base.{ℕ, ◌+◌, ◌≡◌, refl, true, Option, none, some, List, [], ◌∷◌, ◌==◌, length, arith}
use kaspa_x.Kdapp.Episode.{PayloadMetadata}
use kaspa_x.KaspaAuth.Challenge.{Random, challenge_text}
use kaspa_x.KaspaAuth.Episode.{
  SimpleAuth, Libraries, request_challenge, submit_response, undo_challenge, initialize,
  is_rate_limited, execute, rollback,
}
use kaspa_x.KaspaAuth.Episode.Sessions.{Judged, auth-Judged}
use kaspa_x.KaspaAuth.Episode.Limits.{Limited, execute-Limited}
use kaspa_x.KaspaAuth.Episode.Undoing.{undone, auth-undone}

abbrev from_der_hex : List ℕ → Option ℕ
from_der_hex (x ∷ []) = some x
from_der_hex _ = none

abbrev random : Random
random = record { sha256 = λ bytes. length bytes ∷ []; first_u64 = λ seed. seed + 5 }

abbrev lib : Libraries
lib = record {
  random = random;
  crypto = record {
    from_der_hex = from_der_hex;
    to_message = λ text. length text;
    verify_ecdsa = λ message signature key. signature == message + key;
    first_u64 = λ seed. seed + 5;
  };
  serialize = λ pk. pk ∷ [];
  hash_text = λ hash. hash ∷ [];
}

abbrev md : ℕ → PayloadMetadata
md time = record {
  accepting_hash = 1;
  accepting_daa = 2;
  accepting_time = time;
  tx_id = 4;
  tx_outputs = none;
}

abbrev fresh : SimpleAuth
fresh = initialize (7 ∷ 8 ∷ []) (md 30)

abbrev asked : SimpleAuth
asked = (execute lib request_challenge (some 8) (md 31) 31 fresh).0

-- The challenge is auth_31_15, and its signature by 8 is 18.
abbrev answer : List ℕ
answer = challenge_text 31 15

auth-Judged_example :
    Judged lib
      (md 35)
      35
      asked
      (submit_response (18 ∷ []) answer)
      (some 8)
      (execute lib (submit_response (18 ∷ []) answer) (some 8) (md 35) 35 asked)
auth-Judged_example = auth-Judged lib (md 35) 35 asked (submit_response (18 ∷ []) answer) (some 8)

fresh-Limited : Limited 30 fresh
unfolding initialize
fresh-Limited pk = omega arith

execute-Limited_example : Limited 31 (execute lib request_challenge (some 8) (md 31) 31 fresh).0
execute-Limited_example =
    execute-Limited lib request_challenge (some 8) (md 31) 31 30 fresh (omega arith) fresh-Limited

auth-undone_example :
    rollback (undo_challenge none 30) (execute lib request_challenge (some 8) (md 31) 31 fresh).0
    ≡ (undone request_challenge 8 (md 31) fresh, true)
unfolding execute initialize is_rate_limited
auth-undone_example =
    auth-undone lib request_challenge 8 (md 31) 31 fresh (undo_challenge none 30) refl
