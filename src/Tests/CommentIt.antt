-- ===== src/Tests/CommentIt.antt =====
-- A comment room of two.
use kaspa_x.Base.{ℕ, ◌+◌, ◌≡◌, refl, true, Option, none, some, List, [], ◌∷◌, ◌==◌, length, arith}
use kaspa_x.Kdapp.Episode.{PayloadMetadata}
use kaspa_x.CommentIt.Episode.{
  Room, Crypto, submit_response, submit_comment, undo_comment_added, initialize, is_rate_limited,
  is_blank, byte_len, verify, execute, rollback, is_authenticated,
}
use kaspa_x.CommentIt.Episode.Rules.{Judged, room-Judged}
use kaspa_x.CommentIt.Episode.Members.{Orderly, execute-Orderly}
use kaspa_x.CommentIt.Episode.Undoing.{Back, rollback-Back, execute-challenge_free}

abbrev from_der_hex : List ℕ → Option ℕ
from_der_hex (x ∷ []) = some x
from_der_hex _ = none

abbrev crypto : Crypto
crypto = record {
  from_der_hex = from_der_hex;
  to_message = λ text. length text;
  verify_ecdsa = λ message signature key. signature == message + key;
  first_u64 = λ seed. seed + 5;
}

abbrev md : PayloadMetadata
md = record {
  accepting_hash = 1;
  accepting_daa = 2;
  accepting_time = 30;
  tx_id = 4;
  tx_outputs = none;
}

abbrev fresh : Room
fresh = initialize (7 ∷ 8 ∷ []) md

-- 8 answers a challenge that nobody has given.
abbrev joined : Room
joined = (execute crypto (submit_response (10 ∷ []) (1 ∷ 1 ∷ [])) (some 8) md fresh).0

joined_authenticated : is_authenticated joined 8 ≡ true
unfolding execute initialize is_rate_limited verify
joined_authenticated = refl

fresh-Orderly : Orderly fresh
unfolding initialize
fresh-Orderly = record {
  members = λ pk e. cc;
  slow = λ pk. omega arith;
  proper = tt;
  distinct = tt;
}

joined-Orderly : Orderly joined
unfolding initialize
joined-Orderly =
    execute-Orderly crypto (submit_response (10 ∷ []) (1 ∷ 1 ∷ [])) (some 8) md fresh (omega arith)
      fresh-Orderly

room-Judged_example :
    Judged crypto md joined
      (submit_comment (72 ∷ 105 ∷ []) [])
      (some 8)
      (execute crypto (submit_comment (72 ∷ 105 ∷ []) []) (some 8) md joined)
room-Judged_example = room-Judged crypto md joined (submit_comment (72 ∷ 105 ∷ []) []) (some 8)

execute-Orderly_example :
    Orderly (execute crypto (submit_response (10 ∷ []) (1 ∷ 1 ∷ [])) (some 8) md fresh).0
unfolding initialize
execute-Orderly_example =
    execute-Orderly crypto (submit_response (10 ∷ []) (1 ∷ 1 ∷ [])) (some 8) md fresh (omega arith)
      fresh-Orderly

rollback-Back_example : Back crypto joined (
    rollback
      (undo_comment_added 1)
      (execute crypto (submit_comment (72 ∷ 105 ∷ []) []) (some 8) md joined).0)
unfolding execute initialize is_rate_limited verify is_blank byte_len
rollback-Back_example =
    rollback-Back crypto (submit_comment (72 ∷ 105 ∷ []) []) (some 8) md joined
      (undo_comment_added 1) joined-Orderly refl

execute-challenge_free_example :
    (execute crypto
      (submit_response (10 ∷ []) (1 ∷ 1 ∷ []))
      (some 8)
      md
      (record fresh { active_challenges = (8, 3 ∷ []) ∷ [] })).1
    ≡ (execute crypto (submit_response (10 ∷ []) (1 ∷ 1 ∷ [])) (some 8) md fresh).1
execute-challenge_free_example =
    execute-challenge_free crypto (submit_response (10 ∷ []) (1 ∷ 1 ∷ [])) (some 8) md fresh
      ((8, 3 ∷ []) ∷ [])
