-- ===== src/CommentIt/Episode.antt =====
-- comment-it/src/core/episode.rs, with the commands, rollbacks and errors of core, and what the episode
-- uses of crypto: a room whose participants authenticate and then comment.
-- A string is the list of its characters' code points. A key that the code writes out in hexadecimal,
-- to look it up in a map, is the key itself. The log lines are left out.
pub mod Rules
pub mod Undoing
pub mod Members
use kaspa_x.Base.{
  ℕ, zero, suc, ◌+◌, ◌-◌, ◌/◌, ◌%◌, ◌^◌, Bool, true, false, not, ◌&&◌, ◌||◌, Option, none, some,
  List, [], ◌∷◌, ◌++◌, ltb, leb, ◌==◌, if◌then◌else◌, length, contains, all, add64,
}
use kaspa_x.Base.Assoc.{Map, lookup, insert, erase}
use kaspa_x.Base.Decimal.{digits}
use kaspa_x.Base.Sets.{set_insert, set_erase}
use kaspa_x.Kdapp.Episode.{
  PayloadMetadata, EpisodeError, unauthorized, invalid_command, Result, ok, err,
}

pub data UnifiedCommand : Type 0 where
  request_challenge : UnifiedCommand
  submit_response : List ℕ → List ℕ → UnifiedCommand
  revoke_session : List ℕ → List ℕ → UnifiedCommand
  submit_comment : List ℕ → List ℕ → UnifiedCommand

-- The challenge's `previous_participant` is always none.
pub data UnifiedRollback : Type 0 where
  undo_challenge : ℕ → UnifiedRollback
  undo_authentication undo_session_revoked : ℕ → Bool → UnifiedRollback
  undo_comment_added : ℕ → UnifiedRollback

pub data AuthError : Type 0 where
  challenge_not_found invalid_challenge signature_verification_failed already_authenticated
        not_authorized rate_limited not_signed challenge_expired session_not_found
        invalid_session_token session_already_revoked comment_too_long comment_empty
        not_authenticated :
      AuthError

pub record Comment : Type 0 where
  pub id : ℕ
  pub text : List ℕ
  pub author : ℕ
  pub timestamp : ℕ

pub record Room : Type 0 where
  pub creator : Option ℕ
  pub created_at : ℕ
  pub authenticated_participants : List ℕ
  pub rate_limits : Map ℕ
  pub authorized_participants : List ℕ
  pub active_challenges : Map (List ℕ)
  pub comments : List Comment
  pub next_comment_id : ℕ

abbrev pub Executed : Type 0
Executed = Room × Result UnifiedRollback (EpisodeError AuthError)

abbrev pub refuse : AuthError → Room → Executed
refuse e s = (s, err (invalid_command e))

-- What comes from hex, secp256k1, borsh and rand_chacha: `hex::decode` with `Signature::from_der`, the
-- digest of a string, the verification, and the number that a seed's generator yields first.
pub record Crypto : Type 0 where
  pub from_der_hex : List ℕ → Option ℕ
  pub to_message : List ℕ → ℕ
  pub verify_ecdsa : ℕ → ℕ → ℕ → Bool
  pub first_u64 : ℕ → ℕ

-- `char::is_whitespace`.
abbrev pub is_whitespace : ℕ → Bool
is_whitespace c =
    (leb 9 c && leb c 13)
    || (contains (32 ∷ 133 ∷ 160 ∷ 5760 ∷ 8232 ∷ 8233 ∷ 8239 ∷ 8287 ∷ 12288 ∷ []) c
        || (leb 8192 c && leb c 8202))

-- `text.trim().is_empty()`.
unfoldable pub is_blank : List ℕ → Bool
is_blank text = all is_whitespace text

-- The bytes of a character in UTF-8, and `text.len()`.
abbrev pub utf8_len : ℕ → ℕ
utf8_len c = if ltb c 128 then 1 else if ltb c 2048 then 2 else if ltb c 65536 then 3 else 4

unfoldable pub byte_len : List ℕ → ℕ
byte_len [] = 0
byte_len (c ∷ text) = utf8_len c + byte_len text

-- `SignatureVerifier::verify`.
abbrev pub verify_parsed : Crypto → ℕ → List ℕ → Option ℕ → Bool
verify_parsed crypto pk message none = false
verify_parsed crypto pk message (some sig) = crypto.verify_ecdsa (crypto.to_message message) sig pk

unfoldable pub verify : Crypto → ℕ → List ℕ → List ℕ → Bool
verify crypto pk message signature = verify_parsed crypto pk message (crypto.from_der_hex signature)

-- `format!("auth_{}_{}", timestamp, …)`.
unfoldable pub generate_with_provided_timestamp : Crypto → ℕ → List ℕ
unfolding digits
generate_with_provided_timestamp crypto time =
    97 ∷ 117 ∷ 116 ∷ 104 ∷ 95 ∷ (digits 20 time ++ 95 ∷ digits 20 (crypto.first_u64 time))

abbrev pub head? : List ℕ → Option ℕ
head? [] = none
head? (x ∷ xs) = some x

unfoldable pub initialize : List ℕ → PayloadMetadata → Room
initialize participants md = record {
  creator = head? participants;
  created_at = md.accepting_time;
  authenticated_participants = [];
  rate_limits = [];
  authorized_participants = participants;
  active_challenges = [];
  comments = [];
  next_comment_id = 1;
}

abbrev pub attempts : Option ℕ → ℕ
attempts none = 0
attempts (some n) = n

unfoldable pub is_rate_limited : Room → ℕ → Bool
is_rate_limited s pk = leb 5 (attempts (lookup pk s.rate_limits))

unfoldable pub increment_rate_limit : ℕ → Room → Room
increment_rate_limit pk s = record s {
  rate_limits = insert pk ((attempts (lookup pk s.rate_limits) + 1) % 2 ^ 32) s.rate_limits;
}

abbrev pub is_authenticated : Room → ℕ → Bool
is_authenticated s pk = contains s.authenticated_participants pk

module _ (crypto : Crypto) where
  unfoldable pub challenge : ℕ → PayloadMetadata → Room → Room
  unfolding increment_rate_limit
  challenge pk md s = increment_rate_limit pk (record s {
    active_challenges =
        insert pk (generate_with_provided_timestamp crypto md.accepting_time) s.active_challenges;
  })

  abbrev pub do_request_challenge : ℕ → PayloadMetadata → Room → Executed
  do_request_challenge pk md s =
      if is_authenticated s pk
      then refuse already_authenticated s
      else (challenge pk md s, ok (undo_challenge pk))

  abbrev pub authenticate : ℕ → Room → Room
  authenticate pk s = record s {
    authenticated_participants = set_insert pk s.authenticated_participants;
    active_challenges = erase pk s.active_challenges;
  }

  abbrev pub do_submit_response : List ℕ → List ℕ → ℕ → Room → Executed
  do_submit_response signature nonce pk s =
      if is_authenticated s pk
      then refuse already_authenticated s
      else if not (verify crypto pk nonce signature)
      then refuse signature_verification_failed s
      else (authenticate pk s, ok (undo_authentication pk (is_authenticated s pk)))

  abbrev pub revoke : ℕ → Room → Room
  revoke pk s = record s { authenticated_participants = set_erase pk s.authenticated_participants }

  abbrev pub do_revoke_session : List ℕ → List ℕ → ℕ → Room → Executed
  do_revoke_session token signature pk s =
      if not (is_authenticated s pk)
      then refuse session_not_found s
      else if not (verify crypto pk token signature)
      then refuse signature_verification_failed s
      else (revoke pk s, ok (undo_session_revoked pk (is_authenticated s pk)))

  abbrev pub add_comment : List ℕ → ℕ → PayloadMetadata → Room → Room
  add_comment text pk md s = record s {
    comments =
        s.comments
        ++ record {
          id = s.next_comment_id;
          text = text;
          author = pk;
          timestamp = md.accepting_time;
        }
          ∷ [];
    next_comment_id = add64 s.next_comment_id 1;
  }

  abbrev pub do_submit_comment : List ℕ → ℕ → PayloadMetadata → Room → Executed
  do_submit_comment text pk md s =
      if is_blank text
      then refuse comment_empty s
      else if ltb 2000 (byte_len text)
      then refuse comment_too_long s
      else if not (is_authenticated s pk)
      then refuse invalid_session_token s
      else (add_comment text pk md s, ok (undo_comment_added s.next_comment_id))

  abbrev pub execute_as : UnifiedCommand → ℕ → PayloadMetadata → Room → Executed
  execute_as request_challenge pk md s = do_request_challenge pk md s
  execute_as (submit_response signature nonce) pk md s = do_submit_response signature nonce pk s
  execute_as (revoke_session token signature) pk md s = do_revoke_session token signature pk s
  execute_as (submit_comment text _) pk md s = do_submit_comment text pk md s

  unfoldable pub execute : UnifiedCommand → Option ℕ → PayloadMetadata → Room → Executed
  unfolding is_rate_limited verify is_blank byte_len challenge
  execute c none md s = (s, err unauthorized)
  execute c (some pk) md s =
      if not (contains s.authorized_participants pk)
      then refuse not_authorized s
      else if is_rate_limited s pk
      then refuse rate_limited s
      else execute_as c pk md s

-- `position(|c| c.id == id)` and `remove(pos)`: the first comment of that id, if there is one.
abbrev pub has_comment : ℕ → List Comment → Bool
has_comment id [] = false
has_comment id (c ∷ cs) = c.id == id || has_comment id cs

unfoldable pub remove_comment : ℕ → List Comment → List Comment
remove_comment id [] = []
remove_comment id (c ∷ cs) = let rest = remove_comment id cs in if c.id == id then cs else c ∷ rest

unfoldable pub rollback : UnifiedRollback → Room → Room × Bool
unfolding remove_comment
rollback (undo_challenge pk) s =
    (record s { active_challenges = erase pk s.active_challenges }, true)
rollback (undo_authentication pk before) s = (
  record s {
    authenticated_participants =
        if before
        then set_insert pk s.authenticated_participants
        else set_erase pk s.authenticated_participants;
  },
  true,
)
rollback (undo_session_revoked pk before) s = (
  record s {
    authenticated_participants =
        if before then set_insert pk s.authenticated_participants else s.authenticated_participants;
  },
  true,
)
rollback (undo_comment_added id) s =
    if has_comment id s.comments
    then (record s { comments = remove_comment id s.comments; next_comment_id = id }, true)
    else (s, false)
