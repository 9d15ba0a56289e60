-- ===== src/KaspaAuth/Episode.antt =====
-- kaspa-auth/src/core/episode.rs: a participant proves that it holds its key, and gets a session.
-- Signatures are verified as in the comment room, whose code this application repeats. A string is the
-- list of its characters, which are ASCII in what is generated here, so they are its bytes too. The
-- system's clock is an argument. The log lines are left out.
pub mod Sessions
pub mod Limits
pub mod Undoing
use kaspa_x.Base.{
  ℕ, ◌+◌, ◌-◌, Bool, true, false, not, Option, none, some, List, [], ◌∷◌, ◌++◌, leb, if◌then◌else◌,
  length, take, retain, contains, to_le_bytes, from_le_bytes,
}
use kaspa_x.Base.Assoc.{Map, lookup, insert}
use kaspa_x.Base.Slices.{bytes_eq}
use kaspa_x.Base.Decimal.{digits}
use kaspa_x.Kdapp.Episode.{
  PayloadMetadata, EpisodeError, unauthorized, invalid_command, Result, ok, err,
}
use kaspa_x.CommentIt.Episode.{Crypto, verify, head?}
use kaspa_x.KaspaAuth.Challenge.{Random, generate_with_entropy, is_valid}

pub data AuthCommand : Type 0 where
  request_challenge : AuthCommand
  submit_response revoke_session : List ℕ → List ℕ → AuthCommand

pub data AuthRollback : Type 0 where
  undo_challenge : Option (List ℕ) → ℕ → AuthRollback
  undo_authentication : Bool → Option (List ℕ) → AuthRollback
  undo_session_revoked : List ℕ → Bool → AuthRollback

pub data AuthError : Type 0 where
  challenge_not_found invalid_challenge signature_verification_failed already_authenticated
        not_authorized rate_limited not_signed challenge_expired session_not_found
        invalid_session_token session_already_revoked :
      AuthError

pub record SimpleAuth : Type 0 where
  pub owner : Option ℕ
  pub challenge : Option (List ℕ)
  pub is_authenticated : Bool
  pub session_token : Option (List ℕ)
  pub challenge_timestamp : ℕ
  pub rate_limits : Map (List ℕ)
  pub authorized_participants : List ℕ

-- The libraries: random numbers and hashes, signatures, `PublicKey::serialize`, a hash in hexadecimal.
pub record Libraries : Type 0 where
  pub random : Random
  pub crypto : Crypto
  pub serialize : ℕ → List ℕ
  pub hash_text : ℕ → List ℕ

abbrev pub Executed : Type 0
Executed = SimpleAuth × Result AuthRollback (EpisodeError AuthError)

abbrev pub refuse : AuthError → SimpleAuth → Executed
refuse e s = (s, err (invalid_command e))

unfoldable pub initialize : List ℕ → PayloadMetadata → SimpleAuth
initialize participants md = record {
  owner = head? participants;
  challenge = none;
  is_authenticated = false;
  session_token = none;
  challenge_timestamp = md.accepting_time;
  rate_limits = [];
  authorized_participants = participants;
}

abbrev pub window_secs : ℕ
window_secs = 300

abbrev pub max_attempts : ℕ
max_attempts = 5

-- The attempts of a key, and those in the window that ends now.
abbrev pub attempts : Option (List ℕ) → List ℕ
attempts none = []
attempts (some ts) = ts

abbrev pub recent : ℕ → List ℕ → List ℕ
recent now ts = retain (λ t. leb (now - t) window_secs) ts

unfoldable pub is_rate_limited : SimpleAuth → ℕ → ℕ → Bool
is_rate_limited s pk now =
    leb max_attempts (length (recent now (attempts (lookup pk s.rate_limits))))

unfoldable pub increment_rate_limit : ℕ → ℕ → SimpleAuth → SimpleAuth
increment_rate_limit pk now s = record s {
  rate_limits =
      insert pk (recent now (attempts (lookup pk s.rate_limits) ++ now ∷ [])) s.rate_limits;
}

module _ (lib : Libraries) where
  abbrev pub owner_bytes : Option ℕ → List ℕ
  owner_bytes none = []
  owner_bytes (some pk) = lib.serialize pk

  abbrev pub challenge_bytes : Option (List ℕ) → List ℕ
  challenge_bytes none = []
  challenge_bytes (some text) = text

  -- `format!("sess_{}", …)`.
  unfoldable pub generate_session_token : SimpleAuth → List ℕ
  unfolding digits
  generate_session_token s =
      115
      ∷ 101
      ∷ 115
      ∷ 115
      ∷ 95
      ∷ digits 20 (
          lib.random.first_u64 (
            from_le_bytes (
              take 8 (
                lib.random.sha256 (
                  to_le_bytes 8 s.challenge_timestamp
                  ++ (owner_bytes s.owner ++ challenge_bytes s.challenge))))))

  unfoldable pub new_challenge : ℕ → PayloadMetadata → List ℕ
  unfolding generate_with_entropy
  new_challenge pk md =
      generate_with_entropy lib.random md.accepting_time
        (lib.serialize pk ++ lib.hash_text md.tx_id)

  abbrev pub give_challenge : ℕ → PayloadMetadata → SimpleAuth → SimpleAuth
  give_challenge pk md s = increment_rate_limit pk md.accepting_time (record s {
    challenge = some (new_challenge pk md);
    challenge_timestamp = md.accepting_time;
    owner = some pk;
  })

  abbrev pub authenticate : SimpleAuth → SimpleAuth
  authenticate s = record s {
    is_authenticated = true;
    session_token = some (generate_session_token (record s { is_authenticated = true }));
  }

  abbrev pub check_response : List ℕ → List ℕ → ℕ → ℕ → SimpleAuth → Option (List ℕ) → Executed
  check_response signature nonce pk now s none = refuse challenge_not_found s
  check_response signature nonce pk now s (some current) =
      if not (bytes_eq nonce current)
      then refuse invalid_challenge s
      else if not (is_valid current 3600 now)
      then refuse challenge_expired s
      else if not (verify lib.crypto pk current signature)
      then refuse signature_verification_failed s
      else (authenticate s, ok (undo_authentication s.is_authenticated s.session_token))

  abbrev pub do_submit_response : List ℕ → List ℕ → ℕ → ℕ → SimpleAuth → Executed
  do_submit_response signature nonce pk now s =
      if s.is_authenticated
      then refuse already_authenticated s
      else check_response signature nonce pk now s s.challenge

  abbrev pub check_session : List ℕ → List ℕ → ℕ → SimpleAuth → Option (List ℕ) → Executed
  check_session token signature pk s none = refuse session_not_found s
  check_session token signature pk s (some current) =
      if not (bytes_eq token current)
      then refuse invalid_session_token s
      else if not s.is_authenticated
      then refuse session_already_revoked s
      else if not (verify lib.crypto pk token signature)
      then refuse signature_verification_failed s
      else (
        record s { is_authenticated = false; session_token = none },
        ok (undo_session_revoked current s.is_authenticated),
      )

  abbrev pub execute_as : AuthCommand → ℕ → PayloadMetadata → ℕ → SimpleAuth → Executed
  execute_as request_challenge pk md now s =
      (give_challenge pk md s, ok (undo_challenge s.challenge s.challenge_timestamp))
  execute_as (submit_response signature nonce) pk md now s =
      do_submit_response signature nonce pk now s
  execute_as (revoke_session token signature) pk md now s =
      check_session token signature pk s s.session_token

  unfoldable pub execute : AuthCommand → Option ℕ → PayloadMetadata → ℕ → SimpleAuth → Executed
  unfolding is_rate_limited increment_rate_limit is_valid verify new_challenge
      generate_session_token
  execute c none md now s = (s, err unauthorized)
  execute c (some pk) md now s =
      if not (contains s.authorized_participants pk)
      then refuse not_authorized s
      else if is_rate_limited s pk md.accepting_time
      then refuse rate_limited s
      else execute_as c pk md now s

unfoldable pub rollback : AuthRollback → SimpleAuth → SimpleAuth × Bool
rollback (undo_challenge previous time) s =
    (record s { challenge = previous; challenge_timestamp = time }, true)
rollback (undo_authentication status token) s =
    (record s { is_authenticated = status; session_token = token }, true)
rollback (undo_session_revoked token status) s =
    (record s { is_authenticated = status; session_token = some token }, true)
