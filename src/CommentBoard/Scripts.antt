-- ===== src/CommentBoard/Scripts.antt =====
-- comment-board/src/wallet/kaspa_scripts.rs: the byte layouts of the bond outputs' scripts.
-- A key is a number; its 33 bytes are those that the library writes, a parameter. A ScriptPublicKey is
-- its script, of version 0. An error is its text in the code.
pub mod Descriptors
use kaspa_x.Base.{
  ℕ, zero, suc, ◌+◌, ◌*◌, ◌%◌, ◌^◌, Bool, true, false, Option, none, some, List, [], ◌∷◌, ◌++◌, ltb,
  leb, ◌==◌, if◌then◌else◌, length, take, to_le_bytes, from_le_bytes, add64,
}
use kaspa_x.Base.Slices.{slice, byte}
use kaspa_x.Kdapp.Episode.{Result, ok, err}
use kaspa_x.CommentBoard.Commands.{
  BondScriptKind, p2pk, time_lock, moderator_multisig, time_or_moderator,
}

pub data ScriptUnlockCondition : Type 0 where
  until : ℕ → ℕ → ScriptUnlockCondition
  moderator_release : ℕ → List ℕ → ℕ → ScriptUnlockCondition
  until_or_moderator : ℕ → ℕ → List ℕ → ℕ → ScriptUnlockCondition

pub data ScriptError : Type 0 where
  too_many_signatures unlock_in_the_past unlock_too_far no_moderators no_signatures : ScriptError

-- `current_time + (365 * 24 * 60 * 60)`.
abbrev pub year_secs : ℕ
year_secs = 31536000

unfoldable pub validate_script_conditions :
    ScriptUnlockCondition → ℕ → Result (Unit {0}) ScriptError
validate_script_conditions (until unlock_time _) now =
    if leb unlock_time now
    then err unlock_in_the_past
    else if ltb (add64 now year_secs) unlock_time
    then err unlock_too_far
    else ok tt
validate_script_conditions (moderator_release _ mods required) now =
    if length mods == 0
    then err no_moderators
    else if required == 0
    then err no_signatures
    else if ltb (length mods) required
    then err too_many_signatures
    else ok tt
validate_script_conditions (until_or_moderator unlock_time _ mods required) now =
    if leb unlock_time now
    then err unlock_in_the_past
    else if length mods == 0
    then err no_moderators
    else if ltb (length mods) required
    then err too_many_signatures
    else ok tt

-- `if *off + 8 > b.len() { None }`, then the eight bytes at the offset.
abbrev pub read_u64 : List ℕ → ℕ → Option ℕ
read_u64 b off =
    if ltb (length b) (off + 8) then none else some (from_le_bytes (slice b off (off + 8)))

-- The part after the moderators' count: their keys and the user's key must fit.
abbrev pub skip_keys : List ℕ → ℕ → ℕ → BondScriptKind → Option BondScriptKind
skip_keys b i cnt d =
    if ltb (length b) (i + cnt * 33)
    then none
    else if ltb (length b) (i + cnt * 33 + 33)
    then none
    else some d

abbrev pub decode_time_lock : List ℕ → Option ℕ → Option BondScriptKind
decode_time_lock b none = none
decode_time_lock b (some t) = if ltb (length b) (9 + 33) then none else some (time_lock t)

abbrev pub decode_time_or_moderator : List ℕ → Option ℕ → Option BondScriptKind
decode_time_or_moderator b none = none
decode_time_or_moderator b (some t) =
    if ltb (length b) (9 + 2)
    then none
    else skip_keys b 11 (byte b 10) (time_or_moderator t (byte b 9) (byte b 10))

unfoldable pub decode_bond_descriptor : List ℕ → Option BondScriptKind
unfolding from_le_bytes
decode_bond_descriptor b =
    if length b == 0
    then none
    else if byte b 0 == 1
    then (if ltb (length b) (1 + 33) then none else some p2pk)
    else if byte b 0 == 2
    then decode_time_lock b (read_u64 b 1)
    else if byte b 0 == 3
    then (if ltb (length b) (1 + 2)
        then none
        else skip_keys b 3 (byte b 2) (moderator_multisig (byte b 1) (byte b 2)))
    else if byte b 0 == 4
    then decode_time_or_moderator b (read_u64 b 1)
    else none

-- `PublicKey::serialize`.
module _ (serialize : ℕ → List ℕ) where
  abbrev pub serialize_all : List ℕ → List ℕ
  serialize_all [] = []
  serialize_all (k ∷ ks) = serialize k ++ serialize_all ks

  unfoldable pub create_bond_timelock_script : ℕ → ℕ → List ℕ
  unfolding to_le_bytes
  create_bond_timelock_script unlock_time user =
      to_le_bytes 8 unlock_time ++ (serialize user ++ 1 ∷ [])

  unfoldable pub create_moderator_multisig_script : ℕ → List ℕ → ℕ → Result (List ℕ) ScriptError
  create_moderator_multisig_script user mods required =
      if ltb (length mods) required
      then err too_many_signatures
      else ok (
          required % 256 ∷ (serialize user ++ (length mods % 256) ∷ (serialize_all mods ++ 2 ∷ [])))

  abbrev pub combine_scripts : List ℕ → Result (List ℕ) ScriptError → Result (List ℕ) ScriptError
  combine_scripts timelock (err e) = err e
  combine_scripts timelock (ok multisig) = ok (
      3
      ∷ (to_le_bytes 4 (length timelock % 2 ^ 32)
          ++ (timelock ++ (to_le_bytes 4 (length multisig % 2 ^ 32) ++ multisig))))

  unfoldable pub create_combined_unlock_script : ℕ → ℕ → List ℕ → ℕ → Result (List ℕ) ScriptError
  unfolding to_le_bytes create_bond_timelock_script create_moderator_multisig_script
  create_combined_unlock_script unlock_time user mods required =
      combine_scripts (create_bond_timelock_script unlock_time user)
        (create_moderator_multisig_script user mods required)

  unfoldable pub create_bond_script_pubkey : ScriptUnlockCondition → Result (List ℕ) ScriptError
  unfolding create_bond_timelock_script create_moderator_multisig_script
      create_combined_unlock_script
  create_bond_script_pubkey (until unlock_time user) =
      ok (create_bond_timelock_script unlock_time user)
  create_bond_script_pubkey (moderator_release user mods required) =
      create_moderator_multisig_script user mods required
  create_bond_script_pubkey (until_or_moderator unlock_time user mods required) =
      create_combined_unlock_script unlock_time user mods required

  -- The first `count` of the moderators' keys, if there are any given.
  abbrev pub moderator_keys : ℕ → Option (List ℕ) → List ℕ
  moderator_keys count none = []
  moderator_keys count (some mods) = serialize_all (take count mods)

  unfoldable pub encode_bond_descriptor : BondScriptKind → ℕ → Option (List ℕ) → List ℕ
  unfolding to_le_bytes
  encode_bond_descriptor p2pk user mods = 1 ∷ serialize user
  encode_bond_descriptor (time_lock t) user mods = 2 ∷ (to_le_bytes 8 t ++ serialize user)
  encode_bond_descriptor (moderator_multisig required count) user mods =
      3 ∷ required ∷ count ∷ (moderator_keys count mods ++ serialize user)
  encode_bond_descriptor (time_or_moderator t required count) user mods =
      4 ∷ (to_le_bytes 8 t ++ required ∷ count ∷ (moderator_keys count mods ++ serialize user))
