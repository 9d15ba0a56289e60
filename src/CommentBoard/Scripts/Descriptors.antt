-- ===== src/CommentBoard/Scripts/Descriptors.antt =====
-- Encoding and decoding of the compact descriptors.
use kaspa_x.Base.{
  ℕ, zero, suc, ◌+◌, ◌*◌, ◌%◌, ◌^◌, ◌≤◌, ◌<◌, ◌≡◌, ◌≢◌, ◌/◌, ap, sym, ◌∙◌, Bool, true, Option, none,
  some, List, [], ◌∷◌, ◌++◌, arith, ltb, ◌==◌, if◌then◌else◌, length, take, to_le_bytes,
  from-to_le_bytes, length-append,
}
use kaspa_x.Base.Slices.{byte}
use kaspa_x.CommentBoard.Commands.{
  BondScriptKind, p2pk, time_lock, moderator_multisig, time_or_moderator,
}
use kaspa_x.CommentBoard.Scripts.{
  create_bond_timelock_script, encode_bond_descriptor, decode_bond_descriptor, serialize_all,
  moderator_keys, skip_keys,
}

-- As many moderators' keys as are written.
abbrev pub written : ℕ → Option (List ℕ) → ℕ
written count none = 0
written count (some mods) = if ltb (length mods) count then length mods else count

abbrev pub is_complete : BondScriptKind → Option (List ℕ) → Bool
is_complete p2pk mods = true
is_complete (time_lock t) mods = true
is_complete (moderator_multisig required count) mods = written count mods == count
is_complete (time_or_moderator t required count) mods = written count mods == count

-- The fields that are not bytes fit theirs.
abbrev pub Fits : BondScriptKind → Type 0
Fits p2pk = Unit {0}
Fits (time_lock t) = t < 2 ^ 64
Fits (moderator_multisig required count) = Unit {0}
Fits (time_or_moderator t required count) = t < 2 ^ 64

length-take :
    (n : ℕ) (xs : List ℕ) → length (take n xs) ≡ (if ltb (length xs) n then length xs else n)
length-take zero xs = ground arith
length-take (suc n) [] = ground arith
length-take (suc n) (x ∷ xs) = ground (arith, length-take n xs)

module _ (serialize : ℕ → List ℕ) (len : (k : ℕ) → length (serialize k) ≡ 33) where
  length-serialize_all : (ks : List ℕ) → length (serialize_all serialize ks) ≡ length ks * 33
  length-serialize_all [] = omega arith
  length-serialize_all (k ∷ ks) = omega (
    arith,
    length-append (serialize k) (serialize_all serialize ks),
    len k,
    length-serialize_all ks,
  )

  length-moderator_keys :
      (count : ℕ) (mods : Option (List ℕ))
      → length (moderator_keys serialize count mods) ≡ written count mods * 33
  length-moderator_keys count none = omega arith
  length-moderator_keys count (some mods) =
      length-serialize_all (take count mods) ∙ ap (λ n. n * 33) (length-take count mods)

  written-le : (count : ℕ) (mods : Option (List ℕ)) → written count mods ≤ count
  written-le count none = omega arith
  written-le count (some mods) = ground arith

  skip_keys-written :
      (b : List ℕ) (i w cnt : ℕ) (d : BondScriptKind)
      → length b ≡ i + w * 33 + 33
      → w ≤ cnt
      → skip_keys b i cnt d ≡ (if w == cnt then some d else none)
  skip_keys-written b i w cnt d h le = ground arith

  length-keys :
      (count user : ℕ) (mods : Option (List ℕ))
      → length (moderator_keys serialize count mods ++ serialize user)
        ≡ written count mods * 33 + 33
  length-keys count user mods = omega (
    arith,
    length-append (moderator_keys serialize count mods) (serialize user),
    length-moderator_keys count mods,
    len user,
  )

  -- A descriptor is decoded from its encoding if as many moderators' keys are given as it counts, and
  -- otherwise its encoding is not decoded at all.
  pub decode_bond_descriptor-encode :
      (d : BondScriptKind) (user : ℕ) (mods : Option (List ℕ))
      → Fits d
      → decode_bond_descriptor (encode_bond_descriptor serialize d user mods)
        ≡ (if is_complete d mods then some d else none)
  unfolding decode_bond_descriptor encode_bond_descriptor
  decode_bond_descriptor-encode p2pk user mods h = ground (arith, len user)
  decode_bond_descriptor-encode (time_lock t) user mods h =
      ground (arith, len user, from-to_le_bytes 8 t h)
  decode_bond_descriptor-encode (moderator_multisig required count) user mods h =
      ground (arith, length-keys count user mods, written-le count mods)
  decode_bond_descriptor-encode (time_or_moderator t required count) user mods h =
      ground (arith, length-keys count user mods, written-le count mods, from-to_le_bytes 8 t h)

-- What a time lock's script is decoded as, its key's bytes being b ∷ bs.
misread : ℕ → ℕ → List ℕ → Option BondScriptKind
misread t b bs =
    if t % 256 == 1
    then some p2pk
    else if t % 256 == 2
    then some (time_lock (t / 256 + 2 ^ 56 * b))
    else if t % 256 == 3
    then (if t / 256 / 256 % 256 == 0 then some (moderator_multisig (t / 256 % 256) 0) else none)
    else none

decode-misread :
    (t b : ℕ) (bs : List ℕ)
    → t < 2 ^ 64
    → length bs ≡ 32
    → decode_bond_descriptor (to_le_bytes 8 t ++ (b ∷ bs ++ 1 ∷ [])) ≡ misread t b bs
unfolding decode_bond_descriptor to_le_bytes misread
decode-misread t b bs h len = ground (arith, length-append bs (1 ∷ []))

script-unread :
    (t : ℕ) (key : List ℕ)
    → t < 2 ^ 56
    → length key ≡ 33
    → 1 ≤ byte key 0
    → decode_bond_descriptor (to_le_bytes 8 t ++ (key ++ 1 ∷ [])) ≢ some (time_lock t)
unfolding misread
script-unread t [] h len first e = absurd (omega arith)
script-unread t (b ∷ bs) h len first e =
    ground (arith, sym (decode-misread t b bs (omega arith) (omega arith)) ∙ e)

-- The script that the board writes for a time lock is never decoded as a time lock of its own time, for
-- times before 2^56 and keys of 33 bytes that do not begin with 0.
pub decode-create_bond_timelock_script :
    (serialize : ℕ → List ℕ) (t user : ℕ)
    → t < 2 ^ 56
    → length (serialize user) ≡ 33
    → 1 ≤ byte (serialize user) 0
    → decode_bond_descriptor (create_bond_timelock_script serialize t user) ≢ some (time_lock t)
unfolding create_bond_timelock_script
decode-create_bond_timelock_script serialize t user h len first =
    script-unread t (serialize user) h len first
