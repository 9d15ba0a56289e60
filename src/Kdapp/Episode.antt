-- ===== src/Kdapp/Episode.antt =====
-- applications/kdapps/kdapp/src/episode.rs: the trait that every application implements, the
-- metadata it is given, and the contract that the trait's comments state.
-- A public key, a hash, a message digest and a signature are numbers: the value of their bytes.
use kaspa_x.Base.{ℕ, Bool, true, Option, List, ◌≡◌}

pub record TxOutputInfo : Type 0 where
  pub value : ℕ
  pub script_version : ℕ
  pub script_bytes : Option (List ℕ)

pub record PayloadMetadata : Type 0 where
  pub accepting_hash : ℕ
  pub accepting_daa : ℕ
  pub accepting_time : ℕ
  pub tx_id : ℕ
  pub tx_outputs : Option (List TxOutputInfo)

pub data EpisodeError (E : Type 0) : Type 0 where
  unauthorized invalid_signature : EpisodeError E
  invalid_command : E → EpisodeError E
  delete_episode : EpisodeError E

pub data Result (A E : Type 0) : Type 0 where
  ok : A → Result A E
  err : E → Result A E

-- `trait Episode`. `&mut self` is state passing: also a failed `execute` returns the state that it
-- leaves behind.
pub record Episode (S C R E : Type 0) : Type 0 where
  pub initialize : List ℕ → PayloadMetadata → S
  pub execute : C → Option ℕ → PayloadMetadata → S → S × Result R (EpisodeError E)
  pub rollback : R → S → S × Bool

-- What the engine relies on: an executed command is undone by its rollback object, a refused one
-- changes nothing. `Valid` is the implementation's own invariant, `Admits` what it asks of the
-- participants.
pub record IsReversible {S C R E : Type 0} (ep : Episode S C R E) (Admits : List ℕ → Type 0)
    (Valid : S → Type 0) : Type 0 where
  pub initialize-Valid :
      (ps : List ℕ) (md : PayloadMetadata) → Admits ps → Valid (ep.initialize ps md)
  pub execute-Valid :
      (c : C) (a : Option ℕ) (md : PayloadMetadata) (s : S)
      → Valid s
      → Valid (ep.execute c a md s).0
  pub execute-undo :
      (c : C) (a : Option ℕ) (md : PayloadMetadata) (s : S) (r : R)
      → Valid s
      → (ep.execute c a md s).1 ≡ ok r
      → ep.rollback r (ep.execute c a md s).0 ≡ (s, true)
  pub execute-atomic :
      (c : C) (a : Option ℕ) (md : PayloadMetadata) (s : S) (e : EpisodeError E)
      → Valid s
      → (ep.execute c a md s).1 ≡ err e
      → (ep.execute c a md s).0 ≡ s
