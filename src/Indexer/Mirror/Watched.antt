-- ===== src/Indexer/Mirror/Watched.antt =====
-- All rooms and the store, and what storing a room changes.
use native.Mathlib.Decide.{ℕ_discrete}
use kaspa_x.Base.{
  ℕ, suc, ◌+◌, ◌^◌, ◌≤◌, ◌<◌, ◌≡◌, ◌≢◌, refl, sym, ◌∙◌, subst, inl, inr, none, some, List, [], ◌∷◌,
  ◌++◌, arith,
}
use kaspa_x.Base.Assoc.{Map, lookup, insert, lookup-insert, lookup-insert_ne, lookup-insert_cases}
use kaspa_x.Kdapp.Episode.{PayloadMetadata}
use kaspa_x.Kdapp.Engine.{EpisodeWrapper, Event}
use kaspa_x.CommentIt.Episode.{UnifiedCommand, UnifiedRollback, Room, Crypto, challenge}
use kaspa_x.CommentIt.Episode.Rules.{Step}
use kaspa_x.Indexer.Ordered.{Sorted, Below}
use kaspa_x.Indexer.Store.{Mem}
use kaspa_x.Indexer.Listener.{notice, absorb}
use kaspa_x.Indexer.Mirror.Writes.{Undisturbed}
use kaspa_x.Indexer.Mirror.Rooms.{Mirrored, Mirrored-Undisturbed}

abbrev pub Rooms : Type 0
Rooms = Map (EpisodeWrapper Room UnifiedRollback)

-- Every room is mirrored, the store has no comments of others, and there are numbers left for `n` more
-- comments in each room.
pub record Watched (n : ℕ) (eps : Rooms) (m : Mem) : Type 0 where
  pub sorted : Sorted m.comments
  pub short : n + 1 < 2 ^ 64
  pub mirrored :
      (id : ℕ) (w : EpisodeWrapper Room UnifiedRollback)
      → lookup id eps ≡ some w
      → Mirrored id w.episode m × (w.episode.next_comment_id + n < 2 ^ 64)
  pub unknown : (id : ℕ) → lookup id eps ≡ none → Below id 0 m.comments

pub Watched-suc : (n : ℕ) (eps : Rooms) (m : Mem) → Watched (suc n) eps m → Watched n eps m
Watched-suc n eps m h = record {
  sorted = h.sorted;
  short = omega (arith, h.short);
  mirrored = λ id w found. ((h.mirrored id w found).0, omega (arith, (h.mirrored id w found).1));
  unknown = h.unknown;
}

module _ (n : ℕ) (eps : Rooms) (m : Mem) (h : Watched (suc n) eps m) (id : ℕ)
    (w : EpisodeWrapper Room UnifiedRollback) (m' : Mem) where
  -- A room is stored, and only it is written about.
  pub stored-Watched :
      Sorted m'.comments
      → Mirrored id w.episode m'
      → w.episode.next_comment_id + n < 2 ^ 64
      → ((j : ℕ) → id ≢ j → Undisturbed j m m')
      → Watched n (insert id w eps) m'
  stored-Watched sorted here room away = record {
    sorted = sorted;
    short = omega (arith, h.short);
    mirrored = mirrored;
    unknown = λ j missing. elim (ℕ_discrete id j) [
      | yes same ↦ absurd (ground (arith, same, lookup-insert id j w eps, missing))
      | no other ↦
          (away j other).below 0 (h.unknown j (sym (lookup-insert_ne id j w eps other) ∙ missing))
    ];
  }
    where
      mirrored :
          (j : ℕ) (v : EpisodeWrapper Room UnifiedRollback)
          → lookup j (insert id w eps) ≡ some v
          → Mirrored j v.episode m' × (v.episode.next_comment_id + n < 2 ^ 64)
      mirrored j v found = elim (lookup-insert_cases id j w v eps found) [
        | inl (same, this) ↦
            subst (λ u. Mirrored j u.episode m' × (u.episode.next_comment_id + n < 2 ^ 64)) this
              (subst (λ k. Mirrored k w.episode m') same here, room)
        | inr (other, old) ↦ (
          Mirrored-Undisturbed j v.episode m m' (away j other) (h.mirrored j v old).0,
          omega (arith, (h.mirrored j v old).1),
        )
      ]

-- A room's comment numbers go up by one at most.
pub Step-numbers :
    {crypto : Crypto} {md : PayloadMetadata} {pk : ℕ} {s s' : Room} {c : UnifiedCommand}
    {rb : UnifiedRollback}
    → Step crypto md s pk c s' rb
    → s'.next_comment_id ≤ s.next_comment_id + 1
unfolding challenge
Step-numbers (Step.challenged new) = omega arith
Step-numbers (Step.admitted signature nonce new good) = omega arith
Step-numbers (Step.revoked token signature there good) = omega arith
Step-numbers (Step.commented text token full short there) = omega arith

pub absorb-append :
    (log logs : List (Unit {0} × Event Room UnifiedCommand)) (m : Mem)
    → absorb (log ++ logs) m ≡ absorb logs (absorb log m)
unfolding absorb
absorb-append [] logs m = refl
absorb-append ((_, ev) ∷ log) logs m = absorb-append log logs (notice ev m)
