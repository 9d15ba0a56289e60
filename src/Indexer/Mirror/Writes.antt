-- ===== src/Indexer/Mirror/Writes.antt =====
-- What a write leaves as it was, for an episode that it is not about.
use native.Mathlib.Decide.{ℕ_discrete}
use kaspa_x.Base.{
  ℕ, ◌≡◌, ◌≢◌, refl, sym, ◌∙◌, subst, true, Option, none, some, List, ◌==◌, ==_refl, ltb,
  if◌then◌else◌, arith,
}
use kaspa_x.Base.Assoc.{lookup, lookup-insert, lookup-insert_self, lookup-insert_ne}
use kaspa_x.Kdapp.Episode.{PayloadMetadata}
use kaspa_x.Kdapp.Engine.{Event, on_initialize, on_command, on_rollback}
use kaspa_x.CommentIt.Episode.{
  UnifiedCommand, request_challenge, submit_response, revoke_session, submit_comment, Comment, Room,
}
use kaspa_x.Indexer.Ordered.{
  tree_insert, has_key, has_key-tree_insert, rows_of, Sorted, Below, Below-tree_insert,
  tree_insert-Sorted, rows_of-tree_insert_ne,
}
use kaspa_x.Indexer.Store.{
  EpisodeSnapshot, CommentRow, Mem, or_default, upsert_episode, add_comment, add_membership,
}
use kaspa_x.Indexer.Listener.{
  snapshot, comment_row, last, on_comment, on_response, notice, notice_command,
}

pub record Undisturbed (id : ℕ) (m m' : Mem) : Type 0 where
  pub episode : lookup id m'.episodes ≡ lookup id m.episodes
  pub rows : rows_of id m'.comments ≡ rows_of id m.comments
  pub below : (n : ℕ) → Below id n m.comments → Below id n m'.comments
  pub members :
      (pk : ℕ)
      → has_key id (or_default (lookup pk m.memberships)) ≡ true
      → has_key id (or_default (lookup pk m'.memberships)) ≡ true

pub Undisturbed-refl : (id : ℕ) (m : Mem) → Undisturbed id m m
Undisturbed-refl id m = record {
  episode = refl;
  rows = refl;
  below = λ n h. h;
  members = λ pk h. h;
}

Undisturbed-trans :
    (id : ℕ) (m m' m'' : Mem) → Undisturbed id m m' → Undisturbed id m' m'' → Undisturbed id m m''
Undisturbed-trans id m m' m'' h k = record {
  episode = k.episode ∙ h.episode;
  rows = k.rows ∙ h.rows;
  below = λ n b. k.below n (h.below n b);
  members = λ pk e. k.members pk (h.members pk e);
}

pub upsert_episode-Undisturbed :
    (id : ℕ) (ep : EpisodeSnapshot) (m : Mem)
    → ep.episode_id ≢ id
    → Undisturbed id m (upsert_episode ep m)
unfolding upsert_episode
upsert_episode-Undisturbed id ep m away = record {
  episode = lookup-insert_ne ep.episode_id id ep m.episodes away;
  rows = refl;
  below = λ n h. h;
  members = λ pk h. h;
}

add_comment-Undisturbed :
    (id : ℕ) (row : CommentRow) (m : Mem)
    → row.episode_id ≢ id
    → Undisturbed id m (add_comment row m)
unfolding add_comment
add_comment-Undisturbed id row m away = record {
  episode = refl;
  rows = rows_of-tree_insert_ne id row.episode_id row.comment_id row m.comments away;
  below = λ n h.
      Below-tree_insert id n row.episode_id row.comment_id row m.comments
        (λ same. absurd (away same)) h;
  members = λ pk h. h;
}

-- Members are only added.
has_key-add_membership :
    (pk j k id : ℕ) (m : Mem)
    → has_key id (or_default (lookup k m.memberships)) ≡ true
    → has_key id (or_default (lookup k (add_membership pk j m).memberships)) ≡ true
unfolding add_membership
has_key-add_membership pk j k id m h = elim (ℕ_discrete pk k) [
  | yes same ↦
      rw
        (lookup-insert pk k (tree_insert ltb j tt (or_default (lookup pk m.memberships)))
          m.memberships)
        (subst
          (λ i.
            has_key id (
              or_default (
                if pk == i
                then some (tree_insert ltb j tt (or_default (lookup pk m.memberships)))
                else lookup i m.memberships))
            ≡ true)
          same
          (rw
            (
              ==_refl pk,
              has_key-tree_insert j id tt (or_default (lookup pk m.memberships)),
              subst (λ i. has_key id (or_default (lookup i m.memberships)) ≡ true) (sym same) h,
            )
            (ground arith)))
  | no away ↦
      rw
        (lookup-insert_ne pk k (tree_insert ltb j tt (or_default (lookup pk m.memberships)))
          m.memberships away)
        h
]

pub joins :
    (pk id : ℕ) (m : Mem)
    → has_key id (or_default (lookup pk (add_membership pk id m).memberships)) ≡ true
unfolding add_membership
joins pk id m =
    rw
      (
        lookup-insert_self pk (tree_insert ltb id tt (or_default (lookup pk m.memberships)))
            m.memberships,
        has_key-tree_insert id id tt (or_default (lookup pk m.memberships)),
        ==_refl id,
      )
      refl

-- A membership of any episode disturbs none.
pub add_membership-Undisturbed : (id pk j : ℕ) (m : Mem) → Undisturbed id m (add_membership pk j m)
unfolding add_membership
add_membership-Undisturbed id pk j m = record {
  episode = refl;
  rows = refl;
  below = λ n h. h;
  members = λ k e. has_key-add_membership pk j k id m e;
}

module _ (id j : ℕ) (r : Room) (md : PayloadMetadata) (m : Mem) where
  pub refresh-Undisturbed :
      (m' : Mem) → j ≢ id → Undisturbed id m' (upsert_episode (snapshot j r) m')
  unfolding snapshot
  refresh-Undisturbed m' away = upsert_episode-Undisturbed id (snapshot j r) m' away

  on_response-Undisturbed : (auth : Option ℕ) → j ≢ id → Undisturbed id m (on_response j r auth m)
  on_response-Undisturbed none away = Undisturbed-refl id m
  on_response-Undisturbed (some pk) away =
      Undisturbed-trans id m (add_membership pk j m) _ (add_membership-Undisturbed id pk j m)
        (refresh-Undisturbed (add_membership pk j m) away)

  on_comment-Undisturbed :
      (text : List ℕ) (auth : Option ℕ) (c : Option Comment)
      → j ≢ id
      → Undisturbed id m (on_comment j text auth md c m)
  unfolding comment_row
  on_comment-Undisturbed text auth (some c) away =
      add_comment-Undisturbed id (comment_row j c) m away
  on_comment-Undisturbed text none none away = Undisturbed-refl id m
  on_comment-Undisturbed text (some pk) none away = add_comment-Undisturbed id _ m away

  -- What the store is told of another episode.
  pub notice_command-Undisturbed :
      (c : UnifiedCommand) (auth : Option ℕ)
      → j ≢ id
      → Undisturbed id m (notice_command j r c auth md m)
  unfolding notice_command
  notice_command-Undisturbed request_challenge auth away = refresh-Undisturbed m away
  notice_command-Undisturbed (submit_response _ _) auth away = on_response-Undisturbed auth away
  notice_command-Undisturbed (revoke_session _ _) auth away = refresh-Undisturbed m away
  notice_command-Undisturbed (submit_comment text _) auth away =
      on_comment-Undisturbed text auth (last r.comments) away

-- The rows stay in the order of their keys.
upsert_episode-Sorted :
    (ep : EpisodeSnapshot) (m : Mem) → Sorted m.comments → Sorted (upsert_episode ep m).comments
unfolding upsert_episode
upsert_episode-Sorted ep m h = h

add_comment-Sorted :
    (row : CommentRow) (m : Mem) → Sorted m.comments → Sorted (add_comment row m).comments
unfolding add_comment
add_comment-Sorted row m h = tree_insert-Sorted row.episode_id row.comment_id row m.comments h

on_response-Sorted :
    (j : ℕ) (r : Room) (auth : Option ℕ) (m : Mem)
    → Sorted m.comments
    → Sorted (on_response j r auth m).comments
unfolding upsert_episode add_membership
on_response-Sorted j r none m h = h
on_response-Sorted j r (some pk) m h = h

on_comment-Sorted :
    (j : ℕ) (text : List ℕ) (auth : Option ℕ) (md : PayloadMetadata) (c : Option Comment) (m : Mem)
    → Sorted m.comments
    → Sorted (on_comment j text auth md c m).comments
on_comment-Sorted j text auth md (some c) m h = add_comment-Sorted (comment_row j c) m h
on_comment-Sorted j text none md none m h = h
on_comment-Sorted j text (some pk) md none m h = add_comment-Sorted _ m h

pub notice-Sorted :
    (ev : Event Room UnifiedCommand) (m : Mem) → Sorted m.comments → Sorted (notice ev m).comments
unfolding notice notice_command
notice-Sorted (on_initialize id r) m h = upsert_episode-Sorted (snapshot id r) m h
notice-Sorted (on_rollback id r) m h = h
notice-Sorted (on_command id r request_challenge auth md) m h =
    upsert_episode-Sorted (snapshot id r) m h
notice-Sorted (on_command id r (submit_response _ _) auth md) m h = on_response-Sorted id r auth m h
notice-Sorted (on_command id r (revoke_session _ _) auth md) m h =
    upsert_episode-Sorted (snapshot id r) m h
notice-Sorted (on_command id r (submit_comment text _) auth md) m h =
    on_comment-Sorted id text auth md (last r.comments) m h
