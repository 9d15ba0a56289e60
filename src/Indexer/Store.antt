-- ===== src/Indexer/Store.antt =====
-- kdapp-indexer/src/models.rs and storage.rs, the store in memory. Its locks are taken and given back
-- within an operation, so an operation is a function; a lock is never poisoned.
-- A public key is itself, where the code has its hexadecimal digits.
use kaspa_x.Base.{
  ℕ, ◌+◌, Bool, ◌&&◌, Option, none, some, List, [], ◌∷◌, map, reverse, ltb, leb, ◌==◌,
  if◌then◌else◌, length, take,
}
use kaspa_x.Base.Assoc.{Map, lookup, insert}
use kaspa_x.Indexer.Ordered.{tree_insert, pair_lt}

pub record EpisodeSnapshot : Type 0 where
  pub episode_id : ℕ
  pub creator_pubkey : Option ℕ
  pub created_at : ℕ
  pub authenticated_count : ℕ

pub record CommentRow : Type 0 where
  pub episode_id : ℕ
  pub comment_id : ℕ
  pub author : ℕ
  pub text : List ℕ
  pub timestamp : ℕ

pub record EpisodeDetail : Type 0 where
  pub snapshot : EpisodeSnapshot
  pub recent_comments : List CommentRow

pub record StoreStats : Type 0 where
  pub episodes : ℕ
  pub comments : ℕ
  pub memberships : ℕ

abbrev pub Comments : Type 0
Comments = List ((ℕ × ℕ) × CommentRow)

pub record Mem : Type 0 where
  pub episodes : Map EpisodeSnapshot
  pub comments : Comments
  pub memberships : Map (List (ℕ × Unit {0}))
  pub recent_order : List (ℕ × ℕ)

-- `Mem::default()`.
abbrev pub empty : Mem
empty = record { episodes = []; comments = []; memberships = []; recent_order = [] }

unfoldable pub upsert_episode : EpisodeSnapshot → Mem → Mem
unfolding tree_insert
upsert_episode ep m = record m {
  episodes = insert ep.episode_id ep m.episodes;
  recent_order = tree_insert ltb ep.created_at ep.episode_id m.recent_order;
}

unfoldable pub add_comment : CommentRow → Mem → Mem
unfolding tree_insert
add_comment row m = record m {
  comments = tree_insert pair_lt (row.episode_id, row.comment_id) row m.comments;
}

abbrev pub or_default : {A : Type 0} → Option (List A) → List A
or_default none = []
or_default (some xs) = xs

unfoldable pub add_membership : ℕ → ℕ → Mem → Mem
unfolding tree_insert
add_membership pubkey episode_id m = record m {
  memberships =
      insert pubkey (tree_insert ltb episode_id tt (or_default (lookup pubkey m.memberships)))
        m.memberships;
}

-- The rows that pass, until, after one is taken, there are `limit`; `n` have been taken.
unfoldable pub collect : (ℕ → CommentRow → Bool) → ℕ → ℕ → Comments → List CommentRow
collect p limit n [] = []
collect p limit n (((eid, cid), row) ∷ rows) =
    let rest = collect p limit (n + 1) rows in
    if p eid row
    then (if leb limit (n + 1) then row ∷ [] else row ∷ rest)
    else collect p limit n rows

abbrev pub detail : List CommentRow → Option EpisodeSnapshot → Option EpisodeDetail
detail rows none = none
detail rows (some ep) = some (record { snapshot = ep; recent_comments = rows })

unfoldable pub get_episode : ℕ → ℕ → Mem → Option EpisodeDetail
unfolding collect
get_episode id recent m =
    detail (collect (λ eid row. eid == id) recent 0 (reverse m.comments)) (lookup id m.episodes)

unfoldable pub get_comments_after : ℕ → ℕ → ℕ → Mem → List CommentRow
unfolding collect
get_comments_after id after_ts limit m =
    collect (λ eid row. eid == id && ltb after_ts row.timestamp) limit 0 m.comments

-- The snapshots of the ids that are known, until there are `limit` after any id.
unfoldable pub collect_recent : Map EpisodeSnapshot → ℕ → ℕ → List (ℕ × ℕ) → List EpisodeSnapshot
collect_recent eps limit n [] = []
collect_recent eps limit n ((_, id) ∷ order) = elim (lookup id eps) [
  | none ↦ if leb limit n then [] else collect_recent eps limit n order
  | some ep ↦
      let rest = collect_recent eps limit (n + 1) order in
      if leb limit (n + 1) then ep ∷ [] else ep ∷ rest
]

unfoldable pub get_recent : ℕ → Mem → List EpisodeSnapshot
unfolding collect_recent
get_recent limit m = collect_recent m.episodes limit 0 (reverse m.recent_order)

unfoldable pub get_my_episodes : ℕ → ℕ → Mem → List ℕ
get_my_episodes pubkey limit m =
    take limit (map (λ e. e.0) (or_default (lookup pubkey m.memberships)))

unfoldable pub stats : Mem → StoreStats
stats m = record {
  episodes = length m.episodes;
  comments = length m.comments;
  memberships = length m.memberships;
}
