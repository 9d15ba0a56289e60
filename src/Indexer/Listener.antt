-- ===== src/Indexer/Listener.antt =====
-- kdapp-indexer/src/listener.rs: the engine's event handler that feeds the store. The store in memory
-- does not fail, so the warnings on failure are left out.
use kaspa_x.Base.{ℕ, Option, none, some, List, [], ◌∷◌, length}
use kaspa_x.Kdapp.Episode.{PayloadMetadata, Episode}
use kaspa_x.Kdapp.Engine.{Event, on_initialize, on_command, on_rollback}
use kaspa_x.CommentIt.Episode.{
  UnifiedCommand, request_challenge, submit_response, revoke_session, submit_comment, Comment, Room,
  UnifiedRollback, AuthError, Crypto, initialize, execute, rollback,
}
use kaspa_x.Indexer.Store.{
  EpisodeSnapshot, CommentRow, Mem, upsert_episode, add_comment, add_membership,
}

-- The episodes that are listened to.
abbrev pub rooms : Crypto → Episode Room UnifiedCommand UnifiedRollback AuthError
rooms crypto = record { initialize = initialize; execute = execute crypto; rollback = rollback }

unfoldable pub snapshot : ℕ → Room → EpisodeSnapshot
snapshot id room = record {
  episode_id = id;
  creator_pubkey = room.creator;
  created_at = room.created_at;
  authenticated_count = length room.authenticated_participants;
}

unfoldable pub comment_row : ℕ → Comment → CommentRow
comment_row id c = record {
  episode_id = id;
  comment_id = c.id;
  author = c.author;
  text = c.text;
  timestamp = c.timestamp;
}

abbrev pub last : List Comment → Option Comment
last [] = none
last (c ∷ []) = some c
last (c ∷ d ∷ cs) = last (d ∷ cs)

abbrev pub on_response : ℕ → Room → Option ℕ → Mem → Mem
on_response id room none m = m
on_response id room (some pk) m = upsert_episode (snapshot id room) (add_membership pk id m)

abbrev pub on_comment : ℕ → List ℕ → Option ℕ → PayloadMetadata → Option Comment → Mem → Mem
on_comment id text auth md (some c) m = add_comment (comment_row id c) m
on_comment id text none md none m = m
on_comment id text (some pk) md none m =
    add_comment
      (record {
        episode_id = id;
        comment_id = 0;
        author = pk;
        text = text;
        timestamp = md.accepting_time;
      })
      m

unfoldable pub notice_command : ℕ → Room → UnifiedCommand → Option ℕ → PayloadMetadata → Mem → Mem
unfolding snapshot comment_row upsert_episode add_comment add_membership
notice_command id room (submit_response _ _) auth md m = on_response id room auth m
notice_command id room (submit_comment text _) auth md m =
    on_comment id text auth md (last room.comments) m
notice_command id room request_challenge auth md m = upsert_episode (snapshot id room) m
notice_command id room (revoke_session _ _) auth md m = upsert_episode (snapshot id room) m

-- `IndexerHandler`: a rollback is ignored.
unfoldable pub notice : Event Room UnifiedCommand → Mem → Mem
unfolding notice_command
notice (on_initialize id room) m = upsert_episode (snapshot id room) m
notice (on_command id room c auth md) m = notice_command id room c auth md m
notice (on_rollback id room) m = m

-- The notices that the engine gives its one handler.
unfoldable pub absorb : List (Unit {0} × Event Room UnifiedCommand) → Mem → Mem
unfolding notice
absorb [] m = m
absorb ((_, ev) ∷ log) m = absorb log (notice ev m)
