-- ===== src/Tests/Indexer.antt =====
-- A block that opens a comment room, admits a participant and posts a comment, as the indexer sees it.
use kaspa_x.Base.{
  ℕ, zero, suc, ◌+◌, ◌-◌, ◌≡◌, refl, Option, none, some, List, [], ◌∷◌, map, reverse, take, retain,
  ltb, ◌==◌, length, arith,
}
use kaspa_x.Base.Assoc.{lookup, insert}
use kaspa_x.Kdapp.Episode.{PayloadMetadata}
use kaspa_x.Kdapp.Engine.{
  Engine, EpisodeWrapper, EpisodeMessage, new_episode, signed_command, AssociatedTx, Codec,
  accept_txs, new,
}
use kaspa_x.CommentIt.Episode.{
  UnifiedCommand, UnifiedRollback, submit_response, submit_comment, Room, Crypto, execute,
  initialize,
}
use kaspa_x.Indexer.Store.{
  EpisodeSnapshot, Mem, empty, upsert_episode, get_recent, get_episode, get_comments_after,
}
use kaspa_x.Indexer.Listener.{rooms, absorb, snapshot, comment_row}
use kaspa_x.Indexer.Mirror.Watched.{Watched}
use kaspa_x.Indexer.Mirror.Blocks.{accept_txs-Watched}
use kaspa_x.Indexer.Queries.{answers-Mirrored}

abbrev from_der_hex : List ℕ → Option ℕ
from_der_hex (x ∷ []) = some x
from_der_hex _ = none

abbrev crypto : Crypto
crypto = record {
  from_der_hex = from_der_hex;
  to_message = λ text. length text;
  verify_ecdsa = λ message signature key. signature == message + key;
  first_u64 = λ seed. seed + 5;
}

abbrev from_slice : List ℕ → Option (EpisodeMessage UnifiedCommand)
from_slice (zero ∷ []) = some (new_episode 5 (7 ∷ 8 ∷ []))
from_slice (suc zero ∷ []) = some (signed_command 5 (submit_response (10 ∷ []) (1 ∷ 1 ∷ [])) 8 9)
from_slice (suc (suc zero) ∷ []) = some (signed_command 5 (submit_comment (72 ∷ 105 ∷ []) []) 8 9)
from_slice _ = none

abbrev codec : Codec UnifiedCommand
codec = record {
  from_slice = from_slice;
  to_message = λ c. 1;
  verify_ecdsa = λ message signature key. signature == message + key;
}

abbrev md : ℕ → PayloadMetadata
md time = record {
  accepting_hash = 1;
  accepting_daa = 2;
  accepting_time = time;
  tx_id = 4;
  tx_outputs = none;
}

abbrev txs : List AssociatedTx
txs = (40, 0 ∷ [], none) ∷ (41, 1 ∷ [], none) ∷ (42, 2 ∷ [], none) ∷ (43, 9 ∷ [], none) ∷ []

abbrev fresh : Engine Room UnifiedRollback
fresh = new

fresh-Watched : Watched (length txs) fresh.episodes empty
unfolding new
fresh-Watched = record {
  sorted = tt;
  short = omega arith;
  mirrored = λ id w found. absurd (cc);
  unknown = λ id missing. tt;
}

accept_txs-Watched_example :
    Watched 0
      (accept_txs (rooms crypto) codec (tt ∷ []) 1 2 30 txs fresh).0.episodes
      (absorb (accept_txs (rooms crypto) codec (tt ∷ []) 1 2 30 txs fresh).2 empty)
accept_txs-Watched_example = accept_txs-Watched crypto codec 1 2 30 txs fresh empty fresh-Watched

abbrev indexed : Mem
indexed = absorb (accept_txs (rooms crypto) codec (tt ∷ []) 1 2 30 txs fresh).2 empty

commented : length (get_comments_after 5 0 10 indexed) ≡ 1
unfolding accept_txs get_comments_after absorb new insert execute initialize
commented = refl

-- Two rooms under one creation time: only the second is among the recent ones.
abbrev opened : ℕ → EpisodeSnapshot
opened id = record {
  episode_id = id;
  creator_pubkey = none;
  created_at = 30;
  authenticated_count = 0;
}

one_recent :
    length (get_recent 10 (upsert_episode (opened 6) (upsert_episode (opened 5) empty))) ≡ 1
unfolding get_recent upsert_episode insert
one_recent = refl

abbrev wrapper_of :
    Option (EpisodeWrapper Room UnifiedRollback) → EpisodeWrapper Room UnifiedRollback
wrapper_of (some w) = w
wrapper_of none = record { episode = initialize [] (md 0); rollback_stack = [] }

abbrev run : Engine Room UnifiedRollback
run = (accept_txs (rooms crypto) codec (tt ∷ []) 1 2 30 txs fresh).0

abbrev room : EpisodeWrapper Room UnifiedRollback
room = wrapper_of (lookup 5 run.episodes)

room_found : lookup 5 run.episodes ≡ some room
unfolding accept_txs new insert execute initialize
room_found = refl

answers-Mirrored_example :
    (get_episode 5 3 indexed
      ≡ some (record {
        snapshot = snapshot 5 room.episode;
        recent_comments = take (suc (3 - 1)) (reverse (map (comment_row 5) room.episode.comments));
      }))
    × (get_comments_after 5 20 0 indexed
        ≡ take
            (suc (0 - 1))
            (retain (λ row. ltb 20 row.timestamp) (map (comment_row 5) room.episode.comments)))
answers-Mirrored_example =
    answers-Mirrored 5 room.episode indexed 3 20 0
      (accept_txs-Watched_example.mirrored 5 room room_found).0
