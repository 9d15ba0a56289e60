-- ===== src/Indexer/Mirror/Rooms.antt =====
-- A room, and what the store has of it.
use native.Mathlib.Decide.{ℕ_discrete}
use kaspa_x.Base.{
  ℕ, ◌+◌, ◌^◌, ◌<◌, ◌≡◌, refl, sym, ap, ◌∙◌, subst, true, some, List, [], ◌∷◌, ◌++◌, map, arith,
}
use kaspa_x.Base.Assoc.{lookup, lookup-insert_self}
use kaspa_x.Base.Sets.{contains-set_insert, contains-set_erase}
use kaspa_x.Kdapp.Episode.{PayloadMetadata}
use kaspa_x.CommentIt.Episode.{
  UnifiedCommand, request_challenge, submit_response, revoke_session, submit_comment,
  UnifiedRollback, Comment, Room, Crypto, is_authenticated, challenge, initialize,
}
use kaspa_x.CommentIt.Episode
use kaspa_x.CommentIt.Episode.Rules.{Step}
use kaspa_x.Indexer.Ordered.{
  has_key, rows_of, rows_of-absent, Sorted, Below, Below-weaken, Below-tree_insert,
  rows_of-tree_insert_self,
}
use kaspa_x.Indexer.Store.{Mem, or_default, upsert_episode, add_comment, add_membership}
use kaspa_x.Indexer.Mirror.Writes.{Undisturbed, add_membership-Undisturbed, joins}
use kaspa_x.Indexer.Listener.{snapshot, comment_row, last, notice_command}

-- The store has the room's comments and nothing else under its id, each number of a comment below the
-- room's next one, and each authenticated participant as a member.
pub record Listed (id : ℕ) (room : Room) (m : Mem) : Type 0 where
  pub rows : rows_of id m.comments ≡ map (comment_row id) room.comments
  pub below : Below id room.next_comment_id m.comments
  pub joined :
      (pk : ℕ)
      → is_authenticated room pk ≡ true
      → has_key id (or_default (lookup pk m.memberships)) ≡ true

pub record Mirrored (id : ℕ) (room : Room) (m : Mem) : Type 0 where
  pub known : lookup id m.episodes ≡ some (snapshot id room)
  pub listed : Listed id room m

pub refresh :
    (id : ℕ) (room : Room) (m : Mem)
    → Listed id room m
    → Mirrored id room (upsert_episode (snapshot id room) m)
unfolding upsert_episode snapshot
refresh id room m h = record {
  known = lookup-insert_self id (snapshot id room) m.episodes;
  listed = record { rows = h.rows; below = h.below; joined = h.joined };
}

pub Mirrored-Undisturbed :
    (id : ℕ) (room : Room) (m m' : Mem)
    → Undisturbed id m m'
    → Mirrored id room m
    → Mirrored id room m'
Mirrored-Undisturbed id room m m' u h = record {
  known = u.episode ∙ h.known;
  listed = record {
    rows = u.rows ∙ h.listed.rows;
    below = u.below room.next_comment_id h.listed.below;
    joined = λ pk e. u.members pk (h.listed.joined pk e);
  };
}

-- A new room, under an id that the store has no comments of.
pub initialize-Listed :
    (id : ℕ) (ps : List ℕ) (md : PayloadMetadata) (m : Mem)
    → Below id 0 m.comments
    → Listed id (initialize ps md) m
unfolding initialize
initialize-Listed id ps md m h = record {
  rows = rows_of-absent id m.comments h;
  below = Below-weaken id 0 1 m.comments (omega arith) h;
  joined = λ pk e. cc;
}

last-append : (cs : List Comment) (c : Comment) → last (cs ++ c ∷ []) ≡ some c
last-append [] c = refl
last-append (d ∷ []) c = refl
last-append (d ∷ e ∷ cs) c = last-append (e ∷ cs) c

map-append :
    (id : ℕ) (cs : List Comment) (c : Comment)
    → map (comment_row id) (cs ++ c ∷ []) ≡ map (comment_row id) cs ++ comment_row id c ∷ []
map-append id [] c = refl
map-append id (d ∷ cs) c = ap (◌∷◌ (comment_row id d)) (map-append id cs c)

-- The comment that a step adds.
abbrev posted : ℕ → PayloadMetadata → List ℕ → Room → Comment
posted pk md text s = record {
  id = s.next_comment_id;
  text = text;
  author = pk;
  timestamp = md.accepting_time;
}

module _ (crypto : Crypto) (md : PayloadMetadata) (pk : ℕ) (s : Room) (m : Mem) (id : ℕ)
    (sorted : Sorted m.comments) where
  add_comment-kept :
      (text : List ℕ)
      → s.next_comment_id + 1 < 2 ^ 64
      → Mirrored id s m
      → Mirrored id
          (Episode.add_comment crypto text pk md s)
          (add_comment (comment_row id (posted pk md text s)) m)
  unfolding add_comment comment_row snapshot
  add_comment-kept text room h =
      let c = posted pk md text s in
      record {
        known = h.known;
        listed = record {
          rows =
              rows_of-tree_insert_self id s.next_comment_id (comment_row id c) m.comments sorted
                h.listed.below
              ∙ ap (λ rs. rs ++ comment_row id c ∷ []) h.listed.rows
              ∙ sym (map-append id s.comments c);
          below =
              subst (λ n. Below id n (add_comment (comment_row id c) m).comments) (omega arith)
                (Below-tree_insert id (s.next_comment_id + 1) id s.next_comment_id
                  (comment_row id c) m.comments (λ same. omega arith)
                  (Below-weaken id s.next_comment_id (s.next_comment_id + 1) m.comments
                    (omega arith) h.listed.below));
          joined = h.listed.joined;
        };
      }

  -- A step of the room, and what the store is told of it.
  pub Step-Mirrored :
      {c : UnifiedCommand} {s' : Room} {rb : UnifiedRollback}
      → Step crypto md s pk c s' rb
      → s.next_comment_id + 1 < 2 ^ 64
      → Mirrored id s m
      → Mirrored id s' (notice_command id s' c (some pk) md m)
  unfolding notice_command challenge
  Step-Mirrored (Step.challenged new) room h =
      refresh id _ m
        (record { rows = h.listed.rows; below = h.listed.below; joined = h.listed.joined })
  Step-Mirrored (Step.admitted signature nonce new good) room h =
      refresh id _ (add_membership pk id m) (record {
        rows = (add_membership-Undisturbed id pk id m).rows ∙ h.listed.rows;
        below = (add_membership-Undisturbed id pk id m).below s.next_comment_id h.listed.below;
        joined = λ k e. elim (ℕ_discrete pk k) [
          | yes same ↦
              subst
                (λ i.
                  has_key id (or_default (lookup i (add_membership pk id m).memberships)) ≡ true)
                same (joins pk id m)
          | no away ↦ (add_membership-Undisturbed id pk id m).members k (
              h.listed.joined k
                (ground (arith, sym (contains-set_insert pk k s.authenticated_participants) ∙ e)))
        ];
      })
  Step-Mirrored (Step.revoked token signature there good) room h = refresh id _ m (record {
    rows = h.listed.rows;
    below = h.listed.below;
    joined = λ k e.
        h.listed.joined k
          (ground (arith, sym (contains-set_erase pk k s.authenticated_participants) ∙ e));
  })
  Step-Mirrored (Step.commented text token full short there) room h =
      rw (last-append s.comments (posted pk md text s)) (add_comment-kept text room h)
