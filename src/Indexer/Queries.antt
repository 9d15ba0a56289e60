-- ===== src/Indexer/Queries.antt =====
-- What the store answers about a room that it mirrors.
use mathlib.Core.List.{reverse_aux}
use kaspa_x.Base.{
  ℕ, suc, ◌+◌, ◌-◌, ◌≡◌, refl, ap, ◌∙◌, inl, inr, Bool, true, false, ◌&&◌, some, List, [], ◌∷◌, map,
  reverse, ltb, leb, ◌==◌, if◌then◌else◌, take, retain, Bool-cases, arith,
}
use kaspa_x.CommentIt.Episode.{Room}
use kaspa_x.Indexer.Ordered.{rows_of}
use kaspa_x.Indexer.Store.{CommentRow, Comments, Mem, collect, get_episode, get_comments_after}
use kaspa_x.Indexer.Listener.{snapshot, comment_row}
use kaspa_x.Indexer.Mirror.Rooms.{Mirrored}

-- All rows that pass.
abbrev passing : (ℕ → CommentRow → Bool) → Comments → List CommentRow
passing p [] = []
passing p (((eid, cid), row) ∷ rows) = if p eid row then row ∷ passing p rows else passing p rows

collect-take :
    (p : ℕ → CommentRow → Bool) (limit n : ℕ) (rows : Comments)
    → collect p limit n rows ≡ take (suc (limit - suc n)) (passing p rows)
unfolding collect
collect-take p limit n [] = refl
collect-take p limit n (((eid, cid), row) ∷ rows) = elim (Bool-cases (p eid row)) [
  | inl good ↦ elim (Bool-cases (leb limit (n + 1))) [
    | inl full ↦ rw (good, full) (ap (λ k. row ∷ take k (passing p rows)) (omega_full limit n full))
    | inr more ↦
        rw (good, more)
          (ap (◌∷◌ row) (
            collect-take p limit (n + 1) rows
            ∙ ap (λ k. take k (passing p rows)) (omega_more limit n more)))
  ]
  | inr bad ↦ rw bad (collect-take p limit n rows)
]
  where
    omega_full : (limit n : ℕ) → leb limit (n + 1) ≡ true → 0 ≡ limit - suc n
    omega_full limit n h = ground arith

    omega_more :
        (limit n : ℕ) → leb limit (n + 1) ≡ false → suc (limit - suc (n + 1)) ≡ limit - suc n
    omega_more limit n h = ground arith

passing-after :
    (id after_ts : ℕ) (rows : Comments)
    → passing (λ eid row. eid == id && ltb after_ts row.timestamp) rows
      ≡ retain (λ row. ltb after_ts row.timestamp) (rows_of id rows)
passing-after id after_ts [] = refl
passing-after id after_ts (((eid, cid), row) ∷ rows) =
    ground (arith, passing-after id after_ts rows)

passing-rows_of : (id : ℕ) (rows : Comments) → passing (λ eid row. eid == id) rows ≡ rows_of id rows
passing-rows_of id [] = refl
passing-rows_of id (((eid, cid), row) ∷ rows) = ground (arith, passing-rows_of id rows)

passing-reverse_aux :
    (p : ℕ → CommentRow → Bool) (rows acc : Comments)
    → passing p (reverse_aux rows acc) ≡ reverse_aux (passing p rows) (passing p acc)
passing-reverse_aux p [] acc = refl
passing-reverse_aux p (((eid, cid), row) ∷ rows) acc =
    passing-reverse_aux p rows (((eid, cid), row) ∷ acc) ∙ moved (p eid row)
  where
    moved :
        (b : Bool)
        → reverse_aux (passing p rows) (if b then row ∷ passing p acc else passing p acc)
          ≡ reverse_aux (if b then row ∷ passing p rows else passing p rows) (passing p acc)
    moved true = refl
    moved false = refl

-- Of a room that the store mirrors: the episode is its snapshot with its latest comments, the latest
-- first; the comments after a time are those of the room's that were made later, the oldest first; in
-- both as many as asked for, but also one where none is asked for.
pub answers-Mirrored :
    (id : ℕ) (room : Room) (m : Mem) (recent after_ts limit : ℕ)
    → Mirrored id room m
    → (get_episode id recent m
        ≡ some (record {
          snapshot = snapshot id room;
          recent_comments = take (suc (recent - 1)) (reverse (map (comment_row id) room.comments));
        }))
      × (get_comments_after id after_ts limit m
          ≡ take
              (suc (limit - 1))
              (retain (λ row. ltb after_ts row.timestamp) (map (comment_row id) room.comments)))
unfolding get_episode get_comments_after
answers-Mirrored id room m recent after_ts limit h = (
  rw h.known (
      ap (λ rows. some (record { snapshot = snapshot id room; recent_comments = rows }))
        (collect-take (λ eid row. eid == id) recent 0 (reverse m.comments)
          ∙ ap (take (suc (recent - 1))) (
              passing-reverse_aux (λ eid row. eid == id) m.comments []
              ∙ ap reverse (passing-rows_of id m.comments ∙ h.listed.rows)))),
  collect-take (λ eid row. eid == id && ltb after_ts row.timestamp) limit 0 m.comments
      ∙ ap (take (suc (limit - 1))) (
          passing-after id after_ts m.comments
          ∙ ap (retain (λ row. ltb after_ts row.timestamp)) h.listed.rows),
)
