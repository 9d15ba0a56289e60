-- ===== src/CommentIt/Episode/Members.antt =====
-- Who is in the room, and what the comments are.
use native.Mathlib.Decide.{ℕ_discrete}
use kaspa_x.Base.{
  ℕ, ◌+◌, ◌%◌, ◌^◌, ◌≡◌, ◌≤◌, ◌<◌, refl, sym, ◌∙◌, true, false, ◌||◌, Option, List, [], ◌∷◌, ◌++◌,
  ◌==◌, contains, arith, subst,
}
use kaspa_x.Base.Assoc.{Map, lookup, insert, lookup-insert_self, lookup-insert_ne}
use kaspa_x.Base.Sets.{contains-set_insert, contains-set_erase}
use kaspa_x.Kdapp.Episode.{PayloadMetadata, ok, err}
use kaspa_x.CommentIt.Episode.{
  UnifiedCommand, UnifiedRollback, Comment, Room, Executed, Crypto, is_blank, byte_len, attempts,
  is_authenticated, has_comment, challenge, execute,
}
use kaspa_x.CommentIt.Episode.Rules.{Step, Judged, room-Judged}

-- A comment of an authorized participant, numbered below `next`, with a text that the room takes.
pub record IsProper (authorized : List ℕ) (next : ℕ) (c : Comment) : Type 0 where
  pub numbered : c.id < next
  pub author : contains authorized c.author ≡ true
  pub filled : is_blank c.text ≡ false
  pub short : byte_len c.text ≤ 2000

abbrev pub AllProper : List ℕ → ℕ → List Comment → Type 0
AllProper authorized next [] = Unit {0}
AllProper authorized next (c ∷ cs) = IsProper authorized next c × AllProper authorized next cs

-- No two comments have the same id.
abbrev pub Distinct : List Comment → Type 0
Distinct [] = Unit {0}
Distinct (c ∷ cs) = (has_comment c.id cs ≡ false) × Distinct cs

AllProper-weaken :
    (authorized : List ℕ) (m n : ℕ) (cs : List Comment)
    → m ≤ n
    → AllProper authorized m cs
    → AllProper authorized n cs
AllProper-weaken authorized m n [] le h = tt
AllProper-weaken authorized m n (c ∷ cs) le h = (
  record {
    numbered = omega (arith, h.0.numbered);
    author = h.0.author;
    filled = h.0.filled;
    short = h.0.short;
  },
  AllProper-weaken authorized m n cs le h.1,
)

AllProper-append :
    (authorized : List ℕ) (n : ℕ) (cs : List Comment) (c : Comment)
    → AllProper authorized n cs
    → IsProper authorized n c
    → AllProper authorized n (cs ++ c ∷ [])
AllProper-append authorized n [] c h p = (p, tt)
AllProper-append authorized n (d ∷ cs) c h p = (h.0, AllProper-append authorized n cs c h.1 p)

pub AllProper-fresh :
    (authorized : List ℕ) (n : ℕ) (cs : List Comment)
    → AllProper authorized n cs
    → has_comment n cs ≡ false
AllProper-fresh authorized n [] h = refl
AllProper-fresh authorized n (c ∷ cs) h =
    ground (arith, h.0.numbered, AllProper-fresh authorized n cs h.1)

has_comment-append :
    (id : ℕ) (cs : List Comment) (c : Comment)
    → has_comment id (cs ++ c ∷ []) ≡ (has_comment id cs || c.id == id)
has_comment-append id [] c = ground arith
has_comment-append id (d ∷ cs) c = ground (arith, has_comment-append id cs c)

Distinct-append :
    (cs : List Comment) (c : Comment)
    → Distinct cs
    → has_comment c.id cs ≡ false
    → Distinct (cs ++ c ∷ [])
Distinct-append [] c h fresh = (refl, tt)
Distinct-append (d ∷ cs) c h fresh =
    (has_comment-append d.id cs c ∙ ground (arith, h.0), Distinct-append cs c h.1 (ground arith))

pub record Orderly (s : Room) : Type 0 where
  pub members :
      (pk : ℕ) → is_authenticated s pk ≡ true → contains s.authorized_participants pk ≡ true
  pub slow : (pk : ℕ) → attempts (lookup pk s.rate_limits) ≤ 5
  pub proper : AllProper s.authorized_participants s.next_comment_id s.comments
  pub distinct : Distinct s.comments

counted :
    (pk k : ℕ) (m : Map ℕ)
    → attempts (lookup pk m) < 5
    → attempts (lookup k m) ≤ 5
    → attempts (lookup k (insert pk ((attempts (lookup pk m) + 1) % 2 ^ 32) m)) ≤ 5
counted pk k m few old = elim (ℕ_discrete pk k) [
  | yes here ↦
      subst (λ j. attempts (lookup j (insert pk ((attempts (lookup pk m) + 1) % 2 ^ 32) m)) ≤ 5)
        here (rw (lookup-insert_self pk ((attempts (lookup pk m) + 1) % 2 ^ 32) m) (omega arith))
  | no away ↦ rw (lookup-insert_ne pk k ((attempts (lookup pk m) + 1) % 2 ^ 32) m away) old
]

module _ (crypto : Crypto) where
  Step-Orderly :
      {md : PayloadMetadata} {pk : ℕ} {s s' : Room} {c : UnifiedCommand} {rb : UnifiedRollback}
      → Step crypto md s pk c s' rb
      → contains s.authorized_participants pk ≡ true
      → attempts (lookup pk s.rate_limits) < 5
      → s.next_comment_id + 1 < 2 ^ 64
      → Orderly s
      → Orderly s'
  unfolding challenge
  Step-Orderly {md} {pk} {s} (Step.challenged new) known few room h = record {
    members = h.members;
    slow = λ k. counted pk k s.rate_limits few (h.slow k);
    proper = h.proper;
    distinct = h.distinct;
  }
  Step-Orderly {md} {pk} {s} (Step.admitted signature nonce new good) known few room h = record {
    members = λ k e. joined k (sym (contains-set_insert pk k s.authenticated_participants) ∙ e);
    slow = h.slow;
    proper = h.proper;
    distinct = h.distinct;
  }
    where
      joined :
          (k : ℕ)
          → (pk == k || contains s.authenticated_participants k) ≡ true
          → contains s.authorized_participants k ≡ true
      joined k e = elim (ℕ_discrete pk k) [
        | yes here ↦ subst (λ j. contains s.authorized_participants j ≡ true) here known
        | no away ↦ h.members k (ground arith)
      ]
  Step-Orderly {md} {pk} {s} (Step.revoked token signature there good) known few room h = record {
    members = λ k e.
        h.members k
          (ground (arith, sym (contains-set_erase pk k s.authenticated_participants) ∙ e));
    slow = h.slow;
    proper = h.proper;
    distinct = h.distinct;
  }
  Step-Orderly {md} {pk} {s} (Step.commented text token full short there) known few room h =
      record {
        members = h.members;
        slow = h.slow;
        proper =
            AllProper-append s.authorized_participants _ s.comments _
              (AllProper-weaken s.authorized_participants s.next_comment_id _ s.comments
                (omega arith) h.proper)
              (record { numbered = omega arith; author = known; filled = full; short = short });
        distinct =
            Distinct-append s.comments _ h.distinct
              (AllProper-fresh s.authorized_participants s.next_comment_id s.comments h.proper);
      }

  Judged-Orderly :
      (md : PayloadMetadata) (s : Room) (c : UnifiedCommand) (auth : Option ℕ) (x : Executed)
      → Judged crypto md s c auth x
      → s.next_comment_id + 1 < 2 ^ 64
      → Orderly s
      → Orderly x.0
  Judged-Orderly md s c auth (s', err e) j room h = subst Orderly (sym j) h
  Judged-Orderly md s c auth (s', ok rb) (pk, same, known, few, step) room h =
      Step-Orderly step known few room h

  -- A command, by anybody, keeps it that who is authenticated is authorized, that nobody has asked for
  -- more than five challenges, that no two comments have the same id, and that every comment has an id
  -- below the next one, an authorized author, and a text that is neither blank nor above 2000 bytes; as
  -- long as comment numbers are left.
  pub execute-Orderly :
      (c : UnifiedCommand) (auth : Option ℕ) (md : PayloadMetadata) (s : Room)
      → s.next_comment_id + 1 < 2 ^ 64
      → Orderly s
      → Orderly (execute crypto c auth md s).0
  execute-Orderly c auth md s room h =
      Judged-Orderly md s c auth (execute crypto c auth md s) (room-Judged crypto md s c auth) room
        h
