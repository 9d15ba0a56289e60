-- ===== src/KasDraw/Offchain/Sessions.antt =====
-- The messages that are taken of an episode, as sessions.
use native.Mathlib.Decide.{ℕ_discrete}
use kaspa_x.Base.{
  ℕ, ◌≡◌, ◌≢◌, refl, sym, ◌∙◌, subst, inl, inr, Bool, true, false, Option, none, some, List, [],
  ◌∷◌, ◌==◌, ==_refl, add64, arith, Bool-cases,
}
use kaspa_x.Base.Assoc.{
  lookup, insert, erase, lookup-insert_self, lookup-insert_ne, lookup-erase, lookup-erase_ne,
}
use kaspa_x.Kdapp.Engine.{EpisodeMessage}
use kaspa_x.KasDraw.Episode.{LotteryCommand}
use kaspa_x.KasDraw.Tlv.{
  TlvMsg, MsgType, new, cmd, ack, close, ack_close, checkpoint, decode, from_u8, tlv_version,
}
use kaspa_x.KasDraw.Offchain.{
  Numbers, Taken, Routed, is_accepted, forward, route_type, route, number, on_datagram, push_some,
  run_udp,
}

module _ (close_enabled : Bool) (ep : ℕ) where
  -- From one state of an episode's numbers to another, by the messages that are taken: none is no
  -- session, and some number is the last of a session that goes on.
  pub data Session : Option ℕ → List Taken → Option ℕ → Type 0 where
    done : (last : Option ℕ) → Session last [] last
    elsewhere :
        (msg : TlvMsg) (mt : MsgType) (sent : Bool) (last end : Option ℕ) (ts : List Taken)
        → msg.episode_id ≢ ep
        → Session last ts end
        → Session last ((msg, mt, sent) ∷ ts) end
    opened :
        (msg : TlvMsg) (sent : Bool) (end : Option ℕ) (ts : List Taken)
        → msg.episode_id ≡ ep
        → msg.seq ≡ 0
        → Session (some 0) ts end
        → Session none ((msg, new, sent) ∷ ts) end
    commanded :
        (msg : TlvMsg) (sent : Bool) (prev : ℕ) (end : Option ℕ) (ts : List Taken)
        → msg.episode_id ≡ ep
        → msg.seq ≡ add64 prev 1
        → Session (some msg.seq) ts end
        → Session (some prev) ((msg, cmd, sent) ∷ ts) end
    checked :
        (msg : TlvMsg) (prev : ℕ) (end : Option ℕ) (ts : List Taken)
        → msg.episode_id ≡ ep
        → msg.seq ≡ add64 prev 1
        → Session (some msg.seq) ts end
        → Session (some prev) ((msg, checkpoint, false) ∷ ts) end
    closed :
        (msg : TlvMsg) (prev : ℕ) (end : Option ℕ) (ts : List Taken)
        → msg.episode_id ≡ ep
        → msg.seq ≡ add64 prev 1
        → close_enabled ≡ true
        → Session none ts end
        → Session (some prev) ((msg, close, true) ∷ ts) end
    close_lost :
        (msg : TlvMsg) (prev : ℕ) (end : Option ℕ) (ts : List Taken)
        → msg.episode_id ≡ ep
        → msg.seq ≡ add64 prev 1
        → close_enabled ≡ true
        → Session (some msg.seq) ts end
        → Session (some prev) ((msg, close, false) ∷ ts) end

module _ (ack_enabled close_enabled : Bool) (to_vec : EpisodeMessage LotteryCommand → List ℕ) where
  module _ (msg : TlvMsg) (now : ℕ) (map : Numbers) (end : Option ℕ) (ts : List Taken) where
    abbrev forwarded : MsgType → Bool → Routed
    forwarded mt sent =
        forward ack_enabled close_enabled to_vec msg mt now sent
          (insert msg.episode_id (number ack_enabled close_enabled to_vec mt msg.seq) map)

    abbrev Continues : ℕ → Option ℕ → Routed → Type 0
    Continues ep last r =
        Session close_enabled ep (lookup ep r.0) ts end
        → Session close_enabled ep last (push_some ack_enabled close_enabled to_vec r.3 ts) end

    -- What the numbers say after a write, and after the close.
    written : (n : ℕ) → lookup msg.episode_id (insert msg.episode_id n map) ≡ some n
    written n = lookup-insert_self msg.episode_id n map

    erased : lookup msg.episode_id (erase msg.episode_id (insert msg.episode_id msg.seq map)) ≡ none
    erased =
        lookup-erase msg.episode_id msg.episode_id (insert msg.episode_id msg.seq map)
        ∙ rw (==_refl msg.episode_id) refl

    -- A taken message is the next of its own episode.
    own-Continues :
        (mt : MsgType) (sent : Bool) (last : Option ℕ)
        → is_accepted ack_enabled close_enabled to_vec mt last msg.seq ≡ true
        → Continues msg.episode_id last (forwarded mt sent)
    unfolding is_accepted
    own-Continues new true none h k =
        opened msg true end ts refl (ground arith)
          (subst (λ o. Session close_enabled msg.episode_id o ts end) (written 0) k)
    own-Continues new false none h k =
        opened msg false end ts refl (ground arith)
          (subst (λ o. Session close_enabled msg.episode_id o ts end) (written 0) k)
    own-Continues new sent (some prev) h k = absurd (cc)
    own-Continues cmd sent none h k = absurd (cc)
    own-Continues cmd true (some prev) h k =
        commanded msg true prev end ts refl (ground arith)
          (subst (λ o. Session close_enabled msg.episode_id o ts end) (written msg.seq) k)
    own-Continues cmd false (some prev) h k =
        commanded msg false prev end ts refl (ground arith)
          (subst (λ o. Session close_enabled msg.episode_id o ts end) (written msg.seq) k)
    own-Continues ack sent last h k = absurd (cc)
    own-Continues ack_close sent last h k = absurd (cc)
    own-Continues checkpoint sent none h k = absurd (cc)
    own-Continues checkpoint sent (some prev) h k =
        checked msg prev end ts refl (ground arith)
          (subst (λ o. Session close_enabled msg.episode_id o ts end) (written msg.seq) k)
    own-Continues close sent none h k = absurd (ground arith)
    own-Continues close true (some prev) h k =
        closed msg prev end ts refl (ground arith) (ground arith)
          (subst (λ o. Session close_enabled msg.episode_id o ts end) erased k)
    own-Continues close false (some prev) h k =
        close_lost msg prev end ts refl (ground arith) (ground arith)
          (subst (λ o. Session close_enabled msg.episode_id o ts end) (written msg.seq) k)

    other-lookup :
        (ep : ℕ) (mt : MsgType) (sent : Bool)
        → msg.episode_id ≢ ep
        → lookup ep (forwarded mt sent).0 ≡ lookup ep map
    other-lookup ep new true away = lookup-insert_ne msg.episode_id ep 0 map away
    other-lookup ep new false away = lookup-insert_ne msg.episode_id ep 0 map away
    other-lookup ep cmd true away = lookup-insert_ne msg.episode_id ep msg.seq map away
    other-lookup ep cmd false away = lookup-insert_ne msg.episode_id ep msg.seq map away
    other-lookup ep ack true away = lookup-insert_ne msg.episode_id ep msg.seq map away
    other-lookup ep ack false away = lookup-insert_ne msg.episode_id ep msg.seq map away
    other-lookup ep ack_close true away = lookup-insert_ne msg.episode_id ep msg.seq map away
    other-lookup ep ack_close false away = lookup-insert_ne msg.episode_id ep msg.seq map away
    other-lookup ep checkpoint sent away = lookup-insert_ne msg.episode_id ep msg.seq map away
    other-lookup ep close true away =
        lookup-erase_ne msg.episode_id ep (insert msg.episode_id msg.seq map) away
        ∙ lookup-insert_ne msg.episode_id ep msg.seq map away
    other-lookup ep close false away = lookup-insert_ne msg.episode_id ep msg.seq map away

    -- What is forwarded was taken.
    forward-taken :
        (mt : MsgType) (sent : Bool) → (b : Bool) × ((forwarded mt sent).3 ≡ some (msg, mt, b))
    forward-taken checkpoint sent = (false, refl)
    forward-taken new true = (true, refl)
    forward-taken new false = (false, refl)
    forward-taken cmd true = (true, refl)
    forward-taken cmd false = (false, refl)
    forward-taken ack true = (true, refl)
    forward-taken ack false = (false, refl)
    forward-taken close true = (true, refl)
    forward-taken close false = (false, refl)
    forward-taken ack_close true = (true, refl)
    forward-taken ack_close false = (false, refl)

    other-Continues :
        (ep : ℕ) (mt : MsgType) (sent : Bool)
        → msg.episode_id ≢ ep
        → Continues ep (lookup ep map) (forwarded mt sent)
    other-Continues ep mt sent away k =
        let (b, taken) = forward-taken mt sent in
        subst
          (λ o.
            Session close_enabled ep (lookup ep map)
              (push_some ack_enabled close_enabled to_vec o ts) end)
          (sym taken)
          (elsewhere msg mt b (lookup ep map) end ts away
            (subst (λ o. Session close_enabled ep o ts end) (other-lookup ep mt sent away) k))

    taken-Continues :
        (ep : ℕ) (mt : MsgType) (sent : Bool)
        → is_accepted ack_enabled close_enabled to_vec mt (lookup msg.episode_id map) msg.seq ≡ true
        → Continues ep (lookup ep map) (forwarded mt sent)
    taken-Continues ep mt sent good = elim (ℕ_discrete msg.episode_id ep) [
      | yes same ↦
          subst (λ e. Continues e (lookup e map) (forwarded mt sent)) same
            (own-Continues mt sent (lookup msg.episode_id map) good)
      | no away ↦ other-Continues ep mt sent away
    ]

    route-Continues :
        (ep : ℕ) (mt : Option MsgType) (sent : Bool)
        → Continues ep
            (lookup ep map)
            (route_type ack_enabled close_enabled to_vec msg mt now sent map)
    route-Continues ep none sent = λ k. k
    route-Continues ep (some mt) sent =
        elim (Bool-cases
          (is_accepted ack_enabled close_enabled to_vec mt (lookup msg.episode_id map) msg.seq)) [
            | inl good ↦ rw good (taken-Continues ep mt sent good)
            | inr bad ↦ rw bad (λ k. k)
          ]

  -- Whatever datagrams arrive, and whether or not the engine takes what is sent to it: the messages that
  -- are taken of an episode are sessions. Each is opened by a message of number 0 when there is none;
  -- goes on with messages that each have the last one's number plus one, as a u64; and ends with a
  -- close of the next number, if closing is enabled and the engine takes it. The numbers kept at the
  -- end are those of the session that is then open.
  pub run_udp-Session :
      (ep : ℕ) (ds : List (List ℕ × ℕ × Bool)) (map : Numbers)
      → Session close_enabled ep
          (lookup ep map)
          (run_udp ack_enabled close_enabled to_vec ds map).1
          (lookup ep (run_udp ack_enabled close_enabled to_vec ds map).0)
  unfolding run_udp on_datagram
  run_udp-Session ep [] map = done (lookup ep map)
  run_udp-Session ep ((bytes, now, sent) ∷ ds) map =
      decoded-Session (decode bytes) (
        run_udp-Session ep ds
          (route ack_enabled close_enabled to_vec (decode bytes) now sent map).0)
    where
      decoded-Session :
          (m : Option TlvMsg) {ts : List Taken} {end : Option ℕ}
          → Session close_enabled ep
              (lookup ep (route ack_enabled close_enabled to_vec m now sent map).0)
              ts
              end
          → Session close_enabled ep
              (lookup ep map)
              (push_some ack_enabled close_enabled to_vec
                (route ack_enabled close_enabled to_vec m now sent map).3
                ts)
              end
      decoded-Session none = λ k. k
      decoded-Session (some msg) {ts} {end} = elim (Bool-cases (msg.version == tlv_version)) [
        | inl current ↦
            rw current (route-Continues msg now map end ts ep (from_u8 msg.msg_type) sent)
        | inr other ↦ rw other (λ k. k)
      ]
