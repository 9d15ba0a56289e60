-- ===== src/Kdapp/Engine/Filter.antt =====
-- The removal of old episodes: which ones go, and when.
use kaspa_x.Base.{
  ℕ, ◌≡◌, ◌+◌, ◌<◌, ◌^◌, refl, inl, inr, Bool, true, false, ◌&&◌, Option, none, some, [], ◌∷◌,
  arith, ltb, add64, Bool-cases, contains, if◌then◌else◌,
}
use kaspa_x.Base.Assoc.{Map, lookup, IsMap}
use kaspa_x.Kdapp.Episode.{Episode}
use kaspa_x.Kdapp.Engine.{
  Engine, filter_old_episodes, is_old, old_ids, sample_removal_time, episode_lifetime,
}
use kaspa_x.Kdapp.Engine.Invariant.{Inv}
use kaspa_x.Kdapp.Engine.Run.{lookup-erase_all}

-- Whether an episode of this creation time goes.
abbrev pub goes : ℕ → Option ℕ → Bool
goes daa none = false
goes daa (some time) = is_old daa time

contains-old_ids :
    (daa j : ℕ) (m : Map ℕ) → IsMap m → contains (old_ids daa m) j ≡ goes daa (lookup j m)
unfolding old_ids
contains-old_ids daa j [] h = refl
contains-old_ids daa j ((id, time) ∷ m) h = ground (arith, contains-old_ids daa j m h.1)

module _ {S C R E : Type 0} {ep : Episode S C R E} {Valid : S → Type 0} {e : Engine S R}
    (h : Inv ep Valid e) (daa : ℕ) where
  filter_due :
      ltb (add64 e.next_filtering sample_removal_time) daa ≡ true
      → (j : ℕ)
      → (lookup j (filter_old_episodes daa e).episodes
          ≡ (if goes daa (lookup j e.episode_creation_times) then none else lookup j e.episodes))
        × (lookup j (filter_old_episodes daa e).episode_creation_times ≡ (
            if goes daa (lookup j e.episode_creation_times)
            then none
            else lookup j e.episode_creation_times))
  unfolding filter_old_episodes
  filter_due due j =
      rw (due, lookup-erase_all, lookup-erase_all, contains-old_ids daa j _ h.keys) (refl, refl)

  filter_early :
      ltb (add64 e.next_filtering sample_removal_time) daa ≡ false → filter_old_episodes daa e ≡ e
  unfolding filter_old_episodes
  filter_early early = rw early

-- An episode and its creation time are removed exactly when more than sample_removal_time has passed
-- since the last filtering and the episode is older than episode_lifetime; any other keeps both. In an
-- engine that satisfies the invariant, for a filtering score that does not overflow.
pub filter_old_episodes_lem :
    {S C R E : Type 0} {ep : Episode S C R E} {Valid : S → Type 0} {e : Engine S R}
    → Inv ep Valid e
    → (daa j time : ℕ) → lookup j e.episode_creation_times ≡ some time
    → e.next_filtering + sample_removal_time < 2 ^ 64
    → let removed =
        ltb (e.next_filtering + sample_removal_time) daa && ltb (time + episode_lifetime) daa in
      (lookup j (filter_old_episodes daa e).episodes
        ≡ (if removed then none else lookup j e.episodes))
      × (lookup j (filter_old_episodes daa e).episode_creation_times
          ≡ (if removed then none else some time))
filter_old_episodes_lem {e} h daa j time at range =
    elim (Bool-cases (ltb (add64 e.next_filtering sample_removal_time) daa)) [
      | inl due ↦ ground (arith, filter_due h daa due j)
      | inr early ↦ rw (filter_early h daa early) (ground arith)
    ]
