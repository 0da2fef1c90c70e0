-- ===== src/Contributions/Examples.antt =====
-- The theorems on the contribution cache at a cache with one replaced source.
use server_entry.Prelude.{Bool, ◌==◌}
use server_entry.Prelude.{ℕ, zero, suc, ◌≡◌, ◌⊎◌, refl, true, false, List, [], ◌∷◌, arith, contains}
use server_entry.Strings.{ok}
use server_entry.Contributions.{Cache, ContributionState, Slot, no_contribution, free_slot}
use server_entry.Contributions.Update.{
  Update, new_update, begin_update, replace, touch_entity, prepare_publish, publish_prepared,
  cancel, is_marked,
}
use server_entry.Contributions.Tracked.{IsFresh, Tracked, begin_update-Tracked, Fresh}
use server_entry.Contributions.Replaced.{IsReplaced, IsRefused, replace-IsReplaced}
use server_entry.Contributions.Replaced
use server_entry.Contributions.Touched
use server_entry.Contributions.Touched.{IsTouched, IsThrown, touch_entity-IsTouched}
use server_entry.Contributions.Update.{candidate_entity}
use server_entry.Contributions.Remap.{remap_new_entities, remap_new_entities_apart}
use server_entry.Contributions.Published.{
  IsPublished, publish_prepared-IsPublished, cancel-prepare_publish,
}

abbrev old_state : ContributionState
old_state = record { named = []; anonymous_types = 7 ∷ [] }

abbrev new_state : ContributionState
new_state = record { named = []; anonymous_types = 9 ∷ [] }

abbrev slots : List (Slot ContributionState)
slots = free_slot no_contribution ∷ record { generation = 3; value = new_state } ∷ []

abbrev cache : Cache
cache = record {
  states = no_contribution ∷ old_state ∷ old_state ∷ [];
  candidates = slots;
  entity_states = [];
  candidate_entities = [];
  next_candidate_generation = 4;
  provenance_complete = true;
}

abbrev update : Update
update = record (new_update 3 false) { changed = 1 ∷ [] }

cache-Fresh : Fresh no_contribution 4 slots
cache-Fresh zero = omega arith
cache-Fresh (suc zero) = omega arith
cache-Fresh (suc (suc i)) = omega arith

cache-IsFresh : IsFresh cache
cache-IsFresh = record { started = omega arith; sources = cache-Fresh; entities = λ i. omega arith }

marked_source : (i : ℕ) → contains i (1 ∷ []) ≡ is_marked no_contribution 3 i slots
marked_source zero = refl
marked_source (suc zero) = refl
marked_source (suc (suc i)) = ground arith

cache-Tracked : Tracked cache update
cache-Tracked = record {
  owner = refl;
  positive = omega arith;
  current = omega arith;
  sources = (marked_source, (refl, tt));
  entities = (λ i. ground arith, tt);
  fresh = cache-IsFresh;
}

begin_update-Tracked_example : Tracked (begin_update false cache).0 (begin_update false cache).1
begin_update-Tracked_example = begin_update-Tracked false cache cache-IsFresh (omega arith)

replace-IsReplaced_example :
    IsReplaced 2 cache update (replace true true 2 cache update)
    ⊎ (IsRefused cache (replace true true 2 cache update)
        × Replaced.Reason true true 2 cache update)
replace-IsReplaced_example = replace-IsReplaced true true 2 cache update cache-Tracked

touch_entity-IsTouched_example :
    IsTouched 5 cache update (touch_entity true true 5 cache update)
    ⊎ (IsThrown cache update (touch_entity true true 5 cache update)
        × Touched.Reason true true 5 update)
touch_entity-IsTouched_example = touch_entity-IsTouched true true 5 cache update cache-Tracked

prepared_ok : (prepare_publish true true cache update).2 ≡ ok
unfolding prepare_publish
prepared_ok = refl

publish_prepared-IsPublished_example :
    IsPublished cache update
      (publish_prepared
        (prepare_publish true true cache update).0
        (prepare_publish true true cache update).1).0
publish_prepared-IsPublished_example =
    publish_prepared-IsPublished true true cache update cache-Tracked prepared_ok

cancel-prepare_publish_example :
    (cancel
      (prepare_publish true false cache update).0
      (prepare_publish true false cache update).1).0
    ≡ cache
cancel-prepare_publish_example = cancel-prepare_publish true false cache update refl

-- The first growth finds memory, and no later one.
abbrev first_growth : ℕ → Bool
first_growth step = step == 0

remap_new_entities_apart_example :
    (candidate_entity 3
        (remap_new_entities true first_growth 7 (8 ∷ 7 ∷ []) cache update).0
        (remap_new_entities true first_growth 7 (8 ∷ 7 ∷ []) cache update).1
      ≡ candidate_entity 3 cache update)
    × ((remap_new_entities true first_growth 7 (8 ∷ 7 ∷ []) cache update).0.states ≡ cache.states)
    × ((remap_new_entities true first_growth 7 (8 ∷ 7 ∷ []) cache update).0.entity_states
        ≡ cache.entity_states)
    × ((remap_new_entities true first_growth 7 (8 ∷ 7 ∷ []) cache update).0.candidates
        ≡ cache.candidates)
remap_new_entities_apart_example =
    remap_new_entities_apart true first_growth 7 (8 ∷ 7 ∷ []) cache update 3 cache-Tracked refl refl
