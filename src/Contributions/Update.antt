-- ===== src/Contributions/Update.antt =====
-- source_contribution_cache_update: candidates for the sources that a build replaces. The owner is
-- an argument and part of the result; `has_owner` is the test for a null pointer.
use server_entry.Prelude.{
  ℕ, zero, suc, ◌+◌, Bool, true, false, not, ◌&&◌, ◌||◌, List, [], ◌∷◌, ◌++◌, Option, none, some,
  ltb, ◌==◌, if◌then◌else◌, map, length, get_or, set_at,
}
use server_entry.Strings.{Status, ok, initialization_failed, invalid_state}
use server_entry.Strings.Update.{is_ok}
use server_entry.Contributions.{
  Cache, ContributionState, EntityState, Slot, free_slot, no_contribution, no_entity_state, draw,
  grown,
}

pub record Update : Type 0 where
  pub has_owner : Bool
  pub changed : List ℕ
  pub changed_entities : List ℕ
  pub candidate_generation : ℕ
  pub full_reconstruction : Bool
  pub prepared : Bool
  pub committed_update : Bool
  pub prepared_states_size : ℕ
  pub prepared_entity_states_size : ℕ
  pub prepared_owner_growth : Bool
  pub failure : Status

abbrev pub new_update : ℕ → Bool → Update
new_update generation full = record {
  has_owner = true;
  changed = [];
  changed_entities = [];
  candidate_generation = generation;
  full_reconstruction = full;
  prepared = false;
  committed_update = false;
  prepared_states_size = 0;
  prepared_entity_states_size = 0;
  prepared_owner_growth = false;
  failure = ok;
}

unfoldable pub begin_update : Bool → Cache → Cache × Update
begin_update full c =
    let d = draw c.next_candidate_generation in
    (record c { next_candidate_generation = d.1 }, new_update d.0 full)

-- The move constructor: the new update and what is left of the old one.
unfoldable pub move : Update → Update × Update
move u = (
  u,
  record u {
    has_owner = false;
    changed = [];
    changed_entities = [];
    prepared_owner_growth = false;
  },
)

-- Whether the slot of an id holds a candidate of the generation.
abbrev pub is_marked : {V : Type 0} → V → ℕ → ℕ → List (Slot V) → Bool
is_marked d generation id slots =
    ltb id (length slots) && (get_or slots id (free_slot d)).generation == generation

abbrev pub candidate_of : {V : Type 0} → V → ℕ → ℕ → List (Slot V) → Option V
candidate_of d generation id slots =
    if is_marked d generation id slots then some (get_or slots id (free_slot d)).value else none

unfoldable pub was_replaced : ℕ → Cache → Update → Bool
was_replaced source c u =
    u.has_owner
    && (not (source == 0) && is_marked no_contribution u.candidate_generation source c.candidates)

unfoldable pub committed : ℕ → Cache → Update → Option ContributionState
committed source c u =
    if not u.has_owner || (source == 0 || not (ltb source (length c.states)))
    then none
    else some (get_or c.states source no_contribution)

unfoldable pub candidate : ℕ → Cache → Update → Option ContributionState
candidate source c u =
    if not u.has_owner || source == 0
    then none
    else candidate_of no_contribution u.candidate_generation source c.candidates

unfoldable pub candidate_entity : ℕ → Cache → Update → Option EntityState
candidate_entity entity c u =
    if not u.has_owner || entity == 0
    then none
    else candidate_of no_entity_state u.candidate_generation entity c.candidate_entities

-- `slot.generation = candidate_generation` and `slot.value = value` behind the growth.
abbrev pub marked_at : {V : Type 0} → V → ℕ → ℕ → V → List (Slot V) → List (Slot V)
marked_at d generation id value slots =
    set_at id (record { generation = generation; value = value })
      (grown (free_slot d) (id + 1) slots)

pub record Replaced : Type 0 where
  pub cache : Cache
  pub update : Update
  pub status : Status
  pub output : Option ℕ

abbrev pub refuse : Status → Cache → Update → Replaced
refuse s c u = record { cache = c; update = record u { failure = s }; status = s; output = none }

abbrev pub entered : ℕ → Cache → Update → Cache
entered source c u = record c {
  candidates = marked_at no_contribution u.candidate_generation source no_contribution c.candidates;
}

-- `output` is the id whose candidate the pointer is to. `has_grown` and `recorded` say whether
-- the growth of the candidates and `push_back` find memory.
unfoldable pub replace : Bool → Bool → ℕ → Cache → Update → Replaced
replace has_grown recorded source c u =
    if not (is_ok u.failure)
    then record { cache = c; update = u; status = u.failure; output = none }
    else if not u.has_owner
        || (u.prepared || (u.committed_update || (source == 0 || was_replaced source c u)))
    then refuse invalid_state c u
    else if not has_grown
    then refuse initialization_failed c u
    else if not recorded
    then refuse initialization_failed (entered source c u) u
    else record {
      cache = entered source c u;
      update = record u { changed = u.changed ++ (source ∷ []) };
      status = ok;
      output = some source;
    }

-- A write through a pointer to the candidate of a source.
unfoldable pub write_candidate : ℕ → ContributionState → Cache → Cache
write_candidate source value c = record c {
  candidates =
      set_at source
        (record (get_or c.candidates source (free_slot no_contribution)) { value = value })
        c.candidates;
}

unfoldable pub write_entity : ℕ → EntityState → Cache → Cache
write_entity entity value c = record c {
  candidate_entities =
      set_at entity
        (record (get_or c.candidate_entities entity (free_slot no_entity_state)) { value = value })
        c.candidate_entities;
}

-- What touch_entity does to cache and update; `touched` is false where it throws.
pub record Touched : Type 0 where
  pub cache : Cache
  pub update : Update
  pub touched : Bool

-- What a candidate for an entity starts from.
abbrev pub base_entity : ℕ → Cache → Update → EntityState
base_entity entity c u =
    if not u.full_reconstruction && ltb entity (length c.entity_states)
    then get_or c.entity_states entity no_entity_state
    else no_entity_state

abbrev pub entered_entity : ℕ → Cache → Update → Cache
entered_entity entity c u = record c {
  candidate_entities =
      marked_at no_entity_state u.candidate_generation entity (base_entity entity c u)
        c.candidate_entities;
}

unfoldable pub touch_entity : Bool → Bool → ℕ → Cache → Update → Touched
touch_entity has_grown recorded entity c u =
    if not u.has_owner || (entity == 0 || (u.prepared || u.committed_update))
    then record { cache = c; update = u; touched = false }
    else if is_marked no_entity_state u.candidate_generation entity c.candidate_entities
    then record { cache = c; update = u; touched = true }
    else if not has_grown
    then record { cache = c; update = u; touched = false }
    else if not recorded
    then record { cache = entered_entity entity c u; update = u; touched = false }
    else record {
      cache = entered_entity entity c u;
      update = record u { changed_entities = u.changed_entities ++ (entity ∷ []) };
      touched = true;
    }

abbrev pub maximum : List ℕ → ℕ
maximum [] = 0
maximum (x ∷ xs) = if ltb (maximum xs) x then x else maximum xs

-- `if (!changed.empty() && states.size() <= maximum) grow(states, maximum + 1)`
abbrev pub fitted : {V : Type 0} → V → List ℕ → List V → List V
fitted d [] states = states
fitted d (i ∷ is) states = grown d (maximum (i ∷ is) + 1) states

abbrev pub sized : Cache → Update → Update
sized c u = record u {
  prepared_states_size = length c.states;
  prepared_entity_states_size = length c.entity_states;
  prepared_owner_growth = true;
}

-- `states_grow` and `entities_grow` say whether the two growths find memory.
unfoldable pub prepare_publish : Bool → Bool → Cache → Update → Cache × Update × Status
prepare_publish states_grow entities_grow c u =
    let states' = record c { states = fitted no_contribution u.changed c.states } in
    if not (is_ok u.failure)
    then (c, u, u.failure)
    else if not u.has_owner || (u.prepared || u.committed_update)
    then (c, record u { failure = invalid_state }, invalid_state)
    else if not states_grow
    then (c, record (sized c u) { failure = initialization_failed }, initialization_failed)
    else if not entities_grow
    then (states', record (sized c u) { failure = initialization_failed }, initialization_failed)
    else (
      record states' { entity_states = fitted no_entity_state u.changed_entities c.entity_states },
      record (sized c u) { prepared = true },
      ok,
    )

-- `for (id : changed) std::swap(states[id], candidates[id].value)`
unfoldable pub swap_in : {V : Type 0} → V → List ℕ → List V → List (Slot V) → List V × List (Slot V)
swap_in d [] states slots = (states, slots)
swap_in d (i ∷ is) states slots =
    let slot = get_or slots i (free_slot d) in
    swap_in d is (set_at i slot.value states)
      (set_at i (record slot { value = get_or states i d }) slots)

-- The states that a rebuild starts from.
abbrev pub cleared : {V : Type 0} → V → Bool → List V → List V
cleared d full states = if full then map (λ s. d) states else states

unfoldable pub publish_prepared : Cache → Update → Cache × Update
publish_prepared c u =
    let sources =
      swap_in no_contribution u.changed (cleared no_contribution u.full_reconstruction c.states)
        c.candidates in
    let entities =
      swap_in no_entity_state u.changed_entities
        (cleared no_entity_state u.full_reconstruction c.entity_states) c.candidate_entities in
    if not u.has_owner || (not u.prepared || u.committed_update) then (c, u) else (
      record c {
        states = sources.0;
        candidates = sources.1;
        entity_states = entities.0;
        candidate_entities = entities.1;
        provenance_complete = true;
      },
      record u { prepared_owner_growth = false; committed_update = true },
    )

-- `if (values.size() > size) values.resize(size)`
abbrev pub shrunk {ℓ} : {A : Type ℓ} → ℕ → List A → List A
shrunk zero xs = []
shrunk (suc n) [] = []
shrunk (suc n) (x ∷ xs) = x ∷ shrunk n xs

unfoldable pub cancel : Cache → Update → Cache × Update
cancel c u =
    let closed = record u { prepared = true; failure = invalid_state } in
    if u.committed_update
    then (c, u)
    else if u.has_owner && u.prepared_owner_growth
    then (
      record c {
        states = shrunk u.prepared_states_size c.states;
        entity_states = shrunk u.prepared_entity_states_size c.entity_states;
      },
      record closed { prepared_owner_growth = false },
    )
    else (c, closed)
