-- ===== src/Contributions.antt =====
-- project/builder/source_contribution_cache.hpp and .cpp: what each source contributed to the graph,
-- kept for incremental builds. source_id and stable_id are the numbers that they hold, 0 being none,
-- and a pointer to an immutable payload is the payload or `none`.
pub mod Update
mod Slots
pub mod Tracked
pub mod Replaced
pub mod Touched
pub mod Published
pub mod Remap
mod Examples
use server_entry.Prelude.{
  ℕ, zero, suc, ◌+◌, ◌-◌, ◌%◌, Bool, true, false, not, ◌&&◌, List, [], ◌∷◌, ◌++◌, Option, none,
  some, ltb, leb, ◌==◌, if◌then◌else◌, map, length, get_or,
}
use server_entry.Strings.{Status, ok, initialization_failed}
use server_entry.Types.{BuiltinType, integer}
use server_entry.Graph.{EntityKind, EnumValueRecord, builtin_types}

-- enum_definition_state of project/language/enum_semantics.hpp.
pub data EnumDefinitionState : Type 0 where
  opaque defined : EnumDefinitionState

pub record DefinitionPayload : Type 0 where
  pub underlying : BuiltinType
  pub values : List EnumValueRecord

pub record ContributionRecord : Type 0 where
  pub entity : ℕ
  pub name : ℕ
  pub kind : EntityKind
  pub state : EnumDefinitionState
  pub scoped : Bool
  pub fixed : Bool
  pub underlying : BuiltinType
  pub definition : Option DefinitionPayload

-- canonical_entity_construction_state: counts of 32 bits, `underlying` with one for each builtin.
pub record EntityState : Type 0 where
  pub declarations : ℕ
  pub scoped : ℕ
  pub unscoped : ℕ
  pub fixed : ℕ
  pub nonfixed : ℕ
  pub definitions : ℕ
  pub active_fixed : ℕ
  pub aggregate_declarations : ℕ
  pub aggregate_definitions : ℕ
  pub underlying : List ℕ
  pub active_type : BuiltinType
  pub definition_source : ℕ
  pub definition : Option DefinitionPayload
  pub aggregate_definition_source : ℕ

pub record ContributionState : Type 0 where
  pub named : List ContributionRecord
  pub anonymous_types : List ℕ

abbrev pub no_contribution : ContributionState
no_contribution = record { named = []; anonymous_types = [] }

abbrev pub no_entity_state : EntityState
no_entity_state = record {
  declarations = 0;
  scoped = 0;
  unscoped = 0;
  fixed = 0;
  nonfixed = 0;
  definitions = 0;
  active_fixed = 0;
  aggregate_declarations = 0;
  aggregate_definitions = 0;
  underlying = map (λ t. 0) builtin_types;
  active_type = integer;
  definition_source = 0;
  definition = none;
  aggregate_definition_source = 0;
}

-- candidate_slot and candidate_entity_slot: a value that belongs to the update of its generation.
pub record Slot (V : Type 0) : Type 0 where
  pub generation : ℕ
  pub value : V

abbrev pub free_slot : {V : Type 0} → V → Slot V
free_slot d = record { generation = 0; value = d }

pub record Cache : Type 0 where
  pub states : List ContributionState
  pub candidates : List (Slot ContributionState)
  pub entity_states : List EntityState
  pub candidate_entities : List (Slot EntityState)
  pub next_candidate_generation : ℕ
  pub provenance_complete : Bool

abbrev pub empty_cache : Bool → Cache
empty_cache complete = record {
  states = [];
  candidates = [];
  entity_states = [];
  candidate_entities = [];
  next_candidate_generation = 1;
  provenance_complete = complete;
}

-- source_contribution_cache::initialize and invalidate, which clear whatever was there.
abbrev pub initialize : Cache → Cache × Status
initialize c = (empty_cache true, ok)

abbrev pub invalidate : Cache → Cache
invalidate c = empty_cache false

abbrev pub contribution_count : ℕ → Cache → ℕ
contribution_count source c =
    if not (source == 0) && ltb source (length c.states)
    then length ((get_or c.states source no_contribution).named)
    else 0

-- The generations are counters of 64 bits, and 0 is left out.
abbrev pub next_generation : ℕ → ℕ
next_generation g = (g + 1) % 0x10000000000000000

-- The generation handed out, and the next one.
abbrev pub draw : ℕ → ℕ × ℕ
draw next =
    if next == 0
    then (next_generation next, next_generation (next_generation next))
    else (next, next_generation next)

abbrev pub copies {ℓ} : {A : Type ℓ} → ℕ → A → List A
copies zero d = []
copies (suc n) d = d ∷ copies n d

-- grow_contribution_vector; the capacity that it reserves is not a value.
abbrev pub grown {ℓ} : {A : Type ℓ} → A → ℕ → List A → List A
grown d required xs = if leb required (length xs) then xs else xs ++ copies (required - length xs) d
