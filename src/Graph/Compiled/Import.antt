-- ===== src/Graph/Compiled/Import.antt =====
-- project/graph/graph.cpp: import_compiled.
use server_entry.Prelude.{
  ℕ, ◌+◌, ◌-◌, ◌%◌, Bool, true, not, ◌&&◌, ◌||◌, List, [], ◌∷◌, Option, none, some, ◌==◌,
  if◌then◌else◌, map, length, get_or,
}
use server_entry.Strings.{Status, ok, initialization_failed, artifact_corrupt}
use server_entry.Types.{void_type, is_supported_abi_configuration}
use server_entry.Graph.{
  Graph, EntityEntry, TypeEntry, EnumValueRecord, MemberRecord, canonical_default, builtin_record,
  builtin_types, valid, live,
}
use server_entry.Graph.Lookup.{and_then, is_aggregate, when, span}
use server_entry.Graph.Dependencies.{rebuild_dependency_index}
use server_entry.Graph.Compiled.Arrays.{
  convert_all, good_value, to_value, good_member, to_member, good_type, to_type, free_slots,
  count_live, import_entities, check_identities, zeros,
}
use server_entry.Graph.Compiled.Tables.{
  CanonicalTables, import_rest, after_builtins, live_marks, is_live_member,
}
use server_entry.Graph.Compiled.{CompiledGraphState, CompiledTypeSlot}

abbrev pub all {ℓ} : {A : Type ℓ} → (A → Bool) → List A → Bool
all test [] = true
all test (x ∷ xs) = test x && all test xs

abbrev pub live_members : List MemberRecord → List Bool → Option TypeEntry → Bool
live_members arena marks none = true
live_members arena marks (some t) =
    not (is_aggregate t.kind && valid t.definition)
    || all (is_live_member marks) (span arena (t.definition.begin - 1) t.definition.count)

abbrev pub has_type_ref : List ℕ → EntityEntry → Bool
has_type_ref named_refs e = not (live e) || not (get_or named_refs e.handle 0 == 0)

-- The parts of the graph that replace the old ones.
pub record Imported : Type 0 where
  pub types : List (Option TypeEntry)
  pub entities : List EntityEntry
  pub member_records : List MemberRecord
  pub enum_value_records : List EnumValueRecord
  pub tables : CanonicalTables

abbrev pub no_tables : ℕ → CanonicalTables
no_tables types = record {
  canonical_types = canonical_default ∷ map builtin_record builtin_types;
  named_type_refs = zeros (types + 1);
  derived_type_index = [];
}

abbrev pub import_tables : CompiledGraphState → Option CanonicalTables
import_tables s =
    and_then (after_builtins (void_type ∷ builtin_types) s.canonical_types)
      (λ rest. import_rest (length s.types) 21 rest (no_tables (length s.types)))

-- The last three checks.
abbrev pub consistent : CompiledGraphState → Imported → Bool
consistent s p =
    check_identities p.entities 0 (zeros (length p.entities)) s.identities
    && all (has_type_ref p.tables.named_type_refs) p.entities
    && all (live_members p.member_records (live_marks p.types p.tables.canonical_types)) p.types

unfoldable pub import_parts : CompiledGraphState → Option Imported
import_parts s = and_then (convert_all good_value to_value s.enum_values) (λ values.
    and_then (convert_all (good_member (length s.canonical_types)) to_member s.members) (λ members.
      and_then (convert_all (good_type (length members) (length values)) to_type s.types) (λ types.
        and_then (import_entities types s.entities) (λ entities.
          and_then (import_tables s) (λ tables.
            let p : Imported = record {
              types = types;
              entities = entities;
              member_records = members;
              enum_value_records = values;
              tables = tables;
            } in
            when (consistent s p) (some p))))))

-- The graph with the parts swapped in, before its dependency index is rebuilt.
abbrev pub swapped_in : CompiledGraphState → Imported → Graph → Graph
swapped_in s p g = record g {
  types = p.types;
  free_type_slots = free_slots 0 s.types;
  entities = p.entities;
  identity = s.identities;
  member_records = p.member_records;
  enum_value_records = p.enum_value_records;
  canonical_types = p.tables.canonical_types;
  named_type_refs = p.tables.named_type_refs;
  derived_type_index = p.tables.derived_type_index;
}

abbrev pub type_is_live : CompiledTypeSlot → Bool
type_is_live slot = slot.live

-- The counters, which are set where the index has been rebuilt.
abbrev pub counted : CompiledGraphState → Graph × Status → Graph × Status
counted s (g, ok) = (
  record g {
    entity_count = count_live live g.entities;
    user_type_count = count_live type_is_live s.types;
    next_stable_id =
        if length g.entities % 0x100000000 == 0 then 1 else length g.entities % 0x100000000;
    abi = s.abi;
    generation = 0;
  },
  ok,
)
counted s (g, status) = (g, status)

abbrev pub adopt_parts : Bool → CompiledGraphState → Graph → Option Imported → Graph × Status
adopt_parts allocated s g none = (g, artifact_corrupt)
adopt_parts allocated s g (some p) =
    counted s (rebuild_dependency_index allocated (swapped_in s p g))

-- `allocated` is for the parts, `index_allocated` for the dependency index.
unfoldable pub import_compiled : Bool → Bool → CompiledGraphState → Graph → Graph × Status
import_compiled allocated index_allocated s g =
    if not (is_supported_abi_configuration s.abi)
    then (g, artifact_corrupt)
    else if not allocated
    then (g, initialization_failed)
    else adopt_parts index_allocated s g (import_parts s)
