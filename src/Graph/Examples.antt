-- ===== src/Graph/Examples.antt =====
-- The theorems on graphs at a small one.
use server_entry.Prelude.{arith, ◌==◌}
use server_entry.Prelude.{◌≡◌, ◌⊎◌, refl, true, false, List, [], ◌∷◌, ◌++◌}
use server_entry.Strings.{ok}
use server_entry.Types.{AbiConfiguration, posix_x64}
use server_entry.Graph.{
  Graph, aggregate_type, aggregate, no_enum, pointer, DerivedTypeRecord, derived_record,
  named_record,
}
use server_entry.Graph.Compiled.{
  CompiledGraphState, CompiledTypeSlot, CompiledCanonicalType, exported,
}
use server_entry.Graph.Compiled.Arrays.{convert_all, free_slots, check_identities, claim}
use server_entry.Graph.Compiled.Tables.{
  after_builtins, import_rest, import_named, import_derived, find_derived, mark, mark_all,
}
use server_entry.Graph.Compiled.Import.{import_compiled, import_parts}
use server_entry.Graph.Dependencies.{
  rebuild_dependency_index, index_types, index_type, enter, base_types, named_base,
}
use server_entry.Graph.Lookup.{span}
use server_entry.Graph.Compiled.Exported.{exported-import_compiled, normalized}
use server_entry.Graph.Compiled.Atomic.{import_compiled-atomic}
use server_entry.Graph.Compiled.Canonical.{import_compiled-IsCanonical}
use server_entry.Graph.Interning.{Memory}
use server_entry.Graph.Interning.{
  no_types_added, get_or_create_derived, get_or_create_named_type_ref, known_derived,
}
use server_entry.Graph.Interning.Table.{IsCanonical}
use server_entry.Graph.Interning.Canonical.{
  Interned, Refused, Unindexed, Unreferenced, is_invalid, get_or_create_derived-Interned,
  get_or_create_named_type_ref-Interned, get_or_create_derived_again,
}

abbrev abi : AbiConfiguration
abi = record { target = posix_x64; pack = 8 }

abbrev empty : Graph
empty = record {
  types = [];
  free_type_slots = [];
  entities = [];
  identity = [];
  member_records = [];
  enum_value_records = [];
  canonical_types = [];
  named_type_refs = [];
  derived_type_index = [];
  type_dependencies = [];
  reverse_type_dependents = [];
  entity_count = 0;
  user_type_count = 0;
  next_stable_id = 1;
  generation = 4;
  abi = abi;
}

abbrev aggregate_slot : CompiledTypeSlot
aggregate_slot = record {
  live = true;
  entry = record {
    kind = aggregate;
    enumeration_part = no_enum;
    definition = record { begin = 1; count = 1 };
  };
}

-- The type at slot 1, and an array of five of it.
abbrev added : List CompiledCanonicalType
added =
    record { kind = 1; subtype = 0; argument = 1; payload = 0 }
    ∷ record { kind = 2; subtype = 1; argument = 21; payload = 5 }
    ∷ []

abbrev builtins : List CompiledCanonicalType
builtins =
    record { kind = 0; subtype = 19; argument = 0; payload = 0 }
    ∷ record { kind = 0; subtype = 0; argument = 0; payload = 0 }
    ∷ record { kind = 0; subtype = 1; argument = 0; payload = 0 }
    ∷ record { kind = 0; subtype = 2; argument = 0; payload = 0 }
    ∷ record { kind = 0; subtype = 3; argument = 0; payload = 0 }
    ∷ record { kind = 0; subtype = 4; argument = 0; payload = 0 }
    ∷ record { kind = 0; subtype = 5; argument = 0; payload = 0 }
    ∷ record { kind = 0; subtype = 6; argument = 0; payload = 0 }
    ∷ record { kind = 0; subtype = 7; argument = 0; payload = 0 }
    ∷ record { kind = 0; subtype = 8; argument = 0; payload = 0 }
    ∷ record { kind = 0; subtype = 9; argument = 0; payload = 0 }
    ∷ record { kind = 0; subtype = 10; argument = 0; payload = 0 }
    ∷ record { kind = 0; subtype = 11; argument = 0; payload = 0 }
    ∷ record { kind = 0; subtype = 12; argument = 0; payload = 0 }
    ∷ record { kind = 0; subtype = 13; argument = 0; payload = 0 }
    ∷ record { kind = 0; subtype = 14; argument = 0; payload = 0 }
    ∷ record { kind = 0; subtype = 15; argument = 0; payload = 0 }
    ∷ record { kind = 0; subtype = 16; argument = 0; payload = 0 }
    ∷ record { kind = 0; subtype = 17; argument = 0; payload = 0 }
    ∷ record { kind = 0; subtype = 18; argument = 0; payload = 0 }
    ∷ record { kind = 0; subtype = 19; argument = 0; payload = 0 }
    ∷ []

abbrev state : CompiledGraphState
state = record {
  abi = abi;
  identities = 0 ∷ 1 ∷ [];
  entities =
      record { kind = aggregate_type; name = 0; handle = 0 }
      ∷ record { kind = aggregate_type; name = 1; handle = 1 }
      ∷ [];
  types = aggregate_slot ∷ [];
  enum_values = [];
  members = record { name = 2; type_ref = 22 } ∷ [];
  canonical_types = builtins ++ added;
}

state_import : (import_compiled true true state empty).1 ≡ ok
unfolding import_compiled import_parts convert_all free_slots check_identities claim after_builtins
    import_rest import_named import_derived find_derived mark mark_all rebuild_dependency_index
    index_types index_type enter base_types named_base span
state_import = refl

exported-import_compiled_example :
    exported (import_compiled true true state empty).0 ≡ normalized state
exported-import_compiled_example = exported-import_compiled true true state empty state_import

import_compiled-atomic_example :
    ((import_compiled true true state empty).1 ≡ ok)
    ⊎ ((import_compiled true true state empty).0 ≡ empty)
import_compiled-atomic_example = import_compiled-atomic true state empty

import_compiled-IsCanonical_example :
    IsCanonical (import_compiled true true state empty).0 (no_types_added false)
import_compiled-IsCanonical_example =
    import_compiled-IsCanonical true true state empty (omega arith) state_import

abbrev graph : Graph
graph = (import_compiled true true state empty).0

abbrev pointer_to_array : DerivedTypeRecord
pointer_to_array = record { shape = pointer; child = 22; payload = 0 }

abbrev enough : Memory
enough = record { record_pushed = true; reference_pushed = true; index_entered = true }

abbrev nothing : Memory
nothing = record { record_pushed = false; reference_pushed = false; index_entered = false }

get_or_create_derived-Interned_example :
    Interned graph
      (no_types_added false)
      (derived_record pointer_to_array)
      (Refused (is_invalid pointer_to_array) enough graph (no_types_added false))
      (Unindexed enough)
      (get_or_create_derived enough graph (no_types_added false) pointer_to_array)
get_or_create_derived-Interned_example =
    get_or_create_derived-Interned enough graph (no_types_added false) pointer_to_array
      (import_compiled-IsCanonical true true state empty (omega arith) state_import)

get_or_create_named_type_ref-Interned_example :
    Interned graph
      (no_types_added false)
      (named_record 1)
      (Refused (1 == 0) enough graph (no_types_added false))
      (Unreferenced enough)
      (get_or_create_named_type_ref enough graph (no_types_added false) 1)
get_or_create_named_type_ref-Interned_example =
    get_or_create_named_type_ref-Interned enough graph (no_types_added false) 1
      (import_compiled-IsCanonical true true state empty (omega arith) state_import)

pointer_created :
    (get_or_create_derived enough graph (no_types_added false) pointer_to_array).status ≡ ok
unfolding import_compiled import_parts convert_all free_slots check_identities claim after_builtins
    import_rest import_named import_derived find_derived mark mark_all rebuild_dependency_index
    index_types index_type enter base_types named_base span get_or_create_derived known_derived
pointer_created = refl

get_or_create_derived_again_example :
    get_or_create_derived nothing graph
      (get_or_create_derived enough graph (no_types_added false) pointer_to_array).update
      pointer_to_array
    ≡ record (get_or_create_derived enough graph (no_types_added false) pointer_to_array) {
      status = ok;
    }
get_or_create_derived_again_example =
    get_or_create_derived_again enough nothing graph (no_types_added false) pointer_to_array
      (import_compiled-IsCanonical true true state empty (omega arith) state_import) pointer_created
