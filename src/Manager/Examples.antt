-- ===== src/Manager/Examples.antt =====
-- The theorems on the graph manager at a small project.
use server_entry.Prelude.{◌≡◌, refl, [], ◌∷◌, none, some, true}
use server_entry.Strings.{ok}
use server_entry.Types.{posix_x64, boolean}
use server_entry.Graph.{
  Graph, aggregate_type, aggregate, array, entity_default, no_enum, canonical_default,
  builtin_record, named_record, derived_record,
}
use server_entry.Graph.Compiled.{exported, export_canonical}
use server_entry.Contributions.{empty_cache}
use server_entry.Artifact.{build_sections}
use server_entry.Artifact.Encode.{sealed}
use server_entry.Artifact.RoundTrip.Graphs.{Encodable}
use server_entry.Artifact.Examples.{hash, project, project-Encodable, layout, project-layout}
use server_entry.Manager.Checkpoint.{Files, read_bytes}
use server_entry.Manager.{
  Manager, valid, error, incremental, runnable_graph, new_graph, new_registry,
  save_compiled_checkpoint, load_compiled_checkpoint,
}
use server_entry.Manager.Traces.{begun, completed, loaded, run, seen, publishes, runnable_graph-run}
use server_entry.Manager.Loading.{IsRestored, enough, project_of, load-save}

abbrev graph : Graph
graph = record new_graph {
  abi = record { target = posix_x64; pack = 8 };
  identity = 0 ∷ 1 ∷ [];
  entities = entity_default ∷ record { kind = aggregate_type; name = 1; handle = 1 } ∷ [];
  types =
      some (record {
        kind = aggregate;
        enumeration_part = no_enum;
        definition = record { begin = 1; count = 1 };
      })
      ∷ none
      ∷ [];
  enum_value_records = record { name = 3; bits = 7 } ∷ [];
  member_records = record { name = 3; type_ref = 3 } ∷ [];
  canonical_types =
      canonical_default
      ∷ builtin_record boolean
      ∷ named_record 1
      ∷ derived_record (record { shape = array; child = 1; payload = 5000000000 })
      ∷ [];
}

abbrev manager : Manager
manager = record {
  strings = record new_registry { records = project.strings };
  contributions = empty_cache true;
  graph = graph;
  current_state = valid;
}

abbrev other_manager : Manager
other_manager = record {
  strings = new_registry;
  contributions = empty_cache true;
  graph = new_graph;
  current_state = error;
}

abbrev files : Files
files = record { stored = ok; read_back = read_bytes; published = ok }

manager-Encodable : Encodable (project_of manager)
unfolding exported export_canonical
manager-Encodable = project-Encodable

manager-layout : build_sections (project_of manager) ≡ some layout
unfolding exported export_canonical
manager-layout = project-layout

load-save_example :
    (save_compiled_checkpoint hash enough files manager
      ≡ (some (sealed hash (project_of manager) layout), ok))
    × IsRestored manager (
        load_compiled_checkpoint hash enough
          (read_bytes (sealed hash (project_of manager) layout))
          other_manager)
load-save_example =
    load-save hash manager other_manager layout files (λ xs. refl) manager-Encodable manager-layout
      refl refl refl

runnable_graph-run_example :
    runnable_graph (
      run hash
        (begun incremental ∷ completed true ∷ (loaded enough (read_bytes (7 ∷ [])) ∷ []))
        manager)
    ≡ seen hash
        (publishes hash
          (loaded enough (read_bytes (7 ∷ [])))
          (run hash (begun incremental ∷ completed true ∷ []) manager))
        (run hash
          (begun incremental ∷ completed true ∷ (loaded enough (read_bytes (7 ∷ [])) ∷ []))
          manager)
runnable_graph-run_example =
    runnable_graph-run hash (begun incremental ∷ completed true ∷ [])
      (loaded enough (read_bytes (7 ∷ []))) manager
