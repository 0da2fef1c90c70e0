-- ===== src/Manager.antt =====
-- project/graph/graph_manager.hpp and .cpp: the state that the runtime sees, the build mode, and the
-- loading of a compiled checkpoint. The source manager is left out: what its calls answer is given.
pub mod Checkpoint
pub mod Loading
pub mod Traces
mod Examples
use server_entry.Prelude.{
  ℕ, Bool, true, false, not, ◌||◌, List, [], Option, none, some, if◌then◌else◌,
}
use server_entry.Strings.{Status, ok, invalid_state, Bytes, Registry}
use server_entry.Strings
use server_entry.Strings.Update.{is_ok}
use server_entry.Types.{AbiConfiguration}
use server_entry.Graph.{Graph}
use server_entry.Graph
use server_entry.Contributions.{Cache, invalidate}
use server_entry.Contributions
use server_entry.Manager.Checkpoint.{
  Memory, Reading, Files, default_abi, read_compiled_checkpoint, write_compiled_checkpoint,
}

pub data ProjectState : Type 0 where
  valid building error : ProjectState

-- graph_build_mode.
pub data BuildMode : Type 0 where
  rebuild incremental : BuildMode

pub record Manager : Type 0 where
  pub strings : Registry
  pub contributions : Cache
  pub graph : Graph
  pub current_state : ProjectState

-- The members that a default constructor makes.
abbrev pub new_registry : Registry
new_registry = record { records = []; lookup_index = []; generation = 0 }

abbrev pub new_graph : Graph
new_graph = record {
  types = [];
  free_type_slots = [];
  entities = [];
  identity = [];
  member_records = [];
  enum_value_records = [];
  canonical_types = [];
  named_type_refs = [];
  derived_type_index = [];
  type_dependencies = [];
  reverse_type_dependents = [];
  entity_count = 0;
  user_type_count = 0;
  next_stable_id = 1;
  generation = 0;
  abi = default_abi;
}

-- `sources` is what source_manager::initialize answers.
unfoldable pub initialize : Status → Bool → AbiConfiguration → Manager → Manager × Status
initialize sources allocated abi m =
    let g = Graph.initialize allocated abi m.graph in
    if not (is_ok sources) then (m, sources) else (
      record {
        strings = (Strings.initialize m.strings).0;
        contributions = (Contributions.initialize m.contributions).0;
        graph = g.0;
        current_state = error;
      },
      g.1,
    )

-- begin_build: the manager, and the mode that the transaction has.
abbrev pub is_rebuild : BuildMode → Bool
is_rebuild rebuild = true
is_rebuild incremental = false

unfoldable pub begin_build : BuildMode → Manager → Manager × BuildMode
begin_build mode m = (
  record m { current_state = building },
  if is_rebuild mode || not m.contributions.provenance_complete then rebuild else incremental,
)

unfoldable pub complete_build : Bool → Manager → Manager
complete_build success m = record m { current_state = if success then valid else error }

abbrev pub is_valid : ProjectState → Bool
is_valid valid = true
is_valid building = false
is_valid error = false

unfoldable pub runnable_graph : Manager → Option Graph × Status
runnable_graph m =
    if not (is_valid m.current_state) then (none, invalid_state) else (some m.graph, ok)

-- load_source_checkpoint but for the load of the source manager, which answers `sources`.
unfoldable pub load_source_checkpoint : Status → Manager → Manager × Status
load_source_checkpoint sources m =
    (record m { current_state = error; contributions = invalidate m.contributions }, sources)

module _ (sha256 : Bytes → Bytes) where
  unfoldable pub save_compiled_checkpoint : Memory → Files → Manager → Option Bytes × Status
  save_compiled_checkpoint a files m = write_compiled_checkpoint sha256 a files m.strings m.graph

  -- The detached candidates, or the status that refused them.
  abbrev pub swap_in_candidates : Registry × Graph × Status → Manager → Manager × Status
  swap_in_candidates r m = if not (is_ok r.2) then (record m { current_state = error }, r.2) else (
    record {
      strings = r.0;
      contributions = invalidate m.contributions;
      graph = r.1;
      current_state = valid;
    },
    ok,
  )

  unfoldable pub load_compiled_checkpoint : Memory → Reading → Manager → Manager × Status
  load_compiled_checkpoint a file m =
      let r = (Strings.initialize new_registry).0 in
      let g = Graph.initialize a.initial default_abi new_graph in
      if not (is_ok g.1)
      then (record m { current_state = error }, g.1)
      else swap_in_candidates (read_compiled_checkpoint sha256 a file r g.0) m
