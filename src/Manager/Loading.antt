-- ===== src/Manager/Loading.antt =====
-- project/graph/graph_manager.cpp: what a load of a compiled checkpoint leaves behind, and that it
-- restores what was saved.
use server_entry.Prelude.{
  true, [], none, some, ◌≡◌, ◌≢◌, ◌⊎◌, refl, sym, ◌∙◌, ap, arith, Bool-cases, inl, inr, length,
  subst, Option-cases,
}
use server_entry.Strings.{
  Status, ok, invalid_state, initialization_failed, artifact_corrupt, configuration_failed,
  duplicate_source_replacement, persistence_failed, not_available, Bytes, Registry, import_slots,
  export_slots,
}
use server_entry.Strings
use server_entry.Strings.{Slots, index_slots}
use server_entry.Strings.Update.{is_ok}
use server_entry.Strings.Intern.{ok_by, not_ok}
use server_entry.Graph.{Graph}
use server_entry.Graph
use server_entry.Graph.Compiled.{exported}
use server_entry.Graph.Compiled.Import.{import_compiled}
use server_entry.Graph.Compiled.Exported.{normalized, exported-import_compiled}
use server_entry.Artifact.{CompiledProject, Layout, build_sections}
use server_entry.Artifact.Encode.{sealed}
use server_entry.Artifact.Decode.{decode_artifact}
use server_entry.Artifact.RoundTrip.Graphs.{Encodable}
use server_entry.Artifact.RoundTrip.Project.{decoded-sealed}
use server_entry.Manager.Checkpoint.{
  Memory, Reading, read_bytes, Files, default_abi, no_project, read_compiled_checkpoint,
  write_compiled_checkpoint, import_project, store, verified,
}
use server_entry.Manager.{
  Manager, error, BuildMode, rebuild, runnable_graph, begin_build, load_compiled_checkpoint,
  save_compiled_checkpoint, swap_in_candidates, new_registry, new_graph,
}

-- A manager that a load has made runnable: its graph is handed out, and the next build is a rebuild.
abbrev pub IsLoaded : Manager × Status → Type 0
IsLoaded r =
    (r.1 ≡ ok)
    × (runnable_graph r.0 ≡ (some r.0.graph, ok))
    × ((mode : BuildMode) → (begin_build mode r.0).1 ≡ rebuild)

-- A manager that a load has left with what it had, but for its state.
abbrev pub IsUnchanged : Manager → Manager × Status → Type 0
IsUnchanged m r =
    (r.1 ≢ ok)
    × (r.0 ≡ record m { current_state = error })
    × (runnable_graph r.0 ≡ (none, invalid_state))

swapped_in :
    (sha256 : Bytes → Bytes) (r : Registry × Graph × Status) (m : Manager)
    → IsLoaded (swap_in_candidates sha256 r m) ⊎ IsUnchanged m (swap_in_candidates sha256 r m)
unfolding runnable_graph begin_build
swapped_in sha256 r m = elim (Bool-cases (is_ok r.2)) [
  | inl h ↦ inl (rw h (refl, refl, λ mode. (ground arith)))
  | inr h ↦ inr (rw h (not_ok r.2 h, refl, refl))
]

pub load_compiled_checkpoint_lem :
    (sha256 : Bytes → Bytes) (a : Memory) (file : Reading) (m : Manager)
    → IsLoaded (load_compiled_checkpoint sha256 a file m)
      ⊎ IsUnchanged m (load_compiled_checkpoint sha256 a file m)
unfolding load_compiled_checkpoint runnable_graph
load_compiled_checkpoint_lem sha256 a file m =
    let g = Graph.initialize a.initial default_abi new_graph in
    elim (Bool-cases (is_ok g.1)) [
      | inl h ↦ rw h (
          swapped_in sha256
            (read_compiled_checkpoint sha256 a file (Strings.initialize new_registry).0 g.0) m)
      | inr h ↦ inr (rw h (not_ok g.1 h, refl, refl))
    ]

-- All allocations succeed.
abbrev pub enough : Memory
enough = record { initial = true; strings = true; graph = true; index = true; layout = true }

-- The project that a manager's checkpoint holds.
abbrev pub project_of : Manager → CompiledProject
project_of m = record { strings = m.strings.records; graph = exported m.graph }

abbrev first_registry : Registry
first_registry = (Strings.initialize new_registry).0

abbrev first_graph : Graph
first_graph = (Graph.initialize true default_abi new_graph).0

-- What a load of the artifact of `m` leaves: its strings and its graph, or what an import refuses.
abbrev pub IsRestored : Manager → Manager × Status → Type 0
IsRestored m r =
    ((r.1 ≡ ok)
      × (r.0.strings.records ≡ m.strings.records)
      × (exported r.0.graph ≡ normalized (exported m.graph)))
    ⊎ ((r.1 ≢ ok)
        × (((import_slots true m.strings.records first_registry).1 ≢ ok)
            ⊎ ((import_compiled true true (exported m.graph) first_graph).1 ≢ ok)))

stored_file :
    (sha256 : Bytes → Bytes) (files : Files) (bytes : Bytes) (p : CompiledProject)
    → decode_artifact sha256 true bytes no_project ≡ (p, ok)
    → files.stored ≡ ok
    → files.read_back bytes ≡ read_bytes bytes
    → files.published ≡ ok
    → store sha256 true files bytes ≡ (some bytes, ok)
stored_file sha256 files bytes p d stored back published =
    let v : verified sha256 true (files.read_back bytes) ≡ ok =
      ap (verified sha256 true) back ∙ ap (λ x. x.1) d in
    rw (stored, v, published) refl

import_slots_records :
    (values : Slots) (r : Registry)
    → (import_slots true values r).1 ≡ ok
    → (import_slots true values r).0.records ≡ values
unfolding import_slots
import_slots_records values r h = elim (Option-cases (index_slots 1 values [])) [
  | inl q ↦ absurd (ground (arith, q, h))
  | inr (index, q) ↦ rw (q, import_slots) refl
]

IsRestored-by :
    (sha256 : Bytes → Bytes) (m m' : Manager)
    → IsRestored m (
        swap_in_candidates sha256
          (import_project enough (project_of m) first_registry first_graph)
          m')
IsRestored-by sha256 m m' =
    let k = import_compiled true true (exported m.graph) first_graph in
    let s = import_slots true m.strings.records first_registry in
    elim (Bool-cases (is_ok s.1)) [
      | inr h ↦ inr (rw (h, h) (not_ok s.1 h, inl (not_ok s.1 h)))
      | inl h ↦ elim (Bool-cases (is_ok k.1)) [
        | inr i ↦ inr (rw (h, i) (not_ok k.1 i, inr (not_ok k.1 i)))
        | inl i ↦ inl (
            rw (h, i)
              (
                refl,
                import_slots_records m.strings.records first_registry (ok_by s.1 h),
                exported-import_compiled true true (exported m.graph) first_graph (ok_by k.1 i),
              ))
      ]
    ]

module _ (sha256 : Bytes → Bytes) (m : Manager) (layout : Layout)
    (digest : (xs : Bytes) → length (sha256 xs) ≡ 32) (e : Encodable (project_of m))
    (s : build_sections (project_of m) ≡ some layout) where
  decoded_back :
      decode_artifact sha256 true (sealed sha256 (project_of m) layout) no_project
      ≡ (project_of m, ok)
  decoded_back = rw (decoded-sealed sha256 (project_of m) layout digest e s) refl

  saved :
      (files : Files)
      → files.stored ≡ ok
      → files.read_back (sealed sha256 (project_of m) layout)
        ≡ read_bytes (sealed sha256 (project_of m) layout)
      → files.published ≡ ok
      → save_compiled_checkpoint sha256 enough files m
        ≡ (some (sealed sha256 (project_of m) layout), ok)
  unfolding save_compiled_checkpoint write_compiled_checkpoint export_slots
  saved files stored back published = rw s (
      stored_file sha256 files (sealed sha256 (project_of m) layout) (project_of m) decoded_back
        stored back published)

  read_back :
      (r : Registry) (g : Graph)
      → read_compiled_checkpoint sha256 enough
          (read_bytes (sealed sha256 (project_of m) layout))
          r
          g
        ≡ import_project enough (project_of m) r g
  unfolding read_compiled_checkpoint
  read_back r g = rw decoded_back refl

  loaded :
      (m' : Manager)
      → load_compiled_checkpoint sha256 enough (read_bytes (sealed sha256 (project_of m) layout)) m'
        ≡ swap_in_candidates sha256
            (read_compiled_checkpoint sha256 enough
              (read_bytes (sealed sha256 (project_of m) layout))
              first_registry
              first_graph)
            m'
  unfolding load_compiled_checkpoint Graph.initialize
  loaded m' = refl

-- Where the project of a manager fits an artifact, the memory is there and the file holds what is
-- written to it, save_compiled_checkpoint succeeds, and a load of the file by any manager restores
-- the strings and the graph, but for slots that are not live; or an import refuses what was saved,
-- and the load fails.
pub load-save :
    (sha256 : Bytes → Bytes) (m m' : Manager) (layout : Layout) (files : Files)
    → ((xs : Bytes) → length (sha256 xs) ≡ 32)
    → Encodable (project_of m)
    → build_sections (project_of m) ≡ some layout
    → files.stored ≡ ok
    → files.read_back (sealed sha256 (project_of m) layout)
      ≡ read_bytes (sealed sha256 (project_of m) layout)
    → files.published ≡ ok
    → (save_compiled_checkpoint sha256 enough files m
        ≡ (some (sealed sha256 (project_of m) layout), ok))
      × IsRestored m (
          load_compiled_checkpoint sha256 enough
            (read_bytes (sealed sha256 (project_of m) layout))
            m')
load-save sha256 m m' layout files digest e s stored back published = (
  saved sha256 m layout digest e s files stored back published,
  subst (IsRestored m)
      (sym (
        loaded sha256 m layout digest e s m'
        ∙ ap (λ r. swap_in_candidates sha256 r m')
            (read_back sha256 m layout digest e s first_registry first_graph)))
      (IsRestored-by sha256 m m'),
)
