-- ===== src/Manager/Checkpoint.antt =====
-- project/graph/compiled_persistence.cpp: write_compiled_checkpoint and read_compiled_checkpoint, the
-- steps between the registry, the graph and a file. What the file functions answer is given.
use server_entry.Prelude.{Bool, not, [], Option, none, some, if◌then◌else◌}
use server_entry.Strings.{
  Status, ok, initialization_failed, Bytes, Registry, export_slots, import_slots,
}
use server_entry.Strings.Update.{is_ok}
use server_entry.Types.{AbiConfiguration, windows_x64}
use server_entry.Graph.{Graph}
use server_entry.Graph.Compiled.{export_compiled}
use server_entry.Graph.Compiled.Import.{import_compiled}
use server_entry.Artifact.{CompiledProject, build_sections}
use server_entry.Artifact.Encode.{sealed}
use server_entry.Artifact.Decode.{decode_artifact}

-- What read_all answers.
pub data Reading : Type 0 where
  read_bytes : Bytes → Reading
  read_failed : Status → Reading

-- Whether the allocations of each phase succeed.
pub record Memory : Type 0 where
  pub initial : Bool
  pub strings : Bool
  pub graph : Bool
  pub index : Bool
  pub layout : Bool

-- `abi_configuration{}`, and a project that nothing was decoded to.
abbrev pub default_abi : AbiConfiguration
default_abi = record { target = windows_x64; pack = 8 }

abbrev pub no_project : CompiledProject
no_project = record {
  strings = [];
  graph = record {
    abi = default_abi;
    identities = [];
    entities = [];
    types = [];
    enum_values = [];
    members = [];
    canonical_types = [];
  };
}

-- The two imports; the registry may have the strings already where the graph is refused.
abbrev pub import_project : Memory → CompiledProject → Registry → Graph → Registry × Graph × Status
import_project a p r g =
    let s = import_slots a.strings p.strings r in
    let k = import_compiled a.graph a.index p.graph g in
    if not (is_ok s.1) then (s.0, g, s.1) else (s.0, k.0, k.1)

-- What the functions on files answer: those up to the flush of the temporary file, read_all of what
-- was written to it, and publish_checkpoint.
pub record Files : Type 0 where
  pub stored : Status
  pub read_back : Bytes → Reading
  pub published : Status

module _ (sha256 : Bytes → Bytes) where
  abbrev pub read_decoded :
      Memory → CompiledProject × Status → Registry → Graph → Registry × Graph × Status
  read_decoded a d r g = if not (is_ok d.1) then (r, g, d.1) else import_project a d.0 r g

  unfoldable pub read_compiled_checkpoint :
      Memory → Reading → Registry → Graph → Registry × Graph × Status
  read_compiled_checkpoint a (read_failed s) r g = (r, g, s)
  read_compiled_checkpoint a (read_bytes bytes) r g =
      read_decoded a (decode_artifact sha256 a.layout bytes no_project) r g

  -- The status of reading back what was written.
  abbrev pub verified : Bool → Reading → Status
  verified allocated (read_failed s) = s
  verified allocated (read_bytes bytes) =
      let d = decode_artifact sha256 allocated bytes no_project in d.1

  -- The file at the path behind the call: the new bytes, or `none` where it is left as it was.
  abbrev pub store : Bool → Files → Bytes → Option Bytes × Status
  store allocated files bytes =
      let v = verified allocated (files.read_back bytes) in
      if not (is_ok files.stored)
      then (none, files.stored)
      else if not (is_ok v)
      then (none, v)
      else if not (is_ok files.published)
      then (none, files.published)
      else (some bytes, ok)

  unfoldable pub write_compiled_checkpoint :
      Memory → Files → Registry → Graph → Option Bytes × Status
  write_compiled_checkpoint a files r g =
      let s = export_slots a.strings r in
      let k = export_compiled a.graph g no_project.graph in
      let p : CompiledProject = record { strings = s.0; graph = k.0 } in
      if not (is_ok s.1)
      then (none, s.1)
      else if not (is_ok k.1)
      then (none, k.1)
      else if not a.layout
      then (none, initialization_failed)
      else elim (build_sections p) [
        | none ↦ (none, initialization_failed)
        | some layout ↦ store a.layout files (sealed sha256 p layout)
      ]
