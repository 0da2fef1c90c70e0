-- ===== src/Artifact/Examples.antt =====
-- The theorem on artifacts at a small project.
use server_entry.Prelude.{◌≡◌, refl, true, List, [], ◌∷◌, none, some, length, arith, inl, inr}
use server_entry.Types.{posix_x64}
use server_entry.Graph.{aggregate_type, aggregate, no_enum}
use server_entry.Strings.{Bytes}
use server_entry.Graph.Compiled.{CompiledTypeSlot, CompiledCanonicalType}
use server_entry.Artifact.{CompiledProject, Layout, build_sections, build_from}
use server_entry.Artifact.Encode.{sealed}
use server_entry.Artifact.Decode.{decoded, validate_cross_references}
use server_entry.Artifact.Records.{dead_type}
use server_entry.Artifact.RoundTrip.Graphs.{Encodable}
use server_entry.Artifact.RoundTrip.Project.{decoded-sealed}

-- A hash of 32 bytes.
abbrev pub hash : Bytes → Bytes
hash xs =
    length xs
    ∷ 0
    ∷ 0
    ∷ 0
    ∷ 0
    ∷ 0
    ∷ 0
    ∷ 0
    ∷ 0
    ∷ 0
    ∷ 0
    ∷ 0
    ∷ 0
    ∷ 0
    ∷ 0
    ∷ 0
    ∷ 0
    ∷ 0
    ∷ 0
    ∷ 0
    ∷ 0
    ∷ 0
    ∷ 0
    ∷ 0
    ∷ 0
    ∷ 0
    ∷ 0
    ∷ 0
    ∷ 0
    ∷ 0
    ∷ 0
    ∷ 0
    ∷ []

-- struct S { int x; } in the strings "S", a tombstone and "x".
abbrev aggregate_slot : CompiledTypeSlot
aggregate_slot = record {
  live = true;
  entry = record {
    kind = aggregate;
    enumeration_part = no_enum;
    definition = record { begin = 1; count = 1 };
  };
}

abbrev canonical_types : List CompiledCanonicalType
canonical_types =
    record { kind = 0; subtype = 19; argument = 0; payload = 0 }
    ∷ record { kind = 0; subtype = 0; argument = 0; payload = 0 }
    ∷ record { kind = 1; subtype = 0; argument = 1; payload = 0 }
    ∷ record { kind = 2; subtype = 1; argument = 1; payload = 5000000000 }
    ∷ []

abbrev pub project : CompiledProject
project = record {
  strings = some (b'S' ∷ []) ∷ none ∷ some (b'x' ∷ []) ∷ [];
  graph = record {
    abi = record { target = posix_x64; pack = 8 };
    identities = 0 ∷ 1 ∷ [];
    entities =
        record { kind = aggregate_type; name = 0; handle = 0 }
        ∷ record { kind = aggregate_type; name = 1; handle = 1 }
        ∷ [];
    types = aggregate_slot ∷ dead_type ∷ [];
    enum_values = record { name = 3; bits = 7 } ∷ [];
    members = record { name = 3; type_ref = 3 } ∷ [];
    canonical_types = canonical_types;
  };
}

pub project-Encodable : Encodable project
unfolding validate_cross_references
project-Encodable = (
  (omega arith, (omega arith, tt)),
  ((omega arith, omega arith, refl), ((omega arith, omega arith, refl), tt)),
  (inl (refl, (omega arith, omega arith, refl, refl, refl)), (inr refl, tt)),
  ((omega arith, omega arith, refl), tt),
  ((omega arith, omega arith, refl), tt),
  (
    (omega arith, omega arith),
    ((omega arith, omega arith), ((omega arith, omega arith), ((omega arith, omega arith), tt))),
  ),
  omega arith,
  refl,
  refl,
)

abbrev pub layout : Layout
layout = record {
  sections =
      record { kind = 1; record_size = 8; offset = 384; bytes = 24; count = 3 }
      ∷ record { kind = 2; record_size = 1; offset = 408; bytes = 2; count = 2 }
      ∷ record { kind = 3; record_size = 4; offset = 416; bytes = 8; count = 2 }
      ∷ record { kind = 4; record_size = 16; offset = 424; bytes = 32; count = 2 }
      ∷ record { kind = 5; record_size = 16; offset = 456; bytes = 32; count = 2 }
      ∷ record { kind = 6; record_size = 16; offset = 488; bytes = 16; count = 1 }
      ∷ record { kind = 7; record_size = 8; offset = 504; bytes = 8; count = 1 }
      ∷ record { kind = 8; record_size = 16; offset = 512; bytes = 64; count = 4 }
      ∷ [];
  total = 576;
}

pub project-layout : build_sections project ≡ some layout
unfolding build_sections build_from
project-layout = refl

decoded-sealed_example : decoded hash (sealed hash project layout) ≡ some project
decoded-sealed_example =
    decoded-sealed hash project layout (λ xs. refl) project-Encodable project-layout
