-- ===== src/Artifact/Encode.antt =====
-- project/graph/compiled_persistence.cpp: the artifact as write_compiled_checkpoint builds it. The
-- vector is zero where nothing is written, and each write is at the end of the bytes before it.
use server_entry.Prelude.{ℕ, zero, suc, ◌+◌, ◌-◌, List, [], ◌∷◌, ◌++◌, Option, none, some, length}
use server_entry.Types.{AbiTarget, windows_x64, posix_x64, unknown_target, AbiConfiguration}
use server_entry.Strings.{Bytes}
use server_entry.Artifact.{
  CompiledProject, SectionDescriptor, Layout, magic, data_offset, write16, write32, write64, crc32c,
  build_sections,
}
use server_entry.Artifact.Records.{
  write_entity, write_enum_value, write_member, write_type, write_canonical, write_string,
}
use server_entry.Graph.Lookup.{and_then}

abbrev pub zero_bytes : ℕ → Bytes
zero_bytes zero = []
zero_bytes (suc n) = 0 ∷ zero_bytes n

-- The records of an array, one behind the other.
abbrev pub write_all {ℓ} : {A : Type ℓ} → (A → Bytes) → List A → Bytes
write_all write [] = []
write_all write (x ∷ xs) = write x ++ write_all write xs

abbrev pub size_of : Option Bytes → ℕ
size_of none = 0
size_of (some value) = length value

abbrev pub contents : Option Bytes → Bytes
contents none = []
contents (some value) = value

-- write_strings: the records, `start` bytes being stored, and the bytes.
abbrev pub write_strings : ℕ → List (Option Bytes) → Bytes
write_strings start [] = []
write_strings start (s ∷ strings) =
    write_string start s ++ write_strings (start + size_of s) strings

abbrev pub stored_bytes : List (Option Bytes) → Bytes
stored_bytes [] = []
stored_bytes (s ∷ strings) = contents s ++ stored_bytes strings

-- The contents of the eight sections.
abbrev pub section_contents : CompiledProject → List Bytes
section_contents p =
    write_strings 0 p.strings
    ∷ stored_bytes p.strings
    ∷ write_all write32 p.graph.identities
    ∷ write_all write_entity p.graph.entities
    ∷ write_all write_type p.graph.types
    ∷ write_all write_enum_value p.graph.enum_values
    ∷ write_all write_member p.graph.members
    ∷ write_all write_canonical p.graph.canonical_types
    ∷ []

-- Each section at its offset, `next` bytes lying before them.
abbrev pub place_sections : ℕ → List SectionDescriptor → List Bytes → Bytes
place_sections next [] contents = []
place_sections next (s ∷ sections) [] = []
place_sections next (s ∷ sections) (c ∷ contents) =
    zero_bytes (s.offset - next) ++ (c ++ place_sections (s.offset + s.bytes) sections contents)

abbrev pub write_entry : SectionDescriptor → Bytes
write_entry s =
    write32 s.kind
    ++ (write32 0
        ++ (write64 s.offset ++ (write64 s.bytes ++ (write32 s.count ++ write32 s.record_size))))

abbrev pub target_code : AbiTarget → ℕ
target_code windows_x64 = 0
target_code posix_x64 = 1
target_code (unknown_target n) = n

-- The header up to the hash.
abbrev pub header_front : ℕ → AbiConfiguration → Bytes
header_front size abi =
    magic
    ++ (write16 1
        ++ (write16 6
            ++ (write32 128
                ++ (write32 0x01020304
                    ++ (zero_bytes 4
                        ++ (write64 size
                            ++ (write32 128
                                ++ (write32 8
                                    ++ (write32 (target_code abi.target)
                                        ++ (write32 abi.pack ++ zero_bytes 24))))))))))

abbrev pub header_with : ℕ → AbiConfiguration → Bytes → ℕ → Bytes
header_with size abi hash crc = header_front size abi ++ (hash ++ (write32 crc ++ zero_bytes 20))

-- What lies behind the header.
abbrev pub payload : CompiledProject → Layout → Bytes
payload p layout =
    write_all write_entry layout.sections
    ++ place_sections data_offset layout.sections (section_contents p)

module _ (sha256 : Bytes → Bytes) where
  -- seal_artifact: the checksum is of the header with a checksum of zero.
  unfoldable pub sealed : CompiledProject → Layout → Bytes
  sealed p layout =
      let hash = sha256 (payload p layout) in
      let crc = crc32c (header_with layout.total p.graph.abi hash 0) in
      header_with layout.total p.graph.abi hash crc ++ payload p layout

  -- The bytes that write_compiled_checkpoint writes, `none` where it returns initialization_failed.
  abbrev pub artifact : CompiledProject → Option Bytes
  artifact p = and_then (build_sections p) (λ layout. some (sealed p layout))
