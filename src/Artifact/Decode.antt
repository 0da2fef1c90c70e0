-- ===== src/Artifact/Decode.antt =====
-- project/graph/compiled_persistence.cpp: decode_artifact. `none` is a return of artifact_corrupt.
use server_entry.Prelude.{
  ℕ, zero, suc, ◌+◌, ◌-◌, ◌%◌, Bool, true, false, not, ◌&&◌, ◌||◌, List, [], ◌∷◌, ◌++◌, Option,
  none, some, ltb, leb, ◌==◌, if◌then◌else◌, length, get_or, bytes_eq,
}
use server_entry.Types.{
  AbiTarget, windows_x64, posix_x64, unknown_target, AbiConfiguration,
  is_supported_abi_configuration,
}
use server_entry.Strings.{Bytes, Status, ok, initialization_failed, artifact_corrupt}
use server_entry.Graph.Lookup.{and_then, when}
use server_entry.Graph.Compiled.{CompiledGraphState, entity_live}
use server_entry.Artifact.{
  CompiledProject, SectionDescriptor, magic, data_offset, section_record_sizes, read16, read32,
  read64, write32, crc32c, checked_multiply,
}
use server_entry.Artifact.Records.{
  skip, take, read_entity, read_enum_value, read_member, read_type, read_canonical, read_identity,
  read_string,
}

-- The positions from `from` to `to` hold zeros.
abbrev pub all_zero : Bytes → Bool
all_zero [] = true
all_zero (x ∷ xs) = x == 0 && all_zero xs

abbrev pub zeros_between : Bytes → ℕ → ℕ → Bool
zeros_between bytes from to = all_zero (take (to - from) (skip from bytes))

abbrev pub checked_size : Option ℕ → ℕ → Bool
checked_size none bytes = false
checked_size (some exact) bytes = bytes == exact

-- The entry of the directory at `entry`.
abbrev pub read_entry : Bytes → SectionDescriptor
read_entry entry = record {
  kind = read32 entry;
  record_size = read32 (skip 28 entry);
  offset = read64 (skip 8 entry);
  bytes = read64 (skip 16 entry);
  count = read32 (skip 24 entry);
}

abbrev pub good_entry : ℕ → ℕ → ℕ → ℕ → ℕ → SectionDescriptor → Bool
good_entry size index previous_end record_size flags s =
    s.kind == index + 1
    && (flags == 0)
    && (s.record_size == record_size)
    && checked_size (checked_multiply s.count s.record_size) s.bytes
    && (s.offset % 8 == 0)
    && not (ltb s.offset previous_end)
    && not (ltb size s.offset)
    && not (ltb (size - s.offset) s.bytes)

-- The loop of validate_directory from `index` on, over the record sizes.
unfoldable pub validate_entries : Bytes → ℕ → ℕ → ℕ → List ℕ → Option (List SectionDescriptor)
validate_entries bytes position index previous_end [] =
    when (previous_end == length bytes) (some [])
validate_entries bytes position index previous_end (record_size ∷ sizes) =
    let entry = skip position bytes in
    let s = read_entry entry in
    let rest = validate_entries bytes (position + 32) (index + 1) (s.offset + s.bytes) sizes in
    when
      (good_entry (length bytes) index previous_end record_size (read32 (skip 4 entry)) s
        && zeros_between bytes previous_end s.offset)
      (and_then rest (λ sections. some (s ∷ sections)))

abbrev pub validate_directory : Bytes → Option (List SectionDescriptor)
validate_directory bytes = validate_entries bytes 128 0 data_offset section_record_sizes

-- The header with a checksum of zero.
abbrev pub cleared_header : Bytes → Bytes
cleared_header bytes = take 104 bytes ++ (write32 0 ++ take 20 (skip 108 bytes))

module _ (sha256 : Bytes → Bytes) where
  unfoldable pub validate_header : Bytes → Bool
  validate_header bytes =
      not (ltb (length bytes) data_offset)
      && bytes_eq (take 8 bytes) magic
      && (read16 (skip 8 bytes) == 1)
      && (read16 (skip 10 bytes) == 6)
      && (read32 (skip 12 bytes) == 128)
      && (read32 (skip 16 bytes) == 0x01020304)
      && (read64 (skip 24 bytes) == length bytes)
      && (read32 (skip 32 bytes) == 128)
      && (read32 (skip 36 bytes) == 8)
      && (crc32c (cleared_header bytes) == read32 (skip 104 bytes))
      && bytes_eq (sha256 (skip 128 bytes)) (take 32 (skip 72 bytes))

-- static_cast<abi_target>: the enumeration is stored in eight bits.
abbrev pub to_target : ℕ → AbiTarget
to_target n =
    if n % 256 == 0
    then windows_x64
    else if n % 256 == 1
    then posix_x64
    else unknown_target (n % 256)

-- The records of a section, read one behind the other.
unfoldable pub read_all {ℓ} :
    {A : Type ℓ} → (Bytes → Option A) → ℕ → Bytes → ℕ → ℕ → Option (List A)
read_all read size bytes offset zero = some []
read_all read size bytes offset (suc count) =
    and_then (read (skip offset bytes))
      (λ x. and_then (read_all read size bytes (offset + size) count) (λ xs. some (x ∷ xs)))

abbrev pub no_section : SectionDescriptor
no_section = record { kind = 0; record_size = 0; offset = 0; bytes = 0; count = 0 }

abbrev pub section : List SectionDescriptor → ℕ → SectionDescriptor
section sections i = get_or sections i no_section

abbrev pub read_section {ℓ} :
    {A : Type ℓ} → (Bytes → Option A) → Bytes → SectionDescriptor → Option (List A)
read_section read bytes s = read_all read s.record_size bytes s.offset s.count

abbrev pub decode_strings : Bytes → List SectionDescriptor → Option (List (Option Bytes))
decode_strings bytes sections =
    let storage = section sections 1 in
    read_section (read_string (skip storage.offset bytes) storage.bytes) bytes (section sections 0)

abbrev pub decode_graph_sections :
    Bytes → List SectionDescriptor → AbiConfiguration → Option CompiledGraphState
decode_graph_sections bytes sections abi =
    and_then (read_section read_identity bytes (section sections 2)) (λ identities.
      and_then (read_section read_entity bytes (section sections 3)) (λ entities.
        and_then (read_section read_enum_value bytes (section sections 5)) (λ values.
          and_then (read_section read_member bytes (section sections 6)) (λ members.
            and_then
              (read_section (read_type (section sections 6).count (section sections 5).count) bytes
                (section sections 4))
              (λ types.
                and_then (read_section read_canonical bytes (section sections 7)) (λ canonical.
                  some (record {
                    abi = abi;
                    identities = identities;
                    entities = entities;
                    types = types;
                    enum_values = values;
                    members = members;
                    canonical_types = canonical;
                  })))))))

abbrev pub has_value : Option Bytes → Bool
has_value none = false
has_value (some value) = true

abbrev pub string_is_live : List (Option Bytes) → ℕ → Bool
string_is_live strings id =
    not (id == 0) && leb id (length strings) && has_value (get_or strings (id - 1) none)

-- The identities from `name` on.
abbrev pub good_identities : List (Option Bytes) → ℕ → List ℕ → Bool
good_identities strings name [] = true
good_identities strings name (raw ∷ rest) =
    (raw == 0 || string_is_live strings name) && good_identities strings (name + 1) rest

abbrev pub behind_first {ℓ} : {A : Type ℓ} → List A → List A
behind_first [] = []
behind_first (x ∷ xs) = xs

abbrev pub all {ℓ} : {A : Type ℓ} → (A → Bool) → List A → Bool
all test [] = true
all test (x ∷ xs) = test x && all test xs

unfoldable pub validate_cross_references : CompiledProject → Bool
validate_cross_references p =
    let strings = p.strings in
    let g = p.graph in
    not (ltb (length strings + 1) (length g.identities))
    && good_identities strings 1 (behind_first g.identities)
    && all (λ e. not (entity_live e) || string_is_live strings e.name) g.entities
    && all (λ v. string_is_live strings v.name) g.enum_values
    && all
        (λ m.
          string_is_live strings m.name
          && not (m.type_ref == 0)
          && ltb m.type_ref (length g.canonical_types))
        g.members

abbrev pub stored_abi : Bytes → AbiConfiguration
stored_abi bytes = record {
  target = to_target (read32 (skip 40 bytes));
  pack = read32 (skip 44 bytes);
}

module _ (sha256 : Bytes → Bytes) where
  unfoldable pub decoded : Bytes → Option CompiledProject
  decoded bytes =
      if not (validate_header sha256 bytes)
      then none
      else and_then (validate_directory bytes) (λ sections.
        if not (is_supported_abi_configuration (stored_abi bytes))
        then none
        else and_then (decode_strings bytes sections) (λ strings.
          and_then (decode_graph_sections bytes sections (stored_abi bytes)) (λ graph.
            let p : CompiledProject = record { strings = strings; graph = graph } in
            when (validate_cross_references p) (some p))))

  -- `output` is what the caller's project is before the call.
  abbrev pub decode_artifact : Bool → Bytes → CompiledProject → CompiledProject × Status
  decode_artifact allocated bytes output =
      if not allocated
      then (output, initialization_failed)
      else elim (decoded bytes) [ none ↦ (output, artifact_corrupt) | some p ↦ (p, ok) ]
