-- ===== src/Artifact/Records.antt =====
-- project/graph/compiled_persistence.cpp: the records of each section, written and read. A record is
-- written in the order of its bytes, and `none` is a return of artifact_corrupt.
use server_entry.Prelude.{
  ℕ, zero, suc, ◌-◌, Bool, true, false, not, ◌&&◌, ◌||◌, List, [], ◌∷◌, ◌++◌, Option, none, some,
  ltb, ◌==◌, if◌then◌else◌, get_or, length,
}
use server_entry.Types.{BuiltinType, code, void_type}
use server_entry.Graph.{
  EntityKind, aggregate_type, enum_type, UserTypeKind, aggregate, enumeration, EnumEntry, TypeEntry,
  no_enum, type_default, builtin_types,
}
use server_entry.Graph.Lookup.{is_aggregate}
use server_entry.Graph.Compiled.{
  CompiledEntitySlot, CompiledEnumValue, CompiledTypeSlot, CompiledMember, CompiledCanonicalType,
}
use server_entry.Graph.Compiled.Arrays.{good_definition}
use server_entry.Strings.{Bytes}
use server_entry.Artifact.{read16, read32, read64, write16, write32, write64}

-- A pointer `n` bytes further on.
abbrev pub skip {ℓ} : {A : Type ℓ} → ℕ → List A → List A
skip zero xs = xs
skip (suc n) [] = []
skip (suc n) (x ∷ xs) = skip n xs

abbrev pub byte_at : Bytes → ℕ → ℕ
byte_at record' i = get_or record' i 0

abbrev pub flag : Bool → ℕ
flag b = if b then 1 else 0

abbrev pub entity_code : EntityKind → ℕ
entity_code aggregate_type = 0
entity_code enum_type = 1

abbrev pub user_code : UserTypeKind → ℕ
user_code aggregate = 0
user_code enumeration = 1

-- static_cast of a code that has been checked.
abbrev pub to_entity_kind : ℕ → EntityKind
to_entity_kind n = if n == 0 then aggregate_type else enum_type

abbrev pub to_user_kind : ℕ → UserTypeKind
to_user_kind n = if n == 0 then aggregate else enumeration

abbrev pub to_builtin : ℕ → BuiltinType
to_builtin n = get_or builtin_types n void_type

abbrev pub write_entity : CompiledEntitySlot → Bytes
write_entity e =
    entity_code e.kind ∷ 0 ∷ write16 0 ++ (write32 e.name ++ (write32 e.handle ++ write32 0))

unfoldable pub read_entity : Bytes → Option CompiledEntitySlot
read_entity source =
    let name = read32 (skip 4 source) in
    let handle = read32 (skip 8 source) in
    if ltb 1 (byte_at source 0)
      || not (byte_at source 1 == 0)
      || not (read16 (skip 2 source) == 0)
      || not (read32 (skip 12 source) == 0)
    then none
    else if (name == 0) && not (handle == 0)
    then none
    else some (record { kind = to_entity_kind (byte_at source 0); name = name; handle = handle })

abbrev pub write_enum_value : CompiledEnumValue → Bytes
write_enum_value v = write32 v.name ++ (write32 0 ++ write64 v.bits)

unfoldable pub read_enum_value : Bytes → Option CompiledEnumValue
read_enum_value source =
    let name = read32 source in
    if not (read32 (skip 4 source) == 0)
    then none
    else if name == 0
    then none
    else some (record { name = name; bits = read64 (skip 8 source) })

abbrev pub write_member : CompiledMember → Bytes
write_member m = write32 m.name ++ write32 m.type_ref

unfoldable pub read_member : Bytes → Option CompiledMember
read_member source =
    let name = read32 source in
    let type_ref = read32 (skip 4 source) in
    if name == 0 || type_ref == 0 then none else some (record { name = name; type_ref = type_ref })

abbrev pub dead_type : CompiledTypeSlot
dead_type = record { live = false; entry = type_default }

-- The three bytes on the enumeration.
abbrev pub write_enumeration : TypeEntry → Bytes
write_enumeration t =
    if is_aggregate t.kind
    then 0 ∷ 0 ∷ 0 ∷ []
    else (flag t.enumeration_part.scoped
        ∷ flag t.enumeration_part.fixed_underlying
        ∷ code t.enumeration_part.underlying
        ∷ [])

abbrev pub write_live_type : TypeEntry → Bytes
write_live_type t =
    1 ∷ user_code t.kind ∷ write_enumeration t
    ++ (0 ∷ write16 0 ++ (write32 t.definition.begin ++ write32 t.definition.count))

abbrev pub write_type : CompiledTypeSlot → Bytes
write_type slot =
    if slot.live
    then write_live_type slot.entry
    else 0 ∷ 0 ∷ 0 ∷ 0 ∷ 0 ∷ 0 ∷ write16 0 ++ (write32 0 ++ write32 0)

-- The bytes of a type record, as they are read.
pub record TypeFields : Type 0 where
  pub kind : ℕ
  pub scoped : ℕ
  pub fixed_underlying : ℕ
  pub underlying : ℕ
  pub begin : ℕ
  pub count : ℕ

abbrev pub no_enum_fields : TypeFields → Bool
no_enum_fields f = f.scoped == 0 && (f.fixed_underlying == 0) && (f.underlying == 0)

abbrev pub to_enumeration : TypeFields → EnumEntry
to_enumeration f = record {
  scoped = not (f.scoped == 0);
  fixed_underlying = not (f.fixed_underlying == 0);
  underlying = to_builtin f.underlying;
}

abbrev pub to_type_entry : TypeFields → TypeEntry
to_type_entry f = record {
  kind = to_user_kind f.kind;
  enumeration_part = if is_aggregate (to_user_kind f.kind) then no_enum else to_enumeration f;
  definition = record { begin = f.begin; count = f.count };
}

abbrev pub live_type : ℕ → ℕ → TypeFields → Option CompiledTypeSlot
live_type members values f =
    if is_aggregate (to_user_kind f.kind) && not (no_enum_fields f)
    then none
    else if not (good_definition members values (to_type_entry f))
    then none
    else some (record { live = true; entry = to_type_entry f })

abbrev pub read_fields : Bytes → TypeFields
read_fields source = record {
  kind = byte_at source 1;
  scoped = byte_at source 2;
  fixed_underlying = byte_at source 3;
  underlying = byte_at source 4;
  begin = read32 (skip 8 source);
  count = read32 (skip 12 source);
}

abbrev pub bad_type_bytes : Bytes → Bool
bad_type_bytes source =
    ltb 1 (byte_at source 0)
    || ltb 1 (byte_at source 1)
    || ltb 1 (byte_at source 2)
    || ltb 1 (byte_at source 3)
    || ltb 18 (byte_at source 4)
    || not (byte_at source 5 == 0)
    || not (read16 (skip 6 source) == 0)

abbrev pub dead_fields : TypeFields → Bool
dead_fields f = no_enum_fields f && (f.begin == 0) && (f.count == 0)

unfoldable pub read_type : ℕ → ℕ → Bytes → Option CompiledTypeSlot
read_type members values source =
    let f = read_fields source in
    if bad_type_bytes source
    then none
    else if byte_at source 0 == 0
    then (if dead_fields f then some dead_type else none)
    else live_type members values f

abbrev pub write_canonical : CompiledCanonicalType → Bytes
write_canonical c = c.kind ∷ c.subtype ∷ write16 0 ++ (write32 c.argument ++ write64 c.payload)

unfoldable pub read_canonical : Bytes → Option CompiledCanonicalType
read_canonical source =
    if not (read16 (skip 2 source) == 0)
    then none
    else some (record {
      kind = byte_at source 0;
      subtype = byte_at source 1;
      argument = read32 (skip 4 source);
      payload = read64 (skip 8 source);
    })

unfoldable pub read_identity : Bytes → Option ℕ
read_identity source = some (read32 source)

-- A string record: where the string lies in the section of bytes. A tombstone is all ones.
abbrev pub write_string : ℕ → Option Bytes → Bytes
write_string start none = write32 0xffffffff ++ write32 0
write_string start (some value) = write32 start ++ write32 (length value)

abbrev pub take {ℓ} : {A : Type ℓ} → ℕ → List A → List A
take zero xs = []
take (suc n) [] = []
take (suc n) (x ∷ xs) = x ∷ take n xs

-- `storage` is the section of bytes and what lies behind it, `size` the size of the section.
unfoldable pub read_string : Bytes → ℕ → Bytes → Option (Option Bytes)
read_string storage size source =
    let start = read32 source in
    let count = read32 (skip 4 source) in
    if start == 0xffffffff
    then (if count == 0 then some none else none)
    else if ltb size start || ltb (size - start) count
    then none
    else some (some (take count (skip start storage)))
