-- ===== src/Graph.antt =====
-- project/graph/graph.hpp, graph.cpp and type_ref.hpp: the committed graph. The handles stable_id,
-- string_id, type_handle, member_index and TypeRef are the numbers that they hold, 0 being none.
pub mod Lookup
pub mod Compiled
pub mod Dependencies
pub mod Unique
pub mod Interning
mod Examples
use server_entry.Prelude.{
  ℕ, zero, suc, ◌+◌, ◌-◌, ◌%◌, Bool, true, false, not, ◌&&◌, List, [], ◌∷◌, Option, none, some, ltb,
  ◌==◌, if◌then◌else◌, map, length,
}
use server_entry.Strings.{Status, ok, configuration_failed, initialization_failed}
use server_entry.Types.{
  BuiltinType, AbiConfiguration, is_supported_abi_configuration, integer, void_type, boolean,
  character, signed_character, unsigned_character, short_integer, unsigned_short_integer,
  unsigned_integer, long_integer, unsigned_long_integer, long_long_integer,
  unsigned_long_long_integer, wide_character, character_8, character_16, character_32, floating,
  double_floating, long_double_floating,
}

pub data EntityKind : Type 0 where
  aggregate_type enum_type : EntityKind

pub data UserTypeKind : Type 0 where
  aggregate enumeration : UserTypeKind

pub data CanonicalTypeKind : Type 0 where
  builtin named derived : CanonicalTypeKind

pub data DerivedTypeKind : Type 0 where
  pointer array lvalue_reference rvalue_reference : DerivedTypeKind

-- Also derived_type_key, which has the same fields.
pub record DerivedTypeRecord : Type 0 where
  pub shape : DerivedTypeKind
  pub child : ℕ
  pub payload : ℕ

pub record CanonicalTypeRecord : Type 0 where
  pub kind : CanonicalTypeKind
  pub builtin_part : BuiltinType
  pub named_part : ℕ
  pub derived_part : DerivedTypeRecord

pub record EntityEntry : Type 0 where
  pub kind : EntityKind
  pub name : ℕ
  pub handle : ℕ

pub record EnumValueRecord : Type 0 where
  pub name : ℕ
  pub bits : ℕ

pub record MemberRecord : Type 0 where
  pub name : ℕ
  pub type_ref : ℕ

pub record DefinitionRange : Type 0 where
  pub begin : ℕ
  pub count : ℕ

pub record EnumEntry : Type 0 where
  pub scoped : Bool
  pub fixed_underlying : Bool
  pub underlying : BuiltinType

pub record TypeEntry : Type 0 where
  pub kind : UserTypeKind
  pub enumeration_part : EnumEntry
  pub definition : DefinitionRange

-- derived_type_index: an unordered map.
abbrev pub DerivedIndex : Type 0
DerivedIndex = List (DerivedTypeRecord × ℕ)

-- The committed state, without the slots that only an update uses.
pub record Graph : Type 0 where
  pub types : List (Option TypeEntry)
  pub free_type_slots : List ℕ
  pub entities : List EntityEntry
  pub identity : List ℕ
  pub member_records : List MemberRecord
  pub enum_value_records : List EnumValueRecord
  pub canonical_types : List CanonicalTypeRecord
  pub named_type_refs : List ℕ
  pub derived_type_index : DerivedIndex
  pub type_dependencies : List (List ℕ)
  pub reverse_type_dependents : List (List ℕ)
  pub entity_count : ℕ
  pub user_type_count : ℕ
  pub next_stable_id : ℕ
  pub generation : ℕ
  pub abi : AbiConfiguration

abbrev pub no_derived : DerivedTypeRecord
no_derived = record { shape = pointer; child = 0; payload = 0 }

-- A record without a field set.
abbrev pub canonical_default : CanonicalTypeRecord
canonical_default = record {
  kind = builtin;
  builtin_part = void_type;
  named_part = 0;
  derived_part = no_derived;
}

abbrev pub builtin_record : BuiltinType → CanonicalTypeRecord
builtin_record t = record canonical_default { builtin_part = t }

abbrev pub named_record : ℕ → CanonicalTypeRecord
named_record handle = record canonical_default { kind = named; named_part = handle }

abbrev pub derived_record : DerivedTypeRecord → CanonicalTypeRecord
derived_record d = record canonical_default { kind = derived; derived_part = d }

abbrev pub entity_default : EntityEntry
entity_default = record { kind = aggregate_type; name = 0; handle = 0 }

abbrev pub no_enum : EnumEntry
no_enum = record { scoped = false; fixed_underlying = false; underlying = integer }

abbrev pub type_default : TypeEntry
type_default = record {
  kind = enumeration;
  enumeration_part = no_enum;
  definition = record { begin = 0; count = 0 };
}

-- entity_entry::live and definition_range::valid
abbrev pub live : EntityEntry → Bool
live e = not (e.name == 0)

abbrev pub valid : DefinitionRange → Bool
valid d = not (d.begin == 0)

-- The builtin types in the order of their codes.
abbrev pub builtin_types : List BuiltinType
builtin_types =
    boolean ∷ character ∷ signed_character ∷ unsigned_character ∷ short_integer
    ∷ unsigned_short_integer ∷ integer ∷ unsigned_integer ∷ long_integer ∷ unsigned_long_integer
    ∷ long_long_integer ∷ unsigned_long_long_integer ∷ wide_character ∷ character_8 ∷ character_16
    ∷ character_32 ∷ floating ∷ double_floating ∷ long_double_floating ∷ void_type ∷ []

-- The canonical types that each graph starts with: one that no TypeRef stands for, and the builtins.
abbrev pub builtin_prefix : List CanonicalTypeRecord
builtin_prefix = canonical_default ∷ map builtin_record builtin_types

-- `initialize`; `allocated` says whether the allocations succeed.
unfoldable pub initialize : Bool → AbiConfiguration → Graph → Graph × Status
initialize allocated abi g =
    if not (is_supported_abi_configuration abi)
    then (g, configuration_failed)
    else if not allocated
    then (g, initialization_failed)
    else (
      record {
        types = [];
        free_type_slots = [];
        entities = [];
        identity = [];
        member_records = [];
        enum_value_records = [];
        canonical_types = builtin_prefix;
        named_type_refs = [];
        derived_type_index = [];
        type_dependencies = [];
        reverse_type_dependents = [];
        entity_count = 0;
        user_type_count = 0;
        next_stable_id = 1;
        generation = 0;
        abi = abi;
      },
      ok,
    )
