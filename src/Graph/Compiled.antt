-- ===== src/Graph/Compiled.antt =====
-- project/graph/compiled_state.hpp, and project/graph/graph.cpp: export_compiled, which projects a
-- graph to it, and swap_compiled.
pub mod Arrays
pub mod Tables
pub mod Import
pub mod Inversion
pub mod TableExport
pub mod Parts
pub mod Exported
pub mod Resolved
pub mod Indexed
pub mod Atomic
pub mod Canonical
use server_entry.Prelude.{
  ℕ, zero, suc, ◌+◌, ◌-◌, Bool, true, false, not, List, [], ◌∷◌, Option, none, some, ◌==◌,
  if◌then◌else◌, map,
}
use server_entry.Strings.{Status, ok, initialization_failed}
use server_entry.Types.{BuiltinType, code, AbiConfiguration}
use server_entry.Graph.{
  Graph, EntityKind, aggregate_type, EntityEntry, TypeEntry, EnumValueRecord, MemberRecord,
  CanonicalTypeRecord, CanonicalTypeKind, builtin, named, derived, DerivedTypeKind, pointer, array,
  lvalue_reference, rvalue_reference, type_default,
}

pub record CompiledEntitySlot : Type 0 where
  pub kind : EntityKind
  pub name : ℕ
  pub handle : ℕ

pub record CompiledEnumValue : Type 0 where
  pub name : ℕ
  pub bits : ℕ

pub record CompiledTypeSlot : Type 0 where
  pub live : Bool
  pub entry : TypeEntry

pub record CompiledMember : Type 0 where
  pub name : ℕ
  pub type_ref : ℕ

pub record CompiledCanonicalType : Type 0 where
  pub kind : ℕ
  pub subtype : ℕ
  pub argument : ℕ
  pub payload : ℕ

pub record CompiledGraphState : Type 0 where
  pub abi : AbiConfiguration
  pub identities : List ℕ
  pub entities : List CompiledEntitySlot
  pub types : List CompiledTypeSlot
  pub enum_values : List CompiledEnumValue
  pub members : List CompiledMember
  pub canonical_types : List CompiledCanonicalType

abbrev pub entity_live : CompiledEntitySlot → Bool
entity_live e = not (e.name == 0)

-- The values of the enumerators.
abbrev pub kind_code : CanonicalTypeKind → ℕ
kind_code builtin = 0
kind_code named = 1
kind_code derived = 2

abbrev pub shape_code : DerivedTypeKind → ℕ
shape_code pointer = 0
shape_code array = 1
shape_code lvalue_reference = 2
shape_code rvalue_reference = 3

abbrev pub export_entity : EntityEntry → CompiledEntitySlot
export_entity e = record { kind = e.kind; name = e.name; handle = e.handle }

abbrev pub export_type : Option TypeEntry → CompiledTypeSlot
export_type none = record { live = false; entry = type_default }
export_type (some t) = record { live = true; entry = t }

abbrev pub export_value : EnumValueRecord → CompiledEnumValue
export_value v = record { name = v.name; bits = v.bits }

abbrev pub export_member : MemberRecord → CompiledMember
export_member m = record { name = m.name; type_ref = m.type_ref }

unfoldable pub export_canonical : CanonicalTypeRecord → CompiledCanonicalType
export_canonical c = elim c.kind [
  | builtin ↦ record { kind = 0; subtype = code c.builtin_part; argument = 0; payload = 0 }
  | named ↦ record { kind = 1; subtype = 0; argument = c.named_part; payload = 0 }
  | derived ↦ record {
    kind = 2;
    subtype = shape_code c.derived_part.shape;
    argument = c.derived_part.child;
    payload = c.derived_part.payload;
  }
]

-- What export_compiled writes to its output.
unfoldable pub exported : Graph → CompiledGraphState
exported g = record {
  abi = g.abi;
  identities = g.identity;
  entities = map export_entity g.entities;
  types = map export_type g.types;
  enum_values = map export_value g.enum_value_records;
  members = map export_member g.member_records;
  canonical_types = map export_canonical g.canonical_types;
}

abbrev pub export_compiled : Bool → Graph → CompiledGraphState → CompiledGraphState × Status
export_compiled allocated g output =
    if allocated then (exported g, ok) else (output, initialization_failed)

abbrev pub swap_compiled : Graph → Graph → Graph × Graph
swap_compiled g other = (other, g)
