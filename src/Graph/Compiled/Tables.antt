-- ===== src/Graph/Compiled/Tables.antt =====
-- project/graph/graph.cpp: the checks of import_compiled on the canonical types, and which of them
-- are live.
use server_entry.Prelude.{set_at}
use server_entry.Prelude.Bits.{to_u32}
use server_entry.Prelude.{
  ℕ, ◌+◌, ◌-◌, Bool, true, false, not, ◌&&◌, ◌||◌, List, [], ◌∷◌, ◌++◌, Option, none, some, ltb,
  ◌==◌, if◌then◌else◌, length, get_or,
}
use server_entry.Types.{BuiltinType, code}
use server_entry.Graph.{
  TypeEntry, MemberRecord, CanonicalTypeRecord, builtin, named, derived, DerivedTypeRecord,
  DerivedTypeKind, pointer, array, lvalue_reference, rvalue_reference, DerivedIndex, named_record,
  derived_record,
}
use server_entry.Graph.Lookup.{and_then}
use server_entry.Graph.Compiled.{CompiledCanonicalType, shape_code}

-- static_cast<derived_type_kind>, where the check before it has passed.
abbrev pub to_shape : ℕ → DerivedTypeKind
to_shape n =
    if n == 0
    then pointer
    else if n == 1
    then array
    else if n == 2
    then lvalue_reference
    else rvalue_reference

abbrev pub is_array : DerivedTypeKind → Bool
is_array array = true
is_array _ = false

abbrev pub key_eq : DerivedTypeRecord → DerivedTypeRecord → Bool
key_eq a b =
    (shape_code a.shape == shape_code b.shape) && (a.child == b.child) && (a.payload == b.payload)

unfoldable pub find_derived : DerivedTypeRecord → DerivedIndex → Option ℕ
find_derived key [] = none
find_derived key ((k, r) ∷ index) =
    let rest = find_derived key index in if key_eq k key then some r else rest

-- The array that has an extent, and no other.
abbrev pub good_payload : DerivedTypeKind → ℕ → Bool
good_payload shape payload = if is_array shape then not (payload == 0) else payload == 0

-- The tables that the loop over the canonical types fills.
pub record CanonicalTables : Type 0 where
  pub canonical_types : List CanonicalTypeRecord
  pub named_type_refs : List ℕ
  pub derived_type_index : DerivedIndex

abbrev pub to_derived : CompiledCanonicalType → DerivedTypeRecord
to_derived c = record { shape = to_shape c.subtype; child = c.argument; payload = c.payload }

abbrev pub bad_named : ℕ → CompiledCanonicalType → CanonicalTables → Bool
bad_named types c t =
    not (c.subtype == 0)
    || c.argument == 0
    || ltb types c.argument
    || not (c.payload == 0)
    || not (get_or t.named_type_refs c.argument 0 == 0)

-- The tables with an entry whose reference is `r`.
abbrev pub with_named : ℕ → CompiledCanonicalType → CanonicalTables → CanonicalTables
with_named r c t = record t {
  canonical_types = t.canonical_types ++ (named_record c.argument ∷ []);
  named_type_refs = set_at c.argument r t.named_type_refs;
}

unfoldable pub import_named :
    ℕ → ℕ → CompiledCanonicalType → CanonicalTables → Option CanonicalTables
import_named types index c t =
    if bad_named types c t then none else some (with_named (to_u32 index) c t)

abbrev pub emplace_derived :
    ℕ → DerivedTypeRecord → CanonicalTables → Option ℕ → Option CanonicalTables
emplace_derived r d t (some r') = none
emplace_derived r d t none = some (record t {
  canonical_types = t.canonical_types ++ (derived_record d ∷ []);
  derived_type_index = (d, r) ∷ t.derived_type_index;
})

abbrev pub bad_derived : ℕ → CompiledCanonicalType → Bool
bad_derived index c =
    ltb 3 c.subtype
    || c.argument == 0
    || not (ltb c.argument index)
    || not (good_payload (to_shape c.subtype) c.payload)

unfoldable pub import_derived : ℕ → CompiledCanonicalType → CanonicalTables → Option CanonicalTables
import_derived index c t =
    if bad_derived index c
    then none
    else emplace_derived (to_u32 index) (to_derived c) t
        (find_derived (to_derived c) t.derived_type_index)

abbrev pub import_entry : ℕ → ℕ → CompiledCanonicalType → CanonicalTables → Option CanonicalTables
import_entry types index c t =
    if c.kind == 1
    then import_named types index c t
    else if c.kind == 2
    then import_derived index c t
    else none

-- The entries behind the builtin ones. A reference is the index cast to 32 bits.
unfoldable pub import_rest :
    ℕ → ℕ → List CompiledCanonicalType → CanonicalTables → Option CanonicalTables
import_rest types index [] t = some t
import_rest types index (c ∷ cs) t =
    and_then (import_entry types index c t) (λ t'. import_rest types (index + 1) cs t')

abbrev pub is_builtin_entry : BuiltinType → CompiledCanonicalType → Bool
is_builtin_entry t c =
    (c.kind == 0) && (c.subtype == code t) && (c.argument == 0) && (c.payload == 0)

-- The entries that each artifact starts with: those left behind them.
unfoldable pub after_builtins :
    List BuiltinType → List CompiledCanonicalType → Option (List CompiledCanonicalType)
after_builtins [] cs = some cs
after_builtins (t ∷ ts) [] = none
after_builtins (t ∷ ts) (c ∷ cs) =
    let rest = after_builtins ts cs in if is_builtin_entry t c then rest else none

abbrev pub is_live_type : List (Option TypeEntry) → ℕ → Bool
is_live_type types handle = elim (get_or types (handle - 1) none) [ none ↦ false | some t ↦ true ]

-- Whether a canonical type is live, by the marks of the ones before it.
unfoldable pub mark : List (Option TypeEntry) → List Bool → CanonicalTypeRecord → Bool
mark types marks c = elim c.kind [
  | builtin ↦ true
  | named ↦
      not (c.named_part == 0)
      && not (ltb (length types) c.named_part)
      && is_live_type types c.named_part
  | derived ↦
      not (c.derived_part.child == 0)
      && ltb c.derived_part.child (length marks)
      && get_or marks c.derived_part.child false
]

unfoldable pub mark_all : List (Option TypeEntry) → List CanonicalTypeRecord → List Bool → List Bool
mark_all types [] marks = marks
mark_all types (c ∷ cs) marks = mark_all types cs (marks ++ (mark types marks c ∷ []))

-- canonical_live
abbrev pub live_marks : List (Option TypeEntry) → List CanonicalTypeRecord → List Bool
live_marks types [] = []
live_marks types (c ∷ cs) = mark_all types cs (false ∷ [])

abbrev pub is_live_member : List Bool → MemberRecord → Bool
is_live_member marks m =
    not (m.type_ref == 0) && ltb m.type_ref (length marks) && get_or marks m.type_ref false
