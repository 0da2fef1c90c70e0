-- ===== src/Graph/Lookup.antt =====
-- project/graph/graph.cpp: the queries of a committed graph.
use server_entry.Prelude.{
  ℕ, zero, suc, ◌+◌, ◌-◌, Bool, true, false, not, ◌&&◌, List, [], ◌∷◌, Option, none, some, ltb,
  ◌==◌, if◌then◌else◌, length, get_elem?, get_or,
}
use server_entry.Types.{BuiltinType}
use server_entry.Graph.{
  Graph, EntityEntry, TypeEntry, UserTypeKind, enumeration, aggregate, EnumValueRecord,
  MemberRecord, CanonicalTypeRecord, CanonicalTypeKind, builtin, named, derived, DerivedTypeRecord,
  DefinitionRange, live, valid, canonical_default,
}

abbrev pub when {ℓ} : {A : Type ℓ} → Bool → Option A → Option A
when b o = if b then o else none

abbrev pub and_then {ℓ κ} : {A : Type ℓ} {B : Type κ} → Option A → (A → Option B) → Option B
and_then none next = none
and_then (some a) next = next a

abbrev pub live_entity : Option EntityEntry → Option EntityEntry
live_entity none = none
live_entity (some e) = when (live e) (some e)

-- find(stable_id)
unfoldable pub find_entity : Graph → ℕ → Option EntityEntry
find_entity g id =
    when (not (id == 0) && ltb id (length g.entities)) (live_entity (get_elem? g.entities id))

-- find(string_id)
unfoldable pub find_name : Graph → ℕ → Option EntityEntry
find_name g name =
    when (not (name == 0) && ltb name (length g.identity))
      (find_entity g (get_or g.identity name 0))

unfoldable pub find_id : Graph → ℕ → ℕ
find_id g name =
    if not (name == 0) && ltb name (length g.identity) then get_or g.identity name 0 else 0

-- find(type_handle)
unfoldable pub find_type : Graph → ℕ → Option TypeEntry
find_type g handle =
    when (not (handle == 0) && not (ltb (length g.types) handle)) (get_or g.types (handle - 1) none)

-- A part of an array, from `begin` on.
unfoldable pub span {ℓ} : {A : Type ℓ} → List A → ℕ → ℕ → List A
span [] begin count = []
span (x ∷ xs) (suc begin) count = span xs begin count
span (x ∷ xs) zero zero = []
span (x ∷ xs) zero (suc count) = x ∷ span xs zero count

-- Whether a definition lies in an arena of `size` records; `begin` counts from one.
abbrev pub in_arena : DefinitionRange → ℕ → Bool
in_arena d size = not (ltb size (d.begin - 1)) && not (ltb (size - (d.begin - 1)) d.count)

abbrev pub range_of {ℓ} : {A : Type ℓ} → List A → DefinitionRange → List A
range_of arena d =
    if valid d && in_arena d (length arena) then span arena (d.begin - 1) d.count else []

abbrev pub is_aggregate : UserTypeKind → Bool
is_aggregate aggregate = true
is_aggregate enumeration = false

abbrev pub values_of : Graph → Option TypeEntry → List EnumValueRecord
values_of g none = []
values_of g (some t) =
    if is_aggregate t.kind then [] else range_of g.enum_value_records t.definition

unfoldable pub enum_values : Graph → ℕ → List EnumValueRecord
enum_values g handle = values_of g (find_type g handle)

abbrev pub members_of : Graph → Option TypeEntry → List MemberRecord
members_of g none = []
members_of g (some t) = if is_aggregate t.kind then range_of g.member_records t.definition else []

unfoldable pub members : Graph → ℕ → List MemberRecord
members g handle = members_of g (find_type g handle)

-- member(type_handle, member_index)
unfoldable pub member : Graph → ℕ → ℕ → Option MemberRecord
member g handle index =
    when (not (index == 0) && not (ltb (length (members g handle)) index))
      (get_elem? (members g handle) (index - 1))

-- The loop of find_member from `index` on.
abbrev pub member_named : ℕ → ℕ → List MemberRecord → ℕ
member_named name index [] = 0
member_named name index (m ∷ ms) =
    let rest = member_named name (index + 1) ms in if m.name == name then index + 1 else rest

unfoldable pub find_member : Graph → ℕ → ℕ → ℕ
find_member g handle name = member_named name 0 (members g handle)

abbrev pub is_ref : Graph → ℕ → Bool
is_ref g r = not (r == 0) && ltb r (length g.canonical_types)

abbrev pub canonical : Graph → ℕ → CanonicalTypeRecord
canonical g r = get_or g.canonical_types r canonical_default

unfoldable pub kind : Graph → ℕ → CanonicalTypeKind
kind g r = if is_ref g r then (canonical g r).kind else builtin

abbrev pub kind_builtin : CanonicalTypeRecord → Option BuiltinType
kind_builtin c = elim c.kind [ builtin ↦ some c.builtin_part | named ↦ none | derived ↦ none ]

abbrev pub kind_named : CanonicalTypeRecord → Option ℕ
kind_named c = elim c.kind [ builtin ↦ none | named ↦ some c.named_part | derived ↦ none ]

abbrev pub kind_derived : CanonicalTypeRecord → Option DerivedTypeRecord
kind_derived c = elim c.kind [ builtin ↦ none | named ↦ none | derived ↦ some c.derived_part ]

-- builtin, named and derived, `none` where they answer false or null.
unfoldable pub builtin_of : Graph → ℕ → Option BuiltinType
builtin_of g r = when (is_ref g r) (kind_builtin (canonical g r))

unfoldable pub named_of : Graph → ℕ → Option ℕ
named_of g r = when (is_ref g r) (kind_named (canonical g r))

unfoldable pub derived_of : Graph → ℕ → Option DerivedTypeRecord
derived_of g r = when (is_ref g r) (kind_derived (canonical g r))

abbrev pub derived_type_count : Graph → ℕ
derived_type_count g = length g.derived_type_index
