-- ===== src/Graph/Compiled/Arrays.antt =====
-- project/graph/graph.cpp: the checks of import_compiled on the arrays of an artifact. `none` is a
-- return of artifact_corrupt.
use server_entry.Prelude.{
  ℕ, zero, suc, ◌+◌, ◌-◌, ◌%◌, Bool, true, false, not, ◌&&◌, ◌||◌, List, [], ◌∷◌, Option, none,
  some, ltb, ◌==◌, if◌then◌else◌, length, get_or, set_at,
}
use server_entry.Types.{code, long_double_floating}
use server_entry.Graph.{
  EntityKind, aggregate_type, enum_type, EntityEntry, TypeEntry, UserTypeKind, aggregate,
  enumeration, EnumValueRecord, MemberRecord, entity_default, valid, live,
}
use server_entry.Graph.Lookup.{and_then, in_arena, is_aggregate, when}
use server_entry.Graph.Compiled.{
  CompiledEntitySlot, CompiledEnumValue, CompiledTypeSlot, CompiledMember, entity_live,
}

-- A check on each element of an array, and its conversion.
unfoldable pub convert_all {ℓ κ} :
    {A : Type ℓ} {B : Type κ} → (A → Bool) → (A → B) → List A → Option (List B)
convert_all check convert [] = some []
convert_all check convert (x ∷ xs) =
    and_then (convert_all check convert xs) (λ ys. when (check x) (some (convert x ∷ ys)))

abbrev pub good_value : CompiledEnumValue → Bool
good_value v = not (v.name == 0)

abbrev pub to_value : CompiledEnumValue → EnumValueRecord
to_value v = record { name = v.name; bits = v.bits }

abbrev pub good_member : ℕ → CompiledMember → Bool
good_member size m = not (m.name == 0) && not (m.type_ref == 0) && ltb m.type_ref size

abbrev pub to_member : CompiledMember → MemberRecord
to_member m = record { name = m.name; type_ref = m.type_ref }

-- The definition of a type lies in the arena that its kind selects.
abbrev pub good_definition : ℕ → ℕ → TypeEntry → Bool
good_definition members values t =
    if not (valid t.definition)
    then t.definition.count == 0
    else in_arena t.definition (if is_aggregate t.kind then members else values)

abbrev pub good_type : ℕ → ℕ → CompiledTypeSlot → Bool
good_type members values slot =
    not slot.live
    || (good_definition members values slot.entry
        && (is_aggregate slot.entry.kind
            || not (ltb (code long_double_floating) (code slot.entry.enumeration_part.underlying))))

abbrev pub to_type : CompiledTypeSlot → Option TypeEntry
to_type slot = if slot.live then some slot.entry else none

-- imported_free_types, and the two counts.
unfoldable pub free_slots : ℕ → List CompiledTypeSlot → List ℕ
free_slots index [] = []
free_slots index (slot ∷ slots) =
    let rest = free_slots (index + 1) slots in if slot.live then rest else (index + 1) ∷ rest

abbrev pub count_live {ℓ} : {A : Type ℓ} → (A → Bool) → List A → ℕ
count_live test [] = 0
count_live test (x ∷ xs) = (if test x then 1 else 0) + count_live test xs

abbrev pub same_kind : EntityKind → UserTypeKind → Bool
same_kind aggregate_type aggregate = true
same_kind enum_type enumeration = true
same_kind _ _ = false

abbrev pub kind_agrees : EntityKind → Option TypeEntry → Bool
kind_agrees kind none = false
kind_agrees kind (some t) = same_kind kind t.kind

-- A live entity refers to a live type of its own kind.
abbrev pub good_entity : List (Option TypeEntry) → CompiledEntitySlot → Bool
good_entity types e =
    not (entity_live e)
    || (not (e.handle == 0)
        && not (ltb (length types) e.handle)
        && kind_agrees e.kind (get_or types (e.handle - 1) none))

abbrev pub to_entity : CompiledEntitySlot → EntityEntry
to_entity e =
    if entity_live e
    then record { kind = e.kind; name = e.name; handle = e.handle }
    else entity_default

-- The first slot is checked on its own, and its record stays as it is.
abbrev pub import_entities :
    List (Option TypeEntry) → List CompiledEntitySlot → Option (List EntityEntry)
import_entities types [] = none
import_entities types (e ∷ es) =
    and_then (convert_all (good_entity types) to_entity es)
      (λ entities. when (not (entity_live e) && (e.handle == 0)) (some (entity_default ∷ entities)))

abbrev pub owned_by_other : ℕ → ℕ → Bool
owned_by_other owner name = not (owner == 0) && not (owner == name)

abbrev pub named_other : EntityEntry → ℕ → Bool
named_other e name = live e && not (e.name == name)

-- One round of the loop over the identities: the owners afterwards.
unfoldable pub claim : List EntityEntry → ℕ → ℕ → List ℕ → Option (List ℕ)
claim entities name raw owners =
    if not (ltb raw (length entities))
    then none
    else if raw == 0
    then some owners
    else if owned_by_other (get_or owners raw 0) name
    then none
    else if named_other (get_or entities raw entity_default) name
    then none
    else some (set_at raw (name % 0x100000000) owners)

unfoldable pub check_identities : List EntityEntry → ℕ → List ℕ → List ℕ → Bool
check_identities entities name owners [] = true
check_identities entities name owners (raw ∷ rest) = elim (claim entities name raw owners) [
  | none ↦ false
  | some owners' ↦ check_identities entities (name + 1) owners' rest
]

abbrev pub zeros : ℕ → List ℕ
zeros zero = []
zeros (suc n) = 0 ∷ zeros n
