-- ===== src/Graph/Interning.antt =====
-- project/graph/graph.cpp: the canonical types that a graph_update adds.
pub mod Table
pub mod Canonical
use server_entry.Prelude.{
  ℕ, zero, suc, ◌+◌, ◌-◌, ◌≡◌, Bool, true, false, not, ◌&&◌, ◌||◌, List, [], ◌∷◌, ◌++◌, Option,
  none, some, ltb, ◌==◌, if◌then◌else◌, length, get_or,
}
use server_entry.Strings.{Status, ok, configuration_failed, initialization_failed}
use server_entry.Graph.{
  Graph, CanonicalTypeRecord, DerivedTypeRecord, DerivedTypeKind, DerivedIndex, named_record,
  derived_record,
}
use server_entry.Graph.Compiled.Tables.{find_derived, good_payload}

-- The part of graph_update that these operations read and write.
pub record TypeUpdate : Type 0 where
  pub full_reconstruction : Bool
  pub added_canonical_types : List CanonicalTypeRecord
  pub added_named_type_refs : List (ℕ × ℕ)
  pub added_named_type_index : List (ℕ × ℕ)
  pub added_derived_type_index : DerivedIndex
  pub failure : Status

-- The reference that is put out, 0 for none, the update afterwards and the status.
pub record Created : Type 0 where
  pub output : ℕ
  pub update : TypeUpdate
  pub status : Status

-- A lookup in the map from handles to references.
abbrev pub find_named : ℕ → List (ℕ × ℕ) → Option ℕ
find_named handle [] = none
find_named handle ((h, r) ∷ index) =
    let rest = find_named handle index in if h == handle then some r else rest

abbrev pub or_else {ℓ} : {A : Type ℓ} → Option A → Option A → Option A
or_else none o = o
or_else (some a) o = some a

-- The reference of a named type that the owner has.
abbrev pub owned_named : Graph → ℕ → Option ℕ
owned_named owner handle =
    let r = get_or owner.named_type_refs handle 0 in if r == 0 then none else some r

abbrev pub unless_rebuilt {ℓ} : {A : Type ℓ} → Bool → Option A → Option A
unless_rebuilt true o = none
unless_rebuilt false o = o

-- The two places where a named and a derived type are looked up, in the order of the code.
unfoldable pub known_named : Graph → TypeUpdate → ℕ → Option ℕ
known_named owner u handle =
    or_else (unless_rebuilt u.full_reconstruction (owned_named owner handle))
      (find_named handle u.added_named_type_index)

unfoldable pub known_derived : Graph → TypeUpdate → DerivedTypeRecord → Option ℕ
known_derived owner u key =
    or_else (find_derived key u.added_derived_type_index)
      (unless_rebuilt u.full_reconstruction (find_derived key owner.derived_type_index))

abbrev pub next_ref : Graph → TypeUpdate → ℕ
next_ref owner u = length owner.canonical_types + length u.added_canonical_types

abbrev pub failed : ℕ → TypeUpdate → Status → Created
failed output u status = record {
  output = output;
  update = record u { failure = status };
  status = status;
}

-- Which of the insertions of a call find memory: into the canonical types, into the references of
-- named types, and into an index.
pub record Memory : Type 0 where
  pub record_pushed : Bool
  pub reference_pushed : Bool
  pub index_entered : Bool

-- The update behind each of the insertions.
abbrev pub with_record : CanonicalTypeRecord → TypeUpdate → TypeUpdate
with_record x u = record u { added_canonical_types = u.added_canonical_types ++ (x ∷ []) }

abbrev pub with_reference : ℕ → ℕ → TypeUpdate → TypeUpdate
with_reference handle r u = record (with_record (named_record handle) u) {
  added_named_type_refs = u.added_named_type_refs ++ ((handle, r) ∷ []);
}

abbrev pub with_named : ℕ → ℕ → TypeUpdate → TypeUpdate
with_named handle r u = record (with_reference handle r u) {
  added_named_type_index = (handle, r) ∷ u.added_named_type_index;
}

abbrev pub with_derived : DerivedTypeRecord → ℕ → TypeUpdate → TypeUpdate
with_derived key r u = record (with_record (derived_record key) u) {
  added_derived_type_index = (key, r) ∷ u.added_derived_type_index;
}

-- An insertion that fails is caught; what was inserted before it stays in the update, and the output
-- stays set.
abbrev pub attempt : Bool → ℕ → TypeUpdate → Created → Created
attempt true r u next = next
attempt false r u next = failed r u initialization_failed

abbrev pub made : ℕ → TypeUpdate → Created
made r u = record { output = r; update = u; status = ok }

-- A type that is not known takes the next reference.
abbrev pub create_named : Memory → ℕ → ℕ → TypeUpdate → Created
create_named memory handle r u =
    if ltb 0xffffffff r
    then failed 0 u initialization_failed
    else attempt memory.record_pushed r u (
        attempt memory.reference_pushed r (with_record (named_record handle) u) (
          attempt memory.index_entered r (with_reference handle r u)
            (made r (with_named handle r u))))

abbrev pub create_derived : Memory → DerivedTypeRecord → ℕ → TypeUpdate → Created
create_derived memory key r u =
    if ltb 0xffffffff r
    then failed 0 u initialization_failed
    else attempt memory.record_pushed r u (
        attempt memory.index_entered r (with_record (derived_record key) u)
          (made r (with_derived key r u)))

abbrev pub get_or_create : Option ℕ → TypeUpdate → Created → Created
get_or_create none u created = created
get_or_create (some r) u created = made r u

unfoldable pub get_or_create_named_type_ref : Memory → Graph → TypeUpdate → ℕ → Created
get_or_create_named_type_ref memory owner u handle =
    if handle == 0
    then record { output = 0; update = u; status = configuration_failed }
    else get_or_create (known_named owner u handle) u
        (create_named memory handle (next_ref owner u) u)

unfoldable pub get_or_create_derived : Memory → Graph → TypeUpdate → DerivedTypeRecord → Created
get_or_create_derived memory owner u key =
    if key.child == 0 || not (good_payload key.shape key.payload)
    then failed 0 u configuration_failed
    else get_or_create (known_derived owner u key) u
        (create_derived memory key (next_ref owner u) u)

-- An update that has added no type.
abbrev pub no_types_added : Bool → TypeUpdate
no_types_added full = record {
  full_reconstruction = full;
  added_canonical_types = [];
  added_named_type_refs = [];
  added_named_type_index = [];
  added_derived_type_index = [];
  failure = ok;
}
