-- ===== src/Strings.antt =====
-- project/string/string_registry.hpp and string_registry.cpp: the registry. A record is its bytes,
-- and a null record is `none`. `allocated` says whether the allocations of a call succeed: where they
-- do not, the call ends in its `catch`, which leaves the registry as it was.
pub mod Update
pub mod Index
pub mod Publish
pub mod Intern
pub mod Commit
pub mod Compaction
mod Examples
use server_entry.Prelude.{
  ℕ, zero, suc, ◌+◌, ◌-◌, ◌%◌, ◌≤◌, ◌≡◌, ◌↔◌, Bool, true, false, not, ◌||◌, List, [], ◌∷◌, ◌++◌,
  Option, none, some, ltb, ◌==◌, if◌then◌else◌, length, bytes_eq,
}
use server_entry.Prelude.Bits.{to_u32}

-- status_code, without the codes that the registry never returns.
pub data Status : Type 0 where
  ok initialization_failed configuration_failed duplicate_source_replacement : Status
  invalid_state persistence_failed artifact_corrupt not_available : Status

abbrev pub Bytes : Type 0
Bytes = List ℕ

abbrev pub Slots : Type 0
Slots = List (Option Bytes)

-- lookup_type: an unordered map from strings to identifiers.
abbrev pub Index : Type 0
Index = List (Bytes × ℕ)

unfoldable pub lookup : Index → Bytes → Option ℕ
lookup [] value = none
lookup ((key, id) ∷ index) value =
    let rest = lookup index value in if bytes_eq key value then some id else rest

-- `emplace`: `none` where the key is there already.
unfoldable pub emplace : Bytes → ℕ → Index → Option Index
emplace value id index = elim (lookup index value) [
  | none ↦ some ((value, id) ∷ index)
  | some old ↦ none
]

pub record Registry : Type 0 where
  pub records : Slots
  pub lookup_index : Index
  pub generation : ℕ

-- `++generation` on a 64-bit integer.
abbrev pub next_generation : ℕ → ℕ
next_generation g = (g + 1) % 0x10000000000000000

unfoldable pub initialize : Registry → Registry × Status
initialize r =
    (record { records = []; lookup_index = []; generation = next_generation r.generation }, ok)

abbrev pub id_or_none : Option ℕ → ℕ
id_or_none none = 0
id_or_none (some id) = id

-- 0 is the identifier of no string.
unfoldable pub find : Registry → Bytes → ℕ
find r value = id_or_none (lookup r.lookup_index value)

-- `records[i]`
abbrev pub slot : Slots → ℕ → Option Bytes
slot [] i = none
slot (x ∷ xs) zero = x
slot (x ∷ xs) (suc i) = slot xs i

unfoldable pub get : Registry → ℕ → Option Bytes
get r id = if id == 0 || ltb (length r.records) id then none else slot r.records (id - 1)

-- The loop that enters the slots from `value` on.
unfoldable pub index_slots : ℕ → Slots → Index → Option Index
index_slots value [] index = some index
index_slots value (none ∷ slots) index = index_slots (value + 1) slots index
index_slots value (some bytes ∷ slots) index = elim (emplace bytes (to_u32 value) index) [
  | none ↦ none
  | some index' ↦ index_slots (value + 1) slots index'
]

unfoldable pub rebuild_lookup_index : Bool → Registry → Registry × Status
rebuild_lookup_index allocated r =
    if not allocated then (r, initialization_failed) else elim (index_slots 1 r.records []) [
      | none ↦ (r, invalid_state)
      | some rebuilt ↦ (record r { lookup_index = rebuilt }, ok)
    ]

unfoldable pub export_slots : Bool → Registry → Slots × Status
export_slots allocated r = if allocated then (r.records, ok) else ([], initialization_failed)

unfoldable pub import_slots : Bool → Slots → Registry → Registry × Status
import_slots allocated values r =
    if not allocated then (r, initialization_failed) else elim (index_slots 1 values []) [
      | none ↦ (r, artifact_corrupt)
      | some index ↦ (
        record {
          records = values;
          lookup_index = index;
          generation = next_generation r.generation;
        },
        ok,
      )
    ]

unfoldable pub swap_compiled : Registry × Registry → Registry × Registry
swap_compiled (r, other) = (other, r)

-- A lookup index is the inverse of the slots.
abbrev pub IsIndex : Slots → Index → Type 0
IsIndex slots index =
    (value : Bytes) (id : ℕ)
    → (lookup index value ≡ some id) ↔ ((1 ≤ id) × (slot slots (id - 1) ≡ some value))

abbrev pub IsIndexed : Registry → Type 0
IsIndexed r = IsIndex r.records r.lookup_index
