-- ===== src/Names/Examples.antt =====
-- The theorems on names at two small ones.
use server_entry.Prelude.{◌+◌, ◌<◌, ◌≤◌, ◌⊎◌, get_elem?}
use server_entry.Prelude.{ℕ, length, ◌≡◌, refl, true, List, [], ◌∷◌, ◌++◌}
use server_entry.Strings.{ok}
use server_entry.Names.{insert}
use server_entry.Names.Context
use server_entry.Names.Entry
use server_entry.Names.Stored.{
  resolved, context_name_read, entry_name_read, part_lem, resolve_name-resolve_name,
}

abbrev held : List ℕ
held = b'a' ∷ b'b' ∷ []

abbrev name : List ℕ
name = b'x' ∷ b'y' ∷ b'z' ∷ []

context_stores : (Context.store_name true name held).1 ≡ ok
unfolding Context.store_name insert
context_stores = refl

context_name_read_example :
    Context.resolve_name
      (Context.store_name true name held).2
      ((Context.store_name true name held).0 ++ held)
    ≡ resolved name
context_name_read_example = context_name_read true name held held context_stores

entry_stores : (Entry.store_name true name held).1 ≡ ok
unfolding Entry.store_name insert
entry_stores = refl

entry_name_read_example :
    Entry.resolve_name
      (Entry.store_name true name held).2
      ((Entry.store_name true name held).0 ++ held)
    ≡ resolved name
entry_name_read_example = entry_name_read true name held held entry_stores

resolve_name-resolve_name_example :
    Context.resolve_name (record { offset = 1; length = 1 }) held
    ≡ Entry.resolve_name (record { offset = 1; length = 1 }) held
resolve_name-resolve_name_example =
    resolve_name-resolve_name (record { offset = 1; length = 1 }) held

part_lem_example :
    ((1 + 1 ≤ 2)
      × (length (Context.part 1 1 held) ≡ 1)
      × ((i : ℕ) → i < 1 → get_elem? (Context.part 1 1 held) i ≡ get_elem? held (1 + i)))
    ⊎ ((2 < 1 + 1) × (Context.part 1 1 held ≡ []))
part_lem_example = part_lem 1 1 held
