-- ===== src/Strings/Examples.antt =====
-- The theorems on the string registry at a small registry.
use server_entry.Prelude.{
  ℕ, ◌+◌, ◌≡◌, ◌≢◌, refl, true, false, List, [], ◌∷◌, ◌++◌, none, some, length, arith,
}
use server_entry.Strings.{
  Status, ok, Bytes, Slots, Registry, lookup, emplace, slot, index_slots, import_slots, IsIndexed,
}
use server_entry.Strings
use server_entry.Strings.Index.{empty-IsIndex}
use server_entry.Strings.Update.{
  Update, begin_update, is_open, is_current, intern, add, prepare_publish,
  prepare_rebuild_compaction, publish_prepared, commit, merge, compaction_required, compact, adopt,
  get_for_validation,
}
use server_entry.Strings.Update
use server_entry.Strings.Publish.{Extends, import_slots-IsIndexed, begin_update-Extends}
use server_entry.Strings.Intern.{Interned, intern-Interned}
use server_entry.Strings.Commit.{Committed, commit-Committed, commit_once}
use server_entry.Strings.Compaction.{kept_slots, compaction_keeps_slots, nothing_dropped}

program : Unit {0}
unfolding lookup emplace index_slots import_slots Strings.find Strings.get begin_update is_open
    is_current Update.find intern add Update.resolve Update.get get_for_validation prepare_publish
    prepare_rebuild_compaction publish_prepared commit merge compaction_required compact adopt
program = tt

abbrev fresh : Registry
fresh = record { records = []; lookup_index = []; generation = 6 }

abbrev stored : Slots
stored = some (b'a' ∷ []) ∷ none ∷ some (b'b' ∷ []) ∷ []

stored_import : (import_slots true stored fresh).1 ≡ ok
unfolding program
stored_import = refl

import_slots-IsIndexed_example :
    ((import_slots true stored fresh).0.records ≡ stored)
    × IsIndexed (import_slots true stored fresh).0
import_slots-IsIndexed_example =
    import_slots-IsIndexed true stored fresh (omega arith) stored_import

abbrev loaded : Registry
loaded = (import_slots true stored fresh).0

loaded_update : Extends loaded (begin_update loaded)
loaded_update =
    begin_update-Extends loaded
      (import_slots-IsIndexed true stored fresh (omega arith) stored_import).1

intern-Interned_example :
    Interned loaded
      (begin_update loaded)
      (b'c' ∷ [])
      (intern true (b'c' ∷ []) loaded (begin_update loaded))
intern-Interned_example =
    intern-Interned true (b'c' ∷ []) loaded (begin_update loaded) loaded_update

-- The update with one string more.
abbrev grown : Update
grown = (intern true (b'c' ∷ []) loaded (begin_update loaded)).0

grown_update : Extends loaded grown
grown_update = (intern-Interned true (b'c' ∷ []) loaded (begin_update loaded) loaded_update).extends

runs : (intern true (b'c' ∷ []) loaded (begin_update loaded)).2 ≡ 4
unfolding program
runs = refl

again : (intern true (b'c' ∷ []) loaded grown).2 ≡ 4
unfolding program
again = refl

known : (intern true (b'b' ∷ []) loaded grown).2 ≡ 3
unfolding program
known = refl

commit-Committed_example : Committed loaded grown (commit true loaded grown)
commit-Committed_example = commit-Committed true loaded grown grown_update

grown_commits : (commit true loaded grown).2 ≡ ok
unfolding program
grown_commits = refl

loaded_generation : loaded.generation ≡ 7
unfolding program
loaded_generation = refl

commit_once_example :
    ((commit true (commit true loaded grown).0 (begin_update loaded)).2 ≢ ok)
    × ((commit true (commit true loaded grown).0 (begin_update loaded)).0
        ≡ (commit true loaded grown).0)
commit_once_example =
    commit_once true true loaded grown (begin_update loaded) grown_update
      (omega (arith, loaded_generation)) begin_same grown_commits
  where
    begin_same : (begin_update loaded).base_generation ≡ grown.base_generation
    begin_same = unfold program in refl

abbrev prepared : Update
prepared = (prepare_publish true loaded grown).0

-- The first string is dropped.
abbrev retained : List ℕ
retained = 0 ∷ 0 ∷ 0 ∷ 1 ∷ 1 ∷ []

asked :
    compaction_required retained 1 (length loaded.records + length prepared.added_records) ≡ true
unfolding program
asked = refl

compacts : (prepare_rebuild_compaction true retained loaded prepared).1 ≡ ok
unfolding program
compacts = refl

compaction_keeps_slots_example :
    let r' =
      (publish_prepared loaded (prepare_rebuild_compaction true retained loaded prepared).0).0 in
    (r'.records ≡ kept_slots retained 1 (loaded.records ++ prepared.added_records)) × IsIndexed r'
compaction_keeps_slots_example = compaction_keeps_slots true retained loaded prepared asked compacts

-- A first string in an empty registry.
fresh-IsIndexed : IsIndexed fresh
fresh-IsIndexed = empty-IsIndex

abbrev first : Update
first = (intern true (b'a' ∷ []) fresh (begin_update fresh)).0

first_update : Extends fresh first
first_update =
    (intern-Interned true (b'a' ∷ []) fresh (begin_update fresh)
      (begin_update-Extends fresh fresh-IsIndexed)).extends

abbrev first_prepared : Update
first_prepared = (prepare_publish true fresh first).0

first_prepared_update : Extends fresh first_prepared
unfolding program
first_prepared_update = record {
  owner = first_update.owner;
  both = first_update.both;
  uncompacted = first_update.uncompacted;
}

nothing_asked :
    compaction_required (0 ∷ 1 ∷ []) 1 (length fresh.records + length first_prepared.added_records)
    ≡ false
unfolding program
nothing_asked = refl

adopts : (prepare_rebuild_compaction true (0 ∷ 1 ∷ []) fresh first_prepared).1 ≡ ok
unfolding program
adopts = refl

nothing_dropped_example :
    let r' =
      (publish_prepared fresh
        (prepare_rebuild_compaction true (0 ∷ 1 ∷ []) fresh first_prepared).0).0 in
    (r'.records ≡ fresh.records ++ first_prepared.added_records) × IsIndexed r'
nothing_dropped_example =
    nothing_dropped true (0 ∷ 1 ∷ []) fresh first_prepared first_prepared_update nothing_asked
      adopts
