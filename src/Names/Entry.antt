-- ===== src/Names/Entry.antt =====
-- source_build_entry: its names.
use server_entry.Prelude.{ℕ, Bool, ◌-◌, not, ◌||◌, List, [], ltb, ◌==◌, if◌then◌else◌, length}
use server_entry.Strings.{Status, ok, configuration_failed}
use server_entry.Names.{NameRef, no_name, is_set, slice, maximum, NameResult, insert}

unfoldable pub store_name : Bool → List ℕ → List ℕ → NameResult
store_name allocated value names =
    if length value == 0
      || (ltb maximum (length value) || ltb (maximum - length value) (length names))
    then (names, configuration_failed, no_name)
    else insert allocated value names

unfoldable pub resolve_name : NameRef → List ℕ → List ℕ × Status
resolve_name reference names =
    if not (is_set reference)
      || (ltb (length names) reference.offset
          || ltb (length names - reference.offset) reference.length)
    then ([], configuration_failed)
    else (slice names reference.offset reference.length, ok)
