-- ===== src/Names/Context.antt =====
-- source_context: its names, and the parts of its arrays.
use server_entry.Prelude.{ℕ, Bool, ◌+◌, ◌-◌, not, ◌||◌, List, [], ltb, ◌==◌, if◌then◌else◌, length}
use server_entry.Strings.{Status, ok, initialization_failed, configuration_failed}
use server_entry.Names.{NameRef, no_name, is_set, slice, maximum, NameResult, insert}

unfoldable pub store_name : Bool → List ℕ → List ℕ → NameResult
store_name allocated value names =
    if length value == 0
    then (names, configuration_failed, no_name)
    else if ltb maximum (length value) || ltb (maximum - length value) (length names)
    then (names, initialization_failed, no_name)
    else insert allocated value names

unfoldable pub resolve_name : NameRef → List ℕ → List ℕ × Status
resolve_name reference names =
    if not (is_set reference) || ltb (length names) (reference.offset + reference.length)
    then ([], configuration_failed)
    else (slice names reference.offset reference.length, ok)

-- `enumerators`, `members` and `modifiers`: the part of an array that a fact refers to.
unfoldable pub part {ℓ} : {A : Type ℓ} → ℕ → ℕ → List A → List A
part offset count values =
    if count == 0
    then []
    else if ltb (length values) (offset + count)
    then []
    else slice values offset count
