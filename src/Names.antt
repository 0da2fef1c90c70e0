-- ===== src/Names.antt =====
-- project/parser/source_context.cpp and project/builder/source_build_entry.cpp: names packed in one
-- array of bytes, with references to their places. `allocated` says whether the array can grow.
pub mod Context
pub mod Entry
pub mod Stored
mod Examples
use server_entry.Prelude.{
  ℕ, zero, suc, ◌+◌, ◌-◌, Bool, true, false, not, ◌||◌, List, [], ◌∷◌, ◌++◌, ltb, ◌==◌,
  if◌then◌else◌, length,
}
use server_entry.Prelude.Bits.{to_u32}
use server_entry.Strings.{Status, ok, initialization_failed, configuration_failed}

-- source_name_ref and build_name_ref
pub record NameRef : Type 0 where
  pub offset : ℕ
  pub length : ℕ

abbrev pub no_name : NameRef
no_name = record { offset = 0; length = 0 }

abbrev pub is_set : NameRef → Bool
is_set reference = not (reference.length == 0)

-- `count` elements from `offset` on.
abbrev pub slice {ℓ} : {A : Type ℓ} → List A → ℕ → ℕ → List A
slice [] offset count = []
slice (x ∷ xs) (suc offset) count = slice xs offset count
slice (x ∷ xs) zero zero = []
slice (x ∷ xs) zero (suc count) = x ∷ slice xs zero count

abbrev pub maximum : ℕ
maximum = 0xffffffff

-- The names afterwards, the status and `result`.
abbrev pub NameResult : Type 0
NameResult = List ℕ × Status × NameRef

-- The insertion at the end, which both functions do alike.
unfoldable pub insert : Bool → List ℕ → List ℕ → NameResult
insert allocated value names =
    if allocated
    then (
      names ++ value,
      ok,
      record { offset = to_u32 (length names); length = to_u32 (length value) },
    )
    else (names, initialization_failed, no_name)
