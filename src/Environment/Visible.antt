-- ===== src/Environment/Visible.antt =====
-- project/parser/source_environment.cpp: a lookup finds the first entry of the tables that are
-- visible, put behind each other in the order of the includes.
use server_entry.Prelude.{
  ℕ, ◌&&◌, List, [], ◌∷◌, ◌++◌, Option, none, some, if◌then◌else◌, leb, bytes_eq, ◌≡◌, refl, sym,
  ap, Bool-cases, inl, inr,
}
use server_entry.Strings.{Bytes, configuration_failed}
use server_entry.Types.Integral.{IntegralConstant}
use server_entry.Environment.{
  Table, find, Storage, storage, Storages, no_more, also, or_else, find_constant_recursive,
  find_constant_imported, find_type_recursive, find_type_imported, Environment, EnvironmentImport,
  behind, in_dependencies, in_imports, in_environment, answered, no_constant, is_empty,
  find_constant_exact, find_type_exact,
}

-- The tables of a storage and of all its imports, each storage before its imports.
mutual
  pub all_constants : Storage → Table IntegralConstant
  all_constants (storage constants types imports initialized) =
      constants ++ imported_constants imports

  pub imported_constants : Storages → Table IntegralConstant
  imported_constants no_more = []
  imported_constants (also s imports) = all_constants s ++ imported_constants imports

mutual
  pub all_types : Storage → Table Bytes
  all_types (storage constants types imports initialized) = types ++ imported_types imports

  pub imported_types : Storages → Table Bytes
  imported_types no_more = []
  imported_types (also s imports) = all_types s ++ imported_types imports

module _ {V : Type 0} (table : Storage → Table V) where
  abbrev pub table_behind : Option Storage → Table V
  table_behind none = []
  table_behind (some s) = table s

  abbrev pub of_dependencies : List (Option Storage) → Table V
  of_dependencies [] = []
  of_dependencies (d ∷ dependencies) = table_behind d ++ of_dependencies dependencies

  abbrev pub of_imports : ℕ → List EnvironmentImport → Table V
  of_imports offset [] = []
  of_imports offset (i ∷ imports) =
      let rest = of_imports offset imports in
      if leb i.visible_from offset then table_behind i.source ++ rest else rest

  -- What is visible at an offset of the source.
  abbrev pub visible : ℕ → Environment → Table V
  visible offset e =
      table_behind e.single
      ++ (of_dependencies e.dependencies ++ of_imports offset e.positional_imports)

module _ {V : Type 0} (scope name : Bytes) where
  find-append :
      (xs ys : Table V)
      → find scope name (xs ++ ys) ≡ or_else (find scope name xs) (find scope name ys)
  unfolding find
  find-append [] ys = refl
  find-append ((key, value) ∷ xs) ys =
      elim (Bool-cases (bytes_eq key.0 scope && bytes_eq key.1 name)) [
        | inl h ↦ rw h refl
        | inr h ↦ rw h (find-append xs ys)
      ]

  find_both :
      (xs ys : Table V) (a b : Option V)
      → a ≡ find scope name xs
      → b ≡ find scope name ys
      → or_else a b ≡ find scope name (xs ++ ys)
  find_both xs ys a b p q = rw (p, q) (sym (find-append xs ys))

  module _ (look : Storage → Option V) (table : Storage → Table V)
      (same : (s : Storage) → look s ≡ find scope name (table s)) where
    behind_lem : (o : Option Storage) → behind look o ≡ find scope name (table_behind table o)
    unfolding find
    behind_lem none = refl
    behind_lem (some s) = same s

    dependencies_lem :
        (ds : List (Option Storage))
        → in_dependencies look ds ≡ find scope name (of_dependencies table ds)
    unfolding find in_dependencies
    dependencies_lem [] = refl
    dependencies_lem (d ∷ ds) =
        find_both (table_behind table d) (of_dependencies table ds) (behind look d)
          (in_dependencies look ds) (behind_lem d) (dependencies_lem ds)

    imports_lem :
        (offset : ℕ) (is : List EnvironmentImport)
        → in_imports look offset is ≡ find scope name (of_imports table offset is)
    unfolding find in_imports
    imports_lem offset [] = refl
    imports_lem offset (i ∷ is) = elim (Bool-cases (leb i.visible_from offset)) [
      | inl h ↦ rw h (
          find_both (table_behind table i.source) (of_imports table offset is)
            (behind look i.source) (in_imports look offset is) (behind_lem i.source)
            (imports_lem offset is))
      | inr h ↦ rw h (imports_lem offset is)
    ]

    environment_lem :
        (offset : ℕ) (e : Environment)
        → in_environment look offset e ≡ find scope name (visible table offset e)
    environment_lem offset e =
        let ds = of_dependencies table e.dependencies in
        let is = of_imports table offset e.positional_imports in
        find_both (table_behind table e.single) (ds ++ is) (behind look e.single)
          (or_else (in_dependencies look e.dependencies)
            (in_imports look offset e.positional_imports))
          (behind_lem e.single)
          (find_both ds is (in_dependencies look e.dependencies)
            (in_imports look offset e.positional_imports) (dependencies_lem e.dependencies)
            (imports_lem offset e.positional_imports))

abbrev no_entries : {V : Type 0} → Table V
no_entries = []

find-none : {V : Type 0} (scope name : Bytes) → none ≡ find scope name (no_entries {V = V})
unfolding find
find-none scope name = refl

mutual
  unfolding find_constant_recursive all_constants

  constant_found :
      (scope name : Bytes) (s : Storage)
      → find_constant_recursive scope name s ≡ find scope name (all_constants s)
  constant_found scope name (storage constants types imports initialized) =
      find_both scope name constants (imported_constants imports) (find scope name constants)
        (find_constant_imported scope name imports) refl (constant_imported scope name imports)

  constant_imported :
      (scope name : Bytes) (ss : Storages)
      → find_constant_imported scope name ss ≡ find scope name (imported_constants ss)
  constant_imported scope name no_more = find-none scope name
  constant_imported scope name (also s ss) =
      find_both scope name (all_constants s) (imported_constants ss)
        (find_constant_recursive scope name s) (find_constant_imported scope name ss)
        (constant_found scope name s) (constant_imported scope name ss)

mutual
  unfolding find_type_recursive all_types

  type_found :
      (scope name : Bytes) (s : Storage)
      → find_type_recursive scope name s ≡ find scope name (all_types s)
  type_found scope name (storage constants types imports initialized) =
      find_both scope name types (imported_types imports) (find scope name types)
        (find_type_imported scope name imports) refl (type_imported scope name imports)

  type_imported :
      (scope name : Bytes) (ss : Storages)
      → find_type_imported scope name ss ≡ find scope name (imported_types ss)
  type_imported scope name no_more = find-none scope name
  type_imported scope name (also s ss) =
      find_both scope name (all_types s) (imported_types ss) (find_type_recursive scope name s)
        (find_type_imported scope name ss) (type_found scope name s) (type_imported scope name ss)

-- A lookup of a constant and one of a type at an offset answer the first entry for the scope and the
-- name in the tables that are visible there: the single interface, the dependencies, and the
-- includes at or before the offset, in this order, each interface before those that it imports; an
-- empty name and a name without an entry are refused.
pub find_exact-visible :
    (scope name : Bytes) (offset : ℕ) (e : Environment)
    → (find_constant_exact scope name offset e ≡ (
        if is_empty name
        then (no_constant, configuration_failed)
        else answered no_constant (find scope name (visible all_constants offset e))))
      × (find_type_exact scope name offset e ≡ (
          if is_empty name
          then ([], configuration_failed)
          else answered [] (find scope name (visible all_types offset e))))
unfolding find_constant_exact find_type_exact
find_exact-visible scope name offset e = (
  ap (λ o. if is_empty name then (no_constant, configuration_failed) else answered no_constant o)
      (environment_lem scope name (find_constant_recursive scope name) all_constants
        (constant_found scope name) offset e),
  ap (λ o. if is_empty name then ([], configuration_failed) else answered [] o)
      (environment_lem scope name (find_type_recursive scope name) all_types (type_found scope name)
        offset e),
)
