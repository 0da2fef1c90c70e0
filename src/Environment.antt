-- ===== src/Environment.antt =====
-- project/parser/source_environment.hpp and .cpp: the names that a source sees through its includes.
-- A view of a spelling is its bytes, and a pointer to a storage is the storage or `none`.
pub mod Visible
mod Examples
use server_entry.Prelude.{
  ℕ, Bool, true, false, not, ◌&&◌, ◌||◌, List, [], ◌∷◌, Option, none, some, if◌then◌else◌, ◌==◌,
  leb, bytes_eq,
}
use server_entry.Strings.{Status, ok, configuration_failed, initialization_failed, Bytes}
use server_entry.Types.{BuiltinType, integer, code, is_integral}
use server_entry.Types.Integral.{IntegralConstant}

pub record ConstantBinding : Type 0 where
  pub scope_name : Bytes
  pub name : Bytes
  pub value : IntegralConstant

pub record TypeBinding : Type 0 where
  pub scope_name : Bytes
  pub name : Bytes
  pub canonical_name : Bytes

-- An unordered map from a scope and a name.
abbrev pub Table : Type 0 → Type 0
Table V = List ((Bytes × Bytes) × V)

unfoldable pub find : {V : Type 0} → Bytes → Bytes → Table V → Option V
find scope name [] = none
find scope name ((key, value) ∷ table) =
    let rest = find scope name table in
    if bytes_eq key.0 scope && bytes_eq key.1 name then some value else rest

-- source_environment_storage, with its tables, its imports and `initialized`.
mutual
  pub data Storage : Type 0 where
    storage : Table IntegralConstant → Table Bytes → Storages → Bool → Storage

  pub data Storages : Type 0 where
    no_more : Storages
    also : Storage → Storages → Storages

abbrev pub is_initialized : Storage → Bool
is_initialized (storage constants types imports initialized) = initialized

-- A storage that reset_candidate leaves, or the default constructor.
abbrev pub empty_storage : Storage
empty_storage = storage [] [] no_more false

-- The loop over `imported`, `none` where it rejects.
unfoldable pub add_imports : List (Option Storage) → Option Storages
add_imports [] = some no_more
add_imports (none ∷ items) = none
add_imports (some item ∷ items) =
    let rest : Option Storages = elim (add_imports items) [
      | none ↦ none
      | some imports ↦ some (also item imports)
    ] in
    if not (is_initialized item) then none else rest

abbrev pub is_empty : Bytes → Bool
is_empty [] = true
is_empty (x ∷ xs) = false

abbrev pub same_constant : IntegralConstant → IntegralConstant → Bool
same_constant a b = code a.kind == code b.kind && a.bits == b.bits

-- One round of the loop over the constants, and the loop.
abbrev pub add_constant : ConstantBinding → Table IntegralConstant → Option (Table IntegralConstant)
add_constant b table =
    if is_empty b.name || not (is_integral b.value.kind)
    then none
    else elim (find b.scope_name b.name table) [
      | some old ↦ if not (same_constant old b.value) then none else some table
      | none ↦ some (((b.scope_name, b.name), b.value) ∷ table)
    ]

unfoldable pub add_constants :
    List ConstantBinding → Table IntegralConstant → Option (Table IntegralConstant)
add_constants [] table = some table
add_constants (b ∷ bindings) table = elim (add_constant b table) [
  | none ↦ none
  | some table' ↦ add_constants bindings table'
]

abbrev pub add_type : TypeBinding → Table Bytes → Option (Table Bytes)
add_type b table =
    if is_empty b.name || is_empty b.canonical_name
    then none
    else elim (find b.scope_name b.name table) [
      | some old ↦ if not (bytes_eq old b.canonical_name) then none else some table
      | none ↦ some (((b.scope_name, b.name), b.canonical_name) ∷ table)
    ]

unfoldable pub add_types : List TypeBinding → Table Bytes → Option (Table Bytes)
add_types [] table = some table
add_types (b ∷ bindings) table = elim (add_type b table) [
  | none ↦ none
  | some table' ↦ add_types bindings table'
]

abbrev pub initialize_with :
    Option Storages → Option (Table IntegralConstant) → Option (Table Bytes) → Storage × Status
initialize_with (some imports) (some constants) (some types) =
    (storage constants types imports true, ok)
initialize_with (some imports) (some constants) none = (empty_storage, configuration_failed)
initialize_with (some imports) none types = (empty_storage, configuration_failed)
initialize_with none constants types = (empty_storage, configuration_failed)

-- Where `allocated` is false, the memory or the size of the arena does not suffice.
unfoldable pub initialize :
    Bool
    → List ConstantBinding
    → List TypeBinding
    → List (Option Storage)
    → Storage
    → Storage × Status
initialize allocated constants types imported s =
    if is_initialized s
    then (s, configuration_failed)
    else if not allocated
    then (empty_storage, initialization_failed)
    else initialize_with (add_imports imported) (add_constants constants []) (add_types types [])

abbrev pub or_else : {V : Type 0} → Option V → Option V → Option V
or_else (some v) o = some v
or_else none o = o

-- find_constant_recursive, with the loop over the imports; the `output` that is set is the result.
mutual
  pub find_constant_recursive : Bytes → Bytes → Storage → Option IntegralConstant
  find_constant_recursive scope name (storage constants types imports initialized) =
      or_else (find scope name constants) (find_constant_imported scope name imports)

  pub find_constant_imported : Bytes → Bytes → Storages → Option IntegralConstant
  find_constant_imported scope name no_more = none
  find_constant_imported scope name (also s imports) =
      or_else (find_constant_recursive scope name s) (find_constant_imported scope name imports)

mutual
  pub find_type_recursive : Bytes → Bytes → Storage → Option Bytes
  find_type_recursive scope name (storage constants types imports initialized) =
      or_else (find scope name types) (find_type_imported scope name imports)

  pub find_type_imported : Bytes → Bytes → Storages → Option Bytes
  find_type_imported scope name no_more = none
  find_type_imported scope name (also s imports) =
      or_else (find_type_recursive scope name s) (find_type_imported scope name imports)

pub record EnvironmentImport : Type 0 where
  pub visible_from : ℕ
  pub source : Option Storage

pub record Environment : Type 0 where
  pub single : Option Storage
  pub dependencies : List (Option Storage)
  pub positional_imports : List EnvironmentImport

-- What a lookup finds behind a pointer.
abbrev pub behind : {V : Type 0} → (Storage → Option V) → Option Storage → Option V
behind look none = none
behind look (some s) = look s

-- The loops over the dependencies and over the imports that are visible at an offset.
unfoldable pub in_dependencies :
    {V : Type 0} → (Storage → Option V) → List (Option Storage) → Option V
in_dependencies look [] = none
in_dependencies look (d ∷ dependencies) =
    or_else (behind look d) (in_dependencies look dependencies)

unfoldable pub in_imports :
    {V : Type 0} → (Storage → Option V) → ℕ → List EnvironmentImport → Option V
in_imports look offset [] = none
in_imports look offset (i ∷ imports) =
    let rest = in_imports look offset imports in
    if leb i.visible_from offset then or_else (behind look i.source) rest else rest

-- The three places of a lookup, in their order.
abbrev pub in_environment : {V : Type 0} → (Storage → Option V) → ℕ → Environment → Option V
in_environment look offset e =
    or_else (behind look e.single)
      (or_else (in_dependencies look e.dependencies) (in_imports look offset e.positional_imports))

abbrev pub answered : {V : Type 0} → V → Option V → V × Status
answered d (some v) = (v, ok)
answered d none = (d, configuration_failed)

-- `output = {}`
abbrev pub no_constant : IntegralConstant
no_constant = record { kind = integer; bits = 0 }

unfoldable pub find_constant_exact : Bytes → Bytes → ℕ → Environment → IntegralConstant × Status
find_constant_exact scope name offset e =
    if is_empty name
    then (no_constant, configuration_failed)
    else answered no_constant (in_environment (find_constant_recursive scope name) offset e)

unfoldable pub find_type_exact : Bytes → Bytes → ℕ → Environment → Bytes × Status
find_type_exact scope name offset e =
    if is_empty name
    then ([], configuration_failed)
    else answered [] (in_environment (find_type_recursive scope name) offset e)
