-- ===== src/Environment/Examples.antt =====
-- The theorem on lookups at two includes, one of which is not visible yet.
use server_entry.Prelude.{◌≡◌, refl, [], ◌∷◌, none, some, true, if◌then◌else◌}
use server_entry.Strings.{Bytes, ok, configuration_failed}
use server_entry.Types.{integer}
use server_entry.Environment.{
  Storage, storage, no_more, also, Environment, find, answered, no_constant, is_empty,
  find_constant_exact, find_type_exact, find_constant_recursive, in_dependencies, in_imports,
}
use server_entry.Environment.Visible.{visible, all_constants, all_types, find_exact-visible}

abbrev limit : Bytes
limit = b'M' ∷ []

abbrev base : Storage
base = storage ((([], limit), record { kind = integer; bits = 5 }) ∷ []) [] no_more true

abbrev outer : Storage
outer = storage [] [] (also base no_more) true

abbrev shadow : Storage
shadow = storage ((([], limit), record { kind = integer; bits = 9 }) ∷ []) [] no_more true

abbrev environment : Environment
environment = record {
  single = none;
  dependencies = none ∷ [];
  positional_imports =
      record { visible_from = 90; source = some shadow }
      ∷ record { visible_from = 10; source = some outer }
      ∷ [];
}

found : find_constant_exact [] limit 50 environment ≡ (record { kind = integer; bits = 5 }, ok)
unfolding find_constant_exact find find_constant_recursive in_dependencies in_imports
found = refl

find_exact-visible_example :
    (find_constant_exact [] limit 50 environment ≡ (
      if is_empty limit
      then (no_constant, configuration_failed)
      else answered no_constant (find [] limit (visible all_constants 50 environment))))
    × (find_type_exact [] limit 50 environment ≡ (
        if is_empty limit
        then ([], configuration_failed)
        else answered [] (find [] limit (visible all_types 50 environment))))
find_exact-visible_example = find_exact-visible [] limit 50 environment
