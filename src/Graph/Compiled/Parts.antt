-- ===== src/Graph/Compiled/Parts.antt =====
-- What a successful import has checked.
use server_entry.Prelude.{
  ◌≡◌, refl, sym, ap, ◌∙◌, Bool, true, false, not, Option, none, some, length, arith, subst,
  if◌then◌else◌,
}
use server_entry.Strings.{Status, ok, initialization_failed, artifact_corrupt}
use server_entry.Types.{is_supported_abi_configuration}
use server_entry.Graph.{Graph}
use server_entry.Graph.Dependencies.{rebuild_dependency_index}
use server_entry.Graph.Compiled.{CompiledGraphState}
use server_entry.Graph.Compiled.Arrays.{
  convert_all, good_value, to_value, good_member, to_member, good_type, to_type, import_entities,
}
use server_entry.Graph.Compiled.Import.{
  import_compiled, import_parts, import_tables, Imported, adopt_parts, consistent, swapped_in,
  counted,
}
use server_entry.Graph.Compiled.Inversion.{and_then-some, when-some, some-inj}

abbrev pub Checked : CompiledGraphState → Imported → Type 0
Checked s p =
    (convert_all good_value to_value s.enum_values ≡ some p.enum_value_records)
    × (convert_all (good_member (length s.canonical_types)) to_member s.members
        ≡ some p.member_records)
    × (convert_all (good_type (length p.member_records) (length p.enum_value_records)) to_type
          s.types
        ≡ some p.types)
    × (import_entities p.types s.entities ≡ some p.entities)
    × (import_tables s ≡ some p.tables)
    × (consistent s p ≡ true)

pub import_parts-Checked :
    (s : CompiledGraphState) (p : Imported) → import_parts s ≡ some p → Checked s p
unfolding import_parts
import_parts-Checked s p h =
    let a = and_then-some (convert_all good_value to_value s.enum_values) _ p h in
    let b =
      and_then-some (convert_all (good_member (length s.canonical_types)) to_member s.members) _ p
        a.2 in
    let c =
      and_then-some (convert_all (good_type (length b.0) (length a.0)) to_type s.types) _ p b.2 in
    let d = and_then-some (import_entities c.0 s.entities) _ p c.2 in
    let e = and_then-some (import_tables s) _ p d.2 in
    let f = when-some _ _ p e.2 in
    subst (λ q. Checked s q) (some-inj f.1) (a.1, b.1, c.1, d.1, e.1, f.0)

-- The result of an import that succeeds, which comes from the checked parts.
abbrev pub Adopted : CompiledGraphState → Graph → Graph → Type 0
Adopted s g g' =
    (p : Imported) × Checked s p
    × (is_supported_abi_configuration s.abi ≡ true)
    × (rebuild_dependency_index true (swapped_in s p g)).1 ≡ ok
    × (g' ≡ (counted s (rebuild_dependency_index true (swapped_in s p g))).0)

counted-ok : (s : CompiledGraphState) (r : Graph × Status) → (counted s r).1 ≡ ok → r.1 ≡ ok
counted-ok s (g, ok) h = refl
counted-ok s (g, status) h = h

rebuilt-allocated :
    (allocated : Bool) (g : Graph)
    → (rebuild_dependency_index allocated g).1 ≡ ok
    → allocated ≡ true
unfolding rebuild_dependency_index
rebuilt-allocated true g h = refl
rebuilt-allocated false g h = absurd (ground arith)

adopted :
    (allocated : Bool) (s : CompiledGraphState) (g : Graph) (o : Option Imported)
    → o ≡ import_parts s
    → is_supported_abi_configuration s.abi ≡ true
    → (adopt_parts allocated s g o).1 ≡ ok
    → Adopted s g (adopt_parts allocated s g o).0
adopted allocated s g none e v h = absurd (ground arith)
adopted allocated s g (some p) e v h =
    let r = counted-ok s (rebuild_dependency_index allocated (swapped_in s p g)) h in
    let a = rebuilt-allocated allocated (swapped_in s p g) r in
    (
      p,
      import_parts-Checked s p (sym e),
      v,
      subst (λ b. (rebuild_dependency_index b (swapped_in s p g)).1 ≡ ok) a r,
      ap (λ b. (counted s (rebuild_dependency_index b (swapped_in s p g))).0) a,
    )

passed :
    (v a : Bool) (g : Graph) (r : Graph × Status)
    → (if not v then (g, artifact_corrupt) else if not a then (g, initialization_failed) else r).1
      ≡ ok
    → (v ≡ true)
      × (r ≡ (
          if not v then (g, artifact_corrupt) else if not a then (g, initialization_failed) else r))
passed true true g r h = (refl, refl)
passed true false g r h = absurd (ground arith)
passed false a g r h = absurd (ground arith)

pub import_compiled-Adopted :
    (allocated index_allocated : Bool) (s : CompiledGraphState) (g : Graph)
    → (import_compiled allocated index_allocated s g).1 ≡ ok
    → Adopted s g (import_compiled allocated index_allocated s g).0
unfolding import_compiled
import_compiled-Adopted allocated index_allocated s g h =
    let r = adopt_parts index_allocated s g (import_parts s) in
    let p = passed (is_supported_abi_configuration s.abi) allocated g r h in
    let a = adopted index_allocated s g (import_parts s) refl p.0 (ap (λ x. x.1) p.1 ∙ h) in
    subst (λ x. Adopted s g x.0) p.1 a
