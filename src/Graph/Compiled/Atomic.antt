-- ===== src/Graph/Compiled/Atomic.antt =====
-- An import succeeds, or it leaves the graph as it was.
use server_entry.Prelude.{
  ℕ, suc, ◌≡◌, ◌⊎◌, refl, sym, ap, ◌∙◌, Bool, true, false, not, List, [], ◌∷◌, Option, none, some,
  if◌then◌else◌, map, length, All, arith, inl, inr, subst,
}
use server_entry.Strings.{Status, ok, artifact_corrupt, initialization_failed}
use server_entry.Types.{is_supported_abi_configuration, void_type}
use server_entry.Graph.{Graph, builtin_types}
use server_entry.Graph.Dependencies.{rebuild_dependency_index}
use server_entry.Graph.Compiled.{
  CompiledGraphState, CompiledTypeSlot, CompiledMember, export_canonical,
}
use server_entry.Graph.Compiled.Arrays.{good_member, to_member, good_type, to_type}
use server_entry.Graph.Compiled.Tables.{CanonicalTables, after_builtins}
use server_entry.Graph.Compiled.Import.{
  Imported, import_compiled, import_parts, import_tables, no_tables, adopt_parts, swapped_in,
  counted,
}
use server_entry.Graph.Compiled.Inversion.{and_then-some, convert_all-map}
use server_entry.Graph.Compiled.Parts.{Checked, import_parts-Checked}
use server_entry.Graph.Compiled.Exported.{tables_back}
use server_entry.Graph.Compiled.Resolved.{all_grounded, import_rest-all_grounded}
use server_entry.Graph.Compiled.Indexed.{Refers, placed, rebuild_dependency_index-ok}

length-map {ℓ κ} :
    {A : Type ℓ} {B : Type κ} (f : A → B) (xs : List A) → length (map f xs) ≡ length xs
length-map f [] = refl
length-map f (x ∷ xs) = ap suc (length-map f xs)

All-map {ℓ κ μ ν} :
    {A : Type ℓ} {B : Type κ} (P : A → Type μ) (Q : B → Type ν) (f : A → B)
    → ((x : A) → P x → Q (f x))
    → (xs : List A) → All P xs
    → All Q (map f xs)
All-map P Q f h [] a = tt
All-map P Q f h (x ∷ xs) a = (h x a.0, All-map P Q f h xs a.1)

tables-all_grounded :
    (s : CompiledGraphState) (t : CanonicalTables)
    → import_tables s ≡ some t
    → all_grounded (length s.types) 0 t.canonical_types ≡ true
tables-all_grounded s t h =
    let a = and_then-some (after_builtins (void_type ∷ builtin_types) s.canonical_types) _ t h in
    import_rest-all_grounded (length s.types) 21 a.0 (no_tables (length s.types)) t a.2 refl refl

member-Refers :
    (size : ℕ) (m : CompiledMember) → good_member size m ≡ true → Refers size (to_member m)
member-Refers size m h = (ground arith, ground arith)

type-placed :
    (members values : ℕ) (slot : CompiledTypeSlot)
    → good_type members values slot ≡ true
    → placed members (to_type slot) ≡ true
type-placed members values slot h = ground arith

-- Parts that pass the checks have a dependency index.
Checked-ok :
    (s : CompiledGraphState) (p : Imported) (g : Graph)
    → Checked s p
    → (rebuild_dependency_index true (swapped_in s p g)).1 ≡ ok
Checked-ok s p g c =
    let ms =
      convert_all-map (good_member (length s.canonical_types)) to_member s.members p.member_records
        c.1 in
    let ts =
      convert_all-map (good_type (length p.member_records) (length p.enum_value_records)) to_type
        s.types p.types c.2 in
    let size : length s.canonical_types ≡ length p.tables.canonical_types =
      sym (ap length (tables_back s p.tables c.4))
      ∙ length-map export_canonical p.tables.canonical_types in
    let types : length s.types ≡ length p.types =
      sym (ap length ts.0 ∙ length-map to_type s.types) in
    rebuild_dependency_index-ok (swapped_in s p g)
      (subst (λ n. all_grounded n 0 p.tables.canonical_types ≡ true) types
        (tables-all_grounded s p.tables c.4))
      (subst (λ n. All (Refers n) p.member_records) size
        (subst (All (Refers (length s.canonical_types))) (sym ms.0) (
          All-map _ (Refers (length s.canonical_types)) to_member
            (member-Refers (length s.canonical_types)) s.members ms.1)))
      (subst (All (λ t. placed (length p.member_records) t ≡ true)) (sym ts.0) (
        All-map _ (λ t. placed (length p.member_records) t ≡ true) to_type
          (type-placed (length p.member_records) (length p.enum_value_records)) s.types ts.1))

counted-status : (s : CompiledGraphState) (r : Graph × Status) → r.1 ≡ ok → (counted s r).1 ≡ ok
counted-status s (g, ok) h = refl
counted-status s (g, status) h = h

adopt_parts-atomic :
    (s : CompiledGraphState) (g : Graph) (o : Option Imported)
    → o ≡ import_parts s
    → ((adopt_parts true s g o).1 ≡ ok) ⊎ ((adopt_parts true s g o).0 ≡ g)
adopt_parts-atomic s g none e = inr refl
adopt_parts-atomic s g (some p) e = inl (
    counted-status s (rebuild_dependency_index true (swapped_in s p g))
      (Checked-ok s p g (import_parts-Checked s p (sym e))))

first_guards :
    (v a : Bool) (g : Graph) (r : Graph × Status)
    → (r.1 ≡ ok) ⊎ (r.0 ≡ g)
    → ((if not v then (g, artifact_corrupt) else if not a then (g, initialization_failed) else r).1
        ≡ ok)
      ⊎ ((if not v
            then (g, artifact_corrupt)
            else if not a
            then (g, initialization_failed)
            else r).0
          ≡ g)
first_guards true true g r h = h
first_guards true false g r h = inr refl
first_guards false a g r h = inr refl

-- As long as the memory of the dependency index is there, an import succeeds or leaves the graph as it was: the parts that pass the checks always have a dependency index.
pub import_compiled-atomic :
    (allocated : Bool) (s : CompiledGraphState) (g : Graph)
    → ((import_compiled allocated true s g).1 ≡ ok) ⊎ ((import_compiled allocated true s g).0 ≡ g)
unfolding import_compiled
import_compiled-atomic allocated s g =
    first_guards (is_supported_abi_configuration s.abi) allocated g
      (adopt_parts true s g (import_parts s)) (adopt_parts-atomic s g (import_parts s) refl)
