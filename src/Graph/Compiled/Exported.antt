-- ===== src/Graph/Compiled/Exported.antt =====
-- An imported artifact is exported as it was, but for the slots that are not live.
use server_entry.Prelude.{
  ◌≡◌, refl, sym, ap, ◌∙◌, Bool, true, false, not, ◌&&◌, List, [], ◌∷◌, ◌++◌, Option, some, ◌==◌,
  if◌then◌else◌, map, length, arith,
}
use server_entry.Strings.{Status, ok}
use server_entry.Types.{void_type}
use server_entry.Graph.{
  Graph, EntityEntry, TypeEntry, builtin_types, builtin_prefix, type_default, entity_default,
}
use server_entry.Graph.Compiled.{
  CompiledGraphState, CompiledEntitySlot, CompiledTypeSlot, entity_live, export_entity, export_type,
  export_value, export_member, export_canonical, exported,
}
use server_entry.Graph.Compiled.Arrays.{
  convert_all, to_type, to_entity, to_value, to_member, good_value, good_member, good_type,
  import_entities, good_entity,
}
use server_entry.Graph.Compiled.Tables.{CanonicalTables, after_builtins}
use server_entry.Graph.Compiled.Import.{
  import_compiled, import_tables, no_tables, swapped_in, counted, Imported,
}
use server_entry.Graph.Compiled.Inversion.{some-inj, when-some, and_then-some, convert_all-map}
use server_entry.Graph.Compiled.TableExport.{after_builtins-export, import_rest-export}
use server_entry.Graph.Compiled.Parts.{Checked, import_compiled-Adopted}
use server_entry.Graph.Dependencies.{rebuild_dependency_index, index_types, empty_index, with_index}
use mathlib.Core.List.{map-append}

module _ {ℓ κ μ} {A : Type ℓ} {B : Type κ} {C : Type μ} (f : A → B) (g : B → C) (h : A → C) where
  map-map : ((x : A) → g (f x) ≡ h x) → (xs : List A) → map g (map f xs) ≡ map h xs
  map-map e [] = refl
  map-map e (x ∷ xs) = ap (λ y. y ∷ map g (map f xs)) (e x) ∙ ap (λ ys. h x ∷ ys) (map-map e xs)

map_same {ℓ} : {A : Type ℓ} (f : A → A) → ((x : A) → f x ≡ x) → (xs : List A) → map f xs ≡ xs
map_same f e [] = refl
map_same f e (x ∷ xs) = ap (λ y. y ∷ map f xs) (e x) ∙ ap (λ ys. x ∷ ys) (map_same f e xs)

-- A slot that is not live holds nothing.
abbrev pub normal_entity : CompiledEntitySlot → CompiledEntitySlot
normal_entity e = if entity_live e then e else export_entity entity_default

abbrev pub normal_type : CompiledTypeSlot → CompiledTypeSlot
normal_type slot = if slot.live then slot else record { live = false; entry = type_default }

abbrev pub normalized : CompiledGraphState → CompiledGraphState
normalized s = record s { entities = map normal_entity s.entities; types = map normal_type s.types }

export-to_entity : (e : CompiledEntitySlot) → export_entity (to_entity e) ≡ normal_entity e
export-to_entity e = ground arith

export-to_type : (slot : CompiledTypeSlot) → export_type (to_type slot) ≡ normal_type slot
export-to_type slot = ground arith

dead_entity :
    (e : CompiledEntitySlot)
    → entity_live e ≡ false
    → export_entity entity_default ≡ normal_entity e
dead_entity e h = ground arith

entities_back :
    (types : List (Option TypeEntry)) (es : List CompiledEntitySlot) (entities : List EntityEntry)
    → import_entities types es ≡ some entities
    → map export_entity entities ≡ map normal_entity es
entities_back types [] entities h = absurd (ground arith)
entities_back types (e ∷ es) entities h =
    let a = and_then-some (convert_all (good_entity types) to_entity es) _ entities h in
    let b = when-some (not (entity_live e) && e.handle == 0) _ entities a.2 in
    let c = convert_all-map (good_entity types) to_entity es a.0 a.1 in
    ap (map export_entity) (sym (some-inj b.1))
    ∙ ap (λ x. x ∷ map export_entity a.0) (dead_entity e (ground (arith, b.0)))
    ∙ ap (λ xs. normal_entity e ∷ map export_entity xs) c.0
    ∙ ap (λ xs. normal_entity e ∷ xs)
        (map-map to_entity export_entity normal_entity export-to_entity es)

pub tables_back :
    (s : CompiledGraphState) (t : CanonicalTables)
    → import_tables s ≡ some t
    → map export_canonical t.canonical_types ≡ s.canonical_types
tables_back s t h =
    let a = and_then-some (after_builtins (void_type ∷ builtin_types) s.canonical_types) _ t h in
    let b = import_rest-export (length s.types) 21 a.0 (no_tables (length s.types)) t a.2 in
    ap (map export_canonical) b.1
    ∙ map-append export_canonical builtin_prefix b.0
    ∙ ap (λ xs. map export_canonical builtin_prefix ++ xs) b.2
    ∙ after_builtins-export (void_type ∷ builtin_types) s.canonical_types a.0 a.1

-- The projection does not see the dependency index and the counters.
abbrev projected : CompiledGraphState → Imported → CompiledGraphState
projected s p = record {
  abi = s.abi;
  identities = s.identities;
  entities = map export_entity p.entities;
  types = map export_type p.types;
  enum_values = map export_value p.enum_value_records;
  members = map export_member p.member_records;
  canonical_types = map export_canonical p.tables.canonical_types;
}

exported-projected :
    (s : CompiledGraphState) (p : Imported) (g : Graph) (r : Graph × Status)
    → r ≡ (
      with_index
          (swapped_in s p g)
          (index_types (swapped_in s p g) 1 p.types (empty_index (swapped_in s p g))).0,
      ok,
    )
    → exported (counted s r).0 ≡ projected s p
unfolding exported
exported-projected s p g r e = rw e refl

projected-normalized :
    (s : CompiledGraphState) (p : Imported) → Checked s p → projected s p ≡ normalized s
projected-normalized s p c =
    let values = (convert_all-map good_value to_value s.enum_values p.enum_value_records c.0).0 in
    let members =
      (convert_all-map (good_member (length s.canonical_types)) to_member s.members p.member_records
        c.1).0 in
    let types =
      (convert_all-map (good_type (length p.member_records) (length p.enum_value_records)) to_type
        s.types p.types c.2).0 in
    rw
      (
        entities_back p.types s.entities p.entities c.3,
        tables_back s p.tables c.4,
        ap (map export_type) types ∙ map-map to_type export_type normal_type export-to_type s.types,
        ap (map export_value) values
            ∙ map-map to_value export_value (λ v. v) (λ v. refl) s.enum_values
            ∙ map_same (λ v. v) (λ v. refl) s.enum_values,
        ap (map export_member) members
            ∙ map-map to_member export_member (λ v. v) (λ v. refl) s.members
            ∙ map_same (λ v. v) (λ v. refl) s.members,
      )
      refl

pub rebuilt :
    (g : Graph)
    → (rebuild_dependency_index true g).1 ≡ ok
    → rebuild_dependency_index true g
      ≡ (with_index g (index_types g 1 g.types (empty_index g)).0, ok)
unfolding rebuild_dependency_index
rebuilt g h = ap (λ x. (with_index g (index_types g 1 g.types (empty_index g)).0, x)) h

-- Where an import succeeds, the graph is exported as the artifact that it was read from, but for the slots that are not live, which hold nothing then.
pub exported-import_compiled :
    (allocated index_allocated : Bool) (s : CompiledGraphState) (g : Graph)
    → (import_compiled allocated index_allocated s g).1 ≡ ok
    → exported (import_compiled allocated index_allocated s g).0 ≡ normalized s
exported-import_compiled allocated index_allocated s g h =
    let a = import_compiled-Adopted allocated index_allocated s g h in
    let r = rebuild_dependency_index true (swapped_in s a.0 g) in
    ap exported a.4
    ∙ exported-projected s a.0 g r (rebuilt (swapped_in s a.0 g) a.3)
    ∙ projected-normalized s a.0 a.1
