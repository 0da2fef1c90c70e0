-- ===== src/Graph/Dependencies.antt =====
-- project/graph/graph.cpp: rebuild_dependency_index, which fills the two lists of dependencies anew.
use server_entry.Prelude.{
  ℕ, zero, suc, ◌+◌, ◌-◌, Bool, true, false, not, ◌&&◌, ◌||◌, List, [], ◌∷◌, ◌++◌, Option, none,
  some, ltb, ◌==◌, if◌then◌else◌, length, get_or, set_at, contains,
}
use server_entry.Strings.{Status, ok, initialization_failed, artifact_corrupt}
use server_entry.Graph.{
  Graph, TypeEntry, MemberRecord, CanonicalTypeRecord, CanonicalTypeKind, builtin, named, derived,
  canonical_default, valid,
}
use server_entry.Graph.Lookup.{in_arena, span, is_aggregate}

-- What a record of a kind says of the base; `below` is what the record that it wraps says.
abbrev pub base_by : CanonicalTypeKind → ℕ → Option ℕ → Option ℕ
base_by builtin handle below = some 0
base_by named handle below = if handle == 0 then none else some handle
base_by derived handle below = below

-- named_base: the user type below the modifiers, `some 0` where a builtin type is there and `none`
-- where the function answers false. A round for each canonical type is left.
unfoldable pub named_base : ℕ → List CanonicalTypeRecord → ℕ → Option ℕ
named_base zero table current = none
named_base (suc depth) table current =
    let c = get_or table current canonical_default in
    let below = named_base depth table c.derived_part.child in
    if current == 0 || not (ltb current (length table))
    then none
    else base_by c.kind c.named_part below

abbrev pub add_dependency : ℕ → List ℕ → List ℕ
add_dependency d dependencies =
    if not (d == 0) && not (contains d dependencies) then dependencies ++ (d ∷ []) else dependencies

-- The loop over the members of a type, `none` where it returns artifact_corrupt; the list so far
-- stays in the index then.
unfoldable pub base_types : List CanonicalTypeRecord → List MemberRecord → List ℕ → List ℕ × Bool
base_types table [] found = (found, true)
base_types table (m ∷ ms) found = elim (named_base (length table) table m.type_ref) [
  | none ↦ (found, false)
  | some d ↦ base_types table ms (add_dependency d found)
]

abbrev pub update_at {ℓ} : {A : Type ℓ} → ℕ → (A → A) → List A → List A
update_at i f [] = []
update_at zero f (x ∷ xs) = f x ∷ xs
update_at (suc i) f (x ∷ xs) = x ∷ update_at i f xs

-- The loop that enters a type in the lists of the types it depends on.
unfoldable pub enter : ℕ → List ℕ → List (List ℕ) → List (List ℕ) × Bool
enter raw [] reverse = (reverse, true)
enter raw (d ∷ ds) reverse =
    let rest = enter raw ds (update_at d (λ users. users ++ (raw ∷ [])) reverse) in
    if not (ltb d (length reverse)) then (reverse, false) else rest

pub record DependencyIndex : Type 0 where
  pub dependencies : List (List ℕ)
  pub dependents : List (List ℕ)

abbrev pub has_members : Option TypeEntry → Bool
has_members none = false
has_members (some t) = is_aggregate t.kind && valid t.definition

abbrev pub entered : DependencyIndex → List (List ℕ) × Bool → DependencyIndex × Bool
entered index r = (record index { dependents = r.0 }, r.1)

-- One round of the loop over the types.
unfoldable pub index_type : Graph → ℕ → Option TypeEntry → DependencyIndex → DependencyIndex × Bool
index_type g raw none index = (index, true)
index_type g raw (some t) index =
    let begin = t.definition.begin - 1 in
    let found = base_types g.canonical_types (span g.member_records begin t.definition.count) [] in
    let index' = record index { dependencies = set_at raw found.0 index.dependencies } in
    if not (has_members (some t))
    then (index, true)
    else if not (in_arena t.definition (length g.member_records))
    then (index, false)
    else if not found.1
    then (index', false)
    else entered index' (enter raw found.0 index.dependents)

unfoldable pub index_types :
    Graph → ℕ → List (Option TypeEntry) → DependencyIndex → DependencyIndex × Bool
index_types g raw [] index = (index, true)
index_types g raw (t ∷ ts) index =
    let step = index_type g raw t index in
    let rest = index_types g (raw + 1) ts step.0 in if step.1 then rest else step

-- resize of an empty vector of vectors.
abbrev pub empties {ℓ} : {A : Type ℓ} → ℕ → List (List A)
empties zero = []
empties (suc n) = [] ∷ empties n

abbrev pub with_index : Graph → DependencyIndex → Graph
with_index g index = record g {
  type_dependencies = index.dependencies;
  reverse_type_dependents = index.dependents;
}

-- Both lists with no entry, and before the resize.
abbrev pub empty_index : Graph → DependencyIndex
empty_index g = record {
  dependencies = empties (length g.types + 1);
  dependents = empties (length g.types + 1);
}

abbrev cleared : DependencyIndex
cleared = record { dependencies = []; dependents = [] }

-- Where `allocated` is false, it is the first resize that fails.
unfoldable pub rebuild_dependency_index : Bool → Graph → Graph × Status
rebuild_dependency_index allocated g =
    let r = index_types g 1 g.types (empty_index g) in
    if not allocated
    then (with_index g cleared, initialization_failed)
    else (with_index g r.0, if r.1 then ok else artifact_corrupt)
