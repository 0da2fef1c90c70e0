-- ===== src/Graph/Compiled/Indexed.antt =====
-- An import whose parts pass the checks rebuilds the dependency index, so no import stops half way.
use server_entry.Prelude.{contains}
use server_entry.Prelude.{
  ℕ, zero, suc, ◌+◌, ◌-◌, ◌≤◌, ◌<◌, ◌≡◌, ◌≢◌, refl, ap, ◌∙◌, Bool, true, not, ◌&&◌, ◌||◌, List, [],
  ◌∷◌, ◌++◌, Option, none, some, ltb, ◌==◌, length, All, All-append, arith, Bool-cases, inl, inr,
}
use server_entry.Strings.{ok}
use server_entry.Graph.{Graph, TypeEntry, MemberRecord, CanonicalTypeRecord}
use server_entry.Graph.Lookup.{in_arena, span}
use server_entry.Graph.Dependencies.{
  named_base, base_types, add_dependency, enter, update_at, index_type, index_types, empty_index,
  DependencyIndex, has_members, empties, rebuild_dependency_index,
}
use server_entry.Graph.Compiled.Resolved.{all_grounded, named_base-HasBase}

-- A member whose type is in the table.
abbrev pub Refers : ℕ → MemberRecord → Type 0
Refers size m = (m.type_ref ≢ 0) × m.type_ref < size

added :
    (types d : ℕ) (found : List ℕ)
    → d ≤ types
    → All (λ x. x ≤ types) found
    → All (λ x. x ≤ types) (add_dependency d found)
added types d found h a = elim (Bool-cases (not (d == 0) && not (contains d found))) [
  | inl q ↦ rw q (All-append (λ x. x ≤ types) found (d ∷ []) a (h, tt))
  | inr q ↦ rw q a
]

base_types_step :
    (table : List CanonicalTypeRecord) (m : MemberRecord) (ms : List MemberRecord) (found : List ℕ)
    (d : ℕ)
    → named_base (length table) table m.type_ref ≡ some d
    → base_types table (m ∷ ms) found ≡ base_types table ms (add_dependency d found)
unfolding base_types
base_types_step table m ms found d h = rw (h, base_types) refl

base_types_end :
    (table : List CanonicalTypeRecord) (found : List ℕ) → base_types table [] found ≡ (found, true)
unfolding base_types
base_types_end table found = refl

-- Each base is found, and is the handle of a type slot.
abbrev Found : ℕ → List ℕ × Bool → Type 0
Found types r = (r.1 ≡ true) × All (λ x. x ≤ types) r.0

base_types-Found :
    (types : ℕ) (table : List CanonicalTypeRecord) (ms : List MemberRecord) (found : List ℕ)
    → all_grounded types 0 table ≡ true
    → All (Refers (length table)) ms
    → All (λ x. x ≤ types) found
    → Found types (base_types table ms found)
base_types-Found types table [] found g r a = rw (base_types_end table found) (refl, a)
base_types-Found types table (m ∷ ms) found g r a =
    let b = named_base-HasBase types (length table) m.type_ref table g r.0.0 r.0.1 r.0.1 in
    rw (base_types_step table m ms found b.0 b.1) (
      base_types-Found types table ms (add_dependency b.0 found) g r.1
        (added types b.0 found b.2 a))

length-update_at {ℓ} :
    {A : Type ℓ} (i : ℕ) (f : A → A) (xs : List A) → length (update_at i f xs) ≡ length xs
length-update_at i f [] = refl
length-update_at zero f (x ∷ xs) = refl
length-update_at (suc i) f (x ∷ xs) = ap suc (length-update_at i f xs)

-- Every type that is depended on has a list to be entered in.
abbrev Entered : ℕ → List (List ℕ) × Bool → Type 0
Entered types r = (r.1 ≡ true) × (length r.0 ≡ types + 1)

enter_step :
    (raw d : ℕ) (ds : List ℕ) (reverse : List (List ℕ))
    → ltb d (length reverse) ≡ true
    → enter raw (d ∷ ds) reverse ≡ enter raw ds (update_at d (λ users. users ++ (raw ∷ [])) reverse)
unfolding enter
enter_step raw d ds reverse h = rw h refl

enter_end : (raw : ℕ) (reverse : List (List ℕ)) → enter raw [] reverse ≡ (reverse, true)
unfolding enter
enter_end raw reverse = refl

enter-Entered :
    (types raw : ℕ) (ds : List ℕ) (reverse : List (List ℕ))
    → All (λ x. x ≤ types) ds
    → length reverse ≡ types + 1
    → Entered types (enter raw ds reverse)
enter-Entered types raw [] reverse a l = rw (enter_end raw reverse) (refl, l)
enter-Entered types raw (d ∷ ds) reverse a l =
    rw (enter_step raw d ds reverse (ground (arith, a.0, l))) (
      enter-Entered types raw ds _ a.1
        (length-update_at d (λ users. users ++ (raw ∷ [])) reverse ∙ l))

All-span {ℓ κ} :
    {A : Type ℓ} (P : A → Type κ) (xs : List A) (b c : ℕ) → All P xs → All P (span xs b c)
unfolding span
All-span P [] b c a = tt
All-span P (x ∷ xs) (suc b) c a = All-span P xs b c a.1
All-span P (x ∷ xs) zero zero a = tt
All-span P (x ∷ xs) zero (suc c) a = (a.0, All-span P xs zero c a.1)

-- The members of a type lie in the arena.
abbrev pub placed : ℕ → Option TypeEntry → Bool
placed size none = true
placed size (some t) = not (has_members (some t)) || in_arena t.definition size

abbrev Indexed : ℕ → DependencyIndex × Bool → Type 0
Indexed types r = (r.1 ≡ true) × (length r.0.dependents ≡ types + 1)

placed_in :
    (size : ℕ) (t : TypeEntry)
    → has_members (some t) ≡ true
    → placed size (some t) ≡ true
    → in_arena t.definition size ≡ true
placed_in size t h p = ground arith

index_type-Indexed :
    (g : Graph) (types raw : ℕ) (t : Option TypeEntry) (index : DependencyIndex)
    → all_grounded types 0 g.canonical_types ≡ true
    → All (Refers (length g.canonical_types)) g.member_records
    → placed (length g.member_records) t ≡ true
    → length index.dependents ≡ types + 1
    → Indexed types (index_type g raw t index)
unfolding index_type
index_type-Indexed g types raw none index c m p l = (refl, l)
index_type-Indexed g types raw (some t) index c m p l =
    let ms = span g.member_records (t.definition.begin - 1) t.definition.count in
    let f =
      base_types-Found types g.canonical_types ms [] c (All-span _ g.member_records _ _ m) tt in
    let e = enter-Entered types raw (base_types g.canonical_types ms []).0 index.dependents f.1 l in
    elim (Bool-cases (has_members (some t))) [
      | inr q ↦ rw q (refl, l)
      | inl q ↦ rw (q, placed_in (length g.member_records) t q p, f.0) (e.0, e.1)
    ]

index_types-Indexed :
    (g : Graph) (types raw : ℕ) (ts : List (Option TypeEntry)) (index : DependencyIndex)
    → all_grounded types 0 g.canonical_types ≡ true
    → All (Refers (length g.canonical_types)) g.member_records
    → All (λ t. placed (length g.member_records) t ≡ true) ts
    → length index.dependents ≡ types + 1
    → Indexed types (index_types g raw ts index)
unfolding index_types
index_types-Indexed g types raw [] index c m p l = (refl, l)
index_types-Indexed g types raw (t ∷ ts) index c m p l =
    let s = index_type-Indexed g types raw t index c m p.0 l in
    rw s.0 (index_types-Indexed g types (raw + 1) ts (index_type g raw t index).0 c m p.1 s.1)

length-empties {ℓ} : (A : Type ℓ) (n : ℕ) → length (empties {A = A} n) ≡ n
length-empties A zero = refl
length-empties A (suc n) = ap suc (length-empties A n)

pub rebuild_dependency_index-ok :
    (g : Graph)
    → all_grounded (length g.types) 0 g.canonical_types ≡ true
    → All (Refers (length g.canonical_types)) g.member_records
    → All (λ t. placed (length g.member_records) t ≡ true) g.types
    → (rebuild_dependency_index true g).1 ≡ ok
unfolding rebuild_dependency_index
rebuild_dependency_index-ok g c m p =
    let r =
      index_types-Indexed g (length g.types) 1 g.types (empty_index g) c m p (length-empties ℕ _) in
    rw r.0 refl
