-- ===== src/Graph/Compiled/Canonical.antt =====
-- The table of an imported graph is canonical.
use server_entry.Prelude.Bits.{to_u32}
use server_entry.Prelude.{◌≤◌, set_at, set_here, set_elsewhere, length-set_at}
use server_entry.Prelude.{
  ℕ, zero, suc, ◌+◌, ◌<◌, ◌≡◌, refl, sym, ap, ◌∙◌, Bool, true, false, ◌&&◌, List, [], ◌∷◌, ◌++◌,
  append-nil, Option, none, some, ◌==◌, if◌then◌else◌, length, length-append, get_elem?, get_or,
  arith, Bool-cases, inl, inr, subst,
}
use server_entry.Strings.{Status, ok}
use server_entry.Types.{BuiltinType, void_type}
use server_entry.Graph.{
  Graph, CanonicalTypeRecord, DerivedTypeRecord, DerivedIndex, named_record, derived_record,
  builtin_prefix, builtin_types,
}
use server_entry.Graph.Dependencies.{with_index, index_types, empty_index, rebuild_dependency_index}
use server_entry.Graph.Compiled.Parts.{import_compiled-Adopted}
use server_entry.Graph.Compiled.Exported.{rebuilt}
use server_entry.Graph.Unique.{
  get_elem?-end, get_elem?-kept, Unique, Unique-derived, Unique-named, key_eq_sound, key_eq_refl,
}
use server_entry.Graph.Interning.{no_types_added, known_derived, known_named, or_else}
use server_entry.Graph.Interning.Table.{IsCanonical}
use server_entry.Graph.Compiled.{CompiledGraphState, CompiledCanonicalType, kind_code}
use server_entry.Graph.Compiled.Arrays.{zeros}
use server_entry.Graph.Compiled.Tables.{
  CanonicalTables, find_derived, key_eq, bad_named, with_named, bad_derived, import_entry,
  import_named, import_derived, import_rest, emplace_derived, to_derived, after_builtins,
  is_builtin_entry,
}
use server_entry.Graph.Compiled.Import.{Imported, swapped_in, counted, import_compiled, no_tables}
use server_entry.Graph.Compiled.Inversion.{and_then-some, some-inj, unless-some}
use server_entry.Graph.Compiled.TableExport.{import_rest_empty, import_rest_front}

abbrev named_ref : List ℕ → ℕ → Option ℕ
named_ref refs handle = let r = get_or refs handle 0 in if r == 0 then none else some r

abbrev SoundTables : CanonicalTables → Type 0
SoundTables t =
    ((k : DerivedTypeRecord) (r : ℕ)
      → find_derived k t.derived_type_index ≡ some r
      → get_elem? t.canonical_types r ≡ some (derived_record k))
    × ((h : ℕ) (r : ℕ)
        → named_ref t.named_type_refs h ≡ some r
        → get_elem? t.canonical_types r ≡ some (named_record h))

abbrev by_key : CanonicalTables → DerivedTypeRecord → Option ℕ
by_key t k = find_derived k t.derived_type_index

-- The tables before the entry at `index`, in an artifact with `types` type slots.
abbrev Tables : ℕ → ℕ → CanonicalTables → Type 0
Tables types index t =
    Unique t.canonical_types (by_key t) (named_ref t.named_type_refs)
    × SoundTables t
    × (length t.named_type_refs ≡ types + 1)
    × (length t.canonical_types ≡ index)
    × 0 < index

find_derived-new :
    (key : DerivedTypeRecord) (r : ℕ) (index : DerivedIndex)
    → find_derived key ((key, r) ∷ index) ≡ some r
unfolding find_derived
find_derived-new key r index = rw (key_eq_refl key) refl

find_derived-old :
    (key k : DerivedTypeRecord) (r : ℕ) (index : DerivedIndex)
    → key_eq key k ≡ false
    → find_derived k ((key, r) ∷ index) ≡ find_derived k index
unfolding find_derived
find_derived-old key k r index h = rw h refl

named_ref-new :
    (refs : List ℕ) (h r : ℕ) → h < length refs → 0 < r → named_ref (set_at h r refs) h ≡ some r
named_ref-new refs h r l p = rw (set_here 0 r h refs l) (ground arith)

named_ref-old :
    (refs : List ℕ) (h j r : ℕ)
    → (h == j) ≡ false
    → named_ref (set_at h r refs) j ≡ named_ref refs j
named_ref-old refs h j r e = rw (set_elsewhere 0 r h j refs e) refl

grown :
    (types index : ℕ) (cs : List CanonicalTypeRecord) (x : CanonicalTypeRecord)
    → length cs ≡ index
    → length (cs ++ (x ∷ [])) ≡ index + 1
grown types index cs x h = length-append cs (x ∷ []) ∙ ap (λ n. n + 1) h

with_named-Tables :
    (types index : ℕ) (c : CompiledCanonicalType) (t : CanonicalTables)
    → Tables types index t
    → bad_named types c t ≡ false
    → Tables types (index + 1) (with_named index c t)
with_named-Tables types index c t p b =
    let refs = t.named_type_refs in
    let inside : c.argument < length refs = ground (arith, p.2) in
    let new : named_ref (set_at c.argument index refs) c.argument ≡ some index =
      named_ref-new refs c.argument index inside p.4 in
    let fresh : named_ref refs c.argument ≡ none = ground (arith, b) in
    (
      Unique-named t.canonical_types (by_key t) (by_key t) (named_ref refs)
          (named_ref (set_at c.argument index refs)) c.argument p.0 fresh (new ∙ ap some (sym p.3))
          (λ j e. named_ref-old refs c.argument j index e),
      (
        λ k r h. get_elem?-kept t.canonical_types _ r (derived_record k) (p.1.0 k r h),
        λ j r h. elim (Bool-cases (c.argument == j)) [
          | inl e ↦
              let same : c.argument ≡ j = ground arith in
              let at : index ≡ r =
                some-inj (sym new ∙ ap (named_ref (set_at c.argument index refs)) same ∙ h) in
              ap (get_elem? (t.canonical_types ++ (named_record c.argument ∷ [])))
                (sym at ∙ sym p.3)
              ∙ get_elem?-end t.canonical_types (named_record c.argument)
              ∙ ap (λ x. some (named_record x)) same
          | inr e ↦
              get_elem?-kept t.canonical_types _ r (named_record j)
                (p.1.1 j r (sym (named_ref-old refs c.argument j index e) ∙ h))
        ],
      ),
      length-set_at 0 index c.argument refs ∙ p.2,
      grown types index t.canonical_types (named_record c.argument) p.3,
      omega arith,
    )

emplaced-Tables :
    (types index : ℕ) (d : DerivedTypeRecord) (t t' : CanonicalTables) (o : Option ℕ)
    → o ≡ find_derived d t.derived_type_index
    → Tables types index t
    → emplace_derived index d t o ≡ some t'
    → Tables types (index + 1) t'
emplaced-Tables types index d t t' (some r) e p h = absurd (ground arith)
emplaced-Tables types index d t t' none e p h =
    let index' = (d, index) ∷ t.derived_type_index in
    let new = find_derived-new d index t.derived_type_index in
    subst (Tables types (index + 1)) (some-inj h) (
      Unique-derived t.canonical_types (by_key t) (λ k. find_derived k index')
          (named_ref t.named_type_refs) (named_ref t.named_type_refs) d p.0 (sym e)
          (new ∙ ap some (sym p.3)) (λ k f. find_derived-old d k index t.derived_type_index f),
      (
        λ k r q. elim (Bool-cases (key_eq d k)) [
          | inl f ↦
              let same = key_eq_sound d k f in
              let at : index ≡ r = some-inj (sym new ∙ ap (λ x. find_derived x index') same ∙ q) in
              ap (get_elem? (t.canonical_types ++ (derived_record d ∷ []))) (sym at ∙ sym p.3)
              ∙ get_elem?-end t.canonical_types (derived_record d)
              ∙ ap (λ x. some (derived_record x)) same
          | inr f ↦
              get_elem?-kept t.canonical_types _ r (derived_record k)
                (p.1.0 k r (sym (find_derived-old d k index t.derived_type_index f) ∙ q))
        ],
        λ j r q. get_elem?-kept t.canonical_types _ r (named_record j) (p.1.1 j r q),
      ),
      p.2,
      grown types index t.canonical_types (derived_record d) p.3,
      omega arith,
    )

cast_lem : (index : ℕ) → index < 0x100000000 → index ≡ to_u32 index
cast_lem index b = omega (arith, b)

import_named-Tables :
    (types index : ℕ) (c : CompiledCanonicalType) (t t' : CanonicalTables)
    → index < 0x100000000
    → Tables types index t
    → import_named types index c t ≡ some t'
    → Tables types (index + 1) t'
unfolding import_named
import_named-Tables types index c t t' b p h =
    let a = unless-some (bad_named types c t) (some (with_named (to_u32 index) c t)) t' h in
    subst (Tables types (index + 1)) (ap (λ r. with_named r c t) (cast_lem index b) ∙ some-inj a.1)
      (with_named-Tables types index c t p a.0)

import_derived-Tables :
    (types index : ℕ) (c : CompiledCanonicalType) (t t' : CanonicalTables)
    → index < 0x100000000
    → Tables types index t
    → import_derived index c t ≡ some t'
    → Tables types (index + 1) t'
unfolding import_derived
import_derived-Tables types index c t t' b p h =
    let o = find_derived (to_derived c) t.derived_type_index in
    let a =
      unless-some (bad_derived index c) (emplace_derived (to_u32 index) (to_derived c) t o) t' h in
    emplaced-Tables types index (to_derived c) t t' o refl p
      (ap (λ r. emplace_derived r (to_derived c) t o) (cast_lem index b) ∙ a.1)

import_entry-Tables :
    (types index : ℕ) (c : CompiledCanonicalType) (t t' : CanonicalTables)
    → index < 0x100000000
    → Tables types index t
    → import_entry types index c t ≡ some t'
    → Tables types (index + 1) t'
import_entry-Tables types index c t t' b p h = elim (Bool-cases (c.kind == 1)) [
  | inl q ↦ import_named-Tables types index c t t' b p (rw q at h)
  | inr q ↦ elim (Bool-cases (c.kind == 2)) [
    | inl r ↦ import_derived-Tables types index c t t' b p (rw (q, r) at h)
    | inr r ↦ absurd (ground (arith, rw (q, r) at h))
  ]
]

import_rest-Tables :
    (types index : ℕ) (cs : List CompiledCanonicalType) (t t' : CanonicalTables)
    → index + length cs ≤ 0x100000000
    → Tables types index t
    → import_rest types index cs t ≡ some t'
    → (n : ℕ) × Tables types n t'
import_rest-Tables types index [] t t' b p h =
    (index, subst (Tables types index) (some-inj (sym (import_rest_empty types index t) ∙ h)) p)
import_rest-Tables types index (c ∷ cs) t t' b p h =
    let a =
      and_then-some (import_entry types index c t) _ t'
        (sym (import_rest_front types index c cs t) ∙ h) in
    import_rest-Tables types (index + 1) cs a.0 t' (omega (arith, b))
      (import_entry-Tables types index c t a.0 (omega (arith, b)) p a.1) a.2

after_builtins_size :
    (ts : List BuiltinType) (cs rest : List CompiledCanonicalType)
    → after_builtins ts cs ≡ some rest
    → length cs ≡ length ts + length rest
unfolding after_builtins
after_builtins_size [] cs rest h =
    let same : length cs ≡ length rest = ap length (some-inj h) in omega (arith, same)
after_builtins_size (t ∷ ts) [] rest h = absurd (ground arith)
after_builtins_size (t ∷ ts) (c ∷ cs) rest h = elim (Bool-cases (is_builtin_entry t c)) [
  | inl b ↦ let size = after_builtins_size ts cs rest (rw b at h) in omega (arith, size)
  | inr b ↦ absurd (ground (arith, rw b at h))
]

-- No named and no derived type stands among the builtin ones.
abbrev all_builtin : List CanonicalTypeRecord → Bool
all_builtin [] = true
all_builtin (c ∷ cs) = (kind_code c.kind == 0) && all_builtin cs

builtin-at :
    (cs : List CanonicalTypeRecord) (i : ℕ) (c : CanonicalTypeRecord)
    → all_builtin cs ≡ true
    → get_elem? cs i ≡ some c
    → kind_code c.kind ≡ 0
builtin-at [] i c b h = absurd (ground arith)
builtin-at (x ∷ cs) zero c b h = ap (λ y. kind_code y.kind) (sym (some-inj h)) ∙ ground arith
builtin-at (x ∷ cs) (suc i) c b h = builtin-at cs i c (ground arith) h

zeros-get : (n h : ℕ) → get_or (zeros n) h 0 ≡ 0
zeros-get zero h = refl
zeros-get (suc n) zero = refl
zeros-get (suc n) (suc h) = zeros-get n h

length-zeros : (n : ℕ) → length (zeros n) ≡ n
length-zeros zero = refl
length-zeros (suc n) = ap suc (length-zeros n)

no_tables-Tables : (types : ℕ) → Tables types 21 (no_tables types)
unfolding find_derived
no_tables-Tables types = (
  (
    λ i k q. absurd (ground (arith, builtin-at builtin_prefix i (derived_record k) refl q)),
    λ i h q. absurd (ground (arith, builtin-at builtin_prefix i (named_record h) refl q)),
  ),
  (λ k r h. absurd (ground arith), λ j r h. absurd (ground (arith, zeros-get (types + 1) j))),
  length-zeros (types + 1),
  refl,
  omega arith,
)

or_else-none : (o : Option ℕ) → or_else o none ≡ o
or_else-none none = refl
or_else-none (some x) = refl

known_derived-owned :
    (g : Graph) (k : DerivedTypeRecord)
    → known_derived g (no_types_added false) k ≡ find_derived k g.derived_type_index
unfolding known_derived find_derived
known_derived-owned g k = refl

known_named-owned :
    (g : Graph) (h : ℕ) → known_named g (no_types_added false) h ≡ named_ref g.named_type_refs h
unfolding known_named
known_named-owned g h = or_else-none (named_ref g.named_type_refs h)

tables_of : Graph → CanonicalTables
tables_of g = record {
  canonical_types = g.canonical_types;
  named_type_refs = g.named_type_refs;
  derived_type_index = g.derived_type_index;
}

-- What a graph's own lookups find is what an update of it without additions knows.
Tables-IsCanonical :
    (g : Graph) (types n : ℕ) → Tables types n (tables_of g) → IsCanonical g (no_types_added false)
unfolding tables_of
Tables-IsCanonical g types n p =
    let whole = append-nil g.canonical_types in
    (
      (
        λ i k q. known_derived-owned g k ∙ p.0.0 i k (sym (ap (λ t. get_elem? t i) whole) ∙ q),
        λ i h q. known_named-owned g h ∙ p.0.1 i h (sym (ap (λ t. get_elem? t i) whole) ∙ q),
      ),
      (
        λ k r q. ap (λ t. get_elem? t r) whole ∙ p.1.0 k r (sym (known_derived-owned g k) ∙ q),
        λ h r q. ap (λ t. get_elem? t r) whole ∙ p.1.1 h r (sym (known_named-owned g h) ∙ q),
      ),
    )

imported-tables :
    (s : CompiledGraphState) (p : Imported) (g : Graph) (r : Graph × Status)
    → r ≡ (
      with_index
          (swapped_in s p g)
          (index_types (swapped_in s p g) 1 p.types (empty_index (swapped_in s p g))).0,
      ok,
    )
    → tables_of (counted s r).0 ≡ p.tables
unfolding tables_of
imported-tables s p g r e = rw e refl

-- Where an artifact has no more canonical types than there are 32-bit references, the canonical types
-- of the graph imported from it are canonical: each named and each derived type stands once in the
-- table, and an update of the graph finds it there.
pub import_compiled-IsCanonical :
    (allocated index_allocated : Bool) (s : CompiledGraphState) (g : Graph)
    → length s.canonical_types ≤ 0x100000000
    → (import_compiled allocated index_allocated s g).1 ≡ ok
    → IsCanonical (import_compiled allocated index_allocated s g).0 (no_types_added false)
import_compiled-IsCanonical allocated index_allocated s g b h =
    let a = import_compiled-Adopted allocated index_allocated s g h in
    let p = a.0 in
    let types = length s.types in
    let e =
      and_then-some (after_builtins (void_type ∷ builtin_types) s.canonical_types) _ p.tables
        a.1.4 in
    let size = after_builtins_size (void_type ∷ builtin_types) s.canonical_types e.0 e.1 in
    let t =
      import_rest-Tables types 21 e.0 (no_tables types) p.tables (omega (arith, size, b))
        (no_tables-Tables types) e.2 in
    let r = rebuild_dependency_index true (swapped_in s p g) in
    let same = ap tables_of a.4 ∙ imported-tables s p g r (rebuilt (swapped_in s p g) a.3) in
    Tables-IsCanonical (import_compiled allocated index_allocated s g).0 types t.0
      (subst (Tables types t.0) (sym same) t.1)
