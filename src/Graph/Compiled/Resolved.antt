-- ===== src/Graph/Compiled/Resolved.antt =====
-- In an imported table each derived type stands behind its child, so each reference has a base.
use server_entry.Prelude.Bits.{to_u32}
use server_entry.Prelude.{
  ℕ, zero, suc, ◌+◌, ◌≤◌, ◌<◌, ◌≡◌, ◌≢◌, refl, sym, ap, ◌∙◌, Bool, true, not, ◌&&◌, List, [], ◌∷◌,
  ◌++◌, Option, none, some, ltb, ◌==◌, length, length-append, get_or, arith, Bool-cases, inl, inr,
  subst,
}
use server_entry.Graph.{
  CanonicalTypeRecord, CanonicalTypeKind, builtin, named, derived, DerivedTypeRecord,
  canonical_default, named_record, derived_record,
}
use server_entry.Graph.Dependencies.{named_base, base_by}
use server_entry.Graph.Compiled.TableExport.{import_rest_empty, import_rest_front}
use server_entry.Graph.Compiled.{CompiledCanonicalType}
use server_entry.Graph.Compiled.Tables.{
  bad_named, with_named, bad_derived, CanonicalTables, import_entry, import_named, import_derived,
  import_rest, emplace_derived, find_derived, to_derived,
}
use server_entry.Graph.Compiled.Inversion.{and_then-some, some-inj, unless-some}

abbrev pub grounded_by : CanonicalTypeKind → ℕ → ℕ → ℕ → ℕ → Bool
grounded_by builtin types index handle child = true
grounded_by named types index handle child = not (handle == 0) && not (ltb types handle)
grounded_by derived types index handle child = not (child == 0) && ltb child index

-- The record at `index`, in a graph of `types` type slots.
abbrev pub grounded : ℕ → ℕ → CanonicalTypeRecord → Bool
grounded types index c = grounded_by c.kind types index c.named_part c.derived_part.child

abbrev pub all_grounded : ℕ → ℕ → List CanonicalTypeRecord → Bool
all_grounded types index [] = true
all_grounded types index (c ∷ cs) = grounded types index c && all_grounded types (index + 1) cs

grounded-at :
    (types index i : ℕ) (cs : List CanonicalTypeRecord)
    → all_grounded types index cs ≡ true
    → i < length cs
    → grounded types (index + i) (get_or cs i canonical_default) ≡ true
grounded-at types index i [] g h = absurd (omega arith)
grounded-at types index zero (c ∷ cs) g h = ground arith
grounded-at types index (suc i) (c ∷ cs) g h =
    ground (arith, grounded-at types (index + 1) i cs (ground arith) (omega arith))

-- A base among `types` type slots, or none for a builtin one.
abbrev pub HasBase : ℕ → Option ℕ → Type 0
HasBase types o = (d : ℕ) × (o ≡ some d) × d ≤ types

base_by-HasBase :
    (k : CanonicalTypeKind) (types index handle child : ℕ) (below : Option ℕ)
    → grounded_by k types index handle child ≡ true
    → (child ≢ 0 → child < index → HasBase types below)
    → HasBase types (base_by k handle below)
base_by-HasBase builtin types index handle child below g b = (0, refl, omega arith)
base_by-HasBase named types index handle child below g b = (handle, ground arith, ground arith)
base_by-HasBase derived types index handle child below g b = b (ground arith) (ground arith)

named_base_step :
    (fuel r : ℕ) (table : List CanonicalTypeRecord)
    → r ≢ 0
    → r < length table
    → named_base (suc fuel) table r
      ≡ base_by
          (get_or table r canonical_default).kind
          (get_or table r canonical_default).named_part
          (named_base fuel table (get_or table r canonical_default).derived_part.child)
unfolding named_base
named_base_step fuel r table z h = ground arith

-- The base of a reference, found in as many rounds as the reference counts, and more.
pub named_base-HasBase :
    (types fuel r : ℕ) (table : List CanonicalTypeRecord)
    → all_grounded types 0 table ≡ true
    → r ≢ 0
    → r < length table
    → r < fuel
    → HasBase types (named_base fuel table r)
named_base-HasBase types zero r table g z h f = absurd (omega arith)
named_base-HasBase types (suc fuel) r table g z h f =
    let c = get_or table r canonical_default in
    rw (named_base_step fuel r table z h) (
      base_by-HasBase c.kind types r c.named_part c.derived_part.child _
        (subst (λ n. grounded types n c ≡ true) (omega arith) (grounded-at types 0 r table g h))
        (λ n l.
          named_base-HasBase types fuel c.derived_part.child table g n (omega arith) (omega arith)))

all_grounded-append :
    (types index : ℕ) (cs ds : List CanonicalTypeRecord)
    → all_grounded types index cs ≡ true
    → all_grounded types (index + length cs) ds ≡ true
    → all_grounded types index (cs ++ ds) ≡ true
all_grounded-append types index [] ds g h =
    subst (λ n. all_grounded types n ds ≡ true) (omega arith) h
all_grounded-append types index (c ∷ cs) ds g h = ground (
  arith,
  all_grounded-append types (index + 1) cs ds (ground arith)
      (subst (λ n. all_grounded types n ds ≡ true) (omega arith) h),
)

-- The loop over the entries adds records that are grounded where they stand.
abbrev Grounds : ℕ → ℕ → CanonicalTables → CanonicalTables → Type 0
Grounds types index t t' =
    (r : CanonicalTypeRecord) × (t'.canonical_types ≡ t.canonical_types ++ (r ∷ []))
    × (grounded types index r ≡ true)

import_named-Grounds :
    (types index : ℕ) (c : CompiledCanonicalType) (t t' : CanonicalTables)
    → import_named types index c t ≡ some t'
    → Grounds types index t t'
unfolding import_named
import_named-Grounds types index c t t' h =
    let a = unless-some (bad_named types c t) (some (with_named (to_u32 index) c t)) t' h in
    (named_record c.argument, sym (ap (λ x. x.canonical_types) (some-inj a.1)), ground (arith, a.0))

emplaced-Grounds :
    (types index r : ℕ) (d : DerivedTypeRecord) (t t' : CanonicalTables) (o : Option ℕ)
    → not (d.child == 0) && ltb d.child index ≡ true
    → emplace_derived r d t o ≡ some t'
    → Grounds types index t t'
emplaced-Grounds types index r d t t' none g h =
    (derived_record d, sym (ap (λ x. x.canonical_types) (some-inj h)), g)
emplaced-Grounds types index r d t t' (some r') g h = absurd (ground arith)

import_derived-Grounds :
    (types index : ℕ) (c : CompiledCanonicalType) (t t' : CanonicalTables)
    → import_derived index c t ≡ some t'
    → Grounds types index t t'
unfolding import_derived
import_derived-Grounds types index c t t' h =
    let a =
      unless-some (bad_derived index c)
        (emplace_derived (to_u32 index) (to_derived c) t
          (find_derived (to_derived c) t.derived_type_index))
        t' h in
    emplaced-Grounds types index (to_u32 index) (to_derived c) t t'
      (find_derived (to_derived c) t.derived_type_index) (ground (arith, a.0)) a.1

import_entry-Grounds :
    (types index : ℕ) (c : CompiledCanonicalType) (t t' : CanonicalTables)
    → import_entry types index c t ≡ some t'
    → Grounds types index t t'
import_entry-Grounds types index c t t' h = elim (Bool-cases (c.kind == 1)) [
  | inl q ↦ import_named-Grounds types index c t t' (rw q at h)
  | inr q ↦ elim (Bool-cases (c.kind == 2)) [
    | inl r ↦ import_derived-Grounds types index c t t' (rw (q, r) at h)
    | inr r ↦ absurd (ground (arith, rw (q, r) at h))
  ]
]

pub import_rest-all_grounded :
    (types index : ℕ) (cs : List CompiledCanonicalType) (t t' : CanonicalTables)
    → import_rest types index cs t ≡ some t'
    → index ≡ length t.canonical_types
    → all_grounded types 0 t.canonical_types ≡ true
    → all_grounded types 0 t'.canonical_types ≡ true
import_rest-all_grounded types index [] t t' h e g =
    subst (λ x. all_grounded types 0 x.canonical_types ≡ true)
      (some-inj (sym (import_rest_empty types index t) ∙ h)) g
import_rest-all_grounded types index (c ∷ cs) t t' h e g =
    let a =
      and_then-some (import_entry types index c t) _ t'
        (sym (import_rest_front types index c cs t) ∙ h) in
    let n = import_entry-Grounds types index c t a.0 a.1 in
    let longer : length a.0.canonical_types ≡ length t.canonical_types + 1 =
      ap length n.1 ∙ length-append t.canonical_types (n.0 ∷ []) in
    let here : index ≡ 0 + length t.canonical_types = omega (arith, e) in
    let alone : all_grounded types index (n.0 ∷ []) ≡ true = ground (arith, n.2) in
    let last = subst (λ i. all_grounded types i (n.0 ∷ []) ≡ true) here alone in
    import_rest-all_grounded types (index + 1) cs a.0 t' a.2 (omega (arith, longer, e)) (
      subst (λ x. all_grounded types 0 x ≡ true) (sym n.1)
        (all_grounded-append types 0 t.canonical_types (n.0 ∷ []) g last))
