-- ===== src/Graph/Compiled/TableExport.antt =====
-- The canonical types of an artifact are exported as they were.
use server_entry.Prelude.Bits.{to_u32}
use server_entry.Prelude.{
  ℕ, ◌+◌, ◌≡◌, refl, sym, ap, ◌∙◌, true, List, [], ◌∷◌, ◌++◌, append_assoc, append-nil, Option,
  none, some, ◌==◌, map, arith, Bool-cases, inl, inr,
}
use server_entry.Types.{BuiltinType}
use server_entry.Graph.{
  CanonicalTypeRecord, DerivedTypeRecord, builtin_record, named_record, derived_record,
}
use server_entry.Graph.Lookup.{when, and_then}
use server_entry.Graph.Compiled.{CompiledCanonicalType, export_canonical}
use server_entry.Graph.Compiled.Tables.{
  bad_named, with_named, bad_derived, CanonicalTables, import_entry, import_named, import_derived,
  import_rest, after_builtins, emplace_derived, is_builtin_entry, find_derived, to_derived,
}
use server_entry.Graph.Compiled.Inversion.{some-inj, unless-some, when-some, and_then-some}

export_builtin_entry :
    (t : BuiltinType) (c : CompiledCanonicalType)
    → is_builtin_entry t c ≡ true
    → export_canonical (builtin_record t) ≡ c
unfolding export_canonical
export_builtin_entry t c h = ground arith

after_builtins_empty : (cs : List CompiledCanonicalType) → after_builtins [] cs ≡ some cs
unfolding after_builtins
after_builtins_empty cs = refl

after_builtins_short :
    (t : BuiltinType) (ts : List BuiltinType) (rest : List CompiledCanonicalType)
    → after_builtins (t ∷ ts) [] ≡ some rest
    → ⊥
unfolding after_builtins
after_builtins_short t ts rest h = ground arith

after_builtins_front :
    (t : BuiltinType) (ts : List BuiltinType) (c : CompiledCanonicalType)
    (cs : List CompiledCanonicalType)
    → after_builtins (t ∷ ts) (c ∷ cs) ≡ when (is_builtin_entry t c) (after_builtins ts cs)
unfolding after_builtins
after_builtins_front t ts c cs = refl

-- The front of the artifact's table is the export of the builtin records.
pub after_builtins-export :
    (ts : List BuiltinType) (cs rest : List CompiledCanonicalType)
    → after_builtins ts cs ≡ some rest
    → map export_canonical (map builtin_record ts) ++ rest ≡ cs
after_builtins-export [] cs rest h = sym (some-inj (sym (after_builtins_empty cs) ∙ h))
after_builtins-export (t ∷ ts) [] rest h = absurd (after_builtins_short t ts rest h)
after_builtins-export (t ∷ ts) (c ∷ cs) rest h =
    let a = when-some (is_builtin_entry t c) _ rest (sym (after_builtins_front t ts c cs) ∙ h) in
    ap (λ x. x ∷ map export_canonical (map builtin_record ts) ++ rest)
      (export_builtin_entry t c a.0)
    ∙ ap (λ xs. c ∷ xs) (after_builtins-export ts cs rest a.1)

-- What an entry adds to the tables.
abbrev Extends : CanonicalTables → CompiledCanonicalType → CanonicalTables → Type 0
Extends t c t' =
    (r : CanonicalTypeRecord) × (t'.canonical_types ≡ t.canonical_types ++ (r ∷ []))
    × (export_canonical r ≡ c)

import_named-Extends :
    (types index : ℕ) (c : CompiledCanonicalType) (t t' : CanonicalTables)
    → c.kind ≡ 1
    → import_named types index c t ≡ some t'
    → Extends t c t'
unfolding import_named export_canonical
import_named-Extends types index c t t' k h =
    let a = unless-some (bad_named types c t) (some (with_named (to_u32 index) c t)) t' h in
    (named_record c.argument, sym (ap (λ x. x.canonical_types) (some-inj a.1)), ground arith)

emplaced :
    (index : ℕ) (d : DerivedTypeRecord) (t t' : CanonicalTables) (o : Option ℕ)
    → emplace_derived index d t o ≡ some t'
    → t'.canonical_types ≡ t.canonical_types ++ (derived_record d ∷ [])
emplaced index d t t' none h = sym (ap (λ x. x.canonical_types) (some-inj h))
emplaced index d t t' (some r) h = absurd (ground arith)

import_derived-Extends :
    (index : ℕ) (c : CompiledCanonicalType) (t t' : CanonicalTables)
    → c.kind ≡ 2
    → import_derived index c t ≡ some t'
    → Extends t c t'
unfolding import_derived export_canonical
import_derived-Extends index c t t' k h =
    let a =
      unless-some (bad_derived index c)
        (emplace_derived (to_u32 index) (to_derived c) t
          (find_derived (to_derived c) t.derived_type_index))
        t' h in
    let b =
      emplaced (to_u32 index) (to_derived c) t t' (find_derived (to_derived c) t.derived_type_index)
        a.1 in
    (derived_record (to_derived c), b, ground arith)

import_entry-Extends :
    (types index : ℕ) (c : CompiledCanonicalType) (t t' : CanonicalTables)
    → import_entry types index c t ≡ some t'
    → Extends t c t'
import_entry-Extends types index c t t' h = elim (Bool-cases (c.kind == 1)) [
  | inl q ↦ import_named-Extends types index c t t' (ground arith) (rw q at h)
  | inr q ↦ elim (Bool-cases (c.kind == 2)) [
    | inl r ↦ import_derived-Extends index c t t' (ground arith) (rw (q, r) at h)
    | inr r ↦ absurd (ground (arith, rw (q, r) at h))
  ]
]

pub import_rest_empty :
    (types index : ℕ) (t : CanonicalTables) → import_rest types index [] t ≡ some t
unfolding import_rest
import_rest_empty types index t = refl

pub import_rest_front :
    (types index : ℕ) (c : CompiledCanonicalType) (cs : List CompiledCanonicalType)
    (t : CanonicalTables)
    → import_rest types index (c ∷ cs) t
      ≡ and_then (import_entry types index c t) (λ t'. import_rest types (index + 1) cs t')
unfolding import_rest
import_rest_front types index c cs t = refl

-- The records that the loop adds are exported as the entries they are read from.
pub import_rest-export :
    (types index : ℕ) (cs : List CompiledCanonicalType) (t t' : CanonicalTables)
    → import_rest types index cs t ≡ some t'
    → (rs : List CanonicalTypeRecord) × (t'.canonical_types ≡ t.canonical_types ++ rs)
      × (map export_canonical rs ≡ cs)
import_rest-export types index [] t t' h = (
  [],
  ap (λ x. x.canonical_types) (sym (some-inj (sym (import_rest_empty types index t) ∙ h)))
      ∙ sym (append-nil _),
  refl,
)
import_rest-export types index (c ∷ cs) t t' h =
    let a =
      and_then-some (import_entry types index c t) _ t'
        (sym (import_rest_front types index c cs t) ∙ h) in
    let e = import_entry-Extends types index c t a.0 a.1 in
    let rest = import_rest-export types (index + 1) cs a.0 t' a.2 in
    (
      e.0 ∷ rest.0,
      rest.1 ∙ ap (λ x. x ++ rest.0) e.1 ∙ append_assoc t.canonical_types (e.0 ∷ []) rest.0,
      ap (λ x. x ∷ map export_canonical rest.0) e.2 ∙ ap (λ xs. c ∷ xs) rest.2,
    )
