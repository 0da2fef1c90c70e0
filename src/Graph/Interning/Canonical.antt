-- ===== src/Graph/Interning/Canonical.antt =====
-- get_or_create_derived and get_or_create_named_type_ref of project/graph/graph.cpp: the canonical types
-- of a graph and its update stay unique, and a reference means what it is asked for.
use server_entry.Prelude.{◌<◌}
use server_entry.Prelude.{if◌then◌else◌}
use server_entry.Prelude.{
  ℕ, ◌≡◌, ◌≢◌, ◌⊎◌, refl, ap, ◌∙◌, Bool, true, false, not, ◌||◌, [], ◌∷◌, ◌++◌, Option, none, some,
  ltb, ◌==◌, get_elem?, arith, Bool-cases, inl, inr,
}
use server_entry.Strings.{Status, ok, configuration_failed, initialization_failed}
use server_entry.Graph.{Graph, CanonicalTypeRecord, DerivedTypeRecord, named_record, derived_record}
use server_entry.Graph.Compiled.Tables.{good_payload}
use server_entry.Graph.Interning.{
  TypeUpdate, Created, known_named, known_derived, next_ref, Memory, failed, made, attempt,
  with_record, with_reference, with_named, with_derived, create_named, create_derived,
  get_or_create, get_or_create_named_type_ref, get_or_create_derived,
}
use server_entry.Graph.Interning.Table.{
  table_of, IsCanonical, longer_keeps, longer_ends, derived-IsCanonical, named-IsCanonical,
  failing-IsCanonical,
}

-- Why a call refuses: its argument names no type, there is no 32-bit reference left, or the record
-- finds no memory.
abbrev pub Refused : Bool → Memory → Graph → TypeUpdate → Type 0
Refused invalid memory owner u =
    (invalid ≡ true) ⊎ (0xffffffff < next_ref owner u) ⊎ (memory.record_pushed ≡ false)

-- What a call leaves. What stood in the table stays there. Where the call succeeds, the table is
-- canonical, and the reference stands for the record that was asked for. Where it fails, there is a
-- reason to refuse, no type is added and the table is canonical; or an insertion has failed behind
-- the record, which stays in the table without an entry in an index, and the update has failed.
abbrev pub Interned : Graph → TypeUpdate → CanonicalTypeRecord → Type 0 → Type 0 → Created → Type 0
Interned owner u x refused stopped c =
    ((i : ℕ) (y : CanonicalTypeRecord)
      → get_elem? (table_of owner u) i ≡ some y
      → get_elem? (table_of owner c.update) i ≡ some y)
    × (((c.status ≡ ok)
          × IsCanonical owner c.update
          × (get_elem? (table_of owner c.update) c.output ≡ some x))
        ⊎ ((c.status ≢ ok)
            × IsCanonical owner c.update
            × (c.update.added_canonical_types ≡ u.added_canonical_types)
            × refused)
        ⊎ ((c.status ≢ ok)
            × (c.update.failure ≡ c.status)
            × (c.update.added_canonical_types ≡ u.added_canonical_types ++ (x ∷ []))
            × (c.update.added_named_type_index ≡ u.added_named_type_index)
            × (c.update.added_derived_type_index ≡ u.added_derived_type_index)
            × stopped))

module _ (owner : Graph) (u : TypeUpdate) (x : CanonicalTypeRecord) (refused stopped : Type 0) where
  failed-Interned :
      (r : ℕ) (s : Status)
      → IsCanonical owner u
      → s ≢ ok
      → refused
      → Interned owner u x refused stopped (failed r u s)
  failed-Interned r s c n why =
      (λ i y h. h, inr (inl (n, failing-IsCanonical owner u s c, refl, why)))

  -- An update that has added the record and nothing else, or the record and more of it.
  kept :
      (u' : TypeUpdate)
      → u'.added_canonical_types ≡ u.added_canonical_types ++ (x ∷ [])
      → (i : ℕ) (y : CanonicalTypeRecord) → get_elem? (table_of owner u) i ≡ some y
      → get_elem? (table_of owner u') i ≡ some y
  kept u' e i y h =
      ap (λ t. get_elem? (owner.canonical_types ++ t) i) e ∙ longer_keeps owner u x i y h

  halfway-Interned :
      (r : ℕ) (u' : TypeUpdate)
      → u'.added_canonical_types ≡ u.added_canonical_types ++ (x ∷ [])
      → u'.added_named_type_index ≡ u.added_named_type_index
      → u'.added_derived_type_index ≡ u.added_derived_type_index
      → stopped
      → Interned owner u x refused stopped (failed r u' initialization_failed)
  halfway-Interned r u' e n d why = (kept u' e, inr (inr ((λ q. ground arith), refl, e, n, d, why)))

  made-Interned :
      (u' : TypeUpdate)
      → u'.added_canonical_types ≡ u.added_canonical_types ++ (x ∷ [])
      → IsCanonical owner u'
      → Interned owner u x refused stopped (made (next_ref owner u) u')
  made-Interned u' e c = (
    kept u' e,
    inl (
      refl,
      c,
      ap (λ t. get_elem? (owner.canonical_types ++ t) (next_ref owner u)) e ∙ longer_ends owner u x,
    ),
  )

  attempt-Interned :
      (b : Bool) (r : ℕ) (before : TypeUpdate) (next : Created)
      → (b ≡ false → Interned owner u x refused stopped (failed r before initialization_failed))
      → Interned owner u x refused stopped next
      → Interned owner u x refused stopped (attempt b r before next)
  attempt-Interned true r before next f n = n
  attempt-Interned false r before next f n = f refl

  -- The test of the number of types, in front of the insertions.
  bounded-Interned :
      (r : ℕ) (next : Created)
      → IsCanonical owner u
      → (0xffffffff < r → refused)
      → Interned owner u x refused stopped next
      → Interned owner u x refused stopped
          (if ltb 0xffffffff r then failed 0 u initialization_failed else next)
  bounded-Interned r next c why n = elim (Bool-cases (ltb 0xffffffff r)) [
    | inl q ↦
        rw q
          (failed-Interned 0 initialization_failed c (λ e. ground arith) (why (ground (arith, q))))
    | inr q ↦ rw q n
  ]

  get_or_create-Interned :
      (o : Option ℕ) (created : Created)
      → IsCanonical owner u
      → ((r : ℕ) → o ≡ some r → get_elem? (table_of owner u) r ≡ some x)
      → (o ≡ none → Interned owner u x refused stopped created)
      → Interned owner u x refused stopped (get_or_create o u created)
  get_or_create-Interned none created c f n = n refl
  get_or_create-Interned (some r) created c f n = (λ i y h. h, inl (refl, c, f r refl))

-- What stops a call behind the record.
abbrev pub Unindexed : Memory → Type 0
Unindexed memory = memory.index_entered ≡ false

abbrev pub Unreferenced : Memory → Type 0
Unreferenced memory = (memory.reference_pushed ≡ false) ⊎ Unindexed memory

create_derived-Interned :
    (invalid : Bool) (memory : Memory) (owner : Graph) (u : TypeUpdate) (key : DerivedTypeRecord)
    → IsCanonical owner u
    → known_derived owner u key ≡ none
    → Interned owner u
        (derived_record key)
        (Refused invalid memory owner u)
        (Unindexed memory)
        (create_derived memory key (next_ref owner u) u)
create_derived-Interned invalid memory owner u key c n =
    let r = next_ref owner u in
    let x = derived_record key in
    let refused = Refused invalid memory owner u in
    let stopped = Unindexed memory in
    bounded-Interned owner u x refused stopped r _ c (λ b. inr (inl b))
      (attempt-Interned owner u x refused stopped memory.record_pushed r u _
        (λ m.
          failed-Interned owner u x refused stopped r initialization_failed c (λ e. ground arith)
            (inr (inr m)))
        (attempt-Interned owner u x refused stopped memory.index_entered r (with_record x u) _
          (halfway-Interned owner u x refused stopped r (with_record x u) refl refl refl)
          (made-Interned owner u x refused stopped (with_derived key r u) refl
            (derived-IsCanonical owner u key c n))))

create_named-Interned :
    (invalid : Bool) (memory : Memory) (owner : Graph) (u : TypeUpdate) (handle : ℕ)
    → IsCanonical owner u
    → known_named owner u handle ≡ none
    → Interned owner u
        (named_record handle)
        (Refused invalid memory owner u)
        (Unreferenced memory)
        (create_named memory handle (next_ref owner u) u)
create_named-Interned invalid memory owner u handle c n =
    let r = next_ref owner u in
    let x = named_record handle in
    let refused = Refused invalid memory owner u in
    let stopped = Unreferenced memory in
    bounded-Interned owner u x refused stopped r _ c (λ b. inr (inl b))
      (attempt-Interned owner u x refused stopped memory.record_pushed r u _
        (λ m.
          failed-Interned owner u x refused stopped r initialization_failed c (λ e. ground arith)
            (inr (inr m)))
        (attempt-Interned owner u x refused stopped memory.reference_pushed r (with_record x u) _
          (λ m.
            halfway-Interned owner u x refused stopped r (with_record x u) refl refl refl (inl m))
          (attempt-Interned owner u x refused stopped memory.index_entered r
            (with_reference handle r u) _
            (λ m.
              halfway-Interned owner u x refused stopped r (with_reference handle r u) refl refl
                refl (inr m))
            (made-Interned owner u x refused stopped (with_named handle r u) refl
              (named-IsCanonical owner u handle c n)))))

-- The arguments that name no derived type.
abbrev pub is_invalid : DerivedTypeRecord → Bool
is_invalid key = key.child == 0 || not (good_payload key.shape key.payload)

-- get_or_create_derived on a canonical table, whichever insertion fails. What stood in the table of
-- canonical types stays there. Where the call succeeds, the table is canonical (each named and each
-- derived type stands in it once and is found where it stands), and the reference is that of the
-- pointer, array or reference type asked for. Where it fails, there is a reason to refuse, and the
-- table is as before and canonical; or the entry in the index has failed, the type stays in the
-- table without one, and the update has failed.
pub get_or_create_derived-Interned :
    (memory : Memory) (owner : Graph) (u : TypeUpdate) (key : DerivedTypeRecord)
    → IsCanonical owner u
    → Interned owner u
        (derived_record key)
        (Refused (is_invalid key) memory owner u)
        (Unindexed memory)
        (get_or_create_derived memory owner u key)
unfolding get_or_create_derived
get_or_create_derived-Interned memory owner u key c =
    let x = derived_record key in
    let stopped = Unindexed memory in
    elim (Bool-cases (is_invalid key)) [
      | inl q ↦ rw q (
          failed-Interned owner u x (Refused true memory owner u) stopped 0 configuration_failed c
            (λ e. ground arith) (inl refl))
      | inr q ↦ rw q (
          get_or_create-Interned owner u x (Refused false memory owner u) stopped
            (known_derived owner u key) _ c (c.1.0 key)
            (create_derived-Interned false memory owner u key c))
    ]

-- For get_or_create_named_type_ref on a canonical table, whichever insertion fails: what stood in
-- the table of canonical types stays there. Where the call succeeds, the table is canonical, and
-- the reference is that of the type of the handle. Where it fails, there is a reason to refuse, and
-- the table is as before and canonical; or an insertion behind the record has failed, the type
-- stays in the table without an entry in the index, and the update has failed.
pub get_or_create_named_type_ref-Interned :
    (memory : Memory) (owner : Graph) (u : TypeUpdate) (handle : ℕ)
    → IsCanonical owner u
    → Interned owner u
        (named_record handle)
        (Refused (handle == 0) memory owner u)
        (Unreferenced memory)
        (get_or_create_named_type_ref memory owner u handle)
unfolding get_or_create_named_type_ref
get_or_create_named_type_ref-Interned memory owner u handle c =
    let x = named_record handle in
    let stopped = Unreferenced memory in
    elim (Bool-cases (handle == 0)) [
      | inl q ↦ rw q (λ i y h. h, inr (inl (λ e. ground arith, c, refl, inl refl)))
      | inr q ↦ rw q (
          get_or_create-Interned owner u x (Refused false memory owner u) stopped
            (known_named owner u handle) _ c (c.1.1 handle)
            (create_named-Interned false memory owner u handle c))
    ]

succeeded :
    (owner : Graph) (u : TypeUpdate) (x : CanonicalTypeRecord) (refused stopped : Type 0)
    (c : Created)
    → c.status ≡ ok
    → Interned owner u x refused stopped c
    → IsCanonical owner c.update × (get_elem? (table_of owner c.update) c.output ≡ some x)
succeeded owner u x refused stopped c h (k, inl s) = (s.1, s.2)
succeeded owner u x refused stopped c h (k, inr (inl f)) = absurd (f.0 h)
succeeded owner u x refused stopped c h (k, inr (inr f)) = absurd (f.0 h)

accepted_key :
    (memory : Memory) (owner : Graph) (u : TypeUpdate) (key : DerivedTypeRecord)
    → (get_or_create_derived memory owner u key).status ≡ ok
    → (key.child == 0 || not (good_payload key.shape key.payload)) ≡ false
unfolding get_or_create_derived
accepted_key memory owner u key h =
    elim (Bool-cases (key.child == 0 || not (good_payload key.shape key.payload))) [
      | inl q ↦ absurd (ground (arith, rw q at h))
      | inr q ↦ q
    ]

again :
    (later : Memory) (owner : Graph) (u : TypeUpdate) (key : DerivedTypeRecord) (r : ℕ)
    → (key.child == 0 || not (good_payload key.shape key.payload)) ≡ false
    → known_derived owner u key ≡ some r
    → get_or_create_derived later owner u key ≡ record { output = r; update = u; status = ok }
unfolding get_or_create_derived
again later owner u key r q e = rw (q, e) refl

-- What get_or_create_derived has created in a canonical table, it answers again with the same
-- reference, without a change of the update, and no allocation is needed.
pub get_or_create_derived_again :
    (memory later : Memory) (owner : Graph) (u : TypeUpdate) (key : DerivedTypeRecord)
    → IsCanonical owner u
    → (get_or_create_derived memory owner u key).status ≡ ok
    → get_or_create_derived later owner (get_or_create_derived memory owner u key).update key
      ≡ record (get_or_create_derived memory owner u key) { status = ok }
get_or_create_derived_again memory later owner u key c h =
    let first = get_or_create_derived memory owner u key in
    let i = get_or_create_derived-Interned memory owner u key c in
    let (canonical, stands) =
      succeeded owner u (derived_record key) (Refused (is_invalid key) memory owner u)
        (Unindexed memory) first h i in
    again later owner first.update key first.output (accepted_key memory owner u key h)
      (canonical.0.0 first.output key stands)
