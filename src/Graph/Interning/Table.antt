-- ===== src/Graph/Interning/Table.antt =====
-- project/graph/graph.cpp: the table of canonical types with those that a graph_update adds stays
-- canonical, when a type is entered in it and in its index.
use server_entry.Prelude.{
  ℕ, ◌≡◌, refl, sym, ap, ◌∙◌, true, false, List, [], ◌∷◌, ◌++◌, append_assoc, Option, none, some,
  ◌==◌, length, length-append, get_elem?, arith, Bool-cases, inl, inr, subst,
}
use server_entry.Strings.{Status}
use server_entry.Graph.{Graph, CanonicalTypeRecord, DerivedTypeRecord, named_record, derived_record}
use server_entry.Graph.Compiled.Tables.{find_derived, key_eq}
use server_entry.Graph.Compiled.Inversion.{some-inj}
use server_entry.Graph.Unique.{
  get_elem?-end, get_elem?-kept, Unique, Unique-derived, Unique-named, key_eq_sound, key_eq_refl,
}
use server_entry.Graph.Interning.{
  TypeUpdate, or_else, owned_named, unless_rebuilt, known_named, known_derived, next_ref,
  with_named, with_derived,
}

abbrev pub table_of : Graph → TypeUpdate → List CanonicalTypeRecord
table_of owner u = owner.canonical_types ++ u.added_canonical_types

-- What is known of a type is where it stands in the table.
abbrev pub Sound : Graph → TypeUpdate → Type 0
Sound owner u =
    ((k : DerivedTypeRecord) (r : ℕ)
      → known_derived owner u k ≡ some r
      → get_elem? (table_of owner u) r ≡ some (derived_record k))
    × ((h : ℕ) (r : ℕ)
        → known_named owner u h ≡ some r
        → get_elem? (table_of owner u) r ≡ some (named_record h))

abbrev pub IsCanonical : Graph → TypeUpdate → Type 0
IsCanonical owner u =
    Unique (table_of owner u) (known_derived owner u) (known_named owner u) × Sound owner u

next_ref-length : (owner : Graph) (u : TypeUpdate) → next_ref owner u ≡ length (table_of owner u)
next_ref-length owner u = sym (length-append owner.canonical_types u.added_canonical_types)

known_derived-new :
    (owner : Graph) (u : TypeUpdate) (key : DerivedTypeRecord) (r : ℕ)
    → known_derived owner (with_derived key r u) key ≡ some r
unfolding known_derived find_derived
known_derived-new owner u key r = rw (key_eq_refl key) refl

known_derived-old :
    (owner : Graph) (u : TypeUpdate) (key k : DerivedTypeRecord) (r : ℕ)
    → key_eq key k ≡ false
    → known_derived owner (with_derived key r u) k ≡ known_derived owner u k
unfolding known_derived find_derived
known_derived-old owner u key k r h = rw h refl

known_named-kept :
    (owner : Graph) (u : TypeUpdate) (key : DerivedTypeRecord) (h r : ℕ)
    → known_named owner (with_derived key r u) h ≡ known_named owner u h
unfolding known_named
known_named-kept owner u key h r = refl

or_else-none {ℓ} : {A : Type ℓ} (a b : Option A) → or_else a b ≡ none → a ≡ none
or_else-none none b n = refl
or_else-none (some x) b n = absurd (ground arith)

same_handle : (h : ℕ) → (h == h) ≡ true
same_handle h = ground arith

known_named-new :
    (owner : Graph) (u : TypeUpdate) (h r : ℕ)
    → known_named owner u h ≡ none
    → known_named owner (with_named h r u) h ≡ some r
unfolding known_named
known_named-new owner u h r n =
    rw
      (or_else-none (unless_rebuilt u.full_reconstruction (owned_named owner h)) _ n, same_handle h)
      refl

known_named-old :
    (owner : Graph) (u : TypeUpdate) (h h' r : ℕ)
    → (h == h') ≡ false
    → known_named owner (with_named h r u) h' ≡ known_named owner u h'
unfolding known_named
known_named-old owner u h h' r e = rw e refl

known_derived-kept :
    (owner : Graph) (u : TypeUpdate) (k : DerivedTypeRecord) (h r : ℕ)
    → known_derived owner (with_named h r u) k ≡ known_derived owner u k
unfolding known_derived
known_derived-kept owner u k h r = refl

module _ (owner : Graph) (u : TypeUpdate) (x : CanonicalTypeRecord) where
  abbrev longer : List CanonicalTypeRecord
  longer = owner.canonical_types ++ (u.added_canonical_types ++ (x ∷ []))

  longer_table : longer ≡ table_of owner u ++ (x ∷ [])
  longer_table = sym (append_assoc owner.canonical_types u.added_canonical_types (x ∷ []))

  pub longer_keeps :
      (i : ℕ) (y : CanonicalTypeRecord)
      → get_elem? (table_of owner u) i ≡ some y
      → get_elem? longer i ≡ some y
  longer_keeps i y h =
      ap (λ t. get_elem? t i) longer_table ∙ get_elem?-kept (table_of owner u) (x ∷ []) i y h

  pub longer_ends : get_elem? longer (next_ref owner u) ≡ some x
  longer_ends =
      ap (λ t. get_elem? t (next_ref owner u)) longer_table
      ∙ ap (get_elem? (table_of owner u ++ (x ∷ []))) (next_ref-length owner u)
      ∙ get_elem?-end (table_of owner u) x

derived-Sound :
    (owner : Graph) (u : TypeUpdate) (key : DerivedTypeRecord)
    → Sound owner u
    → (k : DerivedTypeRecord) (q : ℕ)
    → known_derived owner (with_derived key (next_ref owner u) u) k ≡ some q
    → get_elem? (longer owner u (derived_record key)) q ≡ some (derived_record k)
derived-Sound owner u key c k q h = elim (Bool-cases (key_eq key k)) [
  | inl t ↦
      let e = key_eq_sound key k t in
      let u' = with_derived key (next_ref owner u) u in
      let new = known_derived-new owner u key (next_ref owner u) in
      let same : next_ref owner u ≡ q = some-inj (sym new ∙ ap (known_derived owner u') e ∙ h) in
      ap (get_elem? (longer owner u (derived_record key))) (sym same)
      ∙ longer_ends owner u (derived_record key)
      ∙ ap (λ x. some (derived_record x)) e
  | inr t ↦
      longer_keeps owner u (derived_record key) q (derived_record k)
        (c.0 k q (sym (known_derived-old owner u key k (next_ref owner u) t) ∙ h))
]

named-Sound :
    (owner : Graph) (u : TypeUpdate) (handle : ℕ)
    → Sound owner u
    → known_named owner u handle ≡ none
    → (h q : ℕ) → known_named owner (with_named handle (next_ref owner u) u) h ≡ some q
    → get_elem? (longer owner u (named_record handle)) q ≡ some (named_record h)
named-Sound owner u handle c n h q e = elim (Bool-cases (handle == h)) [
  | inl t ↦
      let same_h : handle ≡ h = ground arith in
      let u' = with_named handle (next_ref owner u) u in
      let new = known_named-new owner u handle (next_ref owner u) n in
      let same : next_ref owner u ≡ q = some-inj (sym new ∙ ap (known_named owner u') same_h ∙ e) in
      ap (get_elem? (longer owner u (named_record handle))) (sym same)
      ∙ longer_ends owner u (named_record handle)
      ∙ ap (λ x. some (named_record x)) same_h
  | inr t ↦
      longer_keeps owner u (named_record handle) q (named_record h)
        (c.1 h q (sym (known_named-old owner u handle h (next_ref owner u) t) ∙ e))
]

pub derived-IsCanonical :
    (owner : Graph) (u : TypeUpdate) (key : DerivedTypeRecord)
    → IsCanonical owner u
    → known_derived owner u key ≡ none
    → IsCanonical owner (with_derived key (next_ref owner u) u)
derived-IsCanonical owner u key c n =
    let r = next_ref owner u in
    let u' = with_derived key r u in
    let found : known_derived owner u' key ≡ some (length (table_of owner u)) =
      known_derived-new owner u key r ∙ ap some (next_ref-length owner u) in
    (
      subst (λ t. Unique t (known_derived owner u') (known_named owner u'))
          (sym (longer_table owner u (derived_record key)))
          (Unique-derived (table_of owner u) (known_derived owner u) (known_derived owner u')
            (known_named owner u') (known_named owner u') key
            (c.0.0, λ i h q. known_named-kept owner u key h r ∙ c.0.1 i h q) n found
            (λ k e. known_derived-old owner u key k r e)),
      (
        λ k q h. derived-Sound owner u key c.1 k q h,
        λ h q e.
            longer_keeps owner u (derived_record key) q (named_record h)
              (c.1.1 h q (sym (known_named-kept owner u key h r) ∙ e)),
      ),
    )

pub named-IsCanonical :
    (owner : Graph) (u : TypeUpdate) (handle : ℕ)
    → IsCanonical owner u
    → known_named owner u handle ≡ none
    → IsCanonical owner (with_named handle (next_ref owner u) u)
named-IsCanonical owner u handle c n =
    let r = next_ref owner u in
    let u' = with_named handle r u in
    let found : known_named owner u' handle ≡ some (length (table_of owner u)) =
      known_named-new owner u handle r n ∙ ap some (next_ref-length owner u) in
    (
      subst (λ t. Unique t (known_derived owner u') (known_named owner u'))
          (sym (longer_table owner u (named_record handle)))
          (Unique-named (table_of owner u) (known_derived owner u') (known_derived owner u')
            (known_named owner u) (known_named owner u') handle
            (λ i k q. known_derived-kept owner u k handle r ∙ c.0.0 i k q, c.0.1) n found
            (λ h e. known_named-old owner u handle h r e)),
      (
        λ k q h.
            longer_keeps owner u (named_record handle) q (derived_record k)
              (c.1.0 k q (sym (known_derived-kept owner u k handle r) ∙ h)),
        λ h q e. named-Sound owner u handle c.1 n h q e,
      ),
    )

pub failing-IsCanonical :
    (owner : Graph) (u : TypeUpdate) (s : Status)
    → IsCanonical owner u
    → IsCanonical owner (record u { failure = s })
unfolding known_derived known_named
failing-IsCanonical owner u s c = c
