-- ===== src/Graph/Unique.antt =====
-- A table of canonical types in which each named and each derived type stands once, and is found.
use server_entry.Prelude.{
  ℕ, zero, suc, ◌<◌, ◌≡◌, ◌⊎◌, refl, sym, ap, ◌∙◌, Bool, true, false, List, [], ◌∷◌, ◌++◌, Option,
  none, some, ◌==◌, length, get_elem?, get_elem?-append_left, arith, Bool-cases, inl, inr,
}
use server_entry.Graph.{
  CanonicalTypeRecord, CanonicalTypeKind, builtin, named, derived, DerivedTypeRecord,
  DerivedTypeKind, pointer, array, lvalue_reference, rvalue_reference, named_record, derived_record,
}
use server_entry.Graph.Compiled.{shape_code}
use server_entry.Graph.Compiled.Tables.{key_eq}
use server_entry.Graph.Compiled.Inversion.{some-inj}

-- `by_key` and `by_handle` find every derived and every named type of the table where it stands.
abbrev pub Unique :
    List CanonicalTypeRecord → (DerivedTypeRecord → Option ℕ) → (ℕ → Option ℕ) → Type 0
Unique table by_key by_handle =
    ((i : ℕ) (k : DerivedTypeRecord)
      → get_elem? table i ≡ some (derived_record k)
      → by_key k ≡ some i)
    × ((i : ℕ) (h : ℕ) → get_elem? table i ≡ some (named_record h) → by_handle h ≡ some i)

shape_code-inj : (a b : DerivedTypeKind) → shape_code a ≡ shape_code b → a ≡ b
shape_code-inj pointer pointer e = refl
shape_code-inj pointer array e = absurd (ground arith)
shape_code-inj pointer lvalue_reference e = absurd (ground arith)
shape_code-inj pointer rvalue_reference e = absurd (ground arith)
shape_code-inj array pointer e = absurd (ground arith)
shape_code-inj array array e = refl
shape_code-inj array lvalue_reference e = absurd (ground arith)
shape_code-inj array rvalue_reference e = absurd (ground arith)
shape_code-inj lvalue_reference pointer e = absurd (ground arith)
shape_code-inj lvalue_reference array e = absurd (ground arith)
shape_code-inj lvalue_reference lvalue_reference e = refl
shape_code-inj lvalue_reference rvalue_reference e = absurd (ground arith)
shape_code-inj rvalue_reference pointer e = absurd (ground arith)
shape_code-inj rvalue_reference array e = absurd (ground arith)
shape_code-inj rvalue_reference lvalue_reference e = absurd (ground arith)
shape_code-inj rvalue_reference rvalue_reference e = refl

pub key_eq_sound : (a b : DerivedTypeRecord) → key_eq a b ≡ true → a ≡ b
key_eq_sound a b h =
    let s : shape_code a.shape ≡ shape_code b.shape = ground arith in
    let c : a.child ≡ b.child = ground arith in
    let p : a.payload ≡ b.payload = ground arith in rw (shape_code-inj a.shape b.shape s, c, p) refl

pub key_eq_refl : (a : DerivedTypeRecord) → key_eq a a ≡ true
key_eq_refl a = ground arith

-- An index of a longer list is one of the list or its end.
pub get_elem?-last {ℓ} :
    {A : Type ℓ} (xs : List A) (x : A) (i : ℕ) (y : A)
    → get_elem? (xs ++ (x ∷ [])) i ≡ some y
    → (get_elem? xs i ≡ some y) ⊎ ((i ≡ length xs) × (x ≡ y))
get_elem?-last [] x zero y h = inr (refl, some-inj h)
get_elem?-last [] x (suc i) y h = absurd (ground arith)
get_elem?-last (z ∷ xs) x zero y h = inl h
get_elem?-last (z ∷ xs) x (suc i) y h = elim (get_elem?-last xs x i y h) [
  | inl q ↦ inl q
  | inr q ↦ inr (ap suc q.0, q.1)
]

pub get_elem?-end {ℓ} :
    {A : Type ℓ} (xs : List A) (x : A) → get_elem? (xs ++ (x ∷ [])) (length xs) ≡ some x
get_elem?-end [] x = refl
get_elem?-end (y ∷ xs) x = get_elem?-end xs x

get_elem?-inside {ℓ} :
    {A : Type ℓ} (xs : List A) (i : ℕ) (x : A) → get_elem? xs i ≡ some x → i < length xs
get_elem?-inside [] i x h = absurd (ground arith)
get_elem?-inside (y ∷ xs) zero x h = omega arith
get_elem?-inside (y ∷ xs) (suc i) x h = omega (arith, get_elem?-inside xs i x h)

pub get_elem?-kept {ℓ} :
    {A : Type ℓ} (xs ys : List A) (i : ℕ) (x : A)
    → get_elem? xs i ≡ some x
    → get_elem? (xs ++ ys) i ≡ some x
get_elem?-kept xs ys i x h = get_elem?-append_left xs ys i (get_elem?-inside xs i x h) ∙ h

is_derived : CanonicalTypeKind → Bool
is_derived builtin = false
is_derived named = false
is_derived derived = true

kinds_differ : (h : ℕ) (k : DerivedTypeRecord) → named_record h ≡ derived_record k → ⊥
unfolding is_derived
kinds_differ h k e = ground (arith, ap (λ c. is_derived c.kind) e)

module _ (table : List CanonicalTypeRecord) (by_key by_key' : DerivedTypeRecord → Option ℕ)
    (by_handle by_handle' : ℕ → Option ℕ) where
  -- A derived type that is not in the table is added to it.
  pub Unique-derived :
      (key : DerivedTypeRecord)
      → Unique table by_key by_handle
      → by_key key ≡ none
      → by_key' key ≡ some (length table)
      → ((k : DerivedTypeRecord) → key_eq key k ≡ false → by_key' k ≡ by_key k)
      → Unique (table ++ (derived_record key ∷ [])) by_key' by_handle
  Unique-derived key u n e f = (
    λ i k q. elim (get_elem?-last table (derived_record key) i (derived_record k) q) [
      | inl p ↦ elim (Bool-cases (key_eq key k)) [
        | inl t ↦ absurd (ground (arith, sym (ap by_key (key_eq_sound key k t)) ∙ n, u.0 i k p))
        | inr t ↦ f k t ∙ u.0 i k p
      ]
      | inr p ↦ ap by_key' (sym (ap (λ c. c.derived_part) p.1)) ∙ e ∙ ap some (sym p.0)
    ],
    λ i h q. elim (get_elem?-last table (derived_record key) i (named_record h) q) [
      | inl p ↦ u.1 i h p
      | inr p ↦ absurd (kinds_differ h key (sym p.1))
    ],
  )

  -- A named type that is not in the table is added to it.
  pub Unique-named :
      (handle : ℕ)
      → Unique table by_key by_handle
      → by_handle handle ≡ none
      → by_handle' handle ≡ some (length table)
      → ((h : ℕ) → (handle == h) ≡ false → by_handle' h ≡ by_handle h)
      → Unique (table ++ (named_record handle ∷ [])) by_key by_handle'
  Unique-named handle u n e f = (
    λ i k q. elim (get_elem?-last table (named_record handle) i (derived_record k) q) [
      | inl p ↦ u.0 i k p
      | inr p ↦ absurd (kinds_differ handle k p.1)
    ],
    λ i h q. elim (get_elem?-last table (named_record handle) i (named_record h) q) [
      | inl p ↦ elim (Bool-cases (handle == h)) [
        | inl t ↦
            let same : handle ≡ h = ground arith in
            absurd (ground (arith, sym (ap by_handle same) ∙ n, u.1 i h p))
        | inr t ↦ f h t ∙ u.1 i h p
      ]
      | inr p ↦ ap by_handle' (sym (ap (λ c. c.named_part) p.1)) ∙ e ∙ ap some (sym p.0)
    ],
  )
