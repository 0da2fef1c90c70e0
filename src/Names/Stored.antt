-- ===== src/Names/Stored.antt =====
-- A stored name is resolved, also after later ones; the two classes agree on references.
use server_entry.Prelude.{◌<◌, ◌⊎◌, get_elem?}
use server_entry.Prelude.{
  ℕ, zero, suc, ◌+◌, ◌-◌, ◌≤◌, ◌≡◌, refl, ap, sym, ◌∙◌, Bool, true, false, ◌||◌, List, [], ◌∷◌,
  ◌++◌, append_assoc, arith, ltb, ◌==◌, length, length-append, Bool-cases, inl, inr, subst,
}
use server_entry.Prelude.Bits.{to_u32}
use server_entry.Strings.{Status, ok}
use server_entry.Names.{NameRef, slice, maximum, NameResult, insert}
use server_entry.Names.Context
use server_entry.Names.Entry

slice_front : (value more : List ℕ) → slice (value ++ more) 0 (length value) ≡ value
slice_front [] [] = refl
slice_front [] (x ∷ more) = refl
slice_front (x ∷ value) more = ap (λ t. x ∷ t) (slice_front value more)

slice_middle :
    (names value more : List ℕ)
    → slice (names ++ (value ++ more)) (length names) (length value) ≡ value
slice_middle [] value more = slice_front value more
slice_middle (x ∷ names) value more = slice_middle names value more

abbrev pub resolved : List ℕ → List ℕ × Status
resolved value = (value, ok)

-- Where `value` stands in the array, its reference is resolved.
found :
    (names value more : List ℕ)
    → 1 ≤ length value
    → Context.resolve_name
        (record { offset = length names; length = length value })
        (names ++ (value ++ more))
      ≡ resolved value
unfolding Context.resolve_name
found names value more h =
    let n = length-append names (value ++ more) in
    let m = length-append value more in ground (arith, n, m, slice_middle names value more)

-- The two classes accept the same references to an array, and resolve them alike.
pub resolve_name-resolve_name :
    (reference : NameRef) (names : List ℕ)
    → Context.resolve_name reference names ≡ Entry.resolve_name reference names
unfolding Context.resolve_name Entry.resolve_name
resolve_name-resolve_name reference names = ground arith

-- What the insertion leaves in front of later names.
inserted :
    (allocated : Bool) (value names more : List ℕ)
    → 1 ≤ length value
    → length value ≤ maximum
    → length names ≤ maximum
    → (insert allocated value names).1 ≡ ok
    → Context.resolve_name
        (insert allocated value names).2
        ((insert allocated value names).0 ++ more)
      ≡ resolved value
unfolding insert
inserted false value names more p q r h = absurd (ground arith)
inserted true value names more p q r h =
    let a : to_u32 (length names) ≡ length names = omega arith in
    let b : to_u32 (length value) ≡ length value = omega arith in
    rw (append_assoc names value more, a, b) (found names value more p)

-- The tests of both classes in front of the insertion.
abbrev Fits : List ℕ → List ℕ → Type 0
Fits value names =
    (1 ≤ length value) × (length value ≤ maximum) × (length value + length names ≤ maximum)

Context-insert :
    (allocated : Bool) (value names : List ℕ)
    → (Context.store_name allocated value names).1 ≡ ok
    → Fits value names × (Context.store_name allocated value names ≡ insert allocated value names)
unfolding Context.store_name
Context-insert allocated value names h = elim (Bool-cases (length value == 0)) [
  | inl z ↦ absurd (ground (arith, z, h))
  | inr z ↦
      elim (Bool-cases
        (ltb maximum (length value) || ltb (maximum - length value) (length names))) [
          | inl l ↦ absurd (ground (arith, z, l, h))
          | inr l ↦ (ground (arith, z, l), rw (z, l) refl)
        ]
]

Entry-insert :
    (allocated : Bool) (value names : List ℕ)
    → (Entry.store_name allocated value names).1 ≡ ok
    → Fits value names × (Entry.store_name allocated value names ≡ insert allocated value names)
unfolding Entry.store_name
Entry-insert allocated value names h =
    elim (Bool-cases (
      length value == 0
      || (ltb maximum (length value) || ltb (maximum - length value) (length names)))) [
        | inl l ↦ absurd (ground (arith, l, h))
        | inr l ↦ (ground (arith, l), rw l refl)
      ]

abbrev IsRead : List ℕ → List ℕ → NameResult → Type 0
IsRead value more stored = Context.resolve_name stored.2 (stored.0 ++ more) ≡ resolved value

-- A name that source_context stores is resolved from its reference, whatever is stored behind it.
pub context_name_read :
    (allocated : Bool) (value names more : List ℕ)
    → (Context.store_name allocated value names).1 ≡ ok
    → Context.resolve_name
        (Context.store_name allocated value names).2
        ((Context.store_name allocated value names).0 ++ more)
      ≡ resolved value
context_name_read allocated value names more h =
    let (f, e) = Context-insert allocated value names h in
    subst (IsRead value more) (sym e)
      (inserted allocated value names more f.0 f.1 (omega (arith, f.2)) (ap (λ t. t.1) (sym e) ∙ h))

-- A name that source_build_entry stores is resolved from its reference, whatever is stored behind
-- it.
pub entry_name_read :
    (allocated : Bool) (value names more : List ℕ)
    → (Entry.store_name allocated value names).1 ≡ ok
    → Entry.resolve_name
        (Entry.store_name allocated value names).2
        ((Entry.store_name allocated value names).0 ++ more)
      ≡ resolved value
entry_name_read allocated value names more h =
    let (f, e) = Entry-insert allocated value names h in
    sym (resolve_name-resolve_name _ _)
    ∙ subst (IsRead value more) (sym e) (
        inserted allocated value names more f.0 f.1 (omega (arith, f.2))
          (ap (λ t. t.1) (sym e) ∙ h))

slice_size :
    {A : Type 0} (xs : List A) (offset count : ℕ)
    → offset + count ≤ length xs
    → length (slice xs offset count) ≡ count
slice_size [] offset count h = omega arith
slice_size (x ∷ xs) (suc offset) count h = slice_size xs offset count (omega arith)
slice_size (x ∷ xs) zero zero h = refl
slice_size (x ∷ xs) zero (suc count) h = omega (arith, slice_size xs 0 count (omega arith))

get_elem?-slice :
    {A : Type 0} (xs : List A) (offset count i : ℕ)
    → i < count
    → get_elem? (slice xs offset count) i ≡ get_elem? xs (offset + i)
get_elem?-slice [] offset count i h = refl
get_elem?-slice (x ∷ xs) (suc offset) count i h =
    let front : suc (offset + i) ≡ suc offset + i = omega arith in
    get_elem?-slice xs offset count i h ∙ ap (get_elem? (x ∷ xs)) front
get_elem?-slice (x ∷ xs) zero zero i h = absurd (omega arith)
get_elem?-slice (x ∷ xs) zero (suc count) zero h = refl
get_elem?-slice (x ∷ xs) zero (suc count) (suc i) h =
    let front : suc (0 + i) ≡ 0 + suc i = omega arith in
    get_elem?-slice xs 0 count i (omega arith) ∙ ap (get_elem? (x ∷ xs)) front

part_outside :
    {A : Type 0} (offset count : ℕ) (values : List A)
    → ltb (length values) (offset + count) ≡ true
    → Context.part offset count values ≡ []
unfolding Context.part
part_outside offset count values l = elim (Bool-cases (count == 0)) [
  | inl z ↦ rw z refl
  | inr z ↦ rw (z, l) refl
]

-- What a fact refers to: where it lies within the array, its part has `count` elements, and these
-- are the elements of the array from `offset` on; otherwise its part is empty.
pub part_lem :
    {A : Type 0} (offset count : ℕ) (values : List A)
    → ((offset + count ≤ length values)
        × (length (Context.part offset count values) ≡ count)
        × ((i : ℕ)
            → i < count
            → get_elem? (Context.part offset count values) i ≡ get_elem? values (offset + i)))
      ⊎ ((length values < offset + count) × (Context.part offset count values ≡ []))
unfolding Context.part
part_lem offset count values = elim (Bool-cases (ltb (length values) (offset + count))) [
  | inl l ↦ inr (ground (arith, l), part_outside offset count values l)
  | inr l ↦ elim (Bool-cases (count == 0)) [
    | inl z ↦
        inl (rw (l, z) (ground (arith, l), ground (arith, z), λ i h. absurd (ground (arith, z, h))))
    | inr z ↦ inl (
        rw (l, z)
          (
            ground (arith, l),
            slice_size values offset count (ground (arith, l)),
            λ i h. get_elem?-slice values offset count i h,
          ))
  ]
]
