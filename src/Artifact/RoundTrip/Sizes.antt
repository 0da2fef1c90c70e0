-- ===== src/Artifact/RoundTrip/Sizes.antt =====
-- The sizes of the sections are what build_sections counts, and they fill the artifact.
use server_entry.Prelude.{
  ℕ, suc, ◌+◌, ◌-◌, ◌*◌, ◌≡◌, refl, sym, ap, ◌∙◌, List, [], ◌∷◌, ◌++◌, Option, none, some, arith,
  length, length-append, ltb, Bool-cases, inl, inr,
}
use native.Mathlib.Nat.{suc-mul}
use server_entry.Strings.{Bytes}
use server_entry.Graph.Lookup.{is_aggregate}
use server_entry.Graph.Compiled.{CompiledTypeSlot}
use server_entry.Graph.Compiled.Inversion.{unless-some, and_then-some, some-inj}
use server_entry.Artifact.{
  CompiledProject, Layout, build_from, string_total, section_counts, section_record_sizes,
  checked_add, max64, write32,
}
use server_entry.Artifact.Records.{
  write_entity, write_type, write_enum_value, write_member, write_canonical,
}
use server_entry.Artifact.Encode.{
  write_all, place_sections, section_contents, write_strings, stored_bytes, zero_bytes,
}
use server_entry.Artifact.RoundTrip.Layouts.{
  Sized, build_from_front, build_from_end, checked_multiply-some, length-zero_bytes,
}

pub length-write_all {ℓ} :
    {A : Type ℓ} (write : A → Bytes) (k : ℕ) (xs : List A)
    → ((x : A) → length (write x) ≡ k)
    → length (write_all write xs) ≡ length xs * k
length-write_all write k [] h = omega arith
length-write_all write k (x ∷ xs) h =
    length-append (write x) (write_all write xs)
    ∙ omega (arith, h x, length-write_all write k xs h, suc-mul (length xs) k)

length-write_strings :
    (start : ℕ) (strings : List (Option Bytes))
    → length (write_strings start strings) ≡ length strings * 8
length-write_strings start [] = refl
length-write_strings start (none ∷ strings) =
    omega (arith, length-write_strings (start + 0) strings)
length-write_strings start (some s ∷ strings) =
    omega (arith, length-write_strings (start + length s) strings)

string_total-stored :
    (strings : List (Option Bytes)) (from total : ℕ)
    → string_total strings from ≡ some total
    → total ≡ from + length (stored_bytes strings)
string_total-stored [] from total h = omega (arith, some-inj h)
string_total-stored (none ∷ strings) from total h = string_total-stored strings from total h
string_total-stored (some s ∷ strings) from total h =
    let a = and_then-some (checked_add from (length s)) _ total h in
    let sum : a.0 ≡ from + length s =
      sym
        (some-inj (unless-some (ltb (max64 - length s) from) (some (from + length s)) a.0 a.1).1) in
    omega (
      arith,
      length-append s (stored_bytes strings),
      string_total-stored strings a.0 total a.2,
      sum,
    )

pub length-write_type : (slot : CompiledTypeSlot) → length (write_type slot) ≡ 16
length-write_type slot = elim (Bool-cases slot.live) [
  | inr q ↦ rw q refl
  | inl q ↦ elim (Bool-cases (is_aggregate slot.entry.kind)) [
    | inl r ↦ rw (q, r) refl
    | inr r ↦ rw (q, r) refl
  ]
]

pub sized :
    (p : CompiledProject) (total : ℕ)
    → string_total p.strings 0 ≡ some total
    → Sized (section_counts p total) section_record_sizes (section_contents p)
sized p total h = (
  length-write_strings 0 p.strings,
  (
    omega (arith, string_total-stored p.strings 0 total h),
    (
      length-write_all write32 4 p.graph.identities (λ n. refl),
      (
        length-write_all write_entity 16 p.graph.entities (λ e. refl),
        (
          length-write_all write_type 16 p.graph.types length-write_type,
          (
            length-write_all write_enum_value 16 p.graph.enum_values (λ v. refl),
            (
              length-write_all write_member 8 p.graph.members (λ m. refl),
              (length-write_all write_canonical 16 p.graph.canonical_types (λ c. refl), tt),
            ),
          ),
        ),
      ),
    ),
  ),
)

-- The bytes of the sections fill the artifact up to its total.
pub length-place_sections :
    (index next : ℕ) (counts sizes : List ℕ) (cs : List Bytes) (layout : Layout)
    → Sized counts sizes cs
    → build_from index next counts sizes ≡ some layout
    → next + length (place_sections next layout.sections cs) ≡ layout.total
length-place_sections index next [] [] [] layout z h =
    let e = build_from_end index next [] layout h in
    omega (arith, ap (λ x. x.total) e, ap (λ x. length (place_sections next x.sections [])) e)
length-place_sections index next (n ∷ ns) (k ∷ ks) (c ∷ cs) layout z h =
    let f = build_from_front index next n ns k ks layout h in
    let s = f.0 in
    let w = (checked_multiply-some n k s.bytes f.7).0 ∙ sym z.0 in
    let rest = place_sections (s.offset + s.bytes) f.1.sections cs in
    let pad = zero_bytes (s.offset - next) in
    omega (
      arith,
      ap (λ x. x.total) f.3,
      ap (λ x. length (place_sections next x.sections (c ∷ cs))) f.3,
      length-append pad (c ++ rest),
      length-append c rest,
      length-zero_bytes (s.offset - next),
      w,
      f.8,
      length-place_sections (index + 1) (s.offset + s.bytes) ns ks cs f.1 z.1 f.2,
    )
length-place_sections index next [] [] (c ∷ cs) layout z h = absurd z
length-place_sections index next [] (k ∷ ks) cs layout z h = absurd z
length-place_sections index next (n ∷ ns) [] cs layout z h = absurd z
length-place_sections index next (n ∷ ns) (k ∷ ks) [] layout z h = absurd z

pub length-sections :
    (index next : ℕ) (counts sizes : List ℕ) (cs : List Bytes) (layout : Layout)
    → Sized counts sizes cs
    → build_from index next counts sizes ≡ some layout
    → length layout.sections ≡ length counts
length-sections index next [] [] [] layout z h =
    ap (λ x. length x.sections) (build_from_end index next [] layout h)
length-sections index next (n ∷ ns) (k ∷ ks) (c ∷ cs) layout z h =
    let f = build_from_front index next n ns k ks layout h in
    ap (λ x. length x.sections) f.3
    ∙ ap suc (length-sections (index + 1) (f.0.offset + f.0.bytes) ns ks cs f.1 z.1 f.2)
length-sections index next [] [] (c ∷ cs) layout z h = absurd z
length-sections index next [] (k ∷ ks) cs layout z h = absurd z
length-sections index next (n ∷ ns) [] cs layout z h = absurd z
length-sections index next (n ∷ ns) (k ∷ ks) [] layout z h = absurd z
