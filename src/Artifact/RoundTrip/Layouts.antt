-- ===== src/Artifact/RoundTrip/Layouts.antt =====
-- Where build_sections places the sections: aligned, one behind the other, within the total size.
use server_entry.Prelude.{
  ℕ, zero, suc, ◌+◌, ◌-◌, ◌*◌, ◌/◌, ◌%◌, ◌≤◌, ◌≡◌, refl, sym, ap, ◌∙◌, subst, false, List, [], ◌∷◌,
  ◌++◌, append_assoc, some, arith, length, length-append, ltb, ◌==◌, Bool-cases, inl, inr,
}
use native.Mathlib.Nat.{mul-div-le, mul-le-mul_left, le_trans}
use server_entry.Strings.{Bytes}
use server_entry.Graph.Compiled.Inversion.{some-inj, and_then-some}
use server_entry.Artifact.{
  SectionDescriptor, Layout, build_from, align8, checked_add, checked_multiply, max64,
}
use server_entry.Artifact.Encode.{place_sections, zero_bytes}
use server_entry.Artifact.RoundTrip.Sections.{LiesAt}

-- The first section of a layout and the layout behind it.
abbrev pub Front : ℕ → ℕ → ℕ → List ℕ → ℕ → List ℕ → Layout → Type 0
Front index next count counts size sizes layout =
    (s : SectionDescriptor) × (rest : Layout) × (build_from (index + 1) (s.offset + s.bytes) counts
        sizes
      ≡ some rest)
    × (layout ≡ record rest { sections = s ∷ rest.sections })
    × (s.kind ≡ index + 1)
    × (s.record_size ≡ size)
    × (s.count ≡ count)
    × (checked_multiply count size ≡ some s.bytes)
    × (next ≤ s.offset)
    × (s.offset % 8 ≡ 0)
    × (s.offset + s.bytes ≤ max64)

-- Values of 64 bits are added and multiplied to values of 64 bits.
checked_add-some :
    (a b c : ℕ) → b ≤ max64 → checked_add a b ≡ some c → (c ≡ a + b) × (a + b ≤ max64)
checked_add-some a b c l h = elim (Bool-cases (ltb (max64 - b) a)) [
  | inl q ↦ absurd (ground (arith, rw q at h))
  | inr q ↦ (sym (some-inj (rw q at h)), ground arith)
]

pub checked_multiply-some :
    (a b c : ℕ) → checked_multiply a b ≡ some c → (c ≡ a * b) × (a * b ≤ max64)
checked_multiply-some zero b c h = (sym (some-inj h), omega arith)
checked_multiply-some (suc a) b c h = elim (Bool-cases (ltb (max64 / suc a) b)) [
  | inl q ↦ absurd (ground (arith, rw q at h))
  | inr q ↦
      let nonzero : (suc a == 0) ≡ false = ground arith in
      let l : b ≤ max64 / suc a = ground arith in
      (
        sym (some-inj (rw (nonzero, q) at h)),
        le_trans (mul-le-mul_left (suc a) l) (mul-div-le max64 (suc a)),
      )
]

align8-some : (next c : ℕ) → align8 next ≡ some c → (next ≤ c) × (c % 8 ≡ 0)
align8-some next c h =
    let a = and_then-some (checked_add next 7) _ c h in
    let e = checked_add-some next 7 a.0 (omega arith) a.1 in
    let f = some-inj a.2 in (omega (arith, e.0, f), omega (arith, e.0, f))

pub build_from_front :
    (index next count : ℕ) (counts : List ℕ) (size : ℕ) (sizes : List ℕ) (layout : Layout)
    → build_from index next (count ∷ counts) (size ∷ sizes) ≡ some layout
    → Front index next count counts size sizes layout
unfolding build_from
build_from_front index next count counts size sizes layout h =
    let a = and_then-some (align8 next) _ layout h in
    let b = and_then-some (checked_multiply count size) _ layout a.2 in
    let c = and_then-some (checked_add a.0 b.0) _ layout b.2 in
    let d = and_then-some (build_from (index + 1) c.0 counts sizes) _ layout c.2 in
    let m = checked_multiply-some count size b.0 b.1 in
    let n = checked_add-some a.0 b.0 c.0 (omega (arith, m.0, m.1)) c.1 in
    let al = align8-some next a.0 a.1 in
    (
      record { kind = index + 1; record_size = size; offset = a.0; bytes = b.0; count = count },
      d.0,
      subst (λ e. build_from (index + 1) e counts sizes ≡ some d.0) n.0 d.1,
      sym (some-inj d.2),
      refl,
      refl,
      refl,
      b.1,
      al.0,
      al.1,
      n.1,
    )

pub build_from_end :
    (index next : ℕ) (sizes : List ℕ) (layout : Layout)
    → build_from index next [] sizes ≡ some layout
    → layout ≡ record { sections = []; total = next }
unfolding build_from
build_from_end index next sizes layout h = sym (some-inj h)

-- The contents of the sections have the sizes that the counts say.
abbrev pub Sized : List ℕ → List ℕ → List Bytes → Type 0
Sized [] [] [] = Unit
Sized (n ∷ ns) (k ∷ ks) (c ∷ cs) = (length c ≡ n * k) × Sized ns ks cs
Sized _ _ _ = ⊥

-- A section is described as it lies among the bytes.
abbrev pub Placed : Bytes → ℕ → ℕ → Bytes → SectionDescriptor → Type 0
Placed bytes n k c s =
    LiesAt bytes s.offset c × (s.count ≡ n) × (s.record_size ≡ k) × (s.bytes ≡ length c)

abbrev pub AllPlaced : Bytes → List ℕ → List ℕ → List Bytes → List SectionDescriptor → Type 0
AllPlaced bytes [] [] [] [] = Unit
AllPlaced bytes (n ∷ ns) (k ∷ ks) (c ∷ cs) (s ∷ ss) =
    Placed bytes n k c s × AllPlaced bytes ns ks cs ss
AllPlaced bytes _ _ _ _ = ⊥

pub length-zero_bytes : (n : ℕ) → length (zero_bytes n) ≡ n
length-zero_bytes zero = refl
length-zero_bytes (suc n) = ap suc (length-zero_bytes n)

-- What lies behind the first section and the padding in front of it.
abbrev pub Behind : Bytes → ℕ → SectionDescriptor → Bytes → Bytes → Type 0
Behind bytes next s c rest =
    (before : Bytes) × (bytes ≡ before ++ (zero_bytes (s.offset - next) ++ (c ++ rest)))
    × (length before ≡ next)

front_placed :
    (bytes : Bytes) (next : ℕ) (s : SectionDescriptor) (c rest : Bytes)
    → Behind bytes next s c rest
    → next ≤ s.offset
    → LiesAt bytes s.offset c
front_placed bytes next s c rest b l = (
  b.0 ++ zero_bytes (s.offset - next),
  rest,
  b.1 ∙ sym (append_assoc b.0 (zero_bytes (s.offset - next)) (c ++ rest)),
  length-append b.0 (zero_bytes (s.offset - next))
      ∙ omega (arith, length-zero_bytes (s.offset - next), b.2),
)

-- The bytes that follow a section that has been placed.
pub Behind-next :
    (bytes : Bytes) (next : ℕ) (s : SectionDescriptor) (c rest : Bytes)
    → Behind bytes next s c rest
    → next ≤ s.offset
    → (before : Bytes) × (bytes ≡ before ++ rest) × (length before ≡ s.offset + length c)
unfolding front_placed
Behind-next bytes next s c rest b l =
    let p = front_placed bytes next s c rest b l in
    (
      p.0 ++ c,
      p.2 ∙ sym (append_assoc p.0 c rest),
      length-append p.0 c ∙ ap (λ n. n + length c) p.3,
    )

pub all_placed :
    (index next : ℕ) (counts sizes : List ℕ) (cs : List Bytes) (layout : Layout)
    (bytes before : Bytes)
    → build_from index next counts sizes ≡ some layout
    → Sized counts sizes cs
    → bytes ≡ before ++ place_sections next layout.sections cs
    → length before ≡ next
    → AllPlaced bytes counts sizes cs layout.sections
all_placed index next [] [] [] layout bytes before h z e l =
    subst (λ x. AllPlaced bytes [] [] [] x.sections) (sym (build_from_end index next [] layout h))
      tt
all_placed index next (n ∷ ns) (k ∷ ks) (c ∷ cs) layout bytes before h z e l =
    let f = build_from_front index next n ns k ks layout h in
    let s = f.0 in
    let m = checked_multiply-some n k s.bytes f.7 in
    let whole : s.bytes ≡ length c = m.0 ∙ sym z.0 in
    let e' = subst (λ x. bytes ≡ before ++ place_sections next x.sections (c ∷ cs)) f.3 e in
    let rest = place_sections (s.offset + s.bytes) f.1.sections cs in
    let b : Behind bytes next s c rest = (before, e', l) in
    let q = Behind-next bytes next s c rest b f.8 in
    subst (λ x. AllPlaced bytes (n ∷ ns) (k ∷ ks) (c ∷ cs) x.sections) (sym f.3)
      (
        (front_placed bytes next s c rest b f.8, f.6, f.5, whole),
        all_placed (index + 1) (s.offset + s.bytes) ns ks cs f.1 bytes q.0 f.2 z.1 q.1
            (q.2 ∙ ap (λ x. s.offset + x) (sym whole)),
      )
all_placed index next [] [] (c ∷ cs) layout bytes before h z e l = absurd z
all_placed index next [] (k ∷ ks) cs layout bytes before h z e l = absurd z
all_placed index next (n ∷ ns) [] cs layout bytes before h z e l = absurd z
all_placed index next (n ∷ ns) (k ∷ ks) [] layout bytes before h z e l = absurd z

-- The total is not below where the sections begin.
pub build_from_total :
    (index next : ℕ) (counts sizes : List ℕ) (layout : Layout)
    → length counts ≡ length sizes
    → build_from index next counts sizes ≡ some layout
    → next ≤ layout.total
build_from_total index next [] sizes layout q h =
    omega (arith, ap (λ x. x.total) (build_from_end index next sizes layout h))
build_from_total index next (n ∷ ns) [] layout q h = absurd (omega arith)
build_from_total index next (n ∷ ns) (k ∷ ks) layout q h =
    let f = build_from_front index next n ns k ks layout h in
    omega (
      arith,
      f.8,
      build_from_total (index + 1) (f.0.offset + f.0.bytes) ns ks f.1 (omega arith) f.2,
      ap (λ x. x.total) f.3,
    )

-- The total is a 64-bit number.
pub build_from_small :
    (index next : ℕ) (counts sizes : List ℕ) (layout : Layout)
    → length counts ≡ length sizes
    → next ≤ max64
    → build_from index next counts sizes ≡ some layout
    → layout.total ≤ max64
build_from_small index next [] sizes layout q m h =
    omega (arith, ap (λ x. x.total) (build_from_end index next sizes layout h))
build_from_small index next (n ∷ ns) [] layout q m h = absurd (omega arith)
build_from_small index next (n ∷ ns) (k ∷ ks) layout q m h =
    let f = build_from_front index next n ns k ks layout h in
    omega (
      arith,
      build_from_small (index + 1) (f.0.offset + f.0.bytes) ns ks f.1 (omega arith) f.10 f.2,
      ap (λ x. x.total) f.3,
    )
