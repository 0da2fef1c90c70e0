-- ===== src/Artifact/RoundTrip/Directory.antt =====
-- The directory of a written artifact passes validate_directory, with the sections that it was written from.
use server_entry.Prelude.{
  ℕ, zero, suc, ◌+◌, ◌-◌, ◌%◌, ◌<◌, ◌≤◌, ◌≡◌, refl, sym, ap, ◌∙◌, subst, Bool, true, ◌&&◌, List, [],
  ◌∷◌, ◌++◌, append_assoc, Option, some, arith, length, All, ◌==◌,
}
use server_entry.Strings.{Bytes}
use server_entry.Graph.Lookup.{and_then, when}
use server_entry.Artifact.{
  SectionDescriptor, Layout, build_from, checked_multiply, max64, read32, read64,
}
use server_entry.Artifact.Words.{read32-write32, read64-write64}
use server_entry.Artifact.Records.{skip, take}
use server_entry.Artifact.Encode.{place_sections, zero_bytes, write_all, write_entry}
use server_entry.Artifact.Decode.{validate_entries, read_entry, good_entry, zeros_between, all_zero}
use server_entry.Artifact.RoundTrip.Records.{take-append}
use server_entry.Artifact.RoundTrip.Sections.{LiesAt, skip-LiesAt, LiesAt-tail}
use server_entry.Artifact.RoundTrip.Layouts.{
  Sized, build_from_front, build_from_end, build_from_total, length-zero_bytes, Behind-next, Behind,
  checked_multiply-some,
}

abbrev EntryFits : SectionDescriptor → Type 0
EntryFits s =
    (s.kind < 0x100000000)
    × (s.record_size < 0x100000000)
    × (s.offset < 0x10000000000000000)
    × (s.bytes < 0x10000000000000000)
    × (s.count < 0x100000000)

read_entry-write_entry :
    (s : SectionDescriptor) (rest : Bytes)
    → EntryFits s
    → (read_entry (write_entry s ++ rest) ≡ s) × (read32 (skip 4 (write_entry s ++ rest)) ≡ 0)
read_entry-write_entry s rest h =
    let source = write_entry s ++ rest in
    let kind : read32 source ≡ s.kind = read32-write32 s.kind _ h.0 in
    let flags : read32 (skip 4 source) ≡ 0 = read32-write32 0 _ (omega arith) in
    let offset : read64 (skip 8 source) ≡ s.offset = read64-write64 s.offset _ h.2 in
    let bytes : read64 (skip 16 source) ≡ s.bytes = read64-write64 s.bytes _ h.3 in
    let count : read32 (skip 24 source) ≡ s.count = read32-write32 s.count _ h.4 in
    let size : read32 (skip 28 source) ≡ s.record_size = read32-write32 s.record_size rest h.1 in
    (rw (kind, offset, bytes, count, size) refl, flags)

all_zero-zero_bytes : (n : ℕ) → all_zero (zero_bytes n) ≡ true
all_zero-zero_bytes zero = refl
all_zero-zero_bytes (suc n) = all_zero-zero_bytes n

padding_zero :
    (bytes : Bytes) (next : ℕ) (s : SectionDescriptor) (c rest : Bytes)
    → Behind bytes next s c rest
    → zeros_between bytes next s.offset ≡ true
padding_zero bytes next s c rest b =
    let pad = zero_bytes (s.offset - next) in
    let l : LiesAt bytes next pad = (b.0, c ++ rest, b.1, b.2) in
    ap (λ x. all_zero (take (s.offset - next) x)) (skip-LiesAt bytes next pad l)
    ∙ ap (λ n. all_zero (take n (pad ++ (c ++ rest)))) (sym (length-zero_bytes (s.offset - next)))
    ∙ ap all_zero (take-append pad (c ++ rest))
    ∙ all_zero-zero_bytes (s.offset - next)

pub when-true {ℓ} : {A : Type ℓ} (b : Bool) (o : Option A) → b ≡ true → when b o ≡ o
when-true b o h = rw h refl

validate_entries_step :
    (bytes : Bytes) (position index next size : ℕ) (sizes : List ℕ) (s : SectionDescriptor)
    (ss : List SectionDescriptor)
    → read_entry (skip position bytes) ≡ s
    → read32 (skip 4 (skip position bytes)) ≡ 0
    → (good_entry (length bytes) index next size 0 s && zeros_between bytes next s.offset) ≡ true
    → validate_entries bytes (position + 32) (index + 1) (s.offset + s.bytes) sizes ≡ some ss
    → validate_entries bytes position index next (size ∷ sizes) ≡ some (s ∷ ss)
unfolding validate_entries
validate_entries_step bytes position index next size sizes s ss e f g r =
    subst
      (λ x.
        when
          (good_entry (length bytes) index next size (read32 (skip 4 (skip position bytes))) x
            && zeros_between bytes next x.offset)
          (and_then (validate_entries bytes (position + 32) (index + 1) (x.offset + x.bytes) sizes)
            (λ sections. some (x ∷ sections)))
        ≡ some (s ∷ ss))
      (sym e)
      (when-true _ _ (
          ap
            (λ n.
              good_entry (length bytes) index next size n s && zeros_between bytes next s.offset)
            f
          ∙ g)
        ∙ ap (λ o. and_then o (λ sections. some (s ∷ sections))) r)

validate_entries_end :
    (bytes : Bytes) (position index next : ℕ)
    → (next == length bytes) ≡ true
    → validate_entries bytes position index next [] ≡ some []
unfolding validate_entries
validate_entries_end bytes position index next h = rw h refl

good :
    (size index next k : ℕ) (s : SectionDescriptor)
    → s.kind ≡ index + 1
    → s.record_size ≡ k
    → checked_multiply s.count s.record_size ≡ some s.bytes
    → s.offset % 8 ≡ 0
    → next ≤ s.offset
    → s.offset + s.bytes ≤ size
    → good_entry size index next k 0 s ≡ true
good size index next k s a b c d e f = rw c (ground arith)

sized_lengths : (ns ks : List ℕ) (cs : List Bytes) → Sized ns ks cs → length ns ≡ length ks
sized_lengths [] [] [] z = refl
sized_lengths (n ∷ ns) (k ∷ ks) (c ∷ cs) z = ap suc (sized_lengths ns ks cs z.1)
sized_lengths [] [] (c ∷ cs) z = absurd z
sized_lengths [] (k ∷ ks) cs z = absurd z
sized_lengths (n ∷ ns) [] cs z = absurd z
sized_lengths (n ∷ ns) (k ∷ ks) [] z = absurd z

pub validate_entries-written :
    (index next position : ℕ) (counts sizes : List ℕ) (cs : List Bytes) (layout : Layout)
    (bytes tail before : Bytes)
    → build_from index next counts sizes ≡ some layout
    → Sized counts sizes cs
    → LiesAt bytes position (write_all write_entry layout.sections ++ tail)
    → bytes ≡ before ++ place_sections next layout.sections cs
    → length before ≡ next
    → length bytes ≡ layout.total
    → layout.total ≤ max64
    → All (λ n. n < 0x100000000) counts
    → All (λ n. n < 0x100000000) sizes
    → index + length sizes < 0x100000000
    → validate_entries bytes position index next sizes ≡ some layout.sections
validate_entries-written index next position [] [] [] layout bytes tail before h z d e l t m cf sf
      i =
    let q = build_from_end index next [] layout h in
    let x = ap (λ y. y.total) q in
    validate_entries_end bytes position index next (ground (arith, t, x))
    ∙ ap (λ y. some y.sections) (sym q)
validate_entries-written index next position (n ∷ ns) (k ∷ ks) (c ∷ cs) layout bytes tail before h z
      d e l t m cf sf i =
    let f = build_from_front index next n ns k ks layout h in
    let s = f.0 in
    let rest = f.1 in
    let total : layout.total ≡ rest.total = ap (λ x. x.total) f.3 in
    let same = ap (λ x. x.sections) f.3 in
    let d' = subst (λ x. LiesAt bytes position (write_all write_entry x ++ tail)) same d in
    let entries = write_all write_entry rest.sections in
    let d'' = subst (λ x. LiesAt bytes position x) (append_assoc (write_entry s) entries tail) d' in
    let here =
      skip-LiesAt bytes position (write_entry s ++ (entries ++ tail)) d''
      ∙ append_assoc (write_entry s) (entries ++ tail) d''.1 in
    let e' = subst (λ x. bytes ≡ before ++ place_sections next x (c ∷ cs)) same e in
    let body = place_sections (s.offset + s.bytes) rest.sections cs in
    let b : Behind bytes next s c body = (before, e', l) in
    let q = Behind-next bytes next s c body b f.8 in
    let w = (checked_multiply-some n k s.bytes f.7).0 ∙ sym z.0 in
    let lengths = sized_lengths ns ks cs z.1 in
    let inside = build_from_total (index + 1) (s.offset + s.bytes) ns ks rest lengths f.2 in
    let fits : EntryFits s = (
      omega (arith, f.4),
      omega (arith, f.5, sf.0),
      omega (arith, f.10),
      omega (arith, f.10),
      omega (arith, f.6, cf.0),
    ) in
    let r = read_entry-write_entry s ((entries ++ tail) ++ d''.1) fits in
    let multiplied =
      ap (λ x. checked_multiply x s.record_size) f.6 ∙ ap (checked_multiply n) f.5 ∙ f.7 in
    let g =
      good (length bytes) index next k s f.4 f.5 multiplied f.9 f.8
        (omega (arith, inside, total, t)) in
    let p = padding_zero bytes next s c body b in
    validate_entries_step bytes position index next k ks s rest.sections (ap read_entry here ∙ r.0)
      (ap (λ x. read32 (skip 4 x)) here ∙ r.1) (ground (arith, g, p))
      (validate_entries-written (index + 1) (s.offset + s.bytes) (position + 32) ns ks cs rest bytes
        tail q.0 f.2 z.1 (LiesAt-tail bytes position (write_entry s) (entries ++ tail) d'') q.1
        (q.2 ∙ ap (λ x. s.offset + x) (sym w)) (t ∙ total) (omega (arith, total)) cf.1 sf.1
        (omega arith))
    ∙ ap (λ x. some x.sections) (sym f.3)
validate_entries-written index next position [] [] (c ∷ cs) layout bytes tail before h z d e l t m
      cf sf i =
    absurd z
validate_entries-written index next position [] (k ∷ ks) cs layout bytes tail before h z d e l t m
      cf sf i =
    absurd z
validate_entries-written index next position (n ∷ ns) [] cs layout bytes tail before h z d e l t m
      cf sf i =
    absurd z
validate_entries-written index next position (n ∷ ns) (k ∷ ks) [] layout bytes tail before h z d e l
      t m cf sf i =
    absurd z
