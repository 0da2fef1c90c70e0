-- ===== src/Artifact/RoundTrip/Project.antt =====
-- A project is decoded from the artifact that it is written to.
use server_entry.Prelude.{
  ℕ, ◌≤◌, ◌≡◌, refl, sym, ap, ◌∙◌, true, [], ◌++◌, append_assoc, append-nil, some, arith, length,
  length-append,
}
use server_entry.Strings.{Bytes}
use server_entry.Graph.Compiled.Inversion.{and_then-some, when-some}
use server_entry.Artifact.{
  CompiledProject, Layout, build_sections, build_from, string_total, section_counts,
  section_record_sizes, all_fit, max64, data_offset, crc32c, write32,
}
use server_entry.Artifact.Encode.{
  sealed, payload, header_with, write_all, write_entry, place_sections, section_contents,
  zero_bytes,
}
use server_entry.Artifact.Decode.{decoded, validate_header, validate_directory, stored_abi}
use server_entry.Artifact.RoundTrip.Layouts.{
  Sized, AllPlaced, all_placed, build_from_total, build_from_small,
}
use server_entry.Artifact.RoundTrip.Directory.{validate_entries-written}
use server_entry.Artifact.RoundTrip.Header.{
  opened, header_with-opened, validate_header-opened, crc32c-bound,
}
use server_entry.Artifact.RoundTrip.Sizes.{
  length-write_all, sized, length-place_sections, length-sections,
}
use server_entry.Artifact.RoundTrip.Graphs.{
  Encodable, abi_back, graph_back, strings_back, all_fit-All, decoded_by,
}

module _ (sha256 : Bytes → Bytes) (digest : (xs : Bytes) → length (sha256 xs) ≡ 32)
    (p : CompiledProject) (layout : Layout) (total : ℕ)
    (stored : string_total p.strings 0 ≡ some total) (fit : all_fit (section_counts p total) ≡ true)
    (built : build_from 0 data_offset (section_counts p total) section_record_sizes ≡ some layout)
    (small : layout.total ≤ max64) (e : Encodable p) where
  abbrev hash : Bytes
  hash = sha256 (payload p layout)

  abbrev crc : ℕ
  crc = crc32c (header_with layout.total p.graph.abi hash 0)

  abbrev front : Bytes
  front = header_with layout.total p.graph.abi hash crc

  abbrev entries : Bytes
  entries = write_all write_entry layout.sections

  abbrev body : Bytes
  body = place_sections data_offset layout.sections (section_contents p)

  length-front : length front ≡ 128
  length-front =
      omega (arith, length-append hash (write32 crc ++ zero_bytes 20), digest (payload p layout))

  sizes : Sized (section_counts p total) section_record_sizes (section_contents p)
  sizes = sized p total stored

  length-entries : length entries ≡ 256
  length-entries = omega (
    arith,
    length-write_all write_entry 32 layout.sections (λ s. refl),
    length-sections 0 data_offset (section_counts p total) section_record_sizes (section_contents p)
        layout sizes built,
  )

  length-whole : length (front ++ (entries ++ body)) ≡ layout.total
  length-whole = omega (
    arith,
    length-append front (entries ++ body),
    length-append entries body,
    length-front,
    length-entries,
    length-place_sections 0 data_offset (section_counts p total) section_record_sizes
        (section_contents p) layout sizes built,
  )

  above : 384 ≤ layout.total
  above =
      build_from_total 0 data_offset (section_counts p total) section_record_sizes layout refl built

  whole_opened :
      front ++ (entries ++ body) ≡ opened layout.total p.graph.abi hash crc (entries ++ body)
  whole_opened = header_with-opened layout.total p.graph.abi hash crc (entries ++ body)

  header_good : validate_header sha256 (front ++ (entries ++ body)) ≡ true
  header_good =
      ap (validate_header sha256) whole_opened
      ∙ validate_header-opened layout.total p.graph.abi hash crc (entries ++ body)
          (digest (payload p layout)) sha256 (sym length-whole ∙ ap length whole_opened) above small
          (crc32c-bound _) refl refl

  split_body : front ++ (entries ++ body) ≡ (front ++ entries) ++ body
  split_body = sym (append_assoc front entries body)

  length-before : length (front ++ entries) ≡ 384
  length-before = omega (arith, length-append front entries, length-front, length-entries)

  directory_good : validate_directory (front ++ (entries ++ body)) ≡ some layout.sections
  directory_good =
      validate_entries-written 0 data_offset 128 (section_counts p total) section_record_sizes
        (section_contents p) layout (front ++ (entries ++ body)) body (front ++ entries) built sizes
        (front, [], ap (λ x. front ++ x) (sym (append-nil (entries ++ body))), length-front)
        split_body length-before length-whole small (all_fit-All (section_counts p total) fit)
        (all_fit-All section_record_sizes refl) (omega arith)

  placed :
      AllPlaced
        (front ++ (entries ++ body))
        (section_counts p total)
        section_record_sizes
        (section_contents p)
        layout.sections
  placed =
      all_placed 0 data_offset (section_counts p total) section_record_sizes (section_contents p)
        layout (front ++ (entries ++ body)) (front ++ entries) built sizes split_body length-before

  decoded-whole : decoded sha256 (front ++ (entries ++ body)) ≡ some p
  decoded-whole =
      decoded_by sha256 (front ++ (entries ++ body)) layout.sections p header_good directory_good
        (ap stored_abi whole_opened
          ∙ abi_back layout.total p.graph.abi hash crc (entries ++ body) e.7)
        e.7 (strings_back p total (front ++ (entries ++ body)) layout.sections placed e)
        (graph_back p total (front ++ (entries ++ body)) layout.sections placed e) e.8

-- A project that is encodable is decoded from the artifact that it is written to, with the layout that build_sections computes, whatever hash of 32 bytes `sha256` is.
pub decoded-sealed :
    (sha256 : Bytes → Bytes) (p : CompiledProject) (layout : Layout)
    → ((xs : Bytes) → length (sha256 xs) ≡ 32)
    → Encodable p
    → build_sections p ≡ some layout
    → decoded sha256 (sealed sha256 p layout) ≡ some p
unfolding sealed build_sections
decoded-sealed sha256 p layout digest e h =
    let a = and_then-some (string_total p.strings 0) _ layout h in
    let b = when-some (all_fit (section_counts p a.0)) _ layout a.2 in
    decoded-whole sha256 digest p layout a.0 a.1 b.0 b.1
      (build_from_small 0 data_offset (section_counts p a.0) section_record_sizes layout refl
        (omega arith) b.1)
      e
