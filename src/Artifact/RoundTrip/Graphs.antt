-- ===== src/Artifact/RoundTrip/Graphs.antt =====
-- The sections of strings and of the graph are read back from where they are placed.
use server_entry.Prelude.{
  ℕ, zero, suc, ◌<◌, ◌≡◌, refl, ap, ◌∙◌, Bool, true, not, List, [], ◌∷◌, Option, none, some, arith,
  length, All, if◌then◌else◌, get_or,
}
use server_entry.Types.{
  AbiConfiguration, is_supported_abi_configuration, is_supported_abi_target, AbiTarget, windows_x64,
  posix_x64, unknown_target,
}
use server_entry.Strings.{Bytes}
use server_entry.Graph.Lookup.{and_then}
use server_entry.Artifact.{
  CompiledProject, SectionDescriptor, section_counts, section_record_sizes, all_fit, read32,
  write32,
}
use server_entry.Artifact.Words.{read32-write32}
use server_entry.Artifact.Records.{
  skip, read_identity, read_entity, read_type, read_enum_value, read_member, read_canonical,
  read_string, write_entity, write_type, write_enum_value, write_member, write_canonical,
}
use server_entry.Artifact.Encode.{
  write_all, section_contents, write_strings, stored_bytes, target_code,
}
use server_entry.Artifact.Decode.{
  decoded, validate_header, validate_directory, validate_cross_references, decode_strings,
  decode_graph_sections, stored_abi, to_target, section, read_section, read_all,
}
use server_entry.Artifact.RoundTrip.Records.{
  EntityFits, ValueFits, MemberFits, CanonicalFits, TypeFits, read_entity-write_entity,
  read_type-write_type, read_enum_value-write_enum_value, read_member-write_member,
  read_canonical-write_canonical, read_identity-write32,
}
use server_entry.Artifact.RoundTrip.Sections.{
  skip-LiesAt, ReadBack, read_all-write_all, read_all-write_strings,
}
use server_entry.Artifact.RoundTrip.Layouts.{Placed, AllPlaced}
use server_entry.Artifact.RoundTrip.Directory.{when-true}
use server_entry.Artifact.RoundTrip.Header.{opened}
use server_entry.Artifact.RoundTrip.Sizes.{length-write_type}

-- The values of a project lie in the ranges of the fields they are written to, the types lie in their arenas, the target is supported and the references between the arrays hold.
abbrev pub Encodable : CompiledProject → Type 0
Encodable p =
    All (λ n. n < 0x100000000) p.graph.identities
    × All EntityFits p.graph.entities
    × All (TypeFits (length p.graph.members) (length p.graph.enum_values)) p.graph.types
    × All ValueFits p.graph.enum_values
    × All MemberFits p.graph.members
    × All CanonicalFits p.graph.canonical_types
    × (length (stored_bytes p.strings) < 0xffffffff)
    × (is_supported_abi_configuration p.graph.abi ≡ true)
    × (validate_cross_references p ≡ true)

-- The section at a position.
Placed-at :
    (i : ℕ) (bytes : Bytes) (ns ks : List ℕ) (cs : List Bytes) (ss : List SectionDescriptor)
    → AllPlaced bytes ns ks cs ss
    → i < length ns
    → Placed bytes (get_or ns i 0) (get_or ks i 0) (get_or cs i []) (section ss i)
Placed-at i bytes [] [] [] [] a h = absurd (omega arith)
Placed-at zero bytes (n ∷ ns) (k ∷ ks) (c ∷ cs) (s ∷ ss) a h = a.0
Placed-at (suc i) bytes (n ∷ ns) (k ∷ ks) (c ∷ cs) (s ∷ ss) a h =
    Placed-at i bytes ns ks cs ss a.1 (omega arith)
Placed-at i bytes [] [] [] (s ∷ ss) a h = absurd a
Placed-at i bytes [] [] (c ∷ cs) ss a h = absurd a
Placed-at i bytes [] (k ∷ ks) cs ss a h = absurd a
Placed-at i bytes (n ∷ ns) [] cs ss a h = absurd a
Placed-at i bytes (n ∷ ns) (k ∷ ks) [] ss a h = absurd a
Placed-at i bytes (n ∷ ns) (k ∷ ks) (c ∷ cs) [] a h = absurd a

All-imp {ℓ κ μ} :
    {A : Type ℓ} (P : A → Type κ) (Q : A → Type μ)
    → ((x : A) → P x → Q x)
    → (xs : List A) → All P xs
    → All Q xs
All-imp P Q h [] a = tt
All-imp P Q h (x ∷ xs) a = (h x a.0, All-imp P Q h xs a.1)

read-Placed {ℓ} :
    {A : Type ℓ} (read : Bytes → Option A) (write : A → Bytes) (k : ℕ) (xs : List A) (bytes : Bytes)
    (s : SectionDescriptor)
    → Placed bytes (length xs) k (write_all write xs) s
    → All (ReadBack read write k) xs
    → read_section read bytes s ≡ some xs
read-Placed read write k xs bytes s p a =
    ap (λ m. read_all read m bytes s.offset s.count) p.2
    ∙ ap (read_all read k bytes s.offset) p.1
    ∙ read_all-write_all read write k bytes s.offset xs a p.0

read_strings-Placed :
    (strings : List (Option Bytes)) (bytes : Bytes) (s t : SectionDescriptor) (total : ℕ)
    → Placed bytes (length strings) 8 (write_strings 0 strings) s
    → Placed bytes total 1 (stored_bytes strings) t
    → length (stored_bytes strings) < 0xffffffff
    → read_section (read_string (skip t.offset bytes) t.bytes) bytes s ≡ some strings
read_strings-Placed strings bytes s t total p q h =
    ap (λ m. read_all (read_string (skip t.offset bytes) t.bytes) m bytes s.offset s.count) p.2
    ∙ ap (read_all (read_string (skip t.offset bytes) t.bytes) 8 bytes s.offset) p.1
    ∙ ap (λ x. read_all (read_string x t.bytes) 8 bytes s.offset (length strings))
        (skip-LiesAt bytes t.offset (stored_bytes strings) q.0)
    ∙ read_all-write_strings bytes s.offset t.bytes [] q.0.1 strings (omega (arith, q.3))
        (omega (arith, q.3)) p.0

target_back :
    (t : AbiTarget)
    → is_supported_abi_target t ≡ true
    → (to_target (target_code t) ≡ t) × (target_code t < 0x100000000)
target_back windows_x64 h = (refl, omega arith)
target_back posix_x64 h = (refl, omega arith)
target_back (unknown_target n) h = absurd (ground arith)

pub abi_back :
    (size : ℕ) (abi : AbiConfiguration) (hash : Bytes) (crc : ℕ) (rest : Bytes)
    → is_supported_abi_configuration abi ≡ true
    → stored_abi (opened size abi hash crc rest) ≡ abi
abi_back size abi hash crc rest h =
    let whole = opened size abi hash crc rest in
    let supported : is_supported_abi_target abi.target ≡ true = ground arith in
    let small : abi.pack < 0x100000000 = ground arith in
    let t = target_back abi.target supported in
    let target : read32 (skip 40 whole) ≡ target_code abi.target =
      read32-write32 (target_code abi.target) _ t.1 in
    let pack : read32 (skip 44 whole) ≡ abi.pack = read32-write32 abi.pack _ small in
    rw (target, pack, t.0) refl

then_some {ℓ κ} :
    {A : Type ℓ} {B : Type κ} (o : Option A) (f : A → Option B) (x : A)
    → o ≡ some x
    → and_then o f ≡ f x
then_some o f x h = ap (λ y. and_then y f) h

module _ (p : CompiledProject) (total : ℕ) (bytes : Bytes) (ss : List SectionDescriptor)
    (a : AllPlaced bytes (section_counts p total) section_record_sizes (section_contents p) ss)
    (e : Encodable p) where
  at_section :
      (i : ℕ)
      → i < 8
      → Placed bytes
          (get_or (section_counts p total) i 0)
          (get_or section_record_sizes i 0)
          (get_or (section_contents p) i [])
          (section ss i)
  at_section i h =
      Placed-at i bytes (section_counts p total) section_record_sizes (section_contents p) ss a h

  types_back :
      read_section (read_type (section ss 6).count (section ss 5).count) bytes (section ss 4)
      ≡ some p.graph.types
  types_back =
      let s4 = at_section 4 (omega arith) in
      let s5 = at_section 5 (omega arith) in
      let s6 = at_section 6 (omega arith) in
      let members = length p.graph.members in
      let values = length p.graph.enum_values in
      ap (λ n. read_section (read_type n (section ss 5).count) bytes (section ss 4)) s6.1
      ∙ ap (λ n. read_section (read_type members n) bytes (section ss 4)) s5.1
      ∙ read-Placed (read_type members values) write_type 16 p.graph.types bytes (section ss 4) s4 (
          All-imp (TypeFits members values) _
            (λ t f. (λ rest. read_type-write_type members values t rest f, length-write_type t))
            p.graph.types e.2)

  -- The sections of the graph are read back.
  pub graph_back : decode_graph_sections bytes ss p.graph.abi ≡ some p.graph
  graph_back =
      let identities =
        read-Placed read_identity write32 4 p.graph.identities bytes (section ss 2)
          (at_section 2 (omega arith))
          (All-imp (λ n. n < 0x100000000) _ (λ n f. (λ rest. read_identity-write32 n rest f, refl))
            p.graph.identities e.0) in
      let entities =
        read-Placed read_entity write_entity 16 p.graph.entities bytes (section ss 3)
          (at_section 3 (omega arith))
          (All-imp EntityFits _ (λ x f. (λ rest. read_entity-write_entity x rest f, refl))
            p.graph.entities e.1) in
      let values =
        read-Placed read_enum_value write_enum_value 16 p.graph.enum_values bytes (section ss 5)
          (at_section 5 (omega arith))
          (All-imp ValueFits _ (λ x f. (λ rest. read_enum_value-write_enum_value x rest f, refl))
            p.graph.enum_values e.3) in
      let members =
        read-Placed read_member write_member 8 p.graph.members bytes (section ss 6)
          (at_section 6 (omega arith))
          (All-imp MemberFits _ (λ x f. (λ rest. read_member-write_member x rest f, refl))
            p.graph.members e.4) in
      let canonical =
        read-Placed read_canonical write_canonical 16 p.graph.canonical_types bytes (section ss 7)
          (at_section 7 (omega arith))
          (All-imp CanonicalFits _ (λ x f. (λ rest. read_canonical-write_canonical x rest f, refl))
            p.graph.canonical_types e.5) in
      then_some (read_section read_identity bytes (section ss 2)) _ p.graph.identities identities
      ∙ then_some (read_section read_entity bytes (section ss 3)) _ p.graph.entities entities
      ∙ then_some (read_section read_enum_value bytes (section ss 5)) _ p.graph.enum_values values
      ∙ then_some (read_section read_member bytes (section ss 6)) _ p.graph.members members
      ∙ then_some
          (read_section (read_type (section ss 6).count (section ss 5).count) bytes (section ss 4))
          _ p.graph.types types_back
      ∙ then_some (read_section read_canonical bytes (section ss 7)) _ p.graph.canonical_types
          canonical

  pub strings_back : decode_strings bytes ss ≡ some p.strings
  strings_back =
      read_strings-Placed p.strings bytes (section ss 0) (section ss 1) total
        (at_section 0 (omega arith)) (at_section 1 (omega arith)) e.6

pub all_fit-All : (ns : List ℕ) → all_fit ns ≡ true → All (λ n. n < 0x100000000) ns
all_fit-All [] h = tt
all_fit-All (n ∷ ns) h = (ground arith, all_fit-All ns (ground arith))

passed {ℓ} : {A : Type ℓ} (b : Bool) (o : Option A) → b ≡ true → (if not b then none else o) ≡ o
passed b o h = rw h refl

pub decoded_by :
    (sha256 : Bytes → Bytes) (bytes : Bytes) (ss : List SectionDescriptor) (p : CompiledProject)
    → validate_header sha256 bytes ≡ true
    → validate_directory bytes ≡ some ss
    → stored_abi bytes ≡ p.graph.abi
    → is_supported_abi_configuration p.graph.abi ≡ true
    → decode_strings bytes ss ≡ some p.strings
    → decode_graph_sections bytes ss p.graph.abi ≡ some p.graph
    → validate_cross_references p ≡ true
    → decoded sha256 bytes ≡ some p
unfolding decoded
decoded_by sha256 bytes ss p h d a s t g c =
    passed (validate_header sha256 bytes) _ h
    ∙ then_some (validate_directory bytes) _ ss d
    ∙ passed (is_supported_abi_configuration (stored_abi bytes)) _
        (ap is_supported_abi_configuration a ∙ s)
    ∙ then_some (decode_strings bytes ss) _ p.strings t
    ∙ then_some (decode_graph_sections bytes ss (stored_abi bytes)) _ p.graph
        (ap (decode_graph_sections bytes ss) a ∙ g)
    ∙ when-true (validate_cross_references p) (some p) c
