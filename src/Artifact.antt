-- ===== src/Artifact.antt =====
-- project/graph/compiled_persistence.cpp: the binary artifact of a compiled project. A pointer into
-- the bytes is the list of the bytes from there on. SHA-256 is the parameter `sha256`.
pub mod Words
pub mod Records
pub mod Encode
pub mod Decode
pub mod RoundTrip
pub mod Examples
use server_entry.Prelude.{
  ℕ, zero, suc, ◌+◌, ◌-◌, ◌*◌, ◌/◌, ◌%◌, ◌^◌, Bool, true, false, not, ◌&&◌, ◌||◌, List, [], ◌∷◌,
  ◌++◌, Option, none, some, ltb, leb, ◌==◌, if◌then◌else◌, map, length, get_or, bit_or, bytes_eq,
}
use Prim.Native.Nat.{bit_and, bit_xor}
use server_entry.Prelude.Bits.{shl, shr, to_u32}
use server_entry.Strings.{Status, ok, initialization_failed, artifact_corrupt, Bytes}
use server_entry.Graph.Compiled.{CompiledGraphState}
use server_entry.Graph.Lookup.{and_then, when}

-- compiled_project_state
pub record CompiledProject : Type 0 where
  pub strings : List (Option Bytes)
  pub graph : CompiledGraphState

abbrev pub header_size : ℕ
header_size = 128

abbrev pub section_entry_size : ℕ
section_entry_size = 32

abbrev pub section_count : ℕ
section_count = 8

-- directory_offset + section_entry_size * section_count
abbrev pub data_offset : ℕ
data_offset = 384

abbrev pub magic : Bytes
magic = b'C' ∷ b'W' ∷ b'C' ∷ b'O' ∷ b'M' ∷ b'P' ∷ b'I' ∷ b'1' ∷ []

-- The sizes of the records of strings, string bytes, identities, entities, types, enum values,
-- members and canonical types.
abbrev pub section_record_sizes : List ℕ
section_record_sizes = 8 ∷ 1 ∷ 4 ∷ 16 ∷ 16 ∷ 16 ∷ 8 ∷ 16 ∷ []

pub record SectionDescriptor : Type 0 where
  pub kind : ℕ
  pub record_size : ℕ
  pub offset : ℕ
  pub bytes : ℕ
  pub count : ℕ

-- (value >> (index * 8)) & 0xff, for `count` bytes from `index` on.
abbrev pub write_bytes : ℕ → ℕ → ℕ → Bytes
write_bytes zero index value = []
write_bytes (suc count) index value =
    (shr value (index * 8) % 256) ∷ write_bytes count (index + 1) value

abbrev pub write16 : ℕ → Bytes
write16 value = write_bytes 2 0 value

abbrev pub write32 : ℕ → Bytes
write32 value = write_bytes 4 0 value

abbrev pub write64 : ℕ → Bytes
write64 value = write_bytes 8 0 value

-- value |= byte << (index * 8), for `count` bytes from `index` on.
abbrev pub read_bytes : ℕ → ℕ → ℕ → Bytes → ℕ
read_bytes zero index value source = value
read_bytes (suc count) index value [] = value
read_bytes (suc count) index value (byte ∷ source) =
    read_bytes count (index + 1) (bit_or value (shl byte (index * 8))) source

unfoldable pub read16 : Bytes → ℕ
read16 source = read_bytes 2 0 0 source

unfoldable pub read32 : Bytes → ℕ
read32 source = read_bytes 4 0 0 source

unfoldable pub read64 : Bytes → ℕ
read64 source = read_bytes 8 0 0 source

-- One of the eight rounds on each byte.
abbrev pub crc_bit : ℕ → ℕ
crc_bit crc = bit_xor (crc / 2) (if bit_and crc 1 == 0 then 0 else 0x82f63b78)

abbrev pub crc_bits : ℕ → ℕ → ℕ
crc_bits zero crc = crc
crc_bits (suc n) crc = crc_bits n (crc_bit crc)

abbrev pub crc_loop : ℕ → Bytes → ℕ
crc_loop crc [] = crc
crc_loop crc (byte ∷ bytes) = crc_loop (crc_bits 8 (bit_xor crc byte)) bytes

-- `~` on 32 bits.
unfoldable pub crc32c : Bytes → ℕ
crc32c bytes = 0xffffffff - crc_loop 0xffffffff bytes

abbrev pub max64 : ℕ
max64 = 0xffffffffffffffff

abbrev pub checked_add : ℕ → ℕ → Option ℕ
checked_add left right = if ltb (max64 - right) left then none else some (left + right)

abbrev pub checked_multiply : ℕ → ℕ → Option ℕ
checked_multiply left right =
    if not (left == 0) && ltb (max64 / left) right then none else some (left * right)

-- `& ~7` clears the three low bits.
abbrev pub align8 : ℕ → Option ℕ
align8 value = and_then (checked_add value 7) (λ adjusted. some (adjusted / 8 * 8))

-- Where the sections end, and the sections.
pub record Layout : Type 0 where
  pub sections : List SectionDescriptor
  pub total : ℕ

-- The loop of build_sections from `index` on, `next` bytes being taken.
unfoldable pub build_from : ℕ → ℕ → List ℕ → List ℕ → Option Layout
build_from index next [] sizes = some (record { sections = []; total = next })
build_from index next (count ∷ counts) [] = some (record { sections = []; total = next })
build_from index next (count ∷ counts) (size ∷ sizes) = and_then (align8 next) (λ offset.
    and_then (checked_multiply count size) (λ bytes. and_then (checked_add offset bytes) (λ end.
      and_then (build_from (index + 1) end counts sizes) (λ rest. some (record rest {
        sections =
            (record {
              kind = index + 1;
              record_size = size;
              offset = offset;
              bytes = bytes;
              count = count;
            })
            ∷ rest.sections;
      })))))

-- string_bytes
abbrev pub string_total : List (Option Bytes) → ℕ → Option ℕ
string_total [] total = some total
string_total (none ∷ strings) total = string_total strings total
string_total (some value ∷ strings) total =
    and_then (checked_add total (length value)) (λ total'. string_total strings total')

abbrev pub section_counts : CompiledProject → ℕ → List ℕ
section_counts p total =
    length p.strings
    ∷ total
    ∷ length p.graph.identities
    ∷ length p.graph.entities
    ∷ length p.graph.types
    ∷ length p.graph.enum_values
    ∷ length p.graph.members
    ∷ length p.graph.canonical_types
    ∷ []

abbrev pub all_fit : List ℕ → Bool
all_fit [] = true
all_fit (n ∷ ns) = leb n 0xffffffff && all_fit ns

-- `none` is the return of initialization_failed.
unfoldable pub build_sections : CompiledProject → Option Layout
build_sections p = and_then (string_total p.strings 0) (λ total.
    when (all_fit (section_counts p total))
      (build_from 0 data_offset (section_counts p total) section_record_sizes))
