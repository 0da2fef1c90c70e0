-- ===== src/Artifact/RoundTrip/Records.antt =====
-- A record of a section is read back from the bytes that it is written as.
use server_entry.Prelude.{
  ℕ, ◌+◌, ◌-◌, ◌<◌, ◌≤◌, ◌⊎◌, ◌≡◌, refl, ap, ◌∙◌, Bool, true, false, not, ◌&&◌, ◌||◌, List, [], ◌∷◌,
  ◌++◌, Option, none, some, ltb, ◌==◌, if◌then◌else◌, arith, inl, inr, length,
}
use server_entry.Types.{
  BuiltinType, code, void_type, boolean, character, signed_character, unsigned_character,
  short_integer, unsigned_short_integer, integer, unsigned_integer, long_integer,
  unsigned_long_integer, long_long_integer, unsigned_long_long_integer, wide_character, character_8,
  character_16, character_32, floating, double_floating, long_double_floating,
}
use server_entry.Graph.{
  EntityKind, aggregate_type, enum_type, UserTypeKind, aggregate, enumeration, EnumEntry,
  DefinitionRange, TypeEntry, no_enum,
}
use server_entry.Graph.Lookup.{is_aggregate}
use server_entry.Graph.Compiled.{
  CompiledEntitySlot, CompiledEnumValue, CompiledTypeSlot, CompiledMember, CompiledCanonicalType,
}
use server_entry.Graph.Compiled.Arrays.{good_definition}
use server_entry.Strings.{Bytes}
use server_entry.Artifact.Encode.{contents}
use server_entry.Artifact.{read16, read32, read64, write16, write32}
use server_entry.Artifact.Words.{read16-write16, read32-write32, read64-write64}
use server_entry.Artifact.Records.{
  skip, flag, entity_code, user_code, to_entity_kind, to_user_kind, to_builtin, write_entity,
  read_entity, write_enum_value, read_enum_value, write_member, read_member, dead_type, write_type,
  read_type, write_live_type, live_type, write_canonical, read_canonical, read_identity,
  write_string, read_string, take,
}

pub skip-append {ℓ} : {A : Type ℓ} (xs ys : List A) → skip (length xs) (xs ++ ys) ≡ ys
skip-append [] ys = refl
skip-append (x ∷ xs) ys = skip-append xs ys

pub take-append {ℓ} : {A : Type ℓ} (xs ys : List A) → take (length xs) (xs ++ ys) ≡ xs
take-append [] ys = refl
take-append (x ∷ xs) ys = ap (λ t. x ∷ t) (take-append xs ys)

abbrev pub EntityFits : CompiledEntitySlot → Type 0
EntityFits e =
    (e.name < 0x100000000)
    × (e.handle < 0x100000000)
    × ((e.name == 0 && not (e.handle == 0)) ≡ false)

entity_kind_back :
    (k : EntityKind) → (ltb 1 (entity_code k) ≡ false) × (to_entity_kind (entity_code k) ≡ k)
entity_kind_back aggregate_type = (refl, refl)
entity_kind_back enum_type = (refl, refl)

user_kind_back :
    (k : UserTypeKind) → (ltb 1 (user_code k) ≡ false) × (to_user_kind (user_code k) ≡ k)
user_kind_back aggregate = (refl, refl)
user_kind_back enumeration = (refl, refl)

flag_back : (b : Bool) → (ltb 1 (flag b) ≡ false) × (not (flag b == 0) ≡ b)
flag_back true = (refl, refl)
flag_back false = (refl, refl)

to_builtin-code : (t : BuiltinType) → to_builtin (code t) ≡ t
to_builtin-code boolean = refl
to_builtin-code character = refl
to_builtin-code signed_character = refl
to_builtin-code unsigned_character = refl
to_builtin-code short_integer = refl
to_builtin-code unsigned_short_integer = refl
to_builtin-code integer = refl
to_builtin-code unsigned_integer = refl
to_builtin-code long_integer = refl
to_builtin-code unsigned_long_integer = refl
to_builtin-code long_long_integer = refl
to_builtin-code unsigned_long_long_integer = refl
to_builtin-code wide_character = refl
to_builtin-code character_8 = refl
to_builtin-code character_16 = refl
to_builtin-code character_32 = refl
to_builtin-code floating = refl
to_builtin-code double_floating = refl
to_builtin-code long_double_floating = refl
to_builtin-code void_type = refl

pub read_entity-write_entity :
    (e : CompiledEntitySlot) (rest : Bytes)
    → EntityFits e
    → read_entity (write_entity e ++ rest) ≡ some e
unfolding read_entity
read_entity-write_entity e rest h =
    let source = write_entity e ++ rest in
    let pad : read16 (skip 2 source) ≡ 0 = read16-write16 0 _ (omega arith) in
    let name : read32 (skip 4 source) ≡ e.name = read32-write32 e.name _ h.0 in
    let handle : read32 (skip 8 source) ≡ e.handle = read32-write32 e.handle _ h.1 in
    let last : read32 (skip 12 source) ≡ 0 = read32-write32 0 rest (omega arith) in
    let k = entity_kind_back e.kind in rw (pad, name, handle, last, h.2, k.0, k.1) refl

abbrev pub ValueFits : CompiledEnumValue → Type 0
ValueFits v = (v.name < 0x100000000) × (v.bits < 0x10000000000000000) × ((v.name == 0) ≡ false)

pub read_enum_value-write_enum_value :
    (v : CompiledEnumValue) (rest : Bytes)
    → ValueFits v
    → read_enum_value (write_enum_value v ++ rest) ≡ some v
unfolding read_enum_value
read_enum_value-write_enum_value v rest h =
    let source = write_enum_value v ++ rest in
    let name : read32 source ≡ v.name = read32-write32 v.name _ h.0 in
    let pad : read32 (skip 4 source) ≡ 0 = read32-write32 0 _ (omega arith) in
    let bits : read64 (skip 8 source) ≡ v.bits = read64-write64 v.bits rest h.1 in
    rw (name, pad, bits, h.2) refl

abbrev pub MemberFits : CompiledMember → Type 0
MemberFits m =
    (m.name < 0x100000000) × (m.type_ref < 0x100000000) × ((m.name == 0 || m.type_ref == 0) ≡ false)

pub read_member-write_member :
    (m : CompiledMember) (rest : Bytes)
    → MemberFits m
    → read_member (write_member m ++ rest) ≡ some m
unfolding read_member
read_member-write_member m rest h =
    let source = write_member m ++ rest in
    let name : read32 source ≡ m.name = read32-write32 m.name _ h.0 in
    let type_ref : read32 (skip 4 source) ≡ m.type_ref = read32-write32 m.type_ref rest h.1 in
    rw (name, type_ref, h.2) refl

abbrev pub CanonicalFits : CompiledCanonicalType → Type 0
CanonicalFits c = (c.argument < 0x100000000) × (c.payload < 0x10000000000000000)

pub read_canonical-write_canonical :
    (c : CompiledCanonicalType) (rest : Bytes)
    → CanonicalFits c
    → read_canonical (write_canonical c ++ rest) ≡ some c
unfolding read_canonical
read_canonical-write_canonical c rest h =
    let source = write_canonical c ++ rest in
    let pad : read16 (skip 2 source) ≡ 0 = read16-write16 0 _ (omega arith) in
    let argument : read32 (skip 4 source) ≡ c.argument = read32-write32 c.argument _ h.0 in
    let payload : read64 (skip 8 source) ≡ c.payload = read64-write64 c.payload rest h.1 in
    rw (pad, argument, payload) refl

pub read_identity-write32 :
    (n : ℕ) (rest : Bytes) → n < 0x100000000 → read_identity (write32 n ++ rest) ≡ some n
unfolding read_identity
read_identity-write32 n rest h = ap some (read32-write32 n rest h)

-- A type whose definition lies in its arena; an aggregate has no enumeration part, and a slot that is not live holds nothing.
abbrev pub LiveTypeFits : ℕ → ℕ → TypeEntry → Type 0
LiveTypeFits members values t =
    (t.definition.begin < 0x100000000)
    × (t.definition.count < 0x100000000)
    × (good_definition members values t ≡ true)
    × (ltb 18 (code t.enumeration_part.underlying) ≡ false)
    × ((if is_aggregate t.kind then no_enum else t.enumeration_part) ≡ t.enumeration_part)

dead-type :
    (members values : ℕ) (rest : Bytes)
    → read_type members values (write_type dead_type ++ rest) ≡ some dead_type
unfolding read_type
dead-type members values rest =
    let source = write_type dead_type ++ rest in
    let pad : read16 (skip 6 source) ≡ 0 = read16-write16 0 _ (omega arith) in
    let begin : read32 (skip 8 source) ≡ 0 = read32-write32 0 _ (omega arith) in
    let count : read32 (skip 12 source) ≡ 0 = read32-write32 0 rest (omega arith) in
    rw (pad, begin, count) refl

-- The bytes of a live type, whatever they say of the enumeration.
abbrev type_bytes : ℕ → ℕ → ℕ → ℕ → DefinitionRange → Bytes
type_bytes kind scoped fixed underlying d =
    1 ∷ kind ∷ scoped ∷ fixed ∷ underlying ∷ 0 ∷ write16 0 ++ (write32 d.begin ++ write32 d.count)

live_bytes :
    (members values kind scoped fixed underlying : ℕ) (d : DefinitionRange) (rest : Bytes)
    → d.begin < 0x100000000
    → d.count < 0x100000000
    → ltb 1 kind ≡ false
    → ltb 1 scoped ≡ false
    → ltb 1 fixed ≡ false
    → ltb 18 underlying ≡ false
    → read_type members values (type_bytes kind scoped fixed underlying d ++ rest)
      ≡ live_type members values (record {
        kind = kind;
        scoped = scoped;
        fixed_underlying = fixed;
        underlying = underlying;
        begin = d.begin;
        count = d.count;
      })
unfolding read_type
live_bytes members values kind scoped fixed underlying d rest b c k s f u =
    let source = type_bytes kind scoped fixed underlying d ++ rest in
    let pad : read16 (skip 6 source) ≡ 0 = read16-write16 0 _ (omega arith) in
    let begin : read32 (skip 8 source) ≡ d.begin = read32-write32 d.begin _ b in
    let count : read32 (skip 12 source) ≡ d.count = read32-write32 d.count rest c in
    rw (pad, begin, count, k, s, f, u) refl

live-type :
    (members values : ℕ) (k : UserTypeKind) (e : EnumEntry) (d : DefinitionRange) (rest : Bytes)
    → LiveTypeFits members values (record { kind = k; enumeration_part = e; definition = d })
    → read_type members values
        (write_live_type (record { kind = k; enumeration_part = e; definition = d }) ++ rest)
      ≡ some (record {
        live = true;
        entry = record { kind = k; enumeration_part = e; definition = d };
      })
live-type members values aggregate e d rest h =
    live_bytes members values 0 0 0 0 d rest h.0 h.1 refl refl refl refl
    ∙ rw (h.2) (
        ap
          (λ x. some (record {
            live = true;
            entry = record { kind = aggregate; enumeration_part = x; definition = d };
          }))
          h.4)
live-type members values enumeration e d rest h =
    let s = flag_back e.scoped in
    let f = flag_back e.fixed_underlying in
    live_bytes members values 1 (flag e.scoped) (flag e.fixed_underlying) (code e.underlying) d rest
      h.0 h.1 refl s.0 f.0 h.3
    ∙ rw (s.1, f.1, to_builtin-code e.underlying, h.2) refl

abbrev pub TypeFits : ℕ → ℕ → CompiledTypeSlot → Type 0
TypeFits members values slot =
    ((slot.live ≡ true) × LiveTypeFits members values slot.entry) ⊎ (slot ≡ dead_type)

pub read_type-write_type :
    (members values : ℕ) (slot : CompiledTypeSlot) (rest : Bytes)
    → TypeFits members values slot
    → read_type members values (write_type slot ++ rest) ≡ some slot
read_type-write_type members values slot rest (inl h) =
    let t = slot.entry in
    rw h.0 (live-type members values t.kind t.enumeration_part t.definition rest h.1)
read_type-write_type members values slot rest (inr h) = rw h (dead-type members values rest)

-- A string lies in the section of bytes where its record says, and the section is shorter than the mark of a tombstone.
pub read_string-write_string :
    (before after : Bytes) (size : ℕ) (value : Option Bytes) (rest : Bytes)
    → size < 0xffffffff
    → length before + length (contents value) ≤ size
    → read_string
        (before ++ (contents value ++ after))
        size
        (write_string (length before) value ++ rest)
      ≡ some value
unfolding read_string
read_string-write_string before after size none rest h l =
    let source = write_string (length before) none ++ rest in
    let start : read32 source ≡ 0xffffffff = read32-write32 0xffffffff _ (omega arith) in
    let count : read32 (skip 4 source) ≡ 0 = read32-write32 0 rest (omega arith) in
    rw (start, count) refl
read_string-write_string before after size (some value) rest h l =
    let source = write_string (length before) (some value) ++ rest in
    let start : read32 source ≡ length before = read32-write32 (length before) _ (omega arith) in
    let count : read32 (skip 4 source) ≡ length value =
      read32-write32 (length value) rest (omega arith) in
    let mark : (length before == 0xffffffff) ≡ false = ground arith in
    let fits : (ltb size (length before) || ltb (size - length before) (length value)) ≡ false =
      ground arith in
    rw (start, count, mark, fits)
      (ap (λ x. some (some x))
        (ap (take (length value)) (skip-append before (value ++ after)) ∙ take-append value after))
