-- ===== src/Types/Integral.antt =====
-- project/graph/builtin_type.hpp: integral_constant, and project/graph/graph.cpp: the constants of
-- an enumeration tested against its underlying type and converted to it.
pub mod Conversion
pub mod Enum
use server_entry.Prelude.{
  ℕ, zero, suc, ◌+◌, ◌-◌, ◌*◌, ◌/◌, ◌%◌, ◌^◌, ◌≤◌, ◌<◌, ◌≡◌, Bool, true, false, not, ◌&&◌, ◌||◌,
  ltb, leb, ◌==◌, if◌then◌else◌,
}
use server_entry.Json.Integer.{ℤ, pos, negsuc}
use server_entry.Types.{
  BuiltinType, AbiConfiguration, is_integral, builtin_bit_width, builtin_is_signed,
}

pub record IntegralConstant : Type 0 where
  pub kind : BuiltinType
  pub bits : ℕ

-- The cast of a 64-bit pattern to std::int64_t, and back to std::uint64_t.
abbrev pub to_i64 : ℕ → ℤ
to_i64 n = if ltb n 0x8000000000000000 then pos n else negsuc (0xffffffffffffffff - n)

abbrev pub to_u64 : ℤ → ℕ
to_u64 (pos n) = n
to_u64 (negsuc n) = 0xffffffffffffffff - n

-- `>>` on a signed integer.
abbrev pub sar : ℤ → ℕ → ℤ
sar (pos n) k = pos (n / 2 ^ k)
sar (negsuc n) k = negsuc (n / 2 ^ k)

-- The bits of a constant of a signed type of the given width, read as a signed number.
unfoldable pub signed_value : ℕ → ℕ → ℤ
signed_value width bits =
    if width == 64
    then to_i64 bits
    else sar (to_i64 (bits * 2 ^ (64 - width) % 0x10000000000000000)) (64 - width)

abbrev pub less : ℤ → ℤ → Bool
less (pos a) (pos b) = ltb a b
less (pos a) (negsuc b) = false
less (negsuc a) (pos b) = true
less (negsuc a) (negsuc b) = ltb b a

abbrev pub bit_mask : ℕ → ℕ
bit_mask width = if width == 0 || ltb 64 width then 0 else 2 ^ width - 1

abbrev pub sized : ℕ → Bool
sized width = not (width == 0 || ltb 64 width)

-- A signed number within `width` bits: -(1 << (width - 1)) is the negsuc of one less.
abbrev pub fits_signed : ℤ → ℕ → Bool
fits_signed z width =
    width == 64
    || (not (less z (negsuc (2 ^ (width - 1) - 1))) && not (less (pos (2 ^ (width - 1) - 1)) z))

abbrev pub fits_unsigned : ℤ → ℕ → Bool
fits_unsigned z width = not (less z (pos 0)) && leb (to_u64 z) (bit_mask width)

abbrev pub natural_fits : ℕ → Bool → ℕ → Bool
natural_fits bits true width =
    if width == 64 then leb bits 0x7fffffffffffffff else ltb bits (2 ^ (width - 1))
natural_fits bits false width = leb bits (bit_mask width)

unfoldable pub fits_integral : IntegralConstant → BuiltinType → AbiConfiguration → Bool
fits_integral value target abi =
    let source_width = builtin_bit_width value.kind abi in
    let target_width = builtin_bit_width target abi in
    let z = signed_value source_width value.bits in
    if not
      (is_integral value.kind && is_integral target && sized source_width && sized target_width)
    then false
    else if builtin_is_signed value.kind abi
    then (if builtin_is_signed target abi
        then fits_signed z target_width
        else fits_unsigned z target_width)
    else natural_fits value.bits (builtin_is_signed target abi) target_width

-- `converted & bit_mask(width)` is the remainder by a power of two.
unfoldable pub convert_integral : IntegralConstant → BuiltinType → AbiConfiguration → ℕ
convert_integral value target abi =
    let source_width = builtin_bit_width value.kind abi in
    let converted =
      (if builtin_is_signed value.kind abi
        then to_u64 (signed_value source_width value.bits)
        else value.bits) in
    converted % (bit_mask (builtin_bit_width target abi) + 1)

-- The number that a constant stands for.
unfoldable pub value_of : IntegralConstant → AbiConfiguration → ℤ
value_of value abi =
    if builtin_is_signed value.kind abi
    then signed_value (builtin_bit_width value.kind abi) value.bits
    else pos value.bits
