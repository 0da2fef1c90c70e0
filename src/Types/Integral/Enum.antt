-- ===== src/Types/Integral/Enum.antt =====
-- project/graph/builtin_type.hpp: the underlying type of an unscoped enumeration. A value that the
-- range is read from is an integral constant, which `projection` takes from an item.
pub mod Steps
pub mod First
use server_entry.Prelude.{
  ℕ, ◌≡◌, Bool, true, false, not, ◌&&◌, List, [], ◌∷◌, Option, none, some, ltb, leb, if◌then◌else◌,
}
use server_entry.Json.Integer.{ℤ, pos, negsuc}
use server_entry.Strings.{Status, ok, configuration_failed}
use server_entry.Types.{
  BuiltinType, integer, unsigned_integer, long_integer, unsigned_long_integer, long_long_integer,
  unsigned_long_long_integer, AbiTarget, windows_x64, posix_x64, unknown_target, AbiConfiguration,
  is_integral, builtin_bit_width, builtin_is_signed, is_supported_abi_target,
}
use server_entry.Types.Integral.{IntegralConstant, signed_value, less, to_u64, sized}

-- The three local variables of the loop.
pub record EnumRange : Type 0 where
  pub minimum : ℤ
  pub maximum : ℕ
  pub has_negative : Bool

abbrev pub no_values : EnumRange
no_values = record { minimum = pos 0; maximum = 0; has_negative = false }

abbrev pub widen_unsigned : ℕ → EnumRange → EnumRange
widen_unsigned bits r = if ltb r.maximum bits then record r { maximum = bits } else r

abbrev pub widen_signed : ℤ → EnumRange → EnumRange
widen_signed z r =
    if less z (pos 0)
    then record r { minimum = if less z r.minimum then z else r.minimum; has_negative = true }
    else widen_unsigned (to_u64 z) r

abbrev pub widen : IntegralConstant → AbiConfiguration → EnumRange → EnumRange
widen value abi r =
    if builtin_is_signed value.kind abi
    then widen_signed (signed_value (builtin_bit_width value.kind abi) value.bits) r
    else widen_unsigned value.bits r

abbrev pub accepted : IntegralConstant → AbiConfiguration → Bool
accepted value abi = is_integral value.kind && sized (builtin_bit_width value.kind abi)

module _ {ℓ} {A : Type ℓ} (projection : A → IntegralConstant) where
  -- The loop over the values, `none` where it returns configuration_failed.
  unfoldable pub scan : List A → AbiConfiguration → EnumRange → Option EnumRange
  scan [] abi r = some r
  scan (item ∷ values) abi r =
      let value = projection item in
      let rest = scan values abi (widen value abi r) in if accepted value abi then rest else none

abbrev pub within_int : EnumRange → Bool
within_int r = not (less r.minimum (negsuc 0x7fffffff)) && leb r.maximum 0x7fffffff

abbrev pub within_unsigned : EnumRange → Bool
within_unsigned r = not r.has_negative && leb r.maximum 0xffffffff

abbrev pub within_int64 : EnumRange → Bool
within_int64 r = leb r.maximum 0x7fffffffffffffff

-- The two 64-bit candidates of a target.
abbrev pub select_wide : EnumRange → BuiltinType → BuiltinType → BuiltinType → BuiltinType × Status
select_wide r signed unsigned output =
    if within_int64 r
    then (signed, ok)
    else if not r.has_negative
    then (unsigned, ok)
    else (output, configuration_failed)

abbrev pub select_on : AbiTarget → EnumRange → BuiltinType → BuiltinType × Status
select_on windows_x64 r output = select_wide r long_long_integer unsigned_long_long_integer output
select_on posix_x64 r output = select_wide r long_integer unsigned_long_integer output
select_on (unknown_target n) r output = (output, configuration_failed)

abbrev pub select_in : AbiTarget → BuiltinType → Option EnumRange → BuiltinType × Status
select_in target output none = (output, configuration_failed)
select_in target output (some r) =
    if within_int r
    then (integer, ok)
    else if within_unsigned r
    then (unsigned_integer, ok)
    else select_on target r output

-- `output` is what the caller's variable holds before the call.
unfoldable pub select_unscoped_enum_underlying_projected {ℓ} :
    {A : Type ℓ}
    → List A
    → AbiConfiguration
    → BuiltinType
    → (A → IntegralConstant)
    → BuiltinType × Status
select_unscoped_enum_underlying_projected values abi output projection =
    if not (is_supported_abi_target abi.target)
    then (output, configuration_failed)
    else select_in abi.target output (scan projection values abi no_values)

unfoldable pub select_unscoped_enum_underlying :
    List IntegralConstant → AbiConfiguration → BuiltinType → BuiltinType × Status
select_unscoped_enum_underlying values abi output =
    select_unscoped_enum_underlying_projected values abi output (λ value. value)
