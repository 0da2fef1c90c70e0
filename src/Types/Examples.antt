-- ===== src/Types/Examples.antt =====
-- The theorems on integral constants at small ones.
use server_entry.Prelude.{◌≡◌, refl, List, [], ◌∷◌, true, arith}
use server_entry.Strings.{ok}
use server_entry.Types.{
  AbiConfiguration, posix_x64, windows_x64, character, short_integer, integer, unsigned_integer,
  long_long_integer,
}
use server_entry.Types.Integral.{
  IntegralConstant, fits_integral, convert_integral, value_of, signed_value,
}
use server_entry.Types.Integral.Conversion.{value_of-convert_integral}
use server_entry.Types.Integral.Enum.{
  select_unscoped_enum_underlying, scan, select_unscoped_enum_underlying_projected,
}
use server_entry.Types.Integral.Enum.First.{selected_first, first_fitting, candidates}

abbrev abi : AbiConfiguration
abi = record { target = posix_x64; pack = 8 }

-- The char -2, and 3000000000 as an unsigned int.
abbrev minus_two : IntegralConstant
minus_two = record { kind = character; bits = 254 }

abbrev three_milliard : IntegralConstant
three_milliard = record { kind = unsigned_integer; bits = 3000000000 }

abbrev values : List IntegralConstant
values = minus_two ∷ three_milliard ∷ []

selected_at_windows :
    select_unscoped_enum_underlying values (record { target = windows_x64; pack = 8 }) integer
    ≡ (long_long_integer, ok)
unfolding select_unscoped_enum_underlying select_unscoped_enum_underlying_projected scan
    signed_value
selected_at_windows = refl

selected_first_example :
    select_unscoped_enum_underlying values abi integer
    ≡ first_fitting (candidates posix_x64) values abi integer
selected_first_example = selected_first values abi integer refl (omega arith, (omega arith, _))

minus_two_fits : fits_integral minus_two short_integer abi ≡ true
unfolding fits_integral signed_value
minus_two_fits = refl

value_of-convert_integral_example :
    value_of
      (record { kind = short_integer; bits = convert_integral minus_two short_integer abi })
      abi
    ≡ value_of minus_two abi
value_of-convert_integral_example =
    value_of-convert_integral minus_two short_integer abi (omega arith) minus_two_fits
