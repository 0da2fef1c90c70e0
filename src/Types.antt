-- ===== src/Types.antt =====
-- project/graph/builtin_type.hpp and builtin_type.cpp: the builtin types under a target ABI. The
-- ABI of project/project_configuration.hpp is kept as the integer its enumeration is cast from.
pub mod Integral
mod Examples
use server_entry.Prelude.{ℕ, Bool, true, false, ◌==◌, ◌||◌, leb, ◌&&◌, if◌then◌else◌}

-- builtin_type, in the order of its declaration.
pub data BuiltinType : Type 0 where
  boolean character signed_character unsigned_character short_integer : BuiltinType
  unsigned_short_integer integer unsigned_integer long_integer : BuiltinType
  unsigned_long_integer long_long_integer unsigned_long_long_integer : BuiltinType
  wide_character character_8 character_16 character_32 floating : BuiltinType
  double_floating long_double_floating void_type : BuiltinType

-- The value of the enumerator, which the order tests compare.
abbrev pub code : BuiltinType → ℕ
code boolean = 0
code character = 1
code signed_character = 2
code unsigned_character = 3
code short_integer = 4
code unsigned_short_integer = 5
code integer = 6
code unsigned_integer = 7
code long_integer = 8
code unsigned_long_integer = 9
code long_long_integer = 10
code unsigned_long_long_integer = 11
code wide_character = 12
code character_8 = 13
code character_16 = 14
code character_32 = 15
code floating = 16
code double_floating = 17
code long_double_floating = 18
code void_type = 19

-- abi_target: an artifact may hold a value that is not an enumerator.
pub data AbiTarget : Type 0 where
  windows_x64 posix_x64 : AbiTarget
  unknown_target : ℕ → AbiTarget

pub record AbiConfiguration : Type 0 where
  pub target : AbiTarget
  pub pack : ℕ

abbrev pub is_supported_abi_target : AbiTarget → Bool
is_supported_abi_target windows_x64 = true
is_supported_abi_target posix_x64 = true
is_supported_abi_target (unknown_target n) = false

abbrev pub is_supported_abi_pack : ℕ → Bool
is_supported_abi_pack pack = pack == 1 || pack == 2 || pack == 4 || pack == 8 || pack == 16

abbrev pub is_supported_abi_configuration : AbiConfiguration → Bool
is_supported_abi_configuration abi =
    is_supported_abi_target abi.target && is_supported_abi_pack abi.pack

abbrev pub is_integral : BuiltinType → Bool
is_integral t = leb (code t) (code character_32)

abbrev pub is_floating : BuiltinType → Bool
is_floating t = leb (code floating) (code t) && leb (code t) (code long_double_floating)

abbrev pub is_signed : BuiltinType → Bool
is_signed signed_character = true
is_signed short_integer = true
is_signed integer = true
is_signed long_integer = true
is_signed long_long_integer = true
is_signed _ = false

-- The width of a type whose size the two targets do not share.
abbrev pub width_on : ℕ → ℕ → AbiTarget → ℕ
width_on windows posix windows_x64 = windows
width_on windows posix posix_x64 = posix
width_on windows posix (unknown_target n) = 0

abbrev pub builtin_bit_width : BuiltinType → AbiConfiguration → ℕ
builtin_bit_width boolean abi = 8
builtin_bit_width character abi = 8
builtin_bit_width signed_character abi = 8
builtin_bit_width unsigned_character abi = 8
builtin_bit_width character_8 abi = 8
builtin_bit_width short_integer abi = 16
builtin_bit_width unsigned_short_integer abi = 16
builtin_bit_width character_16 abi = 16
builtin_bit_width integer abi = 32
builtin_bit_width unsigned_integer abi = 32
builtin_bit_width character_32 abi = 32
builtin_bit_width floating abi = 32
builtin_bit_width long_long_integer abi = 64
builtin_bit_width unsigned_long_long_integer abi = 64
builtin_bit_width double_floating abi = 64
builtin_bit_width long_integer abi = width_on 32 64 abi.target
builtin_bit_width unsigned_long_integer abi = width_on 32 64 abi.target
builtin_bit_width wide_character abi = width_on 16 32 abi.target
builtin_bit_width long_double_floating abi = width_on 64 128 abi.target
builtin_bit_width void_type abi = 0

abbrev pub is_posix : AbiTarget → Bool
is_posix posix_x64 = true
is_posix _ = false

abbrev pub builtin_is_signed : BuiltinType → AbiConfiguration → Bool
builtin_is_signed character abi = is_supported_abi_target abi.target
builtin_is_signed wide_character abi = is_posix abi.target
builtin_is_signed t abi = is_signed t
