-- ===== src/Types/Integral/Conversion.antt =====
-- project/graph/graph.cpp: a constant that fits a type is converted to it without a change of value.
use server_entry.Prelude.{
  ℕ, ◌+◌, ◌≡◌, refl, sym, ◌∙◌, ◌⊎◌, Bool, true, false, ◌%◌, leb, if◌then◌else◌, arith, inl, inr, ap,
}
use native.Mathlib.Nat.{mod-eq_of_lt}
use server_entry.Json.Integer.{ℤ, pos, negsuc, IsInt64}
use server_entry.Types.{
  BuiltinType, AbiConfiguration, AbiTarget, builtin_bit_width, builtin_is_signed, windows_x64,
  posix_x64, unknown_target, width_on, boolean, character, signed_character, unsigned_character,
  character_8, short_integer, unsigned_short_integer, character_16, integer, unsigned_integer,
  character_32, long_long_integer, unsigned_long_long_integer, floating, double_floating,
  long_double_floating, void_type, long_integer, unsigned_long_integer, wide_character,
}
use server_entry.Types.Integral.{
  IntegralConstant, signed_value, to_u64, sized, fits_integral, fits_signed, fits_unsigned,
  natural_fits, bit_mask, convert_integral, value_of,
}
use server_entry.Types.Integral.Enum.{accepted}
use server_entry.Types.Integral.Enum.Steps.{signed_value-IsInt64}
use server_entry.Types.Integral.Enum.First.{
  IsU64, fits-sized, fits-refused, fits-unsuitable, suitable,
}

-- The bits of a signed type of `w` bits, read back.
abbrev read_back : ℕ → ℕ → ℤ
read_back w n = signed_value w (n % (bit_mask w + 1))

abbrev KeepsSigned : ℕ → Type 0
KeepsSigned w = (z : ℤ) → IsInt64 z → fits_signed z w ≡ true → read_back w (to_u64 z) ≡ z

abbrev KeepsNatural : ℕ → Type 0
KeepsNatural w = (n : ℕ) → natural_fits n true w ≡ true → read_back w n ≡ pos n

signed8 : KeepsSigned 8
unfolding signed_value
signed8 (pos n) h q = ground arith
signed8 (negsuc n) h q = ground arith

natural8 : KeepsNatural 8
unfolding signed_value
natural8 n q = ground arith

signed16 : KeepsSigned 16
unfolding signed_value
signed16 (pos n) h q = ground arith
signed16 (negsuc n) h q = ground arith

natural16 : KeepsNatural 16
unfolding signed_value
natural16 n q = ground arith

signed32 : KeepsSigned 32
unfolding signed_value
signed32 (pos n) h q = ground arith
signed32 (negsuc n) h q = ground arith

natural32 : KeepsNatural 32
unfolding signed_value
natural32 n q = ground arith

signed64 : KeepsSigned 64
unfolding signed_value
signed64 (pos n) h q = ground arith
signed64 (negsuc n) h q = ground arith

natural64 : KeepsNatural 64
unfolding signed_value
natural64 n q = ground arith

abbrev Keeps : ℕ → Type 0
Keeps w = KeepsSigned w × KeepsNatural w

abbrev IsWidth : ℕ → Type 0
IsWidth w = ((w ≡ 8) ⊎ (w ≡ 16)) ⊎ ((w ≡ 32) ⊎ (w ≡ 64))

width-Keeps : (w : ℕ) → IsWidth w → Keeps w
width-Keeps w (inl (inl e)) = rw e (signed8, natural8)
width-Keeps w (inl (inr e)) = rw e (signed16, natural16)
width-Keeps w (inr (inl e)) = rw e (signed32, natural32)
width-Keeps w (inr (inr e)) = rw e (signed64, natural64)

long-IsWidth :
    (target : AbiTarget) → sized (width_on 32 64 target) ≡ true → IsWidth (width_on 32 64 target)
long-IsWidth windows_x64 h = inr (inl refl)
long-IsWidth posix_x64 h = inr (inr refl)
long-IsWidth (unknown_target n) h = absurd (ground arith)

wide-IsWidth :
    (target : AbiTarget) → sized (width_on 16 32 target) ≡ true → IsWidth (width_on 16 32 target)
wide-IsWidth windows_x64 h = inl (inr refl)
wide-IsWidth posix_x64 h = inr (inl refl)
wide-IsWidth (unknown_target n) h = absurd (ground arith)

suitable-IsWidth :
    (t : BuiltinType) (abi : AbiConfiguration)
    → suitable t abi ≡ true
    → IsWidth (builtin_bit_width t abi)
suitable-IsWidth boolean abi h = inl (inl refl)
suitable-IsWidth character abi h = inl (inl refl)
suitable-IsWidth signed_character abi h = inl (inl refl)
suitable-IsWidth unsigned_character abi h = inl (inl refl)
suitable-IsWidth character_8 abi h = inl (inl refl)
suitable-IsWidth short_integer abi h = inl (inr refl)
suitable-IsWidth unsigned_short_integer abi h = inl (inr refl)
suitable-IsWidth character_16 abi h = inl (inr refl)
suitable-IsWidth integer abi h = inr (inl refl)
suitable-IsWidth unsigned_integer abi h = inr (inl refl)
suitable-IsWidth character_32 abi h = inr (inl refl)
suitable-IsWidth long_long_integer abi h = inr (inr refl)
suitable-IsWidth unsigned_long_long_integer abi h = inr (inr refl)
suitable-IsWidth floating abi h = absurd (ground arith)
suitable-IsWidth double_floating abi h = absurd (ground arith)
suitable-IsWidth long_double_floating abi h = absurd (ground arith)
suitable-IsWidth void_type abi h = absurd (ground arith)
suitable-IsWidth long_integer abi h = long-IsWidth abi.target h
suitable-IsWidth unsigned_long_integer abi h = long-IsWidth abi.target h
suitable-IsWidth wide_character abi h = wide-IsWidth abi.target h

masked : (n m : ℕ) → leb n m ≡ true → n % (m + 1) ≡ n
masked n m h = mod-eq_of_lt (ground arith)

unsigned_back : (w : ℕ) (z : ℤ) → fits_unsigned z w ≡ true → pos (to_u64 z % (bit_mask w + 1)) ≡ z
unsigned_back w (pos n) h = ap pos (masked n (bit_mask w) (ground arith))
unsigned_back w (negsuc n) h = absurd (ground arith)

natural_back : (w n : ℕ) → natural_fits n false w ≡ true → pos (n % (bit_mask w + 1)) ≡ pos n
natural_back w n h = ap pos (masked n (bit_mask w) (ground arith))

kept :
    (a b : Bool) (w : ℕ) (z : ℤ) (n : ℕ)
    → Keeps w
    → IsInt64 z
    → (if a then (if b then fits_signed z w else fits_unsigned z w) else natural_fits n b w) ≡ true
    → (if b
        then read_back w (if a then to_u64 z else n)
        else pos ((if a then to_u64 z else n) % (bit_mask w + 1)))
      ≡ (if a then z else pos n)
kept true true w z n k p h = k.0 z p h
kept true false w z n k p h = unsigned_back w z h
kept false true w z n k p h = k.1 n h
kept false false w z n k p h = natural_back w n h

must : (b c : Bool) → (b ≡ false → c ≡ false) → c ≡ true → b ≡ true
must true c f h = refl
must false c f h = absurd (ground (arith, f refl))

-- The test of fits_integral is sound for convert_integral: the converted bits, read as a constant of the target type, are the number that the constant stood for.
pub value_of-convert_integral :
    (v : IntegralConstant) (t : BuiltinType) (abi : AbiConfiguration)
    → IsU64 v
    → fits_integral v t abi ≡ true
    → value_of (record { kind = t; bits = convert_integral v t abi }) abi ≡ value_of v abi
unfolding value_of convert_integral
value_of-convert_integral v t abi p h =
    let a = must (accepted v abi) _ (fits-refused v t abi) h in
    let s = must (suitable t abi) _ (fits-unsuitable v t abi) h in
    kept (builtin_is_signed v.kind abi) (builtin_is_signed t abi) (builtin_bit_width t abi)
      (signed_value (builtin_bit_width v.kind abi) v.bits) v.bits
      (width-Keeps (builtin_bit_width t abi) (suitable-IsWidth t abi s))
      (signed_value-IsInt64 (builtin_bit_width v.kind abi) v.bits p)
      (sym (fits-sized v t abi a s) ∙ h)
