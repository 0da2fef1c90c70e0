-- ===== src/Types/Integral/Enum/First.antt =====
-- The underlying type of an enumeration is the first candidate that every value fits.
use server_entry.Prelude.{
  ℕ, ◌<◌, ◌⊎◌, ◌≡◌, refl, sym, Bool, true, false, not, ◌&&◌, List, [], ◌∷◌, Option, none, some,
  if◌then◌else◌, All, arith, Bool-cases, inl, inr,
}
use server_entry.Json.Integer.{ℤ, IsInt64}
use server_entry.Strings.{Status, ok, configuration_failed}
use server_entry.Types.{
  BuiltinType, integer, unsigned_integer, long_integer, unsigned_long_integer, long_long_integer,
  unsigned_long_long_integer, void_type, AbiTarget, windows_x64, posix_x64, unknown_target,
  AbiConfiguration, is_integral, builtin_bit_width, builtin_is_signed, is_supported_abi_target,
}
use server_entry.Types.Integral.{
  IntegralConstant, signed_value, sized, fits_integral, fits_signed, fits_unsigned, natural_fits,
}
use server_entry.Types.Integral.Enum.Steps.{
  int_signed, unsigned_signed, int64_signed, natural_signed, signed_value-IsInt64,
}
use server_entry.Types.Integral.Enum.{
  EnumRange, no_values, widen_unsigned, widen_signed, widen, accepted, scan, within_int,
  within_unsigned, within_int64, select_in, select_unscoped_enum_underlying_projected,
  select_unscoped_enum_underlying,
}

-- The candidates in their order, whatever the values are.
abbrev pub wide_candidates : AbiTarget → BuiltinType × BuiltinType
wide_candidates windows_x64 = (long_long_integer, unsigned_long_long_integer)
wide_candidates posix_x64 = (long_integer, unsigned_long_integer)
wide_candidates (unknown_target n) = (void_type, void_type)

abbrev pub candidates : AbiTarget → List BuiltinType
candidates target =
    integer ∷ unsigned_integer ∷ (wide_candidates target).0 ∷ (wide_candidates target).1 ∷ []

abbrev pub all_fit : List IntegralConstant → BuiltinType → AbiConfiguration → Bool
all_fit [] t abi = true
all_fit (v ∷ vs) t abi = fits_integral v t abi && all_fit vs t abi

-- The first candidate that every value fits.
abbrev pub first_fitting :
    List BuiltinType → List IntegralConstant → AbiConfiguration → BuiltinType → BuiltinType × Status
first_fitting [] values abi output = (output, configuration_failed)
first_fitting (t ∷ ts) values abi output =
    let rest = first_fitting ts values abi output in if all_fit values t abi then (t, ok) else rest

abbrev pub IsU64 : IntegralConstant → Type 0
IsU64 value = value.bits < 0x10000000000000000

-- A test of the range, or false where there is no range.
abbrev outcome : (EnumRange → Bool) → Option EnumRange → Bool
outcome h none = false
outcome h (some r) = h r

-- A test of the range follows a type where each step of the loop conjoins the value's own test.
abbrev Follows : (EnumRange → Bool) → BuiltinType → AbiConfiguration → Type 0
Follows h t abi =
    (v : IntegralConstant) (r : EnumRange)
    → IsU64 v
    → (accepted v abi ≡ false × fits_integral v t abi ≡ false)
      ⊎ (accepted v abi ≡ true × h (widen v abi r) ≡ h r && fits_integral v t abi)

scan_rejects :
    (v : IntegralConstant) (vs : List IntegralConstant) (abi : AbiConfiguration) (r : EnumRange)
    → accepted v abi ≡ false
    → scan (λ w. w) (v ∷ vs) abi r ≡ none
unfolding scan
scan_rejects v vs abi r q = rw q refl

scan_accepts :
    (v : IntegralConstant) (vs : List IntegralConstant) (abi : AbiConfiguration) (r : EnumRange)
    → accepted v abi ≡ true
    → scan (λ w. w) (v ∷ vs) abi r ≡ scan (λ w. w) vs abi (widen v abi r)
unfolding scan
scan_accepts v vs abi r q = rw q refl

scan_empty : (abi : AbiConfiguration) (r : EnumRange) → scan (λ w. w) [] abi r ≡ some r
unfolding scan
scan_empty abi r = refl

scan-Follows :
    (h : EnumRange → Bool) (t : BuiltinType) (abi : AbiConfiguration)
    → Follows h t abi
    → (vs : List IntegralConstant) (r : EnumRange) → All IsU64 vs
    → outcome h (scan (λ v. v) vs abi r) ≡ h r && all_fit vs t abi
scan-Follows h t abi f [] r p = rw (scan_empty abi r) (ground arith)
scan-Follows h t abi f (v ∷ vs) r p = elim (f v r p.0) [
  | inl q ↦ rw (scan_rejects v vs abi r q.0) (ground (arith, q.1))
  | inr q ↦
      rw (scan_accepts v vs abi r q.0)
        (ground (arith, scan-Follows h t abi f vs (widen v abi r) p.1, q.1))
]

abbrev pub suitable : BuiltinType → AbiConfiguration → Bool
suitable t abi = is_integral t && sized (builtin_bit_width t abi)

-- The test of a constant, once both its type and the target have a width.
abbrev pub fits_sized : IntegralConstant → BuiltinType → AbiConfiguration → Bool
fits_sized v t abi =
    if builtin_is_signed v.kind abi
    then (if builtin_is_signed t abi
        then fits_signed (signed_value (builtin_bit_width v.kind abi) v.bits)
            (builtin_bit_width t abi)
        else fits_unsigned (signed_value (builtin_bit_width v.kind abi) v.bits)
            (builtin_bit_width t abi))
    else natural_fits v.bits (builtin_is_signed t abi) (builtin_bit_width t abi)

guard :
    (a b c d e : Bool)
    → a && b ≡ true
    → c && d ≡ true
    → (if not (a && c && b && d) then false else e) ≡ e
guard a b c d e p q = ground arith

refused :
    (a b c d e : Bool) → a && b ≡ false → (if not (a && c && b && d) then false else e) ≡ false
refused a b c d e p = ground arith

pub fits-sized :
    (v : IntegralConstant) (t : BuiltinType) (abi : AbiConfiguration)
    → accepted v abi ≡ true
    → suitable t abi ≡ true
    → fits_integral v t abi ≡ fits_sized v t abi
unfolding fits_integral
fits-sized v t abi p q = guard (is_integral v.kind) _ (is_integral t) _ _ p q

pub fits-refused :
    (v : IntegralConstant) (t : BuiltinType) (abi : AbiConfiguration)
    → accepted v abi ≡ false
    → fits_integral v t abi ≡ false
unfolding fits_integral
fits-refused v t abi p = refused (is_integral v.kind) _ (is_integral t) _ _ p

ill_suited :
    (a b c d e : Bool) → c && d ≡ false → (if not (a && c && b && d) then false else e) ≡ false
ill_suited a b c d e p = ground arith

pub fits-unsuitable :
    (v : IntegralConstant) (t : BuiltinType) (abi : AbiConfiguration)
    → suitable t abi ≡ false
    → fits_integral v t abi ≡ false
unfolding fits_integral
fits-unsuitable v t abi p = ill_suited (is_integral v.kind) _ (is_integral t) _ _ p

choice :
    (b : Bool) (h : EnumRange → Bool) (x y : EnumRange) (c u w : Bool)
    → h x ≡ c && u
    → h y ≡ c && w
    → h (if b then x else y) ≡ c && (if b then u else w)
choice true h x y c u w p q = p
choice false h x y c u w p q = q

module _ (h : EnumRange → Bool) (t : BuiltinType) (abi : AbiConfiguration) where
  Follows-by :
      suitable t abi ≡ true
      → ((z : ℤ) (r : EnumRange)
          → IsInt64 z
          → h (widen_signed z r)
            ≡ h r
              && (if builtin_is_signed t abi
                  then fits_signed z (builtin_bit_width t abi)
                  else fits_unsigned z (builtin_bit_width t abi)))
      → ((n : ℕ) (r : EnumRange)
          → n < 0x10000000000000000
          → h (widen_unsigned n r)
            ≡ h r && natural_fits n (builtin_is_signed t abi) (builtin_bit_width t abi))
      → Follows h t abi
  Follows-by s signed natural v r p = elim (Bool-cases (accepted v abi)) [
    | inl q ↦ inr (
      q,
      rw (fits-sized v t abi q s) (
          choice (builtin_is_signed v.kind abi) h
            (widen_signed (signed_value (builtin_bit_width v.kind abi) v.bits) r)
            (widen_unsigned v.bits r) (h r) _ _
            (signed _ r (signed_value-IsInt64 (builtin_bit_width v.kind abi) v.bits p))
            (natural v.bits r p)),
    )
    | inr q ↦ inl (q, fits-refused v t abi q)
  ]

abbrev at_target : AbiTarget → ℕ → AbiConfiguration
at_target target pack = record { target = target; pack = pack }

int-Follows : (abi : AbiConfiguration) → Follows within_int integer abi
int-Follows abi =
    Follows-by within_int integer abi refl (λ z r p. int_signed z r) (λ n r p. ground arith)

unsigned-Follows : (abi : AbiConfiguration) → Follows within_unsigned unsigned_integer abi
unsigned-Follows abi =
    Follows-by within_unsigned unsigned_integer abi refl (λ z r p. unsigned_signed z r)
      (λ n r p. ground arith)

abbrev no_negative : EnumRange → Bool
no_negative r = not r.has_negative

wide-Follows :
    (target : AbiTarget) (pack : ℕ)
    → is_supported_abi_target target ≡ true
    → Follows within_int64 (wide_candidates target).0 (at_target target pack)
      × Follows no_negative (wide_candidates target).1 (at_target target pack)
wide-Follows windows_x64 pack s = (
  Follows-by within_int64 long_long_integer (at_target windows_x64 pack) refl int64_signed
      (λ n r p. ground arith),
  Follows-by no_negative unsigned_long_long_integer (at_target windows_x64 pack) refl natural_signed
      (λ n r p. ground arith),
)
wide-Follows posix_x64 pack s = (
  Follows-by within_int64 long_integer (at_target posix_x64 pack) refl int64_signed
      (λ n r p. ground arith),
  Follows-by no_negative unsigned_long_integer (at_target posix_x64 pack) refl natural_signed
      (λ n r p. ground arith),
)
wide-Follows (unknown_target n) pack s = absurd (ground arith)

pick :
    (target : AbiTarget) (o : Option EnumRange) (output : BuiltinType)
    → is_supported_abi_target target ≡ true
    → select_in target output o ≡ (
        if outcome within_int o
        then (integer, ok)
        else if outcome within_unsigned o
        then (unsigned_integer, ok)
        else if outcome within_int64 o
        then ((wide_candidates target).0, ok)
        else if outcome no_negative o
        then ((wide_candidates target).1, ok)
        else (output, configuration_failed))
pick target none output s = refl
pick windows_x64 (some r) output s = refl
pick posix_x64 (some r) output s = refl
pick (unknown_target n) (some r) output s = absurd (ground arith)

-- On a supported target, the type selected for an enumeration is the first of int, unsigned int and the target's two 64-bit candidates that every value fits by the test of fits_integral; where there is none, and where a value is not of an integral type, the call fails and leaves its output as it was.
pub selected_first :
    (values : List IntegralConstant) (abi : AbiConfiguration) (output : BuiltinType)
    → is_supported_abi_target abi.target ≡ true
    → All IsU64 values
    → select_unscoped_enum_underlying values abi output
      ≡ first_fitting (candidates abi.target) values abi output
unfolding select_unscoped_enum_underlying select_unscoped_enum_underlying_projected
selected_first values abi output s p =
    let wide = wide-Follows abi.target abi.pack s in
    rw
      (
        s,
        sym (scan-Follows within_int integer abi (int-Follows abi) values no_values p),
        sym (
            scan-Follows within_unsigned unsigned_integer abi (unsigned-Follows abi) values
              no_values p),
        sym (
            scan-Follows within_int64 (wide_candidates abi.target).0 abi wide.0 values no_values p),
        sym (scan-Follows no_negative (wide_candidates abi.target).1 abi wide.1 values no_values p),
      )
      (pick abi.target (scan (λ v. v) values abi no_values) output s)
