-- ===== src/Types/Integral/Enum/Steps.antt =====
-- A step of the loop over the values of an enumeration, seen by each test of the range.
use server_entry.Prelude.{
  ℕ, ◌-◌, ◌<◌, ◌≡◌, true, not, ◌&&◌, ◌==◌, ◌*◌, ◌%◌, ◌^◌, ltb, if◌then◌else◌, arith, Bool-cases,
  inl, inr,
}
use native.Mathlib.Nat.{div-le_self}
use server_entry.Json.Integer.{ℤ, pos, negsuc, IsInt64}
use server_entry.Types.Integral.{signed_value, less, fits_signed, fits_unsigned, to_i64, sar}
use server_entry.Types.Integral.Enum.{
  EnumRange, widen_signed, within_int, within_unsigned, within_int64,
}

-- A signed value of 64 bits or fewer stays within 64 bits.
sar-IsInt64 : (z : ℤ) (k : ℕ) → IsInt64 z → IsInt64 (sar z k)
sar-IsInt64 (pos n) k h = omega (arith, div-le_self n (2 ^ k))
sar-IsInt64 (negsuc n) k h = omega (arith, div-le_self n (2 ^ k))

to_i64-IsInt64 : (n : ℕ) → n < 0x10000000000000000 → IsInt64 (to_i64 n)
to_i64-IsInt64 n h = elim (Bool-cases (ltb n 0x8000000000000000)) [
  | inl q ↦ rw q (ground arith)
  | inr q ↦ rw q (ground arith)
]

lower :
    (n k : ℕ) (z : ℤ)
    → not (less (if less (negsuc n) z then negsuc n else z) (negsuc k))
      ≡ not (less z (negsuc k)) && not (less (negsuc n) (negsuc k))
lower n k (pos m) = ground arith
lower n k (negsuc m) = ground arith

pub int_signed :
    (z : ℤ) (r : EnumRange) → within_int (widen_signed z r) ≡ within_int r && fits_signed z 32
int_signed (pos n) r = ground arith
int_signed (negsuc n) r = ground (arith, lower n 0x7fffffff r.minimum)

pub unsigned_signed :
    (z : ℤ) (r : EnumRange)
    → within_unsigned (widen_signed z r) ≡ within_unsigned r && fits_unsigned z 32
unsigned_signed (pos n) r = ground arith
unsigned_signed (negsuc n) r = ground arith

pub int64_signed :
    (z : ℤ) (r : EnumRange) → IsInt64 z → within_int64 (widen_signed z r) ≡ within_int64 r && true
int64_signed (pos n) r h = ground arith
int64_signed (negsuc n) r h = ground arith

pub natural_signed :
    (z : ℤ) (r : EnumRange)
    → IsInt64 z
    → not (widen_signed z r).has_negative ≡ not r.has_negative && fits_unsigned z 64
natural_signed (pos n) r h = ground arith
natural_signed (negsuc n) r h = ground arith

pub signed_value-IsInt64 : (w bits : ℕ) → bits < 0x10000000000000000 → IsInt64 (signed_value w bits)
signed_value-IsInt64 w bits h = elim (Bool-cases (w == 64)) [
  | inl q ↦ unfold signed_value in rw q (to_i64-IsInt64 bits h)
  | inr q ↦
      unfold signed_value in
      rw q (
        sar-IsInt64 _ (64 - w)
          (to_i64-IsInt64 (bits * 2 ^ (64 - w) % 0x10000000000000000) (omega arith)))
]
