-- ===== src/Prelude/Bits.antt =====
-- Shifts, masks and disjoint bit fields as arithmetic.
use Prim.Native.Nat.{
  ℕ, zero, suc, ◌+◌, ◌*◌, ◌/◌, ◌%◌, ◌^◌, ◌≤◌, ◌<◌, max, min, bit_and, bit_or, digits,
  bit_and-bitwise, bit_or-bitwise,
}
use mathlib.Core.Path.{◌≡◌, refl, ap}
use native.Mathlib.Omega.{arith}

-- x << k and x >> k, before any cast.
abbrev pub shl : ℕ → ℕ → ℕ
shl x k = x * 2 ^ k

abbrev pub shr : ℕ → ℕ → ℕ
shr x k = x / 2 ^ k

-- The casts to an unsigned 32-bit integer and to a char.
abbrev pub to_u32 : ℕ → ℕ
to_u32 x = x % 4294967296

abbrev pub to_char : ℕ → ℕ
to_char x = x % 256

-- The digit recursion does not depend on its fuel, once that is not below the first number.
module _ (rest : ℕ → ℕ) (digit : ℕ → ℕ → ℕ) where
  spare_fuel : (a b f g : ℕ) → a ≤ f → a ≤ g → digits rest digit f a b ≡ digits rest digit g a b
  spare_fuel zero b zero zero p q = refl
  spare_fuel zero b zero (suc g) p q = refl
  spare_fuel zero b (suc f) zero p q = refl
  spare_fuel zero b (suc f) (suc g) p q = refl
  spare_fuel (suc a) b zero g p q = absurd (omega arith)
  spare_fuel (suc a) b (suc f) zero p q = absurd (omega arith)
  spare_fuel (suc a) b (suc f) (suc g) p q =
      rw (spare_fuel (suc a / 2) (b / 2) f g (omega arith) (omega arith))

or_step : (a b : ℕ) → bit_or a b ≡ bit_or (a / 2) (b / 2) * 2 + max (a % 2) (b % 2)
or_step zero b = simp bit_or-bitwise (omega arith)
or_step (suc a) b = simp bit_or-bitwise (
    omega (
      arith,
      spare_fuel (λ y. y) max (suc a / 2) (b / 2) a (suc a / 2) (omega arith) (omega arith),
    ))

and_step : (a b : ℕ) → bit_and a b ≡ bit_and (a / 2) (b / 2) * 2 + min (a % 2) (b % 2)
and_step zero b = simp bit_and-bitwise (omega arith)
and_step (suc a) b = simp bit_and-bitwise (
    omega (
      arith,
      spare_fuel (λ y. 0) min (suc a / 2) (b / 2) a (suc a / 2) (omega arith) (omega arith),
    ))

or_zero_below : (n a : ℕ) → a < n → bit_or a 0 ≡ a
or_zero_below zero a h = absurd (omega arith)
or_zero_below (suc n) zero h = refl
or_zero_below (suc n) (suc a) h =
    omega (arith, or_step (suc a) 0, or_zero_below n (suc a / 2) (omega arith))

or_zero : (a : ℕ) → bit_or a 0 ≡ a
or_zero a = or_zero_below (suc a) a (omega arith)

and_zero_below : (n a : ℕ) → a < n → bit_and a 0 ≡ 0
and_zero_below zero a h = absurd (omega arith)
and_zero_below (suc n) zero h = refl
and_zero_below (suc n) (suc a) h =
    omega (arith, and_step (suc a) 0, and_zero_below n (suc a / 2) (omega arith))

and_zero : (a : ℕ) → bit_and a 0 ≡ 0
and_zero a = and_zero_below (suc a) a (omega arith)

or_even : (p q r : ℕ) → p ≡ q * 2 → bit_or p r ≡ bit_or q (r / 2) * 2 + r % 2
or_even p q r h = rw (or_step p r) (let e : p / 2 ≡ q = omega arith in rw e (omega arith))

zero_or_below : (n b : ℕ) → b < n → bit_or 0 b ≡ b
zero_or_below zero b h = absurd (omega arith)
zero_or_below (suc n) zero h = refl
zero_or_below (suc n) (suc b) h =
    omega (arith, or_step 0 (suc b), zero_or_below n (suc b / 2) (omega arith))

pub zero_or : (b : ℕ) → bit_or 0 b ≡ b
zero_or b = zero_or_below (suc b) b (omega arith)

-- A number doubled `k` times.
abbrev pub doubled : ℕ → ℕ → ℕ
doubled zero x = x
doubled (suc k) x = doubled k x * 2

-- A field above the `k` low bits.
pub or_above : (k low b : ℕ) → low < doubled k 1 → bit_or low (doubled k b) ≡ low + doubled k b
or_above zero low b h = let e : low ≡ 0 = omega arith in rw e (omega (arith, zero_or b))
or_above (suc k) low b h =
    let half : doubled (suc k) b / 2 ≡ doubled k b = omega arith in
    let step = or_step low (doubled (suc k) b) in
    omega (arith, step, ap (bit_or (low / 2)) half, or_above k (low / 2) b (omega arith))

-- A field of four or of six bits below a shifted number.
pub or_field4 : (q r : ℕ) → r < 16 → bit_or (q * 16) r ≡ q * 16 + r
or_field4 q r h =
    let e : r / 2 / 2 / 2 / 2 ≡ 0 = omega arith in
    let f : bit_or q (r / 2 / 2 / 2 / 2) ≡ q = rw e (or_zero q) in
    omega (
      arith,
      or_even (q * 16) (q * 8) r (omega arith),
      or_even (q * 8) (q * 4) (r / 2) (omega arith),
      or_even (q * 4) (q * 2) (r / 2 / 2) (omega arith),
      or_even (q * 2) q (r / 2 / 2 / 2) refl,
    )

pub or_field6 : (q r : ℕ) → r < 64 → bit_or (q * 64) r ≡ q * 64 + r
or_field6 q r h = omega (
  arith,
  or_even (q * 64) (q * 32) r (omega arith),
  or_even (q * 32) (q * 16) (r / 2) (omega arith),
  or_field4 q (r / 2 / 2) (omega arith),
)

and_odd : (a m : ℕ) → bit_and a (m * 2 + 1) ≡ bit_and (a / 2) m * 2 + a % 2
and_odd a m =
    rw (and_step a (m * 2 + 1)) (let e : (m * 2 + 1) / 2 ≡ m = omega arith in rw e (omega arith))

pub and_mask3 : (a : ℕ) → bit_and a 7 ≡ a % 8
and_mask3 a =
    omega (arith, and_odd a 3, and_odd (a / 2) 1, and_odd (a / 2 / 2) 0, and_zero (a / 2 / 2 / 2))

pub and_mask4 : (a : ℕ) → bit_and a 15 ≡ a % 16
and_mask4 a = omega (arith, and_odd a 7, and_mask3 (a / 2))

pub and_mask5 : (a : ℕ) → bit_and a 31 ≡ a % 32
and_mask5 a = omega (arith, and_odd a 15, and_mask4 (a / 2))

pub and_mask6 : (a : ℕ) → bit_and a 63 ≡ a % 64
and_mask6 a = omega (arith, and_odd a 31, and_mask5 (a / 2))

-- The two top bits of a byte.
pub and_top2 : (a : ℕ) → a < 256 → bit_and a 192 ≡ a / 64 * 64
and_top2 a h = omega (
  arith,
  and_step a 192,
  and_step (a / 2) 96,
  and_step (a / 2 / 2) 48,
  and_step (a / 2 / 2 / 2) 24,
  and_step (a / 2 / 2 / 2 / 2) 12,
  and_step (a / 2 / 2 / 2 / 2 / 2) 6,
  and_mask3 (a / 2 / 2 / 2 / 2 / 2 / 2),
  and_odd (a / 2 / 2 / 2 / 2 / 2 / 2) 1,
  and_odd (a / 2 / 2 / 2 / 2 / 2 / 2 / 2) 0,
  and_zero (a / 2 / 2 / 2 / 2 / 2 / 2 / 2 / 2),
)
