-- ===== src/Json/Integer.antt =====
-- The decimal text of a 64-bit integer: std::to_chars and std::from_chars of the standard library,
-- as json/json_buffer.hpp and json/json_parser.cpp call them.
use server_entry.Prelude.{
  ℕ, zero, suc, ◌+◌, ◌-◌, ◌*◌, ◌/◌, ◌%◌, ◌<◌, ◌≤◌, ◌≡◌, refl, All, ◌&&◌, List, [], ◌∷◌, Option,
  none, some, ltb, leb, ◌==◌, if◌then◌else◌, arith, Bool, Bool-cases, inl, inr, ◌∙◌,
}

-- `negsuc n` is -(n + 1).
pub data ℤ : Type 0 where
  pos : ℕ → ℤ
  negsuc : ℕ → ℤ

-- Two to the 63rd.
abbrev pub int64_bound : ℕ
int64_bound = 0x8000000000000000

abbrev pub IsInt64 : ℤ → Type 0
IsInt64 (pos n) = n < int64_bound
IsInt64 (negsuc n) = n < int64_bound

-- The digits of a number in front of `tail`; a number takes fewer rounds than its value and one.
digits_before : ℕ → ℕ → List ℕ → List ℕ
digits_before zero n tail = tail
digits_before (suc fuel) n tail =
    let more = digits_before fuel (n / 10) ((48 + n % 10) ∷ tail) in
    if n / 10 == 0 then (48 + n % 10) ∷ tail else more

unfoldable pub decimal : ℕ → List ℕ
unfolding digits_before
decimal n = digits_before (n + 1) n []

-- std::to_chars
unfoldable pub to_chars : ℤ → List ℕ
to_chars (pos n) = decimal n
to_chars (negsuc n) = b'-' ∷ decimal (suc n)

abbrev pub is_digit : ℕ → Bool
is_digit c = leb 48 c && leb c 57

-- The value of a run of digits after `value`; no digits at all or another character is no number.
unfoldable pub digits_value : ℕ → List ℕ → Option ℕ
digits_value value [] = some value
digits_value value (c ∷ cs) =
    let next = digits_value (value * 10 + (c - 48)) cs in if is_digit c then next else none

unfoldable pub natural : List ℕ → Option ℕ
natural [] = none
natural (c ∷ cs) = digits_value 0 (c ∷ cs)

in_range : Option ℤ → ℕ → ℤ → Option ℤ
in_range failed n z = if ltb n int64_bound then some z else failed

from_natural : Option ℕ → Option ℤ
unfolding in_range
from_natural none = none
from_natural (some n) = in_range none n (pos n)

from_negative : Option ℕ → Option ℤ
unfolding in_range
from_negative none = none
from_negative (some zero) = some (pos 0)
from_negative (some (suc n)) = in_range none n (negsuc n)

-- std::from_chars over the whole text: `none` where it reports an error or stops before the end.
unfoldable pub from_chars : List ℕ → Option ℤ
unfolding from_natural from_negative
from_chars [] = none
from_chars (c ∷ cs) =
    if c == b'-' then from_negative (natural cs) else from_natural (natural (c ∷ cs))

digits_value-digits_before :
    (fuel n : ℕ) (tail : List ℕ)
    → n < fuel
    → digits_value 0 (digits_before fuel n tail) ≡ digits_value n tail
unfolding digits_before
digits_value-digits_before zero n tail h = absurd (omega arith)
digits_value-digits_before (suc fuel) n tail h = elim (Bool-cases (n / 10 == 0)) [
  | inl last ↦ rw last (unfold digits_value in ground arith)
  | inr more ↦ rw more (
      digits_value-digits_before fuel (n / 10) ((48 + n % 10) ∷ tail) (ground arith)
      ∙ unfold digits_value in ground arith)
]

abbrev pub IsDigit : ℕ → Type 0
IsDigit c = (48 ≤ c) × (c ≤ 57)

digits_before-IsDigit :
    (fuel n : ℕ) (tail : List ℕ) → All IsDigit tail → All IsDigit (digits_before fuel n tail)
unfolding digits_before
digits_before-IsDigit zero n tail h = h
digits_before-IsDigit (suc fuel) n tail h = elim (Bool-cases (n / 10 == 0)) [
  | inl last ↦ rw last (omega arith, h)
  | inr more ↦ rw more (digits_before-IsDigit fuel (n / 10) _ (omega arith, h))
]

-- A number is written with a digit in front that is zero for the number zero alone.
pub record Numeral (n : ℕ) (digits tail : List ℕ) : Type 0 where
  pub front : ℕ
  pub more : List ℕ
  pub split : digits ≡ front ∷ more
  pub digit : IsDigit front
  pub only_zero : front ≡ 48 → (n ≡ 0) × (more ≡ tail)

digits_before-Numeral :
    (fuel n : ℕ) (tail : List ℕ) → n < fuel → Numeral n (digits_before fuel n tail) tail
unfolding digits_before
digits_before-Numeral zero n tail h = absurd (omega arith)
digits_before-Numeral (suc fuel) n tail h = elim (Bool-cases (n / 10 == 0)) [
  | inl last ↦ record {
    front = 48 + n % 10;
    more = tail;
    split = rw last;
    digit = omega arith;
    only_zero = λ z. (ground arith, refl);
  }
  | inr other ↦
      let t = digits_before-Numeral fuel (n / 10) ((48 + n % 10) ∷ tail) (ground arith) in
      record {
        front = t.front;
        more = t.more;
        split = rw other t.split;
        digit = t.digit;
        only_zero = λ z. absurd (ground (arith, t.only_zero z));
      }
]

pub decimal-Numeral : (n : ℕ) → Numeral n (decimal n) []
unfolding decimal
decimal-Numeral n = digits_before-Numeral (n + 1) n [] (omega arith)

pub decimal-IsDigit : (n : ℕ) → All IsDigit (decimal n)
unfolding decimal
decimal-IsDigit n = digits_before-IsDigit (n + 1) n [] tt

natural-digits_value :
    (n : ℕ) (digits : List ℕ) → Numeral n digits [] → natural digits ≡ digits_value 0 digits
unfolding natural
natural-digits_value n digits t = rw t.split

pub natural-decimal : (n : ℕ) → natural (decimal n) ≡ some n
natural-decimal n =
    natural-digits_value n (decimal n) (decimal-Numeral n)
    ∙ unfold decimal in
      digits_value-digits_before (n + 1) n [] (omega arith) ∙ unfold digits_value in refl

-- A 64-bit integer is read back from its text.
pub from_chars-to_chars : (z : ℤ) → IsInt64 z → from_chars (to_chars z) ≡ some z
unfolding to_chars from_natural from_negative
from_chars-to_chars (pos n) h =
    let t = decimal-Numeral n in
    let d = t.digit in
    rw t.split (unfold from_chars in ground (arith, rw t.split at (natural-decimal n)))
from_chars-to_chars (negsuc n) h = unfold from_chars in ground (arith, natural-decimal (suc n))
