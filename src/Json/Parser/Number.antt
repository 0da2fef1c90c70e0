-- ===== src/Json/Parser/Number.antt =====
-- json_parser::parse_number: the grammar of numbers, and the conversion of the scanned text.
use server_entry.Prelude.{
  ℕ, ◌+◌, ◌||◌, not, Bool, true, false, List, [], ◌∷◌, ◌++◌, none, some, ltb, ◌==◌, if◌then◌else◌,
}
use server_entry.Json.Ascii.{json_is_digit}
use server_entry.Json.Integer.{from_chars}
use server_entry.Json.Parser.{
  invalid_number, Cursor, Run, ok, ◌>>=◌, fail, advance_to, send, integer, number,
}

-- `text` is the input from `start` up to the position.
pub record Scan : Type 0 where
  pub cursor : Cursor
  pub text : List ℕ

-- `++position`
abbrev pub take_to : ℕ → List ℕ → Scan → Scan
take_to x rest s = record { cursor = advance_to rest s.cursor; text = s.text ++ (x ∷ []) }

-- `while (position < input.size() && json_is_digit(input[position])) ++position`
unfoldable pub take_digits : List ℕ → Scan → Scan
take_digits [] s = s
take_digits (x ∷ xs) s =
    let more = take_digits xs (take_to x xs s) in if json_is_digit x then more else s

-- `position >= input.size() || !json_is_digit(input[position])`
abbrev pub no_digit : List ℕ → Bool
no_digit [] = true
no_digit (x ∷ xs) = not (json_is_digit x)

-- At least one digit.
unfoldable pub some_digits : Scan → Run Scan
some_digits s =
    if no_digit s.cursor.rest
    then fail invalid_number s.cursor.position s.cursor
    else ok (take_digits s.cursor.rest s)

unfoldable pub minus_sign : Scan → Scan
minus_sign s = elim s.cursor.rest [ [] ↦ s | x ∷ rest ↦ if x == b'-' then take_to x rest s else s ]

unfoldable pub whole_part : ℕ → Scan → Run Scan
whole_part start s = elim s.cursor.rest [
  | [] ↦ fail invalid_number start s.cursor
  | x ∷ rest ↦
      if x == b'0'
      then if no_digit rest
        then ok (take_to x rest s)
        else fail invalid_number (s.cursor.position + 1) s.cursor
      else if ltb x b'1' || ltb b'9' x
      then fail invalid_number s.cursor.position s.cursor
      else ok (take_digits (x ∷ rest) s)
]

-- The scan after a fraction, and whether there is one.
unfoldable pub fraction : Scan → Run (Scan × Bool)
fraction s = elim s.cursor.rest [
  | [] ↦ ok (s, false)
  | x ∷ rest ↦
      if x == b'.' then (some_digits (take_to x rest s) >>= λ s'. ok (s', true)) else ok (s, false)
]

unfoldable pub exponent_sign : Scan → Scan
exponent_sign s = elim s.cursor.rest [
  | [] ↦ s
  | x ∷ rest ↦ if x == b'+' || x == b'-' then take_to x rest s else s
]

unfoldable pub exponent : Scan × Bool → Run (Scan × Bool)
exponent (s, floating) = elim s.cursor.rest [
  | [] ↦ ok (s, floating)
  | x ∷ rest ↦
      if x == b'e' || x == b'E'
      then (some_digits (exponent_sign (take_to x rest s)) >>= λ s'. ok (s', true))
      else ok (s, floating)
]

-- `is_double` says of which texts std::from_chars makes a double, as a whole.
unfoldable pub convert : (List ℕ → Bool) → ℕ → Scan × Bool → Run Cursor
convert is_double start (s, floating) =
    if floating
    then if is_double s.text
      then ok (send (number s.text) s.cursor)
      else fail invalid_number start s.cursor
    else elim (from_chars s.text) [
      | none ↦ fail invalid_number start s.cursor
      | some value ↦ ok (send (integer value) s.cursor)
    ]

unfoldable pub parse_number : (List ℕ → Bool) → Cursor → Run Cursor
parse_number is_double c =
    whole_part c.position (minus_sign (record { cursor = c; text = [] })) >>= λ whole.
    fraction whole >>= λ fractional.
    exponent fractional >>= λ scanned. convert is_double c.position scanned
