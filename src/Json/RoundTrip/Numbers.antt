-- ===== src/Json/RoundTrip/Numbers.antt =====
-- parse_number reads the text of an integer back.
use server_entry.Prelude.{
  ◌⊎◌, ℕ, suc, ◌+◌, ◌≡◌, ◌≢◌, refl, ap, ◌∙◌, List, [], ◌∷◌, ◌++◌, append_assoc, append-nil, All,
  arith, Bool, ℕ_discrete, some,
}
use server_entry.Json.Buffer.{Buffer}
use server_entry.Json.Integer.{
  ℤ, pos, negsuc, IsInt64, to_chars, from_chars, from_chars-to_chars, decimal, IsDigit, Numeral,
  decimal-Numeral, decimal-IsDigit,
}
use server_entry.Json.Parser.{Cursor, ok, ◌>>=◌, Event, integer, send}
use server_entry.Json.Parser.Number.{
  Scan, take_digits, minus_sign, whole_part, fraction, exponent, convert, parse_number,
}

-- What may follow a value: nothing, or a separator or closing character.
abbrev pub IsDelimited : List ℕ → Type 0
IsDelimited [] = Unit {0}
IsDelimited (x ∷ xs) = (x ≡ b',') ⊎ (x ≡ b']') ⊎ (x ≡ b'}')

module _ (buffer : Buffer) (sent : List Event) where
  abbrev pub standing : List ℕ → ℕ → Cursor
  standing rest position = record {
    rest = rest;
    position = position;
    buffer = buffer;
    events = sent;
  }

  abbrev scan_at : List ℕ → ℕ → List ℕ → Scan
  scan_at rest position text = record { cursor = standing rest position; text = text }

  no_digits :
      (tail : List ℕ) (p : ℕ) (text : List ℕ)
      → IsDelimited tail
      → take_digits tail (scan_at tail p text) ≡ scan_at tail p text
  unfolding take_digits
  no_digits [] p text h = refl
  no_digits (x ∷ xs) p text h = ground arith

  take_digits_lem :
      (ds tail : List ℕ) (p : ℕ) (text : List ℕ)
      → All IsDigit ds
      → IsDelimited tail
      → (p' : ℕ) × (take_digits (ds ++ tail) (scan_at (ds ++ tail) p text)
          ≡ scan_at tail p' (text ++ ds))
  unfolding take_digits
  take_digits_lem [] tail p text h d = (p, rw (append-nil text) (no_digits tail p text d))
  take_digits_lem (x ∷ ds) tail p text h d =
      let (p', run) = take_digits_lem ds tail (p + 1) (text ++ (x ∷ [])) h.1 d in
      (p', ground (arith, run, append_assoc text (x ∷ []) ds))

  -- The scan over the digits of a number, from the first on.
  whole_part_lem :
      (n start : ℕ) (ds tail : List ℕ) (p : ℕ) (text : List ℕ)
      → Numeral n ds []
      → All IsDigit ds
      → IsDelimited tail
      → (p' : ℕ) × (whole_part start (scan_at (ds ++ tail) p text)
          ≡ ok (scan_at tail p' (text ++ ds)))
  whole_part_lem n start ds tail p text t h d = elim (ℕ_discrete t.front 48) [
    | yes z ↦
        let only = t.only_zero z in
        let e : ds ≡ 48 ∷ [] = t.split ∙ ap (λ y. y ∷ t.more) z ∙ ap (◌∷◌ 48) only.1 in
        (p + 1, rw e (zero_part tail d))
    | no nz ↦
        let (p', run) = take_digits_lem ds tail p text h d in
        (p', digit_part t.front t.more t.split nz t.digit ∙ ap ok run)
  ]
    where
      zero_part :
          (tail : List ℕ)
          → IsDelimited tail
          → whole_part start (scan_at (48 ∷ tail) p text)
            ≡ ok (scan_at tail (p + 1) (text ++ (48 ∷ [])))
      zero_part [] d = unfold whole_part in refl
      zero_part (x ∷ xs) d = unfold whole_part in ground arith

      digit_part :
          (x : ℕ) (more : List ℕ)
          → ds ≡ x ∷ more
          → x ≢ 48
          → IsDigit x
          → whole_part start (scan_at (ds ++ tail) p text)
            ≡ ok (take_digits (ds ++ tail) (scan_at (ds ++ tail) p text))
      digit_part x more e nz g = rw e (unfold whole_part in ground arith)

  -- A delimiter ends the number behind its whole part.
  ending :
      (is_double : List ℕ → Bool) (start : ℕ) (tail : List ℕ) (p : ℕ) (text : List ℕ) (z : ℤ)
      → IsDelimited tail
      → from_chars text ≡ some z
      → (fraction (scan_at tail p text) >>= λ f. exponent f >>= λ x. convert is_double start x)
        ≡ ok (send (integer z) (standing tail p))
  unfolding fraction exponent convert
  ending is_double start [] p text z d e = rw e
  ending is_double start (x ∷ xs) p text z d e = ground arith

  signless :
      (n : ℕ) (ds tail : List ℕ) (p : ℕ)
      → Numeral n ds []
      → minus_sign (scan_at (ds ++ tail) p []) ≡ scan_at (ds ++ tail) p []
  unfolding minus_sign
  signless n ds tail p t = let g = t.digit in rw t.split (ground arith)

  negative :
      (xs : List ℕ) (p : ℕ) → minus_sign (scan_at (45 ∷ xs) p []) ≡ scan_at xs (p + 1) (45 ∷ [])
  unfolding minus_sign
  negative xs p = refl

  pub parse_number-to_chars :
      (is_double : List ℕ → Bool) (z : ℤ) (tail : List ℕ) (p : ℕ)
      → IsInt64 z
      → IsDelimited tail
      → (p' : ℕ) × (parse_number is_double (standing (to_chars z ++ tail) p)
          ≡ ok (send (integer z) (standing tail p')))
  unfolding parse_number to_chars
  parse_number-to_chars is_double (pos n) tail p b d =
      let back = from_chars-to_chars (pos n) b in
      let (p', run) =
        whole_part_lem n p (decimal n) tail p [] (decimal-Numeral n) (decimal-IsDigit n) d in
      (
        p',
        rw (signless n (decimal n) tail p (decimal-Numeral n), run)
            (ending is_double p tail p' (decimal n) (pos n) d back),
      )
  parse_number-to_chars is_double (negsuc n) tail p b d =
      let back = from_chars-to_chars (negsuc n) b in
      let (p', run) =
        whole_part_lem (suc n) p (decimal (suc n)) tail (p + 1) (b'-' ∷ [])
          (decimal-Numeral (suc n)) (decimal-IsDigit (suc n)) d in
      (
        p',
        rw (negative (decimal (suc n) ++ tail) p, run)
            (ending is_double p tail p' (45 ∷ decimal (suc n)) (negsuc n) d back),
      )
