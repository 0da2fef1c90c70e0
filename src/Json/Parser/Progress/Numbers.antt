-- ===== src/Json/Parser/Progress/Numbers.antt =====
-- parse_number reads within the input.
use server_entry.Prelude.{ℕ, ◌≤◌, ◌≡◌, refl, List, [], ◌∷◌, arith, length, Bool, ap}
use server_entry.Json.Parser.{Cursor}
use server_entry.Json.Parser.Number.{
  Scan, take_to, take_digits, some_digits, minus_sign, whole_part, fraction, exponent_sign,
  exponent, convert, parse_number,
}
use server_entry.Json.Parser.Progress.{Stays, Within, self, >>=-Within}

abbrev scanned : Scan → Cursor
scanned s = s.cursor

abbrev scanned_pair : Scan × Bool → Cursor
scanned_pair r = r.0.cursor

module _ (e n : ℕ) where
  abbrev Stay : Scan → Type 0
  Stay s = Stays e n s.cursor

  take_digits-Stays :
      (xs : List ℕ) (s : Scan) → s.cursor.rest ≡ xs → Stay s → Stay (take_digits xs s)
  unfolding take_digits
  take_digits-Stays [] s q h = h
  take_digits-Stays (x ∷ xs) s q h =
      ground (arith, ap length q, take_digits-Stays xs (take_to x xs s) refl)

  some_digits-Within : (s : Scan) → Stay s → Within scanned e n (some_digits s)
  unfolding some_digits
  some_digits-Within s h = ground (arith, take_digits-Stays s.cursor.rest s refl h)

  minus_sign-Stays : (s : Scan) → Stay s → Stay (minus_sign s)
  unfolding minus_sign
  minus_sign-Stays s h = go s.cursor.rest refl
    where
      go : (xs : List ℕ) → s.cursor.rest ≡ xs → Stay (minus_sign s)
      go [] q = rw (q, minus_sign) h
      go (x ∷ rest) q = rw (q, minus_sign) (ground (arith, ap length q))

  whole_part-Within :
      (start : ℕ) (s : Scan) → start ≤ e → Stay s → Within scanned e n (whole_part start s)
  unfolding whole_part
  whole_part-Within start s o h = go s.cursor.rest refl
    where
      go : (xs : List ℕ) → s.cursor.rest ≡ xs → Within scanned e n (whole_part start s)
      go [] q = rw (q, whole_part) o
      go (x ∷ rest) q =
          rw (q, whole_part) (ground (arith, ap length q, take_digits-Stays (x ∷ rest) s q h))

  fraction-Within : (s : Scan) → Stay s → Within scanned_pair e n (fraction s)
  unfolding fraction
  fraction-Within s h = go s.cursor.rest refl
    where
      go : (xs : List ℕ) → s.cursor.rest ≡ xs → Within scanned_pair e n (fraction s)
      go [] q = rw (q, fraction) h
      go (x ∷ rest) q =
          rw (q, fraction) (ground (arith, ap length q, some_digits-Within (take_to x rest s)))

  exponent_sign-Stays : (s : Scan) → Stay s → Stay (exponent_sign s)
  unfolding exponent_sign
  exponent_sign-Stays s h = go s.cursor.rest refl
    where
      go : (xs : List ℕ) → s.cursor.rest ≡ xs → Stay (exponent_sign s)
      go [] q = rw (q, exponent_sign) h
      go (x ∷ rest) q = rw (q, exponent_sign) (ground (arith, ap length q))

  exponent-Within : (r : Scan × Bool) → Stay r.0 → Within scanned_pair e n (exponent r)
  unfolding exponent
  exponent-Within (s, b) h = go s.cursor.rest refl
    where
      go : (xs : List ℕ) → s.cursor.rest ≡ xs → Within scanned_pair e n (exponent (s, b))
      go [] q = rw (q, exponent) h
      go (x ∷ rest) q =
          let taken : Stay (take_to x rest s) = omega (arith, ap length q) in
          let signed = exponent_sign (take_to x rest s) in
          let digits : Within scanned e n (some_digits signed) =
            some_digits-Within signed (exponent_sign-Stays (take_to x rest s) taken) in
          rw (q, exponent) (ground (arith, digits))

  convert-Within :
      (is_double : List ℕ → Bool) (start : ℕ) (r : Scan × Bool)
      → start ≤ e
      → Stay r.0
      → Within self e n (convert is_double start r)
  unfolding convert
  convert-Within is_double start (s, b) o h = ground arith

  -- A number is read inside the input.
  pub parse_number-Within :
      (is_double : List ℕ → Bool) (c : Cursor)
      → Stays e n c
      → Within self e n (parse_number is_double c)
  unfolding parse_number
  parse_number-Within is_double c h =
      let first : Scan = record { cursor = c; text = [] } in
      >>=-Within scanned self e n n _ _
        (whole_part-Within c.position (minus_sign first) (omega arith) (minus_sign-Stays first h))
        λ s p q. >>=-Within scanned_pair self e n n _ _ (fraction-Within s (p, q)) λ f p' q'.
          >>=-Within scanned_pair self e n n _ _ (exponent-Within f (p', q'))
            λ x p'' q''. convert-Within is_double c.position x (omega arith) (p'', q'')
