-- ===== src/Json/Parser/Progress/Documents.antt =====
-- parse_value and the functions that it calls: the fuel is enough, and each value consumes.
use server_entry.Prelude.{
  ℕ, zero, suc, ◌+◌, ◌*◌, ◌<◌, ◌≤◌, ◌≡◌, refl, List, [], ◌∷◌, arith, length, Bool, true, false, ap,
}
use server_entry.Json.Buffer.{Buffer}
use server_entry.Json.Writer.{true_text, false_text, null_text}
use server_entry.Json.Parser.{
  Cursor, Run, advance_to, send, whitespace, Event, key, location, object_begin, object_end,
  array_begin, array_end, boolean, null,
}
use server_entry.Json.Parser.Text.{parse_string}
use server_entry.Json.Parser.Document.{
  parse_text, parse_literal, parse_colon, parse_key, close_or, close_or_comma, parse_scalar,
  parse_value, parse_object, parse_members, parse_array, parse_elements, parse_end, parse_from,
  parse,
}
use server_entry.Json.Parser.Progress.{
  Stays, Within, self, >>=-Within, Within-weaken, whitespace_end, consume_literal-Within,
}
use server_entry.Json.Parser.Progress.Strings.{parse_string-Within}
use server_entry.Json.Parser.Progress.Numbers.{parse_number-Within}

module _ (e n : ℕ) where
  string_literal-Within :
      (c : Cursor) (x : ℕ) (rest : List ℕ)
      → c.rest ≡ x ∷ rest
      → Stays e n c
      → Within self e n (parse_string c)
  string_literal-Within c x rest q h =
      Within-weaken self e (length rest) n _ (omega (arith, ap length q))
        (parse_string-Within c e (length rest) x rest q (omega (arith, ap length q)))

  parse_text-Within :
      (c : Cursor) (x : ℕ) (rest : List ℕ)
      → c.rest ≡ x ∷ rest
      → Stays e n c
      → Within self e n (parse_text c)
  unfolding parse_text
  parse_text-Within c x rest q h =
      >>=-Within self self e n n _ _ (string_literal-Within c x rest q h) λ c' p r. (p, r)

  parse_literal-Within :
      (literal : List ℕ) (event : Event) (c : Cursor)
      → Stays e n c
      → Within self e n (parse_literal literal event c)
  unfolding parse_literal
  parse_literal-Within literal event c h =
      >>=-Within self self e n n _ _ (consume_literal-Within literal c e n h.0 h.1) λ c' p r. (p, r)

  parse_colon-Within : (c : Cursor) → Stays e n c → Within self e n (parse_colon c)
  unfolding parse_colon
  parse_colon-Within c h = go c.rest refl
    where
      go : (xs : List ℕ) → c.rest ≡ xs → Within self e n (parse_colon c)
      go [] q = rw (q, parse_colon) (omega arith)
      go (x ∷ rest) q = rw (q, parse_colon) (ground (arith, ap length q))

  whitespace-Stays : (c : Cursor) → Stays e n c → Stays e n (whitespace c)
  whitespace-Stays c h = omega (arith, whitespace_end c)

  parse_key-Within : (c : Cursor) → Stays e n c → Within self e n (parse_key c)
  unfolding parse_key
  parse_key-Within c h = go c.rest refl
    where
      go : (xs : List ℕ) → c.rest ≡ xs → Within self e n (parse_key c)
      go [] q = rw (q, parse_key) (omega arith)
      go (x ∷ rest) q =
          let name =
            >>=-Within self self e n n _
              (λ c'.
                parse_colon
                  (whitespace (send (key c'.buffer.content) (send (location c.position) c'))))
              (string_literal-Within c x rest q h)
              (λ c' p r. parse_colon-Within _ (
                whitespace-Stays (send (key c'.buffer.content) (send (location c.position) c'))
                  (p, r))) in
          rw (q, parse_key) (ground (arith, name))

  close_or-Within :
      (closing : ℕ) (event : Event) (next : Run Cursor) (c : Cursor)
      → Stays e n c
      → Within self e n next
      → Within self e n (close_or closing event next c)
  close_or-Within closing event next c h k = go c.rest refl
    where
      go : (xs : List ℕ) → c.rest ≡ xs → Within self e n (close_or closing event next c)
      go [] q = rw (q, close_or) k
      go (x ∷ rest) q = rw (q, close_or) (ground (arith, ap length q))

  close_or_comma-Within :
      (closing : ℕ) (event : Event) (next : Cursor → Run Cursor) (c : Cursor)
      → Stays e n c
      → ((m : ℕ) (c' : Cursor) → m + 1 ≤ n → Stays e m c' → Within self e m (next c'))
      → Within self e n (close_or_comma closing event next c)
  close_or_comma-Within closing event next c h k = go c.rest refl
    where
      go : (xs : List ℕ) → c.rest ≡ xs → Within self e n (close_or_comma closing event next c)
      go [] q = rw (q, close_or_comma) (omega arith)
      go (x ∷ rest) q =
          let m = length rest in
          let more =
            Within-weaken self e m n _ (omega (arith, ap length q))
              (k m (advance_to rest c) (omega (arith, ap length q)) (omega (arith, ap length q))) in
          rw (q, close_or_comma) (ground (arith, ap length q, more))

module _ (is_double : List ℕ → Bool) (e : ℕ) where
  parse_scalar-Within :
      (n : ℕ) (c : Cursor) (x : ℕ) (rest : List ℕ)
      → c.rest ≡ x ∷ rest
      → Stays e n c
      → Within self e n (parse_scalar is_double x c)
  unfolding parse_scalar
  parse_scalar-Within n c x rest q h = ground (
    arith,
    parse_text-Within e n c x rest q h,
    parse_literal-Within e n true_text (boolean true) c h,
    parse_literal-Within e n false_text (boolean false) c h,
    parse_literal-Within e n null_text null c h,
    parse_number-Within e n is_double c h,
  )

  value_step :
      (f n : ℕ) (c : Cursor)
      → Stays e n c
      → ((m : ℕ) (c' : Cursor)
          → m + 1 ≤ n
          → Stays e m c'
          → Within self e m (parse_object is_double f c')
            × Within self e m (parse_array is_double f c'))
      → Within self e n (parse_value is_double (suc f) c)
  unfolding parse_value
  value_step f n c h k = go (whitespace c).rest refl
    where
      go :
          (xs : List ℕ)
          → (whitespace c).rest ≡ xs
          → Within self e n (parse_value is_double (suc f) c)
      go [] q = rw (q, parse_value) (omega (arith, whitespace-Stays e n c h))
      go (x ∷ rest) q =
          let at = send (location (whitespace c).position) (whitespace c) in
          let inside = whitespace-Stays e n c h in
          let m = length rest in
          let calls =
            k m (advance_to rest at) (omega (arith, ap length q)) (omega (arith, ap length q)) in
          let shorter : m ≤ n = omega (arith, ap length q) in
          rw (q, parse_value)
            (ground (
              arith,
              Within-weaken self e m n _ shorter calls.0,
              Within-weaken self e m n _ shorter calls.1,
              parse_scalar-Within n at x rest q inside,
            ))

  mutual
    unfolding parse_value

    parse_value-Stays :
        (f n : ℕ) (c : Cursor)
        → 3 * n < f
        → Stays e n c
        → Within self e n (parse_value is_double f c)
    parse_value-Stays zero n c b h = absurd (omega arith)
    parse_value-Stays (suc f) n c b h = value_step f n c h λ m c' l s.
        (parse_object-Stays f m c' (omega arith) s, parse_array-Stays f m c' (omega arith) s)

    parse_object-Stays :
        (f n : ℕ) (c : Cursor)
        → 3 * n + 2 < f
        → Stays e n c
        → Within self e n (parse_object is_double f c)
    parse_object-Stays zero n c b h = absurd (omega arith)
    parse_object-Stays (suc f) n c b h =
        let inside = whitespace-Stays e n (send object_begin c) h in
        close_or-Within e n b'}' object_end _ _ inside
          (parse_members-Stays f n _ (omega arith) inside)

    parse_members-Stays :
        (f n : ℕ) (c : Cursor)
        → 3 * n + 1 < f
        → Stays e n c
        → Within self e n (parse_members is_double f c)
    parse_members-Stays zero n c b h = absurd (omega arith)
    parse_members-Stays (suc f) n c b h =
        >>=-Within self self e n n _ _ (parse_key-Within e n _ (whitespace-Stays e n c h)) λ c₁ p q.
          >>=-Within self self e n n _ _ (parse_value-Stays f n c₁ (omega arith) (p, q)) λ c₂ p' q'.
            close_or_comma-Within e n b'}' object_end _ _ (whitespace-Stays e n c₂ (p', q'))
              λ m c₃ l s. parse_members-Stays f m c₃ (omega arith) s

    parse_array-Stays :
        (f n : ℕ) (c : Cursor)
        → 3 * n + 2 < f
        → Stays e n c
        → Within self e n (parse_array is_double f c)
    parse_array-Stays zero n c b h = absurd (omega arith)
    parse_array-Stays (suc f) n c b h =
        let inside = whitespace-Stays e n (send array_begin c) h in
        close_or-Within e n b']' array_end _ _ inside
          (parse_elements-Stays f n _ (omega arith) inside)

    parse_elements-Stays :
        (f n : ℕ) (c : Cursor)
        → 3 * n + 1 < f
        → Stays e n c
        → Within self e n (parse_elements is_double f c)
    parse_elements-Stays zero n c b h = absurd (omega arith)
    parse_elements-Stays (suc f) n c b h =
        >>=-Within self self e n n _ _ (parse_value-Stays f n c (omega arith) h) λ c₁ p q.
          close_or_comma-Within e n b']' array_end _ _ (whitespace-Stays e n c₁ (p, q))
            λ m c₂ l s. parse_elements-Stays f m c₂ (omega arith) s

  parse_end-Within : (n : ℕ) (c : Cursor) → Stays e n c → Within self e 0 (parse_end c)
  unfolding parse_end
  parse_end-Within n c h = go c.rest refl
    where
      go : (xs : List ℕ) → c.rest ≡ xs → Within self e 0 (parse_end c)
      go [] q = rw (q, parse_end) (omega (arith, ap length q))
      go (x ∷ rest) q = rw (q, parse_end) (omega arith)

  parse_from-Within :
      (f n : ℕ) (c : Cursor) → 3 * n < f → Stays e n c → Within self e 0 (parse_from is_double f c)
  unfolding parse_from
  parse_from-Within f n c b h =
      >>=-Within self self e n 0 _ _
        (parse_value-Stays f n (whitespace c) b (whitespace-Stays e n c h))
        λ c' p q. parse_end-Within n (whitespace c') (whitespace-Stays e n c' (p, q))

-- The parser always returns: its calls never outrun the fuel that `parse` hands out. Where it
-- accepts, it has read the whole input; where it refuses, the offset of the error lies within the
-- input or at its end.
pub parse-Within :
    (is_double : List ℕ → Bool) (input : List ℕ) (buffer : Buffer)
    → Within self (length input) 0 (parse is_double input buffer)
unfolding parse
parse-Within is_double input buffer =
    parse_from-Within is_double (length input) (3 * length input + 1) (length input) _ (omega arith)
      (omega arith)
