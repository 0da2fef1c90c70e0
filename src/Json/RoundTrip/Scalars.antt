-- ===== src/Json/RoundTrip/Scalars.antt =====
-- parse_value reads the text of a string, a number or a literal back.
use server_entry.Prelude.{
  subst, ℕ, zero, suc, ◌+◌, ◌*◌, ◌≤◌, ◌≡◌, refl, ◌∙◌, sym, List, [], ◌∷◌, ◌++◌, arith, length,
  length-append, Bool, true, false, ◌||◌, ◌==◌,
}
use server_entry.Json.Ascii.{json_is_digit}
use server_entry.Json.Escape.{quote, escape}
use server_entry.Json.Integer.{ℤ, pos, negsuc, IsInt64, to_chars, decimal-Numeral}
use server_entry.Json.Value.{Value, text, integer, boolean, null, render, events, IsUtf8}
use server_entry.Json.Parser.{
  Event, location, string, Cursor, Run, ok, ◌>>=◌, whitespace, skip, after_literal, consume_literal,
}
use server_entry.Json.Parser
use server_entry.Json.Parser.Number.{parse_number}
use server_entry.Json.Parser.Document.{parse_text, parse_literal, parse_scalar, parse_value}
use server_entry.Json.RoundTrip.Strings.{at}
use server_entry.Json.RoundTrip.StringLoop.{parse_string-quotation}
use server_entry.Json.RoundTrip.Numbers.{IsDelimited, parse_number-to_chars}
use server_entry.Json.RoundTrip.Reading.{semantic, Reads, read_located, escape_size}

module _ (is_double : List ℕ → Bool) (room : ℕ) where
  -- With fuel for the calls and room for its strings, `v` is read in front of a delimiter.
  abbrev pub ReadsValue : Value → Type 0
  ReadsValue v =
      (fuel : ℕ) (tail : List ℕ) (sent : List Event) (p : ℕ) (content : List ℕ)
      → 3 * length (render v) + 1 ≤ fuel
      → length (render v) ≤ room
      → IsDelimited tail
      → Reads room (parse_value is_double fuel (at room sent (render v ++ tail) p content)) tail
          sent (events v)

  -- A run that sends a location and then `e`.
  read_one :
      (run : Run Cursor) (tail : List ℕ) (sent : List Event) (p p' : ℕ) (content : List ℕ)
      (e : Event)
      → semantic (e ∷ []) ≡ e ∷ []
      → run ≡ ok (at room ((sent ++ (location p ∷ [])) ++ (e ∷ [])) tail p' content)
      → Reads room run tail sent (e ∷ [])
  read_one run tail sent p p' content e s r =
      subst (λ t. Reads room t tail sent (e ∷ [])) (sym r)
        (read_located room tail sent p p' content e s)

  pub text_read : (s : List ℕ) → IsUtf8 s → ReadsValue (text s)
  unfolding render events
  text_read s u zero tail sent p content f l d = absurd (omega arith)
  text_read s u (suc fuel) tail sent p content f l d =
      let n = length-append (escape s) (quote ∷ []) in
      let (p', run) =
        parse_string-quotation room (sent ++ (location p ∷ [])) s tail content p u
          (omega (arith, escape_size s)) in
      read_one _ tail sent p p' s (string s) (unfold semantic in refl) (
        unfold parse_value in
        unfold whitespace in unfold skip in unfold parse_scalar in unfold parse_text in rw run refl)

  pub boolean_read : (b : Bool) → ReadsValue (boolean b)
  unfolding render events parse_value whitespace skip parse_scalar parse_literal consume_literal
      after_literal semantic
  boolean_read b zero tail sent p content f l d = absurd (ground arith)
  boolean_read true (suc fuel) tail sent p content f l d =
      read_one _ tail sent p (p + 1 + 1 + 1 + 1) content (Parser.boolean true) refl refl
  boolean_read false (suc fuel) tail sent p content f l d =
      read_one _ tail sent p (p + 1 + 1 + 1 + 1 + 1) content (Parser.boolean false) refl refl

  pub null_read : ReadsValue null
  unfolding render events parse_value whitespace skip parse_scalar parse_literal consume_literal
      after_literal semantic
  null_read zero tail sent p content f l d = absurd (ground arith)
  null_read (suc fuel) tail sent p content f l d =
      read_one _ tail sent p (p + 1 + 1 + 1 + 1) content Parser.null refl refl

  -- The first character of an integer selects parse_number.
  number_selected :
      (fuel : ℕ) (x : ℕ) (xs : List ℕ) (sent : List Event) (p : ℕ) (content : List ℕ)
      → (x == b'-' || json_is_digit x) ≡ true
      → parse_value is_double (suc fuel) (at room sent (x ∷ xs) p content)
        ≡ parse_number is_double (at room (sent ++ (location p ∷ [])) (x ∷ xs) p content)
  unfolding parse_value whitespace skip parse_scalar
  number_selected fuel x xs sent p content h = ground arith

  selected :
      (fuel : ℕ) (z : ℤ) (tail : List ℕ) (sent : List Event) (p : ℕ) (content : List ℕ)
      → parse_value is_double (suc fuel) (at room sent (to_chars z ++ tail) p content)
        ≡ parse_number is_double
            (at room (sent ++ (location p ∷ [])) (to_chars z ++ tail) p content)
  unfolding to_chars
  selected fuel (pos n) tail sent p content =
      let t = decimal-Numeral n in
      let d = t.digit in
      rw t.split (number_selected fuel t.front (t.more ++ tail) sent p content (ground arith))
  selected fuel (negsuc n) tail sent p content = number_selected fuel 45 _ sent p content refl

  pub integer_read : (z : ℤ) → IsInt64 z → ReadsValue (integer z)
  unfolding render events
  integer_read z b zero tail sent p content f l d = absurd (omega arith)
  integer_read z b (suc fuel) tail sent p content f l d =
      let (p', run) =
        parse_number-to_chars (record { content = content; room = room })
          (sent ++ (location p ∷ [])) is_double z tail p b d in
      read_one _ tail sent p p' content (Parser.integer z) (unfold semantic in refl)
        (selected fuel z tail sent p content ∙ run)
