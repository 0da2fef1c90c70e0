-- ===== src/Json/Parser/Document.antt =====
-- json_parser::parse, parse_value, parse_object and parse_array. The calls recur on fuel.
use server_entry.Prelude.{
  ℕ, zero, suc, ◌+◌, ◌*◌, ◌||◌, Bool, true, false, List, [], ◌∷◌, ◌==◌, if◌then◌else◌, length,
}
use server_entry.Json.Ascii.{json_is_digit}
use server_entry.Json.Buffer.{Buffer}
use server_entry.Json.Escape.{quote}
use server_entry.Json.Writer.{true_text, false_text, null_text}
use server_entry.Json.Parser.{
  unexpected_end, unexpected_token, expected_object_key, expected_colon, expected_comma_or_end,
  trailing_characters, location, object_begin, object_end, array_begin, array_end, key, string,
  boolean, null, Event, Cursor, Run, ok, out_of_fuel, ◌>>=◌, fail, advance_to, send, whitespace,
  consume_literal,
}
use server_entry.Json.Parser.Text.{parse_string}
use server_entry.Json.Parser.Number.{parse_number}

-- A string value.
unfoldable pub parse_text : Cursor → Run Cursor
parse_text c = parse_string c >>= λ c'. ok (send (string c'.buffer.content) c')

unfoldable pub parse_literal : List ℕ → Event → Cursor → Run Cursor
parse_literal literal event c = consume_literal literal c >>= λ c'. ok (send event c')

-- The key of a member, from the quote up to the colon, which is passed.
unfoldable pub parse_colon : Cursor → Run Cursor
parse_colon c = elim c.rest [
  | [] ↦ fail unexpected_end c.position c
  | x ∷ rest ↦ if x == b':' then ok (advance_to rest c) else fail expected_colon c.position c
]

unfoldable pub parse_key : Cursor → Run Cursor
parse_key c = elim c.rest [
  | [] ↦ fail unexpected_end c.position c
  | x ∷ rest ↦
      if x == quote
      then (parse_string c >>= λ c'.
          parse_colon (whitespace (send (key c'.buffer.content) (send (location c.position) c'))))
      else fail expected_object_key c.position c
]

-- `handler.location(position); ++position; handler.…_end()`
abbrev pub close : Event → List ℕ → Cursor → Cursor
close event rest c = send event (advance_to rest (send (location c.position) c))

-- The test for an empty object or array: `next` where the closing character is not in front.
abbrev pub close_or : ℕ → Event → Run Cursor → Cursor → Run Cursor
close_or closing event next c = elim c.rest [
  | [] ↦ next
  | x ∷ rest ↦ if x == closing then ok (close event rest c) else next
]

-- After a member or an element: the end, or `next` behind a comma.
abbrev pub close_or_comma : ℕ → Event → (Cursor → Run Cursor) → Cursor → Run Cursor
close_or_comma closing event next c = elim c.rest [
  | [] ↦ fail unexpected_end c.position c
  | x ∷ rest ↦
      let more = next (advance_to rest c) in
      if x == closing
      then ok (close event rest c)
      else if x == b','
      then more
      else fail expected_comma_or_end c.position c
]

-- The test for trailing characters in `parse`.
unfoldable pub parse_end : Cursor → Run Cursor
parse_end c = elim c.rest [ [] ↦ ok c | x ∷ rest ↦ fail trailing_characters c.position c ]

module _ (is_double : List ℕ → Bool) where
  -- The scalar cases of the `switch` in parse_value.
  unfoldable pub parse_scalar : ℕ → Cursor → Run Cursor
  parse_scalar x c =
      if x == quote
      then parse_text c
      else if x == b't'
      then parse_literal true_text (boolean true) c
      else if x == b'f'
      then parse_literal false_text (boolean false) c
      else if x == b'n'
      then parse_literal null_text null c
      else if x == b'-' || json_is_digit x
      then parse_number is_double c
      else fail unexpected_token c.position c

  unfoldable mutual
    pub parse_value : ℕ → Cursor → Run Cursor
    parse_value zero c = out_of_fuel
    parse_value (suc fuel) c =
        let c' = whitespace c in
        elim c'.rest [
          | [] ↦ fail unexpected_end c'.position c'
          | x ∷ rest ↦
              let at = send (location c'.position) c' in
              let object = parse_object fuel (advance_to rest at) in
              let array = parse_array fuel (advance_to rest at) in
              if x == b'{' then object else if x == b'[' then array else parse_scalar x at
        ]

    -- The cursor stands behind the brace.
    pub parse_object : ℕ → Cursor → Run Cursor
    parse_object zero c = out_of_fuel
    parse_object (suc fuel) c =
        let c' = whitespace (send object_begin c) in
        let members = parse_members fuel c' in close_or b'}' object_end members c'

    -- `while (true)` in parse_object.
    pub parse_members : ℕ → Cursor → Run Cursor
    parse_members zero c = out_of_fuel
    parse_members (suc fuel) c = parse_key (whitespace c) >>= λ c₁. parse_value fuel c₁ >>= λ c₂.
        close_or_comma b'}' object_end (λ c₃. parse_members fuel c₃) (whitespace c₂)

    -- The cursor stands behind the bracket.
    pub parse_array : ℕ → Cursor → Run Cursor
    parse_array zero c = out_of_fuel
    parse_array (suc fuel) c =
        let c' = whitespace (send array_begin c) in
        let elements = parse_elements fuel c' in close_or b']' array_end elements c'

    -- `while (true)` in parse_array.
    pub parse_elements : ℕ → Cursor → Run Cursor
    parse_elements zero c = out_of_fuel
    parse_elements (suc fuel) c = parse_value fuel c >>= λ c₁.
        close_or_comma b']' array_end (λ c₂. parse_elements fuel c₂) (whitespace c₁)

  -- `parse` with the fuel for the calls; the string buffer keeps its room.
  unfoldable pub parse_from : ℕ → Cursor → Run Cursor
  parse_from fuel c = parse_value fuel (whitespace c) >>= λ c'. parse_end (whitespace c')

-- Three calls at most for each character of the input, and one more.
unfoldable pub parse : (List ℕ → Bool) → List ℕ → Buffer → Run Cursor
parse is_double input buffer =
    parse_from is_double (3 * length input + 1)
      (record { rest = input; position = 0; buffer = buffer; events = [] })
