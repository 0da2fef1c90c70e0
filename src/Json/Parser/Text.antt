-- ===== src/Json/Parser/Text.antt =====
-- json_parser::parse_string: a string literal, decoded into the string buffer.
use server_entry.Prelude.{
  ℕ, zero, suc, ◌+◌, ◌-◌, ◌||◌, not, ◌&&◌, List, [], ◌∷◌, ◌++◌, none, some, ltb, leb, ◌==◌,
  if◌then◌else◌, length, bit_or,
}
use server_entry.Prelude.Bits.{shl, to_u32}
use server_entry.Json.Ascii.{json_hex_value}
use server_entry.Json.Buffer.{Append, append, clear}
use server_entry.Json.Escape.{backslash, quote}
use server_entry.Json.Unicode.{json_valid_utf8, json_append_utf8}
use server_entry.Json.Parser.{
  unexpected_end, invalid_string, invalid_escape, invalid_unicode, allocation_failed, Cursor, Run,
  ok, failed, out_of_fuel, ◌>>=◌, fail, advance_to,
}

-- `if (!output.append(...)) return fail(error, allocation_failed, offset)`
abbrev pub put_or_fail : Append → ℕ → Cursor → Run Cursor
put_or_fail p offset c =
    let (b, okay) = p c.buffer in
    if okay
    then ok (record c { buffer = b })
    else fail allocation_failed offset (record c { buffer = b })

-- `for (int digit = 0; digit < 4; ++digit)`: the code after `rounds` more digits.
unfoldable pub hex_digits : ℕ → ℕ → Cursor → List ℕ → Run (ℕ × Cursor)
hex_digits zero code c rest = ok (code, record c { rest = rest })
hex_digits (suc rounds) code c [] = ok (code, record c { rest = [] })
hex_digits (suc rounds) code c (x ∷ rest) = elim (json_hex_value x) [
  | none ↦ fail invalid_unicode c.position c
  | some value ↦
      hex_digits rounds (bit_or (to_u32 (shl code 4)) value)
        (record c { position = c.position + 1 }) rest
]

-- The second half of a surrogate pair; `code` is the first.
unfoldable pub low_surrogate : ℕ → ℕ → Cursor → Run (ℕ × Cursor)
low_surrogate offset code c =
    if ltb (length c.rest) 6 then fail invalid_unicode offset c else elim c.rest [
      | [] ↦ fail invalid_unicode offset c
      | x ∷ xs ↦ elim xs [
        | [] ↦ fail invalid_unicode offset c
        | y ∷ rest ↦
            if not (x == backslash) || not (y == b'u')
            then fail invalid_unicode offset c
            else hex_digits 4 0 (record c { position = c.position + 2 }) rest >>= λ (low, c').
                if ltb low 0xdc00 || ltb 0xdfff low
                then fail invalid_unicode offset c'
                else ok (0x10000 + shl (code - 0xd800) 10 + (low - 0xdc00), c')
      ]
    ]

-- The code point of a `\u` escape, which takes a second one for a surrogate pair.
unfoldable pub combine_surrogates : ℕ → ℕ × Cursor → Run (ℕ × Cursor)
combine_surrogates offset (code, c) =
    if leb 0xd800 code && leb code 0xdbff
    then low_surrogate offset code c
    else if leb 0xdc00 code && leb code 0xdfff
    then fail invalid_unicode offset c
    else ok (code, c)

abbrev pub put_code_point : ℕ → ℕ × Cursor → Run Cursor
put_code_point offset (code, c) = put_or_fail (json_append_utf8 code) offset c

-- After `\u`; `offset` is the position of the backslash.
unfoldable pub unicode_escape : ℕ → Cursor → Run Cursor
unicode_escape offset c =
    if ltb (length c.rest) 4
    then fail invalid_unicode offset c
    else (hex_digits 4 0 c c.rest >>= combine_surrogates offset >>= put_code_point offset)

-- `switch (escape)`; the cursor stands behind `escape`.
unfoldable pub escape_character : ℕ → Cursor → Run Cursor
escape_character escape c =
    let put = λ (x : ℕ). put_or_fail (append (x ∷ [])) c.position c in
    if escape == quote || (escape == backslash || escape == b'/')
    then put escape
    else if escape == b'b'
    then put 8
    else if escape == b'f'
    then put 12
    else if escape == b'n'
    then put 10
    else if escape == b'r'
    then put 13
    else if escape == b't'
    then put 9
    else if escape == b'u'
    then unicode_escape (c.position - 2) c
    else fail invalid_escape (c.position - 1) c

-- The raw segment from `raw_start` up to `position` is validated and copied.
unfoldable pub flush : List ℕ → ℕ → Cursor → Run Cursor
flush raw raw_start c =
    if not (json_valid_utf8 raw)
    then fail invalid_unicode raw_start c
    else put_or_fail (append raw) c.position c

-- The variables of the loop: `raw` holds the bytes from `raw_start` up to the position.
pub record Loop : Type 0 where
  pub cursor : Cursor
  pub raw : List ℕ
  pub raw_start : ℕ

-- A round of the loop returns or goes on.
pub data Round : Type 0 where
  return : Run Cursor → Round
  continue : Loop → Round

abbrev pub continue_if : Run Cursor → Round
continue_if (ok c) = continue (record { cursor = c; raw = []; raw_start = c.position })
continue_if (failed code offset events) = return (failed code offset events)
continue_if out_of_fuel = return out_of_fuel

-- After the backslash.
unfoldable pub string_escape : Cursor → Run Cursor
string_escape c = elim c.rest [
  | [] ↦ fail unexpected_end c.position c
  | escape ∷ rest ↦ escape_character escape (advance_to rest c)
]

unfoldable pub string_round : ℕ → Loop → Round
string_round start s =
    let c = s.cursor in
    elim c.rest [
      | [] ↦ return (fail unexpected_end start c)
      | x ∷ rest ↦
          if x == quote
          then return (flush s.raw s.raw_start c >>= λ c'. ok (advance_to rest c'))
          else if ltb x 0x20
          then return (fail invalid_string c.position c)
          else if not (x == backslash)
          then continue (record s { cursor = advance_to rest c; raw = s.raw ++ (x ∷ []) })
          else continue_if (flush s.raw s.raw_start c >>= λ c'. string_escape (advance_to rest c'))
    ]

unfoldable pub string_loop : ℕ → ℕ → Loop → Run Cursor
string_loop zero start s = out_of_fuel
string_loop (suc fuel) start s = elim (string_round start s) [
  | return r ↦ r
  | continue s' ↦ string_loop fuel start s'
]

-- The cursor stands at the opening quote. Each round consumes a character at least.
unfoldable pub parse_string : Cursor → Run Cursor
parse_string c = elim c.rest [
  | [] ↦ out_of_fuel
  | x ∷ rest ↦
      let opened = advance_to rest (record c { buffer = clear c.buffer }) in
      string_loop (length rest + 1) c.position
        (record { cursor = opened; raw = []; raw_start = opened.position })
]
