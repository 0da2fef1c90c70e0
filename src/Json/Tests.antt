-- ===== src/Json/Tests.antt =====
-- Runs of the writer and the parser on small documents.
use server_entry.Prelude.{ℕ, ◌≡◌, refl, true, List, [], ◌∷◌, Option, none, some}
use Prim.Native.String.{String}
use Prim.Native.Char.{code}
use server_entry.Json.Ascii.{json_hex_value}
use server_entry.Json.Buffer.{Buffer, append, clear}
use server_entry.Json.Escape.{escaped, json_append_escaped}
use server_entry.Json.Integer.{pos, negsuc, to_chars, from_chars, decimal, natural, digits_value}
use server_entry.Json.Unicode.{
  json_valid_utf8, valid_utf8_from, sequence, lead, continuations, json_append_utf8,
}
use server_entry.Json.Parser.{
  Event, location, object_begin, object_end, array_begin, array_end, key, string, integer, number,
  boolean, null, Cursor, Run, ok, failed, skip, whitespace, consume_literal, after_literal,
}
use server_entry.Json.Parser
use server_entry.Json.Parser.Text.{
  hex_digits, low_surrogate, unicode_escape, escape_character, flush, string_escape, string_round,
  string_loop, parse_string,
}
use server_entry.Json.Parser.Number.{
  take_digits, some_digits, minus_sign, whole_part, fraction, exponent_sign, exponent, convert,
  parse_number,
}
use server_entry.Json.Parser.Document.{
  parse_text, parse_literal, parse_colon, parse_key, parse_scalar, parse_value, parse_end,
  parse_from, parse,
}

abbrev codes : String → List ℕ
codes String.[] = []
codes (String.◌∷◌ c s) = code c ∷ codes s

abbrev large : Buffer
large = record { content = []; room = 1000 }

program : Unit {0}
unfolding json_hex_value append clear escaped json_append_escaped to_chars from_chars decimal
    natural digits_value json_valid_utf8 valid_utf8_from sequence lead continuations
    json_append_utf8 skip whitespace consume_literal after_literal hex_digits low_surrogate
    unicode_escape escape_character flush string_escape string_round string_loop parse_string
    take_digits some_digits minus_sign whole_part fraction exponent_sign exponent convert
    parse_number parse_text parse_literal parse_colon parse_key parse_scalar parse_value parse_end
    parse_from parse server_entry.Json.Parser.Text.combine_surrogates
program = tt

abbrev sent : Run Cursor → Option (List Event)
sent (ok c) = some c.events
sent _ = none

runs :
    sent (parse (λ t. true) (codes "{\"a\": [1, -20, true], \"b\\u00e9\": 1.5e3}") large)
    ≡ some (
        location 0
        ∷ object_begin
        ∷ location 1
        ∷ key (codes "a")
        ∷ location 6
        ∷ array_begin
        ∷ location 7
        ∷ integer (pos 1)
        ∷ location 10
        ∷ integer (negsuc 19)
        ∷ location 15
        ∷ boolean true
        ∷ location 19
        ∷ array_end
        ∷ location 22
        ∷ key (b'b' ∷ 0xc3 ∷ 0xa9 ∷ [])
        ∷ location 33
        ∷ number (codes "1.5e3")
        ∷ location 38
        ∷ object_end
        ∷ [])
unfolding program
runs = refl

trailing_comma :
    parse (λ t. true) (codes "[1,]") large
    ≡ failed Parser.unexpected_token 3
        (location 0 ∷ array_begin ∷ location 1 ∷ integer (pos 1) ∷ location 3 ∷ [])
unfolding program
trailing_comma = refl
