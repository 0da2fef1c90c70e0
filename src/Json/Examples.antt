-- ===== src/Json/Examples.antt =====
-- The theorems on the writer and the parser at a small document.
use server_entry.Prelude.{
  ℕ, ◌≤◌, ◌≡◌, ◌↔◌, ◌⊎◌, ◌+◌, ◌<◌, refl, Bool, true, false, List, [], ◌∷◌, ◌++◌, length, arith,
}
use server_entry.Json.Buffer.{Buffer, append, Writes}
use server_entry.Json.Escape.{escaped, escape}
use server_entry.Json.Integer.{negsuc, to_chars, decimal}
use server_entry.Json.Unicode.{
  json_append_utf8, json_valid_utf8, valid_utf8_from, sequence, lead, continuations,
}
use server_entry.Json.Unicode.Encoding.{encoding, json_append_utf8-Writes, json_append_utf8_refuses}
use server_entry.Json.Unicode.Valid.{Text, json_valid_utf8_iff}
use server_entry.Json.Writer
use server_entry.Json.Writer.{Writer}
use server_entry.Json.Writer.Refusal.{
  begin_object_call, null_call, perform, perform_all, refused_at, failure_is_permanent,
  soft_failure,
}
use server_entry.Json.Parser.{Cursor, ok}
use server_entry.Json.Parser.Text.{parse_string}
use server_entry.Json.Parser.Document.{parse}
use server_entry.Json.Parser.Progress.{Within, self}
use server_entry.Json.Parser.Progress.Documents.{parse-Within}
use server_entry.Json.Value.{
  Value, text, integer, boolean, null, no_items, item, no_fields, field, write, render, quotation,
  height, events, IsPlain, IsUtf8,
}
use server_entry.Json.RoundTrip.Strings.{at}
use server_entry.Json.RoundTrip.StringLoop.{parse_string-quotation}
use server_entry.Json.RoundTrip.Written.{write-render}
use server_entry.Json.RoundTrip.Reading.{semantic}
use server_entry.Json.RoundTrip.Documents.{parse-write}
use server_entry.Json.RoundTrip.Integers.{IsReadable, parse_number-integer}

-- {"é\n":[-20,true,"x"],"b":null}
abbrev document : Value
document = Value.object (
    field (0xc3 ∷ 0xa9 ∷ 10 ∷ [])
      (Value.array
        (item (integer (negsuc 19)) (item (boolean true) (item (text (b'x' ∷ [])) no_items))))
      (field (b'b' ∷ []) null no_fields))

abbrev large : Buffer
large = record { content = b'?' ∷ []; room = 1000 }

abbrev no_doubles : List ℕ → Bool
no_doubles t = false

document-IsPlain : IsPlain document
unfolding IsPlain json_valid_utf8 valid_utf8_from sequence lead continuations
document-IsPlain = (
  ((omega arith, (omega arith, (omega arith, tt))), refl),
  (omega arith, (tt, (((omega arith, tt), refl), tt))),
  (((omega arith, tt), refl), tt, tt),
)

document_size : length (render document) ≤ 1000
unfolding render to_chars decimal escape escaped
document_size = omega arith

document-height : height document ≤ 8
unfolding height
document-height = omega arith

write-render_example :
    let (w, okay) = write document (Writer.new_writer large 8) in
    (okay ≡ true) × (w.output.content ≡ render document) × (Writer.complete w ≡ true)
write-render_example = write-render document large 8 document-IsPlain document_size document-height

parse-write_example :
    let (w, okay) = write document (Writer.new_writer large 8) in
    (okay ≡ true)
    × (c : Cursor) × (parse no_doubles w.output.content large ≡ ok c)
    × (semantic c.events ≡ events document)
parse-write_example =
    parse-write no_doubles document large large 8 document-IsPlain document_size document-height
      document_size

parse-Within_example : Within self 3 0 (parse no_doubles (b'[' ∷ b'1' ∷ b',' ∷ []) large)
parse-Within_example = parse-Within no_doubles (b'[' ∷ b'1' ∷ b',' ∷ []) large

abbrev line : List ℕ
line = b'a' ∷ 10 ∷ []

line-IsUtf8 : IsUtf8 line
unfolding json_valid_utf8 valid_utf8_from sequence lead continuations
line-IsUtf8 = ((omega arith, (omega arith, tt)), refl)

parse_string-quotation_example :
    (p' : ℕ) × (parse_string (at 8 [] (quotation line ++ (b',' ∷ [])) 0 (b'?' ∷ []))
      ≡ ok (at 8 [] (b',' ∷ []) p' line))
parse_string-quotation_example =
    parse_string-quotation 8 [] line (b',' ∷ []) (b'?' ∷ []) 0 line-IsUtf8 (omega arith)

json_valid_utf8_iff_example : (json_valid_utf8 line ≡ true) ↔ Text line
json_valid_utf8_iff_example = json_valid_utf8_iff line (omega arith, (omega arith, tt))

json_append_utf8-Writes_example : Writes (json_append_utf8 0x20ac) (encoding 0x20ac)
json_append_utf8-Writes_example = json_append_utf8-Writes 0x20ac (omega arith, omega arith)

json_append_utf8_refuses_example : json_append_utf8 0xd800 large ≡ (large, false)
json_append_utf8_refuses_example = json_append_utf8_refuses 0xd800 large (omega arith)

abbrev fresh : Writer
fresh = Writer.new_writer large 8

abbrev begun : Writer
begun = record {
  output = record { content = []; room = 1000 };
  stack = [];
  root_written = true;
  valid = true;
  depth = 8;
}

root_value : Writer.before_value fresh ≡ (begun, true)
unfolding Writer.before_value Writer.new_writer
root_value = refl

parse_number-integer_example :
    IsReadable (negsuc 41) [] (Writer.integer (negsuc 41) fresh)
    ⊎ (((Writer.integer (negsuc 41) fresh).1 ≡ false)
        × ((Writer.integer (negsuc 41) fresh).0.output ≡ begun.output)
        × (1000 < 0 + length (to_chars (negsuc 41))))
parse_number-integer_example = parse_number-integer (negsuc 41) fresh begun (omega arith) root_value

-- A writer without room.
abbrev full : Writer
full = record {
  output = record { content = []; room = 0 };
  stack = [];
  root_written = false;
  valid = true;
  depth = 4;
}

failure_is_permanent_example :
    ((perform begin_object_call full).0.valid ≡ false)
    × (perform_all (null_call ∷ []) (perform begin_object_call full).0
        ≡ refused_at (null_call ∷ []) (perform begin_object_call full).0)
unfolding perform Writer.begin_object Writer.before_value append
failure_is_permanent_example = failure_is_permanent begin_object_call (null_call ∷ []) full tt refl

soft_failure_example : (perform null_call full).0.valid ≡ true
unfolding perform Writer.null Writer.before_value append
soft_failure_example = soft_failure null_call full (λ h. h) refl refl
