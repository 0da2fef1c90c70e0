-- ===== src/Json/RoundTrip/Documents.antt =====
-- The parser reads the text of a value, and so what the writer wrote.
use server_entry.Prelude.{
  ℕ, ◌+◌, ◌*◌, ◌≤◌, ◌≡◌, refl, ap, ◌∙◌, subst, List, [], append-nil, arith, length, Bool, true,
}
use server_entry.Json.Buffer.{Buffer}
use server_entry.Json.Value.{
  Value, Items, Fields, text, integer, boolean, null, no_items, item, no_fields, field, write,
  render, height, events, IsPlain, ArePlain, HavePlain,
}
use server_entry.Json.Writer
use server_entry.Json.Parser.{Event, Cursor, Run, ok, ◌>>=◌, whitespace, skip}
use server_entry.Json.Parser.Document.{parse, parse_from, parse_end, parse_value}
use server_entry.Json.RoundTrip.Strings.{at}
use server_entry.Json.RoundTrip.Written.{write-render}
use server_entry.Json.RoundTrip.Reading.{semantic, Reads, render-Front, whitespace-Front}
use server_entry.Json.RoundTrip.Scalars.{
  ReadsValue, text_read, boolean_read, null_read, integer_read,
}
use server_entry.Json.RoundTrip.Arrays.{ReadsItems, items_lem, array_read}
use server_entry.Json.RoundTrip.Objects.{ReadsFields, fields_lem, object_read}

module _ (is_double : List ℕ → Bool) (room : ℕ) where
  mutual
    unfolding IsPlain

    value_read : (v : Value) → IsPlain v → ReadsValue is_double room v
    value_read (text s) p = text_read is_double room s p
    value_read (integer n) p = integer_read is_double room n p
    value_read (boolean b) p = boolean_read is_double room b
    value_read null p = null_read is_double room
    value_read (Value.array xs) p = array_read is_double room xs (items_read xs p)
    value_read (Value.object fs) p = object_read is_double room fs (fields_read fs p)

    items_read : (xs : Items) → ArePlain xs → ReadsItems is_double room xs
    items_read no_items p = tt
    items_read (item v xs) p = items_lem is_double room v xs (value_read v p.0) (items_read xs p.1)

    fields_read : (fs : Fields) → HavePlain fs → ReadsFields is_double room fs
    fields_read no_fields p = tt
    fields_read (field k v fs) p =
        fields_lem is_double room k v fs p.0 (value_read v p.1) (fields_read fs p.2)

start_read :
    (is_double : List ℕ → Bool) (v : Value) (room : ℕ) (content : List ℕ)
    → IsPlain v
    → length (render v) ≤ room
    → Reads room
        (parse_value is_double
          (3 * length (render v) + 1)
          (whitespace (at room [] (render v) 0 content)))
        []
        []
        (events v)
start_read is_double v room content p h =
    let read =
      value_read is_double room v p (3 * length (render v) + 1) [] [] 0 content (omega arith) h
        tt in
    let skipped = whitespace-Front room [] (render v) [] 0 content (render-Front v) in
    subst
      (λ xs.
        Reads room
          (parse_value is_double (3 * length (render v) + 1) (whitespace (at room [] xs 0 content)))
          [] [] (events v))
      (append-nil (render v)) (rw skipped read)

accepted :
    (room : ℕ) (run : Run Cursor) (es : List Event)
    → Reads room run [] [] es
    → (c : Cursor) × ((run >>= λ c'. parse_end (whitespace c')) ≡ ok c) × (semantic c.events ≡ es)
unfolding whitespace skip parse_end
accepted room run es r = (
  at room r.events [] r.position r.content,
  rw (r.outcome) refl,
  r.sends ∙ (unfold semantic in refl),
)

-- The text of a plain value is accepted, and the events sent are those of the value, where the
-- string buffer has room for the text.
pub parse-render :
    (is_double : List ℕ → Bool) (v : Value) (buffer : Buffer)
    → IsPlain v
    → length (render v) ≤ buffer.room
    → (c : Cursor) × (parse is_double (render v) buffer ≡ ok c) × (semantic c.events ≡ events v)
unfolding parse parse_from
parse-render is_double v buffer p h =
    accepted buffer.room _ (events v) (start_read is_double v buffer.room buffer.content p h)

-- What the writer writes for a plain value, the parser reads back: all calls succeed, the parser
-- accepts the output, and the events that it sends, without their locations, are those of the value.
-- The output buffer has room for the text, the stack for the nesting, the string buffer for the text.
pub parse-write :
    (is_double : List ℕ → Bool) (v : Value) (output buffer : Buffer) (depth : ℕ)
    → IsPlain v
    → length (render v) ≤ output.room
    → height v ≤ depth
    → length (render v) ≤ buffer.room
    → let (w, okay) = write v (Writer.new_writer output depth) in
      (okay ≡ true)
      × (c : Cursor) × (parse is_double w.output.content buffer ≡ ok c)
      × (semantic c.events ≡ events v)
parse-write is_double v output buffer depth p h d l =
    let (okay, same, whole) = write-render v output depth p h d in
    let (c, run, sends) = parse-render is_double v buffer p l in
    (okay, c, ap (λ t. parse is_double t buffer) same ∙ run, sends)
