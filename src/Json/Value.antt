-- ===== src/Json/Value.antt =====
-- JSON values as a client of json_writer writes them, the text that they stand for, and the events
-- that a reader is to be sent. Floating-point numbers are left out.
use server_entry.Prelude.{ℕ, suc, ◌≡◌, Bool, true, false, List, [], ◌∷◌, ◌++◌, All, if◌then◌else◌}
use Prim.Native.Nat.{max}
use server_entry.Json.Escape.{quote, escape}
use server_entry.Json.Integer.{ℤ, IsInt64, to_chars}
use server_entry.Json.Unicode.{json_valid_utf8}
use server_entry.Json.Unicode.Validation.{IsByte}
use server_entry.Json.Writer.{Call, ◌&&call◌, true_text, false_text, null_text}
use server_entry.Json.Writer
use server_entry.Json.Parser.{Event}

mutual
  pub data Value : Type 0 where
    text : List ℕ → Value
    integer : ℤ → Value
    boolean : Bool → Value
    null : Value
    array : Items → Value
    object : Fields → Value

  pub data Items : Type 0 where
    no_items : Items
    item : Value → Items → Items

  pub data Fields : Type 0 where
    no_fields : Fields
    field : List ℕ → Value → Fields → Fields

abbrev pub done : Call
done w = (w, true)

-- The calls that write a value.
unfoldable mutual
  pub write : Value → Call
  write (text s) = Writer.string s
  write (integer n) = Writer.integer n
  write (boolean b) = Writer.boolean b
  write null = Writer.null
  write (array xs) = Writer.begin_array &&call write_items xs &&call Writer.end_array
  write (object fs) = Writer.begin_object &&call write_fields fs &&call Writer.end_object

  pub write_items : Items → Call
  write_items no_items = done
  write_items (item v xs) = write v &&call write_items xs

  pub write_fields : Fields → Call
  write_fields no_fields = done
  write_fields (field k v fs) = Writer.key k &&call write v &&call write_fields fs

abbrev pub separator : Bool → List ℕ
separator first = if first then [] else b',' ∷ []

abbrev pub quotation : List ℕ → List ℕ
quotation s = quote ∷ (escape s ++ (quote ∷ []))

-- Its text, with no white space.
unfoldable mutual
  pub render : Value → List ℕ
  render (text s) = quotation s
  render (integer n) = to_chars n
  render (boolean b) = if b then true_text else false_text
  render null = null_text
  render (array xs) = b'[' ∷ (render_items true xs ++ (b']' ∷ []))
  render (object fs) = b'{' ∷ (render_fields true fs ++ (b'}' ∷ []))

  pub render_items : Bool → Items → List ℕ
  render_items first no_items = []
  render_items first (item v xs) = separator first ++ (render v ++ render_items false xs)

  pub render_fields : Bool → Fields → List ℕ
  render_fields first no_fields = []
  render_fields first (field k v fs) =
      separator first ++ (quotation k ++ (b':' ∷ (render v ++ render_fields false fs)))

-- The events that a reader of the text is sent, without their locations.
unfoldable mutual
  pub events : Value → List Event
  events (text s) = Event.string s ∷ []
  events (integer n) = Event.integer n ∷ []
  events (boolean b) = Event.boolean b ∷ []
  events null = Event.null ∷ []
  events (array xs) = Event.array_begin ∷ (item_events xs ++ (Event.array_end ∷ []))
  events (object fs) = Event.object_begin ∷ (field_events fs ++ (Event.object_end ∷ []))

  pub item_events : Items → List Event
  item_events no_items = []
  item_events (item v xs) = events v ++ item_events xs

  pub field_events : Fields → List Event
  field_events no_fields = []
  field_events (field k v fs) = Event.key k ∷ (events v ++ field_events fs)

-- The frames that are open at a time while a value is written.
unfoldable mutual
  pub height : Value → ℕ
  height (text s) = 0
  height (integer n) = 0
  height (boolean b) = 0
  height null = 0
  height (array xs) = suc (items_height xs)
  height (object fs) = suc (fields_height fs)

  pub items_height : Items → ℕ
  items_height no_items = 0
  items_height (item v xs) = max (height v) (items_height xs)

  pub fields_height : Fields → ℕ
  fields_height no_fields = 0
  fields_height (field k v fs) = max (height v) (fields_height fs)

-- A well-formed UTF-8 byte sequence.
abbrev pub IsUtf8 : List ℕ → Type 0
IsUtf8 s = All IsByte s × (json_valid_utf8 s ≡ true)

-- Strings and keys are UTF-8, integers have 64 bits.
unfoldable mutual
  pub IsPlain : Value → Type 0
  IsPlain (text s) = IsUtf8 s
  IsPlain (integer n) = IsInt64 n
  IsPlain (boolean b) = Unit {0}
  IsPlain null = Unit {0}
  IsPlain (array xs) = ArePlain xs
  IsPlain (object fs) = HavePlain fs

  pub ArePlain : Items → Type 0
  ArePlain no_items = Unit {0}
  ArePlain (item v xs) = IsPlain v × ArePlain xs

  pub HavePlain : Fields → Type 0
  HavePlain no_fields = Unit {0}
  HavePlain (field k v fs) = IsUtf8 k × IsPlain v × HavePlain fs
