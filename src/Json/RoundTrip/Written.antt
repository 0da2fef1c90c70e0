-- ===== src/Json/RoundTrip/Written.antt =====
-- The calls for a value write its text, wherever the buffer and the stack have room.
use server_entry.Prelude.{
  ℕ, ◌+◌, ◌≤◌, ◌<◌, ◌≡◌, ◌∙◌, ap, refl, Bool, true, false, List, [], ◌∷◌, ◌++◌, append_assoc,
  append-nil, arith, length, length-append,
}
use server_entry.Json.Buffer.{Buffer, append, Append, Writes, append-Writes}
use server_entry.Json.Escape.{escape, json_append_escaped, json_append_escaped-Writes, quote}
use server_entry.Json.Integer.{to_chars}
use server_entry.Json.Unicode.{json_valid_utf8}
use server_entry.Json.Writer.{
  Writer, Frame, Container, object, array, Call, on_output, ◌&&call◌, before_value, quoted,
}
use server_entry.Json.Writer
use server_entry.Json.Value.{
  Value, Items, Fields, text, integer, boolean, null, no_items, item, no_fields, field, write,
  write_items, write_fields, separator, quotation, render, render_items, render_fields, height,
  items_height, fields_height, IsPlain, ArePlain, HavePlain,
}

-- A valid writer with `content` written and the frames `stack`.
module _ (room depth : ℕ) where
  abbrev at : List ℕ → List Frame → Bool → Writer
  at content stack root = record {
    output = record { content = content; room = room };
    stack = stack;
    root_written = root;
    valid = true;
    depth = depth;
  }

  abbrev done_at : List ℕ → List Frame → Bool → Writer × Bool
  done_at content stack root = (at content stack root, true)

  abbrev buffer : List ℕ → Buffer
  buffer content = record { content = content; room = room }

  writes :
      (p : Append) (bytes content : List ℕ)
      → Writes p bytes
      → length content + length bytes ≤ room
      → p (buffer content) ≡ (buffer (content ++ bytes), true)
  writes p bytes content w h = w (buffer content) h

  appends :
      (bytes content : List ℕ)
      → length content + length bytes ≤ room
      → append bytes (buffer content) ≡ (buffer (content ++ bytes), true)
  appends bytes content h = append-Writes bytes (buffer content) h

  -- More text behind what is written.
  wrote :
      (content a b : List ℕ) (stack : List Frame) (root : Bool)
      → done_at ((content ++ a) ++ b) stack root ≡ done_at (content ++ (a ++ b)) stack root
  wrote content a b stack root = rw (append_assoc content a b)

  quotation_lem :
      (s content : List ℕ) (stack : List Frame) (root : Bool)
      → length content + length (quotation s) ≤ room
      → (on_output (append (quote ∷ []))
            &&call on_output (json_append_escaped s)
            &&call on_output (append (quote ∷ [])))
          (at content stack root)
        ≡ (at (content ++ quotation s) stack root, true)
  quotation_lem s content stack root h =
      let opening = quote ∷ [] in
      let n = length-append (escape s) opening in
      let a = length-append content opening in
      let b = length-append (content ++ opening) (escape s) in
      rw (appends opening content (omega arith)) (
        rw
          (writes (json_append_escaped s) (escape s) (content ++ opening)
            (json_append_escaped-Writes s) (omega arith))
          (rw (appends opening ((content ++ opening) ++ escape s) (omega arith))))
      ∙ wrote (content ++ opening) (escape s) opening stack root
      ∙ wrote content opening (escape s ++ opening) stack root

  quoted_lem :
      (s content : List ℕ) (stack : List Frame) (root : Bool)
      → json_valid_utf8 s ≡ true
      → length content + length (quotation s) ≤ room
      → quoted s (at content stack root) ≡ (at (content ++ quotation s) stack root, true)
  unfolding quoted
  quoted_lem s content stack root v h = rw (v, quotation_lem s content stack root h)

  abbrev array_frame : Bool → Frame
  array_frame first = record { type = array; first = first; awaiting_value = false }

  abbrev object_frame : Bool → Bool → Frame
  object_frame first awaiting = record { type = object; first = first; awaiting_value = awaiting }

  -- Where a value may stand, and how `before_value` makes the place ready.
  data Place : List ℕ → List Frame → Bool → List ℕ → List Frame → Bool → Type 0 where
    at_root : {content : List ℕ} → Place content [] false content [] true
    in_array :
        {content : List ℕ} {frames : List Frame} {root : Bool} (first : Bool)
        → Place content
            (array_frame first ∷ frames)
            root
            (content ++ separator first)
            (array_frame false ∷ frames)
            root
    behind_key :
        {content : List ℕ} {frames : List Frame} {root : Bool} (first : Bool)
        → Place content
            (object_frame first true ∷ frames)
            root
            content
            (object_frame first false ∷ frames)
            root

  before_value-Place :
      {c : List ℕ} {s : List Frame} {r : Bool} {c' : List ℕ} {s' : List Frame} {r' : Bool}
      → Place c s r c' s' r'
      → length c' ≤ room
      → before_value (at c s r) ≡ done_at c' s' r'
  unfolding before_value
  before_value-Place at_root h = refl
  before_value-Place {c} {c' = c'} (in_array true) h = rw (append-nil c)
  before_value-Place {c} (in_array false) h =
      rw (appends (b',' ∷ []) c (omega (arith, length-append c (b',' ∷ []))))
  before_value-Place (behind_key first) h = refl

  -- The calls `p` write `bytes` as a value, and need `frames` more frames.
  abbrev WritesValue : Call → List ℕ → ℕ → Type 0
  WritesValue p bytes frames =
      (c : List ℕ) (s : List Frame) (r : Bool) (c' : List ℕ) (s' : List Frame) (r' : Bool)
      → Place c s r c' s' r'
      → length c' + length bytes ≤ room
      → length s' + frames ≤ depth
      → p (at c s r) ≡ done_at (c' ++ bytes) s' r'

  scalar_lem :
      (p : Call) (bytes : List ℕ)
      → ((c : List ℕ) (s : List Frame) (r : Bool)
          → length c + length bytes ≤ room
          → p (at c s r) ≡ done_at (c ++ bytes) s r)
      → WritesValue (before_value &&call p) bytes 0
  scalar_lem p bytes k c s r c' s' r' place h d =
      rw (before_value-Place place (omega arith)) (k c' s' r' h)

  begin_array_lem :
      (c : List ℕ) (s : List Frame) (r : Bool) (c' : List ℕ) (s' : List Frame) (r' : Bool)
      → Place c s r c' s' r'
      → length c' + 1 ≤ room
      → length s' < depth
      → Writer.begin_array (at c s r) ≡ done_at (c' ++ (b'[' ∷ [])) (array_frame true ∷ s') r'
  unfolding Writer.begin_array
  begin_array_lem c s r c' s' r' place h d =
      rw (before_value-Place place (omega arith)) (rw (appends (b'[' ∷ []) c' h) (ground arith))

  begin_object_lem :
      (c : List ℕ) (s : List Frame) (r : Bool) (c' : List ℕ) (s' : List Frame) (r' : Bool)
      → Place c s r c' s' r'
      → length c' + 1 ≤ room
      → length s' < depth
      → Writer.begin_object (at c s r)
        ≡ done_at (c' ++ (b'{' ∷ [])) (object_frame true false ∷ s') r'
  unfolding Writer.begin_object
  begin_object_lem c s r c' s' r' place h d =
      rw (before_value-Place place (omega arith)) (rw (appends (b'{' ∷ []) c' h) (ground arith))

  end_array_lem :
      (c : List ℕ) (s : List Frame) (r first : Bool)
      → length c + 1 ≤ room
      → Writer.end_array (at c (array_frame first ∷ s) r) ≡ done_at (c ++ (b']' ∷ [])) s r
  unfolding Writer.end_array
  end_array_lem c s r first h = rw (appends (b']' ∷ []) c h)

  end_object_lem :
      (c : List ℕ) (s : List Frame) (r first : Bool)
      → length c + 1 ≤ room
      → Writer.end_object (at c (object_frame first false ∷ s) r) ≡ done_at (c ++ (b'}' ∷ [])) s r
  unfolding Writer.end_object
  end_object_lem c s r first h = rw (appends (b'}' ∷ []) c h)

  name_lem :
      (k c : List ℕ) (s : List Frame) (r : Bool)
      → json_valid_utf8 k ≡ true
      → length c + (length (quotation k) + 1) ≤ room
      → (quoted k &&call on_output (append (b':' ∷ []))) (at c s r)
        ≡ done_at ((c ++ quotation k) ++ (b':' ∷ [])) s r
  name_lem k c s r v h =
      let n = length-append c (quotation k) in
      rw (quoted_lem k c s r v (omega arith))
        (rw (appends (b':' ∷ []) (c ++ quotation k) (omega arith)))

  key_lem :
      (k c : List ℕ) (s : List Frame) (r first : Bool)
      → json_valid_utf8 k ≡ true
      → length c + (length (separator first) + (length (quotation k) + 1)) ≤ room
      → Writer.key k (at c (object_frame first false ∷ s) r)
        ≡ done_at
            (((c ++ separator first) ++ quotation k) ++ (b':' ∷ []))
            (object_frame false true ∷ s)
            r
  unfolding Writer.key
  key_lem k c s r true v h =
      rw (append-nil c) (rw (name_lem k c (object_frame false false ∷ s) r v (omega arith)))
  key_lem k c s r false v h =
      let n = length-append c (b',' ∷ []) in
      rw (appends (b',' ∷ []) c (omega arith))
        (rw (name_lem k (c ++ (b',' ∷ [])) (object_frame false false ∷ s) r v (omega arith)))

  -- The flag of a frame behind the items or fields of a list.
  first_after : Bool → Items → Bool
  first_after first no_items = first
  first_after first (item v xs) = false

  first_after-false : (xs : Items) → first_after false xs ≡ false
  unfolding first_after
  first_after-false no_items = refl
  first_after-false (item v xs) = refl

  first_behind : Bool → Fields → Bool
  first_behind first no_fields = first
  first_behind first (field k v fs) = false

  first_behind-false : (fs : Fields) → first_behind false fs ≡ false
  unfolding first_behind
  first_behind-false no_fields = refl
  first_behind-false (field k v fs) = refl

  abbrev WritesItems : Items → Type 0
  WritesItems xs =
      (c : List ℕ) (s : List Frame) (r first : Bool)
      → length c + length (render_items first xs) ≤ room
      → length s + 1 + items_height xs ≤ depth
      → write_items xs (at c (array_frame first ∷ s) r)
        ≡ done_at (c ++ render_items first xs) (array_frame (first_after first xs) ∷ s) r

  abbrev WritesFields : Fields → Type 0
  WritesFields fs =
      (c : List ℕ) (s : List Frame) (r first : Bool)
      → length c + length (render_fields first fs) ≤ room
      → length s + 1 + fields_height fs ≤ depth
      → write_fields fs (at c (object_frame first false ∷ s) r)
        ≡ done_at (c ++ render_fields first fs) (object_frame (first_behind first fs) false ∷ s) r

  text_lem : (s : List ℕ) → json_valid_utf8 s ≡ true → WritesValue (Writer.string s) (quotation s) 0
  unfolding Writer.string
  text_lem s v = scalar_lem (quoted s) (quotation s) λ c st r h. quoted_lem s c st r v h

  plain_lem : (bytes : List ℕ) → WritesValue (before_value &&call on_output (append bytes)) bytes 0
  plain_lem bytes = scalar_lem (on_output (append bytes)) bytes λ c st r h. rw (appends bytes c h)

  array_lem :
      (xs : Items)
      → WritesItems xs
      → WritesValue (write (Value.array xs)) (render (Value.array xs)) (height (Value.array xs))
  unfolding write render height
  array_lem xs ih c s r c' s' r' place h d =
      let n = length-append (render_items true xs) (b']' ∷ []) in
      let m = length-append c' (b'[' ∷ []) in
      let l = length-append (c' ++ (b'[' ∷ [])) (render_items true xs) in
      rw (begin_array_lem c s r c' s' r' place (omega arith) (omega arith)) (
        rw (ih (c' ++ (b'[' ∷ [])) s' r' true (omega arith) (omega arith)) (
          rw (end_array_lem ((c' ++ (b'[' ∷ [])) ++ render_items true xs) s' r' _ (omega arith)) (
            wrote (c' ++ (b'[' ∷ [])) (render_items true xs) (b']' ∷ []) s' r'
            ∙ wrote c' (b'[' ∷ []) _ s' r')))

  object_lem :
      (fs : Fields)
      → WritesFields fs
      → WritesValue (write (Value.object fs)) (render (Value.object fs)) (height (Value.object fs))
  unfolding write render height
  object_lem fs ih c s r c' s' r' place h d =
      let n = length-append (render_fields true fs) (b'}' ∷ []) in
      let m = length-append c' (b'{' ∷ []) in
      let l = length-append (c' ++ (b'{' ∷ [])) (render_fields true fs) in
      rw (begin_object_lem c s r c' s' r' place (omega arith) (omega arith)) (
        rw (ih (c' ++ (b'{' ∷ [])) s' r' true (omega arith) (omega arith)) (
          rw (end_object_lem ((c' ++ (b'{' ∷ [])) ++ render_fields true fs) s' r' _ (omega arith)) (
            wrote (c' ++ (b'{' ∷ [])) (render_fields true fs) (b'}' ∷ []) s' r'
            ∙ wrote c' (b'{' ∷ []) _ s' r')))

  item_lem :
      (v : Value) (xs : Items)
      → WritesValue (write v) (render v) (height v)
      → WritesItems xs
      → WritesItems (item v xs)
  unfolding write render height first_after
  item_lem v xs hv hxs c s r first h d =
      let sep = separator first in
      let n = length-append sep (render v ++ render_items false xs) in
      let m = length-append (render v) (render_items false xs) in
      let k = length-append c sep in
      let l = length-append (c ++ sep) (render v) in
      rw
        (hv c (array_frame first ∷ s) r (c ++ sep) (array_frame false ∷ s) r (in_array first)
          (omega arith) (omega arith))
        (rw (hxs ((c ++ sep) ++ render v) s r false (omega arith) (omega arith))
          (simp (first_after-false, append_assoc)))

  field_lem :
      (name : List ℕ) (v : Value) (fs : Fields)
      → json_valid_utf8 name ≡ true
      → WritesValue (write v) (render v) (height v)
      → WritesFields fs
      → WritesFields (field name v fs)
  unfolding write render height first_behind
  field_lem name v fs u hv hfs c s r first h d =
      let sep = separator first in
      let colon = b':' ∷ [] in
      let rest = render v ++ render_fields false fs in
      let a = length-append sep (quotation name ++ (b':' ∷ rest)) in
      let b = length-append (quotation name) (b':' ∷ rest) in
      let e = length-append (render v) (render_fields false fs) in
      let f = length-append c sep in
      let g = length-append (c ++ sep) (quotation name) in
      let i = length-append ((c ++ sep) ++ quotation name) colon in
      let before = ((c ++ sep) ++ quotation name) ++ colon in
      let j = length-append before (render v) in
      rw (key_lem name c s r first u (omega arith)) (
        rw
          (hv before (object_frame false true ∷ s) r before (object_frame false false ∷ s) r
            (behind_key false) (omega arith) (omega arith))
          (rw (hfs (before ++ render v) s r false (omega arith) (omega arith))
            (simp (first_behind-false, append_assoc))))

  mutual
    unfolding write render height IsPlain first_after first_behind Writer.integer Writer.boolean
        Writer.null

    value_writes : (v : Value) → IsPlain v → WritesValue (write v) (render v) (height v)
    value_writes (text s) p = text_lem s p.1
    value_writes (integer n) p = plain_lem (to_chars n)
    value_writes (boolean b) p = plain_lem _
    value_writes null p = plain_lem _
    value_writes (Value.array xs) p = array_lem xs (items_write xs p)
    value_writes (Value.object fs) p = object_lem fs (fields_write fs p)

    items_write : (xs : Items) → ArePlain xs → WritesItems xs
    items_write no_items p c s r first h d = rw (append-nil c)
    items_write (item v xs) p c s r first h d =
        item_lem v xs (value_writes v p.0) (items_write xs p.1) c s r first h d

    fields_write : (fs : Fields) → HavePlain fs → WritesFields fs
    fields_write no_fields p c s r first h d = rw (append-nil c)
    fields_write (field k v fs) p c s r first h d =
        field_lem k v fs p.0.1 (value_writes v p.1) (fields_write fs p.2) c s r first h d

-- From a fresh writer the calls for a value all succeed, the output is the text of the value, and
-- the document is complete: where strings and keys are UTF-8 and integers have 64 bits, the buffer
-- has room for the text, and the stack for the nesting.
pub write-render :
    (v : Value) (output : Buffer) (depth : ℕ)
    → IsPlain v
    → length (render v) ≤ output.room
    → height v ≤ depth
    → let (w, okay) = write v (Writer.new_writer output depth) in
      (okay ≡ true) × (w.output.content ≡ render v) × (Writer.complete w ≡ true)
unfolding Writer.new_writer Writer.complete
write-render v output depth p h d =
    let run =
      value_writes output.room depth v p [] [] false [] [] true at_root (omega arith)
        (omega arith) in
    (ap (λ r. r.1) run, ap (λ r. r.0.output.content) run, ap (λ r. Writer.complete r.0) run)
