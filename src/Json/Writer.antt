-- ===== src/Json/Writer.antt =====
-- json/json_writer.hpp and json_writer.cpp: the document state machine over a buffer. `depth` is the
-- number of frames that the allocator can hold: a push beyond it is the `catch (...)` branch.
pub mod Refusal
use server_entry.Prelude.{
  ℕ, ◌≡◌, Bool, true, false, not, ◌&&◌, ◌||◌, List, [], ◌∷◌, Option, none, some, ltb, if◌then◌else◌,
  length,
}
use server_entry.Json.Buffer.{Buffer, Append, clear, append}
use server_entry.Json.Unicode.{json_valid_utf8}
use server_entry.Json.Escape.{json_append_escaped, quote}
use server_entry.Json.Integer.{ℤ, to_chars}

pub data Container : Type 0 where
  object array : Container

pub record Frame : Type 0 where
  pub type : Container
  pub first : Bool
  pub awaiting_value : Bool

-- The head of `stack` is the back of the vector.
pub record Writer : Type 0 where
  pub output : Buffer
  pub stack : List Frame
  pub root_written : Bool
  pub valid : Bool
  pub depth : ℕ

-- A member function: the writer afterwards and the returned status.
abbrev pub Call : Type 0
Call = Writer → Writer × Bool

unfoldable pub new_writer : Buffer → ℕ → Writer
unfolding clear
new_writer output depth = record {
  output = clear output;
  stack = [];
  root_written = false;
  valid = true;
  depth = depth;
}

-- `return valid = false`
abbrev pub refuse : Call
refuse w = (record w { valid = false }, false)

-- A call on the output buffer.
abbrev pub on_output : Append → Call
on_output p w = let (b, okay) = p w.output in (record w { output = b }, okay)

-- `p && q`
infixr 34 ◌&&call◌
abbrev pub ◌&&call◌ : Call → Call → Call
(p &&call q) w = let (w', okay) = p w in if okay then q w' else (w', false)

-- `p`, and `valid = false` where it fails.
abbrev pub or_refuse : Call → Call
or_refuse p w = let (w', okay) = p w in if okay then (w', true) else refuse w'

-- `stack.push_back({type})`
push_frame : Container → Call
push_frame type w =
    if ltb (length w.stack) w.depth
    then (
      record w { stack = record { type = type; first = true; awaiting_value = false } ∷ w.stack },
      true,
    )
    else (w, false)

-- `before_value` once the frames are known; `frames` is the stack of `w`.
before_value_in : List Frame → Call
before_value_in [] w = if w.root_written then refuse w else (record w { root_written = true }, true)
before_value_in (frame ∷ frames) w = elim frame.type [
  | object ↦
      if not frame.awaiting_value
      then refuse w
      else (record w { stack = record frame { awaiting_value = false } ∷ frames }, true)
  | array ↦
      let (w', okay) = (if frame.first then (w, true) else on_output (append (b',' ∷ [])) w) in
      if okay
      then (record w' { stack = record frame { first = false } ∷ frames }, true)
      else refuse w'
]

unfoldable pub before_value : Call
unfolding before_value_in
before_value w = if not w.valid then (w, false) else before_value_in w.stack w

unfoldable pub begin_object : Call
unfolding push_frame
begin_object =
    or_refuse (before_value &&call on_output (append (b'{' ∷ [])) &&call push_frame object)

unfoldable pub begin_array : Call
unfolding push_frame
begin_array = or_refuse (before_value &&call on_output (append (b'[' ∷ [])) &&call push_frame array)

end_object_in : List Frame → Call
end_object_in [] w = refuse w
end_object_in (frame ∷ frames) w = elim frame.type [
  | array ↦ refuse w
  | object ↦
      if frame.awaiting_value
      then refuse w
      else or_refuse (on_output (append (b'}' ∷ []))) (record w { stack = frames })
]

unfoldable pub end_object : Call
unfolding end_object_in
end_object w = if not w.valid then refuse w else end_object_in w.stack w

end_array_in : List Frame → Call
end_array_in [] w = refuse w
end_array_in (frame ∷ frames) w = elim frame.type [
  | object ↦ refuse w
  | array ↦ or_refuse (on_output (append (b']' ∷ []))) (record w { stack = frames })
]

unfoldable pub end_array : Call
unfolding end_array_in
end_array w = if not w.valid then refuse w else end_array_in w.stack w

unfoldable pub quoted : List ℕ → Call
quoted value = or_refuse (λ w.
    if json_valid_utf8 value
    then (on_output (append (quote ∷ []))
          &&call on_output (json_append_escaped value)
          &&call on_output (append (quote ∷ [])))
        w
    else (w, false))

await : List Frame → List Frame
await [] = []
await (frame ∷ frames) = record frame { awaiting_value = true } ∷ frames

-- `frame.awaiting_value = true` at the back of the stack.
set_awaiting : Call
unfolding await
set_awaiting w = (record w { stack = await w.stack }, true)

key_in : List ℕ → List Frame → Call
unfolding set_awaiting
key_in name [] w = refuse w
key_in name (frame ∷ frames) w = elim frame.type [
  | array ↦ refuse w
  | object ↦
      if frame.awaiting_value
      then refuse w
      else let (w', okay) = (if frame.first then (w, true) else on_output (append (b',' ∷ [])) w) in
        if okay
        then (or_refuse (quoted name &&call on_output (append (b':' ∷ []))) &&call set_awaiting)
            (record w' { stack = record frame { first = false } ∷ frames })
        else refuse w'
]

unfoldable pub key : List ℕ → Call
unfolding key_in
key name w = if not w.valid then refuse w else key_in name w.stack w

unfoldable pub string : List ℕ → Call
string value = before_value &&call quoted value

unfoldable pub integer : ℤ → Call
integer value = before_value &&call on_output (append (to_chars value))

-- `is_finite` and `text` are std::isfinite and std::to_chars at the floating-point argument.
unfoldable pub number : Bool → Option (List ℕ) → Call
number is_finite text = or_refuse (
    before_value &&call λ w.
    if is_finite
    then elim text [ none ↦ (w, false) | some digits ↦ on_output (append digits) w ]
    else (w, false))

abbrev pub true_text : List ℕ
true_text = b't' ∷ b'r' ∷ b'u' ∷ b'e' ∷ []

abbrev pub false_text : List ℕ
false_text = b'f' ∷ b'a' ∷ b'l' ∷ b's' ∷ b'e' ∷ []

abbrev pub null_text : List ℕ
null_text = b'n' ∷ b'u' ∷ b'l' ∷ b'l' ∷ []

unfoldable pub boolean : Bool → Call
boolean value = before_value &&call on_output (append (if value then true_text else false_text))

unfoldable pub null : Call
null = before_value &&call on_output (append null_text)

is_empty : List Frame → Bool
is_empty [] = true
is_empty (frame ∷ frames) = false

unfoldable pub complete : Writer → Bool
unfolding is_empty
complete w = w.valid && (w.root_written && is_empty w.stack)
