-- ===== src/Json/Parser.antt =====
-- json/json_error.hpp and the state of json/json_parser.hpp. The handler is the list of the events
-- that it is sent. `rest` is the input from `position` on, so `input[position]` is its head.
pub mod Text
pub mod Number
pub mod Document
pub mod Progress
use server_entry.Prelude.{
  ℕ, zero, suc, ◌+◌, Bool, List, [], ◌∷◌, ◌++◌, Option, none, some, ◌==◌, if◌then◌else◌,
}
use server_entry.Json.Ascii.{json_is_whitespace}
use server_entry.Json.Buffer.{Buffer}
use server_entry.Json.Integer.{ℤ}

-- json_error_code, without `none`.
pub data ErrorCode : Type 0 where
  unexpected_end unexpected_token expected_object_key expected_colon : ErrorCode
  expected_comma_or_end invalid_string invalid_escape invalid_unicode : ErrorCode
  invalid_number trailing_characters allocation_failed : ErrorCode

-- The calls of json_event_handler. A floating-point number is named by the text it is read from.
pub data Event : Type 0 where
  location : ℕ → Event
  object_begin object_end array_begin array_end : Event
  key string : List ℕ → Event
  integer : ℤ → Event
  number : List ℕ → Event
  boolean : Bool → Event
  null : Event

pub record Cursor : Type 0 where
  pub rest : List ℕ
  pub position : ℕ
  pub buffer : Buffer
  pub events : List Event

-- The outcome of a parsing function: what it returns, or the error with its offset and the events
-- sent before. The program has no counterpart of `out_of_fuel`.
pub data Run {ℓ} (A : Type ℓ) : Type ℓ where
  ok : A → Run A
  failed : ErrorCode → ℕ → List Event → Run A
  out_of_fuel : Run A

infixl 5 ◌>>=◌
abbrev pub ◌>>=◌ {ℓ κ} : {A : Type ℓ} {B : Type κ} → Run A → (A → Run B) → Run B
ok a >>= f = f a
failed code offset events >>= f = failed code offset events
out_of_fuel >>= f = out_of_fuel

abbrev pub fail {ℓ} : {A : Type ℓ} → ErrorCode → ℕ → Cursor → Run A
fail code offset c = failed code offset c.events

abbrev pub send : Event → Cursor → Cursor
send e c = record c { events = c.events ++ (e ∷ []) }

-- `++position`, past the character in front of `rest`.
abbrev pub advance_to : List ℕ → Cursor → Cursor
advance_to rest c = record c { rest = rest; position = c.position + 1 }

unfoldable pub skip : List ℕ → Cursor → Cursor
skip [] c = record c { rest = [] }
skip (x ∷ xs) c =
    let more = skip xs (record c { position = c.position + 1 }) in
    if json_is_whitespace x then more else record c { rest = x ∷ xs }

unfoldable pub whitespace : Cursor → Cursor
unfolding skip
whitespace c = skip c.rest c

-- The text after a literal in front of the input.
unfoldable pub after_literal : List ℕ → List ℕ → Option (List ℕ)
after_literal [] rest = some rest
after_literal (x ∷ xs) [] = none
after_literal (x ∷ xs) (y ∷ rest) = if x == y then after_literal xs rest else none

abbrev advance_by : List ℕ → ℕ → ℕ
advance_by [] position = position
advance_by (x ∷ xs) position = advance_by xs (position + 1)

unfoldable pub consume_literal : List ℕ → Cursor → Run Cursor
unfolding after_literal
consume_literal literal c = elim (after_literal literal c.rest) [
  | none ↦ fail unexpected_token c.position c
  | some rest ↦ ok (record c { rest = rest; position = advance_by literal c.position })
]
