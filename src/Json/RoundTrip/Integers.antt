-- ===== src/Json/RoundTrip/Integers.antt =====
-- json_writer::integer and json_parser::parse_number: what the one writes the other reads.
use server_entry.Prelude.{
  ℕ, ◌+◌, ◌<◌, ◌≡◌, ◌⊎◌, refl, List, ◌++◌, Bool, true, false, leb, length, arith, Bool-cases, inl,
  inr,
}
use server_entry.Json.Buffer.{Buffer, append}
use server_entry.Json.Integer.{ℤ, IsInt64, to_chars}
use server_entry.Json.Writer.{Writer, integer, before_value}
use server_entry.Json.Parser.{Event, ok, send}
use server_entry.Json.Parser
use server_entry.Json.Parser.Number.{parse_number}
use server_entry.Json.RoundTrip.Numbers.{IsDelimited, standing, parse_number-to_chars}

-- `integer` has written a text behind `before`, which parse_number reads as the integer, whatever
-- the cursor holds and whichever delimiter follows.
abbrev pub IsReadable : ℤ → List ℕ → Writer × Bool → Type 0
IsReadable z before r =
    (r.1 ≡ true)
    × (text : List ℕ) × (r.0.output.content ≡ before ++ text)
    × ((is_double : List ℕ → Bool) (buffer : Buffer) (sent : List Event) (tail : List ℕ) (p : ℕ)
        → IsDelimited tail
        → (p' : ℕ) × (parse_number is_double (standing buffer sent (text ++ tail) p)
            ≡ ok (send (Parser.integer z) (standing buffer sent tail p'))))

-- Where a value may stand, `integer` writes a 64-bit integer behind the separator as a text that
-- parse_number reads back, up to any delimiter and whatever the cursor holds; or the buffer has no
-- room for the text, `integer` fails, and the output is the separator alone.
pub parse_number-integer :
    (z : ℤ) (w w' : Writer)
    → IsInt64 z
    → before_value w ≡ (w', true)
    → IsReadable z w'.output.content (integer z w)
      ⊎ (((integer z w).1 ≡ false)
          × ((integer z w).0.output ≡ w'.output)
          × (w'.output.room < length w'.output.content + length (to_chars z)))
unfolding integer append
parse_number-integer z w w' i h =
    let text = to_chars z in
    elim (Bool-cases (leb (length w'.output.content + length text) w'.output.room)) [
      | inl r ↦ inl (
          rw (h, r)
            (
              refl,
              text,
              refl,
              λ is_double buffer sent tail p d.
                  parse_number-to_chars buffer sent is_double z tail p i d,
            ))
      | inr r ↦ inr (rw (h, r) (refl, refl, ground (arith, r)))
    ]
