-- ===== src/Json/Escape.antt =====
-- json/json_escape.hpp: the escaped form of a string.
use server_entry.Prelude.{
  ℕ, true, append-nil, List, [], ◌∷◌, ◌++◌, ltb, ◌==◌, if◌then◌else◌, get_or, bit_and,
}
use server_entry.Prelude.Bits.{shr, to_char}
use server_entry.Json.Buffer.{Append, append, ◌&&then◌, Writes, append-Writes, &&then-Writes}

abbrev pub hex : List ℕ
hex =
    b'0' ∷ b'1' ∷ b'2' ∷ b'3' ∷ b'4' ∷ b'5' ∷ b'6' ∷ b'7' ∷ b'8' ∷ b'9' ∷ b'a' ∷ b'b' ∷ b'c' ∷ b'd'
    ∷ b'e' ∷ b'f' ∷ []

abbrev pub backslash : ℕ
backslash = 92

abbrev pub quote : ℕ
quote = 34

-- The `switch` on one character: the bytes that its case appends.
unfoldable pub escaped : ℕ → List ℕ
escaped c =
    if c == quote
    then backslash ∷ quote ∷ []
    else if c == backslash
    then backslash ∷ backslash ∷ []
    else if c == 8
    then backslash ∷ b'b' ∷ []
    else if c == 12
    then backslash ∷ b'f' ∷ []
    else if c == 10
    then backslash ∷ b'n' ∷ []
    else if c == 13
    then backslash ∷ b'r' ∷ []
    else if c == 9
    then backslash ∷ b't' ∷ []
    else if ltb c 0x20
    then backslash
      ∷ b'u'
      ∷ b'0'
      ∷ b'0'
      ∷ get_or hex (shr c 4) 0
      ∷ get_or hex (bit_and c 0x0f) 0
      ∷ []
    else to_char c ∷ []

unfoldable pub json_append_escaped : List ℕ → Append
json_append_escaped [] b = (b, true)
json_append_escaped (c ∷ cs) b = (append (escaped c) &&then json_append_escaped cs) b

-- The text that a whole string is escaped to.
unfoldable pub escape : List ℕ → List ℕ
escape [] = []
escape (c ∷ cs) = escaped c ++ escape cs

pub json_append_escaped-Writes : (cs : List ℕ) → Writes (json_append_escaped cs) (escape cs)
unfolding json_append_escaped escape
json_append_escaped-Writes [] b h = rw (append-nil b.content)
json_append_escaped-Writes (c ∷ cs) b h =
    &&then-Writes _ _ _ _ (append-Writes (escaped c)) (json_append_escaped-Writes cs) b h
