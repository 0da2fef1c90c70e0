-- ===== src/Json/Ascii.antt =====
-- json/json_ascii.hpp: character classes. A char above 0x7f is in none of them.
use server_entry.Prelude.{
  ℕ, ◌+◌, ◌-◌, Bool, ◌&&◌, ◌||◌, Option, none, some, leb, ◌==◌, if◌then◌else◌,
}

abbrev pub json_is_whitespace : ℕ → Bool
json_is_whitespace c = c == 32 || (c == 9 || (c == 13 || c == 10))

abbrev pub json_is_digit : ℕ → Bool
json_is_digit c = leb b'0' c && leb c b'9'

-- `none` is the result -1.
unfoldable pub json_hex_value : ℕ → Option ℕ
json_hex_value c =
    if leb b'0' c && leb c b'9'
    then some (c - 48)
    else if leb b'a' c && leb c b'f'
    then some (c - 97 + 10)
    else if leb b'A' c && leb c b'F'
    then some (c - 65 + 10)
    else none
