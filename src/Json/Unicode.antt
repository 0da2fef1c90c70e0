-- ===== src/Json/Unicode.antt =====
-- json/json_unicode.hpp: encoding of one code point, and validation of a byte sequence.
pub mod Encoding
pub mod Validation
pub mod Sound
pub mod Valid
use server_entry.Prelude.{
  ℕ, zero, suc, ◌+◌, ◌-◌, ◌≡◌, refl, Bool, true, false, ◌&&◌, ◌||◌, List, [], ◌∷◌, Option, none,
  some, leb, ltb, ◌==◌, if◌then◌else◌, length, bit_and, bit_or,
}
use server_entry.Prelude.Bits.{shl, shr, to_char, to_u32}
use server_entry.Json.Buffer.{Append, append, ◌&&then◌}

put : ℕ → Append
put byte = append (to_char byte ∷ [])

continuation_byte : ℕ → ℕ
continuation_byte x = bit_or 0x80 (bit_and x 0x3f)

unfoldable pub json_append_utf8 : ℕ → Append
unfolding put continuation_byte
json_append_utf8 code_point b =
    if leb code_point 0x7f
    then put code_point b
    else if leb code_point 0x7ff
    then (put (bit_or 0xc0 (shr code_point 6)) &&then put (continuation_byte code_point)) b
    else if leb 0xd800 code_point && leb code_point 0xdfff
    then (b, false)
    else if leb code_point 0xffff
    then (put (bit_or 0xe0 (shr code_point 12))
          &&then put (continuation_byte (shr code_point 6))
          &&then put (continuation_byte code_point))
        b
    else if leb code_point 0x10ffff
    then (put (bit_or 0xf0 (shr code_point 18))
          &&then put (continuation_byte (shr code_point 12))
          &&then put (continuation_byte (shr code_point 6))
          &&then put (continuation_byte code_point))
        b
    else (b, false)

-- The variables that the first byte of a longer sequence sets.
pub record Lead : Type 0 where
  pub count : ℕ
  pub value : ℕ
  pub minimum : ℕ

unfoldable pub lead : ℕ → Option Lead
lead first =
    if leb 0xc2 first && leb first 0xdf
    then some (record { count = 2; value = bit_and first 0x1f; minimum = 0x80 })
    else if leb 0xe0 first && leb first 0xef
    then some (record { count = 3; value = bit_and first 0x0f; minimum = 0x800 })
    else if leb 0xf0 first && leb first 0xf4
    then some (record { count = 4; value = bit_and first 0x07; minimum = 0x10000 })
    else none

-- The loop over the continuation bytes: `rounds` of them, from the front of the bytes that follow.
-- The caller has checked that there are so many.
unfoldable pub continuations : ℕ → ℕ → List ℕ → Option (ℕ × List ℕ)
continuations zero value bytes = some (value, bytes)
continuations (suc rounds) value [] = none
continuations (suc rounds) value (byte ∷ bytes) =
    let next = continuations rounds (bit_or (to_u32 (shl value 6)) (bit_and byte 0x3f)) bytes in
    if bit_and byte 0xc0 == 0x80 then next else none

-- One round of the validation loop at a byte above 0x7f: the bytes after the sequence.
unfoldable pub sequence : ℕ → List ℕ → Option (List ℕ)
sequence first bytes = elim (lead first) [
  | none ↦ none
  | some l ↦
      if ltb (length bytes + 1) l.count
      then none
      else elim (continuations (l.count - 1) l.value bytes) [
        | none ↦ none
        | some (value, rest) ↦
            if ltb value l.minimum || (ltb 0x10ffff value || (leb 0xd800 value && leb value 0xdfff))
            then none
            else some rest
      ]
]

-- The loop on the bytes from `index` on. Each round consumes a byte at least, so as many rounds as
-- there are bytes are enough.
unfoldable pub valid_utf8_from : ℕ → List ℕ → Bool
valid_utf8_from fuel [] = true
valid_utf8_from zero (first ∷ bytes) = false
valid_utf8_from (suc fuel) (first ∷ bytes) =
    elim (if leb first 0x7f then some bytes else sequence first bytes) [
      | none ↦ false
      | some rest ↦ valid_utf8_from fuel rest
    ]

unfoldable pub json_valid_utf8 : List ℕ → Bool
json_valid_utf8 input = valid_utf8_from (length input) input

-- "é€😀", and an overlong "/".
accepts : json_valid_utf8 (0xc3 ∷ 0xa9 ∷ 0xe2 ∷ 0x82 ∷ 0xac ∷ 0xf0 ∷ 0x9f ∷ 0x98 ∷ 0x80 ∷ []) ≡ true
unfolding json_valid_utf8 valid_utf8_from sequence lead continuations
accepts = refl

refuses : json_valid_utf8 (0xe0 ∷ 0x80 ∷ 0xaf ∷ []) ≡ false
unfolding json_valid_utf8 valid_utf8_from sequence lead continuations
refuses = refl
