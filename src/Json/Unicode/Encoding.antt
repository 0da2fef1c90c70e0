-- ===== src/Json/Unicode/Encoding.antt =====
-- json_append_utf8 against the arithmetic of RFC 3629.
use server_entry.Prelude.{
  refl, ℕ, ◌+◌, ◌/◌, ◌%◌, ◌<◌, ◌≡◌, ◌⊎◌, false, List, [], ◌∷◌, ltb, if◌then◌else◌, arith, dec_lt,
  bit_or,
}
use server_entry.Prelude.Bits.{and_mask6, or_field4, or_field6, to_char}
use server_entry.Json.Buffer.{Buffer, ◌&&then◌, Writes, append-Writes, &&then-Writes}
use server_entry.Json.Unicode.{json_append_utf8, put, continuation_byte}

-- Unicode scalar values: the code points that are no surrogates.
abbrev pub IsScalar : ℕ → Type 0
IsScalar c = (c < 0x110000) × ((c < 0xd800) ⊎ (0xdfff < c))

-- The bytes of a scalar value in UTF-8.
unfoldable pub encoding : ℕ → List ℕ
encoding c =
    if ltb c 0x80
    then c ∷ []
    else if ltb c 0x800
    then (0xc0 + c / 64) ∷ (0x80 + c % 64) ∷ []
    else if ltb c 0x10000
    then (0xe0 + c / 4096) ∷ (0x80 + c / 64 % 64) ∷ (0x80 + c % 64) ∷ []
    else (0xf0 + c / 262144) ∷ (0x80 + c / 4096 % 64) ∷ (0x80 + c / 64 % 64) ∷ (0x80 + c % 64) ∷ []

continuation_byte_lem : (x : ℕ) → continuation_byte x ≡ 0x80 + x % 64
unfolding continuation_byte
continuation_byte_lem x = rw (and_mask6 x) (or_field6 2 (x % 64) (omega arith))

put-Writes : (x y : ℕ) → x ≡ y → y < 256 → Writes (put x) (y ∷ [])
unfolding put
put-Writes x y e h = let e' : to_char x ≡ y = omega arith in rw e' (append-Writes (y ∷ []))

continuation-Writes : (x : ℕ) → Writes (put (continuation_byte x)) ((0x80 + x % 64) ∷ [])
continuation-Writes x = put-Writes _ _ (continuation_byte_lem x) (omega arith)

-- The bytes of each length, written one after the other.
two-Writes :
    (c : ℕ)
    → c < 0x800
    → Writes
        (put (bit_or 0xc0 (c / 64)) &&then put (continuation_byte c))
        ((0xc0 + c / 64) ∷ (0x80 + c % 64) ∷ [])
two-Writes c h =
    &&then-Writes _ _ _ _
      (put-Writes _ (0xc0 + c / 64) (or_field6 3 (c / 64) (omega arith)) (omega arith))
      (continuation-Writes c)

three-Writes :
    (c : ℕ)
    → c < 0x10000
    → Writes
        (put (bit_or 0xe0 (c / 4096))
          &&then put (continuation_byte (c / 64))
          &&then put (continuation_byte c))
        ((0xe0 + c / 4096) ∷ (0x80 + c / 64 % 64) ∷ (0x80 + c % 64) ∷ [])
three-Writes c h =
    &&then-Writes _ _ _ _
      (put-Writes _ (0xe0 + c / 4096) (or_field4 14 (c / 4096) (omega arith)) (omega arith))
      (&&then-Writes _ _ _ _ (continuation-Writes (c / 64)) (continuation-Writes c))

four-Writes :
    (c : ℕ)
    → c < 0x110000
    → Writes
        (put (bit_or 0xf0 (c / 262144))
          &&then put (continuation_byte (c / 4096))
          &&then put (continuation_byte (c / 64))
          &&then put (continuation_byte c))
        ((0xf0 + c / 262144) ∷ (0x80 + c / 4096 % 64) ∷ (0x80 + c / 64 % 64) ∷ (0x80 + c % 64) ∷ [])
four-Writes c h =
    &&then-Writes _ _ _ _
      (put-Writes _ (0xf0 + c / 262144) (or_field4 15 (c / 262144) (omega arith)) (omega arith))
      (&&then-Writes _ _ _ _ (continuation-Writes (c / 4096))
        (&&then-Writes _ _ _ _ (continuation-Writes (c / 64)) (continuation-Writes c)))

-- A scalar value is written as its UTF-8 bytes, wherever the buffer has room for them.
pub json_append_utf8-Writes : (c : ℕ) → IsScalar c → Writes (json_append_utf8 c) (encoding c)
unfolding json_append_utf8 encoding
json_append_utf8-Writes c s b room = elim (dec_lt c 0x80) [
  | yes h ↦ ground (arith, put-Writes c c refl (omega arith) b (ground arith))
  | no h₁ ↦ elim (dec_lt c 0x800) [
    | yes h ↦ ground (arith, two-Writes c h b (ground arith))
    | no h₂ ↦ elim (dec_lt c 0x10000) [
      | yes h ↦ ground (arith, three-Writes c h b (ground arith))
      | no h₃ ↦ ground (arith, four-Writes c s.0 b (ground arith))
    ]
  ]
]

-- Surrogates and numbers beyond the Unicode range are refused, and nothing is written.
pub json_append_utf8_refuses :
    (c : ℕ) (b : Buffer) → ¬ IsScalar c → json_append_utf8 c b ≡ (b, false)
unfolding json_append_utf8
json_append_utf8_refuses c b h = ground arith
