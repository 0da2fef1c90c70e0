-- ===== src/Json/Unicode/Validation.antt =====
-- json_valid_utf8 accepts exactly the encodings of sequences of scalar values.
use server_entry.Prelude.{
  ℕ, suc, ◌+◌, ◌*◌, ◌/◌, ◌%◌, ◌<◌, ◌≤◌, ◌≡◌, List, [], ◌∷◌, ◌++◌, none, some, ltb, ◌==◌,
  if◌then◌else◌, arith, dec_lt, ◌∙◌,
}
use server_entry.Prelude.Bits.{
  and_mask3, and_mask4, and_mask5, and_mask6, and_top2, or_field6, to_u32, shl,
}
use server_entry.Json.Unicode.{lead, continuations, sequence, valid_utf8_from}
use server_entry.Json.Unicode.Encoding.{IsScalar, encoding}

abbrev pub IsByte : ℕ → Type 0
IsByte b = b < 256

-- One round of the inner loop, in arithmetic.
pub continuations_step :
    (n v b : ℕ) (bs : List ℕ)
    → v < 0x1000000
    → IsByte b
    → continuations (suc n) v (b ∷ bs)
      ≡ (if b / 64 == 2 then continuations n (v * 64 + b % 64) bs else none)
unfolding continuations
continuations_step n v b bs hv hb =
    let e : to_u32 (shl v 6) ≡ v * 64 = omega arith in
    rw (e, and_mask6 b, or_field6 v (b % 64) (omega arith), and_top2 b hb) (ground arith)

-- The first byte, in arithmetic.
pub lead_lem :
    (b : ℕ)
    → lead b ≡ (
        if ltb b 0xc2
        then none
        else if ltb b 0xe0
        then some (record { count = 2; value = b % 32; minimum = 0x80 })
        else if ltb b 0xf0
        then some (record { count = 3; value = b % 16; minimum = 0x800 })
        else if ltb b 0xf5
        then some (record { count = 4; value = b % 8; minimum = 0x10000 })
        else none)
unfolding lead
lead_lem b = rw (and_mask3 b, and_mask4 b, and_mask5 b) (ground arith)

-- A well-formed continuation byte is consumed.
continuations_take :
    (n v x : ℕ) (bs : List ℕ)
    → v < 0x1000000
    → x < 64
    → continuations (suc n) v ((0x80 + x) ∷ bs) ≡ continuations n (v * 64 + x) bs
continuations_take n v x bs hv hx =
    let e : (0x80 + x) / 64 ≡ 2 = omega arith in
    let f : (0x80 + x) % 64 ≡ x = omega arith in
    rw (continuations_step n v (0x80 + x) bs hv (omega arith), e, f)

module _ (c : ℕ) (rest : List ℕ) where
  sequence_two :
      0x80 ≤ c → c < 0x800 → sequence (0xc0 + c / 64) ((0x80 + c % 64) ∷ rest) ≡ some rest
  unfolding sequence
  sequence_two lo hi =
      let e : lead (0xc0 + c / 64) ≡ some (record { count = 2; value = c / 64; minimum = 0x80 }) =
        lead_lem (0xc0 + c / 64) ∙ ground arith in
      let k : continuations 1 (c / 64) ((0x80 + c % 64) ∷ rest) ≡ some (c, rest) =
        continuations_take 0 (c / 64) (c % 64) rest (omega arith) (omega arith)
        ∙ unfold continuations in ground arith in
      rw (e, sequence, k) (ground arith)

  sequence_three :
      0x800 ≤ c
      → c < 0x10000
      → IsScalar c
      → sequence (0xe0 + c / 4096) ((0x80 + c / 64 % 64) ∷ (0x80 + c % 64) ∷ rest) ≡ some rest
  unfolding sequence
  sequence_three lo hi s =
      let e : lead (0xe0 + c / 4096)
          ≡ some (record { count = 3; value = c / 4096; minimum = 0x800 }) =
        lead_lem (0xe0 + c / 4096) ∙ ground arith in
      let k : continuations 2 (c / 4096) ((0x80 + c / 64 % 64) ∷ (0x80 + c % 64) ∷ rest)
          ≡ some (c, rest) =
        continuations_take 1 (c / 4096) (c / 64 % 64) _ (omega arith) (omega arith)
        ∙ continuations_take 0 _ (c % 64) rest (omega arith) (omega arith)
        ∙ unfold continuations in ground arith in
      rw (e, sequence, k) (ground arith)

  sequence_four :
      0x10000 ≤ c
      → IsScalar c
      → sequence
          (0xf0 + c / 262144)
          ((0x80 + c / 4096 % 64) ∷ (0x80 + c / 64 % 64) ∷ (0x80 + c % 64) ∷ rest)
        ≡ some rest
  unfolding sequence
  sequence_four lo s =
      let e : lead (0xf0 + c / 262144)
          ≡ some (record { count = 4; value = c / 262144; minimum = 0x10000 }) =
        lead_lem (0xf0 + c / 262144) ∙ ground arith in
      let k : continuations 3 (c / 262144)
            ((0x80 + c / 4096 % 64) ∷ (0x80 + c / 64 % 64) ∷ (0x80 + c % 64) ∷ rest)
          ≡ some (c, rest) =
        continuations_take 2 (c / 262144) (c / 4096 % 64) _ (omega arith) (omega arith)
        ∙ continuations_take 1 _ (c / 64 % 64) _ (omega arith) (omega arith)
        ∙ continuations_take 0 _ (c % 64) rest (omega arith) (omega arith)
        ∙ unfold continuations in ground arith in
      rw (e, sequence, k) (ground arith)

-- The bytes of a sequence of scalar values.
unfoldable pub encode : List ℕ → List ℕ
encode [] = []
encode (c ∷ cs) = encoding c ++ encode cs

-- One round of the loop consumes one encoding.
pub valid_utf8_from-encoding :
    (f c : ℕ) (rest : List ℕ)
    → IsScalar c
    → valid_utf8_from (suc f) (encoding c ++ rest) ≡ valid_utf8_from f rest
unfolding valid_utf8_from encoding
valid_utf8_from-encoding f c rest s = elim (dec_lt c 0x80) [
  | yes h ↦ ground arith
  | no h₁ ↦ elim (dec_lt c 0x800) [
    | yes h ↦ ground (arith, sequence_two c rest (omega arith) h)
    | no h₂ ↦ elim (dec_lt c 0x10000) [
      | yes h ↦ ground (arith, sequence_three c rest (omega arith) h s)
      | no h₃ ↦ ground (arith, sequence_four c rest (omega arith) s)
    ]
  ]
]
