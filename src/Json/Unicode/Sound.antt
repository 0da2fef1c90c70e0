-- ===== src/Json/Unicode/Sound.antt =====
-- What json_valid_utf8 accepts: exactly the encodings of sequences of scalar values.
use server_entry.Prelude.{
  ℕ, suc, ◌+◌, ◌-◌, ◌*◌, ◌%◌, ◌<◌, ◌≤◌, ◌≡◌, refl, List, [], ◌∷◌, ◌++◌, Option, none, some, All,
  arith, dec_lt, ◌∙◌,
}
use server_entry.Json.Unicode.{Lead, lead, continuations, sequence}
use server_entry.Json.Unicode.Encoding.{IsScalar, encoding}
use server_entry.Json.Unicode.Validation.{IsByte, continuations_step, lead_lem}

-- The byte and the bytes after it that a round of the inner loop found.
record Taken (n v : ℕ) (bytes : List ℕ) (r : ℕ × List ℕ) : Type 0 where
  x : ℕ
  more : List ℕ
  small : x < 64
  front : bytes ≡ (0x80 + x) ∷ more
  still_bytes : All IsByte more
  left : continuations n (v * 64 + x) more ≡ some r

continuations-Taken :
    (n v : ℕ) (bytes : List ℕ) (r : ℕ × List ℕ)
    → v < 0x1000000
    → All IsByte bytes
    → continuations (suc n) v bytes ≡ some r
    → Taken n v bytes r
continuations-Taken n v [] r hv hb h = unfold continuations in ground arith
continuations-Taken n v (b ∷ bs) r hv hb h =
    let e = continuations_step n v b bs hv hb.0 in
    record {
      x = b % 64;
      more = bs;
      small = omega arith;
      front = ground arith;
      still_bytes = hb.1;
      left = ground arith;
    }

-- The value and the rest that the whole inner loop found, and the tests after it.
record Found (l : Lead) (bytes rest : List ℕ) : Type 0 where
  value : ℕ
  run : continuations (l.count - 1) l.value bytes ≡ some (value, rest)
  least : l.minimum ≤ value
  scalar : IsScalar value

sequence-Found :
    (first : ℕ) (bytes rest : List ℕ) (l : Lead)
    → lead first ≡ some l
    → sequence first bytes ≡ some rest
    → Found l bytes rest
unfolding sequence
sequence-Found first bytes rest l e h = go (continuations (l.count - 1) l.value bytes) refl
  where
    go :
        (o : Option (ℕ × List ℕ))
        → continuations (l.count - 1) l.value bytes ≡ o
        → Found l bytes rest
    go none k = ground arith
    go (some (v, r)) k = record {
      value = v;
      run = ground arith;
      least = ground arith;
      scalar = ground arith;
    }

-- An accepted sequence is the encoding of a scalar value.
abbrev pub Encoded : List ℕ → List ℕ → Type 0
Encoded bytes rest = (c : ℕ) × IsScalar c × (bytes ≡ encoding c ++ rest)

continuations_end :
    (v w : ℕ) (bytes rest : List ℕ)
    → continuations 0 v bytes ≡ some (w, rest)
    → (w ≡ v) × (bytes ≡ rest)
unfolding continuations
continuations_end v w bytes rest h = ground arith

module _ (b : ℕ) (bytes rest : List ℕ) (hb : All IsByte bytes) where
  Found-two :
      0xc2 ≤ b
      → b < 0xe0
      → Found (record { count = 2; value = b % 32; minimum = 0x80 }) bytes rest
      → Encoded (b ∷ bytes) rest
  unfolding encoding
  Found-two lo hi f =
      let t = continuations-Taken 0 (b % 32) bytes (f.value, rest) (omega arith) hb f.run in
      let e = continuations_end _ _ _ _ t.left in
      (f.value, f.scalar, ground (arith, t.front, t.small, f.least, e))

  Found-three :
      0xe0 ≤ b
      → b < 0xf0
      → Found (record { count = 3; value = b % 16; minimum = 0x800 }) bytes rest
      → Encoded (b ∷ bytes) rest
  unfolding encoding
  Found-three lo hi f =
      let t = continuations-Taken 1 (b % 16) bytes (f.value, rest) (omega arith) hb f.run in
      let u =
        continuations-Taken 0 (b % 16 * 64 + t.x) t.more (f.value, rest) (omega (arith, t.small))
          t.still_bytes t.left in
      let e = continuations_end _ _ _ _ u.left in
      (f.value, f.scalar, ground (arith, t.front, t.small, u.front, u.small, f.least, e))

  Found-four :
      0xf0 ≤ b
      → b < 0xf5
      → Found (record { count = 4; value = b % 8; minimum = 0x10000 }) bytes rest
      → Encoded (b ∷ bytes) rest
  unfolding encoding
  Found-four lo hi f =
      let t = continuations-Taken 2 (b % 8) bytes (f.value, rest) (omega arith) hb f.run in
      let u =
        continuations-Taken 1 (b % 8 * 64 + t.x) t.more (f.value, rest) (omega (arith, t.small))
          t.still_bytes t.left in
      let v =
        continuations-Taken 0 ((b % 8 * 64 + t.x) * 64 + u.x) u.more (f.value, rest)
          (omega (arith, t.small, u.small)) u.still_bytes u.left in
      let e = continuations_end _ _ _ _ v.left in
      (
        f.value,
        f.scalar,
        ground (arith, t.front, t.small, u.front, u.small, v.front, v.small, f.least, e),
      )

  pub sequence-Encoded : sequence b bytes ≡ some rest → Encoded (b ∷ bytes) rest
  sequence-Encoded h = elim (dec_lt b 0xc2) [
    | yes h₁ ↦ unfold sequence in ground (arith, lead_lem b)
    | no h₁ ↦ elim (dec_lt b 0xe0) [
      | yes h₂ ↦
          Found-two (omega arith) h₂ (sequence-Found b bytes rest _ (lead_lem b ∙ ground arith) h)
      | no h₂ ↦ elim (dec_lt b 0xf0) [
        | yes h₃ ↦
            Found-three (omega arith) h₃
              (sequence-Found b bytes rest _ (lead_lem b ∙ ground arith) h)
        | no h₃ ↦ elim (dec_lt b 0xf5) [
          | yes h₄ ↦
              Found-four (omega arith) h₄
                (sequence-Found b bytes rest _ (lead_lem b ∙ ground arith) h)
          | no h₄ ↦ unfold sequence in ground (arith, lead_lem b)
        ]
      ]
    ]
  ]
