-- ===== src/Json/RoundTrip/StringLoop.antt =====
-- The loop of parse_string over the escaped form of a whole string.
use server_entry.Prelude.{
  ℕ, zero, suc, ◌+◌, ◌/◌, ◌%◌, ◌<◌, ◌≤◌, ◌≡◌, refl, ap, ◌∙◌, sym, List, [], ◌∷◌, ◌++◌, append_assoc,
  append-nil, All, All-append, arith, length, length-append, dec_lt, ℕ_discrete, ◌⊎◌, inl, inr,
  subst,
}
use server_entry.Prelude.Bits.{to_char}
use server_entry.Json.Escape.{quote, escaped, escape}
use server_entry.Json.Unicode.Encoding.{IsScalar, encoding}
use server_entry.Json.Unicode.Validation.{IsByte, encode}
use server_entry.Json.Unicode.Valid.{json_valid_utf8-encode, json_valid_utf8_iff}
use server_entry.Json.Buffer.{clear}
use server_entry.Json.Value.{quotation, IsUtf8}
use server_entry.Json.Parser.Text.{parse_string}
use server_entry.Json.Parser.{ok, Event}
use server_entry.Json.RoundTrip.Strings.{
  IsSpecial, at, looping, copy_round, close_round, escape_round, special-Escapes,
}

escape-append : (xs ys : List ℕ) → escape (xs ++ ys) ≡ escape xs ++ escape ys
unfolding escape
escape-append [] ys = refl
escape-append (x ∷ xs) ys = rw (escape-append xs ys, append_assoc)

encode-append : (cs ds : List ℕ) → encode (cs ++ ds) ≡ encode cs ++ encode ds
unfolding encode
encode-append [] ds = refl
encode-append (c ∷ cs) ds = rw (encode-append cs ds, append_assoc)

length-escaped_pos : (c : ℕ) → 0 < length (escaped c)
unfolding escaped
length-escaped_pos c = ground arith

-- A byte that needs no escape.
abbrev IsRaw : ℕ → Type 0
IsRaw x = (¬ IsSpecial x) × IsByte x

escape_raw : (xs : List ℕ) → All IsRaw xs → escape xs ≡ xs
unfolding escape escaped
escape_raw [] h = refl
escape_raw (x ∷ xs) h = let a : to_char x ≡ x = omega arith in rw (escape_raw xs h.1) (ground arith)

ascii_encoding : (c : ℕ) → c < 0x80 → encoding c ≡ c ∷ []
unfolding encoding
ascii_encoding c h = ground arith

wide_encoding : (c : ℕ) → IsScalar c → 0x80 ≤ c → All IsRaw (encoding c)
unfolding encoding
wide_encoding c s h = elim (dec_lt c 0x800) [
  | yes a ↦
      let e : encoding c ≡ (0xc0 + c / 64) ∷ (0x80 + c % 64) ∷ [] = ground arith in
      rw e (omega arith)
  | no a ↦ elim (dec_lt c 0x10000) [
    | yes b ↦
        let e : encoding c ≡ (0xe0 + c / 4096) ∷ (0x80 + c / 64 % 64) ∷ (0x80 + c % 64) ∷ [] =
          ground arith in
        rw e (omega arith)
    | no b ↦
        let e : encoding c
            ≡ (0xf0 + c / 262144)
              ∷ (0x80 + c / 4096 % 64)
              ∷ (0x80 + c / 64 % 64)
              ∷ (0x80 + c % 64)
              ∷ [] =
          ground arith in
        rw e (omega arith)
  ]
]

IsSpecial-dec : (c : ℕ) → IsSpecial c ⊎ (¬ IsSpecial c)
IsSpecial-dec c = elim (dec_lt c 32) [
  | yes h ↦ inl (inl h)
  | no h ↦ elim (ℕ_discrete c 34) [
    | yes e ↦ inl (inr (inl e))
    | no n ↦ elim (ℕ_discrete c 92) [ yes e ↦ inl (inr (inr e)) | no m ↦ inr (omega arith) ]
  ]
]

-- A scalar value is a character that needs an escape, or no byte of its encoding does.
encoding_cases :
    (c : ℕ) → IsScalar c → (IsSpecial c × (encoding c ≡ c ∷ [])) ⊎ All IsRaw (encoding c)
encoding_cases c s = elim (dec_lt c 0x80) [
  | yes a ↦ elim (IsSpecial-dec c) [
    | inl p ↦ inl (p, ascii_encoding c a)
    | inr n ↦ inr (rw (ascii_encoding c a) ((n, omega arith), tt))
  ]
  | no a ↦ inr (wide_encoding c s (omega arith))
]

-- Two ways to bracket what is decoded.
decoded : (content a b d : List ℕ) → ((content ++ a) ++ b) ++ d ≡ content ++ (a ++ (b ++ d))
decoded content a b d = simp append_assoc

encode_nil : encode [] ≡ []
unfolding encode
encode_nil = refl

escape_nil : escape [] ≡ []
unfolding escape
escape_nil = refl

encode_special :
    (c : ℕ) (cs : List ℕ) → encoding c ≡ c ∷ [] → encode (c ∷ cs) ≡ (c ∷ []) ++ encode cs
unfolding encode
encode_special c cs e = rw e

escape_special :
    (c : ℕ) (cs : List ℕ)
    → encoding c ≡ c ∷ []
    → escape (encode (c ∷ cs)) ≡ escaped c ++ escape (encode cs)
unfolding escape
escape_special c cs e = rw (encode_special c cs e)

module _ (room : ℕ) (sent : List Event) where
  -- The loop goes on, with `left` of the fuel, at a later point.
  record Goes (fuel start : ℕ) (rest : List ℕ) (p : ℕ) (content raw : List ℕ) (raw_start n : ℕ)
      (xs content' raw' : List ℕ) : Type 0 where
    left : ℕ
    position : ℕ
    segment : ℕ
    spent : fuel ≡ n + left
    run :
        looping room sent fuel start rest p content raw raw_start
        ≡ looping room sent left start xs position content' raw' segment

  copy_many :
      (bs : List ℕ) (fuel start p raw_start : ℕ) (xs content raw : List ℕ)
      → All IsRaw bs
      → length bs ≤ fuel
      → Goes fuel start (bs ++ xs) p content raw raw_start (length bs) xs content (raw ++ bs)
  copy_many [] fuel start p raw_start xs content raw h l = record {
    left = fuel;
    position = p;
    segment = raw_start;
    spent = omega arith;
    run = rw (append-nil raw);
  }
  copy_many (b ∷ bs) zero start p raw_start xs content raw h l = absurd (omega arith)
  copy_many (b ∷ bs) (suc fuel) start p raw_start xs content raw h l =
      let t =
        copy_many bs fuel start (p + 1) raw_start xs content (raw ++ (b ∷ [])) h.1 (omega arith) in
      record {
        left = t.left;
        position = t.position;
        segment = t.segment;
        spent = omega (arith, t.spent);
        run =
            copy_round room sent fuel start b p raw_start (bs ++ xs) content raw h.0.0
            ∙ rw (append_assoc raw (b ∷ []) bs) at t.run;
      }

  -- The loop at the escaped form of the scalar values `cs`, with those of `rs` raw.
  abbrev Reads : List ℕ → List ℕ → Type 0
  Reads cs rs =
      (fuel start p raw_start : ℕ) (xs content : List ℕ)
      → length (escape (encode cs)) < fuel
      → length content + (length (encode rs) + length (encode cs)) ≤ room
      → (p' : ℕ) × (looping room sent fuel start (escape (encode cs) ++ (quote ∷ xs)) p content
            (encode rs) raw_start
          ≡ ok (at room sent xs p' (content ++ (encode rs ++ encode cs))))

  special-Reads :
      (c : ℕ) (cs rs : List ℕ)
      → IsSpecial c
      → encoding c ≡ c ∷ []
      → All IsScalar rs
      → Reads cs []
      → Reads (c ∷ cs) rs
  special-Reads c cs rs special e valid ih zero start p raw_start xs content l h =
      absurd (omega arith)
  special-Reads c cs rs special e valid ih (suc fuel) start p raw_start xs content l h =
      let whole = encode_special c cs e in
      let split = escape_special c cs e in
      let n = ap length whole in
      let m = ap length split in
      let k = length-append (escaped c) (escape (encode cs)) in
      let size = length-append content (encode rs) in
      let size' = length-append (content ++ encode rs) (c ∷ []) in
      let none_left = ap length encode_nil in
      let tail = escape (encode cs) ++ (quote ∷ xs) in
      let (p₁, run) =
        escape_round room sent fuel start c p raw_start tail content (encode rs)
          (special-Escapes room sent c special) (json_valid_utf8-encode rs valid) (omega arith) in
      let (p₂, rest) =
        ih fuel start p₁ p₁ xs ((content ++ encode rs) ++ (c ∷ []))
          (omega (arith, length-escaped_pos c)) (omega arith) in
      let front : escape (encode (c ∷ cs)) ++ (quote ∷ xs) ≡ escaped c ++ tail =
        ap (λ t. t ++ (quote ∷ xs)) split
        ∙ append_assoc (escaped c) (escape (encode cs)) (quote ∷ xs) in
      let result : ((content ++ encode rs) ++ (c ∷ [])) ++ (encode [] ++ encode cs)
          ≡ content ++ (encode rs ++ encode (c ∷ cs)) =
        rw (encode_nil, whole) (decoded content (encode rs) (c ∷ []) (encode cs)) in
      (
        p₂,
        ap (λ t. looping room sent (suc fuel) start t p content (encode rs) raw_start) front
            ∙ run
            ∙ ap
                (λ t.
                  looping room sent fuel start tail p₁ ((content ++ encode rs) ++ (c ∷ [])) t p₁)
                (sym encode_nil)
            ∙ rest
            ∙ ap (λ t. ok (at room sent xs p₂ t)) result,
      )

  raw-Reads :
      (c : ℕ) (cs rs : List ℕ)
      → All IsRaw (encoding c)
      → Reads cs (rs ++ (c ∷ []))
      → Reads (c ∷ cs) rs
  raw-Reads c cs rs raw ih fuel start p raw_start xs content l h =
      let whole : encode (c ∷ cs) ≡ encoding c ++ encode cs = unfold encode in refl in
      let split : escape (encode (c ∷ cs)) ≡ encoding c ++ escape (encode cs) =
        ap escape whole
        ∙ escape-append (encoding c) (encode cs)
        ∙ ap (λ t. t ++ escape (encode cs)) (escape_raw (encoding c) raw) in
      let grown : encode (rs ++ (c ∷ [])) ≡ encode rs ++ encoding c =
        encode-append rs (c ∷ [])
        ∙ ap (◌++◌ (encode rs)) (unfold encode in append-nil (encoding c)) in
      let n = ap length whole in
      let m = ap length split in
      let g = ap length grown in
      let k = length-append (encoding c) (escape (encode cs)) in
      let k' = length-append (encoding c) (encode cs) in
      let size = length-append (encode rs) (encoding c) in
      let tail = escape (encode cs) ++ (quote ∷ xs) in
      let t =
        copy_many (encoding c) fuel start p raw_start tail content (encode rs) raw (omega arith) in
      let (p₂, rest) =
        ih t.left start t.position t.segment xs content (omega (arith, t.spent)) (omega arith) in
      let front : escape (encode (c ∷ cs)) ++ (quote ∷ xs) ≡ encoding c ++ tail =
        ap (λ t. t ++ (quote ∷ xs)) split
        ∙ append_assoc (encoding c) (escape (encode cs)) (quote ∷ xs) in
      let result : content ++ (encode (rs ++ (c ∷ [])) ++ encode cs)
          ≡ content ++ (encode rs ++ encode (c ∷ cs)) =
        rw (grown, whole) (rw append_assoc) in
      (
        p₂,
        ap (λ t. looping room sent fuel start t p content (encode rs) raw_start) front
            ∙ t.run
            ∙ ap (λ u. looping room sent t.left start tail t.position content u t.segment)
                (sym grown)
            ∙ rest
            ∙ ap (λ t. ok (at room sent xs p₂ t)) result,
      )

  scalars_read : (cs rs : List ℕ) → All IsScalar cs → All IsScalar rs → Reads cs rs
  scalars_read [] rs s v zero start p raw_start xs content l h = absurd (omega arith)
  scalars_read [] rs s v (suc fuel) start p raw_start xs content l h = (
    p + 1,
    rw (encode_nil, escape_nil, append-nil (encode rs))
        (close_round room sent fuel start p raw_start xs content (encode rs)
          (json_valid_utf8-encode rs v) (omega arith)),
  )
  scalars_read (c ∷ cs) rs s v fuel start p raw_start xs content l h = elim (encoding_cases c s.0) [
    | inl (special, e) ↦
        special-Reads c cs rs special e v (scalars_read cs [] s.1 tt) fuel start p raw_start xs
          content l h
    | inr raw ↦
        raw-Reads c cs rs raw
          (scalars_read cs (rs ++ (c ∷ [])) s.1 (All-append IsScalar rs (c ∷ []) v (s.0, tt))) fuel
          start p raw_start xs content l h
  ]

  encoded_reads :
      (cs xs old : List ℕ) (p : ℕ)
      → All IsScalar cs
      → length (encode cs) ≤ room
      → (p' : ℕ) × (parse_string (at room sent (quotation (encode cs) ++ xs) p old)
          ≡ ok (at room sent xs p' (encode cs)))
  unfolding parse_string clear
  encoded_reads cs xs old p s h =
      let tail = escape (encode cs) ++ (quote ∷ xs) in
      let n = length-append (escape (encode cs)) (quote ∷ xs) in
      let z = ap length encode_nil in
      let (p', run) =
        scalars_read cs [] s tt (length tail + 1) p (p + 1) (p + 1) xs [] (omega arith)
          (omega arith) in
      (
        p',
        rw (append_assoc (escape (encode cs)) (quote ∷ []) xs) (
            ap (λ t. looping room sent (length tail + 1) p tail (p + 1) [] t (p + 1))
              (sym encode_nil)
            ∙ run
            ∙ ap (λ t. ok (at room sent xs p' (t ++ encode cs))) encode_nil),
      )

  -- A quotation that the writer wrote is read back as the string, into a buffer with room for it.
  pub parse_string-quotation :
      (s xs old : List ℕ) (p : ℕ)
      → IsUtf8 s
      → length s ≤ room
      → (p' : ℕ) × (parse_string (at room sent (quotation s ++ xs) p old)
          ≡ ok (at room sent xs p' s))
  parse_string-quotation s xs old p u h =
      let t = (json_valid_utf8_iff s u.0).0 u.1 in
      subst
        (λ y.
          length y ≤ room
          → (p' : ℕ) × (parse_string (at room sent (quotation y ++ xs) p old)
              ≡ ok (at room sent xs p' y)))
        (sym t.encoded) (encoded_reads t.scalars xs old p t.all_scalar) h
