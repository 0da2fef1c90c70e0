-- ===== src/Json/RoundTrip/Strings.antt =====
-- parse_string reads an escaped string back.
use server_entry.Prelude.{
  if◌then◌else◌, ℕ, zero, suc, ◌+◌, ◌-◌, ◌*◌, ◌/◌, ◌%◌, ◌<◌, ◌≤◌, ◌≡◌, ◌≢◌, refl, ◌∙◌, List, [],
  ◌∷◌, ◌++◌, Option, none, some, arith, length, length-append, get_or, Bool, true, false, ◌==◌,
  ℕ_discrete, ◌⊎◌,
}
use server_entry.Prelude.Bits.{shl, to_u32, or_field4, and_mask4}
use server_entry.Json.Ascii.{json_hex_value}
use server_entry.Json.Buffer.{append, append-Writes}
use server_entry.Json.Escape.{backslash, quote, hex, escaped}
use server_entry.Json.Unicode.{json_valid_utf8, json_append_utf8}
use server_entry.Json.Unicode.Encoding.{encoding, json_append_utf8-Writes}
use server_entry.Json.Parser.{Cursor, Run, ok, Event}
use server_entry.Json.Parser.Text.{
  hex_digits, combine_surrogates, unicode_escape, escape_character, flush, Loop, string_escape,
  string_round, string_loop, put_or_fail, continue,
}

holds_below : (ℕ → Bool) → ℕ → Bool
holds_below test zero = true
holds_below test (suc bound) = if test bound then holds_below test bound else false

holds_below-at :
    (test : ℕ → Bool) (bound k : ℕ) → k < bound → holds_below test bound ≡ true → test k ≡ true
unfolding holds_below
holds_below-at test zero k below all = absurd (omega arith)
holds_below-at test (suc bound) k below all = ground (arith, holds_below-at test bound k)

is_some_of : ℕ → Option ℕ → Bool
is_some_of n none = false
is_some_of n (some m) = m == n

is_some_of_sound : (n : ℕ) (o : Option ℕ) → is_some_of n o ≡ true → o ≡ some n
unfolding is_some_of
is_some_of_sound n none h = ground arith
is_some_of_sound n (some m) h = ground arith

hex_table : holds_below (λ n. is_some_of n (json_hex_value (get_or hex n 0))) 16 ≡ true
unfolding holds_below is_some_of json_hex_value
hex_table = refl

-- A digit that the writer takes from its table is read as its value.
json_hex_value-hex : (n : ℕ) → n < 16 → json_hex_value (get_or hex n 0) ≡ some n
json_hex_value-hex n h = is_some_of_sound n _ (holds_below-at _ 16 n h hex_table)

-- The characters that the writer escapes.
abbrev pub IsSpecial : ℕ → Type 0
IsSpecial c = (c < 32) ⊎ (c ≡ 34) ⊎ (c ≡ 92)

module _ (room : ℕ) (sent : List Event) where
  abbrev pub at : List ℕ → ℕ → List ℕ → Cursor
  at rest position content = record {
    rest = rest;
    position = position;
    buffer = record { content = content; room = room };
    events = sent;
  }

  hex_digits_step :
      (n code x v : ℕ) (c : Cursor) (rest : List ℕ)
      → json_hex_value x ≡ some v
      → v < 16
      → code < 0x1000000
      → hex_digits (suc n) code c (x ∷ rest)
        ≡ hex_digits n (code * 16 + v) (record c { position = c.position + 1 }) rest
  unfolding hex_digits
  hex_digits_step n code x v c rest h l b =
      let e : to_u32 (shl code 4) ≡ code * 16 = omega arith in
      rw (h, hex_digits) (rw (e, or_field4 code v l))

  -- Four digits as the writer writes them for a control character.
  control_digits :
      (c p : ℕ) (content old xs : List ℕ)
      → c < 32
      → hex_digits 4 0
          (at old p content)
          (48 ∷ 48 ∷ get_or hex (c / 16) 0 ∷ get_or hex (c % 16) 0 ∷ xs)
        ≡ ok (c, at xs (p + 1 + 1 + 1 + 1) content)
  control_digits c p content old xs h =
      let value : (0 * 16 + 0) * 16 + c / 16 ≡ c / 16 = omega arith in
      let all : c / 16 * 16 + c % 16 ≡ c = omega arith in
      hex_digits_step 3 0 48 0 _ _ (unfold json_hex_value in refl) (omega arith) (omega arith)
      ∙ hex_digits_step 2 _ 48 0 _ _ (unfold json_hex_value in refl) (omega arith) (omega arith)
      ∙ hex_digits_step 1 _ _ (c / 16) _ _ (json_hex_value-hex (c / 16) (omega arith)) (omega arith)
          (omega arith)
      ∙ hex_digits_step 0 _ _ (c % 16) _ _ (json_hex_value-hex (c % 16) (omega arith)) (omega arith)
          (omega arith)
      ∙ unfold hex_digits in rw (value, all)

  put_lem :
      (x offset p : ℕ) (xs content : List ℕ)
      → length content + 1 ≤ room
      → put_or_fail (append (x ∷ [])) offset (at xs p content) ≡ ok (at xs p (content ++ (x ∷ [])))
  put_lem x offset p xs content h =
      rw (append-Writes (x ∷ []) (record { content = content; room = room }) h)

  put_control :
      (c offset p : ℕ) (xs content : List ℕ)
      → c < 32
      → length content + 1 ≤ room
      → put_or_fail (json_append_utf8 c) offset (at xs p content)
        ≡ ok (at xs p (content ++ (c ∷ [])))
  put_control c offset p xs content l h =
      let e : encoding c ≡ c ∷ [] = unfold encoding in ground arith in
      let w = json_append_utf8-Writes c (omega arith) (record { content = content; room = room }) in
      rw (w (rw e h), e)

  control_escape :
      (c p : ℕ) (xs content : List ℕ)
      → c < 32
      → length content + 1 ≤ room
      → string_escape
          (at (b'u' ∷ 48 ∷ 48 ∷ get_or hex (c / 16) 0 ∷ get_or hex (c % 16) 0 ∷ xs) p content)
        ≡ ok (at xs (p + 1 + 1 + 1 + 1 + 1) (content ++ (c ∷ [])))
  unfolding string_escape escape_character unicode_escape
  control_escape c p xs content l h =
      let four = 48 ∷ 48 ∷ get_or hex (c / 16) 0 ∷ get_or hex (c % 16) 0 ∷ xs in
      rw (control_digits c (p + 1) content four xs l) (
        unfold combine_surrogates in
        ground (arith, put_control c (p + 1 - 2) (p + 1 + 1 + 1 + 1 + 1) xs content l h))

  -- What the writer writes for a character that it escapes, and how it is read.
  pub record Escapes (c : ℕ) : Type 0 where
    pub more : List ℕ
    pub split : escaped c ≡ backslash ∷ more
    pub reads :
        (p : ℕ) (xs content : List ℕ)
        → length content + 1 ≤ room
        → (p' : ℕ) × (string_escape (at (more ++ xs) p content)
            ≡ ok (at xs p' (content ++ (c ∷ []))))

  letter_escape :
      (c letter : ℕ)
      → escaped c ≡ backslash ∷ letter ∷ []
      → ((k : Cursor) → escape_character letter k ≡ put_or_fail (append (c ∷ [])) k.position k)
      → Escapes c
  letter_escape c letter e k = record {
    more = letter ∷ [];
    split = e;
    reads = λ p xs content h. (
      p + 1,
      unfold string_escape in k (at xs (p + 1) content) ∙ put_lem c (p + 1) (p + 1) xs content h,
    );
  }

  hex_escape : (c : ℕ) → c < 32 → c ≢ 8 → c ≢ 9 → c ≢ 10 → c ≢ 12 → c ≢ 13 → Escapes c
  hex_escape c l n8 n9 n10 n12 n13 = record {
    more = b'u' ∷ 48 ∷ 48 ∷ get_or hex (c / 16) 0 ∷ get_or hex (c % 16) 0 ∷ [];
    split = unfold escaped in rw (and_mask4 c) (ground arith);
    reads = λ p xs content h. (_, control_escape c p xs content l h);
  }

  pub special-Escapes : (c : ℕ) → IsSpecial c → Escapes c
  unfolding escaped escape_character
  special-Escapes c s = elim (ℕ_discrete c 34) [
    | yes e ↦ rw e (letter_escape 34 34 refl (λ k. refl))
    | no n34 ↦ elim (ℕ_discrete c 92) [
      | yes e ↦ rw e (letter_escape 92 92 refl (λ k. refl))
      | no n92 ↦ elim (ℕ_discrete c 8) [
        | yes e ↦ rw e (letter_escape 8 b'b' refl (λ k. refl))
        | no n8 ↦ elim (ℕ_discrete c 9) [
          | yes e ↦ rw e (letter_escape 9 b't' refl (λ k. refl))
          | no n9 ↦ elim (ℕ_discrete c 10) [
            | yes e ↦ rw e (letter_escape 10 b'n' refl (λ k. refl))
            | no n10 ↦ elim (ℕ_discrete c 12) [
              | yes e ↦ rw e (letter_escape 12 b'f' refl (λ k. refl))
              | no n12 ↦ elim (ℕ_discrete c 13) [
                | yes e ↦ rw e (letter_escape 13 b'r' refl (λ k. refl))
                | no n13 ↦ hex_escape c (ground arith) n8 n9 n10 n12 n13
              ]
            ]
          ]
        ]
      ]
    ]
  ]

  -- The loop at some point of a string: `raw` is not yet copied behind `content`.
  abbrev pub looping : ℕ → ℕ → List ℕ → ℕ → List ℕ → List ℕ → ℕ → Run Cursor
  looping fuel start rest position content raw raw_start =
      string_loop fuel start
        (record { cursor = at rest position content; raw = raw; raw_start = raw_start })

  flush_lem :
      (raw content xs : List ℕ) (raw_start p : ℕ)
      → json_valid_utf8 raw ≡ true
      → length content + length raw ≤ room
      → flush raw raw_start (at xs p content) ≡ ok (at xs p (content ++ raw))
  unfolding flush
  flush_lem raw content xs raw_start p v h =
      rw v (rw (append-Writes raw (record { content = content; room = room }) h))

  abbrev pub loop_at : List ℕ → ℕ → List ℕ → List ℕ → ℕ → Loop
  loop_at rest position content raw raw_start = record {
    cursor = at rest position content;
    raw = raw;
    raw_start = raw_start;
  }

  copy_step :
      (start x p raw_start : ℕ) (xs content raw : List ℕ)
      → ¬ IsSpecial x
      → string_round start (loop_at (x ∷ xs) p content raw raw_start)
        ≡ continue (loop_at xs (p + 1) content (raw ++ (x ∷ [])) raw_start)
  unfolding string_round
  copy_step start x p raw_start xs content raw h = ground arith

  pub copy_round :
      (fuel start x p raw_start : ℕ) (xs content raw : List ℕ)
      → ¬ IsSpecial x
      → looping (suc fuel) start (x ∷ xs) p content raw raw_start
        ≡ looping fuel start xs (p + 1) content (raw ++ (x ∷ [])) raw_start
  unfolding string_loop
  copy_round fuel start x p raw_start xs content raw h =
      rw (copy_step start x p raw_start xs content raw h, string_loop)

  pub close_round :
      (fuel start p raw_start : ℕ) (xs content raw : List ℕ)
      → json_valid_utf8 raw ≡ true
      → length content + length raw ≤ room
      → looping (suc fuel) start (quote ∷ xs) p content raw raw_start
        ≡ ok (at xs (p + 1) (content ++ raw))
  unfolding string_loop string_round
  close_round fuel start p raw_start xs content raw v h =
      rw (flush_lem raw content (quote ∷ xs) raw_start p v h)

  escape_step :
      (start c p p' raw_start : ℕ) (more xs content raw : List ℕ)
      → json_valid_utf8 raw ≡ true
      → length content + length raw ≤ room
      → string_escape (at (more ++ xs) (p + 1) (content ++ raw))
        ≡ ok (at xs p' ((content ++ raw) ++ (c ∷ [])))
      → string_round start (loop_at (backslash ∷ (more ++ xs)) p content raw raw_start)
        ≡ continue (loop_at xs p' ((content ++ raw) ++ (c ∷ [])) [] p')
  unfolding string_round
  escape_step start c p p' raw_start more xs content raw v h e =
      rw (flush_lem raw content (backslash ∷ (more ++ xs)) raw_start p v h, e)

  -- An escape sequence, with what is raw before it.
  pub escape_round :
      (fuel start c p raw_start : ℕ) (xs content raw : List ℕ)
      → Escapes c
      → json_valid_utf8 raw ≡ true
      → length content + length raw + 1 ≤ room
      → (p' : ℕ) × (looping (suc fuel) start (escaped c ++ xs) p content raw raw_start
          ≡ looping fuel start xs p' ((content ++ raw) ++ (c ∷ [])) [] p')
  unfolding string_loop
  escape_round fuel start c p raw_start xs content raw t v h =
      let r = t.reads (p + 1) xs (content ++ raw) (omega (arith, length-append content raw)) in
      let step = escape_step start c p r.0 raw_start t.more xs content raw v (omega arith) r.1 in
      (r.0, rw t.split (rw (step, string_loop)))
