-- ===== src/Json/Parser/Progress/Strings.antt =====
-- parse_string reads within the input and consumes a character at least.
use server_entry.Prelude.{
  ℕ, zero, suc, ◌+◌, ◌-◌, ◌<◌, ◌≤◌, ◌≡◌, ◌⊎◌, refl, List, [], ◌∷◌, arith, length, Option-cases, ap,
  inl, inr,
}
use server_entry.Json.Ascii.{json_hex_value}
use server_entry.Json.Buffer.{append, clear}
use server_entry.Json.Unicode.{json_append_utf8}
use server_entry.Json.Parser.{Cursor, Run, ok, failed, out_of_fuel, advance_to}
use server_entry.Json.Parser.Text.{
  hex_digits, low_surrogate, combine_surrogates, put_code_point, unicode_escape, escape_character,
  flush, Loop, Round, return, continue, continue_if, string_escape, string_round, string_loop,
  parse_string,
}
use server_entry.Json.Parser.Progress.{
  end_of, Within, self, Ensures, Kept, >>=-Ensures, Stays, put_or_fail-Kept, >>=-Within,
  Within-weaken, put_or_fail-Within,
}

abbrev coded : ℕ × Cursor → Cursor
coded r = r.1

hex_digits-Within :
    (n code : ℕ) (c : Cursor) (rest : List ℕ) (e : ℕ)
    → c.position + length rest ≡ e
    → Within coded e (length rest) (hex_digits n code c rest)
unfolding hex_digits
hex_digits-Within zero code c rest e h = (h, omega arith)
hex_digits-Within (suc n) code c [] e h = (h, omega arith)
hex_digits-Within (suc n) code c (x ∷ rest) e h = elim (Option-cases (json_hex_value x)) [
  | inl q ↦ rw (q, hex_digits) (omega arith)
  | inr (v, q) ↦
      rw (q, hex_digits)
        (Within-weaken coded e (length rest) (suc (length rest)) _ (omega arith)
          (hex_digits-Within n _ (record c { position = c.position + 1 }) rest e (omega arith)))
]

module _ (offset e n : ℕ) (inside : offset ≤ e) where
  low_surrogate-Within :
      (code : ℕ) (c : Cursor)
      → end_of c ≡ e
      → length c.rest ≤ n
      → Within coded e n (low_surrogate offset code c)
  unfolding low_surrogate
  low_surrogate-Within code c h k = go c.rest refl
    where
      go : (xs : List ℕ) → c.rest ≡ xs → Within coded e n (low_surrogate offset code c)
      go [] q = rw (q, low_surrogate) (ground arith)
      go (x ∷ []) q = rw (q, low_surrogate) (ground arith)
      go (x ∷ y ∷ rest) q =
          let digits = Within-weaken coded e (length rest) n _ (omega (arith, ap length q)) (
            hex_digits-Within 4 0 (record c { position = c.position + 2 }) rest e
              (omega (arith, ap length q))) in
          rw (q, low_surrogate) (ground (arith, digits))

  combine_surrogates-Within :
      (r : ℕ × Cursor)
      → end_of r.1 ≡ e
      → length r.1.rest ≤ n
      → Within coded e n (combine_surrogates offset r)
  unfolding combine_surrogates
  combine_surrogates-Within (code, c) h k = ground (arith, low_surrogate-Within code c h k)

  unicode_escape-Within :
      (c : Cursor) → end_of c ≡ e → length c.rest ≤ n → Within self e n (unicode_escape offset c)
  unfolding unicode_escape
  unicode_escape-Within c h k =
      let digits =
        Within-weaken coded e (length c.rest) n _ k (hex_digits-Within 4 0 c c.rest e h) in
      let combined =
        >>=-Within coded coded e n n _ (combine_surrogates offset) digits
          combine_surrogates-Within in
      let written =
        >>=-Within coded self e n n _ (put_code_point offset) combined
          (λ r p q. put_or_fail-Within (json_append_utf8 r.0) offset r.1 e n p q inside) in
      ground (arith, written)

module _ (e n : ℕ) where
  escape_character-Within :
      (x : ℕ) (c : Cursor)
      → end_of c ≡ e
      → length c.rest ≤ n
      → Within self e n (escape_character x c)
  unfolding escape_character
  escape_character-Within x c h k =
      let put =
        λ (y : ℕ). put_or_fail-Within (append (y ∷ [])) c.position c e n h k (omega arith) in
      ground (
        arith,
        put x,
        put 8,
        put 12,
        put 10,
        put 13,
        put 9,
        unicode_escape-Within (c.position - 2) e n (omega arith) c h k,
      )

  flush-Kept :
      (raw : List ℕ) (raw_start : ℕ) (c : Cursor)
      → end_of c ≡ e
      → raw_start ≤ e
      → Ensures (Kept c) e (flush raw raw_start c)
  unfolding flush
  flush-Kept raw raw_start c h o =
      ground (arith, put_or_fail-Kept (append raw) c.position c e (omega arith))

  string_escape-Within :
      (c : Cursor) → end_of c ≡ e → length c.rest ≤ n → Within self e n (string_escape c)
  unfolding string_escape
  string_escape-Within c h k = go c.rest refl
    where
      go : (xs : List ℕ) → c.rest ≡ xs → Within self e n (string_escape c)
      go [] q = rw (q, string_escape) (omega arith)
      go (x ∷ rest) q =
          rw (q, string_escape)
            (escape_character-Within x (advance_to rest c) (omega (arith, ap length q))
              (omega (arith, ap length q)))

-- What a round of the loop leaves to the next.
abbrev Going : ℕ → ℕ → Round → Type 0
Going e n (return r) = Within self e n r
Going e n (continue s) = Stays e n s.cursor × (length s.cursor.rest + 1 ≤ n) × (s.raw_start ≤ e)

continue_if-Going :
    (e n m : ℕ) (r : Run Cursor) → m + 1 ≤ n → Within self e m r → Going e n (continue_if r)
continue_if-Going e n m (ok c) l h = ((h.0, omega arith), omega arith, omega arith)
continue_if-Going e n m (failed code offset events) l h = h
continue_if-Going e n m out_of_fuel l h = h

Round-cases : (r : Round) → ((x : Run Cursor) × (r ≡ return x)) ⊎ ((s : Loop) × (r ≡ continue s))
Round-cases (return x) = inl (x, refl)
Round-cases (continue s) = inr (s, refl)

module _ (start e : ℕ) (inside : start ≤ e) where
  string_round-Going :
      (s : Loop) (n : ℕ) → Stays e n s.cursor → s.raw_start ≤ e → Going e n (string_round start s)
  unfolding string_round
  string_round-Going s n h o = go s.cursor.rest refl
    where
      go : (xs : List ℕ) → s.cursor.rest ≡ xs → Going e n (string_round start s)
      go [] q = rw (q, string_round) inside
      go (x ∷ rest) q =
          let at = ap length q in
          let m = length rest in
          let flushed = flush-Kept e m s.raw s.raw_start s.cursor h.0 o in
          let closed =
            >>=-Ensures (Kept s.cursor) (Stays e n) e _ (λ c'. ok (advance_to rest c')) flushed
              (λ c' w. omega arith) in
          let escaped =
            >>=-Ensures (Kept s.cursor) (Stays e m) e _ (λ c'. string_escape (advance_to rest c'))
              flushed
              (λ c' w. string_escape-Within e m (advance_to rest c') (omega arith) (omega arith)) in
          rw (q, string_round)
            (ground (arith, closed, continue_if-Going e n m _ (omega arith) escaped))

  string_loop-Within :
      (fuel : ℕ) (s : Loop) (n : ℕ)
      → n < fuel
      → Stays e n s.cursor
      → s.raw_start ≤ e
      → Within self e n (string_loop fuel start s)
  unfolding string_loop
  string_loop-Within zero s n f h o = absurd (omega arith)
  string_loop-Within (suc fuel) s n f h o =
      let g = string_round-Going s n h o in
      elim (Round-cases (string_round start s)) [
        | inl (x, q) ↦ rw (q, string_loop) (rw q at g)
        | inr (s', q) ↦
            let (a, b, c) : Going e n (continue s') = rw q at g in
            rw (q, string_loop)
              (Within-weaken self e (n - 1) n _ (omega arith)
                (string_loop-Within fuel s' (n - 1) (omega arith) (a.0, omega arith) c))
      ]

-- A string literal is read inside the input, and the rest is shorter.
pub parse_string-Within :
    (c : Cursor) (e n x : ℕ) (rest : List ℕ)
    → c.rest ≡ x ∷ rest
    → Stays e (n + 1) c
    → Within self e n (parse_string c)
unfolding parse_string
parse_string-Within c e n x rest q h =
    let at = ap length q in
    let opened : Cursor = advance_to rest (record c { buffer = clear c.buffer }) in
    let start : Loop = record { cursor = opened; raw = []; raw_start = c.position + 1 } in
    rw (q, parse_string)
      (Within-weaken self e (length rest) n _ (omega arith) (
        string_loop-Within c.position e (omega arith) (length rest + 1) start (length rest)
          (omega arith) (omega arith) (omega arith)))
