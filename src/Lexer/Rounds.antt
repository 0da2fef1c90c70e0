-- ===== src/Lexer/Rounds.antt =====
-- The rounds of lex_source keep the tokens in order and the directive spans among the tokens.
use server_entry.Prelude.{
  ℕ, suc, ◌+◌, ◌≤◌, ◌<◌, ◌≡◌, Bool, true, false, not, ◌&&◌, ◌||◌, List, [], ◌∷◌, ◌++◌, All,
  All-append, arith, ◌==◌, if◌then◌else◌, length, length-append, Option-cases, Bool-cases, inl, inr,
}
use server_entry.Prelude.Bits.{to_u32}
use server_entry.Lexer.{TokenKind, Punctuation, block_comment, Scanned, scanned, invalid, scan}
use server_entry.Lexer.Loop.{
  Lexer, Round, continue, fail, is_hash, token_of, end_directive, push, token_round, after_block,
  line_comment, slash, round,
}
use server_entry.Lexer.Order.{
  Ordered, Ordered-append, Ordered-raise, Ordered-length, IsSpan, IsSpan-raise, length-span,
  block_comment_end, Fits, scan-Fits,
}

-- A state of the loop in a source of `e` bytes.
pub record Sound (e : ℕ) (s : Lexer) : Type 0 where
  pub ordered : Ordered 0 s.output s.index
  pub ending : s.index + length s.rest ≡ e
  pub opened : s.directive_open ≡ true → s.directive_begin < length s.output
  pub spans : All (IsSpan (length s.output)) s.directives

-- A round goes on in a sound state with fewer bytes, or fails at a range within the source.
abbrev pub After : ℕ → ℕ → Round → Type 0
After e n (continue s) = Sound e s × (length s.rest ≤ n)
After e n (fail offset size) = (offset + size ≤ e) × (offset ≤ e)

-- The source has fewer than 2^32 bytes.
module _ (e : ℕ) (small : e ≤ 0xffffffff) where
  output_size : (s : Lexer) → Sound e s → length s.output ≤ e
  output_size s h = let a = h.ending in omega (arith, Ordered-length s.output 0 s.index h.ordered)

  -- The loop goes on behind bytes that make no token.
  moved :
      (s : Lexer) (rest : List ℕ) (index : ℕ) (b : Bool)
      → Sound e s
      → s.index ≤ index
      → index + length rest ≡ e
      → Sound e (record s { rest = rest; index = index; line_start = b })
  moved s rest index b h p q = record {
    ordered = Ordered-raise s.output 0 s.index index h.ordered p;
    ending = q;
    opened = h.opened;
    spans = h.spans;
  }

  pub end_directive-IsSpan :
      (s : Lexer) → Sound e s → All (IsSpan (length s.output)) (end_directive s)
  unfolding end_directive
  end_directive-IsSpan s h = elim (Bool-cases s.directive_open) [
    | inr n ↦ rw n (h.spans)
    | inl o ↦
        let size = output_size s h in
        let b = h.opened o in
        rw o (
          All-append (IsSpan (length s.output)) s.directives _ h.spans
            ((omega arith, omega arith), tt))
  ]

  new_line :
      (s : Lexer) (rest : List ℕ)
      → Sound e s
      → s.index + 1 + length rest ≡ e
      → Sound e (record s {
        rest = rest;
        index = s.index + 1;
        directives = end_directive s;
        directive_open = false;
        line_start = true;
      })
  new_line s rest h q = record {
    ordered = Ordered-raise s.output 0 s.index (s.index + 1) h.ordered (omega arith);
    ending = q;
    opened = λ o. absurd (ground arith);
    spans = end_directive-IsSpan s h;
  }

  push-Sound :
      (wanted : Bool) (s : Lexer) (kind : TokenKind) (p : Punctuation) (size : ℕ) (rest : List ℕ)
      → Sound e s
      → 1 ≤ size
      → s.index + size + length rest ≡ e
      → Sound e (push wanted s kind p size rest)
  push-Sound wanted s kind p size rest h l q =
      let a : to_u32 s.index ≡ s.index = omega arith in
      let b : to_u32 size ≡ size = omega arith in
      let c : to_u32 (length s.output) ≡ length s.output = omega (arith, output_size s h) in
      let t = token_of s kind p size in
      let n = length-append s.output (t ∷ []) in
      record {
        ordered =
            unfold push in
            Ordered-raise (s.output ++ (t ∷ [])) 0 (t.offset + t.length) (s.index + size)
              (Ordered-append s.output t 0 s.index h.ordered (omega (arith, a)) (omega (arith, b)))
              (omega (arith, a, b));
        ending = unfold push in q;
        opened = unfold push in opens (is_hash p && (s.line_start && wanted)) c n;
        spans =
            unfold push in
            IsSpan-raise (length s.output) (length (s.output ++ (t ∷ []))) s.directives
              (omega (arith, n)) h.spans;
      }
    where
      opens :
          (o : Bool)
          → to_u32 (length s.output) ≡ length s.output
          → length (s.output ++ (token_of s kind p size ∷ [])) ≡ length s.output + 1
          → (o || s.directive_open) ≡ true
          → (if o then to_u32 (length s.output) else s.directive_begin)
            < length (s.output ++ (token_of s kind p size ∷ []))
      opens true c n q = omega (arith, c, n)
      opens false c n q = omega (arith, h.opened q, n)

  token_round-After :
      (wanted : Bool) (s : Lexer) (n : ℕ) (t : Scanned)
      → Sound e s
      → length s.rest ≡ 1 + n
      → Fits (1 + n) t
      → After e n (token_round wanted s t)
  token_round-After wanted s n (scanned kind p size rest) h m f =
      let a = f.0 in
      let b = f.1 in
      let c = h.ending in
      (push-Sound wanted s kind p size rest h a (omega arith), unfold push in omega (arith, a, b))
  token_round-After wanted s n (invalid size) h m f = let c = h.ending in (omega arith, omega arith)

  after_block-After :
      (s : Lexer) (xs : List ℕ)
      → Sound e s
      → length s.rest ≡ 2 + length xs
      → After e (suc (length xs)) (after_block s (block_comment xs (s.index + 2) s.line_start))
  after_block-After s xs h m = elim (Option-cases (block_comment xs (s.index + 2) s.line_start)) [
    | inl none_left ↦ let c = h.ending in rw none_left (omega arith, omega arith)
    | inr ((rest, index, b), q) ↦
        let c = h.ending in
        let (p, l) = block_comment_end xs (s.index + 2) s.line_start rest index b q in
        rw q (moved s rest index b h (omega arith) (omega arith), omega arith)
  ]

  slash-After :
      (wanted : Bool) (s : Lexer) (rest : List ℕ)
      → Sound e s
      → length s.rest ≡ 1 + length rest
      → After e (length rest) (slash wanted s rest)
  unfolding slash line_comment
  slash-After wanted s [] h m = token_round-After wanted s 0 (scan b'/' []) h m (scan-Fits b'/' [])
  slash-After wanted s (y ∷ rest) h m = elim (Bool-cases (y == b'/')) [
    | inl line ↦
        let c = h.ending in
        let n = length-span (λ c. not (c == 10)) rest in
        rw line (moved s _ _ s.line_start h (omega arith) (omega arith), omega arith)
    | inr n ↦ elim (Bool-cases (y == b'*')) [
      | inl star ↦ rw (n, star) (after_block-After s rest h (omega arith))
      | inr other ↦
          rw (n, other)
            (token_round-After wanted s (length (y ∷ rest)) (scan b'/' (y ∷ rest)) h m
              (scan-Fits b'/' (y ∷ rest)))
    ]
  ]

  pub round-After :
      (wanted : Bool) (s : Lexer) (x : ℕ) (rest : List ℕ)
      → Sound e s
      → length s.rest ≡ 1 + length rest
      → After e (length rest) (round wanted s x rest)
  unfolding round
  round-After wanted s x rest h m = elim (Bool-cases (x == 32 || (x == 9 || x == 13))) [
    | inl b ↦
        let c = h.ending in
        rw b (moved s rest (s.index + 1) s.line_start h (omega arith) (omega arith), omega arith)
    | inr b ↦ elim (Bool-cases (x == 10)) [
      | inl l ↦ let c = h.ending in rw (b, l) (new_line s rest h (omega arith), omega arith)
      | inr l ↦ elim (Bool-cases (x == b'/')) [
        | inl d ↦ rw (b, l, d) (slash-After wanted s rest h m)
        | inr d ↦
            rw (b, l, d)
              (token_round-After wanted s (length rest) (scan x rest) h m (scan-Fits x rest))
      ]
    ]
  ]
