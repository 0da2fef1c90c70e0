-- ===== src/Lexer/Runs.antt =====
-- What a run of lex_source says of the source.
use server_entry.Prelude.{
  ℕ, zero, suc, ◌+◌, ◌≤◌, ◌<◌, ◌≡◌, ◌⊎◌, refl, ap, Bool, true, false, List, [], ◌∷◌, ◌++◌, none,
  some, All, arith, length, dec_lt, Bool-cases, inl, inr, subst,
}
use server_entry.Prelude.Bits.{to_u32}
use server_entry.Strings.{ok, configuration_failed, initialization_failed}
use server_entry.Lexer.{Token}
use server_entry.Lexer.Loop.{
  Lexer, Outcome, Round, continue, fail, end_directive, round, finish, end_of_file, lex_loop, start,
  lex_source, invalid_source, out_of_memory,
}
use server_entry.Lexer.Order.{Ordered, Ordered-raise, IsSpan}
use server_entry.Lexer.Rounds.{Sound, After, end_directive-IsSpan, round-After}

bytes_cases : (xs : List ℕ) → (xs ≡ []) ⊎ ((x : ℕ) × (rest : List ℕ) × (xs ≡ x ∷ rest))
bytes_cases [] = inl refl
bytes_cases (x ∷ rest) = inr (x, rest, refl)

Round-cases :
    (r : Round)
    → ((s : Lexer) × (r ≡ continue s)) ⊎ ((offset : ℕ) × (size : ℕ) × (r ≡ fail offset size))
Round-cases (continue s) = inl (s, refl)
Round-cases (fail offset size) = inr (offset, size, refl)

-- A run that succeeds with `tokens`, all within a source of `e` bytes.
abbrev pub Lexed : ℕ → Outcome → Type 0
Lexed e o =
    (o.status ≡ ok)
    × (o.diagnostic ≡ none)
    × (ts : List Token) × (o.tokens ≡ ts ++ (end_of_file e ∷ []))
    × Ordered 0 ts e
    × All (IsSpan (length ts)) o.spans

-- A run that gives up with the diagnostic of a range of the source.
abbrev pub Diagnosed : ℕ → Outcome → Type 0
Diagnosed e o =
    (o.status ≡ configuration_failed)
    × (offset : ℕ) × (size : ℕ) × (o.diagnostic ≡ some (offset, size))
    × (offset + size ≤ e)
    × Ordered 0 o.tokens e
    × All (IsSpan (length o.tokens)) o.spans

-- A run without the memory for its outputs or for its diagnostic.
abbrev pub Starved : ℕ → Outcome → Type 0
Starved e o =
    (o.status ≡ initialization_failed)
    × (o.diagnostic ≡ none)
    × Ordered 0 o.tokens e
    × All (IsSpan (length o.tokens)) o.spans

-- What a run says of a source of `e` bytes.
abbrev pub Correct : ℕ → Outcome → Type 0
Correct e o = Lexed e o ⊎ (Diagnosed e o ⊎ Starved e o)

-- The source has fewer than 2^32 bytes.
module _ (e : ℕ) (small : e ≤ 0xffffffff) where
  finish-Correct : (s : Lexer) → Sound e s → s.rest ≡ [] → Correct e (finish s)
  unfolding finish
  finish-Correct s h r =
      let c = h.ending in
      let n : s.index ≡ e = omega (arith, ap length r) in
      let m : to_u32 s.index ≡ e = omega (arith, n) in
      inl (
        refl,
        refl,
        s.output,
        ap (λ k. s.output ++ (end_of_file k ∷ [])) m,
        subst (Ordered 0 s.output) n h.ordered,
        end_directive-IsSpan e small s h,
      )

  refused :
      (emitted : Bool) (s : Lexer) (offset size : ℕ)
      → Sound e s
      → offset + size ≤ e
      → Correct e (invalid_source emitted s offset size)
  refused emitted s offset size h l =
      let a : to_u32 offset ≡ offset = omega arith in
      let b : to_u32 size ≡ size = omega arith in
      let c = h.ending in
      let tokens = Ordered-raise s.output 0 s.index e h.ordered (omega arith) in
      elim (Bool-cases emitted) [
        | inl m ↦ inr (
            inl
              (rw m (refl, to_u32 offset, to_u32 size, refl, omega (arith, a, b), tokens, h.spans)))
        | inr m ↦ inr (inr (rw m (refl, refl, tokens, h.spans)))
      ]

  lex_loop-Correct :
      (emitted wanted : Bool) (fuel : ℕ) (s : Lexer)
      → Sound e s
      → length s.rest < fuel
      → (o : Outcome) × (lex_loop emitted wanted fuel s ≡ some o) × Correct e o
  unfolding lex_loop finish end_directive
  lex_loop-Correct emitted wanted zero s h l = absurd (omega arith)
  lex_loop-Correct emitted wanted (suc fuel) s h l = elim (bytes_cases s.rest) [
    | inl q ↦ (finish s, rw (q, lex_loop) refl, finish-Correct s h q)
    | inr (x, rest, q) ↦
        let after = round-After e small wanted s x rest h (omega (arith, ap length q)) in
        elim (Round-cases (round wanted s x rest)) [
          | inl (s', k) ↦
              let (sound, left) = subst (After e (length rest)) k after in
              let (o, run, c) =
                lex_loop-Correct emitted wanted fuel s' sound (omega (arith, ap length q)) in
              (o, rw (q, k, lex_loop) run, c)
          | inr (offset, size, k) ↦
              let (within, start) = subst (After e (length rest)) k after in
              (
                invalid_source emitted s offset size,
                rw (q, k, lex_loop) refl,
                refused emitted s offset size h within,
              )
        ]
  ]

too_large : (e : ℕ) (emitted : Bool) → Correct e (invalid_source emitted (start []) 0 0)
too_large e true = inr (inl (refl, 0, 0, refl, omega arith, omega arith, tt))
too_large e false = inr (inr (refl, refl, omega arith, tt))

-- lex_source always returns, on every source and whatever fails, and what it outputs lies within the
-- source: the tokens stand in order, none is empty and none overlaps another, and each directive
-- span has a token at least and lies among them. Where it succeeds, there is no diagnostic, and the
-- end of file is behind the tokens. Where it refuses the source, there is a diagnostic, and its range
-- lies within the source. Where the memory is wanting, there is none.
pub lex_source-Correct :
    (allocated emitted wanted : Bool) (bytes : List ℕ)
    → (o : Outcome) × (lex_source allocated emitted wanted bytes ≡ some o)
      × Correct (length bytes) o
unfolding lex_source
lex_source-Correct allocated emitted wanted bytes = elim (dec_lt 0xffffffff (length bytes)) [
  | yes large ↦
      (invalid_source emitted (start []) 0 0, ground arith, too_large (length bytes) emitted)
  | no fits ↦ elim (Bool-cases allocated) [
    | inr no_memory ↦
        (out_of_memory, ground (arith, no_memory), inr (inr (refl, refl, omega arith, tt)))
    | inl memory ↦
        let (o, run, c) =
          lex_loop-Correct (length bytes) (omega arith) emitted wanted (length bytes + 1)
            (start bytes)
            (record {
              ordered = omega arith;
              ending = omega arith;
              opened = λ q. absurd (ground arith);
              spans = tt;
            })
            (omega arith) in
        (o, ground (arith, memory, run), c)
  ]
]
