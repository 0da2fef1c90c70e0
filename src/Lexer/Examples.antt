-- ===== src/Lexer/Examples.antt =====
-- Runs of lex_source on small sources.
use server_entry.Prelude.{ℕ, ◌≡◌, refl, true, List, [], ◌∷◌, Option, none, some, map, length}
use Prim.Native.String.{String}
use Prim.Native.Char.{code}
use server_entry.Lexer.{
  DirectiveSpan, Token, identifier_start, decimal_digit, identifier_kind, punctuation_of, span,
  block_comment, scan,
}
use server_entry.Lexer.Loop.{
  Outcome, end_directive, push, line_comment, slash, round, finish, lex_loop, lex_source,
}
use server_entry.Lexer.Runs.{Correct, lex_source-Correct}

abbrev codes : String → List ℕ
codes String.[] = []
codes (String.◌∷◌ c s) = code c ∷ codes s

program : Unit {0}
unfolding identifier_start decimal_digit identifier_kind punctuation_of span block_comment scan
    end_directive push line_comment slash round finish lex_loop lex_source
program = tt

abbrev place : Token → ℕ × ℕ
place t = (t.offset, t.length)

abbrev extent : DirectiveSpan → ℕ × ℕ
extent d = (d.token_begin, d.token_end)

abbrev places : Option Outcome → List (ℕ × ℕ)
places none = []
places (some o) = map place o.tokens

abbrev extents : Option Outcome → List (ℕ × ℕ)
extents none = []
extents (some o) = map extent o.spans

abbrev reported : Option Outcome → Option (ℕ × ℕ)
reported none = none
reported (some o) = o.diagnostic

abbrev included : List ℕ
included = codes "#include \"a\" // x\nenum E { A = 10 };"

tokens :
    places (lex_source true true true included)
    ≡ (0, 1)
      ∷ (1, 7)
      ∷ (9, 3)
      ∷ (18, 4)
      ∷ (23, 1)
      ∷ (25, 1)
      ∷ (27, 1)
      ∷ (29, 1)
      ∷ (31, 2)
      ∷ (34, 1)
      ∷ (35, 1)
      ∷ (36, 0)
      ∷ []
unfolding program
tokens = refl

directive : extents (lex_source true true true included) ≡ (0, 3) ∷ []
unfolding program
directive = refl

unterminated : reported (lex_source true true true (codes "a \"b\n")) ≡ some (2, 2)
unfolding program
unterminated = refl

-- A line feed in a block comment, and a hash behind it: the first directive has no span.
lost_directive : extents (lex_source true true true (codes "#a /*\n*/ #b\n")) ≡ (2, 4) ∷ []
unfolding program
lost_directive = refl

lex_source-Correct_example :
    (o : Outcome) × (lex_source true true true included ≡ some o) × Correct (length included) o
lex_source-Correct_example = lex_source-Correct true true true included
