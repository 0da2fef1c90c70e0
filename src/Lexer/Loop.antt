-- ===== src/Lexer/Loop.antt =====
-- The loop of lex_source.
use server_entry.Prelude.{
  ℕ, zero, suc, ◌+◌, Bool, true, false, not, ◌&&◌, ◌||◌, List, [], ◌∷◌, ◌++◌, Option, none, some,
  ltb, ◌==◌, if◌then◌else◌, length,
}
use server_entry.Prelude.Bits.{to_u32}
use server_entry.Strings.{Status, ok, initialization_failed, configuration_failed}
use server_entry.Lexer.{
  TokenKind, eof, Punctuation, no_punctuation, hash, Token, DirectiveSpan, span, block_comment,
  Scanned, scanned, invalid, scan,
}

-- The variables of the loop and the two outputs.
pub record Lexer : Type 0 where
  pub rest : List ℕ
  pub index : ℕ
  pub line_start : Bool
  pub directive_open : Bool
  pub directive_begin : ℕ
  pub output : List Token
  pub directives : List DirectiveSpan

-- What a run leaves: the outputs, the status, and the range of the diagnostic that is emitted.
pub record Outcome : Type 0 where
  pub tokens : List Token
  pub spans : List DirectiveSpan
  pub status : Status
  pub diagnostic : Option (ℕ × ℕ)

-- A round goes on or fails at a range.
pub data Round : Type 0 where
  continue : Lexer → Round
  fail : ℕ → ℕ → Round

abbrev pub is_hash : Punctuation → Bool
is_hash hash = true
is_hash p = false

-- `directives->push_back({directive_begin, output.size()})` where a directive is open.
unfoldable pub end_directive : Lexer → List DirectiveSpan
end_directive s =
    if s.directive_open
    then s.directives
      ++ (record { token_begin = s.directive_begin; token_end = to_u32 (length s.output) } ∷ [])
    else s.directives

-- `parser_token token` with its members set.
abbrev pub token_of : Lexer → TokenKind → Punctuation → ℕ → Token
token_of s kind p size = record {
  offset = to_u32 s.index;
  length = to_u32 size;
  kind = kind;
  punctuation = p;
  flags = if s.line_start then 1 else 0;
}

-- The token is pushed; a hash at the start of a line opens a directive.
unfoldable pub push : Bool → Lexer → TokenKind → Punctuation → ℕ → List ℕ → Lexer
push wanted s kind p size rest =
    let opens = is_hash p && (s.line_start && wanted) in
    record s {
      rest = rest;
      index = s.index + size;
      line_start = false;
      directive_open = opens || s.directive_open;
      directive_begin = if opens then to_u32 (length s.output) else s.directive_begin;
      output = s.output ++ (token_of s kind p size ∷ []);
    }

abbrev pub token_round : Bool → Lexer → Scanned → Round
token_round wanted s (scanned kind p size rest) = continue (push wanted s kind p size rest)
token_round wanted s (invalid size) = fail s.index size

abbrev pub after_block : Lexer → Option (List ℕ × ℕ × Bool) → Round
after_block s none = fail s.index (length s.rest)
after_block s (some (rest, index, line_start)) =
    continue (record s { rest = rest; index = index; line_start = line_start })

unfoldable pub line_comment : Lexer → List ℕ → Round
line_comment s rest =
    let (skipped, left) = span (λ c. not (c == 10)) rest in
    continue (record s { rest = left; index = s.index + 2 + length skipped })

-- A slash: a comment, or an invalid byte.
unfoldable pub slash : Bool → Lexer → List ℕ → Round
slash wanted s [] = token_round wanted s (scan b'/' [])
slash wanted s (y ∷ rest) =
    if y == b'/'
    then line_comment s rest
    else if y == b'*'
    then after_block s (block_comment rest (s.index + 2) s.line_start)
    else token_round wanted s (scan b'/' (y ∷ rest))

-- One round at `character`, with `rest` behind it.
unfoldable pub round : Bool → Lexer → ℕ → List ℕ → Round
round wanted s character rest =
    if character == 32 || (character == 9 || character == 13)
    then continue (record s { rest = rest; index = s.index + 1 })
    else if character == 10
    then continue (record s {
      rest = rest;
      index = s.index + 1;
      directives = end_directive s;
      directive_open = false;
      line_start = true;
    })
    else if character == b'/'
    then slash wanted s rest
    else token_round wanted s (scan character rest)

-- `return fail(...)`; `emitted` says whether the diagnostic can be stored. The outputs stay as they
-- are.
abbrev pub invalid_source : Bool → Lexer → ℕ → ℕ → Outcome
invalid_source emitted s offset size = record {
  tokens = s.output;
  spans = s.directives;
  status = if emitted then configuration_failed else initialization_failed;
  diagnostic = if emitted then some (to_u32 offset, to_u32 size) else none;
}

-- The token behind the last one.
abbrev pub end_of_file : ℕ → Token
end_of_file offset = record {
  offset = offset;
  length = 0;
  kind = eof;
  punctuation = no_punctuation;
  flags = 0;
}

-- The end of the run: the last directive and the end of file.
unfoldable pub finish : Lexer → Outcome
finish s = record {
  tokens = s.output ++ (end_of_file (to_u32 s.index) ∷ []);
  spans = end_directive s;
  status = ok;
  diagnostic = none;
}

-- The loop. `none` is the want of fuel.
unfoldable pub lex_loop : Bool → Bool → ℕ → Lexer → Option Outcome
lex_loop emitted wanted zero s = none
lex_loop emitted wanted (suc fuel) s = elim s.rest [
  | [] ↦ some (finish s)
  | x ∷ rest ↦ elim (round wanted s x rest) [
    | continue s' ↦ lex_loop emitted wanted fuel s'
    | fail offset size ↦ some (invalid_source emitted s offset size)
  ]
]

abbrev pub start : List ℕ → Lexer
start bytes = record {
  rest = bytes;
  index = 0;
  line_start = true;
  directive_open = false;
  directive_begin = 0;
  output = [];
  directives = [];
}

-- The `catch` clears the outputs.
abbrev pub out_of_memory : Outcome
out_of_memory = record {
  tokens = [];
  spans = [];
  status = initialization_failed;
  diagnostic = none;
}

-- `allocated` says whether the allocations of the run succeed. Each round consumes a byte at least,
-- so a round for each byte and one more is enough.
unfoldable pub lex_source : Bool → Bool → Bool → List ℕ → Option Outcome
lex_source allocated emitted wanted bytes =
    if ltb 0xffffffff (length bytes)
    then some (invalid_source emitted (start []) 0 0)
    else if allocated
    then lex_loop emitted wanted (length bytes + 1) (start bytes)
    else some out_of_memory
