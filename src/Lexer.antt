-- ===== src/Lexer.antt =====
-- project/parser/token.hpp and lexer.cpp: lex_source. The bytes are numbers below 256, `rest` is the
-- source from `index` on. `wanted` is the test for a null `directives`.
pub mod Loop
pub mod Order
pub mod Rounds
pub mod Runs
mod Examples
use server_entry.Prelude.{
  ℕ, zero, suc, ◌+◌, ◌≡◌, Bool, true, false, not, ◌&&◌, ◌||◌, List, [], ◌∷◌, ◌++◌, Option, none,
  some, leb, ltb, ◌==◌, if◌then◌else◌, length, between, bytes_eq,
}
use server_entry.Prelude.Bits.{to_u32}
use server_entry.Strings.{Status, ok, initialization_failed, configuration_failed}

pub data TokenKind : Type 0 where
  eof identifier integer_literal keyword_namespace keyword_enum keyword_class : TokenKind
  keyword_struct string_literal punctuation : TokenKind

pub data Punctuation : Type 0 where
  no_punctuation left_brace right_brace semicolon colon comma equal plus minus hash : Punctuation
  ampersand asterisk left_bracket right_bracket : Punctuation

pub record Token : Type 0 where
  pub offset : ℕ
  pub length : ℕ
  pub kind : TokenKind
  pub punctuation : Punctuation
  pub flags : ℕ

pub record DirectiveSpan : Type 0 where
  pub token_begin : ℕ
  pub token_end : ℕ

unfoldable pub identifier_start : ℕ → Bool
identifier_start value = between b'a' b'z' value || (between b'A' b'Z' value || value == b'_')

unfoldable pub decimal_digit : ℕ → Bool
decimal_digit value = between b'0' b'9' value

unfoldable pub identifier_kind : List ℕ → TokenKind
identifier_kind text =
    if bytes_eq text (b'n' ∷ b'a' ∷ b'm' ∷ b'e' ∷ b's' ∷ b'p' ∷ b'a' ∷ b'c' ∷ b'e' ∷ [])
    then keyword_namespace
    else if bytes_eq text (b'e' ∷ b'n' ∷ b'u' ∷ b'm' ∷ [])
    then keyword_enum
    else if bytes_eq text (b'c' ∷ b'l' ∷ b'a' ∷ b's' ∷ b's' ∷ [])
    then keyword_class
    else if bytes_eq text (b's' ∷ b't' ∷ b'r' ∷ b'u' ∷ b'c' ∷ b't' ∷ [])
    then keyword_struct
    else identifier

-- `switch (character)`
unfoldable pub punctuation_of : ℕ → Option Punctuation
punctuation_of c =
    if c == b'{'
    then some left_brace
    else if c == b'}'
    then some right_brace
    else if c == b';'
    then some semicolon
    else if c == b':'
    then some colon
    else if c == b','
    then some comma
    else if c == b'='
    then some equal
    else if c == b'+'
    then some plus
    else if c == b'-'
    then some minus
    else if c == b'#'
    then some hash
    else if c == b'&'
    then some ampersand
    else if c == b'*'
    then some asterisk
    else if c == b'['
    then some left_bracket
    else if c == b']'
    then some right_bracket
    else none

-- The bytes in front that pass a test, and what is left: the loops that scan a token or a comment.
unfoldable pub span : (ℕ → Bool) → List ℕ → List ℕ × List ℕ
span test [] = ([], [])
span test (x ∷ xs) =
    let (taken, left) = span test xs in if test x then (x ∷ taken, left) else ([], x ∷ xs)

-- The loop in a block comment: the source behind it, its position, and `line_start`.
unfoldable pub block_comment : List ℕ → ℕ → Bool → Option (List ℕ × ℕ × Bool)
block_comment [] index line_start = none
block_comment (x ∷ []) index line_start = none
block_comment (x ∷ y ∷ rest) index line_start =
    let more = block_comment (y ∷ rest) (index + 1) (x == 10 || line_start) in
    if x == b'*' && y == b'/' then some (rest, index + 2, line_start) else more

-- A token behind its first byte, or the length of the range that is reported.
pub data Scanned : Type 0 where
  scanned : TokenKind → Punctuation → ℕ → List ℕ → Scanned
  invalid : ℕ → Scanned

abbrev pub close_string : List ℕ → List ℕ → Scanned
close_string body [] = invalid (1 + length body)
close_string body (x ∷ rest) =
    if x == b'"'
    then scanned string_literal no_punctuation (2 + length body) rest
    else invalid (1 + length body)

abbrev pub scan_punctuation : Option Punctuation → List ℕ → Scanned
scan_punctuation none rest = invalid 1
scan_punctuation (some p) rest = scanned punctuation p 1 rest

unfoldable pub scan : ℕ → List ℕ → Scanned
scan character rest =
    if identifier_start character
    then (let (more, left) = span (λ c. identifier_start c || decimal_digit c) rest in
        scanned (identifier_kind (character ∷ more)) no_punctuation (1 + length more) left)
    else if decimal_digit character
    then (let (more, left) = span decimal_digit rest in
        scanned integer_literal no_punctuation (1 + length more) left)
    else if character == b'"'
    then (let (body, left) = span (λ c. not (c == b'"') && not (c == 10)) rest in
        close_string body left)
    else scan_punctuation (punctuation_of character) rest
