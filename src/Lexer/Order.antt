-- ===== src/Lexer/Order.antt =====
-- Where the tokens stand in the source, and the directive spans among the tokens.
use server_entry.Prelude.{
  ℕ, ◌+◌, ◌≤◌, ◌<◌, ◌≡◌, refl, Bool, not, ◌&&◌, ◌||◌, List, [], ◌∷◌, ◌++◌, Option, none, some, All,
  arith, ◌==◌, length, Bool-cases, inl, inr, subst,
}
use server_entry.Lexer.{
  Punctuation, Token, DirectiveSpan, span, block_comment, Scanned, scanned, invalid, scan,
  close_string, scan_punctuation, identifier_start, decimal_digit, punctuation_of,
}

-- The tokens stand in order between two positions, none overlaps another, and none is empty.
abbrev pub Ordered : ℕ → List Token → ℕ → Type 0
Ordered low [] high = low ≤ high
Ordered low (t ∷ ts) high =
    (low ≤ t.offset) × (1 ≤ t.length) × Ordered (t.offset + t.length) ts high

pub Ordered-append :
    (ts : List Token) (t : Token) (low high : ℕ)
    → Ordered low ts high
    → high ≤ t.offset
    → 1 ≤ t.length
    → Ordered low (ts ++ (t ∷ [])) (t.offset + t.length)
Ordered-append [] t low high h p q = (omega arith, q, omega arith)
Ordered-append (u ∷ ts) t low high h p q =
    (h.0, h.1, Ordered-append ts t (u.offset + u.length) high h.2 p q)

pub Ordered-raise :
    (ts : List Token) (low high top : ℕ) → Ordered low ts high → high ≤ top → Ordered low ts top
Ordered-raise [] low high top h p = omega arith
Ordered-raise (u ∷ ts) low high top h p =
    (h.0, h.1, Ordered-raise ts (u.offset + u.length) high top h.2 p)

pub Ordered-length : (ts : List Token) (low high : ℕ) → Ordered low ts high → low + length ts ≤ high
Ordered-length [] low high h = omega arith
Ordered-length (u ∷ ts) low high h =
    let a = h.0 in let b = h.1 in omega (arith, Ordered-length ts (u.offset + u.length) high h.2)

-- A directive has a token at least, and lies within the first `n`.
abbrev pub IsSpan : ℕ → DirectiveSpan → Type 0
IsSpan n d = (d.token_begin < d.token_end) × (d.token_end ≤ n)

pub IsSpan-raise :
    (n m : ℕ) (ds : List DirectiveSpan) → n ≤ m → All (IsSpan n) ds → All (IsSpan m) ds
IsSpan-raise n m [] p h = tt
IsSpan-raise n m (d ∷ ds) p h =
    let a = h.0.0 in let b = h.0.1 in ((omega arith, omega arith), IsSpan-raise n m ds p h.1)

pub length-span :
    (test : ℕ → Bool) (xs : List ℕ) → length (span test xs).0 + length (span test xs).1 ≡ length xs
unfolding span
length-span test [] = refl
length-span test (x ∷ xs) = ground (arith, length-span test xs)

pub block_comment_end :
    (xs : List ℕ) (index : ℕ) (b : Bool) (rest : List ℕ) (index' : ℕ) (b' : Bool)
    → block_comment xs index b ≡ some (rest, index', b')
    → (index' + length rest ≡ index + length xs) × (length rest ≤ length xs)
unfolding block_comment
block_comment_end [] index b rest index' b' h = ground arith
block_comment_end (x ∷ []) index b rest index' b' h = ground arith
block_comment_end (x ∷ y ∷ xs) index b rest index' b' h =
    ground (arith, block_comment_end (y ∷ xs) (index + 1) (x == 10 || b) rest index' b')

-- A scanned token and what is left make up `n` bytes.
abbrev pub Fits : ℕ → Scanned → Type 0
Fits n (scanned kind p size rest) = (1 ≤ size) × (size + length rest ≡ n)
Fits n (invalid size) = size ≤ n

close_string-Fits :
    (body left : List ℕ) → Fits (1 + length body + length left) (close_string body left)
close_string-Fits body [] = omega arith
close_string-Fits body (x ∷ left) = ground arith

scan_punctuation-Fits :
    (o : Option Punctuation) (rest : List ℕ) → Fits (1 + length rest) (scan_punctuation o rest)
scan_punctuation-Fits none rest = omega arith
scan_punctuation-Fits (some p) rest = (omega arith, refl)

pub scan-Fits : (c : ℕ) (rest : List ℕ) → Fits (1 + length rest) (scan c rest)
unfolding scan
scan-Fits c rest = elim (Bool-cases (identifier_start c)) [
  | inl a ↦
      rw a
        (omega arith, omega (arith, length-span (λ c. identifier_start c || decimal_digit c) rest))
  | inr a ↦ elim (Bool-cases (decimal_digit c)) [
    | inl d ↦ rw (a, d) (omega arith, omega (arith, length-span decimal_digit rest))
    | inr d ↦ elim (Bool-cases (c == b'"')) [
      | inl q ↦
          let test = λ (c : ℕ). not (c == b'"') && not (c == 10) in
          let n : 1 + length (span test rest).0 + length (span test rest).1 ≡ 1 + length rest =
            omega (arith, length-span test rest) in
          rw (a, d, q)
            (subst (λ n. Fits n (close_string (span test rest).0 (span test rest).1)) n
              (close_string-Fits (span test rest).0 (span test rest).1))
      | inr q ↦ rw (a, d, q) (scan_punctuation-Fits (punctuation_of c) rest)
    ]
  ]
]
