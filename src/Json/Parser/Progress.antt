-- ===== src/Json/Parser/Progress.antt =====
-- How far the parser reads: a run ends within the input, and its error offset does not lie outside.
pub mod Strings
pub mod Numbers
pub mod Documents
use server_entry.Prelude.{
  ℕ, zero, suc, ◌+◌, ◌<◌, ◌≤◌, ◌≡◌, refl, List, [], ◌∷◌, Option, none, some, arith, length,
  if◌then◌else◌, ◌==◌, Bool, true, false,
}
use server_entry.Json.Ascii.{json_is_whitespace}
use server_entry.Json.Buffer.{Append}
use server_entry.Json.Parser.{
  Cursor, Run, ok, failed, out_of_fuel, ◌>>=◌, skip, whitespace, after_literal, advance_by,
  consume_literal,
}
use server_entry.Json.Parser.Text.{put_or_fail}

-- The end of the input, as a cursor has it.
abbrev pub end_of : Cursor → ℕ
end_of c = c.position + length c.rest

-- `P` holds of what a run returns, an error offset is at most `e`, and the fuel is enough.
abbrev pub Ensures {ℓ} : {A : Type ℓ} → (A → Type 0) → ℕ → Run A → Type 0
Ensures P e (ok a) = P a
Ensures P e (failed code offset events) = offset ≤ e
Ensures P e out_of_fuel = ⊥

abbrev pub self : Cursor → Cursor
self c = c

abbrev pub Stays : ℕ → ℕ → Cursor → Type 0
Stays e n c = (end_of c ≡ e) × (length c.rest ≤ n)

-- A run stays in an input that ends at `e`, and leaves at most `n` characters.
abbrev pub Within {ℓ} : {A : Type ℓ} → (A → Cursor) → ℕ → ℕ → Run A → Type 0
Within cursor e n = Ensures (λ a. Stays e n (cursor a)) e

pub >>=-Ensures {ℓ κ} :
    {A : Type ℓ} {B : Type κ} (P : A → Type 0) (Q : B → Type 0) (e : ℕ) (r : Run A) (f : A → Run B)
    → Ensures P e r
    → ((a : A) → P a → Ensures Q e (f a))
    → Ensures Q e (r >>= f)
>>=-Ensures P Q e (ok a) f h k = k a h
>>=-Ensures P Q e (failed code offset events) f h k = h
>>=-Ensures P Q e out_of_fuel f h k = h

pub >>=-Within {ℓ κ} :
    {A : Type ℓ} {B : Type κ} (p : A → Cursor) (q : B → Cursor) (e n m : ℕ) (r : Run A)
    (f : A → Run B)
    → Within p e n r
    → ((a : A) → end_of (p a) ≡ e → length (p a).rest ≤ n → Within q e m (f a))
    → Within q e m (r >>= f)
>>=-Within p q e n m r f h k = >>=-Ensures _ _ e r f h (λ a w. k a w.0 w.1)

pub Within-weaken {ℓ} :
    {A : Type ℓ} (p : A → Cursor) (e n m : ℕ) (r : Run A) → n ≤ m → Within p e n r → Within p e m r
Within-weaken p e n m (ok a) h w = (w.0, omega arith)
Within-weaken p e n m (failed code offset events) h w = w
Within-weaken p e n m out_of_fuel h w = w

skip_end :
    (xs : List ℕ) (c : Cursor)
    → (end_of (skip xs c) ≡ c.position + length xs) × (length (skip xs c).rest ≤ length xs)
unfolding skip
skip_end [] c = (refl, omega arith)
skip_end (x ∷ xs) c = ground (arith, skip_end xs (record c { position = c.position + 1 }))

-- Skipping whitespace moves the cursor inside the input.
pub whitespace_end :
    (c : Cursor) → (end_of (whitespace c) ≡ end_of c) × (length (whitespace c).rest ≤ length c.rest)
unfolding whitespace
whitespace_end c = skip_end c.rest c

after_literal_end :
    (literal rest left : List ℕ) (position : ℕ)
    → after_literal literal rest ≡ some left
    → (advance_by literal position + length left ≡ position + length rest)
      × (length left ≤ length rest)
unfolding after_literal
after_literal_end [] rest left position h = ground arith
after_literal_end (x ∷ xs) [] left position h = ground arith
after_literal_end (x ∷ xs) (y ∷ rest) left position h =
    ground (arith, after_literal_end xs rest left (position + 1))

pub consume_literal-Within :
    (literal : List ℕ) (c : Cursor) (e n : ℕ)
    → end_of c ≡ e
    → length c.rest ≤ n
    → Within self e n (consume_literal literal c)
unfolding consume_literal
consume_literal-Within literal c e n h k = go (after_literal literal c.rest) refl
  where
    go :
        (o : Option (List ℕ))
        → after_literal literal c.rest ≡ o
        → Within self e n (consume_literal literal c)
    go none q = rw (q, consume_literal) (omega arith)
    go (some left) q =
        rw (q, consume_literal) (omega (arith, after_literal_end literal c.rest left c.position q))

pub put_or_fail-Within :
    (p : Append) (offset : ℕ) (c : Cursor) (e n : ℕ)
    → end_of c ≡ e
    → length c.rest ≤ n
    → offset ≤ e
    → Within self e n (put_or_fail p offset c)
put_or_fail-Within p offset c e n h k o = ground arith

-- Only the buffer changes.
abbrev pub Kept : Cursor → Cursor → Type 0
Kept c c' = (c'.rest ≡ c.rest) × (c'.position ≡ c.position)

pub put_or_fail-Kept :
    (p : Append) (offset : ℕ) (c : Cursor) (e : ℕ)
    → offset ≤ e
    → Ensures (Kept c) e (put_or_fail p offset c)
put_or_fail-Kept p offset c e o = ground arith
