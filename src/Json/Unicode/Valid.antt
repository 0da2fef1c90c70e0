-- ===== src/Json/Unicode/Valid.antt =====
-- json_valid_utf8 decides whether a byte sequence encodes a sequence of scalar values.
use server_entry.Prelude.{
  ℕ, zero, suc, ◌<◌, ◌≤◌, ◌≡◌, ◌↔◌, inl, inr, refl, true, false, List, [], ◌∷◌, ◌++◌, none, some,
  All, leb, if◌then◌else◌, arith, length, length-append, Option-cases, ap, ◌∙◌, sym, dec_lt, subst,
}
use server_entry.Json.Unicode.{sequence, valid_utf8_from, json_valid_utf8}
use server_entry.Json.Unicode.Encoding.{IsScalar, encoding}
use server_entry.Json.Unicode.Validation.{IsByte, encode, valid_utf8_from-encoding}
use server_entry.Json.Unicode.Sound.{Encoded, sequence-Encoded}

All-right {ℓ κ} : {A : Type ℓ} (P : A → Type κ) (xs ys : List A) → All P (xs ++ ys) → All P ys
All-right P [] ys h = h
All-right P (x ∷ xs) ys h = All-right P xs ys h.1

-- The scalar values that a byte sequence encodes.
pub record Text (bytes : List ℕ) : Type 0 where
  pub scalars : List ℕ
  pub all_scalar : All IsScalar scalars
  pub encoded : bytes ≡ encode scalars

-- What one round consumes.
round-Encoded :
    (b : ℕ) (bytes rest : List ℕ)
    → All IsByte (b ∷ bytes)
    → (if leb b 0x7f then some bytes else sequence b bytes) ≡ some rest
    → Encoded (b ∷ bytes) rest
round-Encoded b bytes rest hb h = elim (dec_lt b 0x80) [
  | yes lo ↦ (b, ground arith, unfold encoding in ground arith)
  | no hi ↦ sequence-Encoded b bytes rest hb.1 (ground arith)
]

valid_utf8_from_next :
    (f b : ℕ) (bytes rest : List ℕ)
    → (if leb b 0x7f then some bytes else sequence b bytes) ≡ some rest
    → valid_utf8_from (suc f) (b ∷ bytes) ≡ true
    → valid_utf8_from f rest ≡ true
unfolding valid_utf8_from
valid_utf8_from_next f b bytes rest e h = rw (e, valid_utf8_from) at h

valid_utf8_from_stop :
    (f b : ℕ) (bytes : List ℕ)
    → (if leb b 0x7f then some bytes else sequence b bytes) ≡ none
    → valid_utf8_from (suc f) (b ∷ bytes) ≡ false
unfolding valid_utf8_from
valid_utf8_from_stop f b bytes e = rw (e, valid_utf8_from)

valid_utf8_from-Text :
    (f : ℕ) (bytes : List ℕ) → All IsByte bytes → valid_utf8_from f bytes ≡ true → Text bytes
unfolding encode
valid_utf8_from-Text f [] hb h = record { scalars = []; all_scalar = tt; encoded = refl }
valid_utf8_from-Text zero (b ∷ bytes) hb h = unfold valid_utf8_from in ground arith
valid_utf8_from-Text (suc f) (b ∷ bytes) hb h =
    elim (Option-cases (if leb b 0x7f then some bytes else sequence b bytes)) [
      | inl e ↦ cc (valid_utf8_from_stop f b bytes e)
      | inr (rest, e) ↦
          let (c, s, p) = round-Encoded b bytes rest hb e in
          let left = All-right IsByte (encoding c) rest (subst (All IsByte) p hb) in
          let t = valid_utf8_from-Text f rest left (valid_utf8_from_next f b bytes rest e h) in
          record {
            scalars = c ∷ t.scalars;
            all_scalar = (s, t.all_scalar);
            encoded = p ∙ ap (◌++◌ (encoding c)) t.encoded;
          }
    ]

encoding_pos : (c : ℕ) → 0 < length (encoding c)
unfolding encoding
encoding_pos c = ground arith

valid_utf8_from-encode :
    (f : ℕ) (cs : List ℕ)
    → All IsScalar cs
    → length (encode cs) ≤ f
    → valid_utf8_from f (encode cs) ≡ true
unfolding encode
valid_utf8_from-encode f [] s h = unfold valid_utf8_from in refl
valid_utf8_from-encode zero (c ∷ cs) s h =
    absurd (omega (arith, encoding_pos c, length-append (encoding c) (encode cs)))
valid_utf8_from-encode (suc f) (c ∷ cs) s h =
    let shorter : length (encode cs) ≤ f =
      omega (arith, encoding_pos c, length-append (encoding c) (encode cs)) in
    valid_utf8_from-encoding f c (encode cs) s.0 ∙ valid_utf8_from-encode f cs s.1 shorter

-- A sequence of bytes is accepted exactly when it is the concatenation of the UTF-8 encodings of
-- some scalar values: no overlong form, surrogate, stray or missing continuation byte is accepted.
pub json_valid_utf8_iff :
    (input : List ℕ) → All IsByte input → (json_valid_utf8 input ≡ true) ↔ Text input
unfolding json_valid_utf8
json_valid_utf8_iff input hb = (
  valid_utf8_from-Text (length input) input hb,
  λ t.
      subst (λ bytes. valid_utf8_from (length bytes) bytes ≡ true) (sym t.encoded)
        (valid_utf8_from-encode (length (encode t.scalars)) t.scalars t.all_scalar (omega arith)),
)

-- The encoding of scalar values is accepted.
pub json_valid_utf8-encode : (cs : List ℕ) → All IsScalar cs → json_valid_utf8 (encode cs) ≡ true
unfolding json_valid_utf8
json_valid_utf8-encode cs s = valid_utf8_from-encode (length (encode cs)) cs s (omega arith)
