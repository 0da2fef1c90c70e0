-- ===== src/Artifact/RoundTrip/Header.antt =====
-- The header of a written artifact passes validate_header.
use server_entry.Prelude.{
  ℕ, zero, suc, ◌+◌, ◌<◌, ◌≤◌, ◌≡◌, refl, sym, ap, ◌∙◌, true, false, List, [], ◌∷◌, ◌++◌,
  append_assoc, arith, length, ltb, ◌==◌, bytes_eq_refl,
}
use server_entry.Types.{AbiConfiguration}
use server_entry.Strings.{Bytes}
use server_entry.Artifact.{max64, read16, read32, read64, write32, crc32c}
use server_entry.Artifact.Words.{read16-write16, read32-write32, read64-write64}
use server_entry.Artifact.Records.{skip, take}
use server_entry.Artifact.Encode.{header_front, header_with, zero_bytes}
use server_entry.Artifact.Decode.{validate_header, cleared_header}

-- A skip and a take past a part of known length.
pub skip_past {ℓ} :
    {A : Type ℓ} (n m : ℕ) (xs ys : List A) → n ≡ length xs + m → skip n (xs ++ ys) ≡ skip m ys
skip_past n m [] ys h = ap (λ k. skip k ys) (omega (arith, h))
skip_past zero m (x ∷ xs) ys h = absurd (omega (arith, h))
skip_past (suc n) m (x ∷ xs) ys h = skip_past n m xs ys (omega (arith, h))

take_all {ℓ} : {A : Type ℓ} (n : ℕ) (xs ys : List A) → n ≡ length xs → take n (xs ++ ys) ≡ xs
take_all zero [] ys h = refl
take_all (suc n) [] ys h = absurd (omega (arith, h))
take_all zero (x ∷ xs) ys h = absurd (omega (arith, h))
take_all (suc n) (x ∷ xs) ys h = ap (λ t. x ∷ t) (take_all n xs ys (omega (arith, h)))

-- The artifact in one piece.
abbrev pub opened : ℕ → AbiConfiguration → Bytes → ℕ → Bytes → Bytes
opened size abi hash crc rest =
    header_front size abi ++ (hash ++ (write32 crc ++ (zero_bytes 20 ++ rest)))

pub header_with-opened :
    (size : ℕ) (abi : AbiConfiguration) (hash : Bytes) (crc : ℕ) (rest : Bytes)
    → header_with size abi hash crc ++ rest ≡ opened size abi hash crc rest
header_with-opened size abi hash crc rest =
    append_assoc (header_front size abi) (hash ++ (write32 crc ++ zero_bytes 20)) rest
    ∙ ap (λ x. header_front size abi ++ x) (append_assoc hash (write32 crc ++ zero_bytes 20) rest)

same : (n : ℕ) → (n == n) ≡ true
same n = ground arith

pub crc32c-bound : (bytes : Bytes) → crc32c bytes < 0x100000000
unfolding crc32c
crc32c-bound bytes = omega arith

module _ (size : ℕ) (abi : AbiConfiguration) (hash : Bytes) (crc : ℕ) (rest : Bytes)
    (h : length hash ≡ 32) where
  abbrev whole : Bytes
  whole = opened size abi hash crc rest

  after_hash : skip 104 whole ≡ write32 crc ++ (zero_bytes 20 ++ rest)
  after_hash = skip_past 32 0 hash (write32 crc ++ (zero_bytes 20 ++ rest)) (omega (arith, h))

  pub after_header : skip 128 whole ≡ rest
  after_header = skip_past 56 24 hash (write32 crc ++ (zero_bytes 20 ++ rest)) (omega (arith, h))

  stored_hash : take 32 (skip 72 whole) ≡ hash
  stored_hash = take_all 32 hash _ (omega (arith, h))

  cleared : cleared_header whole ≡ header_with size abi hash 0
  cleared =
      ap (λ x. header_front size abi ++ (x ++ (write32 0 ++ take 20 (skip 108 whole)))) stored_hash
      ∙ ap (λ x. header_front size abi ++ (hash ++ (write32 0 ++ take 20 x)))
          (skip_past 36 4 hash (write32 crc ++ (zero_bytes 20 ++ rest)) (omega (arith, h)))

  -- Each field of the header is the one that was written.
  pub validate_header-opened :
      (sha256 : Bytes → Bytes)
      → size ≡ length whole
      → 384 ≤ size
      → size ≤ max64
      → crc < 0x100000000
      → crc ≡ crc32c (header_with size abi hash 0)
      → sha256 rest ≡ hash
      → validate_header sha256 whole ≡ true
  unfolding validate_header
  validate_header-opened sha256 l n m b c d =
      let long : ltb (length whole) 384 ≡ false = ground (arith, l, n) in
      let major : read16 (skip 8 whole) ≡ 1 = read16-write16 1 _ (omega arith) in
      let minor : read16 (skip 10 whole) ≡ 6 = read16-write16 6 _ (omega arith) in
      let header : read32 (skip 12 whole) ≡ 128 = read32-write32 128 _ (omega arith) in
      let endian : read32 (skip 16 whole) ≡ 0x01020304 =
        read32-write32 0x01020304 _ (omega arith) in
      let bytes : read64 (skip 24 whole) ≡ length whole =
        read64-write64 size _ (omega (arith, m)) ∙ l in
      let directory : read32 (skip 32 whole) ≡ 128 = read32-write32 128 _ (omega arith) in
      let count : read32 (skip 36 whole) ≡ 8 = read32-write32 8 _ (omega arith) in
      let sum : read32 (skip 104 whole) ≡ crc32c (cleared_header whole) =
        ap read32 after_hash ∙ read32-write32 crc _ b ∙ c ∙ ap crc32c (sym cleared) in
      let digest : sha256 (skip 128 whole) ≡ take 32 (skip 72 whole) =
        ap sha256 after_header ∙ d ∙ sym stored_hash in
      rw (long, major, minor, header, endian, bytes, directory, count, sum, digest)
        (rw
          (
            same (length whole),
            same (crc32c (cleared_header whole)),
            bytes_eq_refl (take 32 (skip 72 whole)),
          )
          refl)
