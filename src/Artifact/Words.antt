-- ===== src/Artifact/Words.antt =====
-- A word is read back from the bytes that it is written as.
use server_entry.Prelude.{ℕ, ◌+◌, ◌*◌, ◌/◌, ◌%◌, ◌<◌, ◌≡◌, List, ◌++◌, bit_or, subst, arith}
use server_entry.Prelude.Bits.{or_above, doubled, zero_or}
use server_entry.Artifact.{read16, read32, read64, write16, write32, write64}

or_at : (k m low b : ℕ) → doubled k b ≡ b * m → low < doubled k 1 → bit_or low (b * m) ≡ low + b * m
or_at k m low b e h = subst (λ x. bit_or low x ≡ low + x) e (or_above k low b h)

or_8 : (low b : ℕ) → low < 256 → bit_or low (b * 256) ≡ low + b * 256
or_8 low b h = or_at 8 256 low b (omega arith) (omega arith)

or_16 : (low b : ℕ) → low < 65536 → bit_or low (b * 65536) ≡ low + b * 65536
or_16 low b h = or_at 16 65536 low b (omega arith) (omega arith)

or_24 : (low b : ℕ) → low < 16777216 → bit_or low (b * 16777216) ≡ low + b * 16777216
or_24 low b h = or_at 24 16777216 low b (omega arith) (omega arith)

or_32 : (low b : ℕ) → low < 4294967296 → bit_or low (b * 4294967296) ≡ low + b * 4294967296
or_32 low b h = or_at 32 4294967296 low b (omega arith) (omega arith)

or_40 : (low b : ℕ) → low < 1099511627776 → bit_or low (b * 1099511627776) ≡ low + b * 1099511627776
or_40 low b h = or_at 40 1099511627776 low b (omega arith) (omega arith)

or_48 :
    (low b : ℕ)
    → low < 281474976710656
    → bit_or low (b * 281474976710656) ≡ low + b * 281474976710656
or_48 low b h = or_at 48 281474976710656 low b (omega arith) (omega arith)

or_56 :
    (low b : ℕ)
    → low < 72057594037927936
    → bit_or low (b * 72057594037927936) ≡ low + b * 72057594037927936
or_56 low b h = or_at 56 72057594037927936 low b (omega arith) (omega arith)

pub read16-write16 : (v : ℕ) (rest : List ℕ) → v < 65536 → read16 (write16 v ++ rest) ≡ v
unfolding read16
read16-write16 v rest h =
    rw (zero_or (v / 1 % 256 * 1), or_8 (v / 1 % 256 * 1) (v / 256 % 256) (omega arith))
      (omega arith)

pub read32-write32 : (v : ℕ) (rest : List ℕ) → v < 4294967296 → read32 (write32 v ++ rest) ≡ v
unfolding read32
read32-write32 v rest h =
    rw
      (
        zero_or (v / 1 % 256 * 1),
        or_8 (v / 1 % 256 * 1) (v / 256 % 256) (omega arith),
        or_16 (v / 1 % 256 * 1 + (v / 256 % 256) * 256) (v / 65536 % 256) (omega arith),
        or_24 (v / 1 % 256 * 1 + (v / 256 % 256) * 256 + (v / 65536 % 256) * 65536)
            (v / 16777216 % 256) (omega arith),
      )
      (omega arith)

pub read64-write64 :
    (v : ℕ) (rest : List ℕ) → v < 18446744073709551616 → read64 (write64 v ++ rest) ≡ v
unfolding read64
read64-write64 v rest h =
    rw
      (
        zero_or (v / 1 % 256 * 1),
        or_8 (v / 1 % 256 * 1) (v / 256 % 256) (omega arith),
        or_16 (v / 1 % 256 * 1 + (v / 256 % 256) * 256) (v / 65536 % 256) (omega arith),
        or_24 (v / 1 % 256 * 1 + (v / 256 % 256) * 256 + (v / 65536 % 256) * 65536)
            (v / 16777216 % 256) (omega arith),
        or_32
            (v / 1 % 256 * 1
              + (v / 256 % 256) * 256
              + (v / 65536 % 256) * 65536
              + (v / 16777216 % 256) * 16777216)
            (v / 4294967296 % 256) (omega arith),
        or_40
            (v / 1 % 256 * 1
              + (v / 256 % 256) * 256
              + (v / 65536 % 256) * 65536
              + (v / 16777216 % 256) * 16777216
              + (v / 4294967296 % 256) * 4294967296)
            (v / 1099511627776 % 256) (omega arith),
        or_48
            (v / 1 % 256 * 1
              + (v / 256 % 256) * 256
              + (v / 65536 % 256) * 65536
              + (v / 16777216 % 256) * 16777216
              + (v / 4294967296 % 256) * 4294967296
              + (v / 1099511627776 % 256) * 1099511627776)
            (v / 281474976710656 % 256) (omega arith),
        or_56
            (v / 1 % 256 * 1
              + (v / 256 % 256) * 256
              + (v / 65536 % 256) * 65536
              + (v / 16777216 % 256) * 16777216
              + (v / 4294967296 % 256) * 4294967296
              + (v / 1099511627776 % 256) * 1099511627776
              + (v / 281474976710656 % 256) * 281474976710656)
            (v / 72057594037927936 % 256) (omega arith),
      )
      (omega arith)
