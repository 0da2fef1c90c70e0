-- ===== src/Json/Buffer.antt =====
-- json/json_buffer.hpp: the reusable character buffer. `room` is the number of bytes that the
-- allocator can hold; an append beyond it is the `catch (...)` branch and changes nothing.
use server_entry.Prelude.{
  ℕ, ◌+◌, ◌≤◌, ◌≡◌, Bool, true, false, List, [], ◌++◌, arith, leb, if◌then◌else◌, length,
  length-append, append_assoc,
}

pub record Buffer : Type 0 where
  pub content : List ℕ
  pub room : ℕ

-- A member call on a buffer: the buffer afterwards and the returned status.
abbrev pub Append : Type 0
Append = Buffer → Buffer × Bool

unfoldable pub clear : Buffer → Buffer
clear b = record b { content = [] }

unfoldable pub append : List ℕ → Append
append bytes b =
    if leb (length b.content + length bytes) b.room
    then (record b { content = b.content ++ bytes }, true)
    else (b, false)

-- `p && q`, `q` on the buffer that `p` leaves.
infixr 34 ◌&&then◌
abbrev pub ◌&&then◌ : Append → Append → Append
(p &&then q) b = let (b', okay) = p b in if okay then q b' else (b', false)

-- `p` writes exactly `bytes`, wherever the buffer has room for them.
abbrev pub Writes : Append → List ℕ → Type 0
Writes p bytes =
    (b : Buffer)
    → length b.content + length bytes ≤ b.room
    → p b ≡ (record b { content = b.content ++ bytes }, true)

pub append-Writes : (bytes : List ℕ) → Writes (append bytes) bytes
unfolding append
append-Writes bytes b h = ground arith

pub &&then-Writes :
    (p q : Append) (xs ys : List ℕ) → Writes p xs → Writes q ys → Writes (p &&then q) (xs ++ ys)
&&then-Writes p q xs ys hp hq b h =
    let n = length-append xs ys in
    let m = length-append b.content xs in
    rw (hp b (omega arith), hq (record b { content = b.content ++ xs }) (omega arith))
      (rw (append_assoc b.content xs ys))
