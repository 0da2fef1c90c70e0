-- ===== src/Artifact/RoundTrip/Sections.antt =====
-- The records of a section are read back where they lie among the bytes.
use server_entry.Prelude.{
  ℕ, suc, ◌+◌, ◌<◌, ◌≤◌, ◌≡◌, refl, sym, ap, ◌∙◌, subst, List, [], ◌∷◌, ◌++◌, append_assoc, Option,
  none, some, arith, length, length-append, All,
}
use server_entry.Strings.{Bytes}
use server_entry.Artifact.Encode.{write_all, write_strings, stored_bytes, contents, size_of}
use server_entry.Artifact.Decode.{read_all}
use server_entry.Artifact.Records.{skip, read_string, write_string}
use server_entry.Artifact.RoundTrip.Records.{skip-append, read_string-write_string}

-- `part` lies at `offset`.
abbrev pub LiesAt : Bytes → ℕ → Bytes → Type 0
LiesAt bytes offset part =
    (before : Bytes) × (after : Bytes) × (bytes ≡ before ++ (part ++ after))
    × (length before ≡ offset)

pub skip-LiesAt :
    (bytes : Bytes) (offset : ℕ) (part : Bytes) (l : LiesAt bytes offset part)
    → skip offset bytes ≡ part ++ l.1
skip-LiesAt bytes offset part l =
    ap (skip offset) l.2
    ∙ ap (λ n. skip n (l.0 ++ (part ++ l.1))) (sym l.3)
    ∙ skip-append l.0 (part ++ l.1)

-- The second of two parts.
pub LiesAt-tail :
    (bytes : Bytes) (offset : ℕ) (first second : Bytes)
    → LiesAt bytes offset (first ++ second)
    → LiesAt bytes (offset + length first) second
LiesAt-tail bytes offset first second l = (
  l.0 ++ first,
  l.1,
  l.2
      ∙ ap (λ x. l.0 ++ x) (append_assoc first second l.1)
      ∙ sym (append_assoc l.0 first (second ++ l.1)),
  length-append l.0 first ∙ ap (λ n. n + length first) l.3,
)

read_all_step {ℓ} :
    {A : Type ℓ} (read : Bytes → Option A) (size : ℕ) (bytes : Bytes) (offset count : ℕ) (x : A)
    (xs : List A)
    → read (skip offset bytes) ≡ some x
    → read_all read size bytes (offset + size) count ≡ some xs
    → read_all read size bytes offset (suc count) ≡ some (x ∷ xs)
unfolding read_all
read_all_step read size bytes offset count x xs h r = rw (h, r) refl

read_all_end {ℓ} :
    {A : Type ℓ} (read : Bytes → Option A) (size : ℕ) (bytes : Bytes) (offset : ℕ)
    → read_all read size bytes offset 0 ≡ some []
unfolding read_all
read_all_end read size bytes offset = refl

-- A record that is read back whatever lies behind it.
abbrev pub ReadBack {ℓ} : {A : Type ℓ} → (Bytes → Option A) → (A → Bytes) → ℕ → A → Type ℓ
ReadBack {A = A} read write size x =
    ((rest : Bytes) → read (write x ++ rest) ≡ some x) × (length (write x) ≡ size)

pub read_all-write_all {ℓ} :
    {A : Type ℓ} (read : Bytes → Option A) (write : A → Bytes) (size : ℕ) (bytes : Bytes)
    (offset : ℕ) (xs : List A)
    → All (ReadBack read write size) xs
    → LiesAt bytes offset (write_all write xs)
    → read_all read size bytes offset (length xs) ≡ some xs
read_all-write_all read write size bytes offset [] a l = read_all_end read size bytes offset
read_all-write_all read write size bytes offset (x ∷ xs) a l =
    let here =
      skip-LiesAt bytes offset (write x ++ write_all write xs) l
      ∙ append_assoc (write x) (write_all write xs) l.1 in
    let tail = LiesAt-tail bytes offset (write x) (write_all write xs) l in
    read_all_step read size bytes offset (length xs) x xs
      (ap read here ∙ a.0.0 (write_all write xs ++ l.1))
      (read_all-write_all read write size bytes (offset + size) xs a.1
        (subst (λ n. LiesAt bytes (offset + n) (write_all write xs)) a.0.1 tail))

length-write_string : (start : ℕ) (s : Option Bytes) → length (write_string start s) ≡ 8
length-write_string start none = refl
length-write_string start (some value) = refl

size_of-contents : (s : Option Bytes) → size_of s ≡ length (contents s)
size_of-contents none = refl
size_of-contents (some value) = refl

-- The strings, `before` being the bytes that are stored in front of theirs.
pub read_all-write_strings :
    (bytes : Bytes) (offset size : ℕ) (before after : Bytes) (strings : List (Option Bytes))
    → size < 0xffffffff
    → length before + length (stored_bytes strings) ≤ size
    → LiesAt bytes offset (write_strings (length before) strings)
    → read_all
        (read_string (before ++ (stored_bytes strings ++ after)) size)
        8
        bytes
        offset
        (length strings)
      ≡ some strings
read_all-write_strings bytes offset size before after [] h b l = read_all_end _ 8 bytes offset
read_all-write_strings bytes offset size before after (s ∷ strings) h b l =
    let rest = write_strings (length before + size_of s) strings in
    let here =
      skip-LiesAt bytes offset (write_string (length before) s ++ rest) l
      ∙ append_assoc (write_string (length before) s) rest l.1 in
    let storage = before ++ ((contents s ++ stored_bytes strings) ++ after) in
    let split : storage ≡ before ++ (contents s ++ (stored_bytes strings ++ after)) =
      ap (λ x. before ++ x) (append_assoc (contents s) (stored_bytes strings) after) in
    let shifted : storage ≡ (before ++ contents s) ++ (stored_bytes strings ++ after) =
      split ∙ sym (append_assoc before (contents s) (stored_bytes strings ++ after)) in
    let stored = length-append (contents s) (stored_bytes strings) in
    let longer = length-append before (contents s) in
    let moved : length before + size_of s ≡ length (before ++ contents s) =
      ap (λ n. length before + n) (size_of-contents s) ∙ sym longer in
    let tail = LiesAt-tail bytes offset (write_string (length before) s) rest l in
    read_all_step (read_string storage size) 8 bytes offset (length strings) s strings
      (ap (read_string storage size) here
        ∙ ap (λ x. read_string x size (write_string (length before) s ++ (rest ++ l.1))) split
        ∙ read_string-write_string before (stored_bytes strings ++ after) size s (rest ++ l.1) h
            (omega (arith, stored)))
      (ap (λ x. read_all (read_string x size) 8 bytes (offset + 8) (length strings)) shifted
        ∙ read_all-write_strings bytes (offset + 8) size (before ++ contents s) after strings h
            (omega (arith, stored, longer))
            (subst (λ n. LiesAt bytes (offset + 8) (write_strings n strings)) moved
              (subst (λ n. LiesAt bytes (offset + n) rest) (length-write_string (length before) s)
                tail)))
