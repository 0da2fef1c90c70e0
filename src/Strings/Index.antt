-- ===== src/Strings/Index.antt =====
-- The lookup index as the inverse of the slots, kept by entering one more string.
use server_entry.Prelude.{
  ℕ, zero, suc, ◌+◌, ◌-◌, ◌≤◌, ◌<◌, ◌≡◌, ◌↔◌, refl, ap, sym, ◌∙◌, false, [], ◌∷◌, ◌++◌,
  append_assoc, append-nil, Option, none, some, length, length-append, bytes_eq, bytes_eq_sound,
  bytes_eq_refl, Bool-cases, Option-cases, inl, inr, arith, dec_lt, subst,
}
use server_entry.Prelude.Bits.{to_u32}
use server_entry.Strings.{Bytes, Slots, Index, lookup, emplace, slot, index_slots, IsIndex}

pub slot-append_left : (xs ys : Slots) (i : ℕ) → i < length xs → slot (xs ++ ys) i ≡ slot xs i
slot-append_left [] ys i h = absurd (omega arith)
slot-append_left (x ∷ xs) ys zero h = refl
slot-append_left (x ∷ xs) ys (suc i) h = slot-append_left xs ys i (omega arith)

pub slot-append_right :
    (xs ys : Slots) (i : ℕ) → length xs ≤ i → slot (xs ++ ys) i ≡ slot ys (i - length xs)
slot-append_right [] ys i h = ap (slot ys) (omega arith)
slot-append_right (x ∷ xs) ys zero h = absurd (omega arith)
slot-append_right (x ∷ xs) ys (suc i) h =
    slot-append_right xs ys i (omega arith) ∙ ap (slot ys) (omega arith)

pub slot_bound : (xs : Slots) (i : ℕ) (v : Bytes) → slot xs i ≡ some v → i < length xs
slot_bound [] i v h = ground arith
slot_bound (x ∷ xs) zero v h = omega arith
slot_bound (x ∷ xs) (suc i) v h = omega (arith, slot_bound xs i v h)

-- The slot that is appended.
slot_last :
    (xs : Slots) (x : Option Bytes) (i : ℕ) (v : Bytes)
    → length xs ≤ i
    → slot (xs ++ (x ∷ [])) i ≡ some v
    → (i ≡ length xs) × (x ≡ some v)
slot_last xs x i v l h =
    let b = slot_bound (xs ++ (x ∷ [])) i v h in
    let n = length-append xs (x ∷ []) in
    let e : i ≡ length xs = omega arith in
    let z : i - length xs ≡ 0 = omega arith in
    (e, ap (slot (x ∷ [])) (sym z) ∙ sym (slot-append_right xs (x ∷ []) i l) ∙ h)

pub skipped :
    (slots : Slots) (index : Index) → IsIndex slots index → IsIndex (slots ++ (none ∷ [])) index
skipped slots index h value id = (
  λ e.
      let (p, s) = (h value id).0 e in
      (p, slot-append_left slots (none ∷ []) (id - 1) (slot_bound slots (id - 1) value s) ∙ s),
  λ (p, s). elim (dec_lt (id - 1) (length slots)) [
    | yes l ↦ (h value id).1 (p, sym (slot-append_left slots (none ∷ []) (id - 1) l) ∙ s)
    | no g ↦ absurd (ground (arith, slot_last slots none (id - 1) value (omega arith) s))
  ],
)

emplace_fresh :
    (v : Bytes) (n : ℕ) (index index' : Index)
    → emplace v n index ≡ some index'
    → (lookup index v ≡ none) × (index' ≡ (v, n) ∷ index)
unfolding emplace
emplace_fresh v n index index' e = ground (arith, Option-cases (lookup index v))

pub lookup_here : (v : Bytes) (n : ℕ) (index : Index) → lookup ((v, n) ∷ index) v ≡ some n
unfolding lookup
lookup_here v n index = rw (bytes_eq_refl v) refl

lookup_there :
    (v w : Bytes) (n : ℕ) (index : Index)
    → bytes_eq v w ≡ false
    → lookup ((v, n) ∷ index) w ≡ lookup index w
unfolding lookup
lookup_there v w n index e = rw e refl

last_slot : (slots : Slots) (v : Bytes) → slot (slots ++ (some v ∷ [])) (length slots) ≡ some v
last_slot [] v = refl
last_slot (x ∷ slots) v = last_slot slots v

some_same : (a b : Index) → some a ≡ some b → a ≡ b
some_same a b e = ground arith

bytes_of : (v w : Bytes) → some v ≡ some w → v ≡ w
bytes_of v w e = ground arith

some_injective : (a b : ℕ) → some a ≡ some b → a ≡ b
some_injective a b e = ground arith

-- A fresh string entered under the next identifier.
pub entered-fresh :
    (slots : Slots) (index : Index) (v : Bytes)
    → IsIndex slots index
    → lookup index v ≡ none
    → IsIndex (slots ++ (some v ∷ [])) ((v, length slots + 1) ∷ index)
entered-fresh slots index v h fresh value id = elim (Bool-cases (bytes_eq v value)) [
  | inl eq ↦ known fresh (bytes_eq_sound v value eq)
  | inr ne ↦ other ne
]
  where
    known :
        lookup index v ≡ none
        → v ≡ value
        → (lookup ((v, length slots + 1) ∷ index) value ≡ some id)
          ↔ ((1 ≤ id) × (slot (slots ++ (some v ∷ [])) (id - 1) ≡ some value))
    known fresh q = rw (sym q) (
      (λ e.
          let n =
            some_injective (length slots + 1) id
              (sym (lookup_here v (length slots + 1) index) ∙ e) in
          let m : id - 1 ≡ length slots = omega arith in
          (omega arith, ap (slot (slots ++ (some v ∷ []))) m ∙ last_slot slots v)),
      λ (p, s). elim (dec_lt (id - 1) (length slots)) [
        | yes l ↦
            let old = (h v id).1 (p, sym (slot-append_left slots (some v ∷ []) (id - 1) l) ∙ s) in
            absurd (ground (arith, old, fresh))
        | no g ↦
            let (at, same) = slot_last slots (some v) (id - 1) v (omega arith) s in
            let n : length slots + 1 ≡ id = omega arith in
            lookup_here v (length slots + 1) index ∙ ap some n
      ],
    )

    other :
        bytes_eq v value ≡ false
        → (lookup ((v, length slots + 1) ∷ index) value ≡ some id)
          ↔ ((1 ≤ id) × (slot (slots ++ (some v ∷ [])) (id - 1) ≡ some value))
    other ne = rw (lookup_there v value (length slots + 1) index ne) (
      (λ e.
          let (p, s) = (h value id).0 e in
          (
            p,
            slot-append_left slots (some v ∷ []) (id - 1) (slot_bound slots (id - 1) value s) ∙ s,
          )),
      λ (p, s). elim (dec_lt (id - 1) (length slots)) [
        | yes l ↦ (h value id).1 (p, sym (slot-append_left slots (some v ∷ []) (id - 1) l) ∙ s)
        | no g ↦
            let (at, same) = slot_last slots (some v) (id - 1) value (omega arith) s in
            absurd (different (bytes_of v value same))
      ],
    )
      where
        different : v ≡ value → ⊥
        different q = ground (arith, ne, ap (bytes_eq v) (sym q) ∙ bytes_eq_refl v)

pub entered :
    (slots : Slots) (index index' : Index) (v : Bytes)
    → IsIndex slots index
    → emplace v (length slots + 1) index ≡ some index'
    → IsIndex (slots ++ (some v ∷ [])) index'
entered slots index index' v h e =
    let (fresh, same) = emplace_fresh v (length slots + 1) index index' e in
    subst (IsIndex (slots ++ (some v ∷ []))) (sym same) (entered-fresh slots index v h fresh)

-- The loop that enters the slots behind others makes an index of all of them.
pub index_slots-IsIndex :
    (slots done : Slots) (index index' : Index)
    → length done + length slots ≤ 0xffffffff
    → IsIndex done index
    → index_slots (length done + 1) slots index ≡ some index'
    → IsIndex (done ++ slots) index'
unfolding index_slots
index_slots-IsIndex [] done index index' l h e =
    rw (append-nil done) (subst (IsIndex done) (some_same index index' e) h)
index_slots-IsIndex (none ∷ slots) done index index' l h e =
    let n = length-append done (none ∷ []) in
    let m : length done + 1 + 1 ≡ length (done ++ (none ∷ [])) + 1 = omega arith in
    subst (λ t. IsIndex t index') (append_assoc done (none ∷ []) slots)
      (index_slots-IsIndex slots (done ++ (none ∷ [])) index index' (omega arith)
        (skipped done index h) (ap (λ k. index_slots k slots index) (sym m) ∙ e))
index_slots-IsIndex (some b ∷ slots) done index index' l h e =
    let n = length-append done (some b ∷ []) in
    let m : length done + 1 + 1 ≡ length (done ++ (some b ∷ [])) + 1 = omega arith in
    let k : to_u32 (length done + 1) ≡ length done + 1 = omega arith in
    elim (Option-cases (emplace b (to_u32 (length done + 1)) index)) [
      | inl none_there ↦ absurd (ground (arith, e, none_there))
      | inr (grown, q) ↦
          subst (λ t. IsIndex t index') (append_assoc done (some b ∷ []) slots)
            (index_slots-IsIndex slots (done ++ (some b ∷ [])) grown index' (omega arith)
              (entered done index grown b h (ap (λ j. emplace b j index) (sym k) ∙ q))
              (ap (λ j. index_slots j slots grown) (sym m) ∙ rw (q, index_slots) at e))
    ]

pub empty-IsIndex : IsIndex [] []
unfolding lookup
empty-IsIndex value id = (λ e. absurd (ground arith), λ (p, s). absurd (ground arith))
