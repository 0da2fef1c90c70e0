-- ===== src/Contributions/Slots.antt =====
-- The tables of states and of candidate slots of source_contribution_cache.cpp, read at any index:
-- growth, marks of a generation, and the swaps of a publication.
use server_entry.Prelude.{
  ℕ, zero, suc, ◌+◌, ◌-◌, ◌≤◌, ◌<◌, true, false, ◌||◌, List, [], ◌∷◌, ◌++◌, ltb, leb, ◌==◌,
  if◌then◌else◌, map, length, get_or, set_at, contains, ◌≡◌, refl, sym, ◌∙◌, ap, subst, arith,
  set_here, set_elsewhere, length-set_at, length-append, Bool-cases, inl, inr,
}
use server_entry.Contributions.{Slot, free_slot, copies, grown}
use server_entry.Contributions.Update.{is_marked, marked_at, swap_in, shrunk, fitted, maximum}

module _ {ℓ} {A : Type ℓ} (d : A) where
  pub get_or_beyond : (xs : List A) (i : ℕ) → length xs ≤ i → get_or xs i d ≡ d
  get_or_beyond [] i h = refl
  get_or_beyond (x ∷ xs) zero h = absurd (omega arith)
  get_or_beyond (x ∷ xs) (suc i) h = get_or_beyond xs i (omega arith)

  get_or-copies : (n i : ℕ) → get_or (copies n d) i d ≡ d
  get_or-copies zero i = refl
  get_or-copies (suc n) zero = refl
  get_or-copies (suc n) (suc i) = get_or-copies n i

  get_or-append_copies :
      (n : ℕ) (xs : List A) (i : ℕ) → get_or (xs ++ copies n d) i d ≡ get_or xs i d
  get_or-append_copies n [] i = get_or-copies n i
  get_or-append_copies n (x ∷ xs) zero = refl
  get_or-append_copies n (x ∷ xs) (suc i) = get_or-append_copies n xs i

  pub get_or-grown : (r : ℕ) (xs : List A) (i : ℕ) → get_or (grown d r xs) i d ≡ get_or xs i d
  get_or-grown r xs i = elim (Bool-cases (leb r (length xs))) [
    | inl h ↦ rw h refl
    | inr h ↦ rw h (get_or-append_copies (r - length xs) xs i)
  ]

  length-copies : (n : ℕ) → length (copies n d) ≡ n
  length-copies zero = refl
  length-copies (suc n) = ap suc (length-copies n)

  pub length-grown :
      (r : ℕ) (xs : List A) → (r ≤ length (grown d r xs)) × (length xs ≤ length (grown d r xs))
  length-grown r xs = elim (Bool-cases (leb r (length xs))) [
    | inl h ↦ rw h (ground arith)
    | inr h ↦ rw h (
        let a = length-append xs (copies (r - length xs) d) in
        let b = length-copies (r - length xs) in (ground (arith, a, b), ground (arith, a, b)))
  ]

  shrunk-append : (xs ys : List A) → shrunk (length xs) (xs ++ ys) ≡ xs
  shrunk-append [] ys = refl
  shrunk-append (x ∷ xs) ys = ap (λ zs. x ∷ zs) (shrunk-append xs ys)

  pub shrunk_all : (xs : List A) → shrunk (length xs) xs ≡ xs
  shrunk_all [] = refl
  shrunk_all (x ∷ xs) = ap (λ zs. x ∷ zs) (shrunk_all xs)

  pub shrunk-grown : (r : ℕ) (xs : List A) → shrunk (length xs) (grown d r xs) ≡ xs
  shrunk-grown r xs = elim (Bool-cases (leb r (length xs))) [
    | inl h ↦ rw h (shrunk_all xs)
    | inr h ↦ rw h (shrunk-append xs (copies (r - length xs) d))
  ]

id_eq : (a b : ℕ) → (a == b) ≡ true → a ≡ b
id_eq a b h = ground arith

room : {A : Type 0} (i : ℕ) (xs : List A) → i + 1 ≤ length xs → i < length xs
room i xs h = omega arith

module _ {V : Type 0} (d : V) where
  pub get_or-fitted :
      (ids : List ℕ) (xs : List V) (i : ℕ) → get_or (fitted d ids xs) i d ≡ get_or xs i d
  get_or-fitted [] xs i = refl
  get_or-fitted (x ∷ ids) xs i = get_or-grown d (maximum (x ∷ ids) + 1) xs i

  pub shrunk-fitted : (ids : List ℕ) (xs : List V) → shrunk (length xs) (fitted d ids xs) ≡ xs
  shrunk-fitted [] xs = shrunk_all d xs
  shrunk-fitted (x ∷ ids) xs = shrunk-grown d (maximum (x ∷ ids) + 1) xs

  pub get_or-cleared : (xs : List V) (i : ℕ) → get_or (map (λ s. d) xs) i d ≡ d
  get_or-cleared [] i = refl
  get_or-cleared (x ∷ xs) zero = refl
  get_or-cleared (x ∷ xs) (suc i) = get_or-cleared xs i

  -- A mark is a test of the generation alone, since generations are positive.
  pub is_marked_by :
      (g i : ℕ) (slots : List (Slot V))
      → 0 < g
      → is_marked d g i slots ≡ ((get_or slots i (free_slot d)).generation == g)
  is_marked_by g i slots p = elim (Bool-cases (ltb i (length slots))) [
    | inl h ↦ rw h refl
    | inr h ↦ rw (h, get_or_beyond (free_slot d) slots i (ground arith)) (ground arith)
  ]

  pub get_or-marked_at :
      (g id : ℕ) (v : V) (slots : List (Slot V)) (j : ℕ)
      → get_or (marked_at d g id v slots) j (free_slot d)
        ≡ (if id == j then record { generation = g; value = v } else get_or slots j (free_slot d))
  get_or-marked_at g id v slots j =
      let big = grown (free_slot d) (id + 1) slots in
      let new : Slot V = record { generation = g; value = v } in
      elim (Bool-cases (id == j)) [
        | inl h ↦ rw h (
            ap (λ k. get_or (marked_at d g id v slots) k (free_slot d)) (sym (id_eq id j h))
            ∙ set_here (free_slot d) new id big
                (room id big (length-grown (free_slot d) (id + 1) slots).0))
        | inr h ↦ rw h (
            set_elsewhere (free_slot d) new id j big h
            ∙ get_or-grown (free_slot d) (id + 1) slots j)
      ]

pub contains-append :
    (i : ℕ) (xs : List ℕ) (x : ℕ) → contains i (xs ++ (x ∷ [])) ≡ (contains i xs || x == i)
contains-append i [] x = ground arith
contains-append i (y ∷ xs) x = ground (arith, contains-append i xs x)

abbrev pub Distinct : List ℕ → Type 0
Distinct [] = Unit
Distinct (x ∷ xs) = (contains x xs ≡ false) × Distinct xs

pub Distinct-append :
    (xs : List ℕ) (x : ℕ) → Distinct xs → contains x xs ≡ false → Distinct (xs ++ (x ∷ []))
Distinct-append [] x p h = (refl, tt)
Distinct-append (y ∷ xs) x (a, p) h =
    (contains-append y xs x ∙ ground (arith, a, h), Distinct-append xs x p (ground arith))

contains_below : (i : ℕ) (xs : List ℕ) → contains i xs ≡ true → i ≤ maximum xs
contains_below i [] h = absurd (ground arith)
contains_below i (x ∷ xs) h = elim (Bool-cases (x == i)) [
  | inl e ↦ ground arith
  | inr e ↦ let r = contains_below i xs (ground arith) in ground (arith, r)
]

other : (i j : ℕ) (ids : List ℕ) → contains i ids ≡ false → contains j ids ≡ true → (i == j) ≡ false
other i j ids f m = elim (Bool-cases (i == j)) [
  | inl e ↦ absurd (let same = ap (λ k. contains k ids) (id_eq i j e) in ground (arith, same))
  | inr e ↦ e
]

between_room : (i m n : ℕ) → i ≤ m → m + 1 ≤ n → i < n
between_room i m n a b = omega arith

pub fitted_room :
    {V : Type 0} (d : V) (ids : List ℕ) (xs : List V) (i : ℕ)
    → contains i ids ≡ true
    → i < length (fitted d ids xs)
fitted_room d [] xs i h = absurd (ground arith)
fitted_room d (x ∷ ids) xs i h =
    let below = contains_below i (x ∷ ids) h in
    let big = length-grown d (maximum (x ∷ ids) + 1) xs in
    between_room i (maximum (x ∷ ids)) (length (grown d (maximum (x ∷ ids) + 1) xs)) below big.0

module _ {V : Type 0} (d : V) where
  generation-set :
      (i : ℕ) (v : V) (slots : List (Slot V)) (j : ℕ)
      → (get_or
          (set_at i (record (get_or slots i (free_slot d)) { value = v }) slots)
          j
          (free_slot d)).generation
        ≡ (get_or slots j (free_slot d)).generation
  generation-set i v [] j = refl
  generation-set zero v (s ∷ slots) zero = refl
  generation-set zero v (s ∷ slots) (suc j) = refl
  generation-set (suc i) v (s ∷ slots) zero = refl
  generation-set (suc i) v (s ∷ slots) (suc j) = generation-set i v slots j

  -- After the swaps of distinct ids, each of them has the value of its slot.
  pub get_or-swap_in :
      (ids : List ℕ) (states : List V) (slots : List (Slot V)) (j : ℕ)
      → Distinct ids
      → ((i : ℕ) → contains i ids ≡ true → i < length states)
      → get_or (swap_in d ids states slots).0 j d
        ≡ (if contains j ids then (get_or slots j (free_slot d)).value else get_or states j d)
  unfolding swap_in
  get_or-swap_in [] states slots j p r = refl
  get_or-swap_in (i ∷ ids) states slots j (fresh, p) r =
      let slot = get_or slots i (free_slot d) in
      let new : Slot V = record slot { value = get_or states i d } in
      let states' = set_at i slot.value states in
      let slots' = set_at i new slots in
      get_or-swap_in ids states' slots' j p
        (λ k h. subst (λ n. k < n) (sym (length-set_at d slot.value i states)) (r k (ground arith)))
      ∙ elim (Bool-cases (contains j ids)) [
        | inl m ↦
            let apart = other i j ids fresh m in
            rw (m, apart) (ap (λ s. s.value) (set_elsewhere (free_slot d) new i j slots apart))
        | inr m ↦ elim (Bool-cases (i == j)) [
          | inl e ↦
              rw (m, e)
                (ap (λ k. get_or states' k d) (sym (id_eq i j e))
                  ∙ set_here d slot.value i states (r i (ground arith))
                  ∙ ap (λ k. (get_or slots k (free_slot d)).value) (id_eq i j e))
          | inr e ↦ rw (m, e) (set_elsewhere d slot.value i j states e)
        ]
      ]

  pub generation-swap_in :
      (ids : List ℕ) (states : List V) (slots : List (Slot V)) (j : ℕ)
      → (get_or (swap_in d ids states slots).1 j (free_slot d)).generation
        ≡ (get_or slots j (free_slot d)).generation
  unfolding swap_in
  generation-swap_in [] states slots j = refl
  generation-swap_in (i ∷ ids) states slots j =
      let slot = get_or slots i (free_slot d) in
      let new : Slot V = record slot { value = get_or states i d } in
      generation-swap_in ids (set_at i slot.value states) (set_at i new slots) j
      ∙ generation-set i (get_or states i d) slots j
