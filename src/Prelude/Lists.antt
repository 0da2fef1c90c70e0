-- ===== src/Prelude/Lists.antt =====
-- Lists measured and indexed by native numbers, under the library's names.
use Prim.Native.Nat.{ℕ, zero, suc, ◌+◌, ◌<◌}
use mathlib.Core.Bool.{Bool, false, ◌||◌}
use server_entry.Prelude.Tests.{◌==◌}
use mathlib.Core.Path.{◌≡◌, refl, ap}
use mathlib.Core.List.{List, [], ◌∷◌, ◌++◌}
use mathlib.Core.Option.{Option, none, some}
use native.Mathlib.Omega.{arith}

module _ {ℓ} {A : Type ℓ} where
  abbrev pub length : List A → ℕ
  length [] = 0
  length (x ∷ xs) = suc (length xs)

  abbrev pub get_elem? : List A → ℕ → Option A
  get_elem? [] i = none
  get_elem? (x ∷ xs) zero = some x
  get_elem? (x ∷ xs) (suc i) = get_elem? xs i

  abbrev pub get_or : List A → ℕ → A → A
  get_or [] i d = d
  get_or (x ∷ xs) zero d = x
  get_or (x ∷ xs) (suc i) d = get_or xs i d

  pub length-append : (xs ys : List A) → length (xs ++ ys) ≡ length xs + length ys
  length-append [] ys = omega arith
  length-append (x ∷ xs) ys = omega (arith, length-append xs ys)

  abbrev pub All {κ} : (A → Type κ) → List A → Type κ
  All P [] = Unit
  All P (x ∷ xs) = P x × All P xs

  pub All-append {κ} : (P : A → Type κ) (xs ys : List A) → All P xs → All P ys → All P (xs ++ ys)
  All-append P [] ys p q = q
  All-append P (x ∷ xs) ys p q = (p.0, All-append P xs ys p.1 q)

  pub get_elem?-append_left :
      (xs ys : List A) (i : ℕ) → i < length xs → get_elem? (xs ++ ys) i ≡ get_elem? xs i
  get_elem?-append_left [] ys i h = absurd (omega arith)
  get_elem?-append_left (x ∷ xs) ys zero h = refl
  get_elem?-append_left (x ∷ xs) ys (suc i) h = get_elem?-append_left xs ys i (omega arith)

abbrev pub set_at {ℓ} : {A : Type ℓ} → ℕ → A → List A → List A
set_at i v [] = []
set_at zero v (x ∷ xs) = v ∷ xs
set_at (suc i) v (x ∷ xs) = x ∷ set_at i v xs

module _ {ℓ} {A : Type ℓ} (d v : A) where
  pub set_here : (i : ℕ) (xs : List A) → i < length xs → get_or (set_at i v xs) i d ≡ v
  set_here i [] h = absurd (omega arith)
  set_here zero (x ∷ xs) h = refl
  set_here (suc i) (x ∷ xs) h = set_here i xs (omega arith)

  pub set_elsewhere :
      (i j : ℕ) (xs : List A) → (i == j) ≡ false → get_or (set_at i v xs) j d ≡ get_or xs j d
  set_elsewhere i j [] h = refl
  set_elsewhere zero zero (x ∷ xs) h = absurd (ground arith)
  set_elsewhere zero (suc j) (x ∷ xs) h = refl
  set_elsewhere (suc i) zero (x ∷ xs) h = refl
  set_elsewhere (suc i) (suc j) (x ∷ xs) h = set_elsewhere i j xs (ground arith)

  pub length-set_at : (i : ℕ) (xs : List A) → length (set_at i v xs) ≡ length xs
  length-set_at i [] = refl
  length-set_at zero (x ∷ xs) = refl
  length-set_at (suc i) (x ∷ xs) = ap suc (length-set_at i xs)

abbrev pub contains : ℕ → List ℕ → Bool
contains x [] = false
contains x (y ∷ ys) = y == x || contains x ys
