-- ===== src/Graph/Compiled/Inversion.antt =====
-- What the value of an optional computation says of its steps.
use server_entry.Prelude.{
  ◌≡◌, refl, sym, ap, ◌∙◌, Bool, true, false, List, [], ◌∷◌, Option, none, some, if◌then◌else◌, map,
  All, arith,
}
use server_entry.Graph.Lookup.{when, and_then}
use server_entry.Graph.Compiled.Arrays.{convert_all}

pub some-inj {ℓ} : {A : Type ℓ} {a b : A} → some a ≡ some b → a ≡ b
some-inj {a = a} {b = b} e = ap (λ o. elim o [ none ↦ a | some x ↦ x ]) e

module _ {ℓ} {A : Type ℓ} where
  pub unless-some :
      (b : Bool) (o : Option A) (x : A)
      → (if b then none else o) ≡ some x
      → (b ≡ false) × (o ≡ some x)
  unless-some true o x h = absurd (ground arith)
  unless-some false o x h = (refl, h)

  pub when-some : (b : Bool) (o : Option A) (x : A) → when b o ≡ some x → (b ≡ true) × (o ≡ some x)
  when-some true o x h = (refl, h)
  when-some false o x h = absurd (ground arith)

module _ {ℓ κ} {A : Type ℓ} {B : Type κ} where
  pub and_then-some :
      (o : Option A) (f : A → Option B) (b : B)
      → and_then o f ≡ some b
      → (a : A) × (o ≡ some a) × (f a ≡ some b)
  and_then-some none f b h = absurd (ground arith)
  and_then-some (some a) f b h = (a, refl, h)

module _ {ℓ κ} {A : Type ℓ} {B : Type κ} where
  convert_all_empty : (check : A → Bool) (convert : A → B) → convert_all check convert [] ≡ some []
  unfolding convert_all
  convert_all_empty check convert = refl

  convert_all_front :
      (check : A → Bool) (convert : A → B) (x : A) (xs : List A)
      → convert_all check convert (x ∷ xs)
        ≡ and_then (convert_all check convert xs) (λ ys. when (check x) (some (convert x ∷ ys)))
  unfolding convert_all
  convert_all_front check convert x xs = refl

  pub convert_all-map :
      (check : A → Bool) (convert : A → B) (xs : List A) (ys : List B)
      → convert_all check convert xs ≡ some ys
      → (ys ≡ map convert xs) × All (λ x. check x ≡ true) xs
  convert_all-map check convert [] ys h =
      (sym (some-inj (sym (convert_all_empty check convert) ∙ h)), tt)
  convert_all-map check convert (x ∷ xs) ys h =
      let a =
        and_then-some (convert_all check convert xs) _ ys
          (sym (convert_all_front check convert x xs) ∙ h) in
      let b = when-some (check x) _ ys a.2 in
      let rest = convert_all-map check convert xs a.0 a.1 in
      (sym (some-inj b.1) ∙ ap (λ t. convert x ∷ t) rest.0, (b.0, rest.1))
