-- ===== src/C/Sorting.antt =====
-- sort.Slice, a parameter: the package is no part of the repository.
use psx_mnd_sym.Prelude.{
  ℕ, ◌+◌, ◌≡◌, refl, sym, ap, List, [], ◌∷◌, ◌++◌, Bool, true, false, if◌then◌else◌, All, arith,
  ap₂, Bool-cases, inl, inr,
}

-- How many elements pass the test.
abbrev pub count {ℓ} : {A : Type ℓ} → (A → Bool) → List A → ℕ
count p [] = 0
count p (x ∷ xs) = (if p x then 1 else 0) + count p xs

pub count-append {ℓ} :
    {A : Type ℓ} (p : A → Bool) (xs ys : List A) → count p (xs ++ ys) ≡ count p xs + count p ys
count-append p [] ys = omega arith
count-append p (x ∷ xs) ys = omega (arith, count-append p xs ys)

-- What sort.Slice asks of `less`: a strict weak order.
pub record IsWeakOrder {A : Type 0} (less : A → A → Bool) : Type 0 where
  pub asymmetric : (a b : A) → less a b ≡ true → less b a ≡ false
  pub negatively_transitive : (a b c : A) → less a b ≡ false → less b c ≡ false → less a c ≡ false

-- No element is less than one before it.
abbrev pub IsSorted : {A : Type 0} → (A → A → Bool) → List A → Type 0
IsSorted less [] = Unit {0}
IsSorted less (x ∷ xs) = All (λ y. less y x ≡ false) xs × IsSorted less xs

-- What is documented of sort.Slice: the elements are those of the slice, in ascending order. Equal
-- elements may come in any order.
pub record Sorting : Type 1 where
  pub sort_slice : {A : Type 0} → (A → A → Bool) → List A → List A
  pub count-sort_slice :
      {A : Type 0} (less : A → A → Bool) (p : A → Bool) (xs : List A)
      → count p (sort_slice less xs) ≡ count p xs
  pub sort_slice-IsSorted :
      {A : Type 0} (less : A → A → Bool) (xs : List A)
      → IsWeakOrder less
      → IsSorted less (sort_slice less xs)

module _ {A : Type 0} (less : A → A → Bool) (order : IsWeakOrder less) where
  less_irrefl : (a : A) → less a a ≡ false
  less_irrefl a = elim (Bool-cases (less a a)) [ inl e ↦ order.asymmetric a a e | inr e ↦ e ]

  count_none : (p : A → Bool) (xs : List A) → All (λ y. p y ≡ false) xs → count p xs ≡ 0
  count_none p [] h = refl
  count_none p (x ∷ xs) h = rw h.0 (omega (arith, count_none p xs h.1))

  head_passes_not : (p : A → Bool) (x : A) (xs : List A) → count p (x ∷ xs) ≡ 0 → p x ≡ false
  head_passes_not p x xs h = ground arith

  -- The first of a sorted list is not above the first of another with the same elements.
  head_least :
      (a b : A) (l r : List A)
      → IsSorted less (a ∷ l)
      → ((p : A → Bool) → count p (a ∷ l) ≡ count p (b ∷ r))
      → less b a ≡ false
  head_least a b l r sorted same =
      let below = λ (y : A). less y a in
      let none_below : count below (a ∷ l) ≡ 0 =
        count_none below (a ∷ l) (less_irrefl a, sorted.0) in
      head_passes_not below b r (omega (arith, same below, none_below))

  -- Two sorted lists with the same elements are one, if only equal elements are not ordered.
  pub IsSorted-unique :
      ((a b : A) → less a b ≡ false → less b a ≡ false → a ≡ b)
      → (l r : List A) → IsSorted less l
      → IsSorted less r
      → ((p : A → Bool) → count p l ≡ count p r)
      → l ≡ r
  IsSorted-unique linear [] [] sl sr same = refl
  IsSorted-unique linear [] (b ∷ r) sl sr same = absurd (omega (arith, same (λ _. true)))
  IsSorted-unique linear (a ∷ l) [] sl sr same = absurd (omega (arith, same (λ _. true)))
  IsSorted-unique linear (a ∷ l) (b ∷ r) sl sr same =
      let heads : a ≡ b =
        linear a b (head_least b a r l sr (λ p. sym (same p))) (head_least a b l r sl same) in
      let tails : (p : A → Bool) → count p l ≡ count p r =
        λ p. omega (arith, same p, ap (λ (x : A). count p (x ∷ [])) heads) in
      ap₂ ◌∷◌ heads (IsSorted-unique linear l r sl.1 sr.1 tails)
