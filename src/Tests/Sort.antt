-- ===== src/Tests/Sort.antt =====
-- An insertion sort, for the parameter that stands for sort.Slice.
use psx_mnd_sym.Prelude.{
  ◌+◌, ◌≡◌, refl, ap, ◌∙◌, List, [], ◌∷◌, Bool, false, if◌then◌else◌, All, arith, Bool-cases, inl,
  inr,
}
use psx_mnd_sym.C.Sorting.{count, IsWeakOrder, IsSorted, Sorting}

module _ {A : Type 0} (less : A → A → Bool) where
  unfoldable pub insert_before : A → List A → List A
  insert_before x [] = x ∷ []
  insert_before x (y ∷ ys) =
      let rest = insert_before x ys in if less y x then y ∷ rest else x ∷ (y ∷ ys)

  unfoldable pub insertion_sort : List A → List A
  unfolding insert_before
  insertion_sort [] = []
  insertion_sort (x ∷ xs) = insert_before x (insertion_sort xs)

  count-insert_before :
      (p : A → Bool) (x : A) (ys : List A) → count p (insert_before x ys) ≡ count p (x ∷ ys)
  unfolding insert_before
  count-insert_before p x [] = refl
  count-insert_before p x (y ∷ ys) = elim (Bool-cases (less y x)) [
    | inl e ↦ rw e (omega (arith, count-insert_before p x ys))
    | inr e ↦ rw e refl
  ]

  pub count-insertion_sort : (p : A → Bool) (xs : List A) → count p (insertion_sort xs) ≡ count p xs
  unfolding insertion_sort
  count-insertion_sort p [] = refl
  count-insertion_sort p (x ∷ xs) =
      count-insert_before p x (insertion_sort xs)
      ∙ ap (λ n. (if p x then 1 else 0) + n) (count-insertion_sort p xs)

  All-insert_before :
      (P : A → Type 0) (x : A) (ys : List A) → P x → All P ys → All P (insert_before x ys)
  unfolding insert_before
  All-insert_before P x [] h hs = (h, tt)
  All-insert_before P x (y ∷ ys) h hs = elim (Bool-cases (less y x)) [
    | inl e ↦ rw e (hs.0, All-insert_before P x ys h hs.1)
    | inr e ↦ rw e (h, hs)
  ]

  module _ (order : IsWeakOrder less) where
    not_below :
        (x y : A) (ys : List A)
        → less y x ≡ false
        → All (λ z. less z y ≡ false) ys
        → All (λ z. less z x ≡ false) ys
    not_below x y [] h hs = tt
    not_below x y (z ∷ ys) h hs =
        (order.negatively_transitive z y x hs.0 h, not_below x y ys h hs.1)

    insert_before-IsSorted :
        (x : A) (ys : List A) → IsSorted less ys → IsSorted less (insert_before x ys)
    unfolding insert_before
    insert_before-IsSorted x [] h = (tt, tt)
    insert_before-IsSorted x (y ∷ ys) h = elim (Bool-cases (less y x)) [
      | inl e ↦ rw e (
        All-insert_before (λ z. less z y ≡ false) x ys (order.asymmetric y x e) h.0,
        insert_before-IsSorted x ys h.1,
      )
      | inr e ↦ rw e ((e, not_below x y ys e h.0), h)
    ]

    pub insertion_sort-IsSorted : (xs : List A) → IsSorted less (insertion_sort xs)
    unfolding insertion_sort
    insertion_sort-IsSorted [] = tt
    insertion_sort-IsSorted (x ∷ xs) =
        insert_before-IsSorted x (insertion_sort xs) (insertion_sort-IsSorted xs)

abbrev pub inserting : Sorting
inserting = record {
  sort_slice = insertion_sort;
  count-sort_slice = count-insertion_sort;
  sort_slice-IsSorted = λ {A} less xs order. insertion_sort-IsSorted less order xs;
}

-- Sorts twice.
abbrev pub inserting_twice : Sorting
inserting_twice = record {
  sort_slice = λ {A} less xs. insertion_sort less (insertion_sort less xs);
  count-sort_slice = λ {A} less p xs.
      count-insertion_sort less p (insertion_sort less xs) ∙ count-insertion_sort less p xs;
  sort_slice-IsSorted =
      λ {A} less xs order. insertion_sort-IsSorted less order (insertion_sort less xs);
}
