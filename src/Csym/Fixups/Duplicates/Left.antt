-- ===== src/Csym/Fixups/Duplicates/Left.antt =====
-- What is left of the slices of types when the marked ones have been taken out.
use psx_mnd_sym.Prelude.{
  ℕ, ◌≡◌, refl, ap, ◌∙◌, inl, inr, List, [], ◌∷◌, map, Bool, true, false, if◌then◌else◌, Bool-cases,
  Option, none, some, All,
}
use psx_mnd_sym.Csym.Fixups.Replace.{Ref, Remap, find_key, is_key, same_ref}
use psx_mnd_sym.Csym.Fixups.Slices.{replace_place, replace_in_slice, present, prune_slice}
use psx_mnd_sym.Csym.Fixups.Slices.Filter.{rm_nil-present}
use psx_mnd_sym.Csym.Fixups.Duplicates.{to_nil}

present-some : (places : List ℕ) → present (map some places) ≡ places
unfolding present
present-some [] = refl
present-some (i ∷ places) = ap (λ l. i ∷ l) (present-some places)

find_key-to_nil :
    (t : Ref) (r : Remap) → find_key t (to_nil r) ≡ (if is_key t r then some none else none)
unfolding find_key to_nil
find_key-to_nil t [] = refl
find_key-to_nil t ((key, value) ∷ r) = elim (Bool-cases (same_ref t key)) [
  | inl e ↦ rw (is_key, e) refl
  | inr e ↦ rw (is_key, e) (find_key-to_nil t r)
]

module _ (sort : ℕ → Ref) (r : Remap) where
  unfoldable pub kept : List ℕ → List ℕ
  kept [] = []
  kept (i ∷ places) = let rest = kept places in if is_key (sort i) r then rest else i ∷ rest

  replace_place-to_nil :
      (i : ℕ)
      → replace_place sort (to_nil r) (some i) ≡ (if is_key (sort i) r then none else some i)
  unfolding replace_place
  replace_place-to_nil i = elim (Bool-cases (is_key (sort i) r)) [
    | inl e ↦ rw (replace_place, find_key-to_nil (sort i) r, e) refl
    | inr e ↦ rw (replace_place, find_key-to_nil (sort i) r, e) refl
  ]

  present_step :
      (marked : Bool) (i : ℕ) (rest : List (Option ℕ))
      → present ((if marked then none else some i) ∷ rest)
        ≡ (if marked then present rest else i ∷ present rest)
  unfolding present
  present_step true i rest = refl
  present_step false i rest = refl

  present-replaced :
      (places : List ℕ)
      → present (map (replace_place sort (to_nil r)) (map some places)) ≡ kept places
  unfolding present kept
  present-replaced [] = refl
  present-replaced (i ∷ places) = rw (replace_place-to_nil i) (
      present_step (is_key (sort i) r) i (map (replace_place sort (to_nil r)) (map some places))
      ∙ ap (λ l. if is_key (sort i) r then l else i ∷ l) (present-replaced places))

  pub prune_slice-kept : (places : List ℕ) → prune_slice sort (to_nil r) places ≡ kept places
  unfolding prune_slice replace_in_slice
  prune_slice-kept places =
      let replaced = replace_in_slice sort (to_nil r) (map some places) in
      ap present (rm_nil-present replaced)
      ∙ present-some (present replaced)
      ∙ present-replaced places

  -- Places that are left stand for no marked type.
  pub kept-All :
      (P : ℕ → Type 0) (places : List ℕ)
      → All P places
      → All (λ i. P i × (is_key (sort i) r ≡ false)) (kept places)
  unfolding kept
  kept-All P [] h = tt
  kept-All P (i ∷ places) h = elim (Bool-cases (is_key (sort i) r)) [
    | inl e ↦ rw e (kept-All P places h.1)
    | inr e ↦ rw e ((h.0, e), kept-All P places h.1)
  ]
