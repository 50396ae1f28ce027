-- ===== src/Csym/Fixups/Duplicates/Twins.antt =====
-- Which equal types are left in a slice.
use psx_mnd_sym.Prelude.{
  ℕ, ◌≡◌, refl, ◌⊎◌, inl, inr, List, [], ◌∷◌, Text, ==_refl, if◌then◌else◌, Bool, true, false,
  Bool-cases, Option, some, All,
}
use psx_mnd_sym.Csym.State.{Map}
use psx_mnd_sym.Csym.Fixups.Replace.{
  Ref, a_struct, an_union, an_enum, Remap, find_key, is_key, same_ref,
}
use psx_mnd_sym.Csym.Fixups.Duplicates.{mark_behind, mark_slice, mark_tags}
use psx_mnd_sym.Csym.Fixups.Duplicates.Left.{kept}

same_ref_refl : (t : Ref) → same_ref t t ≡ true
unfolding same_ref
same_ref_refl (a_struct i) = ==_refl i
same_ref_refl (an_union i) = ==_refl i
same_ref_refl (an_enum i) = ==_refl i

module _ (sort : ℕ → Ref) (equal : Ref → Ref → Bool) where
  -- No type is equal to one before it.
  abbrev pub HasNoTwins : List ℕ → Type 0
  HasNoTwins [] = Unit {0}
  HasNoTwins (i ∷ places) = All (λ j. equal (sort j) (sort i) ≡ false) places × HasNoTwins places

  -- Marked, or not equal to the type.
  abbrev IsMarkedOrOther : Remap → Ref → ℕ → Type 0
  IsMarkedOrOther r t j = (is_key (sort j) r ≡ true) ⊎ (equal (sort j) t ≡ false)

  abbrev pub IsResolved : Remap → List ℕ → Type 0
  IsResolved r [] = Unit {0}
  IsResolved r (i ∷ places) =
      ((is_key (sort i) r ≡ true) ⊎ All (IsMarkedOrOther r (sort i)) places) × IsResolved r places

  abbrev Grows : Remap → Remap → Type 0
  Grows r r' = (t : Ref) → is_key t r ≡ true → is_key t r' ≡ true

  add-Grows : (r : Remap) (s : Ref) (value : Option Ref) → Grows r ((s, value) ∷ r)
  unfolding find_key
  add-Grows r s value t h = elim (Bool-cases (same_ref t s)) [
    | inl e ↦ rw (is_key, e) refl
    | inr e ↦ rw (is_key, e) h
  ]

  mark_behind-Grows : (t : Ref) (js : List ℕ) (r : Remap) → Grows r (mark_behind equal sort t js r)
  unfolding mark_behind
  mark_behind-Grows t [] r u h = h
  mark_behind-Grows t (j ∷ js) r u h = elim (Bool-cases (is_key (sort j) r)) [
    | inl e ↦ rw e (mark_behind-Grows t js r u h)
    | inr e ↦ elim (Bool-cases (equal (sort j) t)) [
      | inl e' ↦
          rw (e, e')
            (mark_behind-Grows t js ((sort j, some t) ∷ r) u (add-Grows r (sort j) (some t) u h))
      | inr e' ↦ rw (e, e') (mark_behind-Grows t js r u h)
    ]
  ]

  mark_slice-Grows : (places : List ℕ) (r : Remap) → Grows r (mark_slice equal sort places r)
  unfolding mark_slice
  mark_slice-Grows [] r u h = h
  mark_slice-Grows (i ∷ places) r u h = elim (Bool-cases (is_key (sort i) r)) [
    | inl e ↦ rw e (mark_slice-Grows places r u h)
    | inr e ↦ rw e (
        mark_slice-Grows places (mark_behind equal sort (sort i) places r) u
          (mark_behind-Grows (sort i) places r u h))
  ]

  mark_tags-Grows : (m : Map (List ℕ)) (r : Remap) → Grows r (mark_tags equal sort m r)
  unfolding mark_tags
  mark_tags-Grows [] r u h = h
  mark_tags-Grows ((tag, places) ∷ m) r u h =
      mark_tags-Grows m (mark_slice equal sort places r) u (mark_slice-Grows places r u h)

  grown :
      (r r' : Remap) (t : Ref) (places : List ℕ)
      → Grows r r'
      → All (IsMarkedOrOther r t) places
      → All (IsMarkedOrOther r' t) places
  grown r r' t [] more h = tt
  grown r r' t (j ∷ places) more (inl e, h) = (inl (more (sort j) e), grown r r' t places more h)
  grown r r' t (j ∷ places) more (inr e, h) = (inr e, grown r r' t places more h)

  IsResolved-grown :
      (r r' : Remap) (places : List ℕ) → Grows r r' → IsResolved r places → IsResolved r' places
  IsResolved-grown r r' [] more h = tt
  IsResolved-grown r r' (i ∷ places) more (inl e, h) =
      (inl (more (sort i) e), IsResolved-grown r r' places more h)
  IsResolved-grown r r' (i ∷ places) more (inr e, h) =
      (inr (grown r r' (sort i) places more e), IsResolved-grown r r' places more h)

  self_marked : (r : Remap) (s : Ref) (value : Option Ref) → is_key s ((s, value) ∷ r) ≡ true
  unfolding find_key
  self_marked r s value = rw (is_key, same_ref_refl s) refl

  -- One type of the inner loop, and one of the outer loop.
  abbrev behind_step : Ref → ℕ → Remap → Remap
  behind_step t j r =
      if is_key (sort j) r then r else if equal (sort j) t then (sort j, some t) ∷ r else r

  abbrev slice_step : ℕ → List ℕ → Remap → Remap
  slice_step i places r = if is_key (sort i) r then r else mark_behind equal sort (sort i) places r

  behind_step-marks : (t : Ref) (j : ℕ) (r : Remap) → IsMarkedOrOther (behind_step t j r) t j
  behind_step-marks t j r = elim (Bool-cases (is_key (sort j) r)) [
    | inl e ↦ rw e (inl e)
    | inr e ↦ elim (Bool-cases (equal (sort j) t)) [
      | inl e' ↦ rw (e, e') (inl (self_marked r (sort j) (some t)))
      | inr e' ↦ inr e'
    ]
  ]

  mark_behind-marks :
      (t : Ref) (js : List ℕ) (r : Remap)
      → All (IsMarkedOrOther (mark_behind equal sort t js r) t) js
  unfolding mark_behind
  mark_behind-marks t [] r = tt
  mark_behind-marks t (j ∷ js) r =
      let r1 = behind_step t j r in
      let marked =
        grown r1 (mark_behind equal sort t js r1) t (j ∷ []) (mark_behind-Grows t js r1)
          (behind_step-marks t j r, tt) in
      (marked.0, mark_behind-marks t js r1)

  slice_step-resolves :
      (i : ℕ) (places : List ℕ) (r : Remap)
      → (is_key (sort i) (slice_step i places r) ≡ true)
        ⊎ All (IsMarkedOrOther (slice_step i places r) (sort i)) places
  slice_step-resolves i places r = elim (Bool-cases (is_key (sort i) r)) [
    | inl e ↦ rw e (inl e)
    | inr e ↦ rw e (inr (mark_behind-marks (sort i) places r))
  ]

  mark_slice-IsResolved :
      (places : List ℕ) (r : Remap) → IsResolved (mark_slice equal sort places r) places
  unfolding mark_slice
  mark_slice-IsResolved [] r = tt
  mark_slice-IsResolved (i ∷ places) r =
      let r1 = slice_step i places r in
      let more = mark_slice-Grows places r1 in
      let first : (is_key (sort i) (mark_slice equal sort places r1) ≡ true)
          ⊎ All (IsMarkedOrOther (mark_slice equal sort places r1) (sort i)) places =
        elim (slice_step-resolves i places r) [
          | inl e ↦ inl (more (sort i) e)
          | inr h ↦ inr (grown r1 (mark_slice equal sort places r1) (sort i) places more h)
        ] in
      (first, mark_slice-IsResolved places r1)

  pub mark_tags-IsResolved :
      (m : Map (List ℕ)) (r : Remap)
      → All (λ (e : Text × List ℕ). IsResolved (mark_tags equal sort m r) e.1) m
  unfolding mark_tags
  mark_tags-IsResolved [] r = tt
  mark_tags-IsResolved ((tag, places) ∷ m) r =
      let r1 = mark_slice equal sort places r in
      (
        IsResolved-grown r1 (mark_tags equal sort m r1) places (mark_tags-Grows m r1)
            (mark_slice-IsResolved places r),
        mark_tags-IsResolved m r1,
      )

  kept-others :
      (r : Remap) (t : Ref) (places : List ℕ)
      → All (IsMarkedOrOther r t) places
      → All (λ j. equal (sort j) t ≡ false) (kept sort r places)
  unfolding kept
  kept-others r t [] h = tt
  kept-others r t (j ∷ places) (inl e, h) = rw e (kept-others r t places h)
  kept-others r t (j ∷ places) (inr e, h) = elim (Bool-cases (is_key (sort j) r)) [
    | inl e' ↦ rw e' (kept-others r t places h)
    | inr e' ↦ rw e' (e, kept-others r t places h)
  ]

  -- Of a slice in which all equal types behind another are marked, what is left has no equal types.
  pub kept-HasNoTwins :
      (r : Remap) (places : List ℕ) → IsResolved r places → HasNoTwins (kept sort r places)
  unfolding kept
  kept-HasNoTwins r [] h = tt
  kept-HasNoTwins r (i ∷ places) (inl e, h) = rw e (kept-HasNoTwins r places h)
  kept-HasNoTwins r (i ∷ places) (inr e, h) = elim (Bool-cases (is_key (sort i) r)) [
    | inl e' ↦ rw e' (kept-HasNoTwins r places h)
    | inr e' ↦ rw e' (kept-others r (sort i) places e, kept-HasNoTwins r places h)
  ]
