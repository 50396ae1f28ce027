-- ===== src/Csym/Fixups/Duplicates/Marks.antt =====
-- The remapping that removeStructsDuplicates (and its copies for unions and enums) makes.
use psx_mnd_sym.Prelude.{
  ℕ, ◌≡◌, sym, subst, inl, inr, List, [], ◌∷◌, ◌++◌, Bool, true, false, Bool-cases, Option, some,
  All, ap, ==_iff, if-eq_cases,
}
use psx_mnd_sym.Csym.State.{Map}
use psx_mnd_sym.Csym.Fixups.Replace.{
  Ref, Remap, a_struct, an_union, an_enum, same_ref, find_key, is_key,
}
use psx_mnd_sym.Csym.Fixups.Duplicates.{mark_behind, mark_slice, mark_tags}

same_ref→eq : (t u : Ref) → same_ref t u ≡ true → t ≡ u
unfolding same_ref
same_ref→eq (a_struct i) (a_struct j) e = ap a_struct ((==_iff i j).0 e)
same_ref→eq (an_union i) (an_union j) e = ap an_union ((==_iff i j).0 e)
same_ref→eq (an_enum i) (an_enum j) e = ap an_enum ((==_iff i j).0 e)
same_ref→eq (a_struct i) (an_union j) e = cc
same_ref→eq (a_struct i) (an_enum j) e = cc
same_ref→eq (an_union i) (a_struct j) e = cc
same_ref→eq (an_union i) (an_enum j) e = cc
same_ref→eq (an_enum i) (a_struct j) e = cc
same_ref→eq (an_enum i) (an_union j) e = cc

-- The slices of all tags, one after the other.
unfoldable pub all_places : Map (List ℕ) → List ℕ
all_places [] = []
all_places ((tag, places) ∷ m) = places ++ all_places m

same_value : (t u : Ref) → some (some t) ≡ some (some u) → t ≡ u
same_value t u e = cc

not_key :
    (r : Remap) (t s : Ref) (value : Option Ref)
    → same_ref t s ≡ false
    → is_key t r ≡ false
    → is_key t ((s, value) ∷ r) ≡ false
unfolding find_key
not_key r t s value e h = rw (is_key, e) h

nothing_found : (t : Ref) (value : Option Ref) → find_key t [] ≡ some value → ⊥
unfolding find_key
nothing_found t value e = cc

All-left : (P : ℕ → Type 0) (xs ys : List ℕ) → All P (xs ++ ys) → All P xs
All-left P [] ys h = tt
All-left P (x ∷ xs) ys h = (h.0, All-left P xs ys h.1)

module _ (sort : ℕ → Ref) where
  -- The type is at none of the places.
  abbrev pub IsApart : Ref → List ℕ → Type 0
  IsApart t places = All (λ j. same_ref t (sort j) ≡ false) places

  -- No type is at two of the places.
  abbrev pub IsDistinct : List ℕ → Type 0
  IsDistinct [] = Unit {0}
  IsDistinct (i ∷ places) = IsApart (sort i) places × IsDistinct places

  IsDistinct-right : (xs ys : List ℕ) → IsDistinct (xs ++ ys) → IsDistinct ys
  IsDistinct-right [] ys h = h
  IsDistinct-right (x ∷ xs) ys h = IsDistinct-right xs ys h.1

  module _ (equal : Ref → Ref → Bool) where
    -- What is so of a remapping while the places are still to be gone through.
    abbrev IsSafe : Remap → List ℕ → Type 0
    IsSafe r places =
        (t u : Ref)
        → find_key t r ≡ some (some u)
        → (is_key u r ≡ false) × IsApart u places × (equal t u ≡ true)

    mark_one-IsSafe :
        (r : Remap) (t : Ref) (j : ℕ) (places : List ℕ)
        → IsSafe r places
        → ((u : Ref) → IsApart u places → same_ref u (sort j) ≡ false)
        → is_key t r ≡ false
        → IsApart t places
        → equal (sort j) t ≡ true
        → IsSafe ((sort j, some t) ∷ r) places
    unfolding find_key
    mark_one-IsSafe r t j places safe inside new apart eq k u e =
        elim (if-eq_cases (same_ref k (sort j)) {x = some (some t)} {y = find_key k r} e) [
          | inl (same, value) ↦
              let target = same_value t u value in
              subst
                (λ v.
                  (is_key v ((sort j, some t) ∷ r) ≡ false) × IsApart v places × (equal k v ≡ true))
                target
                (
                  not_key r t (sort j) (some t) (inside t apart) new,
                  apart,
                  subst (λ w. equal w t ≡ true) (sym (same_ref→eq k (sort j) same)) eq,
                )
          | inr (_, old) ↦
              let (before, away, alike) = safe k u old in
              (not_key r u (sort j) (some t) (inside u away) before, away, alike)
        ]

    mark_behind-IsSafe :
        (t : Ref) (js places : List ℕ) (r : Remap)
        → ((u : Ref) → IsApart u places → IsApart u js)
        → is_key t r ≡ false
        → IsApart t places
        → IsSafe r places
        → IsSafe (mark_behind equal sort t js r) places
    unfolding mark_behind
    mark_behind-IsSafe t [] places r inside new apart safe = safe
    mark_behind-IsSafe t (j ∷ js) places r inside new apart safe =
        let rest = λ (u : Ref) (away : IsApart u places). (inside u away).1 in
        let head = λ (u : Ref) (away : IsApart u places). (inside u away).0 in
        elim (Bool-cases (is_key (sort j) r)) [
          | inl e ↦ rw e (mark_behind-IsSafe t js places r rest new apart safe)
          | inr e ↦ elim (Bool-cases (equal (sort j) t)) [
            | inl e' ↦
                rw (e, e')
                  (mark_behind-IsSafe t js places ((sort j, some t) ∷ r) rest
                    (not_key r t (sort j) (some t) (head t apart) new) apart
                    (mark_one-IsSafe r t j places safe head new apart e'))
            | inr e' ↦ rw (e, e') (mark_behind-IsSafe t js places r rest new apart safe)
          ]
        ]

    mark_slice-IsSafe :
        (places later : List ℕ) (r : Remap)
        → IsDistinct (places ++ later)
        → IsSafe r (places ++ later)
        → IsSafe (mark_slice equal sort places r) later
    unfolding mark_slice
    mark_slice-IsSafe [] later r distinct safe = safe
    mark_slice-IsSafe (i ∷ places) later r distinct safe =
        let weaker : IsSafe r (places ++ later) =
          λ k u e. let (new, away, alike) = safe k u e in (new, away.1, alike) in
        elim (Bool-cases (is_key (sort i) r)) [
          | inl e ↦ rw e (mark_slice-IsSafe places later r distinct.1 weaker)
          | inr e ↦ rw e (
              mark_slice-IsSafe places later (mark_behind equal sort (sort i) places r) distinct.1 (
                mark_behind-IsSafe (sort i) places (places ++ later) r
                  (λ u away. All-left (λ j. same_ref u (sort j) ≡ false) places later away) e
                  distinct.0 weaker))
        ]

    mark_tags-IsSafe :
        (m : Map (List ℕ)) (r : Remap)
        → IsDistinct (all_places m)
        → IsSafe r (all_places m)
        → IsSafe (mark_tags equal sort m r) []
    unfolding mark_tags all_places
    mark_tags-IsSafe [] r distinct safe = safe
    mark_tags-IsSafe ((tag, places) ∷ m) r distinct safe =
        mark_tags-IsSafe m (mark_slice equal sort places r)
          (IsDistinct-right places (all_places m) distinct)
          (mark_slice-IsSafe places (all_places m) r distinct safe)

    -- Where no type is in the slices twice, each type that is marked is to be replaced by one that is deeply
    -- equal to it and that is not marked itself.
    pub mark_tags-IsClean :
        (m : Map (List ℕ))
        → IsDistinct (all_places m)
        → (t u : Ref) → find_key t (mark_tags equal sort m []) ≡ some (some u)
        → (equal t u ≡ true) × (is_key u (mark_tags equal sort m []) ≡ false)
    mark_tags-IsClean m distinct t u e =
        let (new, _, alike) =
          mark_tags-IsSafe m [] distinct (λ k v e'. absurd (nothing_found k (some v) e')) t u e in
        (alike, new)
