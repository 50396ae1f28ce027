-- ===== src/Csym/Fixups/Slices/Filter.antt =====
-- rmNilStructsFromSlice keeps the pointers that are not nil, in their order.
use psx_mnd_sym.Prelude.{
  ℕ, zero, suc, ◌+◌, ◌-◌, ◌≤◌, ◌≡◌, refl, sym, ap, ◌∙◌, List, [], ◌∷◌, ◌++◌, map, ltb,
  if◌then◌else◌, Option, none, some, length, length-append, take, drop, set, arith, append_assoc,
  append-nil, ap₂, ge→ltb, lt→ltb,
}
use psx_mnd_sym.Csym.Fixups.Slices.{at, copy_down, take_out, rm_nil_from, rm_nil, present}

take_length_append {ℓ} : {A : Type ℓ} (xs ys : List A) → take (length xs) (xs ++ ys) ≡ xs
take_length_append [] ys = refl
take_length_append (x ∷ xs) ys = ap (λ zs. x ∷ zs) (take_length_append xs ys)

drop_length_append {ℓ} :
    {A : Type ℓ} (xs ys : List A) (y : A) → drop (suc (length xs)) (xs ++ y ∷ ys) ≡ ys
drop_length_append [] ys y = refl
drop_length_append (x ∷ xs) ys y = drop_length_append xs ys y

-- A write behind what is taken.
take-set {ℓ} : {A : Type ℓ} (n : ℕ) (xs : List A) (v : A) → take n (set xs n v) ≡ take n xs
take-set zero xs v = refl
take-set (suc n) [] v = refl
take-set (suc n) (x ∷ xs) v = ap (λ ys. x ∷ ys) (take-set n xs v)

take_front {ℓ} :
    {A : Type ℓ} (front back : List A) (n : ℕ) (v : A)
    → n ≡ length front
    → take n (set (front ++ back) n v) ≡ front
take_front front back n v h =
    take-set n (front ++ back) v
    ∙ ap (λ k. take k (front ++ back)) h
    ∙ take_length_append front back

-- What `copy` leaves: the element at the place is gone.
copied_front :
    (done rest : List (Option ℕ)) (x : Option ℕ)
    → (back : List (Option ℕ)) × ((if ltb (length done) (length (done ++ x ∷ rest) - 1)
          then copy_down (length done) (done ++ x ∷ rest)
          else done ++ x ∷ rest)
        ≡ (done ++ rest) ++ back)
unfolding copy_down
copied_front done [] x = (
  x ∷ [],
  rw
      (ge→ltb (length done) (length (done ++ x ∷ []) - 1)
        (omega (arith, length-append done (x ∷ []))))
      (ap (λ xs. xs ++ x ∷ []) (sym (append-nil done))),
)
copied_front done (y ∷ rest) x =
    let all = done ++ x ∷ y ∷ rest in
    let last = drop (length all - 1) all in
    (
      last,
      rw (lt→ltb (length done) (length all - 1) (omega (arith, length-append done (x ∷ y ∷ rest))))
          (ap₂ (λ a b. a ++ (b ++ last)) (take_length_append done (x ∷ y ∷ rest))
              (ap (λ n. drop n all) {x = length done + 1} {y = suc (length done)} (omega arith)
                ∙ drop_length_append done (y ∷ rest) x)
            ∙ sym (append_assoc done (y ∷ rest) last)),
    )

-- The element behind `done` taken out.
take_out-append :
    (done rest : List (Option ℕ)) (x : Option ℕ)
    → take_out (length done) (done ++ x ∷ rest) ≡ done ++ rest
unfolding take_out
take_out-append done rest x =
    let n = length (done ++ x ∷ rest) - 1 in
    let (back, copied) = copied_front done rest x in
    ap (λ xs. take n (set xs n none)) copied
    ∙ take_front (done ++ rest) back n none
        (omega (arith, length-append done rest, length-append done (x ∷ rest)))

at-append : (done rest : List (Option ℕ)) (x : Option ℕ) → at (done ++ x ∷ rest) (length done) ≡ x
at-append [] rest x = refl
at-append (y ∷ done) rest x = at-append done rest x

-- One round on an element, whatever stands in front of it.
rm_nil_from_nil :
    (rounds : ℕ) (done rest : List (Option ℕ))
    → rm_nil_from (suc rounds) (length done) (done ++ none ∷ rest)
      ≡ rm_nil_from rounds (length done) (done ++ rest)
unfolding rm_nil_from
rm_nil_from_nil rounds done rest =
    rw
      (
        rm_nil_from,
        lt→ltb (length done) (length (done ++ none ∷ rest))
            (omega (arith, length-append done (none ∷ rest))),
        at-append done rest none,
        take_out-append done rest none,
      )
      refl

rm_nil_from-some :
    (rounds i : ℕ) (done rest : List (Option ℕ))
    → rm_nil_from (suc rounds) (length done) (done ++ some i ∷ rest)
      ≡ rm_nil_from rounds (length done + 1) (done ++ some i ∷ rest)
unfolding rm_nil_from
rm_nil_from-some rounds i done rest =
    rw
      (
        rm_nil_from,
        lt→ltb (length done) (length (done ++ some i ∷ rest))
            (omega (arith, length-append done (some i ∷ rest))),
        at-append done rest (some i),
      )
      refl

rm_nil_from_end : (rounds : ℕ) (xs : List (Option ℕ)) → rm_nil_from rounds (length xs) xs ≡ xs
unfolding rm_nil_from
rm_nil_from_end zero xs = refl
rm_nil_from_end (suc rounds) xs =
    rw (rm_nil_from, ge→ltb (length xs) (length xs) (omega arith)) refl

rm_nil_from-append :
    (rounds : ℕ) (done rest : List (Option ℕ))
    → length rest ≤ rounds
    → rm_nil_from rounds (length done) (done ++ rest) ≡ done ++ map some (present rest)
unfolding present
rm_nil_from-append rounds done [] h =
    ap (λ xs. rm_nil_from rounds (length done) xs) (append-nil done)
    ∙ rm_nil_from_end rounds done
    ∙ sym (append-nil done)
rm_nil_from-append zero done (x ∷ rest) h = absurd (omega arith)
rm_nil_from-append (suc rounds) done (none ∷ rest) h =
    rm_nil_from_nil rounds done rest ∙ rm_nil_from-append rounds done rest (omega arith)
rm_nil_from-append (suc rounds) done (some i ∷ rest) h =
    rm_nil_from-some rounds i done rest
    ∙ ap₂ (rm_nil_from rounds) (omega (arith, length-append done (some i ∷ [])))
        (sym (append_assoc done (some i ∷ []) rest))
    ∙ rm_nil_from-append rounds (done ++ some i ∷ []) rest (omega arith)
    ∙ append_assoc done (some i ∷ []) (map some (present rest))

-- rmNilStructsFromSlice, which shifts the rest of the slice over each nil pointer, gives the pointers
-- that are not nil, in their order.
pub rm_nil-present : (xs : List (Option ℕ)) → rm_nil xs ≡ map some (present xs)
unfolding rm_nil
rm_nil-present xs = rm_nil_from-append (length xs) [] xs (omega arith)
