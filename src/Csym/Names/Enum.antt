-- ===== src/Csym/Names/Enum.antt =====
-- uniqueEnum: the loop ends, with a name that no member has.
use psx_mnd_sym.Prelude.{
  ℕ, zero, suc, ◌+◌, ◌≡◌, ◌∙◌, refl, sym, List, [], ◌∷◌, ◌++◌, Text, codes, true, false, ◌≤◌, ◌<◌,
  length, arith, if◌then◌else◌, text_eq, text_eq→eq, length-append, Bool-cases, inl, inr, ap, subst,
  ==_refl,
}
use psx_mnd_sym.Fmt.{dec}
use psx_mnd_sym.Fmt.Unique.{dec_injective}
use psx_mnd_sym.Csym.Names.{is_member, duplicate_enum, unique_enum_from, unique_enum}

unfoldable without : Text → List Text → List Text
without x [] = []
without x (m ∷ members) = let rest = without x members in if text_eq x m then rest else m ∷ rest

length-without : (x : Text) (members : List Text) → length (without x members) ≤ length members
unfolding without
length-without x [] = omega arith
length-without x (m ∷ members) = ground (arith, length-without x members)

length-without_member :
    (x : Text) (members : List Text)
    → is_member x members ≡ true
    → length (without x members) < length members
unfolding without is_member
length-without_member x [] h = cc
length-without_member x (m ∷ members) h =
    ground (arith, length-without x members, length-without_member x members)

is_member-without :
    (x y : Text) (members : List Text)
    → text_eq x y ≡ false
    → is_member x (without y members) ≡ is_member x members
unfolding without is_member
is_member-without x y [] other = refl
is_member-without x y (m ∷ members) other = elim (Bool-cases (text_eq y m)) [
  | inl e ↦
      let same : text_eq x m ≡ false = subst (λ t. text_eq x t ≡ false) (text_eq→eq y m e) other in
      rw (e, same) (is_member-without x y members other)
  | inr e ↦ rw (e, is_member-without x y members other) refl
]

text_eq_prefix : (p s t : Text) → text_eq (p ++ s) (p ++ t) ≡ text_eq s t
unfolding text_eq
text_eq_prefix [] s t = refl
text_eq_prefix (b ∷ p) s t = rw (==_refl b, text_eq_prefix p s t) refl

text_eq_other : (s t : Text) → (s ≡ t → ⊥) → text_eq s t ≡ false
text_eq_other s t other = elim (Bool-cases (text_eq s t)) [
  | inl e ↦ absurd (other (text_eq→eq s t e))
  | inr e ↦ e
]

module _ (name : Text) (members : List Text) where
  -- `rest` says of the names still to try what `members` says.
  abbrev Agrees : ℕ → Text → List Text → Type 0
  Agrees i new_name rest =
      (is_member new_name members ≡ is_member new_name rest)
      × ((j : ℕ) → i ≤ j → text_eq (duplicate_enum name j) new_name ≡ false)
      × ((j : ℕ)
          → i ≤ j
          → is_member (duplicate_enum name j) members ≡ is_member (duplicate_enum name j) rest)

  duplicate-injective :
      (i j : ℕ) → i < j → text_eq (duplicate_enum name j) (duplicate_enum name i) ≡ false
  duplicate-injective i j h =
      text_eq_prefix (name ++ codes "_DUPLICATE_") (dec j) (dec i)
      ∙ text_eq_other (dec j) (dec i) (λ e. omega (arith, dec_injective j i e, h))

  name-duplicate : (j : ℕ) → text_eq (duplicate_enum name j) name ≡ false
  name-duplicate j = text_eq_other (duplicate_enum name j) name (λ e. omega (
    arith,
    ap length e,
    length-append name (codes "_DUPLICATE_"),
    length-append (name ++ codes "_DUPLICATE_") (dec j),
  ))

  next_Agrees :
      (i : ℕ) (new_name : Text) (rest : List Text)
      → Agrees i new_name rest
      → Agrees (i + 1) (duplicate_enum name i) (without new_name rest)
  next_Agrees i new_name rest h =
      let kept = λ (j : ℕ) (le : i ≤ j).
        h.2 j le ∙ sym (is_member-without (duplicate_enum name j) new_name rest (h.1 j le)) in
      (
        kept i (omega arith),
        λ j le. duplicate-injective i j (omega (arith, le)),
        λ j le. kept j (omega (arith, le)),
      )

  unique_enum_from_lem :
      (fuel i : ℕ) (new_name : Text) (rest : List Text)
      → Agrees i new_name rest
      → length rest < fuel
      → is_member (unique_enum_from fuel name i new_name members) members ≡ false
  unfolding unique_enum_from
  unique_enum_from_lem zero i new_name rest h enough = ground arith
  unique_enum_from_lem (suc fuel) i new_name rest h enough =
      elim (Bool-cases (is_member new_name members)) [
        | inl e ↦
            let shorter = length-without_member new_name rest (sym h.0 ∙ e) in
            rw (unique_enum_from, e)
              (unique_enum_from_lem fuel (i + 1) (duplicate_enum name i) (without new_name rest)
                (next_Agrees i new_name rest h) (omega (arith, shorter, enough)))
        | inr e ↦ rw (unique_enum_from, e) e
      ]

-- uniqueEnum ends with a name that is no member yet, and puts it into the set.
pub unique_enum-fresh :
    (name : Text) (members : List Text)
    → (is_member (unique_enum name members).0 members ≡ false)
      × ((unique_enum name members).1 ≡ (unique_enum name members).0 ∷ members)
unfolding unique_enum
unique_enum-fresh name members =
    let agrees : Agrees name members 0 name members =
      (refl, λ j _. name-duplicate name members j, λ j _. refl) in
    (
      unique_enum_from_lem name members (length members + 2) 0 name members agrees (omega arith),
      refl,
    )
