-- ===== src/Csym/Types/Mods.antt =====
-- What parseMods makes of the modifiers of a type.
use psx_mnd_sym.Prelude.{
  ℕ, subst, suc, ◌+◌, ◌≡◌, ◌⊎◌, ◌<◌, refl, ap, inl, inr, List, [], ◌∷◌, ◌++◌, false, ◌==◌,
  if◌then◌else◌, Result, ok, err, length, arith, All,
}
use psx_mnd_sym.Sym.Types.{mod_pointer, mod_function, mod_array}
use psx_mnd_sym.C.Ast.{CType, pointer, array, func, nil}
use psx_mnd_sym.Csym.State.{Panic, index_out_of_range}
use psx_mnd_sym.Csym.Types.{reverse_onto, apply_mod, mods_down, parse_mods}

-- The modifiers of a C type, outermost first.
unfoldable pub modifiers : CType → List ℕ
modifiers (pointer t) = mod_pointer ∷ modifiers t
modifiers (array t n) = mod_array ∷ modifiers t
modifiers (func r ps v) = mod_function ∷ modifiers r
modifiers _ = []

-- Its array lengths, outermost first.
unfoldable pub array_lengths : CType → List ℕ
array_lengths (pointer t) = array_lengths t
array_lengths (array t n) = n ∷ array_lengths t
array_lengths (func r ps v) = array_lengths r
array_lengths _ = []

unfoldable pub count_arrays : List ℕ → ℕ
count_arrays [] = 0
count_arrays (m ∷ ms) = let rest = count_arrays ms in if m == mod_array then suc rest else rest

abbrev pub IsMod : ℕ → Type 0
IsMod m = (m ≡ mod_pointer) ⊎ ((m ≡ mod_function) ⊎ (m ≡ mod_array))

-- A panic for want of dimensions for so many arrays, or a type with the modifiers `outer`.
abbrev pub Outcome : CType → List ℕ → ℕ → List ℕ → Result Panic CType → Type 0
Outcome t outer arrays dims r =
    ((length dims < arrays) × (r ≡ err index_out_of_range))
    ⊎ ((v : CType) × (used : List ℕ) × (rest : List ℕ) × (r ≡ ok v)
        × (dims ≡ used ++ rest)
        × (length used ≡ arrays)
        × (modifiers v ≡ outer)
        × (array_lengths v ≡ reverse_onto used (array_lengths t)))

mods_down-Outcome :
    (t : CType) (ms dims : List ℕ)
    → All IsMod ms
    → Outcome t (reverse_onto ms (modifiers t)) (count_arrays ms) dims (mods_down t ms dims)
unfolding mods_down apply_mod modifiers array_lengths count_arrays
mods_down-Outcome t [] dims h = inr (t, [], dims, refl, refl, refl, refl, refl)
mods_down-Outcome t (m ∷ ms) dims (inl e, h) = rw e (mods_down-Outcome (pointer t) ms dims h)
mods_down-Outcome t (m ∷ ms) dims (inr (inl e), h) =
    rw e (mods_down-Outcome (func t nil false) ms dims h)
mods_down-Outcome t (m ∷ ms) [] (inr (inr e), h) = rw e (inl (omega arith, refl))
mods_down-Outcome t (m ∷ ms) (d ∷ dims) (inr (inr e), h) =
    rw e (elim (mods_down-Outcome (array t d) ms dims h) [
      | inl (few, panics) ↦ inl (omega (arith, few), panics)
      | inr (v, used, rest, returns, split, count, outer, lengths) ↦
          inr (v, d ∷ used, rest, returns, ap (λ ds. d ∷ ds) split, ap suc count, outer, lengths)
    ])

reverse_onto_twice :
    (ms xs ys : List ℕ) → reverse_onto (reverse_onto ms xs) ys ≡ reverse_onto xs (ms ++ ys)
reverse_onto_twice [] xs ys = refl
reverse_onto_twice (m ∷ ms) xs ys = reverse_onto_twice ms (m ∷ xs) ys

count_arrays-reverse_onto :
    (ms xs : List ℕ) → count_arrays (reverse_onto ms xs) ≡ count_arrays ms + count_arrays xs
unfolding count_arrays
count_arrays-reverse_onto [] xs = omega arith
count_arrays-reverse_onto (m ∷ ms) xs = ground (arith, count_arrays-reverse_onto ms (m ∷ xs))

reverse_onto-All : (ms xs : List ℕ) → All IsMod ms → All IsMod xs → All IsMod (reverse_onto ms xs)
reverse_onto-All [] xs h k = k
reverse_onto-All (m ∷ ms) xs h k = reverse_onto-All ms (m ∷ xs) h.1 (h.0, k)

-- For the modifiers PTR, FCN and ARY, parseMods panics with an index out of range exactly if there
-- are fewer dimensions than array modifiers. Else the type that it returns has the given modifiers,
-- outermost first, in front of those of the given type, and its arrays, from the innermost, have the
-- first dimensions as lengths.
pub parse_mods-Outcome :
    (t : CType) (ms dims : List ℕ)
    → All IsMod ms
    → Outcome t (ms ++ modifiers t) (count_arrays ms) dims (parse_mods t ms dims)
unfolding parse_mods count_arrays
parse_mods-Outcome t ms dims h =
    let down = reverse_onto ms [] in
    let outcome = mods_down-Outcome t down dims (reverse_onto-All ms [] h tt) in
    let counted : count_arrays down ≡ count_arrays ms =
      omega (arith, count_arrays-reverse_onto ms []) in
    subst (λ n. Outcome t (ms ++ modifiers t) n dims (mods_down t down dims)) counted
      (subst (λ o. Outcome t o (count_arrays down) dims (mods_down t down dims))
        (reverse_onto_twice ms [] (modifiers t)) outcome)
