-- ===== src/Csym/Fixups/Replace/Recursive.antt =====
-- Unions that hold pointers to themselves.
use psx_mnd_sym.Prelude.{
  ℕ, zero, suc, ◌≡◌, refl, sym, ap, subst, some-next, err-next, ◌∙◌, List, ◌∷◌, none, some, err,
  length, get_elem?,
}
use psx_mnd_sym.C.Ast.{Field, UnionType, pointer, union_ref}
use psx_mnd_sym.Csym.State.{Panic, stack_overflow}
use psx_mnd_sym.Csym.Fixups.Replace.{
  Remap, an_union, Visit, find_key, replaced, var_type, union_loop, union_fields,
}

pointer-visit :
    (r : Remap) (visit : Visit) (j : ℕ) (us : List UnionType) (x : Panic)
    → find_key (an_union j) r ≡ none
    → visit j us ≡ err x
    → var_type r visit (pointer (union_ref j)) us ≡ err x
unfolding var_type
pointer-visit r visit j us x stays fails = rw (replaced, stays) (rw fails refl)

union_loop-first :
    (r : Remap) (visit : Visit) (rounds j : ℕ) (us : List UnionType) (u : UnionType) (f : Field)
    (x : Panic)
    → get_elem? us j ≡ some u
    → get_elem? u.fields 0 ≡ some f
    → var_type r visit f.type us ≡ err x
    → union_loop r visit (suc rounds) j 0 us ≡ err x
unfolding union_loop
union_loop-first r visit rounds j us u f x there first fails =
    some-next (get_elem? us j) _ _ there
    ∙ some-next (get_elem? u.fields 0) _ _ first
    ∙ err-next (var_type r visit f.type us) _ fails

-- Where the first field of a union that is not replaced is a pointer to that union, replaceUsedSubtypesInType
-- nests its calls for the union without end, however deep the stack is.
pub union_fields-overflows :
    (r : Remap) (fuel j : ℕ) (us : List UnionType) (u : UnionType) (f : Field) (fs : List Field)
    → get_elem? us j ≡ some u
    → u.fields ≡ f ∷ fs
    → f.type ≡ pointer (union_ref j)
    → find_key (an_union j) r ≡ none
    → union_fields r fuel j us ≡ err stack_overflow
unfolding union_fields
union_fields-overflows r zero j us u f fs there here self stays = refl
union_fields-overflows r (suc fuel) j us u f fs there here self stays =
    let deeper = union_fields-overflows r fuel j us u f fs there here self stays in
    let visit = union_fields r fuel in
    let first = ap (λ (gs : List Field). get_elem? gs 0) here in
    let fails : var_type r visit f.type us ≡ err stack_overflow =
      ap (λ t. var_type r visit t us) self
      ∙ pointer-visit r visit j us stack_overflow stays deeper in
    some-next (get_elem? us j) _ _ there
    ∙ subst (λ gs. union_loop r visit (length gs) j 0 us ≡ err stack_overflow) (sym here)
        (union_loop-first r visit (length fs) j us u f stack_overflow there first fails)
