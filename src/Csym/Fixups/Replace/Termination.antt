-- ===== src/Csym/Fixups/Replace/Termination.antt =====
-- replaceUsedSubtypesInType returns for unions of which none reaches itself.
use psx_mnd_sym.Prelude.{
  ℕ, zero, suc, ◌+◌, ◌<◌, ◌≡◌, refl, sym, ap, subst, ◌∙◌, inl, inr, List, some, Result, ok, ok-next,
  some-next, get_elem?, set, length, length-set, arith,
}
use psx_mnd_sym.C.Ast.{CType, Field, UnionType}
use psx_mnd_sym.Csym.State.{Panic}
use psx_mnd_sym.Csym.Fixups.Replace.{Remap, Visit, var_type, union_loop, union_fields}
use psx_mnd_sym.Csym.Fixups.Replace.Stores.{get_elem?-set_cases, get_elem?-set-some, get_elem?-some}
use psx_mnd_sym.Csym.Fixups.Replace.Avoid.{IsClean, written_field}
use psx_mnd_sym.Csym.Fixups.Replace.Unions.{same_length}
use psx_mnd_sym.Csym.Fixups.Replace.Ends.{
  IsLow, IsRanked, SameShape, SameShape_trans, VisitEnds, var_type-Ends,
}

module _ (r : Remap) (rank : ℕ → ℕ) (count : ℕ) where
  -- The union with the type of a field changed.
  abbrev with_type : UnionType → ℕ → Field → CType → UnionType
  with_type u k f t = record u { fields = set u.fields k (record f { type = t }) }

  write-IsRanked :
      (us : List UnionType) (j k : ℕ) (u : UnionType) (f : Field) (t : CType)
      → get_elem? us j ≡ some u
      → IsLow r rank count (rank j) t
      → IsRanked r rank count us
      → IsRanked r rank count (set us j (with_type u k f t))
  write-IsRanked us j k u f t there low h = record {
    counted = length-set us j (with_type u k f t) ∙ h.counted;
    low = λ i m u' f' e e'. elim (get_elem?-set_cases us j i (with_type u k f t) u' e) [
      | inl (place, same) ↦
          elim (get_elem?-set_cases u.fields k m (record f { type = t }) f'
            (subst (λ (v : UnionType). get_elem? v.fields m ≡ some f') same e')) [
              | inl (_, new) ↦
                  subst (λ p. IsLow r rank count (rank p) f'.type) place
                    (subst (λ (g : Field). IsLow r rank count (rank j) g.type) (sym new) low)
              | inr old ↦ h.low i m u f' (subst (λ p. get_elem? us p ≡ some u) place there) old
            ]
      | inr old ↦ h.low i m u' f' old e'
    ];
  }

  write-SameShape :
      (us : List UnionType) (j k : ℕ) (u : UnionType) (f : Field) (t : CType)
      → get_elem? us j ≡ some u
      → SameShape r rank count us (set us j (with_type u k f t))
  write-SameShape us j k u f t there i v e =
      elim (get_elem?-set-some us j i (with_type u k f t) v e) [
        | inl (place, new) ↦ (
          with_type u k f t,
          new,
          same_length us i v u e (subst (λ p. get_elem? us p ≡ some u) place there)
              ∙ sym (length-set u.fields k (record f { type = t })),
        )
        | inr old ↦ (v, old, refl)
      ]

  -- The step returns, and all is well with the unions after it.
  abbrev pub Returns : List UnionType → Result Panic (List UnionType) → Type 0
  Returns us step =
      (us' : List UnionType) × (step ≡ ok us')
      × IsRanked r rank count us'
      × SameShape r rank count us us'

  union_loop-Returns :
      (visit : Visit) (rounds j k : ℕ) (us : List UnionType) (u : UnionType)
      → IsClean r
      → VisitEnds r rank count (rank j) visit
      → IsRanked r rank count us
      → get_elem? us j ≡ some u
      → k + rounds ≡ length u.fields
      → Returns us (union_loop r visit rounds j k us)
  unfolding union_loop
  union_loop-Returns visit zero j k us u clean ends h there left =
      (us, refl, h, λ i v e. (v, e, refl))
  union_loop-Returns visit (suc rounds) j k us u clean ends h there left =
      let (f, here) = get_elem?-some u.fields k (omega (arith, left)) in
      let ((t, vs), first, low, h1, shape1) =
        var_type-Ends r rank count (rank j) visit clean ends f.type us h
          (h.low j k u f there here) in
      let (v, there1, same1) = shape1 j u there in
      let (g, here1) = get_elem?-some v.fields k (omega (arith, left, same1)) in
      let ws : List UnionType = set vs j (with_type v k g t) in
      let (w, there2, same2) = write-SameShape vs j k v g t there1 j v there1 in
      let (us', rest, h', shape) =
        union_loop-Returns visit rounds j (k + 1) ws w clean ends
          (write-IsRanked vs j k v g t there1 low h1) there2 (omega (arith, left, same1, same2)) in
      (
        us',
        some-next (get_elem? us j) _ _ there
            ∙ some-next (get_elem? u.fields k) _ _ here
            ∙ ok-next (var_type r visit f.type us) _ first
            ∙ ap (union_loop r visit rounds j (k + 1)) (written_field r vs j k v g t there1 here1)
            ∙ rest,
        h',
        SameShape_trans r rank count us vs us' shape1
            (SameShape_trans r rank count vs ws us' (write-SameShape vs j k v g t there1) shape),
      )

  -- Where no replacement is itself replaced, the unions are in the store and their fields lead to unions of
  -- lower rank only, a depth of nested calls above the rank of a union is enough for replaceUsedSubtypesInType to
  -- return from it without a failure; the fields still lead to lower ranks, and as many of them are there.
  pub union_fields-Returns :
      IsClean r
      → (fuel j : ℕ) (us : List UnionType) → IsRanked r rank count us
      → j < count
      → rank j < fuel
      → Returns us (union_fields r fuel j us)
  unfolding union_fields
  union_fields-Returns clean zero j us h inside enough = absurd (omega arith)
  union_fields-Returns clean (suc fuel) j us h inside enough =
      let (u, there) = get_elem?-some us j (omega (arith, h.counted)) in
      let ends : VisitEnds r rank count (rank j) (union_fields r fuel) =
        λ i vs hv inside' lower. union_fields-Returns clean fuel i vs hv inside' (omega arith) in
      let (us', loop, h', shape) =
        union_loop-Returns (union_fields r fuel) (length u.fields) j 0 us u clean ends h there
          (omega arith) in
      (us', some-next (get_elem? us j) _ _ there ∙ loop, h', shape)
