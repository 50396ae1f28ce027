-- ===== src/Csym/Fixups/Replace/Unions.antt =====
-- What replaceUsedSubtypesInType leaves behind of a union.
use psx_mnd_sym.Prelude.{
  ℕ, zero, suc, ◌+◌, ◌<◌, ◌≡◌, sym, subst, ◌⊎◌, inl, inr, List, some, Option-cases, ok, >>=-steps,
  some-steps, ok-injective, get_elem?, length, arith,
}
use psx_mnd_sym.C.Ast.{CType, UnionType}
use psx_mnd_sym.Csym.Fixups.Replace.{
  Remap, Visit, var_type, set_field_type, union_loop, union_fields,
}
use psx_mnd_sym.Csym.Fixups.Replace.Stores.{get_elem?_bound}
use psx_mnd_sym.Csym.Fixups.Replace.Avoid.{
  Avoids, FieldHolds, Improves, Improves_refl, Improves_trans, IsClean, written_field,
  write-Improves, write-FieldHolds,
}
use psx_mnd_sym.Csym.Fixups.Replace.Within.{VisitImproves, var_type-Avoids}

pub same_length :
    (us : List UnionType) (j : ℕ) (u v : UnionType)
    → get_elem? us j ≡ some u
    → get_elem? us j ≡ some v
    → length u.fields ≡ length v.fields
same_length us j u v e e' = cc

module _ (r : Remap) where
  set_field_type-Improves :
      (j k : ℕ) (t : CType) (us : List UnionType)
      → Avoids r t
      → Improves r us (set_field_type j k t us) × FieldHolds r (set_field_type j k t us) j k
  set_field_type-Improves j k t us h = elim (Option-cases (get_elem? us j)) [
    | inl e ↦ rw (set_field_type, e) (Improves_refl r us, λ u f there _. cc)
    | inr (u, e) ↦ elim (Option-cases (get_elem? u.fields k)) [
      | inl e' ↦ rw (set_field_type, e, e') (Improves_refl r us, λ u' f there there'. cc)
      | inr (f, e') ↦
          rw (written_field r us j k u f t e e')
            (write-Improves r us j k u f t e h, write-FieldHolds r us j k u f t h)
    ]
  ]

  lt_suc-cases : (m k : ℕ) → m < k + 1 → (m < k) ⊎ (m ≡ k)
  lt_suc-cases m k below = ground arith

  -- The fields below a place have such types.
  abbrev FieldsHold : List UnionType → ℕ → ℕ → Type 0
  FieldsHold us j k = (m : ℕ) → m < k → FieldHolds r us j m

  module _ (clean : IsClean r) (visit : Visit) (improves : VisitImproves r visit) where
    union_loop-Improves :
        (rounds j k : ℕ) (us us' : List UnionType)
        → union_loop r visit rounds j k us ≡ ok us'
        → FieldsHold us j k
        → Improves r us us' × FieldsHold us' j (k + rounds)
    unfolding union_loop
    union_loop-Improves zero j k us us' e h =
        subst (λ vs. Improves r us vs × FieldsHold vs j (k + 0)) (ok-injective e)
          (Improves_refl r us, λ m below. h m (omega arith))
    union_loop-Improves (suc rounds) j k us us' e h =
        let (u, there, turn) = some-steps (get_elem? us j) _ _ e in
        let (f, here, loop) = some-steps (get_elem? u.fields k) _ _ turn in
        let ((t, vs), replaced, rest) = >>=-steps (var_type r visit f.type us) _ loop in
        let (avoids, better) = var_type-Avoids r visit improves clean f.type us (t, vs) replaced in
        let (kept, holds) = set_field_type-Improves j k t vs avoids in
        let before = Improves_trans r better kept in
        let hold : FieldsHold (set_field_type j k t vs) j (k + 1) = λ m below.
          elim (lt_suc-cases m k below) [
            | inl less ↦ before.kept j m (h m less)
            | inr same ↦ subst (FieldHolds r (set_field_type j k t vs) j) (sym same) holds
          ] in
        let (after, all) =
          union_loop-Improves rounds j (k + 1) (set_field_type j k t vs) us' rest hold in
        (Improves_trans r before after, λ m below. all m (omega arith))

  -- All fields of a union that has been gone through have such types, and no other has got worse.
  pub union_fields-Improves :
      IsClean r
      → (fuel j : ℕ) (us us' : List UnionType) → union_fields r fuel j us ≡ ok us'
      → Improves r us us' × ((m : ℕ) → FieldHolds r us' j m)
  unfolding union_fields
  union_fields-Improves clean zero j us us' e = cc
  union_fields-Improves clean (suc fuel) j us us' e =
      let visit = union_fields r fuel in
      let (u, there, loop) = some-steps (get_elem? us j) _ _ e in
      let improves : VisitImproves r visit =
        λ i vs vs' visited. (union_fields-Improves clean fuel i vs vs' visited).0 in
      let (better, all) =
        union_loop-Improves clean visit improves (length u.fields) j 0 us us' loop
          (λ m below u f there here. absurd (omega arith)) in
      (
        better,
        λ m u' f there' here.
            let (v, e', same) = better.shape j u' there' in
            let counted = same_length us j u v there e' in
            all m (omega (arith, counted, same, get_elem?_bound u'.fields m f here)) u' f there'
              here,
      )
