-- ===== src/Csym/Fixups/Replace/Within.antt =====
-- What replaceUsedTypesInVar and replaceUsedSubtypesInType leave behind, whatever the type is.
use psx_mnd_sym.Prelude.{
  ℕ, ◌≡◌, subst, List, Option, none, some, Result, ok, >>=-steps, ok-injective,
}
use psx_mnd_sym.C.Ast.{
  CType, Params, VarDecl, UnionType, nil_type, base, struct_ref, union_ref, enum_ref, def_ref,
  pointer, array, func, nil, cons, var_decl,
}
use psx_mnd_sym.Csym.State.{Panic}
use psx_mnd_sym.Csym.Fixups.Replace.{
  Ref, a_struct, an_union, an_enum, Remap, replaced, Visit, enter, var_type, params_types,
  decl_types,
}
use psx_mnd_sym.Csym.Fixups.Replace.Avoid.{
  Avoids, ParamsAvoid, DeclAvoids, Improves, Improves_refl, Improves_trans, IsClean, RefAvoids,
  replaced-RefAvoids,
}

module _ (r : Remap) (visit : Visit) where
  -- What is done for the fields of a union only improves the unions.
  abbrev pub VisitImproves : Type 0
  VisitImproves = (j : ℕ) (us us' : List UnionType) → visit j us ≡ ok us' → Improves r us us'

  -- A result with the unions after it.
  abbrev pub Leaves : {A : Type 0} → (A → Type 0) → List UnionType → A × List UnionType → Type 0
  Leaves P us result = P result.0 × Improves r us result.1

  pub leaves :
      {A : Type 0}
      → (P : A → Type 0) (us : List UnionType) (done result : A × List UnionType) → Leaves P us done
      → ◌≡◌ {A = Result Panic (A × List UnionType)} (ok done) (ok result)
      → Leaves P us result
  leaves P us done result h e = subst (Leaves P us) (ok-injective e) h

  module _ (improves : VisitImproves) where
    enter-Avoids :
        (t : Option Ref) (us : List UnionType) (result : CType × List UnionType)
        → RefAvoids r t
        → enter r visit t us ≡ ok result
        → Leaves (Avoids r) us result
    unfolding enter
    enter-Avoids none us result h e =
        leaves (Avoids r) us (nil_type, us) result (tt, Improves_refl r us) e
    enter-Avoids (some (a_struct i)) us result h e =
        leaves (Avoids r) us (struct_ref i, us) result (h, Improves_refl r us) e
    enter-Avoids (some (an_enum i)) us result h e =
        leaves (Avoids r) us (enum_ref i, us) result (h, Improves_refl r us) e
    enter-Avoids (some (an_union i)) us result h e =
        let (vs, visited, returned) = >>=-steps (visit i us) (λ vs. ok (union_ref i, vs)) e in
        leaves (Avoids r) us (union_ref i, vs) result (h, improves i us vs visited) returned

    module _ (clean : IsClean r) where
      -- No type that is left behind is one that is replaced.
      mutual
        unfolding var_type

        pub var_type-Avoids :
            (t : CType) (us : List UnionType) (result : CType × List UnionType)
            → var_type r visit t us ≡ ok result
            → Leaves (Avoids r) us result
        var_type-Avoids (struct_ref i) us result e =
            enter-Avoids (replaced r (a_struct i)) us result
              (replaced-RefAvoids r clean (a_struct i)) e
        var_type-Avoids (union_ref i) us result e =
            enter-Avoids (replaced r (an_union i)) us result
              (replaced-RefAvoids r clean (an_union i)) e
        var_type-Avoids (enum_ref i) us result e =
            enter-Avoids (replaced r (an_enum i)) us result (replaced-RefAvoids r clean (an_enum i))
              e
        var_type-Avoids (pointer t) us result e =
            let ((u, vs), first, returned) = >>=-steps (var_type r visit t us) _ e in
            leaves (Avoids r) us (pointer u, vs) result (var_type-Avoids t us (u, vs) first)
              returned
        var_type-Avoids (array t n) us result e =
            let ((u, vs), first, returned) = >>=-steps (var_type r visit t us) _ e in
            leaves (Avoids r) us (array u n, vs) result (var_type-Avoids t us (u, vs) first)
              returned
        var_type-Avoids (func t ps variadic) us result e =
            let ((u, vs), first, rest) = >>=-steps (var_type r visit t us) _ e in
            let ((qs, ws), second, returned) = >>=-steps (params_types r visit ps vs) _ rest in
            let (avoid, better) = var_type-Avoids t us (u, vs) first in
            let (avoids, best) = params_types-Avoid ps vs (qs, ws) second in
            leaves (Avoids r) us (func u qs variadic, ws) result
              ((avoid, avoids), Improves_trans r better best) returned
        var_type-Avoids nil_type us result e =
            leaves (Avoids r) us (nil_type, us) result (tt, Improves_refl r us) e
        var_type-Avoids (base b) us result e =
            leaves (Avoids r) us (base b, us) result (tt, Improves_refl r us) e
        var_type-Avoids (def_ref i) us result e =
            leaves (Avoids r) us (def_ref i, us) result (tt, Improves_refl r us) e

        params_types-Avoid :
            (ps : Params) (us : List UnionType) (result : Params × List UnionType)
            → params_types r visit ps us ≡ ok result
            → Leaves (ParamsAvoid r) us result
        params_types-Avoid nil us result e =
            leaves (ParamsAvoid r) us (nil, us) result (tt, Improves_refl r us) e
        params_types-Avoid (cons v ps) us result e =
            let ((w, vs), first, rest) = >>=-steps (decl_types r visit v us) _ e in
            let ((qs, ws), second, returned) = >>=-steps (params_types r visit ps vs) _ rest in
            let (avoid, better) = decl_types-Avoids v us (w, vs) first in
            let (avoids, best) = params_types-Avoid ps vs (qs, ws) second in
            leaves (ParamsAvoid r) us (cons w qs, ws) result
              ((avoid, avoids), Improves_trans r better best) returned

        pub decl_types-Avoids :
            (v : VarDecl) (us : List UnionType) (result : VarDecl × List UnionType)
            → decl_types r visit v us ≡ ok result
            → Leaves (DeclAvoids r) us result
        decl_types-Avoids (var_decl addr size class t name) us result e =
            let ((u, vs), first, returned) = >>=-steps (var_type r visit t us) _ e in
            leaves (DeclAvoids r) us (var_decl addr size class u name, vs) result
              (var_type-Avoids t us (u, vs) first) returned
