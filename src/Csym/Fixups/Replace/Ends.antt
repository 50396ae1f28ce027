-- ===== src/Csym/Fixups/Replace/Ends.antt =====
-- Unions of which none reaches itself, and that the types that are put in place keep them so.
use psx_mnd_sym.Prelude.{
  ℕ, ◌<◌, ◌≡◌, refl, subst, ◌∙◌, inl, inr, List, Option, none, some, Option-cases, true, false,
  Result, ok, ok-next, get_elem?, length,
}
use psx_mnd_sym.C.Ast.{
  CType, Params, VarDecl, Field, UnionType, nil_type, base, struct_ref, union_ref, enum_ref,
  def_ref, pointer, array, func, nil, cons, var_decl,
}
use psx_mnd_sym.Csym.State.{Panic}
use psx_mnd_sym.Csym.Fixups.Replace.{
  Ref, a_struct, an_union, an_enum, Remap, find_key, is_key, to_type, replaced, Visit, enter,
  var_type, params_types, decl_types,
}
use psx_mnd_sym.Csym.Fixups.Replace.Avoid.{IsClean}

module _ (r : Remap) where
  -- A type that is put in place and stays there.
  abbrev pub IsSettled : Option Ref → Type 0
  IsSettled none = Unit {0}
  IsSettled (some t) = replaced r t ≡ some t

  not_key : (t : Ref) → is_key t r ≡ false → find_key t r ≡ none
  not_key t e = elim (Option-cases (find_key t r)) [
    | inl none_there ↦ none_there
    | inr (value, there) ↦
        let wrong : true ≡ false =
          subst (λ (o : Option (Option Ref)). (elim o [ none ↦ false | some _ ↦ true ]) ≡ false)
            there e in
        cc
  ]

  unkeyed : (t : Ref) → find_key t r ≡ none → replaced r t ≡ some t
  unfolding replaced
  unkeyed t e = rw (replaced, e) refl

  pub replaced-IsSettled : IsClean r → (t : Ref) → IsSettled (replaced r t)
  unfolding replaced
  replaced-IsSettled clean t = elim (Option-cases (find_key t r)) [
    | inl e ↦ rw (replaced, e) (unkeyed t e)
    | inr (none, e) ↦ rw (replaced, e) tt
    | inr (some u, e) ↦ rw (replaced, e) (unkeyed u (not_key u (clean t u e)))
  ]

  -- `rank` gives each union a number, and there are `count` unions.
  module _ (rank : ℕ → ℕ) (count : ℕ) where
    -- What is put in place is below `n`, and in the store, if it is a union.
    abbrev pub IsLowRef : ℕ → Option Ref → Type 0
    IsLowRef n (some (an_union k)) = (rank k < n) × (k < count)
    IsLowRef n _ = Unit {0}

    -- All unions that come into the type are so.
    abbrev mutual
      pub IsLow : ℕ → CType → Type 0
      IsLow n (struct_ref i) = IsLowRef n (replaced r (a_struct i))
      IsLow n (union_ref i) = IsLowRef n (replaced r (an_union i))
      IsLow n (enum_ref i) = IsLowRef n (replaced r (an_enum i))
      IsLow n (pointer t) = IsLow n t
      IsLow n (array t m) = IsLow n t
      IsLow n (func t ps variadic) = IsLow n t × ParamsLow n ps
      IsLow n _ = Unit {0}

      pub ParamsLow : ℕ → Params → Type 0
      ParamsLow n nil = Unit {0}
      ParamsLow n (cons v ps) = DeclLow n v × ParamsLow n ps

      pub DeclLow : ℕ → VarDecl → Type 0
      DeclLow n (var_decl addr size class t name) = IsLow n t

    -- Each union's fields lead to unions of lower rank only.
    pub record IsRanked (us : List UnionType) : Type 0 where
      pub counted : length us ≡ count
      pub low :
          (j k : ℕ) (u : UnionType) (f : Field)
          → get_elem? us j ≡ some u
          → get_elem? u.fields k ≡ some f
          → IsLow (rank j) f.type

    -- The unions keep their numbers of fields.
    abbrev pub SameShape : List UnionType → List UnionType → Type 0
    SameShape us us' =
        (j : ℕ) (u : UnionType)
        → get_elem? us j ≡ some u
        → (u' : UnionType) × (get_elem? us' j ≡ some u') × (length u.fields ≡ length u'.fields)

    pub SameShape_trans :
        (us vs ws : List UnionType) → SameShape us vs → SameShape vs ws → SameShape us ws
    SameShape_trans us vs ws a b j u e =
        let (v, ev, lv) = a j u e in let (w, ew, lw) = b j v ev in (w, ew, lv ∙ lw)

    -- The step returns, with a result of which `P` holds, and all is well with the unions after it.
    abbrev pub Ends :
        {A : Type 0} → (A → Type 0) → List UnionType → Result Panic (A × List UnionType) → Type 0
    Ends P us step =
        (result : _) × (step ≡ ok result) × P result.0 × IsRanked result.1 × SameShape us result.1

    abbrev pub VisitEnds : ℕ → Visit → Type 0
    VisitEnds n visit =
        (j : ℕ) (us : List UnionType)
        → IsRanked us
        → j < count
        → rank j < n
        → (us' : List UnionType) × (visit j us ≡ ok us') × IsRanked us' × SameShape us us'

    to_type-IsLow : (n : ℕ) (t : Option Ref) → IsSettled t → IsLowRef n t → IsLow n (to_type t)
    to_type-IsLow n none stays h = tt
    to_type-IsLow n (some (a_struct i)) stays h = rw stays tt
    to_type-IsLow n (some (an_union i)) stays h = rw stays h
    to_type-IsLow n (some (an_enum i)) stays h = rw stays tt

    module _ (n : ℕ) (visit : Visit) (clean : IsClean r) (ends : VisitEnds n visit) where
      enter-Ends :
          (t : Option Ref) (us : List UnionType)
          → IsRanked us
          → IsSettled t
          → IsLowRef n t
          → Ends (IsLow n) us (enter r visit t us)
      unfolding enter
      enter-Ends none us h stays low = ((nil_type, us), refl, tt, h, λ j u e. (u, e, refl))
      enter-Ends (some (a_struct i)) us h stays low = (
        (struct_ref i, us),
        refl,
        to_type-IsLow n (some (a_struct i)) stays low,
        h,
        λ j u e. (u, e, refl),
      )
      enter-Ends (some (an_enum i)) us h stays low = (
        (enum_ref i, us),
        refl,
        to_type-IsLow n (some (an_enum i)) stays low,
        h,
        λ j u e. (u, e, refl),
      )
      enter-Ends (some (an_union i)) us h stays low =
          let (us', visited, h', shape) = ends i us h low.1 low.0 in
          (
            (union_ref i, us'),
            ok-next (visit i us) (λ vs. ok (union_ref i, vs)) visited,
            to_type-IsLow n (some (an_union i)) stays low,
            h',
            shape,
          )

      replaced-Ends :
          (t : Ref) (us : List UnionType)
          → IsRanked us
          → IsLowRef n (replaced r t)
          → Ends (IsLow n) us (enter r visit (replaced r t) us)
      replaced-Ends t us h low = enter-Ends (replaced r t) us h (replaced-IsSettled clean t) low

      -- A type of which all unions are low is gone through to the end.
      mutual
        unfolding var_type

        pub var_type-Ends :
            (t : CType) (us : List UnionType)
            → IsRanked us
            → IsLow n t
            → Ends (IsLow n) us (var_type r visit t us)
        var_type-Ends (struct_ref i) us h low = replaced-Ends (a_struct i) us h low
        var_type-Ends (union_ref i) us h low = replaced-Ends (an_union i) us h low
        var_type-Ends (enum_ref i) us h low = replaced-Ends (an_enum i) us h low
        var_type-Ends (pointer t) us h low =
            let ((u, us'), first, low', h', shape) = var_type-Ends t us h low in
            ((pointer u, us'), ok-next (var_type r visit t us) _ first, low', h', shape)
        var_type-Ends (array t m) us h low =
            let ((u, us'), first, low', h', shape) = var_type-Ends t us h low in
            ((array u m, us'), ok-next (var_type r visit t us) _ first, low', h', shape)
        var_type-Ends (func t ps variadic) us h low =
            let ((u, vs), first, low1, h1, shape1) = var_type-Ends t us h low.0 in
            let ((qs, ws), second, low2, h2, shape2) = params_types-End ps vs h1 low.1 in
            (
              (func u qs variadic, ws),
              ok-next (var_type r visit t us) _ first
                  ∙ ok-next (params_types r visit ps vs) _ second,
              (low1, low2),
              h2,
              SameShape_trans us vs ws shape1 shape2,
            )
        var_type-Ends nil_type us h low = ((nil_type, us), refl, tt, h, λ j u e. (u, e, refl))
        var_type-Ends (base b) us h low = ((base b, us), refl, tt, h, λ j u e. (u, e, refl))
        var_type-Ends (def_ref i) us h low = ((def_ref i, us), refl, tt, h, λ j u e. (u, e, refl))

        params_types-End :
            (ps : Params) (us : List UnionType)
            → IsRanked us
            → ParamsLow n ps
            → Ends (ParamsLow n) us (params_types r visit ps us)
        params_types-End nil us h low = ((nil, us), refl, tt, h, λ j u e. (u, e, refl))
        params_types-End (cons v ps) us h low =
            let ((w, vs), first, low1, h1, shape1) = decl_types-Ends v us h low.0 in
            let ((qs, ws), second, low2, h2, shape2) = params_types-End ps vs h1 low.1 in
            (
              (cons w qs, ws),
              ok-next (decl_types r visit v us) _ first
                  ∙ ok-next (params_types r visit ps vs) _ second,
              (low1, low2),
              h2,
              SameShape_trans us vs ws shape1 shape2,
            )

        pub decl_types-Ends :
            (v : VarDecl) (us : List UnionType)
            → IsRanked us
            → DeclLow n v
            → Ends (DeclLow n) us (decl_types r visit v us)
        decl_types-Ends (var_decl addr size class t name) us h low =
            let ((u, us'), first, low', h', shape) = var_type-Ends t us h low in
            (
              (var_decl addr size class u name, us'),
              ok-next (var_type r visit t us) _ first,
              low',
              h',
              shape,
            )
