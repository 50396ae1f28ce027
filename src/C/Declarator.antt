-- ===== src/C/Declarator.antt =====
-- What C reads in a printed variable.
use psx_mnd_sym.Prelude.{
  ℕ, zero, suc, ◌≡◌, refl, sym, subst, ltb, arith, [], ◌++◌, Text, codes, Bool, true, false,
  if◌then◌else◌,
}
use psx_mnd_sym.Fmt.{dec}
use psx_mnd_sym.C.Ast.{
  StorageClass, CType, Params, nil_type, base, struct_ref, union_ref, enum_ref, def_ref, pointer,
  array, func, nil, cons, var_decl,
}
use psx_mnd_sym.C.Print.{
  var_string, params_string, more_params, array_suffix, pointer_name, is_grouped, is_derived,
}

array_suffix-suc : (n : ℕ) → array_suffix (suc n) ≡ codes "[" ++ dec (suc n) ++ codes "]"
unfolding array_suffix
array_suffix-suc n = let e : ltb 0 (suc n) ≡ true = ground arith in rw e refl

module _ (leaf : CType → Text) where
  -- The rules of C for declarators. `Declarator name d b t`: behind the type `b`, the declarator `d`
  -- declares `name` with the type `t`. A star binds weaker than a suffix, so what a suffix follows is
  -- a direct declarator: the name, one with a suffix, or any declarator in parentheses. An array with
  -- no length written stands for the length 0. Between the parentheses of a function each parameter
  -- is a declaration of its own name and type; "..." behind them, or alone, makes the function
  -- variadic.
  mutual
    pub data Declarator : Text → Text → CType → CType → Type 0 where
      direct : {name d : Text} {b t : CType} → Direct name d b t → Declarator name d b t
      star :
          {name d : Text} {b t : CType}
          → Declarator name d (pointer b) t
          → Declarator name (codes "*" ++ d) b t

    pub data Direct : Text → Text → CType → CType → Type 0 where
      ident : {name : Text} {t : CType} → Direct name name t t
      parens :
          {name d : Text} {b t : CType}
          → Declarator name d b t
          → Direct name (codes "(" ++ (d ++ codes ")")) b t
      unsized :
          {name d : Text} {b t : CType}
          → Direct name d (array b 0) t
          → Direct name (d ++ codes "[]") b t
      sized :
          {name d : Text} {b t : CType} (n : ℕ)
          → Direct name d (array b (suc n)) t
          → Direct name (d ++ (codes "[" ++ dec (suc n) ++ codes "]")) b t
      applied :
          {name d s : Text} {b t : CType} {ps : Params} {variadic : Bool}
          → ParamList s ps variadic
          → Direct name d (func b ps variadic) t
          → Direct name (d ++ (codes "(" ++ s ++ codes ")")) b t

    pub data ParamList : Text → Params → Bool → Type 0 where
      no_params : ParamList [] nil false
      only_dots : ParamList (codes "...") nil true
      first_param :
          {name s rest : Text} {t : CType} {ps : Params} {variadic : Bool} (addr size : ℕ)
          (class : StorageClass)
          → Declares s name t
          → MoreParams rest ps variadic
          → ParamList (s ++ rest) (cons (var_decl addr size class t name) ps) variadic

    pub data MoreParams : Text → Params → Bool → Type 0 where
      no_more : MoreParams [] nil false
      last_dots : MoreParams (codes ", ...") nil true
      next_param :
          {name s rest : Text} {t : CType} {ps : Params} {variadic : Bool} (addr size : ℕ)
          (class : StorageClass)
          → Declares s name t
          → MoreParams rest ps variadic
          → MoreParams
              (codes ", " ++ s ++ rest)
              (cons (var_decl addr size class t name) ps)
              variadic

    -- The text is a specifier, a space and a declarator that declares the name with the type.
    pub data Declares : Text → Text → CType → Type 0 where
      declares :
          {name d : Text} {t : CType} (b : CType)
          → is_derived b ≡ false
          → Declarator name d b t
          → Declares (leaf b ++ codes " " ++ d) name t

  -- What may stand in front of the type `b`: a direct declarator if a suffix follows.
  abbrev Ready : Text → CType → Text → CType → Type 0
  Ready name b d t = if is_grouped b then Direct name d b t else Declarator name d b t

  -- Grouping parentheses make the declarator of a pointer ready for what it points to.
  pointer_name-Ready :
      (name d : Text) (t b : CType)
      → Declarator name d (pointer b) t
      → Ready name b (pointer_name b d) t
  unfolding pointer_name
  pointer_name-Ready name d t nil_type h = star h
  pointer_name-Ready name d t (base b) h = star h
  pointer_name-Ready name d t (struct_ref i) h = star h
  pointer_name-Ready name d t (union_ref i) h = star h
  pointer_name-Ready name d t (enum_ref i) h = star h
  pointer_name-Ready name d t (def_ref i) h = star h
  pointer_name-Ready name d t (pointer b) h = star h
  pointer_name-Ready name d t (array b n) h = parens (star h)
  pointer_name-Ready name d t (func r ps v) h = parens (star h)

  direct-Ready : (name d : Text) (t b : CType) → Direct name d b t → Ready name b d t
  direct-Ready name d t nil_type h = direct h
  direct-Ready name d t (base b) h = direct h
  direct-Ready name d t (struct_ref i) h = direct h
  direct-Ready name d t (union_ref i) h = direct h
  direct-Ready name d t (enum_ref i) h = direct h
  direct-Ready name d t (def_ref i) h = direct h
  direct-Ready name d t (pointer b) h = direct h
  direct-Ready name d t (array b n) h = h
  direct-Ready name d t (func r ps v) h = h

  array_suffix-Direct :
      (name d : Text) (t b : CType) (n : ℕ)
      → Direct name d (array b n) t
      → Direct name (d ++ array_suffix n) b t
  unfolding array_suffix
  array_suffix-Direct name d t b zero h = unsized h
  array_suffix-Direct name d t b (suc n) h =
      subst (λ s. Direct name (d ++ s) b t) (sym (array_suffix-suc n)) (sized n h)

  mutual
    unfolding var_string

    var_string-Ready :
        (name d : Text) (t b : CType) → Ready name b d t → Declares (var_string leaf b d) name t
    var_string-Ready name d t nil_type h = declares nil_type refl h
    var_string-Ready name d t (base b) h = declares (base b) refl h
    var_string-Ready name d t (struct_ref i) h = declares (struct_ref i) refl h
    var_string-Ready name d t (union_ref i) h = declares (union_ref i) refl h
    var_string-Ready name d t (enum_ref i) h = declares (enum_ref i) refl h
    var_string-Ready name d t (def_ref i) h = declares (def_ref i) refl h
    var_string-Ready name d t (pointer b) h =
        var_string-Ready name (pointer_name b d) t b (pointer_name-Ready name d t b h)
    var_string-Ready name d t (array b n) h =
        var_string-Ready name (d ++ array_suffix n) t b
          (direct-Ready name _ t b (array_suffix-Direct name d t b n h))
    var_string-Ready name d t (func r ps v) h =
        var_string-Ready name (d ++ (codes "(" ++ params_string leaf ps v ++ codes ")")) t r
          (direct-Ready name _ t r (applied (params_string-ParamList ps v) h))

    params_string-ParamList : (ps : Params) (v : Bool) → ParamList (params_string leaf ps v) ps v
    params_string-ParamList nil false = no_params
    params_string-ParamList nil true = only_dots
    params_string-ParamList (cons (var_decl addr size class t name) ps) v =
        first_param addr size class
          (var_string-Ready name name t t (direct-Ready name name t t ident))
          (more_params-MoreParams ps v)

    more_params-MoreParams : (ps : Params) (v : Bool) → MoreParams (more_params leaf ps v) ps v
    more_params-MoreParams nil false = no_more
    more_params-MoreParams nil true = last_dots
    more_params-MoreParams (cons (var_decl addr size class t name) ps) v =
        next_param addr size class
          (var_string-Ready name name t t (direct-Ready name name t t ident))
          (more_params-MoreParams ps v)

  -- The String of a variable is read by the declarator rules of C as a declaration of its name with
  -- its type: it is the String of a type that is no pointer, array or function, a space, and a
  -- declarator that derives exactly the variable's type: each length of an array, and each parameter
  -- of a function, in order, as a declaration of the parameter's name with the parameter's type.
  pub var_string-Declares : (t : CType) (name : Text) → Declares (var_string leaf t name) name t
  var_string-Declares t name = var_string-Ready name name t t (direct-Ready name name t t ident)
