-- ===== src/Csym/Fixups/Replace.antt =====
-- ReplaceUsedTypes: other structs, unions and enums put in the place of some, wherever a type is used.
pub mod Stores
pub mod Avoid
pub mod Within
pub mod Unions
pub mod Parts
pub mod Whole
pub mod Recursive
pub mod Ends
pub mod Termination
pub mod Total
use psx_mnd_sym.Prelude.{
  ℕ, zero, suc, ◌+◌, List, [], ◌∷◌, Bool, true, false, ◌==◌, if◌then◌else◌, Option, none, some,
  Result, ok, err, ◌>>=◌, length, get_elem?, set,
}
use psx_mnd_sym.C.Ast.{
  CType, Params, VarDecl, Field, StructType, UnionType, Block, FuncDecl, nil_type, base, struct_ref,
  union_ref, enum_ref, def_ref, pointer, array, func, nil, cons, var_decl,
}
use psx_mnd_sym.Csym.State.{
  Panic, index_out_of_range, nil_dereference, stack_overflow, Tagged, TypeInfo, Overlay, Parser,
}

-- The types that a remapping has as keys and values.
pub data Ref : Type 0 where
  a_struct an_union an_enum : ℕ → Ref

unfoldable pub same_ref : Ref → Ref → Bool
same_ref (a_struct i) (a_struct j) = i == j
same_ref (an_union i) (an_union j) = i == j
same_ref (an_enum i) (an_enum j) = i == j
same_ref _ _ = false

-- typeRemap; `none` is the nil value.
abbrev pub Remap : Type 0
Remap = List (Ref × Option Ref)

unfoldable pub find_key : Ref → Remap → Option (Option Ref)
unfolding same_ref
find_key t [] = none
find_key t ((key, value) ∷ r) = if same_ref t key then some value else find_key t r

-- `_, ok := typeRemap[t]`
abbrev pub is_key : Ref → Remap → Bool
is_key t r = elim (find_key t r) [ none ↦ false | some _ ↦ true ]

abbrev pub to_type : Option Ref → CType
to_type none = nil_type
to_type (some (a_struct i)) = struct_ref i
to_type (some (an_union i)) = union_ref i
to_type (some (an_enum i)) = enum_ref i

-- `t1, ok := typeRemap[t]; if ok { t = t1 }`
unfoldable pub replaced : Remap → Ref → Option Ref
unfolding find_key
replaced r t = elim (find_key t r) [ none ↦ some t | some value ↦ value ]

-- What is done for the fields of the union at a place.
abbrev pub Visit : Type 0
Visit = ℕ → List UnionType → Result Panic (List UnionType)

-- A type with the unions after it.
abbrev pub Replacing : Type 0 → Type 0
Replacing A = List UnionType → Result Panic (A × List UnionType)

module _ (r : Remap) (visit : Visit) where
  -- replaceUsedSubtypesInType of what has been put in place: only a union has sub-types then.
  unfoldable pub enter : Option Ref → Replacing CType
  enter (some (an_union j)) us = do us' ← visit j us; ok (union_ref j, us')
  enter t us = ok (to_type t, us)

  -- replaceUsedTypesInVar on the type of a variable; only structs, unions and enums are ever keys. It
  -- is also what replaceUsedSubtypesInType does with the types inside another.
  unfoldable mutual
    unfolding replaced enter

    pub var_type : CType → Replacing CType
    var_type (struct_ref i) us = enter (replaced r (a_struct i)) us
    var_type (union_ref i) us = enter (replaced r (an_union i)) us
    var_type (enum_ref i) us = enter (replaced r (an_enum i)) us
    var_type (pointer t) us = do (u, us') ← var_type t us; ok (pointer u, us')
    var_type (array t n) us = do (u, us') ← var_type t us; ok (array u n, us')
    var_type (func t ps variadic) us = do
      (u, us1) ← var_type t us
      (qs, us2) ← params_types ps us1
      ok (func u qs variadic, us2)
    var_type nil_type us = ok (nil_type, us)
    var_type (base b) us = ok (base b, us)
    var_type (def_ref i) us = ok (def_ref i, us)

    pub params_types : Params → Replacing Params
    params_types nil us = ok (nil, us)
    params_types (cons v ps) us = do
      (w, us1) ← decl_types v us
      (qs, us2) ← params_types ps us1
      ok (cons w qs, us2)

    pub decl_types : VarDecl → Replacing VarDecl
    decl_types (var_decl addr size class t name) us = do
      (u, us') ← var_type t us
      ok (var_decl addr size class u name, us')

  -- replaceUsedSubtypesInType of a type definition: it has no case for one.
  unfoldable pub typedef_subtypes : ℕ → Replacing (Unit {0})
  typedef_subtypes place us = ok (tt, us)

  unfoldable pub decls_types : List VarDecl → Replacing (List VarDecl)
  unfolding decl_types
  decls_types [] us = ok ([], us)
  decls_types (v ∷ vs) us = do
    (w, us1) ← decl_types v us
    (ws, us2) ← decls_types vs us1
    ok (w ∷ ws, us2)

  unfoldable pub fields_types : List Field → Replacing (List Field)
  unfolding var_type
  fields_types [] us = ok ([], us)
  fields_types (f ∷ fs) us = do
    (t, us1) ← var_type f.type us
    (gs, us2) ← fields_types fs us1
    ok (record f { type = t } ∷ gs, us2)

  unfoldable pub blocks_types : List Block → Replacing (List Block)
  unfolding decls_types
  blocks_types [] us = ok ([], us)
  blocks_types (b ∷ bs) us = do
    (vs, us1) ← decls_types b.locals us
    (cs, us2) ← blocks_types bs us1
    ok (record b { locals = vs } ∷ cs, us2)

  -- replaceUsedFuncTypesInInOverlay
  unfoldable pub funcs_types : List FuncDecl → Replacing (List FuncDecl)
  unfolding var_type blocks_types
  funcs_types [] us = ok ([], us)
  funcs_types (f ∷ fs) us = do
    (t, us1) ← var_type f.type us
    (bs, us2) ← blocks_types f.blocks us1
    (gs, us3) ← funcs_types fs us2
    ok (record f { type = t; blocks = bs } ∷ gs, us3)

  -- replaceUsedVarTypesInInOverlay, then replaceUsedFuncTypesInInOverlay
  unfoldable pub overlay_types : Overlay → Replacing Overlay
  unfolding decls_types funcs_types
  overlay_types o us = do
    (vs, us1) ← decls_types o.vars us
    (fs, us2) ← funcs_types o.funcs us1
    ok (record o { vars = vs; funcs = fs }, us2)

  -- replaceUsedTypesInStructs, over the places of Structs.
  unfoldable pub structs_types : List ℕ → List StructType → Replacing (List StructType)
  unfolding fields_types
  structs_types [] ss us = ok (ss, us)
  structs_types (i ∷ places) ss us = elim (get_elem? ss i) [
    | none ↦ err nil_dereference
    | some t ↦
        (fields_types t.fields us >>= λ (changed : List Field × List UnionType).
        fields_types t.methods changed.1 >>= λ (methods : List Field × List UnionType).
        structs_types places (set ss i (record t { fields = changed.0; methods = methods.0 }))
          methods.1)
  ]

  -- replaceUsedTypesInUnions, over the places of Unions.
  unfoldable pub unions_types : List ℕ → List UnionType → Result Panic (List UnionType)
  unions_types [] us = ok us
  unions_types (i ∷ places) us = do us' ← visit i us; unions_types places us'

  -- replaceUsedTypesInTypedefs, over the places of Typedefs.
  unfoldable pub typedefs_types : List ℕ → List UnionType → Result Panic (List UnionType)
  unfolding typedef_subtypes
  typedefs_types [] us = ok us
  typedefs_types (i ∷ places) us = do (_, us') ← typedef_subtypes i us; typedefs_types places us'

  -- The loop over the overlays, by place.
  unfoldable pub overlays_types : List ℕ → List Overlay → Replacing (List Overlay)
  unfolding overlay_types
  overlays_types [] os us = ok (os, us)
  overlays_types (i ∷ places) os us = elim (get_elem? os i) [
    | none ↦ err nil_dereference
    | some o ↦
        (overlay_types o us >>= λ (changed : Overlay × List UnionType).
        overlays_types places (set os i changed.0) changed.1)
  ]

-- The type of a field of a union, in the store.
abbrev pub set_field_type : ℕ → ℕ → CType → List UnionType → List UnionType
set_field_type j k t us = elim (get_elem? us j) [
  | none ↦ us
  | some u ↦ elim (get_elem? u.fields k) [
    | none ↦ us
    | some f ↦ set us j (record u { fields = set u.fields k (record f { type = t }) })
  ]
]

-- The loop over the fields of the union at `j`, from the field `k` on; each is read when its turn comes.
unfoldable pub union_loop :
    Remap → Visit → ℕ → ℕ → ℕ → List UnionType → Result Panic (List UnionType)
unfolding var_type
union_loop r visit zero j k us = ok us
union_loop r visit (suc rounds) j k us = elim (get_elem? us j) [
  | none ↦ err nil_dereference
  | some u ↦ elim (get_elem? u.fields k) [
    | none ↦ err index_out_of_range
    | some f ↦
        (var_type r visit f.type us >>= λ (changed : CType × List UnionType).
        union_loop r visit rounds j (k + 1) (set_field_type j k changed.0 changed.1))
  ]
]

-- The case of a union in replaceUsedSubtypesInType. The fuel bounds how deep the calls are nested; Go's
-- stack overflows where they are not bounded.
unfoldable pub union_fields : Remap → ℕ → Visit
unfolding union_loop
union_fields r zero j us = err stack_overflow
union_fields r (suc fuel) j us = elim (get_elem? us j) [
  | none ↦ err nil_dereference
  | some u ↦ union_loop r (union_fields r fuel) (length u.fields) j 0 us
]

-- ReplaceUsedTypes
unfoldable pub replace_used_types : ℕ → Remap → Parser → Result Panic Parser
unfolding union_fields structs_types unions_types typedefs_types overlays_types
replace_used_types fuel r p = do
  let info = p.info
  let visit = union_fields r fuel
  (ss, us1) ← structs_types r visit info.structs.order info.structs.store info.unions.store
  us2 ← unions_types r visit info.unions.order us1
  us3 ← typedefs_types r visit info.typedefs us2
  (os, us4) ← overlays_types r visit (0 ∷ p.overlays) p.overlay_store us3
  let structs = info.structs
  let unions = info.unions
  ok (record p {
    info = record info {
      structs = record structs { store = ss };
      unions = record unions { store = us4 };
    };
    overlay_store = os;
  })
