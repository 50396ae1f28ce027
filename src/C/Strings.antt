-- ===== src/C/Strings.antt =====
-- The String and Def methods of any type (csym/c/type.go).
use psx_mnd_sym.Prelude.{[], ◌++◌, Text, codes, none, some, get_elem?}
use psx_mnd_sym.C.Ast.{
  CType, nil_type, base, struct_ref, union_ref, enum_ref, def_ref, pointer, array, func, decl_name,
}
use psx_mnd_sym.C.Print.{base_type_string, array_suffix, var_string}
use psx_mnd_sym.C.Leaf.{TypeStore}
use psx_mnd_sym.C.Sorting.{Sorting}
use psx_mnd_sym.C.Defs.{var_def, struct_def, union_def, enum_def}

module _ (st : TypeStore) (leaf : CType → Text) where
  -- String, of the types that a pointer may lead to.
  unfoldable pub type_string : CType → Text
  unfolding base_type_string array_suffix var_string
  type_string (base b) = base_type_string b
  type_string (struct_ref i) = elim (get_elem? st.structs i) [
    | none ↦ []
    | some t ↦ codes "struct " ++ t.tag
  ]
  type_string (union_ref i) = elim (get_elem? st.unions i) [
    | none ↦ []
    | some t ↦ codes "union " ++ t.tag
  ]
  type_string (enum_ref i) = elim (get_elem? st.enums i) [
    | none ↦ []
    | some t ↦ codes "enum " ++ t.tag
  ]
  type_string (def_ref i) = elim (get_elem? st.defs i) [ none ↦ [] | some v ↦ decl_name v ]
  type_string (pointer t) = type_string t ++ codes "*"
  type_string (array t n) = type_string t ++ array_suffix n
  type_string (func t ps variadic) = var_string leaf (func t ps variadic) []
  type_string nil_type = codes "%!s(<nil>)"

  module _ (sorting : Sorting) (align : Text → Text) where
    -- Def. The place of a type is one of its store.
    unfoldable pub type_def : CType → Text
    unfolding type_string struct_def union_def enum_def var_def
    type_def (struct_ref i) = elim (get_elem? st.structs i) [
      | none ↦ []
      | some t ↦ struct_def leaf t
    ]
    type_def (union_ref i) = elim (get_elem? st.unions i) [ none ↦ [] | some t ↦ union_def leaf t ]
    type_def (enum_ref i) = elim (get_elem? st.enums i) [
      | none ↦ []
      | some t ↦ (enum_def sorting align t).0
    ]
    type_def (def_ref i) = elim (get_elem? st.defs i) [ none ↦ [] | some v ↦ var_def leaf v ]
    type_def t = type_string t
