-- ===== src/C/Leaf.antt =====
-- The printed form of the types that have no declarator: their String methods, and fakeUnionString
-- (csym/c/type.go, csym/c/c.go).
use psx_mnd_sym.Prelude.{
  ℕ, zero, suc, List, [], ◌∷◌, ◌++◌, Text, codes, Bool, false, ltb, if◌then◌else◌, none, some,
  get_elem?,
}
use psx_mnd_sym.Fmt.{dec, upper_hex, zero_pad}
use psx_mnd_sym.C.Ast.{
  CType, VarDecl, Field, StructType, UnionType, EnumType, base, struct_ref, union_ref, enum_ref,
  def_ref, decl_name,
}
use psx_mnd_sym.C.FakeTag.{is_fake_tag}
use psx_mnd_sym.C.Print.{base_type_string, var_string}

-- What the pointers of types point to.
pub record TypeStore : Type 0 where
  pub structs : List StructType
  pub unions : List UnionType
  pub enums : List EnumType
  pub defs : List VarDecl

-- "%04X" of an offset and "%X" of a size.
unfoldable pub size_line : ℕ → Text
unfolding upper_hex
size_line size = if ltb 0 size then codes "// size: 0x" ++ (upper_hex size ++ codes "\n") else []

-- `len(t.Fields) > 1 && t.Fields[1].Offset > 0`
unfoldable pub has_offsets : List Field → Bool
has_offsets (f ∷ g ∷ fields) = ltb 0 g.offset
has_offsets _ = false

-- The comment in front of a field, after the indent.
unfoldable pub offset_line : Text → Bool → Field → Text
unfolding upper_hex dec
offset_line indent offsets f =
    let start = indent ++ (codes "// offset: " ++ zero_pad 4 (upper_hex f.offset)) in
    if ltb 0 f.size
    then start ++ (codes " (" ++ (dec f.size ++ codes " bytes)\n"))
    else if offsets
    then start ++ codes "\n"
    else []

unfoldable pub field_lines : (CType → Text) → Text → Bool → List Field → Text
unfolding offset_line var_string
field_lines leaf indent offsets [] = []
field_lines leaf indent offsets (f ∷ fields) =
    offset_line indent offsets f
    ++ (indent
        ++ (var_string leaf f.type f.name
            ++ (codes ";\n" ++ field_lines leaf indent offsets fields)))

-- fakeUnionString
unfoldable pub fake_union_string : (CType → Text) → UnionType → Text
unfolding size_line field_lines has_offsets
fake_union_string leaf t =
    size_line t.size
    ++ (codes "\tunion {\n"
        ++ (field_lines leaf (codes "\t\t") (has_offsets t.fields) t.fields ++ codes "\t}"))

abbrev pub union_leaf : (CType → Text) → UnionType → Text
union_leaf inner t =
    if is_fake_tag t.tag then fake_union_string inner t else codes "union " ++ t.tag

-- What Var.String prints in front of the declarator. The fuel bounds how deep unions with fake tags are
-- nested in each other.
unfoldable pub type_leaf : ℕ → TypeStore → CType → Text
unfolding base_type_string is_fake_tag fake_union_string
type_leaf fuel st (base b) = base_type_string b
type_leaf fuel st (struct_ref i) = elim (get_elem? st.structs i) [
  | none ↦ []
  | some t ↦ codes "struct " ++ t.tag
]
type_leaf zero st (union_ref i) = []
type_leaf (suc fuel) st (union_ref i) = elim (get_elem? st.unions i) [
  | none ↦ []
  | some t ↦ union_leaf (type_leaf fuel st) t
]
type_leaf fuel st (enum_ref i) = elim (get_elem? st.enums i) [
  | none ↦ []
  | some t ↦ codes "enum " ++ t.tag
]
type_leaf fuel st (def_ref i) = elim (get_elem? st.defs i) [ none ↦ [] | some v ↦ decl_name v ]
type_leaf fuel st _ = codes "%!s(<nil>)"
