-- ===== src/C/Defs.antt =====
-- The Def methods of csym/c/type.go and csym/c/c.go: definitions in C syntax.
pub mod EnumOrder
pub mod Balance
pub mod Braces
use psx_mnd_sym.Prelude.{
  ℕ, zero, suc, ◌+◌, ◌%◌, ◌-◌, List, [], ◌∷◌, ◌++◌, map, Text, codes, Bool, true, false, ltb, leb,
  ◌==◌, if◌then◌else◌, length, replicate,
}
use psx_mnd_sym.Fmt.{dec, upper_hex, zero_pad}
use psx_mnd_sym.C.Ast.{
  CType, StorageClass, no_class, auto, extern, static, register, typedef, VarDecl, var_decl, Field,
  StructType, UnionType, EnumMember, EnumType, Block, FuncDecl,
}
use psx_mnd_sym.C.Leaf.{size_line, has_offsets, offset_line, field_lines}
use psx_mnd_sym.C.Print.{var_string}
use psx_mnd_sym.C.Sorting.{Sorting}

-- StorageClass.String (storageclass_string.go); the zero value is no constant.
unfoldable pub storage_class_string : StorageClass → Text
storage_class_string no_class = codes "StorageClass(0)"
storage_class_string auto = codes "auto"
storage_class_string extern = codes "extern"
storage_class_string static = codes "static"
storage_class_string register = codes "register"
storage_class_string typedef = codes "typedef"

-- "// address: 0x%08X\n", for an address other than 0.
unfoldable pub address_line : ℕ → Text
unfolding upper_hex
address_line addr =
    if ltb 0 addr then codes "// address: 0x" ++ (zero_pad 8 (upper_hex addr) ++ codes "\n") else []

-- The comment on where a variable stands.
unfoldable pub place_line : StorageClass → ℕ → Text
unfolding address_line dec
place_line register addr = codes "// register: " ++ (dec addr ++ codes "\n")
place_line class addr = address_line addr

abbrev pub class_prefix : StorageClass → Text
class_prefix no_class = []
class_prefix class = storage_class_string class ++ codes " "

abbrev pub opening : Text → Text → Text
opening keyword tag =
    if ltb 0 (length tag)
    then keyword ++ (codes " " ++ (tag ++ codes " {\n"))
    else keyword ++ codes " {\n"

-- `<` on strings: byte by byte.
unfoldable pub text_lt : Text → Text → Bool
text_lt s [] = false
text_lt [] (b ∷ t) = true
text_lt (a ∷ s) (b ∷ t) = if a == b then text_lt s t else ltb a b

-- `less` of EnumType.Def
unfoldable pub member_less : EnumMember → EnumMember → Bool
unfolding text_lt
member_less m n = if m.value == n.value then text_lt m.name n.name else ltb m.value n.value

unfoldable pub member_lines : List EnumMember → Text
unfolding dec
member_lines [] = []
member_lines (m ∷ members) =
    codes "\t"
    ++ (m.name ++ (codes "\t= " ++ (dec m.value ++ (codes ",\n" ++ member_lines members))))

-- EnumType.Def after its members are sorted, in place. `align` is what the tab writer makes of the
-- lines written to it.
unfoldable pub sorted_def : (Text → Text) → EnumType → List EnumMember → Text × EnumType
unfolding member_lines
sorted_def align t sorted = (
  opening (codes "enum") t.tag ++ (align (member_lines sorted) ++ codes "}"),
  record t { members = sorted },
)

-- EnumType.Def, and the type after it.
unfoldable pub enum_def : Sorting → (Text → Text) → EnumType → Text × EnumType
unfolding member_less sorted_def
enum_def sorting align t = sorted_def align t (sorting.sort_slice member_less t.members)

-- strings.Replace(s, "\n", "\n"+indent, -1)
unfoldable pub indent_lines : Text → Text → Text
indent_lines indent [] = []
indent_lines indent (b ∷ s) =
    let rest = indent_lines indent s in if b == 10 then 10 ∷ (indent ++ rest) else b ∷ rest

abbrev pub tabs : ℕ → Text
tabs n = replicate n 9

-- The second loop over the blocks of FuncDecl.Def: the braces of so many closed, the last first.
unfoldable pub close_blocks : ℕ → Text
close_blocks zero = []
close_blocks (suc i) = tabs i ++ (codes "}\n" ++ close_blocks i)

-- `leaf` is what is printed for a type that has no declarator.
module _ (leaf : CType → Text) where
  -- VarDecl.Def
  unfoldable pub var_def : VarDecl → Text
  unfolding place_line size_line storage_class_string var_string
  var_def (var_decl addr size class t name) =
      place_line class addr ++ (size_line size ++ (class_prefix class ++ var_string leaf t name))

  -- The methods of a structure, commented out. The offsets are those of its fields.
  unfoldable pub method_lines : Bool → List Field → Text
  unfolding offset_line var_string
  method_lines offsets [] = []
  method_lines offsets (m ∷ methods) =
      offset_line (codes "\t") offsets m
      ++ (codes "\t// "
          ++ (var_string leaf m.type m.name ++ (codes ";\n" ++ method_lines offsets methods)))

  -- StructType.Def
  unfoldable pub struct_def : StructType → Text
  unfolding size_line has_offsets field_lines method_lines
  struct_def t =
      let offsets = has_offsets t.fields in
      size_line t.size
      ++ (opening (codes "struct") t.tag
          ++ (field_lines leaf (codes "\t") offsets t.fields
              ++ (method_lines offsets t.methods ++ codes "}")))

  -- UnionType.Def
  unfoldable pub union_def : UnionType → Text
  unfolding size_line has_offsets field_lines
  union_def t =
      size_line t.size
      ++ (opening (codes "union") t.tag
          ++ (field_lines leaf (codes "\t") (has_offsets t.fields) t.fields ++ codes "}"))

  unfoldable pub local_lines : Text → List VarDecl → Text
  unfolding var_def indent_lines
  local_lines indent [] = []
  local_lines indent (v ∷ locals) =
      indent ++ (indent_lines indent (var_def v) ++ (codes ";\n" ++ local_lines indent locals))

  -- The first loop over the blocks, from the block `i` on: their braces opened, with their locals.
  unfoldable pub open_blocks : ℕ → List Block → Text
  unfolding local_lines
  open_blocks i [] = []
  open_blocks i (b ∷ blocks) =
      tabs i ++ (codes "{\n" ++ (local_lines (tabs (i + 1)) b.locals ++ open_blocks (i + 1) blocks))

  abbrev pub body_text : List Block → Text
  body_text [] = codes ";"
  body_text (b ∷ blocks) =
      codes " " ++ (open_blocks 0 (b ∷ blocks) ++ close_blocks (length (b ∷ blocks)))

  -- FuncDecl.Def
  unfoldable pub func_def : FuncDecl → Text
  unfolding address_line size_line dec var_string open_blocks close_blocks
  func_def f =
      address_line f.addr
      ++ (size_line f.size
          ++ (codes "// line start: "
              ++ (dec f.line_start
                  ++ (codes "\n// line end:   "
                      ++ (dec f.line_end
                          ++ (codes "\n"
                              ++ (var_string leaf f.type f.name ++ body_text f.blocks)))))))
