-- ===== src/Sym/Symbol/Layout.antt =====
-- The layout of each body, as the `struc:` tags of its fields give it, and the size of a symbol.
use psx_mnd_sym.Prelude.{
  ℕ, ◌+◌, ◌*◌, ◌/◌, ◌<◌, ◌≡◌, refl, ◌⊎◌, List, [], ◌∷◌, ◌++◌, Text, arith, length, length-append,
}
use psx_mnd_sym.Sym.Kind
use psx_mnd_sym.Sym.Wire.{
  Tag, uint8, uint16, uint32, int32, text, words, Values, encode_words, encode, Fits,
}
use psx_mnd_sym.Sym.Symbol.{
  NameBody, FuncStart, Def2, SymbolBody, Symbol, name1, name2, name5, name6, inc_sld, end_sld,
  set_overlay, inc_sld_byte, inc_sld_word, set_sld, func_end, block_start, block_end, set_sld2,
  func_start, def, def2, overlay, body_size, size,
}

abbrev pub name_tags : List Tag
name_tags = uint8 ∷ text ∷ []

abbrev pub set_sld2_tags : List Tag
set_sld2_tags = uint32 ∷ uint8 ∷ text ∷ []

abbrev pub func_start_tags : List Tag
func_start_tags =
    uint16 ∷ uint32 ∷ uint16 ∷ uint32 ∷ int32 ∷ uint32 ∷ uint8 ∷ text ∷ uint8 ∷ text ∷ []

abbrev pub def_tags : List Tag
def_tags = uint16 ∷ uint16 ∷ uint32 ∷ uint8 ∷ text ∷ []

abbrev pub def2_tags : List Tag
def2_tags = uint16 ∷ uint16 ∷ uint32 ∷ uint16 ∷ words ∷ uint8 ∷ text ∷ uint8 ∷ text ∷ []

abbrev pub overlay_tags : List Tag
overlay_tags = uint32 ∷ uint32 ∷ []

abbrev pub tags : SymbolBody → List Tag
tags (name1 b) = name_tags
tags (name2 b) = name_tags
tags (name5 b) = name_tags
tags (name6 b) = name_tags
tags inc_sld = []
tags end_sld = []
tags set_overlay = []
tags (inc_sld_byte inc) = uint8 ∷ []
tags (inc_sld_word inc) = uint16 ∷ []
tags (set_sld line) = uint32 ∷ []
tags (func_end line) = uint32 ∷ []
tags (block_start line) = uint32 ∷ []
tags (block_end line) = uint32 ∷ []
tags (set_sld2 b) = set_sld2_tags
tags (func_start b) = func_start_tags
tags (def b) = def_tags
tags (def2 b) = def2_tags
tags (overlay b) = overlay_tags

abbrev pub name_values : NameBody → Values name_tags
name_values b = (b.name_len, (b.name, tt))

abbrev pub func_start_values : FuncStart → Values func_start_tags
func_start_values b = (
  b.fp,
  (
    b.fsize,
    (
      b.ret_reg,
      (b.mask, (b.mask_offset, (b.line, (b.path_len, (b.path, (b.name_len, (b.name, tt))))))),
    ),
  ),
)

abbrev pub def2_values : Def2 → Values def2_tags
def2_values b = (
  b.class,
  (b.type, (b.size, (b.dims_len, (b.dims, (b.tag_len, (b.tag, (b.name_len, (b.name, tt)))))))),
)

-- The fields of a body in their order.
abbrev pub values : (b : SymbolBody) → Values (tags b)
values (name1 b) = name_values b
values (name2 b) = name_values b
values (name5 b) = name_values b
values (name6 b) = name_values b
values inc_sld = tt
values end_sld = tt
values set_overlay = tt
values (inc_sld_byte inc) = (inc, tt)
values (inc_sld_word inc) = (inc, tt)
values (set_sld line) = (line, tt)
values (func_end line) = (line, tt)
values (block_start line) = (line, tt)
values (block_end line) = (line, tt)
values (set_sld2 b) = (b.line, (b.path_len, (b.path, tt)))
values (func_start b) = func_start_values b
values (def b) = (b.class, (b.type, (b.size, (b.name_len, (b.name, tt)))))
values (def2 b) = def2_values b
values (overlay b) = (b.length, (b.id, tt))

-- The kinds under which a body is stored: Name2 is the body of three kinds, and no kind has a Name5
-- or a Name6.
abbrev pub HasKind : SymbolBody → ℕ → Type 0
HasKind (name1 b) k = k ≡ Kind.name1
HasKind (name2 b) k = (k ≡ Kind.name2) ⊎ (k ≡ Kind.name5) ⊎ (k ≡ Kind.name6)
HasKind (name5 b) k = ⊥
HasKind (name6 b) k = ⊥
HasKind inc_sld k = k ≡ Kind.inc_sld
HasKind end_sld k = k ≡ Kind.end_sld
HasKind set_overlay k = k ≡ Kind.set_overlay
HasKind (inc_sld_byte inc) k = k ≡ Kind.inc_sld_byte
HasKind (inc_sld_word inc) k = k ≡ Kind.inc_sld_word
HasKind (set_sld line) k = k ≡ Kind.set_sld
HasKind (func_end line) k = k ≡ Kind.func_end
HasKind (block_start line) k = k ≡ Kind.block_start
HasKind (block_end line) k = k ≡ Kind.block_end
HasKind (set_sld2 b) k = k ≡ Kind.set_sld2
HasKind (func_start b) k = k ≡ Kind.func_start
HasKind (def b) k = k ≡ Kind.def
HasKind (def2 b) k = k ≡ Kind.def2
HasKind (overlay b) k = k ≡ Kind.overlay

-- The bytes of a symbol.
unfoldable pub encode_symbol : Symbol → Text
unfolding encode
encode_symbol sym =
    encode (uint32 ∷ uint8 ∷ []) (sym.value, (sym.kind, tt))
    ++ encode (tags sym.body) (values sym.body)

-- A symbol that a file can hold: its fields fit, and the kind is one of its body.
pub record IsWellFormed (sym : Symbol) : Type 0 where
  pub header : Fits (uint32 ∷ uint8 ∷ []) 0 (sym.value, (sym.kind, tt))
  pub body : Fits (tags sym.body) 0 (values sym.body)
  pub kind : HasKind sym.body sym.kind

length-encode_words : (ws : List ℕ) → length (encode_words ws) ≡ 4 * length ws
unfolding encode_words
length-encode_words [] = refl
length-encode_words (w ∷ ws) = omega (arith, length-encode_words ws)

abbrev pub dims_len : SymbolBody → ℕ
dims_len (def2 b) = b.dims_len
dims_len _ = 0

-- BodySize is short of the bytes of a Def2 by the multiples of 65536 that its uint16 product loses.
length-body :
    (b : SymbolBody)
    → Fits (tags b) 0 (values b)
    → length (encode (tags b) (values b)) ≡ body_size b + 65536 * (4 * dims_len b / 65536)
unfolding encode body_size
length-body (name1 b) h = simp length-append (omega arith)
length-body (name2 b) h = simp length-append (omega arith)
length-body (name5 b) h = simp length-append (omega arith)
length-body (name6 b) h = simp length-append (omega arith)
length-body (set_sld2 b) h = simp length-append (omega arith)
length-body (func_start b) h = simp length-append (omega arith)
length-body (def b) h = simp length-append (omega arith)
length-body (def2 b) h = simp length-append (omega (arith, length-encode_words b.dims))
length-body _ h = omega arith

-- The bytes of a well-formed symbol are Size many, and exactly 65536 more for each 16384 dimensions
-- of a Def2.
pub length-encode_symbol :
    (sym : Symbol)
    → IsWellFormed sym
    → length (encode_symbol sym) ≡ size sym + 65536 * (dims_len sym.body / 16384)
unfolding encode_symbol size
length-encode_symbol sym h = omega (arith, length-body sym.body h.body)

-- A well-formed symbol is Size bytes long if it is no Def2 or has fewer than 16384 dimensions.
pub length-encode_symbol_small :
    (sym : Symbol)
    → IsWellFormed sym
    → dims_len sym.body < 16384
    → length (encode_symbol sym) ≡ size sym
length-encode_symbol_small sym h d = omega (arith, length-encode_symbol sym h)
