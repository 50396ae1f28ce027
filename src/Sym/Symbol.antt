-- ===== src/Sym/Symbol.antt =====
-- symbol.go: the symbols, their sizes and their printed form.
pub mod Layout
pub mod Print
use psx_mnd_sym.Prelude.{ℕ, ◌+◌, ◌*◌, ◌%◌, ◌^◌, List, Text}

-- Name1, Name2, Name5 and Name6 have the same fields.
pub record NameBody : Type 0 where
  pub name_len : ℕ
  pub name : Text

pub record SetSld2 : Type 0 where
  pub line : ℕ
  pub path_len : ℕ
  pub path : Text

-- `mask_offset` is an int32, given by its 32 bits.
pub record FuncStart : Type 0 where
  pub fp : ℕ
  pub fsize : ℕ
  pub ret_reg : ℕ
  pub mask : ℕ
  pub mask_offset : ℕ
  pub line : ℕ
  pub path_len : ℕ
  pub path : Text
  pub name_len : ℕ
  pub name : Text

pub record Def : Type 0 where
  pub class : ℕ
  pub type : ℕ
  pub size : ℕ
  pub name_len : ℕ
  pub name : Text

pub record Def2 : Type 0 where
  pub class : ℕ
  pub type : ℕ
  pub size : ℕ
  pub dims_len : ℕ
  pub dims : List ℕ
  pub tag_len : ℕ
  pub tag : Text
  pub name_len : ℕ
  pub name : Text

pub record OverlayBody : Type 0 where
  pub length : ℕ
  pub id : ℕ

-- SymbolBody, with a constructor for each type that implements it.
pub data SymbolBody : Type 0 where
  name1 name2 name5 name6 : NameBody → SymbolBody
  inc_sld end_sld set_overlay : SymbolBody
  inc_sld_byte inc_sld_word set_sld func_end block_start block_end : ℕ → SymbolBody
  set_sld2 : SetSld2 → SymbolBody
  func_start : FuncStart → SymbolBody
  def : Def → SymbolBody
  def2 : Def2 → SymbolBody
  overlay : OverlayBody → SymbolBody

-- Symbol, with the fields of its SymbolHeader.
pub record Symbol : Type 0 where
  pub value : ℕ
  pub kind : ℕ
  pub body : SymbolBody

-- The BodySize methods, one for each body. Name1, Name2, Name5 and Name6 have the same.
abbrev name_size : NameBody → ℕ
name_size b = 1 + b.name_len

abbrev inc_sld_size : ℕ
inc_sld_size = 0

abbrev inc_sld_byte_size : ℕ
inc_sld_byte_size = 1

abbrev inc_sld_word_size : ℕ
inc_sld_word_size = 2

abbrev set_sld_size : ℕ
set_sld_size = 4

abbrev set_sld2_size : SetSld2 → ℕ
set_sld2_size b = 4 + 1 + b.path_len

abbrev end_sld_size : ℕ
end_sld_size = 0

abbrev func_start_size : FuncStart → ℕ
func_start_size b = 2 + 4 + 2 + 4 + 4 + 4 + 1 + b.path_len + 1 + b.name_len

abbrev func_end_size : ℕ
func_end_size = 4

abbrev block_start_size : ℕ
block_start_size = 4

abbrev block_end_size : ℕ
block_end_size = 4

abbrev def_size : Def → ℕ
def_size b = 2 + 2 + 4 + 1 + b.name_len

-- In `int(4*body.DimsLen)` the product is one of uint16.
abbrev def2_size : Def2 → ℕ
def2_size b = 2 + 2 + 4 + 2 + 4 * b.dims_len % 2 ^ 16 + 1 + b.tag_len + 1 + b.name_len

abbrev overlay_size : ℕ
overlay_size = 4 + 4

abbrev set_overlay_size : ℕ
set_overlay_size = 0

-- SymbolBody.BodySize: the method of the body.
unfoldable pub body_size : SymbolBody → ℕ
body_size (name1 b) = name_size b
body_size (name2 b) = name_size b
body_size (name5 b) = name_size b
body_size (name6 b) = name_size b
body_size inc_sld = inc_sld_size
body_size (inc_sld_byte inc) = inc_sld_byte_size
body_size (inc_sld_word inc) = inc_sld_word_size
body_size (set_sld line) = set_sld_size
body_size end_sld = end_sld_size
body_size (func_end line) = func_end_size
body_size (block_start line) = block_start_size
body_size (block_end line) = block_end_size
body_size (overlay b) = overlay_size
body_size set_overlay = set_overlay_size
body_size (set_sld2 b) = set_sld2_size b
body_size (func_start b) = func_start_size b
body_size (def b) = def_size b
body_size (def2 b) = def2_size b

-- Symbol.Size; binary.Size of a SymbolHeader is 5.
unfoldable pub size : Symbol → ℕ
unfolding body_size
size sym = 5 + body_size sym.body
