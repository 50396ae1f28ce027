-- ===== src/Sym/Symbol/Print.antt =====
-- The String methods of symbol.go and of type.go.
pub mod Total
use psx_mnd_sym.Prelude.{
  ℕ, zero, suc, ◌+◌, ◌-◌, ◌≡◌, List, [], ◌∷◌, ◌++◌, map, Text, codes, Option, none, some, ok, err,
  ◌==◌, if◌then◌else◌,
}
use psx_mnd_sym.Fmt.{dec, dec_int32, hex, zero_pad, join_spaces}
use psx_mnd_sym.Sym.Kind.{kind_string}
use psx_mnd_sym.Sym.Class.{class_string}
use psx_mnd_sym.Sym.Types.{base, mods, base_string, mod_string}
use psx_mnd_sym.Sym.Symbol.{
  NameBody, SetSld2, OverlayBody, FuncStart, Def, Def2, SymbolBody, Symbol, name1, name2, name5,
  name6, inc_sld, end_sld, set_overlay, inc_sld_byte, inc_sld_word, set_sld, func_end, block_start,
  block_end, set_sld2, func_start, def, def2, overlay,
}

-- `none` is a panic inside a String method.
infixl 5 ◌>>=◌
abbrev ◌>>=◌ {ℓ κ} : {A : Type ℓ} {B : Type κ} → Option A → (A → Option B) → Option B
none >>= f = none
some a >>= f = f a

unfoldable pub mod_strings : List ℕ → Option (List Text)
unfolding mod_string
mod_strings [] = some []
mod_strings (m ∷ ms) = do s ← mod_string m; ss ← mod_strings ms; some (s ∷ ss)

-- Type.String
unfoldable pub type_string : ℕ → Option Text
unfolding mods mod_strings base_string base join_spaces
type_string t = elim (mods t) [
  | err e ↦ none
  | ok ms ↦ do ss ← mod_strings ms; b ← base_string (base t); some (join_spaces (ss ++ b ∷ []))
]

-- SymbolHeader.String: "$%08x %v"
unfoldable pub header_string : Symbol → Text
unfolding hex kind_string
header_string sym = codes "$" ++ zero_pad 8 (hex sym.value) ++ codes " " ++ kind_string sym.kind

unfoldable pub func_start_string : FuncStart → Text
unfolding dec hex dec_int32
func_start_string b =
    codes "Function_start\n    fp = "
    ++ dec b.fp
    ++ codes "\n    fsize = "
    ++ dec b.fsize
    ++ codes "\n    retreg = "
    ++ dec b.ret_reg
    ++ codes "\n    mask = $"
    ++ zero_pad 8 (hex b.mask)
    ++ codes "\n    maskoffs = "
    ++ dec_int32 b.mask_offset
    ++ codes "\n    line = "
    ++ dec b.line
    ++ codes "\n    file = "
    ++ b.path
    ++ codes "\n    name = "
    ++ b.name

unfoldable pub def_string : Def → Option Text
unfolding class_string type_string dec
def_string b = do
  class ← class_string b.class
  type ← type_string b.type
  some (
      codes "Def class "
      ++ class
      ++ codes " type "
      ++ type
      ++ codes " size "
      ++ dec b.size
      ++ codes " name "
      ++ b.name)

-- `dims := fmt.Sprintf("%d %s", body.DimsLen, …)`, but "0" for no dimension.
unfoldable pub dims_string : Def2 → Text
unfolding dec join_spaces
dims_string b =
    if b.dims_len == 0
    then codes "0"
    else dec b.dims_len ++ codes " " ++ join_spaces (map dec b.dims)

unfoldable pub def2_string : Def2 → Option Text
unfolding class_string type_string dec dims_string
def2_string b = do
  class ← class_string b.class
  type ← type_string b.type
  some (
      codes "Def2 class "
      ++ class
      ++ codes " type "
      ++ type
      ++ codes " size "
      ++ dec b.size
      ++ codes " dims "
      ++ dims_string b
      ++ codes " tag "
      ++ b.tag
      ++ codes " name "
      ++ b.name)

-- The String methods of the other bodies. Name1, Name2, Name5 and Name6 have the same.
abbrev name_string : NameBody → Text
name_string b = b.name

abbrev inc_sld_string : Text
inc_sld_string = codes "Inc SLD linenum"

abbrev inc_sld_byte_string : ℕ → Text
inc_sld_byte_string inc = codes "Inc SLD linenum by byte " ++ dec inc

abbrev inc_sld_word_string : ℕ → Text
inc_sld_word_string inc = codes "Inc SLD linenum by word " ++ dec inc

abbrev set_sld_string : ℕ → Text
set_sld_string line = codes "Set SLD linenum to " ++ dec line

abbrev set_sld2_string : SetSld2 → Text
set_sld2_string b = codes "Set SLD to line " ++ dec b.line ++ codes " of file " ++ b.path

abbrev end_sld_string : Text
end_sld_string = codes "End SLD info"

abbrev func_end_string : ℕ → Text
func_end_string line = codes "Function_end   line " ++ dec line

abbrev block_start_string : ℕ → Text
block_start_string line = codes "Block_start  line = " ++ dec line

abbrev block_end_string : ℕ → Text
block_end_string line = codes "Block_end  line = " ++ dec line

abbrev overlay_string : OverlayBody → Text
overlay_string b = codes "length $" ++ zero_pad 8 (hex b.length) ++ codes " id $" ++ hex b.id

abbrev set_overlay_string : Text
set_overlay_string = []

-- SymbolBody.String: the method of the body.
unfoldable pub body_string : SymbolBody → Option Text
unfolding dec hex func_start_string def_string def2_string
body_string (name1 b) = some (name_string b)
body_string (name2 b) = some (name_string b)
body_string (name5 b) = some (name_string b)
body_string (name6 b) = some (name_string b)
body_string inc_sld = some inc_sld_string
body_string (inc_sld_byte inc) = some (inc_sld_byte_string inc)
body_string (inc_sld_word inc) = some (inc_sld_word_string inc)
body_string (set_sld line) = some (set_sld_string line)
body_string (set_sld2 b) = some (set_sld2_string b)
body_string end_sld = some end_sld_string
body_string (func_end line) = some (func_end_string line)
body_string (block_start line) = some (block_start_string line)
body_string (block_end line) = some (block_end_string line)
body_string (overlay b) = some (overlay_string b)
body_string set_overlay = some set_overlay_string
body_string (func_start b) = some (func_start_string b)
body_string (def b) = def_string b
body_string (def2 b) = def2_string b
