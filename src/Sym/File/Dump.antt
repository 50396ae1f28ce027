-- ===== src/Sym/File/Dump.antt =====
-- File.String of file.go: the Psy-Q listing, with the offset of each symbol and the current line
-- number of the source.
pub mod Listing
pub mod Lines
pub mod Offsets
use psx_mnd_sym.Prelude.{
  ℕ, zero, suc, ◌+◌, List, [], ◌∷◌, ◌++◌, Text, codes, Option, none, some, Result, ok, err, ◌>>=◌,
  ◌==◌, if◌then◌else◌,
}
use psx_mnd_sym.Fmt.{dec, hex, zero_pad}
use psx_mnd_sym.Sym.Symbol.{
  SymbolBody, Symbol, inc_sld, inc_sld_byte, inc_sld_word, set_sld, set_sld2, size,
}
use psx_mnd_sym.Sym.Symbol.Print.{body_string, header_string}
use psx_mnd_sym.Sym.File.{FileHeader}

-- The panics: an increment while the line number is 0, and one inside a String method.
pub data DumpPanic : Type 0 where
  inc_sld_first inc_sld_byte_first inc_sld_word_first string_panic : DumpPanic

-- The cases of the type switch: the text of the body and the new line number, from the line number
-- before and the text that Body.String gave.
unfoldable pub track_line : ℕ → Text → SymbolBody → Result DumpPanic (Text × ℕ)
unfolding dec
track_line line text inc_sld =
    if line == 0
    then err inc_sld_first
    else ok (codes "Inc SLD linenum (to " ++ dec (line + 1) ++ codes ")", line + 1)
track_line line text (inc_sld_byte inc) =
    if line == 0
    then err inc_sld_byte_first
    else ok (
      codes "Inc SLD linenum by byte " ++ dec inc ++ codes " (to " ++ dec (line + inc) ++ codes ")",
      line + inc,
    )
track_line line text (inc_sld_word inc) =
    if line == 0
    then err inc_sld_word_first
    else ok (
      codes "Inc SLD linenum by word " ++ dec inc ++ codes " (to " ++ dec (line + inc) ++ codes ")",
      line + inc,
    )
track_line line text (set_sld n) = ok (text, n)
track_line line text (set_sld2 b) = ok (text, b.line)
track_line line text _ = ok (text, line)

unfoldable pub dump_body : ℕ → SymbolBody → Result DumpPanic (Text × ℕ)
unfolding track_line body_string
dump_body line body = elim (body_string body) [
  | none ↦ err string_panic
  | some text ↦ track_line line text body
]

-- "%06x: %s\n" without a body, "%06x: %s %s\n" with one.
unfoldable pub symbol_line : ℕ → Symbol → Text → Text
unfolding hex header_string
symbol_line offset sym [] = zero_pad 6 (hex offset) ++ codes ": " ++ header_string sym ++ codes "\n"
symbol_line offset sym (c ∷ body) =
    zero_pad 6 (hex offset)
    ++ codes ": "
    ++ header_string sym
    ++ codes " "
    ++ (c ∷ body)
    ++ codes "\n"

-- The loop over the symbols.
unfoldable pub dump_from : ℕ → ℕ → List Symbol → Result DumpPanic Text
unfolding dump_body symbol_line size
dump_from offset line [] = ok []
dump_from offset line (sym ∷ syms) = do
  (text, line') ← dump_body line sym.body
  rest ← dump_from (offset + size sym) line' syms
  ok (symbol_line offset sym text ++ rest)

-- FileHeader.String
unfoldable pub file_header_string : FileHeader → Text
unfolding dec
file_header_string hdr =
    codes "\nHeader : "
    ++ hdr.magic
    ++ codes " version "
    ++ dec hdr.version
    ++ codes "\nTarget unit "
    ++ dec hdr.target_unit

-- File.String; binary.Size of a FileHeader is 8.
unfoldable pub dump : FileHeader → List Symbol → Result DumpPanic Text
unfolding dump_from file_header_string
dump hdr syms = do
  listing ← dump_from 8 0 syms
  ok (file_header_string hdr ++ codes "\n" ++ listing)
