-- ===== src/Tests/SymRuns.antt =====
-- The symbol file's theorems at a small concrete file.
use psx_mnd_sym.Prelude.{
  ◌+◌, ◌*◌, ◌/◌, ◌≡◌, ◌≢◌, refl, List, [], ◌∷◌, ◌++◌, Text, codes, All, arith, ok, err, length,
  some, text_eq,
}
use psx_mnd_sym.Sym.Kind
use psx_mnd_sym.Sym.Kind.{kind_string}
use psx_mnd_sym.Sym.Class.{class_string}
use psx_mnd_sym.Sym.Names.{name_in, kind_string-name_in, class_string-name_in}
use psx_mnd_sym.Sym.Types.{base, mods}
use psx_mnd_sym.Sym.Types.Decode.{type_code, decode-type_code}
use psx_mnd_sym.Sym.Wire.{eof}
use psx_mnd_sym.Sym.Symbol.{Symbol, name1, inc_sld, set_sld2, def2, size}
use psx_mnd_sym.Sym.Symbol.Layout.{encode_symbol, IsWellFormed, length-encode_symbol, dims_len}
use psx_mnd_sym.Sym.File.{FileHeader, done, stuck, io, parse_bytes, parse_symbol, switch}
use psx_mnd_sym.Sym.File.Whole.{
  encode_file, IsHeader, parse_bytes-encode_file, parse_bytes-ne-stuck, parse_bytes_sound,
}
use psx_mnd_sym.Sym.File.Dump.{dump, dump_body, symbol_line}
use psx_mnd_sym.Sym.File.Dump.Listing.{line_after, move_line}
use psx_mnd_sym.Sym.File.Dump.Lines.{IsPlaced, dump_returns_iff}
use psx_mnd_sym.Sym.File.Dump.Offsets.{dump-offset}
use psx_mnd_sym.Tests.Reader.{reader, read_from}

abbrev header : FileHeader
header = record { magic = codes "MND"; version = 1; target_unit = 0 }

abbrev main_name : Symbol
main_name = record {
  value = 0x80010000;
  kind = Kind.name1;
  body = name1 (record { name_len = 4; name = codes "main" });
}

abbrev set_line : Symbol
set_line = record {
  value = 0x80010000;
  kind = Kind.set_sld2;
  body = set_sld2 (record { line = 115; path_len = 3; path = codes "A.C" });
}

abbrev next_line : Symbol
next_line = record { value = 0x80010004; kind = Kind.inc_sld; body = inc_sld }

abbrev array_def : Symbol
array_def = record {
  value = 0;
  kind = Kind.def2;
  body = def2 (record {
    class = 8;
    type = 0x34;
    size = 4;
    dims_len = 1;
    dims = 1 ∷ [];
    tag_len = 0;
    tag = [];
    name_len = 1;
    name = codes "r";
  });
}

abbrev symbols : List Symbol
symbols = main_name ∷ set_line ∷ next_line ∷ array_def ∷ []

main_name_fits : IsWellFormed main_name
main_name_fits = record { header = omega arith; body = omega arith; kind = refl }

set_line_fits : IsWellFormed set_line
set_line_fits = record { header = omega arith; body = omega arith; kind = refl }

next_line_fits : IsWellFormed next_line
next_line_fits = record { header = omega arith; body = tt; kind = refl }

array_def_fits : IsWellFormed array_def
array_def_fits = record { header = omega arith; body = omega arith; kind = refl }

symbols_fit : All IsWellFormed symbols
symbols_fit = (main_name_fits, (set_line_fits, (next_line_fits, (array_def_fits, tt))))

header_fits : IsHeader header
header_fits = (omega arith, refl)

-- The listing, as DUMPSYM.EXE prints it.
listing :
    dump header symbols
    ≡ ok (
        codes
          "\nHeader : MND version 1\nTarget unit 0\n000008: $80010000 1 main\n000012: $80010000 88 Set SLD to line 115 of file A.C\n00001f: $80010004 80 Inc SLD linenum (to 116)\n000024: $00000000 96 Def2 class MOS type ARY INT size 4 dims 1 1 tag  name r\n")
unfolding dump
listing = refl

parse_bytes-encode_file_example :
    parse_bytes reader (encode_file header symbols) ≡ ok (header, done symbols)
parse_bytes-encode_file_example =
    parse_bytes-encode_file reader header symbols header_fits symbols_fit

-- A file that ends between the header and the body of a symbol is read up to that symbol.
abbrev cut : Text
cut = codes "MND" ++ 1 ∷ 0 ∷ 0 ∷ 0 ∷ 0 ∷ 4 ∷ 0 ∷ 1 ∷ 128 ∷ 0x80 ∷ 0 ∷ 0 ∷ 1 ∷ 128 ∷ 0x86 ∷ []

parse_cut :
    parse_bytes reader cut
    ≡ ok (header, done (record { value = 0x80010004; kind = Kind.inc_sld; body = inc_sld } ∷ []))
unfolding parse_bytes parse_symbol read_from text_eq switch
parse_cut = refl

parse_bytes-ne-stuck_example : parse_bytes reader cut ≢ ok (header, stuck)
parse_bytes-ne-stuck_example = parse_bytes-ne-stuck reader cut header (omega arith)

parse_bytes_sound_example :
    IsHeader header
    × All IsWellFormed (next_line ∷ [])
    × ((tail : Text) × (cut ≡ encode_file header (next_line ∷ []) ++ tail)
        × (parse_symbol reader tail ≡ err (io eof)))
parse_bytes_sound_example =
    parse_bytes_sound reader cut header (next_line ∷ []) (omega arith) parse_cut

length-encode_symbol_example :
    length (encode_symbol array_def) ≡ size array_def + 65536 * (dims_len array_def.body / 16384)
length-encode_symbol_example = length-encode_symbol array_def array_def_fits

decode-type_code_example :
    (base (type_code 4 (2 ∷ 1 ∷ [])) ≡ 4) × (mods (type_code 4 (2 ∷ 1 ∷ [])) ≡ ok (2 ∷ 1 ∷ []))
decode-type_code_example = decode-type_code 4 (2 ∷ 1 ∷ []) (omega arith) (omega arith) (omega arith)

class_string-name_in_example : class_string 0x66 ≡ some (codes "EOS")
unfolding name_in
class_string-name_in_example = class_string-name_in 0x66

kind_string-name_in_example : kind_string 0x98 ≡ codes "overlay"
unfolding name_in
kind_string-name_in_example = kind_string-name_in 0x98 (omega arith)

dump-offset_example :
    (before body after : Text) × (dump_body (line_after 0 (main_name ∷ set_line ∷ [])) inc_sld
      ≡ ok (body, move_line (line_after 0 (main_name ∷ set_line ∷ [])) inc_sld))
    × ((codes
          "\nHeader : MND version 1\nTarget unit 0\n000008: $80010000 1 main\n000012: $80010000 88 Set SLD to line 115 of file A.C\n00001f: $80010004 80 Inc SLD linenum (to 116)\n000024: $00000000 96 Def2 class MOS type ARY INT size 4 dims 1 1 tag  name r\n")
        ≡ before
          ++ (symbol_line (length (encode_file header (main_name ∷ set_line ∷ []))) next_line body
              ++ after))
dump-offset_example =
    dump-offset header (main_name ∷ set_line ∷ []) next_line (array_def ∷ []) _ header_fits
      (main_name_fits, (set_line_fits, tt)) (omega arith) listing

dump_returns_iff_example : IsPlaced 0 symbols
dump_returns_iff_example = (dump_returns_iff header symbols).0 (_, listing)
