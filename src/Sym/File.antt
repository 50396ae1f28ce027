-- ===== src/Sym/File.antt =====
-- file.go and the parsing functions of symbol.go.
pub mod Switch
pub mod Body
pub mod RoundTrip
pub mod Whole
pub mod Dump
use psx_mnd_sym.Prelude.{
  ℕ, zero, suc, ◌+◌, List, [], ◌∷◌, ◌++◌, Text, codes, text_eq, ◌==◌, if◌then◌else◌, Bool, true,
  false, Result, ok, err, ◌>>=◌, length,
}
use psx_mnd_sym.Sym.Kind
use psx_mnd_sym.Sym.Wire.{
  Tag, uint8, uint16, uint32, signature, Values, IoError, eof, unexpected_eof, Struc,
}
use psx_mnd_sym.Sym.Symbol.{
  NameBody, SetSld2, FuncStart, Def, Def2, OverlayBody, SymbolBody, Symbol, name1, name2, inc_sld,
  end_sld, set_overlay, inc_sld_byte, inc_sld_word, set_sld, func_end, block_start, block_end,
  set_sld2, func_start, def, def2, overlay,
}
use psx_mnd_sym.Sym.Symbol.Layout.{
  name_tags, set_sld2_tags, func_start_tags, def_tags, def2_tags, overlay_tags,
}

-- The errors, by their cause: errors.WithStack keeps it.
pub data ParseError : Type 0 where
  io : IoError → ParseError
  unknown_kind : ℕ → ParseError
  bad_signature : Text → ParseError

pub record FileHeader : Type 0 where
  pub magic : Text
  pub version : ℕ
  pub target_unit : ℕ

abbrev pub header_tags : List Tag
header_tags = signature ∷ uint8 ∷ uint32 ∷ []

-- The fields of a struct, filled in their order.
abbrev pub fill_name : Values name_tags → NameBody
fill_name (n, (s, _)) = record { name_len = n; name = s }

abbrev pub fill_set_sld2 : Values set_sld2_tags → SetSld2
fill_set_sld2 (line, (n, (s, _))) = record { line = line; path_len = n; path = s }

abbrev pub fill_func_start : Values func_start_tags → FuncStart
fill_func_start (fp, (fsize, (ret, (mask, (offset, (line, (n, (path, (m, (name, _)))))))))) =
    record {
      fp = fp;
      fsize = fsize;
      ret_reg = ret;
      mask = mask;
      mask_offset = offset;
      line = line;
      path_len = n;
      path = path;
      name_len = m;
      name = name;
    }

abbrev pub fill_def : Values def_tags → Def
fill_def (class, (type, (size, (n, (name, _))))) = record {
  class = class;
  type = type;
  size = size;
  name_len = n;
  name = name;
}

abbrev pub fill_def2 : Values def2_tags → Def2
fill_def2 (class, (type, (size, (d, (dims, (k, (tag, (n, (name, _))))))))) = record {
  class = class;
  type = type;
  size = size;
  dims_len = d;
  dims = dims;
  tag_len = k;
  tag = tag;
  name_len = n;
  name = name;
}

abbrev pub fill_overlay : Values overlay_tags → OverlayBody
fill_overlay (n, (id, _)) = record { length = n; id = id }

abbrev pub fill_header : Values header_tags → FileHeader
fill_header (magic, (version, (unit, _))) = record {
  magic = magic;
  version = version;
  target_unit = unit;
}

-- What reading leaves: the result, or the error, with the rest of the input.
abbrev pub Read {ℓ} : Type ℓ → Type ℓ
Read A = Result ParseError (A × Text)

-- A Go `switch` on a number: the first case that fits, else `otherwise`.
unfoldable pub switch {ℓ} : {A : Type ℓ} → ℕ → List (ℕ × A) → A → A
switch k [] otherwise = otherwise
switch k ((c, a) ∷ cases) otherwise = if k == c then a else switch k cases otherwise

-- A body with no fields is not read.
abbrev pub empty_body : SymbolBody → Text → Read SymbolBody
empty_body body bs = ok (body, bs)

module _ (s : Struc) where
  open s use {unpack}

  -- struc.Unpack with its error passed on, and the struct filled.
  unfoldable pub unpack_as {ℓ} : {A : Type ℓ} (ts : List Tag) → (Values ts → A) → Text → Read A
  unpack_as ts fill bs = elim (unpack ts bs) [
    | err e ↦ err (io e)
    | ok (vs, rest) ↦ ok (fill vs, rest)
  ]

  unfoldable pub parse_symbol_header : Text → Read (ℕ × ℕ)
  unfolding unpack_as
  parse_symbol_header = unpack_as (uint32 ∷ uint8 ∷ []) (λ vs. (vs.0, vs.1.0))

  -- The cases of parseSymbolBody; those of KindName5 and KindName6 parse a Name2.
  abbrev pub body_cases : List (ℕ × (Text → Read SymbolBody))
  body_cases =
      (Kind.name1, unpack_as name_tags (λ vs. name1 (fill_name vs)))
      ∷ (Kind.name2, unpack_as name_tags (λ vs. name2 (fill_name vs)))
      ∷ (Kind.name5, unpack_as name_tags (λ vs. name2 (fill_name vs)))
      ∷ (Kind.name6, unpack_as name_tags (λ vs. name2 (fill_name vs)))
      ∷ (Kind.inc_sld, empty_body inc_sld)
      ∷ (Kind.inc_sld_byte, unpack_as (uint8 ∷ []) (λ vs. inc_sld_byte vs.0))
      ∷ (Kind.inc_sld_word, unpack_as (uint16 ∷ []) (λ vs. inc_sld_word vs.0))
      ∷ (Kind.set_sld, unpack_as (uint32 ∷ []) (λ vs. set_sld vs.0))
      ∷ (Kind.set_sld2, unpack_as set_sld2_tags (λ vs. set_sld2 (fill_set_sld2 vs)))
      ∷ (Kind.end_sld, empty_body end_sld)
      ∷ (Kind.func_start, unpack_as func_start_tags (λ vs. func_start (fill_func_start vs)))
      ∷ (Kind.func_end, unpack_as (uint32 ∷ []) (λ vs. func_end vs.0))
      ∷ (Kind.block_start, unpack_as (uint32 ∷ []) (λ vs. block_start vs.0))
      ∷ (Kind.block_end, unpack_as (uint32 ∷ []) (λ vs. block_end vs.0))
      ∷ (Kind.def, unpack_as def_tags (λ vs. def (fill_def vs)))
      ∷ (Kind.def2, unpack_as def2_tags (λ vs. def2 (fill_def2 vs)))
      ∷ (Kind.overlay, unpack_as overlay_tags (λ vs. overlay (fill_overlay vs)))
      ∷ (Kind.set_overlay, empty_body set_overlay)
      ∷ []

  unfoldable pub parse_symbol_body : ℕ → Text → Read SymbolBody
  unfolding switch
  parse_symbol_body kind = switch kind body_cases (λ bs. err (unknown_kind kind))

  unfoldable pub parse_symbol : Text → Read Symbol
  unfolding parse_symbol_header parse_symbol_body
  parse_symbol bs = do
    (hdr, rest) ← parse_symbol_header bs
    (body, rest') ← parse_symbol_body hdr.1 rest
    ok (record { value = hdr.0; kind = hdr.1; body = body }, rest')

  -- The signature is compared with "MND".
  unfoldable pub parse_file_header : Text → Read FileHeader
  unfolding unpack_as
  parse_file_header bs = do
    (hdr, rest) ← unpack_as header_tags fill_header bs
    if text_eq hdr.magic (codes "MND") then ok (hdr, rest) else err (bad_signature hdr.magic)

-- errors.Cause(err) == io.EOF
abbrev pub is_eof : ParseError → Bool
is_eof (io eof) = true
is_eof _ = false

-- How the loop of Parse ends: at io.EOF, or with another error, each with the symbols read; `stuck`
-- is no result of Go, but that the fuel ran out.
pub data Parsed : Type 0 where
  done : List Symbol → Parsed
  failed : List Symbol → ParseError → Parsed
  stuck : Parsed

module _ (s : Struc) where
  unfoldable pub parse_symbols : ℕ → List Symbol → Text → Parsed
  parse_symbols zero syms bs = stuck
  parse_symbols (suc fuel) syms bs = elim (parse_symbol s bs) [
    | err e ↦ if is_eof e then done syms else failed syms e
    | ok (sym, rest) ↦ parse_symbols fuel (syms ++ sym ∷ []) rest
  ]

  -- Parse of a reader over the bytes `bs`, as ParseBytes calls it. A symbol takes a byte at least, so
  -- one round more than there are bytes is enough.
  unfoldable pub parse_bytes : Text → Result ParseError (FileHeader × Parsed)
  unfolding parse_file_header parse_symbols
  parse_bytes bs = do
    (hdr, rest) ← parse_file_header s bs
    ok (hdr, parse_symbols (suc (length rest)) [] rest)
