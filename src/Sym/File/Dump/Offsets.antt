-- ===== src/Sym/File/Dump/Offsets.antt =====
-- The offset that the listing shows for a symbol is the position of its bytes in the file.
use psx_mnd_sym.Prelude.{
  ◌+◌, ◌<◌, ◌≡◌, ◌∙◌, refl, sym, ap, List, [], ◌∷◌, ◌++◌, Text, codes, arith, All, ok, >>=-steps,
  ok-injective, append_assoc, length, length-append,
}
use psx_mnd_sym.Sym.Symbol.{Symbol}
use psx_mnd_sym.Sym.Symbol.Layout.{
  encode_symbol, IsWellFormed, dims_len, length-encode_symbol_small,
}
use psx_mnd_sym.Sym.File.{FileHeader}
use psx_mnd_sym.Sym.File.Whole.{encode_symbols, encode_file, IsHeader}
use psx_mnd_sym.Sym.File.Dump.Listing.{total_size, line_after, move_line, dump_from-at}
use psx_mnd_sym.Sym.File.Dump.{dump_body, dump_from, dump, symbol_line, file_header_string}

-- Size adds up to the bytes of the symbols, where no Def2 has 16384 dimensions or more.
abbrev pub IsSmall : Symbol → Type 0
IsSmall s = dims_len s.body < 16384

length-encode_symbols-total :
    (ss : List Symbol)
    → All IsWellFormed ss
    → All IsSmall ss
    → length (encode_symbols ss) ≡ total_size ss
unfolding encode_symbols total_size
length-encode_symbols-total [] h k = refl
length-encode_symbols-total (s ∷ ss) h k = omega (
  arith,
  length-append (encode_symbol s) (encode_symbols ss),
  length-encode_symbol_small s h.0 k.0,
  length-encode_symbols-total ss h.1 k.1,
)

length-encode_file :
    (hdr : FileHeader) (ss : List Symbol)
    → IsHeader hdr
    → All IsWellFormed ss
    → All IsSmall ss
    → length (encode_file hdr ss) ≡ 8 + total_size ss
unfolding encode_file
length-encode_file hdr ss h wfs small =
    simp length-append (omega (arith, length-encode_symbols-total ss wfs small))

-- Where File.String lists the symbols `pre ++ s ∷ post` of a well-formed file, none of those before
-- `s` a Def2 with 16384 dimensions or more, the line of `s` begins with the number of bytes that the
-- file's header and `pre` take, in hexadecimal.
pub dump-offset :
    (hdr : FileHeader) (pre : List Symbol) (s : Symbol) (post : List Symbol) (t : Text)
    → IsHeader hdr
    → All IsWellFormed pre
    → All IsSmall pre
    → dump hdr (pre ++ s ∷ post) ≡ ok t
    → (before body after : Text) × (dump_body (line_after 0 pre) s.body
        ≡ ok (body, move_line (line_after 0 pre) s.body))
      × (t ≡ before ++ (symbol_line (length (encode_file hdr pre)) s body ++ after))
unfolding dump
dump-offset hdr pre s post t h wfs small e =
    let (listing, listed, e') = >>=-steps (dump_from 8 0 (pre ++ s ∷ post)) _ e in
    let (before, body, after, shown, shape) = dump_from-at pre s post 8 0 listing listed in
    let head = file_header_string hdr ++ codes "\n" in
    (
      head ++ before,
      body,
      after,
      shown,
      rw (length-encode_file hdr pre h wfs small)
          (sym (ok-injective e') ∙ ap (λ u. head ++ u) shape ∙ sym (append_assoc head before _)),
    )
