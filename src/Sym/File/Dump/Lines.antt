-- ===== src/Sym/File/Dump/Lines.antt =====
-- When File.String panics: exactly at an increment of the line number that no line number precedes.
use psx_mnd_sym.Prelude.{
  ℕ, ◌+◌, ◌<◌, ◌≡◌, refl, List, [], ◌∷◌, ◌++◌, Text, arith, ok, true, ◌↔◌, >>=-steps, codes,
}
use psx_mnd_sym.Fmt.{dec}
use psx_mnd_sym.Sym.Symbol.{
  Symbol, SymbolBody, inc_sld, inc_sld_byte, inc_sld_word, set_sld, set_sld2, size,
}
use psx_mnd_sym.Sym.Symbol.Print.Total.{body_string-Prints}
use psx_mnd_sym.Sym.File.{FileHeader}
use psx_mnd_sym.Sym.File.Dump.{
  dump, dump_body, dump_from, file_header_string, symbol_line, track_line,
}
use psx_mnd_sym.Sym.File.Dump.Listing.{
  line_after, move_line, is_increment, dump_body-moves, dump_from-at,
}

-- Every increment comes where the line number is not 0.
abbrev pub IsPlaced : ℕ → List Symbol → Type 0
IsPlaced line ss =
    (pre : List Symbol) (s : Symbol) (post : List Symbol)
    → ss ≡ pre ++ s ∷ post
    → is_increment s.body ≡ true
    → 0 < line_after line pre

track_line_ok :
    (l : ℕ) (t : Text) (b : SymbolBody)
    → (is_increment b ≡ true → 0 < l)
    → (r : Text) × (track_line l t b ≡ ok (r, move_line l b))
unfolding track_line
track_line_ok l t inc_sld h =
    (codes "Inc SLD linenum (to " ++ dec (l + 1) ++ codes ")", let p = h refl in ground arith)
track_line_ok l t (inc_sld_byte inc) h = (
  codes "Inc SLD linenum by byte " ++ dec inc ++ codes " (to " ++ dec (l + inc) ++ codes ")",
  let p = h refl in ground arith,
)
track_line_ok l t (inc_sld_word inc) h = (
  codes "Inc SLD linenum by word " ++ dec inc ++ codes " (to " ++ dec (l + inc) ++ codes ")",
  let p = h refl in ground arith,
)
track_line_ok l t (set_sld n) h = (t, refl)
track_line_ok l t (set_sld2 b) h = (t, refl)
track_line_ok l t _ h = (t, refl)

dump_body_ok :
    (l : ℕ) (b : SymbolBody)
    → (is_increment b ≡ true → 0 < l)
    → (r : Text) × (dump_body l b ≡ ok (r, move_line l b))
unfolding dump_body
dump_body_ok l b h =
    let (t, e) = body_string-Prints b in
    let (r, e') = track_line_ok l t b h in (r, rw (e, dump_body) e')

dump_from_ok :
    (ss : List Symbol) (offset line : ℕ)
    → IsPlaced line ss
    → (t : Text) × (dump_from offset line ss ≡ ok t)
unfolding dump_from line_after
dump_from_ok [] offset line h = ([], refl)
dump_from_ok (s ∷ ss) offset line h =
    let (r, e) = dump_body_ok line s.body (h [] s ss refl) in
    let (t, e') =
      dump_from_ok ss (offset + size s) (move_line line s.body)
        (λ pre x post q. h (s ∷ pre) x post (rw q)) in
    (symbol_line offset s r ++ t, rw (e, e') refl)

-- File.String returns a listing if each increment of the line number stands behind symbols that
-- leave a line number other than 0, and it panics if one does not.
pub dump_returns_iff :
    (hdr : FileHeader) (ss : List Symbol) → ((t : Text) × (dump hdr ss ≡ ok t)) ↔ IsPlaced 0 ss
unfolding dump
dump_returns_iff hdr ss = (placed, listed)
  where
    placed : (t : Text) × (dump hdr ss ≡ ok t) → IsPlaced 0 ss
    placed (t, e) pre s post q inc =
        let (listing, from, e') = >>=-steps (dump_from 8 0 ss) _ e in
        let (before, body, after, shown, shape) =
          dump_from-at pre s post 8 0 listing (rw q at from) in
        (dump_body-moves (line_after 0 pre) s.body shown).1 inc

    listed : IsPlaced 0 ss → (t : Text) × (dump hdr ss ≡ ok t)
    listed h =
        let (t, e) = dump_from_ok ss 8 0 h in
        (file_header_string hdr ++ codes "\n" ++ t, rw (e, dump) refl)
