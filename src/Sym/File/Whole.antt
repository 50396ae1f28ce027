-- ===== src/Sym/File/Whole.antt =====
-- Whole files: Parse inverts the layout of a file, ends on every input, and reads what stands there.
use psx_mnd_sym.Prelude.{
  ℕ, zero, suc, ◌≤◌, ◌<◌, ◌≡◌, ◌≢◌, ◌∙◌, refl, sym, ap, subst, inl, inr, List, [], ◌∷◌, ◌++◌, Text,
  codes, text_eq, arith, All, All-right, IsByte, ok, err, >>=-steps, ok-injective, Result-cases,
  append_assoc, append-nil, length, length-append, if◌then◌else◌, text_eq→eq, eq→text_eq, if-eq-ok,
}
use psx_mnd_sym.Sym.Wire.{Values, Struc, uint8, uint32, Fits, encode, eof}
use psx_mnd_sym.Sym.Symbol.{Symbol}
use psx_mnd_sym.Sym.Symbol.Layout.{encode_symbol, IsWellFormed}
use psx_mnd_sym.Sym.File.{
  ParseError, io, FileHeader, Parsed, done, failed, stuck, parse_symbol, parse_symbols, is_eof,
  header_tags, fill_header, unpack_as, parse_file_header, parse_bytes, parse_symbol_header,
  bad_signature,
}
use psx_mnd_sym.Sym.File.Body.{unpack_as-encode, unpack_as_sound, unpack_as_err}
use psx_mnd_sym.Sym.File.RoundTrip.{parse_symbol-encode, parse_symbol_sound}

unfoldable pub encode_symbols : List Symbol → Text
encode_symbols [] = []
encode_symbols (s ∷ ss) = encode_symbol s ++ encode_symbols ss

encode_symbols-append :
    (ss rs : List Symbol) → encode_symbols (ss ++ rs) ≡ encode_symbols ss ++ encode_symbols rs
unfolding encode_symbols
encode_symbols-append [] rs = refl
encode_symbols-append (s ∷ ss) rs = rw (encode_symbols-append ss rs, append_assoc)

encode_symbols-cons :
    (s : Symbol) (ss : List Symbol) {bs rest : Text} (tail : Text)
    → bs ≡ encode_symbol s ++ rest
    → rest ≡ encode_symbols ss ++ tail
    → bs ≡ encode_symbols (s ∷ ss) ++ tail
unfolding encode_symbols
encode_symbols-cons s ss tail front inside =
    front
    ∙ ap (λ t. encode_symbol s ++ t) inside
    ∙ sym (append_assoc (encode_symbol s) (encode_symbols ss) tail)

-- A symbol takes five bytes for its header, and more for its body.
encode_symbol_pos : (s : Symbol) → 5 ≤ length (encode_symbol s)
unfolding encode_symbol encode
encode_symbol_pos s = omega arith

done-injective : {ss rs : List Symbol} → done ss ≡ done rs → ss ≡ rs
done-injective e = cc

-- One round of the loop.
module _ (struc : Struc) where
  open struc use {unpack-nil}

  round_ok :
      (fuel : ℕ) (out : List Symbol) (bs : Text) {s : Symbol} {rest : Text}
      → parse_symbol struc bs ≡ ok (s, rest)
      → parse_symbols struc (suc fuel) out bs ≡ parse_symbols struc fuel (out ++ s ∷ []) rest
  unfolding parse_symbols
  round_ok fuel out bs e = rw (e, parse_symbols)

  round_err :
      (fuel : ℕ) (out : List Symbol) (bs : Text) {e : ParseError}
      → parse_symbol struc bs ≡ err e
      → parse_symbols struc (suc fuel) out bs ≡ (if is_eof e then done out else failed out e)
  unfolding parse_symbols
  round_err fuel out bs e = rw (e, parse_symbols)

  parse_symbol_header-nil : parse_symbol_header struc [] ≡ err (io eof)
  unfolding parse_symbol_header
  parse_symbol_header-nil =
      unpack_as_err struc (uint32 ∷ uint8 ∷ []) (λ vs. (vs.0, vs.1.0)) [] (unpack-nil (uint8 ∷ []))

  parse_symbol-nil : parse_symbol struc [] ≡ err (io eof)
  unfolding parse_symbol
  parse_symbol-nil = rw parse_symbol_header-nil refl

  shorter :
      (bs : Text) (s : Symbol) (rest : Text)
      → All IsByte bs
      → parse_symbol struc bs ≡ ok (s, rest)
      → (length rest < length bs) × All IsByte rest
  shorter bs s rest hb e =
      let (front, wf) = parse_symbol_sound struc bs s rest hb e in
      (
        omega (arith, ap length front, length-append (encode_symbol s) rest, encode_symbol_pos s),
        All-right IsByte (encode_symbol s) rest (rw front at hb),
      )

  -- With more fuel than there are bytes the loop ends by itself.
  parse_symbols_total :
      (fuel : ℕ) (out : List Symbol) (bs : Text)
      → All IsByte bs
      → length bs < fuel
      → parse_symbols struc fuel out bs ≢ stuck
  parse_symbols_total zero out bs hb h = absurd (omega arith)
  parse_symbols_total (suc fuel) out bs hb h = elim (Result-cases (parse_symbol struc bs)) [
    | inl (x, e) ↦ rw (round_err fuel out bs e) (λ q. ground arith)
    | inr ((s, rest), e) ↦
        let (less, hr) = shorter bs s rest hb e in
        rw (round_ok fuel out bs e) (parse_symbols_total fuel (out ++ s ∷ []) rest hr (omega arith))
  ]

  parse_symbols-encode :
      (ss out : List Symbol) (fuel : ℕ)
      → All IsWellFormed ss
      → length ss < fuel
      → parse_symbols struc fuel out (encode_symbols ss) ≡ done (out ++ ss)
  unfolding encode_symbols
  parse_symbols-encode [] out zero h hf = absurd (omega arith)
  parse_symbols-encode [] out (suc fuel) h hf =
      round_err fuel out [] parse_symbol-nil ∙ ap done (sym (append-nil out))
  parse_symbols-encode (s ∷ ss) out zero h hf = absurd (omega arith)
  parse_symbols-encode (s ∷ ss) out (suc fuel) h hf =
      round_ok fuel out _ (parse_symbol-encode struc s (encode_symbols ss) h.0)
      ∙ parse_symbols-encode ss (out ++ s ∷ []) fuel h.1 (omega arith)
      ∙ ap done (append_assoc out (s ∷ []) ss)

  -- What the loop returned stands in the input, and it stopped where no symbol can be read.
  parse_symbols_sound :
      (fuel : ℕ) (out : List Symbol) (bs : Text) (all : List Symbol)
      → All IsByte bs
      → parse_symbols struc fuel out bs ≡ done all
      → (ss : List Symbol) × (tail : Text) × (all ≡ out ++ ss)
        × (bs ≡ encode_symbols ss ++ tail)
        × All IsWellFormed ss
        × (parse_symbol struc tail ≡ err (io eof))
  parse_symbols_sound zero out bs all hb h = unfold parse_symbols in cc
  parse_symbols_sound (suc fuel) out bs all hb h = elim (Result-cases (parse_symbol struc bs)) [
    | inl (io eof, e) ↦
        let stop = done-injective (sym (round_err fuel out bs e) ∙ h) in
        ([], bs, sym stop ∙ sym (append-nil out), unfold encode_symbols in refl, tt, e)
    | inl (x, e) ↦ let stop = sym (round_err fuel out bs e) ∙ h in cc
    | inr ((s, rest), e) ↦
        let (less, hr) = shorter bs s rest hb e in
        let (front, wf) = parse_symbol_sound struc bs s rest hb e in
        let again = sym (round_ok fuel out bs e) ∙ h in
        let (ss, tail, whole, inside, wfs, stop) =
          parse_symbols_sound fuel (out ++ s ∷ []) rest all hr again in
        (
          s ∷ ss,
          tail,
          whole ∙ append_assoc out (s ∷ []) ss,
          encode_symbols-cons s ss tail front inside,
          (wf, wfs),
          stop,
        )
  ]

-- A file: its header with the signature "MND", and its symbols.
abbrev pub header_values : FileHeader → Values header_tags
header_values hdr = (hdr.magic, (hdr.version, (hdr.target_unit, tt)))

unfoldable pub encode_file : FileHeader → List Symbol → Text
unfolding encode encode_symbols
encode_file hdr ss = encode header_tags (header_values hdr) ++ encode_symbols ss

abbrev pub IsHeader : FileHeader → Type 0
IsHeader hdr = Fits header_tags 0 (header_values hdr) × (hdr.magic ≡ codes "MND")

abbrev Stands : Text → Text → FileHeader → Type 0
Stands bs rest hdr =
    (bs ≡ encode header_tags (header_values hdr) ++ rest) × Fits header_tags 0 (header_values hdr)

encode_file-stands :
    (hdr : FileHeader) (ss : List Symbol) {bs rest : Text} (tail : Text)
    → bs ≡ encode header_tags (header_values hdr) ++ rest
    → rest ≡ encode_symbols ss ++ tail
    → bs ≡ encode_file hdr ss ++ tail
unfolding encode_file
encode_file-stands hdr ss tail front inside =
    let head = encode header_tags (header_values hdr) in
    front ∙ ap (λ t. head ++ t) inside ∙ sym (append_assoc head (encode_symbols ss) tail)

length-encode_symbols : (ss : List Symbol) → length ss ≤ length (encode_symbols ss)
unfolding encode_symbols
length-encode_symbols [] = omega arith
length-encode_symbols (s ∷ ss) = omega (
  arith,
  length-append (encode_symbol s) (encode_symbols ss),
  encode_symbol_pos s,
  length-encode_symbols ss,
)

module _ (struc : Struc) where
  parse_file_header-encode :
      (hdr : FileHeader) (rest : Text)
      → IsHeader hdr
      → parse_file_header struc (encode header_tags (header_values hdr) ++ rest) ≡ ok (hdr, rest)
  unfolding parse_file_header
  parse_file_header-encode hdr rest (fits, magic) =
      rw (unpack_as-encode struc header_tags fill_header (header_values hdr) rest fits)
        (rw (eq→text_eq hdr.magic (codes "MND") magic) refl)

  parse_file_header_sound :
      (bs : Text) (hdr : FileHeader) (rest : Text)
      → All IsByte bs
      → parse_file_header struc bs ≡ ok (hdr, rest)
      → (bs ≡ encode header_tags (header_values hdr) ++ rest) × IsHeader hdr
  unfolding parse_file_header
  parse_file_header_sound bs hdr rest hb e =
      let ((h, r), read, e') = >>=-steps (unpack_as struc header_tags fill_header bs) _ e in
      let (matches, same) = if-eq-ok (text_eq h.magic (codes "MND")) (bad_signature h.magic) e' in
      let (vs, filled, front, fits) =
        unpack_as_sound struc header_tags fill_header bs r h hb read in
      let (stands, ranges) = subst (Stands bs r) (sym filled) (front, fits) in
      subst
        (λ (p : FileHeader × Text).
          (bs ≡ encode header_tags (header_values p.0) ++ p.1) × IsHeader p.0)
        same (stands, (ranges, text_eq→eq h.magic (codes "MND") matches))

  -- The bytes of a header with signature "MND" and of well-formed symbols parse to that header and
  -- those symbols.
  pub parse_bytes-encode_file :
      (hdr : FileHeader) (ss : List Symbol)
      → IsHeader hdr
      → All IsWellFormed ss
      → parse_bytes struc (encode_file hdr ss) ≡ ok (hdr, done ss)
  unfolding parse_bytes encode_file
  parse_bytes-encode_file hdr ss h wfs = rw (parse_file_header-encode hdr (encode_symbols ss) h) (
      ap (λ p. ok (hdr, p))
        (parse_symbols-encode struc ss [] (suc (length (encode_symbols ss))) wfs
          (omega (arith, length-encode_symbols ss))))

  -- Parse of any bytes returns: it ends at the end of the input or with an error.
  pub parse_bytes-ne-stuck :
      (bs : Text) (hdr : FileHeader) → All IsByte bs → parse_bytes struc bs ≢ ok (hdr, stuck)
  unfolding parse_bytes
  parse_bytes-ne-stuck bs hdr hb e =
      let ((h, rest), header, e') = >>=-steps (parse_file_header struc bs) _ e in
      let (front, _) = parse_file_header_sound bs h rest hb header in
      let hr = All-right IsByte (encode header_tags (header_values h)) rest (rw front at hb) in
      parse_symbols_total struc (suc (length rest)) [] rest hr (omega arith)
        (ap (λ (p : FileHeader × Parsed). p.1) (ok-injective e'))

  -- Where Parse returns a file without an error, the input is that file, its signature "MND" and its
  -- symbols well formed, followed by a tail at which reading a symbol reports io.EOF.
  pub parse_bytes_sound :
      (bs : Text) (hdr : FileHeader) (ss : List Symbol)
      → All IsByte bs
      → parse_bytes struc bs ≡ ok (hdr, done ss)
      → IsHeader hdr
        × All IsWellFormed ss
        × ((tail : Text) × (bs ≡ encode_file hdr ss ++ tail)
            × (parse_symbol struc tail ≡ err (io eof)))
  unfolding parse_bytes encode_file
  parse_bytes_sound bs hdr ss hb e =
      let ((h, rest), header, e') = >>=-steps (parse_file_header struc bs) _ e in
      let (front, is_header) = parse_file_header_sound bs h rest hb header in
      let hr = All-right IsByte (encode header_tags (header_values h)) rest (rw front at hb) in
      let both = ok-injective e' in
      let (rs, tail, same, inside, wfs, stop) =
        parse_symbols_sound struc (suc (length rest)) [] rest ss hr
          (ap (λ (p : FileHeader × Parsed). p.1) both) in
      subst
        (λ (p : FileHeader × List Symbol).
          IsHeader p.0
          × All IsWellFormed p.1
          × ((t : Text) × (bs ≡ encode_file p.0 p.1 ++ t) × (parse_symbol struc t ≡ err (io eof))))
        (cc (ap (λ (p : FileHeader × Parsed). p.0) both, same))
        (is_header, wfs, (tail, encode_file-stands h rs tail front inside, stop))
