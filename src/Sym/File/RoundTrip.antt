-- ===== src/Sym/File/RoundTrip.antt =====
-- Reading inverts the layout: what was encoded is read back, and what was read stands in the file.
use psx_mnd_sym.Prelude.{
  ℕ, ◌≡◌, refl, ◌∙◌, ap, subst, sym, [], ◌∷◌, ◌++◌, Text, All, IsByte, All-right, ok, >>=-steps,
  ok-injective, append_assoc,
}
use psx_mnd_sym.Sym.Wire.{uint8, uint32, Struc, Fits, encode}
use psx_mnd_sym.Sym.Symbol.{SymbolBody, Symbol}
use psx_mnd_sym.Sym.Symbol.Layout.{encode_symbol, IsWellFormed}
use psx_mnd_sym.Sym.File.Body.{
  unpack_as-encode, unpack_as_sound, parse_symbol_body-encode, parse_symbol_body_sound,
}
use psx_mnd_sym.Sym.File.{parse_symbol_header, parse_symbol_body, parse_symbol}

module _ (s : Struc) where
  parse_symbol_header-encode :
      (value kind : ℕ) (rest : Text)
      → Fits (uint32 ∷ uint8 ∷ []) 0 (value, (kind, tt))
      → parse_symbol_header s (encode (uint32 ∷ uint8 ∷ []) (value, (kind, tt)) ++ rest)
        ≡ ok ((value, kind), rest)
  unfolding parse_symbol_header
  parse_symbol_header-encode value kind rest h =
      unpack_as-encode s (uint32 ∷ uint8 ∷ []) (λ vs. (vs.0, vs.1.0)) (value, (kind, tt)) rest h

  -- A well-formed symbol is read back from its bytes, whatever follows them.
  pub parse_symbol-encode :
      (symbol : Symbol) (rest : Text)
      → IsWellFormed symbol
      → parse_symbol s (encode_symbol symbol ++ rest) ≡ ok (symbol, rest)
  unfolding parse_symbol encode_symbol
  parse_symbol-encode symbol rest h =
      rw (append_assoc, parse_symbol_header-encode symbol.value symbol.kind _ h.header)
        (rw (parse_symbol_body-encode s symbol.body symbol.kind rest h.body h.kind) refl)

  parse_symbol_header_sound :
      (bs : Text) (value kind : ℕ) (rest : Text)
      → All IsByte bs
      → parse_symbol_header s bs ≡ ok ((value, kind), rest)
      → (bs ≡ encode (uint32 ∷ uint8 ∷ []) (value, (kind, tt)) ++ rest)
        × Fits (uint32 ∷ uint8 ∷ []) 0 (value, (kind, tt))
  unfolding parse_symbol_header
  parse_symbol_header_sound bs value kind rest hb e =
      let (vs, filled, front, fits) =
        unpack_as_sound s (uint32 ∷ uint8 ∷ []) (λ vs. (vs.0, vs.1.0)) bs rest (value, kind) hb e in
      subst
        (λ (p : ℕ × ℕ).
          (bs ≡ encode (uint32 ∷ uint8 ∷ []) (p.0, (p.1, tt)) ++ rest)
          × Fits (uint32 ∷ uint8 ∷ []) 0 (p.0, (p.1, tt)))
        (sym filled) (front, fits)

  -- The parts of a symbol that was read, put together.
  assemble :
      (bs : Text) (value kind : ℕ) (body : SymbolBody) (rest₁ rest : Text)
      → All IsByte bs
      → parse_symbol_header s bs ≡ ok ((value, kind), rest₁)
      → parse_symbol_body s kind rest₁ ≡ ok (body, rest)
      → (bs ≡ encode_symbol (record { value = value; kind = kind; body = body }) ++ rest)
        × IsWellFormed (record { value = value; kind = kind; body = body })
  assemble bs value kind body rest₁ rest hb header e =
      let (front, fits) = parse_symbol_header_sound bs value kind rest₁ hb header in
      let head = encode (uint32 ∷ uint8 ∷ []) (value, (kind, tt)) in
      let hb₁ = All-right IsByte head rest₁ (rw front at hb) in
      let (next, inner, has) = parse_symbol_body_sound s kind rest₁ body rest hb₁ e in
      (
        unfold encode_symbol in (front ∙ ap (λ t. head ++ t) next ∙ sym (append_assoc head _ rest)),
        record { header = fits; body = inner; kind = has },
      )

  -- A symbol that is read is well formed, and its bytes stand at the front of the input.
  pub parse_symbol_sound :
      (bs : Text) (symbol : Symbol) (rest : Text)
      → All IsByte bs
      → parse_symbol s bs ≡ ok (symbol, rest)
      → (bs ≡ encode_symbol symbol ++ rest) × IsWellFormed symbol
  unfolding parse_symbol
  parse_symbol_sound bs symbol rest hb e =
      let (((value, kind), rest₁), header, e') = >>=-steps (parse_symbol_header s bs) _ e in
      let ((body, rest₂), inner, e'') = >>=-steps (parse_symbol_body s kind rest₁) _ e' in
      subst (λ (p : Symbol × Text). (bs ≡ encode_symbol p.0 ++ p.1) × IsWellFormed p.0)
        (ok-injective e'') (assemble bs value kind body rest₁ rest₂ hb header inner)
