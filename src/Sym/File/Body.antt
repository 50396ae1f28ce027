-- ===== src/Sym/File/Body.antt =====
-- One body: what was encoded is read back, and what was read stands in the input.
use psx_mnd_sym.Prelude.{
  ℕ, ◌≡◌, refl, ◌∙◌, sym, ap, inl, inr, List, [], ◌∷◌, ◌++◌, Text, arith, All, IsByte, ok, err,
  Result-cases, ◌==◌, Bool-cases, ==_iff,
}
use psx_mnd_sym.Sym.Wire.{Tag, uint8, uint16, uint32, Values, Struc, IoError, Fits, encode}
use psx_mnd_sym.Sym.Symbol.{
  SymbolBody, name1, name2, name5, name6, inc_sld, end_sld, set_overlay, inc_sld_byte, inc_sld_word,
  set_sld, func_end, block_start, block_end, set_sld2, func_start, def, def2, overlay,
}
use psx_mnd_sym.Sym.Symbol.Layout.{tags, values, HasKind}
use psx_mnd_sym.Sym.File.{
  ParseError, io, fill_name, fill_set_sld2, fill_func_start, fill_def, fill_def2, fill_overlay,
  Read, empty_body, switch, unknown_kind, unpack_as, body_cases, parse_symbol_body,
}

-- The bytes `code` are those of `b`, which may stand under the kind `k`.
abbrev Describes : SymbolBody → ℕ → Text → Type 0
Describes b k code = (code ≡ encode (tags b) (values b)) × Fits (tags b) 0 (values b) × HasKind b k

-- What the reader `p` returns stood at the front of the input, under the kind `k`.
abbrev Sound : ℕ → (Text → Read SymbolBody) → Type 0
Sound k p =
    (bs : Text) (b : SymbolBody) (rest : Text)
    → All IsByte bs
    → p bs ≡ ok (b, rest)
    → (bs ≡ encode (tags b) (values b) ++ rest) × Fits (tags b) 0 (values b) × HasKind b k

module _ (s : Struc) where
  open s use {unpack, unpack-encode, unpack_sound}

  pub unpack_as-encode {ℓ} :
      {A : Type ℓ} (ts : List Tag) (fill : Values ts → A) (vs : Values ts) (rest : Text)
      → Fits ts 0 vs
      → unpack_as s ts fill (encode ts vs ++ rest) ≡ ok (fill vs, rest)
  unfolding unpack_as
  unpack_as-encode ts fill vs rest h = rw (unpack-encode ts vs rest h, unpack_as)

  pub unpack_as_err {ℓ} :
      {A : Type ℓ} (ts : List Tag) (fill : Values ts → A) (bs : Text) {x : IoError}
      → unpack ts bs ≡ err x
      → unpack_as s ts fill bs ≡ err (io x)
  unfolding unpack_as
  unpack_as_err ts fill bs e = rw (e, unpack_as)

  unpack_as_ok {ℓ} :
      {A : Type ℓ} (ts : List Tag) (fill : Values ts → A) (bs : Text) {vs : Values ts} {rest : Text}
      → unpack ts bs ≡ ok (vs, rest)
      → unpack_as s ts fill bs ≡ ok (fill vs, rest)
  unfolding unpack_as
  unpack_as_ok ts fill bs e = rw (e, unpack_as)

  pub unpack_as_sound {ℓ} :
      {A : Type ℓ} (ts : List Tag) (fill : Values ts → A) (bs rest : Text) (a : A)
      → All IsByte bs
      → unpack_as s ts fill bs ≡ ok (a, rest)
      → (vs : Values ts) × (a ≡ fill vs) × (bs ≡ encode ts vs ++ rest) × Fits ts 0 vs
  unpack_as_sound ts fill bs rest a hb e = elim (Result-cases (unpack ts bs)) [
    | inl (x, q) ↦ cc (unpack_as_err ts fill bs q)
    | inr ((vs, r), q) ↦
        let same = sym e ∙ unpack_as_ok ts fill bs q in
        let (front, fits) = unpack_sound ts bs vs r hb q in
        (vs, ground arith, rw front (ground arith), fits)
  ]

  pub parse_symbol_body-encode :
      (b : SymbolBody) (k : ℕ) (rest : Text)
      → Fits (tags b) 0 (values b)
      → HasKind b k
      → parse_symbol_body s k (encode (tags b) (values b) ++ rest) ≡ ok (b, rest)
  unfolding parse_symbol_body
  parse_symbol_body-encode (name1 b) k rest h e =
      rw e (unpack_as-encode _ (λ vs. name1 (fill_name vs)) (values (name1 b)) rest h)
  parse_symbol_body-encode (name2 b) k rest h (inl e) =
      rw e (unpack_as-encode _ (λ vs. name2 (fill_name vs)) (values (name2 b)) rest h)
  parse_symbol_body-encode (name2 b) k rest h (inr (inl e)) =
      rw e (unpack_as-encode _ (λ vs. name2 (fill_name vs)) (values (name2 b)) rest h)
  parse_symbol_body-encode (name2 b) k rest h (inr (inr e)) =
      rw e (unpack_as-encode _ (λ vs. name2 (fill_name vs)) (values (name2 b)) rest h)
  parse_symbol_body-encode (name5 b) k rest h e = absurd e
  parse_symbol_body-encode (name6 b) k rest h e = absurd e
  parse_symbol_body-encode inc_sld k rest h e = rw e (unfold encode in refl)
  parse_symbol_body-encode end_sld k rest h e = rw e (unfold encode in refl)
  parse_symbol_body-encode set_overlay k rest h e = rw e (unfold encode in refl)
  parse_symbol_body-encode (inc_sld_byte n) k rest h e =
      rw e (unpack_as-encode (uint8 ∷ []) (λ vs. inc_sld_byte vs.0) (n, tt) rest h)
  parse_symbol_body-encode (inc_sld_word n) k rest h e =
      rw e (unpack_as-encode (uint16 ∷ []) (λ vs. inc_sld_word vs.0) (n, tt) rest h)
  parse_symbol_body-encode (set_sld n) k rest h e =
      rw e (unpack_as-encode (uint32 ∷ []) (λ vs. set_sld vs.0) (n, tt) rest h)
  parse_symbol_body-encode (func_end n) k rest h e =
      rw e (unpack_as-encode (uint32 ∷ []) (λ vs. func_end vs.0) (n, tt) rest h)
  parse_symbol_body-encode (block_start n) k rest h e =
      rw e (unpack_as-encode (uint32 ∷ []) (λ vs. block_start vs.0) (n, tt) rest h)
  parse_symbol_body-encode (block_end n) k rest h e =
      rw e (unpack_as-encode (uint32 ∷ []) (λ vs. block_end vs.0) (n, tt) rest h)
  parse_symbol_body-encode (set_sld2 b) k rest h e =
      rw e (unpack_as-encode _ (λ vs. set_sld2 (fill_set_sld2 vs)) (values (set_sld2 b)) rest h)
  parse_symbol_body-encode (func_start b) k rest h e =
      rw e
        (unpack_as-encode _ (λ vs. func_start (fill_func_start vs)) (values (func_start b)) rest h)
  parse_symbol_body-encode (def b) k rest h e =
      rw e (unpack_as-encode _ (λ vs. def (fill_def vs)) (values (def b)) rest h)
  parse_symbol_body-encode (def2 b) k rest h e =
      rw e (unpack_as-encode _ (λ vs. def2 (fill_def2 vs)) (values (def2 b)) rest h)
  parse_symbol_body-encode (overlay b) k rest h e =
      rw e (unpack_as-encode _ (λ vs. overlay (fill_overlay vs)) (values (overlay b)) rest h)

  -- A reader that unpacks, and fills a body of the same layout.
  Sound-unpack_as :
      (k : ℕ) (ts : List Tag) (fill : Values ts → SymbolBody)
      → ((vs : Values ts) → Fits ts 0 vs → Describes (fill vs) k (encode ts vs))
      → Sound k (unpack_as s ts fill)
  Sound-unpack_as k ts fill describes bs b rest hb e =
      let (vs, filled, front, fits) = unpack_as_sound ts fill bs rest b hb e in
      let (code, inner, kind) = describes vs fits in
      rw filled (front ∙ ap (λ c. c ++ rest) code, inner, kind)

  Sound-empty_body : (k : ℕ) (b : SymbolBody) → Describes b k [] → Sound k (empty_body b)
  Sound-empty_body k b (code, inner, kind) bs c rest hb e =
      let same_body : b ≡ c = ground arith in
      let same_rest : bs ≡ rest = ground arith in
      rw (← same_body, ← same_rest) (ap (λ d. d ++ bs) code, inner, kind)

  body_cases-Sound : All (λ c. Sound c.0 c.1) (body_cases s)
  unfolding encode
  body_cases-Sound = (
    Sound-unpack_as _ _ _ (λ vs h. (refl, h, refl)),
    (
      Sound-unpack_as _ _ _ (λ vs h. (refl, h, inl refl)),
      (
        Sound-unpack_as _ _ _ (λ vs h. (refl, h, inr (inl refl))),
        (
          Sound-unpack_as _ _ _ (λ vs h. (refl, h, inr (inr refl))),
          (
            Sound-empty_body _ _ (refl, tt, refl),
            (
              Sound-unpack_as _ _ _ (λ vs h. (refl, h, refl)),
              (
                Sound-unpack_as _ _ _ (λ vs h. (refl, h, refl)),
                (
                  Sound-unpack_as _ _ _ (λ vs h. (refl, h, refl)),
                  (
                    Sound-unpack_as _ _ _ (λ vs h. (refl, h, refl)),
                    (
                      Sound-empty_body _ _ (refl, tt, refl),
                      (
                        Sound-unpack_as _ _ _ (λ vs h. (refl, h, refl)),
                        (
                          Sound-unpack_as _ _ _ (λ vs h. (refl, h, refl)),
                          (
                            Sound-unpack_as _ _ _ (λ vs h. (refl, h, refl)),
                            (
                              Sound-unpack_as _ _ _ (λ vs h. (refl, h, refl)),
                              (
                                Sound-unpack_as _ _ _ (λ vs h. (refl, h, refl)),
                                (
                                  Sound-unpack_as _ _ _ (λ vs h. (refl, h, refl)),
                                  (
                                    Sound-unpack_as _ _ _ (λ vs h. (refl, h, refl)),
                                    (Sound-empty_body _ _ (refl, tt, refl), tt),
                                  ),
                                ),
                              ),
                            ),
                          ),
                        ),
                      ),
                    ),
                  ),
                ),
              ),
            ),
          ),
        ),
      ),
    ),
  )

switch-Sound :
    (k : ℕ) (cases : List (ℕ × (Text → Read SymbolBody))) (x : ParseError)
    → All (λ c. Sound c.0 c.1) cases
    → Sound k (switch k cases (λ bs. err x))
unfolding switch
switch-Sound k [] x h = λ bs b rest hb e. cc
switch-Sound k ((c, p) ∷ cases) x h = elim (Bool-cases (k == c)) [
  | inl here ↦ rw here (rw ((==_iff k c).0 here) h.0)
  | inr past ↦ rw past (switch-Sound k cases x h.1)
]

-- A body that is returned stands at the front of the input in the layout of its type, its fields in
-- range, under a kind of that type.
pub parse_symbol_body_sound :
    (s : Struc) (kind : ℕ) (bs : Text) (b : SymbolBody) (rest : Text)
    → All IsByte bs
    → parse_symbol_body s kind bs ≡ ok (b, rest)
    → (bs ≡ encode (tags b) (values b) ++ rest) × Fits (tags b) 0 (values b) × HasKind b kind
unfolding parse_symbol_body
parse_symbol_body_sound s kind =
    switch-Sound kind (body_cases s) (unknown_kind kind) (body_cases-Sound s)
