-- ===== src/Sym/File/Dump/Listing.antt =====
-- The line that the listing has for a symbol in the midst of others.
use psx_mnd_sym.Prelude.{
  ℕ, ◌+◌, ◌<◌, ◌≡◌, ◌∙◌, sym, ap, List, [], ◌∷◌, ◌++◌, Text, arith, ok, true, false, Bool,
  Option-cases, inl, inr, >>=-steps, ok-injective, append_assoc,
}
use psx_mnd_sym.Sym.Symbol.{
  Symbol, SymbolBody, inc_sld, inc_sld_byte, inc_sld_word, set_sld, set_sld2, size,
}
use psx_mnd_sym.Sym.Symbol.Print.{body_string}
use psx_mnd_sym.Sym.File.Dump.{dump_body, dump_from, symbol_line, track_line}

unfoldable pub total_size : List Symbol → ℕ
total_size [] = 0
total_size (s ∷ ss) = size s + total_size ss

-- What a symbol does to the current line number.
abbrev pub move_line : ℕ → SymbolBody → ℕ
move_line l inc_sld = l + 1
move_line l (inc_sld_byte inc) = l + inc
move_line l (inc_sld_word inc) = l + inc
move_line l (set_sld n) = n
move_line l (set_sld2 b) = b.line
move_line l _ = l

unfoldable pub line_after : ℕ → List Symbol → ℕ
line_after l [] = l
line_after l (s ∷ ss) = line_after (move_line l s.body) ss

abbrev pub is_increment : SymbolBody → Bool
is_increment inc_sld = true
is_increment (inc_sld_byte inc) = true
is_increment (inc_sld_word inc) = true
is_increment _ = false

track_line-moves :
    (l : ℕ) (t : Text) (b : SymbolBody) {r : Text} {l' : ℕ}
    → track_line l t b ≡ ok (r, l')
    → (l' ≡ move_line l b) × (is_increment b ≡ true → 0 < l)
unfolding track_line
track_line-moves l t inc_sld e = ground arith
track_line-moves l t (inc_sld_byte inc) e = ground arith
track_line-moves l t (inc_sld_word inc) e = ground arith
track_line-moves l t (set_sld n) e = ground arith
track_line-moves l t (set_sld2 b) e = ground arith
track_line-moves l t _ e = ground arith

pub dump_body-moves :
    (l : ℕ) (b : SymbolBody) {r : Text} {l' : ℕ}
    → dump_body l b ≡ ok (r, l')
    → (l' ≡ move_line l b) × (is_increment b ≡ true → 0 < l)
unfolding dump_body
dump_body-moves l b {r} {l'} e = elim (Option-cases (body_string b)) [
  | inl q ↦ let e' = rw (q, dump_body) at e in cc
  | inr (t, q) ↦ track_line-moves l t b (rw (q, dump_body) at e)
]

-- The listing of `pre ++ s ∷ post` has a line for `s` that shows the offset behind `pre`, and the
-- text of its body with the line number behind `pre`.
pub dump_from-at :
    (pre : List Symbol) (s : Symbol) (post : List Symbol) (offset line : ℕ) (t : Text)
    → dump_from offset line (pre ++ s ∷ post) ≡ ok t
    → (before body after : Text) × (dump_body (line_after line pre) s.body
        ≡ ok (body, move_line (line_after line pre) s.body))
      × (t ≡ before ++ (symbol_line (offset + total_size pre) s body ++ after))
unfolding dump_from total_size line_after
dump_from-at [] s post offset line t e =
    let ((text, line'), body, e') = >>=-steps (dump_body line s.body) _ e in
    let (rest, tail, e'') = >>=-steps (dump_from (offset + size s) line' post) _ e' in
    let moved = (dump_body-moves line s.body body).0 in
    let same : offset + 0 ≡ offset = omega arith in
    ([], text, rest, body ∙ ap (λ (n : ℕ). ok (text, n)) moved, rw same (sym (ok-injective e'')))
dump_from-at (p ∷ pre) s post offset line t e =
    let ((text, line'), body, e') = >>=-steps (dump_body line p.body) _ e in
    let (rest, tail, e'') = >>=-steps (dump_from (offset + size p) line' (pre ++ s ∷ post)) _ e' in
    let moved = (dump_body-moves line p.body body).0 in
    let (before, inner, after, shown, shape) =
      dump_from-at pre s post (offset + size p) (move_line line p.body) rest (rw moved at tail) in
    let regroup : offset + (size p + total_size pre) ≡ offset + size p + total_size pre =
      omega arith in
    let head = symbol_line offset p text in
    (
      head ++ before,
      inner,
      after,
      shown,
      rw regroup
          (sym (ok-injective e'') ∙ ap (λ u. head ++ u) shape ∙ sym (append_assoc head before _)),
    )
