-- ===== src/Csym/Lines/Advance.antt =====
-- What parseLineNumbers adds to the lines.
use psx_mnd_sym.Prelude.{
  ℕ, ◌+◌, ◌≡◌, ◌∙◌, refl, sym, ap, List, [], ◌∷◌, ◌++◌, map, Text, Bool, true, false, Result, ok,
  err, append_assoc, append-nil, arith, length, ◌<◌, ◌⊎◌, inl, inr, subst, ◌%◌, ◌^◌, if◌then◌else◌,
}
use psx_mnd_sym.Sym.Symbol.{
  SetSld2, SymbolBody, Symbol, inc_sld, inc_sld_byte, inc_sld_word, set_sld, set_sld2, end_sld,
}
use psx_mnd_sym.Csym.State.{Line, Panic, unreachable}
use psx_mnd_sym.Csym.Lines.{line_step, lines_loop, parse_line_numbers, move, finish, leave}

-- Whether a symbol belongs to a sequence of line numbers: all do that set or advance the line.
abbrev pub is_line : SymbolBody → Bool
is_line inc_sld = true
is_line (inc_sld_byte inc) = true
is_line (inc_sld_word inc) = true
is_line (set_sld n) = true
is_line (set_sld2 b) = true
is_line _ = false

abbrev pub is_end : SymbolBody → Bool
is_end end_sld = true
is_end _ = false

-- The leading symbols that belong to a sequence.
unfoldable pub run : List Symbol → List Symbol
run [] = []
run (s ∷ syms) = let rest = run syms in if is_line s.body then s ∷ rest else []

-- 1 if an EndSLD follows them, which is then taken too.
unfoldable pub closing : List Symbol → ℕ
closing [] = 0
closing (s ∷ syms) =
    let rest = closing syms in if is_line s.body then rest else if is_end s.body then 1 else 0

abbrev pub addresses : List Line → List ℕ
addresses lines = map (λ (l : Line). l.addr) lines

abbrev pub values : List Symbol → List ℕ
values syms = map (λ (s : Symbol). s.value) syms

line_step-cases :
    (b : SymbolBody) (path : Text) (line : ℕ)
    → ((p : Text) × (l : ℕ) × (line_step b path line ≡ move p l) × (is_line b ≡ true))
      ⊎ (((line_step b path line ≡ finish) × (is_line b ≡ false) × (is_end b ≡ true))
          ⊎ ((line_step b path line ≡ leave) × (is_line b ≡ false) × (is_end b ≡ false)))
unfolding line_step
line_step-cases inc_sld path line = inl (path, (line + 1) % 2 ^ 32, refl, refl)
line_step-cases (inc_sld_byte inc) path line = inl (path, (line + inc) % 2 ^ 32, refl, refl)
line_step-cases (inc_sld_word inc) path line = inl (path, (line + inc) % 2 ^ 32, refl, refl)
line_step-cases (set_sld n) path line = inl (path, n, refl, refl)
line_step-cases (set_sld2 b) path line = inl (b.path, b.line, refl, refl)
line_step-cases end_sld path line = inr (inl (refl, refl, refl))
line_step-cases _ path line = inr (inr (refl, refl, refl))

-- A panic if nothing ends the run, or the number of symbols taken and the lines.
abbrev pub Outcome : ℕ → List Symbol → List ℕ → Result Panic (ℕ × List Line) → Type 0
Outcome n syms before r =
    ((run syms ≡ syms) × (r ≡ err unreachable))
    ⊎ ((length (run syms) < length syms)
        × (out : List Line) × (r ≡ ok (n + length (run syms) + closing syms, out))
        × (addresses out ≡ before ++ values (run syms)))

map-append : (xs ys : List Line) → addresses (xs ++ ys) ≡ addresses xs ++ addresses ys
map-append [] ys = refl
map-append (x ∷ xs) ys = ap (λ zs. x.addr ∷ zs) (map-append xs ys)

-- The symbol of a line in front of what the loop does next.
line-Outcome :
    (n : ℕ) (s : Symbol) (syms : List Symbol) (before : List ℕ) (r : Result Panic (ℕ × List Line))
    → is_line s.body ≡ true
    → Outcome (n + 1) syms (before ++ s.value ∷ []) r
    → Outcome n (s ∷ syms) before r
unfolding run closing
line-Outcome n s syms before r inside (inl (all, panics)) =
    rw inside (inl (ap (λ ss. s ∷ ss) all, panics))
line-Outcome n s syms before r inside (inr (less, out, returns, added)) = rw inside (
    inr (
      omega (arith, less),
      out,
      returns ∙ ap (λ k. ok (k, out)) (omega arith),
      added ∙ append_assoc before (s.value ∷ []) (values (run syms)),
    ))

lines_loop-Outcome :
    (n : ℕ) (path : Text) (line : ℕ) (syms : List Symbol) (lines : List Line)
    → Outcome n syms (addresses lines) (lines_loop n path line syms lines)
unfolding lines_loop run closing
lines_loop-Outcome n path line [] lines = inl (refl, refl)
lines_loop-Outcome n path line (s ∷ syms) lines = elim (line_step-cases s.body path line) [
  | inl (p, l, e, inside) ↦
      let next : Line = record { addr = s.value; path = p; line = l } in
      let rest = lines_loop-Outcome (n + 1) p l syms (lines ++ next ∷ []) in
      let r = lines_loop (n + 1) p l syms (lines ++ next ∷ []) in
      rw (lines_loop, e)
        (line-Outcome n s syms (addresses lines) r inside
          (subst (λ before. Outcome (n + 1) syms before r) (map-append lines (next ∷ [])) rest))
  | inr (inl (e, outside, last)) ↦
      rw (lines_loop, e, outside, last)
        (inr (
          omega arith,
          lines,
          ap (λ k. ok (k, lines)) (omega arith),
          sym (append-nil (addresses lines)),
        ))
  | inr (inr (e, outside, last)) ↦
      rw (lines_loop, e, outside, last)
        (inr (
          omega arith,
          lines,
          ap (λ k. ok (k, lines)) (omega arith),
          sym (append-nil (addresses lines)),
        ))
]

-- parseLineNumbers panics exactly if all the symbols that are left set or advance the line. Else it
-- takes the leading symbols that do so, and the EndSLD after them if one follows, and adds one line
-- at its own address and one at the address of each symbol of this run, in their order.
pub parse_line_numbers-Outcome :
    (addr : ℕ) (b : SetSld2) (syms : List Symbol) (lines : List Line)
    → Outcome 0 syms (addresses lines ++ addr ∷ []) (parse_line_numbers addr b syms lines)
unfolding parse_line_numbers
parse_line_numbers-Outcome addr b syms lines =
    let first : Line = record { addr = addr; path = b.path; line = b.line } in
    subst (λ before. Outcome 0 syms before (lines_loop 0 b.path b.line syms (lines ++ first ∷ [])))
      (map-append lines (first ∷ []))
      (lines_loop-Outcome 0 b.path b.line syms (lines ++ first ∷ []))
