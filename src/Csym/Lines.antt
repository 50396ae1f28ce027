-- ===== src/Csym/Lines.antt =====
-- parseLineNumbers of csym/parse_decls.go: the lines that a sequence of line symbols adds.
pub mod Advance
use psx_mnd_sym.Prelude.{
  ℕ, suc, ◌+◌, ◌%◌, ◌^◌, List, [], ◌∷◌, ◌++◌, Text, Option, none, some, Result, ok, err,
}
use psx_mnd_sym.Sym.Symbol.{
  SetSld2, SymbolBody, Symbol, inc_sld, inc_sld_byte, inc_sld_word, set_sld, set_sld2, end_sld,
}
use psx_mnd_sym.Csym.State.{Line, Panic, unreachable}

-- What one symbol does to the current path and line.
pub data LineStep : Type 0 where
  move : Text → ℕ → LineStep
  finish leave : LineStep

-- The cases of the loop's switch; line numbers are uint32.
unfoldable pub line_step : SymbolBody → Text → ℕ → LineStep
line_step inc_sld path line = move path ((line + 1) % 2 ^ 32)
line_step (inc_sld_byte inc) path line = move path ((line + inc) % 2 ^ 32)
line_step (inc_sld_word inc) path line = move path ((line + inc) % 2 ^ 32)
line_step (set_sld n) path line = move path n
line_step (set_sld2 b) path line = move b.path b.line
line_step end_sld path line = finish
line_step _ path line = leave

-- The loop: how many symbols it has taken, and the lines with those added.
unfoldable pub lines_loop : ℕ → Text → ℕ → List Symbol → List Line → Result Panic (ℕ × List Line)
unfolding line_step
lines_loop n path line [] lines = err unreachable
lines_loop n path line (s ∷ syms) lines = elim (line_step s.body path line) [
  | move p l ↦
      lines_loop (n + 1) p l syms (lines ++ record { addr = s.value; path = p; line = l } ∷ [])
  | finish ↦ ok (n + 1, lines)
  | leave ↦ ok (n, lines)
]

-- parseLineNumbers
unfoldable pub parse_line_numbers :
    ℕ → SetSld2 → List Symbol → List Line → Result Panic (ℕ × List Line)
unfolding lines_loop
parse_line_numbers addr b syms lines =
    lines_loop 0 b.path b.line syms
      (lines ++ record { addr = addr; path = b.path; line = b.line } ∷ [])
