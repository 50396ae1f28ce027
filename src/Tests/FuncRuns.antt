-- ===== src/Tests/FuncRuns.antt =====
-- parseFunc at a small concrete input.
use psx_mnd_sym.Prelude.{ℕ, ◌≡◌, refl, List, [], ◌∷◌, text_eq, codes, false, some, ok}
use psx_mnd_sym.Sym.Class
use psx_mnd_sym.Sym.Base
use psx_mnd_sym.Sym.Kind
use psx_mnd_sym.Sym.File.{switch}
use psx_mnd_sym.Sym.Symbol.{FuncStart, SymbolBody, Symbol, func_end, block_start, block_end, def}
use psx_mnd_sym.C.Ast.{int, void, base, func, nil, auto, var_decl, FuncDecl}
use psx_mnd_sym.Csym.State.{Overlay, new_info, new_overlay}
use psx_mnd_sym.Csym.Funcs.{through_func_end, parse_func}
use psx_mnd_sym.Csym.Funcs.Ends.{parse_func-through_func_end}

abbrev start : FuncStart
start = record {
  fp = 29;
  fsize = 8;
  ret_reg = 31;
  mask = 0;
  mask_offset = 0;
  line = 10;
  path_len = 3;
  path = codes "A.C";
  name_len = 1;
  name = codes "f";
}

abbrev symbol : ℕ → ℕ → SymbolBody → Symbol
symbol value kind body = record { value = value; kind = kind; body = body }

-- A block with one local variable, the end of the function, and that of another one.
abbrev func_symbols : List Symbol
func_symbols =
    symbol 104 Kind.block_start (block_start 2)
    ∷ symbol 16 Kind.def (
        def (record {
          class = Class.auto;
          type = Base.int;
          size = 4;
          name_len = 1;
          name = codes "x";
        }))
    ∷ symbol 120 Kind.block_end (block_end 5)
    ∷ symbol 124 Kind.func_end (func_end 7)
    ∷ symbol 160 Kind.func_end (func_end 9)
    ∷ []

abbrev parsed_func : FuncDecl
parsed_func = record {
  path = codes "A.C";
  addr = 100;
  size = 0;
  line_start = 10;
  line_end = 7;
  type = func (base void) nil false;
  name = codes "f";
  blocks =
      record {
        line_start = 2;
        line_end = 5;
        locals = var_decl 16 4 auto (base int) (codes "x") ∷ [];
      }
      ∷ [];
}

abbrev parsed_overlay : Overlay
parsed_overlay = record (new_overlay 0 0 0) {
  funcs = parsed_func ∷ [];
  func_names = (codes "f", 0 ∷ []) ∷ [];
  lines =
      record { addr = 100; path = codes "A.C"; line = 10 }
      ∷ record { addr = 104; path = codes "A.C"; line = 11 }
      ∷ record { addr = 120; path = codes "A.C"; line = 15 }
      ∷ [];
}

func_parsed :
    parse_func 100 start func_symbols new_info (new_overlay 0 0 0)
    ≡ ok (4, (new_info, parsed_overlay))
unfolding parse_func switch text_eq
func_parsed = refl

parse_func-through_func_end_example : through_func_end func_symbols ≡ some 4
parse_func-through_func_end_example =
    parse_func-through_func_end 100 start func_symbols 4 new_info new_info (new_overlay 0 0 0)
      parsed_overlay func_parsed
