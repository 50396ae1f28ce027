-- ===== src/Csym/Decls.antt =====
-- csym/parse_decls.go: ParseDecls, global declarations, overlays and symbols.
pub mod Overlays
use psx_mnd_sym.Prelude.{
  ℕ, zero, suc, List, [], ◌∷◌, ◌++◌, Text, ◌==◌, if◌then◌else◌, Option, none, some, Result, ok, err,
  ◌>>=◌, length, get_elem?, set,
}
use psx_mnd_sym.Sym.Class
use psx_mnd_sym.Sym.File.{switch}
use psx_mnd_sym.Sym.Symbol.{
  OverlayBody, SymbolBody, Symbol, name1, name2, set_sld2, end_sld, func_start, def, def2, overlay,
  set_overlay,
}
use psx_mnd_sym.C.Ast.{CType, VarDecl, FuncDecl, func, var_decl}
use psx_mnd_sym.Csym.State.{
  lookup, insert, slice_at, Panic, unsupported_class, unsupported_symbol, nil_dereference,
  missing_overlay, Overlay, Parser, new_overlay,
}
use psx_mnd_sym.Csym.Names.{valid_name}
use psx_mnd_sym.Csym.Types.{parse_type}
use psx_mnd_sym.Csym.Lines.{parse_line_numbers}
use psx_mnd_sym.Csym.Funcs.{parse_class, parse_func}

-- The current overlay, and the parser with it changed.
unfoldable pub current : Parser → Result Panic Overlay
current p = elim (get_elem? p.overlay_store p.cur_overlay) [
  | none ↦ err nil_dereference
  | some o ↦ ok o
]

abbrev pub put_current : Overlay → Parser → Parser
put_current o p = record p { overlay_store = set p.overlay_store p.cur_overlay o }

-- parseSymbol
unfoldable pub parse_symbol_entry : ℕ → Text → Overlay → Overlay
parse_symbol_entry addr name o = record o {
  symbols = o.symbols ++ record { addr = addr; name = name } ∷ [];
}

abbrev pub add_func : ℕ → ℕ → CType → Text → Overlay → Overlay
add_func addr size t name o =
    let f : FuncDecl = record {
      path = [];
      addr = addr;
      size = size;
      line_start = 0;
      line_end = 0;
      type = t;
      name = name;
      blocks = [];
    } in
    record o {
      funcs = o.funcs ++ f ∷ [];
      func_names = insert name (slice_at name o.func_names ++ length o.funcs ∷ []) o.func_names;
    }

abbrev pub add_var : VarDecl → Text → Overlay → Overlay
add_var v name o = record o {
  vars = o.vars ++ v ∷ [];
  var_names = insert name (slice_at name o.var_names ++ length o.vars ∷ []) o.var_names;
}

-- parseGlobalDecl
unfoldable pub parse_global_decl : ℕ → ℕ → ℕ → CType → Text → Overlay → Result Panic Overlay
unfolding valid_name parse_class insert lookup
parse_global_decl addr size class (func r ps v) raw o =
    ok (add_func addr size (func r ps v) (valid_name raw) o)
parse_global_decl addr size class t raw o = do
  c ← parse_class class
  let name = valid_name raw
  ok (add_var (var_decl addr size c t name) name o)

-- parseOverlay
unfoldable pub parse_overlay : ℕ → OverlayBody → Parser → Parser
parse_overlay addr b p =
    let place = length p.overlay_store in
    record p {
      overlay_store = p.overlay_store ++ new_overlay addr b.id b.length ∷ [];
      overlays = p.overlays ++ place ∷ [];
      overlay_ids = (b.id, place) ∷ p.overlay_ids;
    }

-- The overlay of an ID; the last one entered counts.
unfoldable pub overlay_of : ℕ → List (ℕ × ℕ) → Option ℕ
overlay_of id [] = none
overlay_of id ((k, i) ∷ ids) = if k == id then some i else overlay_of id ids

abbrev pub select_overlay : ℕ → Parser → Result Panic Parser
select_overlay id p = elim (overlay_of id p.overlay_ids) [
  | none ↦ err (missing_overlay id)
  | some i ↦ ok (record p { cur_overlay = i })
]

abbrev pub Step : Type 0
Step = Result Panic (ℕ × Parser)

-- A definition with class EXT or STAT.
unfoldable pub global_def : ℕ → ℕ → ℕ → ℕ → List ℕ → Text → Text → Parser → Step
unfolding parse_type current parse_global_decl
global_def addr size class t dims tag raw p = do
  (u, q) ← parse_type t dims tag p.info
  o ← current p
  changed ← parse_global_decl addr size class u raw o
  ok (0, put_current changed (record p { info = q }))

abbrev pub ignored : Parser → Step
ignored p = ok (0, p)

-- The classes of Def and of Def2.
abbrev pub def_cases : Parser → Step → List (ℕ × Step)
def_cases p global =
    (Class.ext, global)
    ∷ (Class.stat, global)
    ∷ (Class.mos, ignored p)
    ∷ (Class.strtag, ignored p)
    ∷ (Class.mou, ignored p)
    ∷ (Class.untag, ignored p)
    ∷ (Class.tpdef, ignored p)
    ∷ (Class.entag, ignored p)
    ∷ (Class.moe, ignored p)
    ∷ (Class.field, ignored p)
    ∷ (Class.class103, ignored p)
    ∷ []

unfoldable pub def_step : ℕ → Parser → Step → Step
unfolding switch
def_step class p global = switch class (def_cases p global) (err (unsupported_class class))

abbrev pub def2_cases : Parser → Step → List (ℕ × Step)
def2_cases p global =
    (Class.ext, global)
    ∷ (Class.stat, global)
    ∷ (Class.mos, ignored p)
    ∷ (Class.mou, ignored p)
    ∷ (Class.tpdef, ignored p)
    ∷ (Class.moe, ignored p)
    ∷ (Class.field, ignored p)
    ∷ (Class.eos, ignored p)
    ∷ []

unfoldable pub def2_step : ℕ → Parser → Step → Step
unfolding switch
def2_step class p global = switch class (def2_cases p global) (err (unsupported_class class))

abbrev pub symbol_step : ℕ → Text → Parser → Step
symbol_step value name p = do o ← current p; ok (0, put_current (parse_symbol_entry value name o) p)

-- One symbol of the loop, with those after it: how many of them to pass over.
unfoldable pub decls_step : ℕ → SymbolBody → List Symbol → Parser → Step
unfolding current parse_symbol_entry parse_line_numbers parse_func global_def def_step def2_step
    parse_overlay overlay_of
decls_step value (name1 b) syms p = symbol_step value b.name p
decls_step value (name2 b) syms p = symbol_step value b.name p
decls_step value (set_sld2 b) syms p = do
  o ← current p
  (n, lines) ← parse_line_numbers value b syms o.lines
  ok (n, put_current (record o { lines = lines }) p)
decls_step value end_sld syms p = ok (0, p)
decls_step value (func_start b) syms p = do
  o ← current p
  (n, (q, parsed)) ← parse_func value b syms p.info o
  ok (n, put_current parsed (record p { info = q }))
decls_step value (def b) syms p =
    def_step b.class p (global_def value b.size b.class b.type [] [] b.name p)
decls_step value (def2 b) syms p =
    def2_step b.class p (global_def value b.size b.class b.type b.dims b.tag b.name p)
decls_step value (overlay b) syms p = ok (0, parse_overlay value b p)
decls_step value set_overlay syms p = do selected ← select_overlay value p; ok (0, selected)
decls_step value _ syms p = err unsupported_symbol

-- The loop, that passes over `skip` symbols first.
unfoldable pub decls_loop : ℕ → List Symbol → Parser → Result Panic Parser
unfolding decls_step
decls_loop skip [] p = ok p
decls_loop (suc skip) (s ∷ syms) p = decls_loop skip syms p
decls_loop zero (s ∷ syms) p = do (n, q) ← decls_step s.value s.body syms p; decls_loop n syms q

-- ParseDecls
unfoldable pub parse_decls : List Symbol → Parser → Result Panic Parser
unfolding decls_loop
parse_decls syms p = decls_loop 0 syms p
