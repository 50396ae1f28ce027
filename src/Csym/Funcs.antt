-- ===== src/Csym/Funcs.antt =====
-- parseFunc of csym/parse_decls.go: a function, with its parameters, blocks and local variables.
pub mod Ends
use psx_mnd_sym.Prelude.{
  ℕ, suc, ◌+◌, ◌-◌, ◌%◌, ◌^◌, List, [], ◌∷◌, ◌++◌, Text, text_eq, Bool, true, false, ◌==◌,
  if◌then◌else◌, Option, none, some, Result, ok, err, ◌>>=◌, length, get_elem?, set,
}
use psx_mnd_sym.Sym.Class
use psx_mnd_sym.Sym.File.{switch}
use psx_mnd_sym.Sym.Symbol.{
  FuncStart, SymbolBody, Symbol, func_end, block_start, block_end, def, def2,
}
use psx_mnd_sym.C.Ast.{
  StorageClass, no_class, auto, extern, static, register, typedef, CType, Params, VarDecl, nil,
  cons, var_decl, func, base, void, Block, FuncDecl, decl_name,
}
use psx_mnd_sym.Csym.State.{
  lookup, insert, slice_at, Panic, unsupported_class, invalid_func_type, unsupported_symbol,
  nil_dereference, unreachable, TypeInfo, Overlay, Line,
}
use psx_mnd_sym.Csym.Names.{valid_name, unique_name}
use psx_mnd_sym.Csym.Types.{parse_type}

-- parseClass
unfoldable pub parse_class : ℕ → Result Panic StorageClass
unfolding switch
parse_class class =
    switch class
      ((Class.auto, ok auto)
        ∷ (Class.ext, ok extern)
        ∷ (Class.stat, ok static)
        ∷ (Class.reg, ok register)
        ∷ (Class.label, ok no_class)
        ∷ (Class.arg, ok no_class)
        ∷ (Class.tpdef, ok typedef)
        ∷ (Class.regparm, ok register)
        ∷ [])
      (err (unsupported_class class))

-- parseLocalDecl
unfoldable pub parse_local_decl : ℕ → ℕ → ℕ → CType → Text → Result Panic VarDecl
unfolding parse_class valid_name
parse_local_decl addr size class t raw = do
  c ← parse_class class
  ok (var_decl addr size c t (valid_name raw))

-- addLocal, on the locals of the block.
unfoldable pub add_local : List VarDecl → VarDecl → List VarDecl
add_local [] local = local ∷ []
add_local (v ∷ vs) local =
    let rest = add_local vs local in
    if text_eq (decl_name v) (decl_name local) then v ∷ vs else v ∷ rest

-- addParam, on the parameters of the function type.
unfoldable pub add_param : Params → VarDecl → Params
add_param nil param = cons param nil
add_param (cons v vs) param =
    let rest = add_param vs param in
    if text_eq (decl_name v) (decl_name param) then cons v vs else cons v rest

-- The function of a place whose address is `addr`, the first of them.
unfoldable pub first_at : ℕ → List FuncDecl → List ℕ → Option ℕ
first_at addr funcs [] = none
first_at addr funcs (i ∷ places) =
    let rest = first_at addr funcs places in
    elim (get_elem? funcs i) [ none ↦ rest | some f ↦ if f.addr == addr then some i else rest ]

-- emptyFunc, with the name that findFunc then gives the function.
unfoldable pub empty_func : Text → Text → ℕ → Overlay → ℕ × Overlay
unfolding insert lookup
empty_func key name addr o =
    let place = length o.funcs in
    let f : FuncDecl = record {
      path = [];
      addr = addr;
      size = 0;
      line_start = 0;
      line_end = 0;
      type = func (base void) nil false;
      name = name;
      blocks = [];
    } in
    (
      place,
      record o {
        funcs = o.funcs ++ f ∷ [];
        func_names = insert key (slice_at key o.func_names ++ place ∷ []) o.func_names;
      },
    )

-- The first part of findFunc: the place of the function, found or made.
unfoldable pub find_place : Text → ℕ → Overlay → ℕ × Overlay
unfolding valid_name unique_name first_at empty_func lookup
find_place raw addr o =
    let name = valid_name raw in
    let places = slice_at name o.func_names in
    elim (first_at addr o.funcs places) [
      | some i ↦ (i, o)
      | none ↦
          let named : Text = elim places [ [] ↦ name | _ ∷ _ ↦ unique_name name addr ] in
          empty_func name named addr o
    ]

-- The type that must be a function type.
unfoldable pub check_func : CType → Result Panic (Unit {0})
check_func (func r ps v) = ok tt
check_func _ = err invalid_func_type

-- findFunc
unfoldable pub find_func : Text → ℕ → Overlay → Result Panic (ℕ × (FuncDecl × Overlay))
unfolding find_place check_func
find_func raw addr o =
    let found = find_place raw addr o in
    elim (get_elem? found.1.funcs found.0) [
      | none ↦ err nil_dereference
      | some f ↦ (check_func f.type >>= λ _. ok (found.0, (f, found.1)))
    ]

-- The variables of the loop of parseFunc. The function is written back to the overlay when the loop
-- ends; `blocks` is the block stack and `cur_block` the current block, both by places in the
-- function's blocks.
pub record FuncState : Type 0 where
  pub info : TypeInfo
  pub f : FuncDecl
  pub lines : List Line
  pub cur_line : ℕ
  pub blocks : List ℕ
  pub cur_block : Option ℕ

-- `curLine.Line += body.Line - 1` on uint32, and the line appended.
unfoldable pub block_line : ℕ → ℕ → Text → FuncState → FuncState
block_line addr line path st =
    let next = (st.cur_line + (line + (2 ^ 32 - 1))) % 2 ^ 32 in
    record st {
      cur_line = next;
      lines = st.lines ++ record { addr = addr; path = path; line = next } ∷ [];
    }

-- A block's start: the current block, if any, is pushed.
unfoldable pub start_block : ℕ → FuncState → FuncState
start_block line st =
    let block : Block = record { line_start = line; line_end = 0; locals = [] } in
    let stack : List ℕ = elim st.cur_block [ none ↦ st.blocks | some i ↦ i ∷ st.blocks ] in
    let f = st.f in
    record st {
      f = record f { blocks = f.blocks ++ block ∷ [] };
      blocks = stack;
      cur_block = some (length f.blocks);
    }

abbrev pub change_block : (Block → Block) → ℕ → FuncDecl → FuncDecl
change_block g i f = elim (get_elem? f.blocks i) [
  | none ↦ f
  | some b ↦ record f { blocks = set f.blocks i (g b) }
]

-- A block's end: the stack's top, if any, becomes the current block.
unfoldable pub end_block : ℕ → FuncState → Result Panic FuncState
end_block line st = elim st.cur_block [
  | none ↦ err nil_dereference
  | some i ↦
      let ended = record st { f = change_block (λ b. record b { line_end = line }) i st.f } in
      ok (elim st.blocks [
        | [] ↦ record ended { cur_block = none }
        | j ∷ stack ↦ record ended { blocks = stack; cur_block = some j }
      ])
]

abbrev pub param_type : CType → VarDecl → CType
param_type (func r ps v) param = func r (add_param ps param) v
param_type t param = t

-- A local variable of the current block, or else a parameter.
unfoldable pub declare : VarDecl → FuncState → FuncState
unfolding add_local add_param
declare v st = elim st.cur_block [
  | none ↦ let f = st.f in record st { f = record f { type = param_type f.type v } }
  | some i ↦ record st { f = change_block (λ b. record b { locals = add_local b.locals v }) i st.f }
]

unfoldable pub local_def :
    ℕ → ℕ → ℕ → ℕ → List ℕ → Text → Text → FuncState → Result Panic (Bool × FuncState)
unfolding parse_type parse_local_decl declare
local_def addr size class t dims tag raw st = do
  (u, q) ← parse_type t dims tag st.info
  v ← parse_local_decl addr size class u raw
  ok (false, declare v (record st { info = q }))

-- One symbol of the loop: whether the function has ended.
unfoldable pub func_step : Text → ℕ → SymbolBody → FuncState → Result Panic (Bool × FuncState)
unfolding start_block end_block block_line local_def
func_step path value (func_end line) st =
    let f = st.f in ok (true, record st { f = record f { line_end = line } })
func_step path value (block_start line) st =
    ok (false, block_line value line path (start_block line st))
func_step path value (block_end line) st = do
  ended ← end_block line st
  ok (false, block_line value line path ended)
func_step path value (def b) st = local_def value b.size b.class b.type [] [] b.name st
func_step path value (def2 b) st = local_def value b.size b.class b.type b.dims b.tag b.name st
func_step path value _ st = err unsupported_symbol

unfoldable pub func_loop : Text → ℕ → List Symbol → FuncState → Result Panic (ℕ × FuncState)
unfolding func_step
func_loop path n [] st = err unreachable
func_loop path n (s ∷ syms) st = do
  (ended, next) ← func_step path s.value s.body st
  elim ended [ true ↦ ok (n + 1, next) | false ↦ func_loop path (n + 1) syms next ]

abbrev pub is_func_end : SymbolBody → Bool
is_func_end (func_end line) = true
is_func_end _ = false

-- How many symbols there are up to the first function end, with it.
unfoldable pub through_func_end : List Symbol → Option ℕ
through_func_end [] = none
through_func_end (s ∷ syms) =
    let rest = through_func_end syms in
    if is_func_end s.body then some 1 else elim rest [ none ↦ none | some n ↦ some (suc n) ]

-- parseFunc after findFunc, for a function that is not parsed yet.
unfoldable pub new_func :
    ℕ
    → FuncStart
    → List Symbol
    → ℕ
    → FuncDecl
    → TypeInfo
    → Overlay
    → Result Panic (ℕ × (TypeInfo × Overlay))
unfolding func_loop
new_func addr b syms i f info o = do
  (n, st) ← func_loop b.path 0 syms (record {
    info = info;
    f = record f { path = b.path; line_start = b.line };
    lines = o.lines ++ record { addr = addr; path = b.path; line = b.line } ∷ [];
    cur_line = b.line;
    blocks = [];
    cur_block = none;
  })
  ok (n, (st.info, record o { funcs = set o.funcs i st.f; lines = st.lines }))

-- parseFunc after findFunc: a function that is parsed already is passed over, up to the next end.
unfoldable pub parse_found :
    ℕ
    → FuncStart
    → List Symbol
    → ℕ
    → FuncDecl
    → TypeInfo
    → Overlay
    → Result Panic (ℕ × (TypeInfo × Overlay))
unfolding through_func_end new_func
parse_found addr b syms i f info o =
    elim (if f.line_start == 0 then none else through_func_end syms) [
      | some n ↦ ok (n, (info, o))
      | none ↦ new_func addr b syms i f info o
    ]

-- parseFunc
unfoldable pub parse_func :
    ℕ → FuncStart → List Symbol → TypeInfo → Overlay → Result Panic (ℕ × (TypeInfo × Overlay))
unfolding find_func parse_found
parse_func addr b syms info o = do
  (i, (f, found)) ← find_func b.name addr o
  parse_found addr b syms i f info found
