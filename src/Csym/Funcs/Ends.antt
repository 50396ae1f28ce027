-- ===== src/Csym/Funcs/Ends.antt =====
-- How many symbols parseFunc passes over (csym/parse_decls.go).
use psx_mnd_sym.Prelude.{
  ℕ, suc, ◌+◌, ◌≡◌, refl, sym, ap, ◌∙◌, List, [], ◌∷◌, Text, Bool, true, false, ◌==◌, if◌then◌else◌,
  Option, none, some, arith, Result, ok, ok-injective, >>=-steps,
}
use psx_mnd_sym.Sym.Symbol.{
  FuncStart, SymbolBody, Symbol, func_end, block_start, block_end, def, def2,
}
use psx_mnd_sym.C.Ast.{FuncDecl}
use psx_mnd_sym.Csym.State.{Panic, TypeInfo, Overlay}
use psx_mnd_sym.Csym.Types.{parse_type}
use psx_mnd_sym.Csym.Funcs.{
  FuncState, find_func, parse_local_decl, end_block, local_def, func_step, func_loop, is_func_end,
  through_func_end, new_func, parse_found, parse_func,
}

-- A step that returned has ended the function exactly if this is so.
abbrev Ends : Bool → Result Panic (Bool × FuncState) → Type 0
Ends b r = (ended : Bool) → (st : FuncState) → r ≡ ok (ended, st) → ended ≡ b

ok-Ends : (b : Bool) (st : FuncState) → Ends b (ok (b, st))
ok-Ends b st ended u e = ap (λ (x : Bool × FuncState). x.0) (sym (ok-injective e))

local_def-Ends :
    (addr size class t : ℕ) (dims : List ℕ) (tag raw : Text) (st : FuncState)
    → Ends false (local_def addr size class t dims tag raw st)
unfolding local_def
local_def-Ends addr size class t dims tag raw st ended u e =
    let ((v, q), _, rest) = >>=-steps (parse_type t dims tag st.info) _ e in
    let (w, _, last) = >>=-steps (parse_local_decl addr size class v raw) _ rest in
    ok-Ends false _ ended u last

func_step-Ends :
    (path : Text) (value : ℕ) (b : SymbolBody) (st : FuncState)
    → Ends (is_func_end b) (func_step path value b st)
unfolding func_step
func_step-Ends path value (func_end line) st = ok-Ends true _
func_step-Ends path value (block_start line) st = ok-Ends false _
func_step-Ends path value (block_end line) st = λ ended u e.
    let (_, _, last) = >>=-steps (end_block line st) _ e in ok-Ends false _ ended u last
func_step-Ends path value (def b) st = local_def-Ends value b.size b.class b.type [] [] b.name st
func_step-Ends path value (def2 b) st =
    local_def-Ends value b.size b.class b.type b.dims b.tag b.name st
func_step-Ends path value _ st = λ ended u e. cc

-- The count of symbols taken, from `n` on.
abbrev Takes : ℕ → List Symbol → ℕ → Type 0
Takes n syms m = (k : ℕ) × (through_func_end syms ≡ some k) × (m ≡ n + k)

ended-Takes :
    (ended : Bool) (path : Text) (n m : ℕ) (s : Symbol) (syms : List Symbol) (st u : FuncState)
    → ended ≡ is_func_end s.body
    → ((st u : FuncState) → func_loop path (n + 1) syms st ≡ ok (m, u) → Takes (n + 1) syms m)
    → (elim ended [ true ↦ ok (n + 1, st) | false ↦ func_loop path (n + 1) syms st ]) ≡ ok (m, u)
    → Takes n (s ∷ syms) m
unfolding through_func_end
ended-Takes true path n m s syms st u is more e =
    (1, rw (through_func_end, sym is) refl, ap (λ (x : ℕ × FuncState). x.0) (sym (ok-injective e)))
ended-Takes false path n m s syms st u is more e =
    let (k, through, count) = more st u e in
    (suc k, rw (through_func_end, sym is, through) refl, omega (arith, count))

func_loop-Takes :
    (path : Text) (n m : ℕ) (syms : List Symbol) (st u : FuncState)
    → func_loop path n syms st ≡ ok (m, u)
    → Takes n syms m
unfolding func_loop
func_loop-Takes path n m [] st u e = cc
func_loop-Takes path n m (s ∷ syms) st u e =
    let ((ended, v), stepped, rest) = >>=-steps (func_step path s.value s.body st) _ e in
    ended-Takes ended path n m s syms v u (func_step-Ends path s.value s.body st ended v stepped)
      (λ x y. func_loop-Takes path (n + 1) m syms x y) rest

new_func-Takes :
    (addr : ℕ) (b : FuncStart) (syms : List Symbol) (i n : ℕ) (f : FuncDecl) (info info' : TypeInfo)
    (o o' : Overlay)
    → new_func addr b syms i f info o ≡ ok (n, (info', o'))
    → through_func_end syms ≡ some n
unfolding new_func
new_func-Takes addr b syms i n f info info' o o' e =
    let ((m, st), looped, rest) = >>=-steps (func_loop b.path 0 syms _) _ e in
    let (k, through, count) = func_loop-Takes b.path 0 m syms _ st looped in
    let same : m ≡ n = ap (λ (x : ℕ × (TypeInfo × Overlay)). x.0) (ok-injective rest) in
    let last : k ≡ n = omega (arith, count, same) in through ∙ ap some last

-- A function that is parsed already, and one that is not.
choose-Takes :
    (unparsed : Bool) (t : Option ℕ) (r : Result Panic (ℕ × (TypeInfo × Overlay)))
    (info info' : TypeInfo) (o o' : Overlay) (n : ℕ)
    → (r ≡ ok (n, (info', o')) → t ≡ some n)
    → (elim (if unparsed then none else t) as (λ _. Result Panic (ℕ × (TypeInfo × Overlay))) [
      | some k ↦ ok (k, (info, o))
      | none ↦ r
    ])
      ≡ ok (n, (info', o'))
    → t ≡ some n
choose-Takes true t r info info' o o' n more e = more e
choose-Takes false none r info info' o o' n more e = more e
choose-Takes false (some k) r info info' o o' n more e =
    ap (λ (x : ℕ × (TypeInfo × Overlay)). some x.0) (ok-injective e)

parse_found-Takes :
    (addr : ℕ) (b : FuncStart) (syms : List Symbol) (i n : ℕ) (f : FuncDecl) (info info' : TypeInfo)
    (o o' : Overlay)
    → parse_found addr b syms i f info o ≡ ok (n, (info', o'))
    → through_func_end syms ≡ some n
unfolding parse_found
parse_found-Takes addr b syms i n f info info' o o' e =
    choose-Takes (f.line_start == 0) (through_func_end syms) (new_func addr b syms i f info o) info
      info' o o' n (new_func-Takes addr b syms i n f info info' o o') e

-- If parseFunc returns, it passes over the symbols up to the first end of a function, with it, whether the function
-- was parsed already or not.
pub parse_func-through_func_end :
    (addr : ℕ) (b : FuncStart) (syms : List Symbol) (n : ℕ) (info info' : TypeInfo) (o o' : Overlay)
    → parse_func addr b syms info o ≡ ok (n, (info', o'))
    → through_func_end syms ≡ some n
unfolding parse_func
parse_func-through_func_end addr b syms n info info' o o' e =
    let ((i, (f, found)), _, rest) = >>=-steps (find_func b.name addr o) _ e in
    parse_found-Takes addr b syms i n f info info' found o' rest
