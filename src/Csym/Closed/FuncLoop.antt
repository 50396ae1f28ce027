-- ===== src/Csym/Closed/FuncLoop.antt =====
-- parseFunc as a whole (csym/parse_decls.go), and the stores that the types of an overlay lead to.
use psx_mnd_sym.Prelude.{
  ℕ, ◌+◌, ◌≡◌, subst, sym, inl, inr, List, [], ◌∷◌, Text, Bool, true, false, ◌==◌, if◌then◌else◌,
  none, some, All-append, get_elem?, Result, ok, ok-injective, >>=-steps, some-steps, ◌>>=◌,
  Option-cases,
}
use psx_mnd_sym.Sym.Symbol.{
  FuncStart, SymbolBody, Symbol, func_end, block_start, block_end, def, def2,
}
use psx_mnd_sym.C.Ast.{CType, VarDecl, Block, FuncDecl}
use psx_mnd_sym.Csym.State.{Panic, TypeInfo, Overlay, nil_dereference, slice_at}
use psx_mnd_sym.Csym.Names.{valid_name}
use psx_mnd_sym.Csym.Tagged.Contents.{All-at, All-set}
use psx_mnd_sym.Csym.Types.{parse_type}
use psx_mnd_sym.Csym.Funcs.{
  FuncState, parse_class, parse_local_decl, first_at, empty_func, find_place, check_func, find_func,
  block_line, start_block, change_block, end_block, declare, local_def, func_step, func_loop,
  through_func_end, new_func, parse_found, parse_func,
}
use psx_mnd_sym.Csym.Closed.{
  Sizes, sizes, Fits, Fits-refl, Fits-trans, IsWithin, DeclWithin, IsClosed,
}
use psx_mnd_sym.Csym.Closed.Types.{parse_type-Yields}
use psx_mnd_sym.Csym.Closed.Funcs.{
  BlockWithin, FuncWithin, OverlayWithin, FuncWithin-larger, OverlayWithin-larger,
  change_block-FuncWithin, declare-FuncWithin, declare-info,
}

-- The types of the parser and of the function are within stores no smaller than before.
abbrev StateWithin : Sizes → FuncState → Type 0
StateWithin n st = IsClosed st.info × Fits n (sizes st.info) × FuncWithin (sizes st.info) st.f

abbrev StepWithin : Sizes → Result Panic (Bool × FuncState) → Type 0
StepWithin n r = (ended : Bool) → (st : FuncState) → r ≡ ok (ended, st) → StateWithin n st

ok-StepWithin :
    (n : Sizes) (b : Bool) (st : FuncState) → StateWithin n st → StepWithin n (ok (b, st))
ok-StepWithin n b st h ended u e =
    subst (λ (x : Bool × FuncState). StateWithin n x.1) (ok-injective e) h

parse_local_decl-Within :
    (n : Sizes) (addr size class : ℕ) (t : CType) (raw : Text) (v : VarDecl)
    → IsWithin n t
    → parse_local_decl addr size class t raw ≡ ok v
    → DeclWithin n v
unfolding parse_local_decl
parse_local_decl-Within n addr size class t raw v h e =
    let (c, _, last) = >>=-steps (parse_class class) _ e in
    subst (DeclWithin n) (ok-injective last) h

local_def-StepWithin :
    (n : Sizes) (addr size class t : ℕ) (dims : List ℕ) (tag raw : Text) (st : FuncState)
    → StateWithin n st
    → StepWithin n (local_def addr size class t dims tag raw st)
unfolding local_def
local_def-StepWithin n addr size class t dims tag raw st h ended u e =
    let ((ty, q), parsed, rest) = >>=-steps (parse_type t dims tag st.info) _ e in
    let (v, made, last) = >>=-steps (parse_local_decl addr size class ty raw) _ rest in
    let (closed, larger, within) = parse_type-Yields t dims tag st.info h.0 ty q parsed in
    let next : FuncState = record st { info = q } in
    let decl = parse_local_decl-Within (sizes q) addr size class ty raw v within made in
    let fun =
      declare-FuncWithin (sizes q) v next decl
        (FuncWithin-larger (sizes st.info) (sizes q) larger st.f h.2) in
    ok-StepWithin n false (declare v next)
      (subst
        (λ info. IsClosed info × Fits n (sizes info) × FuncWithin (sizes info) (declare v next).f)
        (sym (declare-info v next))
        (closed, Fits-trans n (sizes st.info) (sizes q) h.1 larger, fun))
      ended u last

start_block-StateWithin :
    (n : Sizes) (value line cur : ℕ) (path : Text) (st : FuncState)
    → StateWithin n st
    → StateWithin n (block_line value line path (start_block cur st))
unfolding start_block block_line
start_block-StateWithin n value line cur path st h = (
  h.0,
  h.1,
  (
    h.2.0,
    All-append (BlockWithin (sizes st.info)) st.f.blocks
        (record { line_start = cur; line_end = 0; locals = [] } ∷ []) h.2.1 (tt, tt),
  ),
)

-- The block stack after its top is taken.
popped-StateWithin :
    (n : Sizes) (value line : ℕ) (path : Text) (stack : List ℕ) (st : FuncState)
    → StateWithin n st
    → StateWithin n (
        block_line value line path (elim stack as (λ _. FuncState) [
          | [] ↦ record st { cur_block = none }
          | j ∷ rest ↦ record st { blocks = rest; cur_block = some j }
        ]))
unfolding block_line
popped-StateWithin n value line path [] st h = h
popped-StateWithin n value line path (j ∷ rest) st h = h

end_block-StepWithin :
    (n : Sizes) (value line : ℕ) (path : Text) (st : FuncState)
    → StateWithin n st
    → StepWithin n (end_block line st >>= λ ended. ok (false, block_line value line path ended))
unfolding end_block
end_block-StepWithin n value line path st h = elim (Option-cases st.cur_block) [
  | inl e ↦ rw (end_block, e) (λ ended u absent. cc)
  | inr (i, e) ↦
      let close = λ (b : Block). record b { line_end = line } in
      let next : FuncState = record st { f = change_block close i st.f } in
      rw (end_block, e)
        (ok-StepWithin n false _ (
          popped-StateWithin n value line path st.blocks next
            (h.0, h.1, change_block-FuncWithin (sizes st.info) close i st.f (λ b hb. hb) h.2)))
]

func_step-StepWithin :
    (n : Sizes) (path : Text) (value : ℕ) (b : SymbolBody) (st : FuncState)
    → StateWithin n st
    → StepWithin n (func_step path value b st)
unfolding func_step
func_step-StepWithin n path value (func_end line) st h = ok-StepWithin n true _ h
func_step-StepWithin n path value (block_start line) st h =
    ok-StepWithin n false _ (start_block-StateWithin n value line line path st h)
func_step-StepWithin n path value (block_end line) st h =
    end_block-StepWithin n value line path st h
func_step-StepWithin n path value (def b) st h =
    local_def-StepWithin n value b.size b.class b.type [] [] b.name st h
func_step-StepWithin n path value (def2 b) st h =
    local_def-StepWithin n value b.size b.class b.type b.dims b.tag b.name st h
func_step-StepWithin n path value _ st h = λ ended u e. cc

-- The rest of the loop, where there is one.
rest-StateWithin :
    (n : Sizes) (ended : Bool) (path : Text) (k m : ℕ) (syms : List Symbol) (st u : FuncState)
    → StateWithin n st
    → (func_loop path k syms st ≡ ok (m, u) → StateWithin n u)
    → (elim ended [ true ↦ ok (k, st) | false ↦ func_loop path k syms st ]) ≡ ok (m, u)
    → StateWithin n u
rest-StateWithin n true path k m syms st u h more e =
    subst (λ (x : ℕ × FuncState). StateWithin n x.1) (ok-injective e) h
rest-StateWithin n false path k m syms st u h more e = more e

func_loop-StateWithin :
    (n : Sizes) (path : Text) (k m : ℕ) (syms : List Symbol) (st u : FuncState)
    → StateWithin n st
    → func_loop path k syms st ≡ ok (m, u)
    → StateWithin n u
unfolding func_loop
func_loop-StateWithin n path k m [] st u h e = cc
func_loop-StateWithin n path k m (s ∷ syms) st u h e =
    let ((ended, v), stepped, rest) = >>=-steps (func_step path s.value s.body st) _ e in
    let after = func_step-StepWithin n path s.value s.body st h ended v stepped in
    rest-StateWithin n ended path (k + 1) m syms v u after
      (func_loop-StateWithin n path (k + 1) m syms v u after) rest

-- What parseFunc leaves: types within stores that are no smaller, and an overlay within them.
abbrev pub Leaves : Sizes → TypeInfo → Overlay → Type 0
Leaves n info o = IsClosed info × Fits n (sizes info) × OverlayWithin (sizes info) o

abbrev LeavesResult : TypeInfo → Result Panic (ℕ × (TypeInfo × Overlay)) → Type 0
LeavesResult p r =
    (n : ℕ) → (q : TypeInfo) → (o : Overlay) → r ≡ ok (n, (q, o)) → Leaves (sizes p) q o

ok-LeavesResult :
    (p q : TypeInfo) (n : ℕ) (o : Overlay) → Leaves (sizes p) q o → LeavesResult p (ok (n, (q, o)))
ok-LeavesResult p q n o h m u v e =
    subst (λ (x : ℕ × (TypeInfo × Overlay)). Leaves (sizes p) x.1.0 x.1.1) (ok-injective e) h

new_func-LeavesResult :
    (addr : ℕ) (b : FuncStart) (syms : List Symbol) (i : ℕ) (f : FuncDecl) (p : TypeInfo)
    (o : Overlay)
    → IsClosed p
    → FuncWithin (sizes p) f
    → OverlayWithin (sizes p) o
    → LeavesResult p (new_func addr b syms i f p o)
unfolding new_func
new_func-LeavesResult addr b syms i f p o h hf ho n q u e =
    let ((m, st), looped, rest) = >>=-steps (func_loop b.path 0 syms _) _ e in
    let (closed, larger, within) =
      func_loop-StateWithin (sizes p) b.path 0 m syms _ st (h, Fits-refl (sizes p), hf) looped in
    let (vars, funcs) = OverlayWithin-larger (sizes p) (sizes st.info) larger o ho in
    ok-LeavesResult p st.info m _
      (closed, larger, (vars, All-set (FuncWithin (sizes st.info)) o.funcs i st.f funcs within)) n q
      u rest

empty_func-Within :
    (n : Sizes) (key name : Text) (addr : ℕ) (o : Overlay)
    → OverlayWithin n o
    → OverlayWithin n (empty_func key name addr o).1
unfolding empty_func
empty_func-Within n key name addr o h =
    (h.0, All-append (FuncWithin n) o.funcs _ h.1 (((tt, tt), tt), tt))

find_place-Within :
    (n : Sizes) (raw : Text) (addr : ℕ) (o : Overlay)
    → OverlayWithin n o
    → OverlayWithin n (find_place raw addr o).1
unfolding find_place empty_func
find_place-Within n raw addr o h =
    let name = valid_name raw in
    let places = slice_at name o.func_names in
    elim (Option-cases (first_at addr o.funcs places)) [
      | inl e ↦ rw (find_place, e) (empty_func-Within n name _ addr o h)
      | inr (i, e) ↦ rw (find_place, e) h
    ]

find_func-Within :
    (n : Sizes) (raw : Text) (addr i : ℕ) (o found : Overlay) (f : FuncDecl)
    → OverlayWithin n o
    → find_func raw addr o ≡ ok (i, (f, found))
    → FuncWithin n f × OverlayWithin n found
unfolding find_func
find_func-Within n raw addr i o found f h e =
    let after = find_place raw addr o in
    let within = find_place-Within n raw addr o h in
    let (g, there, rest) = some-steps (get_elem? after.1.funcs after.0) nil_dereference _ e in
    let (_, _, last) = >>=-steps (check_func g.type) _ rest in
    subst (λ (x : ℕ × (FuncDecl × Overlay)). FuncWithin n x.1.0 × OverlayWithin n x.1.1)
      (ok-injective last) (All-at (FuncWithin n) after.1.funcs after.0 g within.1 there, within)

parse_found-LeavesResult :
    (addr : ℕ) (b : FuncStart) (syms : List Symbol) (i : ℕ) (f : FuncDecl) (p : TypeInfo)
    (o : Overlay)
    → IsClosed p
    → FuncWithin (sizes p) f
    → OverlayWithin (sizes p) o
    → LeavesResult p (parse_found addr b syms i f p o)
unfolding parse_found
parse_found-LeavesResult addr b syms i f p o h hf ho =
    elim (Option-cases (if f.line_start == 0 then none else through_func_end syms)) [
      | inl e ↦ rw (parse_found, e) (new_func-LeavesResult addr b syms i f p o h hf ho)
      | inr (n, e) ↦ rw (parse_found, e) (ok-LeavesResult p p n o (h, Fits-refl (sizes p), ho))
    ]

-- parseFunc
pub parse_func-LeavesResult :
    (addr : ℕ) (b : FuncStart) (syms : List Symbol) (p : TypeInfo) (o : Overlay)
    → IsClosed p
    → OverlayWithin (sizes p) o
    → LeavesResult p (parse_func addr b syms p o)
unfolding parse_func
parse_func-LeavesResult addr b syms p o h ho n q u e =
    let ((i, (f, found)), located, rest) = >>=-steps (find_func b.name addr o) _ e in
    let (hf, hfound) = find_func-Within (sizes p) b.name addr i o found f ho located in
    parse_found-LeavesResult addr b syms i f p found h hf hfound n q u rest
