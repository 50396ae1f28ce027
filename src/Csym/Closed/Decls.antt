-- ===== src/Csym/Closed/Decls.antt =====
-- ParseDecls (csym/parse_decls.go), and the stores that the types of a parser lead to.
use psx_mnd_sym.Prelude.{
  All-each, ℕ, zero, suc, ◌≡◌, ◌∙◌, ◌>>=◌, subst, ap, List, [], ◌∷◌, Text, some, All, All-append,
  get_elem?, ok, err, ok-injective, >>=-steps, some-steps,
}
use psx_mnd_sym.Sym.File.Switch.{switch-All}
use psx_mnd_sym.Sym.Symbol.{
  OverlayBody, SymbolBody, Symbol, name1, name2, set_sld2, end_sld, func_start, def, def2, overlay,
  set_overlay,
}
use psx_mnd_sym.C.Ast.{
  CType, VarDecl, nil_type, base, struct_ref, union_ref, enum_ref, def_ref, pointer, array, func,
  var_decl,
}
use psx_mnd_sym.Csym.State.{
  Panic, missing_overlay, unsupported_class, unsupported_symbol, nil_dereference, new_overlay,
  TypeInfo, Overlay, Parser,
}
use psx_mnd_sym.Csym.Names.{valid_name}
use psx_mnd_sym.Csym.Tagged.Contents.{All-at, All-set}
use psx_mnd_sym.Csym.Types.{parse_type}
use psx_mnd_sym.Csym.Lines.{parse_line_numbers}
use psx_mnd_sym.Csym.Funcs.{parse_class, parse_func}
use psx_mnd_sym.Csym.Decls.{
  Step, def_cases, def2_cases, current, put_current, add_var, parse_symbol_entry, parse_global_decl,
  parse_overlay, overlay_of, select_overlay, global_def, def_step, def2_step, symbol_step,
  decls_step, decls_loop, parse_decls,
}
use psx_mnd_sym.Csym.Closed.{Sizes, sizes, Fits, Fits-refl, IsWithin, DeclWithin, IsClosed}
use psx_mnd_sym.Csym.Closed.Types.{parse_type-Yields}
use psx_mnd_sym.Csym.Closed.Funcs.{FuncWithin, OverlayWithin, OverlayWithin-larger}
use psx_mnd_sym.Csym.Closed.FuncLoop.{parse_func-LeavesResult}

-- All types of the parser, those of its variables, functions, parameters and locals too, lead to objects of
-- its stores.
pub record ParserIsClosed (p : Parser) : Type 0 where
  pub info : IsClosed p.info
  pub overlays : All (OverlayWithin (sizes p.info)) p.overlay_store

abbrev Keeps : Step → Type 0
Keeps r = (n : ℕ) → (q : Parser) → r ≡ ok (n, q) → ParserIsClosed q

ok-Keeps : (n : ℕ) (p : Parser) → ParserIsClosed p → Keeps (ok (n, p))
ok-Keeps n p h m q e = subst (λ (x : ℕ × Parser). ParserIsClosed x.1) (ok-injective e) h

err-Keeps : (x : Panic) → Keeps (err x)
err-Keeps x n q e = cc

-- The overlays while the types change, the current one written.
put_current-ParserIsClosed :
    (o : Overlay) (q : TypeInfo) (p : Parser)
    → ParserIsClosed p
    → IsClosed q
    → Fits (sizes p.info) (sizes q)
    → OverlayWithin (sizes q) o
    → ParserIsClosed (put_current o (record p { info = q }))
put_current-ParserIsClosed o q p h closed larger within = record {
  info = closed;
  overlays =
      All-set (OverlayWithin (sizes q)) p.overlay_store p.cur_overlay o
        (All-each (OverlayWithin (sizes p.info)) (OverlayWithin (sizes q)) p.overlay_store
          (OverlayWithin-larger (sizes p.info) (sizes q) larger) h.overlays)
        within;
}

-- With the same types.
put_same-ParserIsClosed :
    (o : Overlay) (p : Parser)
    → ParserIsClosed p
    → OverlayWithin (sizes p.info) o
    → ParserIsClosed (put_current o p)
put_same-ParserIsClosed o p h within =
    put_current-ParserIsClosed o p.info p h h.info (Fits-refl (sizes p.info)) within

current-Within :
    (p : Parser) (o : Overlay)
    → ParserIsClosed p
    → current p ≡ ok o
    → OverlayWithin (sizes p.info) o
unfolding current
current-Within p o h e =
    let (c, there, same) =
      some-steps (get_elem? p.overlay_store p.cur_overlay) nil_dereference _ e in
    All-at (OverlayWithin (sizes p.info)) p.overlay_store p.cur_overlay o h.overlays
      (there ∙ ap some (ok-injective same))

add_var-Within :
    (n : Sizes) (v : VarDecl) (name : Text) (o : Overlay)
    → OverlayWithin n o
    → DeclWithin n v
    → OverlayWithin n (add_var v name o)
add_var-Within n v name o h hv = (All-append (DeclWithin n) o.vars (v ∷ []) h.0 (hv, tt), h.1)

-- A variable that parseGlobalDecl adds.
var-Within :
    (n : Sizes) (addr size class : ℕ) (t : CType) (raw : Text) (o changed : Overlay)
    → OverlayWithin n o
    → IsWithin n t
    → (do
      c ← parse_class class
      ok (add_var (var_decl addr size c t (valid_name raw)) (valid_name raw) o))
      ≡ ok changed
    → OverlayWithin n changed
var-Within n addr size class t raw o changed h ht e =
    let (c, _, last) = >>=-steps (parse_class class) _ e in
    subst (OverlayWithin n) (ok-injective last)
      (add_var-Within n (var_decl addr size c t (valid_name raw)) (valid_name raw) o h ht)

parse_global_decl-Within :
    (n : Sizes) (addr size class : ℕ) (t : CType) (raw : Text) (o changed : Overlay)
    → OverlayWithin n o
    → IsWithin n t
    → parse_global_decl addr size class t raw o ≡ ok changed
    → OverlayWithin n changed
unfolding parse_global_decl
parse_global_decl-Within n addr size class (func r ps v) raw o changed h ht e =
    subst (OverlayWithin n) (ok-injective e)
      (h.0, All-append (FuncWithin n) o.funcs _ h.1 ((ht, tt), tt))
parse_global_decl-Within n addr size class nil_type raw o changed h ht e =
    var-Within n addr size class nil_type raw o changed h ht e
parse_global_decl-Within n addr size class (base b) raw o changed h ht e =
    var-Within n addr size class (base b) raw o changed h ht e
parse_global_decl-Within n addr size class (struct_ref i) raw o changed h ht e =
    var-Within n addr size class (struct_ref i) raw o changed h ht e
parse_global_decl-Within n addr size class (union_ref i) raw o changed h ht e =
    var-Within n addr size class (union_ref i) raw o changed h ht e
parse_global_decl-Within n addr size class (enum_ref i) raw o changed h ht e =
    var-Within n addr size class (enum_ref i) raw o changed h ht e
parse_global_decl-Within n addr size class (def_ref i) raw o changed h ht e =
    var-Within n addr size class (def_ref i) raw o changed h ht e
parse_global_decl-Within n addr size class (pointer t) raw o changed h ht e =
    var-Within n addr size class (pointer t) raw o changed h ht e
parse_global_decl-Within n addr size class (array t k) raw o changed h ht e =
    var-Within n addr size class (array t k) raw o changed h ht e

symbol_step-Keeps :
    (value : ℕ) (name : Text) (p : Parser) → ParserIsClosed p → Keeps (symbol_step value name p)
unfolding parse_symbol_entry
symbol_step-Keeps value name p h n q e =
    let (o, found, returned) = >>=-steps (current p) _ e in
    ok-Keeps 0 _
      (put_same-ParserIsClosed (parse_symbol_entry value name o) p h (current-Within p o h found)) n
      q returned

global_def-Keeps :
    (addr size class t : ℕ) (dims : List ℕ) (tag raw : Text) (p : Parser)
    → ParserIsClosed p
    → Keeps (global_def addr size class t dims tag raw p)
unfolding global_def
global_def-Keeps addr size class t dims tag raw p h n q e =
    let ((u, info), typed, parsed) = >>=-steps (parse_type t dims tag p.info) _ e in
    let (o, here, found) = >>=-steps (current p) _ parsed in
    let (changed, made, returned) = >>=-steps (parse_global_decl addr size class u raw o) _ found in
    let (closed, larger, within) = parse_type-Yields t dims tag p.info h.info u info typed in
    let before =
      OverlayWithin-larger (sizes p.info) (sizes info) larger o (current-Within p o h here) in
    let after =
      parse_global_decl-Within (sizes info) addr size class u raw o changed before within made in
    ok-Keeps 0 _ (put_current-ParserIsClosed changed info p h closed larger after) n q returned

def_step-Keeps :
    (class : ℕ) (p : Parser) (global : Step)
    → ParserIsClosed p
    → Keeps global
    → Keeps (def_step class p global)
unfolding def_step
def_step-Keeps class p global h hg =
    let kept = ok-Keeps 0 p h in
    switch-All Keeps class (def_cases p global) (err (unsupported_class class))
      (hg, (hg, (kept, (kept, (kept, (kept, (kept, (kept, (kept, (kept, (kept, tt)))))))))))
      (err-Keeps (unsupported_class class))

def2_step-Keeps :
    (class : ℕ) (p : Parser) (global : Step)
    → ParserIsClosed p
    → Keeps global
    → Keeps (def2_step class p global)
unfolding def2_step
def2_step-Keeps class p global h hg =
    let kept = ok-Keeps 0 p h in
    switch-All Keeps class (def2_cases p global) (err (unsupported_class class))
      (hg, (hg, (kept, (kept, (kept, (kept, (kept, (kept, tt))))))))
      (err-Keeps (unsupported_class class))

parse_overlay-ParserIsClosed :
    (addr : ℕ) (b : OverlayBody) (p : Parser)
    → ParserIsClosed p
    → ParserIsClosed (parse_overlay addr b p)
unfolding parse_overlay
parse_overlay-ParserIsClosed addr b p h = record {
  info = h.info;
  overlays =
      All-append (OverlayWithin (sizes p.info)) p.overlay_store
        (new_overlay addr b.id b.length ∷ []) h.overlays ((tt, tt), tt);
}

select_overlay-ParserIsClosed :
    (id : ℕ) (p q : Parser) → ParserIsClosed p → select_overlay id p ≡ ok q → ParserIsClosed q
select_overlay-ParserIsClosed id p q h e =
    let (i, _, returned) = some-steps (overlay_of id p.overlay_ids) (missing_overlay id) _ e in
    subst ParserIsClosed (ok-injective returned) (record { info = h.info; overlays = h.overlays })

decls_step-Keeps :
    (value : ℕ) (b : SymbolBody) (syms : List Symbol) (p : Parser)
    → ParserIsClosed p
    → Keeps (decls_step value b syms p)
unfolding decls_step
decls_step-Keeps value (name1 b) syms p h = symbol_step-Keeps value b.name p h
decls_step-Keeps value (name2 b) syms p h = symbol_step-Keeps value b.name p h
decls_step-Keeps value (set_sld2 b) syms p h = λ n q e.
    let (o, here, found) = >>=-steps (current p) _ e in
    let ((k, lines), _, returned) = >>=-steps (parse_line_numbers value b syms o.lines) _ found in
    ok-Keeps k _
      (put_same-ParserIsClosed (record o { lines = lines }) p h (current-Within p o h here)) n q
      returned
decls_step-Keeps value end_sld syms p h = ok-Keeps 0 p h
decls_step-Keeps value (func_start b) syms p h = λ n q e.
    let (o, here, found) = >>=-steps (current p) _ e in
    let ((k, (info, parsed)), ran, returned) =
      >>=-steps (parse_func value b syms p.info o) _ found in
    let (closed, larger, within) =
      parse_func-LeavesResult value b syms p.info o h.info (current-Within p o h here) k info parsed
        ran in
    ok-Keeps k _ (put_current-ParserIsClosed parsed info p h closed larger within) n q returned
decls_step-Keeps value (def b) syms p h =
    def_step-Keeps b.class p _ h (global_def-Keeps value b.size b.class b.type [] [] b.name p h)
decls_step-Keeps value (def2 b) syms p h =
    def2_step-Keeps b.class p _ h
      (global_def-Keeps value b.size b.class b.type b.dims b.tag b.name p h)
decls_step-Keeps value (overlay b) syms p h =
    ok-Keeps 0 _ (parse_overlay-ParserIsClosed value b p h)
decls_step-Keeps value set_overlay syms p h = λ n q e.
    let (selected, chosen, returned) = >>=-steps (select_overlay value p) _ e in
    ok-Keeps 0 _ (select_overlay-ParserIsClosed value p selected h chosen) n q returned
decls_step-Keeps value _ syms p h = err-Keeps unsupported_symbol

decls_loop-ParserIsClosed :
    (skip : ℕ) (syms : List Symbol) (p q : Parser)
    → ParserIsClosed p
    → decls_loop skip syms p ≡ ok q
    → ParserIsClosed q
unfolding decls_loop
decls_loop-ParserIsClosed skip [] p q h e = subst ParserIsClosed (ok-injective e) h
decls_loop-ParserIsClosed (suc skip) (s ∷ syms) p q h e =
    decls_loop-ParserIsClosed skip syms p q h e
decls_loop-ParserIsClosed zero (s ∷ syms) p q h e =
    let ((n, r), stepped, rest) = >>=-steps (decls_step s.value s.body syms p) _ e in
    decls_loop-ParserIsClosed n syms r q (decls_step-Keeps s.value s.body syms p h n r stepped) rest

-- Where ParseDecls of a parser returns, and all its types led to objects of its stores before, they do after: those
-- of its variables, functions, parameters and local variables too.
pub parse_decls-ParserIsClosed :
    (syms : List Symbol) (p q : Parser)
    → ParserIsClosed p
    → parse_decls syms p ≡ ok q
    → ParserIsClosed q
unfolding parse_decls
parse_decls-ParserIsClosed syms p q h e = decls_loop-ParserIsClosed 0 syms p q h e
