-- ===== src/Csym/Decls/Overlays.antt =====
-- The current overlay and the overlays by ID, while ParseDecls runs.
use psx_mnd_sym.Prelude.{
  ℕ, zero, suc, ◌+◌, ◌≡◌, ◌<◌, ◌≤◌, ap, subst, inl, inr, List, [], ◌∷◌, ◌++◌, Text, ◌==◌, Option,
  none, some, All, All-append, length, length-append, length-set, arith, Result, ok, err,
  ok-injective, >>=-steps, Option-cases, if-eq_cases,
}
use psx_mnd_sym.Sym.File.Switch.{switch-All}
use psx_mnd_sym.Sym.Symbol.{
  OverlayBody, SymbolBody, Symbol, name1, name2, set_sld2, end_sld, func_start, def, def2, overlay,
  set_overlay,
}
use psx_mnd_sym.Csym.State.{
  Panic, missing_overlay, unsupported_class, unsupported_symbol, new_overlay, Overlay, Parser,
}
use psx_mnd_sym.Csym.Tagged.Places.{below-AllBelow}
use psx_mnd_sym.Csym.Types.{parse_type}
use psx_mnd_sym.Csym.Lines.{parse_line_numbers}
use psx_mnd_sym.Csym.Funcs.{parse_func}
use psx_mnd_sym.Csym.Decls.{
  Step, def_cases, def2_cases, current, put_current, parse_symbol_entry, parse_global_decl,
  parse_overlay, overlay_of, select_overlay, global_def, def_step, def2_step, symbol_step,
  decls_step, decls_loop, parse_decls,
}

-- The current overlay, those of the list and those that an ID leads to are in the store.
abbrev pub HasOverlays : Parser → Type 0
HasOverlays p =
    (p.cur_overlay < length p.overlay_store)
    × All (λ i. i < length p.overlay_store) p.overlays
    × All (λ (e : ℕ × ℕ). e.1 < length p.overlay_store) p.overlay_ids

put_current-HasOverlays : (o : Overlay) (p : Parser) → HasOverlays p → HasOverlays (put_current o p)
put_current-HasOverlays o p h = rw (length-set p.overlay_store p.cur_overlay o) h

abbrev Keeps : Step → Type 0
Keeps r = (n : ℕ) (q : Parser) → r ≡ ok (n, q) → HasOverlays q

ok-Keeps : (n : ℕ) (p : Parser) → HasOverlays p → Keeps (ok (n, p))
ok-Keeps n p h m q e = subst HasOverlays (ap (λ v. v.1) (ok-injective e)) h

err-Keeps : (x : Panic) → Keeps (err x)
err-Keeps x n q e = cc

symbol_step-Keeps :
    (value : ℕ) (name : Text) (p : Parser) → HasOverlays p → Keeps (symbol_step value name p)
symbol_step-Keeps value name p h n q e =
    let (o, _, returned) = >>=-steps (current p) _ e in
    ok-Keeps 0 _ (put_current-HasOverlays (parse_symbol_entry value name o) p h) n q returned

global_def-Keeps :
    (addr size class t : ℕ) (dims : List ℕ) (tag raw : Text) (p : Parser)
    → HasOverlays p
    → Keeps (global_def addr size class t dims tag raw p)
unfolding global_def
global_def-Keeps addr size class t dims tag raw p h n q e =
    let ((u, info), _, parsed) = >>=-steps (parse_type t dims tag p.info) _ e in
    let (o, _, found) = >>=-steps (current p) _ parsed in
    let (changed, _, returned) = >>=-steps (parse_global_decl addr size class u raw o) _ found in
    ok-Keeps 0 _ (put_current-HasOverlays changed (record p { info = info }) h) n q returned

def_step-Keeps :
    (class : ℕ) (p : Parser) (global : Step)
    → HasOverlays p
    → Keeps global
    → Keeps (def_step class p global)
unfolding def_step
def_step-Keeps class p global h hg =
    let kept = ok-Keeps 0 p h in
    switch-All Keeps class (def_cases p global) (err (unsupported_class class))
      (hg, (hg, (kept, (kept, (kept, (kept, (kept, (kept, (kept, (kept, (kept, tt)))))))))))
      (err-Keeps (unsupported_class class))

def2_step-Keeps :
    (class : ℕ) (p : Parser) (global : Step)
    → HasOverlays p
    → Keeps global
    → Keeps (def2_step class p global)
unfolding def2_step
def2_step-Keeps class p global h hg =
    let kept = ok-Keeps 0 p h in
    switch-All Keeps class (def2_cases p global) (err (unsupported_class class))
      (hg, (hg, (kept, (kept, (kept, (kept, (kept, (kept, tt))))))))
      (err-Keeps (unsupported_class class))

pub wider-ids :
    (n k : ℕ) (ids : List (ℕ × ℕ))
    → n ≤ k
    → All (λ (e : ℕ × ℕ). e.1 < n) ids
    → All (λ (e : ℕ × ℕ). e.1 < k) ids
wider-ids n k [] le h = tt
wider-ids n k (e ∷ ids) le h = (omega (arith, le, h.0), wider-ids n k ids le h.1)

parse_overlay-HasOverlays :
    (addr : ℕ) (b : OverlayBody) (p : Parser) → HasOverlays p → HasOverlays (parse_overlay addr b p)
unfolding parse_overlay
parse_overlay-HasOverlays addr b p h =
    let n = length p.overlay_store in
    let o = new_overlay addr b.id b.length in
    let grown : n + 1 ≡ length (p.overlay_store ++ o ∷ []) =
      omega (arith, length-append p.overlay_store (o ∷ [])) in
    let below = λ (m : ℕ).
      (p.cur_overlay < m)
      × All (λ i. i < m) (p.overlays ++ n ∷ [])
      × All (λ (e : ℕ × ℕ). e.1 < m) ((b.id, n) ∷ p.overlay_ids) in
    subst below grown (
      omega (arith, h.0),
      All-append (λ i. i < n + 1) p.overlays (n ∷ [])
          (below-AllBelow n (n + 1) p.overlays (omega arith) h.1) (omega arith, tt),
      (omega arith, wider-ids n (n + 1) p.overlay_ids (omega arith) h.2),
    )

pub overlay_of-below :
    (id n i : ℕ) (ids : List (ℕ × ℕ))
    → All (λ (e : ℕ × ℕ). e.1 < n) ids
    → overlay_of id ids ≡ some i
    → i < n
unfolding overlay_of
overlay_of-below id n i [] h e = cc
overlay_of-below id n i ((k, j) ∷ ids) h e = elim (if-eq_cases (k == id) e) [
  | inl (_, same) ↦ ground (arith, h.0)
  | inr (_, same) ↦ overlay_of-below id n i ids h.1 same
]

no_overlay : (x : Panic) (q : Parser) → ◌≡◌ {A = Result Panic Parser} (err x) (ok q) → HasOverlays q
no_overlay x q e = cc

select_overlay-HasOverlays :
    (id : ℕ) (p q : Parser) → HasOverlays p → select_overlay id p ≡ ok q → HasOverlays q
select_overlay-HasOverlays id p q h e =
    let chosen = λ (o : Option ℕ).
      ◌≡◌ {A = Result Panic Parser}
        (elim o [ none ↦ err (missing_overlay id) | some i ↦ ok (record p { cur_overlay = i }) ])
        (ok q) in
    elim (Option-cases (overlay_of id p.overlay_ids)) [
      | inl missing ↦ no_overlay (missing_overlay id) q (subst chosen missing e)
      | inr (i, found) ↦
          subst HasOverlays (ok-injective (subst chosen found e))
            (overlay_of-below id (length p.overlay_store) i p.overlay_ids h.2 found, h.1, h.2)
    ]

-- Each round of ParseDecls that returns keeps the current overlay, the overlays of the list and those
-- that an ID leads to in the store.
decls_step-HasOverlays :
    (value : ℕ) (b : SymbolBody) (syms : List Symbol) (p : Parser)
    → HasOverlays p
    → Keeps (decls_step value b syms p)
unfolding decls_step
decls_step-HasOverlays value (name1 b) syms p h = symbol_step-Keeps value b.name p h
decls_step-HasOverlays value (name2 b) syms p h = symbol_step-Keeps value b.name p h
decls_step-HasOverlays value (set_sld2 b) syms p h = λ n q e.
    let (o, _, found) = >>=-steps (current p) _ e in
    let ((k, lines), _, returned) = >>=-steps (parse_line_numbers value b syms o.lines) _ found in
    ok-Keeps k _ (put_current-HasOverlays (record o { lines = lines }) p h) n q returned
decls_step-HasOverlays value end_sld syms p h = ok-Keeps 0 p h
decls_step-HasOverlays value (func_start b) syms p h = λ n q e.
    let (o, _, found) = >>=-steps (current p) _ e in
    let ((k, (info, parsed)), _, returned) = >>=-steps (parse_func value b syms p.info o) _ found in
    ok-Keeps k _ (put_current-HasOverlays parsed (record p { info = info }) h) n q returned
decls_step-HasOverlays value (def b) syms p h =
    def_step-Keeps b.class p _ h (global_def-Keeps value b.size b.class b.type [] [] b.name p h)
decls_step-HasOverlays value (def2 b) syms p h =
    def2_step-Keeps b.class p _ h
      (global_def-Keeps value b.size b.class b.type b.dims b.tag b.name p h)
decls_step-HasOverlays value (overlay b) syms p h =
    ok-Keeps 0 _ (parse_overlay-HasOverlays value b p h)
decls_step-HasOverlays value set_overlay syms p h = λ n q e.
    let (selected, chosen, returned) = >>=-steps (select_overlay value p) _ e in
    ok-Keeps 0 _ (select_overlay-HasOverlays value p selected h chosen) n q returned
decls_step-HasOverlays value _ syms p h = err-Keeps unsupported_symbol

decls_loop-HasOverlays :
    (skip : ℕ) (syms : List Symbol) (p q : Parser)
    → HasOverlays p
    → decls_loop skip syms p ≡ ok q
    → HasOverlays q
unfolding decls_loop
decls_loop-HasOverlays skip [] p q h e = subst HasOverlays (ok-injective e) h
decls_loop-HasOverlays (suc skip) (s ∷ syms) p q h e = decls_loop-HasOverlays skip syms p q h e
decls_loop-HasOverlays zero (s ∷ syms) p q h e =
    let ((n, r), stepped, rest) = >>=-steps (decls_step s.value s.body syms p) _ e in
    decls_loop-HasOverlays n syms r q (decls_step-HasOverlays s.value s.body syms p h n r stepped)
      rest

-- Where ParseDecls of a parser returns, and the current overlay, the overlays of the list and those
-- that an ID leads to were in the store before, they are in the store after.
pub parse_decls-HasOverlays :
    (syms : List Symbol) (p q : Parser) → HasOverlays p → parse_decls syms p ≡ ok q → HasOverlays q
unfolding parse_decls
parse_decls-HasOverlays syms p q h e = decls_loop-HasOverlays 0 syms p q h e
