-- ===== src/SymDump/Declarations.antt =====
-- The declarations of several parsers merged by pruneDuplicates (cmd/sym_dump/main.go).
pub mod Seen
pub mod Places
pub mod Once
use psx_mnd_sym.Prelude.{
  ℕ, List, [], ◌∷◌, ◌++◌, Text, Bool, true, false, ◌==◌, if◌then◌else◌, Option, none, some,
  get_elem?, set, length, Result, ok, err, ◌>>=◌,
}
use psx_mnd_sym.C.Ast.{CType, VarDecl, FuncDecl, var_decl}
use psx_mnd_sym.C.Defs.{var_def, func_def}
use psx_mnd_sym.Csym.State.{Panic, nil_dereference, unreachable, Overlay, Parser, new_overlay}
use psx_mnd_sym.Csym.Decls.{overlay_of}
use psx_mnd_sym.Csym.Names.{is_member}
use psx_mnd_sym.SymDump.Sources.{all_overlays}

-- The elements whose definition has not been seen, behind those that are kept, and all texts seen.
unfoldable pub add_unseen {ℓ} :
    {A : Type ℓ} → (A → Text) → List A → List A → List Text → List A × List Text
unfolding is_member
add_unseen def [] kept present = (kept, present)
add_unseen def (x ∷ xs) kept present =
    let s = def x in
    add_unseen def xs (if is_member s present then kept else kept ++ x ∷ []) (s ∷ present)

-- What the loops change: the overlays made, `dstOverlays`, `dst.Overlay`, `dst.Overlays` and the keys of
-- `varDeclPresent` and `funcDeclPresent`. Without a `default`, `dst.Overlay` is the empty one that NewParser made.
pub record Merged : Type 0 where
  pub store : List Overlay
  pub ids : List (ℕ × ℕ)
  pub default : Option ℕ
  pub overlays : List ℕ
  pub var_present : List Text
  pub func_present : List Text

-- dst before the loops.
abbrev pub no_overlays : Merged
no_overlays = record {
  store = [];
  ids = [];
  default = none;
  overlays = [];
  var_present = [];
  func_present = [];
}

abbrev pub has_vars : Overlay → Bool
has_vars o = elim o.vars [ [] ↦ false | _ ∷ _ ↦ true ]

abbrev pub default_has_vars : Merged → Bool
default_has_vars s = elim s.default [
  | none ↦ false
  | some d ↦ elim (get_elem? s.store d) [ none ↦ false | some o ↦ has_vars o ]
]

-- `dstOverlays[overlay.ID]`, or a new overlay with that ID; `own` is `p.Overlay.ID`.
unfoldable pub overlay_for : ℕ → ℕ → Merged → Result Panic (ℕ × Merged)
unfolding overlay_of
overlay_for own id s = elim (overlay_of id s.ids) [
  | some i ↦ ok (i, s)
  | none ↦
      let i = length s.store in
      let added : Merged = record s {
        store = s.store ++ new_overlay 0 id 0 ∷ [];
        ids = (id, i) ∷ s.ids;
      } in
      if id == own
      then (if default_has_vars s
          then err unreachable
          else ok (i, record added { default = some i }))
      else ok (i, record added { overlays = s.overlays ++ i ∷ [] })
]

-- `leaf` is what is printed for a type that has no declarator.
module _ (leaf : CType → Text) where
  -- The definition of a variable, its address left out if `skip_addr`.
  unfoldable pub var_text : Bool → VarDecl → Text
  unfolding var_def
  var_text skip_addr (var_decl addr size class t name) =
      var_def leaf (var_decl (if skip_addr then 0 else addr) size class t name)

  -- The definition of a function, without its address or its lines.
  unfoldable pub func_text : Bool → Bool → FuncDecl → Text
  unfolding func_def
  func_text skip_addr skip_line f = func_def leaf (record f {
    addr = if skip_addr then 0 else f.addr;
    line_start = if skip_line then 0 else f.line_start;
    line_end = if skip_line then 0 else f.line_end;
  })

  module _ (skip_addr skip_line : Bool) where
    -- The declarations of an overlay added to `cur`, which is at the place `i`.
    unfoldable pub add_to : Overlay → ℕ → Overlay → Merged → Merged
    unfolding add_unseen var_text func_text
    add_to cur i o s =
        let (vars, var_present) = add_unseen (var_text skip_addr) o.vars cur.vars s.var_present in
        let (funcs, func_present) =
          add_unseen (func_text skip_addr skip_line) o.funcs cur.funcs s.func_present in
        record s {
          store = set s.store i (record cur { vars = vars; funcs = funcs });
          var_present = var_present;
          func_present = func_present;
        }

    -- And to the one at a place, which is one of the store.
    unfoldable pub add_decls : ℕ → Overlay → Merged → Merged
    unfolding add_to
    add_decls i o s = elim (get_elem? s.store i) [ none ↦ s | some cur ↦ add_to cur i o s ]

    -- The loop over the overlays of a parser.
    unfoldable pub merge_overlays : ℕ → List Overlay → Merged → Result Panic Merged
    unfolding overlay_for add_decls
    merge_overlays own [] s = ok s
    merge_overlays own (o ∷ os) s = do
      (i, t) ← overlay_for own o.id s
      merge_overlays own os (add_decls i o t)

    -- The loop over the parsers.
    unfoldable pub merge_decls : List Parser → Merged → Result Panic Merged
    unfolding merge_overlays
    merge_decls [] s = ok s
    merge_decls (p ∷ ps) s = elim (get_elem? p.overlay_store 0) [
      | none ↦ err nil_dereference
      | some own ↦ do t ← merge_overlays own.id (all_overlays p) s; merge_decls ps t
    ]
