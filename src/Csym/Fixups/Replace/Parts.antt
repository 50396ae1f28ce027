-- ===== src/Csym/Fixups/Replace/Parts.antt =====
-- What is left behind of the declarations, fields, functions and overlays that are gone through.
use psx_mnd_sym.Prelude.{ℕ, ◌≡◌, List, [], ◌∷◌, ok, >>=-steps, All}
use psx_mnd_sym.C.Ast.{VarDecl, Field, StructType, UnionType, Block, FuncDecl}
use psx_mnd_sym.Csym.State.{Overlay}
use psx_mnd_sym.Csym.Fixups.Replace.{
  Remap, Visit, var_type, decl_types, decls_types, fields_types, blocks_types, funcs_types,
  overlay_types,
}
use psx_mnd_sym.Csym.Fixups.Replace.Avoid.{
  Avoids, DeclAvoids, FieldHolds, Improves_refl, Improves_trans, IsClean,
}
use psx_mnd_sym.Csym.Fixups.Replace.Within.{
  VisitImproves, Leaves, leaves, var_type-Avoids, decl_types-Avoids,
}

module _ (r : Remap) where
  abbrev pub FieldAvoids : Field → Type 0
  FieldAvoids f = Avoids r f.type

  abbrev pub StructAvoids : StructType → Type 0
  StructAvoids t = All FieldAvoids t.fields × All FieldAvoids t.methods

  abbrev pub BlockAvoids : Block → Type 0
  BlockAvoids b = All (DeclAvoids r) b.locals

  abbrev pub FuncAvoids : FuncDecl → Type 0
  FuncAvoids f = Avoids r f.type × All BlockAvoids f.blocks

  abbrev pub OverlayAvoids : Overlay → Type 0
  OverlayAvoids o = All (DeclAvoids r) o.vars × All FuncAvoids o.funcs

  -- All fields of the union at a place have such types.
  abbrev pub UnionAvoids : List UnionType → ℕ → Type 0
  UnionAvoids us i = (k : ℕ) → FieldHolds r us i k

  module _ (clean : IsClean r) (visit : Visit) (improves : VisitImproves r visit) where
    decls_types-Avoid :
        (vs : List VarDecl) (us : List UnionType) (result : List VarDecl × List UnionType)
        → decls_types r visit vs us ≡ ok result
        → Leaves r visit (All (DeclAvoids r)) us result
    unfolding decls_types
    decls_types-Avoid [] us result e =
        leaves r visit (All (DeclAvoids r)) us ([], us) result (tt, Improves_refl r us) e
    decls_types-Avoid (v ∷ vs) us result e =
        let ((w, us1), first, rest) = >>=-steps (decl_types r visit v us) _ e in
        let ((ws, us2), second, returned) = >>=-steps (decls_types r visit vs us1) _ rest in
        let (avoids, better) = decl_types-Avoids r visit improves clean v us (w, us1) first in
        let (avoid, best) = decls_types-Avoid vs us1 (ws, us2) second in
        leaves r visit (All (DeclAvoids r)) us (w ∷ ws, us2) result
          ((avoids, avoid), Improves_trans r better best) returned

    pub fields_types-Avoid :
        (fs : List Field) (us : List UnionType) (result : List Field × List UnionType)
        → fields_types r visit fs us ≡ ok result
        → Leaves r visit (All FieldAvoids) us result
    unfolding fields_types
    fields_types-Avoid [] us result e =
        leaves r visit (All FieldAvoids) us ([], us) result (tt, Improves_refl r us) e
    fields_types-Avoid (f ∷ fs) us result e =
        let ((t, us1), first, rest) = >>=-steps (var_type r visit f.type us) _ e in
        let ((gs, us2), second, returned) = >>=-steps (fields_types r visit fs us1) _ rest in
        let (avoids, better) = var_type-Avoids r visit improves clean f.type us (t, us1) first in
        let (avoid, best) = fields_types-Avoid fs us1 (gs, us2) second in
        leaves r visit (All FieldAvoids) us (record f { type = t } ∷ gs, us2) result
          ((avoids, avoid), Improves_trans r better best) returned

    blocks_types-Avoid :
        (bs : List Block) (us : List UnionType) (result : List Block × List UnionType)
        → blocks_types r visit bs us ≡ ok result
        → Leaves r visit (All BlockAvoids) us result
    unfolding blocks_types
    blocks_types-Avoid [] us result e =
        leaves r visit (All BlockAvoids) us ([], us) result (tt, Improves_refl r us) e
    blocks_types-Avoid (b ∷ bs) us result e =
        let ((vs, us1), first, rest) = >>=-steps (decls_types r visit b.locals us) _ e in
        let ((cs, us2), second, returned) = >>=-steps (blocks_types r visit bs us1) _ rest in
        let (avoids, better) = decls_types-Avoid b.locals us (vs, us1) first in
        let (avoid, best) = blocks_types-Avoid bs us1 (cs, us2) second in
        leaves r visit (All BlockAvoids) us (record b { locals = vs } ∷ cs, us2) result
          ((avoids, avoid), Improves_trans r better best) returned

    funcs_types-Avoid :
        (fs : List FuncDecl) (us : List UnionType) (result : List FuncDecl × List UnionType)
        → funcs_types r visit fs us ≡ ok result
        → Leaves r visit (All FuncAvoids) us result
    unfolding funcs_types
    funcs_types-Avoid [] us result e =
        leaves r visit (All FuncAvoids) us ([], us) result (tt, Improves_refl r us) e
    funcs_types-Avoid (f ∷ fs) us result e =
        let ((t, us1), first, rest) = >>=-steps (var_type r visit f.type us) _ e in
        let ((bs, us2), second, rest') = >>=-steps (blocks_types r visit f.blocks us1) _ rest in
        let ((gs, us3), third, returned) = >>=-steps (funcs_types r visit fs us2) _ rest' in
        let (avoids, good) = var_type-Avoids r visit improves clean f.type us (t, us1) first in
        let (inside, better) = blocks_types-Avoid f.blocks us1 (bs, us2) second in
        let (avoid, best) = funcs_types-Avoid fs us2 (gs, us3) third in
        leaves r visit (All FuncAvoids) us (record f { type = t; blocks = bs } ∷ gs, us3) result
          (((avoids, inside), avoid), Improves_trans r good (Improves_trans r better best)) returned

    pub overlay_types-Avoids :
        (o : Overlay) (us : List UnionType) (result : Overlay × List UnionType)
        → overlay_types r visit o us ≡ ok result
        → Leaves r visit OverlayAvoids us result
    unfolding overlay_types
    overlay_types-Avoids o us result e =
        let ((vs, us1), first, rest) = >>=-steps (decls_types r visit o.vars us) _ e in
        let ((fs, us2), second, returned) = >>=-steps (funcs_types r visit o.funcs us1) _ rest in
        let (vars, better) = decls_types-Avoid o.vars us (vs, us1) first in
        let (funcs, best) = funcs_types-Avoid o.funcs us1 (fs, us2) second in
        leaves r visit OverlayAvoids us (record o { vars = vs; funcs = fs }, us2) result
          ((vars, funcs), Improves_trans r better best) returned
