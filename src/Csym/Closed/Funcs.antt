-- ===== src/Csym/Closed/Funcs.antt =====
-- The parts of parseFunc (csym/parse_decls.go), and the stores that the types of a function lead to.
use psx_mnd_sym.Prelude.{
  All-each, ℕ, ◌≡◌, refl, inl, inr, List, [], ◌∷◌, text_eq, All, get_elem?, Bool-cases,
  Option-cases,
}
use psx_mnd_sym.C.Ast.{
  CType, Params, VarDecl, Block, FuncDecl, nil, cons, func, base, decl_name, nil_type, struct_ref,
  union_ref, enum_ref, def_ref, pointer, array,
}
use psx_mnd_sym.Csym.State.{Overlay}
use psx_mnd_sym.Csym.Tagged.Contents.{All-at, All-set}
use psx_mnd_sym.Csym.Funcs.{FuncState, add_local, add_param, param_type, change_block, declare}
use psx_mnd_sym.Csym.Closed.{
  Sizes, Fits, IsWithin, AreWithin, DeclWithin, IsWithin-larger, defs-larger,
}

abbrev pub BlockWithin : Sizes → Block → Type 0
BlockWithin n b = All (DeclWithin n) b.locals

abbrev pub FuncWithin : Sizes → FuncDecl → Type 0
FuncWithin n f = IsWithin n f.type × All (BlockWithin n) f.blocks

abbrev pub OverlayWithin : Sizes → Overlay → Type 0
OverlayWithin n o = All (DeclWithin n) o.vars × All (FuncWithin n) o.funcs

module _ (n k : Sizes) (larger : Fits n k) where
  blocks-larger : (bs : List Block) → All (BlockWithin n) bs → All (BlockWithin k) bs
  blocks-larger bs h =
      All-each (BlockWithin n) (BlockWithin k) bs (λ b. defs-larger n k larger b.locals) h

  pub FuncWithin-larger : (f : FuncDecl) → FuncWithin n f → FuncWithin k f
  FuncWithin-larger f h = (IsWithin-larger n k larger f.type h.0, blocks-larger f.blocks h.1)

  pub OverlayWithin-larger : (o : Overlay) → OverlayWithin n o → OverlayWithin k o
  OverlayWithin-larger o h = (
    defs-larger n k larger o.vars h.0,
    All-each (FuncWithin n) (FuncWithin k) o.funcs FuncWithin-larger h.1,
  )

add_local-All :
    (n : Sizes) (vs : List VarDecl) (v : VarDecl)
    → All (DeclWithin n) vs
    → DeclWithin n v
    → All (DeclWithin n) (add_local vs v)
unfolding add_local
add_local-All n [] v h hv = (hv, tt)
add_local-All n (w ∷ vs) v h hv = elim (Bool-cases (text_eq (decl_name w) (decl_name v))) [
  | inl e ↦ rw (add_local, e) h
  | inr e ↦ rw (add_local, e) (h.0, add_local-All n vs v h.1 hv)
]

add_param-AreWithin :
    (n : Sizes) (ps : Params) (v : VarDecl)
    → AreWithin n ps
    → DeclWithin n v
    → AreWithin n (add_param ps v)
unfolding add_param
add_param-AreWithin n nil v h hv = (hv, tt)
add_param-AreWithin n (cons w ps) v h hv = elim (Bool-cases (text_eq (decl_name w) (decl_name v))) [
  | inl e ↦ rw (add_param, e) h
  | inr e ↦ rw (add_param, e) (h.0, add_param-AreWithin n ps v h.1 hv)
]

param_type-IsWithin :
    (n : Sizes) (t : CType) (v : VarDecl)
    → IsWithin n t
    → DeclWithin n v
    → IsWithin n (param_type t v)
param_type-IsWithin n (func r ps variadic) v h hv = (h.0, add_param-AreWithin n ps v h.1 hv)
param_type-IsWithin n nil_type v h hv = h
param_type-IsWithin n (base b) v h hv = h
param_type-IsWithin n (struct_ref i) v h hv = h
param_type-IsWithin n (union_ref i) v h hv = h
param_type-IsWithin n (enum_ref i) v h hv = h
param_type-IsWithin n (def_ref i) v h hv = h
param_type-IsWithin n (pointer t) v h hv = h
param_type-IsWithin n (array t len) v h hv = h

pub change_block-FuncWithin :
    (n : Sizes) (g : Block → Block) (i : ℕ) (f : FuncDecl)
    → ((b : Block) → BlockWithin n b → BlockWithin n (g b))
    → FuncWithin n f
    → FuncWithin n (change_block g i f)
change_block-FuncWithin n g i f keeps h = elim (Option-cases (get_elem? f.blocks i)) [
  | inl e ↦ rw (change_block, e) h
  | inr (b, e) ↦
      rw (change_block, e)
        (
          h.0,
          All-set (BlockWithin n) f.blocks i (g b) h.1
              (keeps b (All-at (BlockWithin n) f.blocks i b h.1 e)),
        )
]

pub declare-FuncWithin :
    (n : Sizes) (v : VarDecl) (st : FuncState)
    → DeclWithin n v
    → FuncWithin n st.f
    → FuncWithin n (declare v st).f
unfolding declare
declare-FuncWithin n v st hv h = elim (Option-cases st.cur_block) [
  | inl e ↦ rw (declare, e) (param_type-IsWithin n st.f.type v h.0 hv, h.1)
  | inr (i, e) ↦
      rw (declare, e)
        (change_block-FuncWithin n (λ b. record b { locals = add_local b.locals v }) i st.f
          (λ b hb. add_local-All n b.locals v hb hv) h)
]

pub declare-info : (v : VarDecl) (st : FuncState) → (declare v st).info ≡ st.info
unfolding declare
declare-info v st = elim (Option-cases st.cur_block) [
  | inl e ↦ rw (declare, e) refl
  | inr (i, e) ↦ rw (declare, e) refl
]
