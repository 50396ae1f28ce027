-- ===== src/SymDump/Sources/Contents.antt =====
-- Which declarations getSourceFiles puts in which file.
use psx_mnd_sym.Prelude.{
  ℕ, ◌≡◌, refl, sym, ap, subst, ◌∙◌, inl, inr, List, [], ◌∷◌, ◌++◌, append-nil, append_assoc, Text,
  text_eq, text_eq→eq, true, false, if◌then◌else◌, Bool-cases,
}
use psx_mnd_sym.C.Ast.{VarDecl, FuncDecl}
use psx_mnd_sym.Csym.State.{Map, lookup, insert, lookup-insert_same, Overlay}
use psx_mnd_sym.SymDump.Sources.{
  SourceFile, source_at, global_path, add_vars, add_funcs, add_overlays,
}

module _ {A : Type 0} where
  lookup-insert_other :
      (key other : Text) (a : A) (m : Map A)
      → text_eq other key ≡ false
      → lookup other (insert key a m) ≡ lookup other m
  unfolding lookup insert
  lookup-insert_other key other a [] h = rw h refl
  lookup-insert_other key other a ((k, b) ∷ m) h = elim (Bool-cases (text_eq key k)) [
    | inl e ↦
        let apart : text_eq other k ≡ false =
          subst (λ s. text_eq other s ≡ false) (text_eq→eq key k e) h in
        rw (e, apart) refl
    | inr e ↦ elim (Bool-cases (text_eq other k)) [
      | inl e' ↦ rw (e, e') refl
      | inr e' ↦ rw (e, e') (lookup-insert_other key other a m h)
    ]
  ]

abbrev pub funcs_at : Text → Map SourceFile → List FuncDecl
funcs_at path m = (source_at path m).funcs

abbrev pub vars_at : Text → Map SourceFile → List VarDecl
vars_at path m = (source_at path m).vars

-- The functions that have the path.
unfoldable pub with_path : Text → List FuncDecl → List FuncDecl
with_path path [] = []
with_path path (f ∷ fs) =
    let rest = with_path path fs in if text_eq path f.path then f ∷ rest else rest

-- The functions of all overlays that have the path, and the variables of those whose global file it is.
unfoldable pub path_funcs : Text → List Overlay → List FuncDecl
unfolding with_path
path_funcs path [] = []
path_funcs path (o ∷ os) = with_path path o.funcs ++ path_funcs path os

unfoldable pub path_vars : Text → List Overlay → List VarDecl
unfolding global_path
path_vars path [] = []
path_vars path (o ∷ os) =
    (if text_eq path (global_path o.id) then o.vars else []) ++ path_vars path os

source_at-insert_same :
    (key : Text) (src : SourceFile) (m : Map SourceFile) → source_at key (insert key src m) ≡ src
source_at-insert_same key src m = rw (source_at, lookup-insert_same key src m) refl

source_at-insert_other :
    (key other : Text) (src : SourceFile) (m : Map SourceFile)
    → text_eq other key ≡ false
    → source_at other (insert key src m) ≡ source_at other m
source_at-insert_other key other src m h =
    rw (source_at, lookup-insert_other key other src m h) refl

with_path_here :
    (path : Text) (f : FuncDecl) (fs : List FuncDecl)
    → text_eq path f.path ≡ true
    → with_path path (f ∷ fs) ≡ f ∷ with_path path fs
unfolding with_path
with_path_here path f fs e = rw e refl

with_path_elsewhere :
    (path : Text) (f : FuncDecl) (fs : List FuncDecl)
    → text_eq path f.path ≡ false
    → with_path path (f ∷ fs) ≡ with_path path fs
unfolding with_path
with_path_elsewhere path f fs e = rw e refl

-- One function more is the last of the source file of its path.
add_func-funcs :
    (path : Text) (f : FuncDecl) (m : Map SourceFile)
    → text_eq path f.path ≡ true
    → funcs_at path (add_funcs (f ∷ []) m) ≡ funcs_at path m ++ f ∷ []
unfolding add_funcs
add_func-funcs path f m e =
    let old = source_at f.path m in
    let src : SourceFile = record old { funcs = old.funcs ++ f ∷ [] } in
    subst (λ p. funcs_at p (insert f.path src m) ≡ funcs_at p m ++ f ∷ [])
      (sym (text_eq→eq path f.path e))
      (ap (λ (s : SourceFile). s.funcs) (source_at-insert_same f.path src m))

add_func_other :
    (path : Text) (f : FuncDecl) (m : Map SourceFile)
    → text_eq path f.path ≡ false
    → source_at path (add_funcs (f ∷ []) m) ≡ source_at path m
unfolding add_funcs
add_func_other path f m e =
    let old = source_at f.path m in
    source_at-insert_other f.path path (record old { funcs = old.funcs ++ f ∷ [] }) m e

add_funcs-funcs :
    (path : Text) (fs : List FuncDecl) (m : Map SourceFile)
    → funcs_at path (add_funcs fs m) ≡ funcs_at path m ++ with_path path fs
unfolding add_funcs with_path
add_funcs-funcs path [] m = sym (append-nil _)
add_funcs-funcs path (f ∷ fs) m =
    let rest = add_funcs-funcs path fs (add_funcs (f ∷ []) m) in
    elim (Bool-cases (text_eq path f.path)) [
      | inl e ↦
          rest
          ∙ ap (λ l. l ++ with_path path fs) (add_func-funcs path f m e)
          ∙ append_assoc (funcs_at path m) (f ∷ []) (with_path path fs)
          ∙ ap (λ l. funcs_at path m ++ l) (sym (with_path_here path f fs e))
      | inr e ↦
          rest
          ∙ ap (λ (src : SourceFile). src.funcs ++ with_path path fs) (add_func_other path f m e)
          ∙ ap (λ l. funcs_at path m ++ l) (sym (with_path_elsewhere path f fs e))
    ]

-- A function leaves the variables alone.
add_func-vars :
    (path : Text) (f : FuncDecl) (m : Map SourceFile)
    → vars_at path (add_funcs (f ∷ []) m) ≡ vars_at path m
unfolding add_funcs
add_func-vars path f m =
    let old = source_at f.path m in
    let src : SourceFile = record old { funcs = old.funcs ++ f ∷ [] } in
    elim (Bool-cases (text_eq path f.path)) [
      | inl e ↦
          subst (λ p. vars_at p (insert f.path src m) ≡ vars_at p m)
            (sym (text_eq→eq path f.path e))
            (ap (λ (s : SourceFile). s.vars) (source_at-insert_same f.path src m))
      | inr e ↦ ap (λ (s : SourceFile). s.vars) (source_at-insert_other f.path path src m e)
    ]

add_funcs-vars :
    (path : Text) (fs : List FuncDecl) (m : Map SourceFile)
    → vars_at path (add_funcs fs m) ≡ vars_at path m
unfolding add_funcs
add_funcs-vars path [] m = refl
add_funcs-vars path (f ∷ fs) m =
    add_funcs-vars path fs (add_funcs (f ∷ []) m) ∙ add_func-vars path f m

add_vars_here :
    (id : ℕ) (vs : List VarDecl) (m : Map SourceFile)
    → vars_at (global_path id) (add_vars id vs m) ≡ vars_at (global_path id) m ++ vs
unfolding add_vars
add_vars_here id [] m = sym (append-nil _)
add_vars_here id (v ∷ vs) m =
    let path = global_path id in
    let old = source_at path m in
    let src : SourceFile = record old { vars = old.vars ++ v ∷ [] } in
    add_vars_here id vs (insert path src m)
    ∙ ap (λ (s : SourceFile). s.vars ++ vs) (source_at-insert_same path src m)
    ∙ append_assoc old.vars (v ∷ []) vs

add_vars_elsewhere :
    (path : Text) (id : ℕ) (vs : List VarDecl) (m : Map SourceFile)
    → text_eq path (global_path id) ≡ false
    → source_at path (add_vars id vs m) ≡ source_at path m
unfolding add_vars
add_vars_elsewhere path id [] m e = refl
add_vars_elsewhere path id (v ∷ vs) m e =
    let old = source_at (global_path id) m in
    let src : SourceFile = record old { vars = old.vars ++ v ∷ [] } in
    add_vars_elsewhere path id vs (insert (global_path id) src m) e
    ∙ source_at-insert_other (global_path id) path src m e

add_vars-vars :
    (path : Text) (id : ℕ) (vs : List VarDecl) (m : Map SourceFile)
    → vars_at path (add_vars id vs m)
      ≡ vars_at path m ++ (if text_eq path (global_path id) then vs else [])
add_vars-vars path id vs m = elim (Bool-cases (text_eq path (global_path id))) [
  | inl e ↦ rw e (
      subst (λ p. vars_at p (add_vars id vs m) ≡ vars_at p m ++ vs)
        (sym (text_eq→eq path (global_path id) e)) (add_vars_here id vs m))
  | inr e ↦
      rw e
        (ap (λ (s : SourceFile). s.vars) (add_vars_elsewhere path id vs m e) ∙ sym (append-nil _))
]

add_vars-funcs :
    (path : Text) (id : ℕ) (vs : List VarDecl) (m : Map SourceFile)
    → funcs_at path (add_vars id vs m) ≡ funcs_at path m
unfolding add_vars
add_vars-funcs path id [] m = refl
add_vars-funcs path id (v ∷ vs) m =
    let old = source_at (global_path id) m in
    let src : SourceFile = record old { vars = old.vars ++ v ∷ [] } in
    let m1 = insert (global_path id) src m in
    add_vars-funcs path id vs m1 ∙ elim (Bool-cases (text_eq path (global_path id))) [
      | inl e ↦
          subst (λ p. funcs_at p m1 ≡ funcs_at p m) (sym (text_eq→eq path (global_path id) e))
            (ap (λ (s : SourceFile). s.funcs) (source_at-insert_same (global_path id) src m))
      | inr e ↦
          ap (λ (s : SourceFile). s.funcs) (source_at-insert_other (global_path id) path src m e)
    ]

-- A source file of getSourceFiles has the functions with its path, from all overlays and in their order,
-- and the variables of the overlays whose global file it is.
pub add_overlays-lem :
    (path : Text) (os : List Overlay) (m : Map SourceFile)
    → (funcs_at path (add_overlays os m) ≡ funcs_at path m ++ path_funcs path os)
      × (vars_at path (add_overlays os m) ≡ vars_at path m ++ path_vars path os)
unfolding add_overlays path_funcs path_vars
add_overlays-lem path [] m = (sym (append-nil _), sym (append-nil _))
add_overlays-lem path (o ∷ os) m =
    let m1 = add_vars o.id o.vars m in
    let (funcs, vars) = add_overlays-lem path os (add_funcs o.funcs m1) in
    let mine = if text_eq path (global_path o.id) then o.vars else [] in
    (
      funcs
          ∙ ap (λ l. l ++ path_funcs path os)
              (add_funcs-funcs path o.funcs m1
                ∙ ap (λ l. l ++ with_path path o.funcs) (add_vars-funcs path o.id o.vars m))
          ∙ append_assoc (funcs_at path m) (with_path path o.funcs) (path_funcs path os),
      vars
          ∙ ap (λ l. l ++ path_vars path os)
              (add_funcs-vars path o.funcs m1 ∙ add_vars-vars path o.id o.vars m)
          ∙ append_assoc (vars_at path m) mine (path_vars path os),
    )
