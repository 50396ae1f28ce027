-- ===== src/SymDump/Sources/Paths.antt =====
-- Source files without a path.
use psx_mnd_sym.Prelude.{
  ℕ, ◌<◌, ◌≡◌, ◌≢◌, refl, sym, ◌∙◌, inl, inr, List, [], ◌∷◌, ◌++◌, Text, text_eq, text_eq→eq, Bool,
  true, false, Bool-cases, All, arith,
}
use psx_mnd_sym.C.Ast.{VarDecl, FuncDecl}
use psx_mnd_sym.C.Sorting.{count}
use psx_mnd_sym.Csym.State.{Map, lookup, insert, Overlay}
use psx_mnd_sym.SymDump.Sources.{
  SourceFile, source_at, global_path, add_vars, add_funcs, add_overlays, source_list,
}
use psx_mnd_sym.SymDump.Sources.Contents.{funcs_at}

abbrev pub is_empty : Text → Bool
is_empty [] = true
is_empty (b ∷ s) = false

abbrev pub no_path : SourceFile → Bool
no_path src = is_empty src.path

-- All source files have a path.
abbrev pub AllPaths : Map SourceFile → Type 0
AllPaths m = All (λ (e : Text × SourceFile). no_path e.1 ≡ false) m

insert-AllPaths :
    (key : Text) (src : SourceFile) (m : Map SourceFile)
    → no_path src ≡ false
    → AllPaths m
    → AllPaths (insert key src m)
unfolding insert
insert-AllPaths key src [] h hm = (h, tt)
insert-AllPaths key src ((k, old) ∷ m) h hm = elim (Bool-cases (text_eq key k)) [
  | inl e ↦ rw e (h, hm.1)
  | inr e ↦ rw e (hm.0, insert-AllPaths key src m h hm.1)
]

source_at-has_path :
    (key : Text) (m : Map SourceFile)
    → is_empty key ≡ false
    → AllPaths m
    → no_path (source_at key m) ≡ false
unfolding lookup
source_at-has_path key [] h hm = h
source_at-has_path key ((k, old) ∷ m) h hm = elim (Bool-cases (text_eq key k)) [
  | inl e ↦ rw (source_at, e) hm.0
  | inr e ↦ rw (source_at, e) (source_at-has_path key m h hm.1)
]

add_vars-AllPaths :
    (id : ℕ) (vs : List VarDecl) (m : Map SourceFile) → AllPaths m → AllPaths (add_vars id vs m)
unfolding add_vars
add_vars-AllPaths id [] m h = h
add_vars-AllPaths id (v ∷ vs) m h =
    let path = global_path id in
    let old = source_at path m in
    let src : SourceFile = record old { vars = old.vars ++ v ∷ [] } in
    add_vars-AllPaths id vs (insert path src m)
      (insert-AllPaths path src m (source_at-has_path path m refl h) h)

-- All functions have a path.
abbrev pub HavePaths : List FuncDecl → Type 0
HavePaths fs = All (λ (f : FuncDecl). f.path ≢ []) fs

not_empty : (s : Text) → s ≢ [] → is_empty s ≡ false
not_empty [] h = absurd (h refl)
not_empty (b ∷ s) h = refl

add_funcs-AllPaths :
    (fs : List FuncDecl) (m : Map SourceFile)
    → HavePaths fs
    → AllPaths m
    → AllPaths (add_funcs fs m)
unfolding add_funcs
add_funcs-AllPaths [] m hf h = h
add_funcs-AllPaths (f ∷ fs) m hf h =
    let old = source_at f.path m in
    let src : SourceFile = record old { funcs = old.funcs ++ f ∷ [] } in
    add_funcs-AllPaths fs (insert f.path src m) hf.1
      (insert-AllPaths f.path src m (source_at-has_path f.path m (not_empty f.path hf.0) h) h)

pub add_overlays-AllPaths :
    (os : List Overlay) (m : Map SourceFile)
    → All (λ (o : Overlay). HavePaths o.funcs) os
    → AllPaths m
    → AllPaths (add_overlays os m)
unfolding add_overlays
add_overlays-AllPaths [] m ho h = h
add_overlays-AllPaths (o ∷ os) m ho h =
    add_overlays-AllPaths os (add_funcs o.funcs (add_vars o.id o.vars m)) ho.1
      (add_funcs-AllPaths o.funcs (add_vars o.id o.vars m) ho.0 (add_vars-AllPaths o.id o.vars m h))

pub count-AllPaths : (m : Map SourceFile) → AllPaths m → count no_path (source_list m) ≡ 0
unfolding source_list
count-AllPaths [] h = refl
count-AllPaths ((k, src) ∷ m) h = rw h.0 (omega (arith, count-AllPaths m h.1))

-- The source file of the empty path has that path, and it is in the list.
abbrev pub IsKeyed : Map SourceFile → Type 0
IsKeyed m = All (λ (e : Text × SourceFile). e.1.path ≡ e.0) m

insert-IsKeyed :
    (key : Text) (src : SourceFile) (m : Map SourceFile)
    → src.path ≡ key
    → IsKeyed m
    → IsKeyed (insert key src m)
unfolding insert
insert-IsKeyed key src [] h hm = (h, tt)
insert-IsKeyed key src ((k, old) ∷ m) h hm = elim (Bool-cases (text_eq key k)) [
  | inl e ↦ rw e (h ∙ text_eq→eq key k e, hm.1)
  | inr e ↦ rw e (hm.0, insert-IsKeyed key src m h hm.1)
]

source_at-path : (key : Text) (m : Map SourceFile) → IsKeyed m → (source_at key m).path ≡ key
unfolding lookup
source_at-path key [] hm = refl
source_at-path key ((k, old) ∷ m) hm = elim (Bool-cases (text_eq key k)) [
  | inl e ↦ rw (source_at, e) (hm.0 ∙ sym (text_eq→eq key k e))
  | inr e ↦ rw (source_at, e) (source_at-path key m hm.1)
]

add_vars-IsKeyed :
    (id : ℕ) (vs : List VarDecl) (m : Map SourceFile) → IsKeyed m → IsKeyed (add_vars id vs m)
unfolding add_vars
add_vars-IsKeyed id [] m h = h
add_vars-IsKeyed id (v ∷ vs) m h =
    let path = global_path id in
    let old = source_at path m in
    let src : SourceFile = record old { vars = old.vars ++ v ∷ [] } in
    add_vars-IsKeyed id vs (insert path src m)
      (insert-IsKeyed path src m (source_at-path path m h) h)

add_funcs-IsKeyed : (fs : List FuncDecl) (m : Map SourceFile) → IsKeyed m → IsKeyed (add_funcs fs m)
unfolding add_funcs
add_funcs-IsKeyed [] m h = h
add_funcs-IsKeyed (f ∷ fs) m h =
    let old = source_at f.path m in
    let src : SourceFile = record old { funcs = old.funcs ++ f ∷ [] } in
    add_funcs-IsKeyed fs (insert f.path src m)
      (insert-IsKeyed f.path src m (source_at-path f.path m h) h)

pub add_overlays-IsKeyed :
    (os : List Overlay) (m : Map SourceFile) → IsKeyed m → IsKeyed (add_overlays os m)
unfolding add_overlays
add_overlays-IsKeyed [] m h = h
add_overlays-IsKeyed (o ∷ os) m h =
    add_overlays-IsKeyed os (add_funcs o.funcs (add_vars o.id o.vars m))
      (add_funcs-IsKeyed o.funcs (add_vars o.id o.vars m) (add_vars-IsKeyed o.id o.vars m h))

pub count_empty :
    (m : Map SourceFile) → IsKeyed m → funcs_at [] m ≢ [] → 0 < count no_path (source_list m)
unfolding lookup source_list text_eq
count_empty [] h some_there = absurd (some_there refl)
count_empty (([], src) ∷ m) h some_there = rw h.0 (omega arith)
count_empty ((b ∷ k, src) ∷ m) h some_there = ground (arith, count_empty m h.1 some_there)
