-- ===== src/SymDump/Sources/Panics.antt =====
-- When dumpSourceFiles panics.
use psx_mnd_sym.Prelude.{
  ℕ, ◌<◌, ◌≡◌, ◌≢◌, refl, sym, ap, subst, ◌∙◌, ◌⊎◌, ◌==◌, inl, inr, List, [], ◌∷◌, ◌++◌, map, Text,
  text_eq, if-eq_cases, Bool, true, false, if◌then◌else◌, Result, ok, err, ◌>>=◌, ok-next, err-next,
  All, arith,
}
use psx_mnd_sym.C.Ast.{CType, FuncDecl}
use psx_mnd_sym.C.Sorting.{Sorting, count}
use psx_mnd_sym.Csym.State.{Panic, index_out_of_range, Overlay, Parser}
use psx_mnd_sym.SymDump.Sources.{
  SourceFile, add_overlays, all_overlays, source_list, get_source_files, strip_drive, output_path,
  dump_sources, dump_source_files,
}
use psx_mnd_sym.SymDump.Sources.Contents.{with_path, path_funcs, add_overlays-lem}
use psx_mnd_sym.SymDump.Sources.Paths.{
  is_empty, no_path, HavePaths, add_overlays-AllPaths, count-AllPaths, add_overlays-IsKeyed,
  count_empty,
}

-- What is used of strings.ToLower: it keeps the empty string, and makes no other empty.
abbrev pub KeepsEmpty : (Text → Text) → Type 0
KeepsEmpty to_lower =
    (to_lower [] ≡ []) × ((b : ℕ) (s : Text) → is_empty (to_lower (b ∷ s)) ≡ false)

map-is_empty : (f : ℕ → ℕ) (s : Text) → is_empty s ≡ false → is_empty (map f s) ≡ false
map-is_empty f [] h = h
map-is_empty f (b ∷ s) h = refl

List-cases : {A : Type 0} (xs : List A) → (xs ≡ []) ⊎ (xs ≢ [])
List-cases [] = inl refl
List-cases (x ∷ xs) = inr (λ e. cc)

left_empty : {A : Type 0} (xs ys : List A) → (xs ++ ys) ≡ [] → (xs ≡ []) × (ys ≡ [])
left_empty [] ys e = (refl, e)
left_empty (x ∷ xs) ys e = cc

with_path-HavePaths : (fs : List FuncDecl) → with_path [] fs ≡ [] → HavePaths fs
unfolding with_path text_eq
with_path-HavePaths [] e = tt
with_path-HavePaths (f ∷ fs) e =
    elim (if-eq_cases (text_eq [] f.path) {x = f ∷ with_path [] fs} {y = with_path [] fs} e) [
      | inl (_, some_there) ↦ cc
      | inr (other, rest) ↦ (
        λ q. let wrong : true ≡ false = subst (λ t. text_eq [] t ≡ false) q other in cc,
        with_path-HavePaths fs rest,
      )
    ]

path_funcs-HavePaths :
    (os : List Overlay) → path_funcs [] os ≡ [] → All (λ (o : Overlay). HavePaths o.funcs) os
unfolding path_funcs
path_funcs-HavePaths [] e = tt
path_funcs-HavePaths (o ∷ os) e =
    let (here, rest) = left_empty (with_path [] o.funcs) (path_funcs [] os) e in
    (with_path-HavePaths o.funcs here, path_funcs-HavePaths os rest)

strip_drive-some : (s : Text) → is_empty s ≡ false → (path : Text) × (strip_drive s ≡ ok path)
unfolding strip_drive
strip_drive-some [] h = cc
strip_drive-some (b ∷ s) h = (_, refl)

module _ (to_lower join : Text → Text) (keeps : KeepsEmpty to_lower) where
  output_path-cases :
      (s : Text)
      → ((is_empty s ≡ true) × (output_path to_lower join s ≡ err index_out_of_range))
        ⊎ ((is_empty s ≡ false) × ((path : Text) × (output_path to_lower join s ≡ ok path)))
  unfolding output_path
  output_path-cases [] = inl (
    refl,
    ap (λ t. strip_drive (map (λ b. if b == 92 then 47 else b) t) >>= λ q. ok (join q)) keeps.0,
  )
  output_path-cases (b ∷ s) =
      let slashed = map (λ c. if c == 92 then 47 else c) (to_lower (b ∷ s)) in
      let (path, here) =
        strip_drive-some slashed (map-is_empty _ (to_lower (b ∷ s)) (keeps.1 b s)) in
      inr (refl, (join path, ok-next (strip_drive slashed) _ here))

  module _ (quote : Text → Text) (leaf : CType → Text) where
    abbrev dumped : List SourceFile → Result Panic (List (Text × Text))
    dumped srcs = dump_sources quote leaf to_lower join srcs

    dump_sources-cases :
        (srcs : List SourceFile)
        → ((count no_path srcs ≡ 0) × ((files : List (Text × Text)) × (dumped srcs ≡ ok files)))
          ⊎ ((0 < count no_path srcs) × (dumped srcs ≡ err index_out_of_range))
    unfolding dump_sources
    dump_sources-cases [] = inl (refl, ([], refl))
    dump_sources-cases (src ∷ srcs) = elim (output_path-cases src.path) [
      | inl (e, fails) ↦
          inr (rw e (omega arith), err-next (output_path to_lower join src.path) _ fails)
      | inr (e, (path, here)) ↦ elim (dump_sources-cases srcs) [
        | inl (none_left, (files, rest)) ↦ inl (
          rw e (omega (arith, none_left)),
          (_, ok-next (output_path to_lower join src.path) _ here ∙ ok-next (dumped srcs) _ rest),
        )
        | inr (some_left, fails) ↦ inr (
          rw e (omega (arith, some_left)),
          ok-next (output_path to_lower join src.path) _ here ∙ err-next (dumped srcs) _ fails,
        )
      ]
    ]

    -- Either every function of the overlays has a path, and dumpSourceFiles returns the files to write, or one
    -- has none, and it panics with an index out of range.
    pub dump_source_files-cases :
        (sorting : Sorting) (less : Text → Text → Bool) (p : Parser)
        → ((path_funcs [] (all_overlays p) ≡ [])
            × ((files : List (Text × Text)) × (dump_source_files quote leaf to_lower join sorting
                    less p
                  ≡ ok files)))
          ⊎ ((path_funcs [] (all_overlays p) ≢ [])
              × (dump_source_files quote leaf to_lower join sorting less p
                  ≡ err index_out_of_range))
    unfolding dump_source_files get_source_files
    dump_source_files-cases sorting less p =
        let os = all_overlays p in
        let m = add_overlays os [] in
        let srcs = get_source_files sorting less p in
        let same : count no_path srcs ≡ count no_path (source_list m) =
          sorting.count-sort_slice (λ (a : SourceFile) (b : SourceFile). less a.path b.path) no_path
            (source_list m) in
        elim (List-cases (path_funcs [] os)) [
          | inl none_there ↦
              let paths = add_overlays-AllPaths os [] (path_funcs-HavePaths os none_there) tt in
              elim (dump_sources-cases srcs) [
                | inl (_, returns) ↦ inl (none_there, returns)
                | inr (some_left, _) ↦
                    absurd (omega (arith, same, count-AllPaths m paths, some_left))
              ]
          | inr pathless ↦
              let there = subst (λ fs. fs ≢ []) (sym ((add_overlays-lem [] os []).0)) pathless in
              elim (dump_sources-cases srcs) [
                | inl (none_left, _) ↦ absurd (
                    omega
                      (arith, same, none_left, count_empty m (add_overlays-IsKeyed os [] tt) there))
                | inr (_, panics) ↦ inr (pathless, panics)
              ]
        ]
