-- ===== src/SymDump/Sources.antt =====
-- getSourceFiles and dumpSourceFile (cmd/sym_dump/output.go).
pub mod Contents
pub mod Paths
pub mod Panics
use psx_mnd_sym.Prelude.{
  ℕ, suc, List, [], ◌∷◌, ◌++◌, map, Text, codes, text_eq, Bool, true, false, ◌==◌, ◌&&◌,
  if◌then◌else◌, Option, none, some, Result, ok, err, ◌>>=◌, get_elem?, drop,
}
use psx_mnd_sym.Fmt.{hex}
use psx_mnd_sym.C.Ast.{CType, VarDecl, FuncDecl, var_decl, decl_name, decl_addr}
use psx_mnd_sym.C.Sorting.{Sorting}
use psx_mnd_sym.C.Defs.{var_def, func_def}
use psx_mnd_sym.Csym.State.{Map, lookup, insert, Panic, index_out_of_range, Overlay, Parser}
use psx_mnd_sym.Csym.Names.{unique_name, is_member}

pub record SourceFile : Type 0 where
  pub path : Text
  pub vars : List VarDecl
  pub funcs : List FuncDecl

-- `sources[srcPath]`, or a new source file.
abbrev pub source_at : Text → Map SourceFile → SourceFile
source_at path m = elim (lookup path m) [
  | none ↦ record { path = path; vars = []; funcs = [] }
  | some src ↦ src
]

unfoldable pub global_path : ℕ → Text
unfolding hex
global_path id = codes "global_" ++ (hex id ++ codes ".cpp")

-- The loop over the variables of an overlay.
unfoldable pub add_vars : ℕ → List VarDecl → Map SourceFile → Map SourceFile
unfolding global_path lookup insert
add_vars id [] m = m
add_vars id (v ∷ vs) m =
    let path = global_path id in
    let src = source_at path m in
    add_vars id vs (insert path (record src { vars = src.vars ++ v ∷ [] }) m)

-- The loop over its functions.
unfoldable pub add_funcs : List FuncDecl → Map SourceFile → Map SourceFile
unfolding lookup insert
add_funcs [] m = m
add_funcs (f ∷ fs) m =
    let src = source_at f.path m in
    add_funcs fs (insert f.path (record src { funcs = src.funcs ++ f ∷ [] }) m)

-- The loop over the overlays.
unfoldable pub add_overlays : List Overlay → Map SourceFile → Map SourceFile
unfolding add_vars add_funcs
add_overlays [] m = m
add_overlays (o ∷ os) m = add_overlays os (add_funcs o.funcs (add_vars o.id o.vars m))

-- The overlays at the places; each is one of the store.
unfoldable pub overlays_at : List Overlay → List ℕ → List Overlay
overlays_at store [] = []
overlays_at store (i ∷ places) =
    let rest = overlays_at store places in
    elim (get_elem? store i) [ none ↦ rest | some o ↦ o ∷ rest ]

-- `append(p.Overlays, p.Overlay)`
abbrev pub all_overlays : Parser → List Overlay
all_overlays p = overlays_at p.overlay_store (p.overlays ++ 0 ∷ [])

unfoldable pub source_list : Map SourceFile → List SourceFile
source_list [] = []
source_list ((path, src) ∷ m) = src ∷ source_list m

-- getSourceFiles; `less` is natsort.Less.
unfoldable pub get_source_files : Sorting → (Text → Text → Bool) → Parser → List SourceFile
unfolding add_overlays overlays_at source_list
get_source_files sorting less p =
    sorting.sort_slice (λ a b. less a.path b.path) (source_list (add_overlays (all_overlays p) []))

abbrev pub starts_with_drive : Text → Bool
starts_with_drive (b ∷ c ∷ s) = (b == 58) && (c == 47)
starts_with_drive _ = false

-- The drive letter of a path taken away; `path[1:]` panics for an empty one.
unfoldable pub strip_drive : Text → Result Panic Text
strip_drive [] = err index_out_of_range
strip_drive (b ∷ s) = ok (if starts_with_drive s then drop 3 (b ∷ s) else b ∷ s)

-- The path that dumpSourceFiles makes of that of a source file. `to_lower` is strings.ToLower, and
-- `join` filepath.Join of the output directory and a path, which cleans the path; as for the other
-- files, what it gives is named from the output directory on.
unfoldable pub output_path : (Text → Text) → (Text → Text) → Text → Result Panic Text
unfolding strip_drive
output_path to_lower join path = do
  stripped ← strip_drive (map (λ b. if b == 92 then 47 else b) (to_lower path))
  ok (join stripped)

-- The two loops over duplicate identifiers in dumpSourceFile, with the names that are taken.
unfoldable pub rename_taken_vars : List VarDecl → List Text → List VarDecl × List Text
unfolding unique_name
rename_taken_vars [] names = ([], names)
rename_taken_vars (var_decl addr size class t name ∷ vs) names =
    let name' = if is_member name names then unique_name name addr else name in
    let (ws, taken) = rename_taken_vars vs (name' ∷ names) in
    (var_decl addr size class t name' ∷ ws, taken)

unfoldable pub rename_taken_funcs : List FuncDecl → List Text → List FuncDecl × List Text
unfolding unique_name
rename_taken_funcs [] names = ([], names)
rename_taken_funcs (f ∷ fs) names =
    let name' = if is_member f.name names then unique_name f.name f.addr else f.name in
    let (gs, taken) = rename_taken_funcs fs (name' ∷ names) in
    (record f { name = name' } ∷ gs, taken)

-- `quote` is the verb %q; `leaf` is what is printed for a type that has no declarator.
module _ (quote : Text → Text) (leaf : CType → Text) where
  unfoldable pub include_line : Text
  include_line = codes "#include " ++ (quote (codes "types.h") ++ codes "\n\n")

  unfoldable pub var_defs : List VarDecl → Text
  unfolding var_def
  var_defs [] = []
  var_defs (v ∷ vs) = var_def leaf v ++ (codes ";\n\n" ++ var_defs vs)

  unfoldable pub func_defs : List FuncDecl → Text
  unfolding func_def
  func_defs [] = []
  func_defs (f ∷ fs) = func_def leaf f ++ (codes "\n\n" ++ func_defs fs)

  -- dumpSourceFile
  unfoldable pub dump_source_file : SourceFile → Text
  unfolding include_line rename_taken_vars rename_taken_funcs var_defs func_defs
  dump_source_file src =
      let (vars, names) = rename_taken_vars src.vars [] in
      let (funcs, _) = rename_taken_funcs src.funcs names in
      codes "// "
      ++ (src.path ++ (codes "\n\n" ++ (include_line ++ (var_defs vars ++ func_defs funcs))))

  module _ (to_lower join : Text → Text) where
    -- The loop of dumpSourceFiles: the files created, by path from the output directory.
    unfoldable pub dump_sources : List SourceFile → Result Panic (List (Text × Text))
    unfolding output_path dump_source_file
    dump_sources [] = ok []
    dump_sources (src ∷ srcs) = do
      path ← output_path to_lower join src.path
      files ← dump_sources srcs
      ok ((path, dump_source_file src) ∷ files)

    -- dumpSourceFiles
    unfoldable pub dump_source_files :
        Sorting → (Text → Text → Bool) → Parser → Result Panic (List (Text × Text))
    unfolding get_source_files dump_sources
    dump_source_files sorting less p = dump_sources (get_source_files sorting less p)
