-- ===== src/Tests/DumpRuns.antt =====
-- The output of sym_dump at small concrete inputs.
use psx_mnd_sym.Prelude.{
  ℕ, ◌≡◌, ◌≢◌, ◌⊎◌, refl, List, [], ◌∷◌, Text, codes, text_eq, arith, false, ok, err,
}
use psx_mnd_sym.C.Ast.{StructType, CType, VarDecl, var_decl, base, int, func, nil, extern, FuncDecl}
use psx_mnd_sym.C.Leaf.{type_leaf}
use psx_mnd_sym.Csym.State.{
  Map, lookup, Overlay, Parser, new_parser, new_overlay, index_out_of_range,
}
use psx_mnd_sym.SymDump.Sources.{overlays_at, all_overlays, add_overlays, dump_source_files}
use psx_mnd_sym.SymDump.Sources.Contents.{
  funcs_at, vars_at, path_funcs, path_vars, add_overlays-lem,
}
use psx_mnd_sym.SymDump.Sources.Panics.{dump_source_files-cases}
use psx_mnd_sym.SymDump.Output.{dump_decls}
use psx_mnd_sym.SymDump.Output.Headers.{AllDiffer, paths, dump_decls-differ}
use psx_mnd_sym.SymDump.Merge.{Merge, add_unique_structs, add_unique_unions, add_unique_enums}
use psx_mnd_sym.SymDump.Merge.Once.{filed, IsFiled, add_unique_types-IsFiled}
use psx_mnd_sym.Tests.Sort.{inserting}

abbrev function : Text → Text → FuncDecl
function path name = record {
  path = path;
  addr = 65536;
  size = 8;
  line_start = 1;
  line_end = 2;
  type = func (base int) nil false;
  name = name;
  blocks = [];
}

abbrev score : VarDecl
score = var_decl 4096 4 extern (base int) (codes "score")

abbrev resident : Overlay
resident = record (new_overlay 0 0 0) {
  vars = score ∷ [];
  funcs = function (codes "C:\\MAIN.C") (codes "main") ∷ function [] (codes "sqrt") ∷ [];
}

-- Two overlays, and a function that is only declared, so that it has no path.
abbrev game : Parser
game = record new_parser {
  overlay_store = resident ∷ new_overlay 8192 3 64 ∷ new_overlay 8192 10 64 ∷ [];
  overlays = 1 ∷ 2 ∷ [];
}

abbrev leaf : CType → Text
leaf = type_leaf 1 (record { structs = []; unions = []; enums = []; defs = [] })

add_overlays-lem_example :
    (funcs_at (codes "C:\\MAIN.C") (add_overlays (resident ∷ []) [])
      ≡ function (codes "C:\\MAIN.C") (codes "main") ∷ [])
    × (vars_at (codes "C:\\MAIN.C") (add_overlays (resident ∷ []) []) ≡ [])
unfolding path_funcs path_vars text_eq lookup
add_overlays-lem_example = add_overlays-lem (codes "C:\\MAIN.C") (resident ∷ []) []

dump_source_files-cases_example :
    ((path_funcs [] (all_overlays game) ≡ [])
      × ((files : List (Text × Text)) × (dump_source_files
              (λ s. s)
              leaf
              (λ s. s)
              (λ s. s)
              inserting
              (λ s t. false)
              game
            ≡ ok files)))
    ⊎ ((path_funcs [] (all_overlays game) ≢ [])
        × (dump_source_files (λ s. s) leaf (λ s. s) (λ s. s) inserting (λ s t. false) game
            ≡ err index_out_of_range))
dump_source_files-cases_example =
    dump_source_files-cases (λ s. s) (λ s. s) (refl, λ b s. refl) (λ s. s) leaf inserting
      (λ s t. false) game

dump_decls-differ_example : AllDiffer (paths (dump_decls (λ s. s) leaf game))
unfolding overlays_at
dump_decls-differ_example =
    dump_decls-differ (λ s. s) leaf game (((λ e. absurd (omega arith)), tt), (tt, tt))

-- The structs of the first parser, one of them with a fake tag.
abbrev to_merge : Merge StructType
to_merge = record {
  store =
      record { size = 4; tag = codes "Point"; fields = []; methods = [] }
      ∷ record { size = 8; tag = codes ".1fake"; fields = []; methods = [] }
      ∷ [];
  fake_count = 0;
  present = [];
  tags = [];
  order = [];
}

abbrev slices : Map (List ℕ)
slices = (codes "Point", 0 ∷ []) ∷ (codes ".1fake", 1 ∷ []) ∷ []

abbrev nothing : {T : Type 0} → Merge T
nothing = record { store = []; fake_count = 0; present = []; tags = []; order = [] }

add_unique_types-IsFiled_example :
    IsFiled (add_unique_structs (λ _. leaf) 0 slices to_merge)
    × IsFiled (add_unique_unions (λ _. leaf) 0 slices nothing)
    × IsFiled (add_unique_enums inserting (λ s. s) 0 slices nothing)
unfolding filed
add_unique_types-IsFiled_example =
    add_unique_types-IsFiled inserting (λ s. s) (λ _. leaf) (λ _. leaf) 0 slices to_merge nothing
      nothing (λ p. refl) (λ p. refl) (λ p. refl)
