-- ===== src/Tests/MainRuns.antt =====
-- pruneDuplicates and main of sym_dump at small concrete inputs.
use psx_mnd_sym.Prelude.{
  ℕ, ◌≡◌, refl, [], ◌∷◌, ◌++◌, Text, text_eq, codes, Bool, true, false, ok, err,
}
use psx_mnd_sym.Sym.File.{parse_bytes, parse_symbol, switch}
use psx_mnd_sym.C.Ast.{CType, VarDecl, var_decl, base, int, func, nil, extern, FuncDecl}
use psx_mnd_sym.C.Leaf.{TypeStore, type_leaf}
use psx_mnd_sym.Csym.State.{Overlay, Parser, new_parser, new_overlay, index_out_of_range}
use psx_mnd_sym.SymDump.Prune.{prune_duplicates}
use psx_mnd_sym.SymDump.Prune.Once.{IsMergeOf, prune_duplicates-IsMergeOf}
use psx_mnd_sym.SymDump.Main.{Flags, Library, World, no_stores, panics, main}
use psx_mnd_sym.SymDump.Main.Merging.{main-merge_panics}
use psx_mnd_sym.SymDump.Main.Emptied.{main-last}
use psx_mnd_sym.Tests.Reader.{reader, read_from}
use psx_mnd_sym.Tests.Sort.{inserting, insertion_sort}

abbrev function : ℕ → Text → FuncDecl
function addr name = record {
  path = codes "MAIN.C";
  addr = addr;
  size = 8;
  line_start = addr;
  line_end = addr;
  type = func (base int) nil false;
  name = name;
  blocks = [];
}

abbrev variable : ℕ → Text → VarDecl
variable addr name = var_decl addr 4 extern (base int) name

abbrev first_resident : Overlay
first_resident = record (new_overlay 0 0 0) {
  vars = variable 4096 (codes "score") ∷ [];
  funcs = function 65536 (codes "main") ∷ [];
}

abbrev second_resident : Overlay
second_resident = record (new_overlay 0 0 0) {
  vars = variable 5120 (codes "score") ∷ [];
  funcs = function 65600 (codes "main") ∷ function 65700 (codes "exit") ∷ [];
}

-- A parser of a file that declares two variables and a function, one of the variables in an overlay.
abbrev first : Parser
first = record new_parser {
  overlay_store =
      first_resident
      ∷ record (new_overlay 8192 3 64) { vars = variable 8192 (codes "level") ∷ [] }
      ∷ [];
  overlays = 1 ∷ [];
}

-- Another has the variable `score` and the function `main` at other addresses, and one more function.
abbrev second : Parser
second = record new_parser { overlay_store = second_resident ∷ [] }

abbrev leaf : TypeStore → CType → Text
leaf st = type_leaf 1 st

abbrev less : Text → Text → Bool
less s t = false

-- The second file adds one function.
merged :
    prune_duplicates inserting (λ s. s) less leaf true true no_stores (first ∷ second ∷ [])
    ≡ ok (record first {
      overlay_store =
          record (new_overlay 0 0 0) {
            vars = variable 4096 (codes "score") ∷ [];
            funcs = function 65536 (codes "main") ∷ function 65700 (codes "exit") ∷ [];
          }
          ∷ record (new_overlay 0 3 0) { vars = variable 8192 (codes "level") ∷ [] }
          ∷ [];
    })
unfolding prune_duplicates insertion_sort type_leaf
merged = refl

prune_duplicates-IsMergeOf_example :
    (q : Parser) × (prune_duplicates inserting
        (λ s. s)
        less
        leaf
        true
        true
        no_stores
        (first ∷ second ∷ [])
      ≡ ok q)
    × IsMergeOf inserting (λ s. s) less leaf true true (first ∷ second ∷ []) q
prune_duplicates-IsMergeOf_example =
    prune_duplicates-IsMergeOf inserting (λ s. s) less leaf true true no_stores first (second ∷ [])
      ((first_resident, refl, refl), ((second_resident, refl, refl), tt))

abbrev library : Library
library = record {
  struc = reader;
  sorting = inserting;
  align = λ s. s;
  less = less;
  quote = λ s. s;
  to_lower = λ s. s;
  join = λ s. s;
  recovered = λ x. codes "%!v(PANIC=String method)";
  equal = λ p r r'. false;
}

abbrev merge_only : Flags
merge_only = record {
  output_c = false;
  output_dir = codes "out";
  output_ida = false;
  merge = true;
  split_src = false;
  output_types = false;
}

-- A file with no symbols.
abbrev empty_file : Text
empty_file = codes "MND" ++ 1 ∷ 0 ∷ 0 ∷ 0 ∷ 0 ∷ []

main-merge_panics_example :
    main library 1 1 merge_only (empty_file ∷ empty_file ∷ []) [] ≡ err (panics index_out_of_range)
unfolding parse_bytes read_from text_eq parse_symbol
main-merge_panics_example =
    main-merge_panics library 1 1 merge_only (empty_file ∷ empty_file ∷ []) [] (refl, refl, refl)
      refl ((_, ([], refl)), ((_, ([], refl)), tt))

abbrev c_flags : Flags
c_flags = record {
  output_c = true;
  output_dir = codes "_dump_";
  output_ida = false;
  merge = false;
  split_src = false;
  output_types = false;
}

-- An external variable `hp` of type int at the address 16.
abbrev variable_file : Text
variable_file =
    empty_file ++ 16 ∷ 0 ∷ 0 ∷ 0 ∷ 0x94 ∷ 2 ∷ 0 ∷ 4 ∷ 0 ∷ 4 ∷ 0 ∷ 0 ∷ 0 ∷ 2 ∷ 104 ∷ 112 ∷ []

abbrev written : World
written = record {
  files =
      (codes "types.h", codes "typedef int bool;\n\nstruct __vtbl_ptr_type {\n};\n\n")
      ∷ (
        codes "decls.h",
        codes "#include types.h\n\n// address: 0x00000010\n// size: 0x4\nextern int hp;\n\n",
      )
      ∷ [];
  listing = [];
  parsers = [];
}

writes : main library 1 1 c_flags (empty_file ∷ variable_file ∷ []) [] ≡ ok written
unfolding main read_from parse_symbol insertion_sort type_leaf switch
writes = refl

-- Nothing is left of the first file.
main-last_example :
    (v : World) × (main library 1 1 c_flags (variable_file ∷ []) [] ≡ ok v)
    × (written.files ≡ v.files)
main-last_example =
    main-last library 1 1 c_flags (empty_file ∷ []) variable_file [] written (refl, refl, refl)
      writes
