-- ===== src/SymDump/Main.antt =====
-- main and dump (cmd/sym_dump/main.go): from the bytes of symbol files to the files that are written.
pub mod Merging
pub mod Emptied
use psx_mnd_sym.Prelude.{
  ℕ, List, [], ◌∷◌, ◌++◌, Text, codes, text_eq, Bool, true, false, ◌||◌, ◌&&◌, not, if◌then◌else◌,
  Option, none, some, get_elem?, Result, ok, err, ◌>>=◌,
}
use psx_mnd_sym.Sym.Wire.{Struc}
use psx_mnd_sym.Sym.Symbol.{Symbol}
use psx_mnd_sym.Sym.File.{ParseError, FileHeader, Parsed, done, failed, stuck, parse_bytes}
use psx_mnd_sym.Sym.File.Dump.{DumpPanic}
use psx_mnd_sym.Sym.File.Dump
use psx_mnd_sym.C.Ast.{CType, VarDecl, decl_name}
use psx_mnd_sym.C.Leaf.{TypeStore, type_leaf}
use psx_mnd_sym.C.Sorting.{Sorting}
use psx_mnd_sym.Csym.State.{
  Map, insert, Panic, Tagged, new_tagged, TypeInfo, new_info, Parser, new_parser,
}
use psx_mnd_sym.Csym.Tags.{parse_types}
use psx_mnd_sym.Csym.Decls.{parse_decls}
use psx_mnd_sym.Csym.Fixups.Duplicates.{Equality, remove_duplicate_types}
use psx_mnd_sym.Csym.Fixups.Names.{make_names_unique}
use psx_mnd_sym.SymDump.Sources.{dump_source_files}
use psx_mnd_sym.SymDump.Output.{type_store, dump_types, dump_decls, dump_ida_scripts}
use psx_mnd_sym.SymDump.Prune.{prune_duplicates}

-- The command line flags; `-v` only prints messages.
pub record Flags : Type 0 where
  pub output_c : Bool
  pub output_dir : Text
  pub output_ida : Bool
  pub merge : Bool
  pub split_src : Bool
  pub output_types : Bool

-- The code of other packages that the program calls. `recovered` is what package fmt prints for a
-- value whose String method panics, and `join` filepath.Join of the output directory and a
-- path.
pub record Library : Type 1 where
  pub struc : Struc
  pub sorting : Sorting
  pub align : Text → Text
  pub less : Text → Text → Bool
  pub quote : Text → Text
  pub to_lower : Text → Text
  pub join : Text → Text
  pub recovered : DumpPanic → Text
  pub equal : Equality

-- How the program ends before its time: with a message of log.Fatalf, or a panic. `parse_stuck` stands for `stuck`,
-- which is no result of the program.
pub data Failure : Type 0 where
  ida_with_merge parse_stuck : Failure
  not_parsed : ParseError → Failure
  panics : Panic → Failure

-- The contents of files, by path from the output directory. All are taken to stand in that directory,
-- also one whose path leads out of it by "..".
abbrev pub Files : Type 0
Files = Map Text

unfoldable pub write_files : List (Text × Text) → Files → Files
unfolding insert
write_files [] files = files
write_files ((path, contents) ∷ new) files = write_files new (insert path contents files)

-- initOutputDir: only the default directory is emptied.
unfoldable pub init_output_dir : Text → Files → Files
unfolding text_eq
init_output_dir dir files = if text_eq dir (codes "_dump_") then [] else files

-- The built-in `delete`.
unfoldable pub delete {ℓ} : {A : Type ℓ} → Text → Map A → Map A
unfolding text_eq
delete key [] = []
delete key ((k, a) ∷ m) = let rest = delete key m in if text_eq key k then rest else (k, a) ∷ rest

abbrev pub is_int64 : List VarDecl → ℕ → Bool
is_int64 defs i = elim (get_elem? defs i) [
  | none ↦ false
  | some v ↦ text_eq (decl_name v) (codes "__int64")
]

-- The loop that takes the first type definition named "__int64" away.
unfoldable pub delete_int64 : List VarDecl → List ℕ → List ℕ
unfolding text_eq
delete_int64 defs [] = []
delete_int64 defs (i ∷ places) =
    let rest = delete_int64 defs places in if is_int64 defs i then places else i ∷ rest

-- What is taken from the types before types.h is written for IDA.
unfoldable pub without_ida_types : Parser → Parser
unfolding delete delete_int64
without_ida_types p =
    let info = p.info in
    record p {
      info = record info {
        types = delete (codes "__int64") (delete (codes "bool") info.types);
        typedefs = delete_int64 info.def_store info.typedefs;
      };
    }

-- NewParser, where other parsers have left these stores.
unfoldable pub parser_on : TypeStore → Parser
parser_on st = record new_parser {
  info = record new_info {
    structs = record { store = st.structs; order = []; tags = [] };
    unions = record { store = st.unions; order = []; tags = [] };
    enums = record { store = st.enums; order = []; tags = [] };
    def_store = st.defs;
  };
}

-- The stores that the last of the parsers left; all that were before it are part of them.
unfoldable pub last_stores : List Parser → TypeStore → TypeStore
last_stores [] st = st
last_stores (p ∷ ps) st = last_stores ps (type_store p)

abbrev pub no_stores : TypeStore
no_stores = record { structs = []; unions = []; enums = []; defs = [] }

-- A panic of package csym ends the program.
abbrev pub or_panic {ℓ} : {A : Type ℓ} → Result Panic A → Result Failure A
or_panic (err x) = err (panics x)
or_panic (ok a) = ok a

-- What main keeps from one file to the next: the files written, the listings printed, and `ps`.
pub record World : Type 0 where
  pub files : Files
  pub listing : Text
  pub parsers : List Parser

-- What fmt.Print writes for a file: its String, or what stands for a String that panics, since fmt
-- recovers the panic.
unfoldable pub printed : (DumpPanic → Text) → Result DumpPanic Text → Text
printed recovered (err x) = recovered x
printed recovered (ok text) = text

-- The default case of the switch: File.String, printed.
unfoldable pub list_file : (DumpPanic → Text) → FileHeader → List Symbol → World → World
unfolding Dump.dump printed
list_file recovered hdr syms w = record w {
  listing = w.listing ++ printed recovered (Dump.dump hdr syms);
}

-- `leaf_fuel` bounds how deep unions with fake tags are nested, and `fuel` how deep the replacement of types
-- follows unions.
module _ (lib : Library) (leaf_fuel fuel : ℕ) where
  abbrev pub leaf_in : TypeStore → CType → Text
  leaf_in st = type_leaf leaf_fuel st

  unfoldable pub types_file : Parser → Text × Text
  unfolding dump_types
  types_file p = (codes "types.h", dump_types lib.sorting lib.align (leaf_in (type_store p)) p)

  -- dump with the flag `-c`, after the types have been written.
  unfoldable pub dump_c : Bool → Parser → Files → Result Panic Files
  unfolding dump_source_files dump_decls write_files
  dump_c true p files = do
    sources ←
        dump_source_files lib.quote (leaf_in (type_store p)) lib.to_lower lib.join lib.sorting
          lib.less p
    ok (write_files sources files)
  dump_c false p files = ok (write_files (dump_decls lib.quote (leaf_in (type_store p)) p) files)

  -- dump with the flag `-ida`.
  unfoldable pub dump_ida : Parser → Files → Files
  unfolding types_file dump_ida_scripts without_ida_types write_files
  dump_ida p files =
      write_files (types_file (without_ida_types p) ∷ [])
        (write_files (dump_ida_scripts lib.quote (leaf_in (type_store p)) p) files)

  -- dump
  unfoldable pub dump_parser : Flags → Parser → Files → Result Panic Files
  unfolding types_file dump_c dump_ida write_files init_output_dir
  dump_parser flags p files =
      let start = init_output_dir flags.output_dir files in
      let with_types = write_files (types_file p ∷ []) start in
      if flags.output_c
      then dump_c flags.split_src p with_types
      else if flags.output_types
      then ok with_types
      else if flags.output_ida
      then ok (dump_ida p start)
      else ok files

  -- What main makes of the symbols of a file, for the flags `-c` and `-ida`, and for `-types`.
  unfoldable pub parse_all : List Symbol → Parser → Result Panic Parser
  unfolding parse_types parse_decls remove_duplicate_types make_names_unique
  parse_all syms p = do
    info ← parse_types syms p.info
    q ← parse_decls syms (record p { info = info })
    r ← remove_duplicate_types lib.equal fuel q
    make_names_unique r

  unfoldable pub parse_types_only : List Symbol → Parser → Result Panic Parser
  unfolding parse_types
  parse_types_only syms p = do info ← parse_types syms p.info; ok (record p { info = info })

  -- A parser of a file: kept when merging, or else written at once.
  unfoldable pub use_parser : Flags → World → Parser → Result Failure World
  unfolding dump_parser
  use_parser flags w p =
      if flags.merge
      then ok (record w { parsers = w.parsers ++ p ∷ [] })
      else or_panic (do files ← dump_parser flags p w.files; ok (record w { files = files }))

  -- The switch over the kinds of output, for one file.
  unfoldable pub process : Flags → FileHeader → List Symbol → World → Result Failure World
  unfolding parse_all parse_types_only use_parser list_file parser_on last_stores
  process flags hdr syms w =
      let p = parser_on (last_stores w.parsers no_stores) in
      if flags.output_c || flags.output_ida
      then or_panic (parse_all syms p) >>= use_parser flags w
      else if flags.output_types
      then or_panic (parse_types_only syms p) >>= use_parser flags w
      else ok (list_file lib.recovered hdr syms w)

  -- The file, or the error, that sym.ParseFile returned.
  unfoldable pub process_parsed : Flags → FileHeader → Parsed → World → Result Failure World
  unfolding process
  process_parsed flags hdr (done syms) w = process flags hdr syms w
  process_parsed flags hdr (failed syms e) w = err (not_parsed e)
  process_parsed flags hdr stuck w = err parse_stuck

  unfoldable pub process_file : Flags → Text → World → Result Failure World
  unfolding parse_bytes process_parsed
  process_file flags bytes w = elim (parse_bytes lib.struc bytes) [
    | err e ↦ err (not_parsed e)
    | ok (hdr, parsed) ↦ process_parsed flags hdr parsed w
  ]

  -- The loop over the files that are named.
  unfoldable pub process_files : Flags → List Text → World → Result Failure World
  unfolding process_file
  process_files flags [] w = ok w
  process_files flags (bytes ∷ inputs) w = do
    w' ← process_file flags bytes w
    process_files flags inputs w'

  -- The merge of all files, if asked for.
  unfoldable pub dump_merged : Flags → World → Result Failure World
  unfolding prune_duplicates dump_parser last_stores
  dump_merged flags w = or_panic (do
    q ←
        prune_duplicates lib.sorting lib.align lib.less leaf_in true true
          (last_stores w.parsers no_stores) w.parsers
    files ← dump_parser flags q w.files
    ok (record w { files = files }))

  -- main, for the contents of the files that are named, and the files that are there before.
  unfoldable pub main : Flags → List Text → Files → Result Failure World
  unfolding process_files dump_merged
  main flags inputs files =
      let start : World = record { files = files; listing = []; parsers = [] } in
      if flags.merge && flags.output_ida
      then err ida_with_merge
      else if flags.merge
      then process_files flags inputs start >>= dump_merged flags
      else process_files flags inputs start
