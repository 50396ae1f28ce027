-- ===== src/Lib.antt =====
-- A verification library for psx_mnd_sym, which reads the symbol files (MND/SYM) of Playstation 1
-- programs, prints them, and translates them to C declarations.
--
-- The parts, and the files that model them:
--   * Sym (package sym). Sym/Kind: kind.go, kind_string.go. Sym/Class: class.go, class_string.go.
--     Sym/Base, Sym/Types: type.go, base_string.go, mod_string.go (Type.Base is `base`, Type.Mods is
--     `mods`). Sym/Symbol: symbol.go, the bodies with BodySize (`body_size`) and Size (`size`), with
--     their String methods in Sym/Symbol/Print and their struc tags in Sym/Symbol/Layout. Sym/File:
--     file.go and the parsing functions of symbol.go: Parse is `parse_bytes`, with its loop
--     `parse_symbols`, and parseSymbol is `parse_symbol`. Sym/File/Dump: File.String is `dump`.
--   * C (package c, csym/c). C/Ast: the types of type.go and c.go. C/Print: Var.String is
--     `var_string`, over what is printed for a type that has no declarator; C/Leaf: that form, with
--     fakeUnionString. C/FakeTag: IsFakeTag. C/Defs: the Def methods of structs, unions, enums,
--     variables and functions, with storageclass_string.go; C/Strings: String and Def of any type.
--   * Csym (package csym). Csym/State: csym/parse.go. Csym/Names: validName, uniqueEnum, SliceIndex,
--     UniqueName, UniqueTag and the loops of UniqueStructTag, UniqueUnionTag and UniqueEnumTag
--     (csym/parse_types.go, csym/parse_fixups.go). Csym/Tagged: the lists and maps of tagged types.
--     Csym/Types and Csym/Tags: ParseTypes. Csym/Lines, Csym/Funcs and Csym/Decls: ParseDecls.
--     Csym/Closed: the places that the types of a parser hold.
--     Csym/Fixups: RemoveDuplicateTypes (Duplicates, with the slices of types in Slices),
--     ReplaceUsedTypes (Replace: `var_type` is replaceUsedTypesInVar, `union_fields` the case of a
--     union in replaceUsedSubtypesInType) and MakeNamesUnique (Names).
--   * SymDump (cmd/sym_dump). SymDump/Sources: getSourceFiles and dumpSourceFiles. SymDump/Output:
--     the other files that output.go writes. SymDump/Merge: addUniqueStructs, addUniqueUnions and
--     addUniqueEnums of main.go. SymDump/Declarations: the loop over the overlays in
--     pruneDuplicates; SymDump/Prune: all of it. SymDump/Main: main and dump.
--   * Fmt: what the program uses of package fmt. Prelude: shared names, lists, byte strings and
--     results.
--
-- The parts meet as in the program: the symbols that `parse_bytes` gives are what `dump` lists, and
-- what `parse_types` and then `parse_decls` translate. `remove_duplicate_types` and
-- `make_names_unique` work on the parser that these leave, and what is written for it is what
-- `dump_types`, `dump_decls`, `dump_source_files` and `dump_ida_scripts` give. `main` composes them,
-- from the bytes of the files that are named to the files that are written.
--
-- Conventions. A Go string is the list of its bytes. An error or a panic is a value: the functions
-- that may fail give a Result, and File.String a panic of its own. A machine word is a natural number
-- with its wrap-around written out; an int, used for counts and offsets, is a natural number. A
-- pointer is a place in a store: structs, unions, enums and type definitions of a parser, functions
-- and variables of an overlay, and the overlays, each have a store that only grows; a parser of a
-- further file, where several are merged, starts with the stores that the one before it left. A map is
-- the list of its entries. The reading of one fixed-layout struct, struc.Unpack of a package that is not in
-- the repository, is the parameter `Struc` of Sym/Wire, with the laws that decoding inverts the
-- little-endian layout that the tags describe, that it accepts nothing else, and that it reports
-- io.EOF for an input with no bytes; Tests/Reader has a concrete one. Other code that is not in the
-- repository is a parameter too: sort.Slice (`Sorting` of C/Sorting, which permutes a slice and
-- sorts it by a strict weak order; Tests/Sort has concrete ones), the alignment of text/tabwriter,
-- natsort.Less, reflect.DeepEqual, strings.ToLower, filepath.Join with the output directory, the quoting of
-- %q, and what package fmt prints for a value whose String method panics, since it recovers the panic: main
-- goes on after a listing that fails.
--
-- Loops. Most recurse on the symbols left; a loop that passes over symbols takes their number as an
-- argument. Some have fuel: `parse_symbols` has one round more than there are bytes, since each symbol
-- takes one; the loop of uniqueEnum has more rounds than there are members, the loops of the unique
-- tags one more than the map has entries, and the loop that takes nil pointers out of a slice as many
-- as the slice is long. `type_leaf` has fuel for unions with fake tags inside each other, which a
-- caller chooses: the program recurses without end on a fake union that contains itself. The fuel of
-- `replace_used_types` bounds how deep the calls for unions inside unions are nested, and running out
-- of it is the overflow of the stack; where the unions can be
-- ranked so that each leads to unions of lower rank only, a fuel above all ranks is enough.
--
-- Not modelled: opening, creating and writing files, with their errors, the reading of the command line
-- and the messages printed (cmd/sym_dump); verbose messages and the log. A file that is written is a
-- pair of its path from the output directory and its contents, and `Flags` holds the command line flags. All files are taken to stand in
-- the output directory, also one whose source path leads out of it by "..", and so to be removed with it. sym_test.go is a test.
pub mod Prelude
pub mod Fmt
pub mod Sym
pub mod C
pub mod Csym
pub mod SymDump
mod Tests
