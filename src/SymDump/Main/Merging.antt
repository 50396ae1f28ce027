-- ===== src/SymDump/Main/Merging.antt =====
-- main (cmd/sym_dump/main.go) with the flag `-merge` where no parsers are kept.
use psx_mnd_sym.Prelude.{
  ℕ, ◌≡◌, refl, ◌∙◌, List, [], ◌∷◌, Text, Bool, true, false, ◌&&◌, if◌then◌else◌, All, Result, ok,
  err, ok-next,
}
use psx_mnd_sym.Sym.Symbol.{Symbol}
use psx_mnd_sym.Sym.File.{FileHeader, done, parse_bytes}
use psx_mnd_sym.Csym.State.{index_out_of_range}
use psx_mnd_sym.SymDump.Prune.{prune_duplicates}
use psx_mnd_sym.SymDump.Main.{
  Flags, Library, Failure, panics, Files, World, list_file, process, process_parsed, process_file,
  process_files, dump_merged, main,
}

-- None of the flags `-c`, `-ida` and `-types`.
abbrev pub OnlyLists : Flags → Type 0
OnlyLists flags =
    (flags.output_c ≡ false) × (flags.output_ida ≡ false) × (flags.output_types ≡ false)

merge_branch :
    (merging ida : Bool) (x a b : Result Failure World)
    → merging ≡ true
    → ida ≡ false
    → (if merging && ida then x else if merging then a else b) ≡ a
merge_branch true false x a b m i = refl
merge_branch true true x a b m i = cc
merge_branch false ida x a b m i = cc

module _ (lib : Library) (leaf_fuel fuel : ℕ) where
  -- Package sym parses the bytes as a symbol file.
  abbrev pub IsParsed : Text → Type 0
  IsParsed bytes =
      (hdr : FileHeader) × ((syms : List Symbol) × (parse_bytes lib.struc bytes
          ≡ ok (hdr, done syms)))

  process-lists :
      (flags : Flags) (hdr : FileHeader) (syms : List Symbol) (w : World)
      → OnlyLists flags
      → process lib leaf_fuel fuel flags hdr syms w ≡ ok (list_file lib.recovered hdr syms w)
  unfolding process
  process-lists flags hdr syms w (c, ida, types) = rw (process, c, ida, types) refl

  process_file-lists :
      (flags : Flags) (bytes : Text) (w : World)
      → OnlyLists flags
      → IsParsed bytes
      → (v : World) × (process_file lib leaf_fuel fuel flags bytes w ≡ ok v)
        × (v.parsers ≡ w.parsers)
  unfolding process_file process_parsed list_file
  process_file-lists flags bytes w h (hdr, (syms, e)) = (
    list_file lib.recovered hdr syms w,
    rw (process_file, e) (process-lists flags hdr syms w h),
    refl,
  )

  process_files-lists :
      (flags : Flags) (inputs : List Text) (w : World)
      → OnlyLists flags
      → All IsParsed inputs
      → (v : World) × (process_files lib leaf_fuel fuel flags inputs w ≡ ok v)
        × (v.parsers ≡ w.parsers)
  unfolding process_files
  process_files-lists flags [] w h parsed = (w, refl, refl)
  process_files-lists flags (bytes ∷ inputs) w h parsed =
      let (u, first, kept) = process_file-lists flags bytes w h parsed.0 in
      let (v, rest, same) = process_files-lists flags inputs u h parsed.1 in
      (v, ok-next (process_file lib leaf_fuel fuel flags bytes w) _ first ∙ rest, same ∙ kept)

  dump_merged-panics :
      (flags : Flags) (w : World)
      → w.parsers ≡ []
      → dump_merged lib leaf_fuel fuel flags w ≡ err (panics index_out_of_range)
  unfolding dump_merged prune_duplicates
  dump_merged-panics flags w none = rw (dump_merged, prune_duplicates, none) refl

  -- With the flag `-merge` and none of `-c`, `-ida` and `-types`, main ends with an index out of range, if each
  -- file that is named is parsed.
  pub main-merge_panics :
      (flags : Flags) (inputs : List Text) (files : Files)
      → OnlyLists flags
      → flags.merge ≡ true
      → All IsParsed inputs
      → main lib leaf_fuel fuel flags inputs files ≡ err (panics index_out_of_range)
  unfolding main
  main-merge_panics flags inputs files h merging parsed =
      let start : World = record { files = files; listing = []; parsers = [] } in
      let (w, listed, kept) = process_files-lists flags inputs start h parsed in
      merge_branch flags.merge flags.output_ida _ _ _ merging h.1
      ∙ (ok-next (process_files lib leaf_fuel fuel flags inputs start) _ listed
          ∙ dump_merged-panics flags w kept)
