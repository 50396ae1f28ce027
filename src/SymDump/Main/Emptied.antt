-- ===== src/SymDump/Main/Emptied.antt =====
-- The default output directory of sym_dump, and initOutputDir (cmd/sym_dump/main.go).
use psx_mnd_sym.Prelude.{
  ℕ, ◌≡◌, inl, inr, refl, sym, subst, ap, ◌∙◌, List, [], ◌∷◌, ◌++◌, Text, codes, eq→text_eq, Bool,
  true, false, ◌&&◌, ◌||◌, if◌then◌else◌, Result, ok, err, ◌>>=◌, ok-next, ok-injective, >>=-steps,
  Result-cases,
}
use psx_mnd_sym.Sym.Symbol.{Symbol}
use psx_mnd_sym.Sym.File.{FileHeader, Parsed, done, failed, stuck, parse_bytes}
use psx_mnd_sym.Csym.State.{Panic, Parser}
use psx_mnd_sym.SymDump.Main.{
  Flags, Library, Failure, Files, World, or_panic, init_output_dir, types_file, write_files, dump_c,
  dump_ida, dump_parser, use_parser, no_stores, parser_on, last_stores, parse_all, parse_types_only,
  list_file, not_parsed, parse_stuck, process, process_parsed, process_file, process_files, main,
}

-- One of the flags `-c`, `-ida` and `-types`.
abbrev pub WritesFiles : Flags → Type 0
WritesFiles flags = (flags.output_c || (flags.output_types || flags.output_ida)) ≡ true

default_dir-empty :
    (dir : Text) (files : Files) → dir ≡ codes "_dump_" → init_output_dir dir files ≡ []
unfolding init_output_dir
default_dir-empty dir files e = rw (init_output_dir, eq→text_eq dir (codes "_dump_") e) refl

-- The switch of dump gives the same for any files, if one of its cases is taken.
switch_same :
    {A : Type 0} (c types ida : Bool) (x y z o o' : A)
    → (c || (types || ida)) ≡ true
    → (if c then x else if types then y else if ida then z else o)
      ≡ (if c then x else if types then y else if ida then z else o')
switch_same true types ida x y z o o' e = refl
switch_same false true ida x y z o o' e = refl
switch_same false false true x y z o o' e = refl
switch_same false false false x y z o o' e = cc

-- What the first has returned has the parsers of `w`, and the second returns the same files.
abbrev Same : World → Result Failure World → Result Failure World → Type 0
Same w r r' =
    (v : World)
    → r ≡ ok v
    → (v.parsers ≡ w.parsers) × ((v' : World) × (r' ≡ ok v') × (v.files ≡ v'.files))

err-Same : (w : World) (x : Failure) (r' : Result Failure World) → Same w (err x) r'
err-Same w x r' v e = cc

written-Same :
    (w w' : World) (r r' : Result Panic Files)
    → r ≡ r'
    → Same w
        (or_panic (r >>= λ files. ok (record w { files = files })))
        (or_panic (r' >>= λ files. ok (record w' { files = files })))
written-Same w w' (err x) r' same v e = cc
written-Same w w' (ok files) r' same v e = (
  ap (λ u. u.parsers) (sym (ok-injective e)),
  (
    record w' { files = files },
    ap (λ r. or_panic (r >>= λ fs. ok (record w' { files = fs }))) (sym same),
    ap (λ u. u.files) (sym (ok-injective e)),
  ),
)

>>=-Same :
    (w : World) (first : Result Failure Parser) (next next' : Parser → Result Failure World)
    → ((p : Parser) → Same w (next p) (next' p))
    → Same w (first >>= next) (first >>= next')
>>=-Same w (err x) next next' same = err-Same w x (err x)
>>=-Same w (ok p) next next' same = same p

-- The switch of main, where one of its first two cases is taken.
switch-Same :
    (w : World) (c ida types : Bool) (a b l a' b' l' : Result Failure World)
    → (c || (types || ida)) ≡ true
    → Same w a a'
    → Same w b b'
    → Same w
        (if c || ida then a else if types then b else l)
        (if c || ida then a' else if types then b' else l')
switch-Same w true ida types a b l a' b' l' e ha hb = ha
switch-Same w false true types a b l a' b' l' e ha hb = ha
switch-Same w false false true a b l a' b' l' e ha hb = hb
switch-Same w false false false a b l a' b' l' e ha hb = cc

single_branch :
    (merging ida : Bool) (x a b : Result Failure World)
    → merging ≡ false
    → (if merging && ida then x else if merging then a else b) ≡ b
single_branch false ida x a b m = refl
single_branch true ida x a b m = cc

module _ (lib : Library) (leaf_fuel fuel : ℕ) where
  -- Into the default directory, dump writes the same whatever is there.
  dump_parser-same :
      (flags : Flags) (p : Parser) (before before' : Files)
      → flags.output_dir ≡ codes "_dump_"
      → WritesFiles flags
      → dump_parser lib leaf_fuel fuel flags p before
        ≡ dump_parser lib leaf_fuel fuel flags p before'
  unfolding dump_parser
  dump_parser-same flags p before before' dir writes =
      let body = λ (start other : Files).
        if flags.output_c
        then dump_c lib leaf_fuel fuel flags.split_src p
            (write_files (types_file lib leaf_fuel fuel p ∷ []) start)
        else if flags.output_types
        then ok (write_files (types_file lib leaf_fuel fuel p ∷ []) start)
        else if flags.output_ida
        then ok (dump_ida lib leaf_fuel fuel p start)
        else ok other in
      ap (λ start. body start before) (default_dir-empty flags.output_dir before dir)
      ∙ (switch_same flags.output_c flags.output_types flags.output_ida _ _ _ _ _ writes
          ∙ sym (ap (λ start. body start before') (default_dir-empty flags.output_dir before' dir)))

  use_parser-Same :
      (flags : Flags) (w w' : World) (p : Parser)
      → flags.merge ≡ false
      → flags.output_dir ≡ codes "_dump_"
      → WritesFiles flags
      → Same w (use_parser lib leaf_fuel fuel flags w p) (use_parser lib leaf_fuel fuel flags w' p)
  unfolding use_parser
  use_parser-Same flags w w' p alone dir writes =
      rw (use_parser, alone)
        (written-Same w w' (dump_parser lib leaf_fuel fuel flags p w.files)
          (dump_parser lib leaf_fuel fuel flags p w'.files)
          (dump_parser-same flags p w.files w'.files dir writes))

  -- Each file is written to one directory of its own kind, and emptied first.
  abbrev pub Empties : Flags → Type 0
  Empties flags = (flags.merge ≡ false) × (flags.output_dir ≡ codes "_dump_") × WritesFiles flags

  process-Same :
      (flags : Flags) (hdr : FileHeader) (syms : List Symbol) (w w' : World)
      → Empties flags
      → w.parsers ≡ w'.parsers
      → Same w
          (process lib leaf_fuel fuel flags hdr syms w)
          (process lib leaf_fuel fuel flags hdr syms w')
  unfolding process
  process-Same flags hdr syms w w' (alone, dir, writes) kept =
      let from = λ (ps : List Parser). parser_on (last_stores ps no_stores) in
      let run = λ (ps : List Parser).
        if flags.output_c || flags.output_ida
        then or_panic (parse_all lib leaf_fuel fuel syms (from ps))
          >>= use_parser lib leaf_fuel fuel flags w'
        else if flags.output_types
        then or_panic (parse_types_only lib leaf_fuel fuel syms (from ps))
          >>= use_parser lib leaf_fuel fuel flags w'
        else ok (list_file lib.recovered hdr syms w') in
      let used = λ (p : Parser). use_parser-Same flags w w' p alone dir writes in
      subst (λ ps. Same w (process lib leaf_fuel fuel flags hdr syms w) (run ps)) kept
        (switch-Same w flags.output_c flags.output_ida flags.output_types _ _ _ _ _ _ writes
          (>>=-Same w (or_panic (parse_all lib leaf_fuel fuel syms (from w.parsers))) _ _ used)
          (>>=-Same w (or_panic (parse_types_only lib leaf_fuel fuel syms (from w.parsers))) _ _
            used))

  process_parsed-Same :
      (flags : Flags) (hdr : FileHeader) (parsed : Parsed) (w w' : World)
      → Empties flags
      → w.parsers ≡ w'.parsers
      → Same w
          (process_parsed lib leaf_fuel fuel flags hdr parsed w)
          (process_parsed lib leaf_fuel fuel flags hdr parsed w')
  unfolding process_parsed
  process_parsed-Same flags hdr (done syms) w w' h kept = process-Same flags hdr syms w w' h kept
  process_parsed-Same flags hdr (failed syms x) w w' h kept = err-Same w (not_parsed x) _
  process_parsed-Same flags hdr stuck w w' h kept = err-Same w parse_stuck _

  process_file-Same :
      (flags : Flags) (bytes : Text) (w w' : World)
      → Empties flags
      → w.parsers ≡ w'.parsers
      → Same w
          (process_file lib leaf_fuel fuel flags bytes w)
          (process_file lib leaf_fuel fuel flags bytes w')
  unfolding process_file
  process_file-Same flags bytes w w' h kept = elim (Result-cases (parse_bytes lib.struc bytes)) [
    | inl (x, e) ↦ rw (process_file, e) (err-Same w (not_parsed x) _)
    | inr ((hdr, parsed), e) ↦
        rw (process_file, e) (process_parsed-Same flags hdr parsed w w' h kept)
  ]

  -- The files before the last one leave nothing.
  process_files-last :
      (flags : Flags) (inputs : List Text) (last : Text) (w w' v : World)
      → Empties flags
      → w.parsers ≡ w'.parsers
      → process_files lib leaf_fuel fuel flags (inputs ++ last ∷ []) w ≡ ok v
      → (v' : World) × (process_files lib leaf_fuel fuel flags (last ∷ []) w' ≡ ok v')
        × (v.files ≡ v'.files)
  unfolding process_files
  process_files-last flags [] last w w' v h kept e =
      let (u, first, rest) = >>=-steps (process_file lib leaf_fuel fuel flags last w) _ e in
      let (_, (u', first', same)) = process_file-Same flags last w w' h kept u first in
      (
        u',
        ok-next (process_file lib leaf_fuel fuel flags last w') _ first',
        ap (λ x. x.files) (sym (ok-injective rest)) ∙ same,
      )
  process_files-last flags (bytes ∷ inputs) last w w' v h kept e =
      let (u, first, rest) = >>=-steps (process_file lib leaf_fuel fuel flags bytes w) _ e in
      let parsers = (process_file-Same flags bytes w w h refl u first).0 in
      process_files-last flags inputs last u w' v h (parsers ∙ kept) rest

  single_main :
      (flags : Flags) (inputs : List Text) (files : Files)
      → flags.merge ≡ false
      → main lib leaf_fuel fuel flags inputs files
        ≡ process_files lib leaf_fuel fuel flags inputs
            (record { files = files; listing = []; parsers = [] })
  unfolding main
  single_main flags inputs files alone = single_branch flags.merge flags.output_ida _ _ _ alone

  -- With one of the flags `-c`, `-ida` and `-types`, without `-merge`, and with the default output directory, what
  -- main leaves there, if it ends, is what it leaves for the last file alone, in an empty directory: what it has
  -- written for the files before is gone.
  pub main-last :
      (flags : Flags) (inputs : List Text) (last : Text) (files : Files) (w : World)
      → Empties flags
      → main lib leaf_fuel fuel flags (inputs ++ last ∷ []) files ≡ ok w
      → (v : World) × (main lib leaf_fuel fuel flags (last ∷ []) [] ≡ ok v) × (w.files ≡ v.files)
  unfolding main
  main-last flags inputs last files w h e =
      let from : Files → World = λ fs. record { files = fs; listing = []; parsers = [] } in
      let (v, returned, same) =
        process_files-last flags inputs last (from files) (from []) w h refl
          (sym (single_main flags (inputs ++ last ∷ []) files h.0) ∙ e) in
      (v, single_main flags (last ∷ []) [] h.0 ∙ returned, same)
