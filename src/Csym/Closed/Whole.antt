-- ===== src/Csym/Closed/Whole.antt =====
-- ParseTypes as a whole: the tags, the loop over the symbols, and initTaggedTypes (csym/parse_types.go).
use psx_mnd_sym.Prelude.{
  ℕ, zero, suc, ◌≡◌, subst, List, [], ◌∷◌, Text, codes, arith, length, ok, ok-injective, >>=-steps,
}
use psx_mnd_sym.Sym.Class
use psx_mnd_sym.Sym.Base
use psx_mnd_sym.Sym.File.Switch.{switch_one, switch_three, switch_four}
use psx_mnd_sym.Sym.Symbol.{Def, SymbolBody, Symbol, def, def2}
use psx_mnd_sym.C.Ast.{StructType, UnionType, EnumType, base, int, var_decl, typedef}
use psx_mnd_sym.Csym.State.{TypeInfo}
use psx_mnd_sym.Csym.Names.{valid_name}
use psx_mnd_sym.Csym.Tagged.{
  empty_struct, empty_union, empty_enum, find_empty_struct, find_empty_union, find_empty_enum,
}
use psx_mnd_sym.Csym.Tagged.Places.{add-Placed, below-AllBelow}
use psx_mnd_sym.Csym.Tagged.Contents.{add-All}
use psx_mnd_sym.Csym.Tags.{
  struct_step, union_step, enum_step, check_base, parse_struct_tag, parse_union_tag, parse_enum_tag,
  no_skip, types_step, types_loop, bool_name, init_bool, init_symbol, init_symbols,
  init_tagged_types, parse_types,
}
use psx_mnd_sym.Csym.Types.{parse_typedef}
use psx_mnd_sym.Csym.Closed.{
  sizes, Fits, StructWithin, UnionWithin, IsClosed, structs-larger, unions-larger,
}
use psx_mnd_sym.Csym.Closed.Stores.{
  set_structs-Fits, set_unions-Fits, set_structs-IsClosed, set_unions-IsClosed, set_enums-IsClosed,
}
use psx_mnd_sym.Csym.Closed.Typedefs.{Keeps, parse_typedef-Keeps, add_def-IsClosed}
use psx_mnd_sym.Csym.Closed.Tags.{
  same-Keeps, struct_step-Keeps, union_step-Keeps, enum_step-Keeps, members_loop-Keeps,
}

parse_struct_tag-Keeps :
    (b : Def) (syms : List Symbol) (p : TypeInfo) → IsClosed p → Keeps p (parse_struct_tag b syms p)
unfolding parse_struct_tag
parse_struct_tag-Keeps b syms p h n q e =
    let (_, _, rest) = >>=-steps (check_base Base.struct b.type) _ e in
    let (i, _, looped) =
      >>=-steps (find_empty_struct (valid_name b.name) b.size p.structs) _ rest in
    members_loop-Keeps struct_step i 0 syms p struct_step-Keeps h n q looped

parse_union_tag-Keeps :
    (b : Def) (syms : List Symbol) (p : TypeInfo) → IsClosed p → Keeps p (parse_union_tag b syms p)
unfolding parse_union_tag
parse_union_tag-Keeps b syms p h n q e =
    let (_, _, rest) = >>=-steps (check_base Base.union b.type) _ e in
    let (i, _, looped) = >>=-steps (find_empty_union (valid_name b.name) b.size p.unions) _ rest in
    members_loop-Keeps union_step i 0 syms p union_step-Keeps h n q looped

parse_enum_tag-Keeps :
    (b : Def) (syms : List Symbol) (p : TypeInfo) → IsClosed p → Keeps p (parse_enum_tag b syms p)
unfolding parse_enum_tag
parse_enum_tag-Keeps b syms p h n q e =
    let (_, _, rest) = >>=-steps (check_base Base.enum b.type) _ e in
    let (i, _, looped) = >>=-steps (find_empty_enum (valid_name b.name) p.enums) _ rest in
    members_loop-Keeps enum_step i 0 syms p enum_step-Keeps h n q looped

typedef-Keeps :
    (t : ℕ) (dims : List ℕ) (tag raw : Text) (p : TypeInfo)
    → IsClosed p
    → Keeps p (no_skip (parse_typedef t dims tag raw p))
typedef-Keeps t dims tag raw p h n q e =
    let (u, parsed, rest) = >>=-steps (parse_typedef t dims tag raw p) _ e in
    let after = parse_typedef-Keeps t dims tag raw p u h parsed in
    subst (λ (x : ℕ × TypeInfo). IsClosed x.1 × Fits (sizes p) (sizes x.1)) (ok-injective rest)
      after

types_step-Keeps :
    (b : SymbolBody) (syms : List Symbol) (p : TypeInfo)
    → IsClosed p
    → Keeps p (types_step b syms p)
unfolding types_step
types_step-Keeps (def b) syms p h =
    switch_four (Keeps p) b.class Class.strtag Class.untag Class.entag Class.tpdef _ _ _ _ _
      (parse_struct_tag-Keeps b syms p h) (parse_union_tag-Keeps b syms p h)
      (parse_enum_tag-Keeps b syms p h) (typedef-Keeps b.type [] [] b.name p h) (same-Keeps p 0 h)
types_step-Keeps (def2 b) syms p h =
    switch_one (Keeps p) b.class Class.tpdef _ _ (typedef-Keeps b.type b.dims b.tag b.name p h)
      (same-Keeps p 0 h)
types_step-Keeps _ syms p h = same-Keeps p 0 h

types_loop-Keeps :
    (skip : ℕ) (syms : List Symbol) (p q : TypeInfo)
    → IsClosed p
    → types_loop skip syms p ≡ ok q
    → IsClosed q
unfolding types_loop
types_loop-Keeps skip [] p q h e = subst IsClosed (ok-injective e) h
types_loop-Keeps (suc skip) (s ∷ syms) p q h e = types_loop-Keeps skip syms p q h e
types_loop-Keeps zero (s ∷ syms) p q h e =
    let ((n, u), stepped, rest) = >>=-steps (types_step s.body syms p) _ e in
    types_loop-Keeps n syms u q (types_step-Keeps s.body syms p h n u stepped).0 rest

-- An empty object added.
empty_struct-IsClosed :
    (tag : Text) (size : ℕ) (p : TypeInfo)
    → IsClosed p
    → IsClosed (record p { structs = (empty_struct tag size p.structs).1 })
unfolding empty_struct
empty_struct-IsClosed tag size p h =
    let t : StructType = record { size = size; tag = tag; fields = []; methods = [] } in
    let placed = add-Placed (λ (t : StructType). t.tag) t p.structs h.structs in
    let s = (empty_struct tag size p.structs).1 in
    let k = sizes (record p { structs = s }) in
    set_structs-IsClosed p s h placed.1 placed.2 (
      add-All (StructWithin k) (λ (t : StructType). t.tag) t p.structs (tt, tt)
        (structs-larger (sizes p) k (set_structs-Fits p s placed.2) p.structs.store
          h.struct_fields))

empty_union-IsClosed :
    (tag : Text) (size : ℕ) (p : TypeInfo)
    → IsClosed p
    → IsClosed (record p { unions = (empty_union tag size p.unions).1 })
unfolding empty_union
empty_union-IsClosed tag size p h =
    let t : UnionType = record { size = size; tag = tag; fields = [] } in
    let placed = add-Placed (λ (t : UnionType). t.tag) t p.unions h.unions in
    let s = (empty_union tag size p.unions).1 in
    let k = sizes (record p { unions = s }) in
    set_unions-IsClosed p s h placed.1 placed.2 (
      add-All (UnionWithin k) (λ (t : UnionType). t.tag) t p.unions tt
        (unions-larger (sizes p) k (set_unions-Fits p s placed.2) p.unions.store h.union_fields))

empty_enum-IsClosed :
    (tag : Text) (p : TypeInfo)
    → IsClosed p
    → IsClosed (record p { enums = (empty_enum tag p.enums).1 })
unfolding empty_enum
empty_enum-IsClosed tag p h =
    let t : EnumType = record { tag = tag; members = [] } in
    let placed = add-Placed (λ (t : EnumType). t.tag) t p.enums h.enums in
    set_enums-IsClosed p (empty_enum tag p.enums).1 h placed.1 placed.2

init_bool-IsClosed : (p : TypeInfo) → IsClosed p → IsClosed (init_bool p)
unfolding init_bool
init_bool-IsClosed p h =
    let below =
      below-AllBelow (length p.def_store) (suc (length p.def_store)) p.typedefs (omega arith)
        h.typedefs in
    empty_struct-IsClosed (codes "__vtbl_ptr_type") 0 _ (
      add_def-IsClosed (var_decl 0 0 typedef (base int) bool_name) bool_name p p.typedefs h tt
        below)

init_symbol-IsClosed : (b : SymbolBody) (p : TypeInfo) → IsClosed p → IsClosed (init_symbol b p)
unfolding init_symbol
init_symbol-IsClosed (def b) p h =
    let tag = valid_name b.name in
    switch_three IsClosed b.class Class.strtag Class.untag Class.entag _ _ _ _
      (empty_struct-IsClosed tag b.size p h) (empty_union-IsClosed tag b.size p h)
      (empty_enum-IsClosed tag p h) h
init_symbol-IsClosed _ p h = h

init_symbols-IsClosed :
    (syms : List Symbol) (p : TypeInfo) → IsClosed p → IsClosed (init_symbols syms p)
unfolding init_symbols
init_symbols-IsClosed [] p h = h
init_symbols-IsClosed (s ∷ syms) p h =
    init_symbols-IsClosed syms (init_symbol s.body p) (init_symbol-IsClosed s.body p h)

-- Where ParseTypes of a parser returns, and its lists and maps and the types in its stores led to objects of the
-- stores before, they do after.
pub parse_types-IsClosed :
    (syms : List Symbol) (p q : TypeInfo) → IsClosed p → parse_types syms p ≡ ok q → IsClosed q
unfolding parse_types init_tagged_types
parse_types-IsClosed syms p q h e =
    types_loop-Keeps 0 syms (init_tagged_types syms p) q
      (init_symbols-IsClosed syms (init_bool p) (init_bool-IsClosed p h)) e
