-- ===== src/SymDump/Prune.antt =====
-- pruneDuplicates (cmd/sym_dump/main.go). The parsers share their stores: each one has started with those that
-- the one before it left.
pub mod Linked
pub mod Once
use psx_mnd_sym.Prelude.{
  ℕ, suc, ◌+◌, List, [], ◌∷◌, ◌++◌, map, Text, codes, Bool, Option, none, some, get_elem?, length,
  Result, ok, err, ◌>>=◌,
}
use psx_mnd_sym.C.Ast.{
  CType, VarDecl, StructType, UnionType, EnumType, FuncDecl, decl_name, def_ref,
}
use psx_mnd_sym.C.Leaf.{TypeStore}
use psx_mnd_sym.C.Sorting.{Sorting}
use psx_mnd_sym.C.Strings.{type_def}
use psx_mnd_sym.Csym.State.{
  lookup, insert, Panic, index_out_of_range, Tagged, TypeInfo, new_info, new_overlay, Overlay,
  Parser, new_parser,
}
use psx_mnd_sym.SymDump.Sources.{overlays_at}
use psx_mnd_sym.SymDump.Merge.{Merge, add_unique_structs, add_unique_unions, add_unique_enums}
use psx_mnd_sym.SymDump.Declarations.{add_unseen, Merged, no_overlays, merge_decls}

-- What the loop over the types changes.
pub record MergedTypes : Type 0 where
  pub structs : Merge StructType
  pub unions : Merge UnionType
  pub enums : Merge EnumType
  pub typedefs : List ℕ
  pub typedef_present : List Text

abbrev pub new_merge : {T : Type 0} → List T → Merge T
new_merge store = record { store = store; fake_count = 0; present = []; tags = []; order = [] }

abbrev pub new_types : TypeStore → MergedTypes
new_types st = record {
  structs = new_merge st.structs;
  unions = new_merge st.unions;
  enums = new_merge st.enums;
  typedefs = [];
  typedef_present = [];
}

-- What the pointers lead to at this point; no type definition is changed.
abbrev pub store_of : List VarDecl → MergedTypes → TypeStore
store_of defs s = record {
  structs = s.structs.store;
  unions = s.unions.store;
  enums = s.enums.store;
  defs = defs;
}

-- How many places there are.
abbrev pub count_from : ℕ → List Overlay → List ℕ
count_from n [] = []
count_from n (o ∷ os) = n ∷ count_from (suc n) os

-- `less` is natsort.Less, and `leaf` what is printed for a type that has no declarator.
module _ (sorting : Sorting) (align : Text → Text) (less : Text → Text → Bool)
    (leaf : TypeStore → CType → Text) where
  -- Def of the type definition at a place.
  unfoldable pub typedef_text : TypeStore → ℕ → Text
  unfolding type_def
  typedef_text st i = type_def st (leaf st) sorting align (def_ref i)

  -- One round of the loop over the types.
  unfoldable pub merge_types_of : List VarDecl → ℕ → TypeInfo → MergedTypes → MergedTypes
  unfolding add_unique_structs add_unique_unions add_unique_enums add_unseen typedef_text
  merge_types_of defs pnum info s =
      let s1 : MergedTypes = record s {
        enums = add_unique_enums sorting align pnum info.enums.tags s.enums;
      } in
      let s2 : MergedTypes = record s1 {
        structs =
            add_unique_structs (λ structs. leaf (record (store_of defs s1) { structs = structs }))
              pnum info.structs.tags s1.structs;
      } in
      let s3 : MergedTypes = record s2 {
        unions =
            add_unique_unions (λ unions. leaf (record (store_of defs s2) { unions = unions })) pnum
              info.unions.tags s2.unions;
      } in
      let (typedefs, present) =
        add_unseen (typedef_text (store_of defs s3)) info.typedefs s3.typedefs s3.typedef_present in
      record s3 { typedefs = typedefs; typedef_present = present }

  -- The loop over the types, from the parser number `pnum` on.
  unfoldable pub merge_types : List VarDecl → ℕ → List Parser → MergedTypes → MergedTypes
  unfolding merge_types_of
  merge_types defs pnum [] s = s
  merge_types defs pnum (p ∷ ps) s =
      merge_types defs (suc pnum) ps (merge_types_of defs pnum p.info s)

  -- The name of the type definition at a place, which is one of the store.
  unfoldable pub def_name : List VarDecl → ℕ → Text
  def_name defs i = elim (get_elem? defs i) [ none ↦ [] | some v ↦ decl_name v ]

  -- The types of the merged parser: `bool`, which is that of the first one, and all that was added.
  unfoldable pub merged_info : List VarDecl → Option CType → MergedTypes → TypeInfo
  unfolding insert def_name
  merged_info defs bool_type s = record new_info {
    structs = record { store = s.structs.store; order = s.structs.order; tags = s.structs.tags };
    unions = record { store = s.unions.store; order = s.unions.order; tags = s.unions.tags };
    enums = record { store = s.enums.store; order = s.enums.order; tags = s.enums.tags };
    def_store = defs;
    types = elim bool_type [ none ↦ [] | some t ↦ (codes "bool", t) ∷ [] ];
    typedefs = sorting.sort_slice (λ i j. less (def_name defs i) (def_name defs j)) s.typedefs;
  }

  -- The declarations of an overlay, sorted by name.
  unfoldable pub sort_decls : Overlay → Overlay
  sort_decls o = record o {
    vars = sorting.sort_slice (λ v w. less (decl_name v) (decl_name w)) o.vars;
    funcs = sorting.sort_slice (λ (f g : FuncDecl). less f.name g.name) o.funcs;
  }

  -- `dst.Overlay`
  unfoldable pub default_overlay : Merged → Overlay
  default_overlay s = elim s.default [
    | none ↦ new_overlay 0 0 0
    | some d ↦ elim (get_elem? s.store d) [ none ↦ new_overlay 0 0 0 | some o ↦ o ]
  ]

  -- The merged parser, with its overlays sorted; the default one is at place 0 of its store.
  unfoldable pub merged_parser : TypeInfo → Merged → Parser
  unfolding sort_decls default_overlay overlays_at
  merged_parser info s =
      let overlays = map sort_decls (overlays_at s.store s.overlays) in
      record new_parser {
        info = info;
        overlay_store = sort_decls (default_overlay s) ∷ overlays;
        overlays = count_from 1 overlays;
      }

  -- pruneDuplicates, for parsers with these stores.
  unfoldable pub prune_duplicates : Bool → Bool → TypeStore → List Parser → Result Panic Parser
  unfolding merge_types merged_info merge_decls merged_parser lookup
  prune_duplicates skip_addr skip_line st [] = err index_out_of_range
  prune_duplicates skip_addr skip_line st (p ∷ ps) =
      let types = merge_types st.defs 0 (p ∷ ps) (new_types st) in
      let info = merged_info st.defs (lookup (codes "bool") p.info.types) types in
      do
        merged ←
            merge_decls (leaf (store_of st.defs types)) skip_addr skip_line (p ∷ ps) no_overlays
        ok (merged_parser info merged)
