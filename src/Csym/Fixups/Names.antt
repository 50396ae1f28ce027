-- ===== src/Csym/Fixups/Names.antt =====
-- MakeNamesUnique: new names for the variables, functions and types that share one.
pub mod Distinct
use psx_mnd_sym.Prelude.{
  ℕ, suc, List, [], ◌∷◌, Text, codes, Bool, true, false, ltb, if◌then◌else◌, none, some, length,
  get_elem?, set, Result, ok, err, ◌>>=◌,
}
use psx_mnd_sym.C.Ast.{
  StorageClass, extern, VarDecl, var_decl, decl_class, StructType, UnionType, EnumType, FuncDecl,
}
use psx_mnd_sym.Csym.State.{Map, Panic, nil_dereference, Tagged, Overlay, Parser}
use psx_mnd_sym.Csym.Names.{unique_name, fresh_tag}
use psx_mnd_sym.Csym.Tagged.{change}

abbrev pub is_extern : StorageClass → Bool
is_extern extern = true
is_extern _ = false

-- The variable at a place; a place of a map is one of the list of variables.
abbrev pub extern_at : List VarDecl → ℕ → Bool
extern_at vars i = elim (get_elem? vars i) [ none ↦ true | some v ↦ is_extern (decl_class v) ]

-- `real_len`: how many of the variables are no extern declarations.
unfoldable pub real_len : List VarDecl → List ℕ → ℕ
real_len vars [] = 0
real_len vars (i ∷ places) =
    let rest = real_len vars places in if extern_at vars i then rest else suc rest

-- UniqueVarName, assigned.
abbrev pub rename_var : VarDecl → VarDecl
rename_var (var_decl addr size class t name) = var_decl addr size class t (unique_name name addr)

abbrev pub rename_var_at : ℕ → List VarDecl → List VarDecl
rename_var_at i vars = elim (get_elem? vars i) [ none ↦ vars | some v ↦ set vars i (rename_var v) ]

-- The second loop of makeVarNamesUniqueInOverlay.
unfoldable pub rename_vars : List ℕ → List VarDecl → List VarDecl
unfolding unique_name
rename_vars [] vars = vars
rename_vars (i ∷ places) vars =
    rename_vars places (if extern_at vars i then vars else rename_var_at i vars)

-- makeVarNamesUniqueInOverlay, over the entries of the map of names.
unfoldable pub make_vars_unique : Map (List ℕ) → List VarDecl → List VarDecl
unfolding real_len rename_vars
make_vars_unique [] vars = vars
make_vars_unique ((name, places) ∷ m) vars =
    make_vars_unique m (if ltb (real_len vars places) 2 then vars else rename_vars places vars)

abbrev pub rename_func_at : ℕ → List FuncDecl → List FuncDecl
rename_func_at i funcs = elim (get_elem? funcs i) [
  | none ↦ funcs
  | some f ↦ set funcs i (record f { name = unique_name f.name f.addr })
]

unfoldable pub rename_funcs : List ℕ → List FuncDecl → List FuncDecl
unfolding unique_name
rename_funcs [] funcs = funcs
rename_funcs (i ∷ places) funcs = rename_funcs places (rename_func_at i funcs)

-- makeFuncNamesUniqueInOverlay
unfoldable pub make_funcs_unique : Map (List ℕ) → List FuncDecl → List FuncDecl
unfolding rename_funcs
make_funcs_unique [] funcs = funcs
make_funcs_unique ((name, places) ∷ m) funcs =
    make_funcs_unique m (if ltb (length places) 2 then funcs else rename_funcs places funcs)

-- The loop of makeStructsUnique over one slice, for any type with a tag; the letter is that of
-- UniqueStructTag, UniqueUnionTag or UniqueEnumTag.
module _ {T : Type 0} (tag_of : T → Text) (set_tag : Text → T → T) (letter : Text) where
  unfoldable pub retag : List ℕ → Tagged T → Tagged T
  unfolding fresh_tag change
  retag [] s = s
  retag (i ∷ places) s = retag places (elim (get_elem? s.store i) [
    | none ↦ s
    | some t ↦ change (set_tag (fresh_tag letter i (tag_of t) s.tags)) i s
  ])

  -- makeStructsUnique, over the entries of the map of tags, which it leaves alone.
  unfoldable pub make_tags_unique : Map (List ℕ) → Tagged T → Tagged T
  unfolding retag
  make_tags_unique [] s = s
  make_tags_unique ((tag, places) ∷ m) s =
      make_tags_unique m (if ltb (length places) 2 then s else retag places s)

-- makeStructsUnique, makeUnionsUnique, makeEnumsUnique
unfoldable pub make_structs_unique : Tagged StructType → Tagged StructType
unfolding make_tags_unique
make_structs_unique s =
    make_tags_unique (λ t. t.tag) (λ tag t. record t { tag = tag }) (codes "s") s.tags s

unfoldable pub make_unions_unique : Tagged UnionType → Tagged UnionType
unfolding make_tags_unique
make_unions_unique s =
    make_tags_unique (λ t. t.tag) (λ tag t. record t { tag = tag }) (codes "u") s.tags s

unfoldable pub make_enums_unique : Tagged EnumType → Tagged EnumType
unfolding make_tags_unique
make_enums_unique s =
    make_tags_unique (λ t. t.tag) (λ tag t. record t { tag = tag }) (codes "e") s.tags s

unfoldable pub make_overlay_unique : Overlay → Overlay
unfolding make_vars_unique make_funcs_unique
make_overlay_unique o = record o {
  vars = make_vars_unique o.var_names o.vars;
  funcs = make_funcs_unique o.func_names o.funcs;
}

-- The default binary, at place 0, and then the overlays.
unfoldable pub make_overlays_unique : List ℕ → List Overlay → Result Panic (List Overlay)
unfolding make_overlay_unique
make_overlays_unique [] os = ok os
make_overlays_unique (i ∷ places) os = elim (get_elem? os i) [
  | none ↦ err nil_dereference
  | some o ↦ make_overlays_unique places (set os i (make_overlay_unique o))
]

-- MakeNamesUnique
unfoldable pub make_names_unique : Parser → Result Panic Parser
unfolding make_structs_unique make_unions_unique make_enums_unique make_overlays_unique
make_names_unique p = do
  os ← make_overlays_unique (0 ∷ p.overlays) p.overlay_store
  let info = p.info
  ok (record p {
    info = record info {
      structs = make_structs_unique info.structs;
      unions = make_unions_unique info.unions;
      enums = make_enums_unique info.enums;
    };
    overlay_store = os;
  })
