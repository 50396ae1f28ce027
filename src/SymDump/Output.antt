-- ===== src/SymDump/Output.antt =====
-- dumpTypes, dumpDecls and dumpIDAScripts (cmd/sym_dump/output.go): the files that are written, each with its
-- path under the output directory.
pub mod Headers
use psx_mnd_sym.Prelude.{
  ℕ, List, [], ◌∷◌, ◌++◌, map, Text, codes, Bool, true, false, ◌==◌, ◌&&◌, if◌then◌else◌, Option,
  none, some, get_elem?,
}
use psx_mnd_sym.Fmt.{hex, upper_hex, zero_pad}
use psx_mnd_sym.C.Ast.{
  CType, VarDecl, FuncDecl, decl_addr, decl_name, decl_type, struct_ref, union_ref, enum_ref,
  def_ref,
}
use psx_mnd_sym.C.Print.{var_string}
use psx_mnd_sym.C.Leaf.{TypeStore}
use psx_mnd_sym.C.Sorting.{Sorting}
use psx_mnd_sym.C.Strings.{type_def}
use psx_mnd_sym.Csym.State.{Map, lookup, Tagged, TypeInfo, Overlay, Parser}
use psx_mnd_sym.SymDump.Sources.{overlays_at, include_line, var_defs, func_defs}

-- The stores that the pointers of a parser's types lead to.
abbrev pub type_store : Parser → TypeStore
type_store p = record {
  structs = p.info.structs.store;
  unions = p.info.unions.store;
  enums = p.info.enums.store;
  defs = p.info.def_store;
}

-- A format string for each item, one after the other.
unfoldable pub each_text {ℓ} : {A : Type ℓ} → (A → Text) → List A → Text
each_text f [] = []
each_text f (x ∷ xs) = f x ++ each_text f xs

module _ (sorting : Sorting) (align : Text → Text) (leaf : CType → Text) where
  unfoldable pub dump_types : Parser → Text
  unfolding lookup type_def each_text
  dump_types p =
      let line = λ (t : CType). type_def (type_store p) leaf sorting align t ++ codes ";\n\n" in
      elim (lookup (codes "bool") p.info.types) [ none ↦ [] | some t ↦ line t ]
      ++ (each_text (λ i. line (enum_ref i)) p.info.enums.order
          ++ (each_text (λ i. line (struct_ref i)) p.info.structs.order
              ++ (each_text (λ i. line (union_ref i)) p.info.unions.order
                  ++ each_text (λ i. line (def_ref i)) p.info.typedefs)))

module _ (quote : Text → Text) (leaf : CType → Text) where
  -- dumpOverlay
  unfoldable pub dump_overlay : Overlay → Text
  unfolding include_line hex var_defs func_defs
  dump_overlay o =
      include_line quote leaf
      ++ ((if (o.addr == 0) && ((o.id == 0) && (o.length == 0))
            then []
            else codes "// === [ Overlay ID " ++ (hex o.id ++ codes " ] ===\n\n"))
          ++ (var_defs quote leaf o.vars ++ func_defs quote leaf o.funcs))

unfoldable pub overlay_name : ℕ → Text
unfolding hex
overlay_name id = codes "overlay_" ++ hex id

-- The header of an overlay.
unfoldable pub header_name : ℕ → Text
unfolding overlay_name
header_name id = overlay_name id ++ codes ".h"

module _ (quote : Text → Text) (leaf : CType → Text) where
  unfoldable pub overlay_headers : List Overlay → List (Text × Text)
  unfolding header_name dump_overlay
  overlay_headers [] = []
  overlay_headers (o ∷ os) = (header_name o.id, dump_overlay quote leaf o) ∷ overlay_headers os

  -- dumpDecls; the default binary, at place 0, comes first.
  unfoldable pub dump_decls : Parser → List (Text × Text)
  unfolding overlay_headers overlays_at
  dump_decls p =
      map (λ (o : Overlay). (codes "decls.h", dump_overlay quote leaf o))
        (overlays_at p.overlay_store (0 ∷ []))
      ++ overlay_headers (overlays_at p.overlay_store p.overlays)

  unfoldable pub address : ℕ → Text
  unfolding upper_hex
  address addr = codes "0x" ++ zero_pad 8 (upper_hex addr)

  unfoldable pub name_line : ℕ → Text → Text
  unfolding address
  name_line addr name =
      codes "set_name(" ++ (address addr ++ (codes ", " ++ (quote name ++ codes ", SN_NOWARN)\n")))

  unfoldable pub type_lines : ℕ → CType → Text → Text
  unfolding address var_string
  type_lines addr t name =
      codes "del_items("
      ++ (address addr
          ++ (codes ")\nSetType("
              ++ (address addr ++ (codes ", " ++ (quote (var_string leaf t name) ++ codes ")\n")))))

  -- dumpIDAOverlay: the three scripts.
  unfoldable pub dump_ida_overlay : Overlay → List (Text × Text)
  unfolding overlay_name each_text name_line type_lines
  dump_ida_overlay o =
      let dir = if o.id == 0 then [] else overlay_name o.id ++ codes "/" in
      (
        dir ++ codes "make_psx.py",
        each_text (λ (f : FuncDecl). name_line f.addr f.name) o.funcs
            ++ each_text (λ (v : VarDecl). name_line (decl_addr v) (decl_name v)) o.vars,
      )
      ∷ (
        dir ++ codes "set_funcs.py",
        each_text (λ (f : FuncDecl). type_lines f.addr f.type f.name) o.funcs,
      )
      ∷ (
        dir ++ codes "set_vars.py",
        each_text (λ (v : VarDecl). type_lines (decl_addr v) (decl_type v) (decl_name v)) o.vars,
      )
      ∷ []

  unfoldable pub dump_ida_overlays : List Overlay → List (Text × Text)
  unfolding dump_ida_overlay
  dump_ida_overlays [] = []
  dump_ida_overlays (o ∷ os) = dump_ida_overlay o ++ dump_ida_overlays os

  -- dumpIDAScripts
  unfoldable pub dump_ida_scripts : Parser → List (Text × Text)
  unfolding dump_ida_overlays overlays_at
  dump_ida_scripts p = dump_ida_overlays (overlays_at p.overlay_store (0 ∷ p.overlays))
