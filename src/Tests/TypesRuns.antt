-- ===== src/Tests/TypesRuns.antt =====
-- ParseTypes at a small concrete input.
use psx_mnd_sym.Prelude.{ℕ, ◌≡◌, refl, List, [], ◌∷◌, Text, text_eq, codes, ok}
use psx_mnd_sym.Sym.Class
use psx_mnd_sym.Sym.Base
use psx_mnd_sym.Sym.Kind
use psx_mnd_sym.Sym.File.{switch}
use psx_mnd_sym.Sym.Symbol.{Symbol, def, def2}
use psx_mnd_sym.C.Ast.{int, base, struct_ref, pointer, def_ref, var_decl, typedef, extern}
use psx_mnd_sym.Csym.State.{TypeInfo, Parser, new_info, new_overlay, new_parser}
use psx_mnd_sym.Csym.Tags.{parse_types}
use psx_mnd_sym.Csym.Decls.{parse_decls}
use psx_mnd_sym.Csym.Closed.{IsClosed}
use psx_mnd_sym.Csym.Closed.Decls.{ParserIsClosed, parse_decls-ParserIsClosed}
use psx_mnd_sym.Csym.Closed.Whole.{parse_types-IsClosed}

-- struct Node { struct Node *next; }; and typedef struct Node *List;
abbrev node_tag : Symbol
node_tag = record {
  value = 0;
  kind = Kind.def;
  body = def (record {
    class = Class.strtag;
    type = Base.struct;
    size = 4;
    name_len = 4;
    name = codes "Node";
  });
}

-- A definition of a pointer to the struct.
abbrev pointer_def : ℕ → Text → Symbol
pointer_def class name = record {
  value = 0;
  kind = Kind.def2;
  body = def2 (record {
    class = class;
    type = 0x18;
    size = 4;
    dims_len = 0;
    dims = [];
    tag_len = 4;
    tag = codes "Node";
    name_len = 4;
    name = name;
  });
}

abbrev node_symbols : List Symbol
node_symbols =
    node_tag
    ∷ pointer_def Class.mos (codes "next")
    ∷ pointer_def Class.eos []
    ∷ pointer_def Class.tpdef (codes "List")
    ∷ []

abbrev node_info : TypeInfo
node_info = record new_info {
  structs = record {
    store =
        record { size = 0; tag = codes "__vtbl_ptr_type"; fields = []; methods = [] }
        ∷ record {
          size = 4;
          tag = codes "Node";
          fields =
              record { offset = 0; size = 4; type = pointer (struct_ref 1); name = codes "next" }
              ∷ [];
          methods = [];
        }
        ∷ [];
    order = 0 ∷ 1 ∷ [];
    tags = (codes "__vtbl_ptr_type", 0 ∷ []) ∷ (codes "Node", 1 ∷ []) ∷ [];
  };
  def_store =
      var_decl 0 0 typedef (base int) (codes "bool")
      ∷ var_decl 0 0 typedef (pointer (struct_ref 1)) (codes "List")
      ∷ [];
  types = (codes "bool", def_ref 0) ∷ (codes "List", def_ref 1) ∷ [];
  typedefs = 1 ∷ [];
}

node_parsed : parse_types node_symbols new_info ≡ ok node_info
unfolding parse_types switch text_eq
node_parsed = refl

new_info-IsClosed : IsClosed new_info
new_info-IsClosed = record {
  structs = (tt, tt);
  unions = (tt, tt);
  enums = (tt, tt);
  typedefs = tt;
  struct_fields = tt;
  union_fields = tt;
  defs = tt;
  types = tt;
}

parse_types-IsClosed_example : IsClosed node_info
parse_types-IsClosed_example =
    parse_types-IsClosed node_symbols new_info node_info new_info-IsClosed node_parsed

-- The parser after ParseTypes, and a variable of type struct Node * that ParseDecls adds.
abbrev node_parser : Parser
node_parser = record new_parser { info = node_info }

abbrev root_parser : Parser
root_parser = record node_parser {
  overlay_store =
      record (new_overlay 0 0 0) {
        vars = var_decl 0 4 extern (pointer (struct_ref 1)) (codes "root") ∷ [];
        var_names = (codes "root", 0 ∷ []) ∷ [];
      }
      ∷ [];
}

root_parsed : parse_decls (pointer_def Class.ext (codes "root") ∷ []) node_parser ≡ ok root_parser
unfolding parse_decls parse_types switch text_eq
root_parsed = refl

node_parser-IsClosed : ParserIsClosed node_parser
node_parser-IsClosed = record {
  info = parse_types-IsClosed node_symbols new_info node_info new_info-IsClosed node_parsed;
  overlays = ((tt, tt), tt);
}

parse_decls-ParserIsClosed_example : ParserIsClosed root_parser
parse_decls-ParserIsClosed_example =
    parse_decls-ParserIsClosed (pointer_def Class.ext (codes "root") ∷ []) node_parser root_parser
      node_parser-IsClosed root_parsed
