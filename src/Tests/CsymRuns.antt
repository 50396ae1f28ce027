-- ===== src/Tests/CsymRuns.antt =====
-- The translation to C at small concrete inputs.
use psx_mnd_sym.Prelude.{
  ◌==◌, ℕ, true, arith, ◌≡◌, ◌↔◌, refl, List, [], ◌∷◌, Text, codes, All, ok, inl, inr, some, none,
  false, text_eq, err,
}
use psx_mnd_sym.Sym.Kind
use psx_mnd_sym.Sym.Class
use psx_mnd_sym.Sym.Symbol.{Symbol, Def, def, def2, inc_sld, inc_sld_byte, end_sld, SetSld2}
use psx_mnd_sym.C.Ast.{
  StructType, CType, base, int, char, pointer, array, func, nil, cons, no_class, var_decl,
}
use psx_mnd_sym.C.Print.{var_string}
use psx_mnd_sym.C.Leaf.{TypeStore, type_leaf}
use psx_mnd_sym.C.Declarator.{Declares, var_string-Declares}
use psx_mnd_sym.Csym.State.{Parser, new_parser, Tagged, new_tagged, Map, TypeInfo, new_info, lookup}
use psx_mnd_sym.Csym.Names.{unique_tag, valid_name, unique_enum, is_member, fresh_tag}
use psx_mnd_sym.C.FakeTag.{original_tag}
use psx_mnd_sym.C.FakeTag.Unique.{original_tag-unique_tag}
use psx_mnd_sym.Csym.Tagged.{find_struct, find_union, find_enum}
use psx_mnd_sym.Csym.Tagged.Found.{Settles, find-Settles}
use psx_mnd_sym.Sym.Symbol.{name1, overlay, set_overlay}
use psx_mnd_sym.Csym.Decls.{parse_decls}
use psx_mnd_sym.Csym.Decls.Overlays.{HasOverlays, parse_decls-HasOverlays}
use psx_mnd_sym.Csym.Names.Valid.{IsIdentifierByte, valid_name_iff}
use psx_mnd_sym.Csym.Names.Unique.{lookup-fresh_tag}
use psx_mnd_sym.Csym.Names.Enum.{unique_enum-fresh}
use psx_mnd_sym.Csym.Types.{parse_mods}
use psx_mnd_sym.Csym.Types.Mods.{Outcome, count_arrays, modifiers, parse_mods-Outcome}
use psx_mnd_sym.Csym.Tags.{init_tagged_types, types_step}
use psx_mnd_sym.Csym.Tags.Members.{through_eos, is_tag, types_step-through_eos}
use psx_mnd_sym.Csym.Lines.{parse_line_numbers}
use psx_mnd_sym.Csym.Lines.Advance.{addresses, parse_line_numbers-Outcome}
use psx_mnd_sym.Csym.Lines.Advance

abbrev no_types : TypeStore
no_types = record { structs = []; unions = []; enums = []; defs = [] }

abbrev handlers : CType
handlers =
    array
      (pointer (
        func (base int)
          (cons (var_decl 0 1 no_class (base char) (codes "c"))
            (cons (var_decl 0 0 no_class (array (base int) 0) (codes "k")) nil))
          true))
      3

var_string-Declares_example :
    Declares (type_leaf 1 no_types) (codes "int (*f[3])(char c, int k[], ...)") (codes "f") handlers
unfolding var_string type_leaf
var_string-Declares_example = var_string-Declares (type_leaf 1 no_types) handlers (codes "f")

abbrev tags : Map (List ℕ)
tags = (codes "A", 0 ∷ 1 ∷ []) ∷ (codes "A_duplicate_s1", 2 ∷ []) ∷ []

lookup-fresh_tag_example : lookup (codes "A_duplicate_s1_duplicate_s1") tags ≡ none
unfolding fresh_tag text_eq
lookup-fresh_tag_example = lookup-fresh_tag (codes "s") 1 (codes "A") tags

abbrev colours : List Text
colours = codes "RED" ∷ codes "RED_DUPLICATE_0" ∷ []

unique_enum-fresh_example :
    (is_member (codes "RED_DUPLICATE_1") colours ≡ false)
    × ((unique_enum (codes "RED") colours).1 ≡ codes "RED_DUPLICATE_1" ∷ colours)
unfolding unique_enum text_eq
unique_enum-fresh_example = unique_enum-fresh (codes "RED") colours

-- A name that begins with a digit stays.
valid_name_iff_example :
    ((codes "3d" ≡ codes "3d") ↔ All IsIdentifierByte (codes "3d"))
    × (valid_name (codes "3d") ≡ codes "3d")
unfolding valid_name
valid_name_iff_example = valid_name_iff (codes "3d")

parse_mods-Outcome_example :
    Outcome (base int) (1 ∷ 3 ∷ []) 1 (5 ∷ []) (ok (pointer (array (base int) 5)))
unfolding parse_mods count_arrays modifiers
parse_mods-Outcome_example =
    parse_mods-Outcome (base int) (1 ∷ 3 ∷ []) (5 ∷ []) (inl refl, (inr (inr refl), tt))

abbrev point : Def
point = record { class = Class.strtag; type = 8; size = 4; name_len = 1; name = codes "P" }

abbrev point_x : Symbol
point_x = record {
  value = 0;
  kind = Kind.def;
  body = def (record { class = Class.mos; type = 4; size = 4; name_len = 1; name = codes "x" });
}

abbrev point_end : Symbol
point_end = record {
  value = 4;
  kind = Kind.def2;
  body = def2 (record {
    class = Class.eos;
    type = 0;
    size = 4;
    dims_len = 0;
    dims = [];
    tag_len = 1;
    tag = codes "P";
    name_len = 3;
    name = codes "eos";
  });
}

abbrev point_tag : Symbol
point_tag = record { value = 0; kind = Kind.def; body = def point }

abbrev parsed : TypeInfo
parsed = init_tagged_types (point_tag ∷ point_x ∷ point_end ∷ []) new_info

abbrev after : TypeInfo
unfolding types_step
after = elim (types_step (def point) (point_x ∷ point_end ∷ []) parsed) [
  | ok (n, p) ↦ p
  | err _ ↦ parsed
]

types_step-through_eos_example : through_eos (point_x ∷ point_end ∷ []) ≡ some 2
unfolding is_tag types_step init_tagged_types text_eq
types_step-through_eos_example =
    types_step-through_eos (def point) (point_x ∷ point_end ∷ []) parsed {q = after} refl

abbrev start : SetSld2
start = record { line = 10; path_len = 3; path = codes "A.C" }

abbrev line_symbols : List Symbol
line_symbols =
    record { value = 0x14; kind = Kind.inc_sld; body = inc_sld }
    ∷ record { value = 0x18; kind = Kind.inc_sld_byte; body = inc_sld_byte 4 }
    ∷ record { value = 0x1c; kind = Kind.end_sld; body = end_sld }
    ∷ []

parse_line_numbers-Outcome_example : Advance.Outcome 0 line_symbols (0x10 ∷ []) (
    ok (
      3,
      record { addr = 0x10; path = codes "A.C"; line = 10 }
          ∷ record { addr = 0x14; path = codes "A.C"; line = 11 }
          ∷ record { addr = 0x18; path = codes "A.C"; line = 15 }
          ∷ [],
    ))
unfolding parse_line_numbers
parse_line_numbers-Outcome_example = parse_line_numbers-Outcome 0x10 start line_symbols []

original_tag-unique_tag_example : original_tag (codes "_3fake_duplicate_s2") ≡ codes "_3fake"
unfolding unique_tag
original_tag-unique_tag_example = original_tag-unique_tag 95 (codes "3fake") 115 2 (inl refl)

abbrev one_struct : Tagged StructType
one_struct = record {
  store = record { size = 4; tag = codes "A"; fields = []; methods = [] } ∷ [];
  order = 0 ∷ [];
  tags = (codes "A", 0 ∷ []) ∷ (codes "B", []) ∷ [];
}

-- A struct of another size is added, with a new tag.
find-Settles_example :
    Settles (find_struct (codes "A") 8 true) (codes "A") (λ t. t.size == 8) one_struct
    × Settles (find_union (codes "A") 8 true) (codes "A") (λ t. t.size == 8) new_tagged
    × Settles (find_enum (codes "A")) (codes "A") (λ t. true) new_tagged
find-Settles_example = find-Settles (codes "A") 8 true one_struct new_tagged new_tagged

abbrev overlay_symbols : List Symbol
overlay_symbols =
    record { value = 0x80; kind = Kind.overlay; body = overlay (record { length = 16; id = 3 }) }
    ∷ record { value = 3; kind = Kind.set_overlay; body = set_overlay }
    ∷ record {
      value = 0x84;
      kind = Kind.name1;
      body = name1 (record { name_len = 1; name = codes "x" });
    }
    ∷ []

abbrev with_overlay : Parser
unfolding parse_decls text_eq
with_overlay = elim (parse_decls overlay_symbols new_parser) [ ok p ↦ p | err _ ↦ new_parser ]

parse_decls-HasOverlays_example : HasOverlays with_overlay
unfolding parse_decls with_overlay
parse_decls-HasOverlays_example =
    parse_decls-HasOverlays overlay_symbols new_parser with_overlay (omega arith, tt, tt) refl
