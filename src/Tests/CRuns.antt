-- ===== src/Tests/CRuns.antt =====
-- The definitions in C syntax at small concrete inputs.
use psx_mnd_sym.Prelude.{◌≡◌, refl, [], ◌∷◌, Text, codes, false}
use psx_mnd_sym.C.Ast.{CType, var_decl, base, int, func, nil, register, EnumType, FuncDecl}
use psx_mnd_sym.C.Print.{var_string}
use psx_mnd_sym.C.Leaf.{TypeStore, type_leaf}
use psx_mnd_sym.C.Defs.{enum_def, func_def}
use psx_mnd_sym.C.Defs.EnumOrder.{enum_def_unique}
use psx_mnd_sym.C.Defs.Balance.{depth, IsBalanced}
use psx_mnd_sym.C.Defs.Braces.{Nests, func_def-IsBalanced}
use psx_mnd_sym.Tests.Sort.{inserting, inserting_twice, insertion_sort}

abbrev colours : EnumType
colours = record {
  tag = codes "Colour";
  members =
      record { value = 2; name = codes "BLUE" } ∷ record { value = 0; name = codes "RED" } ∷ [];
}

enum_def_example :
    (enum_def inserting (λ s. s) colours).0 ≡ codes "enum Colour {\n\tRED\t= 0,\n\tBLUE\t= 2,\n}"
unfolding enum_def insertion_sort
enum_def_example = refl

enum_def_unique_example :
    enum_def inserting (λ s. s) colours ≡ enum_def inserting_twice (λ s. s) colours
enum_def_unique_example = enum_def_unique inserting inserting_twice (λ s. s) colours

abbrev no_types : TypeStore
no_types = record { structs = []; unions = []; enums = []; defs = [] }

abbrev leaf : CType → Text
leaf = type_leaf 1 no_types

abbrev main : FuncDecl
main = record {
  path = codes "MAIN.C";
  addr = 2147549184;
  size = 48;
  line_start = 10;
  line_end = 14;
  type = func (base int) nil false;
  name = codes "main";
  blocks =
      record {
        line_start = 1;
        line_end = 4;
        locals = var_decl 4 0 register (base int) (codes "i") ∷ [];
      }
      ∷ record { line_start = 2; line_end = 3; locals = [] }
      ∷ [];
}

func_def-IsBalanced_example : IsBalanced (func_def leaf main) × Nests 2 (func_def leaf main)
unfolding var_string type_leaf depth
func_def-IsBalanced_example =
    func_def-IsBalanced leaf main (λ d. refl) (((λ d. refl), tt), (tt, tt))
