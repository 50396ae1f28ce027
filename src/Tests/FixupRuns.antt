-- ===== src/Tests/FixupRuns.antt =====
-- The fix-ups of names and duplicates at small concrete inputs.
use psx_mnd_sym.Prelude.{
  ◌↔◌, inl, inr, ℕ, List, get_elem?, ◌≡◌, refl, arith, [], ◌∷◌, Text, codes, Bool, true, false,
  none, some, Result, ok, err,
}
use psx_mnd_sym.C.Ast.{
  CType, Field, StructType, UnionType, VarDecl, var_decl, decl_addr, decl_name, no_class, base, int,
  struct_ref, union_ref, pointer, extern,
}
use psx_mnd_sym.Csym.State.{Panic, Parser, new_parser, new_info, new_overlay, stack_overflow}
use psx_mnd_sym.Csym.Fixups.Replace.{
  Ref, Remap, a_struct, find_key, is_key, union_fields, replace_used_types,
}
use psx_mnd_sym.Csym.Fixups.Replace.Whole.{IsRid, replace_used_types-IsRid}
use psx_mnd_sym.Csym.Fixups.Replace.Recursive.{union_fields-overflows}
use psx_mnd_sym.Csym.Fixups.Names.{rename_vars}
use psx_mnd_sym.Csym.Fixups.Names.Distinct.{rename_vars-lem}
use psx_mnd_sym.Csym.Fixups.Slices.{rm_nil, present}
use psx_mnd_sym.Csym.Fixups.Slices.Filter.{rm_nil-present}
use psx_mnd_sym.Csym.Fixups.Duplicates.{mark_tags, remove_structs_duplicates}
use psx_mnd_sym.Csym.Fixups.Duplicates.Marks.{mark_tags-IsClean, all_places}
use psx_mnd_sym.Csym.Fixups.Duplicates.Whole.{IsPruned, remove_structs_duplicates-IsPruned}

abbrev field : CType → Text → Field
field t name = record { offset = 0; size = 4; type = t; name = name }

abbrev point : StructType
point = record {
  size = 4;
  tag = codes "Point";
  fields = field (base int) (codes "x") ∷ [];
  methods = [];
}

-- A union whose field points to the second struct.
abbrev cell : UnionType
cell = record {
  size = 4;
  tag = codes "Cell";
  fields = field (pointer (struct_ref 1)) (codes "p") ∷ [];
}

-- Two equal structs with one tag, a union, and a variable whose type is a pointer to the second struct.
abbrev twins : Parser
twins = record new_parser {
  info = record new_info {
    structs = record {
      store = point ∷ point ∷ [];
      order = 0 ∷ 1 ∷ [];
      tags = (codes "Point", 0 ∷ 1 ∷ []) ∷ [];
    };
    unions = record { store = cell ∷ []; order = 0 ∷ []; tags = (codes "Cell", 0 ∷ []) ∷ [] };
  };
  overlay_store =
      record (new_overlay 0 0 0) {
        vars = var_decl 16 0 extern (pointer (struct_ref 1)) (codes "origin") ∷ [];
      }
      ∷ [];
}

-- All structs are equal.
abbrev all_equal : Ref → Ref → Bool
all_equal (a_struct i) (a_struct j) = true
all_equal _ _ = false

abbrev second_to_first : Remap
second_to_first = mark_tags all_equal a_struct twins.info.structs.tags []

abbrev result_of : Result Panic Parser → Parser
result_of (ok q) = q
result_of (err x) = new_parser

mark_tags-IsClean_example :
    (all_equal (a_struct 1) (a_struct 0) ≡ true) × (is_key (a_struct 0) second_to_first ≡ false)
unfolding mark_tags all_places
mark_tags-IsClean_example =
    mark_tags-IsClean a_struct all_equal twins.info.structs.tags ((refl, tt), (tt, tt)) (a_struct 1)
      (a_struct 0) refl

replace_used_types-IsRid_example :
    IsRid second_to_first (result_of (replace_used_types 1 second_to_first twins))
unfolding mark_tags replace_used_types all_places
replace_used_types-IsRid_example =
    replace_used_types-IsRid second_to_first
      (λ t u e.
        (mark_tags-IsClean a_struct all_equal twins.info.structs.tags ((refl, tt), (tt, tt)) t u
          e).1)
      1 twins (result_of (replace_used_types 1 second_to_first twins)) refl

remove_structs_duplicates-IsPruned_example :
    IsPruned (λ _. all_equal) twins (result_of (remove_structs_duplicates (λ _. all_equal) 1 twins))
unfolding remove_structs_duplicates all_places
remove_structs_duplicates-IsPruned_example =
    remove_structs_duplicates-IsPruned (λ _. all_equal) 1 twins
      (result_of (remove_structs_duplicates (λ _. all_equal) 1 twins)) ((refl, tt), (tt, tt)) refl

rm_nil-present_example : rm_nil (none ∷ some 3 ∷ none ∷ []) ≡ some 3 ∷ []
unfolding present
rm_nil-present_example = rm_nil-present (none ∷ some 3 ∷ none ∷ [])

-- A list of cells: the first field of the union points to the next.
abbrev chain : UnionType
chain = record {
  size = 4;
  tag = codes "Chain";
  fields = field (pointer (union_ref 0)) (codes "next") ∷ [];
}

union_fields-overflows_example : union_fields [] 1000 0 (chain ∷ []) ≡ err stack_overflow
unfolding find_key
union_fields-overflows_example =
    union_fields-overflows [] 1000 0 (chain ∷ []) chain
      (field (pointer (union_ref 0)) (codes "next")) [] refl refl refl refl

-- Two statics with one name.
abbrev statics : List VarDecl
statics =
    var_decl 16 4 no_class (base int) (codes "n")
    ∷ var_decl 32 4 no_class (base int) (codes "n")
    ∷ []

rename_vars-lem_example :
    (v' : VarDecl) × (w' : VarDecl) × (get_elem? (rename_vars (0 ∷ 1 ∷ []) statics) 0 ≡ some v')
    × (get_elem? (rename_vars (0 ∷ 1 ∷ []) statics) 1 ≡ some w')
    × (decl_addr v' ≡ 16)
    × (decl_addr w' ≡ 32)
    × ((decl_name v' ≡ decl_name w') ↔ ◌≡◌ {A = ℕ} 16 32)
rename_vars-lem_example =
    rename_vars-lem (0 ∷ 1 ∷ []) statics 0 1 (var_decl 16 4 no_class (base int) (codes "n"))
      (var_decl 32 4 no_class (base int) (codes "n"))
      (((λ e. absurd (omega (arith, e))), tt), (tt, tt)) (inl refl) (inr (inl refl)) refl refl refl
      refl refl
