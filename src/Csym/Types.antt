-- ===== src/Csym/Types.antt =====
-- csym/parse_types.go: the translation of type codes, and type definitions.
pub mod Mods
use psx_mnd_sym.Prelude.{
  ℕ, zero, suc, ◌+◌, List, [], ◌∷◌, ◌++◌, Text, codes, Bool, true, false, ◌==◌, if◌then◌else◌,
  Option, none, some, Result, ok, err, ◌>>=◌, length,
}
use psx_mnd_sym.Sym.Base
use psx_mnd_sym.Sym.Class
use psx_mnd_sym.Sym.File.{switch}
use psx_mnd_sym.Sym.Symbol.{Def, Def2, SymbolBody, Symbol, def, def2}
use psx_mnd_sym.Sym.Types.{base as base_code, mods, mod_pointer, mod_function, mod_array}
use psx_mnd_sym.C.Ast.{
  CType, Params, VarDecl, Field, StructType, UnionType, EnumMember, EnumType, void, char, short,
  int, long, uchar, ushort, uint, ulong, nil_type, base, struct_ref, union_ref, enum_ref, def_ref,
  pointer, array, func, nil, var_decl, typedef,
}
use psx_mnd_sym.Csym.State.{
  lookup, insert, Panic, unsupported_base, unsupported_class, invalid_mods, index_out_of_range,
  unreachable, Tagged, TypeInfo,
}
use psx_mnd_sym.Csym.Names.{valid_name, unique_enum}
use psx_mnd_sym.Csym.Tagged.{
  empty_struct, empty_union, empty_enum, find_struct, find_union, find_enum, find_empty_struct,
  find_empty_union, find_empty_enum, change,
}

abbrev pub reverse_onto {ℓ} : {A : Type ℓ} → List A → List A → List A
reverse_onto [] ys = ys
reverse_onto (x ∷ xs) ys = reverse_onto xs (x ∷ ys)

-- One round of the loop of parseMods, with the dimensions from `j` on.
unfoldable pub apply_mod : CType → ℕ → List ℕ → Result Panic (CType × List ℕ)
apply_mod t m dims =
    if m == mod_pointer
    then ok (pointer t, dims)
    else if m == mod_function
    then ok (func t nil false, dims)
    else if m == mod_array
    then elim dims [ [] ↦ err index_out_of_range | d ∷ rest ↦ ok (array t d, rest) ]
    else ok (t, dims)

-- The loop over the modifiers that are left, last first.
unfoldable pub mods_down : CType → List ℕ → List ℕ → Result Panic CType
unfolding apply_mod
mods_down t [] dims = ok t
mods_down t (m ∷ ms) dims = do (u, rest) ← apply_mod t m dims; mods_down u ms rest

-- parseMods
unfoldable pub parse_mods : CType → List ℕ → List ℕ → Result Panic CType
unfolding mods_down
parse_mods t ms dims = mods_down t (reverse_onto ms []) dims

abbrev pub TypeStep : Type 0 → Type 0
TypeStep A = TypeInfo → Result Panic (A × TypeInfo)

abbrev pub plain : CType → TypeStep CType
plain t p = ok (t, p)

-- The struct, union or enum found, with the state after.
abbrev pub found_struct : ℕ × Tagged StructType → TypeStep CType
found_struct (i, s) p = ok (struct_ref i, record p { structs = s })

abbrev pub found_union : ℕ × Tagged UnionType → TypeStep CType
found_union (i, s) p = ok (union_ref i, record p { unions = s })

abbrev pub found_enum : ℕ × Tagged EnumType → TypeStep CType
found_enum (i, s) p = ok (enum_ref i, record p { enums = s })

abbrev pub null_type : TypeStep CType
null_type p = ok (elim (lookup (codes "bool") p.types) [ none ↦ nil_type | some t ↦ t ], p)

-- The cases of parseBase.
abbrev pub base_cases : Text → TypeInfo → List (ℕ × Result Panic (CType × TypeInfo))
base_cases tag p =
    (Base.null, null_type p)
    ∷ (Base.void, plain (base void) p)
    ∷ (Base.char, plain (base char) p)
    ∷ (Base.short, plain (base short) p)
    ∷ (Base.int, plain (base int) p)
    ∷ (Base.long, plain (base long) p)
    ∷ (Base.struct, found_struct (find_struct tag 0 false p.structs) p)
    ∷ (Base.union, found_union (find_union tag 0 false p.unions) p)
    ∷ (Base.enum, found_enum (find_enum tag p.enums) p)
    ∷ (Base.uchar, plain (base uchar) p)
    ∷ (Base.ushort, plain (base ushort) p)
    ∷ (Base.uint, plain (base uint) p)
    ∷ (Base.ulong, plain (base ulong) p)
    ∷ []

-- parseBase
unfoldable pub parse_base : ℕ → Text → TypeStep CType
unfolding valid_name lookup switch find_struct find_union find_enum
parse_base b raw p = switch b (base_cases (valid_name raw) p) (err (unsupported_base b))

-- Type.Mods as parseType calls it: its panic is one of the package's.
unfoldable pub read_mods : ℕ → Result Panic (List ℕ)
unfolding mods
read_mods t = elim (mods t) [ err x ↦ err (invalid_mods x) | ok ms ↦ ok ms ]

-- parseType
unfoldable pub parse_type : ℕ → List ℕ → Text → TypeStep CType
unfolding base_code parse_base read_mods parse_mods
parse_type t dims tag p = do
  (u, q) ← parse_base (base_code t) tag p
  ms ← read_mods t
  v ← parse_mods u ms dims
  ok (v, q)

-- parseTypedef
unfoldable pub parse_typedef : ℕ → List ℕ → Text → Text → TypeInfo → Result Panic TypeInfo
unfolding parse_type valid_name insert
parse_typedef t dims tag raw p = do
  (v, q) ← parse_type t dims tag p
  let name = valid_name raw
  let place = length q.def_store
  ok record q {
    def_store = q.def_store ++ var_decl 0 0 typedef v name ∷ [];
    typedefs = q.typedefs ++ place ∷ [];
    types = insert name (def_ref place) q.types;
  }
