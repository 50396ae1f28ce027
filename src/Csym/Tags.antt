-- ===== src/Csym/Tags.antt =====
-- csym/parse_types.go: ParseTypes, with the structs, unions and enums that the symbols define.
pub mod Members
use psx_mnd_sym.Prelude.{
  ℕ, zero, suc, ◌+◌, List, [], ◌∷◌, ◌++◌, Text, codes, Bool, true, false, ◌==◌, if◌then◌else◌,
  Option, none, some, Result, ok, err, ◌>>=◌, length,
}
use psx_mnd_sym.Sym.Base
use psx_mnd_sym.Sym.Class
use psx_mnd_sym.Sym.File.{switch}
use psx_mnd_sym.Sym.Symbol.{Def, Def2, SymbolBody, Symbol, def, def2}
use psx_mnd_sym.Sym.Types.{base as base_code, mods, mod_pointer, mod_function, mod_array}
use psx_mnd_sym.C.Ast.{
  CType, Params, VarDecl, Field, StructType, UnionType, EnumMember, EnumType, void, char, short,
  int, long, uchar, ushort, uint, ulong, nil_type, base, struct_ref, union_ref, enum_ref, def_ref,
  pointer, array, func, nil, var_decl, typedef,
}
use psx_mnd_sym.Csym.State.{
  lookup, insert, Panic, unsupported_base, unsupported_class, invalid_mods, index_out_of_range,
  unreachable, Tagged, TypeInfo,
}
use psx_mnd_sym.Csym.Names.{valid_name, unique_enum}
use psx_mnd_sym.Csym.Tagged.{
  empty_struct, empty_union, empty_enum, find_struct, find_union, find_enum, find_empty_struct,
  find_empty_union, find_empty_enum, change,
}
use psx_mnd_sym.Csym.Types.{parse_type, parse_typedef}

-- What a loop over the members of a tag does with one symbol: whether it was the end, and the state.
abbrev pub MemberStep : Type 0
MemberStep = ℕ → ℕ → SymbolBody → TypeInfo → Result Panic (Bool × TypeInfo)

abbrev pub to_field : ℕ → ℕ → CType → Text → Field
to_field offset size t raw = record {
  offset = offset;
  size = size;
  type = t;
  name = valid_name raw;
}

abbrev pub add_field : Field → StructType → StructType
add_field f t = record t { fields = t.fields ++ f ∷ [] }

abbrev pub add_method : Field → StructType → StructType
add_method f t = record t { methods = t.methods ++ f ∷ [] }

abbrev pub add_union_field : Field → UnionType → UnionType
add_union_field f t = record t { fields = t.fields ++ f ∷ [] }

abbrev pub add_member : EnumMember → EnumType → EnumType
add_member e t = record t { members = t.members ++ e ∷ [] }

-- A field of the struct at a place, parsed and appended.
unfoldable pub struct_field :
    (Field → StructType → StructType)
    → ℕ
    → ℕ
    → ℕ
    → ℕ
    → List ℕ
    → Text
    → Text
    → TypeInfo
    → Result Panic (Bool × TypeInfo)
unfolding parse_type change valid_name
struct_field append i value size t dims tag raw p = do
  (v, q) ← parse_type t dims tag p
  ok (false, record q { structs = change (append (to_field value size v raw)) i q.structs })

unfoldable pub union_field :
    ℕ → ℕ → ℕ → ℕ → List ℕ → Text → Text → TypeInfo → Result Panic (Bool × TypeInfo)
unfolding parse_type change valid_name
union_field i value size t dims tag raw p = do
  (v, q) ← parse_type t dims tag p
  ok (false, record q { unions = change (add_union_field (to_field value size v raw)) i q.unions })

unfoldable pub enum_member : ℕ → ℕ → Text → TypeInfo → Bool × TypeInfo
unfolding unique_enum change valid_name
enum_member i value raw p =
    let named = unique_enum (valid_name raw) p.enum_members in
    let member : EnumMember = record { value = value; name = named.0 } in
    (false, record p { enums = change (add_member member) i p.enums; enum_members = named.1 })

-- The bodies of the loops of parseStructTag, parseUnionTag and parseEnumTag. A symbol that is no
-- definition is passed over.
unfoldable pub struct_step : MemberStep
unfolding struct_field switch
struct_step i value (def b) p =
    switch b.class
      ((Class.mos, struct_field add_field i value b.size b.type [] [] b.name p)
        ∷ (Class.field, struct_field add_method i value b.size b.type [] [] b.name p)
        ∷ [])
      (err (unsupported_class b.class))
struct_step i value (def2 b) p =
    switch b.class
      ((Class.mos, struct_field add_field i value b.size b.type b.dims b.tag b.name p)
        ∷ (Class.eos, ok (true, p))
        ∷ [])
      (err (unsupported_class b.class))
struct_step i value _ p = ok (false, p)

unfoldable pub union_step : MemberStep
unfolding union_field switch
union_step i value (def b) p =
    switch b.class ((Class.mou, union_field i value b.size b.type [] [] b.name p) ∷ [])
      (err (unsupported_class b.class))
union_step i value (def2 b) p =
    switch b.class
      ((Class.mou, union_field i value b.size b.type b.dims b.tag b.name p)
        ∷ (Class.eos, ok (true, p))
        ∷ [])
      (err (unsupported_class b.class))
union_step i value _ p = ok (false, p)

unfoldable pub enum_step : MemberStep
unfolding enum_member switch
enum_step i value (def b) p =
    switch b.class ((Class.moe, ok (enum_member i value b.name p)) ∷ [])
      (err (unsupported_class b.class))
enum_step i value (def2 b) p =
    switch b.class ((Class.eos, ok (true, p)) ∷ []) (err (unsupported_class b.class))
enum_step i value _ p = ok (false, p)

-- The loop over the symbols after a tag, that returns how many it has taken.
unfoldable pub members_loop :
    MemberStep → ℕ → ℕ → List Symbol → TypeInfo → Result Panic (ℕ × TypeInfo)
members_loop step i n [] p = err unreachable
members_loop step i n (s ∷ syms) p = do
  (ended, q) ← step i s.value s.body p
  elim ended [ true ↦ ok (n + 1, q) | false ↦ members_loop step i (n + 1) syms q ]

-- The panic of a tag whose base type is another.
abbrev pub check_base : ℕ → ℕ → Result Panic (Unit {0})
check_base expected t =
    if base_code t == expected then ok tt else err (unsupported_base (base_code t))

-- parseStructTag, parseUnionTag, parseEnumTag
unfoldable pub parse_struct_tag : Def → List Symbol → TypeInfo → Result Panic (ℕ × TypeInfo)
unfolding base_code valid_name find_empty_struct members_loop struct_step
parse_struct_tag b syms p = do
  _ ← check_base Base.struct b.type
  i ← find_empty_struct (valid_name b.name) b.size p.structs
  members_loop struct_step i 0 syms p

unfoldable pub parse_union_tag : Def → List Symbol → TypeInfo → Result Panic (ℕ × TypeInfo)
unfolding base_code valid_name find_empty_union members_loop union_step
parse_union_tag b syms p = do
  _ ← check_base Base.union b.type
  i ← find_empty_union (valid_name b.name) b.size p.unions
  members_loop union_step i 0 syms p

unfoldable pub parse_enum_tag : Def → List Symbol → TypeInfo → Result Panic (ℕ × TypeInfo)
unfolding base_code valid_name find_empty_enum members_loop enum_step
parse_enum_tag b syms p = do
  _ ← check_base Base.enum b.type
  i ← find_empty_enum (valid_name b.name) p.enums
  members_loop enum_step i 0 syms p

-- initTaggedTypes: first the type `bool`, and a struct for virtual tables.
abbrev pub bool_name : Text
bool_name = codes "bool"

unfoldable pub init_bool : TypeInfo → TypeInfo
unfolding insert empty_struct
init_bool p = record p {
  def_store = p.def_store ++ var_decl 0 0 typedef (base int) bool_name ∷ [];
  types = insert bool_name (def_ref (length p.def_store)) p.types;
  structs = (empty_struct (codes "__vtbl_ptr_type") 0 p.structs).1;
}

-- One symbol of its loop.
unfoldable pub init_symbol : SymbolBody → TypeInfo → TypeInfo
unfolding switch valid_name empty_struct empty_union empty_enum
init_symbol (def b) p =
    let tag = valid_name b.name in
    switch b.class
      ((Class.strtag, record p { structs = (empty_struct tag b.size p.structs).1 })
        ∷ (Class.untag, record p { unions = (empty_union tag b.size p.unions).1 })
        ∷ (Class.entag, record p { enums = (empty_enum tag p.enums).1 })
        ∷ [])
      p
init_symbol _ p = p

unfoldable pub init_symbols : List Symbol → TypeInfo → TypeInfo
unfolding init_symbol
init_symbols [] p = p
init_symbols (s ∷ syms) p = init_symbols syms (init_symbol s.body p)

unfoldable pub init_tagged_types : List Symbol → TypeInfo → TypeInfo
unfolding init_bool init_symbols
init_tagged_types syms p = init_symbols syms (init_bool p)

abbrev pub no_skip : Result Panic TypeInfo → Result Panic (ℕ × TypeInfo)
no_skip r = do p ← r; ok (0, p)

-- One symbol of the loop of ParseTypes, with the symbols after it: how many of them to pass over.
unfoldable pub types_step : SymbolBody → List Symbol → TypeInfo → Result Panic (ℕ × TypeInfo)
unfolding switch parse_struct_tag parse_union_tag parse_enum_tag parse_typedef
types_step (def b) syms p =
    switch b.class
      ((Class.strtag, parse_struct_tag b syms p)
        ∷ (Class.untag, parse_union_tag b syms p)
        ∷ (Class.entag, parse_enum_tag b syms p)
        ∷ (Class.tpdef, no_skip (parse_typedef b.type [] [] b.name p))
        ∷ [])
      (ok (0, p))
types_step (def2 b) syms p =
    switch b.class ((Class.tpdef, no_skip (parse_typedef b.type b.dims b.tag b.name p)) ∷ [])
      (ok (0, p))
types_step _ syms p = ok (0, p)

-- The loop, that passes over `skip` symbols first.
unfoldable pub types_loop : ℕ → List Symbol → TypeInfo → Result Panic TypeInfo
unfolding types_step
types_loop skip [] p = ok p
types_loop (suc skip) (s ∷ syms) p = types_loop skip syms p
types_loop zero (s ∷ syms) p = do (n, q) ← types_step s.body syms p; types_loop n syms q

-- ParseTypes
unfoldable pub parse_types : List Symbol → TypeInfo → Result Panic TypeInfo
unfolding init_tagged_types types_loop
parse_types syms p = types_loop 0 syms (init_tagged_types syms p)
