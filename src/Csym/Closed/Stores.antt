-- ===== src/Csym/Closed/Stores.antt =====
-- The stores of a parser changed one at a time (csym/parse_types.go), and its types.
use psx_mnd_sym.Prelude.{◌≤◌, All, arith, length}
use psx_mnd_sym.C.Ast.{StructType, UnionType, EnumType}
use psx_mnd_sym.Csym.State.{Tagged, TypeInfo}
use psx_mnd_sym.Csym.Tagged.Places.{IsWellPlaced}
use psx_mnd_sym.Csym.Closed.{
  sizes, Fits, StructWithin, UnionWithin, IsClosed, structs-larger, unions-larger, defs-larger,
  types-larger,
}

-- A state with other structs, unions or enums, of which none is gone.
pub set_structs-Fits :
    (p : TypeInfo) (s : Tagged StructType)
    → length p.structs.store ≤ length s.store
    → Fits (sizes p) (sizes (record p { structs = s }))
set_structs-Fits p s le = record {
  structs = le;
  unions = omega arith;
  enums = omega arith;
  defs = omega arith;
}

pub set_unions-Fits :
    (p : TypeInfo) (s : Tagged UnionType)
    → length p.unions.store ≤ length s.store
    → Fits (sizes p) (sizes (record p { unions = s }))
set_unions-Fits p s le = record {
  structs = omega arith;
  unions = le;
  enums = omega arith;
  defs = omega arith;
}

pub set_enums-Fits :
    (p : TypeInfo) (s : Tagged EnumType)
    → length p.enums.store ≤ length s.store
    → Fits (sizes p) (sizes (record p { enums = s }))
set_enums-Fits p s le = record {
  structs = omega arith;
  unions = omega arith;
  enums = le;
  defs = omega arith;
}

pub set_structs-IsClosed :
    (p : TypeInfo) (s : Tagged StructType)
    → IsClosed p
    → IsWellPlaced s
    → length p.structs.store ≤ length s.store
    → All (StructWithin (sizes (record p { structs = s }))) s.store
    → IsClosed (record p { structs = s })
set_structs-IsClosed p s h placed le within =
    let larger = set_structs-Fits p s le in
    let n = sizes p in
    let k = sizes (record p { structs = s }) in
    record {
      structs = placed;
      unions = h.unions;
      enums = h.enums;
      typedefs = h.typedefs;
      struct_fields = within;
      union_fields = unions-larger n k larger p.unions.store h.union_fields;
      defs = defs-larger n k larger p.def_store h.defs;
      types = types-larger n k larger p.types h.types;
    }

pub set_unions-IsClosed :
    (p : TypeInfo) (s : Tagged UnionType)
    → IsClosed p
    → IsWellPlaced s
    → length p.unions.store ≤ length s.store
    → All (UnionWithin (sizes (record p { unions = s }))) s.store
    → IsClosed (record p { unions = s })
set_unions-IsClosed p s h placed le within =
    let larger = set_unions-Fits p s le in
    let n = sizes p in
    let k = sizes (record p { unions = s }) in
    record {
      structs = h.structs;
      unions = placed;
      enums = h.enums;
      typedefs = h.typedefs;
      struct_fields = structs-larger n k larger p.structs.store h.struct_fields;
      union_fields = within;
      defs = defs-larger n k larger p.def_store h.defs;
      types = types-larger n k larger p.types h.types;
    }

pub set_enums-IsClosed :
    (p : TypeInfo) (s : Tagged EnumType)
    → IsClosed p
    → IsWellPlaced s
    → length p.enums.store ≤ length s.store
    → IsClosed (record p { enums = s })
set_enums-IsClosed p s h placed le =
    let larger = set_enums-Fits p s le in
    let n = sizes p in
    let k = sizes (record p { enums = s }) in
    record {
      structs = h.structs;
      unions = h.unions;
      enums = placed;
      typedefs = h.typedefs;
      struct_fields = structs-larger n k larger p.structs.store h.struct_fields;
      union_fields = unions-larger n k larger p.unions.store h.union_fields;
      defs = defs-larger n k larger p.def_store h.defs;
      types = types-larger n k larger p.types h.types;
    }
