-- ===== src/Csym/Closed.antt =====
-- The objects of its stores that the types of a parser (csym/parse.go) lead to.
pub mod Stores
pub mod Types
pub mod Typedefs
pub mod Tags
pub mod Whole
pub mod Funcs
pub mod FuncLoop
pub mod Decls
use psx_mnd_sym.Prelude.{All-each, ℕ, ◌≡◌, ◌≤◌, ◌<◌, List, [], ◌∷◌, Text, All, arith, length}
use psx_mnd_sym.C.Ast.{
  CType, Params, VarDecl, Field, StructType, UnionType, nil_type, base, struct_ref, union_ref,
  enum_ref, def_ref, pointer, array, func, nil, cons, var_decl,
}
use psx_mnd_sym.Csym.State.{TypeInfo}
use psx_mnd_sym.Csym.Tagged.Places.{IsWellPlaced, AllBelow}

-- How many objects there are in the stores.
pub record Sizes : Type 0 where
  pub structs : ℕ
  pub unions : ℕ
  pub enums : ℕ
  pub defs : ℕ

abbrev pub sizes : TypeInfo → Sizes
sizes p = record {
  structs = length p.structs.store;
  unions = length p.unions.store;
  enums = length p.enums.store;
  defs = length p.def_store;
}

-- No store is smaller.
pub record Fits (n k : Sizes) : Type 0 where
  pub structs : n.structs ≤ k.structs
  pub unions : n.unions ≤ k.unions
  pub enums : n.enums ≤ k.enums
  pub defs : n.defs ≤ k.defs

-- All that a type leads to directly is in the stores.
abbrev mutual
  pub IsWithin : Sizes → CType → Type 0
  IsWithin n nil_type = Unit {0}
  IsWithin n (base b) = Unit {0}
  IsWithin n (struct_ref i) = i < n.structs
  IsWithin n (union_ref i) = i < n.unions
  IsWithin n (enum_ref i) = i < n.enums
  IsWithin n (def_ref i) = i < n.defs
  IsWithin n (pointer t) = IsWithin n t
  IsWithin n (array t len) = IsWithin n t
  IsWithin n (func r ps variadic) = IsWithin n r × AreWithin n ps

  pub AreWithin : Sizes → Params → Type 0
  AreWithin n nil = Unit {0}
  AreWithin n (cons v ps) = DeclWithin n v × AreWithin n ps

  pub DeclWithin : Sizes → VarDecl → Type 0
  DeclWithin n (var_decl addr size class t name) = IsWithin n t

abbrev pub FieldWithin : Sizes → Field → Type 0
FieldWithin n f = IsWithin n f.type

abbrev pub StructWithin : Sizes → StructType → Type 0
StructWithin n t = All (FieldWithin n) t.fields × All (FieldWithin n) t.methods

abbrev pub UnionWithin : Sizes → UnionType → Type 0
UnionWithin n t = All (FieldWithin n) t.fields

abbrev pub EntryWithin : Sizes → Text × CType → Type 0
EntryWithin n e = IsWithin n e.1

-- All that the lists, the maps and the types of the stores lead to is in the stores.
pub record IsClosed (p : TypeInfo) : Type 0 where
  pub structs : IsWellPlaced p.structs
  pub unions : IsWellPlaced p.unions
  pub enums : IsWellPlaced p.enums
  pub typedefs : AllBelow (length p.def_store) p.typedefs
  pub struct_fields : All (StructWithin (sizes p)) p.structs.store
  pub union_fields : All (UnionWithin (sizes p)) p.unions.store
  pub defs : All (DeclWithin (sizes p)) p.def_store
  pub types : All (EntryWithin (sizes p)) p.types

pub Fits-refl : (n : Sizes) → Fits n n
Fits-refl n = record {
  structs = omega arith;
  unions = omega arith;
  enums = omega arith;
  defs = omega arith;
}

pub Fits-trans : (n k m : Sizes) → Fits n k → Fits k m → Fits n m
Fits-trans n k m h g = record {
  structs = omega (arith, h.structs, g.structs);
  unions = omega (arith, h.unions, g.unions);
  enums = omega (arith, h.enums, g.enums);
  defs = omega (arith, h.defs, g.defs);
}

-- In larger stores, the same types are.
module _ (n k : Sizes) (larger : Fits n k) where
  mutual
    pub IsWithin-larger : (t : CType) → IsWithin n t → IsWithin k t
    IsWithin-larger nil_type h = tt
    IsWithin-larger (base b) h = tt
    IsWithin-larger (struct_ref i) h = omega (arith, h, larger.structs)
    IsWithin-larger (union_ref i) h = omega (arith, h, larger.unions)
    IsWithin-larger (enum_ref i) h = omega (arith, h, larger.enums)
    IsWithin-larger (def_ref i) h = omega (arith, h, larger.defs)
    IsWithin-larger (pointer t) h = IsWithin-larger t h
    IsWithin-larger (array t len) h = IsWithin-larger t h
    IsWithin-larger (func r ps variadic) h = (IsWithin-larger r h.0, AreWithin-larger ps h.1)

    AreWithin-larger : (ps : Params) → AreWithin n ps → AreWithin k ps
    AreWithin-larger nil h = tt
    AreWithin-larger (cons v ps) h = (DeclWithin-larger v h.0, AreWithin-larger ps h.1)

    pub DeclWithin-larger : (v : VarDecl) → DeclWithin n v → DeclWithin k v
    DeclWithin-larger (var_decl addr size class t name) h = IsWithin-larger t h

  fields-larger : (fs : List Field) → All (FieldWithin n) fs → All (FieldWithin k) fs
  fields-larger fs h = All-each (FieldWithin n) (FieldWithin k) fs (λ f. IsWithin-larger f.type) h

  pub structs-larger : (ts : List StructType) → All (StructWithin n) ts → All (StructWithin k) ts
  structs-larger ts h =
      All-each (StructWithin n) (StructWithin k) ts
        (λ t w. (fields-larger t.fields w.0, fields-larger t.methods w.1)) h

  pub unions-larger : (ts : List UnionType) → All (UnionWithin n) ts → All (UnionWithin k) ts
  unions-larger ts h = All-each (UnionWithin n) (UnionWithin k) ts (λ t. fields-larger t.fields) h

  pub defs-larger : (vs : List VarDecl) → All (DeclWithin n) vs → All (DeclWithin k) vs
  defs-larger vs h = All-each (DeclWithin n) (DeclWithin k) vs DeclWithin-larger h

  pub types-larger : (m : List (Text × CType)) → All (EntryWithin n) m → All (EntryWithin k) m
  types-larger m h = All-each (EntryWithin n) (EntryWithin k) m (λ e. IsWithin-larger e.1) h
