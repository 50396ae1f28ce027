-- ===== src/C/Ast.antt =====
-- The types of csym/c/type.go and csym/c/c.go. A pointer to a StructType, UnionType, EnumType or to
-- the VarDecl of a type definition is its place in the parser's store; pointer, array and function
-- types have one owner each, and are values.
use psx_mnd_sym.Prelude.{ℕ, Text, Bool, List}

pub data BaseType : Type 0 where
  void char short int long uchar ushort uint ulong : BaseType

-- `no_class` is the zero value, for no storage class.
pub data StorageClass : Type 0 where
  no_class auto extern static register typedef : StorageClass

mutual
  -- `nil_type` is the nil interface value.
  pub data CType : Type 0 where
    nil_type : CType
    base : BaseType → CType
    struct_ref union_ref enum_ref def_ref : ℕ → CType
    pointer : CType → CType
    array : CType → ℕ → CType
    func : CType → Params → Bool → CType

  pub data Params : Type 0 where
    nil : Params
    cons : VarDecl → Params → Params

  -- Address, size, storage class, type and name.
  pub data VarDecl : Type 0 where
    var_decl : ℕ → ℕ → StorageClass → CType → Text → VarDecl

abbrev pub decl_addr : VarDecl → ℕ
decl_addr (var_decl addr size class t name) = addr

abbrev pub decl_class : VarDecl → StorageClass
decl_class (var_decl addr size class t name) = class

abbrev pub decl_type : VarDecl → CType
decl_type (var_decl addr size class t name) = t

abbrev pub decl_name : VarDecl → Text
decl_name (var_decl addr size class t name) = name

-- Field of a structure or union.
pub record Field : Type 0 where
  pub offset : ℕ
  pub size : ℕ
  pub type : CType
  pub name : Text

pub record StructType : Type 0 where
  pub size : ℕ
  pub tag : Text
  pub fields : List Field
  pub methods : List Field

pub record UnionType : Type 0 where
  pub size : ℕ
  pub tag : Text
  pub fields : List Field

pub record EnumMember : Type 0 where
  pub value : ℕ
  pub name : Text

pub record EnumType : Type 0 where
  pub tag : Text
  pub members : List EnumMember

pub record Block : Type 0 where
  pub line_start : ℕ
  pub line_end : ℕ
  pub locals : List VarDecl

pub record FuncDecl : Type 0 where
  pub path : Text
  pub addr : ℕ
  pub size : ℕ
  pub line_start : ℕ
  pub line_end : ℕ
  pub type : CType
  pub name : Text
  pub blocks : List Block
