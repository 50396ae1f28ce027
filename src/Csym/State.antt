-- ===== src/Csym/State.antt =====
-- csym/parse.go: the state of the parser. Every pointer is a place in a store: structs, unions, enums
-- and type definitions each have one store, that only grows.
use psx_mnd_sym.Prelude.{
  ℕ, ◌≡◌, refl, inl, inr, List, [], ◌∷◌, Text, text_eq, text_eq_refl, Bool-cases, if◌then◌else◌,
  Option, none, some,
}
use psx_mnd_sym.Sym.Types.{ModPanic}
use psx_mnd_sym.C.Ast.{CType, VarDecl, StructType, UnionType, EnumType, FuncDecl}

-- A map is the list of its entries; the first with a key counts.
abbrev pub Map {ℓ} : Type ℓ → Type ℓ
Map A = List (Text × A)

module _ {ℓ} {A : Type ℓ} where
  unfoldable pub lookup : Text → Map A → Option A
  lookup key [] = none
  lookup key ((k, a) ∷ m) = if text_eq key k then some a else lookup key m

  -- An assignment to a key: its value replaced, or a new entry.
  unfoldable pub insert : Text → A → Map A → Map A
  insert key a [] = (key, a) ∷ []
  insert key a ((k, b) ∷ m) = if text_eq key k then (k, a) ∷ m else (k, b) ∷ insert key a m

  -- What is assigned to a key is what is read there.
  pub lookup-insert_same : (key : Text) (a : A) (m : Map A) → lookup key (insert key a m) ≡ some a
  unfolding lookup insert
  lookup-insert_same key a [] = rw (text_eq_refl key) refl
  lookup-insert_same key a ((k, b) ∷ m) = elim (Bool-cases (text_eq key k)) [
    | inl e ↦ rw (e, e) refl
    | inr e ↦ rw (e, e) (lookup-insert_same key a m)
  ]

-- What `m[key]` gives for a map of slices: nil for a key that is missing.
abbrev pub slice_at {ℓ} : {A : Type ℓ} → Text → Map (List A) → List A
slice_at key m = elim (lookup key m) [ none ↦ [] | some xs ↦ xs ]

-- The panics of the package, by their cause.
pub data Panic : Type 0 where
  unsupported_base unsupported_class : ℕ → Panic
  missing_tag : Text → Panic
  invalid_mods : ModPanic → Panic
  missing_overlay : ℕ → Panic
  index_out_of_range nil_dereference unreachable invalid_func_type unsupported_symbol
        stack_overflow :
      Panic

-- The types of one sort that have tags: their store, the order of occurrence, and the places by tag.
pub record Tagged {ℓ} (T : Type ℓ) : Type ℓ where
  pub store : List T
  pub order : List ℕ
  pub tags : Map (List ℕ)

-- The part of Parser that holds the type information. `def_store` holds the type definitions that
-- the maps and slices point to.
pub record TypeInfo : Type 0 where
  pub structs : Tagged StructType
  pub unions : Tagged UnionType
  pub enums : Tagged EnumType
  pub def_store : List VarDecl
  pub types : Map CType
  pub typedefs : List ℕ
  pub enum_members : List Text

-- Symbol of parse.go.
pub record SymbolEntry : Type 0 where
  pub addr : ℕ
  pub name : Text

pub record Line : Type 0 where
  pub addr : ℕ
  pub path : Text
  pub line : ℕ

-- The maps give places in `vars` and `funcs`.
pub record Overlay : Type 0 where
  pub addr : ℕ
  pub id : ℕ
  pub length : ℕ
  pub vars : List VarDecl
  pub funcs : List FuncDecl
  pub var_names : Map (List ℕ)
  pub func_names : Map (List ℕ)
  pub symbols : List SymbolEntry
  pub lines : List Line

-- `overlay_store` holds the default binary, at place 0, and the overlays.
pub record Parser : Type 0 where
  pub info : TypeInfo
  pub overlay_store : List Overlay
  pub overlays : List ℕ
  pub overlay_ids : List (ℕ × ℕ)
  pub cur_overlay : ℕ

abbrev pub new_tagged {ℓ} : {T : Type ℓ} → Tagged T
new_tagged = record { store = []; order = []; tags = [] }

abbrev pub new_info : TypeInfo
new_info = record {
  structs = new_tagged;
  unions = new_tagged;
  enums = new_tagged;
  def_store = [];
  types = [];
  typedefs = [];
  enum_members = [];
}

abbrev pub new_overlay : ℕ → ℕ → ℕ → Overlay
new_overlay addr id len = record {
  addr = addr;
  id = id;
  length = len;
  vars = [];
  funcs = [];
  var_names = [];
  func_names = [];
  symbols = [];
  lines = [];
}

-- NewParser
abbrev pub new_parser : Parser
new_parser = record {
  info = new_info;
  overlay_store = new_overlay 0 0 0 ∷ [];
  overlays = [];
  overlay_ids = [];
  cur_overlay = 0;
}
