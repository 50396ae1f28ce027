-- ===== src/Csym/Fixups/Replace/Total.antt =====
-- ReplaceUsedTypes returns for a parser whose unions do not reach themselves.
use psx_mnd_sym.Prelude.{ℕ, ◌<◌, ◌≡◌, List, ◌∷◌, Result, ok, All, length}
use psx_mnd_sym.C.Ast.{Field, StructType, UnionType, Block, FuncDecl}
use psx_mnd_sym.Csym.State.{Panic, Overlay, Parser}
use psx_mnd_sym.Csym.Fixups.Replace.{Remap}
use psx_mnd_sym.Csym.Fixups.Replace.Stores.{HoldsAt}
use psx_mnd_sym.Csym.Fixups.Replace.Ends.{IsLow, DeclLow, IsRanked}

-- A store in which each place holds something low; all places are in it.
abbrev pub IsReady : {T : Type 0} → (T → Type 0) → List ℕ → List T → Type 0
IsReady P places store = All (λ i. i < length store) places × ((i : ℕ) → HoldsAt P store i)

module _ (r : Remap) (rank : ℕ → ℕ) (count fuel : ℕ) where
  abbrev pub FieldLow : Field → Type 0
  FieldLow f = IsLow r rank count fuel f.type

  abbrev pub StructLow : StructType → Type 0
  StructLow t = All FieldLow t.fields × All FieldLow t.methods

  abbrev pub BlockLow : Block → Type 0
  BlockLow b = All (DeclLow r rank count fuel) b.locals

  abbrev pub FuncLow : FuncDecl → Type 0
  FuncLow f = IsLow r rank count fuel f.type × All BlockLow f.blocks

  abbrev pub OverlayLow : Overlay → Type 0
  OverlayLow o = All (DeclLow r rank count fuel) o.vars × All FuncLow o.funcs

  -- The step returns something of which `P` holds, and the unions stay ranked.
  abbrev Passes : {A : Type 0} → (A → Type 0) → Result Panic (A × List UnionType) → Type 0
  Passes P step = (result : _) × (step ≡ ok result) × P result.0 × IsRanked r rank count result.1

  -- All that the parser's lists lead to is in the stores, and its unions, as they are to be replaced, lead to
  -- unions of lower rank only, all below the fuel.
  pub record IsAcyclic (p : Parser) : Type 0 where
    pub structs : IsReady StructLow p.info.structs.order p.info.structs.store
    pub unions : All (λ i. (i < count) × (rank i < fuel)) p.info.unions.order
    pub ranked : IsRanked r rank count p.info.unions.store
    pub overlays : IsReady OverlayLow (0 ∷ p.overlays) p.overlay_store
