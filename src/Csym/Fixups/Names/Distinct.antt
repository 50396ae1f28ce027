-- ===== src/Csym/Fixups/Names/Distinct.antt =====
-- The names that makeVarNamesUniqueInOverlay gives.
use psx_mnd_sym.Prelude.{
  ℕ, ◌≡◌, ◌≢◌, refl, sym, ap, ap₂, ◌↔◌, subst, ◌∙◌, ◌⊎◌, inl, inr, List, [], ◌∷◌, ◌++◌, Text, codes,
  false, if◌then◌else◌, Bool-cases, some, Option-cases, All, get_elem?, set, cancel_left,
}
use psx_mnd_sym.Fmt.{upper_hex, zero_pad}
use psx_mnd_sym.Fmt.Unique.{upper_hex_injective}
use psx_mnd_sym.C.Ast.{VarDecl, var_decl, decl_addr, decl_name, decl_class}
use psx_mnd_sym.Csym.Names.{unique_name}
use psx_mnd_sym.Csym.Fixups.Names.{is_extern, extern_at, rename_var, rename_var_at, rename_vars}
use psx_mnd_sym.Csym.Fixups.Replace.Stores.{get_elem?-set_here, get_elem?-set_other}

unique_name_injective : (name : Text) (a b : ℕ) → unique_name name a ≡ unique_name name b → a ≡ b
unfolding unique_name
unique_name_injective name a b e =
    upper_hex_injective 8 a b
      (cancel_left (zero_pad 8 (upper_hex a)) (zero_pad 8 (upper_hex b)) (name ++ codes "_addr_") e)

-- One round of the loop.
abbrev rename_step : ℕ → List VarDecl → List VarDecl
rename_step k vars = if extern_at vars k then vars else rename_var_at k vars

rename_step_other :
    (k i : ℕ) (vars : List VarDecl) → i ≢ k → get_elem? (rename_step k vars) i ≡ get_elem? vars i
rename_step_other k i vars h = elim (Bool-cases (extern_at vars k)) [
  | inl e ↦ rw e refl
  | inr e ↦ elim (Option-cases (get_elem? vars k)) [
    | inl missing ↦ rw (e, rename_var_at, missing) refl
    | inr (v, there) ↦ rw (e, rename_var_at, there) (get_elem?-set_other vars k i (rename_var v) h)
  ]
]

rename_step_here :
    (k : ℕ) (vars : List VarDecl) (v : VarDecl)
    → get_elem? vars k ≡ some v
    → is_extern (decl_class v) ≡ false
    → get_elem? (rename_step k vars) k ≡ some (rename_var v)
rename_step_here k vars v there real =
    let stays : extern_at vars k ≡ false = rw (extern_at, there) real in
    let renamed : rename_var_at k vars ≡ set vars k (rename_var v) =
      rw (rename_var_at, there) refl in
    rw stays (
      subst (λ ws. get_elem? ws k ≡ some (rename_var v)) (sym renamed)
        (get_elem?-set_here vars k (rename_var v) v there))

-- No place twice.
abbrev pub AllApart : List ℕ → Type 0
AllApart [] = Unit {0}
AllApart (i ∷ places) = All (λ j. i ≢ j) places × AllApart places

rename_vars_other :
    (i : ℕ) (places : List ℕ) (vars : List VarDecl)
    → All (λ j. i ≢ j) places
    → get_elem? (rename_vars places vars) i ≡ get_elem? vars i
unfolding rename_vars
rename_vars_other i [] vars h = refl
rename_vars_other i (k ∷ places) vars h =
    rename_vars_other i places (rename_step k vars) h.1 ∙ rename_step_other k i vars h.0

-- The place is in the list.
abbrev pub IsIn : ℕ → List ℕ → Type 0
IsIn i [] = ⊥
IsIn i (k ∷ places) = (i ≡ k) ⊎ IsIn i places

not_first : (i k : ℕ) (places : List ℕ) → All (λ j. k ≢ j) places → IsIn i places → i ≢ k
not_first i k [] h inside e = elim inside [ ]
not_first i k (j ∷ places) h (inl same) e = h.0 (sym e ∙ same)
not_first i k (j ∷ places) h (inr later) e = not_first i k places h.1 later e

same_addr : (v : VarDecl) → decl_addr (rename_var v) ≡ decl_addr v
same_addr (var_decl addr size class t name) = refl

shared_name :
    (v w : VarDecl)
    → decl_name v ≡ decl_name w
    → decl_addr v ≡ decl_addr w
    → decl_name (rename_var v) ≡ decl_name (rename_var w)
shared_name (var_decl a1 s1 c1 t1 n1) (var_decl a2 s2 c2 t2 n2) same place =
    ap₂ unique_name same place

rename_vars_here :
    (i : ℕ) (places : List ℕ) (vars : List VarDecl) (v : VarDecl)
    → AllApart places
    → IsIn i places
    → get_elem? vars i ≡ some v
    → is_extern (decl_class v) ≡ false
    → get_elem? (rename_vars places vars) i ≡ some (rename_var v)
unfolding rename_vars
rename_vars_here i [] vars v apart inside there real = elim inside [ ]
rename_vars_here i (k ∷ places) vars v apart (inl same) there real =
    let others = subst (λ m. All (λ j. m ≢ j) places) (sym same) apart.0 in
    rename_vars_other i places (rename_step k vars) others
    ∙ subst (λ m. get_elem? (rename_step m vars) i ≡ some (rename_var v)) same
        (rename_step_here i vars v there real)
rename_vars_here i (k ∷ places) vars v apart (inr later) there real =
    let still = rename_step_other k i vars (not_first i k places apart.0 later) ∙ there in
    rename_vars_here i places (rename_step k vars) v apart.1 later still real

same_name :
    (v w : VarDecl)
    → decl_name v ≡ decl_name w
    → decl_name (rename_var v) ≡ decl_name (rename_var w)
    → decl_addr v ≡ decl_addr w
same_name (var_decl a1 s1 c1 t1 n1) (var_decl a2 s2 c2 t2 n2) same e =
    unique_name_injective n1 a1 a2 (e ∙ ap (λ n. unique_name n a2) (sym same))

-- The second loop of makeVarNamesUniqueInOverlay, over places of which none comes twice: of two variables with
-- one name at such places, neither an extern declaration, each keeps its address, and their new names are equal
-- exactly if their addresses are.
pub rename_vars-lem :
    (places : List ℕ) (vars : List VarDecl) (i j : ℕ) (v w : VarDecl)
    → AllApart places
    → IsIn i places
    → IsIn j places
    → get_elem? vars i ≡ some v
    → get_elem? vars j ≡ some w
    → is_extern (decl_class v) ≡ false
    → is_extern (decl_class w) ≡ false
    → decl_name v ≡ decl_name w
    → (v' : VarDecl) × (w' : VarDecl) × (get_elem? (rename_vars places vars) i ≡ some v')
      × (get_elem? (rename_vars places vars) j ≡ some w')
      × (decl_addr v' ≡ decl_addr v)
      × (decl_addr w' ≡ decl_addr w)
      × ((decl_name v' ≡ decl_name w') ↔ (decl_addr v ≡ decl_addr w))
rename_vars-lem places vars i j v w apart inside inside' there there' real real' same = (
  rename_var v,
  rename_var w,
  rename_vars_here i places vars v apart inside there real,
  rename_vars_here j places vars w apart inside' there' real',
  same_addr v,
  same_addr w,
  (same_name v w same, shared_name v w same),
)
