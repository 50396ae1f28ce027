-- ===== src/Sym/Symbol/Print/Total.antt =====
-- No String method of a symbol panics: the index tables cover every code that reaches them.
use psx_mnd_sym.Prelude.{
  ℕ, zero, suc, ◌+◌, ◌-◌, ◌%◌, ◌/◌, ◌≢◌, ◌<◌, ◌≡◌, refl, List, [], ◌∷◌, Text, arith, Option, none,
  some, length, get_elem?, inl, inr, Bool-cases, leb, ◌==◌, ◌&&◌, Option-cases,
}
use psx_mnd_sym.Sym.Class.{
  class_string, indexed, class_name_0, class_index_0, class_name_2, class_index_2, class_name_3,
  class_index_3, class_name_4, class_index_4,
}
use psx_mnd_sym.Sym.Types.{
  base, base_string, mod_string, base_name, base_index, mod_name, mod_index,
}
use psx_mnd_sym.Sym.Types.Decode.{crumbs, mods-crumbs}
use psx_mnd_sym.Sym.Symbol.{Def, Def2, SymbolBody, inc_sld, def, def2}
use psx_mnd_sym.Sym.Symbol.Print.{mod_strings, type_string, def_string, def2_string, body_string}

-- A string that is computed without a panic.
abbrev pub Prints : Option Text → Type 0
Prints o = o ≢ none

get_elem?-some : (xs : List ℕ) (i : ℕ) → i < length xs → (x : ℕ) × (get_elem? xs i ≡ some x)
get_elem?-some [] i h = absurd (omega arith)
get_elem?-some (x ∷ xs) zero h = (x, refl)
get_elem?-some (x ∷ xs) (suc i) h = get_elem?-some xs i (omega arith)

indexed-Prints :
    (name : Text) (index : List ℕ) (i : ℕ) → i + 1 < length index → Prints (indexed name index i)
indexed-Prints name index i h =
    let (lo, e) = get_elem?-some index i (omega arith) in
    let (hi, e') = get_elem?-some index (i + 1) h in ground arith

class_string-Prints : (i : ℕ) → Prints (class_string i)
unfolding class_string
class_string-Prints i = elim (Bool-cases (leb 1 i && leb i 4)) [
  | inl h ↦ rw h (indexed-Prints class_name_0 class_index_0 (i - 1) (ground arith))
  | inr h₁ ↦ rw h₁ (elim (Bool-cases (i == 6)) [
    | inl h ↦ rw h (λ q. cc)
    | inr h₂ ↦ rw h₂ (elim (Bool-cases (leb 8 i && leb i 13)) [
      | inl h ↦ rw h (indexed-Prints class_name_2 class_index_2 (i - 8) (ground arith))
      | inr h₃ ↦ rw h₃ (elim (Bool-cases (leb 15 i && leb i 18)) [
        | inl h ↦ rw h (indexed-Prints class_name_3 class_index_3 (i - 15) (ground arith))
        | inr h₄ ↦ rw h₄ (elim (Bool-cases (leb 102 i && leb i 103)) [
          | inl h ↦ rw h (indexed-Prints class_name_4 class_index_4 (i - 102) (ground arith))
          | inr h₅ ↦ rw h₅ (λ q. cc)
        ])
      ])
    ])
  ])
]

base_string-Prints : (i : ℕ) → Prints (base_string i)
unfolding base_string
base_string-Prints i = elim (Bool-cases (leb 16 i)) [
  | inl h ↦ rw h (λ q. cc)
  | inr h ↦ rw h (indexed-Prints base_name base_index i (ground arith))
]

mod_string-Prints : (m : ℕ) → Prints (mod_string m)
unfolding mod_string
mod_string-Prints m = elim (Bool-cases (leb 3 ((m + 255) % 256))) [
  | inl h ↦ rw h (λ q. cc)
  | inr h ↦ rw h (indexed-Prints mod_name mod_index ((m + 255) % 256) (ground arith))
]

mod_strings-ne-none : (ms : List ℕ) → mod_strings ms ≢ none
unfolding mod_strings
mod_strings-ne-none [] = λ q. cc
mod_strings-ne-none (m ∷ ms) = ground (arith, mod_string-Prints m, mod_strings-ne-none ms)

type_string-Prints : (t : ℕ) → Prints (type_string t)
unfolding type_string
type_string-Prints t =
    rw (mods-crumbs t, type_string)
      (ground (arith, mod_strings-ne-none (crumbs 6 (t / 16)), base_string-Prints (base t)))

def_string-Prints : (b : Def) → Prints (def_string b)
unfolding def_string
def_string-Prints b = ground (arith, class_string-Prints b.class, type_string-Prints b.type)

def2_string-Prints : (b : Def2) → Prints (def2_string b)
unfolding def2_string
def2_string-Prints b = ground (arith, class_string-Prints b.class, type_string-Prints b.type)

body_string-ne-none : (b : SymbolBody) → Prints (body_string b)
unfolding body_string
body_string-ne-none (def b) = def_string-Prints b
body_string-ne-none (def2 b) = def2_string-Prints b
body_string-ne-none inc_sld = λ q. cc
body_string-ne-none _ = λ q. cc

-- String of every body returns, whatever class and type code it holds.
pub body_string-Prints : (b : SymbolBody) → (t : Text) × (body_string b ≡ some t)
body_string-Prints b = elim (Option-cases (body_string b)) [
  | inl e ↦ absurd (body_string-ne-none b e)
  | inr found ↦ found
]
