-- ===== src/Sym/Names.antt =====
-- The generated String methods against the names that the line comments of class.go, kind.go and
-- type.go give the constants.
use psx_mnd_sym.Prelude.{
  ℕ, zero, suc, ◌≤◌, ◌<◌, ◌≡◌, refl, List, [], ◌∷◌, ◌++◌, Text, codes, arith, Option, none, some,
  Bool, true, false, ◌==◌, leb, if◌then◌else◌, text_eq, text_eq→eq, inl, inr, Bool-cases,
}
use psx_mnd_sym.Fmt.{dec}
use psx_mnd_sym.Sym.Kind
use psx_mnd_sym.Sym.Kind.{kind_string}
use psx_mnd_sym.Sym.Class
use psx_mnd_sym.Sym.Class.{class_string}

abbrev Names : Type 0
Names = List (ℕ × Text)

-- The name of a constant, or the type's name with the number.
unfoldable pub name_in : Names → Text → ℕ → Text
unfolding dec
name_in [] type i = type ++ codes "(" ++ dec i ++ codes ")"
name_in ((k, n) ∷ names) type i = if k == i then n else name_in names type i

abbrev pub class_names : Names
class_names =
    (Class.auto, codes "AUTO")
    ∷ (Class.ext, codes "EXT")
    ∷ (Class.stat, codes "STAT")
    ∷ (Class.reg, codes "REG")
    ∷ (Class.label, codes "LABEL")
    ∷ (Class.mos, codes "MOS")
    ∷ (Class.arg, codes "ARG")
    ∷ (Class.strtag, codes "STRTAG")
    ∷ (Class.mou, codes "MOU")
    ∷ (Class.untag, codes "UNTAG")
    ∷ (Class.tpdef, codes "TPDEF")
    ∷ (Class.entag, codes "ENTAG")
    ∷ (Class.moe, codes "MOE")
    ∷ (Class.regparm, codes "REGPARM")
    ∷ (Class.field, codes "FIELD")
    ∷ (Class.eos, codes "EOS")
    ∷ (Class.class103, codes "103")
    ∷ []

abbrev pub kind_names : Names
kind_names =
    (Kind.name1, codes "1")
    ∷ (Kind.name2, codes "2")
    ∷ (Kind.name5, codes "5")
    ∷ (Kind.name6, codes "6")
    ∷ (Kind.inc_sld, codes "80")
    ∷ (Kind.inc_sld_byte, codes "82")
    ∷ (Kind.inc_sld_word, codes "84")
    ∷ (Kind.set_sld, codes "86")
    ∷ (Kind.set_sld2, codes "88")
    ∷ (Kind.end_sld, codes "8a")
    ∷ (Kind.func_start, codes "8c")
    ∷ (Kind.func_end, codes "8e")
    ∷ (Kind.block_start, codes "90")
    ∷ (Kind.block_end, codes "92")
    ∷ (Kind.def, codes "94")
    ∷ (Kind.def2, codes "96")
    ∷ (Kind.overlay, codes "overlay")
    ∷ (Kind.set_overlay, codes "set overlay")
    ∷ []

-- Whether a test passes on all numbers below a bound, from the top down.
passes_to : (ℕ → Bool) → ℕ → Bool
passes_to test zero = true
passes_to test (suc top) = let rest = passes_to test top in if test top then rest else false

passes_to→passes :
    (test : ℕ → Bool) (bound i : ℕ) → i < bound → passes_to test bound ≡ true → test i ≡ true
unfolding passes_to
passes_to→passes test zero i inside e = absurd (omega arith)
passes_to→passes test (suc top) i inside e = ground (arith, passes_to→passes test top i)

same : Option Text → Text → Bool
same none t = false
same (some s) t = text_eq s t

same→eq : (o : Option Text) (t : Text) → same o t ≡ true → o ≡ some t
unfolding same
same→eq none t h = cc
same→eq (some s) t h = ground (arith, text_eq→eq s t)

class_table :
    passes_to (λ i. same (class_string i) (name_in class_names (codes "Class") i)) 104 ≡ true
unfolding passes_to same class_string name_in text_eq
class_table = refl

kind_table :
    passes_to (λ i. text_eq (kind_string i) (name_in kind_names (codes "Kind") i)) 256 ≡ true
unfolding passes_to kind_string name_in text_eq
kind_table = refl

class_beyond : (i : ℕ) → 104 ≤ i → class_string i ≡ some (name_in class_names (codes "Class") i)
unfolding class_string name_in
class_beyond i h = ground arith

-- Class.String gives every code the name of its constant, and Class(n) to a code n without one; it
-- never runs out of its index tables.
pub class_string-name_in : (i : ℕ) → class_string i ≡ some (name_in class_names (codes "Class") i)
class_string-name_in i = elim (Bool-cases (leb 104 i)) [
  | inl far ↦ class_beyond i (ground arith)
  | inr near ↦ same→eq _ _ (
      passes_to→passes (λ k. same (class_string k) (name_in class_names (codes "Class") k)) 104 i
        (ground arith) class_table)
]

-- Kind.String gives every uint8 the name of its constant, and Kind(n) to a number n without one.
pub kind_string-name_in : (k : ℕ) → k < 256 → kind_string k ≡ name_in kind_names (codes "Kind") k
kind_string-name_in k h = text_eq→eq _ _ (
    passes_to→passes (λ i. text_eq (kind_string i) (name_in kind_names (codes "Kind") i)) 256 k h
      kind_table)
