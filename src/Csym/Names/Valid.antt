-- ===== src/Csym/Names/Valid.antt =====
-- The names that validName gives.
use psx_mnd_sym.Prelude.{
  ℕ, zero, suc, ◌≡◌, refl, [], ◌∷◌, Text, true, ◌==◌, ◌||◌, if◌then◌else◌, arith, All, Bool-cases,
  inl, inr, ◌<◌, subst, ◌↔◌,
}
use psx_mnd_sym.Csym.Names.{is_kept, more_bytes, valid_runes, valid_name}

-- A byte that may stand in a C identifier: a letter, a digit or an underscore.
abbrev pub IsIdentifierByte : ℕ → Type 0
IsIdentifierByte b = (is_kept b || b == 95) ≡ true

kept-IsIdentifierByte : (b : ℕ) → IsIdentifierByte (if is_kept b then b else 95)
kept-IsIdentifierByte b = elim (Bool-cases (is_kept b)) [
  | inl e ↦ rw (e, e) refl
  | inr e ↦ rw e (ground arith)
]

valid_runes-All : (skip : ℕ) (s : Text) → All IsIdentifierByte (valid_runes skip s)
unfolding valid_runes
valid_runes-All skip [] = tt
valid_runes-All (suc skip) (b ∷ s) = valid_runes-All skip s
valid_runes-All zero (b ∷ s) = (kept-IsIdentifierByte b, valid_runes-All (more_bytes b s) s)

identifier_byte_bound : (b : ℕ) → IsIdentifierByte b → b < 0x80
unfolding is_kept
identifier_byte_bound b h = ground arith

-- A byte below 0x80 is a rune of its own.
more_bytes-small : (b : ℕ) (s : Text) → b < 0x80 → more_bytes b s ≡ 0
unfolding more_bytes
more_bytes-small b [] h = refl
more_bytes-small b (c ∷ []) h = ground arith
more_bytes-small b (c ∷ d ∷ []) h = ground arith
more_bytes-small b (c ∷ d ∷ e ∷ s) h = ground arith

identifier_byte_kept : (b : ℕ) → IsIdentifierByte b → (if is_kept b then b else 95) ≡ b
identifier_byte_kept b h = elim (Bool-cases (is_kept b)) [
  | inl e ↦ rw e refl
  | inr e ↦ ground arith
]

valid_runes-identifier : (s : Text) → All IsIdentifierByte s → valid_runes 0 s ≡ s
unfolding valid_runes
valid_runes-identifier [] h = refl
valid_runes-identifier (b ∷ s) h =
    rw
      (
        more_bytes-small b s (identifier_byte_bound b h.0),
        identifier_byte_kept b h.0,
        valid_runes-identifier s h.1,
      )
      refl

pub valid_name-All : (s : Text) → All IsIdentifierByte (valid_name s)
unfolding valid_name
valid_name-All s = valid_runes-All 0 s

-- validName leaves a name as it is exactly if each of its bytes is a letter, a digit or an underscore,
-- also if it begins with a digit or is empty, where it is no C identifier. What validName gives for
-- any name, it leaves as it is.
pub valid_name_iff :
    (s : Text)
    → ((valid_name s ≡ s) ↔ All IsIdentifierByte s) × (valid_name (valid_name s) ≡ valid_name s)
unfolding valid_name
valid_name_iff s = (
  (λ e. subst (All IsIdentifierByte) e (valid_name-All s), valid_runes-identifier s),
  valid_runes-identifier (valid_name s) (valid_name-All s),
)
