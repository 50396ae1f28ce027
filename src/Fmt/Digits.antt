-- ===== src/Fmt/Digits.antt =====
-- The digits of a number determine it, and are below the base.
use native.Mathlib.Nat.{div-add-mod', mod-lt, div-lt_self}
use psx_mnd_sym.Prelude.{
  ℕ, zero, suc, ◌+◌, ◌*◌, ◌/◌, ◌%◌, ◌≤◌, ◌<◌, ◌≡◌, refl, true, false, List, [], ◌∷◌, ◌++◌, arith,
  ltb, Bool-cases, ltb→lt, ltb→ge, inl, inr, All, All-append,
}
use psx_mnd_sym.Fmt.{digits}

-- The number that a list of digits stands for, highest first, behind what was read before.
unfoldable pub value : ℕ → ℕ → List ℕ → ℕ
value base acc [] = acc
value base acc (d ∷ ds) = value base (acc * base + d) ds

value-append :
    (base acc : ℕ) (ds es : List ℕ) → value base acc (ds ++ es) ≡ value base (value base acc ds) es
unfolding value
value-append base acc [] es = refl
value-append base acc (d ∷ ds) es = value-append base (acc * base + d) ds es

digits_small : (fuel base n : ℕ) → ltb n base ≡ true → digits (suc fuel) base n ≡ n ∷ []
unfolding digits
digits_small fuel base n h = rw (h, digits)

digits_big :
    (fuel base n : ℕ)
    → ltb n base ≡ false
    → digits (suc fuel) base n ≡ digits fuel base (n / base) ++ n % base ∷ []
unfolding digits
digits_big fuel base n h = rw (h, digits)

value_last :
    (base n : ℕ) (ds : List ℕ) → value base 0 ds ≡ n / base → value base 0 (ds ++ n % base ∷ []) ≡ n
value_last base n ds h = rw (value-append base 0 ds, h) (unfold value in div-add-mod' n base)

pub value-digits : (fuel base n : ℕ) → 2 ≤ base → n < fuel → value base 0 (digits fuel base n) ≡ n
value-digits zero base n hb h = absurd (omega arith)
value-digits (suc fuel) base n hb h = elim (Bool-cases (ltb n base)) [
  | inl small ↦ rw (digits_small fuel base n small) (unfold value in omega arith)
  | inr big ↦
      let wide = ltb→ge n base big in
      let shorter = div-lt_self {n = n} {k = base} (omega arith) hb in
      rw (digits_big fuel base n big)
        (value_last base n _ (value-digits fuel base (n / base) hb (omega arith)))
]

pub digits_bounds : (fuel base n : ℕ) → 2 ≤ base → All (λ d. d < base) (digits fuel base n)
digits_bounds zero base n hb = unfold digits in tt
digits_bounds (suc fuel) base n hb = elim (Bool-cases (ltb n base)) [
  | inl small ↦ rw (digits_small fuel base n small) (ltb→lt n base small, tt)
  | inr big ↦ rw (digits_big fuel base n big) (
      All-append (λ d. d < base) _ _ (digits_bounds fuel base (n / base) hb)
        (mod-lt n (omega arith), tt))
]
