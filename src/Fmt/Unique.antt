-- ===== src/Fmt/Unique.antt =====
-- Printed numbers are equal only where the numbers are.
use psx_mnd_sym.Prelude.{
  ℕ, zero, suc, ◌+◌, ◌-◌, ◌*◌, ◌≤◌, ◌<◌, ◌≡◌, refl, sym, ap, ◌∙◌, List, [], ◌∷◌, ◌++◌, map, arith,
  ltb, if◌then◌else◌, Text, All, replicate,
}
use psx_mnd_sym.Fmt.{digits, dec, hex, upper_hex, lower_digit, upper_digit, zero_pad}
use psx_mnd_sym.Fmt.Digits.{value, value-digits, digits_bounds}

-- The digit that a character stands for, of either case.
digit_value : ℕ → ℕ
digit_value c = if ltb c 58 then c - 48 else if ltb c 97 then c - 55 else c - 87

read_lower : (d : ℕ) → d < 16 → digit_value (lower_digit d) ≡ d
unfolding digit_value
read_lower d h = ground arith

read_upper : (d : ℕ) → d < 16 → digit_value (upper_digit d) ≡ d
unfolding digit_value
read_upper d h = ground arith

module _ (print : ℕ → ℕ) (read_print : (d : ℕ) → d < 16 → digit_value (print d) ≡ d) where
  map-read_print :
      (base : ℕ) (ds : List ℕ)
      → base ≤ 16
      → All (λ d. d < base) ds
      → map digit_value (map print ds) ≡ ds
  map-read_print base [] hb h = refl
  map-read_print base (d ∷ ds) hb h = rw (read_print d (omega arith), map-read_print base ds hb h.1)

  read_digits :
      (base n : ℕ)
      → 2 ≤ base
      → base ≤ 16
      → value base 0 (map digit_value (map print (digits (suc n) base n))) ≡ n
  read_digits base n h k =
      rw (map-read_print base (digits (suc n) base n) k (digits_bounds (suc n) base n h))
        (value-digits (suc n) base n h (omega arith))

-- Leading zeros do not change the value that is read.
value_zeros :
    (base k : ℕ) (s : Text)
    → value base 0 (map digit_value (replicate k 48 ++ s)) ≡ value base 0 (map digit_value s)
unfolding digit_value value
value_zeros base zero s = refl
value_zeros base (suc k) s =
    let start : 0 * base + 0 ≡ 0 = omega arith in rw (start, value) (value_zeros base k s)

read_padded_hex : (width n : ℕ) → value 16 0 (map digit_value (zero_pad width (upper_hex n))) ≡ n
read_padded_hex width n =
    rw value_zeros
      (unfold upper_hex in read_digits upper_digit read_upper 16 n (omega arith) (omega arith))

pub dec_injective : (a b : ℕ) → dec a ≡ dec b → a ≡ b
unfolding dec
dec_injective a b e =
    sym (read_digits lower_digit read_lower 10 a (omega arith) (omega arith))
    ∙ ap (λ s. value 10 0 (map digit_value s)) e
    ∙ read_digits lower_digit read_lower 10 b (omega arith) (omega arith)

pub hex_injective : (a b : ℕ) → hex a ≡ hex b → a ≡ b
unfolding hex
hex_injective a b e =
    sym (read_digits lower_digit read_lower 16 a (omega arith) (omega arith))
    ∙ ap (λ s. value 16 0 (map digit_value s)) e
    ∙ read_digits lower_digit read_lower 16 b (omega arith) (omega arith)

-- So it is for padded hexadecimal numbers, at any width.
pub upper_hex_injective :
    (width a b : ℕ) → zero_pad width (upper_hex a) ≡ zero_pad width (upper_hex b) → a ≡ b
upper_hex_injective width a b e =
    sym (read_padded_hex width a)
    ∙ ap (λ s. value 16 0 (map digit_value s)) e
    ∙ read_padded_hex width b
