-- ===== src/Fmt.antt =====
-- What the program uses of package `fmt` and `strconv`: numbers in decimal (`%d`, strconv.Itoa) and
-- in hexadecimal (`%x`, `%X`, and with the zero padding of `%08x`, `%08X`, `%04X`), and
-- strings.Join with a space.
pub mod Digits
pub mod Unique
use psx_mnd_sym.Prelude.{
  ℕ, zero, suc, ◌+◌, ◌-◌, ◌/◌, ◌%◌, ◌^◌, List, [], ◌∷◌, ◌++◌, map, Text, codes, ltb, leb, length,
  replicate, if◌then◌else◌, true, false,
}

-- The digits of a number, highest first; each round divides, so `n + 1` rounds are enough.
unfoldable pub digits : ℕ → ℕ → ℕ → List ℕ
digits zero base n = []
digits (suc fuel) base n = elim (ltb n base) [
  | true ↦ n ∷ []
  | false ↦ digits fuel base (n / base) ++ n % base ∷ []
]

abbrev pub lower_digit : ℕ → ℕ
lower_digit d = if ltb d 10 then d + 48 else d + 87

abbrev pub upper_digit : ℕ → ℕ
upper_digit d = if ltb d 10 then d + 48 else d + 55

-- `%d` of an unsigned number.
unfoldable pub dec : ℕ → Text
unfolding digits
dec n = map lower_digit (digits (suc n) 10 n)

-- `%x` and `%X`.
unfoldable pub hex : ℕ → Text
unfolding digits
hex n = map lower_digit (digits (suc n) 16 n)

unfoldable pub upper_hex : ℕ → Text
unfolding digits
upper_hex n = map upper_digit (digits (suc n) 16 n)

-- Padding with zeros on the left to a width.
abbrev pub zero_pad : ℕ → Text → Text
zero_pad width s = replicate (width - length s) 48 ++ s

-- `%d` of an int32, given by its 32 bits.
unfoldable pub dec_int32 : ℕ → Text
unfolding dec
dec_int32 bits = if ltb bits 0x8000_0000 then dec bits else codes "-" ++ dec (2 ^ 32 - bits)

-- strings.Join(ss, " ")
unfoldable pub join_spaces : List Text → Text
join_spaces [] = []
join_spaces (s ∷ []) = s
join_spaces (s ∷ t ∷ ss) = s ++ (codes " " ++ join_spaces (t ∷ ss))
