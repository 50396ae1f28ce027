-- ===== src/Sym/Types/Decode.antt =====
-- How the bits of a type code are read.
use Prim.Native.Nat.{digits, min, bit_and, bit_and-bitwise}
use native.Mathlib.Nat.{pow-suc, div-div-eq-div-mul, mul-div_cancel, zero-div}
use psx_mnd_sym.Prelude.{
  ℕ, zero, suc, ◌+◌, ◌*◌, ◌/◌, ◌%◌, ◌^◌, ◌≤◌, ◌<◌, ◌≡◌, refl, List, [], ◌∷◌, arith, ok, All, length,
  ◌==◌, if◌then◌else◌,
}
use psx_mnd_sym.Sym.Types.{base, mods, mods_from, mod_mask}

-- `bit_and a m` is `f a`, whatever fuel its recursion gets.
abbrev Masks : ℕ → (ℕ → ℕ) → Type 0
Masks m f = (n a : ℕ) → a ≤ n → digits (λ b. zero) min n a m ≡ f a

zero_mask : Masks 0 (λ a. 0)
zero_mask zero a h = refl
zero_mask (suc n) zero h = refl
zero_mask (suc n) (suc a) h = omega (arith, zero_mask n (suc a / 2) (omega arith))

-- One more digit of the mask below the others.
mask_digit :
    (m d : ℕ) (f : ℕ → ℕ)
    → d < 2
    → f 0 ≡ 0
    → Masks m f
    → Masks (m * 2 + d) (λ a. f (a / 2) * 2 + min (a % 2) d)
mask_digit m d f hd h0 h zero zero le = omega arith
mask_digit m d f hd h0 h zero (suc a) le = absurd (omega arith)
mask_digit m d f hd h0 h (suc n) zero le = omega arith
mask_digit m d f hd h0 h (suc n) (suc a) le =
    let upper : (m * 2 + d) / 2 ≡ m = omega arith in
    let lower : (m * 2 + d) % 2 ≡ d = omega arith in
    rw (upper, lower) (omega (arith, h n (suc a / 2) (omega arith)))

mask_one : Masks 1 (λ a. a % 2)
mask_one n a h = omega (arith, mask_digit 0 1 (λ a. 0) (omega arith) refl zero_mask n a h)

mask_three : Masks 3 (λ a. a % 4)
mask_three n a h = omega (arith, mask_digit 1 1 (λ a. a % 2) (omega arith) refl mask_one n a h)

mask_seven : Masks 7 (λ a. a % 8)
mask_seven n a h = omega (arith, mask_digit 3 1 (λ a. a % 4) (omega arith) refl mask_three n a h)

mask_fifteen : Masks 15 (λ a. a % 16)
mask_fifteen n a h = omega (arith, mask_digit 7 1 (λ a. a % 8) (omega arith) refl mask_seven n a h)

-- The base type is the lowest four bits.
pub base-mod : (t : ℕ) → base t ≡ t % 16
unfolding base
base-mod t = rw bit_and-bitwise (mask_fifteen t t (omega arith))

shifted_step : (p a : ℕ) → (a / 2 / p % 4 * p) * 2 ≡ a / (p * 2) % 4 * (p * 2)
shifted_step p a =
    let commuted : p * 2 ≡ 2 * p = omega arith in
    rw (commuted, ← div-div-eq-div-mul a 2 p) (omega arith)

mask_shifted : (s : ℕ) → Masks (3 * 2 ^ s) (λ a. a / 2 ^ s % 4 * 2 ^ s)
mask_shifted zero n a h = omega (arith, mask_three n a h)
mask_shifted (suc s) n a h =
    let doubled : 3 * (2 ^ s * 2) ≡ 3 * 2 ^ s * 2 + 0 = omega arith in
    rw (pow-suc 2 s, doubled)
      (omega (
        arith,
        shifted_step (2 ^ s) a,
        mask_digit (3 * 2 ^ s) 0 (λ b. b / 2 ^ s % 4 * 2 ^ s) (omega arith)
            (rw (zero-div (2 ^ s)) (omega arith)) (mask_shifted s) n a h,
      ))

-- The two bits of a type code from bit `s` on.
bit_and-shifted : (s t : ℕ) → bit_and t (3 * 2 ^ s) / 2 ^ s ≡ t / 2 ^ s % 4
bit_and-shifted s t =
    rw (bit_and-bitwise t (3 * 2 ^ s), mask_shifted s t t (omega arith))
      (mul-div_cancel (t / 2 ^ s % 4) (pow_pos s))
  where
    pow_pos : (k : ℕ) → 0 < 2 ^ k
    pow_pos zero = omega arith
    pow_pos (suc k) = rw (pow-suc 2 k) (omega (arith, pow_pos k))

mod_mask_lem : (t i : ℕ) → i < 6 → mod_mask t i ≡ t / 2 ^ (4 + i * 2) % 4
unfolding mod_mask
mod_mask_lem t zero h = bit_and-shifted 4 t
mod_mask_lem t (suc zero) h = bit_and-shifted 6 t
mod_mask_lem t (suc (suc zero)) h = bit_and-shifted 8 t
mod_mask_lem t (suc (suc (suc zero))) h = bit_and-shifted 10 t
mod_mask_lem t (suc (suc (suc (suc zero)))) h = bit_and-shifted 12 t
mod_mask_lem t (suc (suc (suc (suc (suc zero))))) h = bit_and-shifted 14 t
mod_mask_lem t (suc (suc (suc (suc (suc (suc i)))))) h = absurd (omega arith)

-- The digits to base 4 of a number, lowest first, without the zeros.
unfoldable pub crumbs : ℕ → ℕ → List ℕ
crumbs zero u = []
crumbs (suc rounds) u =
    let rest = crumbs rounds (u / 4) in if u % 4 == 0 then rest else u % 4 ∷ rest

next_mod : (t i : ℕ) → t / 2 ^ (4 + i * 2) / 4 ≡ t / 2 ^ (4 + suc i * 2)
next_mod t i =
    let two_on : 4 + suc i * 2 ≡ suc (suc (4 + i * 2)) = omega arith in
    rw (two_on, pow-suc, pow-suc, div-div-eq-div-mul)
      (let four : 2 ^ (4 + i * 2) * 2 * 2 ≡ 2 ^ (4 + i * 2) * 4 = omega arith in rw four)

mods_from-crumbs :
    (rounds i t : ℕ)
    → i + rounds ≤ 6
    → mods_from rounds i t ≡ ok (crumbs rounds (t / 2 ^ (4 + i * 2)))
unfolding mods_from crumbs
mods_from-crumbs zero i t h = refl
mods_from-crumbs (suc rounds) i t h =
    let one_on : i + 1 ≡ suc i = omega arith in
    rw
      (
        one_on,
        mods_from-crumbs rounds (suc i) t (omega arith),
        mod_mask_lem t i (omega arith),
        next_mod t i,
      )
      (ground arith)

-- The modifiers are the nonzero digits to base 4 above the base type; no code makes Mods panic.
pub mods-crumbs : (t : ℕ) → mods t ≡ ok (crumbs 6 (t / 16))
unfolding mods
mods-crumbs t = mods_from-crumbs 6 0 t (omega arith)

-- A modifier: PTR, FCN or ARY.
abbrev pub IsMod : ℕ → Type 0
IsMod m = (1 ≤ m) × (m ≤ 3)

pub crumbs-IsMod : (rounds u : ℕ) → All IsMod (crumbs rounds u)
unfolding crumbs
crumbs-IsMod zero u = tt
crumbs-IsMod (suc rounds) u = ground (arith, crumbs-IsMod rounds (u / 4))

-- The code of a list of modifiers: two bits each, the first lowest.
unfoldable pub mods_code : List ℕ → ℕ
mods_code [] = 0
mods_code (m ∷ ms) = m + 4 * mods_code ms

crumbs_zero : (rounds : ℕ) → crumbs rounds 0 ≡ []
unfolding crumbs
crumbs_zero zero = refl
crumbs_zero (suc rounds) = crumbs_zero rounds

crumbs-mods_code :
    (rounds : ℕ) (ms : List ℕ)
    → All IsMod ms
    → length ms ≤ rounds
    → crumbs rounds (mods_code ms) ≡ ms
unfolding crumbs mods_code
crumbs-mods_code rounds [] h le = crumbs_zero rounds
crumbs-mods_code zero (m ∷ ms) h le = absurd (omega arith)
crumbs-mods_code (suc rounds) (m ∷ ms) h le =
    let above : (m + 4 * mods_code ms) / 4 ≡ mods_code ms = omega arith in
    let below : (m + 4 * mods_code ms) % 4 ≡ m = omega arith in
    rw (above, below, crumbs-mods_code rounds ms h.1 (omega arith)) (ground arith)

-- The code of a base type under modifiers, outermost modifier first.
abbrev pub type_code : ℕ → List ℕ → ℕ
type_code b ms = b + 16 * mods_code ms

-- Reading the code that is put together from a base type below 16 and at most six modifiers gives
-- back that base type and those modifiers in their order.
pub decode-type_code :
    (b : ℕ) (ms : List ℕ)
    → b < 16
    → All IsMod ms
    → length ms ≤ 6
    → (base (type_code b ms) ≡ b) × (mods (type_code b ms) ≡ ok ms)
decode-type_code b ms hb h le =
    let above : type_code b ms / 16 ≡ mods_code ms = omega arith in
    (rw base-mod (omega arith), rw (mods-crumbs, above, crumbs-mods_code 6 ms h le))
