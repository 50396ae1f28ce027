-- ===== src/C/FakeTag.antt =====
-- IsFakeTag of csym/c/type.go, with what it uses of packages strings and strconv.
pub mod Unique
use psx_mnd_sym.Prelude.{
  ℕ, zero, suc, ◌+◌, ◌-◌, ◌*◌, ◌^◌, List, [], ◌∷◌, ◌++◌, Text, codes, Bool, true, false, leb, ltb,
  ◌==◌, ◌&&◌, if◌then◌else◌, Option, none, some, text_eq, length, take, drop,
}

-- strings.HasPrefix
unfoldable pub has_prefix : Text → Text → Bool
has_prefix [] s = true
has_prefix (b ∷ prefix) [] = false
has_prefix (b ∷ prefix) (c ∷ s) = (b == c) && has_prefix prefix s

-- strings.HasSuffix
unfoldable pub has_suffix : Text → Text → Bool
unfolding text_eq
has_suffix suffix s =
    leb (length suffix) (length s) && text_eq (drop (length s - length suffix) s) suffix

-- strings.LastIndex, with none for -1.
unfoldable pub last_index : Text → Text → Option ℕ
unfolding has_prefix
last_index [] pattern = if has_prefix pattern [] then some 0 else none
last_index (b ∷ s) pattern = elim (last_index s pattern) [
  | some i ↦ some (suc i)
  | none ↦ if has_prefix pattern (b ∷ s) then some 0 else none
]

-- The number that decimal digits write, after those read; none if there is another byte.
unfoldable pub digits_value : ℕ → Text → Option ℕ
digits_value n [] = some n
digits_value n (b ∷ s) =
    let rest = digits_value (n * 10 + (b - 48)) s in if leb 48 b && leb b 57 then rest else none

-- Whether the digits, one at least, write a number up to the bound.
unfoldable pub digits_within : ℕ → Text → Bool
unfolding digits_value
digits_within bound [] = false
digits_within bound (b ∷ s) = elim (digits_value 0 (b ∷ s)) [ none ↦ false | some n ↦ leb n bound ]

-- Whether strconv.Atoi reads the string: an optional sign and digits, in the range of int64.
unfoldable pub atoi_ok : Text → Bool
unfolding digits_within
atoi_ok [] = false
atoi_ok (b ∷ s) =
    if b == 45
    then digits_within (2 ^ 63) s
    else if b == 43
    then digits_within (2 ^ 63 - 1) s
    else digits_within (2 ^ 63 - 1) (b ∷ s)

abbrev pub duplicate_mark : Text
duplicate_mark = codes "_duplicate_"

-- The tag without what marks a duplicate.
unfoldable pub original_tag : Text → Text
unfolding last_index
original_tag tag = elim (last_index tag duplicate_mark) [
  | none ↦ tag
  | some zero ↦ tag
  | some (suc i) ↦ take (suc i) tag
]

-- IsFakeTag
unfoldable pub is_fake_tag : Text → Bool
unfolding original_tag has_prefix has_suffix atoi_ok
is_fake_tag raw =
    let tag = original_tag raw in
    has_prefix (codes "_") tag
    && has_suffix (codes "fake") tag
    && atoi_ok (take (length tag - 5) (drop 1 tag))
