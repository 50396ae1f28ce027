-- ===== src/Sym/Kind.antt =====
-- kind.go and kind_string.go: the kinds of symbols and their printed names.
use psx_mnd_sym.Prelude.{
  ℕ, ◌-◌, List, [], ◌∷◌, ◌++◌, Text, codes, ◌==◌, if◌then◌else◌, Option, none, some, take, drop,
}
use psx_mnd_sym.Fmt.{dec}

-- Kind is a uint8, with these constants.
abbrev pub name1 : ℕ
name1 = 0x01

abbrev pub name2 : ℕ
name2 = 0x02

abbrev pub name5 : ℕ
name5 = 0x05

abbrev pub name6 : ℕ
name6 = 0x06

abbrev pub inc_sld : ℕ
inc_sld = 0x80

abbrev pub inc_sld_byte : ℕ
inc_sld_byte = 0x82

abbrev pub inc_sld_word : ℕ
inc_sld_word = 0x84

abbrev pub set_sld : ℕ
set_sld = 0x86

abbrev pub set_sld2 : ℕ
set_sld2 = 0x88

abbrev pub end_sld : ℕ
end_sld = 0x8a

abbrev pub func_start : ℕ
func_start = 0x8c

abbrev pub func_end : ℕ
func_end = 0x8e

abbrev pub block_start : ℕ
block_start = 0x90

abbrev pub block_end : ℕ
block_end = 0x92

abbrev pub def : ℕ
def = 0x94

abbrev pub def2 : ℕ
def2 = 0x96

abbrev pub overlay : ℕ
overlay = 0x98

abbrev pub set_overlay : ℕ
set_overlay = 0x9a

-- The slice expression `s[lo:hi]` on a string.
abbrev pub slice : Text → ℕ → ℕ → Text
slice s lo hi = take (hi - lo) (drop lo s)

abbrev kind_name : Text
kind_name = codes "125680828486888a8c8e90929496overlayset overlay"

-- `_Kind_map`: a kind and the bounds of its name in `_Kind_name`.
abbrev kind_map : List (ℕ × ℕ × ℕ)
kind_map =
    (1, 0, 1)
    ∷ (2, 1, 2)
    ∷ (5, 2, 3)
    ∷ (6, 3, 4)
    ∷ (128, 4, 6)
    ∷ (130, 6, 8)
    ∷ (132, 8, 10)
    ∷ (134, 10, 12)
    ∷ (136, 12, 14)
    ∷ (138, 14, 16)
    ∷ (140, 16, 18)
    ∷ (142, 18, 20)
    ∷ (144, 20, 22)
    ∷ (146, 22, 24)
    ∷ (148, 24, 26)
    ∷ (150, 26, 28)
    ∷ (152, 28, 35)
    ∷ (154, 35, 46)
    ∷ []

unfoldable pub find_slice : List (ℕ × ℕ × ℕ) → ℕ → Option Text
find_slice [] i = none
find_slice ((k, lo, hi) ∷ m) i = if k == i then some (slice kind_name lo hi) else find_slice m i

-- Kind.String
unfoldable pub kind_string : ℕ → Text
unfolding find_slice dec
kind_string i = elim (find_slice kind_map i) [
  | some str ↦ str
  | none ↦ codes "Kind(" ++ dec i ++ codes ")"
]
