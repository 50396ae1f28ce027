-- ===== src/Sym/Types.antt =====
-- type.go, base_string.go and mod_string.go: the 16-bit type codes of definitions.
pub mod Decode
use Prim.Native.Nat.{bit_and}
use psx_mnd_sym.Prelude.{
  ℕ, zero, suc, ◌+◌, ◌-◌, ◌*◌, ◌/◌, ◌%◌, ◌^◌, List, [], ◌∷◌, ◌++◌, Text, codes, ◌==◌, leb, ltb,
  ◌&&◌, if◌then◌else◌, Option, none, some, Result, ok, err, ◌>>=◌,
}
use psx_mnd_sym.Fmt.{dec, join_spaces}
use psx_mnd_sym.Sym.Class.{indexed}

-- Type.Base
unfoldable pub base : ℕ → ℕ
base t = bit_and t 0xf

abbrev pub mod_pointer : ℕ
mod_pointer = 0x1

abbrev pub mod_function : ℕ
mod_function = 0x2

abbrev pub mod_array : ℕ
mod_array = 0x3

-- The panic of Type.Mods, with the mask that it reports.
pub data ModPanic : Type 0 where
  invalid_mask : ℕ → ModPanic

-- One round of the loop of Type.Mods: `mask := uint16(0x3) << shift`, `(t & mask) >> shift`.
unfoldable pub mod_mask : ℕ → ℕ → ℕ
mod_mask t i =
    let shift = 4 + i * 2 in let mask = 3 * 2 ^ shift % 2 ^ 16 in bit_and t mask / 2 ^ shift

-- The rounds `i`, `i + 1`, … that are left.
unfoldable pub mods_from : ℕ → ℕ → ℕ → Result ModPanic (List ℕ)
unfolding mod_mask
mods_from zero i t = ok []
mods_from (suc rounds) i t =
    let rest = mods_from rounds (i + 1) t in
    let mask = mod_mask t i in
    if mask == 0
    then rest
    else if leb mod_pointer mask && leb mask mod_array
    then (rest >>= λ mods. ok (mask ∷ mods))
    else err (invalid_mask mask)

-- Type.Mods
unfoldable pub mods : ℕ → Result ModPanic (List ℕ)
unfolding mods_from
mods t = mods_from 6 0 t

abbrev pub base_name : Text
base_name = codes "NULLVOIDCHARSHORTINTLONGFLOATDOUBLESTRUCTUNIONENUMMOEUCHARUSHORTUINTULONG"

abbrev pub base_index : List ℕ
base_index = 0 ∷ 4 ∷ 8 ∷ 12 ∷ 17 ∷ 20 ∷ 24 ∷ 29 ∷ 35 ∷ 41 ∷ 46 ∷ 50 ∷ 53 ∷ 58 ∷ 64 ∷ 68 ∷ 73 ∷ []

-- Base.String; `none` is an index out of range.
unfoldable pub base_string : ℕ → Option Text
unfolding dec
base_string i =
    if leb 16 i then some (codes "Base(" ++ dec i ++ codes ")") else indexed base_name base_index i

abbrev pub mod_name : Text
mod_name = codes "PTRFCNARY"

abbrev pub mod_index : List ℕ
mod_index = 0 ∷ 3 ∷ 6 ∷ 9 ∷ []

-- Mod.String; `i -= 1` wraps at 8 bits, and the number is printed as `int64(i+1)`.
unfoldable pub mod_string : ℕ → Option Text
unfolding dec
mod_string i =
    let j = (i + 255) % 256 in
    if leb 3 j
    then some (codes "Mod(" ++ dec ((j + 1) % 256) ++ codes ")")
    else indexed mod_name mod_index j
