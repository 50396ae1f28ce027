-- ===== src/Csym/Names.antt =====
-- The names that csym/parse_types.go and csym/parse_fixups.go make.
pub mod Valid
pub mod Unique
pub mod Enum
use psx_mnd_sym.Prelude.{
  ℕ, zero, suc, ◌+◌, List, [], ◌∷◌, ◌++◌, Text, codes, text_eq, Bool, true, false, ltb, leb, ◌==◌,
  ◌&&◌, ◌||◌, if◌then◌else◌, Option, none, some, length,
}
use psx_mnd_sym.Fmt.{dec, upper_hex, zero_pad}
use psx_mnd_sym.Csym.State.{Map, lookup}

-- A letter or digit, that validName keeps.
unfoldable pub is_kept : ℕ → Bool
is_kept b = leb 97 b && leb b 122 || leb 65 b && leb b 90 || leb 48 b && leb b 57

abbrev pub is_continuation : ℕ → Bool
is_continuation b = leb 0x80 b && leb b 0xbf

-- The second byte that UTF-8 allows after the first.
unfoldable pub is_second : ℕ → ℕ → Bool
is_second b c =
    if b == 0xe0
    then leb 0xa0 c && leb c 0xbf
    else if b == 0xed
    then leb 0x80 c && leb c 0x9f
    else if b == 0xf0
    then leb 0x90 c && leb c 0xbf
    else if b == 0xf4
    then leb 0x80 c && leb c 0x8f
    else is_continuation c

-- How many bytes after the first byte `b` belong to its rune, in UTF-8. An invalid encoding is a
-- rune of one byte, as Go defines `range` over a string.
unfoldable pub more_bytes : ℕ → Text → ℕ
unfolding is_second
more_bytes b (c ∷ d ∷ e ∷ s) =
    if leb 0xc2 b && leb b 0xdf && is_second b c
    then 1
    else if leb 0xe0 b && leb b 0xef && is_second b c && is_continuation d
    then 2
    else if leb 0xf0 b && leb b 0xf4 && is_second b c && is_continuation d && is_continuation e
    then 3
    else 0
more_bytes b (c ∷ d ∷ []) =
    if leb 0xc2 b && leb b 0xdf && is_second b c
    then 1
    else if leb 0xe0 b && leb b 0xef && is_second b c && is_continuation d
    then 2
    else 0
more_bytes b (c ∷ []) = if leb 0xc2 b && leb b 0xdf && is_second b c then 1 else 0
more_bytes b [] = 0

-- The rounds of strings.Map, `skip` bytes of the current rune passed over first.
unfoldable pub valid_runes : ℕ → Text → Text
unfolding is_kept more_bytes
valid_runes skip [] = []
valid_runes (suc skip) (b ∷ s) = valid_runes skip s
valid_runes zero (b ∷ s) = (if is_kept b then b else 95) ∷ valid_runes (more_bytes b s) s

-- validName
unfoldable pub valid_name : Text → Text
unfolding valid_runes
valid_name name = valid_runes 0 name

-- Membership in the set of names, a map to booleans.
unfoldable pub is_member : Text → List Text → Bool
is_member name [] = false
is_member name (m ∷ members) = if text_eq name m then true else is_member name members

abbrev pub duplicate_enum : Text → ℕ → Text
duplicate_enum name i = name ++ codes "_DUPLICATE_" ++ dec i

-- The loop of uniqueEnum, from the round with `i` on.
unfoldable pub unique_enum_from : ℕ → Text → ℕ → Text → List Text → Text
unfolding dec is_member
unique_enum_from zero name i new_name members = new_name
unique_enum_from (suc fuel) name i new_name members = elim (is_member new_name members) [
  | true ↦ unique_enum_from fuel name (i + 1) (duplicate_enum name i) members
  | false ↦ new_name
]

-- uniqueEnum: the name and the set with it. Every round but the last has found a member.
unfoldable pub unique_enum : Text → List Text → Text × List Text
unfolding unique_enum_from
unique_enum name members =
    let new_name = unique_enum_from (length members + 2) name 0 name members in
    (new_name, new_name ∷ members)

-- UniqueName
unfoldable pub unique_name : Text → ℕ → Text
unfolding upper_hex
unique_name name addr = name ++ codes "_addr_" ++ zero_pad 8 (upper_hex addr)

-- UniqueTag
unfoldable pub unique_tag : Text → Text → ℕ → Text
unfolding dec
unique_tag tag typ idx = tag ++ codes "_duplicate_" ++ typ ++ dec idx

-- SliceIndex for the place `t`, or the length where it is missing.
unfoldable pub slice_index : List ℕ → ℕ → ℕ
slice_index [] t = 0
slice_index (s ∷ places) t = if s == t then 0 else suc (slice_index places t)

-- The loop of UniqueStructTag, UniqueUnionTag and UniqueEnumTag, which differ in `typ` only.
unfoldable pub fresh_tag_from : ℕ → Text → ℕ → Text → Map (List ℕ) → Text
unfolding unique_tag slice_index lookup
fresh_tag_from zero typ t new_tag tags = new_tag
fresh_tag_from (suc fuel) typ t new_tag tags = elim (lookup new_tag tags) [
  | none ↦ new_tag
  | some places ↦ fresh_tag_from fuel typ t (unique_tag new_tag typ (slice_index places t)) tags
]

-- Every round but the last has found a longer key.
unfoldable pub fresh_tag : Text → ℕ → Text → Map (List ℕ) → Text
unfolding fresh_tag_from
fresh_tag typ t tag tags = fresh_tag_from (length tags + 1) typ t tag tags
