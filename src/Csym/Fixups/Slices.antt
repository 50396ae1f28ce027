-- ===== src/Csym/Fixups/Slices.antt =====
-- The slices of types (csym/parse_types.go): replaceStructsInSlice and rmNilStructsFromSlice, with their
-- copies for unions and enums. A nil pointer is `none`.
pub mod Filter
use psx_mnd_sym.Prelude.{
  ℕ, zero, suc, ◌+◌, ◌-◌, List, [], ◌∷◌, ◌++◌, map, Text, Bool, true, false, ltb, if◌then◌else◌,
  Option, none, some, length, get_elem?, take, drop, set,
}
use psx_mnd_sym.C.Ast.{StructType, UnionType, EnumType}
use psx_mnd_sym.Csym.State.{Map, Tagged}
use psx_mnd_sym.Csym.Fixups.Replace.{Ref, Remap, a_struct, an_union, an_enum, find_key}

-- The place that a value of the remapping gives; every value is nil or of the sort of its key.
abbrev pub place_of : Ref → ℕ
place_of (a_struct i) = i
place_of (an_union i) = i
place_of (an_enum i) = i

abbrev pub value_place : Option Ref → Option ℕ
value_place none = none
value_place (some t) = some (place_of t)

-- One element: what its key gives, or itself.
unfoldable pub replace_place : (ℕ → Ref) → Remap → Option ℕ → Option ℕ
unfolding find_key
replace_place sort r none = none
replace_place sort r (some i) = elim (find_key (sort i) r) [
  | none ↦ some i
  | some value ↦ value_place value
]

-- replaceStructsInSlice
unfoldable pub replace_in_slice : (ℕ → Ref) → Remap → List (Option ℕ) → List (Option ℕ)
unfolding replace_place
replace_in_slice sort r places = map (replace_place sort r) places

abbrev pub is_nil : Option ℕ → Bool
is_nil none = true
is_nil (some i) = false

abbrev pub at : List (Option ℕ) → ℕ → Option ℕ
at xs i = elim (get_elem? xs i) [ none ↦ none | some x ↦ x ]

-- `copy(xs[i:], xs[i+1:])`: all behind `i` one place down, the last one kept at the end.
unfoldable pub copy_down : ℕ → List (Option ℕ) → List (Option ℕ)
copy_down i xs = take i xs ++ (drop (i + 1) xs ++ drop (length xs - 1) xs)

-- The element at `i`, which is nil, taken out of the slice.
unfoldable pub take_out : ℕ → List (Option ℕ) → List (Option ℕ)
unfolding copy_down
take_out i xs =
    let copied = if ltb i (length xs - 1) then copy_down i xs else xs in
    take (length xs - 1) (set copied (length xs - 1) none)

-- The loop of rmNilStructsFromSlice: each round moves on or makes the slice shorter, so there are as
-- many as the slice is long.
unfoldable pub rm_nil_from : ℕ → ℕ → List (Option ℕ) → List (Option ℕ)
unfolding take_out
rm_nil_from zero i xs = xs
rm_nil_from (suc rounds) i xs = elim (ltb i (length xs)) [
  | false ↦ xs
  | true ↦ elim (at xs i) [
    | some _ ↦ rm_nil_from rounds (i + 1) xs
    | none ↦ rm_nil_from rounds i (take_out i xs)
  ]
]

-- rmNilStructsFromSlice
unfoldable pub rm_nil : List (Option ℕ) → List (Option ℕ)
unfolding rm_nil_from
rm_nil xs = rm_nil_from (length xs) 0 xs

-- The pointers that are not nil.
unfoldable pub present : List (Option ℕ) → List ℕ
present [] = []
present (none ∷ xs) = present xs
present (some i ∷ xs) = i ∷ present xs

-- ReplaceStructs and RmNilStructs on one slice.
unfoldable pub prune_slice : (ℕ → Ref) → Remap → List ℕ → List ℕ
unfolding replace_in_slice rm_nil present
prune_slice sort r places = present (rm_nil (replace_in_slice sort r (map some places)))

unfoldable pub prune_tags : (ℕ → Ref) → Remap → Map (List ℕ) → Map (List ℕ)
unfolding prune_slice
prune_tags sort r [] = []
prune_tags sort r ((tag, places) ∷ m) = (tag, prune_slice sort r places) ∷ prune_tags sort r m

-- ReplaceStructs and RmNilStructs: the slices of all tags, and the slice of all.
unfoldable pub prune {ℓ} : {T : Type ℓ} → (ℕ → Ref) → Remap → Tagged T → Tagged T
unfolding prune_tags prune_slice
prune sort r s = record s { order = prune_slice sort r s.order; tags = prune_tags sort r s.tags }

-- ReplaceStructs and RmNilStructs, ReplaceUnions and RmNilUnions, ReplaceEnums and RmNilEnums.
unfoldable pub prune_structs : Remap → Tagged StructType → Tagged StructType
unfolding prune
prune_structs r s = prune a_struct r s

unfoldable pub prune_unions : Remap → Tagged UnionType → Tagged UnionType
unfolding prune
prune_unions r s = prune an_union r s

unfoldable pub prune_enums : Remap → Tagged EnumType → Tagged EnumType
unfolding prune
prune_enums r s = prune an_enum r s
