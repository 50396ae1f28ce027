-- ===== src/Csym/Tagged.antt =====
-- The lists and maps of structs, unions and enums (csym/parse_types.go). The source has the same
-- code for each sort; here it is written once, for a type with a tag.
pub mod Places
pub mod Found
pub mod Contents
use psx_mnd_sym.Prelude.{
  ℕ, List, [], ◌∷◌, ◌++◌, Text, codes, Bool, true, false, not, ◌==◌, ◌&&◌, ◌||◌, if◌then◌else◌,
  Option, none, some, length, set, get_elem?, Result, ok, err,
}
use psx_mnd_sym.C.Ast.{StructType, UnionType, EnumType}
use psx_mnd_sym.Csym.State.{lookup, insert, slice_at, Panic, missing_tag, Tagged}
use psx_mnd_sym.Csym.Names.{fresh_tag}

module _ {ℓ} {T : Type ℓ} (tag_of : T → Text) where
  -- AddStruct, AddUnion, AddEnum, of a new object; with its place.
  unfoldable pub add : T → Tagged T → ℕ × Tagged T
  unfolding insert lookup
  add t s =
      let place = length s.store in
      (
        place,
        record {
          store = s.store ++ t ∷ [];
          order = s.order ++ place ∷ [];
          tags = insert (tag_of t) (slice_at (tag_of t) s.tags ++ place ∷ []) s.tags;
        },
      )

-- The last of the places whose object passes the test: the loops of findStruct and findEmptyStruct.
unfoldable pub last_place {ℓ} : {T : Type ℓ} → (T → Bool) → List T → List ℕ → Option ℕ → Option ℕ
last_place test store [] found = found
last_place test store (i ∷ places) found =
    last_place test store places
      (elim (get_elem? store i) [ none ↦ found | some t ↦ if test t then some i else found ])

-- A change of the object at a place, which every pointer to it sees.
unfoldable pub change {ℓ} : {T : Type ℓ} → (T → T) → ℕ → Tagged T → Tagged T
change f i s = elim (get_elem? s.store i) [
  | none ↦ s
  | some t ↦ record s { store = set s.store i (f t) }
]

-- emptyStruct
unfoldable pub empty_struct : Text → ℕ → Tagged StructType → ℕ × Tagged StructType
unfolding add
empty_struct tag size s =
    add (λ t. t.tag) (record { size = size; tag = tag; fields = []; methods = [] }) s

-- emptyUnion
unfoldable pub empty_union : Text → ℕ → Tagged UnionType → ℕ × Tagged UnionType
unfolding add
empty_union tag size s = add (λ t. t.tag) (record { size = size; tag = tag; fields = [] }) s

-- emptyEnum
unfoldable pub empty_enum : Text → Tagged EnumType → ℕ × Tagged EnumType
unfolding add
empty_enum tag s = add (λ t. t.tag) (record { tag = tag; members = [] }) s

-- findStruct
unfoldable pub find_struct : Text → ℕ → Bool → Tagged StructType → ℕ × Tagged StructType
unfolding last_place change empty_struct fresh_tag lookup
find_struct tag size match_size s =
    let places = slice_at tag s.tags in
    elim (last_place (λ t. not match_size || t.size == size) s.store places none) [
      | some i ↦ (i, s)
      | none ↦
          let added = empty_struct tag size s in
          let new_tag = fresh_tag (codes "s") added.0 tag added.1.tags in
          (
            added.0,
            elim places [
              | [] ↦ added.1
              | _ ∷ _ ↦ change (λ t. record t { tag = new_tag }) added.0 added.1
            ],
          )
    ]

-- findUnion
unfoldable pub find_union : Text → ℕ → Bool → Tagged UnionType → ℕ × Tagged UnionType
unfolding last_place change empty_union fresh_tag lookup
find_union tag size match_size s =
    let places = slice_at tag s.tags in
    elim (last_place (λ t. not match_size || t.size == size) s.store places none) [
      | some i ↦ (i, s)
      | none ↦
          let added = empty_union tag size s in
          let new_tag = fresh_tag (codes "u") added.0 tag added.1.tags in
          (
            added.0,
            elim places [
              | [] ↦ added.1
              | _ ∷ _ ↦ change (λ t. record t { tag = new_tag }) added.0 added.1
            ],
          )
    ]

-- findEnum
unfoldable pub find_enum : Text → Tagged EnumType → ℕ × Tagged EnumType
unfolding last_place change empty_enum fresh_tag lookup
find_enum tag s =
    let places = slice_at tag s.tags in
    elim (last_place (λ t. true) s.store places none) [
      | some i ↦ (i, s)
      | none ↦
          let added = empty_enum tag s in
          let new_tag = fresh_tag (codes "e") added.0 tag added.1.tags in
          (
            added.0,
            elim places [
              | [] ↦ added.1
              | _ ∷ _ ↦ change (λ t. record t { tag = new_tag }) added.0 added.1
            ],
          )
    ]

-- The place found, or the panic of a tag that is missing.
unfoldable pub found_or_panic : Text → Option ℕ → Result Panic ℕ
found_or_panic tag none = err (missing_tag tag)
found_or_panic tag (some i) = ok i

abbrev pub is_empty {ℓ} : {A : Type ℓ} → List A → Bool
is_empty [] = true
is_empty (x ∷ xs) = false

-- findEmptyStruct
unfoldable pub find_empty_struct : Text → ℕ → Tagged StructType → Result Panic ℕ
unfolding last_place found_or_panic lookup
find_empty_struct tag size s =
    found_or_panic tag
      (last_place (λ t. t.size == size && is_empty t.fields) s.store (slice_at tag s.tags) none)

-- findEmptyUnion
unfoldable pub find_empty_union : Text → ℕ → Tagged UnionType → Result Panic ℕ
unfolding last_place found_or_panic lookup
find_empty_union tag size s =
    found_or_panic tag
      (last_place (λ t. t.size == size && is_empty t.fields) s.store (slice_at tag s.tags) none)

-- findEmptyEnum
unfoldable pub find_empty_enum : Text → Tagged EnumType → Result Panic ℕ
unfolding last_place found_or_panic lookup
find_empty_enum tag s =
    found_or_panic tag (last_place (λ t. is_empty t.members) s.store (slice_at tag s.tags) none)
