-- ===== src/SymDump/Merge.antt =====
-- addUniqueStructs, addUniqueUnions and addUniqueEnums (cmd/sym_dump/main.go), which merge the types of several
-- parsers.
pub mod Once
use psx_mnd_sym.Prelude.{
  ℕ, suc, ◌+◌, List, [], ◌∷◌, ◌++◌, Text, codes, Bool, true, false, if◌then◌else◌, Option, none,
  some, get_elem?, set,
}
use psx_mnd_sym.Fmt.{dec}
use psx_mnd_sym.C.Ast.{CType, StructType, UnionType, EnumType}
use psx_mnd_sym.C.Sorting.{Sorting}
use psx_mnd_sym.C.Defs.{struct_def, union_def, enum_def}
use psx_mnd_sym.C.FakeTag.{is_fake_tag}
use psx_mnd_sym.Csym.State.{Map, lookup, insert, slice_at}
use psx_mnd_sym.Csym.Names.{is_member}

-- What the loops change: the store, which all parsers share, `fakeCount`, the keys of `isPresent`, and the map
-- and the list of the merged parser.
pub record Merge (T : Type 0) : Type 0 where
  pub store : List T
  pub fake_count : ℕ
  pub present : List Text
  pub tags : Map (List ℕ)
  pub order : List ℕ

-- `keyword` is "struct", "union" or "enum"; `def` is what Def prints in the current state of the store.
module _ {T : Type 0} (keyword : Text) (tag_of : T → Text) (set_tag : Text → T → T)
    (def : List T → T → Text) (pnum : ℕ) where
  -- The tag given to a type that is added, if another has its tag.
  unfoldable pub free_tag : Text → Map (List ℕ) → Text
  unfolding dec lookup
  free_tag tag tags = elim (lookup tag tags) [
    | none ↦ tag
    | some _ ↦ tag ++ (codes "_dup_" ++ dec pnum)
  ]

  unfoldable pub fake_name : ℕ → Text
  unfolding dec
  fake_name n = keyword ++ (codes "_fake_" ++ (dec pnum ++ (codes "_" ++ dec n)))

  -- The definition printed for the type at a place, its tag hidden if it is fake. The Def of an enum sorts its
  -- members too, on which nothing else depends.
  unfoldable pub printed : ℕ → T → List T → Text
  unfolding is_fake_tag
  printed i t store =
      if is_fake_tag (tag_of t)
      then (let hidden = set_tag (codes "placeholder") t in def (set store i hidden) hidden)
      else def store t

  -- The type added to the merged parser, under a tag.
  abbrev pub add_pointer : Text → ℕ → Merge T → Merge T
  add_pointer tag i s = record s {
    tags = insert tag (slice_at tag s.tags ++ i ∷ []) s.tags;
    order = s.order ++ i ∷ [];
  }

  -- A type with a fake tag, that is renamed, and added unless its definition has been seen.
  unfoldable pub add_fake : Bool → ℕ → T → Merge T → Text × Merge T
  unfolding fake_name lookup insert
  add_fake seen i t s =
      let name = fake_name s.fake_count in
      let renamed : Merge T = record s {
        fake_count = suc s.fake_count;
        store = set s.store i (set_tag name t);
      } in
      (name, if seen then renamed else add_pointer name i renamed)

  -- A type with a tag of its own, added under a free tag unless its definition has been seen.
  unfoldable pub add_own : Bool → ℕ → T → Text → Merge T → Text × Merge T
  unfolding free_tag lookup insert
  add_own true i t tag s = (tag, s)
  add_own false i t tag s =
      let free = free_tag tag s.tags in
      let new : T = elim (lookup tag s.tags) [ none ↦ t | some _ ↦ set_tag free t ] in
      (free, add_pointer free i (record s { store = set s.store i new }))

  -- One round of the inner loop, with the variable `tag` before and after it.
  unfoldable pub add_unique_at : ℕ → T → Text → Merge T → Text × Merge T
  unfolding printed is_member add_fake add_own
  add_unique_at i t tag s =
      let text = printed i t s.store in
      let seen = is_member text s.present in
      let s1 : Merge T = record s { present = text ∷ s.present } in
      if is_fake_tag (tag_of t) then add_fake seen i t s1 else add_own seen i t tag s1

  abbrev pub add_unique_in : Option T → ℕ → Text → Merge T → Text × Merge T
  add_unique_in none i tag s = (tag, s)
  add_unique_in (some t) i tag s = add_unique_at i t tag s

  -- The inner loop, over the types with one tag; each is in the store.
  unfoldable pub add_unique_slice : List ℕ → Text → Merge T → Merge T
  unfolding add_unique_at
  add_unique_slice [] tag s = s
  add_unique_slice (i ∷ places) tag s =
      let (tag', s') = add_unique_in (get_elem? s.store i) i tag s in
      add_unique_slice places tag' s'

  -- addUniqueStructs, addUniqueUnions, addUniqueEnums: over the slices of all tags.
  unfoldable pub add_unique : Map (List ℕ) → Merge T → Merge T
  unfolding add_unique_slice
  add_unique [] s = s
  add_unique ((tag, places) ∷ m) s = add_unique m (add_unique_slice places tag s)

-- addUniqueStructs, with what is printed for a type without a declarator in a state of the store.
unfoldable pub add_unique_structs :
    (List StructType → CType → Text) → ℕ → Map (List ℕ) → Merge StructType → Merge StructType
unfolding add_unique struct_def
add_unique_structs leaf pnum m s =
    add_unique (codes "struct") (λ t. t.tag) (λ tag t. record t { tag = tag })
      (λ store t. struct_def (leaf store) t) pnum m s

-- addUniqueUnions
unfoldable pub add_unique_unions :
    (List UnionType → CType → Text) → ℕ → Map (List ℕ) → Merge UnionType → Merge UnionType
unfolding add_unique union_def
add_unique_unions leaf pnum m s =
    add_unique (codes "union") (λ t. t.tag) (λ tag t. record t { tag = tag })
      (λ store t. union_def (leaf store) t) pnum m s

-- addUniqueEnums
unfoldable pub add_unique_enums :
    Sorting → (Text → Text) → ℕ → Map (List ℕ) → Merge EnumType → Merge EnumType
unfolding add_unique enum_def
add_unique_enums sorting align pnum m s =
    add_unique (codes "enum") (λ t. t.tag) (λ tag t. record t { tag = tag })
      (λ _ t. (enum_def sorting align t).0) pnum m s
