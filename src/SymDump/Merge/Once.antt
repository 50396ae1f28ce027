-- ===== src/SymDump/Merge/Once.antt =====
-- The map and the list of the merged parser (cmd/sym_dump/main.go).
use psx_mnd_sym.Prelude.{
  ℕ, suc, ◌+◌, ◌≡◌, inl, inr, List, [], ◌∷◌, ◌++◌, Text, codes, text_eq, Bool, true, false,
  if◌then◌else◌, Bool-cases, Option, none, some, get_elem?, set, arith,
}
use psx_mnd_sym.C.Ast.{CType, StructType, UnionType, EnumType}
use psx_mnd_sym.C.Sorting.{count, count-append, Sorting}
use psx_mnd_sym.C.Defs.{struct_def, union_def, enum_def}
use psx_mnd_sym.C.FakeTag.{is_fake_tag}
use psx_mnd_sym.Csym.State.{Map, lookup, insert, slice_at}
use psx_mnd_sym.Csym.Names.{is_member}
use psx_mnd_sym.SymDump.Merge.{
  Merge, free_tag, fake_name, printed, add_pointer, add_fake, add_own, add_unique_in, add_unique_at,
  add_unique_slice, add_unique, add_unique_structs, add_unique_unions, add_unique_enums,
}

-- How many of the types in the slices of all tags pass the test.
unfoldable pub filed : (ℕ → Bool) → Map (List ℕ) → ℕ
filed p [] = 0
filed p ((tag, pointers) ∷ m) = count p pointers + filed p m

filed-insert_any :
    (p : ℕ → Bool) (tag : Text) (new : List ℕ) (m : Map (List ℕ))
    → filed p (insert tag new m) + count p (slice_at tag m) ≡ filed p m + count p new
unfolding filed insert lookup
filed-insert_any p tag new [] = omega arith
filed-insert_any p tag new ((k, pointers) ∷ m) = elim (Bool-cases (text_eq tag k)) [
  | inl e ↦ rw (slice_at, e) (omega arith)
  | inr e ↦ rw (slice_at, e) (omega (arith, filed-insert_any p tag new m))
]

filed-insert :
    (p : ℕ → Bool) (tag : Text) (x : ℕ) (m : Map (List ℕ))
    → filed p (insert tag (slice_at tag m ++ x ∷ []) m) ≡ filed p m + count p (x ∷ [])
filed-insert p tag x m =
    let old = slice_at tag m in
    omega (arith, filed-insert_any p tag (old ++ x ∷ []) m, count-append p old (x ∷ []))

module _ {T : Type 0} where
  -- The slices of the tags hold the types of the list, each as often.
  abbrev pub IsFiled : Merge T → Type 0
  IsFiled s = (p : ℕ → Bool) → filed p s.tags ≡ count p s.order

  if-IsFiled :
      (b : Bool) (x y : Text × Merge T) → IsFiled x.1 → IsFiled y.1 → IsFiled (if b then x else y).1
  if-IsFiled true x y hx hy = hx
  if-IsFiled false x y hx hy = hy

  module _ (keyword : Text) (tag_of : T → Text) (set_tag : Text → T → T) (def : List T → T → Text)
      (pnum : ℕ) where
    add_pointer-IsFiled :
        (tag : Text) (i : ℕ) (s : Merge T)
        → IsFiled s
        → IsFiled (add_pointer keyword tag_of set_tag def pnum tag i s)
    add_pointer-IsFiled tag i s h p =
        omega (arith, filed-insert p tag i s.tags, count-append p s.order (i ∷ []), h p)

    add_fake-IsFiled :
        (seen : Bool) (i : ℕ) (t : T) (s : Merge T)
        → IsFiled s
        → IsFiled (add_fake keyword tag_of set_tag def pnum seen i t s).1
    unfolding add_fake
    add_fake-IsFiled true i t s h = h
    add_fake-IsFiled false i t s h =
        let name = fake_name keyword tag_of set_tag def pnum s.fake_count in
        add_pointer-IsFiled name i
          (record s { fake_count = suc s.fake_count; store = set s.store i (set_tag name t) }) h

    add_own-IsFiled :
        (seen : Bool) (i : ℕ) (t : T) (tag : Text) (s : Merge T)
        → IsFiled s
        → IsFiled (add_own keyword tag_of set_tag def pnum seen i t tag s).1
    unfolding add_own
    add_own-IsFiled true i t tag s h = h
    add_own-IsFiled false i t tag s h =
        let free = free_tag keyword tag_of set_tag def pnum tag s.tags in
        let new : T = elim (lookup tag s.tags) [ none ↦ t | some _ ↦ set_tag free t ] in
        add_pointer-IsFiled free i (record s { store = set s.store i new }) h

    add_unique_at-IsFiled :
        (i : ℕ) (t : T) (tag : Text) (s : Merge T)
        → IsFiled s
        → IsFiled (add_unique_at keyword tag_of set_tag def pnum i t tag s).1
    unfolding add_unique_at
    add_unique_at-IsFiled i t tag s h =
        let text = printed keyword tag_of set_tag def pnum i t s.store in
        let seen = is_member text s.present in
        let s1 : Merge T = record s { present = text ∷ s.present } in
        if-IsFiled (is_fake_tag (tag_of t)) (add_fake keyword tag_of set_tag def pnum seen i t s1)
          (add_own keyword tag_of set_tag def pnum seen i t tag s1) (add_fake-IsFiled seen i t s1 h)
          (add_own-IsFiled seen i t tag s1 h)

    add_unique_in-IsFiled :
        (o : Option T) (i : ℕ) (tag : Text) (s : Merge T)
        → IsFiled s
        → IsFiled (add_unique_in keyword tag_of set_tag def pnum o i tag s).1
    add_unique_in-IsFiled none i tag s h = h
    add_unique_in-IsFiled (some t) i tag s h = add_unique_at-IsFiled i t tag s h

    add_unique_slice-IsFiled :
        (places : List ℕ) (tag : Text) (s : Merge T)
        → IsFiled s
        → IsFiled (add_unique_slice keyword tag_of set_tag def pnum places tag s)
    unfolding add_unique_slice
    add_unique_slice-IsFiled [] tag s h = h
    add_unique_slice-IsFiled (i ∷ places) tag s h =
        let after = add_unique_in keyword tag_of set_tag def pnum (get_elem? s.store i) i tag s in
        add_unique_slice-IsFiled places after.0 after.1
          (add_unique_in-IsFiled (get_elem? s.store i) i tag s h)

    add_unique-IsFiled :
        (m : Map (List ℕ)) (s : Merge T)
        → IsFiled s
        → IsFiled (add_unique keyword tag_of set_tag def pnum m s)
    unfolding add_unique
    add_unique-IsFiled [] s h = h
    add_unique-IsFiled ((tag, places) ∷ m) s h =
        add_unique-IsFiled m (add_unique_slice keyword tag_of set_tag def pnum places tag s)
          (add_unique_slice-IsFiled places tag s h)

-- If the slices of the tags of the merged parser hold the types of its list, each as often, then they still do
-- when the structs, unions or enums of one more parser have been added.
pub add_unique_types-IsFiled :
    (sorting : Sorting) (align : Text → Text) (struct_leaf : List StructType → CType → Text)
    (union_leaf : List UnionType → CType → Text) (pnum : ℕ) (m : Map (List ℕ))
    (structs : Merge StructType) (unions : Merge UnionType) (enums : Merge EnumType)
    → IsFiled structs
    → IsFiled unions
    → IsFiled enums
    → IsFiled (add_unique_structs struct_leaf pnum m structs)
      × IsFiled (add_unique_unions union_leaf pnum m unions)
      × IsFiled (add_unique_enums sorting align pnum m enums)
unfolding add_unique_structs add_unique_unions add_unique_enums
add_unique_types-IsFiled sorting align struct_leaf union_leaf pnum m structs unions enums hs hu he =
    (
      add_unique-IsFiled (codes "struct") (λ t. t.tag) (λ tag t. record t { tag = tag })
          (λ store t. struct_def (struct_leaf store) t) pnum m structs hs,
      add_unique-IsFiled (codes "union") (λ t. t.tag) (λ tag t. record t { tag = tag })
          (λ store t. union_def (union_leaf store) t) pnum m unions hu,
      add_unique-IsFiled (codes "enum") (λ t. t.tag) (λ tag t. record t { tag = tag })
          (λ _ t. (enum_def sorting align t).0) pnum m enums he,
    )
