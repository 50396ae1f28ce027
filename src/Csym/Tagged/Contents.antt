-- ===== src/Csym/Tagged/Contents.antt =====
-- What is so of all objects of a store stays so in the lists and maps of tagged types.
use psx_mnd_sym.Prelude.{
  ℕ, zero, suc, ◌≡◌, subst, inl, inr, List, [], ◌∷◌, Text, codes, Bool, not, ◌==◌, ◌||◌, none, some,
  All, All-append, set, get_elem?, Option-cases,
}
use psx_mnd_sym.C.Ast.{StructType, UnionType}
use psx_mnd_sym.Csym.State.{slice_at, Tagged}
use psx_mnd_sym.Csym.Names.{fresh_tag}
use psx_mnd_sym.Csym.Tagged.{
  add, last_place, change, empty_struct, empty_union, find_struct, find_union,
}
use psx_mnd_sym.Csym.Tagged.Places.{search, some-injective}

module _ {ℓ κ} {T : Type ℓ} (P : T → Type κ) where
  pub All-at : (xs : List T) (i : ℕ) (x : T) → All P xs → get_elem? xs i ≡ some x → P x
  All-at [] i x h e = cc
  All-at (y ∷ xs) zero x h e = subst P (some-injective e) h.0
  All-at (y ∷ xs) (suc i) x h e = All-at xs i x h.1 e

  pub All-set : (xs : List T) (i : ℕ) (x : T) → All P xs → P x → All P (set xs i x)
  All-set [] i x h hx = tt
  All-set (y ∷ xs) zero x h hx = (hx, h.1)
  All-set (y ∷ xs) (suc i) x h hx = (h.0, All-set xs i x h.1 hx)

  -- A change that keeps `P`.
  pub change-All :
      (f : T → T) (i : ℕ) (s : Tagged T)
      → ((x : T) → P x → P (f x))
      → All P s.store
      → All P (change f i s).store
  unfolding change
  change-All f i s keeps h = elim (Option-cases (get_elem? s.store i)) [
    | inl e ↦ rw (change, e) h
    | inr (t, e) ↦ rw (change, e) (All-set s.store i (f t) h (keeps t (All-at s.store i t h e)))
  ]

  pub add-All :
      (tag_of : T → Text) (t : T) (s : Tagged T)
      → P t
      → All P s.store
      → All P (add tag_of t s).1.store
  unfolding add
  add-All tag_of t s ht h = All-append P s.store (t ∷ []) h (ht, tt)

  module _ (tag_of : T → Text) (set_tag : Text → T → T)
      (keeps : (tag : Text) (x : T) → P x → P (set_tag tag x)) where
    new-All :
        (t : T) (tag : Text) (places : List ℕ) (s : Tagged T)
        → P t
        → All P s.store
        → All P
            (elim places as (λ _. Tagged T) [
              | [] ↦ (add tag_of t s).1
              | _ ∷ _ ↦ change (set_tag tag) (add tag_of t s).0 (add tag_of t s).1
            ]).store
    new-All t tag [] s ht h = add-All tag_of t s ht h
    new-All t tag (p ∷ places) s ht h =
        change-All (set_tag tag) (add tag_of t s).0 (add tag_of t s).1 (keeps tag)
          (add-All tag_of t s ht h)

    search-All :
        (tag : Text) (test : T → Bool) (t : T) (letter : Text) (s : Tagged T)
        → P t
        → All P s.store
        → All P (search tag_of set_tag tag test t letter s).1.store
    unfolding search
    search-All tag test t letter s ht h =
        let places = slice_at tag s.tags in
        elim (Option-cases (last_place test s.store places none)) [
          | inl e ↦
              rw (search, e)
                (new-All t (fresh_tag letter (add tag_of t s).0 tag (add tag_of t s).1.tags) places
                  s ht h)
          | inr (i, e) ↦ rw (search, e) h
        ]

-- findStruct and findUnion add nothing but empty objects.
pub find_struct-All :
    (P : StructType → Type 0) (tag : Text) (size : ℕ) (match_size : Bool) (s : Tagged StructType)
    → ((x : Text) (t : StructType) → P t → P (record t { tag = x }))
    → P (record { size = size; tag = tag; fields = []; methods = [] })
    → All P s.store
    → All P (find_struct tag size match_size s).1.store
unfolding find_struct empty_struct search
find_struct-All P tag size match_size s keeps ht h =
    search-All P (λ (t : StructType). t.tag) (λ x t. record t { tag = x }) keeps tag
      (λ t. not match_size || t.size == size)
      (record { size = size; tag = tag; fields = []; methods = [] }) (codes "s") s ht h

pub find_union-All :
    (P : UnionType → Type 0) (tag : Text) (size : ℕ) (match_size : Bool) (s : Tagged UnionType)
    → ((x : Text) (t : UnionType) → P t → P (record t { tag = x }))
    → P (record { size = size; tag = tag; fields = [] })
    → All P s.store
    → All P (find_union tag size match_size s).1.store
unfolding find_union empty_union search
find_union-All P tag size match_size s keeps ht h =
    search-All P (λ (t : UnionType). t.tag) (λ x t. record t { tag = x }) keeps tag
      (λ t. not match_size || t.size == size) (record { size = size; tag = tag; fields = [] })
      (codes "u") s ht h
