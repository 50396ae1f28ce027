-- ===== src/Csym/Tagged/Places.antt =====
-- The places in the lists and maps of tagged types.
use psx_mnd_sym.Prelude.{
  ℕ, suc, ◌≡◌, ◌<◌, ◌≤◌, subst, inl, inr, List, [], ◌∷◌, ◌++◌, Text, codes, text_eq, Bool, true,
  not, ◌==◌, ◌||◌, if◌then◌else◌, Option, none, some, All, All-append, length, length-append,
  length-set, get_elem?, arith, Bool-cases, Option-cases, if-eq_cases,
}
use psx_mnd_sym.C.Ast.{StructType, UnionType, EnumType}
use psx_mnd_sym.Csym.State.{Map, lookup, insert, slice_at, Tagged}
use psx_mnd_sym.Csym.Names.{fresh_tag}
use psx_mnd_sym.Csym.Tagged.{
  add, last_place, change, empty_struct, empty_union, empty_enum, find_struct, find_union,
  find_enum,
}

abbrev pub AllBelow : ℕ → List ℕ → Type 0
AllBelow n places = All (λ i. i < n) places

abbrev pub EntriesBelow : ℕ → Map (List ℕ) → Type 0
EntriesBelow n m = All (λ (e : Text × List ℕ). AllBelow n e.1) m

-- Every place that the list and the map hold is one of the store.
abbrev pub IsWellPlaced {ℓ} : {T : Type ℓ} → Tagged T → Type 0
IsWellPlaced s = AllBelow (length s.store) s.order × EntriesBelow (length s.store) s.tags

pub below-AllBelow : (n k : ℕ) (places : List ℕ) → n ≤ k → AllBelow n places → AllBelow k places
below-AllBelow n k [] le h = tt
below-AllBelow n k (i ∷ places) le h = (omega (arith, le, h.0), below-AllBelow n k places le h.1)

below-EntriesBelow : (n k : ℕ) (m : Map (List ℕ)) → n ≤ k → EntriesBelow n m → EntriesBelow k m
below-EntriesBelow n k [] le h = tt
below-EntriesBelow n k (e ∷ m) le h =
    (below-AllBelow n k e.1 le h.0, below-EntriesBelow n k m le h.1)

slice_at-AllBelow :
    (n : ℕ) (key : Text) (m : Map (List ℕ)) → EntriesBelow n m → AllBelow n (slice_at key m)
unfolding lookup
slice_at-AllBelow n key [] h = tt
slice_at-AllBelow n key ((k, places) ∷ m) h = elim (Bool-cases (text_eq key k)) [
  | inl e ↦ rw (slice_at, e) h.0
  | inr e ↦ rw (slice_at, e) (slice_at-AllBelow n key m h.1)
]

insert-EntriesBelow :
    (n : ℕ) (key : Text) (places : List ℕ) (m : Map (List ℕ))
    → AllBelow n places
    → EntriesBelow n m
    → EntriesBelow n (insert key places m)
unfolding insert
insert-EntriesBelow n key places [] h hm = (h, tt)
insert-EntriesBelow n key places ((k, old) ∷ m) h hm = elim (Bool-cases (text_eq key k)) [
  | inl e ↦ rw e (h, hm.1)
  | inr e ↦ rw e (hm.0, insert-EntriesBelow n key places m h hm.1)
]

-- What a search gives: a place of the store, the lists well placed, and a store as long at least.
abbrev pub Placed {ℓ} : {T : Type ℓ} → Tagged T → ℕ × Tagged T → Type 0
Placed s found =
    (found.0 < length found.1.store)
    × IsWellPlaced found.1
    × (length s.store ≤ length found.1.store)

pub add-Placed {ℓ} :
    {T : Type ℓ} (tag_of : T → Text) (t : T) (s : Tagged T)
    → IsWellPlaced s
    → Placed s (add tag_of t s)
unfolding add
add-Placed tag_of t s h =
    let n = length s.store in
    let grown : length (s.store ++ t ∷ []) ≡ suc n =
      omega (arith, length-append s.store (t ∷ [])) in
    let places = slice_at (tag_of t) s.tags in
    let wider = λ (l : List ℕ) (hl : AllBelow n l).
      All-append (λ i. i < suc n) l (n ∷ []) (below-AllBelow n (suc n) l (omega arith) hl)
        (omega arith, tt) in
    rw grown (
      omega arith,
      (
        wider s.order h.0,
        insert-EntriesBelow (suc n) (tag_of t) (places ++ n ∷ []) s.tags
            (wider places (slice_at-AllBelow n (tag_of t) s.tags h.1))
            (below-EntriesBelow n (suc n) s.tags (omega arith) h.1),
      ),
      omega arith,
    )

-- A change of one object moves nothing.
change-Placed {ℓ} :
    {T : Type ℓ} (f : T → T) (s found : Tagged T) (i : ℕ)
    → Placed s (i, found)
    → Placed s (i, change f i found)
unfolding change
change-Placed f s found i h = elim (Option-cases (get_elem? found.store i)) [
  | inl e ↦ rw (change, e) h
  | inr (t, e) ↦ rw (change, e, length-set found.store i (f t)) h
]

pub some-injective {ℓ} : {A : Type ℓ} {a b : A} → some a ≡ some b → a ≡ b
some-injective e = cc

-- One round of the search.
round_below {ℓ} :
    {T : Type ℓ} (test : T → Bool) (o : Option T) (p n : ℕ) (found : Option ℕ)
    → p < n
    → ((j : ℕ) → found ≡ some j → j < n)
    → (j : ℕ) → (elim o [ none ↦ found | some t ↦ if test t then some p else found ]) ≡ some j
    → j < n
round_below test none p n found hp hf j e = hf j e
round_below test (some t) p n found hp hf j e = elim (if-eq_cases (test t) e) [
  | inl (_, same) ↦ subst (λ k. k < n) (some-injective same) hp
  | inr (_, same) ↦ hf j same
]

last_place-below {ℓ} :
    {T : Type ℓ} (test : T → Bool) (store : List T) (places : List ℕ) (found : Option ℕ) (n i : ℕ)
    → AllBelow n places
    → ((j : ℕ) → found ≡ some j → j < n)
    → last_place test store places found ≡ some i
    → i < n
unfolding last_place
last_place-below test store [] found n i h hf e = hf i e
last_place-below test store (p ∷ places) found n i h hf e =
    last_place-below test store places _ n i h.1
      (round_below test (get_elem? store p) p n found h.0 hf) e

none_below : (n j : ℕ) → ◌≡◌ {A = Option ℕ} none (some j) → j < n
none_below n j e = cc

module _ {ℓ} {T : Type ℓ} (tag_of : T → Text) (set_tag : Text → T → T) where
  -- The search, for any type with a tag: the place found, or a new object, with a new tag if the map has an
  -- object with its tag.
  unfoldable pub search : Text → (T → Bool) → T → Text → Tagged T → ℕ × Tagged T
  unfolding last_place add change fresh_tag
  search tag test t letter s =
      let places = slice_at tag s.tags in
      elim (last_place test s.store places none) [
        | some i ↦ (i, s)
        | none ↦
            let added = add tag_of t s in
            let new_tag = fresh_tag letter added.0 tag added.1.tags in
            (
              added.0,
              elim places [ [] ↦ added.1 | _ ∷ _ ↦ change (set_tag new_tag) added.0 added.1 ],
            )
      ]

  new-Placed :
      (t : T) (f : T → T) (places : List ℕ) (s : Tagged T)
      → IsWellPlaced s
      → Placed s (
        (add tag_of t s).0,
        elim places [
          | [] ↦ (add tag_of t s).1
          | _ ∷ _ ↦ change f (add tag_of t s).0 (add tag_of t s).1
        ],
      )
  new-Placed t f [] s h = add-Placed tag_of t s h
  new-Placed t f (p ∷ places) s h =
      change-Placed f s (add tag_of t s).1 (add tag_of t s).0 (add-Placed tag_of t s h)

  search-Placed :
      (tag : Text) (test : T → Bool) (t : T) (letter : Text) (s : Tagged T)
      → IsWellPlaced s
      → Placed s (search tag test t letter s)
  unfolding search
  search-Placed tag test t letter s h =
      let places = slice_at tag s.tags in
      let n = length s.store in
      elim (Option-cases (last_place test s.store places none)) [
        | inl e ↦
            rw (search, e)
              (new-Placed t
                (set_tag (fresh_tag letter (add tag_of t s).0 tag (add tag_of t s).1.tags)) places s
                h)
        | inr (i, e) ↦
            rw (search, e)
              (
                last_place-below test s.store places none n i (slice_at-AllBelow n tag s.tags h.1)
                    (none_below n) e,
                h,
                omega arith,
              )
      ]

-- findStruct, findUnion and findEnum give a place of the store, keep every place in the lists and
-- maps one of the store, and never shrink the store.
pub find-Placed :
    (tag : Text) (size : ℕ) (match_size : Bool) (structs : Tagged StructType)
    (unions : Tagged UnionType) (enums : Tagged EnumType)
    → IsWellPlaced structs
    → IsWellPlaced unions
    → IsWellPlaced enums
    → Placed structs (find_struct tag size match_size structs)
      × Placed unions (find_union tag size match_size unions)
      × Placed enums (find_enum tag enums)
unfolding find_struct find_union find_enum empty_struct empty_union empty_enum search
find-Placed tag size match_size structs unions enums hs hu he = (
  search-Placed (λ (t : StructType). t.tag) (λ new_tag t. record t { tag = new_tag }) tag
      (λ t. not match_size || t.size == size)
      (record { size = size; tag = tag; fields = []; methods = [] }) (codes "s") structs hs,
  search-Placed (λ (t : UnionType). t.tag) (λ new_tag t. record t { tag = new_tag }) tag
      (λ t. not match_size || t.size == size) (record { size = size; tag = tag; fields = [] })
      (codes "u") unions hu,
  search-Placed (λ (t : EnumType). t.tag) (λ new_tag t. record t { tag = new_tag }) tag (λ t. true)
      (record { tag = tag; members = [] }) (codes "e") enums he,
)
