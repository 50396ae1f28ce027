-- ===== src/Csym/Tagged/Found.antt =====
-- What findStruct, findUnion and findEnum (csym/parse_types.go) give, and give again.
use psx_mnd_sym.Prelude.{
  ℕ, ◌≡◌, refl, sym, ap, ◌∙◌, ◌⊎◌, suc, if-eq_cases, inl, inr, List, [], ◌∷◌, ◌++◌, Text, codes,
  Bool, true, not, ◌==◌, ==_iff, ◌||◌, if◌then◌else◌, Option, none, some, length, get_elem?, set,
  subst, Option-cases, arith,
}
use psx_mnd_sym.C.Ast.{StructType, UnionType, EnumType}
use psx_mnd_sym.Csym.State.{lookup-insert_same, slice_at, Tagged}
use psx_mnd_sym.Csym.Names.{fresh_tag}
use psx_mnd_sym.Csym.Tagged.{
  add, last_place, change, empty_struct, empty_union, empty_enum, find_struct, find_union,
  find_enum,
}
use psx_mnd_sym.Csym.Tagged.Places.{search, some-injective}
use psx_mnd_sym.Csym.Fixups.Replace.Stores.{get_elem?-set_here}

get_elem?-append_last {ℓ} :
    {T : Type ℓ} (xs : List T) (t : T) → get_elem? (xs ++ t ∷ []) (length xs) ≡ some t
get_elem?-append_last [] t = refl
get_elem?-append_last (x ∷ xs) t = get_elem?-append_last xs t

-- The last place of a slice is found, if its object passes the test.
last_place-append {ℓ} :
    {T : Type ℓ} (test : T → Bool) (store : List T) (places : List ℕ) (found : Option ℕ) (n : ℕ)
    (t : T)
    → get_elem? store n ≡ some t
    → test t ≡ true
    → last_place test store (places ++ n ∷ []) found ≡ some n
unfolding last_place
last_place-append test store [] found n t here passes = rw (last_place, here, passes) refl
last_place-append test store (i ∷ places) found n t here passes =
    last_place-append test store places _ n t here passes

-- The place stands in a slice, and leads to an object that passes the test.
abbrev pub IsAmong {ℓ} : {T : Type ℓ} → (T → Bool) → List T → List ℕ → ℕ → Type ℓ
IsAmong test store places i =
    (k : ℕ) × (t : _) × (get_elem? places k ≡ some i)
    × (get_elem? store i ≡ some t)
    × (test t ≡ true)

-- One round of the search.
round-cases {ℓ} :
    {T : Type ℓ} (test : T → Bool) (o : Option T) (p i : ℕ) (found : Option ℕ)
    → (elim o [ none ↦ found | some t ↦ if test t then some p else found ]) ≡ some i
    → (found ≡ some i) ⊎ ((p ≡ i) × ((t : T) × (o ≡ some t) × (test t ≡ true)))
round-cases test none p i found e = inl e
round-cases test (some t) p i found e = elim (if-eq_cases (test t) e) [
  | inl (passes, same) ↦ inr (some-injective same, (t, refl, passes))
  | inr (_, same) ↦ inl same
]

last_place-cases {ℓ} :
    {T : Type ℓ} (test : T → Bool) (store : List T) (places : List ℕ) (found : Option ℕ) (i : ℕ)
    → last_place test store places found ≡ some i
    → (found ≡ some i) ⊎ IsAmong test store places i
unfolding last_place
last_place-cases test store [] found i e = inl e
last_place-cases test store (p ∷ places) found i e =
    elim (last_place-cases test store places _ i e) [
      | inl before ↦ elim (round-cases test (get_elem? store p) p i found before) [
        | inl earlier ↦ inl earlier
        | inr (same, (t, here, passes)) ↦
            inr (0, t, ap some same, ap (get_elem? store) (sym same) ∙ here, passes)
      ]
      | inr (k, t, listed, here, passes) ↦ inr (suc k, t, listed, here, passes)
    ]

last_place-IsAmong {ℓ} :
    {T : Type ℓ} (test : T → Bool) (store : List T) (places : List ℕ) (i : ℕ)
    → last_place test store places none ≡ some i
    → IsAmong test store places i
last_place-IsAmong test store places i e = elim (last_place-cases test store places none i e) [
  | inl before ↦ cc
  | inr among ↦ among
]

change-here {ℓ} :
    {T : Type ℓ} (f : T → T) (i : ℕ) (s : Tagged T) (t : T)
    → get_elem? s.store i ≡ some t
    → change f i s ≡ record s { store = set s.store i (f t) }
unfolding change
change-here f i s t here = rw (change, here) refl

-- What is found is listed for its tag and passes the test, and a second call gives the same again.
abbrev pub Settles {ℓ} :
    {T : Type ℓ} → (Tagged T → ℕ × Tagged T) → Text → (T → Bool) → Tagged T → Type ℓ
Settles find tag test s =
    IsAmong test (find s).1.store (slice_at tag (find s).1.tags) (find s).0
    × (find (find s).1 ≡ find s)

module _ {ℓ} {T : Type ℓ} (tag_of : T → Text) (set_tag : Text → T → T) (t : T) (test : T → Bool)
    (passes : test t ≡ true) (passes' : (tag : Text) → test (set_tag tag t) ≡ true) where
  -- The last place in the slice of the tag, of those that pass the test, is this one.
  abbrev IsFound : ℕ × Tagged T → Type 0
  IsFound found =
      last_place test found.1.store (slice_at (tag_of t) found.1.tags) none ≡ some found.0

  add-slice :
      (s : Tagged T)
      → slice_at (tag_of t) (add tag_of t s).1.tags
        ≡ slice_at (tag_of t) s.tags ++ length s.store ∷ []
  unfolding add
  add-slice s =
      ap (λ o. elim o as (λ _. List ℕ) [ none ↦ [] | some xs ↦ xs ])
        (lookup-insert_same (tag_of t) _ s.tags)

  -- A new object is found, also with another tag.
  new-IsFound :
      (tag : Text) (places : List ℕ) (s : Tagged T)
      → IsFound (
        (add tag_of t s).0,
        elim places as (λ _. Tagged T) [
          | [] ↦ (add tag_of t s).1
          | _ ∷ _ ↦ change (set_tag tag) (add tag_of t s).0 (add tag_of t s).1
        ],
      )
  unfolding add change
  new-IsFound tag [] s = rw (add-slice s) (
      last_place-append test (s.store ++ t ∷ []) (slice_at (tag_of t) s.tags) none (length s.store)
        t (get_elem?-append_last s.store t) passes)
  new-IsFound tag (p ∷ places) s =
      let n = length s.store in
      let added = (add tag_of t s).1 in
      let here = get_elem?-append_last s.store t in
      let same : change (set_tag tag) n added
          ≡ record added { store = set added.store n (set_tag tag t) } =
        change-here (set_tag tag) n added t here in
      subst (λ after. IsFound (n, after)) (sym same)
        (rw (add-slice s) (
          last_place-append test _ (slice_at (tag_of t) s.tags) none n (set_tag tag t)
            (get_elem?-set_here added.store n (set_tag tag t) t here) (passes' tag)))

  IsFound-again :
      (letter : Text) (found : ℕ × Tagged T)
      → IsFound found
      → search tag_of set_tag (tag_of t) test t letter found.1 ≡ found
  unfolding search
  IsFound-again letter found e = rw (search, e) refl

  search-IsFound :
      (letter : Text) (s : Tagged T) → IsFound (search tag_of set_tag (tag_of t) test t letter s)
  unfolding search
  search-IsFound letter s =
      let places = slice_at (tag_of t) s.tags in
      elim (Option-cases (last_place test s.store places none)) [
        | inl e ↦
            rw (search, e)
              (new-IsFound (fresh_tag letter (add tag_of t s).0 (tag_of t) (add tag_of t s).1.tags)
                places s)
        | inr (i, e) ↦ rw (search, e) e
      ]

  search-Settles :
      (letter : Text) (s : Tagged T)
      → Settles (search tag_of set_tag (tag_of t) test t letter) (tag_of t) test s
  search-Settles letter s =
      let found = search tag_of set_tag (tag_of t) test t letter s in
      let there = search-IsFound letter s in
      (
        last_place-IsAmong test found.1.store (slice_at (tag_of t) found.1.tags) found.0 there,
        IsFound-again letter found there,
      )

size_passes : (match_size : Bool) (size : ℕ) → (not match_size || size == size) ≡ true
size_passes match_size size = ground (arith, (==_iff size size).1 refl)

-- findStruct, findUnion and findEnum give a place that the map then lists for the tag, and that leads to
-- a type, of the size asked for if sizes are matched. Called again with the same arguments on what
-- they left, they give the same place, and add and change nothing.
pub find-Settles :
    (tag : Text) (size : ℕ) (match_size : Bool) (structs : Tagged StructType)
    (unions : Tagged UnionType) (enums : Tagged EnumType)
    → Settles (find_struct tag size match_size) tag (λ t. not match_size || t.size == size) structs
      × Settles (find_union tag size match_size) tag (λ t. not match_size || t.size == size) unions
      × Settles (find_enum tag) tag (λ t. true) enums
unfolding find_struct find_union find_enum empty_struct empty_union empty_enum search
find-Settles tag size match_size structs unions enums = (
  search-Settles (λ (t : StructType). t.tag) (λ x t. record t { tag = x })
      (record { size = size; tag = tag; fields = []; methods = [] })
      (λ t. not match_size || t.size == size) (size_passes match_size size)
      (λ x. size_passes match_size size) (codes "s") structs,
  search-Settles (λ (t : UnionType). t.tag) (λ x t. record t { tag = x })
      (record { size = size; tag = tag; fields = [] }) (λ t. not match_size || t.size == size)
      (size_passes match_size size) (λ x. size_passes match_size size) (codes "u") unions,
  search-Settles (λ (t : EnumType). t.tag) (λ x t. record t { tag = x })
      (record { tag = tag; members = [] }) (λ t. true) refl (λ x. refl) (codes "e") enums,
)
