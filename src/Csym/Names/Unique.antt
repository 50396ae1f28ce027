-- ===== src/Csym/Names/Unique.antt =====
-- The names that uniqueEnum, UniqueName and UniqueTag's loops give.
use psx_mnd_sym.Prelude.{
  ℕ, zero, suc, ◌+◌, ◌≡◌, List, [], ◌∷◌, ◌++◌, Text, codes, ◌≤◌, ◌<◌, length, arith, if◌then◌else◌,
  text_eq, text_eq→eq, length-append, none, some, ltb, Bool-cases, Option-cases, inl, inr, ap,
  subst,
}
use psx_mnd_sym.Fmt.{dec}
use psx_mnd_sym.Csym.State.{Map, lookup}
use psx_mnd_sym.Csym.Names.{fresh_tag, fresh_tag_from, unique_tag, slice_index}

-- How many keys are at least `n` long.
unfoldable long_keys : ℕ → Map (List ℕ) → ℕ
long_keys n [] = 0
long_keys n ((k, a) ∷ m) = if ltb (length k) n then long_keys n m else suc (long_keys n m)

long_keys_bound : (n : ℕ) (m : Map (List ℕ)) → long_keys n m ≤ length m
unfolding long_keys
long_keys_bound n [] = omega arith
long_keys_bound n ((k, a) ∷ m) = ground (arith, long_keys_bound n m)

long_keys_mono : (n l : ℕ) (m : Map (List ℕ)) → n ≤ l → long_keys l m ≤ long_keys n m
unfolding long_keys
long_keys_mono n l [] h = omega arith
long_keys_mono n l ((k, a) ∷ m) h = ground (arith, long_keys_mono n l m h)

key_counts :
    (tag : Text) (l : ℕ) (k : Text) (a : List ℕ) (m : Map (List ℕ))
    → length tag ≡ length k
    → length tag < l
    → long_keys l ((k, a) ∷ m) < long_keys (length tag) ((k, a) ∷ m)
unfolding long_keys
key_counts tag l k a m same more = ground (arith, long_keys_mono (length tag) l m)

key_kept :
    (tag : Text) (l : ℕ) (k : Text) (a : List ℕ) (m : Map (List ℕ))
    → long_keys l m < long_keys (length tag) m
    → length tag < l
    → long_keys l ((k, a) ∷ m) < long_keys (length tag) ((k, a) ∷ m)
unfolding long_keys
key_kept tag l k a m rest more = ground arith

-- A key found counts no more at a greater length.
long_keys_found :
    (tag : Text) (l : ℕ) (places : List ℕ) (m : Map (List ℕ))
    → lookup tag m ≡ some places
    → length tag < l
    → long_keys l m < long_keys (length tag) m
unfolding long_keys lookup
long_keys_found tag l places [] h more = cc
long_keys_found tag l places ((k, a) ∷ m) h more = elim (Bool-cases (text_eq tag k)) [
  | inl e ↦ key_counts tag l k a m (ap length (text_eq→eq tag k e)) more
  | inr e ↦
      let found : lookup tag m ≡ some places =
        subst (λ b. (if b then some a else lookup tag m) ≡ some places) e h in
      key_kept tag l k a m (long_keys_found tag l places m found more) more
]

unique_tag_longer : (tag typ : Text) (i : ℕ) → length tag < length (unique_tag tag typ i)
unfolding unique_tag
unique_tag_longer tag typ i =
    let start = tag ++ codes "_duplicate_" in
    let longer : length tag < length (start ++ typ ++ dec i) = omega (
      arith,
      length-append (start ++ typ) (dec i),
      length-append start typ,
      length-append tag (codes "_duplicate_"),
    ) in
    longer

fresh_tag_from_lem :
    (fuel : ℕ) (typ : Text) (t : ℕ) (tag : Text) (tags : Map (List ℕ))
    → long_keys (length tag) tags < fuel
    → lookup (fresh_tag_from fuel typ t tag tags) tags ≡ none
unfolding fresh_tag_from
fresh_tag_from_lem zero typ t tag tags h = ground arith
fresh_tag_from_lem (suc fuel) typ t tag tags h = elim (Option-cases (lookup tag tags)) [
  | inl e ↦ rw (fresh_tag_from, e) e
  | inr (places, e) ↦
      let next = unique_tag tag typ (slice_index places t) in
      let fewer =
        long_keys_found tag (length next) places tags e
          (unique_tag_longer tag typ (slice_index places t)) in
      rw (fresh_tag_from, e) (fresh_tag_from_lem fuel typ t next tags (omega (arith, fewer, h)))
]

-- UniqueStructTag, UniqueUnionTag and UniqueEnumTag return a tag that is no key of the map: their
-- loop ends, after at most one round more than the map has entries.
pub lookup-fresh_tag :
    (typ : Text) (t : ℕ) (tag : Text) (tags : Map (List ℕ))
    → lookup (fresh_tag typ t tag tags) tags ≡ none
unfolding fresh_tag
lookup-fresh_tag typ t tag tags =
    fresh_tag_from_lem (length tags + 1) typ t tag tags
      (omega (arith, long_keys_bound (length tag) tags))
