-- ===== src/Csym/Fixups/Duplicates/Whole.antt =====
-- removeStructsDuplicates as a whole.
use psx_mnd_sym.Prelude.{
  ℕ, ◌≡◌, sym, ap, subst, List, [], ◌∷◌, Text, Bool, false, ok, >>=-steps, ok-injective, All,
}
use psx_mnd_sym.Csym.State.{Map, Parser}
use psx_mnd_sym.Csym.Fixups.Replace.{
  Ref, Remap, a_struct, is_key, replace_used_types, union_fields, structs_types, unions_types,
  typedefs_types, overlays_types,
}
use psx_mnd_sym.Csym.Fixups.Replace.Stores.{HoldsAt}
use psx_mnd_sym.Csym.Fixups.Replace.Avoid.{IsClean}
use psx_mnd_sym.Csym.Fixups.Replace.Parts.{StructAvoids}
use psx_mnd_sym.Csym.Fixups.Replace.Whole.{IsRid, replace_used_types-IsRid}
use psx_mnd_sym.Csym.Fixups.Slices.{prune_tags, prune_slice}
use psx_mnd_sym.Csym.Fixups.Duplicates.{Equality, mark_tags, to_nil, remove_structs_duplicates}
use psx_mnd_sym.Csym.Fixups.Duplicates.Marks.{IsDistinct, all_places, mark_tags-IsClean}
use psx_mnd_sym.Csym.Fixups.Duplicates.Left.{prune_slice-kept, kept-All}
use psx_mnd_sym.Csym.Fixups.Duplicates.Twins.{
  HasNoTwins, IsResolved, mark_tags-IsResolved, kept-HasNoTwins,
}

-- ReplaceUsedTypes leaves the slices of the tags alone.
replace_used_types-tags :
    (fuel : ℕ) (r : Remap) (p q : Parser)
    → replace_used_types fuel r p ≡ ok q
    → p.info.structs.tags ≡ q.info.structs.tags
unfolding replace_used_types
replace_used_types-tags fuel r p q e =
    let visit = union_fields r fuel in
    let ((ss, us1), _, rest1) =
      >>=-steps
        (structs_types r visit p.info.structs.order p.info.structs.store p.info.unions.store) _ e in
    let (us2, _, rest2) = >>=-steps (unions_types r visit p.info.unions.order us1) _ rest1 in
    let (us3, _, rest3) = >>=-steps (typedefs_types r visit p.info.typedefs us2) _ rest2 in
    let ((os, us4), _, returned) =
      >>=-steps (overlays_types r visit (0 ∷ p.overlays) p.overlay_store us3) _ rest3 in
    ap (λ (s : Parser). s.info.structs.tags) (ok-injective returned)

module _ (r : Remap) where
  prune_tags-HasNoTwins :
      (equal : Ref → Ref → Bool) (m : Map (List ℕ))
      → All (λ (e : Text × List ℕ). IsResolved a_struct equal r e.1) m
      → All
          (λ (e : Text × List ℕ). HasNoTwins a_struct equal e.1)
          (prune_tags a_struct (to_nil r) m)
  unfolding prune_tags
  prune_tags-HasNoTwins equal [] h = tt
  prune_tags-HasNoTwins equal ((tag, places) ∷ m) (h, hs) = (
    subst (HasNoTwins a_struct equal) (sym (prune_slice-kept a_struct r places))
        (kept-HasNoTwins a_struct equal r places h),
    prune_tags-HasNoTwins equal m hs,
  )

  prune_slice-All :
      (P : ℕ → Type 0) (places : List ℕ)
      → All P places
      → All (λ i. P i × (is_key (a_struct i) r ≡ false)) (prune_slice a_struct (to_nil r) places)
  prune_slice-All P places h =
      subst (All (λ i. P i × (is_key (a_struct i) r ≡ false)))
        (sym (prune_slice-kept a_struct r places)) (kept-All a_struct r P places h)

All-both : (P Q : ℕ → Type 0) (xs : List ℕ) → All (λ i. P i × Q i) xs → All P xs × All Q xs
All-both P Q [] h = (tt, tt)
All-both P Q (x ∷ xs) ((a, b), h) = let (left, right) = All-both P Q xs h in ((a, left), (b, right))

abbrev pub marked : Equality → Parser → Remap
marked equal p = mark_tags (equal p) a_struct p.info.structs.tags []

-- What removeStructsDuplicates has made of a parser: no use of a marked struct is left, nor a marked struct
-- in the list, and no slice of structs with one tag has two that were deeply equal.
pub record IsPruned (equal : Equality) (p q : Parser) : Type 0 where
  pub rid : IsRid (marked equal p) q
  pub order : All (λ i. is_key (a_struct i) (marked equal p) ≡ false) q.info.structs.order
  pub twins : All (λ (e : Text × List ℕ). HasNoTwins a_struct (equal p) e.1) q.info.structs.tags

-- Where no struct is in the slices of the tags twice and removeStructsDuplicates returns, no variable, field,
-- method, function, parameter or local that the parser's lists lead to uses a struct that was marked as a
-- duplicate, no such struct is in the list of structs, and of any two structs left in the slice of one tag
-- the second was not deeply equal to the first.
pub remove_structs_duplicates-IsPruned :
    (equal : Equality) (fuel : ℕ) (p q : Parser)
    → IsDistinct a_struct (all_places p.info.structs.tags)
    → remove_structs_duplicates equal fuel p ≡ ok q
    → IsPruned equal p q
unfolding remove_structs_duplicates
remove_structs_duplicates-IsPruned equal fuel p q distinct e =
    let r = marked equal p in
    let (s, replaced, returned) = >>=-steps (replace_used_types fuel r p) _ e in
    let clean : IsClean r = λ t u found.
      (mark_tags-IsClean a_struct (equal p) p.info.structs.tags distinct t u found).1 in
    let rid = replace_used_types-IsRid r clean fuel p s replaced in
    let (avoid, unmarked) =
      All-both (HoldsAt (StructAvoids r) s.info.structs.store) (λ i. is_key (a_struct i) r ≡ false)
        _
        (prune_slice-All r (HoldsAt (StructAvoids r) s.info.structs.store) s.info.structs.order
          rid.structs) in
    let twins = prune_tags-HasNoTwins r (equal p) s.info.structs.tags (
      subst (All (λ (e : Text × List ℕ). IsResolved a_struct (equal p) r e.1))
        (replace_used_types-tags fuel r p s replaced)
        (mark_tags-IsResolved a_struct (equal p) p.info.structs.tags [])) in
    subst (IsPruned equal p) (ok-injective returned) (record {
      rid = record { structs = avoid; unions = rid.unions; overlays = rid.overlays };
      order = unmarked;
      twins = twins;
    })
