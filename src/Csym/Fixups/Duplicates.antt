-- ===== src/Csym/Fixups/Duplicates.antt =====
-- RemoveDuplicateTypes: of deeply equal structs (or unions, or enums) with one tag, the first is kept.
pub mod Marks
pub mod Left
pub mod Twins
pub mod Whole
use psx_mnd_sym.Prelude.{
  ℕ, List, [], ◌∷◌, Text, Bool, if◌then◌else◌, Option, none, some, Result, ok, err, ◌>>=◌,
}
use psx_mnd_sym.Csym.State.{Map, Panic, Tagged, TypeInfo, Parser}
use psx_mnd_sym.Csym.Fixups.Replace.{
  Ref, Remap, a_struct, an_union, an_enum, find_key, is_key, replace_used_types,
}
use psx_mnd_sym.Csym.Fixups.Slices.{prune_structs, prune_unions, prune_enums}

-- `equal` is reflect.DeepEqual on two types, in the state that it is called in.
module _ (equal : Ref → Ref → Bool) where
  -- The inner loop: the duplicates of `t` behind it.
  unfoldable pub mark_behind : (ℕ → Ref) → Ref → List ℕ → Remap → Remap
  unfolding find_key
  mark_behind sort t [] r = r
  mark_behind sort t (j ∷ places) r =
      let u = sort j in
      mark_behind sort t places (if is_key u r then r else if equal u t then (u, some t) ∷ r else r)

  -- The outer loop, over one slice.
  unfoldable pub mark_slice : (ℕ → Ref) → List ℕ → Remap → Remap
  unfolding mark_behind
  mark_slice sort [] r = r
  mark_slice sort (i ∷ places) r =
      let t = sort i in
      mark_slice sort places (if is_key t r then r else mark_behind sort t places r)

  -- Over the slices of all tags.
  unfoldable pub mark_tags : (ℕ → Ref) → Map (List ℕ) → Remap → Remap
  unfolding mark_slice
  mark_tags sort [] r = r
  mark_tags sort ((tag, places) ∷ m) r = mark_tags sort m (mark_slice sort places r)

-- All values set to nil.
unfoldable pub to_nil : Remap → Remap
to_nil [] = []
to_nil ((key, value) ∷ r) = (key, none) ∷ to_nil r

abbrev pub Equality : Type 0
Equality = Parser → Ref → Ref → Bool

module _ (equal : Equality) (fuel : ℕ) where
  -- removeStructsDuplicates
  unfoldable pub remove_structs_duplicates : Parser → Result Panic Parser
  unfolding mark_tags to_nil replace_used_types prune_structs
  remove_structs_duplicates p = do
    let r = mark_tags (equal p) a_struct p.info.structs.tags []
    q ← replace_used_types fuel r p
    let info = q.info
    ok (record q { info = record info { structs = prune_structs (to_nil r) info.structs } })

  -- removeUnionsDuplicates
  unfoldable pub remove_unions_duplicates : Parser → Result Panic Parser
  unfolding mark_tags to_nil replace_used_types prune_unions
  remove_unions_duplicates p = do
    let r = mark_tags (equal p) an_union p.info.unions.tags []
    q ← replace_used_types fuel r p
    let info = q.info
    ok (record q { info = record info { unions = prune_unions (to_nil r) info.unions } })

  -- removeEnumsDuplicates
  unfoldable pub remove_enums_duplicates : Parser → Result Panic Parser
  unfolding mark_tags to_nil replace_used_types prune_enums
  remove_enums_duplicates p = do
    let r = mark_tags (equal p) an_enum p.info.enums.tags []
    q ← replace_used_types fuel r p
    let info = q.info
    ok (record q { info = record info { enums = prune_enums (to_nil r) info.enums } })

  -- RemoveDuplicateTypes: the last call is not that for enums.
  unfoldable pub remove_duplicate_types : Parser → Result Panic Parser
  unfolding remove_structs_duplicates remove_unions_duplicates
  remove_duplicate_types p = do
    q ← remove_structs_duplicates p
    s ← remove_unions_duplicates q
    remove_structs_duplicates s
