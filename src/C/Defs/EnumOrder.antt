-- ===== src/C/Defs/EnumOrder.antt =====
-- The order of the members that EnumType.Def prints.
use psx_mnd_sym.Prelude.{◌≡◌, refl, sym, ap, ◌∙◌, [], ◌∷◌, Text, true, false, arith}
use psx_mnd_sym.C.Ast.{EnumMember, EnumType}
use psx_mnd_sym.C.Sorting.{Sorting, IsWeakOrder, IsSorted-unique}
use psx_mnd_sym.C.Defs.{text_lt, member_less, sorted_def, enum_def}

text_lt_asymmetric : (s t : Text) → text_lt s t ≡ true → text_lt t s ≡ false
unfolding text_lt
text_lt_asymmetric s [] h = cc
text_lt_asymmetric [] (b ∷ t) h = refl
text_lt_asymmetric (a ∷ s) (b ∷ t) h = ground (arith, text_lt_asymmetric s t)

text_lt_negative : (s t u : Text) → text_lt s t ≡ false → text_lt t u ≡ false → text_lt s u ≡ false
unfolding text_lt
text_lt_negative s t [] h k = refl
text_lt_negative [] [] (c ∷ u) h k = k
text_lt_negative [] (b ∷ t) (c ∷ u) h k = cc
text_lt_negative (a ∷ s) [] (c ∷ u) h k = cc
text_lt_negative (a ∷ s) (b ∷ t) (c ∷ u) h k = ground (arith, text_lt_negative s t u)

text_lt_linear : (s t : Text) → text_lt s t ≡ false → text_lt t s ≡ false → s ≡ t
unfolding text_lt
text_lt_linear [] [] h k = refl
text_lt_linear [] (b ∷ t) h k = cc
text_lt_linear (a ∷ s) [] h k = cc
text_lt_linear (a ∷ s) (b ∷ t) h k = ground (arith, text_lt_linear s t)

pub member_less-IsWeakOrder : IsWeakOrder member_less
unfolding member_less
member_less-IsWeakOrder = record {
  asymmetric = λ a b h. ground (arith, text_lt_asymmetric a.name b.name);
  negatively_transitive = λ a b c h k. ground (arith, text_lt_negative a.name b.name c.name);
}

member_less_linear : (a b : EnumMember) → member_less a b ≡ false → member_less b a ≡ false → a ≡ b
unfolding member_less
member_less_linear a b h k = ground (arith, text_lt_linear a.name b.name)

-- EnumType.Def prints the same text and leaves the same members for every way to sort, stable or not:
-- its order leaves only equal members unordered.
pub enum_def_unique :
    (s1 s2 : Sorting) (align : Text → Text) (t : EnumType)
    → enum_def s1 align t ≡ enum_def s2 align t
unfolding enum_def
enum_def_unique s1 s2 align t =
    let sorted1 = s1.sort_slice-IsSorted member_less t.members member_less-IsWeakOrder in
    let sorted2 = s2.sort_slice-IsSorted member_less t.members member_less-IsWeakOrder in
    ap (sorted_def align t) (
      IsSorted-unique member_less member_less-IsWeakOrder member_less_linear
        (s1.sort_slice member_less t.members) (s2.sort_slice member_less t.members) sorted1 sorted2
        (λ p.
          s1.count-sort_slice member_less p t.members
          ∙ sym (s2.count-sort_slice member_less p t.members)))
