-- ===== src/SymDump/Declarations/Seen.antt =====
-- The presence maps of pruneDuplicates: what is kept of the declarations of one overlay.
use psx_mnd_sym.Prelude.{
  ℕ, ◌+◌, ◌≡◌, refl, sym, subst, ◌∙◌, inl, inr, List, [], ◌∷◌, ◌++◌, Text, text_eq, text_eq→eq,
  Bool, true, false, if◌then◌else◌, ltb, Bool-cases, arith,
}
use psx_mnd_sym.C.Sorting.{count, count-append}
use psx_mnd_sym.Csym.Names.{is_member}
use psx_mnd_sym.SymDump.Declarations.{add_unseen}

-- Whether a number is not zero, as a number.
abbrev pub once : ℕ → ℕ
once n = if ltb 0 n then 1 else 0

is_member-count :
    (t : Text) (present : List Text) → is_member t present ≡ ltb 0 (count (text_eq t) present)
unfolding is_member
is_member-count t [] = refl
is_member-count t (s ∷ present) = elim (Bool-cases (text_eq t s)) [
  | inl e ↦ rw e (ground arith)
  | inr e ↦ rw (e, is_member-count t present) (ground arith)
]

module _ {A : Type 0} (def : A → Text) (t : Text) where
  -- How many have the definition `t`.
  abbrev pub defining : List A → ℕ
  defining xs = count (λ x. text_eq t (def x)) xs

  pub add_unseen-present :
      (xs kept : List A) (present : List Text)
      → count (text_eq t) (add_unseen def xs kept present).1
        ≡ count (text_eq t) present + defining xs
  unfolding add_unseen
  add_unseen-present [] kept present = omega arith
  add_unseen-present (x ∷ xs) kept present =
      let s = def x in
      let kept' = if is_member s present then kept else kept ++ x ∷ [] in
      omega (arith, add_unseen-present xs kept' (s ∷ present))

  member_count :
      (x : A) (present : List Text) (seen : Bool)
      → text_eq t (def x) ≡ true
      → is_member (def x) present ≡ seen
      → ltb 0 (count (text_eq t) present) ≡ seen
  member_count x present seen e found =
      subst (λ s. ltb 0 (count (text_eq s) present) ≡ seen) (sym (text_eq→eq t (def x) e))
        (sym (is_member-count (def x) present) ∙ found)

  -- One element, kept unless its definition is among those seen.
  kept_once :
      (x : A) (kept : List A) (present : List Text) (seen : Bool)
      → is_member (def x) present ≡ seen
      → defining (if seen then kept else kept ++ x ∷ []) + once (count (text_eq t) present)
        ≡ defining kept + once (count (text_eq t) (def x ∷ present))
  kept_once x kept present true found = elim (Bool-cases (text_eq t (def x))) [
    | inl e ↦ rw (e, member_count x present true e found) (ground arith)
    | inr e ↦ rw e (ground arith)
  ]
  kept_once x kept present false found =
      let grown : defining (kept ++ x ∷ []) ≡ defining kept + defining (x ∷ []) =
        count-append (λ y. text_eq t (def y)) kept (x ∷ []) in
      elim (Bool-cases (text_eq t (def x))) [
        | inl e ↦
            let one : defining (x ∷ []) ≡ 1 = rw e refl in
            rw (e, member_count x present false e found) (ground (arith, grown, one))
        | inr e ↦ let zero : defining (x ∷ []) ≡ 0 = rw e refl in rw e (ground (arith, grown, zero))
      ]

  -- Of the elements with the definition `t`, one is kept, if any is seen.
  pub add_unseen-defining :
      (xs kept : List A) (present : List Text)
      → defining (add_unseen def xs kept present).0 + once (count (text_eq t) present)
        ≡ defining kept + once (count (text_eq t) (add_unseen def xs kept present).1)
  unfolding add_unseen
  add_unseen-defining [] kept present = refl
  add_unseen-defining (x ∷ xs) kept present =
      let seen = is_member (def x) present in
      let kept' = if seen then kept else kept ++ x ∷ [] in
      omega
        (arith, kept_once x kept present seen refl, add_unseen-defining xs kept' (def x ∷ present))
