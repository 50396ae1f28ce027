-- ===== src/SymDump/Prune/Linked.antt =====
-- The overlays of the merged parser (cmd/sym_dump/main.go), and those that were made.
use psx_mnd_sym.Prelude.{
  ℕ, zero, suc, ◌+◌, ◌≡◌, refl, sym, ap, ◌∙◌, List, [], ◌∷◌, ◌++◌, map, Text, Bool, Option, none,
  some, Option-cases, inl, inr, get_elem?, length, arith,
}
use psx_mnd_sym.C.Ast.{CType}
use psx_mnd_sym.C.Leaf.{TypeStore}
use psx_mnd_sym.C.Sorting.{Sorting}
use psx_mnd_sym.Csym.State.{TypeInfo, Overlay, new_overlay}
use psx_mnd_sym.SymDump.Sources.{overlays_at, all_overlays}
use psx_mnd_sym.SymDump.Declarations.{Merged}
use psx_mnd_sym.SymDump.Declarations.Places.{sum_below, sum_at, default_places, IsLinked}
use psx_mnd_sym.SymDump.Declarations.Once.{tally, tally-append}
use psx_mnd_sym.SymDump.Prune.{count_from, sort_decls, default_overlay, merged_parser}

-- `f` of the overlay at a place.
abbrev value_at : (Overlay → ℕ) → List Overlay → ℕ → ℕ
value_at f store i = elim (get_elem? store i) [ none ↦ 0 | some o ↦ f o ]

sum_below-shift : (n : ℕ) (h : ℕ → ℕ) → sum_below (suc n) h ≡ h 0 + sum_below n (λ i. h (suc i))
sum_below-shift zero h = omega arith
sum_below-shift (suc n) h = omega (arith, sum_below-shift n h)

sum_below-tally :
    (f : Overlay → ℕ) (store : List Overlay)
    → sum_below (length store) (value_at f store) ≡ tally f store
sum_below-tally f [] = refl
sum_below-tally f (o ∷ store) =
    sum_below-shift (length store) (value_at f (o ∷ store))
    ∙ ap (λ n. f o + n) (sum_below-tally f store)

-- An overlay, if there is one, in front of others.
abbrev cons_found : Option Overlay → List Overlay → List Overlay
cons_found o rest = elim o [ none ↦ rest | some x ↦ x ∷ rest ]

tally-cons_found :
    (f : Overlay → ℕ) (o : Option Overlay) (rest : List Overlay)
    → tally f (cons_found o rest) ≡ elim o [ none ↦ 0 | some x ↦ f x ] + tally f rest
tally-cons_found f none rest = omega arith
tally-cons_found f (some x) rest = refl

append-cons_found :
    (o : Option Overlay) (xs ys : List Overlay) → (cons_found o xs ++ ys) ≡ cons_found o (xs ++ ys)
append-cons_found none xs ys = refl
append-cons_found (some x) xs ys = refl

tally-overlays_at :
    (f : Overlay → ℕ) (store : List Overlay) (places : List ℕ)
    → tally f (overlays_at store places) ≡ sum_at places (value_at f store)
unfolding overlays_at
tally-overlays_at f store [] = refl
tally-overlays_at f store (i ∷ places) =
    tally-cons_found f (get_elem? store i) (overlays_at store places)
    ∙ ap (λ n. value_at f store i + n) (tally-overlays_at f store places)

tally-map :
    (f : Overlay → ℕ) (g : Overlay → Overlay) (os : List Overlay)
    → ((o : Overlay) → f (g o) ≡ f o)
    → tally f (map g os) ≡ tally f os
tally-map f g [] same = refl
tally-map f g (o ∷ os) same = omega (arith, same o, tally-map f g os same)

overlays_at-append :
    (store : List Overlay) (is js : List ℕ)
    → overlays_at store (is ++ js) ≡ overlays_at store is ++ overlays_at store js
unfolding overlays_at
overlays_at-append store [] js = refl
overlays_at-append store (i ∷ is) js =
    ap (cons_found (get_elem? store i)) (overlays_at-append store is js)
    ∙ sym (append-cons_found (get_elem? store i) (overlays_at store is) (overlays_at store js))

overlays_at-shift :
    (o : Overlay) (store : List Overlay) (n : ℕ) (os : List Overlay)
    → overlays_at (o ∷ store) (count_from (suc n) os) ≡ overlays_at store (count_from n os)
unfolding overlays_at
overlays_at-shift o store n [] = refl
overlays_at-shift o store n (x ∷ os) =
    ap (cons_found (get_elem? store n)) (overlays_at-shift o store (suc n) os)

overlays_at-all : (os : List Overlay) → overlays_at os (count_from 0 os) ≡ os
unfolding overlays_at
overlays_at-all [] = refl
overlays_at-all (o ∷ os) = ap (λ rest. o ∷ rest) (overlays_at-shift o os 0 os ∙ overlays_at-all os)

overlays_at-merged :
    (o : Overlay) (os : List Overlay)
    → overlays_at (o ∷ os) (count_from 1 os ++ 0 ∷ []) ≡ os ++ o ∷ []
unfolding overlays_at
overlays_at-merged o os =
    overlays_at-append (o ∷ os) (count_from 1 os) (0 ∷ [])
    ∙ ap (λ front. front ++ o ∷ []) (overlays_at-shift o os 0 os ∙ overlays_at-all os)

module _ (sorting : Sorting) (align : Text → Text) (less : Text → Text → Bool)
    (leaf : TypeStore → CType → Text) where
  default_overlay-value :
      (f : Overlay → ℕ) (s : Merged)
      → f (new_overlay 0 0 0) ≡ 0
      → f (default_overlay sorting align less leaf s)
        ≡ sum_at (default_places s.default) (value_at f s.store)
  unfolding default_overlay
  default_overlay-value f s empty = elim (Option-cases s.default) [
    | inl e ↦ rw (default_overlay, default_places, e) empty
    | inr (d, e) ↦ elim (Option-cases (get_elem? s.store d)) [
      | inl missing ↦
          let absent : value_at f s.store d ≡ 0 = rw (value_at, missing) refl in
          rw (default_overlay, default_places, e, missing) (omega (arith, empty, absent))
      | inr (o, found) ↦
          let there : value_at f s.store d ≡ f o = rw (value_at, found) refl in
          rw (default_overlay, default_places, e, found) (omega (arith, there))
    ]
  ]

  -- What is counted in the overlays made is counted in those of the merged parser, if sorting does not change it.
  pub tally-merged :
      (f : Overlay → ℕ) (info : TypeInfo) (s : Merged)
      → f (new_overlay 0 0 0) ≡ 0
      → ((o : Overlay) → f (sort_decls sorting align less leaf o) ≡ f o)
      → IsLinked s
      → tally f (all_overlays (merged_parser sorting align less leaf info s)) ≡ tally f s.store
  unfolding merged_parser
  tally-merged f info s empty same l =
      let d = default_overlay sorting align less leaf s in
      let sort = sort_decls sorting align less leaf in
      let os = overlays_at s.store s.overlays in
      let h = value_at f s.store in
      ap (tally f) (overlays_at-merged (sort d) (map sort os))
      ∙ omega (
        arith,
        tally-append f (map sort os) (sort d ∷ []),
        tally-map f sort os same,
        same d,
        default_overlay-value f s empty,
        tally-overlays_at f s.store s.overlays,
        l.each h,
        sum_below-tally f s.store,
      )
