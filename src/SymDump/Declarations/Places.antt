-- ===== src/SymDump/Declarations/Places.antt =====
-- The overlays that dst.Overlay and dst.Overlays lead to in pruneDuplicates (cmd/sym_dump/main.go).
use psx_mnd_sym.Prelude.{
  ℕ, zero, suc, ◌+◌, ◌≡◌, ◌<◌, ◌⊎◌, inl, inr, refl, List, [], ◌∷◌, ◌++◌, ◌∙◌, sym, ap, subst, false,
  ◌==◌, Option, none, some, All, length, length-append, arith, ok, Bool-cases, Option-cases, ==_iff,
}
use psx_mnd_sym.Csym.State.{new_overlay}
use psx_mnd_sym.Csym.Decls.{overlay_of}
use psx_mnd_sym.Csym.Decls.Overlays.{wider-ids, overlay_of-below}
use psx_mnd_sym.SymDump.Declarations.{Merged, overlay_for}

-- The sum of `h` over the numbers below `n`, and over a list of places.
abbrev pub sum_below : ℕ → (ℕ → ℕ) → ℕ
sum_below zero h = 0
sum_below (suc n) h = sum_below n h + h n

abbrev pub sum_at : List ℕ → (ℕ → ℕ) → ℕ
sum_at [] h = 0
sum_at (i ∷ places) h = h i + sum_at places h

pub sum_at-append : (is js : List ℕ) (h : ℕ → ℕ) → sum_at (is ++ js) h ≡ sum_at is h + sum_at js h
sum_at-append [] js h = omega arith
sum_at-append (i ∷ is) js h = omega (arith, sum_at-append is js h)

abbrev pub default_places : Option ℕ → List ℕ
default_places none = []
default_places (some d) = d ∷ []

-- The overlay of ID 0 is `dst.Overlay`, once there is one, and each overlay is in one place.
pub record IsLinked (s : Merged) : Type 0 where
  pub each :
      (h : ℕ → ℕ)
      → sum_at s.overlays h + sum_at (default_places s.default) h ≡ sum_below (length s.store) h
  pub below : All (λ (e : ℕ × ℕ). e.1 < length s.store) s.ids
  pub named : (s.default ≡ none) ⊎ ((i : ℕ) × (overlay_of 0 s.ids ≡ some i))

-- An overlay made anew, or found.
abbrev pub IsFound : ℕ → Merged → ℕ → Merged → Type 0
IsFound id s i t =
    (i < length t.store)
    × IsLinked t
    × (t.var_present ≡ s.var_present)
    × (t.func_present ≡ s.func_present)
    × ((t.store ≡ s.store) ⊎ (t.store ≡ (s.store ++ new_overlay 0 id 0 ∷ [])))

-- `s` with an overlay made anew.
abbrev with_overlay : ℕ → Merged → Merged
with_overlay id s = record s {
  store = s.store ++ new_overlay 0 id 0 ∷ [];
  ids = (id, length s.store) ∷ s.ids;
}

abbrev as_default : ℕ → Merged → Merged
as_default id s = record (with_overlay id s) { default = some (length s.store) }

abbrev as_listed : ℕ → Merged → Merged
as_listed id s = record (with_overlay id s) { overlays = s.overlays ++ length s.store ∷ [] }

one_more :
    (id : ℕ) (s : Merged) → length (s.store ++ new_overlay 0 id 0 ∷ []) ≡ suc (length s.store)
one_more id s = omega (arith, length-append s.store (new_overlay 0 id 0 ∷ []))

-- The sums and the bounds of `t`, over a store that has one overlay more.
longer :
    (id : ℕ) (s t : Merged)
    → IsLinked s
    → (t.store ≡ (s.store ++ new_overlay 0 id 0 ∷ []))
    → (t.ids ≡ ((id, length s.store) ∷ s.ids))
    → ((h : ℕ → ℕ)
        → sum_at t.overlays h + sum_at (default_places t.default) h
          ≡ sum_below (suc (length s.store)) h)
    → (t.default ≡ none) ⊎ ((i : ℕ) × (overlay_of 0 t.ids ≡ some i))
    → IsLinked t
longer id s t l store ids each named = record {
  each = λ h. each h ∙ ap (λ n. sum_below n h) (sym (ap length store ∙ one_more id s));
  below =
      subst (λ ids. All (λ (e : ℕ × ℕ). e.1 < length t.store) ids) (sym ids)
        (subst (λ n. All (λ (e : ℕ × ℕ). e.1 < n) ((id, length s.store) ∷ s.ids))
          (sym (ap length store ∙ one_more id s))
          (
            omega arith,
            wider-ids (length s.store) (suc (length s.store)) s.ids (omega arith) l.below,
          ));
  named = named;
}

listed-IsLinked : (id : ℕ) (s : Merged) → IsLinked s → (id == 0) ≡ false → IsLinked (as_listed id s)
unfolding overlay_of
listed-IsLinked id s l other =
    longer id s (as_listed id s) l refl refl
      (λ h. omega (arith, l.each h, sum_at-append s.overlays (length s.store ∷ []) h))
      (rw other l.named)

default-IsLinked : (s : Merged) → IsLinked s → s.default ≡ none → IsLinked (as_default 0 s)
unfolding overlay_of
default-IsLinked s l e =
    let before = λ (h : ℕ → ℕ).
      subst (λ d. sum_at s.overlays h + sum_at (default_places d) h ≡ sum_below (length s.store) h)
        e (l.each h) in
    longer 0 s (as_default 0 s) l refl refl (λ h. omega (arith, before h))
      (inr (length s.store, refl))

overlay_for-found :
    (own id : ℕ) (s : Merged) (i : ℕ)
    → overlay_of id s.ids ≡ some i
    → overlay_for own id s ≡ ok (i, s)
unfolding overlay_for
overlay_for-found own id s i e = rw (overlay_for, e) refl

overlay_for-listed :
    (id : ℕ) (s : Merged)
    → overlay_of id s.ids ≡ none
    → (id == 0) ≡ false
    → overlay_for 0 id s ≡ ok (length s.store, as_listed id s)
unfolding overlay_for
overlay_for-listed id s e other = rw (overlay_for, e, other) refl

overlay_for-default :
    (s : Merged)
    → overlay_of 0 s.ids ≡ none
    → s.default ≡ none
    → overlay_for 0 0 s ≡ ok (length s.store, as_default 0 s)
unfolding overlay_for
overlay_for-default s e d = rw (overlay_for, e, d) refl

no_default :
    (s : Merged)
    → overlay_of 0 s.ids ≡ none
    → (s.default ≡ none) ⊎ ((i : ℕ) × (overlay_of 0 s.ids ≡ some i))
    → s.default ≡ none
no_default s missing (inl e) = e
no_default s missing (inr (i, found)) = cc

abbrev pub Finds : ℕ → Merged → Type 0
Finds id s = (i : ℕ) × (t : Merged) × (overlay_for 0 id s ≡ ok (i, t)) × IsFound id s i t

fresh : (id : ℕ) (s : Merged) → length s.store < length (s.store ++ new_overlay 0 id 0 ∷ [])
fresh id s = omega (arith, one_more id s)

Finds-default : (s : Merged) → IsLinked s → overlay_of 0 s.ids ≡ none → Finds 0 s
Finds-default s l missing =
    let e = no_default s missing l.named in
    (
      length s.store,
      as_default 0 s,
      overlay_for-default s missing e,
      (fresh 0 s, default-IsLinked s l e, refl, refl, inr refl),
    )

-- For a parser whose own overlay has ID 0, overlay_for finds or makes an overlay.
pub overlay_for-Finds : (id : ℕ) (s : Merged) → IsLinked s → Finds id s
overlay_for-Finds id s l = elim (Option-cases (overlay_of id s.ids)) [
  | inr (i, found) ↦ (
    i,
    s,
    overlay_for-found 0 id s i found,
    (overlay_of-below id (length s.store) i s.ids l.below found, l, refl, refl, inl refl),
  )
  | inl missing ↦ elim (Bool-cases (id == 0)) [
    | inl same ↦
        let zero : id ≡ 0 = (==_iff id 0).0 same in
        subst (λ k. Finds k s) (sym zero)
          (Finds-default s l (subst (λ k. overlay_of k s.ids ≡ none) zero missing))
    | inr other ↦ (
      length s.store,
      as_listed id s,
      overlay_for-listed id s missing other,
      (fresh id s, listed-IsLinked id s l other, refl, refl, inr refl),
    )
  ]
]
