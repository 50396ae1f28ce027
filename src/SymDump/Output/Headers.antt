-- ===== src/SymDump/Output/Headers.antt =====
-- The names of the headers that dumpDecls writes.
use psx_mnd_sym.Prelude.{
  parts_equal, cancel_left, ℕ, ◌≡◌, ◌≢◌, refl, sym, ap, ap₂, subst, ◌⊎◌, inl, inr, List, [], ◌∷◌,
  ◌++◌, map, Text, codes, All, length, length-append, arith,
}
use psx_mnd_sym.Fmt.{hex}
use psx_mnd_sym.Fmt.Unique.{hex_injective}
use psx_mnd_sym.C.Ast.{CType}
use psx_mnd_sym.Csym.State.{Overlay, Parser}
use psx_mnd_sym.SymDump.Sources.{overlays_at}
use psx_mnd_sym.SymDump.Output.{
  overlay_name, header_name, dump_overlay, overlay_headers, dump_decls,
}

cancel_right : {A : Type 0} (xs ys zs : List A) → (xs ++ zs) ≡ (ys ++ zs) → xs ≡ ys
cancel_right [] [] zs e = refl
cancel_right [] (y ∷ ys) zs e = absurd (omega (arith, ap length e, length-append ys zs))
cancel_right (x ∷ xs) [] zs e = absurd (omega (arith, ap length e, length-append xs zs))
cancel_right (x ∷ xs) (y ∷ ys) zs e =
    let (head, tail) = parts_equal x y (xs ++ zs) (ys ++ zs) e in
    ap₂ ◌∷◌ head (cancel_right xs ys zs tail)

header_name_injective : (a b : ℕ) → header_name a ≡ header_name b → a ≡ b
unfolding header_name overlay_name
header_name_injective a b e = hex_injective a b (
    cancel_left (hex a) (hex b) (codes "overlay_")
      (cancel_right (overlay_name a) (overlay_name b) (codes ".h") e))

-- All elements differ from each other.
abbrev pub AllDiffer : {A : Type 0} → List A → Type 0
AllDiffer [] = Unit {0}
AllDiffer (x ∷ xs) = All (λ y. x ≢ y) xs × AllDiffer xs

abbrev pub paths : List (Text × Text) → List Text
paths files = map (λ (f : Text × Text). f.0) files

abbrev pub ids : List Overlay → List ℕ
ids os = map (λ (o : Overlay). o.id) os

first_overlay :
    (store : List Overlay)
    → (overlays_at store (0 ∷ []) ≡ []) ⊎ ((o : Overlay) × (overlays_at store (0 ∷ []) ≡ o ∷ []))
unfolding overlays_at
first_overlay [] = inl refl
first_overlay (o ∷ store) = inr (o, refl)

module _ (quote : Text → Text) (leaf : CType → Text) where
  other_names :
      (id : ℕ) (os : List Overlay)
      → All (λ k. id ≢ k) (ids os)
      → All (λ name. header_name id ≢ name) (paths (overlay_headers quote leaf os))
  unfolding overlay_headers
  other_names id [] h = tt
  other_names id (o ∷ os) h = (λ e. h.0 (header_name_injective id o.id e), other_names id os h.1)

  overlay_headers-differ :
      (os : List Overlay) → AllDiffer (ids os) → AllDiffer (paths (overlay_headers quote leaf os))
  unfolding overlay_headers
  overlay_headers-differ [] h = tt
  overlay_headers-differ (o ∷ os) h = (other_names o.id os h.0, overlay_headers-differ os h.1)

  no_decls :
      (os : List Overlay)
      → All (λ name. codes "decls.h" ≢ name) (paths (overlay_headers quote leaf os))
  unfolding overlay_headers header_name overlay_name
  no_decls [] = tt
  no_decls (o ∷ os) = (λ e. cc, no_decls os)

  -- Where the overlays of a parser have different IDs, dumpDecls writes each of its files once.
  pub dump_decls-differ :
      (p : Parser)
      → AllDiffer (ids (overlays_at p.overlay_store p.overlays))
      → AllDiffer (paths (dump_decls quote leaf p))
  unfolding dump_decls
  dump_decls-differ p h =
      let os = overlays_at p.overlay_store p.overlays in
      let rest = overlay_headers-differ os h in
      let after = λ (first : List Overlay). AllDiffer (
        paths (
          map (λ (o : Overlay). (codes "decls.h", dump_overlay quote leaf o)) first
          ++ overlay_headers quote leaf os)) in
      elim (first_overlay p.overlay_store) [
        | inl e ↦ subst after (sym e) rest
        | inr (o, e) ↦ subst after (sym e) (no_decls os, rest)
      ]
