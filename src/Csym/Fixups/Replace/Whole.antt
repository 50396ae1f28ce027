-- ===== src/Csym/Fixups/Replace/Whole.antt =====
-- What ReplaceUsedTypes leaves behind in all that a parser has parsed.
use psx_mnd_sym.Prelude.{
  ℕ, ◌≡◌, subst, List, [], ◌∷◌, ok, >>=-steps, some-steps, ok-injective, All, get_elem?, set,
}
use psx_mnd_sym.C.Ast.{StructType, UnionType}
use psx_mnd_sym.Csym.State.{Overlay, Parser}
use psx_mnd_sym.Csym.Fixups.Replace.{
  Remap, Visit, fields_types, overlay_types, structs_types, unions_types, typedefs_types,
  overlays_types, union_fields, replace_used_types,
}
use psx_mnd_sym.Csym.Fixups.Replace.Stores.{HoldsAt, HoldsAt-set, HoldsAt-set_self}
use psx_mnd_sym.Csym.Fixups.Replace.Avoid.{Improves, Improves_refl, Improves_trans, IsClean}
use psx_mnd_sym.Csym.Fixups.Replace.Within.{VisitImproves, Leaves, leaves}
use psx_mnd_sym.Csym.Fixups.Replace.Unions.{union_fields-Improves}
use psx_mnd_sym.Csym.Fixups.Replace.Parts.{
  StructAvoids, OverlayAvoids, UnionAvoids, fields_types-Avoid, overlay_types-Avoids,
}

module _ (r : Remap) where
  -- No variable, field, method, function, parameter or local that the parser's lists lead to has a type
  -- in which a struct, union or enum is a key.
  pub record IsRid (p : Parser) : Type 0 where
    pub structs : All (HoldsAt (StructAvoids r) p.info.structs.store) p.info.structs.order
    pub unions : All (UnionAvoids r p.info.unions.store) p.info.unions.order
    pub overlays : All (HoldsAt (OverlayAvoids r) p.overlay_store) (0 ∷ p.overlays)

  -- What is so of all objects in the store `after` that was so of them in the store `before`, and of those
  -- at some places.
  abbrev Done : {T : Type 0} → (T → Type 0) → List ℕ → List T → List T → Type 0
  Done P places before after =
      ((i : ℕ) → HoldsAt P before i → HoldsAt P after i) × All (HoldsAt P after) places

  -- One more place is done.
  one_more :
      {T : Type 0}
      → (P : T → Type 0) (i : ℕ) (places : List ℕ) (before after : List T) (t : T) → P t
      → Done P places (set before i t) after
      → Done P (i ∷ places) before after
  one_more P i places before after t h (kept, done) = (
    λ j hj. kept j (HoldsAt-set P before i j t h hj),
    (kept i (HoldsAt-set_self P before i t h), done),
  )

  module _ (clean : IsClean r) (visit : Visit) (improves : VisitImproves r visit) where
    structs_types-Avoid :
        (places : List ℕ) (ss : List StructType) (us : List UnionType)
        (result : List StructType × List UnionType)
        → structs_types r visit places ss us ≡ ok result
        → Leaves r visit (Done (StructAvoids r) places ss) us result
    unfolding structs_types
    structs_types-Avoid [] ss us result e =
        leaves r visit (Done (StructAvoids r) [] ss) us (ss, us) result
          ((λ j h. h, tt), Improves_refl r us) e
    structs_types-Avoid (i ∷ places) ss us result e =
        let (t, there, loop) = some-steps (get_elem? ss i) _ _ e in
        let ((fs, us1), first, rest) = >>=-steps (fields_types r visit t.fields us) _ loop in
        let ((ms, us2), second, rest') = >>=-steps (fields_types r visit t.methods us1) _ rest in
        let (fields, good) =
          fields_types-Avoid r clean visit improves t.fields us (fs, us1) first in
        let (methods, better) =
          fields_types-Avoid r clean visit improves t.methods us1 (ms, us2) second in
        let t1 : StructType = record t { fields = fs; methods = ms } in
        let (done, best) = structs_types-Avoid places (set ss i t1) us2 result rest' in
        (
          one_more (StructAvoids r) i places ss result.0 t1 (fields, methods) done,
          Improves_trans r good (Improves_trans r better best),
        )

    overlays_types-Avoid :
        (places : List ℕ) (os : List Overlay) (us : List UnionType)
        (result : List Overlay × List UnionType)
        → overlays_types r visit places os us ≡ ok result
        → Leaves r visit (Done (OverlayAvoids r) places os) us result
    unfolding overlays_types
    overlays_types-Avoid [] os us result e =
        leaves r visit (Done (OverlayAvoids r) [] os) us (os, us) result
          ((λ j h. h, tt), Improves_refl r us) e
    overlays_types-Avoid (i ∷ places) os us result e =
        let (o, there, loop) = some-steps (get_elem? os i) _ _ e in
        let ((o1, us1), first, rest) = >>=-steps (overlay_types r visit o us) _ loop in
        let (avoids, better) = overlay_types-Avoids r clean visit improves o us (o1, us1) first in
        let (done, best) = overlays_types-Avoid places (set os i o1) us1 result rest in
        (
          one_more (OverlayAvoids r) i places os result.0 o1 avoids done,
          Improves_trans r better best,
        )

    typedefs_types-Improves :
        (places : List ℕ) (us us' : List UnionType)
        → typedefs_types r visit places us ≡ ok us'
        → Improves r us us'
    unfolding typedefs_types
    typedefs_types-Improves [] us us' e =
        subst (Improves r us) (ok-injective e) (Improves_refl r us)
    typedefs_types-Improves (i ∷ places) us us' e = typedefs_types-Improves places us us' e

  UnionAvoids-kept :
      (us us' : List UnionType) (places : List ℕ)
      → Improves r us us'
      → All (UnionAvoids r us) places
      → All (UnionAvoids r us') places
  UnionAvoids-kept us us' [] better h = tt
  UnionAvoids-kept us us' (i ∷ places) better (h, hs) =
      (λ k. better.kept i k (h k), UnionAvoids-kept us us' places better hs)

  unions_types-Avoid :
      IsClean r
      → (fuel : ℕ) (places : List ℕ) (us us' : List UnionType)
      → unions_types r (union_fields r fuel) places us ≡ ok us'
      → Improves r us us' × All (UnionAvoids r us') places
  unfolding unions_types
  unions_types-Avoid clean fuel [] us us' e =
      (subst (Improves r us) (ok-injective e) (Improves_refl r us), tt)
  unions_types-Avoid clean fuel (i ∷ places) us us' e =
      let (vs, visited, rest) = >>=-steps (union_fields r fuel i us) _ e in
      let (better, avoids) = union_fields-Improves r clean fuel i us vs visited in
      let (best, all) = unions_types-Avoid clean fuel places vs us' rest in
      (Improves_trans r better best, (λ k. best.kept i k (avoids k), all))

  -- Where no replacement is itself replaced and ReplaceUsedTypes returns, no variable, field, method,
  -- function, parameter or local that the parser's lists of structs, unions and overlays lead to has a type
  -- in which a replaced struct, union or enum is left.
  pub replace_used_types-IsRid :
      IsClean r → (fuel : ℕ) (p q : Parser) → replace_used_types fuel r p ≡ ok q → IsRid q
  unfolding replace_used_types
  replace_used_types-IsRid clean fuel p q e =
      let visit = union_fields r fuel in
      let improves : VisitImproves r visit =
        λ j us us' visited. (union_fields-Improves r clean fuel j us us' visited).0 in
      let ((ss, us1), first, rest1) =
        >>=-steps
          (structs_types r visit p.info.structs.order p.info.structs.store p.info.unions.store) _
          e in
      let (us2, second, rest2) = >>=-steps (unions_types r visit p.info.unions.order us1) _ rest1 in
      let (us3, third, rest3) = >>=-steps (typedefs_types r visit p.info.typedefs us2) _ rest2 in
      let ((os, us4), fourth, returned) =
        >>=-steps (overlays_types r visit (0 ∷ p.overlays) p.overlay_store us3) _ rest3 in
      let (structs, _) =
        structs_types-Avoid clean visit improves p.info.structs.order p.info.structs.store
          p.info.unions.store (ss, us1) first in
      let (_, unions) = unions_types-Avoid clean fuel p.info.unions.order us1 us2 second in
      let better = typedefs_types-Improves clean visit improves p.info.typedefs us2 us3 third in
      let (overlays, best) =
        overlays_types-Avoid clean visit improves (0 ∷ p.overlays) p.overlay_store us3 (os, us4)
          fourth in
      subst IsRid (ok-injective returned) (record {
        structs = structs.1;
        unions = UnionAvoids-kept us2 us4 p.info.unions.order (Improves_trans r better best) unions;
        overlays = overlays.1;
      })
