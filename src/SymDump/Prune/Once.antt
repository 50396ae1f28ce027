-- ===== src/SymDump/Prune/Once.antt =====
-- The variables and functions of what pruneDuplicates (cmd/sym_dump/main.go) returns.
use psx_mnd_sym.Prelude.{
  ℕ, ◌+◌, arith, ◌≡◌, inl, refl, sym, subst, ok-injective, ◌∙◌, List, [], ◌∷◌, Text, codes, Bool,
  All, text_eq, ok, ok-next,
}
use psx_mnd_sym.C.Ast.{CType, FuncDecl, decl_name}
use psx_mnd_sym.C.Leaf.{TypeStore}
use psx_mnd_sym.C.Sorting.{Sorting}
use psx_mnd_sym.Csym.State.{new_overlay, lookup, Parser, Overlay, TypeInfo}
use psx_mnd_sym.SymDump.Output.{type_store}
use psx_mnd_sym.SymDump.Declarations.{Merged, no_overlays, merge_decls, var_text, func_text}
use psx_mnd_sym.SymDump.Declarations.Places.{IsLinked}
use psx_mnd_sym.SymDump.Declarations.Seen.{once}
use psx_mnd_sym.SymDump.Declarations.Once.{
  tally, declared, recounted, HasOwn, vars_in, funcs_in, IsOnce, merge_decls-IsOnce,
}
use psx_mnd_sym.SymDump.Prune.{
  store_of, new_types, merge_types, merged_info, merged_parser, sort_decls, prune_duplicates,
}
use psx_mnd_sym.SymDump.Prune.Linked.{tally-merged}

module _ (sorting : Sorting) (align : Text → Text) (less : Text → Text → Bool)
    (leaf : TypeStore → CType → Text) (skip_addr skip_line : Bool) where
  -- Among the declarations of `q`, each definition of the parsers is there once, and no other. Definitions are
  -- compared as `q` prints them, without what is skipped.
  abbrev pub IsMergeOf : List Parser → Parser → Type 0
  IsMergeOf ps q =
      let printed = leaf (type_store q) in
      (t : Text)
      → (declared (vars_in printed skip_addr t) (q ∷ [])
          ≡ once (declared (vars_in printed skip_addr t) ps))
        × (declared (funcs_in printed skip_addr skip_line t) (q ∷ [])
            ≡ once (declared (funcs_in printed skip_addr skip_line t) ps))

  no_overlays-IsOnce :
      (printed : CType → Text) (t : Text) → IsOnce printed skip_addr skip_line t no_overlays 0 0
  no_overlays-IsOnce printed t = record {
    linked = record { each = λ h. refl; below = tt; named = inl refl };
    vars = refl;
    funcs = refl;
    vars_seen = refl;
    funcs_seen = refl;
  }

  -- The overlays that the loop over the parsers makes keep each definition once.
  merge_decls-each :
      (printed : CType → Text) (ps : List Parser)
      → All HasOwn ps
      → (u : Merged) × (merge_decls printed skip_addr skip_line ps no_overlays ≡ ok u)
        × ((t : Text)
            → IsOnce printed skip_addr skip_line t u
                (declared (vars_in printed skip_addr t) ps)
                (declared (funcs_in printed skip_addr skip_line t) ps))
  merge_decls-each printed ps own =
      let run = λ (t : Text).
        merge_decls-IsOnce printed skip_addr skip_line t ps no_overlays 0 0 own
          (no_overlays-IsOnce printed t) in
      let (u, e, _) = run [] in
      (
        u,
        e,
        λ t.
            let (v, e', h) = run t in
            subst
              (λ w.
                IsOnce printed skip_addr skip_line t w (declared (vars_in printed skip_addr t) ps)
                  (declared (funcs_in printed skip_addr skip_line t) ps))
              (ok-injective (sym e' ∙ e))
              (recounted printed skip_addr skip_line t v
                (0 + declared (vars_in printed skip_addr t) ps)
                (0 + declared (funcs_in printed skip_addr skip_line t) ps)
                (declared (vars_in printed skip_addr t) ps)
                (declared (funcs_in printed skip_addr skip_line t) ps) (omega arith) (omega arith)
                h),
      )

  declared-merged :
      (f : Overlay → ℕ) (info : TypeInfo) (s : Merged)
      → f (new_overlay 0 0 0) ≡ 0
      → ((o : Overlay) → f (sort_decls sorting align less leaf o) ≡ f o)
      → IsLinked s
      → declared f (merged_parser sorting align less leaf info s ∷ []) ≡ tally f s.store
  declared-merged f info s empty same l =
      omega (arith, tally-merged sorting align less leaf f info s empty same l)

  -- The parsers have default overlays with ID 0, as NewParser makes them, and there is at least one. Then
  -- pruneDuplicates returns a parser in which each definition of a variable or a function that is declared in
  -- any of them is declared once, and nothing else is.
  pub prune_duplicates-IsMergeOf :
      (st : TypeStore) (p : Parser) (ps : List Parser)
      → All HasOwn (p ∷ ps)
      → (q : Parser) × (prune_duplicates sorting align less leaf skip_addr skip_line st (p ∷ ps)
          ≡ ok q)
        × IsMergeOf (p ∷ ps) q
  unfolding prune_duplicates merged_parser merged_info sort_decls
  prune_duplicates-IsMergeOf st p ps own =
      let types = merge_types sorting align less leaf st.defs 0 (p ∷ ps) (new_types st) in
      let info =
        merged_info sorting align less leaf st.defs (lookup (codes "bool") p.info.types) types in
      let printed = leaf (store_of st.defs types) in
      let (u, e, h) = merge_decls-each printed (p ∷ ps) own in
      (
        merged_parser sorting align less leaf info u,
        ok-next (merge_decls printed skip_addr skip_line (p ∷ ps) no_overlays) _ e,
        λ t. (
          declared-merged (vars_in printed skip_addr t) info u refl
                (λ o.
                  sorting.count-sort_slice (λ v w. less (decl_name v) (decl_name w))
                    (λ v. text_eq t (var_text printed skip_addr v)) o.vars)
                (h t).linked
              ∙ (h t).vars,
          declared-merged (funcs_in printed skip_addr skip_line t) info u refl
                (λ o.
                  sorting.count-sort_slice (λ (f g : FuncDecl). less f.name g.name)
                    (λ f. text_eq t (func_text printed skip_addr skip_line f)) o.funcs)
                (h t).linked
              ∙ (h t).funcs,
        ),
      )
