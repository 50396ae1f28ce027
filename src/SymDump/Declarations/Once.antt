-- ===== src/SymDump/Declarations/Once.antt =====
-- How often pruneDuplicates (cmd/sym_dump/main.go) keeps a definition.
use psx_mnd_sym.Prelude.{
  ℕ, zero, suc, ◌+◌, ◌≡◌, ◌<◌, inl, inr, refl, subst, ap, ◌∙◌, List, [], ◌∷◌, ◌++◌, Text, text_eq,
  Bool, some, get_elem?, set, All, length, length-set, arith, ok, ok-next, some-next,
}
use psx_mnd_sym.C.Ast.{CType}
use psx_mnd_sym.C.Sorting.{count}
use psx_mnd_sym.Csym.State.{nil_dereference, Overlay, Parser, new_overlay}
use psx_mnd_sym.Csym.Fixups.Replace.Stores.{get_elem?-some}
use psx_mnd_sym.SymDump.Sources.{all_overlays}
use psx_mnd_sym.SymDump.Declarations.{
  Merged, add_unseen, overlay_for, var_text, func_text, add_to, add_decls, merge_overlays,
  merge_decls,
}
use psx_mnd_sym.SymDump.Declarations.Seen.{once, defining, add_unseen-present, add_unseen-defining}
use psx_mnd_sym.SymDump.Declarations.Places.{IsLinked, IsFound, overlay_for-Finds}

-- The sum of `f` over the overlays.
abbrev pub tally : (Overlay → ℕ) → List Overlay → ℕ
tally f [] = 0
tally f (o ∷ os) = f o + tally f os

-- And over those of all parsers.
abbrev pub declared : (Overlay → ℕ) → List Parser → ℕ
declared f [] = 0
declared f (p ∷ ps) = tally f (all_overlays p) + declared f ps

pub tally-append :
    (f : Overlay → ℕ) (xs ys : List Overlay) → tally f (xs ++ ys) ≡ tally f xs + tally f ys
tally-append f [] ys = omega arith
tally-append f (x ∷ xs) ys = omega (arith, tally-append f xs ys)

tally-set :
    (f : Overlay → ℕ) (os : List Overlay) (i : ℕ) (o new : Overlay)
    → get_elem? os i ≡ some o
    → tally f (set os i new) + f o ≡ tally f os + f new
tally-set f [] i o new e = cc
tally-set f (x ∷ os) zero o new e = let same : x ≡ o = cc in omega (arith, ap f same)
tally-set f (x ∷ os) (suc i) o new e = omega (arith, tally-set f os i o new e)

-- The default overlay is there, and has ID 0, as NewParser makes it.
abbrev pub HasOwn : Parser → Type 0
HasOwn p = (own : Overlay) × (get_elem? p.overlay_store 0 ≡ some own) × (own.id ≡ 0)

-- How many variables and functions of an overlay have the definition `t`.
abbrev pub vars_in : (CType → Text) → Bool → Text → Overlay → ℕ
vars_in leaf skip_addr t o = defining (var_text leaf skip_addr) t o.vars

abbrev pub funcs_in : (CType → Text) → Bool → Bool → Text → Overlay → ℕ
funcs_in leaf skip_addr skip_line t o = defining (func_text leaf skip_addr skip_line) t o.funcs

one_kept :
    (x y c d a b n k : ℕ)
    → x + c ≡ y + d
    → d + once a ≡ c + once b
    → y ≡ once n
    → a ≡ n
    → b ≡ k
    → x ≡ once k
one_kept x y c d a b n k set kept before seen after =
    omega (arith, set, kept, before, ap once seen, ap once after)

-- An overlay that is found or made adds nothing.
found-tally :
    (f : Overlay → ℕ) (id : ℕ) (s t : Merged) (i : ℕ)
    → f (new_overlay 0 id 0) ≡ 0
    → IsFound id s i t
    → tally f t.store ≡ tally f s.store
found-tally f id s t i empty (_, _, _, _, inl same) = ap (tally f) same
found-tally f id s t i empty (_, _, _, _, inr longer) =
    ap (tally f) longer ∙ omega (arith, tally-append f s.store (new_overlay 0 id 0 ∷ []), empty)

module _ (leaf : CType → Text) (skip_addr skip_line : Bool) (t : Text) where
  abbrev vars_of : Overlay → ℕ
  vars_of o = vars_in leaf skip_addr t o

  abbrev funcs_of : Overlay → ℕ
  funcs_of o = funcs_in leaf skip_addr skip_line t o

  -- Where `n` variables and `m` functions with that definition have been seen, one of each is kept.
  pub record IsOnce (s : Merged) (n m : ℕ) : Type 0 where
    pub linked : IsLinked s
    pub vars : tally vars_of s.store ≡ once n
    pub funcs : tally funcs_of s.store ≡ once m
    pub vars_seen : count (text_eq t) s.var_present ≡ n
    pub funcs_seen : count (text_eq t) s.func_present ≡ m

  found-IsOnce :
      (id : ℕ) (s u : Merged) (i n m : ℕ) → IsOnce s n m → IsFound id s i u → IsOnce u n m
  found-IsOnce id s u i n m h found = record {
    linked = found.1;
    vars = found-tally vars_of id s u i refl found ∙ h.vars;
    funcs = found-tally funcs_of id s u i refl found ∙ h.funcs;
    vars_seen = ap (count (text_eq t)) found.2 ∙ h.vars_seen;
    funcs_seen = ap (count (text_eq t)) found.3 ∙ h.funcs_seen;
  }

  written-IsLinked :
      (i : ℕ) (o : Overlay) (s : Merged) (var_present func_present : List Text)
      → IsLinked s
      → IsLinked (record s {
        store = set s.store i o;
        var_present = var_present;
        func_present = func_present;
      })
  written-IsLinked i o s var_present func_present l = record {
    each = λ h. rw (length-set s.store i o) (l.each h);
    below = rw (length-set s.store i o) l.below;
    named = l.named;
  }

  add_to-IsOnce :
      (cur : Overlay) (i : ℕ) (o : Overlay) (s : Merged) (n m : ℕ)
      → get_elem? s.store i ≡ some cur
      → IsOnce s n m
      → IsOnce (add_to leaf skip_addr skip_line cur i o s) (n + vars_of o) (m + funcs_of o)
  unfolding add_to
  add_to-IsOnce cur i o s n m e h =
      let def = var_text leaf skip_addr in
      let def' = func_text leaf skip_addr skip_line in
      let (vars, var_present) = add_unseen def o.vars cur.vars s.var_present in
      let (funcs, func_present) = add_unseen def' o.funcs cur.funcs s.func_present in
      let new : Overlay = record cur { vars = vars; funcs = funcs } in
      let seen =
        add_unseen-present def t o.vars cur.vars s.var_present
        ∙ ap (λ k. k + vars_of o) h.vars_seen in
      let seen' =
        add_unseen-present def' t o.funcs cur.funcs s.func_present
        ∙ ap (λ k. k + funcs_of o) h.funcs_seen in
      record {
        linked = written-IsLinked i new s var_present func_present h.linked;
        vars =
            one_kept (tally vars_of (set s.store i new)) (tally vars_of s.store) (vars_of cur)
              (vars_of new) (count (text_eq t) s.var_present) (count (text_eq t) var_present) n
              (n + vars_of o) (tally-set vars_of s.store i cur new e)
              (add_unseen-defining def t o.vars cur.vars s.var_present) h.vars h.vars_seen seen;
        funcs =
            one_kept (tally funcs_of (set s.store i new)) (tally funcs_of s.store) (funcs_of cur)
              (funcs_of new) (count (text_eq t) s.func_present) (count (text_eq t) func_present) m
              (m + funcs_of o) (tally-set funcs_of s.store i cur new e)
              (add_unseen-defining def' t o.funcs cur.funcs s.func_present) h.funcs h.funcs_seen
              seen';
        vars_seen = seen;
        funcs_seen = seen';
      }

  add_decls-IsOnce :
      (i : ℕ) (o : Overlay) (s : Merged) (n m : ℕ)
      → i < length s.store
      → IsOnce s n m
      → IsOnce (add_decls leaf skip_addr skip_line i o s) (n + vars_of o) (m + funcs_of o)
  unfolding add_decls
  add_decls-IsOnce i o s n m below h =
      let (cur, e) = get_elem?-some s.store i below in
      rw (add_decls, e) (add_to-IsOnce cur i o s n m e h)

  pub recounted : (s : Merged) (a b c d : ℕ) → a ≡ c → b ≡ d → IsOnce s a b → IsOnce s c d
  recounted s a b c d same same' h =
      subst (λ k. IsOnce s k d) same (subst (λ k. IsOnce s a k) same' h)

  merge_overlays-IsOnce :
      (os : List Overlay) (s : Merged) (n m : ℕ)
      → IsOnce s n m
      → (u : Merged) × (merge_overlays leaf skip_addr skip_line 0 os s ≡ ok u)
        × IsOnce u (n + tally vars_of os) (m + tally funcs_of os)
  unfolding merge_overlays
  merge_overlays-IsOnce [] s n m h =
      (s, refl, recounted s n m (n + 0) (m + 0) (omega arith) (omega arith) h)
  merge_overlays-IsOnce (o ∷ os) s n m h =
      let (i, u, e, found) = overlay_for-Finds o.id s h.linked in
      let added = add_decls-IsOnce i o u n m found.0 (found-IsOnce o.id s u i n m h found) in
      let (v, returned, done) =
        merge_overlays-IsOnce os (add_decls leaf skip_addr skip_line i o u) (n + vars_of o)
          (m + funcs_of o) added in
      (
        v,
        ok-next (overlay_for 0 o.id s) _ e ∙ returned,
        recounted v (n + vars_of o + tally vars_of os) (m + funcs_of o + tally funcs_of os)
            (n + tally vars_of (o ∷ os)) (m + tally funcs_of (o ∷ os)) (omega arith) (omega arith)
            done,
      )

  -- Where the own overlay of each parser has ID 0, the loop over the parsers returns.
  pub merge_decls-IsOnce :
      (ps : List Parser) (s : Merged) (n m : ℕ)
      → All HasOwn ps
      → IsOnce s n m
      → (u : Merged) × (merge_decls leaf skip_addr skip_line ps s ≡ ok u)
        × IsOnce u (n + declared vars_of ps) (m + declared funcs_of ps)
  unfolding merge_decls
  merge_decls-IsOnce [] s n m own h =
      (s, refl, recounted s n m (n + 0) (m + 0) (omega arith) (omega arith) h)
  merge_decls-IsOnce (p ∷ ps) s n m own h =
      let (o, e, same) = own.0 in
      let (u, merged, once) = merge_overlays-IsOnce (all_overlays p) s n m h in
      let (v, returned, done) =
        merge_decls-IsOnce ps u (n + tally vars_of (all_overlays p))
          (m + tally funcs_of (all_overlays p)) own.1 once in
      (
        v,
        some-next (get_elem? p.overlay_store 0) nil_dereference _ e
            ∙ (ok-next (merge_overlays leaf skip_addr skip_line o.id (all_overlays p) s) _ (
                  ap (λ k. merge_overlays leaf skip_addr skip_line k (all_overlays p) s) same
                  ∙ merged)
                ∙ returned),
        recounted v (n + tally vars_of (all_overlays p) + declared vars_of ps)
            (m + tally funcs_of (all_overlays p) + declared funcs_of ps)
            (n + declared vars_of (p ∷ ps)) (m + declared funcs_of (p ∷ ps)) (omega arith)
            (omega arith) done,
      )
