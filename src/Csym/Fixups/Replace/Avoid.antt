-- ===== src/Csym/Fixups/Replace/Avoid.antt =====
-- The types that ReplaceUsedTypes leaves.
use psx_mnd_sym.Prelude.{
  ℕ, ◌≡◌, refl, sym, ap, subst, ◌∙◌, inl, inr, List, false, Option, none, some, Option-cases,
  get_elem?, set, length, length-set,
}
use psx_mnd_sym.C.Ast.{
  CType, Params, VarDecl, Field, UnionType, struct_ref, union_ref, enum_ref, pointer, array, func,
  nil, cons, var_decl,
}
use psx_mnd_sym.Csym.Fixups.Replace.{
  Ref, a_struct, an_union, an_enum, Remap, find_key, is_key, to_type, replaced, set_field_type,
}
use psx_mnd_sym.Csym.Fixups.Replace.Stores.{get_elem?-set_cases, get_elem?-set_self}

module _ (r : Remap) where
  -- No struct, union or enum of the type is one that is replaced.
  abbrev mutual
    pub Avoids : CType → Type 0
    Avoids (struct_ref i) = is_key (a_struct i) r ≡ false
    Avoids (union_ref i) = is_key (an_union i) r ≡ false
    Avoids (enum_ref i) = is_key (an_enum i) r ≡ false
    Avoids (pointer t) = Avoids t
    Avoids (array t n) = Avoids t
    Avoids (func t ps variadic) = Avoids t × ParamsAvoid ps
    Avoids _ = Unit {0}

    pub ParamsAvoid : Params → Type 0
    ParamsAvoid nil = Unit {0}
    ParamsAvoid (cons v ps) = DeclAvoids v × ParamsAvoid ps

    pub DeclAvoids : VarDecl → Type 0
    DeclAvoids (var_decl addr size class t name) = Avoids t

  -- The field `k` of the union at `i`, if there is one, has such a type.
  abbrev pub FieldHolds : List UnionType → ℕ → ℕ → Type 0
  FieldHolds us i k =
      (u : UnionType) (f : Field)
      → get_elem? us i ≡ some u
      → get_elem? u.fields k ≡ some f
      → Avoids f.type

  -- What changes of the unions may do: no field gets a type that is replaced, and each union keeps its
  -- number of fields.
  pub record Improves (us : List UnionType) (us' : List UnionType) : Type 0 where
    pub kept : (i k : ℕ) → FieldHolds us i k → FieldHolds us' i k
    pub shape :
        (i : ℕ) (u' : UnionType)
        → get_elem? us' i ≡ some u'
        → (u : UnionType) × (get_elem? us i ≡ some u) × (length u.fields ≡ length u'.fields)

  pub Improves_refl : (us : List UnionType) → Improves us us
  Improves_refl us = record { kept = λ i k h. h; shape = λ i u e. (u, e, refl) }

  pub Improves_trans :
      {us vs ws : List UnionType} → Improves us vs → Improves vs ws → Improves us ws
  Improves_trans {us} {vs} {ws} a b = record {
    kept = λ i k h. b.kept i k (a.kept i k h);
    shape = λ i w e.
        let (v, ev, lv) = b.shape i w e in let (u, eu, lu) = a.shape i v ev in (u, eu, lu ∙ lv);
  }

  pub written_field :
      (us : List UnionType) (j k : ℕ) (u : UnionType) (f : Field) (t : CType)
      → get_elem? us j ≡ some u
      → get_elem? u.fields k ≡ some f
      → set_field_type j k t us
        ≡ set us j (record u { fields = set u.fields k (record f { type = t }) })
  written_field us j k u f t eu ef = rw (set_field_type, eu, ef) refl

  pub write-Improves :
      (us : List UnionType) (j k : ℕ) (u : UnionType) (f : Field) (t : CType)
      → get_elem? us j ≡ some u
      → Avoids t
      → Improves us (set us j (record u { fields = set u.fields k (record f { type = t }) }))
  write-Improves us j k u f t eu ht =
      let f1 : Field = record f { type = t } in
      let u1 : UnionType = record u { fields = set u.fields k f1 } in
      record {
        kept = λ i m h u' f' e e'. elim (get_elem?-set_cases us j i u1 u' e) [
          | inl (place, same) ↦
              elim (get_elem?-set_cases u.fields k m f1 f'
                (subst (λ (v : UnionType). get_elem? v.fields m ≡ some f') same e')) [
                  | inl (_, new) ↦ subst (λ (g : Field). Avoids g.type) (sym new) ht
                  | inr old ↦ h u f' (subst (λ p. get_elem? us p ≡ some u) place eu) old
                ]
          | inr old ↦ h u' f' old e'
        ];
        shape = λ i u' e. elim (get_elem?-set_cases us j i u1 u' e) [
          | inl (place, same) ↦ (
            u,
            subst (λ p. get_elem? us p ≡ some u) place eu,
            sym (length-set u.fields k f1) ∙ ap (λ (v : UnionType). length v.fields) (sym same),
          )
          | inr old ↦ (u', old, refl)
        ];
      }

  pub write-FieldHolds :
      (us : List UnionType) (j k : ℕ) (u : UnionType) (f : Field) (t : CType)
      → Avoids t
      → FieldHolds (set us j (record u { fields = set u.fields k (record f { type = t }) })) j k
  write-FieldHolds us j k u f t ht u' f' e e' =
      let f1 : Field = record f { type = t } in
      let same = get_elem?-set_self us j (record u { fields = set u.fields k f1 }) u' e in
      let new =
        get_elem?-set_self u.fields k f1 f'
          (subst (λ (v : UnionType). get_elem? v.fields k ≡ some f') same e') in
      subst (λ (g : Field). Avoids g.type) (sym new) ht

  -- A remapping of which no value is a key.
  abbrev pub IsClean : Type 0
  IsClean = (t u : Ref) → find_key t r ≡ some (some u) → is_key u r ≡ false

  abbrev pub RefAvoids : Option Ref → Type 0
  RefAvoids none = Unit {0}
  RefAvoids (some t) = is_key t r ≡ false

  no_key : (t : Ref) → find_key t r ≡ none → is_key t r ≡ false
  no_key t e = rw (is_key, e) refl

  pub replaced-RefAvoids : IsClean → (t : Ref) → RefAvoids (replaced r t)
  unfolding replaced
  replaced-RefAvoids clean t = elim (Option-cases (find_key t r)) [
    | inl e ↦ rw (replaced, e) (no_key t e)
    | inr (none, e) ↦ rw (replaced, e) tt
    | inr (some u, e) ↦ rw (replaced, e) (clean t u e)
  ]

  pub to_type-Avoids : (t : Option Ref) → RefAvoids t → Avoids (to_type t)
  to_type-Avoids none h = tt
  to_type-Avoids (some (a_struct i)) h = h
  to_type-Avoids (some (an_union i)) h = h
  to_type-Avoids (some (an_enum i)) h = h
