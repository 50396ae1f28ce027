-- ===== src/Csym/Closed/Types.antt =====
-- parseType (csym/parse_types.go), and the stores that the type it returns leads to.
use psx_mnd_sym.Prelude.{
  ℕ, ◌≡◌, subst, inl, inr, List, [], ◌∷◌, Text, codes, text_eq, false, ◌==◌, some, All, Result, ok,
  err, ok-injective, >>=-steps, Option-cases, if-eq_cases,
}
use psx_mnd_sym.Sym.File.Switch.{switch-All}
use psx_mnd_sym.Sym.Types.{base as base_code, mod_pointer, mod_function, mod_array}
use psx_mnd_sym.C.Ast.{
  CType, BaseType, void, char, short, int, long, uchar, ushort, uint, ulong, pointer, array, func,
  nil, nil_type, base,
}
use psx_mnd_sym.Csym.State.{lookup, Map, Panic, TypeInfo, unsupported_base, index_out_of_range}
use psx_mnd_sym.Csym.Names.{valid_name}
use psx_mnd_sym.Csym.Tagged.{find_struct, find_union, find_enum}
use psx_mnd_sym.Csym.Tagged.Places.{some-injective, find-Placed}
use psx_mnd_sym.Csym.Tagged.Contents.{find_struct-All, find_union-All}
use psx_mnd_sym.Csym.Types.{
  apply_mod, mods_down, parse_mods, reverse_onto, parse_base, read_mods, parse_type, base_cases,
  found_struct, found_union, found_enum, null_type,
}
use psx_mnd_sym.Csym.Closed.Stores.{
  set_structs-Fits, set_unions-Fits, set_enums-Fits, set_structs-IsClosed, set_unions-IsClosed,
  set_enums-IsClosed,
}
use psx_mnd_sym.Csym.Closed.{
  Sizes, sizes, Fits, Fits-refl, IsWithin, StructWithin, UnionWithin, EntryWithin, IsClosed,
  structs-larger, unions-larger,
}

-- What a step that returned has left: closed stores that are no smaller, and a type within them.
abbrev pub Yields : TypeInfo → Result Panic (CType × TypeInfo) → Type 0
Yields p r =
    (t : CType)
    → (q : TypeInfo) → r ≡ ok (t, q)
    → IsClosed q × Fits (sizes p) (sizes q) × IsWithin (sizes q) t

ok-Yields :
    (p q : TypeInfo) (t : CType)
    → IsClosed q
    → Fits (sizes p) (sizes q)
    → IsWithin (sizes q) t
    → Yields p (ok (t, q))
ok-Yields p q t closed larger within u v e =
    subst
      (λ (x : CType × TypeInfo).
        IsClosed x.1 × Fits (sizes p) (sizes x.1) × IsWithin (sizes x.1) x.0)
      (ok-injective e) (closed, larger, within)

err-Yields : (p : TypeInfo) (x : Panic) → Yields p (err x)
err-Yields p x t q e = cc

-- A type that leads to nothing.
plain-Yields : (p : TypeInfo) (t : CType) → IsClosed p → IsWithin (sizes p) t → Yields p (ok (t, p))
plain-Yields p t h within = ok-Yields p p t h (Fits-refl (sizes p)) within

found_struct-Yields :
    (p : TypeInfo) (tag : Text)
    → IsClosed p
    → Yields p (found_struct (find_struct tag 0 false p.structs) p)
found_struct-Yields p tag h =
    let s = (find_struct tag 0 false p.structs).1 in
    let i = (find_struct tag 0 false p.structs).0 in
    let q : TypeInfo = record p { structs = s } in
    let placed =
      (find-Placed tag 0 false p.structs p.unions p.enums h.structs h.unions h.enums).0 in
    let larger = set_structs-Fits p s placed.2 in
    let kept =
      find_struct-All (StructWithin (sizes q)) tag 0 false p.structs (λ x t w. w) (tt, tt)
        (structs-larger (sizes p) (sizes q) larger p.structs.store h.struct_fields) in
    ok-Yields p q _ (set_structs-IsClosed p s h placed.1 placed.2 kept) larger placed.0

found_union-Yields :
    (p : TypeInfo) (tag : Text)
    → IsClosed p
    → Yields p (found_union (find_union tag 0 false p.unions) p)
found_union-Yields p tag h =
    let s = (find_union tag 0 false p.unions).1 in
    let q : TypeInfo = record p { unions = s } in
    let placed =
      (find-Placed tag 0 false p.structs p.unions p.enums h.structs h.unions h.enums).1 in
    let larger = set_unions-Fits p s placed.2 in
    let kept =
      find_union-All (UnionWithin (sizes q)) tag 0 false p.unions (λ x t w. w) tt
        (unions-larger (sizes p) (sizes q) larger p.unions.store h.union_fields) in
    ok-Yields p q _ (set_unions-IsClosed p s h placed.1 placed.2 kept) larger placed.0

found_enum-Yields :
    (p : TypeInfo) (tag : Text) → IsClosed p → Yields p (found_enum (find_enum tag p.enums) p)
found_enum-Yields p tag h =
    let s = (find_enum tag p.enums).1 in
    let placed =
      (find-Placed tag 0 false p.structs p.unions p.enums h.structs h.unions h.enums).2 in
    ok-Yields p (record p { enums = s }) _ (set_enums-IsClosed p s h placed.1 placed.2)
      (set_enums-Fits p s placed.2) placed.0

lookup-Within :
    (n : Sizes) (key : Text) (m : Map CType) (t : CType)
    → All (EntryWithin n) m
    → lookup key m ≡ some t
    → IsWithin n t
unfolding lookup
lookup-Within n key [] t h e = cc
lookup-Within n key ((k, u) ∷ m) t h e = elim (if-eq_cases (text_eq key k) e) [
  | inl (_, same) ↦ subst (IsWithin n) (some-injective same) h.0
  | inr (_, same) ↦ lookup-Within n key m t h.1 same
]

null_type-Yields : (p : TypeInfo) → IsClosed p → Yields p (null_type p)
null_type-Yields p h = elim (Option-cases (lookup (codes "bool") p.types)) [
  | inl e ↦ rw (null_type, e) (plain-Yields p nil_type h tt)
  | inr (t, e) ↦
      rw (null_type, e)
        (plain-Yields p t h (lookup-Within (sizes p) (codes "bool") p.types t h.types e))
]

parse_base-Yields : (b : ℕ) (raw : Text) (p : TypeInfo) → IsClosed p → Yields p (parse_base b raw p)
unfolding parse_base
parse_base-Yields b raw p h =
    let tag = valid_name raw in
    let plain = λ (c : BaseType). plain-Yields p (base c) h tt in
    switch-All (Yields p) b (base_cases tag p) (err (unsupported_base b))
      (
        null_type-Yields p h,
        (
          plain void,
          (
            plain char,
            (
              plain short,
              (
                plain int,
                (
                  plain long,
                  (
                    found_struct-Yields p tag h,
                    (
                      found_union-Yields p tag h,
                      (
                        found_enum-Yields p tag h,
                        (plain uchar, (plain ushort, (plain uint, (plain ulong, tt)))),
                      ),
                    ),
                  ),
                ),
              ),
            ),
          ),
        ),
      )
      (err-Yields p (unsupported_base b))

-- The type that a step of parseMods gave.
given-Within :
    (n : Sizes) (t u : CType) (dims rest : List ℕ)
    → IsWithin n t
    → ◌≡◌ {A = Result Panic (CType × List ℕ)} (ok (t, dims)) (ok (u, rest))
    → IsWithin n u
given-Within n t u dims rest h e = subst (λ (x : CType × List ℕ). IsWithin n x.0) (ok-injective e) h

array_mod-Within :
    (n : Sizes) (t u : CType) (dims rest : List ℕ)
    → IsWithin n t
    → (elim dims as (λ _. Result Panic (CType × List ℕ)) [
      | [] ↦ err index_out_of_range
      | d ∷ others ↦ ok (array t d, others)
    ])
      ≡ ok (u, rest)
    → IsWithin n u
array_mod-Within n t u [] rest h e = cc
array_mod-Within n t u (d ∷ dims) rest h e = given-Within n (array t d) u dims rest h e

apply_mod-Within :
    (n : Sizes) (t u : CType) (m : ℕ) (dims rest : List ℕ)
    → IsWithin n t
    → apply_mod t m dims ≡ ok (u, rest)
    → IsWithin n u
unfolding apply_mod
apply_mod-Within n t u m dims rest h e = elim (if-eq_cases (m == mod_pointer) e) [
  | inl (_, same) ↦ given-Within n (pointer t) u dims rest h same
  | inr (_, e2) ↦ elim (if-eq_cases (m == mod_function) e2) [
    | inl (_, same) ↦ given-Within n (func t nil false) u dims rest (h, tt) same
    | inr (_, e3) ↦ elim (if-eq_cases (m == mod_array) e3) [
      | inl (_, same) ↦ array_mod-Within n t u dims rest h same
      | inr (_, same) ↦ given-Within n t u dims rest h same
    ]
  ]
]

mods_down-Within :
    (n : Sizes) (ms dims : List ℕ) (t u : CType)
    → IsWithin n t
    → mods_down t ms dims ≡ ok u
    → IsWithin n u
unfolding mods_down
mods_down-Within n [] dims t u h e = subst (IsWithin n) (ok-injective e) h
mods_down-Within n (m ∷ ms) dims t u h e =
    let ((v, rest), applied, more) = >>=-steps (apply_mod t m dims) _ e in
    mods_down-Within n ms rest v u (apply_mod-Within n t v m dims rest h applied) more

-- parseType
pub parse_type-Yields :
    (t : ℕ) (dims : List ℕ) (tag : Text) (p : TypeInfo)
    → IsClosed p
    → Yields p (parse_type t dims tag p)
unfolding parse_type parse_mods
parse_type-Yields t dims tag p h v q e =
    let ((u, q'), first, rest) = >>=-steps (parse_base (base_code t) tag p) _ e in
    let (ms, read, more) = >>=-steps (read_mods t) _ rest in
    let (w, modified, last) = >>=-steps (parse_mods u ms dims) _ more in
    let (closed, larger, within) = parse_base-Yields (base_code t) tag p h u q' first in
    ok-Yields p q' w closed larger
      (mods_down-Within (sizes q') (reverse_onto ms []) dims u w within modified) v q last
