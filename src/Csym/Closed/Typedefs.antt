-- ===== src/Csym/Closed/Typedefs.antt =====
-- Type definitions in parseTypedef and initTaggedTypes (csym/parse_types.go).
use psx_mnd_sym.Prelude.{
  ℕ, suc, ◌≡◌, ◌<◌, subst, sym, inl, inr, List, [], ◌∷◌, ◌++◌, Text, text_eq, All, All-append,
  arith, length, length-append, Result, ok, >>=-steps, ok-injective, Bool-cases,
}
use psx_mnd_sym.C.Ast.{CType, VarDecl, def_ref, var_decl, typedef}
use psx_mnd_sym.Csym.State.{insert, Map, Panic, TypeInfo}
use psx_mnd_sym.Csym.Names.{valid_name}
use psx_mnd_sym.Csym.Tagged.Places.{AllBelow, below-AllBelow}
use psx_mnd_sym.Csym.Types.{parse_type, parse_typedef}
use psx_mnd_sym.Csym.Closed.{
  Sizes, sizes, Fits, Fits-trans, IsWithin, EntryWithin, DeclWithin, IsClosed, DeclWithin-larger,
  structs-larger, unions-larger, defs-larger, types-larger,
}
use psx_mnd_sym.Csym.Closed.Types.{parse_type-Yields}

insert-Within :
    (n : Sizes) (key : Text) (t : CType) (m : Map CType)
    → IsWithin n t
    → All (EntryWithin n) m
    → All (EntryWithin n) (insert key t m)
unfolding insert
insert-Within n key t [] h hm = (h, tt)
insert-Within n key t ((k, u) ∷ m) h hm = elim (Bool-cases (text_eq key k)) [
  | inl e ↦ rw (insert, e) (h, hm.1)
  | inr e ↦ rw (insert, e) (hm.0, insert-Within n key t m h hm.1)
]

-- `p` with one more type definition, `v`.
abbrev with_def : VarDecl → TypeInfo → TypeInfo
with_def v p = record p { def_store = p.def_store ++ v ∷ [] }

one_def : (v : VarDecl) (p : TypeInfo) → length (p.def_store ++ v ∷ []) ≡ suc (length p.def_store)
one_def v p = omega (arith, length-append p.def_store (v ∷ []))

with_def-Fits : (v : VarDecl) (p : TypeInfo) → Fits (sizes p) (sizes (with_def v p))
with_def-Fits v p = record {
  structs = omega arith;
  unions = omega arith;
  enums = omega arith;
  defs = omega (arith, one_def v p);
}

-- A type definition added to the store and to the map, and perhaps to the list.
pub add_def-IsClosed :
    (v : VarDecl) (name : Text) (p : TypeInfo) (typedefs : List ℕ)
    → IsClosed p
    → DeclWithin (sizes p) v
    → AllBelow (suc (length p.def_store)) typedefs
    → IsClosed (record p {
      def_store = p.def_store ++ v ∷ [];
      typedefs = typedefs;
      types = insert name (def_ref (length p.def_store)) p.types;
    })
add_def-IsClosed v name p typedefs h within below =
    let larger = with_def-Fits v p in
    let n = sizes p in
    let k = sizes (with_def v p) in
    record {
      structs = h.structs;
      unions = h.unions;
      enums = h.enums;
      typedefs = subst (λ m. AllBelow m typedefs) (sym (one_def v p)) below;
      struct_fields = structs-larger n k larger p.structs.store h.struct_fields;
      union_fields = unions-larger n k larger p.unions.store h.union_fields;
      defs =
          All-append (DeclWithin k) p.def_store (v ∷ []) (defs-larger n k larger p.def_store h.defs)
            (DeclWithin-larger n k larger v within, tt);
      types =
          insert-Within k name (def_ref (length p.def_store)) p.types (omega (arith, one_def v p))
            (types-larger n k larger p.types h.types);
    }

-- What a step that returned has left: closed stores that are no smaller.
abbrev pub Keeps {ℓ} : {A : Type ℓ} → TypeInfo → Result Panic (A × TypeInfo) → Type ℓ
Keeps {A = A} p r = (a : A) → (q : TypeInfo) → r ≡ ok (a, q) → IsClosed q × Fits (sizes p) (sizes q)

-- parseTypedef
pub parse_typedef-Keeps :
    (t : ℕ) (dims : List ℕ) (tag raw : Text) (p q : TypeInfo)
    → IsClosed p
    → parse_typedef t dims tag raw p ≡ ok q
    → IsClosed q × Fits (sizes p) (sizes q)
unfolding parse_typedef
parse_typedef-Keeps t dims tag raw p q h e =
    let ((v, u), parsed, rest) = >>=-steps (parse_type t dims tag p) _ e in
    let (closed, larger, within) = parse_type-Yields t dims tag p h v u parsed in
    let n = length u.def_store in
    let below =
      All-append (λ i. i < suc n) u.typedefs (n ∷ [])
        (below-AllBelow n (suc n) u.typedefs (omega arith) closed.typedefs) (omega arith, tt) in
    let d = var_decl 0 0 typedef v (valid_name raw) in
    subst (λ x. IsClosed x × Fits (sizes p) (sizes x)) (ok-injective rest)
      (
        add_def-IsClosed d (valid_name raw) u (u.typedefs ++ n ∷ []) closed within below,
        Fits-trans (sizes p) (sizes u) (sizes (with_def d u)) larger (with_def-Fits d u),
      )
