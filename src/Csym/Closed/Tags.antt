-- ===== src/Csym/Closed/Tags.antt =====
-- The members of structs, unions and enums (csym/parse_types.go), and the stores that their types lead to.
use psx_mnd_sym.Prelude.{
  ℕ, ◌+◌, ◌≡◌, ◌≤◌, refl, subst, inl, inr, List, [], ◌∷◌, Text, Bool, true, false, All-append,
  arith, length, length-set, get_elem?, Option-cases, Result, ok, err, ok-injective, >>=-steps,
}
use psx_mnd_sym.Sym.Class
use psx_mnd_sym.Sym.File.Switch.{switch_one, switch_two}
use psx_mnd_sym.Sym.Symbol.{SymbolBody, Symbol, def, def2}
use psx_mnd_sym.C.Ast.{Field, StructType}
use psx_mnd_sym.Csym.State.{Panic, Tagged, TypeInfo, unsupported_class, unreachable}
use psx_mnd_sym.Csym.Names.{unique_enum, valid_name}
use psx_mnd_sym.Csym.Tagged.{change}
use psx_mnd_sym.Csym.Tagged.Places.{IsWellPlaced}
use psx_mnd_sym.Csym.Tagged.Contents.{change-All}
use psx_mnd_sym.Csym.Types.{parse_type}
use psx_mnd_sym.Csym.Tags.{
  MemberStep, to_field, add_member, add_field, add_method, add_union_field, struct_field,
  union_field, enum_member, struct_step, union_step, enum_step, members_loop,
}
use psx_mnd_sym.Csym.Closed.{
  Sizes, sizes, Fits, Fits-refl, Fits-trans, FieldWithin, StructWithin, UnionWithin, IsClosed,
  IsWithin-larger, structs-larger, unions-larger,
}
use psx_mnd_sym.Csym.Closed.Stores.{
  set_structs-Fits, set_unions-Fits, set_enums-Fits, set_structs-IsClosed, set_unions-IsClosed,
  set_enums-IsClosed,
}
use psx_mnd_sym.Csym.Closed.Types.{parse_type-Yields}
use psx_mnd_sym.Csym.Closed.Typedefs.{Keeps}

ok-Keeps {ℓ} :
    {A : Type ℓ} (p q : TypeInfo) (a : A)
    → IsClosed q
    → Fits (sizes p) (sizes q)
    → Keeps p (ok (a, q))
ok-Keeps {A = A} p q a closed larger b u e =
    subst (λ (x : A × TypeInfo). IsClosed x.1 × Fits (sizes p) (sizes x.1)) (ok-injective e)
      (closed, larger)

pub same-Keeps {ℓ} : {A : Type ℓ} (p : TypeInfo) (a : A) → IsClosed p → Keeps p (ok (a, p))
same-Keeps p a h = ok-Keeps p p a h (Fits-refl (sizes p))

pub err-Keeps {ℓ} : {A : Type ℓ} (p : TypeInfo) (x : Panic) → Keeps {A = A} p (err x)
err-Keeps p x a q e = cc

-- A change of an object moves nothing.
length-change {ℓ} :
    {T : Type ℓ} (f : T → T) (i : ℕ) (s : Tagged T) → length (change f i s).store ≡ length s.store
unfolding change
length-change f i s = elim (Option-cases (get_elem? s.store i)) [
  | inl e ↦ rw (change, e) refl
  | inr (t, e) ↦ rw (change, e) (length-set s.store i (f t))
]

change-IsWellPlaced {ℓ} :
    {T : Type ℓ} (f : T → T) (i : ℕ) (s : Tagged T) → IsWellPlaced s → IsWellPlaced (change f i s)
unfolding change
change-IsWellPlaced f i s h = elim (Option-cases (get_elem? s.store i)) [
  | inl e ↦ rw (change, e) h
  | inr (t, e) ↦ rw (change, e, length-set s.store i (f t)) h
]

-- What appends a field within the stores keeps a struct within them.
abbrev KeepsStructs : (Field → StructType → StructType) → Type 0
KeepsStructs append =
    (n : Sizes)
    → (f : Field) → (t : StructType) → FieldWithin n f
    → StructWithin n t
    → StructWithin n (append f t)

add_field-KeepsStructs : KeepsStructs add_field
add_field-KeepsStructs n f t hf h = (All-append (FieldWithin n) t.fields (f ∷ []) h.0 (hf, tt), h.1)

add_method-KeepsStructs : KeepsStructs add_method
add_method-KeepsStructs n f t hf h =
    (h.0, All-append (FieldWithin n) t.methods (f ∷ []) h.1 (hf, tt))

struct_field-Keeps :
    (append : Field → StructType → StructType) (i value size t : ℕ) (dims : List ℕ) (tag raw : Text)
    (p : TypeInfo)
    → KeepsStructs append
    → IsClosed p
    → Keeps p (struct_field append i value size t dims tag raw p)
unfolding struct_field
struct_field-Keeps append i value size t dims tag raw p keeps h b q e =
    let ((v, u), parsed, rest) = >>=-steps (parse_type t dims tag p) _ e in
    let (closed, larger, within) = parse_type-Yields t dims tag p h v u parsed in
    let f = to_field value size v raw in
    let s = change (append f) i u.structs in
    let le : length u.structs.store ≤ length s.store =
      omega (arith, length-change (append f) i u.structs) in
    let next = set_structs-Fits u s le in
    let k = sizes (record u { structs = s }) in
    let all =
      change-All (StructWithin k) (append f) i u.structs
        (λ x. keeps k f x (IsWithin-larger (sizes u) k next v within))
        (structs-larger (sizes u) k next u.structs.store closed.struct_fields) in
    ok-Keeps p (record u { structs = s }) false
      (set_structs-IsClosed u s closed (change-IsWellPlaced (append f) i u.structs closed.structs)
        le all)
      (Fits-trans (sizes p) (sizes u) k larger next) b q rest

union_field-Keeps :
    (i value size t : ℕ) (dims : List ℕ) (tag raw : Text) (p : TypeInfo)
    → IsClosed p
    → Keeps p (union_field i value size t dims tag raw p)
unfolding union_field
union_field-Keeps i value size t dims tag raw p h b q e =
    let ((v, u), parsed, rest) = >>=-steps (parse_type t dims tag p) _ e in
    let (closed, larger, within) = parse_type-Yields t dims tag p h v u parsed in
    let f = to_field value size v raw in
    let s = change (add_union_field f) i u.unions in
    let le : length u.unions.store ≤ length s.store =
      omega (arith, length-change (add_union_field f) i u.unions) in
    let next = set_unions-Fits u s le in
    let k = sizes (record u { unions = s }) in
    let all =
      change-All (UnionWithin k) (add_union_field f) i u.unions
        (λ x hx.
          All-append (FieldWithin k) x.fields (f ∷ []) hx
            (IsWithin-larger (sizes u) k next v within, tt))
        (unions-larger (sizes u) k next u.unions.store closed.union_fields) in
    ok-Keeps p (record u { unions = s }) false
      (set_unions-IsClosed u s closed
        (change-IsWellPlaced (add_union_field f) i u.unions closed.unions) le all)
      (Fits-trans (sizes p) (sizes u) k larger next) b q rest

-- The names of the enumeration members lead to no type.
set_members-IsClosed :
    (p : TypeInfo) (names : List Text) → IsClosed p → IsClosed (record p { enum_members = names })
set_members-IsClosed p names h = record {
  structs = h.structs;
  unions = h.unions;
  enums = h.enums;
  typedefs = h.typedefs;
  struct_fields = h.struct_fields;
  union_fields = h.union_fields;
  defs = h.defs;
  types = h.types;
}

enum_member-Keeps :
    (i value : ℕ) (raw : Text) (p : TypeInfo)
    → IsClosed p
    → Keeps p (ok (enum_member i value raw p))
unfolding enum_member
enum_member-Keeps i value raw p h =
    let named = unique_enum (valid_name raw) p.enum_members in
    let f = add_member (record { value = value; name = named.0 }) in
    let s = change f i p.enums in
    let le : length p.enums.store ≤ length s.store = omega (arith, length-change f i p.enums) in
    ok-Keeps p (record p { enums = s; enum_members = named.1 }) false
      (set_members-IsClosed (record p { enums = s }) named.1
        (set_enums-IsClosed p s h (change-IsWellPlaced f i p.enums h.enums) le))
      (set_enums-Fits p s le)

-- One symbol of a loop over members.
abbrev pub StepKeeps : MemberStep → Type 0
StepKeeps step =
    (i value : ℕ) → (b : SymbolBody) → (p : TypeInfo) → IsClosed p → Keeps p (step i value b p)

pub struct_step-Keeps : StepKeeps struct_step
unfolding struct_step
struct_step-Keeps i value (def b) p h =
    switch_two (Keeps p) b.class Class.mos Class.field _ _ _
      (struct_field-Keeps add_field i value b.size b.type [] [] b.name p add_field-KeepsStructs h)
      (struct_field-Keeps add_method i value b.size b.type [] [] b.name p add_method-KeepsStructs h)
      (err-Keeps p (unsupported_class b.class))
struct_step-Keeps i value (def2 b) p h =
    switch_two (Keeps p) b.class Class.mos Class.eos _ _ _
      (struct_field-Keeps add_field i value b.size b.type b.dims b.tag b.name p
        add_field-KeepsStructs h)
      (same-Keeps p true h) (err-Keeps p (unsupported_class b.class))
struct_step-Keeps i value _ p h = same-Keeps p false h

pub union_step-Keeps : StepKeeps union_step
unfolding union_step
union_step-Keeps i value (def b) p h =
    switch_one (Keeps p) b.class Class.mou _ _
      (union_field-Keeps i value b.size b.type [] [] b.name p h)
      (err-Keeps p (unsupported_class b.class))
union_step-Keeps i value (def2 b) p h =
    switch_two (Keeps p) b.class Class.mou Class.eos _ _ _
      (union_field-Keeps i value b.size b.type b.dims b.tag b.name p h) (same-Keeps p true h)
      (err-Keeps p (unsupported_class b.class))
union_step-Keeps i value _ p h = same-Keeps p false h

pub enum_step-Keeps : StepKeeps enum_step
unfolding enum_step
enum_step-Keeps i value (def b) p h =
    switch_one (Keeps p) b.class Class.moe _ _ (enum_member-Keeps i value b.name p h)
      (err-Keeps p (unsupported_class b.class))
enum_step-Keeps i value (def2 b) p h =
    switch_one (Keeps p) b.class Class.eos _ _ (same-Keeps p true h)
      (err-Keeps p (unsupported_class b.class))
enum_step-Keeps i value _ p h = same-Keeps p false h

pub after-Keeps {ℓ} :
    {A : Type ℓ} (p q : TypeInfo) (r : Result Panic (A × TypeInfo))
    → Fits (sizes p) (sizes q)
    → Keeps q r
    → Keeps p r
after-Keeps p q r larger h a u e =
    let (closed, next) = h a u e in (closed, Fits-trans (sizes p) (sizes q) (sizes u) larger next)

-- The end of a loop over members, or the symbols that are left.
ended-Keeps :
    (ended : Bool) (n : ℕ) (q : TypeInfo) (rest : Result Panic (ℕ × TypeInfo))
    → IsClosed q
    → Keeps q rest
    → Keeps q (elim ended [ true ↦ ok (n, q) | false ↦ rest ])
ended-Keeps true n q rest h hr = same-Keeps q n h
ended-Keeps false n q rest h hr = hr

pub members_loop-Keeps :
    (step : MemberStep) (i n : ℕ) (syms : List Symbol) (p : TypeInfo)
    → StepKeeps step
    → IsClosed p
    → Keeps p (members_loop step i n syms p)
unfolding members_loop
members_loop-Keeps step i n [] p keeps h = err-Keeps p unreachable
members_loop-Keeps step i n (s ∷ syms) p keeps h = λ a u e.
    let ((ended, q), first, rest) = >>=-steps (step i s.value s.body p) _ e in
    let (closed, larger) = keeps i s.value s.body p h ended q first in
    after-Keeps p q _ larger
      (ended-Keeps ended (n + 1) q (members_loop step i (n + 1) syms q) closed
        (members_loop-Keeps step i (n + 1) syms q keeps closed))
      a u rest
