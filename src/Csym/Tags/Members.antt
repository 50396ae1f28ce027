-- ===== src/Csym/Tags/Members.antt =====
-- How far the loops over the members of a tag go.
use psx_mnd_sym.Prelude.{
  ℕ, suc, ◌+◌, ◌≡◌, ◌∙◌, refl, sym, ap, inl, inr, subst, Text, if-eq_cases, List, [], ◌∷◌, Bool,
  true, false, ◌==◌, ◌||◌, if◌then◌else◌, Option, none, some, Result, ok, ok-injective, >>=-steps,
  arith, Bool-cases,
}
use psx_mnd_sym.Sym.Base
use psx_mnd_sym.Sym.Class
use psx_mnd_sym.Sym.File.{switch}
use psx_mnd_sym.Sym.Symbol.{Def, SymbolBody, Symbol, def, def2}
use psx_mnd_sym.C.Ast.{Field, StructType}
use psx_mnd_sym.Csym.Names.{valid_name}
use psx_mnd_sym.Csym.Tagged.{find_empty_struct, find_empty_union, find_empty_enum}
use psx_mnd_sym.Csym.Types.{parse_type, parse_typedef}
use psx_mnd_sym.Csym.State.{Panic, TypeInfo}
use psx_mnd_sym.Csym.Tags.{
  MemberStep, add_field, add_method, members_loop, struct_step, union_step, enum_step, struct_field,
  union_field, enum_member, types_step, no_skip, check_base, parse_struct_tag, parse_union_tag,
  parse_enum_tag,
}

-- The symbol that ends a struct, union or enum.
unfoldable pub is_eos : SymbolBody → Bool
is_eos (def2 b) = b.class == Class.eos
is_eos _ = false

-- A struct, union or enum tag, which opens a sequence of members.
unfoldable pub is_tag : SymbolBody → Bool
is_tag (def b) = b.class == Class.strtag || (b.class == Class.untag || b.class == Class.entag)
is_tag _ = false

-- How many symbols there are up to the first end, with it.
unfoldable pub through_eos : List Symbol → Option ℕ
unfolding is_eos
through_eos [] = none
through_eos (s ∷ syms) =
    if is_eos s.body
    then some 1
    else elim (through_eos syms) [ none ↦ none | some n ↦ some (suc n) ]

-- A step that reports an end exactly at an end.
abbrev pub Ends : MemberStep → Type 0
Ends step =
    (i value : ℕ) (b : SymbolBody) (p : TypeInfo) (ended : Bool) (q : TypeInfo)
    → step i value b p ≡ ok (ended, q)
    → ended ≡ is_eos b

no_end-struct :
    (append : Field → StructType → StructType) (i value size t : ℕ) (dims : List ℕ) (tag raw : Text)
    (p : TypeInfo) {ended : Bool} {q : TypeInfo}
    → struct_field append i value size t dims tag raw p ≡ ok (ended, q)
    → ended ≡ false
unfolding struct_field
no_end-struct append i value size t dims tag raw p h =
    let (v, parsed, returned) = >>=-steps (parse_type t dims tag p) _ h in
    sym (ap (λ r. r.0) (ok-injective returned))

no_end-union :
    (i value size t : ℕ) (dims : List ℕ) (tag raw : Text) (p : TypeInfo) {ended : Bool}
    {q : TypeInfo}
    → union_field i value size t dims tag raw p ≡ ok (ended, q)
    → ended ≡ false
unfolding union_field
no_end-union i value size t dims tag raw p h =
    let (v, parsed, returned) = >>=-steps (parse_type t dims tag p) _ h in
    sym (ap (λ r. r.0) (ok-injective returned))

not_eos :
    (class member : ℕ)
    → (class == member) ≡ true
    → (member == Class.eos) ≡ false
    → (class == Class.eos) ≡ false
not_eos class member same other = ground arith

struct_step-Ends : Ends struct_step
unfolding struct_step is_eos switch
struct_step-Ends i value (def b) p ended q h = elim (if-eq_cases (b.class == Class.mos) h) [
  | inl (_, e) ↦ no_end-struct add_field i value b.size b.type [] [] b.name p e
  | inr (_, e) ↦ elim (if-eq_cases (b.class == Class.field) e) [
    | inl (_, f) ↦ no_end-struct add_method i value b.size b.type [] [] b.name p f
    | inr (_, f) ↦ cc
  ]
]
struct_step-Ends i value (def2 b) p ended q h = elim (if-eq_cases (b.class == Class.mos) h) [
  | inl (c, e) ↦
      no_end-struct add_field i value b.size b.type b.dims b.tag b.name p e
      ∙ sym (not_eos b.class Class.mos c refl)
  | inr (_, e) ↦ elim (if-eq_cases (b.class == Class.eos) e) [
    | inl (c, f) ↦ sym (ap (λ r. r.0) (ok-injective f)) ∙ sym c
    | inr (_, f) ↦ cc
  ]
]
struct_step-Ends i value _ p ended q h = sym (ap (λ r. r.0) (ok-injective h))

union_step-Ends : Ends union_step
unfolding union_step is_eos switch
union_step-Ends i value (def b) p ended q h = elim (if-eq_cases (b.class == Class.mou) h) [
  | inl (_, e) ↦ no_end-union i value b.size b.type [] [] b.name p e
  | inr (_, e) ↦ cc
]
union_step-Ends i value (def2 b) p ended q h = elim (if-eq_cases (b.class == Class.mou) h) [
  | inl (c, e) ↦
      no_end-union i value b.size b.type b.dims b.tag b.name p e
      ∙ sym (not_eos b.class Class.mou c refl)
  | inr (_, e) ↦ elim (if-eq_cases (b.class == Class.eos) e) [
    | inl (c, f) ↦ sym (ap (λ r. r.0) (ok-injective f)) ∙ sym c
    | inr (_, f) ↦ cc
  ]
]
union_step-Ends i value _ p ended q h = sym (ap (λ r. r.0) (ok-injective h))

enum_step-Ends : Ends enum_step
unfolding enum_step enum_member is_eos switch
enum_step-Ends i value (def b) p ended q h = elim (if-eq_cases (b.class == Class.moe) h) [
  | inl (_, e) ↦ sym (ap (λ r. r.0) (ok-injective e))
  | inr (_, e) ↦ cc
]
enum_step-Ends i value (def2 b) p ended q h = elim (if-eq_cases (b.class == Class.eos) h) [
  | inl (c, e) ↦ sym (ap (λ r. r.0) (ok-injective e)) ∙ sym c
  | inr (_, e) ↦ cc
]
enum_step-Ends i value _ p ended q h = sym (ap (λ r. r.0) (ok-injective h))

through_eos_end :
    (s : Symbol) (syms : List Symbol) → is_eos s.body ≡ true → through_eos (s ∷ syms) ≡ some 1
unfolding through_eos
through_eos_end s syms e = rw e refl

through_eos_more :
    (s : Symbol) (syms : List Symbol) (n : ℕ)
    → is_eos s.body ≡ false
    → through_eos syms ≡ some n
    → through_eos (s ∷ syms) ≡ some (suc n)
unfolding through_eos
through_eos_more s syms n e h = rw (e, h) refl

members_loop-through_eos :
    (step : MemberStep) (i n : ℕ) (syms : List Symbol) (p : TypeInfo) {k : ℕ} {q : TypeInfo}
    → Ends step
    → members_loop step i n syms p ≡ ok (k, q)
    → (taken : ℕ) × (through_eos syms ≡ some taken) × (k ≡ n + taken)
unfolding members_loop through_eos
members_loop-through_eos step i n [] p ends h = cc
members_loop-through_eos step i n (s ∷ syms) p {k} {q} ends h =
    let ((ended, r), stepped, rest) = >>=-steps (step i s.value s.body p) _ h in
    let at_end = ends i s.value s.body p ended r stepped in
    let after = λ (c : Bool).
      (elim c [ true ↦ ok (n + 1, r) | false ↦ members_loop step i (n + 1) syms r ]) ≡ ok (k, q) in
    elim (Bool-cases ended) [
      | inl e ↦
          let returned : ok (n + 1, r) ≡ ok (k, q) = subst after e rest in
          (1, through_eos_end s syms (sym at_end ∙ e), sym (ap (λ v. v.0) (ok-injective returned)))
      | inr e ↦
          let (taken, first, count) =
            members_loop-through_eos step i (n + 1) syms r ends (subst after e rest) in
          (suc taken, through_eos_more s syms taken (sym at_end ∙ e) first, omega (arith, count))
    ]

parse_struct_tag-through_eos :
    (b : Def) (syms : List Symbol) (p : TypeInfo) {n : ℕ} {q : TypeInfo}
    → parse_struct_tag b syms p ≡ ok (n, q)
    → through_eos syms ≡ some n
unfolding parse_struct_tag
parse_struct_tag-through_eos b syms p h =
    let (_, checked, found) = >>=-steps (check_base Base.struct b.type) _ h in
    let (i, _, looped) =
      >>=-steps (find_empty_struct (valid_name b.name) b.size p.structs) _ found in
    let (taken, first, count) =
      members_loop-through_eos struct_step i 0 syms p struct_step-Ends looped in
    first ∙ ap some (omega (arith, count))

parse_union_tag-through_eos :
    (b : Def) (syms : List Symbol) (p : TypeInfo) {n : ℕ} {q : TypeInfo}
    → parse_union_tag b syms p ≡ ok (n, q)
    → through_eos syms ≡ some n
unfolding parse_union_tag
parse_union_tag-through_eos b syms p h =
    let (_, checked, found) = >>=-steps (check_base Base.union b.type) _ h in
    let (i, _, looped) = >>=-steps (find_empty_union (valid_name b.name) b.size p.unions) _ found in
    let (taken, first, count) =
      members_loop-through_eos union_step i 0 syms p union_step-Ends looped in
    first ∙ ap some (omega (arith, count))

parse_enum_tag-through_eos :
    (b : Def) (syms : List Symbol) (p : TypeInfo) {n : ℕ} {q : TypeInfo}
    → parse_enum_tag b syms p ≡ ok (n, q)
    → through_eos syms ≡ some n
unfolding parse_enum_tag
parse_enum_tag-through_eos b syms p h =
    let (_, checked, found) = >>=-steps (check_base Base.enum b.type) _ h in
    let (i, _, looped) = >>=-steps (find_empty_enum (valid_name b.name) p.enums) _ found in
    let (taken, first, count) =
      members_loop-through_eos enum_step i 0 syms p enum_step-Ends looped in
    first ∙ ap some (omega (arith, count))

no_skip-zero : (r : Result Panic TypeInfo) {n : ℕ} {q : TypeInfo} → no_skip r ≡ ok (n, q) → n ≡ 0
no_skip-zero r h = let (_, _, e) = >>=-steps r _ h in sym (ap (λ v. v.0) (ok-injective e))

-- If one round of the loop of ParseTypes returns, it passes over the symbols after a struct, union or
-- enum tag up to its end, with it, and over none after any other symbol.
pub types_step-through_eos :
    (b : SymbolBody) (syms : List Symbol) (p : TypeInfo) {n : ℕ} {q : TypeInfo}
    → types_step b syms p ≡ ok (n, q)
    → (if is_tag b then through_eos syms else some 0) ≡ some n
unfolding types_step is_tag switch
types_step-through_eos (def b) syms p h = elim (if-eq_cases (b.class == Class.strtag) h) [
  | inl (c, e) ↦ rw c (parse_struct_tag-through_eos b syms p e)
  | inr (c, e) ↦ elim (if-eq_cases (b.class == Class.untag) e) [
    | inl (d, f) ↦ rw (c, d) (parse_union_tag-through_eos b syms p f)
    | inr (d, f) ↦ elim (if-eq_cases (b.class == Class.entag) f) [
      | inl (x, g) ↦ rw (c, d, x) (parse_enum_tag-through_eos b syms p g)
      | inr (x, g) ↦
          rw (c, d, x)
            (elim (if-eq_cases (b.class == Class.tpdef) g) [
              | inl (_, r) ↦ ap some (sym (no_skip-zero (parse_typedef b.type [] [] b.name p) r))
              | inr (_, r) ↦ ap (λ v. some v.0) (ok-injective r)
            ])
    ]
  ]
]
types_step-through_eos (def2 b) syms p h = elim (if-eq_cases (b.class == Class.tpdef) h) [
  | inl (_, r) ↦ ap some (sym (no_skip-zero (parse_typedef b.type b.dims b.tag b.name p) r))
  | inr (_, r) ↦ ap (λ v. some v.0) (ok-injective r)
]
types_step-through_eos _ syms p h = ap (λ r. some r.0) (ok-injective h)
