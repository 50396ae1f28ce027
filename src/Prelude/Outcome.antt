-- ===== src/Prelude/Outcome.antt =====
-- Results of code that can fail: Go's (value, error) pairs and its panics, as values of one type.
use mathlib.Core.Bool.{Bool, true, false}
use mathlib.Core.Logic.{◌⊎◌, inl, inr}
use mathlib.Core.Option.{Option, none, some}
use mathlib.Core.Path.{◌≡◌, refl, ap}
use psx_mnd_sym.Prelude.Tests.{if◌then◌else◌}

-- The failures of type `F`, the values of type `V`.
pub data Result {ℓ κ} (F : Type ℓ) (V : Type κ) : Type (ℓ ⊔ κ) where
  err : F → Result F V
  ok : V → Result F V

module _ {ℓ κ} {F : Type ℓ} {V : Type κ} where
  pub ok-injective : {v w : V} → ◌≡◌ {A = Result F V} (ok v) (ok w) → v ≡ w
  ok-injective same = cc

  pub err-injective : {v w : F} → ◌≡◌ {A = Result F V} (err v) (err w) → v ≡ w
  err-injective same = cc

  pub Result-cases : (r : Result F V) → ((x : F) × (r ≡ err x)) ⊎ ((v : V) × (r ≡ ok v))
  Result-cases (err x) = inl (x, refl)
  Result-cases (ok v) = inr (v, refl)

  -- A test that guards a failure.
  pub if-eq-ok :
      (passed : Bool) {v w : V} (x : F)
      → (if passed then ok v else err x) ≡ ok w
      → (passed ≡ true) × (v ≡ w)
  if-eq-ok false x same = cc
  if-eq-ok true x same = (refl, ok-injective same)

module _ {ℓ κ μ} {F : Type ℓ} {V : Type κ} {W : Type μ} where
  infixl 5 ◌>>=◌
  abbrev pub ◌>>=◌ : Result F V → (V → Result F W) → Result F W
  err x >>= next = err x
  ok v >>= next = next v

  -- Both steps of a chain that returned have returned.
  pub >>=-steps :
      (first : Result F V) (next : V → Result F W) {w : W}
      → (first >>= next) ≡ ok w
      → (v : V) × (first ≡ ok v) × (next v ≡ ok w)
  >>=-steps (err x) next returned = cc
  >>=-steps (ok v) next returned = (v, refl, returned)

module _ {ℓ κ μ} {A : Type ℓ} {F : Type κ} {V : Type μ} where
  -- What was there, when a step that needs it has returned.
  pub some-steps :
      (o : Option A) (x : F) (next : A → Result F V) {v : V}
      → (elim o [ none ↦ err x | some a ↦ next a ]) ≡ ok v
      → (a : A) × (o ≡ some a) × (next a ≡ ok v)
  some-steps none x next returned = cc
  some-steps (some a) x next returned = (a, refl, returned)

  pub some-next :
      (o : Option A) (x : F) (next : A → Result F V) {a : A}
      → o ≡ some a
      → (elim o [ none ↦ err x | some b ↦ next b ]) ≡ next a
  some-next none x next e = cc
  some-next (some b) x next e = ap next cc

module _ {ℓ κ μ} {F : Type ℓ} {V : Type κ} {W : Type μ} where
  -- A step that has returned goes on to the next, and one that has failed ends the chain.
  pub ok-next :
      (first : Result F V) (next : V → Result F W) {v : V}
      → first ≡ ok v
      → (first >>= next) ≡ next v
  ok-next (err x) next e = cc
  ok-next (ok w) next e = ap next (ok-injective e)

  pub err-next :
      (first : Result F V) (next : V → Result F W) {x : F}
      → first ≡ err x
      → (first >>= next) ≡ err x
  err-next (err y) next e = ap err (err-injective e)
  err-next (ok w) next e = cc
