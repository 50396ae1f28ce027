-- ===== src/Csym/Fixups/Replace/Stores.antt =====
-- Objects at the places of a store, while some are written.
use psx_mnd_sym.Prelude.{
  ℕ, zero, suc, ◌≡◌, ◌≢◌, refl, sym, ap, ◌⊎◌, inl, inr, List, [], ◌∷◌, some, All, get_elem?, set,
  length, arith, ◌<◌, subst,
}

module _ {ℓ} {T : Type ℓ} where
  -- What is read at a place after a write is the new object, or was there before.
  pub get_elem?-set_cases :
      (xs : List T) (i j : ℕ) (v t : T)
      → get_elem? (set xs i v) j ≡ some t
      → ((i ≡ j) × (t ≡ v)) ⊎ (get_elem? xs j ≡ some t)
  get_elem?-set_cases [] i j v t h = inr h
  get_elem?-set_cases (x ∷ xs) zero zero v t h = inl (refl, cc)
  get_elem?-set_cases (x ∷ xs) zero (suc j) v t h = inr h
  get_elem?-set_cases (x ∷ xs) (suc i) zero v t h = inr h
  get_elem?-set_cases (x ∷ xs) (suc i) (suc j) v t h = elim (get_elem?-set_cases xs i j v t h) [
    | inl (same, new) ↦ inl (ap suc same, new)
    | inr old ↦ inr old
  ]

  pub get_elem?-set_self :
      (xs : List T) (i : ℕ) (v t : T) → get_elem? (set xs i v) i ≡ some t → t ≡ v
  get_elem?-set_self [] i v t h = cc
  get_elem?-set_self (x ∷ xs) zero v t h = cc
  get_elem?-set_self (x ∷ xs) (suc i) v t h = get_elem?-set_self xs i v t h

  pub get_elem?_bound : (xs : List T) (i : ℕ) (t : T) → get_elem? xs i ≡ some t → i < length xs
  get_elem?_bound [] i t h = cc
  get_elem?_bound (x ∷ xs) zero t h = omega arith
  get_elem?_bound (x ∷ xs) (suc i) t h = omega (arith, get_elem?_bound xs i t h)

  pub get_elem?-some : (xs : List T) (i : ℕ) → i < length xs → (t : T) × (get_elem? xs i ≡ some t)
  get_elem?-some [] i h = absurd (omega arith)
  get_elem?-some (x ∷ xs) zero h = (x, refl)
  get_elem?-some (x ∷ xs) (suc i) h = get_elem?-some xs i (omega arith)

  pub get_elem?-set_here :
      (xs : List T) (i : ℕ) (v t : T) → get_elem? xs i ≡ some t → get_elem? (set xs i v) i ≡ some v
  get_elem?-set_here [] i v t h = cc
  get_elem?-set_here (x ∷ xs) zero v t h = refl
  get_elem?-set_here (x ∷ xs) (suc i) v t h = get_elem?-set_here xs i v t h

  pub get_elem?-set_other :
      (xs : List T) (i j : ℕ) (v : T) → j ≢ i → get_elem? (set xs i v) j ≡ get_elem? xs j
  get_elem?-set_other [] i j v h = refl
  get_elem?-set_other (x ∷ xs) zero zero v h = absurd (h refl)
  get_elem?-set_other (x ∷ xs) zero (suc j) v h = refl
  get_elem?-set_other (x ∷ xs) (suc i) zero v h = refl
  get_elem?-set_other (x ∷ xs) (suc i) (suc j) v h =
      get_elem?-set_other xs i j v (λ e. h (ap suc e))

  -- What is there after a write, where there was something before.
  pub get_elem?-set-some :
      (xs : List T) (i j : ℕ) (v t : T)
      → get_elem? xs j ≡ some t
      → ((i ≡ j) × (get_elem? (set xs i v) j ≡ some v)) ⊎ (get_elem? (set xs i v) j ≡ some t)
  get_elem?-set-some [] i j v t h = cc
  get_elem?-set-some (x ∷ xs) zero zero v t h = inl (refl, refl)
  get_elem?-set-some (x ∷ xs) zero (suc j) v t h = inr h
  get_elem?-set-some (x ∷ xs) (suc i) zero v t h = inr h
  get_elem?-set-some (x ∷ xs) (suc i) (suc j) v t h = elim (get_elem?-set-some xs i j v t h) [
    | inl (same, new) ↦ inl (ap suc same, new)
    | inr old ↦ inr old
  ]

some_is {ℓ} : {T : Type ℓ} (x t : T) → some x ≡ some t → x ≡ t
some_is x t e = cc

module _ {ℓ κ} {T : Type ℓ} (P : T → Type κ) where
  -- The object at the place, if there is one, has the property.
  abbrev pub HoldsAt : List T → ℕ → Type (ℓ ⊔ κ)
  HoldsAt store i = (t : T) → get_elem? store i ≡ some t → P t

  pub HoldsAt-set :
      (store : List T) (i j : ℕ) (v : T) → P v → HoldsAt store j → HoldsAt (set store i v) j
  HoldsAt-set store i j v hv h t e = elim (get_elem?-set_cases store i j v t e) [
    | inl (_, new) ↦ subst P (sym new) hv
    | inr old ↦ h t old
  ]

  pub HoldsAt-set_self : (store : List T) (i : ℕ) (v : T) → P v → HoldsAt (set store i v) i
  HoldsAt-set_self store i v hv t e = subst P (sym (get_elem?-set_self store i v t e)) hv

  pub All-HoldsAt : (store : List T) → All P store → (i : ℕ) → HoldsAt store i
  All-HoldsAt [] h i t e = cc
  All-HoldsAt (x ∷ store) h zero t e = subst P (some_is x t e) h.0
  All-HoldsAt (x ∷ store) h (suc i) t e = All-HoldsAt store h.1 i t e
