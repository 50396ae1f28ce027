-- ===== src/Sym/File/Switch.antt =====
-- What all cases of a Go switch have is so of its result.
use psx_mnd_sym.Prelude.{ℕ, List, [], ◌∷◌, ◌==◌, All, inl, inr, Bool-cases}
use psx_mnd_sym.Sym.File.{switch}

module _ {ℓ κ} {A : Type ℓ} (P : A → Type κ) (k : ℕ) where
  pub switch-All :
      (cases : List (ℕ × A)) (otherwise : A)
      → All (λ (c : ℕ × A). P c.1) cases
      → P otherwise
      → P (switch k cases otherwise)
  unfolding switch
  switch-All [] otherwise hs h = h
  switch-All ((c, a) ∷ cases) otherwise hs h = elim (Bool-cases (k == c)) [
    | inl e ↦ rw e hs.0
    | inr e ↦ rw e (switch-All cases otherwise hs.1 h)
  ]

  pub switch_one :
      (c : ℕ) (a otherwise : A) → P a → P otherwise → P (switch k ((c, a) ∷ []) otherwise)
  switch_one c a otherwise ha h = switch-All ((c, a) ∷ []) otherwise (ha, tt) h

  pub switch_two :
      (c d : ℕ) (a b otherwise : A)
      → P a
      → P b
      → P otherwise
      → P (switch k ((c, a) ∷ (d, b) ∷ []) otherwise)
  switch_two c d a b otherwise ha hb h =
      switch-All ((c, a) ∷ (d, b) ∷ []) otherwise (ha, (hb, tt)) h

  pub switch_three :
      (c d e : ℕ) (a b x otherwise : A)
      → P a
      → P b
      → P x
      → P otherwise
      → P (switch k ((c, a) ∷ (d, b) ∷ (e, x) ∷ []) otherwise)
  switch_three c d e a b x otherwise ha hb hx h =
      switch-All ((c, a) ∷ (d, b) ∷ (e, x) ∷ []) otherwise (ha, (hb, (hx, tt))) h

  pub switch_four :
      (c d e f : ℕ) (a b x y otherwise : A)
      → P a
      → P b
      → P x
      → P y
      → P otherwise
      → P (switch k ((c, a) ∷ (d, b) ∷ (e, x) ∷ (f, y) ∷ []) otherwise)
  switch_four c d e f a b x y otherwise ha hb hx hy h =
      switch-All ((c, a) ∷ (d, b) ∷ (e, x) ∷ (f, y) ∷ []) otherwise (ha, (hb, (hx, (hy, tt)))) h
