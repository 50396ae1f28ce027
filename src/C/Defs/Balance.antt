-- ===== src/C/Defs/Balance.antt =====
-- Texts whose braces match, and that the numbers of a comment leave them so.
use psx_mnd_sym.Prelude.{
  ℕ, zero, suc, ◌<◌, ◌≡◌, refl, sym, ap, ◌∙◌, List, [], ◌∷◌, ◌++◌, map, Text, Bool, true, false,
  ◌==◌, if◌then◌else◌, Option, none, some, All, Option-cases, length, replicate, arith, inl, inr,
  ◌-◌,
}
use psx_mnd_sym.Fmt.{dec, upper_hex, zero_pad, digits, lower_digit, upper_digit}
use psx_mnd_sym.Fmt.Digits.{digits_bounds}

-- What a byte does to the depth in braces; none if it closes one that is not open.
unfoldable pub brace_step : ℕ → ℕ → Option ℕ
brace_step b d =
    if b == 123
    then some (suc d)
    else if b == 125
    then elim d [ zero ↦ none | suc e ↦ some e ]
    else some d

-- How deep in braces a text ends that begins at a depth.
unfoldable pub depth : ℕ → Text → Option ℕ
unfolding brace_step
depth d [] = some d
depth d (b ∷ s) = elim (brace_step b d) [ none ↦ none | some e ↦ depth e s ]

-- A text whose braces match each other, wherever it stands.
abbrev pub IsBalanced : Text → Type 0
IsBalanced s = (d : ℕ) → depth d s ≡ some d

pub depth_cons : (b d c : ℕ) (s : Text) → brace_step b d ≡ some c → depth d (b ∷ s) ≡ depth c s
unfolding depth
depth_cons b d c s h = rw (depth, h) refl

pub depth_unopened : (b d : ℕ) (s : Text) → brace_step b d ≡ none → depth d (b ∷ s) ≡ none
unfolding depth
depth_unopened b d s h = rw (depth, h) refl

pub none_some : {A : Type 0} (o : Option ℕ) (e : ℕ) → o ≡ none → o ≡ some e → A
none_some o e h k = cc

pub depth-append : (d e : ℕ) (s t : Text) → depth d s ≡ some e → depth d (s ++ t) ≡ depth e t
unfolding depth
depth-append d e [] t h = ap (λ o. elim o [ none ↦ none | some c ↦ depth c t ]) h
depth-append d e (b ∷ s) t h = elim (Option-cases (brace_step b d)) [
  | inl x ↦ none_some (depth d (b ∷ s)) e (depth_unopened b d s x) h
  | inr (c, x) ↦ depth_cons b d c (s ++ t) x ∙ depth-append c e s t (sym (depth_cons b d c s x) ∙ h)
]

pub IsBalanced-append : (s t : Text) → IsBalanced s → IsBalanced t → IsBalanced (s ++ t)
IsBalanced-append s t hs ht d = depth-append d d s t (hs d) ∙ ht d

pub brace_step-plain : (b d : ℕ) → b < 123 → brace_step b d ≡ some d
unfolding brace_step
brace_step-plain b d h = ground arith

-- Letters, digits and what is below them in ASCII are no braces.
pub plain-IsBalanced : (s : Text) → All (λ b. b < 123) s → IsBalanced s
unfolding depth
plain-IsBalanced [] h d = refl
plain-IsBalanced (b ∷ s) h d =
    depth_cons b d d s (brace_step-plain b d h.0) ∙ plain-IsBalanced s h.1 d

pub map-plain :
    (f : ℕ → ℕ) (base : ℕ) (ds : List ℕ)
    → ((d : ℕ) → d < base → f d < 123)
    → All (λ d. d < base) ds
    → All (λ b. b < 123) (map f ds)
map-plain f base [] hf h = tt
map-plain f base (d ∷ ds) hf h = (hf d h.0, map-plain f base ds hf h.1)

pub dec-IsBalanced : (n : ℕ) → IsBalanced (dec n)
unfolding dec
dec-IsBalanced n = plain-IsBalanced (map lower_digit (digits (suc n) 10 n)) (
    map-plain lower_digit 10 (digits (suc n) 10 n) (λ d h. ground arith)
      (digits_bounds (suc n) 10 n (omega arith)))

pub upper_hex-IsBalanced : (n : ℕ) → IsBalanced (upper_hex n)
unfolding upper_hex
upper_hex-IsBalanced n = plain-IsBalanced (map upper_digit (digits (suc n) 16 n)) (
    map-plain upper_digit 16 (digits (suc n) 16 n) (λ d h. ground arith)
      (digits_bounds (suc n) 16 n (omega arith)))

pub replicate-IsBalanced : (n b : ℕ) → b < 123 → IsBalanced (replicate n b)
replicate-IsBalanced zero b h d = plain-IsBalanced [] tt d
replicate-IsBalanced (suc n) b h d =
    depth_cons b d d (replicate n b) (brace_step-plain b d h) ∙ replicate-IsBalanced n b h d

-- One line of a comment on a number.
pub line-IsBalanced :
    (start number finish : Text)
    → All (λ b. b < 123) start
    → IsBalanced number
    → All (λ b. b < 123) finish
    → IsBalanced (start ++ (number ++ finish))
line-IsBalanced start number finish hs hn hf =
    IsBalanced-append start (number ++ finish) (plain-IsBalanced start hs)
      (IsBalanced-append number finish hn (plain-IsBalanced finish hf))

pub if-IsBalanced :
    (c : Bool) (s t : Text) → IsBalanced s → IsBalanced t → IsBalanced (if c then s else t)
if-IsBalanced true s t hs ht = hs
if-IsBalanced false s t hs ht = ht

pub zero_pad-IsBalanced : (width : ℕ) (s : Text) → IsBalanced s → IsBalanced (zero_pad width s)
zero_pad-IsBalanced width s h =
    IsBalanced-append (replicate (width - length s) 48) s
      (replicate-IsBalanced (width - length s) 48 (omega arith)) h
