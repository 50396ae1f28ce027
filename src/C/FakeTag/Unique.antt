-- ===== src/C/FakeTag/Unique.antt =====
-- A tag can be read off the tags that UniqueTag makes of it.
use psx_mnd_sym.Prelude.{
  ℕ, subst, suc, ◌+◌, ◌≡◌, ◌<◌, ◌⊎◌, ◌∙◌, refl, sym, ap, List, [], ◌∷◌, ◌++◌, Text, codes, true,
  false, none, some, All, length, take, inl, inr, map, arith, append_assoc, ◌==◌,
}
use psx_mnd_sym.Fmt.{dec, digits, lower_digit}
use psx_mnd_sym.Fmt.Digits.{digits_bounds}
use psx_mnd_sym.C.FakeTag.{has_prefix, last_index, original_tag, duplicate_mark}
use psx_mnd_sym.Csym.Names.{unique_tag}

-- A string in front of another moves the last place of a pattern that the latter has.
last_index-append :
    (s t pattern : Text) (i : ℕ)
    → last_index t pattern ≡ some i
    → last_index (s ++ t) pattern ≡ some (length s + i)
unfolding last_index
last_index-append [] t pattern i h = h ∙ ap some (omega arith)
last_index-append (b ∷ s) t pattern i h =
    rw (last_index-append s t pattern i h) (ap some (omega arith))

-- Below the letters there is no underscore.
abbrev IsDigit : ℕ → Type 0
IsDigit b = b < 58

has_prefix-digit : (b : ℕ) (s : Text) → IsDigit b → has_prefix duplicate_mark (b ∷ s) ≡ false
unfolding has_prefix
has_prefix-digit b s h = ground arith

last_index-digits : (s : Text) → All IsDigit s → last_index s duplicate_mark ≡ none
unfolding last_index has_prefix
last_index-digits [] h = refl
last_index-digits (b ∷ s) h = rw (last_index-digits s h.1, has_prefix-digit b s h.0) refl

map-IsDigit : (ds : List ℕ) → All (λ d. d < 10) ds → All IsDigit (map lower_digit ds)
map-IsDigit [] h = tt
map-IsDigit (d ∷ ds) h = (ground arith, map-IsDigit ds h.1)

-- The letter of a struct, a union or an enumeration.
abbrev pub IsSort : ℕ → Type 0
IsSort c = (c ≡ 115) ⊎ ((c ≡ 117) ⊎ (c ≡ 101))

-- A byte that is passed over, and one at which the pattern begins.
last_index-pass :
    (b : ℕ) (s pattern : Text)
    → has_prefix pattern (b ∷ s) ≡ false
    → last_index s pattern ≡ none
    → last_index (b ∷ s) pattern ≡ none
unfolding last_index
last_index-pass b s pattern h e = rw (e, h) refl

last_index-start :
    (b : ℕ) (s pattern : Text)
    → has_prefix pattern (b ∷ s) ≡ true
    → last_index s pattern ≡ none
    → last_index (b ∷ s) pattern ≡ some 0
unfolding last_index
last_index-start b s pattern h e = rw (e, h) refl

-- No pattern of bytes that do not begin with its first byte.
last_index-passes :
    (front s : Text)
    → All (λ b. (95 == b) ≡ false) front
    → last_index s duplicate_mark ≡ none
    → last_index (front ++ s) duplicate_mark ≡ none
unfolding has_prefix
last_index-passes [] s h e = e
last_index-passes (b ∷ front) s h e =
    last_index-pass b (front ++ s) duplicate_mark (rw h.0 refl) (last_index-passes front s h.1 e)

-- `duplicate_` and a byte that is no underscore and no `d`, in front of what has no pattern.
tail_none :
    (c : ℕ) (s : Text)
    → (95 == c) ≡ false
    → (100 == c) ≡ false
    → last_index s duplicate_mark ≡ none
    → last_index (codes "duplicate" ++ (95 ∷ c ∷ s)) duplicate_mark ≡ none
unfolding has_prefix
tail_none c s no_underscore no_d h =
    last_index-passes (codes "duplicate") (95 ∷ c ∷ s)
      (refl, (refl, (refl, (refl, (refl, (refl, (refl, (refl, (refl, tt)))))))))
      (last_index-pass 95 (c ∷ s) duplicate_mark (rw no_d refl)
        (last_index-passes (c ∷ []) s (no_underscore, tt) h))

none_before :
    (c : ℕ) (s : Text)
    → (95 == c) ≡ false
    → (100 == c) ≡ false
    → last_index s duplicate_mark ≡ none
    → last_index (duplicate_mark ++ (c ∷ s)) duplicate_mark ≡ some 0
unfolding has_prefix
none_before c s no_underscore no_d h =
    last_index-start 95 (codes "duplicate" ++ (95 ∷ c ∷ s)) duplicate_mark refl
      (tail_none c s no_underscore no_d h)

last_index-mark :
    (c : ℕ) (s : Text)
    → IsSort c
    → last_index s duplicate_mark ≡ none
    → last_index (duplicate_mark ++ (c ∷ s)) duplicate_mark ≡ some 0
last_index-mark c s (inl e) h =
    subst (λ x. last_index (duplicate_mark ++ (x ∷ s)) duplicate_mark ≡ some 0) (sym e)
      (none_before 115 s refl refl h)
last_index-mark c s (inr (inl e)) h =
    subst (λ x. last_index (duplicate_mark ++ (x ∷ s)) duplicate_mark ≡ some 0) (sym e)
      (none_before 117 s refl refl h)
last_index-mark c s (inr (inr e)) h =
    subst (λ x. last_index (duplicate_mark ++ (x ∷ s)) duplicate_mark ≡ some 0) (sym e)
      (none_before 101 s refl refl h)

take-length_append : (s t : Text) → take (length s) (s ++ t) ≡ s
take-length_append [] t = refl
take-length_append (b ∷ s) t = ap (λ u. b ∷ u) (take-length_append s t)

dec-IsDigit : (n : ℕ) → All IsDigit (dec n)
unfolding dec
dec-IsDigit n = map-IsDigit (digits (suc n) 10 n) (digits_bounds (suc n) 10 n (omega arith))

unique_tag-append :
    (tag : Text) (c idx : ℕ)
    → unique_tag tag (c ∷ []) idx ≡ tag ++ (duplicate_mark ++ (c ∷ dec idx))
unfolding unique_tag
unique_tag-append tag c idx =
    append_assoc (tag ++ duplicate_mark) (c ∷ []) (dec idx)
    ∙ append_assoc tag duplicate_mark (c ∷ dec idx)

original_tag-append :
    (b : ℕ) (tag rest : Text)
    → last_index ((b ∷ tag) ++ rest) duplicate_mark ≡ some (length (b ∷ tag))
    → original_tag ((b ∷ tag) ++ rest) ≡ b ∷ tag
unfolding original_tag
original_tag-append b tag rest last = rw (original_tag, last) (take-length_append (b ∷ tag) rest)

-- What IsFakeTag takes for the original of a tag that UniqueTag has made, for a struct, a union or an
-- enumeration, is the tag that it was made of, unless that is empty.
pub original_tag-unique_tag :
    (b : ℕ) (tag : Text) (c idx : ℕ)
    → IsSort c
    → original_tag (unique_tag (b ∷ tag) (c ∷ []) idx) ≡ b ∷ tag
original_tag-unique_tag b tag c idx h =
    let rest = duplicate_mark ++ (c ∷ dec idx) in
    let last : last_index ((b ∷ tag) ++ rest) duplicate_mark ≡ some (length (b ∷ tag)) =
      last_index-append (b ∷ tag) rest duplicate_mark 0
        (last_index-mark c (dec idx) h (last_index-digits (dec idx) (dec-IsDigit idx)))
      ∙ ap some (omega arith) in
    ap original_tag (unique_tag-append (b ∷ tag) c idx) ∙ original_tag-append b tag rest last
