-- ===== src/Tests/Reader.antt =====
-- A concrete reader that has the laws which the program relies on of struc.Unpack.
use native.Mathlib.Nat.{pow-suc}
use psx_mnd_sym.Prelude.{
  ℕ, zero, suc, ◌+◌, ◌*◌, ◌/◌, ◌%◌, ◌^◌, ◌<◌, ◌≡◌, ◌∙◌, refl, sym, ap, List, [], ◌∷◌, ◌++◌, Text,
  IsByte, All, arith, Result, ok, err, ◌>>=◌, >>=-steps, ok-injective, length, append_assoc,
  All-right, subst,
}
use psx_mnd_sym.Sym.Wire.{
  Tag, uint8, uint16, uint32, int32, signature, text, words, Value, Values, little_endian,
  encode_words, encode_value, encode, FitsValue, size_after, Fits, IoError, eof, unexpected_eof,
  Struc,
}

abbrev pub Reads : Type 0 → Type 0
Reads A = Result IoError (A × Text)

read_number : ℕ → Text → Reads ℕ
read_number zero bs = ok (0, bs)
read_number (suc k) [] = err eof
read_number (suc k) (b ∷ bs) = do (n, rest) ← read_number k bs; ok (b + 256 * n, rest)

read_bytes : ℕ → Text → Reads Text
read_bytes zero bs = ok ([], bs)
read_bytes (suc k) [] = err unexpected_eof
read_bytes (suc k) (b ∷ bs) = do (s, rest) ← read_bytes k bs; ok (b ∷ s, rest)

read_words : ℕ → Text → Reads (List ℕ)
read_words zero bs = ok ([], bs)
read_words (suc k) bs = do
  (w, rest) ← read_number 4 bs
  (ws, rest') ← read_words k rest
  ok (w ∷ ws, rest')

read_value : (t : Tag) → ℕ → Text → Reads (Value t)
read_value uint8 size = read_number 1
read_value uint16 size = read_number 2
read_value uint32 size = read_number 4
read_value int32 size = read_number 4
read_value signature size = read_bytes 3
read_value text size = read_bytes size
read_value words size = read_words size

unfoldable pub read_from : (ts : List Tag) → ℕ → Text → Reads (Values ts)
unfolding read_value read_number read_bytes read_words
read_from [] size bs = ok (tt, bs)
read_from (t ∷ ts) size bs = do
  (v, rest) ← read_value t size bs
  (vs, rest') ← read_from ts (size_after t v) rest
  ok ((v, vs), rest')

-- Reading what was encoded.
read_number-little_endian :
    (k n : ℕ) (rest : Text) → n < 256 ^ k → read_number k (little_endian k n ++ rest) ≡ ok (n, rest)
unfolding read_number little_endian
read_number-little_endian zero n rest h = let none_left : 0 ≡ n = omega arith in rw (← none_left)
read_number-little_endian (suc k) n rest h =
    let fits : n / 256 < 256 ^ k = omega (arith, pow-suc 256 k) in
    let whole : n % 256 + 256 * (n / 256) ≡ n = omega arith in
    rw (read_number-little_endian k (n / 256) rest fits) (ap (λ (m : ℕ). ok (m, rest)) whole)

read_bytes-append : (s rest : Text) → read_bytes (length s) (s ++ rest) ≡ ok (s, rest)
unfolding read_bytes
read_bytes-append [] rest = refl
read_bytes-append (b ∷ s) rest = rw (read_bytes-append s rest)

read_words-encode :
    (ws : List ℕ) (rest : Text)
    → All (λ w. w < 2 ^ 32) ws
    → read_words (length ws) (encode_words ws ++ rest) ≡ ok (ws, rest)
unfolding read_words encode_words
read_words-encode [] rest h = refl
read_words-encode (w ∷ ws) rest h =
    rw (read_number-little_endian 4 w (encode_words ws ++ rest) h.0)
      (rw (read_words-encode ws rest h.1))

read_value-encode :
    (t : Tag) (size : ℕ) (v : Value t) (rest : Text)
    → FitsValue t size v
    → read_value t size (encode_value t v ++ rest) ≡ ok (v, rest)
unfolding read_value encode_value
read_value-encode uint8 size v rest h = read_number-little_endian 1 v rest h
read_value-encode uint16 size v rest h = read_number-little_endian 2 v rest h
read_value-encode uint32 size v rest h = read_number-little_endian 4 v rest h
read_value-encode int32 size v rest h = read_number-little_endian 4 v rest h
read_value-encode signature size v rest h = rw (← h.0) (read_bytes-append v rest)
read_value-encode text size v rest h = rw (← h.0) (read_bytes-append v rest)
read_value-encode words size v rest h = rw (← h.0) (read_words-encode v rest h.1)

pub read_from-encode :
    (ts : List Tag) (size : ℕ) (vs : Values ts) (rest : Text)
    → Fits ts size vs
    → read_from ts size (encode ts vs ++ rest) ≡ ok (vs, rest)
unfolding read_from encode
read_from-encode [] size tt rest h = refl
read_from-encode (t ∷ ts) size (v, vs) rest h =
    rw (append_assoc, read_value-encode t size v (encode ts vs ++ rest) h.0)
      (rw (read_from-encode ts (size_after t v) vs rest h.1))

-- What is read stands in the input.
number_front :
    (k b m : ℕ) {bs : Text} (r : Text)
    → b < 256
    → bs ≡ little_endian k m ++ r
    → b ∷ bs ≡ little_endian (suc k) (b + 256 * m) ++ r
unfolding little_endian
number_front k b m r hb front =
    let low : (b + 256 * m) % 256 ≡ b = omega arith in
    let high : (b + 256 * m) / 256 ≡ m = omega arith in
    rw (low, high) (ap (λ (u : Text). b ∷ u) front)

read_number_sound :
    (k : ℕ) (bs : Text) (n : ℕ) (rest : Text)
    → All IsByte bs
    → read_number k bs ≡ ok (n, rest)
    → (bs ≡ little_endian k n ++ rest) × (n < 256 ^ k)
unfolding read_number little_endian
read_number_sound zero bs n rest hb e =
    subst (λ (p : ℕ × Text). (bs ≡ p.1) × (p.0 < 1)) (ok-injective e) (refl, omega arith)
read_number_sound (suc k) [] n rest hb e = cc
read_number_sound (suc k) (b ∷ bs) n rest hb e =
    let ((m, r), q, e') = >>=-steps (read_number k bs) _ e in
    let (front, fits) = read_number_sound k bs m r hb.1 q in
    subst (λ (p : ℕ × Text). (b ∷ bs ≡ little_endian (suc k) p.0 ++ p.1) × (p.0 < 256 ^ suc k))
      (ok-injective e') (number_front k b m r hb.0 front, omega (arith, pow-suc 256 k))

read_bytes_sound :
    (k : ℕ) (bs s rest : Text)
    → All IsByte bs
    → read_bytes k bs ≡ ok (s, rest)
    → (bs ≡ s ++ rest) × (length s ≡ k) × All IsByte s
unfolding read_bytes
read_bytes_sound zero bs s rest hb e =
    subst (λ (p : Text × Text). (bs ≡ p.0 ++ p.1) × (length p.0 ≡ 0) × All IsByte p.0)
      (ok-injective e) (refl, refl, tt)
read_bytes_sound (suc k) [] s rest hb e = cc
read_bytes_sound (suc k) (b ∷ bs) s rest hb e =
    let ((t, r), q, e') = >>=-steps (read_bytes k bs) _ e in
    let (front, long, bytes) = read_bytes_sound k bs t r hb.1 q in
    subst (λ (p : Text × Text). (b ∷ bs ≡ p.0 ++ p.1) × (length p.0 ≡ suc k) × All IsByte p.0)
      (ok-injective e') (ap (λ (u : Text). b ∷ u) front, ap suc long, (hb.0, bytes))

read_words_sound :
    (k : ℕ) (bs : Text) (ws : List ℕ) (rest : Text)
    → All IsByte bs
    → read_words k bs ≡ ok (ws, rest)
    → (bs ≡ encode_words ws ++ rest) × (length ws ≡ k) × All (λ w. w < 2 ^ 32) ws
unfolding read_words encode_words
read_words_sound zero bs ws rest hb e =
    subst
      (λ (p : List ℕ × Text).
        (bs ≡ encode_words p.0 ++ p.1) × (length p.0 ≡ 0) × All (λ w. w < 2 ^ 32) p.0)
      (ok-injective e) (refl, refl, tt)
read_words_sound (suc k) bs ws rest hb e =
    let ((w, r), q, e') = >>=-steps (read_number 4 bs) _ e in
    let ((vs, r'), q', e'') = >>=-steps (read_words k r) _ e' in
    let (front, fits) = read_number_sound 4 bs w r hb q in
    let hr = All-right IsByte (little_endian 4 w) r (rw front at hb) in
    let (inside, long, all) = read_words_sound k r vs r' hr q' in
    subst
      (λ (p : List ℕ × Text).
        (bs ≡ encode_words p.0 ++ p.1) × (length p.0 ≡ suc k) × All (λ w. w < 2 ^ 32) p.0)
      (ok-injective e'')
      (
        front
            ∙ ap (λ t. little_endian 4 w ++ t) inside
            ∙ sym (append_assoc (little_endian 4 w) (encode_words vs) r'),
        ap suc long,
        (fits, all),
      )

read_value_sound :
    (t : Tag) (size : ℕ) (bs : Text) (v : Value t) (rest : Text)
    → All IsByte bs
    → read_value t size bs ≡ ok (v, rest)
    → (bs ≡ encode_value t v ++ rest) × FitsValue t size v
unfolding read_value encode_value
read_value_sound uint8 size bs v rest hb e = read_number_sound 1 bs v rest hb e
read_value_sound uint16 size bs v rest hb e = read_number_sound 2 bs v rest hb e
read_value_sound uint32 size bs v rest hb e = read_number_sound 4 bs v rest hb e
read_value_sound int32 size bs v rest hb e = read_number_sound 4 bs v rest hb e
read_value_sound signature size bs v rest hb e =
    let (front, long, bytes) = read_bytes_sound 3 bs v rest hb e in (front, (long, bytes))
read_value_sound text size bs v rest hb e =
    let (front, long, bytes) = read_bytes_sound size bs v rest hb e in (front, (long, bytes))
read_value_sound words size bs v rest hb e =
    let (front, long, all) = read_words_sound size bs v rest hb e in (front, (long, all))

pub read_from_sound :
    (ts : List Tag) (size : ℕ) (bs : Text) (vs : Values ts) (rest : Text)
    → All IsByte bs
    → read_from ts size bs ≡ ok (vs, rest)
    → (bs ≡ encode ts vs ++ rest) × Fits ts size vs
unfolding read_from encode
read_from_sound [] size bs vs rest hb e = (ap (λ (p : Unit {0} × Text). p.1) (ok-injective e), tt)
read_from_sound (t ∷ ts) size bs vs rest hb e =
    let ((v, r), q, e') = >>=-steps (read_value t size bs) _ e in
    let ((us, r'), q', e'') = >>=-steps (read_from ts (size_after t v) r) _ e' in
    let (front, fits) = read_value_sound t size bs v r hb q in
    let hr = All-right IsByte (encode_value t v) r (rw front at hb) in
    let (inside, all) = read_from_sound ts (size_after t v) r us r' hr q' in
    subst
      (λ (p : Values (t ∷ ts) × Text). (bs ≡ encode (t ∷ ts) p.0 ++ p.1) × Fits (t ∷ ts) size p.0)
      (ok-injective e'')
      (
        front
            ∙ ap (λ u. encode_value t v ++ u) inside
            ∙ sym (append_assoc (encode_value t v) (encode ts us) r'),
        (fits, all),
      )

pub read_from-nil : (ts : List Tag) → read_from (uint32 ∷ ts) 0 [] ≡ err eof
unfolding read_from read_value read_number
read_from-nil ts = refl

abbrev pub reader : Struc
reader = record {
  unpack = λ ts bs. read_from ts 0 bs;
  unpack-encode = λ ts vs rest h. read_from-encode ts 0 vs rest h;
  unpack_sound = λ ts bs vs rest hb e. read_from_sound ts 0 bs vs rest hb e;
  unpack-nil = read_from-nil;
}
