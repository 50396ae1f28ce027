-- ===== src/Sym/Wire.antt =====
-- The byte layouts that the `struc:` tags of symbol.go and file.go declare, and what the program
-- relies on of the package github.com/lunixbochs/struc, which is not part of the repository.
use psx_mnd_sym.Prelude.{
  ℕ, zero, suc, ◌/◌, ◌%◌, ◌^◌, ◌<◌, ◌≡◌, List, [], ◌∷◌, ◌++◌, Text, IsByte, All, length, Result, ok,
  err,
}

-- The tags that occur. `text` and `words` are fields whose length stands in the field before them,
-- which is the one tagged `sizeof=`.
pub data Tag : Type 0 where
  uint8 uint16 uint32 int32 signature text words : Tag

-- An int32 is given by its 32 bits.
abbrev pub Value : Tag → Type 0
Value signature = Text
Value text = Text
Value words = List ℕ
Value _ = ℕ

abbrev pub Values : List Tag → Type 0
Values [] = Unit {0}
Values (t ∷ ts) = Value t × Values ts

-- A number in `k` bytes, the lowest first.
unfoldable pub little_endian : ℕ → ℕ → Text
little_endian zero n = []
little_endian (suc k) n = n % 256 ∷ little_endian k (n / 256)

unfoldable pub encode_words : List ℕ → Text
unfolding little_endian
encode_words [] = []
encode_words (w ∷ ws) = little_endian 4 w ++ encode_words ws

unfoldable pub encode_value : (t : Tag) → Value t → Text
unfolding little_endian encode_words
encode_value uint8 n = little_endian 1 n
encode_value uint16 n = little_endian 2 n
encode_value uint32 n = little_endian 4 n
encode_value int32 n = little_endian 4 n
encode_value signature s = s
encode_value text s = s
encode_value words ws = encode_words ws

unfoldable pub encode : (ts : List Tag) → Values ts → Text
unfolding encode_value
encode [] vs = []
encode (t ∷ ts) (v, vs) = encode_value t v ++ encode ts vs

-- Values in the range of their tags, the lengths as the fields before say. `size` is the number in
-- the field before.
abbrev pub FitsValue : (t : Tag) → ℕ → Value t → Type 0
FitsValue uint8 size n = n < 2 ^ 8
FitsValue uint16 size n = n < 2 ^ 16
FitsValue uint32 size n = n < 2 ^ 32
FitsValue int32 size n = n < 2 ^ 32
FitsValue signature size s = (length s ≡ 3) × All IsByte s
FitsValue text size s = (length s ≡ size) × All IsByte s
FitsValue words size ws = (length ws ≡ size) × All (λ w. w < 2 ^ 32) ws

abbrev pub size_after : (t : Tag) → Value t → ℕ
size_after uint8 n = n
size_after uint16 n = n
size_after uint32 n = n
size_after int32 n = n
size_after _ v = 0

abbrev pub Fits : (ts : List Tag) → ℕ → Values ts → Type 0
Fits [] size vs = Unit {0}
Fits (t ∷ ts) size (v, vs) = FitsValue t size v × Fits ts (size_after t v) vs

-- The errors of a reader.
pub data IoError : Type 0 where
  eof unexpected_eof : IoError

-- struc.Unpack(r, &body), where the tags are those of the fields of `body`: the values, and what `r`
-- still holds. The laws: it reads the fields in their order, without padding, numbers little-endian;
-- and where a number is due at the end of the input it reports io.EOF.
pub record Struc : Type 0 where
  pub unpack : (ts : List Tag) → Text → Result IoError (Values ts × Text)
  pub unpack-encode :
      (ts : List Tag) (vs : Values ts) (rest : Text)
      → Fits ts 0 vs
      → unpack ts (encode ts vs ++ rest) ≡ ok (vs, rest)
  pub unpack_sound :
      (ts : List Tag) (bs : Text) (vs : Values ts) (rest : Text)
      → All IsByte bs
      → unpack ts bs ≡ ok (vs, rest)
      → (bs ≡ encode ts vs ++ rest) × Fits ts 0 vs
  pub unpack-nil : (ts : List Tag) → unpack (uint32 ∷ ts) [] ≡ err eof
