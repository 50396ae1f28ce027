-- ===== src/Sym/Class.antt =====
-- class.go and class_string.go: the classes of definitions and their printed names.
use psx_mnd_sym.Prelude.{
  ℕ, ◌+◌, ◌-◌, List, [], ◌∷◌, ◌++◌, Text, codes, ◌==◌, leb, ◌&&◌, if◌then◌else◌, Option, none, some,
  get_elem?,
}
use psx_mnd_sym.Fmt.{dec}
use psx_mnd_sym.Sym.Kind.{slice}

-- Class is a uint16, with these constants.
abbrev pub auto : ℕ
auto = 0x0001

abbrev pub ext : ℕ
ext = 0x0002

abbrev pub stat : ℕ
stat = 0x0003

abbrev pub reg : ℕ
reg = 0x0004

abbrev pub label : ℕ
label = 0x0006

abbrev pub mos : ℕ
mos = 0x0008

abbrev pub arg : ℕ
arg = 0x0009

abbrev pub strtag : ℕ
strtag = 0x000a

abbrev pub mou : ℕ
mou = 0x000b

abbrev pub untag : ℕ
untag = 0x000c

abbrev pub tpdef : ℕ
tpdef = 0x000d

abbrev pub entag : ℕ
entag = 0x000f

abbrev pub moe : ℕ
moe = 0x0010

abbrev pub regparm : ℕ
regparm = 0x0011

abbrev pub field : ℕ
field = 0x0012

abbrev pub eos : ℕ
eos = 0x0066

abbrev pub class103 : ℕ
class103 = 0x0067

-- `name[index[i]:index[i+1]]`; an index out of range is a run-time panic, which `none` stands for.
abbrev pub indexed : Text → List ℕ → ℕ → Option Text
indexed name index i = elim (get_elem? index i) [
  | none ↦ none
  | some lo ↦ elim (get_elem? index (i + 1)) [ none ↦ none | some hi ↦ some (slice name lo hi) ]
]

-- The constants of class_string.go.
abbrev pub class_name_0 : Text
class_name_0 = codes "AUTOEXTSTATREG"

abbrev pub class_index_0 : List ℕ
class_index_0 = 0 ∷ 4 ∷ 7 ∷ 11 ∷ 14 ∷ []

abbrev pub class_name_2 : Text
class_name_2 = codes "MOSARGSTRTAGMOUUNTAGTPDEF"

abbrev pub class_index_2 : List ℕ
class_index_2 = 0 ∷ 3 ∷ 6 ∷ 12 ∷ 15 ∷ 20 ∷ 25 ∷ []

abbrev pub class_name_3 : Text
class_name_3 = codes "ENTAGMOEREGPARMFIELD"

abbrev pub class_index_3 : List ℕ
class_index_3 = 0 ∷ 5 ∷ 8 ∷ 15 ∷ 20 ∷ []

abbrev pub class_name_4 : Text
class_name_4 = codes "EOS103"

abbrev pub class_index_4 : List ℕ
class_index_4 = 0 ∷ 3 ∷ 6 ∷ []

-- Class.String
unfoldable pub class_string : ℕ → Option Text
unfolding dec
class_string i =
    if leb 1 i && leb i 4
    then indexed class_name_0 class_index_0 (i - 1)
    else if i == 6
    then some (codes "LABEL")
    else if leb 8 i && leb i 13
    then indexed class_name_2 class_index_2 (i - 8)
    else if leb 15 i && leb i 18
    then indexed class_name_3 class_index_3 (i - 15)
    else if leb 102 i && leb i 103
    then indexed class_name_4 class_index_4 (i - 102)
    else some (codes "Class(" ++ dec i ++ codes ")")
