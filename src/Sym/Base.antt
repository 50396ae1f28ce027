-- ===== src/Sym/Base.antt =====
-- The constants of `Base` in type.go, a uint8.
use psx_mnd_sym.Prelude.{ℕ}

abbrev pub null : ℕ
null = 0x0

abbrev pub void : ℕ
void = 0x1

abbrev pub char : ℕ
char = 0x2

abbrev pub short : ℕ
short = 0x3

abbrev pub int : ℕ
int = 0x4

abbrev pub long : ℕ
long = 0x5

abbrev pub struct : ℕ
struct = 0x8

abbrev pub union : ℕ
union = 0x9

abbrev pub enum : ℕ
enum = 0xa

abbrev pub uchar : ℕ
uchar = 0xc

abbrev pub ushort : ℕ
ushort = 0xd

abbrev pub uint : ℕ
uint = 0xe

abbrev pub ulong : ℕ
ulong = 0xf
