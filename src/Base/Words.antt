-- ===== src/Base/Words.antt =====
-- The machine words of the C sources: a word is a native number, and the arithmetic on it wraps.
use Prim.Native.Nat.{ℕ, ◌+◌, ◌-◌, ◌%◌}

-- One more than the largest DWORD and the largest QWORD.
abbrev pub dword : ℕ
dword = 0x1_0000_0000

abbrev pub qword : ℕ
qword = 0x1_0000_0000_0000_0000

-- `(QWORD)-1`
abbrev pub qword_max : ℕ
qword_max = 0xffff_ffff_ffff_ffff

abbrev pub add32 : ℕ → ℕ → ℕ
add32 a b = (a + b) % dword

abbrev pub sub32 : ℕ → ℕ → ℕ
sub32 a b = (a + dword - b) % dword

abbrev pub add64 : ℕ → ℕ → ℕ
add64 a b = (a + b) % qword

abbrev pub sub64 : ℕ → ℕ → ℕ
sub64 a b = (a + qword - b) % qword
