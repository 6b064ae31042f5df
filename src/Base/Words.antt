-- ===== src/Base/Words.antt =====
-- The C++ types u32 and i32: a word is its bit pattern, a number below 2 ^ 32, and the arithmetic
-- wraps round as the source's does.
use psx.Base.{ℕ, ◌+◌, ◌-◌, ◌*◌, ◌/◌, ◌%◌, ◌^◌, ◌<◌, Bool, ltb, if◌then◌else◌}
use psx.Base.Int.{ℤ, pos, negsuc, ltb_ℤ}

-- A 32-bit pattern.
abbrev pub IsWord : ℕ → Type 0
IsWord x = x < 2 ^ 32

abbrev pub all_ones : ℕ
all_ones = 0xffff_ffff

-- u32 sums and differences.
abbrev pub add32 : ℕ → ℕ → ℕ
add32 a b = (a + b) % 2 ^ 32

abbrev pub sub32 : ℕ → ℕ → ℕ
sub32 a b = (a + 2 ^ 32 - b) % 2 ^ 32

-- The same on a u64.
abbrev pub add64 : ℕ → ℕ → ℕ
add64 a b = (a + b) % 2 ^ 64

abbrev pub sub64 : ℕ → ℕ → ℕ
sub64 a b = (a + 2 ^ 64 - b) % 2 ^ 64

-- x << n and x >> n on a u32.
abbrev pub shl32 : ℕ → ℕ → ℕ
shl32 x n = x * 2 ^ n % 2 ^ 32

abbrev pub shr32 : ℕ → ℕ → ℕ
shr32 x n = x / 2 ^ n

-- (i32)x >> n: the vacated bits take the sign.
unfoldable pub sra32 : ℕ → ℕ → ℕ
sra32 x n = if ltb x (2 ^ 31) then x / 2 ^ n else all_ones - (all_ones - x) / 2 ^ n

-- (i32)(i16)x and (i32)(i8)x as words.
abbrev pub sext16 : ℕ → ℕ
sext16 x = if ltb (x % 2 ^ 16) (2 ^ 15) then x % 2 ^ 16 else x % 2 ^ 16 + (2 ^ 32 - 2 ^ 16)

abbrev pub sext8 : ℕ → ℕ
sext8 x = if ltb (x % 2 ^ 8) (2 ^ 7) then x % 2 ^ 8 else x % 2 ^ 8 + (2 ^ 32 - 2 ^ 8)

-- The integer that an i32 stands for, and the word of an integer.
abbrev pub signed32 : ℕ → ℤ
signed32 w = if ltb w (2 ^ 31) then pos w else negsuc (2 ^ 32 - w - 1)

abbrev pub to_word : ℤ → ℕ
to_word (pos n) = n % 2 ^ 32
to_word (negsuc n) = 2 ^ 32 - 1 - n % 2 ^ 32

-- (i32)a < (i32)b.
abbrev pub slt32 : ℕ → ℕ → Bool
slt32 a b = ltb_ℤ (signed32 a) (signed32 b)

-- Bit `i` of a register, and the register with that bit given a new value (a C++ bit-field).
abbrev pub bit : ℕ → ℕ → ℕ
bit i x = x / 2 ^ i % 2

abbrev pub set_bit : ℕ → ℕ → ℕ → ℕ
set_bit i v x = x / 2 ^ (i + 1) * 2 ^ (i + 1) + v * 2 ^ i + x % 2 ^ i
