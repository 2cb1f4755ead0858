-- ===== src/Word.antt =====
-- Machine words of rv32i.h: `word_t` and `addr_t` are natural numbers below 2 ^ 32, and
-- `signed_word_t` is the integer that such a pattern stands for.
use fakerv32i.Base.{ℕ, ◌+◌, ◌-◌, ◌*◌, ◌/◌, ◌%◌, ◌^◌, ltb, if◌then◌else◌, ℤ, pos, negsuc}

abbrev pub word_mod : ℕ
word_mod = 2 ^ 32

abbrev pub u8 : ℕ → ℕ
u8 n = n % 2 ^ 8

abbrev pub u16 : ℕ → ℕ
u16 n = n % 2 ^ 16

abbrev pub u32 : ℕ → ℕ
u32 n = n % 2 ^ 32

-- `a + b` and `a - b` on `uint32_t`.
abbrev pub add_word : ℕ → ℕ → ℕ
add_word a b = u32 (a + b)

abbrev pub sub_word : ℕ → ℕ → ℕ
sub_word a b = u32 (a + word_mod - b)

-- `x << n` and `x >> n` for a count below 32.
abbrev pub shl_word : ℕ → ℕ → ℕ
shl_word x n = u32 (x * 2 ^ n)

abbrev pub shr_word : ℕ → ℕ → ℕ
shr_word x n = x / 2 ^ n

-- The integer that the low `width` bits stand for in two's complement.
abbrev pub signed : ℕ → ℕ → ℤ
signed width n = if ltb n (2 ^ (width - 1)) then pos n else negsuc (2 ^ width - n - 1)

-- The conversion from `word_t` to `signed_word_t`.
abbrev pub signed_word : ℕ → ℤ
signed_word = signed 32
