-- ===== src/Isa.antt =====
-- What the RV32I manual says of each instruction, described without the program's tables and masks:
-- the instructions as data and their operations on 32-bit patterns.
pub mod Encoding
use fakerv32i.Base.{
  ℕ, ◌+◌, ◌-◌, ◌*◌, ◌/◌, ◌%◌, ◌^◌, bit_and, bit_or, bit_xor, Bool, not, ◌==◌, ltb, of_bool, ltb_ℤ,
  ℤ, pos, negsuc,
}
use fakerv32i.Word.{signed, signed_word}

-- The operations of the OP and OP-IMM instructions.
pub data Arith : Type 0 where
  add sub sll slt sltu xor srl sra or and : Arith

pub data Compare : Type 0 where
  eq ne lt ge ltu geu : Compare

-- The 32-bit pattern of an integer that is at least -(2 ^ 32).
abbrev pub pattern : ℤ → ℕ
pattern (pos n) = n % 2 ^ 32
pattern (negsuc n) = 2 ^ 32 - 1 - n

-- The integer quotient by a power of two, rounded down.
abbrev pub floor_shift : ℤ → ℕ → ℤ
floor_shift (pos n) s = pos (n / 2 ^ s)
floor_shift (negsuc n) s = negsuc (n / 2 ^ s)

-- A shift uses the low five bits of its second operand.
unfoldable pub arith_result : Arith → ℕ → ℕ → ℕ
arith_result add a b = (a + b) % 2 ^ 32
arith_result sub a b = (a + 2 ^ 32 - b) % 2 ^ 32
arith_result sll a b = a * 2 ^ (b % 32) % 2 ^ 32
arith_result slt a b = of_bool (ltb_ℤ (signed_word a) (signed_word b))
arith_result sltu a b = of_bool (ltb a b)
arith_result xor a b = bit_xor a b
arith_result srl a b = a / 2 ^ (b % 32)
arith_result sra a b = pattern (floor_shift (signed_word a) (b % 32))
arith_result or a b = bit_or a b
arith_result and a b = bit_and a b

unfoldable pub holds : Compare → ℕ → ℕ → Bool
holds eq a b = a == b
holds ne a b = not (a == b)
holds lt a b = ltb_ℤ (signed_word a) (signed_word b)
holds ge a b = not (ltb_ℤ (signed_word a) (signed_word b))
holds ltu a b = ltb a b
holds geu a b = not (ltb a b)

-- The 32-bit pattern of a sign-extended immediate of `width` bits.
abbrev pub extended : ℕ → ℕ → ℕ
extended width imm = pattern (signed width imm)

-- The widths of loads and stores.
pub data Width : Type 0 where
  byte half word byte_unsigned half_unsigned : Width

-- Registers are numbers below 32; an immediate is the pattern of its bits, at the width that the format
-- has for it (12 for `load`, `store`, `op_imm` and `jalr`, 13 for `branch`, 20 for `lui` and `auipc`,
-- 21 for `jal`).
pub data Instr : Type 0 where
  load : Width → ℕ → ℕ → ℕ → Instr
  store : Width → ℕ → ℕ → ℕ → Instr
  op_imm : Arith → ℕ → ℕ → ℕ → Instr
  op_reg : Arith → ℕ → ℕ → ℕ → Instr
  lui : ℕ → ℕ → Instr
  auipc : ℕ → ℕ → Instr
  branch : Compare → ℕ → ℕ → ℕ → Instr
  jalr : ℕ → ℕ → ℕ → Instr
  jal : ℕ → ℕ → Instr
