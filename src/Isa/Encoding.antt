-- ===== src/Isa/Encoding.antt =====
-- The encodings of the RV32I instructions, as sums of fields.
use fakerv32i.Base.{ℕ, ◌+◌, ◌*◌, ◌/◌, ◌%◌, ◌^◌, ◌<◌, ◌≡◌}
use fakerv32i.Isa.{
  Arith, add, sub, sll, slt, sltu, xor, srl, sra, or, and, Compare, eq, ne, lt, ge, ltu, geu, Width,
  byte, half, word, byte_unsigned, half_unsigned, Instr, load, store, op_imm, op_reg, lui, auipc,
  branch, jalr, jal,
}

abbrev pub width_funct3 : Width → ℕ
width_funct3 byte = 0
width_funct3 half = 1
width_funct3 word = 2
width_funct3 byte_unsigned = 4
width_funct3 half_unsigned = 5

abbrev pub arith_funct3 : Arith → ℕ
arith_funct3 add = 0
arith_funct3 sub = 0
arith_funct3 sll = 1
arith_funct3 slt = 2
arith_funct3 sltu = 3
arith_funct3 xor = 4
arith_funct3 srl = 5
arith_funct3 sra = 5
arith_funct3 or = 6
arith_funct3 and = 7

-- Bit 30 of the word, which SUB and SRA set.
abbrev pub arith_bit : Arith → ℕ
arith_bit sub = 1
arith_bit sra = 1
arith_bit op = 0

abbrev pub compare_funct3 : Compare → ℕ
compare_funct3 eq = 0
compare_funct3 ne = 1
compare_funct3 lt = 4
compare_funct3 ge = 5
compare_funct3 ltu = 6
compare_funct3 geu = 7

-- The encoding formats: each field at its place in the word.
abbrev pub r_word : ℕ → ℕ → ℕ → ℕ → ℕ → ℕ → ℕ
r_word opcode rd funct3 rs1 rs2 funct7 =
    opcode + rd * 2 ^ 7 + funct3 * 2 ^ 12 + rs1 * 2 ^ 15 + rs2 * 2 ^ 20 + funct7 * 2 ^ 25

abbrev pub i_word : ℕ → ℕ → ℕ → ℕ → ℕ → ℕ
i_word opcode rd funct3 rs1 imm =
    opcode + rd * 2 ^ 7 + funct3 * 2 ^ 12 + rs1 * 2 ^ 15 + imm * 2 ^ 20

abbrev pub s_word : ℕ → ℕ → ℕ → ℕ → ℕ → ℕ
s_word opcode funct3 rs1 rs2 imm = r_word opcode (imm % 2 ^ 5) funct3 rs1 rs2 (imm / 2 ^ 5)

abbrev pub b_word : ℕ → ℕ → ℕ → ℕ → ℕ → ℕ
b_word opcode funct3 rs1 rs2 imm =
    r_word opcode (imm / 2 ^ 11 % 2 + imm / 2 % 2 ^ 4 * 2) funct3 rs1 rs2
      (imm / 2 ^ 5 % 2 ^ 6 + imm / 2 ^ 12 * 2 ^ 6)

abbrev pub u_word : ℕ → ℕ → ℕ → ℕ
u_word opcode rd imm = opcode + rd * 2 ^ 7 + imm * 2 ^ 12

abbrev pub j_word : ℕ → ℕ → ℕ → ℕ
j_word opcode rd imm = u_word opcode rd (
    imm / 2 ^ 12 % 2 ^ 8
    + imm / 2 ^ 11 % 2 * 2 ^ 8
    + imm / 2 % 2 ^ 10 * 2 ^ 9
    + imm / 2 ^ 20 * 2 ^ 19)

unfoldable pub encode : Instr → ℕ
encode (load w rd rs1 imm) = i_word 0x03 rd (width_funct3 w) rs1 imm
encode (store w rs1 rs2 imm) = s_word 0x23 (width_funct3 w) rs1 rs2 imm
encode (op_imm op rd rs1 imm) = i_word 0x13 rd (arith_funct3 op) rs1 (imm + arith_bit op * 2 ^ 10)
encode (op_reg op rd rs1 rs2) = r_word 0x33 rd (arith_funct3 op) rs1 rs2 (arith_bit op * 2 ^ 5)
encode (lui rd imm) = u_word 0x37 rd imm
encode (auipc rd imm) = u_word 0x17 rd imm
encode (branch c rs1 rs2 imm) = b_word 0x63 (compare_funct3 c) rs1 rs2 imm
encode (jalr rd rs1 imm) = i_word 0x67 rd 0 rs1 imm
encode (jal rd imm) = j_word 0x6f rd imm

-- An immediate of an operation: a shift takes a count below 32, and SUB has no immediate form.
abbrev pub IsImmediate : Arith → ℕ → Type 0
IsImmediate sub imm = ⊥
IsImmediate sll imm = imm < 32
IsImmediate srl imm = imm < 32
IsImmediate sra imm = imm < 32
IsImmediate op imm = imm < 2 ^ 12

abbrev pub IsStored : Width → Type 0
IsStored byte_unsigned = ⊥
IsStored half_unsigned = ⊥
IsStored w = Unit {0}

-- The instructions that have an encoding: their fields fit.
abbrev pub IsEncodable : Instr → Type 0
IsEncodable (load w rd rs1 imm) = (rd < 32) × (rs1 < 32) × (imm < 2 ^ 12)
IsEncodable (store w rs1 rs2 imm) = (rs1 < 32) × (rs2 < 32) × (imm < 2 ^ 12) × IsStored w
IsEncodable (op_imm op rd rs1 imm) = (rd < 32) × (rs1 < 32) × IsImmediate op imm
IsEncodable (op_reg op rd rs1 rs2) = (rd < 32) × (rs1 < 32) × (rs2 < 32)
IsEncodable (lui rd imm) = (rd < 32) × (imm < 2 ^ 20)
IsEncodable (auipc rd imm) = (rd < 32) × (imm < 2 ^ 20)
IsEncodable (branch c rs1 rs2 imm) = (rs1 < 32) × (rs2 < 32) × (imm < 2 ^ 13) × (imm % 2 ≡ 0)
IsEncodable (jalr rd rs1 imm) = (rd < 32) × (rs1 < 32) × (imm < 2 ^ 12)
IsEncodable (jal rd imm) = (rd < 32) × (imm < 2 ^ 21) × (imm % 2 ≡ 0)
