-- ===== src/Rv32i/Opcode.antt =====
-- `opcodes_t` of inst.h.
use fakerv32i.Base.{ℕ}

abbrev pub load : ℕ
load = 0b0000011

abbrev pub store : ℕ
store = 0b0100011

abbrev pub imm : ℕ
imm = 0b0010011

abbrev pub op : ℕ
op = 0b0110011

abbrev pub auipc : ℕ
auipc = 0b0010111

abbrev pub lui : ℕ
lui = 0b0110111

abbrev pub branch : ℕ
branch = 0b1100011

abbrev pub jalr : ℕ
jalr = 0b1100111

abbrev pub jal : ℕ
jal = 0b1101111
