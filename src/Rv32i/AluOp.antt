-- ===== src/Rv32i/AluOp.antt =====
-- `alu_op_t` of rv32i.h. The enumerators are numbers, since `inst_alu_op` computes them from an
-- instruction.
use fakerv32i.Base.{ℕ}

abbrev pub add : ℕ
add = 0

abbrev pub sll : ℕ
sll = 1

abbrev pub slt : ℕ
slt = 2

abbrev pub sltu : ℕ
sltu = 3

abbrev pub xor : ℕ
xor = 4

abbrev pub srl : ℕ
srl = 5

abbrev pub or : ℕ
or = 6

abbrev pub and : ℕ
and = 7

abbrev pub sub : ℕ
sub = 0b01000

abbrev pub sra : ℕ
sra = 0b01101

abbrev pub beq : ℕ
beq = 0b10000

abbrev pub bne : ℕ
bne = 0b10001

abbrev pub blt : ℕ
blt = 0b10100

abbrev pub bge : ℕ
bge = 0b10101

abbrev pub bltu : ℕ
bltu = 0b10110

abbrev pub bgeu : ℕ
bgeu = 0b10111
