-- ===== src/Rv32i/InstOp.antt =====
-- `inst_op_t` of inst.h. The enumerators are numbers, since the decoder computes them from the fields.
use fakerv32i.Base.{ℕ}

abbrev pub lb : ℕ
lb = 0b0000000011

abbrev pub lh : ℕ
lh = 0b0010000011

abbrev pub lw : ℕ
lw = 0b0100000011

abbrev pub lbu : ℕ
lbu = 0b1000000011

abbrev pub lhu : ℕ
lhu = 0b1010000011

abbrev pub sb : ℕ
sb = 0b0000100011

abbrev pub sh : ℕ
sh = 0b0010100011

abbrev pub sw : ℕ
sw = 0b0100100011

abbrev pub addi : ℕ
addi = 0b00000010011

abbrev pub slli : ℕ
slli = 0b00010010011

abbrev pub slti : ℕ
slti = 0b00100010011

abbrev pub sltiu : ℕ
sltiu = 0b00110010011

abbrev pub xori : ℕ
xori = 0b01000010011

abbrev pub srli : ℕ
srli = 0b01010010011

abbrev pub srai : ℕ
srai = 0b11010010011

abbrev pub ori : ℕ
ori = 0b01100010011

abbrev pub andi : ℕ
andi = 0b01110010011

abbrev pub auipc : ℕ
auipc = 0b0010111

abbrev pub add : ℕ
add = 0b00000110011

abbrev pub sub : ℕ
sub = 0b10000110011

abbrev pub sll : ℕ
sll = 0b00010110011

abbrev pub slt : ℕ
slt = 0b00100110011

abbrev pub sltu : ℕ
sltu = 0b00110110011

abbrev pub xor : ℕ
xor = 0b01000110011

abbrev pub srl : ℕ
srl = 0b01010110011

abbrev pub sra : ℕ
sra = 0b11010110011

abbrev pub or : ℕ
or = 0b01100110011

abbrev pub and : ℕ
and = 0b01110110011

abbrev pub lui : ℕ
lui = 0b0110111

abbrev pub beq : ℕ
beq = 0b0001100011

abbrev pub bne : ℕ
bne = 0b0011100011

abbrev pub blt : ℕ
blt = 0b1001100011

abbrev pub bge : ℕ
bge = 0b1011100011

abbrev pub bltu : ℕ
bltu = 0b1101100011

abbrev pub bgeu : ℕ
bgeu = 0b1111100011

abbrev pub jalr : ℕ
jalr = 0b1100111

abbrev pub jal : ℕ
jal = 0b1101111

abbrev pub hcf : ℕ
hcf = 0xfee1dead

abbrev pub unimp : ℕ
unimp = 0xbada991e
