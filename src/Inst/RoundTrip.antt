-- ===== src/Inst/RoundTrip.antt =====
-- `inst_decode` inverts the encodings of the RV32I manual, instruction by instruction.
use fakerv32i.Base.{ℕ, ◌+◌, ◌*◌, ◌^◌, ◌≤◌, ◌<◌, ◌≡◌, ◌≢◌, arith}
use fakerv32i.Isa.{
  Arith, add, sub, sll, slt, sltu, xor, srl, sra, or, and, Compare, eq, ne, lt, ge, ltu, geu, Width,
  byte, half, word, byte_unsigned, half_unsigned, Instr, load, store, op_imm, op_reg, lui, auipc,
  branch, jalr, jal, extended,
}
use fakerv32i.Isa.Encoding.{encode, IsEncodable, width_funct3}
use fakerv32i.Rv32i.Opcode
use fakerv32i.Rv32i.InstOp
use fakerv32i.Rvmath.Extend.{sign_extend-extended}
use fakerv32i.Inst.{i, u, r, j, b, s, Inst, inst_decode, inst_magic_hcf}
use fakerv32i.Inst.Fields.{store_imm-fields, branch_imm-fields, jal_imm-fields}
use fakerv32i.Inst.Decode.{
  decode-Common, decode-imm, decode-u, decode-r, decode-j, decode-b, decode-s,
}

-- The enumerators of `inst_op_t` that inst.h lists for each instruction.
abbrev pub load_op : Width → ℕ
load_op byte = InstOp.lb
load_op half = InstOp.lh
load_op word = InstOp.lw
load_op byte_unsigned = InstOp.lbu
load_op half_unsigned = InstOp.lhu

-- There is none for the unsigned widths.
abbrev pub store_op : Width → ℕ
store_op byte = InstOp.sb
store_op half = InstOp.sh
store_op word = InstOp.sw
store_op w = InstOp.unimp

abbrev pub imm_op : Arith → ℕ
imm_op add = InstOp.addi
imm_op sll = InstOp.slli
imm_op slt = InstOp.slti
imm_op sltu = InstOp.sltiu
imm_op xor = InstOp.xori
imm_op srl = InstOp.srli
imm_op sra = InstOp.srai
imm_op or = InstOp.ori
imm_op and = InstOp.andi
imm_op sub = InstOp.unimp

abbrev pub reg_op : Arith → ℕ
reg_op add = InstOp.add
reg_op sub = InstOp.sub
reg_op sll = InstOp.sll
reg_op slt = InstOp.slt
reg_op sltu = InstOp.sltu
reg_op xor = InstOp.xor
reg_op srl = InstOp.srl
reg_op sra = InstOp.sra
reg_op or = InstOp.or
reg_op and = InstOp.and

abbrev pub branch_op : Compare → ℕ
branch_op eq = InstOp.beq
branch_op ne = InstOp.bne
branch_op lt = InstOp.blt
branch_op ge = InstOp.bge
branch_op ltu = InstOp.bltu
branch_op geu = InstOp.bgeu

-- The fields that the decoded form of an instruction should have.
abbrev pub Decodes : Instr → Inst → Type 0
Decodes (load w rd rs1 imm) d =
    (d.format ≡ i)
    × (d.opcode ≡ Opcode.load)
    × (d.op ≡ load_op w)
    × (d.rd ≡ rd)
    × (d.rs1 ≡ rs1)
    × (d.immediate ≡ extended 12 imm)
    × (d.width ≡ width_funct3 w)
Decodes (store w rs1 rs2 imm) d =
    (d.format ≡ s)
    × (d.opcode ≡ Opcode.store)
    × (d.op ≡ store_op w)
    × (d.rs1 ≡ rs1)
    × (d.rs2 ≡ rs2)
    × (d.immediate ≡ extended 12 imm)
    × (d.width ≡ width_funct3 w)
Decodes (op_imm op rd rs1 imm) d =
    (d.format ≡ i)
    × (d.opcode ≡ Opcode.imm)
    × (d.op ≡ imm_op op)
    × (d.rd ≡ rd)
    × (d.rs1 ≡ rs1)
    × (d.immediate ≡ extended 12 imm)
Decodes (op_reg op rd rs1 rs2) d =
    (d.format ≡ r)
    × (d.opcode ≡ Opcode.op)
    × (d.op ≡ reg_op op)
    × (d.rd ≡ rd)
    × (d.rs1 ≡ rs1)
    × (d.rs2 ≡ rs2)
Decodes (lui rd imm) d =
    (d.format ≡ u)
    × (d.opcode ≡ Opcode.lui)
    × (d.op ≡ InstOp.lui)
    × (d.rd ≡ rd)
    × (d.immediate ≡ imm * 2 ^ 12)
Decodes (auipc rd imm) d =
    (d.format ≡ u)
    × (d.opcode ≡ Opcode.auipc)
    × (d.op ≡ InstOp.auipc)
    × (d.rd ≡ rd)
    × (d.immediate ≡ imm * 2 ^ 12)
Decodes (branch c rs1 rs2 imm) d =
    (d.format ≡ b)
    × (d.opcode ≡ Opcode.branch)
    × (d.op ≡ branch_op c)
    × (d.rs1 ≡ rs1)
    × (d.rs2 ≡ rs2)
    × (d.immediate ≡ extended 13 imm)
Decodes (jalr rd rs1 imm) d =
    (d.format ≡ i)
    × (d.opcode ≡ Opcode.jalr)
    × (d.op ≡ InstOp.jalr)
    × (d.rd ≡ rd)
    × (d.rs1 ≡ rs1)
    × (d.immediate ≡ extended 12 imm)
Decodes (jal rd imm) d =
    (d.format ≡ j)
    × (d.opcode ≡ Opcode.jal)
    × (d.op ≡ InstOp.jal)
    × (d.rd ≡ rd)
    × (d.immediate ≡ extended 21 imm)

-- The decoder knows no SRAI, does not extend the sign for SLTIU, and takes one ADDI for the halt.
abbrev pub IsDecodable : Instr → Type 0
IsDecodable (op_imm sra rd rs1 imm) = ⊥
IsDecodable (op_imm sltu rd rs1 imm) = imm < 2 ^ 11
IsDecodable (op_imm op rd rs1 imm) = encode (op_imm op rd rs1 imm) ≢ inst_magic_hcf
IsDecodable x = Unit {0}

abbrev Inverts : Instr → Type 0
Inverts x = IsEncodable x → IsDecodable x → Decodes x (inst_decode (encode x))

decode-load : (w : Width) (rd rs1 imm : ℕ) → Inverts (load w rd rs1 imm)
unfolding encode
decode-load byte rd rs1 imm h k =
    let x = encode (load byte rd rs1 imm) in
    ground (arith, decode-Common x, decode-imm x, sign_extend-extended imm 12)
decode-load w rd rs1 imm h k =
    let x = encode (load w rd rs1 imm) in
    ground (arith, decode-Common x, decode-imm x, sign_extend-extended imm 12)

decode-store : (w : Width) (rs1 rs2 imm : ℕ) → Inverts (store w rs1 rs2 imm)
unfolding encode
decode-store byte rs1 rs2 imm h k =
    let x = encode (store byte rs1 rs2 imm) in
    ground (arith, decode-Common x, decode-s x, store_imm-fields x, sign_extend-extended imm 12)
decode-store w rs1 rs2 imm h k =
    let x = encode (store w rs1 rs2 imm) in
    ground (arith, decode-Common x, decode-s x, store_imm-fields x, sign_extend-extended imm 12)

decode-op_imm : (op : Arith) (rd rs1 imm : ℕ) → Inverts (op_imm op rd rs1 imm)
unfolding encode
decode-op_imm sub rd rs1 imm h k = absurd h.2
decode-op_imm sra rd rs1 imm h k = absurd k
decode-op_imm sltu rd rs1 imm h k =
    let x = encode (op_imm sltu rd rs1 imm) in ground (arith, decode-Common x, decode-imm x)
decode-op_imm op rd rs1 imm h k =
    let x = encode (op_imm op rd rs1 imm) in
    ground (arith, decode-Common x, decode-imm x, sign_extend-extended imm 12)

decode-op_reg : (op : Arith) (rd rs1 rs2 : ℕ) → Inverts (op_reg op rd rs1 rs2)
unfolding encode
decode-op_reg add rd rs1 rs2 h k =
    let x = encode (op_reg add rd rs1 rs2) in ground (arith, decode-Common x, decode-r x)
decode-op_reg op rd rs1 rs2 h k =
    let x = encode (op_reg op rd rs1 rs2) in ground (arith, decode-Common x, decode-r x)

decode-lui : (rd imm : ℕ) → Inverts (lui rd imm)
unfolding encode
decode-lui rd imm h k = let x = encode (lui rd imm) in ground (arith, decode-Common x, decode-u x)

decode-auipc : (rd imm : ℕ) → Inverts (auipc rd imm)
unfolding encode
decode-auipc rd imm h k =
    let x = encode (auipc rd imm) in ground (arith, decode-Common x, decode-u x)

decode-branch : (c : Compare) (rs1 rs2 imm : ℕ) → Inverts (branch c rs1 rs2 imm)
unfolding encode
decode-branch eq rs1 rs2 imm h k =
    let x = encode (branch eq rs1 rs2 imm) in
    ground (arith, decode-Common x, decode-b x, branch_imm-fields x, sign_extend-extended imm 13)
decode-branch c rs1 rs2 imm h k =
    let x = encode (branch c rs1 rs2 imm) in
    ground (arith, decode-Common x, decode-b x, branch_imm-fields x, sign_extend-extended imm 13)

decode-jalr : (rd rs1 imm : ℕ) → Inverts (jalr rd rs1 imm)
unfolding encode
decode-jalr rd rs1 imm h k =
    let x = encode (jalr rd rs1 imm) in
    ground (arith, decode-Common x, decode-imm x, sign_extend-extended imm 12)

decode-jal : (rd imm : ℕ) → Inverts (jal rd imm)
unfolding encode
decode-jal rd imm h k =
    let x = encode (jal rd imm) in
    ground (arith, decode-Common x, decode-j x, jal_imm-fields x, sign_extend-extended imm 21)

-- Decoding the word of an instruction gives back its format, its operation as inst.h numbers it, its
-- registers and the sign-extended pattern of its immediate. Excepted are SRAI, SLTIU with a negative
-- immediate, and the ADDI that stands for the halt.
pub inst_decode-encode :
    (x : Instr) → IsEncodable x → IsDecodable x → Decodes x (inst_decode (encode x))
inst_decode-encode (load w rd rs1 imm) = decode-load w rd rs1 imm
inst_decode-encode (store w rs1 rs2 imm) = decode-store w rs1 rs2 imm
inst_decode-encode (op_imm op rd rs1 imm) = decode-op_imm op rd rs1 imm
inst_decode-encode (op_reg op rd rs1 rs2) = decode-op_reg op rd rs1 rs2
inst_decode-encode (lui rd imm) = decode-lui rd imm
inst_decode-encode (auipc rd imm) = decode-auipc rd imm
inst_decode-encode (branch c rs1 rs2 imm) = decode-branch c rs1 rs2 imm
inst_decode-encode (jalr rd rs1 imm) = decode-jalr rd rs1 imm
inst_decode-encode (jal rd imm) = decode-jal rd imm

-- The word of every SRAI is decoded as an SRLI whose immediate is 1024 more than the shift count.
pub inst_decode-srai :
    (rd rs1 imm : ℕ)
    → IsEncodable (op_imm sra rd rs1 imm)
    → let d = inst_decode (encode (op_imm sra rd rs1 imm)) in
      (d.op ≡ InstOp.srli) × (d.rd ≡ rd) × (d.rs1 ≡ rs1) × (d.immediate ≡ imm + 1024)
unfolding encode
inst_decode-srai rd rs1 imm h =
    let x = encode (op_imm sra rd rs1 imm) in
    ground (arith, decode-Common x, decode-imm x, sign_extend-extended (imm + 1024) 12)

-- The word of every SLTIU with a negative immediate is decoded with the immediate not extended, which
-- is not the pattern of that immediate.
pub inst_decode-sltiu_negative :
    (rd rs1 imm : ℕ)
    → IsEncodable (op_imm sltu rd rs1 imm)
    → 2 ^ 11 ≤ imm
    → let d = inst_decode (encode (op_imm sltu rd rs1 imm)) in
      (d.op ≡ InstOp.sltiu) × (d.immediate ≡ imm) × (imm ≢ extended 12 imm)
unfolding encode
inst_decode-sltiu_negative rd rs1 imm h negative =
    let x = encode (op_imm sltu rd rs1 imm) in ground (arith, decode-Common x, decode-imm x)
