-- ===== src/Inst.antt =====
-- inst.c: the instruction decoder, with the masks and shifts of its fields.
pub mod Fields
pub mod Decode
pub mod RoundTrip
pub mod Classes
use fakerv32i.Base.{
  ℕ, ◌+◌, ◌*◌, ◌/◌, ◌%◌, ◌^◌, bit_and, bit_or, Bool, true, false, ◌&&◌, ◌||◌, ◌==◌, if◌then◌else◌,
}
use fakerv32i.Rv32i.{
  RsType, reservation_station, load_buffer, store_buffer, RobOp, register, store, branch, jalr, hcf,
}
use fakerv32i.Rv32i.Opcode
use fakerv32i.Rv32i.InstOp
use fakerv32i.Rv32i.AluOp
use fakerv32i.Rvmath.{sign_extend}
use fakerv32i.Word.{shl_word, shr_word}

-- `inst_format_t`.
pub data Format : Type 0 where
  i u r j b s unimp : Format

-- `inst_t`.
pub record Inst : Type 0 where
  pub op : ℕ
  pub opcode : ℕ
  pub format : Format
  pub immediate : ℕ
  pub rs1 : ℕ
  pub rs2 : ℕ
  pub rd : ℕ
  pub width : ℕ

abbrev opcode_mask : ℕ
opcode_mask = 0b00000000000000000000000001111111

abbrev rd_mask : ℕ
rd_mask = 0b00000000000000000000111110000000

abbrev funct3_mask : ℕ
funct3_mask = 0b00000000000000000111000000000000

abbrev rs1_mask : ℕ
rs1_mask = 0b00000000000011111000000000000000

abbrev rs2_mask : ℕ
rs2_mask = 0b00000001111100000000000000000000

abbrev funct7_mask : ℕ
funct7_mask = 0b11111110000000000000000000000000

abbrev imm_mask : ℕ
imm_mask = bit_or funct7_mask rs2_mask

abbrev u_imm_mask : ℕ
u_imm_mask = bit_or (bit_or imm_mask rs1_mask) funct3_mask

-- The bit of funct7 that tells SUB from ADD and SRA from SRL.
abbrev funct7_bit_mask : ℕ
funct7_bit_mask = 0b0100000

abbrev opcode_size : ℕ
opcode_size = 7

abbrev funct3_size : ℕ
funct3_size = 3

abbrev branch_mask : ℕ
branch_mask = 0b10000

-- The instruction on which the program halts.
abbrev pub inst_magic_hcf : ℕ
inst_magic_hcf = 0x0ff00513

-- The macro `_inst_get`, with the mask and the shift that it looks up by name.
unfoldable pub inst_get : ℕ → ℕ → ℕ → ℕ
inst_get inst mask shift = shr_word (bit_and inst mask) shift

-- `_inst_jal_imm`.
pub inst_jal_imm : ℕ → ℕ
inst_jal_imm inst =
    let imm =
      bit_or
        (bit_or
          (bit_or (inst_get inst 0b10000000000000000000000000000000 11)
            (inst_get inst 0b00000000000011111111000000000000 0))
          (inst_get inst 0b01111111111000000000000000000000 20))
        (inst_get inst 0b00000000000100000000000000000000 9) in
    sign_extend imm 21

-- `_inst_branch_imm`.
pub inst_branch_imm : ℕ → ℕ
inst_branch_imm inst =
    let imm =
      bit_or
        (bit_or
          (bit_or (inst_get inst 0b10000000000000000000000000000000 19)
            (shl_word (inst_get inst 0b00000000000000000000000010000000 7) 11))
          (inst_get inst 0b01111110000000000000000000000000 20))
        (inst_get inst 0b00000000000000000000111100000000 7) in
    sign_extend imm 13

-- `_inst_store_imm`.
pub inst_store_imm : ℕ → ℕ
inst_store_imm inst =
    let imm = bit_or (shl_word (inst_get inst funct7_mask 25) 5) (inst_get inst rd_mask 7) in
    sign_extend imm 12

-- The numbers that the decoder computes before its `switch`.
pub record Parts : Type 0 where
  pub opcode : ℕ
  pub funct3 : ℕ
  pub imm : ℕ
  pub u_immediate : ℕ
  pub opc1 : ℕ
  pub opc2 : ℕ

unfoldable pub parts : ℕ → Parts
parts inst =
    let opcode = inst_get inst opcode_mask 0 in
    let funct3 = inst_get inst funct3_mask 12 in
    let funct7 = inst_get inst funct7_mask 25 in
    let opc1 = bit_or opcode (shl_word funct3 opcode_size) in
    record {
      opcode = opcode;
      funct3 = funct3;
      imm = inst_get inst imm_mask 20;
      u_immediate = bit_and inst u_imm_mask;
      opc1 = opc1;
      opc2 = bit_or opc1 (shl_word (inst_get funct7 funct7_bit_mask 5) (opcode_size + funct3_size));
    }

-- The fields that are set before the `switch`, whatever the opcode.
unfoldable pub base_inst : ℕ → Parts → Inst
base_inst inst p = record {
  op = 0;
  opcode = p.opcode;
  format = unimp;
  immediate = sign_extend p.imm 12;
  rs1 = inst_get inst rs1_mask 15;
  rs2 = inst_get inst rs2_mask 20;
  rd = inst_get inst rd_mask 7;
  width = p.funct3;
}

-- The branch for OPC_IMM, OPC_LOAD and OPC_JALR.
unfoldable pub decode_i : Parts → Inst → Inst
decode_i p res =
    let res = record res { format = i; op = p.opc1 } in
    if (p.opc1 == InstOp.slli) && (p.opc1 == InstOp.srli)
    then record res { immediate = res.rs2 }
    else if p.opc1 == InstOp.sltiu
    then record res { immediate = p.imm }
    else res

-- The `switch` of `inst_decode`.
unfoldable pub decode_switch : ℕ → Parts → Inst → Inst
decode_switch inst p res =
    if (p.opcode == Opcode.imm) || (p.opcode == Opcode.load) || (p.opcode == Opcode.jalr)
    then decode_i p res
    else if (p.opcode == Opcode.lui) || (p.opcode == Opcode.auipc)
    then record res { format = u; op = p.opcode; immediate = p.u_immediate }
    else if p.opcode == Opcode.op
    then record res { format = r; op = p.opc2 }
    else if p.opcode == Opcode.jal
    then record res { format = j; op = p.opcode; immediate = inst_jal_imm inst }
    else if p.opcode == Opcode.branch
    then record res { format = b; op = p.opc1; immediate = inst_branch_imm inst }
    else if p.opcode == Opcode.store
    then record res { format = s; op = p.opc1; immediate = inst_store_imm inst }
    else record res { format = unimp; op = InstOp.unimp }

unfoldable pub inst_decode : ℕ → Inst
inst_decode inst =
    let p = parts inst in
    let res = decode_switch inst p (base_inst inst p) in
    if inst == inst_magic_hcf then record res { op = InstOp.hcf } else res

unfoldable pub inst_type : Inst → RsType
inst_type inst =
    let opcode = bit_and inst.op opcode_mask in
    if inst.op == InstOp.hcf
    then reservation_station
    else if opcode == Opcode.load
    then load_buffer
    else if opcode == Opcode.store
    then store_buffer
    else reservation_station

unfoldable pub inst_rob_op : Inst → RobOp
inst_rob_op inst =
    let opcode = bit_and inst.op opcode_mask in
    if inst.op == InstOp.hcf
    then hcf
    else if opcode == Opcode.store
    then store
    else if opcode == Opcode.branch
    then branch
    else if opcode == Opcode.jalr
    then jalr
    else register

unfoldable pub inst_alu_op : Inst → ℕ
inst_alu_op inst =
    if inst.op == InstOp.hcf
    then AluOp.add
    else bit_or (shr_word inst.op opcode_size)
        (if inst.opcode == Opcode.branch then branch_mask else 0)

unfoldable pub inst_ls_op : Inst → ℕ
inst_ls_op inst = shr_word inst.op opcode_size
