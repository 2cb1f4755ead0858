-- ===== src/Inst/Decode.antt =====
-- `inst_decode` on the words of the RV32I manual.
use fakerv32i.Base.{ℕ, ◌+◌, ◌*◌, ◌/◌, ◌%◌, ◌^◌, ◌≡◌, ◌≢◌, ◌⊎◌, refl, arith}
use fakerv32i.Rv32i.Opcode
use fakerv32i.Rv32i.InstOp
use fakerv32i.Rvmath.{sign_extend}
use fakerv32i.Inst.{
  i, u, r, j, b, s, Inst, inst_decode, decode_switch, decode_i, base_inst, inst_store_imm,
  inst_branch_imm, inst_jal_imm, inst_magic_hcf,
}
use fakerv32i.Inst.Fields.{parts-fields, get-rd, get-rs1, get-rs2}

-- The fields that no opcode changes.
pub record Common (w : ℕ) (d : Inst) : Type 0 where
  pub opcode : d.opcode ≡ w % 2 ^ 7
  pub rd : d.rd ≡ w / 2 ^ 7 % 2 ^ 5
  pub rs1 : d.rs1 ≡ w / 2 ^ 15 % 2 ^ 5
  pub rs2 : d.rs2 ≡ w / 2 ^ 20 % 2 ^ 5
  pub width : d.width ≡ w / 2 ^ 12 % 2 ^ 3

pub decode-Common : (w : ℕ) → Common w (inst_decode w)
unfolding inst_decode decode_switch decode_i base_inst
decode-Common w = ground (arith, parts-fields w, get-rd w, get-rs1 w, get-rs2 w)

-- An I-type word: all but SLTIU extend the sign of the immediate.
pub decode-imm :
    (w : ℕ)
    → (w % 2 ^ 7 ≡ Opcode.imm) ⊎ ((w % 2 ^ 7 ≡ Opcode.load) ⊎ (w % 2 ^ 7 ≡ Opcode.jalr))
    → w ≢ inst_magic_hcf
    → let d = inst_decode w in
      let op = w % 2 ^ 7 + w / 2 ^ 12 % 2 ^ 3 * 2 ^ 7 in
      (d.format ≡ i)
      × (d.op ≡ op)
      × (op ≢ InstOp.sltiu → d.immediate ≡ sign_extend (w / 2 ^ 20 % 2 ^ 12) 12)
      × (op ≡ InstOp.sltiu → d.immediate ≡ w / 2 ^ 20 % 2 ^ 12)
unfolding inst_decode decode_switch decode_i base_inst
decode-imm w h other = ground (arith, parts-fields w)

pub decode-u :
    (w : ℕ)
    → (w % 2 ^ 7 ≡ Opcode.lui) ⊎ (w % 2 ^ 7 ≡ Opcode.auipc)
    → let d = inst_decode w in
      (d.format ≡ u) × (d.op ≡ w % 2 ^ 7) × (d.immediate ≡ w / 2 ^ 12 % 2 ^ 20 * 2 ^ 12)
unfolding inst_decode decode_switch base_inst
decode-u w h = ground (arith, parts-fields w)

pub decode-r :
    (w : ℕ)
    → w % 2 ^ 7 ≡ Opcode.op
    → let d = inst_decode w in
      (d.format ≡ r) × (d.op ≡ w % 2 ^ 7 + w / 2 ^ 12 % 2 ^ 3 * 2 ^ 7 + w / 2 ^ 30 % 2 * 2 ^ 10)
unfolding inst_decode decode_switch base_inst
decode-r w h = ground (arith, parts-fields w)

pub decode-j :
    (w : ℕ)
    → w % 2 ^ 7 ≡ Opcode.jal
    → let d = inst_decode w in (d.format ≡ j) × (d.op ≡ InstOp.jal) × (d.immediate ≡ inst_jal_imm w)
unfolding inst_decode decode_switch base_inst
decode-j w h = ground (arith, parts-fields w)

pub decode-b :
    (w : ℕ)
    → w % 2 ^ 7 ≡ Opcode.branch
    → let d = inst_decode w in
      (d.format ≡ b)
      × (d.op ≡ w % 2 ^ 7 + w / 2 ^ 12 % 2 ^ 3 * 2 ^ 7)
      × (d.immediate ≡ inst_branch_imm w)
unfolding inst_decode decode_switch base_inst
decode-b w h = ground (arith, parts-fields w)

pub decode-s :
    (w : ℕ)
    → w % 2 ^ 7 ≡ Opcode.store
    → let d = inst_decode w in
      (d.format ≡ s)
      × (d.op ≡ w % 2 ^ 7 + w / 2 ^ 12 % 2 ^ 3 * 2 ^ 7)
      × (d.immediate ≡ inst_store_imm w)
unfolding inst_decode decode_switch base_inst
decode-s w h = ground (arith, parts-fields w)

-- The magic word halts, although it is also the encoding of an ADDI.
pub inst_decode-magic : (inst_decode inst_magic_hcf).op ≡ InstOp.hcf
unfolding inst_decode
inst_decode-magic = refl
