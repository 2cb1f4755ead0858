-- ===== src/FakeCpu/Machine.antt =====
-- The effect of one RV32I instruction on registers, memory and program counter, as the manual has it.
use fakerv32i.Base.{ℕ, ◌+◌, ◌*◌, ◌/◌, ◌%◌, ◌^◌, ◌==◌, if◌then◌else◌}
use fakerv32i.Isa.{
  arith_result, holds, Instr, load, store, op_imm, op_reg, lui, auipc, branch, jalr, jal, extended,
}
use fakerv32i.Memory.{Bytes, update, read_bytes, write_bytes}
use fakerv32i.Memory.Access.{width_bytes, loaded}

pub record Machine : Type 0 where
  pub mem : Bytes
  pub regs : ℕ → ℕ
  pub pc : ℕ

-- Register 0 reads as zero and ignores writes.
abbrev pub reg : Machine → ℕ → ℕ
reg m r = if r == 0 then 0 else m.regs r

abbrev pub write_reg : (ℕ → ℕ) → ℕ → ℕ → ℕ → ℕ
write_reg regs r v = if r == 0 then regs else update regs r v

abbrev pub plus : ℕ → ℕ → ℕ
plus a b = (a + b) % 2 ^ 32

-- The address of a load or store.
abbrev pub address : Machine → ℕ → ℕ → ℕ
address m rs1 imm = plus (reg m rs1) (extended 12 imm)

abbrev pub next : Machine → ℕ → ℕ → Machine
next m rd v = record m { regs = write_reg m.regs rd v; pc = plus m.pc 4 }

unfoldable pub execute : Instr → Machine → Machine
execute (load w rd rs1 imm) m =
    next m rd (loaded w (read_bytes (width_bytes w) m.mem (address m rs1 imm)))
execute (store w rs1 rs2 imm) m = record m {
  mem = write_bytes (width_bytes w) m.mem (address m rs1 imm) (reg m rs2);
  pc = plus m.pc 4;
}
execute (op_imm op rd rs1 imm) m = next m rd (arith_result op (reg m rs1) (extended 12 imm))
execute (op_reg op rd rs1 rs2) m = next m rd (arith_result op (reg m rs1) (reg m rs2))
execute (lui rd imm) m = next m rd (imm * 2 ^ 12)
execute (auipc rd imm) m = next m rd (plus m.pc (imm * 2 ^ 12))
execute (branch c rs1 rs2 imm) m = record m {
  pc = if holds c (reg m rs1) (reg m rs2) then plus m.pc (extended 13 imm) else plus m.pc 4;
}
execute (jalr rd rs1 imm) m = record m {
  regs = write_reg m.regs rd (plus m.pc 4);
  pc = plus (reg m rs1) (extended 12 imm) / 2 * 2;
}
execute (jal rd imm) m = record m {
  regs = write_reg m.regs rd (plus m.pc 4);
  pc = plus m.pc (extended 21 imm);
}
