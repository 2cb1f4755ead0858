-- ===== src/FakeCpu/Step.antt =====
-- One `fakecpu_tick` is one instruction of the manual.
use fakerv32i.Base.{ℕ, ◌+◌, ◌*◌, ◌/◌, ◌^◌, ◌≤◌, ◌<◌, ◌≡◌, ◌≢◌, refl, arith, done}
use fakerv32i.Base.Bits.{bit_and-field}
use fakerv32i.AluOps.{alu_execute}
use fakerv32i.AluOps.Meaning.{InShiftRange, alu_execute-arith, alu_execute-compare}
use fakerv32i.Inst.{Inst, inst_decode, inst_alu_op}
use fakerv32i.Inst.RoundTrip.{
  Decodes, IsDecodable, inst_decode-encode, load_op, store_op, imm_op, reg_op, branch_op,
}
use fakerv32i.Inst.Classes.{inst_alu_op-imm, inst_alu_op-reg, inst_alu_op-branch}
use fakerv32i.Isa.{
  Arith, add, sub, sll, srl, sra, Compare, eq, Width, byte, half, word, byte_unsigned,
  half_unsigned, Instr, load, store, op_imm, op_reg, lui, auipc, branch, jalr, jal, extended,
  arith_result,
}
use fakerv32i.Isa.Encoding.{encode, IsEncodable, IsStored}
use fakerv32i.Memory.{mem_size, read_bytes, mem_get_inst}
use fakerv32i.Memory.Access.{IsBytes, width_bytes, loaded, mem_get_sz_lem, mem_set_sz_lem}
use fakerv32i.FakeCpu.{
  FakeCpu, cpu_get, cpu_set, clear_low_bit, tick_load, tick_store, tick_imm, tick_op, tick_branch,
  tick_jalr, tick_set, tick_switch, tick_inst, fakecpu_tick,
}
use fakerv32i.FakeCpu.Machine.{Machine, reg, write_reg, plus, address, execute}

abbrev pub view : FakeCpu → Machine
view cpu = record { mem = cpu.mem; regs = cpu.regs; pc = cpu.pc }

abbrev pub with_view : FakeCpu → Machine → FakeCpu
with_view cpu m = record cpu { mem = m.mem; regs = m.regs; pc = m.pc }

-- The data accesses lie in the array, and the operation is one that `alu_execute` gets right.
abbrev pub IsRunnable : Instr → Machine → Type 0
IsRunnable (load w rd rs1 imm) m = address m rs1 imm + width_bytes w ≤ mem_size
IsRunnable (store w rs1 rs2 imm) m = address m rs1 imm + width_bytes w ≤ mem_size
IsRunnable (op_reg op rd rs1 rs2) m = (op ≢ sra) × InShiftRange op (reg m rs2)
IsRunnable x m = Unit {0}

pub cpu_get_lem : (cpu : FakeCpu) (r : ℕ) → r < 32 → cpu_get cpu r ≡ done (reg (view cpu) r)
unfolding cpu_get
cpu_get_lem cpu r h = ground arith

cpu_set_lem :
    (cpu : FakeCpu) (r v : ℕ)
    → r < 32
    → cpu_set cpu r v ≡ done (record cpu { regs = write_reg cpu.regs r v })
unfolding cpu_set
cpu_set_lem cpu r v h = ground arith

-- An operation of at most 11 bits is neither the halt nor the unknown instruction.
pub tick_inst-switch :
    (cpu : FakeCpu) (d : Inst) → d.op < 2 ^ 11 → tick_inst cpu d ≡ tick_switch cpu d (plus cpu.pc 4)
unfolding tick_inst
tick_inst-switch cpu d h = ground arith

-- What is proved of each kind of instruction.
abbrev Runs : Instr → FakeCpu → Inst → Type 0
Runs x cpu d =
    IsEncodable x
    → IsRunnable x (view cpu)
    → IsBytes cpu.mem
    → Decodes x d
    → tick_inst cpu d ≡ done (with_view cpu (execute x (view cpu)))

load_op-lt : (w : Width) → load_op w < 2 ^ 11
load_op-lt byte = omega arith
load_op-lt w = omega arith

step-load : (w : Width) (rd rs1 imm : ℕ) (cpu : FakeCpu) (d : Inst) → Runs (load w rd rs1 imm) cpu d
unfolding tick_switch tick_load execute
step-load w rd rs1 imm cpu d e run bytes dec =
    let a = address (view cpu) rs1 imm in
    ground (
      arith,
      load_op-lt w,
      tick_inst-switch cpu d,
      cpu_get_lem cpu rs1,
      cpu_set_lem cpu rd (loaded w (read_bytes (width_bytes w) cpu.mem a)),
      mem_get_sz_lem w cpu.mem a bytes,
    )

store_op-lt : (w : Width) → IsStored w → store_op w < 2 ^ 11
store_op-lt byte h = omega arith
store_op-lt half h = omega arith
store_op-lt word h = omega arith
store_op-lt byte_unsigned h = absurd h
store_op-lt half_unsigned h = absurd h

step-store :
    (w : Width) (rs1 rs2 imm : ℕ) (cpu : FakeCpu) (d : Inst) → Runs (store w rs1 rs2 imm) cpu d
unfolding tick_switch tick_store execute
step-store w rs1 rs2 imm cpu d e run bytes dec =
    let a = address (view cpu) rs1 imm in
    ground (
      arith,
      store_op-lt w e.3,
      tick_inst-switch cpu d,
      cpu_get_lem cpu rs1,
      cpu_get_lem cpu rs2,
      mem_set_sz_lem w cpu.mem a (reg (view cpu) rs2) e.3,
    )

-- `alu_execute` on the decoded operation of an OP-IMM instruction.
pub execute-imm :
    (op : Arith) (rd rs1 imm v : ℕ) (d : Inst)
    → IsEncodable (op_imm op rd rs1 imm)
    → IsDecodable (op_imm op rd rs1 imm)
    → Decodes (op_imm op rd rs1 imm) d
    → alu_execute (inst_alu_op d) v d.immediate ≡ done (arith_result op v (extended 12 imm))
execute-imm sub rd rs1 imm v d e k dec = absurd e.2
execute-imm sra rd rs1 imm v d e k dec = absurd k
execute-imm sll rd rs1 imm v d e k dec =
    rw
      (
        inst_alu_op-imm sll d (λ p. cc) (λ p. cc) dec.2 dec.1,
        dec.5,
        alu_execute-arith sll v (extended 12 imm) (λ p. cc) (ground arith),
      )
      refl
execute-imm srl rd rs1 imm v d e k dec =
    rw
      (
        inst_alu_op-imm srl d (λ p. cc) (λ p. cc) dec.2 dec.1,
        dec.5,
        alu_execute-arith srl v (extended 12 imm) (λ p. cc) (ground arith),
      )
      refl
execute-imm op rd rs1 imm v d e k dec =
    rw
      (
        inst_alu_op-imm op d (λ p. cc) (λ p. cc) dec.2 dec.1,
        dec.5,
        alu_execute-arith op v (extended 12 imm) (λ p. cc) tt,
      )
      refl

imm_op-lt : (op : Arith) (rd rs1 imm : ℕ) → IsEncodable (op_imm op rd rs1 imm) → imm_op op < 2 ^ 11
imm_op-lt sub rd rs1 imm e = absurd e.2
imm_op-lt op rd rs1 imm e = omega arith

step-op_imm :
    (op : Arith) (rd rs1 imm : ℕ) (cpu : FakeCpu) (d : Inst)
    → IsDecodable (op_imm op rd rs1 imm)
    → Runs (op_imm op rd rs1 imm) cpu d
unfolding tick_switch tick_imm execute
step-op_imm op rd rs1 imm cpu d k e run bytes dec =
    let v = reg (view cpu) rs1 in
    ground (
      arith,
      imm_op-lt op rd rs1 imm e,
      tick_inst-switch cpu d,
      cpu_get_lem cpu rs1,
      cpu_set_lem cpu rd (arith_result op v (extended 12 imm)),
      execute-imm op rd rs1 imm v d e k dec,
    )

pub reg_op-lt : (op : Arith) → reg_op op < 2 ^ 11
reg_op-lt add = omega arith
reg_op-lt op = omega arith

step-op_reg :
    (op : Arith) (rd rs1 rs2 : ℕ) (cpu : FakeCpu) (d : Inst) → Runs (op_reg op rd rs1 rs2) cpu d
unfolding tick_switch tick_op execute
step-op_reg op rd rs1 rs2 cpu d e run bytes dec =
    let v = reg (view cpu) rs1 in
    let w = reg (view cpu) rs2 in
    ground (
      arith,
      reg_op-lt op,
      tick_inst-switch cpu d,
      cpu_get_lem cpu rs1,
      cpu_get_lem cpu rs2,
      cpu_set_lem cpu rd (arith_result op v w),
      inst_alu_op-reg op d dec.2 dec.1,
      alu_execute-arith op v w run.0 run.1,
    )

step-lui : (rd imm : ℕ) (cpu : FakeCpu) (d : Inst) → Runs (lui rd imm) cpu d
unfolding tick_switch tick_set execute
step-lui rd imm cpu d e run bytes dec =
    ground (arith, tick_inst-switch cpu d, cpu_set_lem cpu rd (imm * 2 ^ 12))

step-auipc : (rd imm : ℕ) (cpu : FakeCpu) (d : Inst) → Runs (auipc rd imm) cpu d
unfolding tick_switch tick_set execute
step-auipc rd imm cpu d e run bytes dec =
    ground (arith, tick_inst-switch cpu d, cpu_set_lem cpu rd (plus cpu.pc (imm * 2 ^ 12)))

branch_op-lt : (c : Compare) → branch_op c < 2 ^ 11
branch_op-lt eq = omega arith
branch_op-lt c = omega arith

step-branch :
    (c : Compare) (rs1 rs2 imm : ℕ) (cpu : FakeCpu) (d : Inst) → Runs (branch c rs1 rs2 imm) cpu d
unfolding tick_switch tick_branch execute
step-branch c rs1 rs2 imm cpu d e run bytes dec =
    let v = reg (view cpu) rs1 in
    let w = reg (view cpu) rs2 in
    ground (
      arith,
      branch_op-lt c,
      tick_inst-switch cpu d,
      cpu_get_lem cpu rs1,
      cpu_get_lem cpu rs2,
      inst_alu_op-branch c d dec.2 dec.1,
      alu_execute-compare c v w,
    )

pub clear_low_bit_lem : (a : ℕ) → a < 2 ^ 32 → clear_low_bit a ≡ a / 2 * 2
clear_low_bit_lem a h = omega (arith, bit_and-field 1 31 a)

step-jalr : (rd rs1 imm : ℕ) (cpu : FakeCpu) (d : Inst) → Runs (jalr rd rs1 imm) cpu d
unfolding tick_switch tick_jalr execute
step-jalr rd rs1 imm cpu d e run bytes dec = ground (
  arith,
  tick_inst-switch cpu d,
  cpu_get_lem cpu rs1,
  cpu_set_lem cpu rd (plus cpu.pc 4),
  clear_low_bit_lem (plus (reg (view cpu) rs1) (extended 12 imm)),
)

step-jal : (rd imm : ℕ) (cpu : FakeCpu) (d : Inst) → Runs (jal rd imm) cpu d
unfolding tick_switch tick_set execute
step-jal rd imm cpu d e run bytes dec =
    ground (arith, tick_inst-switch cpu d, cpu_set_lem cpu rd (plus cpu.pc 4))

step-inst : (x : Instr) (cpu : FakeCpu) (d : Inst) → IsDecodable x → Runs x cpu d
step-inst (load w rd rs1 imm) cpu d k = step-load w rd rs1 imm cpu d
step-inst (store w rs1 rs2 imm) cpu d k = step-store w rs1 rs2 imm cpu d
step-inst (op_imm op rd rs1 imm) cpu d k = step-op_imm op rd rs1 imm cpu d k
step-inst (op_reg op rd rs1 rs2) cpu d k = step-op_reg op rd rs1 rs2 cpu d
step-inst (lui rd imm) cpu d k = step-lui rd imm cpu d
step-inst (auipc rd imm) cpu d k = step-auipc rd imm cpu d
step-inst (branch c rs1 rs2 imm) cpu d k = step-branch c rs1 rs2 imm cpu d
step-inst (jalr rd rs1 imm) cpu d k = step-jalr rd rs1 imm cpu d
step-inst (jal rd imm) cpu d k = step-jal rd imm cpu d

-- Where the word at the program counter encodes an instruction that is encodable, decodable and
-- runnable, and memory holds bytes, one tick has exactly the effect of the manual on registers,
-- memory and program counter, and does not halt.
pub fakecpu_tick-execute :
    (x : Instr) (cpu : FakeCpu)
    → IsEncodable x
    → IsDecodable x
    → IsRunnable x (view cpu)
    → IsBytes cpu.mem
    → mem_get_inst cpu.mem cpu.pc ≡ done (encode x)
    → fakecpu_tick cpu ≡ done (with_view cpu (execute x (view cpu)))
unfolding fakecpu_tick
fakecpu_tick-execute x cpu e k run bytes fetch =
    rw fetch (step-inst x cpu (inst_decode (encode x)) k e run bytes (inst_decode-encode x e k))
