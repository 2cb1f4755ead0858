-- ===== src/FakeCpu.antt =====
-- fakecpu.c: the processor that runs one instruction at a time. Its clock and bus play no part.
pub mod Machine
pub mod Step
pub mod Frame
pub mod Overshift
pub mod Run
use fakerv32i.Base.{
  ℕ, zero, suc, ◌+◌, ◌-◌, ◌*◌, ◌/◌, ◌%◌, ◌^◌, bit_and, Bool, true, false, ◌==◌, ltb, if◌then◌else◌,
  Outcome, done, fault, assertion, undefined, Option, none, some, ◌>>=◌, ◌>>◌, defined,
}
use fakerv32i.AluOps.{alu_execute}
use fakerv32i.Inst.{Inst, inst_decode, inst_alu_op}
use fakerv32i.Memory.{Bytes, update, mem_get_sz, mem_set_sz, mem_get_inst}
use fakerv32i.Rv32i.Opcode
use fakerv32i.Rv32i.InstOp
use fakerv32i.Word.{add_word}

-- `fakecpu_t`, with the memory's array in place of the memory and the global `hcf` beside it.
pub record FakeCpu : Type 0 where
  pub mem : Bytes
  pub regs : ℕ → ℕ
  pub pc : ℕ
  pub hcf : Bool

pub fakecpu_create : Bytes → FakeCpu
fakecpu_create mem = record { mem = mem; regs = λ reg. 0; pc = 0; hcf = false }

-- `_cpu_get` and `_cpu_set`; the array has 32 registers.
unfoldable pub cpu_get : FakeCpu → ℕ → Outcome ℕ
cpu_get cpu reg = if reg == 0 then done 0 else do defined (ltb reg 32); done (cpu.regs reg)

pub cpu_set : FakeCpu → ℕ → ℕ → Outcome FakeCpu
cpu_set cpu reg value =
    if reg == 0
    then done cpu
    else do defined (ltb reg 32); done (record cpu { regs = update cpu.regs reg value })

-- `addr &= ~1u`.
abbrev pub clear_low_bit : ℕ → ℕ
clear_low_bit addr = bit_and addr 0xfffffffe

-- The branches of the `switch` of `fakecpu_tick`. Each ends by the assignment of the next `pc`.
pub tick_load : FakeCpu → Inst → ℕ → Outcome FakeCpu
tick_load cpu inst next_pc = do
  base ← cpu_get cpu inst.rs1
  value ← mem_get_sz cpu.mem (add_word inst.immediate base) inst.width
  cpu' ← cpu_set cpu inst.rd value
  done (record cpu' { pc = next_pc })

pub tick_store : FakeCpu → Inst → ℕ → Outcome FakeCpu
tick_store cpu inst next_pc = do
  base ← cpu_get cpu inst.rs1
  value ← cpu_get cpu inst.rs2
  mem' ← mem_set_sz cpu.mem (add_word inst.immediate base) value inst.width
  done (record cpu { mem = mem'; pc = next_pc })

pub tick_imm : FakeCpu → Inst → ℕ → Outcome FakeCpu
tick_imm cpu inst next_pc = do
  v1 ← cpu_get cpu inst.rs1
  res ← alu_execute (inst_alu_op inst) v1 inst.immediate
  cpu' ← cpu_set cpu inst.rd res
  done (record cpu' { pc = next_pc })

pub tick_op : FakeCpu → Inst → ℕ → Outcome FakeCpu
tick_op cpu inst next_pc = do
  v1 ← cpu_get cpu inst.rs1
  v2 ← cpu_get cpu inst.rs2
  res ← alu_execute (inst_alu_op inst) v1 v2
  cpu' ← cpu_set cpu inst.rd res
  done (record cpu' { pc = next_pc })

unfoldable pub tick_branch : FakeCpu → Inst → ℕ → Outcome FakeCpu
tick_branch cpu inst next_pc = do
  v1 ← cpu_get cpu inst.rs1
  v2 ← cpu_get cpu inst.rs2
  res ← alu_execute (inst_alu_op inst) v1 v2
  done (record cpu { pc = if res == 0 then next_pc else add_word inst.immediate cpu.pc })

unfoldable pub tick_jalr : FakeCpu → Inst → ℕ → Outcome FakeCpu
tick_jalr cpu inst next_pc = do
  base ← cpu_get cpu inst.rs1
  let addr = clear_low_bit (add_word inst.immediate base)
  cpu' ← cpu_set cpu inst.rd next_pc
  done (record cpu' { pc = addr })

-- The branches that only write a register: AUIPC, LUI and JAL.
pub tick_set : FakeCpu → Inst → ℕ → ℕ → Outcome FakeCpu
tick_set cpu inst value next_pc = do
  cpu' ← cpu_set cpu inst.rd value
  done (record cpu' { pc = next_pc })

pub tick_switch : FakeCpu → Inst → ℕ → Outcome FakeCpu
tick_switch cpu inst next_pc =
    if inst.opcode == Opcode.load
    then tick_load cpu inst next_pc
    else if inst.opcode == Opcode.store
    then tick_store cpu inst next_pc
    else if inst.opcode == Opcode.imm
    then tick_imm cpu inst next_pc
    else if inst.opcode == Opcode.op
    then tick_op cpu inst next_pc
    else if inst.opcode == Opcode.auipc
    then tick_set cpu inst (add_word inst.immediate cpu.pc) next_pc
    else if inst.opcode == Opcode.lui
    then tick_set cpu inst inst.immediate next_pc
    else if inst.opcode == Opcode.branch
    then tick_branch cpu inst next_pc
    else if inst.opcode == Opcode.jalr
    then tick_jalr cpu inst next_pc
    else if inst.opcode == Opcode.jal
    then tick_set cpu inst next_pc (add_word inst.immediate cpu.pc)
    else fault assertion

-- What `fakecpu_tick` does with the decoded instruction.
pub tick_inst : FakeCpu → Inst → Outcome FakeCpu
tick_inst cpu inst =
    if inst.op == InstOp.hcf
    then done (record cpu { hcf = true })
    else if inst.op == InstOp.unimp
    then fault assertion
    else tick_switch cpu inst (add_word cpu.pc 4)

pub fakecpu_tick : FakeCpu → Outcome FakeCpu
fakecpu_tick cpu = do inst_word ← mem_get_inst cpu.mem cpu.pc; tick_inst cpu (inst_decode inst_word)

-- The loop of `main` with a bound on its rounds; `none` if it has not ended by then.
pub fakecpu_run : ℕ → FakeCpu → Outcome (Option FakeCpu)
fakecpu_run zero cpu = done none
fakecpu_run (suc fuel) cpu = elim cpu.hcf [
  | true ↦ done (some cpu)
  | false ↦ fakecpu_tick cpu >>= fakecpu_run fuel
]
