-- ===== src/FakeCpu/Overshift.antt =====
-- A shift in fakecpu.c whose count is 32 or more, against the RV32I manual.
use fakerv32i.Base.{ℕ, ◌%◌, ◌≤◌, ◌≡◌, refl, arith, fault, undefined, done}
use fakerv32i.AluOps.Meaning.{IsShift, alu_execute-overshift}
use fakerv32i.Inst.{Inst, inst_decode}
use fakerv32i.Inst.RoundTrip.{Decodes, inst_decode-encode}
use fakerv32i.Inst.Classes.{inst_alu_op-reg}
use fakerv32i.Isa.{Arith, sll, srl, sra, op_reg, arith_result}
use fakerv32i.Isa.Encoding.{encode, IsEncodable}
use fakerv32i.Memory.{mem_get_inst}
use fakerv32i.FakeCpu.{FakeCpu, tick_op, tick_switch, tick_inst, fakecpu_tick}
use fakerv32i.FakeCpu.Machine.{reg, write_reg, plus, execute}
use fakerv32i.FakeCpu.Step.{view, cpu_get_lem, tick_inst-switch, reg_op-lt}

overshift_step :
    (op : Arith) (rd rs1 rs2 : ℕ) (cpu : FakeCpu) (d : Inst)
    → IsShift op
    → IsEncodable (op_reg op rd rs1 rs2)
    → 32 ≤ reg (view cpu) rs2
    → Decodes (op_reg op rd rs1 rs2) d
    → tick_inst cpu d ≡ fault undefined
unfolding tick_switch tick_op
overshift_step op rd rs1 rs2 cpu d s e far dec = ground (
  arith,
  reg_op-lt op,
  tick_inst-switch cpu d,
  cpu_get_lem cpu rs1,
  cpu_get_lem cpu rs2,
  inst_alu_op-reg op d dec.2 dec.1,
  alu_execute-overshift op (reg (view cpu) rs1) (reg (view cpu) rs2) s far,
)

low_count : (op : Arith) (a b : ℕ) → IsShift op → arith_result op a b ≡ arith_result op a (b % 32)
unfolding arith_result
low_count sll a b s = ground arith
low_count srl a b s = ground arith
low_count sra a b s = ground arith
low_count op a b s = absurd s

-- Where the word at the program counter encodes a shift by a register that holds 32 or more, the tick is
-- undefined, while the manual writes the shift by the low five bits of the count and goes on.
pub fakecpu_tick-overshift :
    (op : Arith) (rd rs1 rs2 : ℕ) (cpu : FakeCpu)
    → IsShift op
    → IsEncodable (op_reg op rd rs1 rs2)
    → 32 ≤ reg (view cpu) rs2
    → mem_get_inst cpu.mem cpu.pc ≡ done (encode (op_reg op rd rs1 rs2))
    → (fakecpu_tick cpu ≡ fault undefined)
      × (execute (op_reg op rd rs1 rs2) (view cpu) ≡ record (view cpu) {
        regs =
            write_reg cpu.regs rd (arith_result op (reg (view cpu) rs1) (reg (view cpu) rs2 % 32));
        pc = plus cpu.pc 4;
      })
unfolding fakecpu_tick execute
fakecpu_tick-overshift op rd rs1 rs2 cpu s e far fetch =
    let x = op_reg op rd rs1 rs2 in
    (
      rw fetch (
          overshift_step op rd rs1 rs2 cpu (inst_decode (encode x)) s e far
            (inst_decode-encode x e tt)),
      rw (← low_count op (reg (view cpu) rs1) (reg (view cpu) rs2) s) refl,
    )
