-- ===== src/Tests/Sequential.antt =====
-- Instances for the arithmetic, the decoder, the memory accesses and the sequential processor.
use fakerv32i.Base.{
  ◌%◌, ◌^◌, ◌<◌, ◌≡◌, ◌≢◌, refl, arith, false, List, [], ◌∷◌, some, done, fault, undefined, ◌>>=◌,
  inr,
}
use fakerv32i.Isa.{
  add, sll, sltu, sra, op_reg, ge, byte, half, word, Instr, op_imm, jal, branch, extended,
  arith_result,
}
use fakerv32i.Isa.Encoding.{encode}
use fakerv32i.Rv32i.AluOp
use fakerv32i.AluOps.{alu_execute}
use fakerv32i.AluOps.Meaning.{alu_execute-sra_left}
use fakerv32i.Inst.{inst_decode}
use fakerv32i.Inst.RoundTrip.{
  Decodes, inst_decode-encode, inst_decode-srai, inst_decode-sltiu_negative,
}
use fakerv32i.Rv32i.InstOp
use fakerv32i.Memory.{Bytes, mem_get_sz, mem_set_sz, mem_get_inst, write_bytes}
use fakerv32i.Memory.Access.{
  IsBytes, write_bytes-IsBytes, mem_get_sz-mem_set_sz, mem_get_sz-mem_set_sz_ne,
}
use fakerv32i.FakeCpu.{FakeCpu, fakecpu_tick, fakecpu_run}
use fakerv32i.FakeCpu.Overshift.{fakecpu_tick-overshift}
use fakerv32i.FakeCpu.Machine.{Machine, execute, write_reg}
use fakerv32i.FakeCpu.Run.{execute_all, Follows, running, halted, fakecpu_run-executes}
use fakerv32i.FakeCpu.Step.{view, with_view, fakecpu_tick-execute}

alu_execute-sra_left_example : (alu_execute AluOp.sra 12 2 ≡ done 48) × (arith_result sra 12 2 < 48)
alu_execute-sra_left_example =
    alu_execute-sra_left 12 2 (omega arith) (omega arith) (omega arith) (omega arith)

-- bge x5, x6, -8
abbrev back : Instr
back = branch ge 5 6 0x1ff8

inst_decode-encode_example : Decodes back (inst_decode (encode back))
inst_decode-encode_example = inst_decode-encode back (omega arith) tt

abbrev zeros : Bytes
zeros a = 0

zeros-IsBytes : IsBytes zeros
zeros-IsBytes a = omega arith

mem_get_sz-mem_set_sz_example :
    (mem_set_sz zeros 100 0x12380 0 >>= λ m. mem_get_sz m 100 0)
    ≡ done (extended 8 (0x12380 % 2 ^ 8))
mem_get_sz-mem_set_sz_example =
    mem_get_sz-mem_set_sz byte zeros 100 0x12380 tt zeros-IsBytes (omega arith)

mem_get_sz-mem_set_sz_ne_example :
    (mem_set_sz zeros 100 7 2 >>= λ m. mem_get_sz m 104 1) ≡ mem_get_sz zeros 104 1
mem_get_sz-mem_set_sz_ne_example =
    mem_get_sz-mem_set_sz_ne half word zeros 100 7 104 tt zeros-IsBytes (omega arith) (omega arith)
      (inr (omega arith))

-- addi x1, x0, -3
abbrev first : Instr
first = op_imm add 1 0 0xffd

abbrev cpu : FakeCpu
cpu = record { mem = write_bytes 4 zeros 0 0xffd00093; regs = λ r. 0; pc = 0; hcf = false }

cpu-IsBytes : IsBytes cpu.mem
cpu-IsBytes = write_bytes-IsBytes 4 zeros 0 0xffd00093 zeros-IsBytes

cpu_fetch : mem_get_inst cpu.mem 0 ≡ done (encode first)
unfolding mem_get_inst mem_get_sz encode
cpu_fetch = refl

fakecpu_tick-execute_example : fakecpu_tick cpu ≡ done (with_view cpu (execute first (view cpu)))
unfolding encode
fakecpu_tick-execute_example =
    fakecpu_tick-execute first cpu (omega arith) (omega arith) tt cpu-IsBytes cpu_fetch

-- x0 is the destination: addi x0, x0, 1
abbrev discarding : FakeCpu
discarding = record { mem = write_bytes 4 zeros 0 0x00100013; regs = λ r. 0; pc = 0; hcf = false }

-- sll x1, x2, x3, with 40 in every register
abbrev far : FakeCpu
far = record { mem = write_bytes 4 zeros 0 0x003110b3; regs = λ r. 40; pc = 0; hcf = false }

fakecpu_tick-overshift_example :
    (fakecpu_tick far ≡ fault undefined)
    × (execute (op_reg sll 1 2 3) (view far)
        ≡ record (view far) { regs = write_reg far.regs 1 (arith_result sll 40 8); pc = 4 })
unfolding mem_get_inst mem_get_sz encode
fakecpu_tick-overshift_example =
    fakecpu_tick-overshift sll 1 2 3 far tt (omega arith) (omega arith) refl

-- jal x2, +8, over a word that is not an instruction, to the halting one
abbrev program : List Instr
program = first ∷ jal 2 8 ∷ []

abbrev image : Bytes
image = write_bytes 4 (write_bytes 4 (write_bytes 4 zeros 0 0xffd00093) 4 0x0080016f) 12 0x0ff00513

abbrev started : Machine
started = record { mem = image; regs = λ r. 0; pc = 0 }

image-IsBytes : IsBytes image
image-IsBytes =
    write_bytes-IsBytes 4 _ 12 0x0ff00513 (
      write_bytes-IsBytes 4 _ 4 0x0080016f (write_bytes-IsBytes 4 zeros 0 0xffd00093 zeros-IsBytes))

program-Follows : Follows program started
unfolding mem_get_inst mem_get_sz encode execute
program-Follows = (omega arith, omega arith, tt, refl, (omega arith, tt, tt, refl, refl))

fakecpu_run-executes_example :
    fakecpu_run 4 (running started) ≡ done (some (halted (execute_all program started)))
fakecpu_run-executes_example =
    fakecpu_run-executes program started 4 image-IsBytes program-Follows (omega arith)

inst_decode-srai_example :
    let d = inst_decode (encode (op_imm sra 3 4 5)) in
    (d.op ≡ InstOp.srli) × (d.rd ≡ 3) × (d.rs1 ≡ 4) × (d.immediate ≡ 1029)
inst_decode-srai_example = inst_decode-srai 3 4 5 (omega arith)

inst_decode-sltiu_negative_example :
    let d = inst_decode (encode (op_imm sltu 3 4 0xfff)) in
    (d.op ≡ InstOp.sltiu) × (d.immediate ≡ 0xfff) × (0xfff ≢ extended 12 0xfff)
inst_decode-sltiu_negative_example =
    inst_decode-sltiu_negative 3 4 0xfff (omega arith) (omega arith)
