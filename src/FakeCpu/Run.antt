-- ===== src/FakeCpu/Run.antt =====
-- Whole programs on the sequential processor of fakecpu.c: the loop of main.c against the instructions
-- of the manual, one after the other, up to the halting instruction.
use fakerv32i.Base.{
  ℕ, zero, suc, ◌+◌, ◌≤◌, ◌≡◌, refl, ap, ◌∙◌, arith, true, false, List, [], ◌∷◌, length, some, done,
  ◌>>=◌,
}
use fakerv32i.Isa.{Instr, load, store, op_imm, op_reg, lui, auipc, branch, jalr, jal}
use fakerv32i.Isa.Encoding.{IsEncodable, encode}
use fakerv32i.Inst.{inst_magic_hcf}
use fakerv32i.Inst.Decode.{inst_decode-magic}
use fakerv32i.Inst.RoundTrip.{IsDecodable}
use fakerv32i.Memory.{mem_get_inst}
use fakerv32i.Memory.Access.{IsBytes, width_bytes, write_bytes-IsBytes}
use fakerv32i.FakeCpu.{FakeCpu, tick_inst, fakecpu_tick, fakecpu_run}
use fakerv32i.FakeCpu.Machine.{Machine, address, reg, execute}
use fakerv32i.FakeCpu.Step.{IsRunnable, fakecpu_tick-execute}

-- The effect of a sequence of instructions.
unfoldable pub execute_all : List Instr → Machine → Machine
execute_all [] m = m
execute_all (x ∷ xs) m = execute_all xs (execute x m)

-- The machine meets these instructions in turn, each one that the processor can run, and then the
-- halting one.
abbrev pub Follows : List Instr → Machine → Type 0
Follows [] m = mem_get_inst m.mem m.pc ≡ done inst_magic_hcf
Follows (x ∷ xs) m =
    IsEncodable x
    × IsDecodable x
    × IsRunnable x m
    × (mem_get_inst m.mem m.pc ≡ done (encode x))
    × Follows xs (execute x m)

execute-IsBytes : (x : Instr) (m : Machine) → IsBytes m.mem → IsBytes ((execute x m).mem)
unfolding execute
execute-IsBytes (store w rs1 rs2 imm) m h =
    write_bytes-IsBytes (width_bytes w) m.mem (address m rs1 imm) (reg m rs2) h
execute-IsBytes (load w rd rs1 imm) m h = h
execute-IsBytes (op_imm op rd rs1 imm) m h = h
execute-IsBytes (op_reg op rd rs1 rs2) m h = h
execute-IsBytes (lui rd imm) m h = h
execute-IsBytes (auipc rd imm) m h = h
execute-IsBytes (branch c rs1 rs2 imm) m h = h
execute-IsBytes (jalr rd rs1 imm) m h = h
execute-IsBytes (jal rd imm) m h = h

-- A machine in the middle of a run.
abbrev pub running : Machine → FakeCpu
running m = record { mem = m.mem; regs = m.regs; pc = m.pc; hcf = false }

abbrev pub halted : Machine → FakeCpu
halted m = record { mem = m.mem; regs = m.regs; pc = m.pc; hcf = true }

tick-halts :
    (m : Machine)
    → mem_get_inst m.mem m.pc ≡ done inst_magic_hcf
    → fakecpu_tick (running m) ≡ done (halted m)
unfolding fakecpu_tick tick_inst
tick-halts m h = rw (h, inst_decode-magic) refl

-- A round of the loop.
run-step :
    (fuel : ℕ) (m : Machine) (cpu : FakeCpu)
    → fakecpu_tick (running m) ≡ done cpu
    → fakecpu_run (suc fuel) (running m) ≡ fakecpu_run fuel cpu
unfolding fakecpu_run
run-step fuel m cpu ticks = ap (λ o. o >>= fakecpu_run fuel) ticks

run-halted : (fuel : ℕ) (m : Machine) → fakecpu_run (suc fuel) (halted m) ≡ done (some (halted m))
unfolding fakecpu_run
run-halted fuel m = refl

-- If a machine with bytes in memory meets some instructions in turn and then the halting one, the loop
-- ends after a round for each of them, a round for the halting one and a last test, and registers,
-- memory and program counter are then those that the manual's instructions leave.
pub fakecpu_run-executes :
    (xs : List Instr) (m : Machine) (fuel : ℕ)
    → IsBytes m.mem
    → Follows xs m
    → length xs + 2 ≤ fuel
    → fakecpu_run fuel (running m) ≡ done (some (halted (execute_all xs m)))
unfolding execute_all
fakecpu_run-executes xs m zero h f enough = absurd (omega arith)
fakecpu_run-executes xs m (suc zero) h f enough = absurd (omega arith)
fakecpu_run-executes [] m (suc (suc fuel)) h f enough =
    run-step (suc fuel) m (halted m) (tick-halts m f) ∙ run-halted fuel m
fakecpu_run-executes (x ∷ xs) m (suc fuel) h (e, d, r, fetch, f) enough =
    run-step fuel m (running (execute x m)) (fakecpu_tick-execute x (running m) e d r h fetch)
    ∙ fakecpu_run-executes xs (execute x m) fuel (execute-IsBytes x m h) f (omega arith)
