-- ===== src/Tests/Whole.antt =====
-- An instance for one instruction from its dispatch to its commit: addi x2, x1, 3 while register 1 waits.
use fakerv32i.Base.{ℕ, zero, suc, ◌≡◌, refl, ap, arith, false, get_or, some, ◌∷◌, replicate, done}
use fakerv32i.Reg.{reg_mut_create, reg_mut_read}
use fakerv32i.Reg.Cycle.{settled}
use fakerv32i.RegStore.{Slot, reg_store_create, reg_store_get, reg_store_rob_id_get}
use fakerv32i.Predictor.Learning.{bp_create-garbage}
use fakerv32i.Isa.Encoding.{encode}
use fakerv32i.Rvmath.{sign_extend, extend_mask}
use fakerv32i.Inst.{
  inst_rob_op, inst_ls_op, inst_alu_op, inst_decode, inst_type, decode_switch, parts, inst_get,
  decode_i, base_inst,
}
use fakerv32i.AluOps.{alu_execute}
use fakerv32i.Bus.{bus_get_data, bus_arb_add}
use fakerv32i.Bus.Helper.{bh_create}
use fakerv32i.Memory.Pending.{mem_create}
use fakerv32i.LsQueue.{ls_queue_create}
use fakerv32i.Queue.{queue_id, queue_create}
use fakerv32i.InstUnit.{inst_unit_create}
use fakerv32i.Cpu.Retire.{arrived}
use fakerv32i.FakeCpu.Machine.{execute}
use fakerv32i.ReorderBuffer.{
  Entry, RobPayload, no_rob_payload, take_result, entry_of, id_at, rob_unit_find,
}
use fakerv32i.InstUnit.Dispatch.{
  Dispatched, dispatch_switch, dispatch_i, dispatch_base, inst_reg_set, has_dest, from_bus,
  from_entry,
}
use fakerv32i.Cpu.{Cpu, no_rs_payload, bus_create}
use fakerv32i.Cpu.Commit.{rob_commit}
use fakerv32i.Rv32i.{register}
use fakerv32i.Cpu.Retire.Stores.{Stored}
use fakerv32i.Cpu.Retire.Effects.{Holds, empty_slot, fetches_at}
use fakerv32i.Cpu.Retire.Effects.Entry.{IsRetiring}
use fakerv32i.Cpu.Retire.Whole.{dispatched, rob_commit-execute}
use fakerv32i.Tests.Retiring.{sources, nine, machine, addi, machine-Readable}
use fakerv32i.Tests.Committing.{cpu, get_or-replicate}

-- What the dispatch writes.
abbrev written_by_dispatch : Dispatched
written_by_dispatch = record {
  rob_data = record no_rob_payload { rs = 1; pc = 64; dest = some 2 };
  rs_data = record no_rs_payload { src1 = 1; value2 = 3; dest = 2 };
  next_pc = 68;
}

dispatched-addi :
    dispatched sources (inst_decode (encode addi)) 64 1 2 no_rob_payload no_rs_payload
    ≡ done written_by_dispatch
unfolding dispatched inst_rob_op inst_ls_op inst_alu_op sign_extend extend_mask inst_decode
    decode_switch parts inst_get decode_i base_inst dispatch_switch dispatch_i inst_reg_set has_dest
    encode dispatch_base from_bus bus_get_data reg_store_rob_id_get reg_store_get reg_mut_read
    from_entry rob_unit_find id_at entry_of queue_id
dispatched-addi = refl

abbrev payload : RobPayload
payload = record written_by_dispatch.rob_data { value = 12 }

abbrev entry : Entry
entry = record { ready = reg_mut_create false; payload = reg_mut_create payload }

-- The processor in which the register store is about to hold 9 in register 1.
abbrev waiting : Cpu
waiting = record cpu {
  reg_store = record cpu.reg_store {
    slots = empty_slot ∷ record empty_slot { register = settled 9 } ∷ replicate 30 empty_slot;
  };
}

waiting_registers :
    {A : Type 0} (f : Slot → A) (r : ℕ)
    → f (record empty_slot { register = settled 9 }) ≡ f empty_slot
    → f (get_or waiting.reg_store.slots r empty_slot) ≡ f empty_slot
waiting_registers f zero h = refl
waiting_registers f (suc zero) h = h
waiting_registers f (suc (suc r)) h = ap f (get_or-replicate 30 r)

waiting-IsRetiring : IsRetiring entry waiting
unfolding reg_mut_create reg_store_create queue_create inst_unit_create ls_queue_create mem_create
    bus_create bh_create bus_arb_add
waiting-IsRetiring = record {
  commits = record {
    unwritten = record {
      force_pc = refl;
      reg_store = refl;
      rob = refl;
      rs = refl;
      ls_queue = refl;
      cdb = refl;
      mem = refl;
    };
    unforced = refl;
    slots = refl;
    registers = λ r lt. waiting_registers (λ s. s.register.write_count) r refl;
    target = (omega arith, λ e. cc);
    accepts = tt;
    predictor = (bp_create-garbage 5 0).0 (omega arith);
    history = omega arith;
  };
  requests = λ r lt. waiting_registers (λ s. s.rob_id_clear_if.write_count) r refl;
  ready = refl;
  head = refl;
  inside = omega arith;
  used = omega arith;
}

waiting-Holds : Holds waiting.reg_store machine.regs
unfolding reg_store_create reg_mut_create
waiting-Holds zero pos lt = absurd (omega arith)
waiting-Holds (suc zero) pos lt = refl
waiting-Holds (suc (suc r)) pos lt = ap (λ s. s.register.next) (get_or-replicate 30 r)

rob_commit-execute_example :
    (cpu' : Cpu) × (rob_commit 2 entry waiting ≡ done cpu')
    × Holds cpu'.reg_store (execute addi machine).regs
    × (fetches_at cpu'.inst_unit 68 ≡ (execute addi machine).pc)
    × Stored register payload waiting.ls_queue.queue cpu'.ls_queue.queue
unfolding reg_mut_create inst_type inst_decode decode_switch parts inst_get decode_i base_inst
    encode alu_execute arrived take_result
rob_commit-execute_example =
    rob_commit-execute nine sources machine addi 1 2 no_rob_payload no_rs_payload
      written_by_dispatch 2 entry waiting machine-Readable (omega arith) (omega arith) tt
      (λ a. omega arith) dispatched-addi (12, refl, refl) tt waiting-IsRetiring waiting-Holds
