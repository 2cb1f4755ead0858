-- ===== src/Cpu/Commit.antt =====
-- reorder-buffer.c: the commit of the oldest instruction. The pointers of `rob_unit_t` lead to the other
-- components of the processor.
pub mod Shape
use fakerv32i.Base.{
  ℕ, ◌+◌, Bool, true, false, not, ◌==◌, if◌then◌else◌, Option, none, some, Outcome, done, ◌>>=◌,
  in_range,
}
use fakerv32i.Rv32i.{RobOp, register, store, branch, jalr, hcf}
use fakerv32i.Reg.{reg_mut_read, reg_mut_write}
use fakerv32i.Bus.{bus_clear}
use fakerv32i.Predictor.{bp_feedback, bp_feedback_jalr}
use fakerv32i.RegStore.{reg_store_set, reg_store_rob_id_clear, reg_file_clear}
use fakerv32i.Reservation.{rs_unit_clear}
use fakerv32i.Memory.Pending.{no_message, mem_clear}
use fakerv32i.LsQueue.{LsOp, ls_queue_clear, ls_queue_full, ls_queue_push}
use fakerv32i.Queue.{queue_empty, queue_first, queue_pop}
use fakerv32i.InstUnit.{inst_unit_force_pc}
use fakerv32i.ReorderBuffer.{
  RobPayload, Entry, even_addr, entry_of, id_at, rob_addr, rob_is_mispredicted, rob_unit_clear,
  with_entry,
}
use fakerv32i.Cpu.{Cpu}

-- `reg_store_set` for a destination that is not -1.
unfoldable pub set_dest : Option ℕ → ℕ → Cpu → Outcome Cpu
set_dest none value cpu = done cpu
set_dest (some reg) value cpu = do
  reg_store' ← reg_store_set cpu.reg_store reg value
  done (record cpu { reg_store = reg_store' })

-- The calls after a misprediction: the new address, and every component is cleared.
unfoldable pub flush : ℕ → Cpu → Outcome Cpu
flush addr cpu = do
  inst_unit' ← inst_unit_force_pc cpu.inst_unit addr
  reg_store' ← reg_file_clear cpu.reg_store
  rob' ← rob_unit_clear cpu.rob
  rs' ← rs_unit_clear cpu.rs
  ls_queue' ← ls_queue_clear cpu.ls_queue
  cdb' ← bus_clear cpu.cdb
  mem' ← mem_clear cpu.mem
  done (record cpu {
    inst_unit = inst_unit';
    reg_store = reg_store';
    rob = rob';
    rs = rs';
    ls_queue = ls_queue';
    cdb = cdb';
    mem = mem';
  })

-- The call of `bp_feedback`, or of `bp_feedback_jalr`.
unfoldable pub give_feedback : RobPayload → Bool → Cpu → Outcome Cpu
give_feedback payload mispredicted cpu = elim payload.op [
  | branch ↦ do
    bp' ←
        bp_feedback cpu.branch_predictor payload.pc payload.predicted_take
          (not (payload.value == 0))
    done (record cpu { branch_predictor = bp' })
  | jalr ↦ done (record cpu {
    branch_predictor =
        bp_feedback_jalr cpu.branch_predictor payload.pc (even_addr payload.addr)
          (not mispredicted);
  })
  | register ↦ done cpu
  | store ↦ done cpu
  | hcf ↦ done cpu
]

-- The branch of the `switch` for ROB_BRANCH and ROB_JALR.
unfoldable pub commit_jump : RobPayload → Cpu → Outcome Cpu
commit_jump payload cpu = do
  cpu1 ← set_dest payload.dest payload.value cpu
  mispredicted ← rob_is_mispredicted payload
  cpu2 ← give_feedback payload mispredicted cpu1
  addr ← rob_addr payload
  if mispredicted then flush addr cpu2 else done cpu2

-- `reg_store_set` with the destination as it is; a write to register -1 is undefined.
unfoldable pub commit_register : RobPayload → Cpu → Outcome Cpu
commit_register payload cpu = do reg ← in_range payload.dest; set_dest (some reg) payload.value cpu

-- The branch for ROB_STORE, with whether it succeeds.
unfoldable pub commit_store : RobPayload → Cpu → Outcome (Cpu × Bool)
commit_store payload cpu = if ls_queue_full cpu.ls_queue then done (cpu, false) else do
  (status, ls_queue') ← ls_queue_push cpu.ls_queue (record {
    op = LsOp.store;
    size = payload.size;
    addr = payload.addr;
    base_msg = no_message;
    cleared = false;
    value = payload.value;
  })
  done (record cpu { ls_queue = ls_queue' }, true)

-- The `switch`.
unfoldable pub commit_switch : RobPayload → Cpu → RobOp → Outcome (Cpu × Bool)
commit_switch payload cpu branch = do cpu' ← commit_jump payload cpu; done (cpu', true)
commit_switch payload cpu jalr = do cpu' ← commit_jump payload cpu; done (cpu', true)
commit_switch payload cpu register = do cpu' ← commit_register payload cpu; done (cpu', true)
commit_switch payload cpu store = commit_store payload cpu
commit_switch payload cpu hcf = done (record cpu { hcf = true }, false)

-- `reg_store_rob_id_clear` for a destination that is not -1.
unfoldable pub clear_dest : Option ℕ → ℕ → Cpu → Outcome Cpu
clear_dest none id cpu = done cpu
clear_dest (some reg) id cpu = do
  reg_store' ← reg_store_rob_id_clear cpu.reg_store reg id
  done (record cpu { reg_store = reg_store' })

-- The writes after a success: the entry is no longer ready, and leaves the queue.
unfoldable pub retire : ℕ → Entry → Cpu → Outcome Cpu
unfolding reg_mut_write
retire id entry cpu = do
  ready' ← reg_mut_write entry.ready (λ _. false)
  let rob = with_entry cpu.rob id (record entry { ready = ready' })
  (robs', at) ← queue_pop rob.robs
  done (record cpu { rob = record rob { robs = robs' } })

-- `_rob_commit` for the entry with an id.
unfoldable pub rob_commit : ℕ → Entry → Cpu → Outcome Cpu
unfolding reg_mut_read
rob_commit id entry cpu =
    let payload = reg_mut_read entry.payload in
    do
      (cpu1, success) ←
          commit_switch payload
            (record cpu { rob = record cpu.rob { commit_count = cpu.rob.commit_count + 1 } })
            payload.op
      if success
          then (do cpu2 ← clear_dest payload.dest id cpu1; retire id entry cpu2)
          else done cpu1

-- `_rob_unit_tick`, a callback of the clock.
unfoldable pub rob_unit_tick : Cpu → Outcome Cpu
unfolding reg_mut_read
rob_unit_tick cpu =
    if reg_mut_read cpu.rob.robs.clear
    then done cpu
    else if queue_empty cpu.rob.robs
    then done cpu
    else do
      at ← queue_first cpu.rob.robs
      p ← in_range at
      id ← id_at cpu.rob p
      entry ← entry_of cpu.rob id
      if reg_mut_read entry.ready then rob_commit id entry cpu else done cpu
