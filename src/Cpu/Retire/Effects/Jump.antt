-- ===== src/Cpu/Retire/Effects/Jump.antt =====
-- reorder-buffer.c: the commit of a jump, with and without a misprediction.
use fakerv32i.Base.{ℕ, ◌≡◌, refl, arith, Bool, true, false, if◌then◌else◌, Option, none, some, done}
use fakerv32i.RegStore.{RegStore}
use fakerv32i.Predictor.{BranchPredictor}
use fakerv32i.ReorderBuffer.{RobPayload, rob_addr, rob_is_mispredicted}
use fakerv32i.Cpu.{Cpu}
use fakerv32i.Cpu.Commit.{commit_jump}
use fakerv32i.Cpu.Retire.Stores.{Stored}
use fakerv32i.Cpu.Flush.{IsUnwritten, flushed, flush-flushed}
use fakerv32i.Cpu.Retire.{committed}
use fakerv32i.Cpu.Retire.Effects.{
  Holds, IsCommitting, fetches_at, after_set, IsKept, set_dest-after_set, after_set-Holds,
  give_feedback-learns,
}

-- The record after the first calls of the commit of a jump.
abbrev landed : RobPayload → BranchPredictor → Cpu → Cpu
landed payload bp cpu = record cpu {
  reg_store = after_set payload.dest payload.value cpu.reg_store;
  branch_predictor = bp;
}

after_set-clear :
    (dest : Option ℕ) (value : ℕ) (regs : RegStore) → (after_set dest value regs).clear ≡ regs.clear
unfolding after_set
after_set-clear none value regs = refl
after_set-clear (some rd) value regs = ground arith

landed-IsUnwritten :
    (payload : RobPayload) (bp : BranchPredictor) (cpu : Cpu)
    → IsUnwritten cpu
    → IsUnwritten (landed payload bp cpu)
landed-IsUnwritten payload bp cpu u = record {
  force_pc = u.force_pc;
  reg_store = rw (after_set-clear payload.dest payload.value cpu.reg_store) u.reg_store;
  rob = u.rob;
  rs = u.rs;
  ls_queue = u.ls_queue;
  cdb = u.cdb;
  mem = u.mem;
}

commit_jump-landed :
    (payload : RobPayload) (addr : ℕ) (mispredicted : Bool) (cpu : Cpu)
    → rob_is_mispredicted payload ≡ done mispredicted
    → rob_addr payload ≡ done addr
    → IsCommitting payload cpu
    → (bp : BranchPredictor) × (commit_jump payload cpu ≡ (
        if mispredicted
        then done (flushed addr (landed payload bp cpu))
        else done (landed payload bp cpu)))
unfolding commit_jump
commit_jump-landed payload addr mispredicted cpu e1 e2 c =
    let stored =
      set_dest-after_set payload.op payload.dest payload.value cpu c.slots c.registers c.target in
    let cpu1 = record cpu { reg_store = after_set payload.dest payload.value cpu.reg_store } in
    let (bp, fed) = give_feedback-learns payload mispredicted cpu1 c.predictor c.history in
    (
      bp,
      simp
          (
            stored,
            e1,
            fed,
            e2,
            flush-flushed addr (landed payload bp cpu)
                (landed-IsUnwritten payload bp cpu c.unwritten),
          )
          refl,
    )

pub commit_jump-fetches_at :
    (payload : RobPayload) (next_pc addr : ℕ) (mispredicted : Bool) (cpu : Cpu) (values : ℕ → ℕ)
    → rob_is_mispredicted payload ≡ done mispredicted
    → rob_addr payload ≡ done addr
    → IsCommitting payload cpu
    → Holds cpu.reg_store values
    → Stored payload.op payload cpu.ls_queue.queue cpu.ls_queue.queue
    → (cpu' : Cpu) × (commit_jump payload cpu ≡ done cpu')
      × Holds cpu'.reg_store (committed values payload.dest payload.value)
      × (fetches_at cpu'.inst_unit next_pc ≡ (if mispredicted then addr else next_pc))
      × IsKept payload cpu cpu'
unfolding fetches_at
commit_jump-fetches_at payload next_pc addr true cpu values e1 e2 c holds same =
    let (bp, commits) = commit_jump-landed payload addr true cpu e1 e2 c in
    (
      flushed addr (landed payload bp cpu),
      commits,
      after_set-Holds payload.op payload.dest payload.value cpu.reg_store values c.slots c.target
          holds,
      refl,
      record { slots = refl; head = refl; tail = refl; capacity = refl; stored = same },
    )
commit_jump-fetches_at payload next_pc addr false cpu values e1 e2 c holds same =
    let (bp, commits) = commit_jump-landed payload addr false cpu e1 e2 c in
    (
      landed payload bp cpu,
      commits,
      after_set-Holds payload.op payload.dest payload.value cpu.reg_store values c.slots c.target
          holds,
      rw c.unforced refl,
      record { slots = refl; head = refl; tail = refl; capacity = refl; stored = same },
    )
