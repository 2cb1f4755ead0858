-- ===== src/Cpu/Retire/Effects/Switch.antt =====
-- reorder-buffer.c: the `switch` of the commit of an entry, against `retired`.
use fakerv32i.Base.{
  ℕ, ◌≡◌, refl, Bool, true, not, ◌==◌, of_bool, if◌then◌else◌, Option, none, some, Outcome, done,
  ◌>>=◌,
}
use fakerv32i.Rv32i.{RobOp, register, store, branch, jalr, hcf}
use fakerv32i.FakeCpu.Machine.{Machine}
use fakerv32i.ReorderBuffer.{RobPayload, even_addr, rob_addr, rob_is_mispredicted}
use fakerv32i.Cpu.{Cpu}
use fakerv32i.Cpu.Commit.{set_dest, commit_jump, commit_register, commit_switch}
use fakerv32i.Cpu.Jumps.{resolved}
use fakerv32i.LsQueue.{ls_queue_full}
use fakerv32i.Cpu.Commit.{commit_store}
use fakerv32i.Cpu.Retire.Stores.{Stored, ls_queue_push-Stored}
use fakerv32i.Cpu.Retire.{went_on, committed, retired}
use fakerv32i.Cpu.Retire.Effects.{
  Holds, HasTarget, IsCommitting, fetches_at, after_set, IsKept, set_dest-after_set,
  after_set-Holds,
}
use fakerv32i.Cpu.Retire.Effects.Jump.{commit_jump-fetches_at}

-- What the commit of an entry does to the registers and to the address where the fetch goes on.
abbrev pub Agrees : RobPayload → Cpu → Outcome (Cpu × Bool) → Outcome Machine → ℕ → Type 0
Agrees payload before commits retires next_pc =
    (cpu : Cpu) × (m : Machine) × (commits ≡ done (cpu, true))
    × (retires ≡ done m)
    × Holds cpu.reg_store m.regs
    × (fetches_at cpu.inst_unit next_pc ≡ m.pc)
    × IsKept payload before cpu

jump-Agrees :
    (payload : RobPayload) (next_pc addr : ℕ) (mispredicted : Bool) (cpu : Cpu) (m : Machine)
    → rob_is_mispredicted payload ≡ done mispredicted
    → rob_addr payload ≡ done addr
    → IsCommitting payload cpu
    → Holds cpu.reg_store m.regs
    → went_on payload next_pc ≡ resolved payload next_pc
    → Stored payload.op payload cpu.ls_queue.queue cpu.ls_queue.queue
    → Agrees payload cpu
        (do cpu' ← commit_jump payload cpu; done (cpu', true))
        (retired payload next_pc m)
        next_pc
unfolding retired resolved
jump-Agrees payload next_pc addr mispredicted cpu m e1 e2 c holds goes same =
    let (cpu', commits, holds', at, kept) =
      commit_jump-fetches_at payload next_pc addr mispredicted cpu m.regs e1 e2 c holds same in
    (
      cpu',
      record m {
        regs = committed m.regs payload.dest payload.value;
        pc = if mispredicted then addr else next_pc;
      },
      rw commits refl,
      simp (goes, e1, e2) refl,
      holds',
      at,
      kept,
    )

-- All entries but the halting one.
abbrev pub Commits : RobOp → Type 0
Commits register = Unit
Commits branch = Unit
Commits jalr = Unit
Commits store = Unit
Commits hcf = ⊥

has_target : (dest : Option ℕ) → HasTarget register dest → (rd : ℕ) × (dest ≡ some rd)
has_target none t = absurd (t refl)
has_target (some rd) t = (rd, refl)

no_target : (dest : Option ℕ) → HasTarget store dest → dest ≡ none
no_target none t = refl
no_target (some rd) t = absurd (t.1 refl)

commit_register-set_dest :
    (payload : RobPayload) (cpu : Cpu)
    → HasTarget register payload.dest
    → commit_register payload cpu ≡ set_dest payload.dest payload.value cpu
unfolding commit_register
commit_register-set_dest payload cpu t = let (rd, dest) = has_target payload.dest t in rw dest refl

abbrev with_op : RobPayload → RobOp → RobPayload
with_op payload op = record payload { op = op }

switch-Agrees :
    (payload : RobPayload) (op : RobOp) (next_pc : ℕ) (cpu : Cpu) (m : Machine)
    → Commits op
    → IsCommitting (with_op payload op) cpu
    → Holds cpu.reg_store m.regs
    → Agrees
        (with_op payload op)
        cpu
        (commit_switch (with_op payload op) cpu op)
        (retired (with_op payload op) next_pc m)
        next_pc
unfolding commit_switch commit_store ls_queue_full retired went_on committed after_set
    rob_is_mispredicted rob_addr fetches_at
switch-Agrees payload register next_pc cpu m has c holds = (
  record cpu { reg_store = after_set payload.dest payload.value cpu.reg_store },
  record m { regs = committed m.regs payload.dest payload.value; pc = next_pc },
  rw
      (
        commit_register-set_dest (with_op payload register) cpu c.target,
        set_dest-after_set register payload.dest payload.value cpu c.slots c.registers c.target,
      )
      refl,
  refl,
  after_set-Holds register payload.dest payload.value cpu.reg_store m.regs c.slots c.target holds,
  rw c.unforced refl,
  record { slots = refl; head = refl; tail = refl; capacity = refl; stored = refl },
)
switch-Agrees payload branch next_pc cpu m has c holds =
    jump-Agrees (with_op payload branch) next_pc payload.fallback
      (not (of_bool payload.predicted_take.take == payload.value)) cpu m refl refl c holds refl refl
switch-Agrees payload jalr next_pc cpu m has c holds =
    jump-Agrees (with_op payload jalr) next_pc (even_addr payload.addr)
      (not (payload.predicted_addr == even_addr payload.addr)) cpu m refl refl c holds refl refl
switch-Agrees payload store next_pc cpu m has c holds =
    let (ls, pushed, stored) =
      ls_queue_push-Stored (with_op payload store) cpu.ls_queue c.accepts in
    let none_target = no_target payload.dest c.target in
    (
      record cpu { ls_queue = ls },
      record m { regs = committed m.regs payload.dest payload.value; pc = next_pc },
      simp (c.accepts.room, pushed) refl,
      refl,
      rw none_target holds,
      rw c.unforced refl,
      record {
        slots = rw none_target refl;
        head = refl;
        tail = refl;
        capacity = refl;
        stored = stored;
      },
    )
switch-Agrees payload hcf next_pc cpu m has c holds = absurd has

-- The commit of an entry other than the halting one returns, as `retired` does. If the register store
-- is about to hold a machine's registers, it is after the commit about to hold those of the machine that
-- `retired` leaves, and the fetch goes on at that machine's program counter.
pub commit_switch-retired :
    (payload : RobPayload) (next_pc : ℕ) (cpu : Cpu) (m : Machine)
    → Commits payload.op
    → IsCommitting payload cpu
    → Holds cpu.reg_store m.regs
    → Agrees payload cpu (commit_switch payload cpu payload.op) (retired payload next_pc m) next_pc
commit_switch-retired payload = switch-Agrees payload payload.op
