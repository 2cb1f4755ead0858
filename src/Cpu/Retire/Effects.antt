-- ===== src/Cpu/Retire/Effects.antt =====
-- reorder-buffer.c: the calls that the commit of an entry makes, on registers and predictor.
pub mod Jump
pub mod Switch
pub mod Requests
pub mod Entry
use fakerv32i.Base.{
  ℕ, ◌+◌, ◌^◌, ◌<◌, ◌≡◌, ◌≢◌, refl, ◌∙◌, ap, arith, Bool, true, false, not, ◌==◌, of_bool,
  if◌then◌else◌, get_or, get_elem?, set, get_elem?-eq-get_or, get_or-set_self, get_or-set_ne,
  length-set, Option, none, some, Outcome, done, ◌>>=◌, in_range,
}
use fakerv32i.Rv32i.{RobOp, register, store, branch, jalr, hcf}
use fakerv32i.Reg.{reg_mut_create, reg_mut_write}
use fakerv32i.RegStore.{RegStore, Slot, ClearIf, reg_store_set, slot_set}
use fakerv32i.RegStore.Slots.{HasSlots}
use fakerv32i.FakeCpu.Machine.{Machine, write_reg}
use fakerv32i.Predictor.{BranchPredictor, bp_feedback, bp_feedback_jalr}
use fakerv32i.Predictor.Learning.{IsValid, bp_feedback-IsValid}
use fakerv32i.InstUnit.{InstUnit}
use fakerv32i.LsQueue.{LsQueue}
use fakerv32i.Cpu.Retire.Stores.{IsAccepting, Stored}
use fakerv32i.ReorderBuffer.{RobPayload, even_addr, rob_addr, rob_is_mispredicted}
use fakerv32i.Cpu.{Cpu}
use fakerv32i.Cpu.Commit.{
  set_dest, flush, give_feedback, commit_jump, commit_register, commit_switch,
}
use fakerv32i.Cpu.Jumps.{resolved}
use fakerv32i.Cpu.Flush.{IsUnwritten, written, flushed, flush-flushed}
use fakerv32i.Cpu.Retire.{went_on, committed, retired}

abbrev pub empty_slot : Slot
empty_slot = record {
  register = reg_mut_create 0;
  rob_id_set = reg_mut_create 0;
  rob_id_clear_if = reg_mut_create ClearIf.never;
  rob_id = 0;
}

abbrev pub slot_at : RegStore → ℕ → Slot
slot_at regs r = get_or regs.slots r empty_slot

-- The registers of a machine, as the register store will hold them from the next cycle on.
abbrev pub Holds : RegStore → (ℕ → ℕ) → Type 0
Holds regs values = (r : ℕ) → 0 < r → r < 32 → (slot_at regs r).register.next ≡ values r

-- The destination is one of the registers; an entry that only writes one has one, and a store has none.
abbrev pub HasTarget : RobOp → Option ℕ → Type 0
HasTarget op none = op ≢ register
HasTarget op (some rd) = (rd < 32) × (op ≢ store)

-- The load/store queue takes a store.
abbrev pub Accepts : RobOp → LsQueue → Type 0
Accepts store ls = IsAccepting ls.queue
Accepts register ls = Unit
Accepts branch ls = Unit
Accepts jalr ls = Unit
Accepts hcf ls = Unit

-- A cycle in which nothing has been committed yet, with an entry of a predictor's history.
pub record IsCommitting (payload : RobPayload) (cpu : Cpu) : Type 0 where
  pub unwritten : IsUnwritten cpu
  pub unforced : cpu.inst_unit.force_pc.next.busy ≡ false
  pub slots : HasSlots cpu.reg_store
  pub registers : (r : ℕ) → r < 32 → (slot_at cpu.reg_store r).register.write_count ≡ 0
  pub target : HasTarget payload.op payload.dest
  pub accepts : Accepts payload.op cpu.ls_queue
  pub predictor : IsValid cpu.branch_predictor
  pub history : payload.predicted_take.hist < 2 ^ 8

-- Where the fetch goes on: at the forced address if there is one.
pub fetches_at : InstUnit → ℕ → ℕ
fetches_at unit next_pc = if unit.force_pc.next.busy then unit.force_pc.next.addr else next_pc

pub after_set : Option ℕ → ℕ → RegStore → RegStore
after_set none value regs = regs
after_set (some rd) value regs = if rd == 0 then regs else record regs {
  slots =
      set regs.slots rd
        (record (slot_at regs rd) { register = written (slot_at regs rd).register value });
}

-- The `switch` writes the destination, and nothing else of what the later calls read.
pub record IsKept (payload : RobPayload) (before : Cpu) (after : Cpu) : Type 0 where
  pub slots : after.reg_store.slots ≡ (after_set payload.dest payload.value before.reg_store).slots
  pub head : after.rob.robs.head ≡ before.rob.robs.head
  pub tail : after.rob.robs.tail ≡ before.rob.robs.tail
  pub stored : Stored payload.op payload before.ls_queue.queue after.ls_queue.queue
  pub capacity : after.rob.robs.capacity ≡ before.rob.robs.capacity

reg_store_set-after_set :
    (rd value : ℕ) (regs : RegStore)
    → HasSlots regs
    → (slot_at regs rd).register.write_count ≡ 0
    → rd < 32
    → reg_store_set regs rd value ≡ done (after_set (some rd) value regs)
unfolding reg_store_set slot_set reg_mut_write after_set
reg_store_set-after_set rd value regs h w lt =
    simp (get_elem?-eq-get_or regs.slots rd empty_slot (omega arith), w) (ground arith)

pub set_dest-after_set :
    (op : RobOp) (dest : Option ℕ) (value : ℕ) (cpu : Cpu)
    → HasSlots cpu.reg_store
    → ((r : ℕ) → r < 32 → (slot_at cpu.reg_store r).register.write_count ≡ 0)
    → HasTarget op dest
    → set_dest dest value cpu ≡ done (record cpu { reg_store = after_set dest value cpu.reg_store })
unfolding set_dest after_set
set_dest-after_set op none value cpu h w t = refl
set_dest-after_set op (some rd) value cpu h w t =
    rw (reg_store_set-after_set rd value cpu.reg_store h (w rd t.0) t.0) refl

pub after_set-Holds :
    (op : RobOp) (dest : Option ℕ) (value : ℕ) (regs : RegStore) (values : ℕ → ℕ)
    → HasSlots regs
    → HasTarget op dest
    → Holds regs values
    → Holds (after_set dest value regs) (committed values dest value)
unfolding after_set committed
after_set-Holds op none value regs values h t holds r pos lt = holds r pos lt
after_set-Holds op (some rd) value regs values h t holds r pos lt = ground (
  arith,
  holds r pos lt,
  get_or-set_self regs.slots rd
      (record (slot_at regs rd) { register = written (slot_at regs rd).register value }) empty_slot,
  get_or-set_ne regs.slots rd r
      (record (slot_at regs rd) { register = written (slot_at regs rd).register value }) empty_slot,
)

pub give_feedback-learns :
    (payload : RobPayload) (mispredicted : Bool) (cpu : Cpu)
    → IsValid cpu.branch_predictor
    → payload.predicted_take.hist < 2 ^ 8
    → (bp : BranchPredictor) × (give_feedback payload mispredicted cpu
        ≡ done (record cpu { branch_predictor = bp }))
unfolding give_feedback
give_feedback-learns payload mispredicted cpu v h =
    let (predicted, bp', fed, valid) =
      bp_feedback-IsValid cpu.branch_predictor payload.pc payload.predicted_take
        (not (payload.value == 0)) v h in
    elim payload.op
      as (λ op.
        (bp : BranchPredictor) × (give_feedback (record payload { op = op }) mispredicted cpu
          ≡ done (record cpu { branch_predictor = bp }))) [
            | branch ↦ (bp', rw fed refl)
            | jalr ↦ (_, refl)
            | register ↦ (cpu.branch_predictor, refl)
            | store ↦ (cpu.branch_predictor, refl)
            | hcf ↦ (cpu.branch_predictor, refl)
          ]
