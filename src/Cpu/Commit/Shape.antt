-- ===== src/Cpu/Commit/Shape.antt =====
-- The commit keeps the invariant of the processor.
use fakerv32i.Base.{
  ℕ, ◌+◌, Bool, true, false, not, ◌==◌, Option, none, some, done, in_range, arith, Always,
  Always-bind, Always-then, Always-if,
}
use fakerv32i.Rv32i.{RobOp, register, store, branch, jalr, hcf}
use fakerv32i.Reg.{reg_mut_read, reg_mut_write}
use fakerv32i.Bus.{bus_clear}
use fakerv32i.Predictor.{BranchPredictor, bp_feedback}
use fakerv32i.RegStore.{reg_store_set, reg_store_rob_id_clear, reg_file_clear}
use fakerv32i.RegStore.Slots.{
  HasSlots, reg_store_set-HasSlots, reg_store_rob_id_clear-HasSlots, reg_file_clear-HasSlots,
}
use fakerv32i.Reservation.{RsUnit, rs_unit_clear}
use fakerv32i.Reservation.Issue.Shape.{AreSorted}
use fakerv32i.Memory.Pending.{no_message, mem_clear}
use fakerv32i.Memory.Pending.Content.{HasBytes, mem_clear-HasBytes}
use fakerv32i.LsQueue.{LsOp, ls_queue_clear, ls_queue_full, ls_queue_push}
use fakerv32i.LsQueue.Ring.{IsLsRing, ls_queue_clear-IsLsRing, ls_queue_push-IsLsRing}
use fakerv32i.Queue.{queue_empty, queue_first, queue_pop}
use fakerv32i.Queue.Bounds.{IsRingAnd, queue_pop-IsRing}
use fakerv32i.InstUnit.{inst_unit_force_pc}
use fakerv32i.ReorderBuffer.{
  RobPayload, Entry, entry_of, id_at, rob_addr, rob_is_mispredicted, rob_unit_clear, with_entry,
}
use fakerv32i.ReorderBuffer.Shape.{IsBuffer, rob_unit_clear-IsBuffer, with_entry-IsBuffer}
use fakerv32i.Cpu.{Cpu}
use fakerv32i.Cpu.Sound.{IsSound}
use fakerv32i.Cpu.Commit.{
  set_dest, flush, give_feedback, commit_jump, commit_register, commit_store, commit_switch,
  clear_dest, retire, rob_commit, rob_unit_tick,
}

set_dest-IsSound :
    (dest : Option ℕ) (value : ℕ) (cpu : Cpu)
    → IsSound cpu
    → Always IsSound (set_dest dest value cpu)
unfolding set_dest
set_dest-IsSound none value cpu h = h
set_dest-IsSound (some reg) value cpu h =
    Always-bind HasSlots IsSound (reg_store_set cpu.reg_store reg value) _
      (reg_store_set-HasSlots cpu.reg_store reg value h.slots)
      λ s hs. record {
        bytes = h.bytes;
        slots = hs;
        ls_ring = h.ls_ring;
        buffer = h.buffer;
        sorted = h.sorted;
      }

clear_dest-IsSound :
    (dest : Option ℕ) (id : ℕ) (cpu : Cpu) → IsSound cpu → Always IsSound (clear_dest dest id cpu)
unfolding clear_dest
clear_dest-IsSound none id cpu h = h
clear_dest-IsSound (some reg) id cpu h =
    Always-bind HasSlots IsSound (reg_store_rob_id_clear cpu.reg_store reg id) _
      (reg_store_rob_id_clear-HasSlots cpu.reg_store reg id h.slots)
      λ s hs. record {
        bytes = h.bytes;
        slots = hs;
        ls_ring = h.ls_ring;
        buffer = h.buffer;
        sorted = h.sorted;
      }

rs_unit_clear-AreSorted : (unit : RsUnit) → AreSorted unit → Always AreSorted (rs_unit_clear unit)
unfolding rs_unit_clear
rs_unit_clear-AreSorted unit h =
    Always-then AreSorted (reg_mut_write unit.clear (λ _. true)) _ λ clear'. h

flush-IsSound : (addr : ℕ) (cpu : Cpu) → IsSound cpu → Always IsSound (flush addr cpu)
unfolding flush
flush-IsSound addr cpu h =
    Always-then IsSound (inst_unit_force_pc cpu.inst_unit addr) _ λ inst_unit'.
      Always-bind HasSlots IsSound (reg_file_clear cpu.reg_store) _
        (reg_file_clear-HasSlots cpu.reg_store h.slots)
        λ reg_store' hs.
          Always-bind IsBuffer IsSound (rob_unit_clear cpu.rob) _
            (rob_unit_clear-IsBuffer cpu.rob h.buffer)
            λ rob' hr.
              Always-bind AreSorted IsSound (rs_unit_clear cpu.rs) _
                (rs_unit_clear-AreSorted cpu.rs h.sorted)
                λ rs' ho.
                  Always-bind IsLsRing IsSound (ls_queue_clear cpu.ls_queue) _
                    (ls_queue_clear-IsLsRing cpu.ls_queue h.ls_ring)
                    λ ls' hl. Always-then IsSound (bus_clear cpu.cdb) _ λ cdb'.
                      Always-bind HasBytes IsSound (mem_clear cpu.mem) _
                        (mem_clear-HasBytes cpu.mem h.bytes)
                        λ mem' hb. record {
                          bytes = hb;
                          slots = hs;
                          ls_ring = hl;
                          buffer = hr;
                          sorted = ho;
                        }

learnt-IsSound :
    (bp : BranchPredictor) (cpu : Cpu)
    → IsSound cpu
    → IsSound (record cpu { branch_predictor = bp })
learnt-IsSound bp cpu h = record {
  bytes = h.bytes;
  slots = h.slots;
  ls_ring = h.ls_ring;
  buffer = h.buffer;
  sorted = h.sorted;
}

give_feedback-IsSound :
    (payload : RobPayload) (mispredicted : Bool) (cpu : Cpu)
    → IsSound cpu
    → Always IsSound (give_feedback payload mispredicted cpu)
unfolding give_feedback
give_feedback-IsSound payload mispredicted cpu h =
    elim payload.op
      as (λ op. Always IsSound (give_feedback (record payload { op = op }) mispredicted cpu)) [
        | branch ↦
            Always-then IsSound
              (bp_feedback cpu.branch_predictor payload.pc payload.predicted_take
                (not (payload.value == 0)))
              _ λ bp'. learnt-IsSound bp' cpu h
        | jalr ↦ learnt-IsSound _ cpu h
        | register ↦ h
        | store ↦ h
        | hcf ↦ h
      ]

commit_jump-IsSound :
    (payload : RobPayload) (cpu : Cpu) → IsSound cpu → Always IsSound (commit_jump payload cpu)
unfolding commit_jump
commit_jump-IsSound payload cpu h =
    Always-bind IsSound IsSound (set_dest payload.dest payload.value cpu) _
      (set_dest-IsSound payload.dest payload.value cpu h)
      λ cpu1 h1. Always-then IsSound (rob_is_mispredicted payload) _ λ mispredicted.
        Always-bind IsSound IsSound (give_feedback payload mispredicted cpu1) _
          (give_feedback-IsSound payload mispredicted cpu1 h1)
          λ cpu2 h2. Always-then IsSound (rob_addr payload) _ λ addr.
            Always-if IsSound mispredicted (flush addr cpu2) (done cpu2)
              (flush-IsSound addr cpu2 h2) h2

-- With whether the commit succeeds.
abbrev SoundAnd : Cpu × Bool → Type 0
SoundAnd r = IsSound r.0

commit_store-IsSound :
    (payload : RobPayload) (cpu : Cpu) → IsSound cpu → Always SoundAnd (commit_store payload cpu)
unfolding commit_store
commit_store-IsSound payload cpu h =
    Always-if SoundAnd (ls_queue_full cpu.ls_queue) (done (cpu, false)) _ h (
      Always-bind (λ r. IsLsRing r.1) SoundAnd
        (ls_queue_push cpu.ls_queue (record {
          op = LsOp.store;
          size = payload.size;
          addr = payload.addr;
          base_msg = no_message;
          cleared = false;
          value = payload.value;
        }))
        _ (ls_queue_push-IsLsRing cpu.ls_queue _ h.ls_ring)
        λ pushed hl. record {
          bytes = h.bytes;
          slots = h.slots;
          ls_ring = hl;
          buffer = h.buffer;
          sorted = h.sorted;
        })

commit_switch-IsSound :
    (payload : RobPayload) (cpu : Cpu) (op : RobOp)
    → IsSound cpu
    → Always SoundAnd (commit_switch payload cpu op)
unfolding commit_switch commit_register
commit_switch-IsSound payload cpu branch h =
    Always-bind IsSound SoundAnd (commit_jump payload cpu) _ (commit_jump-IsSound payload cpu h)
      λ cpu' h'. h'
commit_switch-IsSound payload cpu jalr h =
    Always-bind IsSound SoundAnd (commit_jump payload cpu) _ (commit_jump-IsSound payload cpu h)
      λ cpu' h'. h'
commit_switch-IsSound payload cpu register h =
    Always-bind IsSound SoundAnd (commit_register payload cpu) _
      (Always-then IsSound (in_range payload.dest) _
        λ reg. set_dest-IsSound (some reg) payload.value cpu h)
      λ cpu' h'. h'
commit_switch-IsSound payload cpu store h = commit_store-IsSound payload cpu h
commit_switch-IsSound payload cpu hcf h = record {
  bytes = h.bytes;
  slots = h.slots;
  ls_ring = h.ls_ring;
  buffer = h.buffer;
  sorted = h.sorted;
}

retire-IsSound :
    (id : ℕ) (entry : Entry) (cpu : Cpu) → IsSound cpu → Always IsSound (retire id entry cpu)
unfolding retire
retire-IsSound id entry cpu h =
    Always-then IsSound (reg_mut_write entry.ready (λ _. false)) _ λ ready'.
      let rob = with_entry cpu.rob id (record entry { ready = ready' }) in
      let hr = with_entry-IsBuffer cpu.rob id (record entry { ready = ready' }) h.buffer in
      Always-bind (IsRingAnd 16) IsSound (queue_pop rob.robs) _
        (queue_pop-IsRing 16 (omega arith) rob.robs hr.0)
        λ popped hq. record {
          bytes = h.bytes;
          slots = h.slots;
          ls_ring = h.ls_ring;
          buffer = (hq, hr.1);
          sorted = h.sorted;
        }

rob_commit-IsSound :
    (id : ℕ) (entry : Entry) (cpu : Cpu) → IsSound cpu → Always IsSound (rob_commit id entry cpu)
unfolding rob_commit
rob_commit-IsSound id entry cpu h =
    let payload = reg_mut_read entry.payload in
    let counted = record cpu { rob = record cpu.rob { commit_count = cpu.rob.commit_count + 1 } } in
    Always-bind SoundAnd IsSound (commit_switch payload counted payload.op) _
      (commit_switch-IsSound payload counted payload.op (record {
        bytes = h.bytes;
        slots = h.slots;
        ls_ring = h.ls_ring;
        buffer = h.buffer;
        sorted = h.sorted;
      }))
      λ switched h1.
        Always-if IsSound switched.1 _ (done switched.0)
          (Always-bind IsSound IsSound (clear_dest payload.dest id switched.0) _
            (clear_dest-IsSound payload.dest id switched.0 h1)
            λ cpu2 h2. retire-IsSound id entry cpu2 h2)
          h1

pub rob_unit_tick-IsSound : (cpu : Cpu) → IsSound cpu → Always IsSound (rob_unit_tick cpu)
unfolding rob_unit_tick
rob_unit_tick-IsSound cpu h = Always-if IsSound (reg_mut_read cpu.rob.robs.clear) (done cpu) _ h (
    Always-if IsSound (queue_empty cpu.rob.robs) (done cpu) _ h (
      Always-then IsSound (queue_first cpu.rob.robs) _ λ at.
        Always-then IsSound (in_range at) _ λ p. Always-then IsSound (id_at cpu.rob p) _ λ id.
          Always-then IsSound (entry_of cpu.rob id) _ λ entry.
            Always-if IsSound (reg_mut_read entry.ready) (rob_commit id entry cpu) (done cpu)
              (rob_commit-IsSound id entry cpu h) h))
