-- ===== src/Cpu/Sound.antt =====
-- The invariant of the pipelined processor of cpu.c.
use fakerv32i.RegStore.Slots.{HasSlots}
use fakerv32i.LsQueue.Ring.{IsLsRing}
use fakerv32i.ReorderBuffer.Shape.{IsBuffer}
use fakerv32i.Reservation.Issue.Shape.{AreSorted}
use fakerv32i.Memory.Pending.Content.{HasBytes}
use fakerv32i.Cpu.{Cpu}

-- Memory holds bytes; there are 32 registers; the ring of the load/store queue has 8 cells and that of the
-- reorder buffer 16, with the positions inside, and as many entries; and each list of stations is of its
-- type.
pub record IsSound (cpu : Cpu) : Type 0 where
  pub bytes : HasBytes cpu.mem
  pub slots : HasSlots cpu.reg_store
  pub ls_ring : IsLsRing cpu.ls_queue
  pub buffer : IsBuffer cpu.rob
  pub sorted : AreSorted cpu.rs
