-- ===== src/Cpu/Flush.antt =====
-- A misprediction in the pipeline: the cycle in which the requests to clear show.
use fakerv32i.Base.{ℕ, ◌+◌, map, ◌≡◌, refl, true, false, List, done}
use fakerv32i.Reg.{RegMut, reg_mut_tick, reg_mut_write}
use fakerv32i.Bus.{Bus, bus_clear}
use fakerv32i.Bus.Delivery.{ticked}
use fakerv32i.Queue.{Queue, queue_clear}
use fakerv32i.Reservation.{rs_unit_clear}
use fakerv32i.RegStore.{Slot, reg_file_clear}
use fakerv32i.Memory.Pending.{no_message, mem_clear, mem_regs}
use fakerv32i.LsQueue.{ls_queue_clear}
use fakerv32i.ReorderBuffer.{rob_unit_clear}
use fakerv32i.InstUnit.{InstUnit, inst_unit_force_pc}
use fakerv32i.Cpu.{Cpu}
use fakerv32i.Cpu.Commit.{flush}
use fakerv32i.Cpu.Clock.{alu_regs, inst_unit_regs, ls_queue_regs, rob_regs, rs_regs}

-- The registers that a flush writes are not written yet in this cycle.
pub record IsUnwritten (cpu : Cpu) : Type 0 where
  pub force_pc : cpu.inst_unit.force_pc.write_count ≡ 0
  pub reg_store : cpu.reg_store.clear.write_count ≡ 0
  pub rob : cpu.rob.robs.clear.write_count ≡ 0
  pub rs : cpu.rs.clear.write_count ≡ 0
  pub ls_queue : cpu.ls_queue.clear.write_count ≡ 0
  pub cdb : cpu.cdb.clear.write_count ≡ 0
  pub mem : cpu.mem.clear.write_count ≡ 0

-- The cycle in which every component sees that it is to be cleared.
pub record IsFlushing (addr : ℕ) (cpu : Cpu) : Type 0 where
  pub force_pc : cpu.inst_unit.force_pc.buf ≡ record { busy = true; addr = addr }
  pub inst_unit : (cpu.inst_unit.pc.write_count ≡ 0) × (cpu.inst_unit.force_pc.write_count ≡ 0)
  pub reg_store : cpu.reg_store.clear.buf ≡ true
  pub rob : cpu.rob.robs.clear.buf ≡ true
  pub robs :
      (cpu.rob.robs.head.write_count ≡ 0)
      × (cpu.rob.robs.tail.write_count ≡ 0)
      × (cpu.rob.robs.clear.write_count ≡ 0)
  pub rs : cpu.rs.clear.buf ≡ true
  pub ls_queue : cpu.ls_queue.clear.buf ≡ true
  pub cdb : cpu.cdb.clear.buf ≡ 2
  pub mem : cpu.mem.clear.buf ≡ true

-- A register written once.
abbrev pub written {ℓ} : {A : Type ℓ} → RegMut A → A → RegMut A
written reg value = record reg { next = value; write_count = 1 }

abbrev pub flushed : ℕ → Cpu → Cpu
flushed addr cpu = record cpu {
  inst_unit = record cpu.inst_unit {
    force_pc = written cpu.inst_unit.force_pc (record { busy = true; addr = addr });
  };
  reg_store = record cpu.reg_store { clear = written cpu.reg_store.clear true };
  rob = record cpu.rob { robs = record cpu.rob.robs { clear = written cpu.rob.robs.clear true } };
  rs = record cpu.rs { clear = written cpu.rs.clear true };
  ls_queue = record cpu.ls_queue { clear = written cpu.ls_queue.clear true };
  cdb = record cpu.cdb { clear = written cpu.cdb.clear 2 };
  mem = record cpu.mem { clear = written cpu.mem.clear true };
}

abbrev after_tick : List Slot → Cpu → Cpu
after_tick slots cpu = record cpu {
  clk = cpu.clk + 1;
  cdb = ticked no_message cpu.cdb;
  inst_unit = inst_unit_regs cpu.inst_unit;
  alu = map alu_regs cpu.alu;
  ls_queue = ls_queue_regs cpu.ls_queue;
  mem = mem_regs cpu.mem;
  reg_store = record { slots = slots; clear = reg_mut_tick false cpu.reg_store.clear };
  rob = rob_regs cpu.rob;
  rs = rs_regs cpu.rs;
}

pub flush-flushed :
    (addr : ℕ) (cpu : Cpu) → IsUnwritten cpu → flush addr cpu ≡ done (flushed addr cpu)
unfolding flush inst_unit_force_pc reg_file_clear rob_unit_clear rs_unit_clear ls_queue_clear
    bus_clear mem_clear queue_clear reg_mut_write
flush-flushed addr cpu u =
    simp (u.force_pc, u.reg_store, u.rob, u.rs, u.ls_queue, u.cdb, u.mem) refl
