-- ===== src/Cpu/Clock.antt =====
-- clk.c: a tick of the processor: the mutable registers, the computed ones, and the callbacks in the
-- order in which the components add them.
pub mod Invariant
pub mod Reach
use fakerv32i.Base.{
  ℕ, zero, suc, ◌+◌, Bool, true, false, List, [], ◌∷◌, map, Option, none, some, Outcome, done,
  ◌>>=◌,
}
use fakerv32i.Reg.{BusyWait, busy_wait_tick, reg_mut_tick, reg_mut_read, reg_reduce_tick}
use fakerv32i.Bus.{Bus, bus_tick}
use fakerv32i.Bus.Delivery.{ticked}
use fakerv32i.Bus.Helper.{bh_tick, helper_regs}
use fakerv32i.RegStore.{RegStore, each_slot, reg_file_tick, slot_tick}
use fakerv32i.Queue.{queue_regs_tick, queue_tick}
use fakerv32i.Reservation.{CdbMessage, RsUnit, Station, rs_onmsg}
use fakerv32i.Reservation.Issue.{rs_unit_tick}
use fakerv32i.AluUnit.{Alu, alu_tick}
use fakerv32i.Memory.Pending.{mem_regs, mem_tick, no_message}
use fakerv32i.LsQueue.{LsQueue, ls_queue_tick, no_payload}
use fakerv32i.ReorderBuffer.{Entry, RobUnit, no_rob_payload, rob_unit_onmsg}
use fakerv32i.InstUnit.{InstUnit, no_force}
use fakerv32i.Cpu.{Cpu, no_result, no_rs_payload, no_task}
use fakerv32i.Cpu.Commit.{rob_unit_tick}
use fakerv32i.Cpu.Fetch.{inst_unit_tick}

-- The registers of each component.
unfoldable pub lock_regs : BusyWait → BusyWait
unfolding reg_mut_tick reg_reduce_tick
lock_regs lock = record {
  stall = reg_reduce_tick lock.stall;
  signal = reg_mut_tick false lock.signal;
}

unfoldable pub ls_queue_regs : LsQueue → LsQueue
unfolding reg_mut_tick queue_regs_tick
ls_queue_regs ls = record {
  queue = queue_regs_tick no_payload ls.queue;
  lock = lock_regs ls.lock;
  clear = reg_mut_tick false ls.clear;
}

unfoldable pub alu_regs : Alu → Alu
unfolding reg_mut_tick reg_reduce_tick
alu_regs alu = record {
  cdb_helper = helper_regs no_message alu.cdb_helper;
  task = reg_mut_tick no_task alu.task;
  busy = reg_reduce_tick alu.busy;
  result_buf = reg_mut_tick no_result alu.result_buf;
}

unfoldable pub station_regs : Station → Station
unfolding reg_mut_tick
station_regs rs = record rs {
  busy = reg_mut_tick false rs.busy;
  payload = reg_mut_tick no_rs_payload rs.payload;
}

unfoldable pub rs_regs : RsUnit → RsUnit
unfolding reg_mut_tick
rs_regs unit = record {
  alu_stations = map station_regs unit.alu_stations;
  load_buffers = map station_regs unit.load_buffers;
  store_buffers = map station_regs unit.store_buffers;
  clear = reg_mut_tick false unit.clear;
}

unfoldable pub entry_regs : Entry → Entry
unfolding reg_mut_tick
entry_regs entry = record {
  ready = reg_mut_tick false entry.ready;
  payload = reg_mut_tick no_rob_payload entry.payload;
}

unfoldable pub rob_regs : RobUnit → RobUnit
unfolding queue_regs_tick
rob_regs rob = record rob {
  robs = queue_regs_tick 0 rob.robs;
  entries = map entry_regs rob.entries;
}

unfoldable pub inst_unit_regs : InstUnit → InstUnit
unfolding reg_mut_tick
inst_unit_regs unit = record {
  pc = reg_mut_tick 0 unit.pc;
  force_pc = reg_mut_tick no_force unit.force_pc;
}

-- With the registers of a slot comes the update of its entry, the computed register of the store.
unfoldable pub reg_store_regs : RegStore → Outcome RegStore
unfolding reg_mut_tick
reg_store_regs reg = do
  slots' ← each_slot slot_tick reg.slots
  done (record { slots = slots'; clear = reg_mut_tick false reg.clear })

-- All registers, and the count of the cycles.
unfoldable pub cpu_regs : Cpu → Outcome Cpu
cpu_regs cpu = do
  reg_store' ← reg_store_regs cpu.reg_store
  done (record cpu {
    clk = cpu.clk + 1;
    cdb = ticked no_message cpu.cdb;
    inst_unit = inst_unit_regs cpu.inst_unit;
    alu = map alu_regs cpu.alu;
    ls_queue = ls_queue_regs cpu.ls_queue;
    mem = mem_regs cpu.mem;
    reg_store = reg_store';
    rob = rob_regs cpu.rob;
    rs = rs_regs cpu.rs;
  })

-- The stations of one type as listeners.
unfoldable pub stations_onmsg : Bool → CdbMessage → List Station → Outcome (List Station)
stations_onmsg clearing msg [] = done []
stations_onmsg clearing msg (rs ∷ rest) = do
  rs' ← rs_onmsg clearing msg rs
  rest' ← stations_onmsg clearing msg rest
  done (rs' ∷ rest')

-- The listeners of the bus: the reorder buffer, and then the stations.
unfoldable pub listeners : Option CdbMessage → Cpu → Outcome Cpu
unfolding reg_mut_read
listeners none cpu = done cpu
listeners (some msg) cpu =
    let clearing = reg_mut_read cpu.rs.clear in
    do
      rob' ← rob_unit_onmsg msg cpu.rob
      alu_stations ← stations_onmsg clearing msg cpu.rs.alu_stations
      load_buffers ← stations_onmsg clearing msg cpu.rs.load_buffers
      store_buffers ← stations_onmsg clearing msg cpu.rs.store_buffers
      done (record cpu {
        rob = rob';
        rs = record cpu.rs {
          alu_stations = alu_stations;
          load_buffers = load_buffers;
          store_buffers = store_buffers;
        };
      })

-- The callbacks of the bus and of its listeners.
unfoldable pub cdb_callbacks : Cpu → Outcome Cpu
cdb_callbacks cpu = do (cdb', msg) ← bus_tick cpu.cdb; listeners msg (record cpu { cdb = cdb' })

-- Those of the memory: its sender's, and its own. The lock of the load/store queue takes the signal.
unfoldable pub mem_callbacks : Cpu → Outcome Cpu
mem_callbacks cpu = do
  (helper', cdb1) ← bh_tick cpu.mem.cdb_helper cpu.cdb
  ticked_mem ← mem_tick (record cpu.mem { cdb_helper = helper' }) cdb1 cpu.ls_queue.lock
  done (record cpu {
    mem = ticked_mem.0;
    cdb = ticked_mem.1;
    ls_queue = record cpu.ls_queue { lock = ticked_mem.2 };
  })

unfoldable pub reg_store_callbacks : Cpu → Outcome Cpu
reg_store_callbacks cpu = do
  reg_store' ← reg_file_tick cpu.reg_store
  done (record cpu { reg_store = reg_store' })

-- Those of the load/store queue: the ring, the lock, and its own.
unfoldable pub ls_queue_callbacks : Cpu → Outcome Cpu
ls_queue_callbacks cpu = do
  queue' ← queue_tick cpu.ls_queue.queue
  let ls = record cpu.ls_queue { queue = queue'; lock = busy_wait_tick cpu.ls_queue.lock }
  (ls', mem') ← ls_queue_tick ls cpu.mem
  done (record cpu { ls_queue = ls'; mem = mem' })

-- Those of the units: the sender's and its own, for each unit.
unfoldable pub alus_callbacks : Bus CdbMessage → List Alu → Outcome (List Alu × Bus CdbMessage)
alus_callbacks cdb [] = done ([], cdb)
alus_callbacks cdb (alu ∷ rest) = do
  (helper', cdb1) ← bh_tick alu.cdb_helper cdb
  (alu', cdb2) ← alu_tick (record alu { cdb_helper = helper' }) cdb1
  (rest', cdb3) ← alus_callbacks cdb2 rest
  done (alu' ∷ rest', cdb3)

unfoldable pub alu_callbacks : Cpu → Outcome Cpu
alu_callbacks cpu = do
  (alu', cdb') ← alus_callbacks cpu.cdb cpu.alu
  done (record cpu { alu = alu'; cdb = cdb' })

unfoldable pub rs_callbacks : Cpu → Outcome Cpu
rs_callbacks cpu = do
  s ←
      rs_unit_tick cpu.cdb
        (record { unit = cpu.rs; alus = cpu.alu; ls_queue = cpu.ls_queue; rob = cpu.rob })
  done (record cpu { rs = s.unit; alu = s.alus; ls_queue = s.ls_queue; rob = s.rob })

-- Those of the reorder buffer: the ring, and its own.
unfoldable pub rob_callbacks : Cpu → Outcome Cpu
rob_callbacks cpu = do
  robs' ← queue_tick cpu.rob.robs
  rob_unit_tick (record cpu { rob = record cpu.rob { robs = robs' } })

-- `cpu_tick`, which is `clk_tick`.
unfoldable pub cpu_tick : Cpu → Outcome Cpu
cpu_tick cpu =
    cpu_regs cpu
    >>= cdb_callbacks
    >>= mem_callbacks
    >>= reg_store_callbacks
    >>= ls_queue_callbacks
    >>= alu_callbacks
    >>= rs_callbacks
    >>= inst_unit_tick
    >>= rob_callbacks

-- The loop of `main`, with fuel; none where the fuel runs out.
pub cpu_run : ℕ → Cpu → Outcome (Option Cpu)
cpu_run zero cpu = done none
cpu_run (suc fuel) cpu = elim cpu.hcf [
  | true ↦ done (some cpu)
  | false ↦ cpu_tick cpu >>= cpu_run fuel
]
