-- ===== src/Cpu/Fetch.antt =====
-- inst-unit.c: the fetch of an instruction and its dispatch. The pointers of `inst_unit_t` lead to the
-- other components of the processor.
pub mod Shape
use fakerv32i.Base.{
  ℕ, false, ◌==◌, if◌then◌else◌, List, get_elem?, set, Option, none, some, Outcome, done, fault,
  undefined, ◌>>=◌, in_range,
}
use fakerv32i.Rv32i.{RsType, reservation_station, load_buffer, store_buffer}
use fakerv32i.Rv32i.InstOp
use fakerv32i.Reg.{reg_mut_read, reg_mut_write}
use fakerv32i.Inst.{Inst, inst_decode, inst_type}
use fakerv32i.Memory.{mem_get_inst}
use fakerv32i.Reservation.{Station, RsUnit, rs_get_vec, rs_unit_acquire}
use fakerv32i.ReorderBuffer.{RobUnit, entry_of, rob_unit_acquire, rob_unit_full, with_entry}
use fakerv32i.InstUnit.{InstUnit, ForcePc}
use fakerv32i.InstUnit.Dispatch.{inst_dispatch}
use fakerv32i.Cpu.{Cpu}

-- A change of the stations of a type.
pub with_vec : RsUnit → RsType → List Station → RsUnit
with_vec unit reservation_station rss = record unit { alu_stations = rss }
with_vec unit load_buffer rss = record unit { load_buffers = rss }
with_vec unit store_buffer rss = record unit { store_buffers = rss }

-- The first branch of `_inst_unit_tick`, for a program counter that is forced.
unfoldable pub take_forced : InstUnit → ForcePc → Outcome InstUnit
unfolding reg_mut_write
take_forced unit rec = do
  force_pc' ← reg_mut_write unit.force_pc (λ next. record next { busy = false })
  pc' ← reg_mut_write unit.pc (λ _. rec.addr)
  done (record { pc = pc'; force_pc = force_pc' })

-- The dispatch to a station, the one at `ix` of its type, and to an entry.
unfoldable pub dispatch_to : Inst → ℕ → ℕ → RobUnit × Option ℕ → Cpu → Outcome Cpu
unfolding reg_mut_write
dispatch_to inst pc ix (rob, none) cpu = fault undefined
dispatch_to inst pc ix (rob, some id) cpu =
    let rss = rs_get_vec cpu.rs (inst_type inst) in
    do
      rs ← in_range (get_elem? rss ix)
      entry ← entry_of rob id
      res ←
          inst_dispatch
            (record {
              reg_store = cpu.reg_store;
              rob = rob;
              cdb = cpu.cdb;
              branch_predictor = cpu.branch_predictor;
            })
            rs id entry inst pc
      pc' ← reg_mut_write cpu.inst_unit.pc (λ _. res.next_pc)
      done (record cpu {
        reg_store = res.reg_store;
        rob = with_entry rob id res.entry;
        rs = with_vec cpu.rs (inst_type inst) (set rss ix res.station);
        inst_unit = record cpu.inst_unit { pc = pc' };
      })

-- With a decoded instruction: a free station and a free entry.
unfoldable pub dispatch_inst : Inst → ℕ → Cpu → Outcome Cpu
dispatch_inst inst pc cpu = elim (rs_unit_acquire cpu.rs (inst_type inst)) [
  | none ↦ done cpu
  | some ix ↦ do acquired ← rob_unit_acquire cpu.rob; dispatch_to inst pc ix acquired cpu
]

-- `_inst_unit_tick`, a callback of the clock.
unfoldable pub inst_unit_tick : Cpu → Outcome Cpu
unfolding reg_mut_read
inst_unit_tick cpu =
    let rec = reg_mut_read cpu.inst_unit.force_pc in
    if rec.busy
    then (do
      inst_unit' ← take_forced cpu.inst_unit rec
      done (record cpu { inst_unit = inst_unit' }))
    else if rob_unit_full cpu.rob
    then done cpu
    else let pc = reg_mut_read cpu.inst_unit.pc in
      do
        inst_bin ← mem_get_inst cpu.mem.bytes pc
        let inst = inst_decode inst_bin
        if inst.op == InstOp.unimp then done cpu else dispatch_inst inst pc cpu
