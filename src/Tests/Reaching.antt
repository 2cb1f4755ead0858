-- ===== src/Tests/Reaching.antt =====
-- An instance for the invariant of the states that the processor reaches.
use fakerv32i.Base.{◌≡◌, refl, Bool, true, false, some, [], ◌∷◌, Outcome, done, fault}
use fakerv32i.Reg.{
  reg_mut_create, reg_mut_write, busy_wait_should_stall, busy_wait_tick, busy_wait_create,
}
use fakerv32i.Queue.{queue_create, queue_tick, queue_empty, queue_full, queue_push}
use fakerv32i.ReorderBuffer.{
  number_cells, rob_unit_create, rob_unit_full, rob_unit_acquire, acquire_cell, entry_of,
  with_entry,
}
use fakerv32i.Memory.{Bytes, mem_set, write_bytes, mem_get_inst, mem_get_sz}
use fakerv32i.Io.{Text, next_stop, read_num, read_octets, read_sections, read_to_memory}
use fakerv32i.Tests.Images.{digits, scan_hex}
use fakerv32i.Cpu.{Cpu, cpu_create, alu_pool_create, alu_create, bus_create, stations, rs_create}
use fakerv32i.Cpu.Clock.{
  cpu_tick, cpu_regs, reg_store_regs, cdb_callbacks, listeners, mem_callbacks, reg_store_callbacks,
  ls_queue_callbacks, ls_queue_regs, lock_regs, alu_callbacks, alus_callbacks, alu_regs,
  rs_callbacks, rs_regs, station_regs, inst_unit_regs, rob_regs, entry_regs, rob_callbacks,
}
use fakerv32i.Cpu.Clock.Reach.{Reachable, started, stepped, Reachable-IsSound}
use fakerv32i.RegStore.{
  each_slot, reg_store_create, slot_tick, slot_next, forgets, reg_file_tick, reg_store_rob_id_set,
}
use fakerv32i.Bus.{bus_tick, bus_arb_add}
use fakerv32i.Bus.Delivery.{ticked}
use fakerv32i.Bus.Helper.{
  bh_create, bh_tick, bh_send, bh_busy, helper_regs, bh_swap, bh_should_clear,
}
use fakerv32i.Memory.Pending.{
  mem_create, mem_regs, mem_tick, load_loop, read_flags, load_round, store_loop, store_round,
}
use fakerv32i.LsQueue.{ls_queue_create, ls_queue_tick, ls_queue_full}
use fakerv32i.AluUnit.{alu_tick}
use fakerv32i.Reservation.Issue.{
  rs_unit_tick, rsu_check_alu, ready_payload, rsu_check_load, check_load_loop, rsu_check_store,
  check_store_loop,
}
use fakerv32i.Cpu.Fetch.{inst_unit_tick, dispatch_inst, dispatch_to}
use fakerv32i.InstUnit.{inst_unit_create}
use fakerv32i.Inst.{inst_decode, inst_type, decode_switch, parts, inst_get, decode_i, base_inst}
use fakerv32i.Reservation.{rs_unit_acquire, first_free, rs_get_vec}
use fakerv32i.InstUnit.Dispatch.{inst_dispatch, has_dest, dispatch_switch, dispatch_i, inst_reg_set}
use fakerv32i.Cpu.Commit.{rob_unit_tick}
use fakerv32i.Cpu.Sound.{IsSound}

abbrev pub is_done : {A : Type 0} → Outcome A → Bool
is_done (done a) = true
is_done (fault e) = false

pub not_done : false ≡ true → ⊥
not_done h = cc

abbrev pub result : {A : Type 0} (m : Outcome A) → is_done m ≡ true → (a : A) × (m ≡ done a)
result (done a) h = (a, refl)
result (fault e) h = absurd (not_done h)

unfoldable created : (cpu : Cpu) × (cpu_create 5 ≡ done cpu)
unfolding cpu_create rob_unit_create number_cells reg_mut_create reg_mut_write queue_create
created = result (cpu_create 5) refl

-- The text "@0", and below it the halting instruction, the octets "13", "05", "f0" and "0f".
abbrev image : Text
image = 64 ∷ 48 ∷ 10 ∷ 49 ∷ 51 ∷ 32 ∷ 48 ∷ 53 ∷ 32 ∷ 102 ∷ 48 ∷ 32 ∷ 48 ∷ 102 ∷ 10 ∷ []

abbrev loaded_bytes : Bytes
loaded_bytes = write_bytes 4 (λ a. 0) 0 0x0ff00513

image_loads : read_to_memory scan_hex 6 (λ a. 0) image ≡ done (some loaded_bytes)
unfolding read_to_memory read_sections read_octets read_num scan_hex digits next_stop mem_set
image_loads = refl

abbrev first : Cpu
first = record created.0 { mem = record created.0.mem { bytes = loaded_bytes } }

first_tick : (cpu : Cpu) × (cpu_tick first ≡ done cpu)
unfolding created cpu_tick cpu_create rob_unit_create number_cells reg_mut_create reg_mut_write
    queue_create cpu_regs reg_store_regs each_slot reg_store_create slot_tick slot_next forgets
    cdb_callbacks bus_tick ticked alu_pool_create alu_create bh_create bus_arb_add mem_create
    bus_create listeners mem_callbacks bh_tick bh_send bh_busy mem_regs helper_regs bh_swap mem_tick
    load_loop read_flags load_round store_loop store_round reg_store_callbacks reg_file_tick
    ls_queue_callbacks queue_tick ls_queue_regs ls_queue_create ls_queue_tick busy_wait_should_stall
    busy_wait_tick lock_regs busy_wait_create queue_empty alu_callbacks alus_callbacks alu_regs
    alu_tick bh_should_clear rs_callbacks rs_unit_tick rs_regs rsu_check_alu stations station_regs
    rs_create ready_payload rsu_check_load ls_queue_full queue_full check_load_loop rsu_check_store
    check_store_loop inst_unit_tick inst_unit_regs inst_unit_create rob_unit_full rob_regs
    mem_get_inst mem_get_sz inst_decode dispatch_inst rs_unit_acquire first_free rs_get_vec
    inst_type rob_unit_acquire queue_push acquire_cell dispatch_to entry_of inst_dispatch entry_regs
    has_dest decode_switch parts inst_get decode_i reg_store_rob_id_set base_inst dispatch_switch
    dispatch_i inst_reg_set rob_callbacks with_entry rob_unit_tick
first_tick = result (cpu_tick first) refl

-- After the tick in which the halting instruction is fetched.
first-Reachable : Reachable first
unfolding created cpu_create mem_create
first-Reachable = started 5 6 scan_hex image created.0 loaded_bytes created.1 image_loads

Reachable-IsSound_example : IsSound first_tick.0
Reachable-IsSound_example =
    Reachable-IsSound first_tick.0 (stepped first first_tick.0 first-Reachable first_tick.1)
