-- ===== src/Cpu/Clock/Reach.antt =====
-- The states that the program reaches: main.c creates a processor, reads an image and ticks.
use fakerv32i.Base.{
  ℕ, zero, suc, ◌+◌, ◌≡◌, refl, arith, Option, some, done, Always, Always-bind, Always-done,
}
use fakerv32i.Rv32i.{RsType, reservation_station, load_buffer, store_buffer}
use fakerv32i.RegStore.Slots.{reg_store_create-HasSlots}
use fakerv32i.Reservation.Types.{AreOfType}
use fakerv32i.Memory.Pending.{mem_create}
use fakerv32i.LsQueue.Ring.{ls_queue_create-IsLsRing}
use fakerv32i.ReorderBuffer.{rob_unit_create}
use fakerv32i.ReorderBuffer.Shape.{IsBuffer, rob_unit_create-IsBuffer}
use fakerv32i.Memory.{Bytes}
use fakerv32i.Io.{Text, read_to_memory}
use fakerv32i.Io.Range.{read_to_memory-IsBytes}
use fakerv32i.Cpu.{Cpu, cpu_create, stations, rs_create}
use fakerv32i.Cpu.Sound.{IsSound}
use fakerv32i.Cpu.Clock.{cpu_tick}
use fakerv32i.Cpu.Clock.Invariant.{cpu_tick-IsSound}

station_list-AreOfType : (t : RsType) (n i : ℕ) → AreOfType t (stations n i t)
unfolding stations rs_create
station_list-AreOfType t zero i = tt
station_list-AreOfType t (suc n) i = (refl, station_list-AreOfType t n (i + 1))

cpu_create-IsSound : (garbage : ℕ) → Always IsSound (cpu_create garbage)
unfolding cpu_create mem_create
cpu_create-IsSound garbage =
    Always-bind IsBuffer IsSound rob_unit_create _ rob_unit_create-IsBuffer λ rob hr. record {
      bytes = λ a. omega arith;
      slots = reg_store_create-HasSlots;
      ls_ring = ls_queue_create-IsLsRing;
      buffer = hr;
      sorted = (
        station_list-AreOfType reservation_station 7 1,
        station_list-AreOfType load_buffer 8 8,
        station_list-AreOfType store_buffer 8 16,
      );
    }

-- The states that the program reaches: a new processor with the image in its memory, and the state after
-- any number of ticks. The predictor's history starts with what the allocated memory holds, and the
-- conversion of scanf may be any.
pub data Reachable : Cpu → Type 0 where
  started :
      (garbage fuel : ℕ) (scan : Text → Option (ℕ × Text)) (input : Text) (cpu : Cpu)
      (bytes : Bytes)
      → cpu_create garbage ≡ done cpu
      → read_to_memory scan fuel cpu.mem.bytes input ≡ done (some bytes)
      → Reachable (record cpu { mem = record cpu.mem { bytes = bytes } })
  stepped : (cpu cpu' : Cpu) → Reachable cpu → cpu_tick cpu ≡ done cpu' → Reachable cpu'

-- In every state that the program reaches memory holds bytes, there are 32 registers, both rings have
-- their size and their positions inside, the reorder buffer has an entry for each cell, and each list of
-- stations is of its type.
pub Reachable-IsSound : (cpu : Cpu) → Reachable cpu → IsSound cpu
Reachable-IsSound cpu (started garbage fuel scan input cpu0 bytes created loaded) =
    let h : IsSound cpu0 =
      Always-done IsSound cpu0 (cpu_create garbage) created (cpu_create-IsSound garbage) in
    record {
      bytes = read_to_memory-IsBytes scan fuel cpu0.mem.bytes input bytes h.bytes loaded;
      slots = h.slots;
      ls_ring = h.ls_ring;
      buffer = h.buffer;
      sorted = h.sorted;
    }
Reachable-IsSound cpu (stepped before after reached tick) =
    Always-done IsSound after (cpu_tick before) tick
      (cpu_tick-IsSound before (Reachable-IsSound before reached))
