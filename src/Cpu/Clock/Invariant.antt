-- ===== src/Cpu/Clock/Invariant.antt =====
-- clk.c: the callbacks of a tick, one by one, and the invariant of the processor.
use fakerv32i.Base.{
  ◌≡◌, refl, ◌∙◌, arith, Bool, List, [], ◌∷◌, length, length-map, Option, none, some, Outcome,
  ◌>>=◌, Always, Always-bind, Always-then,
}
use fakerv32i.Rv32i.{RsType, reservation_station, load_buffer, store_buffer}
use fakerv32i.Reg.{busy_wait_tick, reg_mut_read}
use fakerv32i.Bus.{bus_tick}
use fakerv32i.Bus.Helper.{bh_tick}
use fakerv32i.RegStore.{each_slot, slot_tick, reg_file_tick}
use fakerv32i.RegStore.Slots.{HasSlots, each_slot-length, reg_file_tick-HasSlots}
use fakerv32i.Queue.{queue_tick}
use fakerv32i.Queue.Bounds.{IsRing, queue_regs_tick-IsRing, queue_tick-IsRing}
use fakerv32i.Reservation.{CdbMessage, Station, rs_onmsg}
use fakerv32i.Reservation.Types.{AreOfType, KeepsType, map-AreOfType, rs_onmsg-KeepsType}
use fakerv32i.Reservation.Issue.{Issue, rs_unit_tick}
use fakerv32i.Reservation.Issue.Shape.{IsIssue, rs_unit_tick-IsIssue}
use fakerv32i.Memory.Pending.{mem_tick, mem_regs}
use fakerv32i.Memory.Pending.Content.{HasBytes, mem_tick-HasBytes}
use fakerv32i.LsQueue.{ls_queue_tick, no_payload}
use fakerv32i.LsQueue.Ring.{IsLsPair, ls_queue_tick-IsLsPair}
use fakerv32i.ReorderBuffer.{rob_unit_onmsg}
use fakerv32i.ReorderBuffer.Shape.{IsBuffer, rob_unit_onmsg-IsBuffer}
use fakerv32i.Cpu.{Cpu}
use fakerv32i.Cpu.Sound.{IsSound}
use fakerv32i.Cpu.Commit.Shape.{rob_unit_tick-IsSound}
use fakerv32i.Cpu.Fetch.{inst_unit_tick}
use fakerv32i.Cpu.Fetch.Shape.{inst_unit_tick-IsSound}
use fakerv32i.Cpu.Clock.{
  station_regs, rs_regs, entry_regs, rob_regs, ls_queue_regs, reg_store_regs, cpu_regs,
  stations_onmsg, listeners, cdb_callbacks, mem_callbacks, reg_store_callbacks, ls_queue_callbacks,
  alus_callbacks, alu_callbacks, rs_callbacks, rob_callbacks, cpu_tick,
}

station_regs-KeepsType : (rs : Station) → KeepsType rs (station_regs rs)
unfolding station_regs
station_regs-KeepsType rs = refl

cpu_regs-IsSound : (cpu : Cpu) → IsSound cpu → Always IsSound (cpu_regs cpu)
unfolding cpu_regs reg_store_regs ls_queue_regs rob_regs rs_regs mem_regs
cpu_regs-IsSound cpu h =
    let sorted = h.sorted in
    Always-bind HasSlots IsSound (reg_store_regs cpu.reg_store) _
      (Always-bind (λ s. length s ≡ length cpu.reg_store.slots) HasSlots
        (each_slot slot_tick cpu.reg_store.slots) _ (each_slot-length slot_tick cpu.reg_store.slots)
        λ slots' e. e ∙ h.slots)
      λ reg_store' hs. record {
        bytes = h.bytes;
        slots = hs;
        ls_ring = queue_regs_tick-IsRing 8 (omega arith) no_payload cpu.ls_queue.queue h.ls_ring;
        buffer = (
          queue_regs_tick-IsRing 16 (omega arith) 0 cpu.rob.robs h.buffer.0,
          length-map entry_regs cpu.rob.entries ∙ h.buffer.1,
        );
        sorted = (
          map-AreOfType reservation_station station_regs cpu.rs.alu_stations station_regs-KeepsType
              sorted.0,
          map-AreOfType load_buffer station_regs cpu.rs.load_buffers station_regs-KeepsType
              sorted.1,
          map-AreOfType store_buffer station_regs cpu.rs.store_buffers station_regs-KeepsType
              sorted.2,
        );
      }

stations_onmsg-AreOfType :
    (t : RsType) (clearing : Bool) (msg : CdbMessage) (rss : List Station)
    → AreOfType t rss
    → Always (AreOfType t) (stations_onmsg clearing msg rss)
unfolding stations_onmsg
stations_onmsg-AreOfType t clearing msg [] h = tt
stations_onmsg-AreOfType t clearing msg (rs ∷ rest) h =
    Always-bind (KeepsType rs) (AreOfType t) (rs_onmsg clearing msg rs) _
      (rs_onmsg-KeepsType clearing msg rs)
      λ rs' e.
        Always-bind (AreOfType t) (AreOfType t) (stations_onmsg clearing msg rest) _
          (stations_onmsg-AreOfType t clearing msg rest h.1) λ rest' h'. (e ∙ h.0, h')

listeners-IsSound :
    (msg : Option CdbMessage) (cpu : Cpu) → IsSound cpu → Always IsSound (listeners msg cpu)
unfolding listeners
listeners-IsSound none cpu h = h
listeners-IsSound (some msg) cpu h =
    let clearing = reg_mut_read cpu.rs.clear in
    let sorted = h.sorted in
    Always-bind IsBuffer IsSound (rob_unit_onmsg msg cpu.rob) _
      (rob_unit_onmsg-IsBuffer msg cpu.rob h.buffer)
      λ rob' hr.
        Always-bind (AreOfType reservation_station) IsSound
          (stations_onmsg clearing msg cpu.rs.alu_stations) _
          (stations_onmsg-AreOfType reservation_station clearing msg cpu.rs.alu_stations sorted.0)
          λ alus h0.
            Always-bind (AreOfType load_buffer) IsSound
              (stations_onmsg clearing msg cpu.rs.load_buffers) _
              (stations_onmsg-AreOfType load_buffer clearing msg cpu.rs.load_buffers sorted.1)
              λ loads h1.
                Always-bind (AreOfType store_buffer) IsSound
                  (stations_onmsg clearing msg cpu.rs.store_buffers) _
                  (stations_onmsg-AreOfType store_buffer clearing msg cpu.rs.store_buffers sorted.2)
                  λ stores h2. record {
                    bytes = h.bytes;
                    slots = h.slots;
                    ls_ring = h.ls_ring;
                    buffer = hr;
                    sorted = (h0, h1, h2);
                  }

cdb_callbacks-IsSound : (cpu : Cpu) → IsSound cpu → Always IsSound (cdb_callbacks cpu)
unfolding cdb_callbacks
cdb_callbacks-IsSound cpu h = Always-then IsSound (bus_tick cpu.cdb) _ λ r.
    listeners-IsSound r.1 (record cpu { cdb = r.0 })
      (record {
        bytes = h.bytes;
        slots = h.slots;
        ls_ring = h.ls_ring;
        buffer = h.buffer;
        sorted = h.sorted;
      })

mem_callbacks-IsSound : (cpu : Cpu) → IsSound cpu → Always IsSound (mem_callbacks cpu)
unfolding mem_callbacks
mem_callbacks-IsSound cpu h = Always-then IsSound (bh_tick cpu.mem.cdb_helper cpu.cdb) _ λ r.
    Always-bind (λ t. HasBytes t.0) IsSound
      (mem_tick (record cpu.mem { cdb_helper = r.0 }) r.1 cpu.ls_queue.lock) _
      (mem_tick-HasBytes (record cpu.mem { cdb_helper = r.0 }) r.1 cpu.ls_queue.lock h.bytes)
      λ t hb. record {
        bytes = hb;
        slots = h.slots;
        ls_ring = h.ls_ring;
        buffer = h.buffer;
        sorted = h.sorted;
      }

reg_store_callbacks-IsSound : (cpu : Cpu) → IsSound cpu → Always IsSound (reg_store_callbacks cpu)
unfolding reg_store_callbacks
reg_store_callbacks-IsSound cpu h =
    Always-bind HasSlots IsSound (reg_file_tick cpu.reg_store) _
      (reg_file_tick-HasSlots cpu.reg_store h.slots)
      λ s hs. record {
        bytes = h.bytes;
        slots = hs;
        ls_ring = h.ls_ring;
        buffer = h.buffer;
        sorted = h.sorted;
      }

ls_queue_callbacks-IsSound : (cpu : Cpu) → IsSound cpu → Always IsSound (ls_queue_callbacks cpu)
unfolding ls_queue_callbacks
ls_queue_callbacks-IsSound cpu h =
    Always-bind (IsRing 8) IsSound (queue_tick cpu.ls_queue.queue) _
      (queue_tick-IsRing 8 (omega arith) cpu.ls_queue.queue h.ls_ring)
      λ queue' hq.
        let ls = record cpu.ls_queue { queue = queue'; lock = busy_wait_tick cpu.ls_queue.lock } in
        Always-bind IsLsPair IsSound (ls_queue_tick ls cpu.mem) _
          (ls_queue_tick-IsLsPair ls cpu.mem hq h.bytes)
          λ r hr. record {
            bytes = hr.1;
            slots = h.slots;
            ls_ring = hr.0;
            buffer = h.buffer;
            sorted = h.sorted;
          }

alu_callbacks-IsSound : (cpu : Cpu) → IsSound cpu → Always IsSound (alu_callbacks cpu)
unfolding alu_callbacks
alu_callbacks-IsSound cpu h = Always-then IsSound (alus_callbacks cpu.cdb cpu.alu) _ λ r. record {
  bytes = h.bytes;
  slots = h.slots;
  ls_ring = h.ls_ring;
  buffer = h.buffer;
  sorted = h.sorted;
}

rs_callbacks-IsSound : (cpu : Cpu) → IsSound cpu → Always IsSound (rs_callbacks cpu)
unfolding rs_callbacks
rs_callbacks-IsSound cpu h =
    let s : Issue = record {
      unit = cpu.rs;
      alus = cpu.alu;
      ls_queue = cpu.ls_queue;
      rob = cpu.rob;
    } in
    Always-bind IsIssue IsSound (rs_unit_tick cpu.cdb s) _
      (rs_unit_tick-IsIssue cpu.cdb s (h.sorted, h.ls_ring, h.buffer))
      λ s' hs. record {
        bytes = h.bytes;
        slots = h.slots;
        ls_ring = hs.1;
        buffer = hs.2;
        sorted = hs.0;
      }

rob_callbacks-IsSound : (cpu : Cpu) → IsSound cpu → Always IsSound (rob_callbacks cpu)
unfolding rob_callbacks
rob_callbacks-IsSound cpu h =
    Always-bind (IsRing 16) IsSound (queue_tick cpu.rob.robs) _
      (queue_tick-IsRing 16 (omega arith) cpu.rob.robs h.buffer.0)
      λ robs' hq.
        rob_unit_tick-IsSound (record cpu { rob = record cpu.rob { robs = robs' } })
          (record {
            bytes = h.bytes;
            slots = h.slots;
            ls_ring = h.ls_ring;
            buffer = (hq, h.buffer.1);
            sorted = h.sorted;
          })

-- A step of the chain of callbacks.
then-IsSound :
    (m : Outcome Cpu) (f : Cpu → Outcome Cpu)
    → ((cpu : Cpu) → IsSound cpu → Always IsSound (f cpu))
    → Always IsSound m
    → Always IsSound (m >>= f)
then-IsSound m f k h = Always-bind IsSound IsSound m f h k

pub cpu_tick-IsSound : (cpu : Cpu) → IsSound cpu → Always IsSound (cpu_tick cpu)
unfolding cpu_tick
cpu_tick-IsSound cpu h = then-IsSound _ rob_callbacks rob_callbacks-IsSound (
    then-IsSound _ inst_unit_tick inst_unit_tick-IsSound (
      then-IsSound _ rs_callbacks rs_callbacks-IsSound (
        then-IsSound _ alu_callbacks alu_callbacks-IsSound (
          then-IsSound _ ls_queue_callbacks ls_queue_callbacks-IsSound (
            then-IsSound _ reg_store_callbacks reg_store_callbacks-IsSound (
              then-IsSound _ mem_callbacks mem_callbacks-IsSound
                (then-IsSound _ cdb_callbacks cdb_callbacks-IsSound (cpu_regs-IsSound cpu h))))))))
