-- ===== src/Cpu/Fetch/Shape.antt =====
-- The fetch and the dispatch keep the invariant of the processor.
use fakerv32i.Base.{
  ℕ, ◌≡◌, ◌∙◌, ◌==◌, List, get_elem?, set, Option, none, some, done, in_range, Always, Always-bind,
  Always-then, Always-if, Always-elim,
}
use fakerv32i.Rv32i.{RsType, reservation_station, load_buffer, store_buffer}
use fakerv32i.Rv32i.InstOp
use fakerv32i.Reg.{reg_mut_write}
use fakerv32i.Inst.{Inst, inst_decode, inst_type}
use fakerv32i.Memory.{mem_get_inst}
use fakerv32i.Reservation.{Station, RsUnit, rs_get_vec, rs_unit_acquire}
use fakerv32i.Reservation.Types.{AreOfType, set-AreOfType, get_elem?-type}
use fakerv32i.Reservation.Issue.Shape.{AreSorted, rs_get_vec-AreOfType}
use fakerv32i.ReorderBuffer.{RobUnit, entry_of, rob_unit_acquire, rob_unit_full}
use fakerv32i.ReorderBuffer.Shape.{IsBuffer, rob_unit_acquire-IsBuffer, with_entry-IsBuffer}
use fakerv32i.InstUnit.Dispatch.{Sources, inst_dispatch}
use fakerv32i.InstUnit.Dispatch.Kept.{inst_dispatch-Keeps, Keeps}
use fakerv32i.Cpu.{Cpu}
use fakerv32i.Cpu.Sound.{IsSound}
use fakerv32i.Cpu.Fetch.{dispatch_inst, dispatch_to, inst_unit_tick, take_forced, with_vec}

with_vec-AreSorted :
    (unit : RsUnit) (t : RsType) (rss : List Station)
    → AreSorted unit
    → AreOfType t rss
    → AreSorted (with_vec unit t rss)
unfolding with_vec
with_vec-AreSorted unit reservation_station rss h e = (e, h.1, h.2)
with_vec-AreSorted unit load_buffer rss h e = (h.0, e, h.2)
with_vec-AreSorted unit store_buffer rss h e = (h.0, h.1, e)

dispatch_to-IsSound :
    (inst : Inst) (pc ix : ℕ) (acquired : RobUnit × Option ℕ) (cpu : Cpu)
    → IsBuffer acquired.0
    → IsSound cpu
    → Always IsSound (dispatch_to inst pc ix acquired cpu)
unfolding dispatch_to
dispatch_to-IsSound inst pc ix (rob, none) cpu hr h = tt
dispatch_to-IsSound inst pc ix (rob, some id) cpu hr h =
    let rss = rs_get_vec cpu.rs (inst_type inst) in
    let found = rs_get_vec-AreOfType cpu.rs (inst_type inst) h.sorted in
    Always-bind (λ rs. rs.rs_type ≡ inst_type inst) IsSound (in_range (get_elem? rss ix)) _
      (get_elem?-type (inst_type inst) rss ix found)
      λ rs t. Always-then IsSound (entry_of rob id) _ λ entry.
        let unit : Sources = record {
          reg_store = cpu.reg_store;
          rob = rob;
          cdb = cpu.cdb;
          branch_predictor = cpu.branch_predictor;
        } in
        Always-bind (Keeps rs) IsSound (inst_dispatch unit rs id entry inst pc) _
          (inst_dispatch-Keeps unit rs id entry inst pc h.slots)
          λ res kept.
            Always-then IsSound (reg_mut_write cpu.inst_unit.pc (λ _. res.next_pc)) _ λ pc'.
              record {
                bytes = h.bytes;
                slots = kept.0;
                ls_ring = h.ls_ring;
                buffer = with_entry-IsBuffer rob id res.entry hr;
                sorted =
                    with_vec-AreSorted cpu.rs (inst_type inst) (set rss ix res.station) h.sorted
                      (set-AreOfType (inst_type inst) rss ix res.station found (kept.1 ∙ t));
              }

dispatch_inst-IsSound :
    (inst : Inst) (pc : ℕ) (cpu : Cpu) → IsSound cpu → Always IsSound (dispatch_inst inst pc cpu)
unfolding dispatch_inst
dispatch_inst-IsSound inst pc cpu h =
    Always-elim IsSound (rs_unit_acquire cpu.rs (inst_type inst)) (done cpu) _ h λ ix.
      Always-bind (λ r. IsBuffer r.0) IsSound (rob_unit_acquire cpu.rob) _
        (rob_unit_acquire-IsBuffer cpu.rob h.buffer)
        λ acquired hr. dispatch_to-IsSound inst pc ix acquired cpu hr h

pub inst_unit_tick-IsSound : (cpu : Cpu) → IsSound cpu → Always IsSound (inst_unit_tick cpu)
unfolding inst_unit_tick
inst_unit_tick-IsSound cpu h =
    let rec = cpu.inst_unit.force_pc.buf in
    let pc = cpu.inst_unit.pc.buf in
    Always-if IsSound rec.busy _ _
      (Always-then IsSound (take_forced cpu.inst_unit rec) _ λ inst_unit'. record {
        bytes = h.bytes;
        slots = h.slots;
        ls_ring = h.ls_ring;
        buffer = h.buffer;
        sorted = h.sorted;
      })
      (Always-if IsSound (rob_unit_full cpu.rob) (done cpu) _ h (
        Always-then IsSound (mem_get_inst cpu.mem.bytes pc) _ λ inst_bin.
          Always-if IsSound ((inst_decode inst_bin).op == InstOp.unimp) (done cpu) _ h
            (dispatch_inst-IsSound (inst_decode inst_bin) pc cpu h)))
