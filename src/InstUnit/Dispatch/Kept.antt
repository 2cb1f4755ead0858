-- ===== src/InstUnit/Dispatch/Kept.antt =====
-- What a dispatch of inst-dispatch.c keeps: the number of registers and the type of the station.
use fakerv32i.Base.{
  ℕ, refl, true, false, if◌then◌else◌, done, Always, Always-bind, Always-then, Always-if,
}
use fakerv32i.Inst.{Inst}
use fakerv32i.Reg.{reg_mut_write}
use fakerv32i.RegStore.{reg_store_rob_id_set}
use fakerv32i.RegStore.Slots.{HasSlots, reg_store_rob_id_set-HasSlots}
use fakerv32i.Reservation.{Station}
use fakerv32i.Reservation.Types.{KeepsType}
use fakerv32i.ReorderBuffer.{Entry}
use fakerv32i.InstUnit.Dispatch.{
  Sources, DispatchResult, dispatch_base, dispatch_switch, has_dest, inst_dispatch,
}

abbrev pub Keeps : Station → DispatchResult → Type 0
Keeps rs res = HasSlots res.reg_store × KeepsType rs res.station

pub inst_dispatch-Keeps :
    (unit : Sources) (rs : Station) (rob_id : ℕ) (entry : Entry) (inst : Inst) (pc : ℕ)
    → HasSlots unit.reg_store
    → Always (Keeps rs) (inst_dispatch unit rs rob_id entry inst pc)
unfolding inst_dispatch
inst_dispatch-Keeps unit rs rob_id entry inst pc h =
    Always-then (Keeps rs) (reg_mut_write rs.busy (λ _. true)) _ λ busy'.
      Always-then (Keeps rs) (reg_mut_write entry.ready (λ _. false)) _ λ ready'.
        Always-bind HasSlots (Keeps rs)
          (if has_dest inst.format
            then reg_store_rob_id_set unit.reg_store inst.rd rob_id
            else done unit.reg_store)
          _
          (Always-if HasSlots (has_dest inst.format)
            (reg_store_rob_id_set unit.reg_store inst.rd rob_id) (done unit.reg_store)
            (reg_store_rob_id_set-HasSlots unit.reg_store inst.rd rob_id h) h)
          λ reg_store' hs.
            Always-then (Keeps rs)
              (dispatch_switch (record unit { reg_store = reg_store' }) inst pc
                (dispatch_base inst pc rs.id rob_id entry.payload.next rs.payload.next) inst.format)
              _
              λ d.
                Always-then (Keeps rs) (reg_mut_write entry.payload (λ _. d.rob_data)) _
                  λ rob_payload'.
                    Always-then (Keeps rs) (reg_mut_write rs.payload (λ _. d.rs_data)) _
                      λ rs_payload'. (hs, refl)
