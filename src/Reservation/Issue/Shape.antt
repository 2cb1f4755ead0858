-- ===== src/Reservation/Issue/Shape.antt =====
-- The issue of work keeps the types of the stations and the sizes of the components that it reaches.
use fakerv32i.Base.{
  refl, ◌∙◌, true, false, not, ◌&&◌, ◌||◌, ◌==◌, List, [], ◌∷◌, done, ◌>>=◌, Always, Always-bind,
  Always-elim, Always-then, Always-if,
}
use fakerv32i.Rv32i.{RsType, reservation_station, load_buffer, store_buffer, Status, success, fail}
use fakerv32i.Reg.{reg_mut_read, reg_mut_write}
use fakerv32i.Bus.{Bus}
use fakerv32i.AluUnit.{Alu, alu_task}
use fakerv32i.LsQueue.{LsQueue, load, ls_queue_full, ls_queue_push}
use fakerv32i.LsQueue.Ring.{IsLsRing, ls_queue_push-IsLsRing}
use fakerv32i.Queue.{visited}
use fakerv32i.ReorderBuffer.{Entry, RobPayload, RobUnit, entry_of, rob_unit_find}
use fakerv32i.ReorderBuffer.Shape.{IsBuffer, with_entry-IsBuffer}
use fakerv32i.Reservation.{
  CdbMessage, RsPayload, RsUnit, Station, rs_calc_addr, rs_get_vec, rsu_clear,
}
use fakerv32i.Reservation.Types.{AreOfType, KeepsType, rsu_clear-AreOfType}
use fakerv32i.Reservation.Issue.{
  Issue, set_free, ready_payload, checked, alu_answered, rsu_check_alu, load_blocked, load_issue,
  check_load_loop, rsu_check_load, store_addr, store_value, store_updates, store_complete,
  check_store_loop, rsu_check_store, rs_unit_tick,
}

set_free-KeepsType : (rs : Station) → Always (KeepsType rs) (set_free rs)
unfolding set_free
set_free-KeepsType rs =
    Always-then (KeepsType rs) (reg_mut_write rs.busy (λ _. false)) _ λ busy'. refl

alu_answered-KeepsType :
    (rs : Station) (answer : Status × Alu) → Always (λ r. KeepsType rs r.0) (alu_answered rs answer)
unfolding alu_answered
alu_answered-KeepsType rs (fail, alu) = refl
alu_answered-KeepsType rs (success, alu) =
    Always-bind (KeepsType rs) (λ r. KeepsType rs r.0) (set_free rs) _ (set_free-KeepsType rs)
      λ rs' e. e

abbrev AluStations : List Station × List Alu → Type 0
AluStations r = AreOfType reservation_station r.0

rsu_check_alu-AreOfType :
    (cdb : Bus CdbMessage) (rss : List Station) (alus : List Alu)
    → AreOfType reservation_station rss
    → Always AluStations (rsu_check_alu cdb rss alus)
unfolding rsu_check_alu
rsu_check_alu-AreOfType cdb [] alus h = tt
rsu_check_alu-AreOfType cdb (rs ∷ rest) [] h = h
rsu_check_alu-AreOfType cdb (rs ∷ rest) (alu ∷ alus) h =
    Always-then AluStations (checked reservation_station rs) _ λ _.
      Always-elim AluStations (ready_payload rs) _ _
        (Always-bind AluStations AluStations (rsu_check_alu cdb rest (alu ∷ alus)) _
          (rsu_check_alu-AreOfType cdb rest (alu ∷ alus) h.1) λ later h'. (h.0, h'))
        λ payload.
          Always-then AluStations
            (alu_task alu cdb (record {
              op = payload.op_alu;
              value1 = payload.value1;
              value2 = payload.value2;
              base_msg = record { rob = payload.dest; result = 0 };
            }))
            _
            λ answer.
              Always-bind (λ r. KeepsType rs r.0) AluStations (alu_answered rs answer) _
                (alu_answered-KeepsType rs answer)
                λ first e.
                  Always-bind AluStations AluStations (rsu_check_alu cdb rest alus) _
                    (rsu_check_alu-AreOfType cdb rest alus h.1) λ later h'. (e ∙ h.0, h')

-- The load buffers and the queue.
abbrev LoadIssue : List Station × LsQueue → Type 0
LoadIssue r = AreOfType load_buffer r.0 × IsLsRing r.1

load_issue-KeepsType :
    (rs : Station) (payload : RsPayload) (ls : LsQueue)
    → IsLsRing ls
    → Always (λ r. KeepsType rs r.0 × IsLsRing r.1) (load_issue rs payload ls)
unfolding load_issue
load_issue-KeepsType rs payload ls h =
    Always-bind (λ r. IsLsRing r.1) (λ r. KeepsType rs r.0 × IsLsRing r.1)
      (ls_queue_push ls (record {
        op = load;
        addr = rs_calc_addr payload;
        size = payload.op_ls;
        base_msg = record { rob = payload.dest; result = 0 };
        cleared = false;
        value = 0;
      }))
      _ (ls_queue_push-IsLsRing ls _ h)
      λ pushed h'.
        Always-bind (KeepsType rs) (λ r. KeepsType rs r.0 × IsLsRing r.1) (set_free rs) _
          (set_free-KeepsType rs) λ rs' e. (e, h')

check_load_loop-LoadIssue :
    (rob : RobUnit) (rss : List Station) (ls : LsQueue)
    → AreOfType load_buffer rss
    → IsLsRing ls
    → Always LoadIssue (check_load_loop rob rss ls)
unfolding check_load_loop
check_load_loop-LoadIssue rob [] ls h hl = (tt, hl)
check_load_loop-LoadIssue rob (rs ∷ rest) ls h hl =
    let later : Always LoadIssue (check_load_loop rob rest ls >>= λ r. done (rs ∷ r.0, r.1)) =
      Always-bind LoadIssue LoadIssue (check_load_loop rob rest ls) _
        (check_load_loop-LoadIssue rob rest ls h.1 hl) λ r h'. ((h.0, h'.0), h'.1) in
    Always-then LoadIssue (checked load_buffer rs) _ λ _.
      Always-elim LoadIssue (ready_payload rs) _ _ later λ payload.
        Always-then LoadIssue (visited rob.robs) _ λ ps.
          Always-then LoadIssue (load_blocked rob (rs_calc_addr payload) payload ps) _ λ blocking.
            Always-if LoadIssue blocking _ _ later (
              Always-bind (λ r. KeepsType rs r.0 × IsLsRing r.1) LoadIssue
                (load_issue rs payload ls) _ (load_issue-KeepsType rs payload ls hl)
                λ issued h'. ((h'.0 ∙ h.0, h.1), h'.1))

rsu_check_load-LoadIssue :
    (rob : RobUnit) (rss : List Station) (ls : LsQueue)
    → AreOfType load_buffer rss
    → IsLsRing ls
    → Always LoadIssue (rsu_check_load rob rss ls)
unfolding rsu_check_load
rsu_check_load-LoadIssue rob rss ls h hl =
    Always-if LoadIssue (ls_queue_full ls) (done (rss, ls)) (check_load_loop rob rss ls) (h, hl)
      (check_load_loop-LoadIssue rob rss ls h hl)

-- The store buffers and the reorder buffer.
abbrev StoreIssue : List Station × RobUnit → Type 0
StoreIssue r = AreOfType store_buffer r.0 × IsBuffer r.1

store_complete-KeepsType :
    (rs : Station) (entry : Entry) (new : RobPayload)
    → Always (λ r. KeepsType rs r.0) (store_complete rs entry new)
unfolding store_complete
store_complete-KeepsType rs entry new =
    Always-then (λ r. KeepsType rs r.0) (reg_mut_write entry.payload (λ _. new)) _
      λ payload'.
        Always-if (λ r. KeepsType rs r.0) (new.addr_ready && new.value_ready) _ _
          (Always-bind (KeepsType rs) (λ r. KeepsType rs r.0) (set_free rs) _
            (set_free-KeepsType rs)
            λ rs' e.
              Always-then (λ r. KeepsType rs r.0) (reg_mut_write entry.ready (λ _. true)) _
                λ ready'. e)
          refl

check_store_loop-StoreIssue :
    (rss : List Station) (rob : RobUnit)
    → AreOfType store_buffer rss
    → IsBuffer rob
    → Always StoreIssue (check_store_loop rss rob)
unfolding check_store_loop
check_store_loop-StoreIssue [] rob h hr = (tt, hr)
check_store_loop-StoreIssue (rs ∷ rest) rob h hr =
    let payload = rs.payload.buf in
    let later : Always StoreIssue (check_store_loop rest rob >>= λ r. done (rs ∷ r.0, r.1)) =
      Always-bind StoreIssue StoreIssue (check_store_loop rest rob) _
        (check_store_loop-StoreIssue rest rob h.1 hr) λ r h'. ((h.0, h'.0), h'.1) in
    Always-then StoreIssue (checked store_buffer rs) _ λ _.
      Always-if StoreIssue (not rs.busy.buf) _ _ later (
        Always-if StoreIssue (not ((payload.src1 == 0) || (payload.src2 == 0))) _ _ later (
          Always-then StoreIssue (rob_unit_find rob payload.dest) _ λ id.
            Always-then StoreIssue (entry_of rob id) _ λ entry.
              let old = entry.payload.buf in
              Always-if StoreIssue
                ((old.addr_ready && old.value_ready) || not (store_updates payload old)) _ _ later
                (Always-bind (λ r. KeepsType rs r.0) StoreIssue
                  (store_complete rs entry (store_value payload (store_addr payload old))) _
                  (store_complete-KeepsType rs entry (store_value payload (store_addr payload old)))
                  λ updated e. ((e ∙ h.0, h.1), with_entry-IsBuffer rob id updated.1 hr))))

rsu_check_store-StoreIssue :
    (ls : LsQueue) (rss : List Station) (rob : RobUnit)
    → AreOfType store_buffer rss
    → IsBuffer rob
    → Always StoreIssue (rsu_check_store ls rss rob)
unfolding rsu_check_store
rsu_check_store-StoreIssue ls rss rob h hr =
    Always-if StoreIssue (ls_queue_full ls) (done (rss, rob)) (check_store_loop rss rob) (h, hr)
      (check_store_loop-StoreIssue rss rob h hr)

abbrev pub AreSorted : RsUnit → Type 0
AreSorted unit =
    AreOfType reservation_station unit.alu_stations
    × AreOfType load_buffer unit.load_buffers
    × AreOfType store_buffer unit.store_buffers

abbrev pub IsIssue : Issue → Type 0
IsIssue s = AreSorted s.unit × IsLsRing s.ls_queue × IsBuffer s.rob

pub rs_unit_tick-IsIssue :
    (cdb : Bus CdbMessage) (s : Issue) → IsIssue s → Always IsIssue (rs_unit_tick cdb s)
unfolding rs_unit_tick
rs_unit_tick-IsIssue cdb s (sorted, hl, hr) =
    Always-if IsIssue (reg_mut_read s.unit.clear) _ _
      (Always-then IsIssue (reg_mut_write s.unit.clear (λ _. false)) _ λ clear'.
        Always-bind (AreOfType reservation_station) IsIssue (rsu_clear s.unit.alu_stations) _
          (rsu_clear-AreOfType reservation_station s.unit.alu_stations sorted.0)
          λ alus h0.
            Always-bind (AreOfType load_buffer) IsIssue (rsu_clear s.unit.load_buffers) _
              (rsu_clear-AreOfType load_buffer s.unit.load_buffers sorted.1)
              λ loads h1.
                Always-bind (AreOfType store_buffer) IsIssue (rsu_clear s.unit.store_buffers) _
                  (rsu_clear-AreOfType store_buffer s.unit.store_buffers sorted.2)
                  λ stores h2. ((h0, h1, h2), hl, hr))
      (Always-bind AluStations IsIssue (rsu_check_alu cdb s.unit.alu_stations s.alus) _
        (rsu_check_alu-AreOfType cdb s.unit.alu_stations s.alus sorted.0)
        λ computed h0.
          Always-bind LoadIssue IsIssue (rsu_check_load s.rob s.unit.load_buffers s.ls_queue) _
            (rsu_check_load-LoadIssue s.rob s.unit.load_buffers s.ls_queue sorted.1 hl)
            λ loaded h1.
              Always-bind StoreIssue IsIssue (rsu_check_store loaded.1 s.unit.store_buffers s.rob) _
                (rsu_check_store-StoreIssue loaded.1 s.unit.store_buffers s.rob sorted.2 hr)
                λ stored h2. ((h0, h1.0, h2.0), h1.1, h2.1))

pub rs_get_vec-AreOfType :
    (unit : RsUnit) (t : RsType) → AreSorted unit → AreOfType t (rs_get_vec unit t)
unfolding rs_get_vec
rs_get_vec-AreOfType unit reservation_station h = h.0
rs_get_vec-AreOfType unit load_buffer h = h.1
rs_get_vec-AreOfType unit store_buffer h = h.2
