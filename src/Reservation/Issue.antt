-- ===== src/Reservation/Issue.antt =====
-- reservation-station.c: the tick that hands ready work to the units, the load/store queue and the
-- reorder buffer.
pub mod Loads
pub mod Shape
use fakerv32i.Base.{
  ℕ, zero, suc, Bool, true, false, not, ◌&&◌, ◌||◌, ◌==◌, if◌then◌else◌, List, [], ◌∷◌, Option,
  none, some, Outcome, done, fault, assertion, ◌>>=◌,
}
use fakerv32i.Rv32i.{
  RsType, reservation_station, load_buffer, store_buffer, Status, success, fail, RobOp,
}
use fakerv32i.Reg.{RegMut, reg_mut_read, reg_mut_write}
use fakerv32i.Bus.{Bus}
use fakerv32i.AluUnit.{Alu, alu_task}
use fakerv32i.LsQueue.{LsQueue, load, ls_queue_full, ls_queue_push}
use fakerv32i.Queue.{visited}
use fakerv32i.ReorderBuffer.{RobPayload, Entry, RobUnit, id_at, entry_of, with_entry, rob_unit_find}
use fakerv32i.Reservation.{
  CdbMessage, RsPayload, Station, RsUnit, rs_calc_addr, rsu_clear, rsu_overlap,
}

-- The station no longer holds an instruction.
pub set_free : Station → Outcome Station
unfolding reg_mut_write
set_free rs = do busy' ← reg_mut_write rs.busy (λ _. false); done (record rs { busy = busy' })

-- The payload of a station that is busy and waits for no operand.
unfoldable pub ready_payload : Station → Option RsPayload
unfolding reg_mut_read
ready_payload rs =
    let payload = reg_mut_read rs.payload in
    if not (reg_mut_read rs.busy)
    then none
    else if not (payload.src1 == 0) || not (payload.src2 == 0)
    then none
    else some payload

abbrev pub same_type : RsType → RsType → Bool
same_type reservation_station reservation_station = true
same_type load_buffer load_buffer = true
same_type store_buffer store_buffer = true
same_type _ _ = false

-- The assertion on the type of a station.
abbrev pub checked : RsType → Station → Outcome (Unit {0})
checked expected rs = if same_type rs.rs_type expected then done tt else fault assertion

-- What is left of a round of `_rsu_check_alu` once the unit has answered.
pub alu_answered : Station → Status × Alu → Outcome (Station × Alu)
alu_answered rs (success, alu) = do rs' ← set_free rs; done (rs', alu)
alu_answered rs (fail, alu) = done (rs, alu)

-- `_rsu_check_alu`, from a station on, with the units from `alu_id` on; it ends with the last unit.
unfoldable pub rsu_check_alu :
    Bus CdbMessage → List Station → List Alu → Outcome (List Station × List Alu)
rsu_check_alu cdb [] alus = done ([], alus)
rsu_check_alu cdb (rs ∷ rest) [] = done (rs ∷ rest, [])
rsu_check_alu cdb (rs ∷ rest) (alu ∷ alus) = checked reservation_station rs >>= λ _.
    elim (ready_payload rs) [
      | none ↦ rsu_check_alu cdb rest (alu ∷ alus) >>= λ later. done (rs ∷ later.0, later.1)
      | some payload ↦ do
        answer ← alu_task alu cdb (record {
          op = payload.op_alu;
          value1 = payload.value1;
          value2 = payload.value2;
          base_msg = record { rob = payload.dest; result = 0 };
        })
        first ← alu_answered rs answer
        later ← rsu_check_alu cdb rest alus
        done (first.0 ∷ later.0, first.1 ∷ later.1)
    ]

-- Whether a store of the reorder buffer holds back a load.
unfoldable pub store_blocks : ℕ → RsPayload → RobPayload → Outcome Bool
store_blocks addr payload rob = elim rob.op [
  | RobOp.store ↦
      if not rob.addr_ready then done true else rsu_overlap addr payload.op_ls rob.addr rob.size
  | RobOp.register ↦ done false
  | RobOp.branch ↦ done false
  | RobOp.jalr ↦ done false
  | RobOp.hcf ↦ done false
]

-- The loop over the reorder buffer in `_rsu_check_load`: it ends at the load itself, and at the first
-- store that holds it back.
unfoldable pub load_blocked : RobUnit → ℕ → RsPayload → List ℕ → Outcome Bool
unfolding reg_mut_read
load_blocked rob addr payload [] = done false
load_blocked rob addr payload (p ∷ ps) = do
  id ← id_at rob p
  let later = load_blocked rob addr payload ps
  if id == payload.dest then done false else do
    entry ← entry_of rob id
    blocking ← store_blocks addr payload (reg_mut_read entry.payload)
    if blocking then done true else later

-- The push of a load and the release of its station.
pub load_issue : Station → RsPayload → LsQueue → Outcome (Station × LsQueue)
load_issue rs payload ls = do
  (status, ls') ← ls_queue_push ls (record {
    op = load;
    addr = rs_calc_addr payload;
    size = payload.op_ls;
    base_msg = record { rob = payload.dest; result = 0 };
    cleared = false;
    value = 0;
  })
  rs' ← set_free rs
  done (rs', ls')

-- The loop of `_rsu_check_load`, which ends with the first load that is issued.
unfoldable pub check_load_loop : RobUnit → List Station → LsQueue → Outcome (List Station × LsQueue)
check_load_loop rob [] ls = done ([], ls)
check_load_loop rob (rs ∷ rest) ls = checked load_buffer rs >>= λ _.
    let later = check_load_loop rob rest ls >>= λ r. done (rs ∷ r.0, r.1) in
    elim (ready_payload rs) [
      | none ↦ later
      | some payload ↦ do
        ps ← visited rob.robs
        blocking ← load_blocked rob (rs_calc_addr payload) payload ps
        if blocking
            then later
            else do issued ← load_issue rs payload ls; done (issued.0 ∷ rest, issued.1)
    ]

-- `_rsu_check_load`.
unfoldable pub rsu_check_load : RobUnit → List Station → LsQueue → Outcome (List Station × LsQueue)
rsu_check_load rob rss ls = if ls_queue_full ls then done (rss, ls) else check_load_loop rob rss ls

-- What `_rsu_check_store` writes to the payload of the entry, and whether it writes at all.
unfoldable pub store_addr : RsPayload → RobPayload → RobPayload
store_addr payload old =
    if not old.addr_ready && (payload.src1 == 0)
    then record old { addr = rs_calc_addr payload; addr_ready = true }
    else old

unfoldable pub store_value : RsPayload → RobPayload → RobPayload
store_value payload old =
    if not old.value_ready && (payload.src2 == 0)
    then record old { value = payload.value2; value_ready = true }
    else old

pub store_updates : RsPayload → RobPayload → Bool
store_updates payload old =
    (not old.addr_ready && (payload.src1 == 0)) || (not old.value_ready && (payload.src2 == 0))

-- The writes of a round that updates the entry.
pub store_complete : Station → Entry → RobPayload → Outcome (Station × Entry)
unfolding reg_mut_write
store_complete rs entry new = do
  payload' ← reg_mut_write entry.payload (λ _. new)
  if new.addr_ready && new.value_ready
      then (do
        rs' ← set_free rs
        ready' ← reg_mut_write entry.ready (λ _. true)
        done (rs', record { ready = ready'; payload = payload' }))
      else done (rs, record entry { payload = payload' })

-- The loop of `_rsu_check_store`, which ends with the first entry that is updated.
unfoldable pub check_store_loop : List Station → RobUnit → Outcome (List Station × RobUnit)
unfolding reg_mut_read
check_store_loop [] rob = done ([], rob)
check_store_loop (rs ∷ rest) rob = checked store_buffer rs >>= λ _.
    let later = check_store_loop rest rob >>= λ r. done (rs ∷ r.0, r.1) in
    let payload = reg_mut_read rs.payload in
    if not (reg_mut_read rs.busy)
    then later
    else if not ((payload.src1 == 0) || (payload.src2 == 0))
    then later
    else do
      id ← rob_unit_find rob payload.dest
      entry ← entry_of rob id
      let old = reg_mut_read entry.payload
      if (old.addr_ready && old.value_ready) || not (store_updates payload old) then later else do
        updated ← store_complete rs entry (store_value payload (store_addr payload old))
        done (updated.0 ∷ rest, with_entry rob id updated.1)

-- `_rsu_check_store`.
unfoldable pub rsu_check_store : LsQueue → List Station → RobUnit → Outcome (List Station × RobUnit)
rsu_check_store ls rss rob = if ls_queue_full ls then done (rss, rob) else check_store_loop rss rob

-- The unit with the components that it hands work to.
pub record Issue : Type 0 where
  pub unit : RsUnit
  pub alus : List Alu
  pub ls_queue : LsQueue
  pub rob : RobUnit

-- `_rs_unit_tick`, a callback of the clock.
unfoldable pub rs_unit_tick : Bus CdbMessage → Issue → Outcome Issue
unfolding reg_mut_read reg_mut_write
rs_unit_tick cdb s =
    if reg_mut_read s.unit.clear
    then (do
      clear' ← reg_mut_write s.unit.clear (λ _. false)
      alu_stations ← rsu_clear s.unit.alu_stations
      load_buffers ← rsu_clear s.unit.load_buffers
      store_buffers ← rsu_clear s.unit.store_buffers
      done (record s {
        unit = record {
          alu_stations = alu_stations;
          load_buffers = load_buffers;
          store_buffers = store_buffers;
          clear = clear';
        };
      }))
    else do
      computed ← rsu_check_alu cdb s.unit.alu_stations s.alus
      loaded ← rsu_check_load s.rob s.unit.load_buffers s.ls_queue
      stored ← rsu_check_store loaded.1 s.unit.store_buffers s.rob
      done (record {
        unit = record s.unit {
          alu_stations = computed.0;
          load_buffers = loaded.0;
          store_buffers = stored.0;
        };
        alus = computed.1;
        ls_queue = loaded.1;
        rob = stored.1;
      })
