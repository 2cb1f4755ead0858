-- ===== src/Reservation.antt =====
-- reservation-station.c: the stations that wait for operands, and their choice.
pub mod Capture
pub mod Issue
pub mod Overlap
pub mod Types
use fakerv32i.Base.{
  ℕ, ◌+◌, ◌<◌, Bool, true, false, not, ◌&&◌, ◌||◌, ◌==◌, ltb, leb, if◌then◌else◌, List, [], ◌∷◌,
  Option, none, some, Outcome, done, fault, assertion, ◌>>=◌,
}
use fakerv32i.Word.{add_word}
use fakerv32i.Rv32i.{RsType, reservation_station, load_buffer, store_buffer}
use fakerv32i.Rvmath.{ls_size}
use fakerv32i.Reg.{RegMut, reg_mut_create, reg_mut_read, reg_mut_write}

-- `cdb_message_t`.
pub record CdbMessage : Type 0 where
  pub rob : ℕ
  pub result : ℕ

-- `rs_payload_t`.
pub record RsPayload : Type 0 where
  pub op_alu : ℕ
  pub op_ls : ℕ
  pub value1 : ℕ
  pub value2 : ℕ
  pub src1 : ℕ
  pub src2 : ℕ
  pub dest : ℕ
  pub addr : ℕ

-- `reservation_station_t`, without the pointer to its unit.
pub record Station : Type 0 where
  pub id : ℕ
  pub rs_type : RsType
  pub busy : RegMut Bool
  pub payload : RegMut RsPayload

-- The stations of `rs_unit_t` and its request to clear; the pool of units, the load/store queue and the
-- reorder buffer stand apart.
pub record RsUnit : Type 0 where
  pub alu_stations : List Station
  pub load_buffers : List Station
  pub store_buffers : List Station
  pub clear : RegMut Bool

-- The tests of the source on a payload.
unfoldable pub receive1 : CdbMessage → RsPayload → RsPayload
receive1 msg payload =
    if payload.src1 == msg.rob then record payload { value1 = msg.result; src1 = 0 } else payload

unfoldable pub receive2 : CdbMessage → RsPayload → RsPayload
receive2 msg payload =
    if payload.src2 == msg.rob then record payload { value2 = msg.result; src2 = 0 } else payload

-- `_rs_onmsg`; `clearing` is what the request to clear of the station's unit shows.
unfoldable pub rs_onmsg : Bool → CdbMessage → Station → Outcome Station
unfolding reg_mut_read reg_mut_write
rs_onmsg clearing msg rs =
    if clearing
    then done rs
    else if not (reg_mut_read rs.busy)
    then done rs
    else let old = reg_mut_read rs.payload in
      if (old.src1 == msg.rob) || (old.src2 == msg.rob)
      then (do
        payload' ← reg_mut_write rs.payload (λ _. receive2 msg (receive1 msg old))
        done (record rs { payload = payload' }))
      else done rs

-- `_rs_ready`.
pub rs_ready : Station → Bool
unfolding reg_mut_read
rs_ready rs = (reg_mut_read rs.payload).src1 == 0 && (reg_mut_read rs.payload).src2 == 0

-- `_rsu_clear`.
pub rsu_clear : List Station → Outcome (List Station)
unfolding reg_mut_write
rsu_clear [] = done []
rsu_clear (rs ∷ rest) = do
  busy' ← reg_mut_write rs.busy (λ _. false)
  rest' ← rsu_clear rest
  done ((record rs { busy = busy' }) ∷ rest')

-- `_rs_get_vec`.
unfoldable pub rs_get_vec : RsUnit → RsType → List Station
rs_get_vec unit reservation_station = unit.alu_stations
rs_get_vec unit load_buffer = unit.load_buffers
rs_get_vec unit store_buffer = unit.store_buffers

-- The loop of `rs_unit_acquire`: the index of a station for its address.
unfoldable pub first_free : ℕ → List Station → Option ℕ
unfolding reg_mut_read
first_free i [] = none
first_free i (rs ∷ rest) =
    let later = first_free (i + 1) rest in if not (reg_mut_read rs.busy) then some i else later

unfoldable pub rs_unit_acquire : RsUnit → RsType → Option ℕ
rs_unit_acquire unit rs_type = first_free 0 (rs_get_vec unit rs_type)

unfoldable pub rs_unit_clear : RsUnit → Outcome RsUnit
unfolding reg_mut_write
rs_unit_clear unit = do
  clear' ← reg_mut_write unit.clear (λ _. true)
  done (record unit { clear = clear' })

-- `_rs_calc_addr`.
unfoldable pub rs_calc_addr : RsPayload → ℕ
rs_calc_addr payload = add_word payload.addr payload.value1

-- The last lines of `_rsu_overlap`, for `addr1 < addr2`.
unfoldable pub overlap_sorted : ℕ → ℕ → ℕ → Outcome Bool
overlap_sorted addr1 size1 addr2 =
    if not (ltb addr1 addr2)
    then fault assertion
    else do size ← ls_size size1; done (leb (add_word addr1 size) addr2)

-- `_rsu_overlap`.
unfoldable pub rsu_overlap : ℕ → ℕ → ℕ → ℕ → Outcome Bool
rsu_overlap addr1 size1 addr2 size2 =
    if addr1 == addr2
    then done true
    else if ltb addr2 addr1
    then overlap_sorted addr2 size2 addr1
    else overlap_sorted addr1 size1 addr2
