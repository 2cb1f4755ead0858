-- ===== src/Tests/Buses.antt =====
-- Instances for the bus and the reservation stations.
use fakerv32i.Base.{
  ℕ, ◌≡◌, ◌≢◌, ◌≤◌, ◌⊎◌, ◌+◌, arith, Bool, true, false, none, some, List, [], ◌∷◌, done, ◌>>=◌,
}
use fakerv32i.Isa.{word, byte}
use fakerv32i.Isa.Encoding.{width_funct3}
use fakerv32i.Rv32i.{reservation_station}
use fakerv32i.Reg.{RegMut, reg_mut_tick}
use fakerv32i.Reg.Cycle.{settled}
use fakerv32i.Bus.{Bus, bus_arb, bus_clear, bus_arb_req, bus_arb_status, bus_get_data}
use fakerv32i.Bus.Grant.{IsFirst, bus_arb-IsFirst}
use fakerv32i.Bus.Delivery.{
  each_tick, bus_cycle, between, clearing, bus_cycle-delivers, bus_clear-silent,
}
use fakerv32i.Reservation.{CdbMessage, RsPayload, Station, rs_onmsg, rs_ready, rsu_overlap}
use fakerv32i.Reservation.Capture.{waiting, next_payload, rs_onmsg-captures}
use fakerv32i.Reservation.Overlap.{Shares, rsu_overlap-inverted}

-- Two requests, of which the second is set.
abbrev requests : List (RegMut Bool)
requests = settled false ∷ settled true ∷ []

abbrev line : Bus ℕ
line = between {A = ℕ} 0 requests 0 false (settled 7)

bus_arb-IsFirst_example :
    (line.clear.buf ≡ 0 → IsFirst line.req (bus_arb line)) × (line.clear.buf ≢ 0 → bus_arb line ≡ 0)
bus_arb-IsFirst_example = bus_arb-IsFirst {A = ℕ} line

bus_cycle-delivers_example :
    (bus' : Bus ℕ) × (bus_cycle 0 (between 0 requests 2 false (settled 7)) ≡ done (bus', some 7))
    × (bus_get_data bus' ≡ some 7)
    × (bus' ≡ between 0 (each_tick requests) bus'.gnt.buf true (reg_mut_tick 0 (settled 7)))
bus_cycle-delivers_example = bus_cycle-delivers {A = ℕ} 0 requests 2 false (settled 7)

bus_clear-silent_example :
    let tick = reg_mut_tick {A = ℕ} 0 in
    let first = clearing {A = ℕ} 0 (each_tick requests) true (tick (settled 7)) 2 1 in
    let second =
      clearing {A = ℕ} 0 (each_tick (each_tick requests)) false (tick (tick (settled 7))) 1 0 in
    ((bus_clear (between {A = ℕ} 0 requests 2 false (settled 7)) >>= bus_cycle 0)
      ≡ done (first, none))
    × (bus_arb_req first 1 ≡ done first)
    × (bus_arb_status first 1 ≡ true)
    × (bus_cycle 0 first ≡ done (second, none))
    × (bus_arb_req second 1 ≡ done second)
    × (bus_arb_status second 1 ≡ true)
    × (bus' : Bus ℕ) × (bus_cycle 0 second ≡ done (bus', none))
    × (bus'
        ≡ between 0
            (each_tick (each_tick (each_tick requests)))
            bus'.gnt.buf
            false
            (tick (tick (tick (settled 7)))))
bus_clear-silent_example = bus_clear-silent {A = ℕ} 0 requests 2 1 false (settled 7)

-- A load of a word at 100 and a store of a byte at 102.
rsu_overlap-inverted_example :
    (Shares word byte 100 102
      → rsu_overlap 100 (width_funct3 word) 102 (width_funct3 byte) ≡ done false)
    × ((100 + 4 ≤ 102) ⊎ (102 + 1 ≤ 100)
        → rsu_overlap 100 (width_funct3 word) 102 (width_funct3 byte) ≡ done true)
rsu_overlap-inverted_example =
    rsu_overlap-inverted word byte 100 102 (omega arith) (omega arith) (omega arith)

-- A station that waits for the entries 2 and 3, and a message from entry 3.
abbrev operands : RsPayload
operands = record {
  op_alu = 0;
  op_ls = 0;
  value1 = 0;
  value2 = 0;
  src1 = 2;
  src2 = 3;
  dest = 4;
  addr = 0;
}

abbrev station : Station
station = record {
  id = 1;
  rs_type = reservation_station;
  busy = settled true;
  payload = settled operands;
}

abbrev from_three : CdbMessage
from_three = record { rob = 3; result = 55 }

rs_onmsg-captures_example :
    ((rs_onmsg false from_three (waiting station operands) >>= λ rs'.
    done (next_payload operands rs'))
      ≡ done (waiting station (record operands { src2 = 0; value2 = 55 })))
    × (rs_ready (waiting station (record operands { src2 = 0; value2 = 55 })) ≡ false)
rs_onmsg-captures_example = rs_onmsg-captures station operands operands from_three
