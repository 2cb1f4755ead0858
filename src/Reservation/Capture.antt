-- ===== src/Reservation/Capture.antt =====
-- How the stations of reservation-station.c capture a result, and how one is chosen.
use fakerv32i.Base.{
  ℕ, ◌≡◌, refl, true, false, ◌&&◌, ◌||◌, ◌==◌, if◌then◌else◌, done, ◌>>=◌, Bool-cases, inl, inr,
}
use fakerv32i.Reg.{reg_mut_tick}
use fakerv32i.Reg.Cycle.{settled}
use fakerv32i.Reservation.{CdbMessage, RsPayload, Station, receive1, receive2, rs_onmsg, rs_ready}

-- A station that is busy with a payload, with nothing written yet in this cycle.
abbrev pub waiting : Station → RsPayload → Station
waiting rs p = record rs { busy = settled true; payload = settled p }

-- The tick of the payload of a station.
abbrev pub next_payload : RsPayload → Station → Station
next_payload zero_payload rs = record rs { payload = reg_mut_tick zero_payload rs.payload }

-- An operand after a message: it has arrived if the message comes from the entry it waits for.
abbrev pub arrived : CdbMessage → ℕ → ℕ → ℕ × ℕ
arrived msg src value = if src == msg.rob then (0, msg.result) else (src, value)

-- A busy station takes from a message each operand that waits for the message's entry, and keeps the
-- rest; after the tick it is ready exactly if neither operand waits for another entry.
pub rs_onmsg-captures :
    (rs : Station) (p zero_payload : RsPayload) (msg : CdbMessage)
    → let p' = record p {
      src1 = (arrived msg p.src1 p.value1).0;
      value1 = (arrived msg p.src1 p.value1).1;
      src2 = (arrived msg p.src2 p.value2).0;
      value2 = (arrived msg p.src2 p.value2).1;
    } in
      ((rs_onmsg false msg (waiting rs p) >>= λ rs'. done (next_payload zero_payload rs'))
        ≡ done (waiting rs p'))
      × (rs_ready (waiting rs p')
          ≡ ((p.src1 == msg.rob || p.src1 == 0) && (p.src2 == msg.rob || p.src2 == 0)))
unfolding rs_onmsg rs_ready receive1 receive2 reg_mut_tick
rs_onmsg-captures rs p zero_payload msg = elim (Bool-cases (p.src1 == msg.rob)) [
  | inl h ↦ elim (Bool-cases (p.src2 == msg.rob)) [
    | inl k ↦ (rw (h, k) refl, rw (h, k) refl)
    | inr k ↦ (rw (h, k) refl, rw (h, k) refl)
  ]
  | inr h ↦ elim (Bool-cases (p.src2 == msg.rob)) [
    | inl k ↦ (rw (h, k) refl, rw (h, k) refl)
    | inr k ↦ (rw (h, k) refl, rw (h, k) refl)
  ]
]
