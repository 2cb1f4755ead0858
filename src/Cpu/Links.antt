-- ===== src/Cpu/Links.antt =====
-- The result of a JALR: what its entry writes to the destination, and what the stations that wait for it
-- capture.
use fakerv32i.Base.{
  ℕ, ◌≡◌, ◌≢◌, refl, sym, ◌∙◌, Bool-cases, inl, inr, arith, true, false, ◌==◌, done,
}
use fakerv32i.Rv32i.{jalr}
use fakerv32i.Reg.{reg_mut_write}
use fakerv32i.Reservation.{CdbMessage, RsPayload, Station, receive1, receive2, rs_onmsg}
use fakerv32i.Reservation.Capture.{waiting}
use fakerv32i.ReorderBuffer.{Entry, RobPayload, entry_onmsg, take_result}

received :
    (msg : CdbMessage) (p : RsPayload)
    → (p.src1 == msg.rob) ≡ true
    → let q = receive2 msg (receive1 msg p) in (q.src1 ≡ 0) × (q.value1 ≡ msg.result)
unfolding receive1 receive2
received msg p e = elim (Bool-cases (p.src2 == msg.rob)) [
  | inl h ↦ rw (e, h) (refl, refl)
  | inr h ↦ rw (e, h) (refl, refl)
]

link_kept :
    (msg : CdbMessage) (payload : RobPayload)
    → payload.op ≡ jalr
    → (take_result msg payload).value ≡ payload.value
unfolding take_result
link_kept msg payload op = ground (arith, op)

-- The one message about a JALR carries its target. The entry keeps the address of the next instruction for
-- the destination register, but a station that waits for the entry captures the target as that
-- register's value: it computes with a wrong value whenever the two differ.
pub jalr_link-captured :
    (rs : Station) (p : RsPayload) (msg : CdbMessage) (entry : Entry) (link : ℕ)
    → entry.payload.next.op ≡ jalr
    → entry.payload.next.value ≡ link
    → entry.payload.write_count ≡ 0
    → entry.ready.write_count ≡ 0
    → p.src1 ≡ msg.rob
    → msg.result ≢ link
    → (entry' : Entry) × (rs' : Station) × (entry_onmsg msg entry ≡ done entry')
      × (rs_onmsg false msg (waiting rs p) ≡ done rs')
      × (entry'.ready.next ≡ true)
      × (entry'.payload.next.value ≡ link)
      × (rs'.payload.next.src1 ≡ 0)
      × (rs'.payload.next.value1 ≢ link)
unfolding entry_onmsg rs_onmsg reg_mut_write
jalr_link-captured rs p msg entry link op kept fresh fresh' src differs =
    let e : (p.src1 == msg.rob) ≡ true = ground (arith, src) in
    (
      (record {
        ready = record entry.ready { next = true; write_count = 1 };
        payload = record entry.payload {
          next = take_result msg entry.payload.next;
          write_count = 1;
        };
      }),
      (record rs {
        busy = (waiting rs p).busy;
        payload = record (waiting rs p).payload {
          next = receive2 msg (receive1 msg p);
          write_count = 1;
        };
      }),
      simp (fresh, fresh') refl,
      rw e refl,
      refl,
      link_kept msg entry.payload.next op ∙ kept,
      (received msg p e).0,
      (λ same. differs (sym (received msg p e).1 ∙ same)),
    )
