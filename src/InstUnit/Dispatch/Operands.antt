-- ===== src/InstUnit/Dispatch/Operands.antt =====
-- What the operands of inst-dispatch.c stand for.
use fakerv32i.Base.{
  ℕ, ◌≡◌, ◌≢◌, refl, ◌∙◌, arith, true, Bool-cases, inl, inr, ◌==◌, if◌then◌else◌, Option, none,
  some, done,
}
use fakerv32i.Bus.{bus_get_data}
use fakerv32i.RegStore.{reg_store_get, reg_store_rob_id_get}
use fakerv32i.Reservation.{CdbMessage, RsPayload, receive1, receive2}
use fakerv32i.ReorderBuffer.{Entry, entry_of, rob_unit_find}
use fakerv32i.InstUnit.Dispatch.{Sources, Operand, from_bus, from_entry, inst_reg_set}

-- The results that the entries in flight will have, by their ids.
module _ (result : ℕ → ℕ) where
  -- The value that an operand stands for: its own, or the result of the entry it waits for.
  abbrev pub denotes : ℕ → ℕ → ℕ
  denotes src value = if src == 0 then value else result src

  -- The results that are there already agree: those in entries that are ready, and the one on the bus.
  pub record Agrees (unit : Sources) : Type 0 where
    pub entries :
        (rob_id id : ℕ) (entry : Entry)
        → rob_unit_find unit.rob rob_id ≡ done id
        → entry_of unit.rob id ≡ done entry
        → entry.ready.buf ≡ true
        → entry.payload.buf.value ≡ result rob_id
    pub in_flight :
        (msg : CdbMessage) → bus_get_data unit.cdb ≡ some msg → msg.result ≡ result msg.rob

  -- The value that a register has or will have: register 0 is 0, and a register that an entry will write
  -- has the result of that entry.
  abbrev pub expected : ℕ → ℕ → ℕ → ℕ
  expected id rob_id value = if id == 0 then 0 else if rob_id == 0 then value else result rob_id

  from_bus-denotes :
      (rob_id : ℕ) (msg : Option CdbMessage)
      → rob_id ≢ 0
      → ((m : CdbMessage) → msg ≡ some m → m.result ≡ result m.rob)
      → denotes (from_bus rob_id msg).src (from_bus rob_id msg).value ≡ result rob_id
  unfolding from_bus
  from_bus-denotes rob_id none ne agree = ground arith
  from_bus-denotes rob_id (some m) ne agree = ground (arith, agree m refl)

  from_entry-denotes :
      (unit : Sources) (rob_id id : ℕ) (entry : Entry)
      → Agrees unit
      → rob_id ≢ 0
      → rob_unit_find unit.rob rob_id ≡ done id
      → entry_of unit.rob id ≡ done entry
      → (o : Operand) × (from_entry unit rob_id ≡ done o) × (denotes o.src o.value ≡ result rob_id)
  unfolding from_entry
  from_entry-denotes unit rob_id id entry a ne found e = elim (Bool-cases entry.ready.buf) [
    | inl h ↦ (
      record { src = 0; value = entry.payload.buf.value },
      rw (found, e) (simp h refl),
      a.entries rob_id id entry found e h,
    )
    | inr h ↦ (
      from_bus rob_id (bus_get_data unit.cdb),
      rw (found, e) (simp h refl),
      from_bus-denotes rob_id (bus_get_data unit.cdb) ne a.in_flight,
    )
  ]

  capture1 :
      (msg : CdbMessage) (p : RsPayload) (src value : ℕ)
      → msg.rob ≢ 0
      → msg.result ≡ result msg.rob
      → let q = receive1 msg (record p { src1 = src; value1 = value }) in
        denotes q.src1 q.value1 ≡ denotes src value
  unfolding receive1
  capture1 msg p src value real agree = elim (Bool-cases (src == msg.rob)) [
    | inl h ↦ rw h (ground (arith, agree))
    | inr h ↦ rw h refl
  ]

  capture2 :
      (msg : CdbMessage) (p : RsPayload) (src value : ℕ)
      → msg.rob ≢ 0
      → msg.result ≡ result msg.rob
      → let q = receive2 msg (record p { src2 = src; value2 = value }) in
        denotes q.src2 q.value2 ≡ denotes src value
  unfolding receive2
  capture2 msg p src value real agree = elim (Bool-cases (src == msg.rob)) [
    | inl h ↦ rw h (ground (arith, agree))
    | inr h ↦ rw h refl
  ]

  operand_denotes :
      (unit : Sources) (reg rob_id value id : ℕ) (entry : Entry)
      → Agrees unit
      → reg_store_rob_id_get unit.reg_store reg ≡ done rob_id
      → reg_store_get unit.reg_store reg ≡ done value
      → (rob_id ≢ 0 → rob_unit_find unit.rob rob_id ≡ done id)
      → (rob_id ≢ 0 → entry_of unit.rob id ≡ done entry)
      → (o : Operand) × (inst_reg_set unit reg ≡ done o)
        × (denotes o.src o.value ≡ expected reg rob_id value)
  unfolding inst_reg_set
  operand_denotes unit reg rob_id value id entry a pending read found e =
      elim (Bool-cases (reg == 0)) [
        | inl h ↦ (record { src = 0; value = 0 }, rw h refl, rw h refl)
        | inr h ↦ elim (Bool-cases (rob_id == 0)) [
          | inl k ↦
              (record { src = 0; value = value }, rw (h, pending, k, read) refl, rw (h, k) refl)
          | inr k ↦
              let ne : rob_id ≢ 0 = ground arith in
              let (o, eq, d) = from_entry-denotes unit rob_id id entry a ne (found ne) (e ne) in
              (o, rw (h, pending, k) eq, rw (h, k) d)
        ]
      ]

  -- An operand is found for every register and stands for the value that the register has or will have;
  -- and a station that keeps it goes on doing so when it captures a message with the result of its entry.
  pub inst_reg_set-denotes :
      (unit : Sources) (reg rob_id value id : ℕ) (entry : Entry) (msg : CdbMessage) (p : RsPayload)
      → Agrees unit
      → reg_store_rob_id_get unit.reg_store reg ≡ done rob_id
      → reg_store_get unit.reg_store reg ≡ done value
      → (rob_id ≢ 0 → rob_unit_find unit.rob rob_id ≡ done id)
      → (rob_id ≢ 0 → entry_of unit.rob id ≡ done entry)
      → msg.rob ≢ 0
      → msg.result ≡ result msg.rob
      → (o : Operand) × (inst_reg_set unit reg ≡ done o)
        × (denotes o.src o.value ≡ expected reg rob_id value)
        × (let p1 = receive1 msg (record p { src1 = o.src; value1 = o.value }) in
            denotes p1.src1 p1.value1 ≡ expected reg rob_id value)
        × (let p2 = receive2 msg (record p { src2 = o.src; value2 = o.value }) in
            denotes p2.src2 p2.value2 ≡ expected reg rob_id value)
  inst_reg_set-denotes unit reg rob_id value id entry msg p a pending read found e real agree =
      let (o, eq, d) = operand_denotes unit reg rob_id value id entry a pending read found e in
      (
        o,
        eq,
        d,
        capture1 msg p o.src o.value real agree ∙ d,
        capture2 msg p o.src o.value real agree ∙ d,
      )
