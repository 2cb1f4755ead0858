-- ===== src/AluUnit/Delivery.antt =====
-- The way of a task through alu.c: accepted, computed, kept while the sender is full, and sent.
use fakerv32i.Base.{
  ℕ, ◌≡◌, refl, arith, Bool, true, false, ◌||◌, some, List, [], ◌∷◌, Outcome, done, ◌>>=◌,
}
use fakerv32i.Rv32i.{success}
use fakerv32i.Reg.{
  reg_mut_write, reg_mut_tick, reg_reduce_tick, reg_or_write, reg_or_reduce, reg_reduce_write,
  reg_reduce_read, reg_mut_read,
}
use fakerv32i.AluOps.{alu_execute}
use fakerv32i.Bus.{Bus}
use fakerv32i.Bus.Helper.{BusHelper, bh_should_clear, bh_should_stall, bh_acquire, buffer_write}
use fakerv32i.Bus.Helper.Acquire.{bh_acquire-stall}
use fakerv32i.Reservation.{CdbMessage}
use fakerv32i.AluUnit.{AluTask, Alu, alu_resent, alu_computed, alu_compute, alu_tick, alu_task}
use fakerv32i.Cpu.Clock.{alu_regs}

-- The message that a task ends in.
abbrev pub message_of : AluTask → ℕ → CdbMessage
message_of task value = record task.base_msg { result = value }

-- A unit without work, as it is when its stations hand it a task.
pub record IsIdle (alu : Alu) : Type 0 where
  pub task : alu.task.write_count ≡ 0
  pub busy : alu.busy.init ≡ false
  pub result_buf : (alu.result_buf.next.busy ≡ false) × (alu.result_buf.clear ≡ false)

-- A cycle as the unit sees it: what the tick of the sender leaves, and the bus.
abbrev pub Surroundings : Type 0
Surroundings = BusHelper CdbMessage × Bus CdbMessage

abbrev pub tick_in : Alu → Surroundings → Outcome (Alu × Bus CdbMessage)
tick_in alu (bh, bus) = alu_tick (record alu { cdb_helper = bh }) bus

-- Cycles of a unit whose registers have ticked, which get no other task.
pub cycles : Alu → List Surroundings → Outcome Alu
cycles alu [] = done alu
cycles alu (s ∷ rest) = tick_in alu s >>= λ r. cycles (alu_regs r.0) rest

-- No clear is requested, and both buffers of the sender are in use.
abbrev pub AreFull : List Surroundings → Type 0
AreFull [] = Unit {0}
AreFull ((bh, bus) ∷ rest) =
    (bh_should_clear bus ≡ false) × (bh_should_stall bh bus ≡ true) × AreFull rest

module _ (task : AluTask) (value : ℕ) where
  -- The unit has the task, or the result that it could not send.
  data HasWork (alu : Alu) : Type 0 where
    has_task :
        alu.task.buf ≡ task
        → alu.busy.buf ≡ true
        → alu.busy.next ≡ false
        → alu.busy.init ≡ false
        → alu.result_buf.buf.busy ≡ false
        → alu.result_buf.next.busy ≡ false
        → alu.result_buf.write_count ≡ 0
        → alu.result_buf.clear ≡ false
        → HasWork alu
    has_result :
        alu.result_buf.buf ≡ record { msg = message_of task value; busy = true }
        → alu.result_buf.next ≡ record { msg = message_of task value; busy = true }
        → alu.busy.buf ≡ false
        → alu.busy.next ≡ false
        → alu.busy.init ≡ false
        → alu.result_buf.write_count ≡ 0
        → alu.result_buf.clear ≡ false
        → HasWork alu

  full-HasWork :
      (alu : Alu) (bh : BusHelper CdbMessage) (bus : Bus CdbMessage)
      → alu_execute task.op task.value1 task.value2 ≡ done value
      → HasWork alu
      → bh_should_clear bus ≡ false
      → bh_should_stall bh bus ≡ true
      → (alu' : Alu) × (tick_in alu (bh, bus) ≡ done (alu', bus)) × HasWork (alu_regs alu')
  unfolding alu_tick alu_compute alu_computed alu_resent reg_mut_read reg_mut_write alu_regs
      reg_mut_tick reg_reduce_tick reg_reduce_read
  full-HasWork alu bh bus executed (has_task t b n i rb rn w c) clear full =
      let refused = (bh_acquire-stall bh bus).0 full in
      (
        record alu {
          cdb_helper = bh;
          result_buf = record alu.result_buf {
            next = record { msg = message_of task value; busy = true };
            write_count = 1;
          };
        },
        simp (clear, rb, b, t, refused, executed, w) refl,
        has_result refl (rw c refl) n i i refl c,
      )
  full-HasWork alu bh bus executed (has_result rb rn b n i w c) clear full =
      let refused = (bh_acquire-stall bh bus).0 full in
      (
        record alu { cdb_helper = bh },
        simp (clear, rb, refused) refl,
        has_result rn (rw (c, rn) refl) n i i refl c,
      )

  cycles-HasWork :
      (alu : Alu) (full : List Surroundings)
      → alu_execute task.op task.value1 task.value2 ≡ done value
      → HasWork alu
      → AreFull full
      → (alu' : Alu) × (cycles alu full ≡ done alu') × HasWork alu'
  unfolding cycles
  cycles-HasWork alu [] executed work f = (alu, refl, work)
  cycles-HasWork alu ((bh, bus) ∷ rest) executed work f =
      let (alu1, ticks, work1) = full-HasWork alu bh bus executed work f.0 f.1 in
      let (alu2, later, work2) = cycles-HasWork (alu_regs alu1) rest executed work1 f.2 in
      (alu2, rw ticks later, work2)

  -- The sender has a buffer for the message, and the unit has nothing to do in the next cycle.
  abbrev Sent : Alu → BusHelper CdbMessage → Type 0
  Sent alu bh =
      (alu.cdb_helper ≡ bh)
      × ((alu_regs alu).busy.buf ≡ false)
      × ((alu_regs alu).result_buf.buf.busy ≡ false)

  free-Sent :
      (alu : Alu) (bh bh1 bh2 : BusHelper CdbMessage) (bus bus' : Bus CdbMessage) (ix : Bool)
      → alu_execute task.op task.value1 task.value2 ≡ done value
      → HasWork alu
      → bh_should_clear bus ≡ false
      → bh_acquire bh bus ≡ done (some ix, bh1, bus')
      → buffer_write bh1 ix (message_of task value) ≡ done bh2
      → (alu' : Alu) × (tick_in alu (bh, bus) ≡ done (alu', bus')) × Sent alu' bh2
  unfolding alu_tick alu_compute alu_computed alu_resent reg_mut_read reg_mut_write alu_regs
      reg_mut_tick reg_reduce_tick reg_reduce_read reg_or_write reg_reduce_write reg_or_reduce
  free-Sent alu bh bh1 bh2 bus bus' ix executed (has_task t b n i rb rn w c) clear acquired
        written =
      (
        record alu { cdb_helper = bh2 },
        simp (clear, rb, b, t, acquired, executed, written) refl,
        (refl, n, rn),
      )
  free-Sent alu bh bh1 bh2 bus bus' ix executed (has_result rb rn b n i w c) clear acquired
        written =
      (
        record alu {
          cdb_helper = bh2;
          busy = reg_or_write alu.busy (reg_reduce_read alu.busy);
          result_buf = record alu.result_buf {
            next = record { msg = message_of task value; busy = false };
            write_count = 1;
          };
        },
        simp (clear, rb, acquired, written, w) refl,
        (refl, rw (n, b) refl, refl),
      )

accepted-HasWork :
    (alu : Alu) (bus : Bus CdbMessage) (task : AluTask) (value : ℕ)
    → IsIdle alu
    → bh_should_clear bus ≡ false
    → bh_should_stall alu.cdb_helper bus ≡ false
    → (alu' : Alu) × (alu_task alu bus task ≡ done (success, alu'))
      × HasWork task value (alu_regs alu')
unfolding alu_task alu_regs reg_mut_write reg_mut_tick reg_reduce_tick reg_or_write reg_reduce_write
    reg_or_reduce
accepted-HasWork alu bus task value idle clear room =
    let busy : alu.busy.next || true ≡ true = ground arith in
    let r = idle.result_buf in
    (
      record alu {
        task = record alu.task { next = task; write_count = 1 };
        busy = record alu.busy { next = alu.busy.next || true };
      },
      simp (clear, room, idle.task) refl,
      has_task refl busy idle.busy idle.busy r.0 (rw r.1 r.0) refl r.1,
    )

-- A unit without work accepts a task when no clear is requested and its sender has a free buffer. However
-- many cycles the sender is full from then on, the unit keeps the task's result, and in the first cycle in
-- which the sender gives out a buffer that can be written, it writes there the message of the task with what `alu_execute`
-- computes, and has nothing to send in the next cycle, if nobody requests a clear in the meantime.
pub alu_task-delivers :
    (alu : Alu) (bus0 : Bus CdbMessage) (task : AluTask) (value : ℕ) (full : List Surroundings)
    (bh bh1 bh2 : BusHelper CdbMessage) (bus bus' : Bus CdbMessage) (ix : Bool)
    → IsIdle alu
    → bh_should_clear bus0 ≡ false
    → bh_should_stall alu.cdb_helper bus0 ≡ false
    → alu_execute task.op task.value1 task.value2 ≡ done value
    → AreFull full
    → bh_should_clear bus ≡ false
    → bh_acquire bh bus ≡ done (some ix, bh1, bus')
    → buffer_write bh1 ix (message_of task value) ≡ done bh2
    → (accepted : Alu) × (kept : Alu) × (sent : Alu) × (alu_task alu bus0 task
        ≡ done (success, accepted))
      × (cycles (alu_regs accepted) full ≡ done kept)
      × (tick_in kept (bh, bus) ≡ done (sent, bus'))
      × (sent.cdb_helper ≡ bh2)
      × ((alu_regs sent).busy.buf ≡ false)
      × ((alu_regs sent).result_buf.buf.busy ≡ false)
alu_task-delivers alu bus0 task value full bh bh1 bh2 bus bus' ix idle clear0 room executed are_full
      clear acquired written =
    let (accepted, accepts, work0) = accepted-HasWork alu bus0 task value idle clear0 room in
    let (kept, keeps, work1) =
      cycles-HasWork task value (alu_regs accepted) full executed work0 are_full in
    let (sent, sends, s) =
      free-Sent task value kept bh bh1 bh2 bus bus' ix executed work1 clear acquired written in
    (accepted, kept, sent, accepts, keeps, sends, s.0, s.1, s.2)
