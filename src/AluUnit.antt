-- ===== src/AluUnit.antt =====
-- alu.c: the arithmetic unit of the pipeline, which computes a task and sends the result on the bus.
pub mod Delivery
use fakerv32i.Base.{
  ℕ, Bool, true, false, if◌then◌else◌, Option, none, some, List, [], ◌∷◌, Outcome, done, fault,
  ◌>>=◌,
}
use fakerv32i.Rv32i.{Status, fail, success}
use fakerv32i.AluOps.{alu_execute}
use fakerv32i.Reg.{RegMut, RegReduce, reg_mut_read, reg_mut_write, reg_reduce_read, reg_or_write}
use fakerv32i.Bus.{Bus}
use fakerv32i.Bus.Helper.{
  BusHelper, bh_should_clear, bh_should_stall, bh_acquire, buffer_at, buffer_write,
}
use fakerv32i.Reservation.{CdbMessage}

-- `alu_task_t`.
pub record AluTask : Type 0 where
  pub op : ℕ
  pub value1 : ℕ
  pub value2 : ℕ
  pub base_msg : CdbMessage

-- `_alu_result_buf_t`.
pub record AluResultBuf : Type 0 where
  pub msg : CdbMessage
  pub busy : Bool

-- `alu_t`, without the pointer to the bus.
pub record Alu : Type 0 where
  pub cdb_helper : BusHelper CdbMessage
  pub task : RegMut AluTask
  pub busy : RegReduce Bool
  pub result_buf : RegMut AluResultBuf

-- The branch of `_alu_tick` with a result in the buffer, after the call of `bh_acquire`.
pub alu_resent :
    Alu
    → AluResultBuf
    → Option Bool × BusHelper CdbMessage × Bus CdbMessage
    → Outcome (Alu × Bus CdbMessage)
unfolding reg_mut_write reg_reduce_read reg_or_write
alu_resent alu buf (none, bh, bus) = done (record alu { cdb_helper = bh }, bus)
alu_resent alu buf (some ix, bh, bus) = do
  bh' ← buffer_write bh ix buf.msg
  result' ← reg_mut_write alu.result_buf (λ _. record buf { busy = false })
  done (
    (record alu {
      cdb_helper = bh';
      result_buf = result';
      busy = reg_or_write alu.busy (reg_reduce_read alu.busy);
    }),
    bus,
  )

-- The branch with a task, likewise.
pub alu_computed :
    Alu
    → CdbMessage
    → Option Bool × BusHelper CdbMessage × Bus CdbMessage
    → Outcome (Alu × Bus CdbMessage)
unfolding reg_mut_write
alu_computed alu msg (none, bh, bus) = do
  result' ← reg_mut_write alu.result_buf (λ _. record { msg = msg; busy = true })
  done (record alu { cdb_helper = bh; result_buf = result' }, bus)
alu_computed alu msg (some ix, bh, bus) = do
  bh' ← buffer_write bh ix msg
  done (record alu { cdb_helper = bh' }, bus)

pub alu_compute : Alu → Bus CdbMessage → AluTask → Outcome (Alu × Bus CdbMessage)
alu_compute alu bus task = do
  acquired ← bh_acquire alu.cdb_helper bus
  value ← alu_execute task.op task.value1 task.value2
  alu_computed alu (record task.base_msg { result = value }) acquired

-- `_alu_tick`, a callback of the clock.
unfoldable pub alu_tick : Alu → Bus CdbMessage → Outcome (Alu × Bus CdbMessage)
unfolding reg_mut_read reg_mut_write reg_reduce_read
alu_tick alu bus =
    if bh_should_clear bus
    then (do
      result' ← reg_mut_write alu.result_buf (λ old. record old { busy = false })
      done (record alu { result_buf = result' }, bus))
    else if (reg_mut_read alu.result_buf).busy
    then bh_acquire alu.cdb_helper bus >>= alu_resent alu (reg_mut_read alu.result_buf)
    else if reg_reduce_read alu.busy
    then alu_compute alu bus (reg_mut_read alu.task)
    else done (alu, bus)

-- `alu_task`.
pub alu_task : Alu → Bus CdbMessage → AluTask → Outcome (Status × Alu)
unfolding reg_mut_write reg_or_write
alu_task alu bus task =
    if bh_should_clear bus
    then done (success, alu)
    else if bh_should_stall alu.cdb_helper bus
    then done (fail, alu)
    else do
      task' ← reg_mut_write alu.task (λ _. task)
      done (success, record alu { task = task'; busy = reg_or_write alu.busy true })
