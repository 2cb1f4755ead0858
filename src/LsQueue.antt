-- ===== src/LsQueue.antt =====
-- ls-queue.c: the queue of loads and stores on their way to the memory, one store at a time.
pub mod Ring
use fakerv32i.Base.{
  ℕ, Bool, true, false, if◌then◌else◌, List, [], ◌∷◌, get_elem?, set, Option, Outcome, done, ◌>>=◌,
  in_range,
}
use fakerv32i.Rv32i.{Status, fail, success}
use fakerv32i.Reg.{
  RegMut, BusyWait, busy_wait, busy_wait_create, busy_wait_should_stall, reg_mut_read,
  reg_mut_write,
}
use fakerv32i.Queue.{Queue, queue_create, queue_empty, queue_full, queue_pop, queue_push, visited}
use fakerv32i.Reservation.{CdbMessage}
use fakerv32i.Memory.Pending.{MemUnit, no_message, mem_request_load, mem_request_store}

-- `ls_op_t`.
pub data LsOp : Type 0 where
  load store : LsOp

-- `ls_queue_payload_t`.
pub record LsPayload : Type 0 where
  pub op : LsOp
  pub addr : ℕ
  pub size : ℕ
  pub base_msg : CdbMessage
  pub cleared : Bool
  pub value : ℕ

-- `ls_queue_t`, without the pointer to the memory.
pub record LsQueue : Type 0 where
  pub queue : Queue LsPayload
  pub lock : BusyWait
  pub clear : RegMut Bool

abbrev pub ls_queue_capacity : ℕ
ls_queue_capacity = 8

abbrev pub no_payload : LsPayload
no_payload = record {
  op = load;
  addr = 0;
  size = 0;
  base_msg = no_message;
  cleared = false;
  value = 0;
}

unfoldable pub ls_queue_create : LsQueue
ls_queue_create = record {
  queue = queue_create no_payload ls_queue_capacity;
  lock = busy_wait_create;
  clear = record { buf = false; next = false; write_count = 0; clear = true };
}

-- The body of the loop over a queue that is cleared: a load is marked.
pub clear_load : LsOp → RegMut LsPayload → Outcome (RegMut LsPayload)
unfolding reg_mut_write
clear_load load reg = reg_mut_write reg (λ next. record next { cleared = true })
clear_load store reg = done reg

pub clear_loads : List (RegMut LsPayload) → List ℕ → Outcome (List (RegMut LsPayload))
unfolding reg_mut_read
clear_loads cells [] = done cells
clear_loads cells (p ∷ ps) = do
  reg ← in_range (get_elem? cells p)
  reg' ← clear_load (reg_mut_read reg).op reg
  clear_loads (set cells p reg') ps

-- The `switch` on the operation of the entry that leaves the queue.
pub ls_issue : LsQueue → MemUnit → LsPayload → LsOp → Outcome (LsQueue × MemUnit)
ls_issue ls mem payload load = do
  (status, mem') ← mem_request_load mem payload.addr payload.size payload.base_msg
  done (ls, mem')
ls_issue ls mem payload store = do
  (status, mem') ← mem_request_store mem payload.addr payload.value payload.size
  done (record ls { lock = busy_wait ls.lock }, mem')

-- The pop; a null pointer would be read.
pub ls_take : LsQueue → Outcome (LsQueue × LsPayload)
unfolding reg_mut_read
ls_take ls = do
  (queue', at) ← queue_pop ls.queue
  p ← in_range at
  reg ← in_range (get_elem? queue'.cells p)
  done (record ls { queue = queue' }, reg_mut_read reg)

-- `_ls_queue_tick`, a callback of the clock.
unfoldable pub ls_queue_tick : LsQueue → MemUnit → Outcome (LsQueue × MemUnit)
unfolding reg_mut_read
ls_queue_tick ls mem =
    if reg_mut_read ls.clear
    then (do
      ps ← visited ls.queue
      cells' ← clear_loads ls.queue.cells ps
      done (record ls { queue = record ls.queue { cells = cells' } }, mem))
    else if busy_wait_should_stall ls.lock
    then done (ls, mem)
    else if queue_empty ls.queue
    then done (ls, mem)
    else do
      (ls', payload) ← ls_take ls
      if payload.cleared then done (ls', mem) else ls_issue ls' mem payload payload.op

unfoldable pub ls_queue_full : LsQueue → Bool
ls_queue_full ls = queue_full ls.queue

-- The write of the payload through the pointer that the push returns.
unfoldable pub ls_write :
    LsQueue → LsPayload → Queue LsPayload × Option ℕ → Outcome (Status × LsQueue)
unfolding reg_mut_write
ls_write ls payload (queue', at) = do
  p ← in_range at
  reg ← in_range (get_elem? queue'.cells p)
  reg' ← reg_mut_write reg (λ _. record payload { cleared = false })
  done (success, record ls { queue = record queue' { cells = set queue'.cells p reg' } })

unfoldable pub ls_queue_push : LsQueue → LsPayload → Outcome (Status × LsQueue)
ls_queue_push ls payload =
    if ls_queue_full ls
    then done (fail, ls)
    else do pushed ← queue_push ls.queue; ls_write ls payload pushed

unfoldable pub ls_queue_clear : LsQueue → Outcome LsQueue
unfolding reg_mut_write
ls_queue_clear ls = do
  clear' ← reg_mut_write ls.clear (λ _. true)
  done (record ls { clear = clear' })
