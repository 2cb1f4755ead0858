-- ===== src/Memory/Pending.antt =====
-- memory.c: the loads and stores that take `MEM_TICKS` cycles, and the tick that completes them.
pub mod Completion
pub mod Content
pub mod Flags
use fakerv32i.Base.{
  ℕ, zero, suc, ◌-◌, Bool, true, false, not, ◌&&◌, if◌then◌else◌, List, [], ◌∷◌, map, replicate,
  get_elem?, set, Option, none, some, ℤ, pos, negsuc, Outcome, done, fault, ◌>>=◌, in_range,
}
use fakerv32i.Rv32i.{Status, fail, success}
use fakerv32i.Reg.{
  RegMut, RegReduce, BusyWait, busy_wait_signal, reg_mut_create, reg_mut_read, reg_mut_write,
  reg_reduce_read, reg_or_create, reg_or_write, reg_mut_tick, reg_reduce_tick,
}
use fakerv32i.Bus.{Bus}
use fakerv32i.Bus.Helper.{BusHelper, bh_acquire, bh_create, buffer_write, helper_regs}
use fakerv32i.Reservation.{CdbMessage}
use fakerv32i.Memory.{Bytes, mem_ticks, mem_get_sz, mem_set_sz}
use fakerv32i.Memory.Requests.{mem_acquire_req}

-- `mem_load_request_t`; the `int` of the cycles left is taken not to overflow.
pub record LoadRequest : Type 0 where
  pub addr : ℕ
  pub size : ℕ
  pub base_msg : CdbMessage
  pub ticks_remaining : ℤ

-- `mem_store_request_t`. Its `callback` is left out: the one pointer that the program ever stores there
-- is the signal of the lock of the load/store queue, which `mem_tick` takes.
pub record StoreRequest : Type 0 where
  pub addr : ℕ
  pub value : ℕ
  pub size : ℕ
  pub ticks_remaining : ℤ

-- `memory_t`, without the pointer to the bus. The four arrays have `mem_ticks` places.
pub record MemUnit : Type 0 where
  pub bytes : Bytes
  pub cdb_helper : BusHelper CdbMessage
  pub load_requests : List (RegMut LoadRequest)
  pub load_requests_busy : List (RegReduce Bool)
  pub store_requests : List (RegMut StoreRequest)
  pub store_requests_busy : List (RegReduce Bool)
  pub clear : RegMut Bool

abbrev pub no_message : CdbMessage
no_message = record { rob = 0; result = 0 }

abbrev pub no_load : LoadRequest
no_load = record { addr = 0; size = 0; base_msg = no_message; ticks_remaining = pos 0 }

abbrev pub no_store : StoreRequest
no_store = record { addr = 0; value = 0; size = 0; ticks_remaining = pos 0 }

unfoldable pub mem_create : Bus CdbMessage → MemUnit × Bus CdbMessage
unfolding reg_mut_create reg_or_create
mem_create cdb =
    let helper = bh_create no_message cdb in
    (
      (record {
        bytes = λ addr. 0;
        cdb_helper = helper.0;
        load_requests = replicate mem_ticks (reg_mut_create no_load);
        load_requests_busy = replicate mem_ticks reg_or_create;
        store_requests = replicate mem_ticks (reg_mut_create no_store);
        store_requests_busy = replicate mem_ticks reg_or_create;
        clear = record { buf = false; next = false; write_count = 0; clear = true };
      }),
      helper.1,
    )

abbrev pub decrement : ℤ → ℤ
decrement (pos zero) = negsuc 0
decrement (pos (suc n)) = pos n
decrement (negsuc n) = negsuc (suc n)

-- `ticks_remaining <= 0` and `ticks_remaining == 0`.
abbrev pub expired : ℤ → Bool
expired (pos zero) = true
expired (pos (suc n)) = false
expired (negsuc n) = true

abbrev pub is_zero : ℤ → Bool
is_zero (pos zero) = true
is_zero (pos (suc n)) = false
is_zero (negsuc n) = false

-- What a round of the loop over the loads hands to the next: `cdb_sent`, the sender, and the bus.
pub record Sender : Type 0 where
  pub cdb_sent : Bool
  pub cdb_helper : BusHelper CdbMessage
  pub cdb : Bus CdbMessage

-- A load that has run out, after the call of `bh_acquire`: whether it stays busy, and the sender.
pub load_sent :
    Bytes
    → LoadRequest
    → Option Bool × BusHelper CdbMessage × Bus CdbMessage
    → Outcome (Bool × Sender)
load_sent bytes req (none, bh, cdb) =
    done (true, record { cdb_sent = true; cdb_helper = bh; cdb = cdb })
load_sent bytes req (some ix, bh, cdb) = do
  value ← mem_get_sz bytes req.addr req.size
  bh' ← buffer_write bh ix (record req.base_msg { result = value })
  done (false, record { cdb_sent = true; cdb_helper = bh'; cdb = cdb })

-- A round of the loop over the loads.
unfoldable pub load_round :
    Bytes → Bool → RegMut LoadRequest → Sender → Outcome (RegMut LoadRequest × Bool × Sender)
unfolding reg_mut_read reg_mut_write
load_round bytes busy reg s = if not busy then done (reg, false, s) else do
  reg' ←
      reg_mut_write reg (λ next. record next { ticks_remaining = decrement next.ticks_remaining })
  if not s.cdb_sent && expired reg'.next.ticks_remaining
      then (do
        acquired ← bh_acquire s.cdb_helper s.cdb
        sent ← load_sent bytes (reg_mut_read reg) acquired
        done (reg', sent.0, sent.1))
      else done (reg', true, s)

-- The loop, over the registers and the flags together.
unfoldable pub load_loop :
    Bytes
    → List Bool
    → List (RegMut LoadRequest)
    → Sender
    → Outcome (List (RegMut LoadRequest) × List Bool × Sender)
load_loop bytes (busy ∷ flags) (reg ∷ regs) s = do
  first ← load_round bytes busy reg s
  rest ← load_loop bytes flags regs first.2
  done (first.0 ∷ rest.0, first.1 ∷ rest.1, rest.2)
load_loop bytes [] regs s = done (regs, [], s)
load_loop bytes (busy ∷ flags) [] s = done ([], [], s)

-- A round of the loop over the stores; the lock is that of the callback.
unfoldable pub store_round :
    Bool
    → RegMut StoreRequest
    → Bytes
    → BusyWait
    → Outcome (RegMut StoreRequest × Bool × Bytes × BusyWait)
unfolding reg_mut_read reg_mut_write
store_round busy reg bytes lock =
    if not busy
    then done (reg, false, bytes, lock)
    else let req = reg_mut_read reg in
      do
        reg' ←
            reg_mut_write reg
              (λ next. record next { ticks_remaining = decrement req.ticks_remaining })
        if is_zero reg'.next.ticks_remaining
            then (do
              bytes' ← mem_set_sz bytes req.addr req.value req.size
              lock' ← busy_wait_signal lock
              done (reg', false, bytes', lock'))
            else done (reg', true, bytes, lock)

unfoldable pub store_loop :
    List Bool
    → List (RegMut StoreRequest)
    → Bytes
    → BusyWait
    → Outcome (List (RegMut StoreRequest) × List Bool × Bytes × BusyWait)
store_loop (busy ∷ flags) (reg ∷ regs) bytes lock = do
  first ← store_round busy reg bytes lock
  rest ← store_loop flags regs first.2 first.3
  done (first.0 ∷ rest.0, first.1 ∷ rest.1, rest.2, rest.3)
store_loop [] regs bytes lock = done (regs, [], bytes, lock)
store_loop (busy ∷ flags) [] bytes lock = done ([], [], bytes, lock)

-- The loops that read and write the flags.
unfoldable pub read_flags : List (RegReduce Bool) → List Bool
unfolding reg_reduce_read
read_flags [] = []
read_flags (r ∷ rest) = reg_reduce_read r ∷ read_flags rest

pub write_flags : List (RegReduce Bool) → List Bool → List (RegReduce Bool)
unfolding reg_or_write
write_flags [] flags = []
write_flags (r ∷ rest) [] = r ∷ rest
write_flags (r ∷ rest) (b ∷ flags) = reg_or_write r b ∷ write_flags rest flags

-- `_mem_tick`, a callback of the clock.
unfoldable pub mem_tick :
    MemUnit → Bus CdbMessage → BusyWait → Outcome (MemUnit × Bus CdbMessage × BusyWait)
unfolding reg_mut_read
mem_tick mem cdb lock =
    let stores = read_flags mem.store_requests_busy in
    if reg_mut_read mem.clear
    then done
        (record mem { store_requests_busy = write_flags mem.store_requests_busy stores }, cdb, lock)
    else do
      loads ←
          load_loop mem.bytes (read_flags mem.load_requests_busy) mem.load_requests
            (record { cdb_sent = false; cdb_helper = mem.cdb_helper; cdb = cdb })
      stored ← store_loop stores mem.store_requests mem.bytes lock
      done (
        record mem {
          bytes = stored.2;
          cdb_helper = loads.2.cdb_helper;
          load_requests = loads.0;
          load_requests_busy = write_flags mem.load_requests_busy loads.1;
          store_requests = stored.0;
          store_requests_busy = write_flags mem.store_requests_busy stored.1;
        },
        loads.2.cdb,
        stored.3,
      )

-- The write that marks a place as busy.
pub mark_busy : List (RegReduce Bool) → ℕ → Outcome (List (RegReduce Bool))
unfolding reg_or_write
mark_busy flags id = do
  flag ← in_range (get_elem? flags id)
  done (set flags id (reg_or_write flag true))

-- `mem_request_load` and `mem_request_store` with a place, and with none.
pub load_at : MemUnit → LoadRequest → Option ℕ → Outcome (Status × MemUnit)
unfolding reg_mut_write
load_at mem req none = done (fail, mem)
load_at mem req (some id) = do
  flags ← mark_busy mem.load_requests_busy id
  reg ← in_range (get_elem? mem.load_requests id)
  reg' ← reg_mut_write reg (λ next. req)
  done (
    success,
    record mem { load_requests_busy = flags; load_requests = set mem.load_requests id reg' },
  )

pub store_at : MemUnit → StoreRequest → Option ℕ → Outcome (Status × MemUnit)
unfolding reg_mut_write
store_at mem req none = done (fail, mem)
store_at mem req (some id) = do
  flags ← mark_busy mem.store_requests_busy id
  reg ← in_range (get_elem? mem.store_requests id)
  reg' ← reg_mut_write reg (λ next. req)
  done (
    success,
    record mem { store_requests_busy = flags; store_requests = set mem.store_requests id reg' },
  )

pub mem_request_load : MemUnit → ℕ → ℕ → CdbMessage → Outcome (Status × MemUnit)
mem_request_load mem addr size base_msg = do
  id ← mem_acquire_req mem.load_requests_busy
  load_at mem
      (record {
        addr = addr;
        size = size;
        base_msg = base_msg;
        ticks_remaining = pos (mem_ticks - 1);
      })
      id

pub mem_request_store : MemUnit → ℕ → ℕ → ℕ → Outcome (Status × MemUnit)
mem_request_store mem addr value size = do
  id ← mem_acquire_req mem.store_requests_busy
  store_at mem
      (record { addr = addr; value = value; size = size; ticks_remaining = pos (mem_ticks - 1) }) id

unfoldable pub mem_clear : MemUnit → Outcome MemUnit
unfolding reg_mut_write
mem_clear mem = do
  clear' ← reg_mut_write mem.clear (λ _. true)
  done (record mem { clear = clear' })

-- The registers of the memory at a tick of the clock.
unfoldable pub mem_regs : MemUnit → MemUnit
unfolding reg_mut_tick reg_reduce_tick
mem_regs mem = record mem {
  cdb_helper = helper_regs no_message mem.cdb_helper;
  load_requests = map (reg_mut_tick no_load) mem.load_requests;
  load_requests_busy = map reg_reduce_tick mem.load_requests_busy;
  store_requests = map (reg_mut_tick no_store) mem.store_requests;
  store_requests_busy = map reg_reduce_tick mem.store_requests_busy;
  clear = reg_mut_tick false mem.clear;
}
