-- ===== src/Memory/Pending/Completion.antt =====
-- How long a load and a store of memory.c take.
use fakerv32i.Base.{ℕ, ◌≡◌, refl, arith, Bool, true, false, [], ◌∷◌, some, done, pos}
use fakerv32i.Rv32i.{success}
use fakerv32i.Reg.{
  RegReduce, RegMut, BusyWait, busy_wait_signal, reg_mut_tick, reg_reduce_tick, reg_or_reduce,
}
use fakerv32i.Reg.Cycle.{settled}
use fakerv32i.Bus.{Bus}
use fakerv32i.Bus.Helper.{BusHelper, helper_regs, bh_acquire, buffer_write}
use fakerv32i.Reservation.{CdbMessage}
use fakerv32i.Memory.{Bytes, mem_get_sz, mem_set_sz}
use fakerv32i.Memory.Requests.{mem_acquire_req, mem_acquire_req-first}
use fakerv32i.Memory.Pending.{
  LoadRequest, StoreRequest, MemUnit, no_message, load_at, load_loop, load_round, load_sent,
  mark_busy, mem_regs, mem_request_load, mem_request_store, mem_tick, read_flags, store_at,
  store_loop, store_round, write_flags,
}

abbrev pub flag : Bool → RegReduce Bool
flag b = record { init = false; buf = b; next = false }

-- A memory at rest in which no request is pending.
abbrev pub idle :
    Bytes
    → BusHelper CdbMessage
    → LoadRequest × LoadRequest × LoadRequest
    → StoreRequest × StoreRequest × StoreRequest
    → MemUnit
idle bytes helper loads stores = record {
  bytes = bytes;
  cdb_helper = helper;
  load_requests = settled loads.0 ∷ settled loads.1 ∷ settled loads.2 ∷ [];
  load_requests_busy = flag false ∷ flag false ∷ flag false ∷ [];
  store_requests = settled stores.0 ∷ settled stores.1 ∷ settled stores.2 ∷ [];
  store_requests_busy = flag false ∷ flag false ∷ flag false ∷ [];
  clear = record { buf = false; next = false; write_count = 0; clear = true };
}

first_free : mem_acquire_req (flag false ∷ flag false ∷ flag false ∷ []) ≡ done (some 0)
first_free =
    (mem_acquire_req-first (flag false ∷ flag false ∷ flag false ∷ []) (omega arith)).1 []
      (flag false) (flag false ∷ flag false ∷ []) refl tt refl

-- A memory with one store, or one load, in its first place.
abbrev storing :
    MemUnit
    → BusHelper CdbMessage
    → StoreRequest × StoreRequest × StoreRequest
    → RegMut StoreRequest
    → RegReduce Bool
    → MemUnit
storing mem helper stores reg busy = record mem {
  cdb_helper = helper;
  store_requests = reg ∷ settled stores.1 ∷ settled stores.2 ∷ [];
  store_requests_busy = busy ∷ flag false ∷ flag false ∷ [];
}

abbrev loading :
    MemUnit
    → BusHelper CdbMessage
    → LoadRequest × LoadRequest × LoadRequest
    → RegMut LoadRequest
    → RegReduce Bool
    → MemUnit
loading mem helper loads reg busy = record mem {
  cdb_helper = helper;
  load_requests = reg ∷ settled loads.1 ∷ settled loads.2 ∷ [];
  load_requests_busy = busy ∷ flag false ∷ flag false ∷ [];
}

abbrev once : {A : Type 0} → A → A → RegMut A
once old new = record { buf = old; next = new; write_count = 1; clear = false }

abbrev raised : Bool → Bool → RegReduce Bool
raised now later = record { init = false; buf = now; next = later }

-- No request is pending in the next cycle.
abbrev pub IsFree : MemUnit → Type 0
IsFree mem =
    (read_flags (mem_regs mem).load_requests_busy ≡ false ∷ false ∷ false ∷ [])
    × (read_flags (mem_regs mem).store_requests_busy ≡ false ∷ false ∷ false ∷ [])

-- A memory at rest accepts a store. The store is not there after the first tick, and the lock is not
-- signalled; the second tick writes the bytes and signals the lock, and then no request is pending.
pub mem_request_store-completes :
    (bytes bytes' : Bytes) (helper : BusHelper CdbMessage)
    (loads : LoadRequest × LoadRequest × LoadRequest)
    (stores : StoreRequest × StoreRequest × StoreRequest) (addr value size : ℕ)
    (cdb1 cdb2 : Bus CdbMessage) (lock1 lock2 lock2' : BusyWait)
    → mem_set_sz bytes addr value size ≡ done bytes'
    → busy_wait_signal lock2 ≡ done lock2'
    → (mem1 : MemUnit) × (mem2 : MemUnit) × (mem3 : MemUnit) × (mem_request_store
          (idle bytes helper loads stores)
          addr
          value
          size
        ≡ done (success, mem1))
      × (mem_tick (mem_regs mem1) cdb1 lock1 ≡ done (mem2, cdb1, lock1))
      × (mem2.bytes ≡ bytes)
      × (mem_tick (mem_regs mem2) cdb2 lock2 ≡ done (mem3, cdb2, lock2'))
      × (mem3.bytes ≡ bytes')
      × IsFree mem3
unfolding mem_request_store store_at mark_busy mem_regs mem_tick read_flags write_flags store_loop
    store_round load_loop load_round reg_mut_tick reg_reduce_tick reg_or_reduce
mem_request_store-completes bytes bytes' helper loads stores addr value size cdb1 cdb2 lock1 lock2
      lock2' wrote signalled =
    let mem = idle bytes helper loads stores in
    let helper1 = helper_regs no_message helper in
    let req : ℕ → StoreRequest =
      λ n. record { addr = addr; value = value; size = size; ticks_remaining = pos n } in
    (
      storing mem helper stores (once stores.0 (req 2)) (raised false true),
      storing mem helper1 stores (once (req 2) (req 1)) (raised true true),
      record (storing mem (helper_regs no_message helper1) stores (once (req 1) (req 0))
          (raised true false)) { bytes = bytes' },
      rw first_free refl,
      refl,
      refl,
      rw (wrote, signalled) refl,
      refl,
      (refl, refl),
    )

-- A memory at rest accepts a load. At the second tick, if the sender gives out a buffer then, the message
-- with the value that memory holds at the address is written there, and then no request is pending. The first tick leaves the sender and the bus alone.
pub mem_request_load-completes :
    (bytes : Bytes) (helper helper2 bh bh' : BusHelper CdbMessage)
    (loads : LoadRequest × LoadRequest × LoadRequest)
    (stores : StoreRequest × StoreRequest × StoreRequest) (addr size value : ℕ) (msg : CdbMessage)
    (ix : Bool) (cdb1 cdb2 cdb2' : Bus CdbMessage) (lock1 lock2 : BusyWait)
    → mem_get_sz bytes addr size ≡ done value
    → bh_acquire helper2 cdb2 ≡ done (some ix, bh, cdb2')
    → buffer_write bh ix (record msg { result = value }) ≡ done bh'
    → (mem1 : MemUnit) × (mem2 : MemUnit) × (mem3 : MemUnit) × (mem_request_load
          (idle bytes helper loads stores)
          addr
          size
          msg
        ≡ done (success, mem1))
      × (mem_tick (mem_regs mem1) cdb1 lock1 ≡ done (mem2, cdb1, lock1))
      × (mem2.cdb_helper ≡ helper_regs no_message helper)
      × (mem_tick (record (mem_regs mem2) { cdb_helper = helper2 }) cdb2 lock2
          ≡ done (mem3, cdb2', lock2))
      × (mem3.bytes ≡ bytes)
      × (mem3.cdb_helper ≡ bh')
      × IsFree mem3
unfolding mem_request_load load_at mark_busy mem_regs mem_tick read_flags write_flags store_loop
    store_round load_loop load_round load_sent reg_mut_tick reg_reduce_tick reg_or_reduce
mem_request_load-completes bytes helper helper2 bh bh' loads stores addr size value msg ix cdb1 cdb2
      cdb2' lock1 lock2 read acquired written =
    let mem = idle bytes helper loads stores in
    let helper1 = helper_regs no_message helper in
    let req : ℕ → LoadRequest =
      λ n. record { addr = addr; size = size; base_msg = msg; ticks_remaining = pos n } in
    (
      loading mem helper loads (once loads.0 (req 2)) (raised false true),
      loading mem helper1 loads (once (req 2) (req 1)) (raised true true),
      loading mem bh' loads (once (req 1) (req 0)) (raised true false),
      rw first_free refl,
      refl,
      refl,
      rw (acquired, read, written) refl,
      refl,
      refl,
      (refl, refl),
    )
