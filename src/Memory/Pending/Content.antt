-- ===== src/Memory/Pending/Content.antt =====
-- The requests of memory.c leave bytes in the array.
use fakerv32i.Base.{
  Bool, true, false, not, List, [], ◌∷◌, Option, none, some, done, ℕ, Always, Always-bind,
  Always-then, Always-if, get_elem?, in_range,
}
use fakerv32i.Reg.{RegMut, BusyWait, reg_mut_read, reg_mut_write, busy_wait_signal}
use fakerv32i.Bus.{Bus}
use fakerv32i.Reservation.{CdbMessage}
use fakerv32i.Memory.{Bytes, mem_set_sz}
use fakerv32i.Memory.Access.{IsBytes, mem_set_sz-IsBytes}
use fakerv32i.Memory.Requests.{mem_acquire_req}
use fakerv32i.Memory.Pending.{
  MemUnit, LoadRequest, StoreRequest, load_loop, store_loop, store_round, mem_tick, read_flags,
  mark_busy, load_at, store_at, mem_request_load, mem_request_store, mem_clear, is_zero, decrement,
}

abbrev pub HasBytes : MemUnit → Type 0
HasBytes mem = IsBytes mem.bytes

store_round-IsBytes :
    (busy : Bool) (reg : RegMut StoreRequest) (bytes : Bytes) (lock : BusyWait)
    → IsBytes bytes
    → Always (λ r. IsBytes r.2) (store_round busy reg bytes lock)
unfolding store_round
store_round-IsBytes busy reg bytes lock h =
    Always-if (λ r. IsBytes r.2) (not busy) (done (reg, false, bytes, lock)) _ h
      (Always-then (λ r. IsBytes r.2)
        (reg_mut_write reg
          (λ next. record next { ticks_remaining = decrement reg.buf.ticks_remaining }))
        _
        λ reg'.
          Always-if (λ r. IsBytes r.2) (is_zero reg'.next.ticks_remaining) _ _
            (Always-bind IsBytes (λ r. IsBytes r.2)
              (mem_set_sz bytes reg.buf.addr reg.buf.value reg.buf.size) _
              (mem_set_sz-IsBytes bytes reg.buf.addr reg.buf.value reg.buf.size h)
              λ bytes' h'. Always-then (λ r. IsBytes r.2) (busy_wait_signal lock) _ λ lock'. h')
            h)

store_loop-IsBytes :
    (flags : List Bool) (regs : List (RegMut StoreRequest)) (bytes : Bytes) (lock : BusyWait)
    → IsBytes bytes
    → Always (λ r. IsBytes r.2) (store_loop flags regs bytes lock)
unfolding store_loop
store_loop-IsBytes [] regs bytes lock h = h
store_loop-IsBytes (busy ∷ flags) [] bytes lock h = h
store_loop-IsBytes (busy ∷ flags) (reg ∷ regs) bytes lock h =
    Always-bind (λ r. IsBytes r.2) (λ r. IsBytes r.2) (store_round busy reg bytes lock) _
      (store_round-IsBytes busy reg bytes lock h)
      λ first h1.
        Always-bind (λ r. IsBytes r.2) (λ r. IsBytes r.2) (store_loop flags regs first.2 first.3) _
          (store_loop-IsBytes flags regs first.2 first.3 h1) λ rest h2. h2

pub mem_tick-HasBytes :
    (mem : MemUnit) (cdb : Bus CdbMessage) (lock : BusyWait)
    → HasBytes mem
    → Always (λ r. HasBytes r.0) (mem_tick mem cdb lock)
unfolding mem_tick
mem_tick-HasBytes mem cdb lock h =
    Always-if (λ r. HasBytes r.0) (reg_mut_read mem.clear) _ _ h
      (Always-then (λ r. HasBytes r.0) (load_loop _ _ _ _) _
        λ loads.
          Always-bind (λ r. IsBytes r.2) (λ r. HasBytes r.0)
            (store_loop (read_flags mem.store_requests_busy) mem.store_requests mem.bytes lock) _
            (store_loop-IsBytes (read_flags mem.store_requests_busy) mem.store_requests mem.bytes
              lock h)
            λ stored h'. h')

load_at-HasBytes :
    (mem : MemUnit) (req : LoadRequest) (id : Option ℕ)
    → HasBytes mem
    → Always (λ r. HasBytes r.1) (load_at mem req id)
unfolding load_at
load_at-HasBytes mem req none h = h
load_at-HasBytes mem req (some id) h =
    Always-then (λ r. HasBytes r.1) (mark_busy mem.load_requests_busy id) _
      λ flags.
        Always-then (λ r. HasBytes r.1) (in_range (get_elem? mem.load_requests id)) _
          λ reg. Always-then (λ r. HasBytes r.1) (reg_mut_write reg (λ next. req)) _ λ reg'. h

store_at-HasBytes :
    (mem : MemUnit) (req : StoreRequest) (id : Option ℕ)
    → HasBytes mem
    → Always (λ r. HasBytes r.1) (store_at mem req id)
unfolding store_at
store_at-HasBytes mem req none h = h
store_at-HasBytes mem req (some id) h =
    Always-then (λ r. HasBytes r.1) (mark_busy mem.store_requests_busy id) _
      λ flags.
        Always-then (λ r. HasBytes r.1) (in_range (get_elem? mem.store_requests id)) _
          λ reg. Always-then (λ r. HasBytes r.1) (reg_mut_write reg (λ next. req)) _ λ reg'. h

pub mem_request_load-HasBytes :
    (mem : MemUnit) (addr size : ℕ) (msg : CdbMessage)
    → HasBytes mem
    → Always (λ r. HasBytes r.1) (mem_request_load mem addr size msg)
unfolding mem_request_load
mem_request_load-HasBytes mem addr size msg h =
    Always-then (λ r. HasBytes r.1) (mem_acquire_req mem.load_requests_busy) _
      λ id. load_at-HasBytes mem _ id h

pub mem_request_store-HasBytes :
    (mem : MemUnit) (addr value size : ℕ)
    → HasBytes mem
    → Always (λ r. HasBytes r.1) (mem_request_store mem addr value size)
unfolding mem_request_store
mem_request_store-HasBytes mem addr value size h =
    Always-then (λ r. HasBytes r.1) (mem_acquire_req mem.store_requests_busy) _
      λ id. store_at-HasBytes mem _ id h

pub mem_clear-HasBytes : (mem : MemUnit) → HasBytes mem → Always HasBytes (mem_clear mem)
unfolding mem_clear
mem_clear-HasBytes mem h = Always-then HasBytes (reg_mut_write mem.clear (λ _. true)) _ λ clear'. h
