-- ===== src/Reg.antt =====
-- reg.c: registers with a current and a next value, which a tick of the clock exchanges. A register of
-- `size` bytes is a register of a type; `zero` is the value of `size` zero bytes.
pub mod Cycle
pub mod Lock
use fakerv32i.Base.{
  ℕ, ◌+◌, ◌<◌, Bool, true, false, ◌||◌, not, ltb, if◌then◌else◌, Outcome, done, fault, assertion,
}

-- `reg_t`: computed anew on every tick.
pub record Reg {ℓ} (A : Type ℓ) : Type ℓ where
  pub buf : A

-- `reg_mut_t`.
pub record RegMut {ℓ} (A : Type ℓ) : Type ℓ where
  pub buf : A
  pub next : A
  pub write_count : ℕ
  pub clear : Bool

-- `reg_reduce_t`, its reducer apart.
pub record RegReduce {ℓ} (A : Type ℓ) : Type ℓ where
  pub init : A
  pub buf : A
  pub next : A

module _ {ℓ} {A : Type ℓ} where
  unfoldable pub reg_create : A → Reg A
  reg_create zero = record { buf = zero }

  -- `_reg_tick`: the update closure writes into the buffer.
  unfoldable pub reg_tick : (A → A) → Reg A → Reg A
  reg_tick update reg = record { buf = update reg.buf }

  unfoldable pub reg_read : Reg A → A
  reg_read reg = reg.buf

  unfoldable pub reg_mut_create : A → RegMut A
  reg_mut_create zero = record { buf = zero; next = zero; write_count = 0; clear = false }

  -- `_reg_mut_tick`.
  unfoldable pub reg_mut_tick : A → RegMut A → RegMut A
  reg_mut_tick zero reg = record reg {
    buf = reg.next;
    next = if reg.clear then zero else reg.next;
    write_count = 0;
  }

  unfoldable pub reg_mut_read : RegMut A → A
  reg_mut_read reg = reg.buf

  -- `reg_mut_write` with what the caller does to the value behind the pointer that it gets.
  unfoldable pub reg_mut_write : RegMut A → (A → A) → Outcome (RegMut A)
  reg_mut_write reg change =
      let count = reg.write_count + 1 in
      if ltb 1 count
      then fault assertion
      else done (record reg { next = change reg.next; write_count = count })

  unfoldable pub reg_reduce_create : A → A → RegReduce A
  reg_reduce_create zero init = record { init = init; buf = zero; next = zero }

  -- `_reg_reduce_tick`.
  unfoldable pub reg_reduce_tick : RegReduce A → RegReduce A
  reg_reduce_tick reg = record reg { buf = reg.next; next = reg.init }

  unfoldable pub reg_reduce_read : RegReduce A → A
  reg_reduce_read reg = reg.buf

  unfoldable pub reg_reduce_write : (A → A → A) → RegReduce A → A → RegReduce A
  reg_reduce_write reduce reg update = record reg { next = reduce reg.next update }

-- `_reg_or_reduce`, and the registers that use it.
unfoldable pub reg_or_reduce : Bool → Bool → Bool
reg_or_reduce prev curr = prev || curr

unfoldable pub reg_or_create : RegReduce Bool
unfolding reg_reduce_create
reg_or_create = reg_reduce_create false false

unfoldable pub reg_or_write : RegReduce Bool → Bool → RegReduce Bool
unfolding reg_reduce_write reg_or_reduce
reg_or_write = reg_reduce_write reg_or_reduce

-- `busy_wait_t`: a lock that is held until `signal` is seen.
pub record BusyWait : Type 0 where
  pub stall : RegReduce Bool
  pub signal : RegMut Bool

unfoldable pub busy_wait_create : BusyWait
unfolding reg_or_create reg_mut_create
busy_wait_create = record { stall = reg_or_create; signal = reg_mut_create false }

unfoldable pub busy_wait : BusyWait → BusyWait
unfolding reg_or_write
busy_wait reg = record reg { stall = reg_or_write reg.stall true }

-- `_busy_wait_tick`, the callback of the clock.
unfoldable pub busy_wait_tick : BusyWait → BusyWait
unfolding reg_reduce_read reg_mut_read busy_wait
busy_wait_tick reg =
    if not (reg_reduce_read reg.stall)
    then reg
    else if not (reg_mut_read reg.signal)
    then busy_wait reg
    else reg

unfoldable pub busy_wait_should_stall : BusyWait → Bool
unfolding reg_reduce_read
busy_wait_should_stall reg = reg_reduce_read reg.stall

-- The holder of the callback register sets it: `rm_write(busy_wait_callback(lock), bool) = true`.
unfoldable pub busy_wait_signal : BusyWait → Outcome BusyWait
unfolding reg_mut_write
busy_wait_signal reg = elim (reg_mut_write reg.signal (λ b. true)) [
  | done signal ↦ done (record reg { signal = signal })
  | fault e ↦ fault e
]

-- One tick of the clock: the registers first, then the callback.
unfoldable pub busy_wait_cycle : BusyWait → BusyWait
unfolding reg_reduce_tick reg_mut_tick busy_wait_tick
busy_wait_cycle reg =
    busy_wait_tick
      (record { stall = reg_reduce_tick reg.stall; signal = reg_mut_tick false reg.signal })
