-- ===== src/Bus/Helper.antt =====
-- The sender of bus.c: two buffers and the requests for the bus.
pub mod Acquire
use fakerv32i.Base.{
  ℕ, ◌==◌, Bool, true, false, not, ◌&&◌, ltb, if◌then◌else◌, Option, none, some, Outcome, done,
  fault, ◌>>=◌,
}
use fakerv32i.Reg.{
  RegMut, RegReduce, reg_mut_create, reg_mut_read, reg_mut_write, reg_reduce_read, reg_or_create,
  reg_or_write, reg_mut_tick, reg_reduce_tick,
}
use fakerv32i.Bus.{Bus, bus_arb_add, bus_arb_req, bus_arb_status}

-- `bus_helper_t`, without the pointer to its bus. The index `current`, 0 or 1, is a Boolean, and so are
-- the indices of the two arrays: false for 0.
pub record BusHelper {ℓ} (A : Type ℓ) : Type ℓ where
  pub buffer0 : RegMut A
  pub buffer1 : RegMut A
  pub busy0 : RegReduce Bool
  pub busy1 : RegReduce Bool
  pub current : RegMut Bool
  pub id : ℕ

module _ {ℓ} {A : Type ℓ} where
  abbrev pub buffer_at : BusHelper A → Bool → RegMut A
  buffer_at bh false = bh.buffer0
  buffer_at bh true = bh.buffer1

  -- `_bh_busy`, also where the source reads the register itself.
  unfoldable pub bh_busy : BusHelper A → Bool → Bool
  unfolding reg_reduce_read
  bh_busy bh false = reg_reduce_read bh.busy0
  bh_busy bh true = reg_reduce_read bh.busy1

  -- `reg_reduce_write` on `busy[id]`.
  unfoldable pub bh_mark : BusHelper A → Bool → Bool → BusHelper A
  unfolding reg_or_write
  bh_mark bh false b = record bh { busy0 = reg_or_write bh.busy0 b }
  bh_mark bh true b = record bh { busy1 = reg_or_write bh.busy1 b }

  -- The first part of `_bh_tick`: the helper, the bus, and whether it requested the bus again.
  unfoldable pub bh_send : BusHelper A → Bus A → Bool → Outcome (BusHelper A × Bus A × Bool)
  unfolding reg_mut_read reg_mut_write
  bh_send bh bus curr =
      if not (bh_busy bh curr)
      then done (bh, bus, false)
      else if bus_arb_status bus bh.id
      then (do
        message' ← reg_mut_write bus.message (λ _. reg_mut_read (buffer_at bh curr))
        done (bh_mark bh curr false, (record bus { message = message' }), false))
      else (do bus' ← bus_arb_req bus bh.id; done (bh_mark bh curr true, bus', true))

  -- The second part: the other buffer takes over.
  unfoldable pub bh_swap : BusHelper A → Bus A → Bool → Bool → Outcome (BusHelper A × Bus A)
  unfolding reg_mut_write
  bh_swap bh bus curr requested =
      if not requested && bh_busy bh (not curr)
      then (do
        bus' ← bus_arb_req bus bh.id
        current' ← reg_mut_write bh.current (λ _. not curr)
        done (record bh { current = current' }, bus'))
      else done (bh, bus)

  -- `_bh_tick`, a callback of the clock.
  unfoldable pub bh_tick : BusHelper A → Bus A → Outcome (BusHelper A × Bus A)
  unfolding reg_mut_read
  bh_tick bh bus =
      if not (reg_mut_read bus.clear == 0)
      then done (bh, bus)
      else let curr = reg_mut_read bh.current in
        do
          sent ← bh_send bh bus curr
          swapped ← bh_swap sent.0 sent.1 curr sent.2
          done (bh_mark swapped.0 (not curr) (bh_busy swapped.0 (not curr)), swapped.1)

  -- `_bh_req_ix`; none for -1.
  unfoldable pub bh_req_ix : BusHelper A → Bus A → Option Bool
  unfolding reg_mut_read
  bh_req_ix bh bus =
      let curr = reg_mut_read bh.current in
      if bh_busy bh curr && not (bus_arb_status bus bh.id)
      then some curr
      else if bh_busy bh (not curr)
      then some (not curr)
      else none

  -- `bh_create`, with the registers of one message at its zero.
  unfoldable pub bh_create : A → Bus A → BusHelper A × Bus A
  unfolding reg_mut_create reg_or_create
  bh_create zero_message bus =
      let added = bus_arb_add bus in
      (
        (record {
          buffer0 = reg_mut_create zero_message;
          buffer1 = reg_mut_create zero_message;
          busy0 = reg_or_create;
          busy1 = reg_or_create;
          current = reg_mut_create false;
          id = added.1;
        }),
        added.0,
      )

  unfoldable pub bh_should_clear : Bus A → Bool
  unfolding reg_mut_read
  bh_should_clear bus = ltb 0 (reg_mut_read bus.clear)

  -- The tests of `bh_should_stall` on the index of `_bh_req_ix`.
  unfoldable pub full_at : BusHelper A → Option Bool → Bool
  full_at bh none = false
  full_at bh (some ix) = bh_busy bh (not ix)

  unfoldable pub bh_should_stall : BusHelper A → Bus A → Bool
  bh_should_stall bh bus = full_at bh (bh_req_ix bh bus)

  -- The branches of `bh_acquire`: the buffer that the caller gets, none if both are in use, the helper
  -- and the bus.
  unfoldable pub acquire_at :
      BusHelper A → Bus A → Option Bool → Outcome (Option Bool × BusHelper A × Bus A)
  unfolding reg_mut_read
  acquire_at bh bus (some ix) =
      if bh_busy bh (not ix)
      then done (none, bh, bus)
      else done (some (not ix), bh_mark bh (not ix) true, bus)
  acquire_at bh bus none = do
    bus' ← bus_arb_req bus bh.id
    let curr = reg_mut_read bh.current
    done (some curr, bh_mark bh curr true, bus')

  unfoldable pub bh_acquire : BusHelper A → Bus A → Outcome (Option Bool × BusHelper A × Bus A)
  bh_acquire bh bus = acquire_at bh bus (bh_req_ix bh bus)

  -- `rm_write(reg, cdb_message_t) = msg` for a buffer from `bh_acquire`.
  unfoldable pub buffer_write : BusHelper A → Bool → A → Outcome (BusHelper A)
  unfolding reg_mut_write
  buffer_write bh false msg = do
    buffer' ← reg_mut_write bh.buffer0 (λ _. msg)
    done (record bh { buffer0 = buffer' })
  buffer_write bh true msg = do
    buffer' ← reg_mut_write bh.buffer1 (λ _. msg)
    done (record bh { buffer1 = buffer' })

  -- The registers of a sender at a tick of the clock.
  unfoldable pub helper_regs : A → BusHelper A → BusHelper A
  unfolding reg_mut_tick reg_reduce_tick
  helper_regs zero_message bh = record bh {
    buffer0 = reg_mut_tick zero_message bh.buffer0;
    buffer1 = reg_mut_tick zero_message bh.buffer1;
    busy0 = reg_reduce_tick bh.busy0;
    busy1 = reg_reduce_tick bh.busy1;
    current = reg_mut_tick false bh.current;
  }
