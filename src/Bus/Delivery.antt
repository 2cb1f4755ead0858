-- ===== src/Bus/Delivery.antt =====
-- What the bus of bus.c delivers, cycle by cycle.
use fakerv32i.Base.{
  ℕ, zero, suc, ◌≡◌, refl, arith, Bool, true, false, not, ◌==◌, List, [], ◌∷◌, Option, none, some,
  Outcome, done, ◌>>=◌,
}
use fakerv32i.Reg.{RegMut, reg_mut_tick}
use fakerv32i.Reg.Cycle.{settled}
use fakerv32i.Bus.{Bus, bus_arb, bus_tick, bus_arb_req, bus_arb_status, bus_clear, bus_get_data}

pub each_tick : List (RegMut Bool) → List (RegMut Bool)
each_tick [] = []
each_tick (r ∷ rest) = reg_mut_tick false r ∷ each_tick rest

module _ {ℓ} {A : Type ℓ} (zero_message : A) where
  -- The bus in `clk_tick`: the mutable registers, then the grant.
  unfoldable pub ticked : Bus A → Bus A
  unfolding reg_mut_tick
  ticked bus =
      let bus' = record bus {
        req = each_tick bus.req;
        fire = reg_mut_tick false bus.fire;
        message = reg_mut_tick zero_message bus.message;
        clear = reg_mut_tick 0 bus.clear;
      } in
      record bus' { gnt = record { buf = bus_arb bus' } }

  -- And then the callback.
  pub bus_cycle : Bus A → Outcome (Bus A × Option A)
  bus_cycle bus = bus_tick (ticked bus)

  -- A bus between two ticks, the callback of the last one done: the requests, the grant, whether it
  -- fired, and what is in the register of the message.
  abbrev pub between : List (RegMut Bool) → ℕ → Bool → RegMut A → Bus A
  between req g fired message = record {
    req = req;
    gnt = record { buf = g };
    fire = record { buf = fired; next = not (g == 0); write_count = 1; clear = false };
    message = message;
    clear = settled 0;
  }

  -- What the listeners get in the cycle after a grant.
  abbrev pub delivery : ℕ → A → Option A
  delivery zero a = none
  delivery (suc g) a = some a

  -- One cycle after a grant the message that is then in the register is delivered to the listeners, and
  -- `bus_get_data` shows the same; without a grant neither happens. The bus is between two ticks again.
  pub bus_cycle-delivers :
      (req : List (RegMut Bool)) (g : ℕ) (fired : Bool) (message : RegMut A)
      → (bus' : Bus A) × (bus_cycle (between req g fired message)
          ≡ done (bus', delivery g message.next))
        × (bus_get_data bus' ≡ delivery g message.next)
        × (bus'
            ≡ between
                (each_tick req)
                bus'.gnt.buf
                (not (g == 0))
                (reg_mut_tick zero_message message))
  unfolding bus_cycle bus_tick ticked bus_get_data
  bus_cycle-delivers req zero fired message =
      let b = between req 0 fired message in
      (between (each_tick req) (ticked b).gnt.buf false (ticked b).message, refl, refl, refl)
  bus_cycle-delivers req (suc g) fired message =
      let b = between req (suc g) fired message in
      let nonzero : (suc g == 0) ≡ false = ground arith in
      (
        between (each_tick req) (ticked b).gnt.buf true (ticked b).message,
        rw nonzero refl,
        refl,
        rw nonzero refl,
      )

  -- The bus in the cycles of a clear, with the cycles left that it shows and that it has written.
  abbrev pub clearing : List (RegMut Bool) → Bool → RegMut A → ℕ → ℕ → Bus A
  clearing req fired message shown left_over = record (between req 0 fired message) {
    clear = record { buf = shown; next = left_over; write_count = 1; clear = false };
  }

  -- After `bus_clear` there are two cycles in which the listeners get nothing, requests are dropped, every
  -- owner is told that it has the bus, and nobody is granted it; the third delivers nothing either, and
  -- from then on the bus grants and delivers again.
  pub bus_clear-silent :
      (req : List (RegMut Bool)) (g id : ℕ) (fired : Bool) (message : RegMut A)
      → let tick = reg_mut_tick zero_message in
        let first = clearing (each_tick req) (not (g == 0)) (tick message) 2 1 in
        let second = clearing (each_tick (each_tick req)) false (tick (tick message)) 1 0 in
        ((bus_clear (between req g fired message) >>= bus_cycle) ≡ done (first, none))
        × (bus_arb_req first id ≡ done first)
        × (bus_arb_status first id ≡ true)
        × (bus_cycle first ≡ done (second, none))
        × (bus_arb_req second id ≡ done second)
        × (bus_arb_status second id ≡ true)
        × (bus' : Bus A) × (bus_cycle second ≡ done (bus', none))
        × (bus'
            ≡ between
                (each_tick (each_tick (each_tick req)))
                bus'.gnt.buf
                false
                (tick (tick (tick message))))
  unfolding bus_cycle bus_tick ticked bus_clear bus_arb bus_arb_req bus_arb_status
  bus_clear-silent req g id fired message = (
    refl,
    refl,
    refl,
    refl,
    refl,
    refl,
    between (each_tick (each_tick (each_tick req)))
        (ticked (
          clearing (each_tick (each_tick req)) false
            (reg_mut_tick zero_message (reg_mut_tick zero_message message)) 1 0)).gnt.buf
        false
        (reg_mut_tick zero_message (reg_mut_tick zero_message (reg_mut_tick zero_message message))),
    refl,
    refl,
  )
