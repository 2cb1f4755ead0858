-- ===== src/Bus.antt =====
-- bus.c: the arbiter of the common data bus. The registers of the C bus are those of reg.c.
pub mod Delivery
pub mod Grant
pub mod Helper
use fakerv32i.Base.{
  ℕ, zero, suc, ◌+◌, ◌-◌, Bool, true, false, not, ◌==◌, if◌then◌else◌, List, [], ◌∷◌, ◌++◌, Option,
  none, some, length, get_elem?, set, Outcome, done, fault, undefined, ◌>>=◌, in_range,
}
use fakerv32i.Reg.{Reg, RegMut, reg_mut_read, reg_mut_write, reg_read}

-- `bus_t` and its `bus_arbitrator_t`, for messages of type `A`. The listeners are functions of the state
-- of the rest of the machine, and stand apart from the registers; `message` is the register `data`.
pub record Bus {ℓ} (A : Type ℓ) : Type ℓ where
  pub req : List (RegMut Bool)
  pub gnt : Reg ℕ
  pub fire : RegMut Bool
  pub message : RegMut A
  pub clear : RegMut ℕ

-- The loop of `_bus_arb`, from the request with the number `i + 1` on: the number of the first one
-- set, 0 if there is none.
pub arb_scan : ℕ → List (RegMut Bool) → ℕ
unfolding reg_mut_read
arb_scan i [] = 0
arb_scan i (reg ∷ rest) =
    let later = arb_scan (i + 1) rest in if reg_mut_read reg then i + 1 else later

-- The register behind the number of a request, its index plus one.
pub request : List (RegMut Bool) → ℕ → Outcome (RegMut Bool)
request req zero = fault undefined
request req (suc i) = in_range (get_elem? req i)

module _ {ℓ} {A : Type ℓ} where
  -- `_bus_arb`, the update of the grant.
  pub bus_arb : Bus A → ℕ
  unfolding reg_mut_read
  bus_arb bus = if not (reg_mut_read bus.clear == 0) then 0 else arb_scan 0 bus.req

  -- `_bus_tick`: the bus after the callback, and the message for the listeners if there is one.
  unfoldable pub bus_tick : Bus A → Outcome (Bus A × Option A)
  unfolding reg_mut_read reg_mut_write reg_read
  bus_tick bus = do
    fire' ← reg_mut_write bus.fire (λ _. not (reg_read bus.gnt == 0))
    let bus' = record bus { fire = fire' }
    let clear_cycles = reg_mut_read bus.clear
    if not (clear_cycles == 0)
        then (do
          clear' ← reg_mut_write bus.clear (λ _. clear_cycles - 1)
          done ((record bus' { clear = clear' }), none))
        else if reg_mut_read fire'
        then done (bus', some (reg_mut_read bus.message))
        else done (bus', none)

  -- `bus_arb_add`: the bus with one more request, and its number.
  unfoldable pub bus_arb_add : Bus A → Bus A × ℕ
  bus_arb_add bus = (
    (record bus {
      req = bus.req ++ (record { buf = false; next = false; write_count = 0; clear = true } ∷ []);
    }),
    length bus.req + 1,
  )

  pub bus_arb_req : Bus A → ℕ → Outcome (Bus A)
  unfolding reg_mut_read reg_mut_write
  bus_arb_req bus id = if not (reg_mut_read bus.clear == 0) then done bus else do
    req ← request bus.req id
    req' ← reg_mut_write req (λ _. true)
    done (record bus { req = set bus.req (id - 1) req' })

  unfoldable pub bus_arb_status : Bus A → ℕ → Bool
  unfolding reg_mut_read reg_read
  bus_arb_status bus id = if not (reg_mut_read bus.clear == 0) then true else reg_read bus.gnt == id

  unfoldable pub bus_clear : Bus A → Outcome (Bus A)
  unfolding reg_mut_write
  bus_clear bus = do clear' ← reg_mut_write bus.clear (λ _. 2); done (record bus { clear = clear' })

  unfoldable pub bus_get_data : Bus A → Option A
  unfolding reg_mut_read
  bus_get_data bus = if not (reg_mut_read bus.fire) then none else some (reg_mut_read bus.message)
