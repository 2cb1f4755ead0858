-- ===== src/Bus/Helper/Acquire.antt =====
-- When the sender of bus.c accepts a message, and where it puts it.
use fakerv32i.Base.{
  ◌≡◌, ◌⊎◌, inl, inr, refl, arith, Bool, true, false, not, Option, none, some, Outcome, done, ◌>>=◌,
}
use fakerv32i.Bus.{Bus, bus_arb_req, bus_arb_status}
use fakerv32i.Bus.Helper.{
  BusHelper, bh_busy, bh_mark, bh_req_ix, full_at, bh_should_stall, acquire_at, bh_acquire,
}

module _ {ℓ} {A : Type ℓ} where
  -- A buffer that may be overwritten: it is not in use, or it is the current one and has just got the bus.
  abbrev pub IsFree : BusHelper A → Bus A → Bool → Type 0
  IsFree bh bus ix =
      (bh_busy bh ix ≡ false) ⊎ ((ix ≡ bh.current.buf) × (bus_arb_status bus bh.id ≡ true))

  -- A result of the call that gives out a free buffer and marks it; the bus is asked for, or left alone.
  abbrev pub Accepts : BusHelper A → Bus A → Outcome (Option Bool × BusHelper A × Bus A) → Type ℓ
  Accepts bh bus result =
      (ix : Bool) × IsFree bh bus ix
      × ((result ≡ done (some ix, bh_mark bh ix true, bus))
          ⊎ (result ≡ (bus_arb_req bus bh.id >>= λ bus'. done (some ix, bh_mark bh ix true, bus'))))

  refuse_at :
      (bh : BusHelper A) (bus : Bus A) (r : Option Bool)
      → full_at bh r ≡ true
      → acquire_at bh bus r ≡ done (none, bh, bus)
  unfolding full_at acquire_at
  refuse_at bh bus none h = ground arith
  refuse_at bh bus (some ix) h = rw h refl

  accept_at :
      (bh : BusHelper A) (bus : Bus A) (r : Option Bool)
      → (r ≡ none → IsFree bh bus bh.current.buf)
      → full_at bh r ≡ false
      → Accepts bh bus (acquire_at bh bus r)
  unfolding full_at acquire_at
  accept_at bh bus none free h = (bh.current.buf, free refl, inr refl)
  accept_at bh bus (some ix) free h = (not ix, inl h, inl (rw h refl))

  bh_req_ix-none :
      (bh : BusHelper A) (bus : Bus A) → bh_req_ix bh bus ≡ none → IsFree bh bus bh.current.buf
  unfolding bh_req_ix
  bh_req_ix-none bh bus e = ground arith

  -- `bh_acquire` refuses a message, and changes nothing, exactly if `bh_should_stall` says so; otherwise
  -- it gives out a buffer that is not in use, or the current one once it has got the bus.
  pub bh_acquire-stall :
      (bh : BusHelper A) (bus : Bus A)
      → (bh_should_stall bh bus ≡ true → bh_acquire bh bus ≡ done (none, bh, bus))
        × (bh_should_stall bh bus ≡ false → Accepts bh bus (bh_acquire bh bus))
  unfolding bh_should_stall bh_acquire
  bh_acquire-stall bh bus = (
    refuse_at bh bus (bh_req_ix bh bus),
    accept_at bh bus (bh_req_ix bh bus) (bh_req_ix-none bh bus),
  )
