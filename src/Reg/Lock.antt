-- ===== src/Reg/Lock.antt =====
-- The lock of reg.c: held from the request until the signal is seen; the signal is never taken back.
use fakerv32i.Base.{ℕ, zero, suc, ◌≡◌, refl, ap, Bool, true, false, done, ◌>>=◌}
use fakerv32i.Reg.{
  BusyWait, busy_wait_create, busy_wait, busy_wait_cycle, busy_wait_should_stall, busy_wait_signal,
}
use fakerv32i.Reg.Cycle.{settled}

-- A lock between two ticks: held or free, with the signal seen or not.
abbrev pub lock : Bool → Bool → BusyWait
lock held signalled = record {
  stall = record { init = false; buf = held; next = held };
  signal = settled signalled;
}

abbrev pub cycles : ℕ → BusyWait → BusyWait
cycles zero b = b
cycles (suc n) b = cycles n (busy_wait_cycle b)

cycles-fixed : (b : BusyWait) → busy_wait_cycle b ≡ b → (n : ℕ) → cycles n b ≡ b
cycles-fixed b h zero = refl
cycles-fixed b h (suc n) = rw h (cycles-fixed b h n)

held-fixed : busy_wait_cycle (lock true false) ≡ lock true false
unfolding busy_wait_cycle
held-fixed = refl

free-fixed : busy_wait_cycle (lock false true) ≡ lock false true
unfolding busy_wait_cycle
free-fixed = refl

-- A fresh lock that is requested is held after every number of cycles in which no signal is written;
-- once the signal is written it is held for one more cycle and free after any larger number.
pub busy_wait_until_signal :
    (n : ℕ)
    → (cycles (suc n) (busy_wait busy_wait_create) ≡ lock true false)
      × ((busy_wait_signal (lock true false) >>= λ b. done (busy_wait_should_stall (cycles 1 b)))
          ≡ done true)
      × ((busy_wait_signal (lock true false) >>= λ b. done (cycles (suc (suc n)) b))
          ≡ done (lock false true))
      × (busy_wait_should_stall (lock true false) ≡ true)
      × (busy_wait_should_stall (lock false true) ≡ false)
unfolding busy_wait_create busy_wait busy_wait_signal busy_wait_cycle busy_wait_should_stall
busy_wait_until_signal n = (
  cycles-fixed (lock true false) refl n,
  refl,
  ap done (cycles-fixed (lock false true) refl n),
  refl,
  refl,
)

-- The signal stays set from the first release on: a request made after that is held for a single
-- cycle and free from the next one on, although no further signal is written.
pub busy_wait_second_request :
    (n : ℕ)
    → let b = busy_wait (lock false true) in
      (busy_wait_should_stall (cycles 1 b) ≡ true) × (cycles (suc (suc n)) b ≡ lock false true)
unfolding busy_wait busy_wait_cycle busy_wait_should_stall
busy_wait_second_request n = (refl, cycles-fixed (lock false true) refl n)
