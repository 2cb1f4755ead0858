-- ===== src/Tests/Registers.antt =====
-- Instances for the registers, the lock and the queue.
use fakerv32i.Base.{ℕ, ◌≡◌, arith, true, false, none, some, List, [], ◌∷◌, done, ◌>>=◌}
use fakerv32i.Reg.{busy_wait, busy_wait_create, busy_wait_should_stall, busy_wait_signal}
use fakerv32i.Reg.Cycle.{settled, cycles_mut, cycles_mut-written}
use fakerv32i.Reg.Lock.{lock, cycles, busy_wait_until_signal, busy_wait_second_request}
use fakerv32i.Queue.Cycle.{ring, queue_cycle, contents}
use fakerv32i.Queue.Refine.{Refines, list_cycle, queue_cycle-Refines}

cycles_mut-written_example :
    cycles_mut {A = ℕ} 0 ((7 ∷ []) ∷ [] ∷ (9 ∷ []) ∷ []) (settled 1) ≡ done (settled 9)
cycles_mut-written_example = cycles_mut-written {A = ℕ} 0 (some 7 ∷ none ∷ some 9 ∷ []) 1

busy_wait_until_signal_example :
    (cycles 6 (busy_wait busy_wait_create) ≡ lock true false)
    × ((busy_wait_signal (lock true false) >>= λ b. done (busy_wait_should_stall (cycles 1 b)))
        ≡ done true)
    × ((busy_wait_signal (lock true false) >>= λ b. done (cycles 7 b)) ≡ done (lock false true))
    × (busy_wait_should_stall (lock true false) ≡ true)
    × (busy_wait_should_stall (lock false true) ≡ false)
busy_wait_until_signal_example = busy_wait_until_signal 5

busy_wait_second_request_example :
    let b = busy_wait (lock false true) in
    (busy_wait_should_stall (cycles 1 b) ≡ true) × (cycles 2 b ≡ lock false true)
busy_wait_second_request_example = busy_wait_second_request 0

-- Four places, of which the last and the first are taken: an entry goes out, another comes in.
abbrev places : List ℕ
places = 11 ∷ 12 ∷ 13 ∷ 14 ∷ []

queue_cycle-Refines_example :
    Refines 0 4
      (queue_cycle 0 true (some 20) (ring 4 places 3 1))
      (list_cycle 4 true (some 20) (contents 0 4 places 3 1))
queue_cycle-Refines_example = queue_cycle-Refines 0 4 places 3 1 (omega arith) true (some 20)
