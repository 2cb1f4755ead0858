-- ===== src/Memory/Requests.antt =====
-- memory.c: the search for a free place among the pending loads, and among the pending stores.
use fakerv32i.Base.{
  ℕ, zero, suc, ◌+◌, ◌≡◌, ◌<◌, arith, Bool, true, false, not, if◌then◌else◌, List, [], ◌∷◌, ◌++◌,
  length, length-append, ap, Option, none, some, Outcome, done, fault, undefined,
}
use fakerv32i.Reg.{RegReduce, reg_reduce_read}
use fakerv32i.Memory.{mem_size}

-- The loop of `_mem_acquire_load_req` and `_mem_acquire_store_req`, with the rounds left and the array
-- from the index on: the index of a place that is not in use, none for -1. An index past the end of the
-- array is undefined behaviour.
pub acquire_scan : ℕ → ℕ → List (RegReduce Bool) → Outcome (Option ℕ)
unfolding reg_reduce_read
acquire_scan zero i places = done none
acquire_scan (suc left_over) i [] = fault undefined
acquire_scan (suc left_over) i (r ∷ rest) =
    let later = acquire_scan left_over (i + 1) rest in
    if not (reg_reduce_read r) then done (some i) else later

-- `_mem_acquire_load_req` and `_mem_acquire_store_req`, before the place is marked.
pub mem_acquire_req : List (RegReduce Bool) → Outcome (Option ℕ)
mem_acquire_req places = acquire_scan mem_size 0 places

-- Every place is in use.
abbrev pub IsFull : List (RegReduce Bool) → Type 0
IsFull [] = Unit
IsFull (r ∷ rest) = (r.buf ≡ true) × IsFull rest

acquire_scan-end :
    (left_over i : ℕ) (places : List (RegReduce Bool))
    → length places < left_over
    → IsFull places
    → acquire_scan left_over i places ≡ fault undefined
unfolding acquire_scan
acquire_scan-end zero i places h full = absurd (omega arith)
acquire_scan-end (suc n) i [] h full = ground arith
acquire_scan-end (suc n) i (r ∷ rest) h full =
    rw (full.0, acquire_scan-end n (i + 1) rest (omega arith) full.1) (ground arith)

acquire_scan-free :
    (left_over i : ℕ) (before : List (RegReduce Bool)) (r : RegReduce Bool)
    (after : List (RegReduce Bool))
    → length before < left_over
    → IsFull before
    → r.buf ≡ false
    → acquire_scan left_over i (before ++ (r ∷ after)) ≡ done (some (i + length before))
unfolding acquire_scan
acquire_scan-free zero i before r after h full free = absurd (omega arith)
acquire_scan-free (suc n) i [] r after h full free = rw free (ground arith)
acquire_scan-free (suc n) i (b ∷ before) r after h full free =
    rw (full.0, acquire_scan-free n (i + 1) before r after (omega arith) full.1 free) (ground arith)

-- Among fewer than mem_size places the first one that is not in use is found; if all are in use, the
-- loop reads past the end of the array, since it runs to mem_size, and does not return -1.
pub mem_acquire_req-first :
    (places : List (RegReduce Bool))
    → length places < mem_size
    → (IsFull places → mem_acquire_req places ≡ fault undefined)
      × ((before : List (RegReduce Bool)) (r : RegReduce Bool) (after : List (RegReduce Bool))
          → places ≡ before ++ (r ∷ after)
          → IsFull before
          → r.buf ≡ false
          → mem_acquire_req places ≡ done (some (length before)))
unfolding mem_acquire_req
mem_acquire_req-first places h = (
  acquire_scan-end mem_size 0 places h,
  (λ before r after e full free.
      let short : length before < mem_size =
        omega (arith, h, ap length e, length-append before (r ∷ after)) in
      rw (e, acquire_scan-free mem_size 0 before r after short full free) (ground arith)),
)
