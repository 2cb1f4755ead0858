-- ===== src/Queue.antt =====
-- queue.c: a ring of registers between two positions that are registers themselves.
pub mod Visit
pub mod Bounds
pub mod Window
pub mod Cycle
pub mod Refine
use fakerv32i.Base.{
  ℕ, zero, suc, ◌+◌, ◌-◌, ◌%◌, ◌^◌, ◌<◌, Bool, true, false, ◌==◌, ltb, leb, if◌then◌else◌, Option,
  none, some, List, [], ◌∷◌, map, replicate, get_elem?, set, ℤ, pos, negsuc, Outcome, done, fault,
  undefined, ◌>>=◌, ◌>>◌, defined, in_range,
}
use fakerv32i.Reg.{RegMut, reg_mut_create, reg_mut_tick, reg_mut_read, reg_mut_write}

-- `queue_t`. A pointer into `data` is the index of the register.
pub record Queue {ℓ} (A : Type ℓ) : Type ℓ where
  pub capacity : ℕ
  pub cells : List (RegMut A)
  pub head : RegMut ℕ
  pub tail : RegMut ℕ
  pub clear : RegMut Bool

-- `_queue_trunc`. A negative `id` is added to a `size_t` and wraps where it is below `-capacity`.
unfoldable pub queue_trunc : ℤ → ℕ → ℕ
queue_trunc (pos n) capacity = n % capacity
queue_trunc (negsuc n) capacity =
    if leb (n + 1) capacity
    then (capacity - (n + 1)) % capacity
    else (2 ^ 64 + capacity - (n + 1)) % capacity

module _ {ℓ} {A : Type ℓ} where
  unfoldable pub queue_create : A → ℕ → Queue A
  unfolding reg_mut_create
  queue_create blank capacity = record {
    capacity = capacity;
    cells = replicate capacity (reg_mut_create blank);
    head = reg_mut_create 0;
    tail = reg_mut_create 0;
    clear = reg_mut_create false;
  }

  -- `queue->data[i]`: the pointer itself, which must be in the array.
  unfoldable pub cell : Queue A → ℕ → Outcome ℕ
  cell queue i = do defined (ltb i queue.capacity); done i

  unfoldable pub queue_nth : Queue A → ℕ → Outcome ℕ
  unfolding reg_mut_read cell queue_trunc
  queue_nth queue ix = cell queue (queue_trunc (pos (ix + reg_mut_read queue.head)) queue.capacity)

  unfoldable pub queue_id : Queue A → ℕ → Outcome ℕ
  unfolding cell
  queue_id queue id = cell queue id

  unfoldable pub queue_length : Queue A → ℕ
  unfolding reg_mut_read
  queue_length queue =
      (reg_mut_read queue.tail + queue.capacity - reg_mut_read queue.head) % queue.capacity

  unfoldable pub queue_empty : Queue A → Bool
  unfolding reg_mut_read
  queue_empty queue = reg_mut_read queue.head == reg_mut_read queue.tail

  unfoldable pub queue_full : Queue A → Bool
  unfolding reg_mut_read queue_trunc
  queue_full queue =
      reg_mut_read queue.head == queue_trunc (pos (reg_mut_read queue.tail + 1)) queue.capacity

  -- `none` is the null pointer.
  unfoldable pub queue_push : Queue A → Outcome (Queue A × Option ℕ)
  unfolding reg_mut_read reg_mut_write queue_trunc cell
  queue_push queue =
      let head = reg_mut_read queue.head in
      let tail = reg_mut_read queue.tail in
      let next = queue_trunc (pos (tail + 1)) queue.capacity in
      if head == next then done (queue, none) else do
        tail' ← reg_mut_write queue.tail (λ _. next)
        i ← cell queue tail
        done (record queue { tail = tail' }, some i)

  unfoldable pub queue_pop : Queue A → Outcome (Queue A × Option ℕ)
  unfolding reg_mut_read reg_mut_write queue_trunc cell
  queue_pop queue =
      let head = reg_mut_read queue.head in
      let tail = reg_mut_read queue.tail in
      if head == tail then done (queue, none) else do
        head' ← reg_mut_write queue.head (λ _. queue_trunc (pos (head + 1)) queue.capacity)
        i ← cell queue head
        done (record queue { head = head' }, some i)

  unfoldable pub queue_first : Queue A → Outcome (Option ℕ)
  unfolding reg_mut_read cell
  queue_first queue =
      let head = reg_mut_read queue.head in
      let tail = reg_mut_read queue.tail in
      if head == tail then done none else do i ← cell queue head; done (some i)

  unfoldable pub queue_clear : Queue A → Outcome (Queue A)
  unfolding reg_mut_write
  queue_clear queue = do
    clear' ← reg_mut_write queue.clear (λ _. true)
    done (record queue { clear = clear' })

  -- `_queue_tick`, the callback of the clock.
  unfoldable pub queue_tick : Queue A → Outcome (Queue A)
  unfolding reg_mut_read reg_mut_write
  queue_tick queue =
      if reg_mut_read queue.clear
      then (do
        clear' ← reg_mut_write queue.clear (λ _. false)
        head' ← reg_mut_write queue.head (λ _. 0)
        tail' ← reg_mut_write queue.tail (λ _. 0)
        done (record queue { clear = clear'; head = head'; tail = tail' }))
      else done queue

  -- `_queue_foreach`: the register of round `i`, or the end of the loop.
  unfoldable pub queue_foreach : Queue A → ℕ → Outcome (Option ℕ)
  unfolding reg_mut_read queue_trunc queue_id
  queue_foreach queue i =
      let head = reg_mut_read queue.head in
      let tail = reg_mut_read queue.tail in
      let id = queue_trunc (pos (i + head)) queue.capacity in
      if head == tail
      then done none
      else if id == tail
      then done none
      else do p ← queue_id queue id; done (some p)

  -- The registers that a loop `queue_foreach` visits from round `i` on, with fuel; `none` where the
  -- fuel runs out.
  unfoldable pub queue_visit : ℕ → Queue A → ℕ → Outcome (Option (List ℕ))
  queue_visit zero queue i = done none
  queue_visit (suc fuel) queue i = elim (queue_foreach queue i) [
    | fault e ↦ fault e
    | done none ↦ done (some [])
    | done (some p) ↦ elim (queue_visit fuel queue (i + 1)) [
      | fault e ↦ fault e
      | done none ↦ done none
      | done (some ps) ↦ done (some (p ∷ ps))
    ]
  ]

  -- All of them. The bodies of the loops change nothing that `queue_foreach` reads, so they can run
  -- after it. There is fuel for a round for each cell and for the end of the loop.
  unfoldable pub visited : Queue A → Outcome (List ℕ)
  visited queue = elim (queue_visit (suc queue.capacity) queue 0) [
    | fault e ↦ fault e
    | done none ↦ fault undefined
    | done (some ps) ↦ done ps
  ]

  -- The registers of a queue at a tick of the clock.
  unfoldable pub queue_regs_tick : A → Queue A → Queue A
  unfolding reg_mut_tick
  queue_regs_tick blank queue = record queue {
    cells = map (reg_mut_tick blank) queue.cells;
    head = reg_mut_tick 0 queue.head;
    tail = reg_mut_tick 0 queue.tail;
    clear = reg_mut_tick false queue.clear;
  }

  -- `rm_write(reg, T) = value` where `reg` is the register at `i`.
  unfoldable pub cell_write : Queue A → ℕ → A → Outcome (Queue A)
  unfolding reg_mut_write
  cell_write queue i value = do
    reg ← in_range (get_elem? queue.cells i)
    reg' ← reg_mut_write reg (λ _. value)
    done (record queue { cells = set queue.cells i reg' })

  -- A push and the write of the new entry, as the callers make them.
  unfoldable pub enqueue : Queue A → A → Outcome (Queue A × Bool)
  unfolding queue_push cell_write
  enqueue queue value = do
    (queue', at) ← queue_push queue
    elim at [
      | none ↦ done (queue', false)
      | some i ↦ cell_write queue' i value >>= λ q. done (q, true)
    ]
