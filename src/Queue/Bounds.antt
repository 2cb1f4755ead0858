-- ===== src/Queue/Bounds.antt =====
-- The ring of queue.c keeps its size, and its positions stay in its array.
use fakerv32i.Base.{
  ℕ, ◌<◌, ◌≡◌, refl, arith, length, set, length-set, length-map, length-replicate, Option, Always,
}
use fakerv32i.Reg.{RegMut, reg_mut_tick, reg_mut_create, reg_mut_write}
use fakerv32i.Queue.{
  Queue, queue_create, queue_push, queue_pop, queue_clear, queue_tick, queue_regs_tick,
}

module _ {ℓ} {A : Type ℓ} where
  -- A ring of `n` cells with its positions, the current and the next ones, inside.
  pub record IsRing (n : ℕ) (q : Queue A) : Type 0 where
    pub capacity : q.capacity ≡ n
    pub cells : length q.cells ≡ n
    pub head : (q.head.buf < n) × (q.head.next < n)
    pub tail : (q.tail.buf < n) × (q.tail.next < n)

  -- The same for a ring that an operation returns with a cell.
  abbrev pub IsRingAnd : ℕ → Queue A × Option ℕ → Type 0
  IsRingAnd n r = IsRing n r.0

module _ {ℓ} {A : Type ℓ} (n : ℕ) (some_place : 0 < n) where
  pub queue_create-IsRing : (blank : A) → IsRing n (queue_create blank n)
  unfolding queue_create reg_mut_create
  queue_create-IsRing blank = record {
    capacity = refl;
    cells = length-replicate n (reg_mut_create blank);
    head = (some_place, some_place);
    tail = (some_place, some_place);
  }

  pub queue_push-IsRing : (q : Queue A) → IsRing n q → Always (IsRingAnd n) (queue_push q)
  unfolding queue_push reg_mut_write
  queue_push-IsRing q h = ground arith

  pub queue_pop-IsRing : (q : Queue A) → IsRing n q → Always (IsRingAnd n) (queue_pop q)
  unfolding queue_pop reg_mut_write
  queue_pop-IsRing q h = ground arith

  pub queue_clear-IsRing : (q : Queue A) → IsRing n q → Always (IsRing n) (queue_clear q)
  unfolding queue_clear reg_mut_write
  queue_clear-IsRing q h = ground arith

  pub queue_tick-IsRing : (q : Queue A) → IsRing n q → Always (IsRing n) (queue_tick q)
  unfolding queue_tick reg_mut_write
  queue_tick-IsRing q h = ground arith

  pub queue_regs_tick-IsRing :
      (blank : A) (q : Queue A) → IsRing n q → IsRing n (queue_regs_tick blank q)
  unfolding queue_regs_tick reg_mut_tick
  queue_regs_tick-IsRing blank q h = ground (arith, h, length-map (reg_mut_tick blank) q.cells)

  -- A write to a cell.
  pub set_cell-IsRing :
      (q : Queue A) (p : ℕ) (cell : RegMut A)
      → IsRing n q
      → IsRing n (record q { cells = set q.cells p cell })
  set_cell-IsRing q p cell h = ground (arith, h, length-set q.cells p cell)
