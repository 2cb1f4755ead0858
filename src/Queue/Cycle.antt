-- ===== src/Queue/Cycle.antt =====
-- The calls of one cycle on a queue at rest, and the tick that follows them.
use fakerv32i.Base.{
  ℕ, zero, suc, ◌+◌, ◌%◌, ◌<◌, ◌≡◌, ◌≢◌, refl, ap, arith, List, [], ◌∷◌, map, length, get_or, set,
  get_elem?, Bool, true, false, Option, none, some, Outcome, done, ◌>>=◌, in_range,
}
use fakerv32i.Reg.{RegMut, reg_mut_tick, reg_mut_read}
use fakerv32i.Reg.Cycle.{settled}
use fakerv32i.Queue.{Queue, queue_pop, enqueue, queue_regs_tick}
use fakerv32i.Queue.Window.{window, span}

module _ {ℓ} {A : Type ℓ} where
  -- A queue at rest: no register was written in this cycle, and no clearing is due.
  abbrev pub ring : ℕ → List A → ℕ → ℕ → Queue A
  ring cap cells h t = record {
    capacity = cap;
    cells = map settled cells;
    head = settled h;
    tail = settled t;
    clear = settled false;
  }

  abbrev pub IsRing : ℕ → List A → ℕ → ℕ → Type 0
  IsRing cap cells h t = (length cells ≡ cap) × (h < cap) × (t < cap)

  -- The register at an index, read through the pointer.
  unfoldable pub cell_read : Queue A → Option ℕ → Outcome (Option A)
  unfolding reg_mut_read
  cell_read queue none = done none
  cell_read queue (some i) = do
    reg ← in_range (get_elem? queue.cells i)
    done (some (reg_mut_read reg))

  pub get_elem?-settled :
      (cells : List A) (i : ℕ) (blank : A)
      → i < length cells
      → get_elem? (map settled cells) i ≡ some (settled (get_or cells i blank))
  get_elem?-settled [] i blank h = absurd (omega arith)
  get_elem?-settled (x ∷ xs) zero blank h = refl
  get_elem?-settled (x ∷ xs) (suc i) blank h = get_elem?-settled xs i blank (omega arith)

  tick-settled :
      (blank : A) (cells : List A)
      → map (reg_mut_tick blank) (map settled cells) ≡ map settled cells
  unfolding reg_mut_tick
  tick-settled blank [] = refl
  tick-settled blank (x ∷ xs) = ap (λ l. settled x ∷ l) (tick-settled blank xs)

  -- A register that was written once in this cycle.
  abbrev pub written_once : A → A → RegMut A
  written_once old new = record { buf = old; next = new; write_count = 1; clear = false }

  tick-set :
      (blank : A) (cells : List A) (i : ℕ) (old new : A)
      → map (reg_mut_tick blank) (set (map settled cells) i (written_once old new))
        ≡ map settled (set cells i new)
  unfolding reg_mut_tick
  tick-set blank [] i old new = refl
  tick-set blank (x ∷ xs) zero old new = ap (λ l. settled new ∷ l) (tick-settled blank xs)
  tick-set blank (x ∷ xs) (suc i) old new = ap (λ l. settled x ∷ l) (tick-set blank xs i old new)

-- The second call of a cycle: what is pushed, if anything.
unfoldable pub push_step {ℓ} : {A : Type ℓ} → Option A → Queue A → Outcome (Queue A × Bool)
push_step none queue = done (queue, false)
push_step (some v) queue = enqueue queue v

-- The tick that ends a cycle, with what its calls returned.
unfoldable pub settle {ℓ} :
    {A : Type ℓ} → A → Option A → Queue A × Bool → Outcome (Queue A × Option A × Bool)
settle blank out r = done (queue_regs_tick blank r.0, out, r.1)

unfoldable pub pop_step {ℓ} : {A : Type ℓ} → Bool → Queue A → Outcome (Queue A × Option ℕ)
pop_step true queue = queue_pop queue
pop_step false queue = done (queue, none)

-- The calls that the owner of a queue makes in one cycle, then the tick of the registers: whether it
-- pops, and what it pushes. The entry popped is read behind the pointer that `queue_pop` returns.
unfoldable pub queue_cycle {ℓ} :
    {A : Type ℓ} → A → Bool → Option A → Queue A → Outcome (Queue A × Option A × Bool)
queue_cycle blank pops pushes queue = do
  (queue', at) ← pop_step pops queue
  out ← cell_read queue' at
  push_step pushes queue' >>= settle blank out

module _ {ℓ} {A : Type ℓ} (blank : A) (cap : ℕ) where
  -- The entries of a queue at rest, the oldest first.
  abbrev pub contents : List A → ℕ → ℕ → List A
  contents cells h t = window blank cap cells h (span cap h t)

  -- The queue in the middle of a cycle: `head` may have been written.
  abbrev pub mid : List A → RegMut ℕ → ℕ → Queue A
  mid cells head t = record {
    capacity = cap;
    cells = map settled cells;
    head = head;
    tail = settled t;
    clear = settled false;
  }

  -- The tick after a cycle: positions and entries take their next values.
  pub tick-mid :
      (cells : List A) (h h' n t : ℕ)
      → queue_regs_tick blank
          (mid cells (record { buf = h; next = h'; write_count = n; clear = false }) t)
        ≡ ring cap cells h' t
  unfolding queue_regs_tick
  tick-mid cells h h' n t = rw (tick-settled blank cells)

  abbrev pub pushed : List A → RegMut ℕ → ℕ → A → Queue A
  pushed cells head t x = record {
    capacity = cap;
    cells = set (map settled cells) t (written_once (get_or cells t blank) x);
    head = head;
    tail = record { buf = t; next = (t + 1) % cap; write_count = 1; clear = false };
    clear = settled false;
  }

  pub tick-pushed :
      (cells : List A) (h h' n t : ℕ) (x : A)
      → queue_regs_tick blank
          (pushed cells (record { buf = h; next = h'; write_count = n; clear = false }) t x)
        ≡ ring cap (set cells t x) h' ((t + 1) % cap)
  unfolding queue_regs_tick
  tick-pushed cells h h' n t x = rw (tick-set blank cells t (get_or cells t blank) x)

  pub pop-ring :
      (cells : List A) (h t : ℕ)
      → IsRing cap cells h t
      → h ≢ t
      → queue_pop (ring cap cells h t)
        ≡ done (
          mid cells (record { buf = h; next = (h + 1) % cap; write_count = 1; clear = false }) t,
          some h,
        )
  unfolding queue_pop
  pop-ring cells h t v other = ground arith

  pub enqueue-mid :
      (cells : List A) (head : RegMut ℕ) (t : ℕ) (x : A)
      → length cells ≡ cap
      → t < cap
      → head.buf ≢ (t + 1) % cap
      → enqueue (mid cells head t) x ≡ done (pushed cells head t x, true)
  unfolding enqueue
  enqueue-mid cells head t x hl ht room = ground (arith, get_elem?-settled cells t blank)

  pub enqueue-full :
      (cells : List A) (head : RegMut ℕ) (t : ℕ) (x : A)
      → head.buf ≡ (t + 1) % cap
      → enqueue (mid cells head t) x ≡ done (mid cells head t, false)
  unfolding enqueue
  enqueue-full cells head t x full = ground arith

  pub pop-empty :
      (cells : List A) (h t : ℕ)
      → h ≡ t
      → queue_pop (ring cap cells h t) ≡ done (ring cap cells h t, none)
  unfolding queue_pop
  pop-empty cells h t e = ground arith
