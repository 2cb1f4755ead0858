-- ===== src/ReorderBuffer.antt =====
-- reorder-buffer.c: the buffer of instructions in flight, from which they commit in order.
pub mod Shape
use fakerv32i.Base.{
  ℕ, zero, suc, ◌+◌, Bool, true, false, not, ◌==◌, bit_and, of_bool, if◌then◌else◌, List, [], ◌∷◌,
  replicate, get_elem?, set, Option, none, some, Outcome, done, fault, assertion, undefined, ◌>>=◌,
  in_range,
}
use fakerv32i.Rv32i.{RobOp, register, store, branch, jalr, hcf}
use fakerv32i.Reg.{RegMut, reg_mut_create, reg_mut_read, reg_mut_write}
use fakerv32i.Queue.{Queue, queue_create, queue_clear, queue_full, queue_id, queue_push, visited}
use fakerv32i.Predictor.{BpResult}
use fakerv32i.Reservation.{CdbMessage}

-- `rob_payload_t`. A `dest` of -1 is none; `rs` is kept for the dump only.
pub record RobPayload : Type 0 where
  pub op : RobOp
  pub value : ℕ
  pub rs : ℕ
  pub pc : ℕ
  pub dest : Option ℕ
  pub size : ℕ
  pub addr : ℕ
  pub addr_ready : Bool
  pub value_ready : Bool
  pub fallback : ℕ
  pub predicted_take : BpResult
  pub predicted_addr : ℕ

-- The two registers behind a `reorder_buffer_t`.
pub record Entry : Type 0 where
  pub ready : RegMut Bool
  pub payload : RegMut RobPayload

-- `rob_unit_t`, without its pointers to the other components. A `reorder_buffer_t` is an id and two
-- pointers that are set once: a cell of `robs` holds the id, and the entry with the id `i + 1` stands at
-- place `i` of `entries`.
pub record RobUnit : Type 0 where
  pub robs : Queue ℕ
  pub entries : List Entry
  pub commit_count : ℕ

abbrev pub rob_capacity : ℕ
rob_capacity = 16

abbrev pub no_rob_payload : RobPayload
no_rob_payload = record {
  op = register;
  value = 0;
  rs = 0;
  pc = 0;
  dest = some 0;
  size = 0;
  addr = 0;
  addr_ready = false;
  value_ready = false;
  fallback = 0;
  predicted_take = record { take = false; hist = 0 };
  predicted_addr = 0;
}

-- The loop of `rob_unit_create`, which writes the id `i + 1` into the cell at `i`.
unfoldable pub number_cells : ℕ → List (RegMut ℕ) → Outcome (List (RegMut ℕ))
unfolding reg_mut_write
number_cells i [] = done []
number_cells i (reg ∷ regs) = do
  reg' ← reg_mut_write reg (λ _. i + 1)
  regs' ← number_cells (i + 1) regs
  done (reg' ∷ regs')

unfoldable pub rob_unit_create : Outcome RobUnit
unfolding reg_mut_create
rob_unit_create =
    let queue = queue_create 0 rob_capacity in
    do
      cells' ← number_cells 0 queue.cells
      done (record {
        robs = record queue { cells = cells' };
        entries =
            replicate rob_capacity
              (record { ready = reg_mut_create false; payload = reg_mut_create no_rob_payload });
        commit_count = 0;
      })

-- What `rm_read` of a cell of the queue gives: the id of its entry.
unfoldable pub id_at : RobUnit → ℕ → Outcome ℕ
unfolding reg_mut_read
id_at unit p = do cell ← in_range (get_elem? unit.robs.cells p); done (reg_mut_read cell)

-- The entry behind the pointers of the `reorder_buffer_t` with an id, and a change of it.
unfoldable pub entry_of : RobUnit → ℕ → Outcome Entry
entry_of unit zero = fault undefined
entry_of unit (suc i) = in_range (get_elem? unit.entries i)

unfoldable pub with_entry : RobUnit → ℕ → Entry → RobUnit
with_entry unit zero entry = unit
with_entry unit (suc i) entry = record unit { entries = set unit.entries i entry }

-- `rob_unit_find`: the id in the cell at `id - 1`.
unfoldable pub rob_unit_find : RobUnit → ℕ → Outcome ℕ
rob_unit_find unit zero = fault undefined
rob_unit_find unit (suc i) = do p ← queue_id unit.robs i; id_at unit p

unfoldable pub rob_unit_full : RobUnit → Bool
rob_unit_full unit = queue_full unit.robs

-- `rob_unit_acquire`: the id that the cell's register holds for the next cycle; the write changes
-- nothing by itself. None is the null pointer.
unfoldable pub acquire_cell : RobUnit → Queue ℕ × Option ℕ → Outcome (RobUnit × Option ℕ)
unfolding reg_mut_write
acquire_cell unit (robs, none) = done (record unit { robs = robs }, none)
acquire_cell unit (robs, some p) = do
  cell ← in_range (get_elem? robs.cells p)
  cell' ← reg_mut_write cell (λ next. next)
  done (record unit { robs = record robs { cells = set robs.cells p cell' } }, some cell'.next)

unfoldable pub rob_unit_acquire : RobUnit → Outcome (RobUnit × Option ℕ)
rob_unit_acquire unit = queue_push unit.robs >>= acquire_cell unit

unfoldable pub rob_unit_clear : RobUnit → Outcome RobUnit
rob_unit_clear unit = do robs' ← queue_clear unit.robs; done (record unit { robs = robs' })

-- The writes to an entry whose result has come.
unfoldable pub take_result : CdbMessage → RobPayload → RobPayload
take_result msg payload = elim payload.op [
  | jalr ↦ record payload { addr = msg.result }
  | register ↦ record payload { value = msg.result }
  | store ↦ record payload { value = msg.result }
  | branch ↦ record payload { value = msg.result }
  | hcf ↦ record payload { value = msg.result }
]

unfoldable pub entry_onmsg : CdbMessage → Entry → Outcome Entry
unfolding reg_mut_write
entry_onmsg msg entry = do
  payload' ← reg_mut_write entry.payload (take_result msg)
  ready' ← reg_mut_write entry.ready (λ _. true)
  done (record { ready = ready'; payload = payload' })

-- The loop of `_rob_unit_onmsg` over the cells.
pub onmsg_loop : CdbMessage → RobUnit → List ℕ → Outcome RobUnit
onmsg_loop msg unit [] = done unit
onmsg_loop msg unit (p ∷ ps) = do
  id ← id_at unit p
  unit' ←
      (if msg.rob == id
        then (do
          entry ← entry_of unit id
          entry' ← entry_onmsg msg entry
          done (with_entry unit id entry'))
        else done unit)
  onmsg_loop msg unit' ps

-- `_rob_unit_onmsg`, a listener of the bus.
unfoldable pub rob_unit_onmsg : CdbMessage → RobUnit → Outcome RobUnit
unfolding reg_mut_read
rob_unit_onmsg msg unit =
    if reg_mut_read unit.robs.clear
    then done unit
    else do ps ← visited unit.robs; onmsg_loop msg unit ps

-- `addr & ~1u`.
abbrev pub even_addr : ℕ → ℕ
even_addr addr = bit_and addr 0xfffffffe

-- `_rob_is_mispredicted`.
unfoldable pub rob_is_mispredicted : RobPayload → Outcome Bool
rob_is_mispredicted payload = elim payload.op [
  | branch ↦ done (not (of_bool payload.predicted_take.take == payload.value))
  | jalr ↦ done (not (payload.predicted_addr == even_addr payload.addr))
  | register ↦ fault assertion
  | store ↦ fault assertion
  | hcf ↦ fault assertion
]

-- `_rob_addr`.
unfoldable pub rob_addr : RobPayload → Outcome ℕ
rob_addr payload = elim payload.op [
  | branch ↦ done payload.fallback
  | jalr ↦ done (even_addr payload.addr)
  | register ↦ fault assertion
  | store ↦ fault assertion
  | hcf ↦ fault assertion
]
