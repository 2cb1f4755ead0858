-- ===== src/ReorderBuffer/Shape.antt =====
-- The ring and the entries of reorder-buffer.c keep their sizes.
use fakerv32i.Base.{
  ℕ, zero, suc, ◌+◌, ◌≡◌, refl, ap, arith, ◌∙◌, List, [], ◌∷◌, length, get_elem?, length-set, ◌==◌,
  if◌then◌else◌, Option, none, some, done, ◌>>=◌, in_range, Always, Always-bind, Always-then,
  Always-if,
}
use fakerv32i.Reg.{RegMut, reg_mut_read, reg_mut_write}
use fakerv32i.Queue.{Queue, visited, queue_create, queue_push, queue_clear}
use fakerv32i.Queue.Bounds.{
  IsRing, IsRingAnd, queue_create-IsRing, queue_push-IsRing, queue_clear-IsRing, set_cell-IsRing,
}
use fakerv32i.Reservation.{CdbMessage}
use fakerv32i.ReorderBuffer.{
  Entry, RobUnit, rob_capacity, number_cells, rob_unit_create, id_at, entry_of, with_entry,
  acquire_cell, rob_unit_acquire, rob_unit_clear, entry_onmsg, onmsg_loop, rob_unit_onmsg,
}

-- A ring in bounds, and an entry for each of its cells.
abbrev pub IsBuffer : RobUnit → Type 0
IsBuffer rob = IsRing rob_capacity rob.robs × (length rob.entries ≡ rob_capacity)

number_cells-length :
    (i : ℕ) (regs : List (RegMut ℕ)) → Always (λ r. length r ≡ length regs) (number_cells i regs)
unfolding number_cells
number_cells-length i [] = refl
number_cells-length i (reg ∷ regs) =
    Always-then (λ r. length r ≡ suc (length regs)) (reg_mut_write reg (λ _. i + 1)) _
      λ reg'.
        Always-bind (λ r. length r ≡ length regs) (λ r. length r ≡ suc (length regs))
          (number_cells (i + 1) regs) _ (number_cells-length (i + 1) regs) λ regs' e. ap suc e

pub rob_unit_create-IsBuffer : Always IsBuffer rob_unit_create
unfolding rob_unit_create
rob_unit_create-IsBuffer =
    let fresh = queue_create-IsRing 16 (omega arith) 0 in
    Always-bind (λ c. length c ≡ length (queue_create 0 rob_capacity).cells) IsBuffer
      (number_cells 0 (queue_create 0 rob_capacity).cells) _
      (number_cells-length 0 (queue_create 0 rob_capacity).cells)
      λ cells' e. (
        record {
          capacity = fresh.capacity;
          cells = e ∙ fresh.cells;
          head = fresh.head;
          tail = fresh.tail;
        },
        refl,
      )

pub with_entry-IsBuffer :
    (rob : RobUnit) (id : ℕ) (entry : Entry) → IsBuffer rob → IsBuffer (with_entry rob id entry)
unfolding with_entry
with_entry-IsBuffer rob zero entry h = h
with_entry-IsBuffer rob (suc i) entry h = (h.0, length-set rob.entries i entry ∙ h.1)

acquire_cell-IsBuffer :
    (rob : RobUnit) (acquired : Queue ℕ × Option ℕ)
    → IsRing rob_capacity acquired.0
    → length rob.entries ≡ rob_capacity
    → Always (λ r. IsBuffer r.0) (acquire_cell rob acquired)
unfolding acquire_cell
acquire_cell-IsBuffer rob (robs, none) h e = (h, e)
acquire_cell-IsBuffer rob (robs, some p) h e =
    Always-then (λ r. IsBuffer r.0) (in_range (get_elem? robs.cells p)) _
      λ cell.
        Always-then (λ r. IsBuffer r.0) (reg_mut_write cell (λ next. next)) _
          λ cell'. (set_cell-IsRing 16 (omega arith) robs p cell' h, e)

pub rob_unit_acquire-IsBuffer :
    (rob : RobUnit) → IsBuffer rob → Always (λ r. IsBuffer r.0) (rob_unit_acquire rob)
unfolding rob_unit_acquire
rob_unit_acquire-IsBuffer rob h =
    Always-bind (IsRingAnd 16) (λ r. IsBuffer r.0) (queue_push rob.robs) (acquire_cell rob)
      (queue_push-IsRing 16 (omega arith) rob.robs h.0)
      λ acquired h'. acquire_cell-IsBuffer rob acquired h' h.1

pub rob_unit_clear-IsBuffer : (rob : RobUnit) → IsBuffer rob → Always IsBuffer (rob_unit_clear rob)
unfolding rob_unit_clear
rob_unit_clear-IsBuffer rob h =
    Always-bind (IsRing 16) IsBuffer (queue_clear rob.robs) _
      (queue_clear-IsRing 16 (omega arith) rob.robs h.0) λ robs' h'. (h', h.1)

onmsg_loop-IsBuffer :
    (msg : CdbMessage) (rob : RobUnit) (ps : List ℕ)
    → IsBuffer rob
    → Always IsBuffer (onmsg_loop msg rob ps)
unfolding onmsg_loop
onmsg_loop-IsBuffer msg rob [] h = h
onmsg_loop-IsBuffer msg rob (p ∷ ps) h = Always-then IsBuffer (id_at rob p) _ λ id.
    Always-bind IsBuffer IsBuffer
      (if msg.rob == id
        then (do
          entry ← entry_of rob id
          entry' ← entry_onmsg msg entry
          done (with_entry rob id entry'))
        else done rob)
      _
      (Always-if IsBuffer (msg.rob == id) _ (done rob)
        (Always-then IsBuffer (entry_of rob id) _ λ entry.
          Always-then IsBuffer (entry_onmsg msg entry) _
            λ entry'. with_entry-IsBuffer rob id entry' h)
        h)
      λ rob' h'. onmsg_loop-IsBuffer msg rob' ps h'

pub rob_unit_onmsg-IsBuffer :
    (msg : CdbMessage) (rob : RobUnit) → IsBuffer rob → Always IsBuffer (rob_unit_onmsg msg rob)
unfolding rob_unit_onmsg
rob_unit_onmsg-IsBuffer msg rob h =
    Always-if IsBuffer (reg_mut_read rob.robs.clear) (done rob) _ h
      (Always-then IsBuffer (visited rob.robs) _ λ ps. onmsg_loop-IsBuffer msg rob ps h)
