-- ===== src/Tests/Sending.antt =====
-- Instances for the sender of the bus, the arithmetic unit and the requests to memory.
use fakerv32i.Base.{
  ◌≡◌, refl, Bool, true, false, none, some, arith, List, [], ◌∷◌, done, fault, undefined, ◌++◌,
  length,
}
use fakerv32i.Rv32i.AluOp
use fakerv32i.AluOps.{alu_execute}
use fakerv32i.Memory.Requests.{IsFull, mem_acquire_req, mem_acquire_req-first}
use fakerv32i.Reg.{RegMut, RegReduce, reg_mut_read, reg_mut_write, reg_reduce_read, reg_or_write}
use fakerv32i.Reg.Cycle.{settled}
use fakerv32i.Bus.{Bus, bus_arb_status}
use fakerv32i.Bus.Delivery.{between}
use fakerv32i.Bus.Helper.{
  BusHelper, bh_should_clear, bh_should_stall, bh_req_ix, full_at, bh_busy, bh_mark, acquire_at,
  bh_acquire, buffer_write,
}
use fakerv32i.Bus.Helper.Acquire.{Accepts, bh_acquire-stall}
use fakerv32i.Reservation.{CdbMessage}
use fakerv32i.AluUnit.{AluTask, Alu, alu_task}
use fakerv32i.AluUnit.Delivery.{message_of, IsIdle, cycles, tick_in, alu_task-delivers}
use fakerv32i.Cpu.{no_task, no_result}
use fakerv32i.Cpu.Clock.{alu_regs}
use fakerv32i.Rv32i.{success}

abbrev nothing : CdbMessage
nothing = record { rob = 0; result = 0 }

abbrev line : Bus CdbMessage
line = between nothing (settled false ∷ []) 0 false (settled nothing)

-- A sender that has the buffer 0 in use, which is the current one, and the buffer 1 free.
abbrev sender : BusHelper CdbMessage
sender = record {
  buffer0 = settled nothing;
  buffer1 = settled nothing;
  busy0 = record { init = false; buf = true; next = false };
  busy1 = record { init = false; buf = false; next = false };
  current = settled false;
  id = 1;
}

bh_acquire-stall_example :
    (bh_should_stall sender line ≡ true → bh_acquire sender line ≡ done (none, sender, line))
    × (bh_should_stall sender line ≡ false → Accepts sender line (bh_acquire sender line))
bh_acquire-stall_example = bh_acquire-stall sender line

-- To add 2 and 3 for the entry 4.
abbrev addition : AluTask
addition = record {
  op = AluOp.add;
  value1 = 2;
  value2 = 3;
  base_msg = record { rob = 4; result = 0 };
}

abbrev unit : Alu
unit = record {
  cdb_helper = sender;
  task = settled no_task;
  busy = record { init = false; buf = false; next = false };
  result_buf = settled no_result;
}

unit-IsIdle : IsIdle unit
unit-IsIdle = record { task = refl; busy = refl; result_buf = (refl, refl) }

-- Both buffers are in use.
abbrev busy_sender : BusHelper CdbMessage
busy_sender = record sender { busy1 = record { init = false; buf = true; next = false } }

abbrev marked : BusHelper CdbMessage
marked = record sender { busy1 = record { init = false; buf = false; next = true } }

abbrev five : RegMut CdbMessage
five = record { buf = nothing; next = message_of addition 5; write_count = 1; clear = false }

-- The sender is full for two cycles, and then has its second buffer free.
alu_task-delivers_example :
    (accepted : Alu) × (kept : Alu) × (sent : Alu) × (alu_task unit line addition
      ≡ done (success, accepted))
    × (cycles (alu_regs accepted) ((busy_sender, line) ∷ (busy_sender, line) ∷ []) ≡ done kept)
    × (tick_in kept (sender, line) ≡ done (sent, line))
    × (sent.cdb_helper ≡ record marked { buffer1 = five })
    × ((alu_regs sent).busy.buf ≡ false)
    × ((alu_regs sent).result_buf.buf.busy ≡ false)
unfolding bh_should_clear bh_should_stall bh_req_ix full_at bh_busy bh_acquire acquire_at bh_mark
    buffer_write bus_arb_status alu_execute reg_mut_write reg_mut_read reg_reduce_read reg_or_write
alu_task-delivers_example =
    alu_task-delivers unit line addition 5 ((busy_sender, line) ∷ (busy_sender, line) ∷ []) sender
      marked (record marked { buffer1 = five }) line line true unit-IsIdle refl refl refl
      (refl, refl, (refl, refl, tt)) refl refl refl

-- Three places, the second free.
abbrev place : Bool → RegReduce Bool
place b = record { init = false; buf = b; next = false }

abbrev places : List (RegReduce Bool)
places = place true ∷ place false ∷ place true ∷ []

mem_acquire_req-first_example :
    (IsFull places → mem_acquire_req places ≡ fault undefined)
    × ((before : List (RegReduce Bool)) (r : RegReduce Bool) (after : List (RegReduce Bool))
        → places ≡ before ++ (r ∷ after)
        → IsFull before
        → r.buf ≡ false
        → mem_acquire_req places ≡ done (some (length before)))
mem_acquire_req-first_example = mem_acquire_req-first places (omega arith)
