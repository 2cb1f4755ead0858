-- ===== src/Tests/Accesses.antt =====
-- Instances for the rings, the pending accesses to memory, and the loads that pass a store.
use fakerv32i.Base.{◌^◌, ◌≤◌, ◌⊎◌, ℕ, ◌≡◌, ◌≢◌, refl, arith, true, false, [], ◌∷◌, done}
use fakerv32i.Isa.{word, byte}
use fakerv32i.Rv32i.LsSize
use fakerv32i.Rv32i.{RobOp, success}
use fakerv32i.Reg.{BusyWait, busy_wait_signal, reg_mut_write, reg_or_write}
use fakerv32i.Reg.Cycle.{settled}
use fakerv32i.Bus.{Bus, bus_arb_status}
use fakerv32i.Bus.Delivery.{between}
use fakerv32i.Bus.Helper.{
  BusHelper, acquire_at, bh_acquire, bh_busy, bh_mark, bh_req_ix, buffer_write, helper_regs,
}
use fakerv32i.Queue.{Queue, visited}
use fakerv32i.Queue.Cycle.{ring}
use fakerv32i.Queue.Visit.{visited-positions}
use fakerv32i.Reservation.{CdbMessage, RsPayload, overlap_sorted, rsu_overlap}
use fakerv32i.Reservation.Overlap.{Shares}
use fakerv32i.ReorderBuffer.{Entry, RobUnit, entry_of, id_at, no_rob_payload}
use fakerv32i.Reservation.Issue.{load_blocked, store_blocks}
use fakerv32i.Reservation.Issue.Loads.{load_blocked-passes}
use fakerv32i.Rvmath.{ls_size}
use fakerv32i.Memory.{Bytes, mem_get_sz, mem_set_sz, write_bytes}
use fakerv32i.Memory.Pending.{
  MemUnit, mem_regs, mem_request_load, mem_request_store, mem_tick, no_load, no_message, no_store,
}
use fakerv32i.Memory.Pending.Completion.{
  IsFree, idle, mem_request_load-completes, mem_request_store-completes,
}

-- Four places, of which the last and the first are taken.
abbrev entries_of_ring : Queue ℕ
entries_of_ring = ring 4 (11 ∷ 12 ∷ 13 ∷ 14 ∷ []) 3 1

visited-positions_example : visited entries_of_ring ≡ done (3 ∷ 0 ∷ [])
visited-positions_example =
    visited-positions entries_of_ring (record { head_lt = omega arith; tail_lt = omega arith })

abbrev nothing : Bytes
nothing a = 0

-- A sender that has its current buffer 0 in use, and a bus on which nobody asks.
abbrev full_first : BusHelper CdbMessage
full_first = record {
  buffer0 = settled no_message;
  buffer1 = settled no_message;
  busy0 = record { init = false; buf = true; next = false };
  busy1 = record { init = false; buf = false; next = false };
  current = settled false;
  id = 1;
}

abbrev line : Bus CdbMessage
line = between no_message (settled false ∷ []) 0 false (settled no_message)

abbrev signalled : BusyWait
signalled = record {
  stall = record { init = false; buf = true; next = false };
  signal = record { buf = false; next = true; write_count = 1; clear = false };
}

abbrev waiting_lock : BusyWait
waiting_lock = record {
  stall = record { init = false; buf = true; next = false };
  signal = settled false;
}

mem_request_store-completes_example :
    (mem1 : MemUnit) × (mem2 : MemUnit) × (mem3 : MemUnit) × (mem_request_store
        (idle nothing full_first (no_load, no_load, no_load) (no_store, no_store, no_store))
        100
        7
        LsSize.word
      ≡ done (success, mem1))
    × (mem_tick (mem_regs mem1) line waiting_lock ≡ done (mem2, line, waiting_lock))
    × (mem2.bytes ≡ nothing)
    × (mem_tick (mem_regs mem2) line waiting_lock ≡ done (mem3, line, signalled))
    × (mem3.bytes ≡ write_bytes 4 nothing 100 7)
    × IsFree mem3
unfolding mem_set_sz busy_wait_signal reg_mut_write
mem_request_store-completes_example =
    mem_request_store-completes nothing (write_bytes 4 nothing 100 7) full_first
      (no_load, no_load, no_load) (no_store, no_store, no_store) 100 7 LsSize.word line line
      waiting_lock waiting_lock signalled refl refl

-- The message is written into the buffer 1.
abbrev sent : BusHelper CdbMessage
sent = record full_first {
  busy1 = record { init = false; buf = false; next = true };
  buffer1 = record {
    buf = no_message;
    next = record { rob = 3; result = 0 };
    write_count = 1;
    clear = false;
  };
}

mem_request_load-completes_example :
    (mem1 : MemUnit) × (mem2 : MemUnit) × (mem3 : MemUnit) × (mem_request_load
        (idle nothing full_first (no_load, no_load, no_load) (no_store, no_store, no_store))
        100
        LsSize.word
        (record { rob = 3; result = 0 })
      ≡ done (success, mem1))
    × (mem_tick (mem_regs mem1) line waiting_lock ≡ done (mem2, line, waiting_lock))
    × (mem2.cdb_helper ≡ helper_regs no_message full_first)
    × (mem_tick (record (mem_regs mem2) { cdb_helper = full_first }) line waiting_lock
        ≡ done (mem3, line, waiting_lock))
    × (mem3.bytes ≡ nothing)
    × (mem3.cdb_helper ≡ sent)
    × IsFree mem3
unfolding mem_get_sz bh_acquire acquire_at bh_req_ix bh_busy bh_mark bus_arb_status buffer_write
    reg_or_write reg_mut_write
mem_request_load-completes_example =
    mem_request_load-completes nothing full_first full_first
      (record full_first { busy1 = record { init = false; buf = false; next = true } }) sent
      (no_load, no_load, no_load) (no_store, no_store, no_store) 100 LsSize.word 0
      (record { rob = 3; result = 0 }) true line line line waiting_lock waiting_lock refl refl refl

-- A store of a byte at 102 in the entry 1, and a load of a word at 100 for the entry 2.
abbrev byte_store : Entry
byte_store = record {
  ready = settled true;
  payload = settled (record no_rob_payload {
    op = RobOp.store;
    addr = 102;
    size = LsSize.byte;
    addr_ready = true;
  });
}

abbrev one_store : RobUnit
one_store = record {
  robs = ring 4 (1 ∷ 2 ∷ 3 ∷ 4 ∷ []) 0 2;
  entries = byte_store ∷ [];
  commit_count = 0;
}

abbrev word_load : RsPayload
word_load = record {
  op_alu = 0;
  op_ls = LsSize.word;
  value1 = 0;
  value2 = 0;
  src1 = 0;
  src2 = 0;
  dest = 2;
  addr = 100;
}

load_blocked-passes_example :
    (byte_store.payload.buf.addr_ready ≡ true)
    × (100 ≢ byte_store.payload.buf.addr)
    × ((2 ^ 32 ≤ 104) ⊎ (2 ^ 32 ≤ 103) ⊎ Shares word byte 100 102)
unfolding id_at entry_of load_blocked store_blocks rsu_overlap overlap_sorted ls_size
load_blocked-passes_example =
    load_blocked-passes one_store 100 word_load [] 0 (1 ∷ []) 1 byte_store word byte
      ((λ id e. ground (arith, e)), tt) refl refl refl refl refl refl
