-- ===== src/Tests/Speculation.antt =====
-- Instances for the dispatch, the jumps and the misprediction.
use fakerv32i.Base.{ℕ, zero, suc, Bool, List, ◌≡◌, ◌≢◌, refl, arith, true, false, [], ◌∷◌, done}
use fakerv32i.AluOps.{alu_execute}
use fakerv32i.Inst.{Inst, Format, inst_alu_op}
use fakerv32i.Rv32i.{RobOp, branch, reservation_station}
use fakerv32i.Rv32i.Opcode
use fakerv32i.Rv32i.InstOp
use fakerv32i.Reg.{RegReduce, reg_mut_read}
use fakerv32i.Reg.Cycle.{settled}
use fakerv32i.Bus.{Bus, bus_get_data}
use fakerv32i.Bus.Delivery.{between}
use fakerv32i.Predictor.{bp_create, bp_hash, branch_predict, state_at}
use fakerv32i.RegStore.{never, reg_store_get, reg_store_rob_id_get}
use fakerv32i.RegStore.Rename.{at_rest}
use fakerv32i.Queue.{Queue, queue_id}
use fakerv32i.Queue.Cycle.{ring}
use fakerv32i.Reservation.{CdbMessage, Station, receive1, receive2, rs_onmsg}
use fakerv32i.Reservation.Capture.{waiting}
use fakerv32i.Memory.Pending.{MemUnit, no_load, no_message, no_store}
use fakerv32i.Memory.Pending.Completion.{idle}
use fakerv32i.ReorderBuffer.{Entry, entry_of, entry_onmsg, id_at, no_rob_payload, rob_unit_find}
use fakerv32i.InstUnit.{InstUnit}
use fakerv32i.InstUnit.Dispatch.{Dispatched, Operand, Sources, dispatch_b, inst_reg_set}
use fakerv32i.InstUnit.Dispatch.Operands.{Agrees, denotes, inst_reg_set-denotes}
use fakerv32i.FakeCpu.{FakeCpu, cpu_get, tick_branch}
use fakerv32i.Cpu.{Cpu, no_rs_payload}
use fakerv32i.Cpu.Jumps.{branch_resolves, resolved}
use fakerv32i.Cpu.Links.{jalr_link-captured}

abbrev line : Bus CdbMessage
line = between no_message [] 0 false (settled no_message)

-- The entry 1 is ready with the result 9, and register 1 waits for it.
abbrev nine : Entry
nine = record { ready = settled true; payload = settled (record no_rob_payload { value = 9 }) }

abbrev sources : Sources
sources = record {
  reg_store = record {
    slots = at_rest 0 0 0 never ∷ at_rest 5 1 0 never ∷ [];
    clear = settled false;
  };
  rob = record { robs = ring 2 (1 ∷ 2 ∷ []) 0 1; entries = nine ∷ []; commit_count = 0 };
  cdb = line;
  branch_predictor = bp_create 5;
}

abbrev all_nine : ℕ → ℕ
all_nine id = 9

ready_nine :
    (id : ℕ) (entry : Entry) → entry_of sources.rob id ≡ done entry → entry.payload.buf.value ≡ 9
unfolding entry_of
ready_nine zero entry e = absurd (ground (arith, e))
ready_nine (suc zero) entry e = ground (arith, e)
ready_nine (suc (suc id)) entry e = absurd (ground (arith, e))

sources-Agrees : Agrees all_nine sources
unfolding bus_get_data
sources-Agrees = record {
  entries = λ rob_id id entry found e ready. ready_nine id entry e;
  in_flight = λ msg h. absurd (ground (arith, h));
}

abbrev msg : CdbMessage
msg = record { rob = 1; result = 9 }

inst_reg_set-denotes_example :
    (o : Operand) × (inst_reg_set sources 1 ≡ done o)
    × (denotes all_nine o.src o.value ≡ 9)
    × (let p1 = receive1 msg (record no_rs_payload { src1 = o.src; value1 = o.value }) in
        denotes all_nine p1.src1 p1.value1 ≡ 9)
    × (let p2 = receive2 msg (record no_rs_payload { src2 = o.src; value2 = o.value }) in
        denotes all_nine p2.src2 p2.value2 ≡ 9)
unfolding reg_store_rob_id_get reg_store_get rob_unit_find id_at entry_of reg_mut_read queue_id
inst_reg_set-denotes_example =
    inst_reg_set-denotes all_nine sources 1 1 5 1 nine msg no_rs_payload sources-Agrees refl refl
      (λ ne. refl) (λ ne. refl) (omega arith) refl

-- BEQ x0, x0 at the address 64, by 16.
abbrev beq : Inst
beq = record {
  op = InstOp.beq;
  opcode = Opcode.branch;
  format = Format.b;
  immediate = 16;
  rs1 = 0;
  rs2 = 0;
  rd = 0;
  width = 0;
}

abbrev started : Dispatched
started = record { rob_data = no_rob_payload; rs_data = no_rs_payload; next_pc = 68 }

abbrev sequential : FakeCpu
sequential = record { mem = λ a. 0; regs = λ r. 0; pc = 64; hcf = false }

branch_resolves_example :
    (d' : Dispatched) × (c : FakeCpu) × (dispatch_b sources beq 64 started ≡ done d')
    × (tick_branch sequential beq 68 ≡ done c)
    × (resolved (record d'.rob_data { op = branch; value = 1 }) d'.next_pc ≡ done c.pc)
unfolding inst_reg_set branch_predict state_at bp_hash bp_create cpu_get alu_execute inst_alu_op
branch_resolves_example =
    branch_resolves sources beq 64 started (record { src = 0; value = 0 })
      (record { src = 0; value = 0 }) (record { take = true; hist = 5 }) sequential 0 0 true refl
      refl refl refl refl refl refl

abbrev quiet : MemUnit
quiet =
    idle (λ a. 0)
      (record {
        buffer0 = settled no_message;
        buffer1 = settled no_message;
        busy0 = record { init = false; buf = false; next = false };
        busy1 = record { init = false; buf = false; next = false };
        current = settled false;
        id = 1;
      })
      (no_load, no_load, no_load) (no_store, no_store, no_store)

-- The flags of three requests, the second pending.
abbrev second_pending : List (RegReduce Bool)
second_pending =
    record { init = false; buf = false; next = false }
    ∷ record { init = false; buf = true; next = true }
    ∷ record { init = false; buf = false; next = false }
    ∷ []

-- A load and a store are pending.
abbrev cpu : Cpu
cpu = record {
  clk = 0;
  cdb = line;
  branch_predictor = bp_create 5;
  inst_unit = record { pc = settled 8; force_pc = settled (record { busy = false; addr = 0 }) };
  alu = [];
  ls_queue = record {
    queue = ring 2 [] 0 0;
    lock = record {
      stall = record { init = false; buf = false; next = false };
      signal = settled false;
    };
    clear = settled false;
  };
  mem = record quiet { load_requests_busy = second_pending; store_requests_busy = second_pending };
  reg_store = record { slots = at_rest 7 2 2 never ∷ []; clear = settled false };
  rob = sources.rob;
  rs = record {
    alu_stations =
        record {
          id = 1;
          rs_type = reservation_station;
          busy = settled true;
          payload = settled no_rs_payload;
        }
        ∷ [];
    load_buffers = [];
    store_buffers = [];
    clear = settled false;
  };
  hcf = false;
}

-- A JALR at 0 in the entry 1, whose target is 8, and a station that waits for its result.
abbrev jump : Entry
jump = record {
  ready = settled false;
  payload = settled (record no_rob_payload { op = RobOp.jalr; value = 4 });
}

abbrev station : Station
station = record {
  id = 1;
  rs_type = reservation_station;
  busy = settled true;
  payload = settled (record no_rs_payload { src1 = 1 });
}

jalr_link-captured_example :
    (entry' : Entry) × (rs' : Station) × (entry_onmsg (record { rob = 1; result = 8 }) jump
      ≡ done entry')
    × (rs_onmsg false
          (record { rob = 1; result = 8 })
          (waiting station (record no_rs_payload { src1 = 1 }))
        ≡ done rs')
    × (entry'.ready.next ≡ true)
    × (entry'.payload.next.value ≡ 4)
    × (rs'.payload.next.src1 ≡ 0)
    × (rs'.payload.next.value1 ≢ 4)
jalr_link-captured_example =
    jalr_link-captured station (record no_rs_payload { src1 = 1 }) (record { rob = 1; result = 8 })
      jump 4 refl refl refl refl refl (omega arith)
