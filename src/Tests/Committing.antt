-- ===== src/Tests/Committing.antt =====
-- An instance for the commit of one entry: a mispredicted JALR that writes register 1.
use fakerv32i.Base.{
  ℕ, zero, suc, ◌+◌, ◌%◌, ◌≡◌, refl, ap, arith, false, get_or, [], List, replicate, some, done,
}
use fakerv32i.Rv32i.{jalr}
use fakerv32i.Reg.{reg_mut_create}
use fakerv32i.Queue.{queue_create}
use fakerv32i.Predictor.{bp_create}
use fakerv32i.Predictor.Learning.{bp_create-garbage}
use fakerv32i.FakeCpu.Machine.{Machine}
use fakerv32i.RegStore.{Slot, reg_count, reg_store_create}
use fakerv32i.Bus.{bus_arb_add}
use fakerv32i.Bus.Helper.{bh_create}
use fakerv32i.Memory.Pending.{mem_create}
use fakerv32i.LsQueue.{ls_queue_create}
use fakerv32i.InstUnit.{inst_unit_create}
use fakerv32i.ReorderBuffer.{Entry, RobPayload, no_rob_payload}
use fakerv32i.Cpu.{Cpu, bus_create}
use fakerv32i.Cpu.Commit.{rob_commit}
use fakerv32i.Cpu.Retire.{retired}
use fakerv32i.Cpu.Retire.Stores.{Stored}
use fakerv32i.Cpu.Retire.Effects.{Holds, empty_slot, fetches_at}
use fakerv32i.Cpu.Retire.Effects.Entry.{IsRetiring, rob_commit-retired}

abbrev payload : RobPayload
payload = record no_rob_payload {
  op = jalr;
  value = 12;
  addr = 0x101;
  dest = some 1;
  pc = 8;
  predicted_addr = 0x200;
}

abbrev entry : Entry
entry = record { ready = reg_mut_create false; payload = reg_mut_create payload }

abbrev slot_list : List Slot
slot_list = replicate reg_count empty_slot

-- A new processor, but for the entry in its reorder buffer.
abbrev pub cpu : Cpu
cpu = record {
  clk = 0;
  cdb = (mem_create bus_create).1;
  branch_predictor = bp_create 5;
  inst_unit = inst_unit_create;
  alu = [];
  ls_queue = ls_queue_create;
  mem = (mem_create bus_create).0;
  reg_store = reg_store_create;
  rob = record {
    robs = record (queue_create 0 16) { tail = reg_mut_create 1 };
    entries = replicate 16 entry;
    commit_count = 0;
  };
  rs = record {
    alu_stations = [];
    load_buffers = [];
    store_buffers = [];
    clear = reg_mut_create false;
  };
  hcf = false;
}

abbrev machine : Machine
machine = record { mem = λ a. 0; regs = λ r. 0; pc = 8 }

pub get_or-replicate : (n r : ℕ) → get_or (replicate n empty_slot) r empty_slot ≡ empty_slot
get_or-replicate zero r = refl
get_or-replicate (suc n) zero = refl
get_or-replicate (suc n) (suc r) = get_or-replicate n r

pub cpu-IsRetiring : IsRetiring entry cpu
unfolding reg_mut_create reg_store_create queue_create inst_unit_create ls_queue_create mem_create
    bus_create bh_create bus_arb_add
cpu-IsRetiring = record {
  commits = record {
    unwritten = record {
      force_pc = refl;
      reg_store = refl;
      rob = refl;
      rs = refl;
      ls_queue = refl;
      cdb = refl;
      mem = refl;
    };
    unforced = refl;
    slots = refl;
    registers = λ r lt. ap (λ s. s.register.write_count) (get_or-replicate 32 r);
    target = (omega arith, λ e. cc);
    accepts = tt;
    predictor = (bp_create-garbage 5 0).0 (omega arith);
    history = omega arith;
  };
  requests = λ r lt. ap (λ s. s.rob_id_clear_if.write_count) (get_or-replicate 32 r);
  ready = refl;
  head = refl;
  inside = omega arith;
  used = omega arith;
}

cpu-Holds : Holds cpu.reg_store machine.regs
unfolding reg_store_create reg_mut_create
cpu-Holds r pos lt = ap (λ s. s.register.next) (get_or-replicate 32 r)

rob_commit-retired_example :
    (cpu' : Cpu) × (m' : Machine) × (rob_commit 1 entry cpu ≡ done cpu')
    × (retired payload 0x200 machine ≡ done m')
    × Holds cpu'.reg_store m'.regs
    × (fetches_at cpu'.inst_unit 0x200 ≡ m'.pc)
    × Stored jalr payload cpu.ls_queue.queue cpu'.ls_queue.queue
    × (cpu'.rob.robs.head.next ≡ (cpu.rob.robs.head.buf + 1) % cpu.rob.robs.capacity)
unfolding reg_mut_create
rob_commit-retired_example =
    rob_commit-retired 1 entry 0x200 cpu machine tt cpu-IsRetiring cpu-Holds
