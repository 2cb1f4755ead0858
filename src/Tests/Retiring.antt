-- ===== src/Tests/Retiring.antt =====
-- Instances for the way of an instruction through the pipeline and for the invariant of its runs.
use fakerv32i.Base.{
  ℕ, zero, suc, ◌<◌, ◌≡◌, refl, arith, true, false, [], ◌∷◌, replicate, get_elem?, some, done,
}
use fakerv32i.Isa.{Instr, add, op_imm}
use fakerv32i.Isa.Encoding.{encode}
use fakerv32i.Inst.{inst_decode}
use fakerv32i.Reg.{reg_mut_read}
use fakerv32i.Reg.Cycle.{settled}
use fakerv32i.Bus.{bus_get_data}
use fakerv32i.Bus.Delivery.{between}
use fakerv32i.FakeCpu.Machine.{Machine, execute, reg}
use fakerv32i.Predictor.{bp_create, bp_hash, branch_predict, state_at}
use fakerv32i.Queue.{queue_id}
use fakerv32i.Queue.Cycle.{ring}
use fakerv32i.RegStore.{Slot, never, reg_store_get, reg_store_rob_id_get}
use fakerv32i.RegStore.Rename.{at_rest}
use fakerv32i.Memory.Pending.{no_message}
use fakerv32i.ReorderBuffer.{Entry, entry_of, id_at, no_rob_payload, rob_unit_find}
use fakerv32i.InstUnit.Dispatch.{Operand, Sources, from_bus, from_entry, inst_reg_set, jalr_base}
use fakerv32i.InstUnit.Dispatch.Operands.{denotes}
use fakerv32i.Cpu.{no_rs_payload}
use fakerv32i.Cpu.Retire.{Readable, life}
use fakerv32i.Cpu.Retire.Manual.{life-execute}

-- Register 1 waits for the entry 1, which is not ready and will have the result 9.
abbrev pub pending : Entry
pending = record { ready = settled false; payload = settled no_rob_payload }

abbrev pub zero_slot : Slot
zero_slot = at_rest 0 0 0 never

abbrev pub sources : Sources
sources = record {
  reg_store = record {
    slots = zero_slot ∷ at_rest 5 1 0 never ∷ replicate 30 zero_slot;
    clear = settled false;
  };
  rob = record { robs = ring 2 (1 ∷ 2 ∷ []) 0 1; entries = pending ∷ []; commit_count = 0 };
  cdb = between no_message [] 0 false (settled no_message);
  branch_predictor = bp_create 5;
}

abbrev pub nine : ℕ → ℕ
nine id = 9

abbrev pub machine : Machine
machine = record {
  mem = λ a. 0;
  regs = λ r. elim r [ zero ↦ 0 | suc zero ↦ 9 | suc (suc r) ↦ 0 ];
  pc = 64;
}

get_elem?-replicate : {A : Type 0} (n i : ℕ) (a : A) → i < n → get_elem? (replicate n a) i ≡ some a
get_elem?-replicate zero i a h = absurd (omega arith)
get_elem?-replicate (suc n) zero a h = refl
get_elem?-replicate (suc n) (suc i) a h = get_elem?-replicate n i a (omega arith)

read_register :
    (r : ℕ)
    → r < 32
    → (o : Operand) × (inst_reg_set sources r ≡ done o)
      × (denotes nine o.src o.value ≡ reg machine r)
unfolding inst_reg_set from_bus bus_get_data reg_store_rob_id_get reg_store_get reg_mut_read
    from_entry rob_unit_find id_at entry_of queue_id
read_register zero h = (record { src = 0; value = 0 }, refl, refl)
read_register (suc zero) h = (record { src = 1; value = 0 }, refl, refl)
read_register (suc (suc r)) h = (
  record { src = 0; value = 0 },
  ground (arith, get_elem?-replicate 30 r zero_slot (omega arith)),
  ground arith,
)

base_register : (r : ℕ) → r < 32 → (curr : ℕ) × (jalr_base sources r ≡ done curr)
unfolding jalr_base reg_store_rob_id_get reg_store_get reg_mut_read rob_unit_find id_at entry_of
    queue_id
base_register zero h = (0, refl)
base_register (suc zero) h = (5, refl)
base_register (suc (suc r)) h =
    (0, ground (arith, get_elem?-replicate 30 r zero_slot (omega arith)))

pub machine-Readable : Readable nine sources machine
unfolding branch_predict state_at bp_hash bp_create
machine-Readable = record {
  operand = read_register;
  base = base_register;
  predicted = (record { take = true; hist = 5 }, refl);
}

-- addi x2, x1, 3
abbrev pub addi : Instr
addi = op_imm add 2 1 3

life-execute_example :
    life nine sources (inst_decode (encode addi)) 1 2 no_rob_payload no_rs_payload machine
    ≡ done (execute addi machine)
unfolding encode
life-execute_example =
    life-execute nine sources machine addi 1 2 no_rob_payload no_rs_payload machine-Readable
      (omega arith) (omega arith) tt (λ a. omega arith)
