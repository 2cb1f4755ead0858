-- ===== src/Cpu/Retire.antt =====
-- The way of one instruction through the pipeline: what the dispatch writes, what the units make of it
-- once its operands have come, and what the commit writes.
pub mod Effects
pub mod Stores
pub mod Whole
pub mod Manual
use fakerv32i.Base.{
  ℕ, ◌%◌, ◌^◌, ◌<◌, ◌≡◌, refl, ap, arith, Option, none, some, Outcome, done, ◌>>=◌,
}
use native.Mathlib.Nat.{add_comm}
use fakerv32i.Rvmath.{signed_add}
use fakerv32i.AluOps.{alu_execute}
use fakerv32i.AluOps.Meaning.{alu_execute-arith, alu_execute-compare}
use fakerv32i.Isa.{
  Arith, Compare, Width, Instr, load, store, op_imm, op_reg, lui, auipc, branch, jalr, jal,
  extended,
}
use fakerv32i.Isa.Encoding.{encode, IsEncodable}
use fakerv32i.Inst.{Inst, inst_decode, inst_type}
use fakerv32i.Inst.RoundTrip.{Decodes, IsDecodable, inst_decode-encode}
use fakerv32i.Inst.Classes.{classify, inst_alu_op-reg, inst_alu_op-branch}
use fakerv32i.Rv32i.{RsType, reservation_station, load_buffer, store_buffer, RobOp}
use fakerv32i.Memory.{mem_get_sz, mem_set_sz}
use fakerv32i.Memory.Access.{IsBytes, mem_get_sz_lem, mem_set_sz_lem}
use fakerv32i.FakeCpu.Machine.{Machine, reg, write_reg, plus, address, execute}
use fakerv32i.FakeCpu.Step.{IsRunnable, execute-imm, clear_low_bit_lem}
use fakerv32i.Predictor.{BpResult, branch_predict}
use fakerv32i.Reservation.{RsPayload, rs_calc_addr}
use fakerv32i.Reservation.Issue.{store_addr, store_value}
use fakerv32i.ReorderBuffer.{RobPayload, rob_addr, rob_is_mispredicted, take_result}
use fakerv32i.InstUnit.Dispatch.{
  Sources, Operand, inst_reg_set, jalr_base, dispatch_base, dispatch_switch, dispatch_i, dispatch_u,
  dispatch_operands, dispatch_j, dispatch_b, has_dest,
}
use fakerv32i.InstUnit.Dispatch.Operands.{denotes}
use fakerv32i.Cpu.Jumps.{resolved}

-- Where the fetch goes on after an entry: only a jump can find that the dispatch chose wrongly.
pub went_on : RobPayload → ℕ → Outcome ℕ
went_on payload next_pc = elim payload.op [
  | RobOp.branch ↦ resolved payload next_pc
  | RobOp.jalr ↦ resolved payload next_pc
  | RobOp.register ↦ done next_pc
  | RobOp.store ↦ done next_pc
  | RobOp.hcf ↦ done next_pc
]

-- The registers after the commit of a value to a destination, if there is one.
pub committed : (ℕ → ℕ) → Option ℕ → ℕ → ℕ → ℕ
committed regs none value = regs
committed regs (some rd) value = write_reg regs rd value

-- The commit of an entry that holds its result.
pub retired : RobPayload → ℕ → Machine → Outcome Machine
retired rob next_pc m = do
  pc' ← went_on rob next_pc
  done (record m { regs = committed m.regs rob.dest rob.value; pc = pc' })

-- What a station with all its operands makes of its entry, and the commit of that: a unit computes the
-- result, a load reads it, and a store hands its address and its value to the entry and writes memory.
pub worked : RsType → RsPayload → RobPayload → ℕ → Machine → Outcome Machine
worked reservation_station rs rob next_pc m = do
  result ← alu_execute rs.op_alu rs.value1 rs.value2
  retired (take_result (record { rob = rs.dest; result = result }) rob) next_pc m
worked load_buffer rs rob next_pc m = do
  result ← mem_get_sz m.mem (rs_calc_addr rs) rs.op_ls
  retired (take_result (record { rob = rs.dest; result = result }) rob) next_pc m
worked store_buffer rs rob next_pc m =
    let new = store_value rs (store_addr rs rob) in
    do
      mem' ← mem_set_sz m.mem new.addr new.value new.size
      m' ← retired new next_pc m
      done (record m' { mem = mem' })

module _ (result : ℕ → ℕ) where
  -- The station once the operands that it waits for have come.
  unfoldable pub arrived : RsPayload → RsPayload
  arrived rs = record rs {
    src1 = 0;
    value1 = denotes result rs.src1 rs.value1;
    src2 = 0;
    value2 = denotes result rs.src2 rs.value2;
  }

  -- The dispatch finds an operand for every register that stands for what the register holds when all
  -- older instructions have committed, some value to predict a target from, and a prediction.
  pub record Readable (unit : Sources) (m : Machine) : Type 0 where
    pub operand :
        (r : ℕ)
        → r < 32
        → (o : Operand) × (inst_reg_set unit r ≡ done o) × (denotes result o.src o.value ≡ reg m r)
    pub base : (r : ℕ) → r < 32 → (curr : ℕ) × (jalr_base unit r ≡ done curr)
    pub predicted : (p : BpResult) × (branch_predict unit.branch_predictor m.pc ≡ done p)

  -- From the dispatch to the commit, for an entry and a station whose payloads hold anything.
  pub life : Sources → Inst → ℕ → ℕ → RobPayload → RsPayload → Machine → Outcome Machine
  life unit inst rs_id rob_id rob rs m = do
    d ← dispatch_switch unit inst m.pc (dispatch_base inst m.pc rs_id rob_id rob rs) inst.format
    worked (inst_type inst) (arrived d.rs_data) d.rob_data d.next_pc m
