-- ===== src/InstUnit/Dispatch.antt =====
-- inst-dispatch.c: how a decoded instruction gets its station, its entry and its operands.
pub mod Operands
pub mod Kept
use fakerv32i.Base.{
  ℕ, zero, suc, ◌+◌, Bool, true, false, not, ◌&&◌, ◌||◌, ◌==◌, ltb, if◌then◌else◌, bit_and, Option,
  none, some, Outcome, done, fault, assertion, ◌>>=◌,
}
use fakerv32i.Word.{add_word}
use fakerv32i.Rvmath.{signed_add}
use fakerv32i.Rv32i.AluOp
use fakerv32i.Rv32i.Opcode
use fakerv32i.Rv32i.InstOp
use fakerv32i.Inst.{Inst, Format, i, u, r, j, b, s, unimp, inst_rob_op, inst_alu_op, inst_ls_op}
use fakerv32i.Reg.{reg_mut_read, reg_mut_write}
use fakerv32i.Bus.{Bus, bus_get_data}
use fakerv32i.Predictor.{BranchPredictor, branch_predict}
use fakerv32i.RegStore.{RegStore, reg_store_get, reg_store_rob_id_get, reg_store_rob_id_set}
use fakerv32i.Reservation.{CdbMessage, RsPayload, Station}
use fakerv32i.ReorderBuffer.{RobPayload, Entry, RobUnit, even_addr, entry_of, rob_unit_find}

-- The components that a dispatch reads.
pub record Sources : Type 0 where
  pub reg_store : RegStore
  pub rob : RobUnit
  pub cdb : Bus CdbMessage
  pub branch_predictor : BranchPredictor

-- What `_inst_reg_set` writes: `src` and `value`.
pub record Operand : Type 0 where
  pub src : ℕ
  pub value : ℕ

-- The last branches of `_inst_reg_set`: a result that is on the bus in this cycle, or none.
unfoldable pub from_bus : ℕ → Option CdbMessage → Operand
from_bus rob_id none = record { src = rob_id; value = 0 }
from_bus rob_id (some msg) =
    if msg.rob == rob_id
    then record { src = 0; value = msg.result }
    else record { src = rob_id; value = 0 }

-- The branches for a register that waits for an entry.
unfoldable pub from_entry : Sources → ℕ → Outcome Operand
unfolding reg_mut_read
from_entry unit rob_id = do
  id ← rob_unit_find unit.rob rob_id
  entry ← entry_of unit.rob id
  if reg_mut_read entry.ready
      then done (record { src = 0; value = (reg_mut_read entry.payload).value })
      else done (from_bus rob_id (bus_get_data unit.cdb))

-- `_inst_reg_set`.
unfoldable pub inst_reg_set : Sources → ℕ → Outcome Operand
inst_reg_set unit id = if id == 0 then done (record { src = 0; value = 0 }) else do
  rob_id ← reg_store_rob_id_get unit.reg_store id
  if rob_id == 0
      then (do value ← reg_store_get unit.reg_store id; done (record { src = 0; value = value }))
      else from_entry unit rob_id

-- The value of the register that `inst_dispatch` predicts the target of a JALR from.
unfoldable pub jalr_base : Sources → ℕ → Outcome ℕ
unfolding reg_mut_read
jalr_base unit rs1 = do
  curr ← reg_store_get unit.reg_store rs1
  rob_id ← reg_store_rob_id_get unit.reg_store rs1
  if ltb 0 rob_id
      then (do
        id ← rob_unit_find unit.rob rob_id
        entry ← entry_of unit.rob id
        if reg_mut_read entry.ready then done (reg_mut_read entry.payload).value else done curr)
      else done curr

-- The two payloads that `inst_dispatch` fills in and the address that it returns.
pub record Dispatched : Type 0 where
  pub rob_data : RobPayload
  pub rs_data : RsPayload
  pub next_pc : ℕ

abbrev pub inst_size : ℕ
inst_size = 4

abbrev with_first : RsPayload → Operand → RsPayload
with_first rs o = record rs { src1 = o.src; value1 = o.value }

abbrev with_second : RsPayload → Operand → RsPayload
with_second rs o = record rs { src2 = o.src; value2 = o.value }

-- The branch for IF_I.
unfoldable pub dispatch_i : Sources → Inst → Dispatched → Outcome Dispatched
dispatch_i unit inst d =
    if inst.opcode == Opcode.load
    then (do
      first ← inst_reg_set unit inst.rs1
      done (record d { rs_data = record (with_first d.rs_data first) { addr = inst.immediate } }))
    else if inst.opcode == Opcode.jalr
    then (do
      curr ← jalr_base unit inst.rs1
      let prediction = even_addr (signed_add curr inst.immediate)
      first ← inst_reg_set unit inst.rs1
      done (record {
        rob_data = record d.rob_data { predicted_addr = prediction; value = d.next_pc };
        rs_data = record (with_first d.rs_data first) {
          op_alu = AluOp.add;
          src2 = 0;
          value2 = inst.immediate;
        };
        next_pc = prediction;
      }))
    else if (inst.opcode == Opcode.imm) || (inst.op == InstOp.hcf)
    then (do
      first ← inst_reg_set unit inst.rs1
      done (record d {
        rs_data = record (with_first d.rs_data first) { src2 = 0; value2 = inst.immediate };
      }))
    else fault assertion

-- The branch for IF_U.
unfoldable pub dispatch_u : Inst → ℕ → Dispatched → Outcome Dispatched
dispatch_u inst pc d =
    let rs = record d.rs_data { op_alu = AluOp.add; src1 = 0; src2 = 0; value2 = 0 } in
    if inst.op == Opcode.lui
    then done (record d { rs_data = record rs { value1 = inst.immediate } })
    else if inst.op == Opcode.auipc
    then done (record d { rs_data = record rs { value1 = signed_add pc inst.immediate } })
    else fault assertion

-- The two operands of the branches for IF_R, IF_B and IF_S.
unfoldable pub dispatch_operands : Sources → Inst → Dispatched → Outcome Dispatched
dispatch_operands unit inst d = do
  first ← inst_reg_set unit inst.rs1
  second ← inst_reg_set unit inst.rs2
  done (record d { rs_data = with_second (with_first d.rs_data first) second })

-- The branch for IF_J.
unfoldable pub dispatch_j : Inst → ℕ → Dispatched → Outcome Dispatched
dispatch_j inst pc d =
    if inst.op == InstOp.jal
    then done (record d {
      rs_data = record d.rs_data {
        op_alu = AluOp.add;
        src1 = 0;
        src2 = 0;
        value1 = d.next_pc;
        value2 = 0;
      };
      next_pc = signed_add pc inst.immediate;
    })
    else fault assertion

-- The branch for IF_B.
unfoldable pub dispatch_b : Sources → Inst → ℕ → Dispatched → Outcome Dispatched
dispatch_b unit inst pc d = do
  d' ← dispatch_operands unit inst d
  let jump_target = signed_add pc inst.immediate
  predicted ← branch_predict unit.branch_predictor pc
  done (record d' {
    rob_data = record d'.rob_data {
      predicted_take = predicted;
      fallback = if predicted.take then d'.next_pc else jump_target;
    };
    next_pc = if predicted.take then jump_target else d'.next_pc;
  })

-- The `switch` on the format.
unfoldable pub dispatch_switch : Sources → Inst → ℕ → Dispatched → Format → Outcome Dispatched
dispatch_switch unit inst pc d i = dispatch_i unit inst d
dispatch_switch unit inst pc d u = dispatch_u inst pc d
dispatch_switch unit inst pc d r = dispatch_operands unit inst d
dispatch_switch unit inst pc d j = dispatch_j inst pc d
dispatch_switch unit inst pc d b = dispatch_b unit inst pc d
dispatch_switch unit inst pc d s =
    dispatch_operands unit inst (record d { rs_data = record d.rs_data { addr = inst.immediate } })
dispatch_switch unit inst pc d unimp = fault assertion

-- Whether the instruction writes a register: all formats but S and B.
unfoldable pub has_dest : Format → Bool
has_dest s = false
has_dest b = false
has_dest _ = true

-- The fields that are filled in before the `switch`.
unfoldable pub dispatch_base : Inst → ℕ → ℕ → ℕ → RobPayload → RsPayload → Dispatched
dispatch_base inst pc rs_id rob_id rob rs = record {
  rob_data = record rob {
    op = inst_rob_op inst;
    addr_ready = false;
    value_ready = false;
    rs = rs_id;
    size = inst_ls_op inst;
    pc = pc;
    dest = if has_dest inst.format then some inst.rd else none;
  };
  rs_data = record rs { dest = rob_id; op_alu = inst_alu_op inst; op_ls = inst_ls_op inst };
  next_pc = add_word pc inst_size;
}

-- What a dispatch leaves behind: the register store, the station, the entry, and the next address.
pub record DispatchResult : Type 0 where
  pub reg_store : RegStore
  pub station : Station
  pub entry : Entry
  pub next_pc : ℕ

-- `inst_dispatch`, for the station and the entry with its id. Both payloads start from what their
-- registers hold for the next cycle.
unfoldable pub inst_dispatch : Sources → Station → ℕ → Entry → Inst → ℕ → Outcome DispatchResult
unfolding reg_mut_write
inst_dispatch unit rs rob_id entry inst pc = do
  busy' ← reg_mut_write rs.busy (λ _. true)
  ready' ← reg_mut_write entry.ready (λ _. false)
  reg_store' ←
      (if has_dest inst.format
        then reg_store_rob_id_set unit.reg_store inst.rd rob_id
        else done unit.reg_store)
  d ←
      dispatch_switch (record unit { reg_store = reg_store' }) inst pc
        (dispatch_base inst pc rs.id rob_id entry.payload.next rs.payload.next) inst.format
  rob_payload' ← reg_mut_write entry.payload (λ _. d.rob_data)
  rs_payload' ← reg_mut_write rs.payload (λ _. d.rs_data)
  done (record {
    reg_store = reg_store';
    station = record rs { busy = busy'; payload = rs_payload' };
    entry = record { ready = ready'; payload = rob_payload' };
    next_pc = d.next_pc;
  })
