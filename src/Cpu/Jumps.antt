-- ===== src/Cpu/Jumps.antt =====
-- Speculation: where the pipeline goes on after a jump, against the sequential processor.
use fakerv32i.Base.{
  ℕ, ◌%◌, ◌^◌, ◌≡◌, refl, ap, arith, Bool, ◌==◌, of_bool, if◌then◌else◌, Outcome, done, ◌>>=◌,
}
use native.Mathlib.Nat.{add_comm}
use fakerv32i.Word.{add_word}
use fakerv32i.Rvmath.{signed_add}
use fakerv32i.AluOps.{alu_execute}
use fakerv32i.Inst.{Inst, inst_alu_op}
use fakerv32i.Rv32i.Opcode
use fakerv32i.Rv32i.{branch, jalr}
use fakerv32i.Predictor.{BpResult, branch_predict}
use fakerv32i.Rv32i.AluOp
use fakerv32i.FakeCpu.{FakeCpu, clear_low_bit, cpu_get, cpu_set, tick_branch, tick_jalr}
use fakerv32i.ReorderBuffer.{RobPayload, even_addr, rob_addr, rob_is_mispredicted}
use fakerv32i.InstUnit.Dispatch.{
  Dispatched, Operand, Sources, dispatch_b, dispatch_i, dispatch_operands, inst_reg_set, jalr_base,
}

-- Where the fetch goes on for good: at the address that the dispatch chose, unless the commit finds a
-- misprediction and forces another one.
unfoldable pub resolved : RobPayload → ℕ → Outcome ℕ
resolved payload next_pc = do
  mispredicted ← rob_is_mispredicted payload
  addr ← rob_addr payload
  done (if mispredicted then addr else next_pc)

add_word_comm : (a b : ℕ) → add_word a b ≡ add_word b a
add_word_comm a b = ap (λ n. n % 2 ^ 32) (add_comm a b)

-- A branch, whatever was predicted: once its entry holds the truth of the comparison, the pipeline goes on
-- where the sequential processor goes on from the same registers and address.
pub branch_resolves :
    (unit : Sources) (inst : Inst) (pc : ℕ) (d : Dispatched) (o1 o2 : Operand) (p : BpResult)
    (cpu : FakeCpu) (v1 v2 : ℕ) (b : Bool)
    → inst_reg_set unit inst.rs1 ≡ done o1
    → inst_reg_set unit inst.rs2 ≡ done o2
    → branch_predict unit.branch_predictor pc ≡ done p
    → cpu.pc ≡ pc
    → cpu_get cpu inst.rs1 ≡ done v1
    → cpu_get cpu inst.rs2 ≡ done v2
    → alu_execute (inst_alu_op inst) v1 v2 ≡ done (of_bool b)
    → (d' : Dispatched) × (c : FakeCpu) × (dispatch_b unit inst pc d ≡ done d')
      × (tick_branch cpu inst d.next_pc ≡ done c)
      × (resolved (record d'.rob_data { op = branch; value = of_bool b }) d'.next_pc ≡ done c.pc)
unfolding dispatch_b dispatch_operands tick_branch resolved rob_is_mispredicted rob_addr signed_add
branch_resolves unit inst pc d o1 o2 p cpu v1 v2 b e1 e2 predicted at g1 g2 executed =
    let target = add_word pc inst.immediate in
    (
      (record {
        rob_data = record d.rob_data {
          predicted_take = p;
          fallback = if p.take then d.next_pc else target;
        };
        rs_data = record d.rs_data {
          src1 = o1.src;
          value1 = o1.value;
          src2 = o2.src;
          value2 = o2.value;
        };
        next_pc = if p.take then target else d.next_pc;
      }),
      (record cpu { pc = if of_bool b == 0 then d.next_pc else add_word inst.immediate cpu.pc }),
      rw (e1, e2, predicted) refl,
      rw (g1, g2, executed) refl,
      ground (arith, at, add_word_comm inst.immediate cpu.pc),
    )

-- A JALR, whatever its target was predicted from: its station adds the base and the offset, and once its
-- entry holds the sum, the pipeline goes on where the sequential processor goes on; the entry keeps the
-- address of the next instruction for the destination.
pub jalr_resolves :
    (unit : Sources) (inst : Inst) (curr base : ℕ) (d : Dispatched) (o : Operand)
    (cpu cpu' : FakeCpu)
    → inst.opcode ≡ Opcode.jalr
    → jalr_base unit inst.rs1 ≡ done curr
    → inst_reg_set unit inst.rs1 ≡ done o
    → cpu_get cpu inst.rs1 ≡ done base
    → cpu_set cpu inst.rd d.next_pc ≡ done cpu'
    → (d' : Dispatched) × (c : FakeCpu) × (sum : ℕ) × (dispatch_i unit inst d ≡ done d')
      × (tick_jalr cpu inst d.next_pc ≡ done c)
      × (alu_execute d'.rs_data.op_alu base d'.rs_data.value2 ≡ done sum)
      × (resolved (record d'.rob_data { op = jalr; addr = sum }) d'.next_pc ≡ done c.pc)
      × (d'.rob_data.value ≡ d.next_pc)
unfolding dispatch_i tick_jalr resolved rob_is_mispredicted rob_addr signed_add alu_execute
jalr_resolves unit inst curr base d o cpu cpu' is_jalr predicted e g set =
    let prediction = even_addr (add_word curr inst.immediate) in
    (
      (record {
        rob_data = record d.rob_data { predicted_addr = prediction; value = d.next_pc };
        rs_data = record d.rs_data {
          src1 = o.src;
          value1 = o.value;
          op_alu = AluOp.add;
          src2 = 0;
          value2 = inst.immediate;
        };
        next_pc = prediction;
      }),
      (record cpu' { pc = clear_low_bit (add_word inst.immediate base) }),
      add_word base inst.immediate,
      simp is_jalr (rw (predicted, e) refl),
      rw (g, set) refl,
      refl,
      ground (arith, add_word_comm inst.immediate base),
      refl,
    )
