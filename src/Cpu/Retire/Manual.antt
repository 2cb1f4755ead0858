-- ===== src/Cpu/Retire/Manual.antt =====
-- The way of an instruction of each kind from its dispatch to its commit, against the RV32I manual.
use fakerv32i.Base.{ℕ, ◌%◌, ◌^◌, ◌≡◌, refl, ap, arith, done}
use native.Mathlib.Nat.{add_comm}
use fakerv32i.Rvmath.{signed_add}
use fakerv32i.AluOps.{alu_execute}
use fakerv32i.AluOps.Meaning.{alu_execute-arith, alu_execute-compare}
use fakerv32i.Isa.{
  Arith, Compare, Width, Instr, load, store, op_imm, op_reg, lui, auipc, branch, jalr, jal,
  extended,
}
use fakerv32i.Isa.Encoding.{encode, IsEncodable}
use fakerv32i.Inst.{Inst, inst_decode}
use fakerv32i.Inst.RoundTrip.{Decodes, IsDecodable, inst_decode-encode}
use fakerv32i.Inst.Classes.{classify, inst_alu_op-reg, inst_alu_op-branch}
use fakerv32i.Memory.Access.{IsBytes, mem_get_sz_lem, mem_set_sz_lem}
use fakerv32i.FakeCpu.Machine.{Machine, reg, plus, address, execute}
use fakerv32i.FakeCpu.Step.{IsRunnable, execute-imm, clear_low_bit_lem}
use fakerv32i.Reservation.{RsPayload, rs_calc_addr}
use fakerv32i.Reservation.Issue.{store_addr, store_value}
use fakerv32i.ReorderBuffer.{RobPayload, rob_addr, rob_is_mispredicted, take_result}
use fakerv32i.InstUnit.Dispatch.{
  Sources, dispatch_base, dispatch_switch, dispatch_i, dispatch_u, dispatch_operands, dispatch_j,
  dispatch_b, has_dest,
}
use fakerv32i.Cpu.Jumps.{resolved}
use fakerv32i.Cpu.Retire.{went_on, committed, retired, worked, arrived, Readable, life}

plus_comm : (a b : ℕ) → plus a b ≡ plus b a
plus_comm a b = ap (λ n. n % 2 ^ 32) (add_comm a b)

module _ (result : ℕ → ℕ) where
  module _ (unit : Sources) (m : Machine) (readable : Readable result unit m) (rs_id rob_id : ℕ)
      (rob : RobPayload) (rs : RsPayload) where
    -- What is proved of each kind of instruction.
    abbrev Retires : Instr → Inst → Type 0
    Retires x d =
        IsEncodable x
        → IsRunnable x m
        → IsBytes m.mem
        → Decodes x d
        → life result unit d rs_id rob_id rob rs m ≡ done (execute x m)

    retire-op_reg : (op : Arith) (rd rs1 rs2 : ℕ) (d : Inst) → Retires (op_reg op rd rs1 rs2) d
    unfolding life dispatch_switch dispatch_operands dispatch_base worked take_result retired
        committed went_on arrived execute has_dest
    retire-op_reg op rd rs1 rs2 d e run bytes dec =
        let (o1, read1, v1) = readable.operand rs1 e.1 in
        let (o2, read2, v2) = readable.operand rs2 e.2 in
        let c = classify (op_reg op rd rs1 rs2) d e dec in
        simp
          (
            c.0,
            c.1,
            inst_alu_op-reg op d dec.2 dec.1,
            dec.0,
            dec.3,
            dec.4,
            dec.5,
            read1,
            read2,
            v1,
            v2,
            alu_execute-arith op (reg m rs1) (reg m rs2) run.0 run.1,
          )
          refl

    retire-op_imm :
        (op : Arith) (rd rs1 imm : ℕ) (d : Inst)
        → IsDecodable (op_imm op rd rs1 imm)
        → Retires (op_imm op rd rs1 imm) d
    unfolding life dispatch_switch dispatch_i dispatch_base worked take_result retired committed
        went_on arrived execute has_dest
    retire-op_imm op rd rs1 imm d k e run bytes dec =
        let (o1, read1, v1) = readable.operand rs1 e.1 in
        let c = classify (op_imm op rd rs1 imm) d e dec in
        let x = execute-imm op rd rs1 imm (reg m rs1) d e k dec in
        simp (c.0, c.1, dec.0, dec.1, dec.3, dec.4, read1, v1, x) refl

    retire-load : (w : Width) (rd rs1 imm : ℕ) (d : Inst) → Retires (load w rd rs1 imm) d
    unfolding life dispatch_switch dispatch_i dispatch_base worked take_result retired committed
        went_on arrived execute has_dest rs_calc_addr
    retire-load w rd rs1 imm d e run bytes dec =
        let (o1, read1, v1) = readable.operand rs1 e.1 in
        let c = classify (load w rd rs1 imm) d e dec in
        simp (c.0, c.1, c.2, dec.0, dec.1, dec.3, dec.4, dec.5, read1, v1)
          (rw
            (
              plus_comm (extended 12 imm) (reg m rs1),
              mem_get_sz_lem w m.mem (address m rs1 imm) bytes run,
            )
            refl)

    retire-lui : (rd imm : ℕ) (d : Inst) → Retires (lui rd imm) d
    unfolding life dispatch_switch dispatch_u dispatch_base worked take_result retired committed
        went_on arrived execute has_dest alu_execute
    retire-lui rd imm d e run bytes dec =
        let c = classify (lui rd imm) d e dec in
        simp (c.0, c.1, dec.0, dec.2, dec.3, dec.4) (ground arith)

    retire-auipc : (rd imm : ℕ) (d : Inst) → Retires (auipc rd imm) d
    unfolding life dispatch_switch dispatch_u dispatch_base worked take_result retired committed
        went_on arrived execute has_dest alu_execute signed_add
    retire-auipc rd imm d e run bytes dec =
        let c = classify (auipc rd imm) d e dec in
        simp (c.0, c.1, dec.0, dec.2, dec.3, dec.4) (ground arith)

    retire-jal : (rd imm : ℕ) (d : Inst) → Retires (jal rd imm) d
    unfolding life dispatch_switch dispatch_j dispatch_base worked take_result retired committed
        went_on arrived execute has_dest alu_execute signed_add
    retire-jal rd imm d e run bytes dec =
        let c = classify (jal rd imm) d e dec in
        simp (c.0, c.1, dec.0, dec.2, dec.3, dec.4) (ground arith)

    retire-store : (w : Width) (rs1 rs2 imm : ℕ) (d : Inst) → Retires (store w rs1 rs2 imm) d
    unfolding life dispatch_switch dispatch_operands dispatch_base worked take_result retired
        committed went_on arrived execute has_dest rs_calc_addr store_addr store_value
    retire-store w rs1 rs2 imm d e run bytes dec =
        let (o1, read1, v1) = readable.operand rs1 e.0 in
        let (o2, read2, v2) = readable.operand rs2 e.1 in
        let c = classify (store w rs1 rs2 imm) d e dec in
        simp (c.0, c.1, c.2, dec.0, dec.3, dec.4, dec.5, read1, read2, v1, v2)
          (rw
            (
              plus_comm (extended 12 imm) (reg m rs1),
              mem_set_sz_lem w m.mem (address m rs1 imm) (reg m rs2) e.3 run,
            )
            refl)

    retire-jalr : (rd rs1 imm : ℕ) (d : Inst) → Retires (jalr rd rs1 imm) d
    unfolding life dispatch_switch dispatch_i dispatch_base worked take_result retired committed
        went_on arrived execute has_dest alu_execute signed_add resolved rob_is_mispredicted
        rob_addr
    retire-jalr rd rs1 imm d e run bytes dec =
        let (o1, read1, v1) = readable.operand rs1 e.1 in
        let (curr, based) = readable.base rs1 e.1 in
        let c = classify (jalr rd rs1 imm) d e dec in
        simp (c.0, c.1, dec.0, dec.1, dec.2, dec.3, dec.4, dec.5, read1, based, v1)
          (ground (arith, clear_low_bit_lem (plus (reg m rs1) (extended 12 imm))))

    retire-branch : (k : Compare) (rs1 rs2 imm : ℕ) (d : Inst) → Retires (branch k rs1 rs2 imm) d
    unfolding life dispatch_switch dispatch_b dispatch_operands dispatch_base worked take_result
        retired committed went_on arrived execute has_dest signed_add resolved rob_is_mispredicted
        rob_addr
    retire-branch k rs1 rs2 imm d e run bytes dec =
        let (o1, read1, v1) = readable.operand rs1 e.0 in
        let (o2, read2, v2) = readable.operand rs2 e.1 in
        let (p, predicts) = readable.predicted in
        let c = classify (branch k rs1 rs2 imm) d e dec in
        simp
          (
            c.0,
            c.1,
            inst_alu_op-branch k d dec.2 dec.1,
            dec.0,
            dec.3,
            dec.4,
            dec.5,
            read1,
            read2,
            predicts,
            v1,
            v2,
            alu_execute-compare k (reg m rs1) (reg m rs2),
          )
          (ground arith)

    retire-inst : (x : Instr) (d : Inst) → IsDecodable x → Retires x d
    retire-inst (load w rd rs1 imm) d k = retire-load w rd rs1 imm d
    retire-inst (store w rs1 rs2 imm) d k = retire-store w rs1 rs2 imm d
    retire-inst (op_imm op rd rs1 imm) d k = retire-op_imm op rd rs1 imm d k
    retire-inst (op_reg op rd rs1 rs2) d k = retire-op_reg op rd rs1 rs2 d
    retire-inst (lui rd imm) d k = retire-lui rd imm d
    retire-inst (auipc rd imm) d k = retire-auipc rd imm d
    retire-inst (branch c rs1 rs2 imm) d k = retire-branch c rs1 rs2 imm d
    retire-inst (jalr rd rs1 imm) d k = retire-jalr rd rs1 imm d
    retire-inst (jal rd imm) d k = retire-jal rd imm d

  -- If the dispatch finds operands that stand for the registers of a machine, the way of an encodable,
  -- decodable and runnable instruction from its dispatch to its commit has exactly the effect of the
  -- manual on registers, memory and program counter, whatever was predicted and whatever its station and
  -- its entry held before.
  pub life-execute :
      (unit : Sources) (m : Machine) (x : Instr) (rs_id rob_id : ℕ) (rob : RobPayload)
      (rs : RsPayload)
      → Readable result unit m
      → IsEncodable x
      → IsDecodable x
      → IsRunnable x m
      → IsBytes m.mem
      → life result unit (inst_decode (encode x)) rs_id rob_id rob rs m ≡ done (execute x m)
  life-execute unit m x rs_id rob_id rob rs readable e k run bytes =
      retire-inst unit m readable rs_id rob_id rob rs x (inst_decode (encode x)) k e run bytes
        (inst_decode-encode x e k)
