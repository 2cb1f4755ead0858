-- ===== src/Inst/Classes.antt =====
-- What the pipeline reads off a decoded operation: the unit's operation, the kind of station and the
-- kind of reorder-buffer entry.
use fakerv32i.Base.{ℕ, ◌≡◌, ◌≢◌, refl}
use fakerv32i.AluOps.Meaning.{alu_code, branch_code}
use fakerv32i.Isa.{
  Arith, add, sub, sra, Compare, eq, Width, byte, byte_unsigned, half_unsigned, Instr, load, store,
  op_imm, op_reg, lui, auipc, branch, jalr, jal,
}
use fakerv32i.Isa.Encoding.{encode, IsEncodable, IsStored, width_funct3}
use fakerv32i.Rv32i.{RsType, reservation_station, load_buffer, store_buffer, RobOp}
use fakerv32i.Rv32i.Opcode
use fakerv32i.Inst.{Inst, inst_decode, inst_alu_op, inst_type, inst_rob_op, inst_ls_op}
use fakerv32i.Inst.RoundTrip.{
  load_op, store_op, imm_op, reg_op, branch_op, IsDecodable, Decodes, inst_decode-encode,
}

pub inst_alu_op-imm :
    (op : Arith) (d : Inst)
    → op ≢ sra
    → op ≢ sub
    → d.op ≡ imm_op op
    → d.opcode ≡ Opcode.imm
    → inst_alu_op d ≡ alu_code op
unfolding inst_alu_op
inst_alu_op-imm sub d hs hs' e f = absurd (hs' refl)
inst_alu_op-imm sra d hs hs' e f = absurd (hs refl)
inst_alu_op-imm op d hs hs' e f = rw (e, f) refl

pub inst_alu_op-reg :
    (op : Arith) (d : Inst) → d.op ≡ reg_op op → d.opcode ≡ Opcode.op → inst_alu_op d ≡ alu_code op
unfolding inst_alu_op
inst_alu_op-reg add d e f = rw (e, f) refl
inst_alu_op-reg op d e f = rw (e, f) refl

pub inst_alu_op-branch :
    (c : Compare) (d : Inst)
    → d.op ≡ branch_op c
    → d.opcode ≡ Opcode.branch
    → inst_alu_op d ≡ branch_code c
unfolding inst_alu_op
inst_alu_op-branch eq d e f = rw (e, f) refl
inst_alu_op-branch c d e f = rw (e, f) refl

-- The station and the reorder-buffer entry that an instruction is meant to get.
abbrev pub station_of : Instr → RsType
station_of (load w rd rs1 imm) = load_buffer
station_of (store w rs1 rs2 imm) = store_buffer
station_of x = reservation_station

abbrev pub entry_of : Instr → RobOp
entry_of (store w rs1 rs2 imm) = RobOp.store
entry_of (branch c rs1 rs2 imm) = RobOp.branch
entry_of (jalr rd rs1 imm) = RobOp.jalr
entry_of x = RobOp.register

-- The size that the load and store units take from the operation.
abbrev pub SizeOf : Instr → ℕ → Type 0
SizeOf (load w rd rs1 imm) size = size ≡ width_funct3 w
SizeOf (store w rs1 rs2 imm) size = size ≡ width_funct3 w
SizeOf x size = Unit {0}

abbrev pub IsClassified : Instr → Inst → Type 0
IsClassified x d =
    (inst_type d ≡ station_of x) × (inst_rob_op d ≡ entry_of x) × SizeOf x (inst_ls_op d)

class-load :
    (w : Width) (d : Inst)
    → d.op ≡ load_op w
    → (inst_type d ≡ load_buffer)
      × (inst_rob_op d ≡ RobOp.register)
      × (inst_ls_op d ≡ width_funct3 w)
unfolding inst_type inst_rob_op inst_ls_op
class-load byte d e = rw e (refl, refl, refl)
class-load w d e = rw e (refl, refl, refl)

class-store :
    (w : Width) (d : Inst)
    → IsStored w
    → d.op ≡ store_op w
    → (inst_type d ≡ store_buffer) × (inst_rob_op d ≡ RobOp.store) × (inst_ls_op d ≡ width_funct3 w)
unfolding inst_type inst_rob_op inst_ls_op
class-store byte_unsigned d h e = absurd h
class-store half_unsigned d h e = absurd h
class-store w d h e = rw e (refl, refl, refl)

class-imm :
    (op : Arith) (d : Inst)
    → op ≢ sub
    → d.op ≡ imm_op op
    → (inst_type d ≡ reservation_station) × (inst_rob_op d ≡ RobOp.register)
unfolding inst_type inst_rob_op
class-imm sub d h e = absurd (h refl)
class-imm op d h e = rw e (refl, refl)

class-reg :
    (op : Arith) (d : Inst)
    → d.op ≡ reg_op op
    → (inst_type d ≡ reservation_station) × (inst_rob_op d ≡ RobOp.register)
unfolding inst_type inst_rob_op
class-reg add d e = rw e (refl, refl)
class-reg op d e = rw e (refl, refl)

class-branch :
    (c : Compare) (d : Inst)
    → d.op ≡ branch_op c
    → (inst_type d ≡ reservation_station) × (inst_rob_op d ≡ RobOp.branch)
unfolding inst_type inst_rob_op
class-branch eq d e = rw e (refl, refl)
class-branch c d e = rw e (refl, refl)

pub classify : (x : Instr) (d : Inst) → IsEncodable x → Decodes x d → IsClassified x d
unfolding inst_type inst_rob_op
classify (load w rd rs1 imm) d e dec = class-load w d dec.2
classify (store w rs1 rs2 imm) d e dec = class-store w d e.3 dec.2
classify (op_imm sub rd rs1 imm) d e dec = absurd e.2
classify (op_imm op rd rs1 imm) d e dec = let c = class-imm op d (λ p. cc) dec.2 in (c.0, c.1, tt)
classify (op_reg op rd rs1 rs2) d e dec = let c = class-reg op d dec.2 in (c.0, c.1, tt)
classify (lui rd imm) d e dec = rw (dec.2) (refl, refl, tt)
classify (auipc rd imm) d e dec = rw (dec.2) (refl, refl, tt)
classify (branch c rs1 rs2 imm) d e dec = let k = class-branch c d dec.2 in (k.0, k.1, tt)
classify (jalr rd rs1 imm) d e dec = rw (dec.2) (refl, refl, tt)
classify (jal rd imm) d e dec = rw (dec.2) (refl, refl, tt)

-- An encodable and decodable instruction gets the station, the kind of reorder-buffer entry and, if it
-- accesses memory, the size that are meant for it.
inst_decode-IsClassified :
    (x : Instr)
    → IsEncodable x
    → IsDecodable x
    → (inst_type (inst_decode (encode x)) ≡ station_of x)
      × (inst_rob_op (inst_decode (encode x)) ≡ entry_of x)
      × SizeOf x (inst_ls_op (inst_decode (encode x)))
inst_decode-IsClassified x e k = classify x (inst_decode (encode x)) e (inst_decode-encode x e k)
