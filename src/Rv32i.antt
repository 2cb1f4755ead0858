-- ===== src/Rv32i.antt =====
-- The enumerations of rv32i.h and inst.h whose values the program computes from instruction bits, and
-- those that it only tells apart.
pub mod AluOp
pub mod LsSize
pub mod Opcode
pub mod InstOp

-- `rs_type_t`.
pub data RsType : Type 0 where
  reservation_station load_buffer store_buffer : RsType

-- `rob_op_t`.
pub data RobOp : Type 0 where
  register store branch jalr hcf : RobOp

-- `status_t`.
pub data Status : Type 0 where
  fail success : Status
