-- ===== src/Inst/Fields.antt =====
-- The fields of an instruction word as quotients and remainders, in place of masks and shifts.
use fakerv32i.Base.{ℕ, ◌+◌, ◌*◌, ◌/◌, ◌%◌, ◌^◌, ◌<◌, bit_and, bit_or, ◌≡◌, arith}
use fakerv32i.Base.Bits.{bit_or-low, bit_or-high, bit_or-split, bit_or-zero, bit_and-field}
use fakerv32i.Rvmath.{sign_extend}
use fakerv32i.Inst.{
  parts, inst_get, inst_jal_imm, inst_branch_imm, inst_store_imm, opcode_mask, rd_mask, funct3_mask,
  rs1_mask, rs2_mask, funct7_mask, imm_mask, u_imm_mask, funct7_bit_mask,
}

pub get-opcode : (w : ℕ) → inst_get w opcode_mask 0 ≡ w % 2 ^ 7
unfolding inst_get
get-opcode w = omega (arith, bit_and-field 0 7 w)

pub get-rd : (w : ℕ) → inst_get w rd_mask 7 ≡ w / 2 ^ 7 % 2 ^ 5
unfolding inst_get
get-rd w = omega (arith, bit_and-field 7 5 w)

pub get-funct3 : (w : ℕ) → inst_get w funct3_mask 12 ≡ w / 2 ^ 12 % 2 ^ 3
unfolding inst_get
get-funct3 w = omega (arith, bit_and-field 12 3 w)

pub get-rs1 : (w : ℕ) → inst_get w rs1_mask 15 ≡ w / 2 ^ 15 % 2 ^ 5
unfolding inst_get
get-rs1 w = omega (arith, bit_and-field 15 5 w)

pub get-rs2 : (w : ℕ) → inst_get w rs2_mask 20 ≡ w / 2 ^ 20 % 2 ^ 5
unfolding inst_get
get-rs2 w = omega (arith, bit_and-field 20 5 w)

pub get-funct7 : (w : ℕ) → inst_get w funct7_mask 25 ≡ w / 2 ^ 25 % 2 ^ 7
unfolding inst_get
get-funct7 w = omega (arith, bit_and-field 25 7 w)

pub get-imm : (w : ℕ) → inst_get w imm_mask 20 ≡ w / 2 ^ 20 % 2 ^ 12
unfolding inst_get
get-imm w = omega (arith, bit_and-field 20 12 w)

get-u_imm : (w : ℕ) → bit_and w u_imm_mask ≡ w / 2 ^ 12 % 2 ^ 20 * 2 ^ 12
get-u_imm w = omega (arith, bit_and-field 12 20 w)

get-funct7_bit : (w : ℕ) → inst_get w funct7_bit_mask 5 ≡ w / 2 ^ 5 % 2
unfolding inst_get
get-funct7_bit w = omega (arith, bit_and-field 5 1 w)

-- What the decoder computes before its `switch`.
pub parts-fields :
    (w : ℕ)
    → parts w ≡ record {
      opcode = w % 2 ^ 7;
      funct3 = w / 2 ^ 12 % 2 ^ 3;
      imm = w / 2 ^ 20 % 2 ^ 12;
      u_immediate = w / 2 ^ 12 % 2 ^ 20 * 2 ^ 12;
      opc1 = w % 2 ^ 7 + w / 2 ^ 12 % 2 ^ 3 * 2 ^ 7;
      opc2 = w % 2 ^ 7 + w / 2 ^ 12 % 2 ^ 3 * 2 ^ 7 + w / 2 ^ 30 % 2 * 2 ^ 10;
    }
unfolding parts
parts-fields w = ground (
  arith,
  get-opcode w,
  get-funct3 w,
  get-imm w,
  get-u_imm w,
  get-funct7 w,
  get-funct7_bit (inst_get w funct7_mask 25),
  bit_or-high 7 (w / 2 ^ 12 % 2 ^ 3) (w % 2 ^ 7),
  bit_or-high 10 (w / 2 ^ 30 % 2) (w % 2 ^ 7 + w / 2 ^ 12 % 2 ^ 3 * 2 ^ 7),
)

-- The bits of a store's offset.
pub store_imm-fields :
    (w : ℕ) → inst_store_imm w ≡ sign_extend (w / 2 ^ 25 % 2 ^ 7 * 2 ^ 5 + w / 2 ^ 7 % 2 ^ 5) 12
unfolding inst_store_imm
store_imm-fields w =
    ground (arith, get-funct7 w, get-rd w, bit_or-low 5 (w / 2 ^ 25 % 2 ^ 7) (w / 2 ^ 7 % 2 ^ 5))

module _ (a b c d : ℕ) (hb : b < 2) (hc : c < 2 ^ 6) (hd : d < 2 ^ 4) where
  join_branch :
      bit_or (bit_or (bit_or (a * 2 ^ 12) (b * 2 ^ 11)) (c * 2 ^ 5)) (d * 2)
      ≡ a * 2 ^ 12 + b * 2 ^ 11 + c * 2 ^ 5 + d * 2
  join_branch = ground (
    arith,
    bit_or-low 12 a (b * 2 ^ 11),
    bit_or-low 11 (a * 2 + b) (c * 2 ^ 5),
    bit_or-low 5 ((a * 2 + b) * 2 ^ 6 + c) (d * 2),
  )

-- The bits of a branch's offset.
pub branch_imm-fields :
    (w : ℕ)
    → w < 2 ^ 32
    → inst_branch_imm w
      ≡ sign_extend
          (w / 2 ^ 31 * 2 ^ 12
            + w / 2 ^ 7 % 2 * 2 ^ 11
            + w / 2 ^ 25 % 2 ^ 6 * 2 ^ 5
            + w / 2 ^ 8 % 2 ^ 4 * 2)
          13
unfolding inst_branch_imm inst_get
branch_imm-fields w h = ground (
  arith,
  bit_and-field 31 1 w,
  bit_and-field 7 1 w,
  bit_and-field 25 6 w,
  bit_and-field 8 4 w,
  join_branch (w / 2 ^ 31) (w / 2 ^ 7 % 2) (w / 2 ^ 25 % 2 ^ 6) (w / 2 ^ 8 % 2 ^ 4),
)

module _ (a b c d : ℕ) (hb : b < 2 ^ 8) (hc : c < 2 ^ 10) (hd : d < 2) where
  join_jal :
      bit_or (bit_or (bit_or (a * 2 ^ 20) (b * 2 ^ 12)) (c * 2)) (d * 2 ^ 11)
      ≡ a * 2 ^ 20 + b * 2 ^ 12 + d * 2 ^ 11 + c * 2
  join_jal = ground (
    arith,
    bit_or-low 20 a (b * 2 ^ 12),
    bit_or-low 12 (a * 2 ^ 8 + b) (c * 2),
    bit_or-split 11 ((a * 2 ^ 8 + b) * 2) d (c * 2) 0,
    bit_or-zero (c * 2),
    bit_or-low 1 (a * 2 ^ 8 + b) d,
  )

-- The bits of a jump's offset.
pub jal_imm-fields :
    (w : ℕ)
    → w < 2 ^ 32
    → inst_jal_imm w
      ≡ sign_extend
          (w / 2 ^ 31 * 2 ^ 20
            + w / 2 ^ 12 % 2 ^ 8 * 2 ^ 12
            + w / 2 ^ 20 % 2 * 2 ^ 11
            + w / 2 ^ 21 % 2 ^ 10 * 2)
          21
unfolding inst_jal_imm inst_get
jal_imm-fields w h = ground (
  arith,
  bit_and-field 31 1 w,
  bit_and-field 12 8 w,
  bit_and-field 21 10 w,
  bit_and-field 20 1 w,
  join_jal (w / 2 ^ 31) (w / 2 ^ 12 % 2 ^ 8) (w / 2 ^ 21 % 2 ^ 10) (w / 2 ^ 20 % 2),
)
