-- ===== src/AluOps/Meaning.antt =====
-- `alu_execute` of alu-ops.c against the operations of the RV32I manual.
use fakerv32i.Base.{
  ℕ, ◌*◌, ◌/◌, ◌^◌, ◌≤◌, ◌<◌, ◌≡◌, ◌≢◌, refl, arith, of_bool, done, fault, undefined,
}
use fakerv32i.Isa.{
  Arith, add, sub, sll, slt, sltu, xor, srl, sra, or, and, Compare, eq, ne, lt, ge, ltu, geu,
  arith_result, holds,
}
use fakerv32i.Rv32i.AluOp
use fakerv32i.AluOps.{signed_lt, shift_left, shift_right, signed_rshift, alu_execute}
use native.Mathlib.Nat.{mod-eq_of_lt, pow-le-pow_right}

-- The code of each operation.
abbrev pub alu_code : Arith → ℕ
alu_code add = AluOp.add
alu_code sub = AluOp.sub
alu_code sll = AluOp.sll
alu_code slt = AluOp.slt
alu_code sltu = AluOp.sltu
alu_code xor = AluOp.xor
alu_code srl = AluOp.srl
alu_code sra = AluOp.sra
alu_code or = AluOp.or
alu_code and = AluOp.and

abbrev pub branch_code : Compare → ℕ
branch_code eq = AluOp.beq
branch_code ne = AluOp.bne
branch_code lt = AluOp.blt
branch_code ge = AluOp.bge
branch_code ltu = AluOp.bltu
branch_code geu = AluOp.bgeu

-- The second operands at which C defines the operation.
abbrev pub InShiftRange : Arith → ℕ → Type 0
InShiftRange sll b = b < 32
InShiftRange srl b = b < 32
InShiftRange sra b = b < 32
InShiftRange op b = Unit {0}

-- On every operation but SRA `alu_execute` returns what the manual says, for shift counts below 32.
pub alu_execute-arith :
    (op : Arith) (a b : ℕ)
    → op ≢ sra
    → InShiftRange op b
    → alu_execute (alu_code op) a b ≡ done (arith_result op a b)
unfolding alu_execute arith_result signed_lt shift_left shift_right
alu_execute-arith add a b h s = refl
alu_execute-arith sub a b h s = refl
alu_execute-arith sll a b h s = ground (arith, mod-eq_of_lt s)
alu_execute-arith srl a b h s = ground (arith, mod-eq_of_lt s)
alu_execute-arith sra a b h s = absurd (h refl)
alu_execute-arith op a b h s = refl

-- On every branch operation the result is 1 or 0 as the comparison of the manual holds or not.
pub alu_execute-compare :
    (c : Compare) (a b : ℕ) → alu_execute (branch_code c) a b ≡ done (of_bool (holds c a b))
unfolding alu_execute holds signed_lt
alu_execute-compare eq a b = refl
alu_execute-compare geu a b = ground arith
alu_execute-compare _ a b = refl

-- The shift operations.
abbrev pub IsShift : Arith → Type 0
IsShift sll = Unit {0}
IsShift srl = Unit {0}
IsShift sra = Unit {0}
IsShift op = ⊥

pub alu_execute-overshift :
    (op : Arith) (a b : ℕ) → IsShift op → 32 ≤ b → alu_execute (alu_code op) a b ≡ fault undefined
unfolding alu_execute shift_left shift_right signed_rshift
alu_execute-overshift sll a b s h = ground arith
alu_execute-overshift srl a b s h = ground arith
alu_execute-overshift sra a b s h = ground arith
alu_execute-overshift op a b s h = absurd s

-- SRA shifts to the left: for a nonzero first operand and a count from 1 to 31 at which no bit is
-- lost, the result is the product with the power of two, which the manual's result is below.
pub alu_execute-sra_left :
    (a b : ℕ)
    → 0 < a
    → 1 ≤ b
    → b < 32
    → a * 2 ^ b < 2 ^ 32
    → (alu_execute AluOp.sra a b ≡ done (a * 2 ^ b)) × (arith_result sra a b < a * 2 ^ b)
unfolding alu_execute signed_rshift arith_result
alu_execute-sra_left a b ha hb hb' fits =
    let double : 2 ≤ 2 ^ b = pow-le-pow_right {n = 2} (omega arith) {i = 1} {j = b} hb in
    let more : a * 2 ≤ a * 2 ^ b = grind arith in
    let less : a / 2 ^ b ≤ a = grind arith in
    (ground (arith, mod-eq_of_lt fits), ground (arith, mod-eq_of_lt hb'))
