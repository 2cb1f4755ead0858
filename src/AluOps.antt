-- ===== src/AluOps.antt =====
-- alu-ops.c: the operations of the arithmetic unit.
pub mod Meaning
use fakerv32i.Base.{
  ℕ, ◌+◌, ◌*◌, ◌^◌, ◌<◌, bit_and, bit_or, bit_xor, Bool, not, ◌==◌, ltb, leb, if◌then◌else◌,
  of_bool, ltb_ℤ, Outcome, done, fault, assertion, ◌>>=◌, ◌>>◌, defined,
}
use fakerv32i.Rv32i.AluOp
use fakerv32i.Word.{u32, add_word, sub_word, shl_word, shr_word, signed_word}

-- `_signed_lt`: the comparison of the two words as signed numbers.
pub signed_lt : ℕ → ℕ → Bool
signed_lt value1 value2 = ltb_ℤ (signed_word value1) (signed_word value2)

-- A shift by the width of the type or more is undefined in C.
pub shift_left : ℕ → ℕ → Outcome ℕ
shift_left value1 value2 = do defined (ltb value2 32); done (shl_word value1 value2)

pub shift_right : ℕ → ℕ → Outcome ℕ
shift_right value1 value2 = do defined (ltb value2 32); done (shr_word value1 value2)

-- `_signed_rshift`. The source shifts to the left; gcc computes `<<` of a negative number on its bit
-- pattern, and a negative count is undefined.
pub signed_rshift : ℕ → ℕ → Outcome ℕ
signed_rshift value1 value2 = do defined (ltb value2 32); done (shl_word value1 value2)

-- The `switch` of `alu_execute`; the default branch is `assert(0)`.
unfoldable pub alu_execute : ℕ → ℕ → ℕ → Outcome ℕ
alu_execute op value1 value2 =
    if op == AluOp.add
    then done (add_word value1 value2)
    else if op == AluOp.sll
    then shift_left value1 value2
    else if op == AluOp.slt
    then done (of_bool (signed_lt value1 value2))
    else if op == AluOp.sltu
    then done (of_bool (ltb value1 value2))
    else if op == AluOp.xor
    then done (bit_xor value1 value2)
    else if op == AluOp.srl
    then shift_right value1 value2
    else if op == AluOp.or
    then done (bit_or value1 value2)
    else if op == AluOp.and
    then done (bit_and value1 value2)
    else if op == AluOp.sub
    then done (sub_word value1 value2)
    else if op == AluOp.sra
    then signed_rshift value1 value2
    else if op == AluOp.beq
    then done (of_bool (value1 == value2))
    else if op == AluOp.bne
    then done (of_bool (not (value1 == value2)))
    else if op == AluOp.blt
    then done (of_bool (signed_lt value1 value2))
    else if op == AluOp.bge
    then done (of_bool (not (signed_lt value1 value2)))
    else if op == AluOp.bltu
    then done (of_bool (ltb value1 value2))
    else if op == AluOp.bgeu
    then done (of_bool (leb value2 value1))
    else fault assertion
