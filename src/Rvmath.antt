-- ===== src/Rvmath.antt =====
-- rvmath.c: sign extension, the size of a memory access, and addition of an offset.
pub mod Extend
use fakerv32i.Base.{
  ℕ, zero, suc, ◌+◌, ◌-◌, ◌*◌, ◌^◌, bit_and, bit_or, ◌||◌, ◌==◌, if◌then◌else◌, Outcome, done,
  fault, assertion,
}
use fakerv32i.Rv32i.LsSize
use fakerv32i.Word.{u32, add_word, shl_word}

-- The loop of `sign_extend` from round `i` on, with the rounds left. `mask` is an `int`, kept as
-- its bit pattern.
unfoldable pub extend_mask : ℕ → ℕ → ℕ → ℕ
extend_mask zero i mask = mask
extend_mask (suc left) i mask = extend_mask left (i + 1) (bit_or mask (shl_word mask (2 ^ i)))

unfoldable pub sign_extend : ℕ → ℕ → ℕ
sign_extend word size = bit_or word (extend_mask 5 0 (bit_and word (2 ^ (size - 1))))

unfoldable pub ls_size : ℕ → Outcome ℕ
ls_size size =
    if size == LsSize.word
    then done 4
    else if size == LsSize.hword || size == LsSize.hwordu
    then done 2
    else if size == LsSize.byte || size == LsSize.byteu
    then done 1
    else fault assertion

unfoldable pub signed_add : ℕ → ℕ → ℕ
signed_add base dx = add_word base dx
