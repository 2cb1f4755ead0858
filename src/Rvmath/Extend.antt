-- ===== src/Rvmath/Extend.antt =====
-- `sign_extend` of rvmath.c keeps the value of a two's complement number.
use fakerv32i.Base.{
  ℕ, zero, suc, ◌+◌, ◌-◌, ◌*◌, ◌/◌, ◌^◌, ◌≤◌, ◌<◌, bit_and, bit_or, ◌≡◌, refl, arith, Bool, true,
  ◌&&◌, ltb, leb, ltb→lt, ◌==◌, Bool-cases, inl, inr, ap, ◌∙◌, below?, below?-at,
}
use fakerv32i.Base.Bits.{bit_or-lt, bit_and-le, bit_or-zero, bit_or-split, bit_and-field}
use fakerv32i.Isa.{pattern, extended}
use fakerv32i.Word.{signed, shl_word}
use fakerv32i.Rvmath.{extend_mask, sign_extend}
use native.Mathlib.Nat.{pow-suc}

-- At each of the 32 places of the sign bit the loop fills the bits from there up with ones.
fills : ℕ → Bool
fills k =
    (extend_mask 5 0 (2 ^ k) == (2 ^ (32 - k) - 1) * 2 ^ k)
    && ((bit_or 1 (2 ^ (32 - k) - 1) == 2 ^ (32 - k) - 1)
        && ((2 ^ (32 - k) - 1) * 2 ^ k == 2 ^ 32 - 2 ^ k)
        && leb (2 * 2 ^ k) (2 ^ 32))

fills-table : below? fills 32 ≡ true
unfolding below? fills extend_mask
fills-table = refl

fills_parts :
    (k : ℕ)
    → k < 32
    → (extend_mask 5 0 (2 ^ k) ≡ (2 ^ (32 - k) - 1) * 2 ^ k)
      × (bit_or 1 (2 ^ (32 - k) - 1) ≡ 2 ^ (32 - k) - 1)
      × ((2 ^ (32 - k) - 1) * 2 ^ k ≡ 2 ^ 32 - 2 ^ k)
      × (2 * 2 ^ k ≤ 2 ^ 32)
unfolding fills
fills_parts k h = ground (arith, below?-at fills 32 fills-table k h)

extend_mask-zero : extend_mask 5 0 0 ≡ 0
unfolding extend_mask
extend_mask-zero = refl

-- The sign bit, in place.
sign_bit-clear : (word k : ℕ) → word < 2 ^ k → bit_and word (2 ^ k) ≡ 0
sign_bit-clear word k h =
    let clear : word / 2 ^ k ≡ 0 = grind arith in ground (arith, bit_and-field k 1 word)

sign_bit-top : (word k : ℕ) → 2 ^ k ≤ word → word < 2 * 2 ^ k → bit_and word (2 ^ k) ≡ 2 ^ k
sign_bit-top word k lo hi =
    let top : word / 2 ^ k ≡ 1 = grind arith in ground (arith, bit_and-field k 1 word)

pub sign_extend-nonneg : (word k : ℕ) → word < 2 ^ k → sign_extend word (suc k) ≡ word
unfolding sign_extend
sign_extend-nonneg word k h =
    let at : suc k - 1 ≡ k = omega arith in
    rw (at, sign_bit-clear word k h, extend_mask-zero, bit_or-zero word)

fill-word :
    (word k : ℕ)
    → k < 32
    → 2 ^ k ≤ word
    → word < 2 * 2 ^ k
    → bit_or word ((2 ^ (32 - k) - 1) * 2 ^ k) ≡ (2 ^ (32 - k) - 1) * 2 ^ k + (word - 2 ^ k)
fill-word word k hk lo hi = ground (
  arith,
  bit_or-split k 1 (2 ^ (32 - k) - 1) (word - 2 ^ k) 0,
  bit_or-zero (word - 2 ^ k),
  fills_parts k hk,
)

-- The bits of a negative number: the ones above the sign bit are added.
pub sign_extend-neg :
    (word k : ℕ)
    → k < 32
    → 2 ^ k ≤ word
    → word < 2 * 2 ^ k
    → sign_extend word (suc k) ≡ word + (2 ^ 32 - 2 * 2 ^ k)
unfolding sign_extend
sign_extend-neg word k hk lo hi =
    let at : suc k - 1 ≡ k = omega arith in
    rw (at, sign_bit-top word k lo hi, (fills_parts k hk).0, fill-word word k hk lo hi)
      (omega (arith, fills_parts k hk))

-- For a size from 1 to 32 and a word of that many bits, `sign_extend` returns the 32-bit pattern
-- of the integer that the word stands for in two's complement.
pub signed-sign_extend :
    (word size : ℕ)
    → 1 ≤ size
    → size ≤ 32
    → word < 2 ^ size
    → (signed 32 (sign_extend word size) ≡ signed size word) × (sign_extend word size < 2 ^ 32)
signed-sign_extend word zero h hs hw = absurd (omega arith)
signed-sign_extend word (suc k) h hs hw = elim (Bool-cases (ltb word (2 ^ k))) [
  | inl low ↦ ground (
    arith,
    sign_extend-nonneg word k (ltb→lt word (2 ^ k) low),
    pow-suc 2 k,
    fills_parts k (omega arith),
  )
  | inr high ↦ ground (
    arith,
    sign_extend-neg word k (omega arith) (ground arith) (omega (arith, pow-suc 2 k)),
    pow-suc 2 k,
    fills_parts k (omega arith),
  )
]

-- The same as an equation between patterns.
pub sign_extend-extended :
    (word size : ℕ)
    → 1 ≤ size
    → size ≤ 32
    → word < 2 ^ size
    → sign_extend word size ≡ extended size word
sign_extend-extended word size h hs hw =
    let both = signed-sign_extend word size h hs hw in
    pattern-signed (sign_extend word size) both.1 ∙ ap pattern both.0
  where
    pattern-signed : (n : ℕ) → n < 2 ^ 32 → n ≡ pattern (signed 32 n)
    pattern-signed n lt = ground arith

-- Whatever the size, the result is a machine word if the argument is.
extend_mask-lt : (left i mask : ℕ) → mask < 2 ^ 32 → extend_mask left i mask < 2 ^ 32
unfolding extend_mask
extend_mask-lt zero i mask h = h
extend_mask-lt (suc left) i mask h =
    extend_mask-lt left (i + 1) (bit_or mask (shl_word mask (2 ^ i)))
      (bit_or-lt 32 mask (shl_word mask (2 ^ i)) h (omega arith))

sign_extend-lt : (word size : ℕ) → word < 2 ^ 32 → sign_extend word size < 2 ^ 32
unfolding sign_extend
sign_extend-lt word size h =
    let sign = bit_and word (2 ^ (size - 1)) in
    let low : sign < 2 ^ 32 = omega (arith, bit_and-le word word (2 ^ (size - 1))) in
    bit_or-lt 32 word (extend_mask 5 0 sign) h (extend_mask-lt 5 0 sign low)
