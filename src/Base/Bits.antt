-- ===== src/Base/Bits.antt =====
-- The bit operations of C as arithmetic. The libraries define them by a recursion on binary
-- digits; from its lowest digit follow a law for splitting words at any bit, and the value of a
-- masked field.
use Prim.Native.Nat.{
  ℕ, zero, suc, ◌+◌, ◌-◌, ◌*◌, ◌/◌, ◌%◌, ◌^◌, ◌≤◌, ◌<◌, min, max, bit_and, bit_or, bit_xor, digits,
  bitwise, bit_and-bitwise, bit_or-bitwise, bit_xor-bitwise, differ,
}
use mathlib.Core.Path.{◌≡◌, refl, ap, ◌∙◌}
use mathlib.Core.Logic.{◌⊎◌, inl, inr}
use native.Mathlib.Nat.{pow-suc, one-le-pow, le_refl}
use native.Mathlib.Omega.{arith}

le-cases : (x n : ℕ) → x ≤ suc n → (x ≤ n) ⊎ (x ≡ suc n)
le-cases x n h = ground arith

-- Induction from the half of a number to the number, with a bound as the measure.
by_halves_below {ℓ} :
    (P : ℕ → Type ℓ) → P 0 → ((a : ℕ) → P (suc a / 2) → P (suc a)) → (bound a : ℕ) → a ≤ bound → P a
by_halves_below P base step bound zero h = base
by_halves_below P base step zero (suc a) h = absurd (omega arith)
by_halves_below P base step (suc bound) (suc a) h =
    step a (by_halves_below P base step bound (suc a / 2) (omega arith))

by_halves {ℓ} : (P : ℕ → Type ℓ) → P 0 → ((a : ℕ) → P (suc a / 2) → P (suc a)) → (a : ℕ) → P a
by_halves P base step a = by_halves_below P base step a a (le_refl _)

-- An operation that the recursion on digits defines.
module _ (rest : ℕ → ℕ) (op : ℕ → ℕ → ℕ) where
  -- One more unit of fuel than the first operand needs is not used.
  spare : (fuel x y : ℕ) → x ≤ fuel → digits rest op (suc fuel) x y ≡ digits rest op fuel x y
  spare zero (suc x) y h = absurd (omega arith)
  spare zero zero y h = refl
  spare (suc fuel) zero y h = refl
  spare (suc fuel) (suc x) y h = rw (spare fuel (suc x / 2) (y / 2) (omega arith)) refl

  -- So any fuel that is enough is as good as the operand itself.
  settle : (fuel x y : ℕ) → x ≤ fuel → digits rest op fuel x y ≡ bitwise rest op x y
  settle zero (suc x) y h = absurd (omega arith)
  settle zero zero y h = refl
  settle (suc fuel) x y h = elim (le-cases x fuel h) [
    | inl k ↦ spare fuel x y k ∙ settle fuel x y k
    | inr k ↦ rw k refl
  ]

  lowest :
      (x y : ℕ)
      → bitwise rest op (suc x) y ≡ op (suc x % 2) (y % 2) + 2 * bitwise rest op (suc x / 2) (y / 2)
  lowest x y = omega (arith, settle x (suc x / 2) (y / 2) (omega arith))

bit_or-digit : (x y : ℕ) → bit_or x y ≡ max (x % 2) (y % 2) + 2 * bit_or (x / 2) (y / 2)
bit_or-digit zero y = simp bit_or-bitwise (omega arith)
bit_or-digit (suc x) y = simp bit_or-bitwise (lowest (λ n. n) max x y)

bit_and-digit : (x y : ℕ) → bit_and x y ≡ min (x % 2) (y % 2) + 2 * bit_and (x / 2) (y / 2)
bit_and-digit zero y = simp bit_and-bitwise (omega arith)
bit_and-digit (suc x) y = simp bit_and-bitwise (lowest (λ n. 0) min x y)

bit_xor-digit : (x y : ℕ) → bit_xor x y ≡ differ (x % 2) (y % 2) + 2 * bit_xor (x / 2) (y / 2)
bit_xor-digit zero y = simp bit_xor-bitwise (omega arith)
bit_xor-digit (suc x) y = simp bit_xor-bitwise (lowest (λ n. n) differ x y)

differ-lt : (x y : ℕ) → x < 2 → y < 2 → differ x y < 2
differ-lt zero y p q = q
differ-lt (suc x) zero p q = p
differ-lt (suc x) (suc y) p q = differ-lt x y (omega arith) (omega arith)

pub zero-bit_or : (y : ℕ) → bit_or 0 y ≡ y
zero-bit_or y = bit_or-bitwise 0 y

pub bit_or-zero : (x : ℕ) → bit_or x 0 ≡ x
bit_or-zero =
    by_halves (λ x. bit_or x 0 ≡ x) refl (λ x half. omega (arith, bit_or-digit (suc x) 0, half))

pub bit_and-zero : (x : ℕ) → bit_and x 0 ≡ 0
bit_and-zero =
    by_halves (λ x. bit_and x 0 ≡ 0) refl (λ x half. omega (arith, bit_and-digit (suc x) 0, half))

double-pow : (q k : ℕ) → q * 2 ^ suc k ≡ q * 2 ^ k * 2
double-pow q k = omega (arith, ap (λ power. q * power) (pow-suc 2 k))

-- `|` works separately on the bits from `k` up and on those below.
pub bit_or-split :
    (k p q r s : ℕ)
    → r < 2 ^ k
    → s < 2 ^ k
    → bit_or (p * 2 ^ k + r) (q * 2 ^ k + s) ≡ bit_or p q * 2 ^ k + bit_or r s
bit_or-split zero p q r s hr hs = ground (arith, bit_or-zero r)
bit_or-split (suc k) p q r s hr hs = ground (
  arith,
  bit_or-digit (p * 2 ^ suc k + r) (q * 2 ^ suc k + s),
  bit_or-digit r s,
  double-pow p k,
  double-pow q k,
  double-pow (bit_or p q) k,
  double-pow 1 k,
  bit_or-split k p q (r / 2) (s / 2) (omega (arith, double-pow 1 k))
      (omega (arith, double-pow 1 k)),
)

bit_and-split :
    (k p q r s : ℕ)
    → r < 2 ^ k
    → s < 2 ^ k
    → bit_and (p * 2 ^ k + r) (q * 2 ^ k + s) ≡ bit_and p q * 2 ^ k + bit_and r s
bit_and-split zero p q r s hr hs = ground (arith, bit_and-zero r)
bit_and-split (suc k) p q r s hr hs = ground (
  arith,
  bit_and-digit (p * 2 ^ suc k + r) (q * 2 ^ suc k + s),
  bit_and-digit r s,
  double-pow p k,
  double-pow q k,
  double-pow (bit_and p q) k,
  double-pow 1 k,
  bit_and-split k p q (r / 2) (s / 2) (omega (arith, double-pow 1 k))
      (omega (arith, double-pow 1 k)),
)

-- `(q << k) | r` where `r` fits into `k` bits.
pub bit_or-low : (k q r : ℕ) → r < 2 ^ k → bit_or (q * 2 ^ k) r ≡ q * 2 ^ k + r
bit_or-low k q r h = ground (arith, bit_or-split k q 0 0 r, bit_or-zero q, zero-bit_or r)

-- `r | (q << k)` where `r` fits into `k` bits.
pub bit_or-high : (k q r : ℕ) → r < 2 ^ k → bit_or r (q * 2 ^ k) ≡ q * 2 ^ k + r
bit_or-high k q r h = ground (arith, bit_or-split k 0 q r 0, zero-bit_or q, bit_or-zero r)

-- `|` keeps within a width.
pub bit_or-lt : (k a b : ℕ) → a < 2 ^ k → b < 2 ^ k → bit_or a b < 2 ^ k
bit_or-lt zero a b ha hb = ground (arith, bit_or-zero a)
bit_or-lt (suc k) a b ha hb = omega (
  arith,
  bit_or-digit a b,
  double-pow 1 k,
  bit_or-lt k (a / 2) (b / 2) (omega (arith, double-pow 1 k)) (omega (arith, double-pow 1 k)),
)

pub bit_and-le : (n a b : ℕ) → a ≤ n → bit_and a b ≤ a
bit_and-le n zero b h = omega (arith, bit_and-bitwise 0 b)
bit_and-le zero (suc a) b h = absurd (omega arith)
bit_and-le (suc n) (suc a) b h =
    omega (arith, bit_and-digit (suc a) b, bit_and-le n (suc a / 2) (b / 2) (omega arith))

pub bit_xor-lt : (k a b : ℕ) → a < 2 ^ k → b < 2 ^ k → bit_xor a b < 2 ^ k
bit_xor-lt zero zero zero ha hb = ha
bit_xor-lt zero zero (suc b) ha hb = absurd (omega arith)
bit_xor-lt zero (suc a) b ha hb = absurd (omega arith)
bit_xor-lt (suc k) a b ha hb = omega (
  arith,
  bit_xor-digit a b,
  differ-lt (a % 2) (b % 2) (omega arith) (omega arith),
  double-pow 1 k,
  bit_xor-lt k (a / 2) (b / 2) (omega (arith, double-pow 1 k)) (omega (arith, double-pow 1 k)),
)

-- A mask of `w` ones is the remainder by `2 ^ w`.
masked : (low high w : ℕ) → low < 2 ^ w → bit_and (low + high * 2 ^ w) (2 ^ w - 1) ≡ low
masked low high zero h = rw (bit_and-zero (low + high * 2 ^ 0)) (omega arith)
masked low high (suc w) h = ground (
  arith,
  masked (low / 2) high w (omega (arith, double-pow 1 w)),
  bit_and-digit (low + high * 2 ^ suc w) (2 ^ suc w - 1),
  one-le-pow w 2,
  double-pow 1 w,
  double-pow high w,
)

pub bit_and-ones : (w a : ℕ) → bit_and a (2 ^ w - 1) ≡ a % 2 ^ w
bit_and-ones w a = ground (arith, masked (a % 2 ^ w) (a / 2 ^ w) w, one-le-pow w 2)

-- The field of `w` bits at bit `k`, still in place.
pub bit_and-field : (k w a : ℕ) → bit_and a ((2 ^ w - 1) * 2 ^ k) ≡ a / 2 ^ k % 2 ^ w * 2 ^ k
bit_and-field k w a = ground (
  arith,
  one-le-pow k 2,
  bit_and-split k (a / 2 ^ k) (2 ^ w - 1) (a % 2 ^ k) 0,
  bit_and-ones w (a / 2 ^ k),
  bit_and-zero (a % 2 ^ k),
)
