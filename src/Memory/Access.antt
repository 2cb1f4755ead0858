-- ===== src/Memory/Access.antt =====
-- The accesses of memory.c: what is stored is read back, no other byte changes, values stay in range.
use fakerv32i.Base.{
  ℕ, zero, suc, ◌+◌, ◌*◌, ◌/◌, ◌%◌, ◌^◌, ◌≤◌, ◌<◌, ◌≡◌, ◌⊎◌, refl, arith, done, ◌>>=◌, Always,
}
use fakerv32i.Isa.{Width, byte, half, word, byte_unsigned, half_unsigned, extended}
use fakerv32i.Isa.Encoding.{width_funct3, IsStored}
use fakerv32i.Rvmath.Extend.{sign_extend-extended}
use fakerv32i.Memory.{Bytes, mem_size, update, read_bytes, write_bytes, mem_get_sz, mem_set_sz}

abbrev pub IsBytes : Bytes → Type 0
IsBytes mem = (a : ℕ) → mem a < 2 ^ 8

abbrev pub width_bytes : Width → ℕ
width_bytes byte = 1
width_bytes half = 2
width_bytes word = 4
width_bytes byte_unsigned = 1
width_bytes half_unsigned = 2

-- What a load of some width makes of the number that its bytes are.
abbrev pub loaded : Width → ℕ → ℕ
loaded byte v = extended 8 v
loaded half v = extended 16 v
loaded w v = v

-- The low `n` bytes of a number.
abbrev low_bytes : ℕ → ℕ → ℕ
low_bytes zero v = 0
low_bytes (suc n) v = v % 2 ^ 8 + 2 ^ 8 * low_bytes n (v / 2 ^ 8)

pub read_bytes-lt :
    (w : Width) (mem : Bytes) (a : ℕ)
    → IsBytes mem
    → read_bytes (width_bytes w) mem a < 2 ^ (8 * width_bytes w)
read_bytes-lt byte mem a h = omega (arith, h a)
read_bytes-lt half mem a h = omega (arith, h a, h (a + 1))
read_bytes-lt word mem a h = omega (arith, h a, h (a + 1), h (a + 1 + 1), h (a + 1 + 1 + 1))
read_bytes-lt byte_unsigned mem a h = omega (arith, h a)
read_bytes-lt half_unsigned mem a h = omega (arith, h a, h (a + 1))

pub write_bytes-outside :
    (n : ℕ) (mem : Bytes) (a v j : ℕ) → (j < a) ⊎ (a + n ≤ j) → write_bytes n mem a v j ≡ mem j
write_bytes-outside zero mem a v j h = refl
write_bytes-outside (suc n) mem a v j h =
    ground (arith, write_bytes-outside n (update mem a (v % 2 ^ 8)) (a + 1) (v / 2 ^ 8) j)

pub write_bytes-IsBytes :
    (n : ℕ) (mem : Bytes) (a v : ℕ) → IsBytes mem → IsBytes (write_bytes n mem a v)
write_bytes-IsBytes zero mem a v h = h
write_bytes-IsBytes (suc n) mem a v h =
    write_bytes-IsBytes n (update mem a (v % 2 ^ 8)) (a + 1) (v / 2 ^ 8) (λ j. ground (arith, h j))

read-write_bytes :
    (n : ℕ) (mem : Bytes) (a v : ℕ) → read_bytes n (write_bytes n mem a v) a ≡ low_bytes n v
read-write_bytes zero mem a v = refl
read-write_bytes (suc n) mem a v = ground (
  arith,
  write_bytes-outside n (update mem a (v % 2 ^ 8)) (a + 1) (v / 2 ^ 8) a,
  read-write_bytes n (update mem a (v % 2 ^ 8)) (a + 1) (v / 2 ^ 8),
)

read_bytes_ext :
    (n : ℕ) (d e : Bytes) (a : ℕ)
    → ((j : ℕ) → a ≤ j → j < a + n → d j ≡ e j)
    → read_bytes n d a ≡ read_bytes n e a
read_bytes_ext zero d e a h = refl
read_bytes_ext (suc n) d e a h =
    ground (arith, h a, read_bytes_ext n d e (a + 1) (λ j p q. h j (omega arith) (omega arith)))

-- A load inside the array returns the sign-extended or the plain value of its bytes.
pub mem_get_sz_lem :
    (w : Width) (mem : Bytes) (a : ℕ)
    → IsBytes mem
    → a + width_bytes w ≤ mem_size
    → mem_get_sz mem a (width_funct3 w) ≡ done (loaded w (read_bytes (width_bytes w) mem a))
unfolding mem_get_sz
mem_get_sz_lem byte mem a h fits =
    ground (arith, read_bytes-lt byte mem a h, sign_extend-extended (read_bytes 1 mem a) 8)
mem_get_sz_lem half mem a h fits =
    ground (arith, read_bytes-lt half mem a h, sign_extend-extended (read_bytes 2 mem a) 16)
mem_get_sz_lem w mem a h fits = ground arith

-- A store inside the array writes the low bytes of its value.
pub mem_set_sz_lem :
    (w : Width) (mem : Bytes) (a v : ℕ)
    → IsStored w
    → a + width_bytes w ≤ mem_size
    → mem_set_sz mem a v (width_funct3 w) ≡ done (write_bytes (width_bytes w) mem a v)
unfolding mem_set_sz
mem_set_sz_lem byte mem a v s fits = ground arith
mem_set_sz_lem half mem a v s fits = ground arith
mem_set_sz_lem word mem a v s fits = ground arith
mem_set_sz_lem byte_unsigned mem a v s fits = absurd s
mem_set_sz_lem half_unsigned mem a v s fits = absurd s

-- A store keeps bytes, whatever it stores.
pub mem_set_sz-IsBytes :
    (mem : Bytes) (a v size : ℕ) → IsBytes mem → Always IsBytes (mem_set_sz mem a v size)
unfolding mem_set_sz
mem_set_sz-IsBytes mem a v size h = ground (
  arith,
  write_bytes-IsBytes 1 mem a v h,
  write_bytes-IsBytes 2 mem a v h,
  write_bytes-IsBytes 4 mem a v h,
)

-- A load of the width and at the address of a store returns the low bits of the value stored, sign
-- extended for the narrow widths.
pub mem_get_sz-mem_set_sz :
    (w : Width) (mem : Bytes) (a v : ℕ)
    → IsStored w
    → IsBytes mem
    → a + width_bytes w ≤ mem_size
    → (mem_set_sz mem a v (width_funct3 w) >>= λ m. mem_get_sz m a (width_funct3 w))
      ≡ done (loaded w (v % 2 ^ (8 * width_bytes w)))
mem_get_sz-mem_set_sz w mem a v s h fits = rw (
  mem_set_sz_lem w mem a v s fits,
  mem_get_sz_lem w (write_bytes (width_bytes w) mem a v) a
      (write_bytes-IsBytes (width_bytes w) mem a v h) fits,
  read-write_bytes (width_bytes w) mem a v,
  low_bytes-mod w,
)
  where
    low_bytes-mod : (w : Width) → low_bytes (width_bytes w) v ≡ v % 2 ^ (8 * width_bytes w)
    low_bytes-mod byte = omega arith
    low_bytes-mod half = omega arith
    low_bytes-mod word = omega arith
    low_bytes-mod byte_unsigned = omega arith
    low_bytes-mod half_unsigned = omega arith

-- A load that shares no byte with a store returns what it would have returned before.
pub mem_get_sz-mem_set_sz_ne :
    (r w : Width) (mem : Bytes) (a v b : ℕ)
    → IsStored w
    → IsBytes mem
    → a + width_bytes w ≤ mem_size
    → b + width_bytes r ≤ mem_size
    → (b + width_bytes r ≤ a) ⊎ (a + width_bytes w ≤ b)
    → (mem_set_sz mem a v (width_funct3 w) >>= λ m. mem_get_sz m b (width_funct3 r))
      ≡ mem_get_sz mem b (width_funct3 r)
mem_get_sz-mem_set_sz_ne r w mem a v b s h fits fits' apart = rw (
  mem_set_sz_lem w mem a v s fits,
  mem_get_sz_lem r (write_bytes (width_bytes w) mem a v) b
      (write_bytes-IsBytes (width_bytes w) mem a v h) fits',
  mem_get_sz_lem r mem b h fits',
  read_bytes_ext (width_bytes r) (write_bytes (width_bytes w) mem a v) mem b
      (λ j p q. write_bytes-outside (width_bytes w) mem a v j (omega arith)),
)
