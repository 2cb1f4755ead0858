-- ===== src/Reservation/Overlap.antt =====
-- The test for overlapping accesses in reservation-station.c.
use fakerv32i.Base.{ℕ, ◌+◌, ◌≡◌, ◌≢◌, ◌≤◌, ◌<◌, ◌^◌, ◌⊎◌, refl, arith, true, false, leb, done}
use fakerv32i.Isa.{Width, byte, half, word, byte_unsigned, half_unsigned}
use fakerv32i.Isa.Encoding.{width_funct3}
use fakerv32i.Rvmath.{ls_size}
use fakerv32i.Reservation.{overlap_sorted, rsu_overlap}

-- The number of bytes of an access.
abbrev pub bytes_of : Width → ℕ
bytes_of byte = 1
bytes_of half = 2
bytes_of word = 4
bytes_of byte_unsigned = 1
bytes_of half_unsigned = 2

ls_size-bytes : (w : Width) → ls_size (width_funct3 w) ≡ done (bytes_of w)
unfolding ls_size
ls_size-bytes byte = refl
ls_size-bytes half = refl
ls_size-bytes word = refl
ls_size-bytes byte_unsigned = refl
ls_size-bytes half_unsigned = refl

overlap_sorted-ends :
    (w : Width) (a b : ℕ)
    → a < b
    → a + bytes_of w < 2 ^ 32
    → overlap_sorted a (width_funct3 w) b ≡ done (leb (a + bytes_of w) b)
unfolding overlap_sorted
overlap_sorted-ends w a b h k = ground (arith, ls_size-bytes w)

-- Two accesses share a byte.
abbrev pub Shares : Width → Width → ℕ → ℕ → Type 0
Shares v w a b = (a < b + bytes_of w) × (b < a + bytes_of v)

-- The test is inverted: for accesses at two different addresses, below the end of the address space, it
-- returns false when they share a byte and true when they do not.
pub rsu_overlap-inverted :
    (v w : Width) (a b : ℕ)
    → a ≢ b
    → a + bytes_of v < 2 ^ 32
    → b + bytes_of w < 2 ^ 32
    → (Shares v w a b → rsu_overlap a (width_funct3 v) b (width_funct3 w) ≡ done false)
      × ((a + bytes_of v ≤ b) ⊎ (b + bytes_of w ≤ a)
          → rsu_overlap a (width_funct3 v) b (width_funct3 w) ≡ done true)
unfolding rsu_overlap
rsu_overlap-inverted v w a b h k l = (
  (λ s. ground (arith, overlap_sorted-ends v a b, overlap_sorted-ends w b a)),
  (λ s. ground (arith, overlap_sorted-ends v a b, overlap_sorted-ends w b a)),
)
