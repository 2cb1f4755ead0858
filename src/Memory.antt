-- ===== src/Memory.antt =====
-- memory.c: the byte array and the accesses to it. `data[MEM_SIZE]` is a function from addresses to
-- bytes, of which only the values below `mem_size` are there to be read and written.
pub mod Access
pub mod Pending
pub mod Requests
use fakerv32i.Base.{
  ℕ, zero, suc, ◌+◌, ◌*◌, ◌/◌, ◌%◌, ◌^◌, ◌≤◌, Bool, ◌==◌, ltb, leb, if◌then◌else◌, Outcome, done,
  fault, assertion, undefined, ◌>>=◌, ◌>>◌, defined,
}
use fakerv32i.Rv32i.LsSize
use fakerv32i.Rvmath.{sign_extend}
use fakerv32i.Word.{u8}

abbrev pub mem_size : ℕ
mem_size = 131072

abbrev pub mem_ticks : ℕ
mem_ticks = 3

abbrev pub Bytes : Type 0
Bytes = ℕ → ℕ

abbrev pub update : Bytes → ℕ → ℕ → Bytes
update mem a v j = if j == a then v else mem j

-- An access of `n` bytes at `addr`, the lowest byte first (the program refuses to be compiled for any
-- other byte order).
abbrev pub read_bytes : ℕ → Bytes → ℕ → ℕ
read_bytes zero mem addr = 0
read_bytes (suc n) mem addr = mem addr + 2 ^ 8 * read_bytes n mem (addr + 1)

abbrev pub write_bytes : ℕ → Bytes → ℕ → ℕ → Bytes
write_bytes zero mem addr value = mem
write_bytes (suc n) mem addr value =
    write_bytes n (update mem addr (u8 value)) (addr + 1) (value / 2 ^ 8)

-- An access is undefined unless all of its bytes lie in the array.
abbrev pub load_bytes : ℕ → Bytes → ℕ → Outcome ℕ
load_bytes n mem addr = do defined (leb (addr + n) mem_size); done (read_bytes n mem addr)

abbrev pub store_bytes : ℕ → Bytes → ℕ → ℕ → Outcome Bytes
store_bytes n mem addr value = do
  defined (leb (addr + n) mem_size)
  done (write_bytes n mem addr value)

-- `_mem_get_sz`.
unfoldable pub mem_get_sz : Bytes → ℕ → ℕ → Outcome ℕ
mem_get_sz mem addr size =
    if size == LsSize.byte
    then (do v ← load_bytes 1 mem addr; done (sign_extend v 8))
    else if size == LsSize.byteu
    then load_bytes 1 mem addr
    else if size == LsSize.hword
    then (do v ← load_bytes 2 mem addr; done (sign_extend v 16))
    else if size == LsSize.hwordu
    then load_bytes 2 mem addr
    else if size == LsSize.word
    then load_bytes 4 mem addr
    else fault assertion

-- `_mem_set_sz`.
unfoldable pub mem_set_sz : Bytes → ℕ → ℕ → ℕ → Outcome Bytes
mem_set_sz mem addr value size =
    if size == LsSize.byte
    then store_bytes 1 mem addr value
    else if size == LsSize.hword
    then store_bytes 2 mem addr value
    else if size == LsSize.word
    then store_bytes 4 mem addr value
    else fault assertion

unfoldable pub mem_set : Bytes → ℕ → ℕ → Outcome Bytes
mem_set mem addr value = do defined (ltb addr mem_size); done (update mem addr value)

-- The only access that checks its address.
pub mem_get : Bytes → ℕ → ℕ
mem_get mem addr = if leb mem_size addr then 0 else mem addr

unfoldable pub mem_get_inst : Bytes → ℕ → Outcome ℕ
mem_get_inst mem addr = mem_get_sz mem addr LsSize.word
