-- ===== src/Memory/Pending/Flags.antt =====
-- memory.c: the flags of the pending requests, and what `_mem_tick` leaves of them during a clear.
use fakerv32i.Base.{◌≡◌, refl, Bool, false, List, [], ◌∷◌, length, map, replicate}
use fakerv32i.Reg.{
  RegReduce, reg_reduce_tick, reg_reduce_read, reg_or_write, reg_or_reduce, reg_reduce_write,
}
use fakerv32i.Memory.Pending.{read_flags, write_flags}

-- Registers made by `reg_or_create`: each cycle starts from false.
abbrev pub StartFalse : List (RegReduce Bool) → Type 0
StartFalse [] = Unit
StartFalse (r ∷ rest) = (r.init ≡ false) × StartFalse rest

-- Flags that nobody writes for a cycle are false after it.
pub read_flags-unwritten :
    (rs : List (RegReduce Bool))
    → StartFalse rs
    → read_flags (map reg_reduce_tick (map reg_reduce_tick rs)) ≡ replicate (length rs) false
unfolding read_flags reg_reduce_tick reg_reduce_read
read_flags-unwritten [] h = refl
read_flags-unwritten (r ∷ rest) h = rw (h.0, read_flags-unwritten rest h.1) refl

-- Flags that are written as they were read stay.
pub read_flags-write_flags :
    (rs : List (RegReduce Bool))
    → StartFalse rs
    → read_flags (
        map reg_reduce_tick
          (write_flags (map reg_reduce_tick rs) (read_flags (map reg_reduce_tick rs))))
      ≡ read_flags (map reg_reduce_tick rs)
unfolding read_flags write_flags reg_reduce_tick reg_reduce_read reg_or_write reg_or_reduce
    reg_reduce_write
read_flags-write_flags [] h = refl
read_flags-write_flags (r ∷ rest) h = rw (h.0, read_flags-write_flags rest h.1) refl
