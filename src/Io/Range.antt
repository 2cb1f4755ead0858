-- ===== src/Io/Range.antt =====
-- The reader of io.c leaves bytes in memory, whatever it reads.
use fakerv32i.Base.{
  ℕ, zero, suc, ◌≡◌, arith, Bool, true, false, [], ◌∷◌, Option, none, some, Outcome, done, Always,
  Always-bind, Always-then, Always-done, Always-defined, ltb,
}
use fakerv32i.Io.{
  Text, next_stop, goes_on, starts_section, read_num, read_octets, read_sections, read_to_memory,
}
use fakerv32i.Memory.{Bytes, mem_set, mem_size, update}
use fakerv32i.Memory.Access.{IsBytes}
use fakerv32i.Word.{add_word, u8}

mem_set-IsBytes :
    (mem : Bytes) (addr v : ℕ) → IsBytes mem → Always IsBytes (mem_set mem addr (u8 v))
unfolding mem_set
mem_set-IsBytes mem addr v h =
    Always-defined IsBytes (ltb addr mem_size) (done (update mem addr (u8 v)))
      λ _ j. ground (arith, h j)

module _ (scan : Text → Option (ℕ × Text)) where
  -- Bytes in memory, if the reader has come to an end.
  abbrev Octets : Option (Bytes × Option ℕ × Text) → Type 0
  Octets none = Unit
  Octets (some r) = IsBytes r.0

  abbrev pub Loaded : Option Bytes → Type 0
  Loaded none = Unit
  Loaded (some mem) = IsBytes mem

  -- Whichever way a round ends.
  choice :
      (b : Bool) (m k : Outcome (Option (Bytes × Option ℕ × Text)))
      → Always Octets m
      → Always Octets k
      → Always Octets (elim b [ true ↦ m | false ↦ k ])
  choice true m k hm hk = hm
  choice false m k hm hk = hk

  read_octets-Octets :
      (fuel : ℕ) (mem : Bytes) (addr : ℕ) (input : Text)
      → IsBytes mem
      → Always Octets (read_octets scan fuel mem addr input)
  unfolding read_octets
  read_octets-Octets zero mem addr input h = tt
  read_octets-Octets (suc fuel) mem addr input h = Always-then Octets (read_num scan input) _ λ r.
      Always-bind IsBytes Octets (mem_set mem addr (u8 r.0)) _ (mem_set-IsBytes mem addr r.0 h)
        λ mem' h'.
          choice (goes_on ((next_stop r.1).0))
            (read_octets scan fuel mem' (add_word addr 1) ((next_stop r.1).1))
            (done (some (mem', (next_stop r.1).0, (next_stop r.1).1)))
            (read_octets-Octets fuel mem' (add_word addr 1) ((next_stop r.1).1) h') h'

  after_section :
      (fuel : ℕ) (section : Option (Bytes × Option ℕ × Text))
      → Octets section
      → ((mem : Bytes) (c : ℕ) (rest : Text)
          → IsBytes mem
          → Always Loaded (read_sections scan fuel mem (some c) rest))
      → Always Loaded (elim section [
        | none ↦ done none
        | some (mem', none, rest) ↦ done (some mem')
        | some (mem', some c', rest) ↦ read_sections scan fuel mem' (some c') rest
      ])
  after_section fuel none hs k = tt
  after_section fuel (some (mem', none, rest)) hs k = hs
  after_section fuel (some (mem', some c', rest)) hs k = k mem' c' rest hs

  read_sections-Loaded :
      (fuel : ℕ) (mem : Bytes) (c : Option ℕ) (input : Text)
      → IsBytes mem
      → Always Loaded (read_sections scan fuel mem c input)
  unfolding read_sections
  read_sections-Loaded zero mem c input h = tt
  read_sections-Loaded (suc fuel) mem c input h = Always-then Loaded (starts_section c) _ λ _.
      Always-then Loaded (read_num scan input) _ λ r.
        Always-bind Octets Loaded (read_octets scan fuel mem r.0 r.1) _
          (read_octets-Octets fuel mem r.0 r.1 h)
          λ section hs.
            after_section fuel section hs
              (λ mem' c' rest h'. read_sections-Loaded fuel mem' (some c') rest h')

  -- Whatever the input, the reader leaves bytes in memory.
  pub read_to_memory-IsBytes :
      (fuel : ℕ) (mem : Bytes) (input : Text) (loaded : Bytes)
      → IsBytes mem
      → read_to_memory scan fuel mem input ≡ done (some loaded)
      → IsBytes loaded
  unfolding read_to_memory
  read_to_memory-IsBytes fuel mem [] loaded h e =
      Always-done Loaded (some loaded) _ e (read_sections-Loaded fuel mem none [] h)
  read_to_memory-IsBytes fuel mem (c ∷ cs) loaded h e =
      Always-done Loaded (some loaded) _ e (read_sections-Loaded fuel mem (some c) cs h)
