-- ===== src/Io.antt =====
-- io.c: the reader of the program image and the result that is printed. The input is the list of the codes of its characters, all in the
-- ASCII range, and an empty list is its end. The conversion of `scanf("%x")` is a parameter: it returns the
-- number and the input after it, or nothing where it does not match.
pub mod Image
pub mod Range
use fakerv32i.Base.{
  ℕ, zero, suc, ◌+◌, ◌*◌, ◌/◌, ◌%◌, ◌^◌, bit_and, Bool, true, false, not, ◌&&◌, ◌||◌, ◌==◌, leb,
  if◌then◌else◌, Outcome, done, fault, assertion, undefined, ◌>>=◌, ◌>>◌, in_range, Option, none,
  some, List, [], ◌∷◌,
}
use fakerv32i.Memory.{Bytes, mem_set}
use fakerv32i.RegStore.{RegStore, reg_store_get}
use fakerv32i.Word.{u8, add_word}

abbrev pub Text : Type 0
Text = List ℕ

abbrev pub at_sign : ℕ
at_sign = 64

-- `isalnum` of the C locale.
abbrev pub isalnum : ℕ → Bool
isalnum c = (leb 48 c && leb c 57) || ((leb 65 c && leb c 90) || (leb 97 c && leb c 122))

-- The loop over `getchar` up to the next number, section or end, with the character at which it stops
-- (`none` for EOF) and the input after it; `ungetc` puts the first character of a number back.
unfoldable pub next_stop : Text → Option ℕ × Text
next_stop [] = (none, [])
next_stop (c ∷ cs) =
    let rest = next_stop cs in
    if c == at_sign then (some c, cs) else if isalnum c then (some c, c ∷ cs) else rest

-- `c != '@' && c != EOF`.
abbrev pub goes_on : Option ℕ → Bool
goes_on none = false
goes_on (some c) = not (c == at_sign)

-- The assertion at the start of a section.
abbrev pub starts_section : Option ℕ → Outcome (Unit {0})
starts_section none = fault assertion
starts_section (some c) = if c == at_sign then done tt else fault assertion

module _ (scan : Text → Option (ℕ × Text)) where
  -- `_read_num`; a conversion that fails leaves `word` without a value.
  unfoldable pub read_num : Text → Outcome (ℕ × Text)
  read_num input = in_range (scan input)

  -- The inner loop over the octets of a section, with a bound on its rounds. It returns the memory, the
  -- last character that it read and the input after that.
  unfoldable pub read_octets : ℕ → Bytes → ℕ → Text → Outcome (Option (Bytes × Option ℕ × Text))
  read_octets zero mem addr input = done none
  read_octets (suc fuel) mem addr input = do
    (octet, after) ← read_num input
    mem' ← mem_set mem addr (u8 octet)
    let (c, rest) = next_stop after
    elim (goes_on c) [
      | true ↦ read_octets fuel mem' (add_word addr 1) rest
      | false ↦ done (some (mem', c, rest))
    ]

  -- The outer loop over the sections, from the character that was read last.
  unfoldable pub read_sections : ℕ → Bytes → Option ℕ → Text → Outcome (Option Bytes)
  read_sections zero mem c input = done none
  read_sections (suc fuel) mem c input = do
    starts_section c
    (addr, after) ← read_num input
    section ← read_octets fuel mem addr after
    elim section [
      | none ↦ done none
      | some (mem', none, rest) ↦ done (some mem')
      | some (mem', some c', rest) ↦ read_sections fuel mem' (some c') rest
    ]

  -- `none` if the bound is too low.
  unfoldable pub read_to_memory : ℕ → Bytes → Text → Outcome (Option Bytes)
  read_to_memory fuel mem [] = read_sections fuel mem none []
  read_to_memory fuel mem (c ∷ cs) = read_sections fuel mem (some c) cs

-- The number that `write_result` prints.
pub write_result : RegStore → Outcome ℕ
write_result unit = do res ← reg_store_get unit 10; done (bit_and res 255)
