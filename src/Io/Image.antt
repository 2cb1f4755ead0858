-- ===== src/Io/Image.antt =====
-- The reader of io.c on the text of an image: sections of octets, each number on a line of its own.
use fakerv32i.Base.{
  ℕ, zero, suc, ◌+◌, ◌%◌, ◌^◌, ◌≤◌, ◌<◌, ◌≡◌, ◌⊎◌, inr, refl, ◌∙◌, arith, true, false, ltb, List,
  [], ◌∷◌, ◌++◌, length, Option, some, done,
}
use fakerv32i.Io.{
  Text, at_sign, isalnum, next_stop, goes_on, read_num, read_octets, read_sections, read_to_memory,
}
use fakerv32i.Word.{add_word}
use fakerv32i.Memory.{Bytes, mem_size, update, mem_set}

-- The characters that end a number here.
abbrev pub IsBlank : ℕ → Type 0
IsBlank c = (c ≡ 32) ⊎ (c ≡ 10)

abbrev pub StartsAlnum : Text → Type 0
StartsAlnum [] = ⊥
StartsAlnum (c ∷ cs) = isalnum c ≡ true

-- A number and its characters.
pub record Number : Type 0 where
  pub value : ℕ
  pub text : Text

-- The start of a section, its first octet and the others.
pub record Section : Type 0 where
  pub start : Number
  pub first : Number
  pub others : List Number

abbrev pub octets_text : List Number → Text → Text
octets_text [] tail = tail
octets_text (o ∷ os) tail = o.text ++ (10 ∷ octets_text os tail)

abbrev pub image_text : List Section → Text
image_text [] = []
image_text (s ∷ ss) =
    at_sign ∷ s.start.text ++ (10 ∷ octets_text (s.first ∷ s.others) (image_text ss))

-- What the text stands for.
abbrev pub place_octets : Bytes → ℕ → List Number → Bytes
place_octets mem addr [] = mem
place_octets mem addr (o ∷ os) = place_octets (update mem addr (o.value % 2 ^ 8)) (addr + 1) os

abbrev pub place_image : Bytes → List Section → Bytes
place_image mem [] = mem
place_image mem (s ∷ ss) = place_image (place_octets mem s.start.value (s.first ∷ s.others)) ss

-- Enough rounds for the image.
abbrev pub image_rounds : List Section → ℕ
image_rounds [] = 0
image_rounds (s ∷ ss) = length s.others + 2 + image_rounds ss

next_stop-StartsAlnum :
    (t rest : Text)
    → StartsAlnum t
    → (goes_on ((next_stop (t ++ rest)).0) ≡ true) × ((next_stop (t ++ rest)).1 ≡ t ++ rest)
unfolding next_stop
next_stop-StartsAlnum [] rest h = absurd h
next_stop-StartsAlnum (c ∷ cs) rest h = ground (arith, h)

-- An image ends or goes on with a section.
next_stop-image : (ss : List Section) → goes_on ((next_stop (image_text ss)).0) ≡ false
unfolding next_stop
next_stop-image [] = refl
next_stop-image (s ∷ ss) = refl

ltb-true : (addr : ℕ) → addr < mem_size → ltb addr mem_size ≡ true
ltb-true addr h = ground arith

add_word-fits : (addr : ℕ) → addr < mem_size → add_word addr 1 ≡ addr + 1
add_word-fits addr h = omega arith

module _ (scan : Text → Option (ℕ × Text)) where
  -- The conversion reads the characters up to a blank as the number.
  abbrev pub IsRead : Number → Type 0
  IsRead o =
      StartsAlnum o.text
      × ((c : ℕ) (rest : Text) → IsBlank c → scan (o.text ++ (c ∷ rest)) ≡ some (o.value, c ∷ rest))

  abbrev pub AreRead : List Number → Type 0
  AreRead [] = Unit
  AreRead (o ∷ os) = IsRead o × AreRead os

  -- Every number is one that the conversion reads, and every octet has a place in memory.
  abbrev pub IsImage : List Section → Type 0
  IsImage [] = Unit
  IsImage (s ∷ ss) =
      IsRead s.start
      × AreRead (s.first ∷ s.others)
      × (s.start.value + 1 + length s.others ≤ mem_size)
      × IsImage ss

  -- The octets up to the next section or the end, from an input at which the conversion reads the first.
  read_octets-place :
      (n : ℕ) (os : List Number) (ss : List Section) (mem : Bytes) (addr fuel : ℕ) (input : Text)
      → scan input ≡ some (n, 10 ∷ octets_text os (image_text ss))
      → AreRead os
      → addr + 1 + length os ≤ mem_size
      → length os + 1 ≤ fuel
      → read_octets scan fuel mem addr input
        ≡ done (
            some (
              place_octets (update mem addr (n % 2 ^ 8)) (addr + 1) os,
              (next_stop (image_text ss)).0,
              (next_stop (image_text ss)).1,
            ))
  unfolding read_octets read_num mem_set next_stop
  read_octets-place n os ss mem addr zero input reads h fits enough = absurd (omega arith)
  read_octets-place n [] ss mem addr (suc fuel) input reads h fits enough =
      rw (reads, ltb-true addr (omega arith), next_stop-image ss) refl
  read_octets-place n (o ∷ os) ss mem addr (suc fuel) input reads h fits enough =
      rw
        (
          reads,
          ltb-true addr (omega arith),
          (next_stop-StartsAlnum o.text (10 ∷ octets_text os (image_text ss)) h.0.0).0,
          (next_stop-StartsAlnum o.text (10 ∷ octets_text os (image_text ss)) h.0.0).1,
          add_word-fits addr (omega arith),
        )
        (read_octets-place o.value os ss (update mem addr (n % 2 ^ 8)) (addr + 1) fuel
          (o.text ++ (10 ∷ octets_text os (image_text ss)))
          (h.0.1 10 (octets_text os (image_text ss)) (inr refl)) h.1 (omega arith) (omega arith))

  -- A conversion skips a blank.
  abbrev pub SkipsBlanks : Type 0
  SkipsBlanks = (c : ℕ) (rest : Text) → IsBlank c → scan (c ∷ rest) ≡ scan rest

  read_first :
      (s : Section) (ss : List Section) (mem : Bytes) (fuel : ℕ)
      → SkipsBlanks
      → IsImage (s ∷ ss)
      → length s.others + 1 ≤ fuel
      → read_octets scan fuel mem s.start.value
          (10 ∷ octets_text (s.first ∷ s.others) (image_text ss))
        ≡ done (
            some (
              place_octets mem s.start.value (s.first ∷ s.others),
              (next_stop (image_text ss)).0,
              (next_stop (image_text ss)).1,
            ))
  read_first s ss mem fuel skips (start, (first, others), fits, more) enough =
      read_octets-place s.first.value s.others ss mem s.start.value fuel
        (10 ∷ octets_text (s.first ∷ s.others) (image_text ss))
        (skips 10 (octets_text (s.first ∷ s.others) (image_text ss)) (inr refl)
          ∙ first.1 10 (octets_text s.others (image_text ss)) (inr refl))
        others fits enough

  read_sections-place :
      (s : Section) (ss : List Section) (mem : Bytes) (fuel : ℕ)
      → SkipsBlanks
      → IsImage (s ∷ ss)
      → image_rounds (s ∷ ss) ≤ fuel
      → read_sections scan fuel mem
          (some at_sign)
          (s.start.text ++ (10 ∷ octets_text (s.first ∷ s.others) (image_text ss)))
        ≡ done (some (place_image mem (s ∷ ss)))
  unfolding read_sections read_num next_stop
  read_sections-place s ss mem zero skips h enough = absurd (omega arith)
  read_sections-place s [] mem (suc fuel) skips h enough =
      rw
        (
          h.0.1 10 (octets_text (s.first ∷ s.others) []) (inr refl),
          read_first s [] mem fuel skips h (omega arith),
        )
        refl
  read_sections-place s (s' ∷ ss) mem (suc fuel) skips h enough =
      rw
        (
          h.0.1 10 (octets_text (s.first ∷ s.others) (image_text (s' ∷ ss))) (inr refl),
          read_first s (s' ∷ ss) mem fuel skips h (omega arith),
        )
        (read_sections-place s' ss (place_octets mem s.start.value (s.first ∷ s.others)) fuel skips
          h.3 (omega arith))

  -- If the conversion skips blanks and reads every number of an image with at least one section, and
  -- every octet has a place in memory, the reader accepts the text of the image and puts each octet,
  -- section by section, at the addresses from the start of its section on.
  pub read_to_memory-image :
      (s : Section) (ss : List Section) (mem : Bytes) (fuel : ℕ)
      → SkipsBlanks
      → IsImage (s ∷ ss)
      → image_rounds (s ∷ ss) ≤ fuel
      → read_to_memory scan fuel mem (image_text (s ∷ ss)) ≡ done (some (place_image mem (s ∷ ss)))
  unfolding read_to_memory
  read_to_memory-image s ss mem fuel skips h enough =
      read_sections-place s ss mem fuel skips h enough
