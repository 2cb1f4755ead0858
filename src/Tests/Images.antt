-- ===== src/Tests/Images.antt =====
-- Instances for the reader of images, with a scanner of hexadecimal numbers.
use fakerv32i.Base.{
  ℕ, ◌+◌, ◌-◌, ◌*◌, ◌≡◌, refl, arith, Bool, ◌&&◌, ◌||◌, ◌==◌, leb, if◌then◌else◌, [], ◌∷◌, Option,
  none, some, done,
}
use fakerv32i.Io.{Text, read_to_memory}
use fakerv32i.Io.Image.{
  Number, Section, IsRead, IsImage, SkipsBlanks, image_text, place_image, read_to_memory-image,
}
use fakerv32i.Memory.{Bytes}

abbrev is_digit : ℕ → Bool
is_digit c = (leb 48 c && leb c 57) || (leb 97 c && leb c 102)

abbrev digit : ℕ → ℕ
digit c = if leb c 57 then c - 48 else c - 87

unfoldable pub digits : ℕ → Text → ℕ × Text
digits acc [] = (acc, [])
digits acc (c ∷ cs) =
    let rest = digits (acc * 16 + digit c) cs in if is_digit c then rest else (acc, c ∷ cs)

unfoldable pub scan_hex : Text → Option (ℕ × Text)
scan_hex [] = none
scan_hex (c ∷ cs) =
    let rest = scan_hex cs in
    if (c == 32) || (c == 10) then rest else if is_digit c then some (digits 0 (c ∷ cs)) else none

scan_hex-SkipsBlanks : SkipsBlanks scan_hex
unfolding scan_hex
scan_hex-SkipsBlanks c rest h = ground arith

-- Lines of an address 100 with the octets 6f and 1, and of an address 0 with the octet 6f.
abbrev number_100 : Number
number_100 = record { value = 0x100; text = 49 ∷ 48 ∷ 48 ∷ [] }

abbrev number_6f : Number
number_6f = record { value = 0x6f; text = 54 ∷ 102 ∷ [] }

abbrev number_1 : Number
number_1 = record { value = 1; text = 49 ∷ [] }

abbrev number_0 : Number
number_0 = record { value = 0; text = 48 ∷ [] }

abbrev first_section : Section
first_section = record { start = number_100; first = number_6f; others = number_1 ∷ [] }

abbrev second_section : Section
second_section = record { start = number_0; first = number_6f; others = [] }

number_100-IsRead : IsRead scan_hex number_100
unfolding scan_hex digits
number_100-IsRead = (refl, λ c rest h. ground arith)

number_6f-IsRead : IsRead scan_hex number_6f
unfolding scan_hex digits
number_6f-IsRead = (refl, λ c rest h. ground arith)

number_1-IsRead : IsRead scan_hex number_1
unfolding scan_hex digits
number_1-IsRead = (refl, λ c rest h. ground arith)

number_0-IsRead : IsRead scan_hex number_0
unfolding scan_hex digits
number_0-IsRead = (refl, λ c rest h. ground arith)

abbrev blank_memory : Bytes
blank_memory a = 0

two_sections-IsImage : IsImage scan_hex (first_section ∷ second_section ∷ [])
two_sections-IsImage = (
  number_100-IsRead,
  (number_6f-IsRead, (number_1-IsRead, tt)),
  omega arith,
  (number_0-IsRead, (number_6f-IsRead, tt), omega arith, tt),
)

read_to_memory-image_example :
    read_to_memory scan_hex 5 blank_memory (image_text (first_section ∷ second_section ∷ []))
    ≡ done (some (place_image blank_memory (first_section ∷ second_section ∷ [])))
read_to_memory-image_example =
    read_to_memory-image scan_hex first_section (second_section ∷ []) blank_memory 5
      scan_hex-SkipsBlanks two_sections-IsImage (omega arith)
