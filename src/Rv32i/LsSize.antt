-- ===== src/Rv32i/LsSize.antt =====
-- `ls_size_t` of rv32i.h. The enumerators are numbers, since the decoder casts a field to the type.
use fakerv32i.Base.{ℕ}

abbrev pub byte : ℕ
byte = 0

abbrev pub hword : ℕ
hword = 1

abbrev pub word : ℕ
word = 2

abbrev pub byteu : ℕ
byteu = 0b100

abbrev pub hwordu : ℕ
hwordu = 0b101
