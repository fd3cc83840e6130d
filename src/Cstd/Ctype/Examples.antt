-- ===== src/Cstd/Ctype/Examples.antt =====
-- Tests of the character classes, and their theorems at a letter.
use frosk.Prelude.{◌≡◌, refl, true, false}
use frosk.Cstd.Ctype.{isxdigit, ispunct, isspace, iscntrl}

hex_digits : (isxdigit b'c' ≡ true) × (isxdigit b'g' ≡ false) × (ispunct b'!' ≡ true)
unfolding isxdigit ispunct
hex_digits = (refl, refl, refl)

-- A control code, which `iscntrl` does not accept.
tab_class : (iscntrl 0x09 ≡ false) × (isspace 0x09 ≡ true)
unfolding iscntrl isspace
tab_class = (refl, refl)
