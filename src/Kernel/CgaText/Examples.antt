-- ===== src/Kernel/CgaText/Examples.antt =====
-- A screen with one cell written.
use mathlib.Core.Option
use frosk.Prelude.{ℕ, ◌≡◌, refl, true, some, List, [], ◌∷◌}
use frosk.Prelude.Int.{negsuc}
use frosk.Kernel.CgaText.{Screen, ensure_cleared, puts}
use frosk.Kernel.CgaText.Numbers.{putu, putl, count_digits, write_digits}
use frosk.Kernel.CgaText.Cells.{Printed, place, puts_lem}

abbrev screen : Screen
screen = record { mem = λ a. 0; cursor = 2; cleared = true }

puts_lem_example :
    (s' : Screen) × (puts (b'a' ∷ 10 ∷ b'b' ∷ []) screen ≡ some s')
    × Printed (ensure_cleared screen).mem (ensure_cleared screen).cursor (b'a' ∷ 10 ∷ b'b' ∷ []) s'
unfolding ensure_cleared
puts_lem_example = puts_lem (b'a' ∷ 10 ∷ b'b' ∷ []) screen refl

-- A newline at the start of a line stays there.
second_newline : place 2 (10 ∷ 10 ∷ []) ≡ place 2 (10 ∷ [])
second_newline = refl

-- the characters of five cells
abbrev cells : Screen → List ℕ
cells s = s.mem 0 ∷ s.mem 2 ∷ s.mem 4 ∷ s.mem 6 ∷ s.cursor ∷ []

abbrev blank : Screen
blank = record { mem = λ a. 0; cursor = 0; cleared = true }

putu_hexadecimal : Option.map cells (putu 0x2AF 16 blank) ≡ some (b'2' ∷ b'A' ∷ b'F' ∷ 0 ∷ 6 ∷ [])
unfolding putu ensure_cleared count_digits write_digits
putu_hexadecimal = refl

putl_negative :
    Option.map cells (putl (negsuc 41) 10 blank) ≡ some (b'-' ∷ b'4' ∷ b'2' ∷ 0 ∷ 6 ∷ [])
unfolding putl putu ensure_cleared count_digits write_digits
putl_negative = refl
