-- ===== src/Cstd/Stdlib/Examples.antt =====
-- Strings with numbers, and a division.
use Prim.{tt}
use frosk.Prelude.{◌≡◌, refl, some, [], ◌∷◌, arith}
use frosk.Prelude.Int.{pos, ◌-ℤ◌}
use frosk.Cstd.Ctype.{isspace, isdigit}
use frosk.Cstd.Stdlib.{div, atol}
use frosk.Cstd.Stdlib.Atol.{atol_lem}

-- The remainder is the quotient.
seven_by_two : div 7 2 ≡ some (record { quot = 3; rem = 3 })
unfolding div
seven_by_two = refl

atol_lem_example :
    (atol (b' ' ∷ b'4' ∷ b'2' ∷ b'x' ∷ []) ≡ pos 42)
    × (atol (b' ' ∷ b'-' ∷ b'4' ∷ b'2' ∷ b'x' ∷ []) ≡ pos 0 -ℤ pos 42)
unfolding isspace isdigit
atol_lem_example =
    atol_lem (b' ' ∷ []) 4 (2 ∷ []) (b'x' ∷ []) (refl, tt) (omega arith, (omega arith, tt)) refl
      (omega arith)
