-- ===== src/Cstd/Stdlib.antt =====
-- lib/cstd/src/stdlib.c: numbers from strings, absolute values and `div`. A string is
-- the list of its characters. A `long` that is counted up is kept modulo 2^64.
pub mod Atol
mod Examples
use frosk.Prelude.{
  ℕ, suc, ◌+◌, ◌-◌, ◌*◌, ◌/◌, ◌%◌, ◌^◌, Bool, Option, none, some, List, [], ◌∷◌, ◌==◌, ltb,
  if◌then◌else◌,
}
use frosk.Prelude.Int.{ℤ, pos, negsuc, ◌-ℤ◌, ltb_ℤ}
use frosk.Cstd.Ctype.{isspace, isdigit}

unfoldable pub skip_spaces : List ℕ → List ℕ
skip_spaces [] = []
skip_spaces (c ∷ s) = if isspace c then skip_spaces s else c ∷ s

-- the loop over the digits
unfoldable pub add_digits : ℕ → List ℕ → ℕ
add_digits t [] = t
add_digits t (c ∷ s) =
    let rest = add_digits ((t * 10 + (c - b'0')) % 2 ^ 64) s in if isdigit c then rest else t

abbrev pub to_long : ℕ → ℤ
to_long t = if ltb t (2 ^ 63) then pos t else negsuc (2 ^ 64 - 1 - t)

abbrev pub negate : ℤ → ℤ
negate t = pos 0 -ℤ t

-- `atol` behind the spaces
unfoldable pub signed_digits : List ℕ → ℤ
signed_digits [] = pos 0
signed_digits (c ∷ s) =
    if c == b'-' then negate (to_long (add_digits 0 s)) else to_long (add_digits 0 (c ∷ s))

unfoldable pub atol : List ℕ → ℤ
atol s = signed_digits (skip_spaces s)

-- `abs` and `labs`
unfoldable pub abs : ℤ → ℤ
abs x = if ltb_ℤ x (pos 0) then negate x else x

pub record DivT : Type 0 where
  pub quot : ℕ
  pub rem : ℕ

-- `div` of numbers that are not negative; `none` is a division by 0
unfoldable pub div : ℕ → ℕ → Option DivT
div n d = let r : DivT = record { quot = n / d; rem = n / d } in if d == 0 then none else some r
