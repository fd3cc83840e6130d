-- ===== src/Cstd/Stdlib/Atol.antt =====
-- `atol` of lib/cstd/src/stdlib.c reads decimal numbers.
use frosk.Prelude.{
  ℕ, ◌+◌, ◌-◌, ◌*◌, ◌%◌, ◌^◌, ◌≤◌, ◌<◌, ◌≡◌, refl, ap, true, false, List, [], ◌∷◌, ◌++◌, ◌==◌,
  arith,
}
use frosk.Prelude.Int.{pos, ◌-ℤ◌}
use frosk.Cstd.Ctype.{isspace, isdigit}
use frosk.Cstd.Stdlib.{skip_spaces, add_digits, to_long, negate, signed_digits, atol}

-- the value of decimal digits behind others of value t, and the digits as characters before a tail
abbrev pub decimal : ℕ → List ℕ → ℕ
decimal t [] = t
decimal t (d ∷ ds) = decimal (t * 10 + d) ds

abbrev pub shown : List ℕ → List ℕ → List ℕ
shown [] tail = tail
shown (d ∷ ds) tail = (b'0' + d) ∷ shown ds tail

abbrev pub AllDigits : List ℕ → Type 0
AllDigits [] = Unit
AllDigits (d ∷ ds) = (d < 10) × AllDigits ds

abbrev pub AllSpaces : List ℕ → Type 0
AllSpaces [] = Unit
AllSpaces (c ∷ s) = (isspace c ≡ true) × AllSpaces s

-- the number ends before the tail
abbrev pub Ends : List ℕ → Type 0
Ends [] = Unit
Ends (c ∷ s) = isdigit c ≡ false

decimal_le : (t : ℕ) (ds : List ℕ) → t ≤ decimal t ds
decimal_le t [] = omega arith
decimal_le t (d ∷ ds) = let more = decimal_le (t * 10 + d) ds in omega (arith, more)

isdigit-digit : (d : ℕ) → d < 10 → isdigit (b'0' + d) ≡ true
unfolding isdigit
isdigit-digit d h = ground (arith, h)

add_digits_lem :
    (t : ℕ) (ds tail : List ℕ)
    → AllDigits ds
    → Ends tail
    → decimal t ds < 2 ^ 63
    → add_digits t (shown ds tail) ≡ decimal t ds
unfolding add_digits
add_digits_lem t [] [] all ends small = refl
add_digits_lem t [] (c ∷ s) all ends small = rw ends refl
add_digits_lem t (d ∷ ds) tail (digit, all) ends small =
    let le = decimal_le (t * 10 + d) ds in
    let value : (t * 10 + (b'0' + d - b'0')) % 2 ^ 64 ≡ t * 10 + d = omega (arith, le, small) in
    rw (isdigit-digit d digit) (rw value (add_digits_lem (t * 10 + d) ds tail all ends small))

skip_spaces_lem :
    (sp : List ℕ) (c : ℕ) (s : List ℕ)
    → AllSpaces sp
    → isspace c ≡ false
    → skip_spaces (sp ++ (c ∷ s)) ≡ c ∷ s
unfolding skip_spaces
skip_spaces_lem [] c s all h = rw h refl
skip_spaces_lem (x ∷ sp) c s (e, all) h = rw e (skip_spaces_lem sp c s all h)

isspace-digit : (d : ℕ) → d < 10 → isspace (b'0' + d) ≡ false
unfolding isspace
isspace-digit d h = ground (arith, h)

isspace-minus : isspace b'-' ≡ false
unfolding isspace
isspace-minus = refl

-- `atol` of white space and then decimal digits, of a value below 2^63, before the end of the string or
-- a character that is no digit, is that value; and with a minus sign before the digits it is the value
-- subtracted from 0.
pub atol_lem :
    (sp : List ℕ) (d : ℕ) (ds tail : List ℕ)
    → AllSpaces sp
    → AllDigits (d ∷ ds)
    → Ends tail
    → decimal 0 (d ∷ ds) < 2 ^ 63
    → (atol (sp ++ shown (d ∷ ds) tail) ≡ pos (decimal 0 (d ∷ ds)))
      × (atol (sp ++ (b'-' ∷ shown (d ∷ ds) tail)) ≡ pos 0 -ℤ pos (decimal 0 (d ∷ ds)))
unfolding atol signed_digits
atol_lem sp d ds tail spaces (digit, all) ends small =
    let value = add_digits_lem 0 (d ∷ ds) tail (digit, all) ends small in
    let long : to_long (decimal 0 (d ∷ ds)) ≡ pos (decimal 0 (d ∷ ds)) = ground (arith, small) in
    let plain : (b'0' + d == b'-') ≡ false = ground arith in
    (
      rw (skip_spaces_lem sp (b'0' + d) (shown ds tail) spaces (isspace-digit d digit))
          (rw plain (rw value long)),
      rw (skip_spaces_lem sp b'-' (shown (d ∷ ds) tail) spaces isspace-minus)
          (rw value (ap negate long)),
    )
