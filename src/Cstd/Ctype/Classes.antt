-- ===== src/Cstd/Ctype/Classes.antt =====
-- How the character classes of lib/cstd/src/ctype.c relate.
use frosk.Prelude.{ℕ, ◌+◌, ◌≡◌, Bool, true, false, ◌==◌, if◌then◌else◌, arith}
use frosk.Cstd.Ctype.{isupper, islower, isdigit, isprint, ispunct, tolower, toupper}

abbrev pub one : Bool → ℕ
one b = if b then 1 else 0

-- Each printing character is in exactly one of five classes, and no other character is in any:
-- the space, the upper letters, the lower letters, the digits and the punctuation.
pub isprint_partition :
    (c : ℕ)
    → one (c == 0x20) + one (isupper c) + one (islower c) + one (isdigit c) + one (ispunct c)
      ≡ one (isprint c)
unfolding ispunct
isprint_partition c = ground arith

-- On an upper letter `tolower` gives a lower letter, from which `toupper` gives it back; it leaves
-- every other character alone. So does `toupper` the other way round, and neither changes what
-- its own results are.
pub tolower-toupper :
    (c : ℕ)
    → (isupper c ≡ true → (islower (tolower c) ≡ true) × (toupper (tolower c) ≡ c))
      × (isupper c ≡ false → tolower c ≡ c)
      × (islower c ≡ true → (isupper (toupper c) ≡ true) × (tolower (toupper c) ≡ c))
      × (islower c ≡ false → toupper c ≡ c)
      × (tolower (toupper c) ≡ tolower c)
      × (toupper (tolower c) ≡ toupper c)
unfolding tolower toupper
tolower-toupper c = (
  λ h. (ground arith, ground arith),
  λ h. ground arith,
  λ h. (ground arith, ground arith),
  λ h. ground arith,
  ground arith,
  ground arith,
)
