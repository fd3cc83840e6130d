-- ===== src/Cstd/Strings/Examples.antt =====
-- Two strings in a memory, and the theorems of Strings at them.
use mathlib.Core.Option
use frosk.Prelude.{ℕ, ◌+◌, ◌≤◌, ◌<◌, ◌⊎◌, inr, ◌≡◌, refl, some, List, [], ◌∷◌, arith, get_or}
use frosk.Cstd.Memory.{Mem, IsString}
use frosk.Cstd.Strings.{strcpy}
use frosk.Cstd.Strings.Copy.{strcpy-memcpy}

-- "ab" at 0, "abc" at 3, and other bytes behind
abbrev mem : Mem
mem a = get_or (97 ∷ 98 ∷ 0 ∷ 97 ∷ 98 ∷ 99 ∷ 0 ∷ 7 ∷ 7 ∷ 7 ∷ 7 ∷ []) a 0

abbrev ab : List ℕ
ab = 97 ∷ 98 ∷ []

ab-IsString : IsString mem 0 ab
ab-IsString = omega arith

-- The 7 behind the copy is not replaced by a 0.
strcpy_no_end :
    Option.map {B = ℕ × ℕ × ℕ} (λ m. (m 7, m 8, m 9)) (strcpy 9 mem 7 0) ≡ some (97, 98, 7)
unfolding strcpy
strcpy_no_end = refl

strcpy-memcpy_example :
    (m' : Mem) × (strcpy 2 mem 7 0 ≡ some m')
    × ((i : ℕ) → i < 2 → m' (7 + i) ≡ mem (0 + i))
    × ((a : ℕ) → (a < 7) ⊎ (7 + 2 ≤ a) → m' a ≡ mem a)
strcpy-memcpy_example =
    strcpy-memcpy 2 mem 7 0 97 (98 ∷ []) ab-IsString (inr (omega arith)) (omega arith)
