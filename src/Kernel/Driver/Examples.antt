-- ===== src/Kernel/Driver/Examples.antt =====
-- A table with one driver of one function.
use frosk.Prelude.{ℕ, ◌+◌, ◌≡◌, refl, none, some, List, [], ◌∷◌}
use frosk.Prelude.Int.{ℤ, pos, negsuc}
use frosk.Kernel.Driver.{Driver, builtin_driver, call_function, call_driver, driver_call}

abbrev count : ℕ → ℕ → ℤ × ℕ
count n s = (pos n, s + n)

abbrev drivers : List (Driver ℕ ℕ)
drivers = builtin_driver ℕ ℕ (some count ∷ []) 0 ∷ []

first_function : driver_call ℕ ℕ drivers 0 0 5 1 ≡ some (pos 5, 6)
unfolding driver_call call_driver call_function builtin_driver
first_function = refl

no_driver : driver_call ℕ ℕ drivers 0x100 0 5 1 ≡ some (negsuc 0, 1)
unfolding driver_call
no_driver = refl

-- The guard lets through a number behind the table's end.
outside : driver_call ℕ ℕ drivers 0 1 5 1 ≡ none
unfolding driver_call call_driver call_function builtin_driver
outside = refl
