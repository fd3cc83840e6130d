-- ===== src/Kernel/Driver.antt =====
-- kernel/src/driver.c: the table of drivers and the dispatch of a call. The drivers' functions are a
-- parameter: from what they are given and a state to a result and a state. `none` is a read outside
-- a table.
mod Examples
use frosk.Prelude.{
  ℕ, ◌+◌, ◌-◌, ◌*◌, ◌%◌, ◌^◌, Option, none, some, List, [], ◌∷◌, ◌==◌, leb, if◌then◌else◌, length,
  get_elem?,
}
use frosk.Prelude.Int.{ℤ, pos, negsuc}

module _ (P S : Type 0) where
  abbrev pub Function : Type 0
  Function = P → S → ℤ × S

  -- `function_count` is the number that the guard of `driver_call` goes by
  pub record Driver : Type 0 where
    pub flags : ℕ
    pub function_count : ℕ
    pub functions : List (Option Function)

  -- BUILTIN_DRIVER, up to its call of the driver's first function; `sizeof` counts bytes
  unfoldable pub builtin_driver : List (Option Function) → ℕ → Driver
  builtin_driver functions type = record {
    flags = 1 + 2 + type * 4;
    function_count = 8 * length functions;
    functions = functions;
  }

  -- the function at an index, if the pointer is not null
  unfoldable pub call_function : Option (Option Function) → P → S → Option (ℤ × S)
  call_function none params s = none
  call_function (some none) params s = some (pos 0, s)
  call_function (some (some f)) params s = some (f params s)

  unfoldable pub call_driver : Option Driver → ℕ → P → S → Option (ℤ × S)
  call_driver none func params s = none
  call_driver (some d) func params s =
      if d.flags % 2 == 0
      then some (pos d.flags, s)
      else if func == 2 ^ 32 - 1
      then some (pos 0, s)
      else if leb d.function_count func
      then some (negsuc 2, s)
      else call_function (get_elem? d.functions func) params s

  unfoldable pub driver_call : List Driver → ℕ → ℕ → P → S → Option (ℤ × S)
  driver_call drivers drvr func params s =
      if leb 0x100 drvr
      then some (negsuc 0, s)
      else call_driver (get_elem? drivers drvr) func params s
