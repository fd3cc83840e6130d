-- ===== src/Kernel/Paging/Examples.antt =====
-- Empty tables and a manager with free pages from 0x100000 on: a workspace of one region replaces another.
use frosk.Prelude.{ℕ, zero, suc, ◌+◌, ◌-◌, ◌*◌, some, none, [], ◌∷◌, ◌==◌, if◌then◌else◌}
use frosk.Kernel.Pages.{Manager}
use frosk.Kernel.Paging.{State, Region, pml4t_loc, Current}
use frosk.Kernel.Paging.Walk.{Back}

abbrev root_only : Back
root_only q = if q == pml4t_loc then some (3, 0, 0) else none

-- a manager that has given out n of 64 pages
abbrev manager : ℕ → Manager
manager n = record {
  phys =
      record { obj = 0; type = 1; addr = 0x100000 + n * 0x1000; size = 0x40000 - n * 0x1000 } ∷ [];
  kvirt = [];
  kobjs = [];
}

abbrev state : State
state = record { mem = λ a. 0; window = 3; pages = manager 0 }

-- one page at 0x200000, and one page at 0x100000
abbrev old_region : Region
old_region = record { obj = 0; size = 40; flags = 7; vbase = 0x200000; pbase = 0x180000 }

abbrev new_region : Region
new_region = record { obj = 0; size = 0x1000; flags = 7; vbase = 0x100000; pbase = 0x190000 }

abbrev current : Current
current zero = []
current (suc i) = old_region ∷ []
