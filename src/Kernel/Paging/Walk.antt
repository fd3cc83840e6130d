-- ===== src/Kernel/Paging/Walk.antt =====
-- How the processor finds the entry of a page in the tables of kernel/src/paging.c.
use frosk.Prelude.{ℕ, zero, suc, ◌+◌, ◌%◌, ◌<◌, ◌≡◌, Option, some, if◌then◌else◌, true}
use frosk.Cstd.Memory.{Mem}
use frosk.Kernel.Paging.{page, present, pml4t_loc, get_entry_addr}

-- the shift of a level, 0 that of the entries of pages
abbrev pub shift : ℕ → ℕ
shift zero = 12
shift (suc zero) = 21
shift (suc (suc zero)) = 30
shift (suc (suc (suc n))) = 39

-- the entry of an address in the tables below a table of a level, 0 where a table is not present
abbrev pub walk : ℕ → ℕ → ℕ → Mem → ℕ
walk zero table a mem = mem (get_entry_addr a table 12)
walk (suc n) table a mem =
    let e = mem (get_entry_addr a table (shift (suc n))) in
    if present e then walk n (page e) a mem else 0

abbrev pub entry_of : ℕ → Mem → ℕ
entry_of a mem = walk 3 pml4t_loc a mem

-- Which table of the next level a table's entry leads to, by what leads to it: its level, the table, and
-- the entry. `none` is a page that is no table.
abbrev pub Back : Type 0
Back = ℕ → Option (ℕ × ℕ × ℕ)

-- the tables are a tree: what is present in a table above the last level leads to a table that is led to
-- by this entry only
pub record IsTree (back : Back) (mem : Mem) : Type 0 where
  pub root : back pml4t_loc ≡ some (3, 0, 0)
  pub aligned : (t k p i : ℕ) → back t ≡ some (k, p, i) → t % 0x1000 ≡ 0
  pub below :
      (t k p i j : ℕ)
      → back t ≡ some (suc k, p, i)
      → j < 0x1000
      → present (mem (t + j)) ≡ true
      → back (page (mem (t + j))) ≡ some (k, t, j)
