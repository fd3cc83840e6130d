-- ===== src/Kernel/Paging/Ranges.antt =====
-- `page_in` and `swap_ws` of kernel/src/paging.c, for addresses of programs.
use mathlib.Core.Option
use frosk.Prelude.{
  ℕ, zero, suc, ◌+◌, ◌-◌, ◌*◌, ◌/◌, ◌%◌, ◌^◌, ◌<◌, ◌≤◌, ◌≡◌, ◌&&◌, Option, some, List, [], ◌∷◌,
  if◌then◌else◌, leb, ltb,
}
use frosk.Kernel.Paging.{State, Region, page, pages_of}
use frosk.Kernel.Paging.Walk.{entry_of, Back, IsTree}
use frosk.Kernel.Paging.Tables.{Supply}
use frosk.Kernel.Paging.Entry.{page_number}

-- three tables for each of n pages
abbrev pub tables_for : ℕ → ℕ → ℕ
tables_for zero m = m
tables_for (suc n) m = suc (suc (suc (tables_for n m)))

-- the entry of a page where n pages from vaddr on have entries from e on, one page each or none
abbrev pub in_range : ℕ → ℕ → ℕ → ℕ → ℕ → ℕ → ℕ
in_range n vaddr e step a old =
    let v = vaddr / 0x1000 in
    if leb v (page_number a) && ltb (page_number a) (v + n)
    then e + (page_number a - v) * step
    else old

-- the state after, in which entries are as said, with tables left over
abbrev Changed : ℕ → State → Option State → (ℕ → ℕ) → Type 0
Changed m st r entries =
    (back' : Back) × (st' : State) × (r ≡ some st')
    × IsTree back' st'.mem
    × Supply m back' st'.pages
    × ((a : ℕ) → entry_of a st'.mem ≡ entries a)

-- a region of pages of a program
abbrev pub IsRegion : Region → Type 0
IsRegion r =
    (r.flags < 0x1000)
    × (r.flags % 2 ≡ 1)
    × (r.vbase % 0x1000 ≡ 0)
    × (r.vbase + pages_of r.size * 0x1000 ≤ 2 ^ 47)
    × (page r.pbase + r.flags + pages_of r.size * 0x1000 < 2 ^ 64)
    × (r.size ≤ 0xFFFFF000)

abbrev pub AllRegions : List Region → Type 0
AllRegions [] = Unit
AllRegions (r ∷ rs) = IsRegion r × AllRegions rs

-- the entries when the regions have been mapped, and when they have been taken out
abbrev pub mapped : List Region → ℕ → ℕ → ℕ
mapped [] a x = x
mapped (r ∷ rs) a x =
    mapped rs a (in_range (pages_of r.size) r.vbase (page r.pbase + r.flags) 0x1000 a x)

abbrev pub unmapped : List Region → ℕ → ℕ → ℕ
unmapped [] a x = x
unmapped (r ∷ rs) a x = unmapped rs a (in_range (pages_of r.size) r.vbase 0 0 a x)

abbrev pub tables_for_all : List Region → ℕ → ℕ
tables_for_all [] m = m
tables_for_all (r ∷ rs) m = tables_for (pages_of r.size) (tables_for_all rs m)
