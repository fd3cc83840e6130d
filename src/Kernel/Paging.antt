-- ===== src/Kernel/Paging.antt =====
-- kernel/src/paging.c: the page tables, four levels of 512 entries, and workspaces. `mem` is what `ATQ`
-- reads at a physical address; low addresses are mapped to themselves, and the page at `kspace_loc` to the
-- table that `window` (the entry at KPT0_0_LOC) names. `|` of the flags and an address that is a multiple
-- of 0x1000 is their sum. A workspace is the list of its regions. `none` is a null object that is used,
-- an index outside `cur_ws`, or a loop that does not end. `window` lies in the table of the page at
-- `kspace_loc`, as that page's entry; `mem` does not hold it, so that of this page the tables say nothing.
pub mod Walk
pub mod Tables
pub mod Fresh
pub mod Maps
pub mod Entry
pub mod Ranges
mod Examples
use mathlib.Core.Option
use frosk.Prelude.{
  ℕ, zero, suc, ◌+◌, ◌-◌, ◌*◌, ◌/◌, ◌%◌, ◌^◌, Bool, Option, some, none, List, [], ◌∷◌, ◌++◌, ◌==◌,
  leb, ltb, if◌then◌else◌,
}
use frosk.Cstd.Memory.{Mem, write}
use frosk.Cstd.Malloc.{clear}
use frosk.Kernel.Kobj.{Header, alloc_kobj, free_kobj}
use frosk.Kernel.Pages.{Manager, phys_pages, alloc_pages}

abbrev pub kspace_loc : ℕ
kspace_loc = 0xFFFF800000000000

abbrev pub non_canon_size : ℕ
non_canon_size = 0xFFFF000000000000

abbrev pub pml4t_loc : ℕ
pml4t_loc = 0x2000

-- a region of a workspace, with the address of its object
pub record Region : Type 0 where
  pub obj : ℕ
  pub size : ℕ
  pub flags : ℕ
  pub vbase : ℕ
  pub pbase : ℕ

pub record State : Type 0 where
  pub mem : Mem
  pub window : ℕ
  pub pages : Manager

-- the page of an entry
abbrev pub page : ℕ → ℕ
page e = e - e % 0x1000

abbrev pub present : ℕ → Bool
present e = e % 2 == 1

-- where the processor finds an address that the code uses
abbrev pub translated : State → ℕ → ℕ
translated st a = if leb kspace_loc a then page st.window + (a - kspace_loc) else a

abbrev pub atq : State → ℕ → ℕ
atq st a = st.mem (translated st a)

abbrev pub set_atq : ℕ → ℕ → State → State
set_atq a v st = record st { mem = write st.mem (translated st a) v }

-- `get_entry_addr`, for a shift by k
unfoldable pub get_entry_addr : ℕ → ℕ → ℕ → ℕ
get_entry_addr baddr parent k = parent + baddr / 2 ^ k * 8 % 0x1000

abbrev pub page_to_kpt0_0 : ℕ → State → State
page_to_kpt0_0 val st = record st { window = val }

-- the loop of `check_table`
abbrev pub clear_page : State → State
clear_page st = record st { mem = clear 0x1000 (translated st kspace_loc) st.mem }

unfoldable pub check_table : ℕ → ℕ → ℕ → ℕ → State → Option (ℕ × State)
check_table baddr parent k fl st =
    let eaddr = get_entry_addr baddr parent k in
    let r = atq st eaddr in
    if present r
    then some (kspace_loc, page_to_kpt0_0 r st)
    else Option.map
        (λ (p, pages'). (
          kspace_loc,
          clear_page
              (page_to_kpt0_0 (p + fl) (set_atq eaddr (p + fl) (record st { pages = pages' }))),
        ))
        (alloc_pages 1 phys_pages st.pages)

abbrev pub linear : ℕ → ℕ
linear addr = if leb kspace_loc addr then addr - non_canon_size else addr

unfoldable pub set_pt_entry : ℕ → ℕ → ℕ → State → Option State
set_pt_entry addr val fl st =
    let a = linear addr in
    Option.bind (check_table a pml4t_loc 39 fl st) λ (t, st₁).
      Option.bind (check_table a t 30 fl st₁) λ (t', st₂).
        Option.bind (check_table a t' 21 fl st₂)
          λ (t'', st₃). some (set_atq (get_entry_addr a t'' 12) val st₃)

-- the loop of `page_in`, for n pages
unfoldable pub page_in_from : ℕ → ℕ → ℕ → ℕ → State → Option State
page_in_from zero paddr vaddr fl st = some st
page_in_from (suc n) paddr vaddr fl st =
    Option.bind (set_pt_entry vaddr paddr fl st)
      (page_in_from n ((paddr + 0x1000) % 2 ^ 64) ((vaddr + 0x1000) % 2 ^ 64) fl)

-- the pages of a size in bytes
abbrev pub pages_of : ℕ → ℕ
pages_of size = if size % 0x1000 == 0 then size / 0x1000 else size / 0x1000 + 1

unfoldable pub page_in : ℕ → ℕ → ℕ → ℕ → State → Option State
page_in paddr vaddr size fl = page_in_from (pages_of size) (page paddr + fl) (page vaddr) fl

-- a new region, of size 0, whose other fields keep what the object held
unfoldable pub alloc_ws : Region → List Header → Option (Region × List Header)
alloc_ws raw ks = Option.map (λ (o, ks'). (record raw { obj = o; size = 0 }, ks')) (alloc_kobj ks)

-- the last region first
unfoldable pub free_ws : List Region → List Header → Option (List Header)
free_ws [] ks = some ks
free_ws (r ∷ rs) ks = Option.bind (free_ws rs ks) (free_kobj r.obj)

abbrev pub set_region : ℕ → ℕ → ℕ → ℕ → Region → Region
set_region vbase pbase size fl r = record r {
  flags = fl;
  vbase = vbase;
  pbase = pbase;
  size = size;
}

-- at the last region, which is used if it is empty
unfoldable pub add_pgs_to_ws :
    Region → ℕ → ℕ → ℕ → ℕ → List Region → List Header → Option (List Region × List Header)
add_pgs_to_ws raw vbase pbase size fl [] ks = none
add_pgs_to_ws raw vbase pbase size fl (r ∷ []) ks =
    if r.size == 0
    then some (set_region vbase pbase size fl r ∷ [], ks)
    else Option.map (λ (o, ks'). (r ∷ set_region vbase pbase size fl o ∷ [], ks')) (alloc_ws raw ks)
add_pgs_to_ws raw vbase pbase size fl (r ∷ s ∷ rs) ks =
    Option.map (λ (rs', ks'). (r ∷ rs', ks')) (add_pgs_to_ws raw vbase pbase size fl (s ∷ rs) ks)

-- n pages from `vaddr` on get no entry
unfoldable pub page_out : ℕ → ℕ → ℕ → State → Option State
page_out zero vaddr fl st = some st
page_out (suc n) vaddr fl st =
    Option.bind (set_pt_entry vaddr 0 fl st) (page_out n ((vaddr + 0x1000) % 2 ^ 64) fl)

-- the loop over a region, whose counter of 32 bits never gets past a size above 0xFFFFF000
unfoldable pub page_out_region : Region → State → Option State
page_out_region r st =
    let done = page_out (pages_of r.size) r.vbase r.flags st in
    if ltb 0xFFFFF000 r.size then none else done

unfoldable pub page_out_all : List Region → State → Option State
page_out_all [] st = some st
page_out_all (r ∷ rs) st = Option.bind (page_out_region r st) (page_out_all rs)

unfoldable pub page_in_all : List Region → State → Option State
page_in_all [] st = some st
page_in_all (r ∷ rs) st = Option.bind (page_in r.pbase r.vbase r.size r.flags st) (page_in_all rs)

-- `cur_ws`, the current workspaces by their index; NULL is a workspace without regions
abbrev pub Current : Type 0
Current = ℕ → List Region

abbrev pub set_current : ℕ → List Region → Current → Current
set_current wsi ws cur i = if i == wsi then ws else cur i

-- `swap_ws`: from the workspace that is current at the index to another
unfoldable pub swap_ws : List Region → ℕ → Current → State → Option (Current × State)
swap_ws ws wsi cur st =
    let swapped =
      Option.map (λ st'. (set_current wsi ws cur, st'))
        (Option.bind (page_out_all (cur wsi) st) (page_in_all ws)) in
    if ltb wsi 2 then swapped else none
