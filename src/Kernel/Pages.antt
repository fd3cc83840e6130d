-- ===== src/Kernel/Pages.antt =====
-- kernel/src/pagemgr.c: the lists of memory regions, for physical pages and for the kernel's
-- virtual addresses. A `kern_obj` of a list is a `Region` with the object's own address; the `next`
-- pointers are the order of the list. `none` is a fault: a null object that is written to, or an
-- object freed into a page that holds no header.
pub mod Cover
pub mod Alloc
pub mod Free
pub mod Init
mod Examples
use mathlib.Core.Option
use frosk.Prelude.{
  ℕ, ◌+◌, ◌-◌, ◌*◌, ◌%◌, ◌^◌, Bool, ◌&&◌, Option, none, some, List, [], ◌∷◌, ◌==◌, leb,
  if◌then◌else◌,
}
use frosk.Kernel.Kobj.{Header, alloc_kobj, free_kobj}

pub data PageType : Type 0 where
  phys_pages kvirt_pages : PageType

-- `struct pmem` of a `kern_obj`, with the address of the object
pub record Region : Type 0 where
  pub obj : ℕ
  pub type : ℕ
  pub addr : ℕ
  pub size : ℕ

-- `mem_map_node`
pub record MapNode : Type 0 where
  pub base : ℕ
  pub size : ℕ
  pub type : ℕ

pub record Manager : Type 0 where
  pub phys : List Region
  pub kvirt : List Region
  pub kobjs : List Header

abbrev pub usable : ℕ
usable = 1

-- `ulong` addition
abbrev pub add64 : ℕ → ℕ → ℕ
add64 a b = (a + b) % 2 ^ 64

abbrev pub head : PageType → Manager → List Region
head phys_pages m = m.phys
head kvirt_pages m = m.kvirt

abbrev pub set_head : PageType → List Region → Manager → Manager
set_head phys_pages rs m = record m { phys = rs }
set_head kvirt_pages rs m = record m { kvirt = rs }

-- the loop of `alloc_pages` from `cur` on, for `sz` bytes
unfoldable pub alloc_from : ℕ → List Region → List Header → Option (ℕ × List Region × List Header)
alloc_from sz [] ks = some (0, [], ks)
alloc_from sz (r ∷ rs) ks =
    let rest = Option.map (λ (a, rs', ks'). (a, r ∷ rs', ks')) (alloc_from sz rs ks) in
    let whole = Option.map (λ ks'. (r.addr, rs, ks')) (free_kobj r.obj ks) in
    let part = record r { addr = add64 r.addr sz; size = r.size - sz } in
    if leb sz r.size && r.type == usable
    then (if r.size == sz then whole else some (r.addr, part ∷ rs, ks))
    else rest

-- `alloc_pages`: `sz` is a `uint`, and 0 is returned where no region serves
unfoldable pub alloc_pages : ℕ → PageType → Manager → Option (ℕ × Manager)
alloc_pages sz ty m =
    Option.map (λ (a, rs, ks). (a, set_head ty rs (record m { kobjs = ks })))
      (alloc_from (sz * 0x1000 % 2 ^ 32) (head ty m) m.kobjs)

-- the loop of `free_pages`: the first region that the block continues, or `none` at the list's end
unfoldable pub merge : ℕ → ℕ → List Region → Option (List Region)
merge addr size [] = none
merge addr size (r ∷ rs) =
    let rest = Option.map (λ rs'. r ∷ rs') (merge addr size rs) in
    if add64 r.addr r.size == addr
    then some (record r { size = add64 r.size size } ∷ rs)
    else if add64 addr size == r.addr
    then some (record r { addr = addr; size = add64 r.size size } ∷ rs)
    else rest

abbrev pub new_region : ℕ → ℕ → ℕ → ℕ → Region
new_region obj type addr size = record { obj = obj; type = type; addr = addr; size = size }

unfoldable pub free_into : ℕ → ℕ → List Region → List Header → Option (List Region × List Header)
free_into addr size rs ks = elim (merge addr size rs) [
  | some rs' ↦ some (rs', ks)
  | none ↦ Option.map (λ (o, ks'). (new_region o usable addr size ∷ rs, ks')) (alloc_kobj ks)
]

-- `free_pages`, of `size` bytes
unfoldable pub free_pages : ℕ → ℕ → PageType → Manager → Option Manager
free_pages addr size ty m =
    Option.map (λ (rs, ks). set_head ty rs (record m { kobjs = ks }))
      (free_into addr size (head ty m) m.kobjs)

-- the loop of `init_page_mgr`: one region for each node of the map that is not at 0; the type
-- field is a `char`
unfoldable pub init_from : List MapNode → List Header → Option (List Region × List Header)
init_from [] ks = some ([], ks)
init_from (n ∷ ns) ks =
    let skip = init_from ns ks in
    let add = Option.bind (alloc_kobj ks) λ (o, ks').
      Option.map (λ (rs, ks''). (new_region o (n.type % 256) n.base n.size ∷ rs, ks''))
        (init_from ns ks') in
    if n.base == 0 then skip else add

abbrev pub kvirt_base : ℕ
kvirt_base = 0xFFFF800000000000 + 0x400000

unfoldable pub init_page_mgr : List MapNode → List Header → Option Manager
init_page_mgr map ks = Option.bind (init_from map ks) λ (rs, ks').
    Option.map
      (λ (o, ks''). record {
        phys = rs;
        kvirt = new_region o usable kvirt_base 0x80000000 ∷ [];
        kobjs = ks'';
      })
      (alloc_kobj ks')
