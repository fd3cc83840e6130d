-- ===== src/Cstd/Malloc.antt =====
-- lib/cstd/src/malloc.c: the heap. The headers stand in the two maps `size` and `next`, by their
-- address, apart from the bytes of the blocks; 0 is NULL. `none` is a loop that has not ended within its
-- fuel, or a read or write at NULL. `free` returns at once and has no model.
pub mod Blocks
pub mod Heaps
pub mod Bytes
mod Examples
use mathlib.Core.Option
use frosk.Prelude.{
  ℕ, zero, suc, ◌+◌, ◌-◌, ◌*◌, ◌%◌, ◌^◌, Bool, true, false, not, Option, none, some, List, [], ◌∷◌,
  ◌==◌, leb, if◌then◌else◌,
}
use frosk.Cstd.Memory.{Mem, write}

pub record Heap : Type 0 where
  pub first : Bool
  pub hdr : ℕ
  pub size : ℕ → ℕ
  pub next : ℕ → ℕ
  pub bytes : Mem

abbrev pub sizeof_header : ℕ
sizeof_header = 16

abbrev pub heap_size : ℕ
heap_size = 0x100000

-- the first call makes one header of the whole heap
unfoldable pub set_up : ℕ → Heap → Heap
set_up heap_loc h =
    if h.first
    then record h {
      first = false;
      hdr = heap_loc;
      size = write h.size heap_loc heap_size;
      next = write h.next heap_loc heap_loc;
    }
    else h

abbrev pub round : ℕ → ℕ
round sz = if sz % 16 == 0 then sz else (sz + (16 - sz % 16)) % 2 ^ 64

-- the block at `cur`, behind `prv` in the ring of free ones, has the size
unfoldable pub take_whole : Heap → ℕ → ℕ → Heap
take_whole h prv cur =
    if cur == h.next cur
    then record h { hdr = 0 }
    else record h { next = write h.next prv (h.next cur); hdr = prv }

-- it has more, and the end of it becomes a free block
unfoldable pub take_part : Heap → ℕ → ℕ → ℕ → Heap
take_part h prv cur sz =
    let n = cur + sizeof_header + sz in
    let linked =
      if prv == cur then write h.next n n else write (write h.next n (h.next cur)) prv n in
    record h {
      hdr = n;
      size = write (write h.size n (h.size cur - sz - sizeof_header)) cur sz;
      next = linked;
    }

-- the loop of `malloc`
unfoldable pub find_block : ℕ → Heap → ℕ → ℕ → ℕ → Option (ℕ × Heap)
find_block zero h sz prv cur = none
find_block (suc fuel) h sz prv cur =
    let more = find_block fuel h sz cur (h.next cur) in
    if leb sz (h.size cur)
    then (if h.size cur == sz
        then some (cur + sizeof_header, take_whole h prv cur)
        else some (cur + sizeof_header, take_part h prv cur sz))
    else if h.next cur == h.next h.hdr
    then more
    else some (0, h)

unfoldable pub malloc : ℕ → ℕ → ℕ → Heap → Option (ℕ × Heap)
malloc fuel heap_loc sz h =
    let h' = set_up heap_loc h in
    if h'.hdr == 0 then some (0, h') else find_block fuel h' (round sz) h'.hdr (h'.next h'.hdr)

-- `n` bytes from d on are set to 0
unfoldable pub clear : ℕ → ℕ → Mem → Mem
clear zero d m = m
clear (suc n) d m = clear n (d + 1) (write m d 0)

unfoldable pub calloc : ℕ → ℕ → ℕ → ℕ → Heap → Option (ℕ × Heap)
calloc fuel heap_loc cnt sz h =
    let n = cnt * sz % 2 ^ 64 in
    Option.map (λ (d, h'). (d, if d == 0 then h' else record h' { bytes = clear n d h'.bytes }))
      (malloc fuel heap_loc n h)

-- the loops of `realloc`: of n bytes that the new block has the first `old_size` are copied
unfoldable pub move : ℕ → ℕ → ℕ → ℕ → Mem → Mem
move zero old_size nw old m = m
move (suc n) zero nw old m = clear (suc n) nw m
move (suc n) (suc old_size) nw old m = move n old_size (nw + 1) (old + 1) (write m nw (m old))

unfoldable pub realloc : ℕ → ℕ → ℕ → ℕ → Heap → Option (ℕ × Heap)
realloc fuel heap_loc old sz h = Option.bind (malloc fuel heap_loc sz h) λ (nw, h').
    if old == 0
    then none
    else if nw == 0
    then none
    else some (nw, record h' { bytes = move sz (h'.size (old - sizeof_header)) nw old h'.bytes })

-- requests one after the other
unfoldable pub malloc_all : ℕ → ℕ → List ℕ → Heap → Option (List ℕ × Heap)
malloc_all fuel heap_loc [] h = some ([], h)
malloc_all fuel heap_loc (sz ∷ rest) h =
    Option.bind (malloc fuel heap_loc sz h)
      λ (p, h'). Option.map (λ (ps, h''). (p ∷ ps, h'')) (malloc_all fuel heap_loc rest h')
