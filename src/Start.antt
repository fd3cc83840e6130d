-- ===== src/Start.antt =====
-- prgm/start/src/start.c: reading a file, with the kernel's file system and the heap, and the list of the
-- programs to run. The list is its characters up to the 0. `none` is a fault, a read behind the 0, or
-- fuel that ran out.
pub mod ReadFile
pub mod Programs
mod Examples
use mathlib.Core.Option
use frosk.Prelude.{
  ℕ, zero, suc, ◌+◌, ◌*◌, ◌/◌, ◌%◌, Bool, not, Option, none, some, List, [], ◌∷◌, ◌++◌, ◌==◌,
  if◌then◌else◌, length,
}
use frosk.Cstd.Memory.{Mem}
use frosk.Cstd.Ctype.{isspace}
use frosk.Cstd.Malloc.{Heap, malloc}
use frosk.Kernel.Fs.{fs_aquire, fs_get_size, fs_read, fs_release, AtaRead}

-- what `read_file` returns: the size, the buffer, the reads of the disk, and memory and heap after it
pub record FileRead : Type 0 where
  pub size : ℕ
  pub buf : ℕ
  pub reads : List AtaRead
  pub mem : Mem
  pub heap : Heap

abbrev pub blocks_of : ℕ → ℕ
blocks_of sz = if sz % 0x1000 == 0 then sz / 0x1000 else sz / 0x1000 + 1

-- the part of `read_file` behind its first test
unfoldable pub read_handle : ℕ → List ℕ → ℕ → Heap → Mem → ℕ → Option FileRead
read_handle fuel hdrs heap_loc heap m h = Option.bind (fs_get_size fuel hdrs m h) λ sz.
    Option.bind (malloc fuel heap_loc (blocks_of sz * 0x1000 + 1) heap) λ (buf, heap').
      Option.map
        (λ (reads, n). record {
          size = sz;
          buf = buf;
          reads = reads;
          mem = (fs_release m h).1;
          heap = heap';
        })
        (fs_read fuel hdrs m h buf (blocks_of sz) 0)

unfoldable pub read_file : ℕ → ℕ → List ℕ → ℕ → Heap → Mem → List ℕ → Option FileRead
read_file fuel nf hdrs heap_loc heap m fn = Option.bind (fs_aquire fuel nf hdrs m fn 0) λ (h, m').
    if h == 0
    then some (record { size = 0; buf = 0; reads = []; mem = m'; heap = heap })
    else read_handle fuel hdrs heap_loc heap m' h

-- spaces are skipped
unfoldable pub skip_spaces : List ℕ → List ℕ
skip_spaces [] = []
skip_spaces (c ∷ cs) = let rest = skip_spaces cs in if isspace c then rest else c ∷ cs

-- up to the line's end
unfoldable pub skip_line : List ℕ → Option (List ℕ)
skip_line [] = none
skip_line (c ∷ cs) = let rest = skip_line cs in if c == 0x0a then some (c ∷ cs) else rest

-- the loop of `main`: the characters from `start` to `buf`, and the buffer; the programs that are run
unfoldable pub run_from : ℕ → List ℕ → List ℕ → Option (List (List ℕ))
run_from zero start buf = none
run_from (suc fuel) start [] = some []
run_from (suc fuel) start (c ∷ cs) =
    let behind_line =
      Option.bind (skip_line (c ∷ cs)) λ rest. run_from fuel [] (skip_spaces rest) in
    let next = Option.map (λ names. start ∷ names) (run_from fuel [] (skip_spaces cs)) in
    let longer = run_from fuel (start ++ (c ∷ [])) cs in
    if c == b'#' then behind_line else if isspace c then next else longer

unfoldable pub main : List ℕ → Option (List (List ℕ))
main buf = run_from (suc (length buf)) [] (skip_spaces buf)
