-- ===== src/Cstd/Malloc/Examples.antt =====
-- A heap at address 4096, and requests to it.
use frosk.Prelude.{
  ℕ, ◌+◌, ◌≡◌, refl, true, false, List, [], ◌∷◌, none, some, arith, if◌then◌else◌, leb,
}
use frosk.Cstd.Malloc.{Heap, heap_size, malloc, malloc_all, realloc}
use frosk.Cstd.Malloc.Blocks.{IsHeap, malloc_loops}
use frosk.Cstd.Malloc.Heaps.{Apart, malloc_all_lem}
use frosk.Cstd.Malloc.Bytes.{moved, realloc_lem}

abbrev fresh : Heap
fresh = record { first = true; hdr = 0; size = λ a. 0; next = λ a. 0; bytes = λ a. 0 }

-- what is free begins at 8192, and a block of 32 bytes has its header at 8000
abbrev little : Heap
little = record {
  first = false;
  hdr = 8192;
  size = λ a. if leb a 8000 then 32 else 0xff000;
  next = λ a. 8192;
  bytes = λ a. a;
}

little-IsHeap : IsHeap 4096 little
little-IsHeap = record {
  begun = refl;
  ring = λ _. refl;
  aligned = λ _. omega arith;
  ends = λ _. omega arith;
  begins = λ _. omega arith;
}

malloc_all_lem_example :
    (ps : List ℕ) × (h' : Heap) × (malloc_all 1 4096 (5 ∷ 100 ∷ []) fresh ≡ some (ps, h'))
    × Apart 4096 (4096 + 16 + heap_size) (5 ∷ 100 ∷ []) ps
malloc_all_lem_example =
    malloc_all_lem 5 (100 ∷ []) 0 4096 fresh refl (omega arith) (omega arith) (omega arith)

malloc_loops_example : malloc 9 4096 0x200000 little ≡ none
malloc_loops_example = malloc_loops 9 4096 0x200000 little little-IsHeap (omega arith) (omega arith)

realloc_lem_example :
    (h' : Heap) × (realloc 1 4096 8016 40 little ≡ some (8208, h'))
    × ((a : ℕ) → h'.bytes a ≡ moved 40 32 8208 8016 little.bytes a)
realloc_lem_example =
    realloc_lem 0 4096 8016 40 little little-IsHeap (omega arith) (omega arith) (omega arith)
      (omega arith)
