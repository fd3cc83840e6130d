-- ===== src/Start/Examples.antt =====
-- Concrete runs of prgm/start/src/start.c: a table at address 240 with a file "b" in the root.
use Prim.{tt}
use frosk.Prelude.{ℕ, ◌≡◌, refl, false, some, List, [], ◌∷◌, ◌==◌, if◌then◌else◌, arith}
use frosk.Cstd.Ctype.{isspace}
use frosk.Cstd.Memory.{Mem}
use frosk.Cstd.Malloc.{Heap}
use frosk.Cstd.Malloc.Blocks.{IsHeap}
use frosk.Kernel.Fs.{resolve}
use frosk.Kernel.Fs.Tree.{end, file}
use frosk.Kernel.Fs.Sizes.{Extent}
use frosk.Start.{FileRead, read_file, main}
use frosk.Start.ReadFile.{read_file_lem}
use frosk.Start.Programs.{program, comment, main-print}

abbrev byte_in : List (ℕ × ℕ) → ℕ → ℕ
byte_in [] a = 0
byte_in ((k, v) ∷ r) a = if a == k then v else byte_in r a

abbrev mem : Mem
mem = byte_in (
    (244, 1)
    ∷ (264, 1)
    ∷ (276, 2)
    ∷ (288, 2)
    ∷ (296, 3)
    ∷ (300, 4)
    ∷ (313, 1)
    ∷ (314, 98)
    ∷ (340, 2)
    ∷ (344, 9)
    ∷ (356, 5)
    ∷ [])

abbrev extent : Extent
extent = record { blocks = 2; lba = 9; last = 5 }

abbrev heap : Heap
heap = record {
  first = false;
  hdr = 65536;
  size = λ a. 0x100000;
  next = λ a. 65536;
  bytes = λ a. 0;
}

heap-IsHeap : IsHeap 65536 heap
heap-IsHeap = record {
  begun = refl;
  ring = λ _. refl;
  aligned = λ _. omega arith;
  ends = λ _. omega arith;
  begins = λ _. omega arith;
}

read_file_lem_example :
    (r : FileRead) × (read_file 3 1 (240 ∷ []) 65536 heap mem (47 ∷ 98 ∷ []) ≡ some r)
    × (r.size ≡ 4101)
    × (r.buf ≡ 65552)
    × (r.reads ≡ record { buf = 65552; sectors = 16; lba = 72 } ∷ [])
    × ((a : ℕ) → r.mem a ≡ mem a)
unfolding resolve
read_file_lem_example =
    read_file_lem (file 288 ((98 ∷ []) ∷ []) end) extent 1 1 240 65536 [] heap mem (98 ∷ []) [] 264
      288 (omega arith) refl refl
      (
        omega arith,
        refl,
        omega arith,
        (312, refl, omega arith, omega arith, omega arith),
        omega arith,
        refl,
      )
      (omega arith) refl (omega arith) (omega arith) refl
      (omega arith, (336, refl, (omega arith, refl))) (omega arith) (omega arith) (omega arith)
      (omega arith) (omega arith) (omega arith) heap-IsHeap (omega arith)

-- "#x\\nab\\nc" runs "ab" only
main-print_example : main (35 ∷ 120 ∷ 10 ∷ 97 ∷ 98 ∷ 10 ∷ 99 ∷ []) ≡ some ((97 ∷ 98 ∷ []) ∷ [])
unfolding isspace
main-print_example =
    main-print (comment (120 ∷ []) ∷ program (97 ∷ 98 ∷ []) ∷ []) (99 ∷ [])
      ((refl, tt), ((refl, (refl, tt)), tt)) (refl, tt)
