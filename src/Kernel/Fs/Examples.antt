-- ===== src/Kernel/Fs/Examples.antt =====
-- Concrete runs of kernel/src/fs.c: a table at address 240 with a directory "a" in the root, and in it
-- a file "b" of two extents.
use frosk.Prelude.{ℕ, ◌≡◌, refl, some, List, [], ◌∷◌, ◌==◌, if◌then◌else◌, arith}
use frosk.Cstd.Memory.{Mem}
use frosk.Kernel.Fs.{fs_aquire, fs_get_size, fs_read, lock_handle, resolve}
use frosk.Kernel.Fs.Tree.{Entries, end, file, dir}
use frosk.Kernel.Fs.Lookup.{fs_aquire_lem}
use frosk.Kernel.Fs.Sizes.{Extent, fs_get_size_lem, fs_read_lem}

abbrev byte_in : List (ℕ × ℕ) → ℕ → ℕ
byte_in [] a = 0
byte_in ((k, v) ∷ r) a = if a == k then v else byte_in r a

abbrev mem : Mem
mem = byte_in (
    (244, 1)
    ∷ (264, 1)
    ∷ (276, 2)
    ∷ (288, 1)
    ∷ (296, 3)
    ∷ (300, 4)
    ∷ (313, 1)
    ∷ (314, 97)
    ∷ (336, 2)
    ∷ (344, 5)
    ∷ (348, 6)
    ∷ (361, 1)
    ∷ (362, 98)
    ∷ (388, 2)
    ∷ (392, 9)
    ∷ (400, 7)
    ∷ (404, 5)
    ∷ (412, 1)
    ∷ (416, 20)
    ∷ (428, 3)
    ∷ [])

abbrev hdrs : List ℕ
hdrs = 240 ∷ []

abbrev entries : Entries
entries = dir 288 ((97 ∷ []) ∷ []) (file 336 ((98 ∷ []) ∷ []) end) end

abbrev first_part : Extent
first_part = record { blocks = 2; lba = 9; last = 5 }

abbrev second_part : Extent
second_part = record { blocks = 1; lba = 20; last = 3 }

resolve_at : resolve hdrs 1 ≡ some 264
unfolding resolve
resolve_at = refl

a_name : resolve hdrs 3 ≡ some 312
unfolding resolve
a_name = refl

fs_aquire_lem_example : fs_aquire 6 1 hdrs mem (47 ∷ 97 ∷ 47 ∷ 98 ∷ []) 0 ≡ lock_handle mem 336
unfolding resolve
fs_aquire_lem_example =
    fs_aquire_lem entries 4 1 240 [] mem (97 ∷ []) ((98 ∷ []) ∷ []) 0 264 (omega arith) refl refl
      (
        omega arith,
        refl,
        omega arith,
        (312, refl, omega arith, omega arith, omega arith),
        refl,
        (
          omega arith,
          refl,
          omega arith,
          (360, refl, omega arith, omega arith, omega arith),
          omega arith,
          refl,
        ),
        refl,
      )
      (omega arith)

fs_get_size_lem_example : fs_get_size 2 hdrs mem 336 ≡ some 4104
unfolding resolve
fs_get_size_lem_example =
    fs_get_size_lem (second_part ∷ []) first_part 2 hdrs mem 336 refl
      (omega arith, (384, refl, (omega arith, omega arith, (408, refl, (omega arith, refl)))))
      (omega arith) (omega arith)

fs_read_lem_example :
    fs_read 2 hdrs mem 336 8192 3 0 ≡ some (record { buf = 8192; sectors = 16; lba = 72 } ∷ [], 2)
unfolding resolve
fs_read_lem_example =
    fs_read_lem (second_part ∷ []) first_part 2 hdrs mem 336 8192 3 refl
      (omega arith, (384, refl, (omega arith, omega arith, (408, refl, (omega arith, refl)))))
      (omega arith) (omega arith) (omega arith) (omega arith) (omega arith)
