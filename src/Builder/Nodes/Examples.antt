-- ===== src/Builder/Nodes/Examples.antt =====
-- A small tree of util/f301_builder: the root with a file "init" and a link with a long name.
use frosk.Prelude.{ℕ, ◌^◌, ◌<◌, ◌≡◌, eq_of_some, List, [], ◌∷◌, Option, some, replicate, arith}
use frosk.Builder.Nodes.{
  ParseStruct, null, pst_file, pst_dir, pst_indirect, FileSys, file_sys, add_fs_entry_h,
}
use frosk.Builder.Nodes.Alloc.{Made, file_sys-IsValid, position}
use frosk.Builder.Nodes.Tree.{Represents}
use frosk.Builder.Nodes.Build.{add_fs_entry_h_lem}

abbrev host : List ℕ → Option ℕ
host s = some 5000

abbrev tree : ParseStruct
tree =
    pst_dir 0 (47 ∷ [])
      (pst_file 0 (105 ∷ 110 ∷ 105 ∷ 116 ∷ []) (120 ∷ [])
        (pst_indirect 1 (replicate 40 97) (47 ∷ 98 ∷ []) null))
      null

small : {size : ℕ} → 5000 ≡ size → size < 2 ^ 31
small e = omega (arith, e)

add_fs_entry_h_lem_example :
    (p : ℕ) × (fs' : FileSys) × (add_fs_entry_h host tree 0 file_sys ≡ some (p, fs'))
    × Made file_sys fs' 10
    × Represents host fs'.nodes 0 (position fs') 0 tree p
add_fs_entry_h_lem_example =
    add_fs_entry_h_lem host tree 0 file_sys file_sys-IsValid (omega arith)
      λ fn size e. small (eq_of_some _ _ e)
