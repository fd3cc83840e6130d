-- ===== src/Builder/Load.antt =====
-- util/f301_builder/src/main.c, the loop over the script, and `add_fs_entry` of fs.c. `none` is as in Parse.
pub mod Roots
mod Examples
use mathlib.Core.Option
use frosk.Prelude.{ℕ, zero, suc, ◌+◌, Option, none, some, List, [], ◌∷◌, ◌==◌, if◌then◌else◌}
use frosk.Builder.Nodes.{
  ParseStruct, null, pst_file, pst_dir, pst_indirect, FileSys, data_node, new_node, fill,
  add_fs_entry_h,
}
use frosk.Builder.Parse.{Entry, entry, Contents, nothing, cons, equal, perm_none, parse_next}

-- what fs.c reads of a `parse_struct` and those behind it; `none` where a field was never set
unfoldable pub struct_of : Contents → Option ParseStruct
struct_of nothing = some null
struct_of (cons (entry a kids) rest) = Option.bind (struct_of rest) λ next.
    Option.bind (struct_of kids) λ contents. Option.bind a.name λ name.
      if a.type == b'd'
      then some (pst_dir a.owner name contents next)
      else if a.type == b'f'
      then Option.map (λ actual. pst_file a.owner name actual next) a.text
      else Option.map (λ dest. pst_indirect a.owner name dest next) a.text

-- the entry points of `file_sys`
pub record EntryPoints : Type 0 where
  pub root : ℕ
  pub predir : ℕ
  pub unused : ℕ

-- the node that is made first; its `lba` is what malloc left
unfoldable pub make_unused : ℕ → EntryPoints → FileSys → EntryPoints × FileSys
make_unused lba roots fs =
    let (n, fs') = new_node fs in
    if roots.unused == 0
    then (record roots { unused = n }, fill n (data_node 0 lba 0 0) fs')
    else (roots, fs)

-- the rest of `add_fs_entry`, for a directory, by its name
unfoldable pub add_named :
    (List ℕ → Option ℕ)
    → List ℕ
    → ParseStruct
    → EntryPoints × FileSys
    → Option (EntryPoints × FileSys)
add_named size_of name ps (roots, fs) = Option.bind (add_fs_entry_h size_of ps 0 fs) λ (n, fs').
    if equal name (b'/' ∷ [])
    then some (record roots { root = n }, fs')
    else if equal name (b'@' ∷ [])
    then some (record roots { predir = n }, fs')
    else none

unfoldable pub add_fs_entry :
    (List ℕ → Option ℕ) → ℕ → ParseStruct → EntryPoints → FileSys → Option (EntryPoints × FileSys)
add_fs_entry size_of lba null roots fs = none
add_fs_entry size_of lba (pst_file owner name actual next) roots fs = none
add_fs_entry size_of lba (pst_indirect owner name dest next) roots fs = none
add_fs_entry size_of lba (pst_dir owner name contents next) roots fs =
    add_named size_of name (pst_dir owner name contents next) (make_unused lba roots fs)

-- one round of the loop of `main`
unfoldable pub load_next :
    (List ℕ → ℕ)
    → (List ℕ → Option ℕ)
    → ℕ
    → ℕ
    → List ℕ
    → EntryPoints
    → FileSys
    → Option (EntryPoints × FileSys × List ℕ)
load_next atoi size_of lba fuel script roots fs =
    Option.bind (parse_next atoi fuel perm_none perm_none perm_none script) λ (e, rest).
      Option.bind (struct_of (cons e nothing)) λ ps.
        Option.map (λ (roots', fs'). (roots', fs', rest)) (add_fs_entry size_of lba ps roots fs)
