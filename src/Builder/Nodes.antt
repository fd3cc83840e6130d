-- ===== src/Builder/Nodes.antt =====
-- util/f301_builder/src/fs.c: the nodes that are made for the entries of a directory. `nodes` are those
-- filled in so far, by their `node_ptr`, which stands for the C pointer too; 0 is NULL. The size of a
-- host file, as `ftell` gives it, is a parameter, `none` where it cannot be opened. A result `none` is a
-- call of `error`, which ends the program. `|` of a table's first pointer, a multiple
-- of 0x100, and an entry below 0x100 is their sum.
pub mod Alloc
pub mod Strings
pub mod Tree
pub mod Parts
pub mod Build
mod Examples
use mathlib.Core.Option
use frosk.Prelude.{
  ℕ, zero, suc, ◌+◌, ◌-◌, ◌*◌, ◌/◌, ◌%◌, ◌^◌, Bool, Option, none, some, List, [], ◌∷◌, ◌==◌, leb,
  ltb, if◌then◌else◌, length, take, drop, ◌++◌,
}

-- `parse_struct`, with what follows it: an entry has an owner and a name
pub data ParseStruct : Type 0 where
  null : ParseStruct
  pst_file : ℕ → List ℕ → List ℕ → ParseStruct → ParseStruct
  pst_dir : ℕ → List ℕ → ParseStruct → ParseStruct → ParseStruct
  pst_indirect : ℕ → List ℕ → List ℕ → ParseStruct → ParseStruct

-- `node`; `perm`, which nothing sets, is left out
pub data Node : Type 0 where
  -- owner, name, first_data, next, parent, actual
  file : ℕ → ℕ → ℕ → ℕ → ℕ → List ℕ → Node
  -- owner, name, first_file, next, parent
  dir : ℕ → ℕ → ℕ → ℕ → ℕ → Node
  -- block_count, lba, next, bytes_in_last_block
  data_node : ℕ → ℕ → ℕ → ℕ → Node
  -- str, of `size` characters, and next
  string : List ℕ → ℕ → Node
  -- owner, name, dest, next, parent
  indirect : ℕ → ℕ → ℕ → ℕ → ℕ → Node

abbrev pub Nodes : Type 0
Nodes = ℕ → Option Node

-- `file_sys` less its entry points, the counter of `alloc_blocks`, and the nodes
pub record FileSys : Type 0 where
  pub cur : ℕ
  pub cur_tbl_lba : ℕ
  pub cur_high_addr : ℕ
  pub cur_tbl_entry : ℕ
  -- the `lba` of the block that `mbl` points to
  pub mbl : Option ℕ
  pub nodes : Nodes

abbrev pub str_chars_per_node : ℕ
str_chars_per_node = 18

abbrev pub file_sys : FileSys
file_sys = record {
  cur = 1;
  cur_tbl_lba = 0;
  cur_high_addr = 2 ^ 32 - 0x100;
  cur_tbl_entry = 0x100;
  mbl = none;
  nodes = λ p. none;
}

unfoldable pub alloc_blocks : ℕ → FileSys → ℕ × FileSys
alloc_blocks count fs = (fs.cur, record fs { cur = (fs.cur + count) % 2 ^ 64 })

-- the next table, where the current one is full
unfoldable pub next_table : FileSys → FileSys
next_table fs =
    let (lba, fs') = alloc_blocks 2 fs in
    record fs' {
      cur_tbl_entry = 1;
      cur_tbl_lba = lba;
      cur_high_addr = (fs.cur_high_addr + 0x100) % 2 ^ 32;
      mbl = some lba;
    }

unfoldable pub new_node : FileSys → ℕ × FileSys
new_node fs =
    let fs' = if leb 0x100 fs.cur_tbl_entry then next_table fs else fs in
    (fs'.cur_high_addr + fs'.cur_tbl_entry, record fs' { cur_tbl_entry = fs'.cur_tbl_entry + 1 })

-- the fields of a node are set
unfoldable pub fill : ℕ → Node → FileSys → FileSys
fill p n fs = record fs { nodes = λ q. if q == p then some n else fs.nodes q }

-- `int bytes = ftell(f)`: whether it is negative, and how far it is from 0
abbrev pub negative : ℕ → Bool
negative size = leb (2 ^ 31) (size % 2 ^ 32)

abbrev pub distance : ℕ → ℕ
distance size = if negative size then 2 ^ 32 - size % 2 ^ 32 else size % 2 ^ 32

-- the sizes of `alloc_blocks_for_file`: unsigned, from a division and a remainder of `int`
abbrev pub block_count : ℕ → ℕ
block_count size =
    let q = distance size / 0x1000 in
    let one = if distance size % 0x1000 == 0 then 0 else 1 in
    if negative size then (2 ^ 32 - q + one) % 2 ^ 32 else q + one

abbrev pub bytes_in_last_block : ℕ → ℕ
bytes_in_last_block size =
    let r = distance size % 0x1000 in
    if r == 0 then 0x1000 else if negative size then 2 ^ 32 - r else r

-- of the file that `fn` names, whose size is given; it is NULL, but a node is used, where there is none
unfoldable pub alloc_blocks_for_file : Option ℕ → FileSys → Option (ℕ × FileSys)
alloc_blocks_for_file none fs = some (0, (new_node fs).1)
alloc_blocks_for_file (some size) fs =
    let (n, fs₁) = new_node fs in
    let (lba, fs₂) = alloc_blocks (block_count size) fs₁ in
    if ltb 0xffffff (block_count size)
    then none
    else some (n, fill n (data_node (block_count size) lba 0 (bytes_in_last_block size)) fs₂)

-- `make_string`; the recursion is on a number that is at least the string's length
unfoldable pub make_string_from : ℕ → List ℕ → FileSys → ℕ × FileSys
make_string_from zero str fs = let (n, fs₁) = new_node fs in (n, fill n (string str 0) fs₁)
make_string_from (suc fuel) str fs =
    let (n, fs₁) = new_node fs in
    let (next, fs₂) = make_string_from fuel (drop str_chars_per_node str) fs₁ in
    if leb (length str) str_chars_per_node
    then (n, fill n (string str 0) fs₁)
    else (n, fill n (string (take str_chars_per_node str) next) fs₂)

unfoldable pub make_string : List ℕ → FileSys → ℕ × FileSys
make_string str = make_string_from (length str) str

-- `add_fs_entry_h`, and NULL for NULL
unfoldable pub add_fs_entry_h :
    (List ℕ → Option ℕ) → ParseStruct → ℕ → FileSys → Option (ℕ × FileSys)
add_fs_entry_h size_of null parent fs = some (0, fs)
add_fs_entry_h size_of (pst_file owner name actual rest) parent fs =
    let (n, fs₁) = new_node fs in
    let (name_at, fs₂) = make_string name fs₁ in
    Option.bind (add_fs_entry_h size_of rest parent fs₂) λ (next, fs₃).
      Option.map
        (λ (first_data, fs₄). (n, fill n (file owner name_at first_data next parent actual) fs₄))
        (alloc_blocks_for_file (size_of actual) fs₃)
add_fs_entry_h size_of (pst_dir owner name contents rest) parent fs =
    let (n, fs₁) = new_node fs in
    let (name_at, fs₂) = make_string name fs₁ in
    Option.bind (add_fs_entry_h size_of contents n fs₂) λ (first_file, fs₃).
      Option.map
        (λ (next, fs₄).
          (n, fill n (dir owner name_at first_file next (if parent == 0 then n else parent)) fs₄))
        (add_fs_entry_h size_of rest parent fs₃)
add_fs_entry_h size_of (pst_indirect owner name dest rest) parent fs =
    let (n, fs₁) = new_node fs in
    let (name_at, fs₂) = make_string name fs₁ in
    let (dest_at, fs₃) = make_string dest fs₂ in
    Option.map (λ (next, fs₄). (n, fill n (indirect owner name_at dest_at next parent) fs₄))
      (add_fs_entry_h size_of rest parent fs₃)
