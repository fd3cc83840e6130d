-- ===== src/Builder/Image.antt =====
-- util/f301_builder/src/fs.c: how a node is written to the image, by `write_fs_h`. What `malloc` left in
-- the fields that nothing sets (`perm`, the end of `str`) and the address of a node in the builder's
-- memory are parameters.
pub mod Reads
pub mod Write
mod Examples
use mathlib.Core.Option
use frosk.Prelude.{
  ℕ, zero, suc, ◌+◌, ◌-◌, ◌*◌, ◌/◌, ◌%◌, ◌^◌, ◌≤◌, ◌<◌, ◌≡◌, ◌≢◌, refl, ap, sym, ◌∙◌, Option, some,
  none, List, [], ◌∷◌, ◌++◌, ◌==◌, if◌then◌else◌, length, take, drop, arith, subst, get_elem?,
}
use frosk.Cstd.Memory.{Mem, write}
use frosk.Builder.Nodes.{Node, file, dir, data_node, string, indirect}
use frosk.Kernel.Fs.{
  get_type, name_ptr, first_ptr, file_next_ptr, string_size, string_str, string_next_ptr,
  data_blocks, data_lba, data_next_ptr, bytes_in_last_block, uint, ulong, resolve,
}
use frosk.Kernel.Fs.Tree.{Chars}

-- `fwrite` of an `int`
abbrev pub int_bytes : ℕ → List ℕ → List ℕ
int_bytes v rest = (v % 256) ∷ (v / 256 % 256) ∷ (v / 65536 % 256) ∷ (v / 16777216 % 256) ∷ rest

-- the 24 bytes of a node, with what its union has in `perm` and behind a string's characters
unfoldable pub node_bytes : (ℕ → ℕ) → ℕ → List ℕ → Node → List ℕ
node_bytes address perm junk (file owner name first_data next parent actual) =
    2
    ∷ perm
    ∷ 0
    ∷ 0
    ∷ int_bytes owner (int_bytes name (int_bytes first_data (int_bytes next (int_bytes parent []))))
node_bytes address perm junk (dir owner name first_file next parent) =
    1
    ∷ perm
    ∷ 0
    ∷ 0
    ∷ int_bytes owner (int_bytes name (int_bytes first_file (int_bytes next (int_bytes parent []))))
node_bytes address perm junk (indirect owner name dest next parent) =
    5
    ∷ perm
    ∷ 0
    ∷ 0
    ∷ int_bytes owner (int_bytes name (int_bytes dest (int_bytes next (int_bytes parent []))))
node_bytes address perm junk (data_node count lba next last) =
    3
    ∷ 0
    ∷ 0
    ∷ 0
    ∷ int_bytes count (
        int_bytes lba (
          int_bytes (lba / 2 ^ 32)
            (int_bytes (if next == 0 then 0 else address next) (int_bytes last []))))
node_bytes address perm junk (string str next) =
    4 ∷ length str ∷ (take 18 (str ++ junk) ++ int_bytes (if next == 0 then 0 else address next) [])

-- the place of a node in the image: the tables that `mbl` leads to, and the node's entry
unfoldable pub seek_to_node : List ℕ → ℕ → Option ℕ
seek_to_node lbas ptr =
    Option.map (λ lba. lba * 0x1000 + ptr % 256 * 24) (get_elem? lbas (ptr / 256))

-- bytes are written one after the other
unfoldable pub put_bytes : ℕ → List ℕ → Mem → Mem
put_bytes at [] m = m
put_bytes at (b ∷ bs) m = put_bytes (at + 1) bs (write m at b)

-- the node as such is written
unfoldable pub write_node : (ℕ → ℕ) → ℕ → List ℕ → ℕ → Node → Mem → Mem
write_node address perm junk at n m = put_bytes at (node_bytes address perm junk n) m
