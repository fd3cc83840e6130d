-- ===== src/Builder/Nodes/Build.antt =====
-- `add_fs_entry_h` of util/f301_builder/src/fs.c makes the nodes of a tree.
use mathlib.Core.Option
use frosk.Prelude.{
  ℕ, ◌+◌, ◌*◌, ◌%◌, ◌^◌, ◌≤◌, ◌<◌, ◌≡◌, refl, false, ltb, List, Option, some, none, if◌then◌else◌,
  ◌==◌, arith,
}
use frosk.Builder.Nodes.{
  ParseStruct, null, pst_file, pst_dir, pst_indirect, FileSys, file, dir, indirect, data_node,
  new_node, fill, make_string, alloc_blocks, alloc_blocks_for_file, negative, block_count,
  bytes_in_last_block, add_fs_entry_h,
}
use frosk.Builder.Nodes.Alloc.{
  position, IsValid, Made, Room, new_node-position, new_node-Made, fill-Made, fill-at,
}
use frosk.Builder.Nodes.Strings.{string_nodes, make_string_lem}
use frosk.Builder.Nodes.Tree.{DataOf, Represents, tree_nodes}
use frosk.Builder.Nodes.Parts.{
  Parts, parts_Made, ranges, first-Spells, second-Spells, third-DataOf, second-Represents,
  third-Represents,
}

Made-refl : (fs : FileSys) → IsValid fs → Made fs fs 0
Made-refl fs v = record { valid = v; grows = omega arith; few = omega arith; same = λ p le. refl }

positive : (size : ℕ) → size < 2 ^ 31 → (negative size ≡ false) × (size % 2 ^ 32 ≡ size)
positive size small = ground (arith, small)

sizes_lem :
    (size : ℕ)
    → size < 2 ^ 31
    → (block_count size * 0x1000 + bytes_in_last_block size ≡ size + 0x1000)
      × (bytes_in_last_block size ≤ 0x1000)
      × (ltb 0xffffff (block_count size) ≡ false)
sizes_lem size small = let (p, d) = positive size small in rw p (rw d (ground (arith, small)))

-- every file of the host that can be opened has less than 2 GiB
abbrev pub AllSmall : (List ℕ → Option ℕ) → Type 0
AllSmall size_of = (fn : List ℕ) (size : ℕ) → size_of fn ≡ some size → size < 2 ^ 31

alloc_blocks-Made : (a b : FileSys) (count k : ℕ) → Made a b k → Made a (alloc_blocks count b).1 k
unfolding alloc_blocks
alloc_blocks-Made a b count k m = record {
  valid = record {
    table = m.valid.table;
    high = m.valid.high;
    entry = m.valid.entry;
    some_entry = m.valid.some_entry;
  };
  grows = m.grows;
  few = m.few;
  same = m.same;
}

alloc_blocks-position :
    (fs : FileSys) (count : ℕ) → position (alloc_blocks count fs).1 ≡ position fs
unfolding alloc_blocks
alloc_blocks-position fs count = refl

alloc_blocks_for_file_lem :
    (size : Option ℕ) (fs : FileSys)
    → IsValid fs
    → Room fs 1
    → ((bytes : ℕ) → size ≡ some bytes → bytes < 2 ^ 31)
    → (d : ℕ) × (fs' : FileSys) × (alloc_blocks_for_file size fs ≡ some (d, fs'))
      × Made fs fs' 1
      × DataOf fs'.nodes (position fs) (position fs') size d
unfolding alloc_blocks_for_file fill
alloc_blocks_for_file_lem none fs v room small = (_, _, refl, new_node-Made fs v room, refl)
alloc_blocks_for_file_lem (some bytes) fs v room small =
    let (at, below, nz) = new_node-position fs v room in
    let (n, fs₁) = new_node fs in
    let (sum, few, fits) = sizes_lem bytes (small bytes refl) in
    let (lba, fs₂) = alloc_blocks (block_count bytes) fs₁ in
    let node = data_node (block_count bytes) lba 0 (bytes_in_last_block bytes) in
    (
      n,
      fill n node fs₂,
      rw fits refl,
      fill-Made fs fs₂ 1 n node
          (alloc_blocks-Made fs fs₁ (block_count bytes) 1 (new_node-Made fs v room)) at,
      (
        at,
        omega (arith, below, alloc_blocks-position fs₁ (block_count bytes)),
        nz,
        (block_count bytes, lba, bytes_in_last_block bytes, fill-at fs₂ n node, sum, few),
      ),
    )

-- Given room for its nodes in a valid state, and host files of less than 2 GiB, `add_fs_entry_h` makes nodes under new numbers, none of
-- them 0, that stand for the tree: for each entry a node with its owner and parent, the root its own
-- parent, a string that spells its name, the data node of a host file that can be opened with the file's
-- number of bytes, and the next entry. The nodes that were there stay as they are.
pub add_fs_entry_h_lem :
    (size_of : List ℕ → Option ℕ) (t : ParseStruct) (parent : ℕ) (fs : FileSys)
    → IsValid fs
    → Room fs (tree_nodes t)
    → AllSmall size_of
    → (p : ℕ) × (fs' : FileSys) × (add_fs_entry_h size_of t parent fs ≡ some (p, fs'))
      × Made fs fs' (tree_nodes t)
      × Represents size_of fs'.nodes (position fs) (position fs') parent t p
unfolding add_fs_entry_h fill Option.bind
add_fs_entry_h_lem size_of null parent fs v room small = (0, fs, refl, Made-refl fs v, refl)
add_fs_entry_h_lem size_of (pst_file owner name actual rest) parent fs v room small =
    let (at, below, nz) = new_node-position fs v (omega (arith, room)) in
    let made = new_node-Made fs v (omega (arith, room)) in
    let (n, w) = new_node fs in
    let (first, spells) = make_string_lem name w made.valid (omega (arith, made.few, room)) in
    let (name_at, x) = make_string name w in
    let (next, y, e₁, second, others) =
      add_fs_entry_h_lem size_of rest parent x first.valid
        (omega (arith, made.few, first.few, room)) small in
    let (d, z, e₂, third, has) =
      alloc_blocks_for_file_lem (size_of actual) y second.valid
        (omega (arith, made.few, first.few, second.few, room)) (small actual) in
    let node = file owner name_at d next parent actual in
    let i = string_nodes name in
    let j = tree_nodes rest in
    let p : Parts fs w x y z n i j 1 = record {
      at = at;
      below = below;
      made = made;
      first = first;
      second = second;
      third = third;
    } in
    (
      n,
      fill n node z,
      rw e₁ (rw e₂ refl),
      parts_Made fs w x y z n i j 1 node p,
      (
        at,
        (ranges fs w x y z n i j 1 node p).0,
        nz,
        (
          name_at,
          d,
          next,
          fill-at z n node,
          first-Spells fs w x y z n i j 1 node p name_at name spells,
          third-DataOf fs w x y z n i j 1 node p (size_of actual) d has,
          second-Represents fs w x y z n i j 1 node p size_of rest parent next others,
        ),
      ),
    )
add_fs_entry_h_lem size_of (pst_dir owner name contents rest) parent fs v room small =
    let (at, below, nz) = new_node-position fs v (omega (arith, room)) in
    let made = new_node-Made fs v (omega (arith, room)) in
    let (n, w) = new_node fs in
    let (first, spells) = make_string_lem name w made.valid (omega (arith, made.few, room)) in
    let (name_at, x) = make_string name w in
    let (first_file, y, e₁, second, inside) =
      add_fs_entry_h_lem size_of contents n x first.valid (omega (arith, made.few, first.few, room))
        small in
    let (next, z, e₂, third, others) =
      add_fs_entry_h_lem size_of rest parent y second.valid
        (omega (arith, made.few, first.few, second.few, room)) small in
    let node = dir owner name_at first_file next (if parent == 0 then n else parent) in
    let i = string_nodes name in
    let j = tree_nodes contents in
    let k = tree_nodes rest in
    let p : Parts fs w x y z n i j k = record {
      at = at;
      below = below;
      made = made;
      first = first;
      second = second;
      third = third;
    } in
    (
      n,
      fill n node z,
      rw e₁ (rw e₂ refl),
      parts_Made fs w x y z n i j k node p,
      (
        at,
        (ranges fs w x y z n i j k node p).0,
        nz,
        (
          name_at,
          first_file,
          next,
          fill-at z n node,
          first-Spells fs w x y z n i j k node p name_at name spells,
          second-Represents fs w x y z n i j k node p size_of contents n first_file inside,
          third-Represents fs w x y z n i j k node p size_of rest parent next others,
        ),
      ),
    )
add_fs_entry_h_lem size_of (pst_indirect owner name dest rest) parent fs v room small =
    let (at, below, nz) = new_node-position fs v (omega (arith, room)) in
    let made = new_node-Made fs v (omega (arith, room)) in
    let (n, w) = new_node fs in
    let (first, spells) = make_string_lem name w made.valid (omega (arith, made.few, room)) in
    let (name_at, x) = make_string name w in
    let (second, leads) =
      make_string_lem dest x first.valid (omega (arith, made.few, first.few, room)) in
    let (dest_at, y) = make_string dest x in
    let (next, z, e₁, third, others) =
      add_fs_entry_h_lem size_of rest parent y second.valid
        (omega (arith, made.few, first.few, second.few, room)) small in
    let node = indirect owner name_at dest_at next parent in
    let i = string_nodes name in
    let j = string_nodes dest in
    let k = tree_nodes rest in
    let p : Parts fs w x y z n i j k = record {
      at = at;
      below = below;
      made = made;
      first = first;
      second = second;
      third = third;
    } in
    (
      n,
      fill n node z,
      rw e₁ refl,
      parts_Made fs w x y z n i j k node p,
      (
        at,
        (ranges fs w x y z n i j k node p).0,
        nz,
        (
          name_at,
          dest_at,
          next,
          fill-at z n node,
          first-Spells fs w x y z n i j k node p name_at name spells,
          second-Spells fs w x y z n i j k node p dest_at dest leads,
          third-Represents fs w x y z n i j k node p size_of rest parent next others,
        ),
      ),
    )
