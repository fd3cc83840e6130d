-- ===== src/Builder/Load/Roots.antt =====
-- A script of util/f301_builder becomes the nodes of its tree.
use Prim.{tt}
use mathlib.Core.Option
use frosk.Prelude.{ℕ, suc, ◌+◌, ◌≤◌, ◌≡◌, refl, Option, some, List, [], ◌∷◌, arith}
use frosk.Cstd.Ctype.{isspace}
use frosk.Builder.Nodes.{
  ParseStruct, null, pst_file, pst_dir, pst_indirect, FileSys, data_node, new_node,
}
use frosk.Builder.Nodes.Alloc.{
  position, IsValid, Made, Room, new_node-position, new_node-Made, fill-Made,
}
use frosk.Builder.Nodes.Tree.{Represents, tree_nodes}
use frosk.Builder.Nodes.Build.{AllSmall, add_fs_entry_h_lem}
use frosk.Builder.Parse.{Perm, perm_none}
use frosk.Builder.Parse.Tokens.{IsToken}
use frosk.Builder.Parse.Print.{print, contents_of, AllTokens, IsOwner, cost}
use frosk.Builder.Parse.Script.{parse_next-print}
use frosk.Builder.Load.{struct_of, EntryPoints, make_unused, add_named, add_fs_entry, load_next}

struct_of-contents_of :
    (rd wr ex : Perm) (t : ParseStruct) → struct_of (contents_of rd wr ex t) ≡ some t
unfolding struct_of Option.bind
struct_of-contents_of rd wr ex null = refl
struct_of-contents_of rd wr ex (pst_file owner name actual next) =
    rw (struct_of-contents_of rd wr ex next) refl
struct_of-contents_of rd wr ex (pst_indirect owner name dest next) =
    rw (struct_of-contents_of rd wr ex next) refl
struct_of-contents_of rd wr ex (pst_dir owner name contents next) =
    rw (struct_of-contents_of rd wr ex next) (rw (struct_of-contents_of rd wr ex contents) refl)

root-IsToken : IsToken (b'/' ∷ [])
unfolding isspace
root-IsToken = (omega arith, omega arith, (refl, tt))

make_unused-Made :
    (lba : ℕ) (roots : EntryPoints) (fs : FileSys)
    → IsValid fs
    → Room fs 1
    → roots.unused ≡ 0
    → Made fs (make_unused lba roots fs).1 1
unfolding make_unused
make_unused-Made lba roots fs v room e =
    let (at, below, nz) = new_node-position fs v room in
    rw e (
      fill-Made fs (new_node fs).1 1 (new_node fs).0 (data_node 0 lba 0 0) (new_node-Made fs v room)
        at)

-- The script begins with a directory "/", written as in `parse_next-print`, and there is room for its nodes
-- and the unused one, which is made first. Then one round of `main` sets the root to a node that stands for
-- the directory with all its entries, and leaves the rest of the script. The host's files have less than
-- 2 GiB each.
pub load_next-print :
    (atoi : List ℕ → ℕ) (digits : ℕ → List ℕ) (size_of : List ℕ → Option ℕ) (lba owner : ℕ)
    (contents : ParseStruct) (fuel : ℕ) (r : List ℕ) (roots : EntryPoints) (fs : FileSys)
    → (let t = pst_dir owner (b'/' ∷ []) contents null in
        IsOwner atoi digits owner
        → AllTokens atoi digits contents
        → cost contents ≤ fuel
        → IsValid fs
        → roots.unused ≡ 0
        → Room fs (1 + tree_nodes t)
        → AllSmall size_of
        → (roots' : EntryPoints) × (fs' : FileSys) × (load_next atoi size_of lba
              (suc (suc (suc (suc fuel))))
              (print digits t r)
              roots
              fs
            ≡ some (roots', fs', r))
          × Represents size_of fs'.nodes
              (position (make_unused lba roots fs).1)
              (position fs')
              0
              t
              roots'.root)
unfolding load_next add_fs_entry add_named struct_of Option.bind
load_next-print atoi digits size_of lba owner contents fuel r roots fs own tokens enough v fresh
      room small =
    let t = pst_dir owner (b'/' ∷ []) contents null in
    let made = make_unused-Made lba roots fs v (omega (arith, room)) fresh in
    let (roots₁, fs₁) = make_unused lba roots fs in
    let (n, fs₂, e, more, stands) =
      add_fs_entry_h_lem size_of t 0 fs₁ made.valid (omega (arith, made.few, room)) small in
    let read =
      parse_next-print atoi digits owner (b'/' ∷ []) contents fuel perm_none perm_none perm_none r
        own root-IsToken tokens enough in
    (
      record roots₁ { root = n },
      fs₂,
      rw read (rw (struct_of-contents_of perm_none perm_none perm_none contents) (rw e refl)),
      stands,
    )
