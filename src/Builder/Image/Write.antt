-- ===== src/Builder/Image/Write.antt =====
-- util/f301_builder/src/fs.c: the whole image is written, `write_fs` with `write_fs_h` and
-- `write_file_data`. The image is its bytes by their place; the zeros that fill its last block are left
-- out. `none` is a NULL that is followed, or fuel that ran out.
pub mod Places
pub mod Kept
pub mod Held
pub mod Ends
pub mod Served
pub mod Found
mod Examples
use mathlib.Core.Option
use frosk.Prelude.{
  ℕ, zero, suc, ◌+◌, ◌-◌, ◌*◌, ◌^◌, Bool, true, false, Option, some, none, List, [], ◌∷◌, ◌++◌,
  ◌==◌, ◌/◌, if◌then◌else◌, length, take, drop, replicate,
}
use frosk.Cstd.Memory.{Mem}
use frosk.Builder.Nodes.{Node, Nodes, file, dir, data_node, string, indirect}
use frosk.Builder.Load.{EntryPoints}
use frosk.Builder.Image.{int_bytes, node_bytes, seek_to_node, put_bytes, write_node}

-- what the builder finds: where its nodes lie in its memory, what malloc left in them, and the files
pub record Host : Type 0 where
  pub address : ℕ → ℕ
  pub perm : ℕ → ℕ
  pub junk : ℕ → List ℕ
  pub contents : List ℕ → Option (List ℕ)

-- what `fwrite` takes from the buffer of `calloc`, with what `fread` put there
abbrev pub buffer : ℕ → ℕ → List ℕ → List ℕ
buffer count last text =
    let part = take (count * 0x1000 + last - 0x1000) text in
    take (count * 0x1000) (part ++ replicate (count * 0x1000 - length part) 0)

-- the loop of `write_file_data`, from a data node on, with the rest of the file
unfoldable pub write_data_node :
    (ℕ → List ℕ → Mem → Option Mem) → List ℕ → Mem → Option Node → Option Mem
write_data_node again text m (some (data_node count lba next last)) =
    again next (drop (count * 0x1000 + last - 0x1000) text)
      (put_bytes (lba * 0x1000) (buffer count last text) m)
write_data_node again text m other = none

unfoldable pub write_data : ℕ → Nodes → ℕ → List ℕ → Mem → Option Mem
write_data zero nodes d text m = none
write_data (suc fuel) nodes d text m =
    if d == 0 then some m else write_data_node (write_data fuel nodes) text m (nodes d)

-- of a file that cannot be opened nothing is written
abbrev pub write_opened : ℕ → Nodes → ℕ → Mem → Option (List ℕ) → Option Mem
write_opened fuel nodes d m none = some m
write_opened fuel nodes d m (some text) = write_data fuel nodes d text m

unfoldable pub write_file_data : ℕ → Host → Nodes → Node → Mem → Option Mem
write_file_data fuel h nodes (file owner name d next parent actual) m =
    write_opened fuel nodes d m (h.contents actual)
write_file_data fuel h nodes other m = some m

-- the nodes that `write_fs_h` goes on to
unfoldable pub children : Node → List ℕ
children (file owner name first_data next parent actual) = name ∷ first_data ∷ next ∷ []
children (dir owner name first_file next parent) = name ∷ first_file ∷ next ∷ []
children (indirect owner name dest next parent) = name ∷ dest ∷ next ∷ []
children (data_node count lba next last) = next ∷ []
children (string str next) = next ∷ []

-- one after the other, where there is one
unfoldable pub write_each : (ℕ → Mem → Option Mem) → List ℕ → Mem → Option Mem
write_each again [] m = some m
write_each again (p ∷ ps) m =
    Option.bind (if p == 0 then some m else again p m) (write_each again ps)

-- what is done in the first pass only
abbrev pub first_pass : ℕ → (Mem → Option Mem) → Mem → Option Mem
first_pass zero f m = f m
first_pass (suc add) f m = some m

unfoldable pub write_fs_h : ℕ → Host → List ℕ → Nodes → ℕ → ℕ → Mem → Option Mem
write_fs_h zero h lbas nodes p add m = none
write_fs_h (suc fuel) h lbas nodes p add m = Option.bind (seek_to_node lbas p) λ at.
    Option.bind (nodes p) λ n.
      Option.bind
        (write_each (λ q. write_fs_h fuel h lbas nodes q add) (children n)
          (write_node h.address (h.perm p) (h.junk p) (at + add) n m))
        λ m₁.
          Option.bind (first_pass add (write_file_data fuel h nodes n) m₁)
            (first_pass add (write_fs_h fuel h lbas nodes p 0x1000))

-- the head of a table
abbrev pub header_bytes : EntryPoints → ℕ → List ℕ
header_bytes roots lba = int_bytes 0xf301 (
    int_bytes roots.root (
      int_bytes roots.predir
        (int_bytes roots.unused (int_bytes (lba + 1) (int_bytes ((lba + 1) / 2 ^ 32) [])))))

unfoldable pub write_headers : EntryPoints → List ℕ → Mem → Mem
write_headers roots [] m = m
write_headers roots (lba ∷ lbas) m =
    write_headers roots lbas (put_bytes (lba * 0x1000) (header_bytes roots lba) m)

unfoldable pub write_fs : ℕ → Host → List ℕ → EntryPoints → Nodes → Mem → Option Mem
write_fs fuel h lbas roots nodes m =
    Option.bind (write_fs_h fuel h lbas nodes roots.predir 0 (write_headers roots lbas m)) λ m₁.
      Option.bind (write_fs_h fuel h lbas nodes roots.root 0 m₁)
        λ m₂. write_fs_h fuel h lbas nodes roots.unused 0 m₂
