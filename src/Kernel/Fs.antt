-- ===== src/Kernel/Fs.antt =====
-- kernel/src/fs.c: lookup and reading in the table of nodes, 24 bytes each, which the loader put into
-- memory. A handle is the address of a node, 0 none; `hdrs` are the addresses of the tables that
-- `first_hdr` links. A path is the list of its characters; the 0 behind them is read where the code
-- reads it. `none` is a fault (a table that is not there) or fuel that ran out.
pub mod Tree
pub mod Names
pub mod Lookup
pub mod Sizes
mod Examples
use mathlib.Core.Option
use frosk.Prelude.{
  ℕ, zero, suc, ◌+◌, ◌-◌, ◌*◌, ◌/◌, ◌%◌, ◌^◌, Bool, true, false, not, Option, none, some, List, [],
  ◌∷◌, ◌==◌, leb, if◌then◌else◌, get_elem?, get_or, drop,
}
use frosk.Cstd.Memory.{Mem, write}

-- little-endian `uint` and `ulong`
abbrev pub uint : Mem → ℕ → ℕ
uint m a = m a + 256 * m (a + 1) + 65536 * m (a + 2) + 16777216 * m (a + 3)

abbrev pub ulong : Mem → ℕ → ℕ
ulong m a = uint m a + 2 ^ 32 * uint m (a + 4)

abbrev pub fs_directory : ℕ
fs_directory = 1

abbrev pub fs_file : ℕ
fs_file = 2

-- `GET_TYPE`, and the fields of `fs_node`
abbrev pub get_type : Mem → ℕ → ℕ
get_type m h = m h % 16

abbrev pub name_ptr : Mem → ℕ → ℕ
name_ptr m h = uint m (h + 8)

-- `first_file_ptr` of a directory, `first_data_ptr` of a file
abbrev pub first_ptr : Mem → ℕ → ℕ
first_ptr m h = uint m (h + 12)

abbrev pub file_next_ptr : Mem → ℕ → ℕ
file_next_ptr m h = uint m (h + 16)

abbrev pub string_size : Mem → ℕ → ℕ
string_size m n = m (n + 1)

abbrev pub string_str : ℕ → ℕ
string_str n = n + 2

abbrev pub string_next_ptr : Mem → ℕ → ℕ
string_next_ptr m n = uint m (n + 20)

abbrev pub data_blocks : Mem → ℕ → ℕ
data_blocks m d = uint m (d + 4)

abbrev pub data_lba : Mem → ℕ → ℕ
data_lba m d = ulong m (d + 8)

abbrev pub data_next_ptr : Mem → ℕ → ℕ
data_next_ptr m d = uint m (d + 16)

abbrev pub bytes_in_last_block : Mem → ℕ → ℕ
bytes_in_last_block m d = uint m (d + 20)

-- `resolve`
unfoldable pub resolve : List ℕ → ℕ → Option ℕ
resolve hdrs ptr = Option.map (λ addr. addr + ptr % 256 * 24) (get_elem? hdrs (ptr / 256))

-- `strncmp` of kstrlib.c, of a string in memory and a path, from index i on
unfoldable pub strncmp_from : ℕ → Mem → ℕ → List ℕ → ℕ → ℕ
strncmp_from zero m a fn i = 0
strncmp_from (suc sz) m a [] i = if m a == 0 then 0 else i + 1
strncmp_from (suc sz) m a (c ∷ fn) i =
    let rest = strncmp_from sz m (a + 1) fn (i + 1) in
    if m a == 0 then 0 else if m a == c then rest else i + 1

abbrev pub strncmp : Mem → ℕ → List ℕ → ℕ → ℕ
strncmp m a fn sz = strncmp_from sz m a fn 0

-- The comparison of a name, whose string nodes begin at n, with the path: the number of characters of
-- the name where it is `good`. The fuel is for the string nodes.
unfoldable pub match_name : ℕ → List ℕ → Mem → ℕ → List ℕ → ℕ → Option (Option ℕ)
match_name zero hdrs m n fn i = none
match_name (suc fuel) hdrs m n fn i =
    let size = string_size m n in
    let rest =
      Option.bind (resolve hdrs (string_next_ptr m n))
        λ n'. match_name fuel hdrs m n' fn (i + size) in
    if not (strncmp m (string_str n) (drop i fn) size == 0)
    then some none
    else if string_next_ptr m n == 0
    then some (some (i + size))
    else rest

-- lock.asm: `trylock` of bit 7, with what it returns, and `unlock`, which complements the bit
unfoldable pub trylock : Mem → ℕ → Bool × Mem
trylock m a = if leb 128 (m a % 256) then (false, m) else (true, write m a (m a + 128))

unfoldable pub unlock : Mem → ℕ → Bool × Mem
unlock m a =
    if leb 128 (m a % 256) then (true, write m a (m a - 128)) else (false, write m a (m a + 128))

-- a handle, or 0, and the memory
abbrev pub Answer : Type 0
Answer = Option (ℕ × Mem)

abbrev pub lock_handle : Mem → ℕ → Answer
lock_handle m h = let (got, m') = trylock m h in some (if got then h else 0, m')

-- what is done with the entry h whose name is good: on to the rest of the path, the handle, or none of
-- these (the next entry), by the character behind the name
abbrev pub at_char : List ℕ → ℕ → ℕ
at_char fn i = get_or fn i 0

-- `fs_aquire`, and its loop over the entries of a directory from h on. A step of either costs fuel;
-- `nf` is the fuel for each name.
unfoldable mutual
  pub fs_aquire : ℕ → ℕ → List ℕ → Mem → List ℕ → ℕ → Answer
  fs_aquire zero nf hdrs m fn cd = none
  fs_aquire (suc fuel) nf hdrs m fn cd =
      let root = Option.bind (get_elem? hdrs 0) λ addr. resolve hdrs (uint m (addr + 4)) in
      let from_root = Option.bind root λ h. enter fuel nf hdrs m (drop 1 fn) h in
      let from_cd = enter fuel nf hdrs m fn cd in
      if at_char fn 0 == b'/' then from_root else if cd == 0 then some (0, m) else from_cd

  pub enter : ℕ → ℕ → List ℕ → Mem → List ℕ → ℕ → Answer
  enter zero nf hdrs m fn h = none
  enter (suc fuel) nf hdrs m fn h =
      let files = Option.bind (resolve hdrs (first_ptr m h)) (aquire_in fuel nf hdrs m fn) in
      if at_char fn 0 == 0
      then some (h, m)
      else if not (get_type m h == fs_directory)
      then some (0, m)
      else if first_ptr m h == 0
      then some (0, m)
      else files

  pub aquire_in : ℕ → ℕ → List ℕ → Mem → List ℕ → ℕ → Answer
  aquire_in zero nf hdrs m fn h = none
  aquire_in (suc fuel) nf hdrs m fn h =
      let next = Option.bind (resolve hdrs (file_next_ptr m h)) (aquire_in fuel nf hdrs m fn) in
      let on = if file_next_ptr m h == 0 then some (0, m) else next in
      Option.bind (resolve hdrs (name_ptr m h)) λ n.
        Option.bind (match_name nf hdrs m n fn 0) λ good. elim good [
          | none ↦ on
          | some i ↦
              let deeper = fs_aquire fuel nf hdrs m (drop (i + 1) fn) h in
              if at_char fn i == b'/'
              then (if not (get_type m h == fs_directory) then some (0, m) else deeper)
              else if at_char fn i == 0
              then lock_handle m h
              else on
        ]

unfoldable pub fs_release : Mem → ℕ → Bool × Mem
fs_release m h = unlock m h

-- the loop of `fs_get_size` over the data nodes
unfoldable pub data_sizes : ℕ → List ℕ → Mem → ℕ → Option ℕ
data_sizes zero hdrs m d = none
data_sizes (suc fuel) hdrs m d =
    let sz =
      ((data_blocks m d + 2 ^ 32 - 1) % 2 ^ 32 * 0x1000 % 2 ^ 32 + bytes_in_last_block m d)
      % 2 ^ 32 in
    let rest =
      Option.bind (resolve hdrs (data_next_ptr m d))
        λ d'. Option.map (λ r. (sz + r) % 2 ^ 64) (data_sizes fuel hdrs m d') in
    if data_next_ptr m d == 0 then some sz else rest

unfoldable pub fs_get_size : ℕ → List ℕ → Mem → ℕ → Option ℕ
fs_get_size fuel hdrs m h =
    let sizes = Option.bind (resolve hdrs (first_ptr m h)) (data_sizes fuel hdrs m) in
    if not (get_type m h == fs_file) then some 0 else if first_ptr m h == 0 then some 0 else sizes

-- a call of `ata_read`: the target, the number of sectors and the first sector
pub record AtaRead : Type 0 where
  pub buf : ℕ
  pub sectors : ℕ
  pub lba : ℕ

abbrev pub sub64 : ℕ → ℕ → ℕ
sub64 a b = (a + 2 ^ 64 - b % 2 ^ 64) % 2 ^ 64

-- the loop of `fs_read` from a data node on: the reads, and the `bl_max` that is left
unfoldable pub read_data : ℕ → List ℕ → Mem → ℕ → ℕ → ℕ → ℕ → Option (List AtaRead × ℕ)
read_data zero hdrs m d buf bl_max bl_offset = none
read_data (suc fuel) hdrs m d buf bl_max bl_offset =
    let blocks = data_blocks m d in
    let sz = if leb bl_max blocks then bl_max else blocks in
    let off = (data_lba m d + bl_offset) % 2 ^ 64 in
    let read : AtaRead = record { buf = buf; sectors = sz * 8; lba = off * 8 % 2 ^ 64 } in
    let last = data_next_ptr m d == 0 in
    let skip =
      Option.bind (resolve hdrs (data_next_ptr m d))
        λ d'. read_data fuel hdrs m d' buf bl_max (bl_offset - blocks) in
    let next = Option.bind (resolve hdrs (data_next_ptr m d)) λ d'.
      Option.map (λ (rs, left). (read ∷ rs, left))
        (read_data fuel hdrs m d' (buf + sz * 0x1000) (bl_max - sz) (sub64 bl_offset off)) in
    if bl_max == 0
    then some ([], 0)
    else if not (leb bl_offset blocks)
    then (if last then some ([], bl_max) else skip)
    else if last
    then some (read ∷ [], bl_max - sz)
    else next

-- `fs_read` from an ATA disk: the reads, and the number of blocks that it returns
unfoldable pub fs_read : ℕ → List ℕ → Mem → ℕ → ℕ → ℕ → ℕ → Option (List AtaRead × ℕ)
fs_read fuel hdrs m h buf bl_max bl_offset =
    let reads = Option.bind (resolve hdrs (first_ptr m h)) λ d.
      Option.map (λ (rs, left). (rs, bl_max - left))
        (read_data fuel hdrs m d buf bl_max bl_offset) in
    if not (get_type m h == fs_file) then some ([], 0) else reads
