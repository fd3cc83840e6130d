-- ===== src/Kernel/Fs/Sizes.antt =====
-- Sizes and reads of files, of kernel/src/fs.c.
use mathlib.Core.Option
use frosk.Prelude.{
  ℕ, zero, suc, ◌+◌, ◌-◌, ◌*◌, ◌%◌, ◌^◌, ◌≤◌, ◌<◌, ◌≡◌, ◌≢◌, refl, ap, Option, some, List, [], ◌∷◌,
  ◌==◌, leb, if◌then◌else◌, length, arith, true, false,
}
use frosk.Cstd.Memory.{Mem}
use frosk.Kernel.Fs.{
  resolve, get_type, fs_file, first_ptr, data_blocks, data_lba, data_next_ptr, bytes_in_last_block,
  data_sizes, fs_get_size, AtaRead, sub64, read_data, fs_read,
}

-- a run of blocks on the disk
pub record Extent : Type 0 where
  pub blocks : ℕ
  pub lba : ℕ
  pub last : ℕ

-- the data node at d is the extent
abbrev pub IsExtent : Mem → ℕ → Extent → Type 0
IsExtent m d e =
    (data_blocks m d ≡ e.blocks)
    × (data_lba m d ≡ e.lba)
    × (bytes_in_last_block m d ≡ e.last)
    × (0 < e.blocks)
    × (e.blocks < 2 ^ 20)
    × (e.last ≤ 0x1000)

-- the data nodes from d on
abbrev pub ExtentsAt : List ℕ → Mem → ℕ → Extent → List Extent → Type 0
ExtentsAt hdrs m d e [] = IsExtent m d e × (data_next_ptr m d ≡ 0)
ExtentsAt hdrs m d e (e' ∷ es) =
    IsExtent m d e
    × (data_next_ptr m d ≢ 0)
    × ((d' : ℕ) × (resolve hdrs (data_next_ptr m d) ≡ some d') × ExtentsAt hdrs m d' e' es)

-- the data nodes that a pointer leads to
abbrev pub Extents : List ℕ → Mem → ℕ → Extent → List Extent → Type 0
Extents hdrs m ptr e es =
    (ptr ≢ 0) × ((d : ℕ) × (resolve hdrs ptr ≡ some d) × ExtentsAt hdrs m d e es)

abbrev pub size_of : Extent → List Extent → ℕ
size_of e [] = (e.blocks - 1) * 0x1000 + e.last
size_of e (e' ∷ es) = (e.blocks - 1) * 0x1000 + e.last + size_of e' es

-- the bytes of one extent, in the arithmetic of a `uint`
one_extent :
    (b last : ℕ)
    → 0 < b
    → b < 2 ^ 20
    → last ≤ 0x1000
    → ((b + 2 ^ 32 - 1) % 2 ^ 32 * 0x1000 % 2 ^ 32 + last) % 2 ^ 32 ≡ (b - 1) * 0x1000 + last
one_extent b last pos small few =
    let e : (b + 2 ^ 32 - 1) % 2 ^ 32 ≡ b - 1 = omega arith in rw e (omega (arith, few, small))

nonzero : (n : ℕ) → n ≢ 0 → (n == 0) ≡ false
nonzero n nz = ground (arith, nz)

suc_nonzero : (k : ℕ) → (suc k == 0) ≡ false
suc_nonzero k = ground arith

data_sizes_lem :
    (es : List Extent) (e : Extent) (fuel : ℕ) (hdrs : List ℕ) (m : Mem) (d : ℕ)
    → ExtentsAt hdrs m d e es
    → length es < fuel
    → size_of e es < 2 ^ 64
    → data_sizes fuel hdrs m d ≡ some (size_of e es)
unfolding data_sizes Option.bind
data_sizes_lem es e zero hdrs m d h le small = absurd (omega arith)
data_sizes_lem [] e (suc fuel) hdrs m d ((b, l, n, pos, few, last), end) le small =
    rw (end, b, n) (ap some (one_extent e.blocks e.last pos few last))
data_sizes_lem (e' ∷ es) e (suc fuel) hdrs m d ((b, l, n, pos, few, last), nz, (d', at, more)) le
      small =
    let ih = data_sizes_lem es e' fuel hdrs m d' more (omega arith) (omega arith) in
    let one = one_extent e.blocks e.last pos few last in
    let sum : ((e.blocks - 1) * 0x1000 + e.last + size_of e' es) % 2 ^ 64
        ≡ (e.blocks - 1) * 0x1000 + e.last + size_of e' es =
      omega arith in
    rw (nonzero _ nz, at, b, n) (rw one (rw ih (ap some sum)))

-- A file whose data nodes are extents of 1 to 2^20 - 1 blocks, of which the last holds at most a block's
-- bytes, has by `fs_get_size` the sum of the full blocks and the bytes of the last blocks, given fuel
-- for the data nodes.
pub fs_get_size_lem :
    (es : List Extent) (e : Extent) (fuel : ℕ) (hdrs : List ℕ) (m : Mem) (h : ℕ)
    → get_type m h ≡ fs_file
    → Extents hdrs m (first_ptr m h) e es
    → length es < fuel
    → size_of e es < 2 ^ 64
    → fs_get_size fuel hdrs m h ≡ some (size_of e es)
unfolding fs_get_size Option.bind
fs_get_size_lem es e fuel hdrs m h ty (nz, (d, at, data_at)) le small =
    rw (ty, nonzero _ nz, at) (data_sizes_lem es e fuel hdrs m d data_at le small)

-- nothing is read while the offset lies behind the extents
skip_all :
    (es : List Extent) (e : Extent) (fuel : ℕ) (hdrs : List ℕ) (m : Mem)
    (d buf bl_max bl_offset : ℕ)
    → ExtentsAt hdrs m d e es
    → length es < fuel
    → (length es + 1) * 2 ^ 20 ≤ bl_offset
    → read_data fuel hdrs m d buf bl_max bl_offset ≡ some ([], bl_max)
unfolding read_data Option.bind
skip_all es e zero hdrs m d buf bl_max bl_offset h le far = absurd (omega arith)
skip_all [] e (suc fuel) hdrs m d buf zero bl_offset h le far = refl
skip_all (e' ∷ es) e (suc fuel) hdrs m d buf zero bl_offset h le far = refl
skip_all [] e (suc fuel) hdrs m d buf (suc k) bl_offset ((b, l, n, pos, few, last), end) le far =
    let behind : leb bl_offset (data_blocks m d) ≡ false = rw b (ground (arith, few, far)) in
    rw (suc_nonzero k, behind, end) refl
skip_all (e' ∷ es) e (suc fuel) hdrs m d buf (suc k) bl_offset
      ((b, l, n, pos, few, last), nz, (d', at, more)) le far =
    let behind : leb bl_offset (data_blocks m d) ≡ false = rw b (ground (arith, few, far)) in
    let ih =
      skip_all es e' fuel hdrs m d' buf (suc k) (bl_offset - data_blocks m d) more (omega arith)
        (rw b (omega (arith, few, far))) in
    rw (suc_nonzero k, behind, nonzero _ nz, at) ih

-- the blocks that are read: those asked for, or all of the extent
abbrev pub fewer : ℕ → ℕ → ℕ
fewer bl_max blocks = if leb bl_max blocks then bl_max else blocks

sub64_zero : (a : ℕ) → 0 < a → a < 2 ^ 60 → sub64 0 ((a + 0) % 2 ^ 64) ≡ 2 ^ 64 - a
sub64_zero a pos low = omega (arith, pos, low)

lba_small : (a : ℕ) → a < 2 ^ 60 → (a + 0) % 2 ^ 64 * 8 % 2 ^ 64 ≡ a * 8
lba_small a low = omega (arith, low)

taken :
    (rs : List AtaRead) (a b : ℕ)
    → ◌≡◌ {A = Option (List AtaRead × ℕ)} (some (rs, a - (a - fewer a b))) (some (rs, fewer a b))
taken rs a b = let e : a - (a - fewer a b) ≡ fewer a b = ground arith in rw e refl

-- one step of the loop of `fs_read`, from the start of the extent
read_step :
    (e : Extent) (fuel : ℕ) (hdrs : List ℕ) (m : Mem) (d buf bl_max : ℕ)
    → IsExtent m d e
    → 0 < e.lba
    → e.lba < 2 ^ 60
    → 0 < bl_max
    → (let read : AtaRead = record {
      buf = buf;
      sectors = fewer bl_max e.blocks * 8;
      lba = e.lba * 8;
    } in
        read_data (suc fuel) hdrs m d buf bl_max 0 ≡ (
          if data_next_ptr m d == 0
          then some (read ∷ [], bl_max - fewer bl_max e.blocks)
          else Option.bind (resolve hdrs (data_next_ptr m d)) λ d'.
            Option.map
              (λ ((rs, left) : List AtaRead × ℕ). (read ∷ rs, left))
              (read_data fuel hdrs m d'
                (buf + fewer bl_max e.blocks * 0x1000)
                (bl_max - fewer bl_max e.blocks)
                (2 ^ 64 - e.lba))))
unfolding read_data
read_step e fuel hdrs m d buf bl_max (b, l, n, some_blocks, few, last) pos low asked =
    let more : (bl_max == 0) ≡ false = ground (arith, asked) in
    let start : leb 0 e.blocks ≡ true = ground arith in
    rw (more, b, l) (rw (start, lba_small e.lba low, sub64_zero e.lba pos low) refl)

-- `fs_read` of one block or more from the start of a file whose first extent lies at block 1 to 2^60 - 1
-- makes one read, given fuel for the data nodes: from that extent's first block, of the blocks that
-- are asked for, or of all the extent has where these are fewer. It returns their number. Of the other
-- extents it reads nothing.
pub fs_read_lem :
    (es : List Extent) (e : Extent) (fuel : ℕ) (hdrs : List ℕ) (m : Mem) (h buf bl_max : ℕ)
    → get_type m h ≡ fs_file
    → Extents hdrs m (first_ptr m h) e es
    → 0 < e.lba
    → e.lba < 2 ^ 60
    → 0 < bl_max
    → length es < fuel
    → length es < 2 ^ 30
    → fs_read fuel hdrs m h buf bl_max 0
      ≡ some (
        record { buf = buf; sectors = fewer bl_max e.blocks * 8; lba = e.lba * 8 } ∷ [],
        fewer bl_max e.blocks,
      )
unfolding fs_read Option.bind
fs_read_lem es e zero hdrs m h buf bl_max ty data_at pos low asked le short = absurd (omega arith)
fs_read_lem [] e (suc fuel) hdrs m h buf bl_max ty (nz, (d, at, (is, end))) pos low asked le short =
    rw (ty, at)
      (rw (read_step e fuel hdrs m d buf bl_max is pos low asked)
        (rw end (taken _ bl_max e.blocks)))
fs_read_lem (e' ∷ es) e (suc fuel) hdrs m h buf bl_max ty (nz, (d, at, (is, more, (d', at', rest))))
      pos low asked le short =
    let w = fewer bl_max e.blocks in
    let skipped =
      skip_all es e' fuel hdrs m d' (buf + w * 0x1000) (bl_max - w) (2 ^ 64 - e.lba) rest
        (omega arith) (omega (arith, low, short)) in
    rw (ty, at)
      (rw (read_step e fuel hdrs m d buf bl_max is pos low asked)
        (rw (nonzero _ more, at') (rw skipped (taken _ bl_max e.blocks))))
