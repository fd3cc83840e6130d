-- ===== src/Start/ReadFile.antt =====
-- `read_file` of prgm/start/src/start.c, over kernel/src/fs.c and lib/cstd/src/malloc.c.
use mathlib.Core.Option
use frosk.Prelude.{
  ℕ, suc, ◌+◌, ◌-◌, ◌*◌, ◌%◌, ◌^◌, ◌≤◌, ◌<◌, ◌≡◌, ◌≢◌, refl, ap, ◌∙◌, false, some, List, [], ◌∷◌,
  ◌==◌, leb, arith,
}
use frosk.Cstd.Memory.{Mem, write}
use frosk.Cstd.Malloc.{Heap, malloc, round}
use frosk.Cstd.Malloc.Blocks.{IsHeap, room, malloc-Got}
use frosk.Kernel.Fs.{
  fs_aquire, fs_get_size, fs_read, fs_release, unlock, trylock, lock_handle, AtaRead, resolve, uint,
  get_type, first_ptr, fs_file, fs_directory,
}
use frosk.Kernel.Fs.Tree.{Entries, AllComponents, InTable, find, join, steps, answer}
use frosk.Kernel.Fs.Lookup.{fs_aquire_lem}
use frosk.Kernel.Fs.Sizes.{Extent, Extents, fewer, fs_get_size_lem, fs_read_lem}
use frosk.Start.{FileRead, blocks_of, read_handle, read_file}

-- the memory with the file's lock held
abbrev pub locked : Mem → ℕ → Mem
locked m h = write m h (m h + 128)

lock_free : (m : Mem) (h : ℕ) → m h % 256 < 128 → lock_handle m h ≡ some (h, locked m h)
unfolding trylock
lock_free m h free = let open_ : leb 128 (m h % 256) ≡ false = ground (arith, free) in rw open_ refl

release_locked : (m : Mem) (h a : ℕ) → m h % 256 < 128 → (fs_release (locked m h) h).1 a ≡ m a
unfolding fs_release unlock
release_locked m h a free = ground (arith, free)

blocks_of-size :
    (b last : ℕ) → 0 < b → 0 < last → last ≤ 0x1000 → blocks_of ((b - 1) * 0x1000 + last) ≡ b
blocks_of-size b last pos some_bytes few = ground (arith, pos, some_bytes, few)

fewer-same : (b : ℕ) → fewer b b ≡ b
fewer-same b = ground arith

-- the calls that the part behind the lookup makes
read_handle-parts :
    (fuel loc sz bl p n h : ℕ) (hdrs : List ℕ) (heap heap' : Heap) (m : Mem) (reads : List AtaRead)
    → fs_get_size fuel hdrs m h ≡ some sz
    → blocks_of sz ≡ bl
    → malloc fuel loc (bl * 0x1000 + 1) heap ≡ some (p, heap')
    → fs_read fuel hdrs m h p bl 0 ≡ some (reads, n)
    → read_handle fuel hdrs loc heap m h
      ≡ some (record { size = sz; buf = p; reads = reads; mem = (fs_release m h).1; heap = heap' })
unfolding read_handle Option.bind
read_handle-parts fuel loc sz bl p n h hdrs heap heap' m reads size blocks got read =
    rw size (rw blocks (rw got (rw read refl)))

the_read :
    (p q lba blocks : ℕ)
    → p ≡ q
    → ◌≡◌ {A = List AtaRead}
        (record { buf = p; sectors = fewer blocks blocks * 8; lba = lba * 8 } ∷ [])
        (record { buf = q; sectors = blocks * 8; lba = lba * 8 } ∷ [])
the_read p q lba blocks e = rw (e, fewer-same blocks) refl

-- the part behind the lookup, for a file of one extent
read_handle_lem :
    (e : Extent) (fuel loc : ℕ) (hdrs : List ℕ) (heap : Heap) (m : Mem) (h : ℕ)
    → get_type m h ≡ fs_file
    → Extents hdrs m (first_ptr m h) e []
    → 0 < e.lba
    → e.lba < 2 ^ 60
    → 0 < e.blocks
    → e.blocks < 2 ^ 20
    → 0 < e.last
    → e.last ≤ 0x1000
    → IsHeap loc heap
    → round (e.blocks * 0x1000 + 1) + 16 ≤ room heap
    → (r : FileRead) × (read_handle (suc fuel) hdrs loc heap m h ≡ some r)
      × (r.size ≡ (e.blocks - 1) * 0x1000 + e.last)
      × (r.buf ≡ heap.hdr + 16)
      × (r.reads ≡ record { buf = heap.hdr + 16; sectors = e.blocks * 8; lba = e.lba * 8 } ∷ [])
      × (r.mem ≡ (fs_release m h).1)
read_handle_lem e fuel loc hdrs heap m h ty data_at lba_pos low pos short some_bytes few v enough =
    let sz : ℕ = (e.blocks - 1) * 0x1000 + e.last in
    let size =
      fs_get_size_lem [] e (suc fuel) hdrs m h ty data_at (omega arith)
        (omega (arith, short, few)) in
    let bl = blocks_of-size e.blocks e.last pos some_bytes few in
    let (p, heap', got_p, got) =
      malloc-Got fuel loc (e.blocks * 0x1000 + 1) heap v (omega (arith, short)) enough in
    let reads =
      fs_read_lem [] e (suc fuel) hdrs m h p e.blocks ty data_at lba_pos low pos (omega arith)
        (omega arith) in
    (
      record {
        size = sz;
        buf = p;
        reads = record { buf = p; sectors = fewer e.blocks e.blocks * 8; lba = e.lba * 8 } ∷ [];
        mem = (fs_release m h).1;
        heap = heap';
      },
      read_handle-parts (suc fuel) loc sz e.blocks p (fewer e.blocks e.blocks) h hdrs heap heap' m _
          size bl got_p reads,
      refl,
      got.place,
      the_read p (heap.hdr + 16) e.lba e.blocks got.place,
      refl,
    )

-- The path names in the tree of the table, by `fs_aquire_lem`, a file of one extent, not empty, whose
-- lock is free and whose data nodes the table has while it is locked. The heap has room. Then `read_file`
-- returns the file's size; it reads all blocks of the extent, and no others, into a new block of the heap,
-- and leaves the memory of the table as it was, with the lock free.
pub read_file_lem :
    (es : Entries) (e : Extent) (fuel nf hdr loc : ℕ) (hdrs : List ℕ) (heap : Heap) (m : Mem)
    (n : List ℕ) (ns : List (List ℕ)) (root h : ℕ)
    → AllComponents n ns
    → resolve (hdr ∷ hdrs) (uint m (hdr + 4)) ≡ some root
    → get_type m root ≡ fs_directory
    → InTable nf (hdr ∷ hdrs) m (first_ptr m root) es
    → steps es ≤ fuel
    → find n ns es ≡ some h
    → h ≢ 0
    → m h % 256 < 128
    → get_type (locked m h) h ≡ fs_file
    → Extents (hdr ∷ hdrs) (locked m h) (first_ptr (locked m h) h) e []
    → 0 < e.lba
    → e.lba < 2 ^ 60
    → 0 < e.blocks
    → e.blocks < 2 ^ 20
    → 0 < e.last
    → e.last ≤ 0x1000
    → IsHeap loc heap
    → round (e.blocks * 0x1000 + 1) + 16 ≤ room heap
    → (r : FileRead) × (read_file (suc (suc fuel)) nf (hdr ∷ hdrs) loc heap m (b'/' ∷ join n ns)
        ≡ some r)
      × (r.size ≡ (e.blocks - 1) * 0x1000 + e.last)
      × (r.buf ≡ heap.hdr + 16)
      × (r.reads ≡ record { buf = heap.hdr + 16; sectors = e.blocks * 8; lba = e.lba * 8 } ∷ [])
      × ((a : ℕ) → r.mem a ≡ m a)
unfolding read_file Option.bind
read_file_lem es e fuel nf hdr loc hdrs heap m n ns root h comps at ty table le found nz free
      file_ty data_at lba_pos low pos short some_bytes few v enough =
    let look : fs_aquire (suc (suc fuel)) nf (hdr ∷ hdrs) m (b'/' ∷ join n ns) 0
        ≡ some (h, locked m h) =
      fs_aquire_lem es fuel nf hdr hdrs m n ns 0 root comps at ty table le
      ∙ ap (answer m) found
      ∙ lock_free m h free in
    let there : (h == 0) ≡ false = ground (arith, nz) in
    let (r, done, size, buf, reads, mem) =
      read_handle_lem e (suc fuel) loc (hdr ∷ hdrs) heap (locked m h) h file_ty data_at lba_pos low
        pos short some_bytes few v enough in
    (
      r,
      rw look (rw there done),
      size,
      buf,
      reads,
      λ a. ap (λ (k : Mem). k a) mem ∙ release_locked m h a free,
    )
