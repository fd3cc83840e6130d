-- ===== src/Cstd/Malloc/Blocks.antt =====
-- One request to `malloc` of lib/cstd/src/malloc.c.
use frosk.Prelude.{
  ℕ, zero, suc, ◌+◌, ◌-◌, ◌%◌, ◌^◌, ◌≤◌, ◌<◌, ◌≡◌, ◌≢◌, refl, ◌∙◌, true, false, none, some, ◌==◌,
  leb, if◌then◌else◌, arith, dec_lt,
}
use frosk.Cstd.Malloc.{Heap, heap_size, set_up, round, take_whole, take_part, find_block, malloc}

-- what is free is one block from hdr to the end of the heap, in a ring of its own, or nothing
pub record IsHeap (heap_loc : ℕ) (h : Heap) : Type 0 where
  pub begun : h.first ≡ false
  pub ring : h.hdr ≢ 0 → h.next h.hdr ≡ h.hdr
  pub aligned : h.hdr ≢ 0 → h.size h.hdr % 16 ≡ 0
  pub ends : h.hdr ≢ 0 → h.hdr + h.size h.hdr ≡ heap_loc + heap_size
  pub begins : h.hdr ≢ 0 → heap_loc ≤ h.hdr

-- the room in the heap, headers included
abbrev pub room : Heap → ℕ
room h = if h.hdr == 0 then 0 else h.size h.hdr + 16

pub set_up-IsHeap : (loc : ℕ) (h : Heap) → h.first ≡ true → 0 < loc → IsHeap loc (set_up loc h)
unfolding set_up
set_up-IsHeap loc h e pos = rw e (record {
  begun = refl;
  ring = λ nz. ground arith;
  aligned = λ nz. ground arith;
  ends = λ nz. ground arith;
  begins = λ nz. omega arith;
})

pub set_up-begun : (loc : ℕ) (h : Heap) → h.first ≡ false → set_up loc h ≡ h
unfolding set_up
set_up-begun loc h e = rw e refl

pub round_lem :
    (sz : ℕ) → sz < 2 ^ 63 → (round sz % 16 ≡ 0) × (sz ≤ round sz) × (round sz < sz + 16)
round_lem sz small = ground arith

-- `malloc` in a heap that is set up and not full begins at its only block
malloc-find_block :
    (fuel loc sz : ℕ) (h : Heap)
    → IsHeap loc h
    → h.hdr ≢ 0
    → malloc fuel loc sz h ≡ find_block fuel h (round sz) h.hdr h.hdr
unfolding malloc
malloc-find_block fuel loc sz h v nz =
    let there : (h.hdr == 0) ≡ false = ground (arith, nz) in
    rw (set_up-begun loc h v.begun) (rw there (rw (v.ring nz) refl))

module _ (h : Heap) (w : ℕ) (ring : h.next h.hdr ≡ h.hdr) where
  find_whole :
      (fuel : ℕ)
      → h.size h.hdr ≡ w
      → find_block (suc fuel) h w h.hdr h.hdr ≡ some (h.hdr + 16, record h { hdr = 0 })
  unfolding find_block take_whole
  find_whole fuel e =
      let all : leb w (h.size h.hdr) ≡ true = ground (arith, e) in
      let same : (h.size h.hdr == w) ≡ true = ground (arith, e) in
      let own : (h.hdr == h.next h.hdr) ≡ true = ground (arith, ring) in rw (all, same, own) refl

  find_part :
      (fuel : ℕ)
      → w < h.size h.hdr
      → find_block (suc fuel) h w h.hdr h.hdr ≡ some (h.hdr + 16, take_part h h.hdr h.hdr w)
  unfolding find_block
  find_part fuel less =
      let all : leb w (h.size h.hdr) ≡ true = ground (arith, less) in
      let other : (h.size h.hdr == w) ≡ false = ground (arith, less) in rw (all, other) refl

  find_none : (fuel : ℕ) → h.size h.hdr < w → find_block fuel h w h.hdr h.hdr ≡ none
  unfolding find_block
  find_none zero less = refl
  find_none (suc fuel) less =
      let little : leb w (h.size h.hdr) ≡ false = ground (arith, less) in
      let again : (h.hdr == h.hdr) ≡ true = ground arith in
      rw little (rw ring (rw (again, find_none fuel less) refl))

-- A request that has no room, in a heap that is not full, does not return.
pub malloc_loops :
    (fuel loc sz : ℕ) (h : Heap)
    → IsHeap loc h
    → h.hdr ≢ 0
    → h.size h.hdr < round sz
    → malloc fuel loc sz h ≡ none
malloc_loops fuel loc sz h v nz little =
    malloc-find_block fuel loc sz h v nz ∙ find_none h (round sz) (v.ring nz) fuel little

-- what a request that has room gives, its size being rounded up to w
pub record Got (loc w : ℕ) (h : Heap) (p : ℕ) (h' : Heap) : Type 0 where
  pub place : p ≡ h.hdr + 16
  pub header : h'.size h.hdr ≡ w
  pub valid : IsHeap loc h'
  pub rest : room h' + w + 16 ≡ room h
  pub behind : h'.hdr ≢ 0 → h'.hdr ≡ p + w
  pub bytes : h'.bytes ≡ h.bytes
  pub headers : (a : ℕ) → a < h.hdr → h'.size a ≡ h.size a

room-some :
    (h : Heap) (w : ℕ)
    → w + 16 ≤ room h
    → (h.hdr ≢ 0) × (w ≤ h.size h.hdr) × (room h ≡ h.size h.hdr + 16)
room-some h w le = ground (arith, le)

whole-Got :
    (loc w : ℕ) (h : Heap)
    → IsHeap loc h
    → h.hdr ≢ 0
    → h.size h.hdr ≡ w
    → Got loc w h (h.hdr + 16) (record h { hdr = 0 })
whole-Got loc w h v nz e =
    let full : room h ≡ h.size h.hdr + 16 = ground (arith, nz) in
    record {
      place = refl;
      header = e;
      valid = record {
        begun = v.begun;
        ring = λ no_hdr. absurd (no_hdr refl);
        aligned = λ no_hdr. absurd (no_hdr refl);
        ends = λ no_hdr. absurd (no_hdr refl);
        begins = λ no_hdr. absurd (no_hdr refl);
      };
      rest = omega (arith, full, e);
      behind = λ no_hdr. absurd (no_hdr refl);
      bytes = refl;
      headers = λ a less. refl;
    }

module _ (h : Heap) (w : ℕ) where
  part-hdr : (take_part h h.hdr h.hdr w).hdr ≡ h.hdr + 16 + w
  unfolding take_part
  part-hdr = refl

  part-size : (take_part h h.hdr h.hdr w).size (h.hdr + 16 + w) ≡ h.size h.hdr - w - 16
  unfolding take_part
  part-size = ground arith

  part-size_old : (take_part h h.hdr h.hdr w).size h.hdr ≡ w
  unfolding take_part
  part-size_old = ground arith

  part-next : (take_part h h.hdr h.hdr w).next (h.hdr + 16 + w) ≡ h.hdr + 16 + w
  unfolding take_part
  part-next = ground arith

part-Got :
    (loc w : ℕ) (h : Heap)
    → IsHeap loc h
    → h.hdr ≢ 0
    → w % 16 ≡ 0
    → w < h.size h.hdr
    → Got loc w h (h.hdr + 16) (take_part h h.hdr h.hdr w)
unfolding take_part
part-Got loc w h v nz even less =
    let full : room h ≡ h.size h.hdr + 16 = ground (arith, nz) in
    let left = part-size h w in
    let some_left : room (take_part h h.hdr h.hdr w) ≡ h.size h.hdr - w - 16 + 16 =
      ground (arith, left) in
    record {
      place = refl;
      header = part-size_old h w;
      valid = record {
        begun = v.begun;
        ring = λ _. part-next h w;
        aligned = λ _. omega (arith, left, v.aligned nz, even, less);
        ends = λ _. omega (arith, left, v.ends nz, v.aligned nz, even, less);
        begins = λ _. omega (arith, v.begins nz);
      };
      rest = omega (arith, full, some_left, v.aligned nz, even, less);
      behind = λ _. refl;
      bytes = refl;
      headers = λ a below. ground (arith, below);
    }

-- A request of less than 2^63 bytes that has room with its header returns the place behind the free
-- block's header. Its rounded size is in the header, and what is free lies behind it.
pub malloc-Got :
    (fuel loc sz : ℕ) (h : Heap)
    → IsHeap loc h
    → sz < 2 ^ 63
    → round sz + 16 ≤ room h
    → (p : ℕ) × (h' : Heap) × (malloc (suc fuel) loc sz h ≡ some (p, h'))
      × Got loc (round sz) h p h'
malloc-Got fuel loc sz h v small enough =
    let (nz, fits, full) = room-some h (round sz) enough in
    let (even, holds, short) = round_lem sz small in
    elim (dec_lt (round sz) (h.size h.hdr)) [
      | yes less ↦ (
        h.hdr + 16,
        take_part h h.hdr h.hdr (round sz),
        malloc-find_block (suc fuel) loc sz h v nz ∙ find_part h (round sz) (v.ring nz) fuel less,
        part-Got loc (round sz) h v nz even less,
      )
      | no all ↦
          let e : h.size h.hdr ≡ round sz = omega (arith, all, fits) in
          (
            h.hdr + 16,
            record h { hdr = 0 },
            malloc-find_block (suc fuel) loc sz h v nz ∙ find_whole h (round sz) (v.ring nz) fuel e,
            whole-Got loc (round sz) h v nz e,
          )
    ]
