-- ===== src/Cstd/Malloc/Heaps.antt =====
-- Requests to `malloc` of lib/cstd/src/malloc.c one after the other.
use mathlib.Core.Option
use frosk.Prelude.{
  ℕ, suc, ◌+◌, ◌^◌, ◌≤◌, ◌<◌, ◌≡◌, ◌≢◌, refl, ◌∙◌, true, false, some, List, [], ◌∷◌, arith,
}
use frosk.Cstd.Malloc.{Heap, heap_size, set_up, round, malloc, malloc_all}
use frosk.Cstd.Malloc.Blocks.{IsHeap, room, malloc-Got, set_up-IsHeap, set_up-begun, round_lem}

-- the blocks at these places, of these sizes, lie between lo and hi, each behind the one before, with
-- room for a header
abbrev pub Apart : ℕ → ℕ → List ℕ → List ℕ → Type 0
Apart lo hi [] [] = Unit
Apart lo hi [] (p ∷ ps) = ⊥
Apart lo hi (s ∷ ss) [] = ⊥
Apart lo hi (s ∷ ss) (p ∷ ps) = (lo + 16 ≤ p) × (p + s ≤ hi) × Apart (p + s) hi ss ps

-- the room that requests need
abbrev pub total : List ℕ → ℕ
total [] = 0
total (s ∷ ss) = round s + 16 + total ss

abbrev pub AllSmall : List ℕ → Type 0
AllSmall [] = Unit
AllSmall (s ∷ ss) = (s < 2 ^ 63) × AllSmall ss

room-hdr : (h : Heap) (w : ℕ) → w + 16 ≤ room h → (h.hdr ≢ 0) × (w ≤ h.size h.hdr)
room-hdr h w le = ground (arith, le)

malloc_all-Apart :
    (ss : List ℕ) (fuel loc lo : ℕ) (h : Heap)
    → IsHeap loc h
    → AllSmall ss
    → total ss ≤ room h
    → (h.hdr ≢ 0 → lo ≤ h.hdr)
    → (ps : List ℕ) × (h' : Heap) × (malloc_all (suc fuel) loc ss h ≡ some (ps, h'))
      × Apart lo (loc + 16 + heap_size) ss ps
unfolding malloc_all Option.bind
malloc_all-Apart [] fuel loc lo h v small le at = ([], h, refl, omega arith)
malloc_all-Apart (s ∷ ss) fuel loc lo h v (s_small, small) le at =
    let (nz, fits) = room-hdr h (round s) (omega (arith, le)) in
    let (even, holds, short) = round_lem s s_small in
    let (p, h', e, got) = malloc-Got fuel loc s h v s_small (omega (arith, le)) in
    let (ps, h'', es, apart) =
      malloc_all-Apart ss fuel loc (p + s) h' got.valid small (omega (arith, got.rest, le))
        (λ some_left. omega (arith, got.behind some_left, holds)) in
    (
      p ∷ ps,
      h'',
      rw e (rw es refl),
      (omega (arith, got.place, at nz), omega (arith, got.place, v.ends nz, fits, holds), apart),
    )

set_up-room : (loc : ℕ) (h : Heap) → h.first ≡ true → 0 < loc → room (set_up loc h) ≡ heap_size + 16
unfolding set_up
set_up-room loc h e pos = rw e (ground (arith, pos))

-- the first request sets up the heap, and no other does
malloc_all-set_up :
    (ss : List ℕ) (s fuel loc : ℕ) (h : Heap)
    → (set_up loc h).first ≡ false
    → malloc_all fuel loc (s ∷ ss) h ≡ malloc_all fuel loc (s ∷ ss) (set_up loc h)
unfolding malloc_all malloc Option.bind
malloc_all-set_up ss s fuel loc h e = rw (set_up-begun loc (set_up loc h) e) refl

-- Requests of less than 2^63 bytes are made, from the first use of the heap on, that fit into it with
-- their headers, their sizes being rounded up. Then each of them returns, and the blocks have the sizes
-- asked for, lie in the heap and do not overlap, in the order of the requests, with room for a header
-- before each.
pub malloc_all_lem :
    (s : ℕ) (ss : List ℕ) (fuel loc : ℕ) (h : Heap)
    → h.first ≡ true
    → 0 < loc
    → AllSmall (s ∷ ss)
    → total (s ∷ ss) ≤ heap_size + 16
    → (ps : List ℕ) × (h' : Heap) × (malloc_all (suc fuel) loc (s ∷ ss) h ≡ some (ps, h'))
      × Apart loc (loc + 16 + heap_size) (s ∷ ss) ps
malloc_all_lem s ss fuel loc h fresh pos small le =
    let v = set_up-IsHeap loc h fresh pos in
    let (ps, h', e, apart) =
      malloc_all-Apart (s ∷ ss) fuel loc loc (set_up loc h) v small
        (omega (arith, le, set_up-room loc h fresh pos)) v.begins in
    (ps, h', malloc_all-set_up ss s (suc fuel) loc h v.begun ∙ e, apart)
