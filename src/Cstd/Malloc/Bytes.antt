-- ===== src/Cstd/Malloc/Bytes.antt =====
-- `calloc` and `realloc` of lib/cstd/src/malloc.c, and the bytes of their blocks.
use mathlib.Core.Option
use frosk.Prelude.{
  ℕ, zero, suc, ◌+◌, ◌-◌, ◌*◌, ◌%◌, ◌^◌, ◌≤◌, ◌<◌, ◌≡◌, refl, ◌∙◌, some, false, ◌==◌, arith,
  if◌then◌else◌, leb, ltb, dec_lt, ℕ_discrete, ap,
}
use frosk.Cstd.Memory.{Mem, write}
use frosk.Cstd.Malloc.{Heap, round, malloc, clear, calloc, move, realloc}
use frosk.Cstd.Malloc.Blocks.{IsHeap, room, malloc-Got}

pub clear_lem :
    (n d : ℕ) (m : Mem) (a : ℕ)
    → clear n d m a ≡ (if leb d a then (if ltb a (d + n) then 0 else m a) else m a)
unfolding clear
clear_lem zero d m a = ground arith
clear_lem (suc n) d m a = clear_lem n (d + 1) (write m d 0) a ∙ ground arith

-- the bytes of a block of n at nw, the first old_size of which were at old
abbrev pub moved : ℕ → ℕ → ℕ → ℕ → Mem → Mem
moved n old_size nw old m a =
    if leb nw a
    then (if ltb a (nw + n) then (if ltb a (nw + old_size) then m (old + (a - nw)) else 0) else m a)
    else m a

move_lem :
    (n old_size nw old : ℕ) (m : Mem) (a : ℕ)
    → old + old_size ≤ nw
    → move n old_size nw old m a ≡ moved n old_size nw old m a
unfolding move
move_lem zero k nw old m a le = ground arith
move_lem (suc n) zero nw old m a le = clear_lem (suc n) nw m a ∙ ground arith
move_lem (suc n) (suc k) nw old m a le =
    move_lem n k (nw + 1) (old + 1) (write m nw (m old)) a (omega (arith, le))
    ∙ elim (dec_lt nw a) [
      | yes above ↦
          let e : old + 1 + (a - (nw + 1)) ≡ old + (a - nw) = omega (arith, above) in
          rw e (ground (arith, le, above))
      | no not_above ↦ elim (ℕ_discrete a nw) [
        | yes at ↦
            let z : nw - nw ≡ 0 = omega arith in
            let o : old + 0 ≡ old = omega arith in rw at (rw (z, o) (ground (arith, ap m o)))
        | no other ↦ ground (arith, not_above, other)
      ]
    ]

-- `calloc` of a product below 2^63 that has room returns a new block of zeros, and no other byte changes.
pub calloc_lem :
    (fuel loc cnt sz : ℕ) (h : Heap)
    → IsHeap loc h
    → cnt * sz < 2 ^ 63
    → round (cnt * sz) + 16 ≤ room h
    → (h' : Heap) × (calloc (suc fuel) loc cnt sz h ≡ some (h.hdr + 16, h'))
      × ((a : ℕ)
          → h'.bytes a ≡ (
              if leb (h.hdr + 16) a
              then (if ltb a (h.hdr + 16 + cnt * sz) then 0 else h.bytes a)
              else h.bytes a))
unfolding calloc
calloc_lem fuel loc cnt sz h v small enough =
    let n : cnt * sz % 2 ^ 64 ≡ cnt * sz = omega (arith, small) in
    let (p, h', e, got) = malloc-Got fuel loc (cnt * sz) h v small enough in
    let e' : malloc (suc fuel) loc (cnt * sz) h ≡ some (h.hdr + 16, h') =
      e ∙ ap (λ (q : ℕ). some (q, h')) got.place in
    let there : (h.hdr + 16 == 0) ≡ false = ground arith in
    (
      record h' { bytes = clear (cnt * sz) (h.hdr + 16) h'.bytes },
      rw n (rw e' (rw there refl)),
      λ a. rw got.bytes (clear_lem (cnt * sz) (h.hdr + 16) h.bytes a),
    )

-- `realloc` of a block that lies before what is free returns a new block behind it, given room: it has
-- the bytes of the old block as far as both reach, and zeros behind them. No other byte changes.
pub realloc_lem :
    (fuel loc old sz : ℕ) (h : Heap)
    → IsHeap loc h
    → sz < 2 ^ 63
    → round sz + 16 ≤ room h
    → 16 ≤ old
    → old + h.size (old - 16) ≤ h.hdr
    → (h' : Heap) × (realloc (suc fuel) loc old sz h ≡ some (h.hdr + 16, h'))
      × ((a : ℕ) → h'.bytes a ≡ moved sz (h.size (old - 16)) (h.hdr + 16) old h.bytes a)
unfolding realloc Option.bind
realloc_lem fuel loc old sz h v small enough there before =
    let (p, h', e, got) = malloc-Got fuel loc sz h v small enough in
    let e' : malloc (suc fuel) loc sz h ≡ some (h.hdr + 16, h') =
      e ∙ ap (λ (q : ℕ). some (q, h')) got.place in
    let new_there : (h.hdr + 16 == 0) ≡ false = ground arith in
    let old_there : (old == 0) ≡ false = ground (arith, there) in
    let header = got.headers (old - 16) (omega (arith, there, before)) in
    (
      record h' { bytes = move sz (h.size (old - 16)) (h.hdr + 16) old h'.bytes },
      rw e' (rw (old_there, new_there) (rw header refl)),
      λ a.
          rw got.bytes
            (move_lem sz (h.size (old - 16)) (h.hdr + 16) old h.bytes a (omega (arith, before))),
    )
