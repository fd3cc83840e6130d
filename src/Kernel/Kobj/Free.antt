-- ===== src/Kernel/Kobj/Free.antt =====
-- `free_kobj` and `verify_kobj` of kernel/src/kernobj.c, on what `alloc_kobj` returned.
use frosk.Prelude.{ℕ, ◌+◌, ◌*◌, ◌%◌, ◌<◌, ◌≡◌, true, false, some, List, ◌∷◌, arith, ==_self, Bool}
use frosk.Kernel.Kobj.{
  clear_in, test_in, Header, mark, clear, full, alloc_kobj, loc_kobj, free_at, verify_at, free_kobj,
  verify_kobj,
}
use frosk.Kernel.Kobj.Words.{mark_self, clear_wraps, test_lem, mark-IsUniform, clear-mark}
use frosk.Kernel.Kobj.Alloc.{IsValid, alloc_low, alloc_high}

module _ (a i : ℕ) (aligned : a % 0x1000 ≡ 0) (slot : i < 32) where
  loc_low : loc_kobj (a + i * 0x20) ≡ (a, false, i)
  unfolding loc_kobj
  loc_low = ground arith

  loc_high : loc_kobj (a + 0x800 + i * 0x20) ≡ (a, false, 64 + i)
  unfolding loc_kobj
  loc_high = ground arith

  own_bit : i % 32 ≡ i
  own_bit = omega arith

module _ (h : Header) (hs : List Header) (b : Bool) (i : ℕ) where
  free_at_head : free_at (h ∷ hs) h.addr b i ≡ some (clear_in h b i ∷ hs)
  unfolding free_at
  free_at_head = rw (==_self h.addr)

  verify_at_head : verify_at (h ∷ hs) h.addr b i ≡ some (test_in h b i)
  unfolding verify_at
  verify_at_head = rw (==_self h.addr)

-- An object of the lower word verifies once it is allocated, and freeing it gives the pool back
-- as it was, in which the object does not verify.
pub free_kobj-alloc_kobj :
    (h : Header) (hs : List Header)
    → IsValid h
    → h.addr % 0x1000 ≡ 0
    → full h.low ≡ false
    → (a : ℕ) × (hs' : List Header) × (alloc_kobj (h ∷ hs) ≡ some (a, hs'))
      × (verify_kobj a hs' ≡ some true)
      × (free_kobj a hs' ≡ some (h ∷ hs))
      × (verify_kobj a (h ∷ hs) ≡ some false)
unfolding free_kobj verify_kobj
free_kobj-alloc_kobj h hs v aligned e =
    let (i, il, ie, made) = alloc_low h hs v e in
    let own = own_bit h.addr i aligned il in
    let at = loc_low h.addr i aligned il in
    let marked = record h { low = mark h.low i } in
    let was = rw (← own) at ie in
    (
      h.addr + i * 0x20,
      marked ∷ hs,
      made,
      rw (
        at,
        verify_at_head marked hs false i,
        test_lem _ i (mark-IsUniform h.low i v.0),
        mark_self h.low i,
      ),
      rw (at, free_at_head marked hs false i, clear-mark h.low i v.0 was),
      rw (at, verify_at_head h hs false i, test_lem h.low i v.0, was),
    )

-- Of an object of the upper word, which `alloc_kobj` hands out once the lower word is full, the
-- header's upper word is never looked at again: `free_kobj` clears a slot of the lower word, and
-- the upper word keeps the mark.
pub free_kobj_high :
    (h : Header) (hs : List Header)
    → IsValid h
    → h.addr % 0x1000 ≡ 0
    → full h.low ≡ true
    → full h.high ≡ false
    → (i : ℕ) × (hs' : List Header) × (i < 32)
      × (alloc_kobj (h ∷ hs) ≡ some (h.addr + 0x800 + i * 0x20, hs'))
      × (free_kobj (h.addr + 0x800 + i * 0x20) hs'
          ≡ some (record h { low = clear h.low i; high = mark h.high i } ∷ hs))
unfolding free_kobj
free_kobj_high h hs v aligned e f =
    let (i, il, ie, made) = alloc_high h hs v e f in
    let marked = record h { high = mark h.high i } in
    (
      i,
      marked ∷ hs,
      il,
      made,
      rw (loc_high h.addr i aligned il, free_at_head marked hs false (64 + i), clear_wraps h.low i),
    )
