-- ===== src/Kernel/Kobj/Examples.antt =====
-- The pool of kernel/src/kernobj.c at start, and one whose lower word is full.
use mathlib.Core.Option
use frosk.Prelude.{
  ℕ, ◌+◌, ◌*◌, ◌<◌, ◌≡◌, refl, true, false, none, some, List, [], ◌∷◌, arith, ◌⊎◌, ◌==◌,
}
use frosk.Kernel.Kobj.{
  Header, mark, clear, full, all_below, any_below, test, first_clear, claim_low, alloc_kobj,
  free_kobj, verify_kobj, init_kobj_mgr,
}
use frosk.Kernel.Kobj.Alloc.{AllFull, IsValid, Allocated, alloc_kobj_lem}
use frosk.Kernel.Kobj.Free.{free_kobj-alloc_kobj, free_kobj_high}

abbrev fresh : Header
fresh = record { addr = 0xC000; low = λ k. k == 0; high = λ k. false }

abbrev low_full : Header
low_full = record { addr = 0xC000; low = λ k. true; high = λ k. k == 0 }

fresh-IsValid : IsValid fresh
fresh-IsValid = (λ k h. ground arith, λ k h. refl)

low_full-IsValid : IsValid low_full
low_full-IsValid = (λ k h. refl, λ k h. ground arith)

-- The first object handed out is the one after the header.
first_address : Option.map (λ (a, hs). a) (alloc_kobj (init_kobj_mgr 0xC000)) ≡ some 0xC020
unfolding init_kobj_mgr alloc_kobj full all_below claim_low first_clear test any_below
first_address = refl

alloc_kobj_lem_example :
    (AllFull (fresh ∷ []) × (alloc_kobj (fresh ∷ []) ≡ none)) ⊎ Allocated (fresh ∷ [])
alloc_kobj_lem_example = alloc_kobj_lem (fresh ∷ []) (fresh-IsValid, tt)

free_kobj-alloc_kobj_example :
    (a : ℕ) × (hs : List Header) × (alloc_kobj (fresh ∷ []) ≡ some (a, hs))
    × (verify_kobj a hs ≡ some true)
    × (free_kobj a hs ≡ some (fresh ∷ []))
    × (verify_kobj a (fresh ∷ []) ≡ some false)
unfolding full all_below
free_kobj-alloc_kobj_example = free_kobj-alloc_kobj fresh [] fresh-IsValid refl refl

free_kobj_high_example :
    (i : ℕ) × (hs : List Header) × (i < 32)
    × (alloc_kobj (low_full ∷ []) ≡ some (0xC000 + 0x800 + i * 0x20, hs))
    × (free_kobj (0xC000 + 0x800 + i * 0x20) hs
        ≡ some (record low_full { low = clear low_full.low i; high = mark low_full.high i } ∷ []))
unfolding full all_below
free_kobj_high_example = free_kobj_high low_full [] low_full-IsValid refl refl refl
