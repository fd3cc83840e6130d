-- ===== src/Kernel/Kobj/Words.antt =====
-- The bitmap words of kernel/src/kernobj.c: the bits 31 to 63 move together, so that a word has
-- 32 slots.
use mathlib.Core.Path.{fun_ext}
use frosk.Prelude.{
  ℕ, zero, suc, ◌+◌, ◌%◌, ◌≤◌, ◌<◌, ◌≡◌, refl, true, false, not, ◌&&◌, some, arith, ap, sym, ◌∙◌,
  if◌then◌else◌, inl, inr, leb, ◌==◌, Bool-cases,
}
use frosk.Kernel.Kobj.{Word, any_below, all_below, mask, test, mark, clear, full, first_clear}

-- a word that only `mark` and `clear` have written
abbrev pub IsUniform : Word → Type 0
IsUniform w = (k : ℕ) → 31 ≤ k → w k ≡ w 31

any_below_of : (n k : ℕ) (w : Word) → k < n → w k ≡ true → any_below n w ≡ true
unfolding any_below
any_below_of zero k w h e = absurd (omega arith)
any_below_of (suc n) k w h e = ground (arith, any_below_of n k w)

any_below-none : (n : ℕ) (w : Word) → ((k : ℕ) → w k ≡ false) → any_below n w ≡ false
unfolding any_below
any_below-none zero w h = refl
any_below-none (suc n) w h = ground (arith, h n, any_below-none n w h)

not_all_below : (n : ℕ) (w : Word) → all_below n w ≡ false → (k : ℕ) × (k < n) × (w k ≡ false)
unfolding all_below
not_all_below zero w h = cc
not_all_below (suc n) w h = elim (Bool-cases (w n)) [
  | inl e ↦ let (k, lt, f) = not_all_below n w (ground arith) in (k, omega arith, f)
  | inr e ↦ (n, omega arith, e)
]

all_below_at : (n k : ℕ) (w : Word) → all_below n w ≡ true → k < n → w k ≡ true
unfolding all_below
all_below_at zero k w h lt = absurd (omega arith)
all_below_at (suc n) k w h lt = ground (arith, all_below_at n k w)

-- Every bit that a mask names agrees with the slot's own.
masked_bit : (w : Word) (i k : ℕ) → IsUniform w → mask i k ≡ true → w k ≡ w (i % 32)
masked_bit w i k u h = elim (Bool-cases (i % 32 == 31)) [
  | inl e ↦ let s : i % 32 ≡ 31 = ground arith in rw s (u k (ground arith))
  | inr e ↦ let s : k ≡ i % 32 = ground arith in ap w s
]

mask_self : (i : ℕ) → mask i (i % 32) ≡ true
mask_self i = ground arith

masked_clear :
    (w : Word) (i : ℕ) → IsUniform w → w (i % 32) ≡ false → (k : ℕ) → (w k && mask i k) ≡ false
masked_clear w i u e k = elim (Bool-cases (mask i k)) [
  | inl m ↦ rw (masked_bit w i k u m, e) refl
  | inr m ↦ ground (arith, m)
]

-- The test of a slot reads its own bit.
pub test_lem : (w : Word) (i : ℕ) → IsUniform w → test w i ≡ w (i % 32)
unfolding test
test_lem w i u = elim (Bool-cases (w (i % 32))) [
  | inl e ↦
      any_below_of 64 (i % 32) (λ k. w k && mask i k) (omega arith) (rw (e, mask_self i) refl)
      ∙ sym e
  | inr e ↦ any_below-none 64 (λ k. w k && mask i k) (masked_clear w i u e) ∙ sym e
]

-- Of a word that is not full, the loop finds the first clear slot.
pub first_clear_lem :
    (fuel i j : ℕ) (w : Word)
    → IsUniform w
    → i ≤ j
    → j < 32
    → j < i + fuel
    → w j ≡ false
    → (r : ℕ) × (first_clear fuel w i ≡ some r) × (r < 32) × (w r ≡ false)
unfolding first_clear
first_clear_lem zero i j w u le lt fits e = absurd (omega arith)
first_clear_lem (suc fuel) i j w u le lt fits e =
    let own : i % 32 ≡ i = omega arith in
    let t : test w i ≡ w i = rw own at (test_lem w i u) in
    elim (Bool-cases (w i)) [
      | inl taken ↦
          rw (t ∙ taken) (first_clear_lem fuel (i + 1) j w u (ground arith) lt (omega arith) e)
      | inr unset ↦ rw (t ∙ unset) (i, refl, omega arith, unset)
    ]

pub not_full : (w : Word) → IsUniform w → full w ≡ false → (j : ℕ) × (j < 32) × (w j ≡ false)
unfolding full
not_full w u h =
    let (k, lt, e) = not_all_below 64 w h in
    elim (Bool-cases (leb 31 k)) [
      | inl up ↦ (31, omega arith, sym (u k (ground arith)) ∙ e)
      | inr down ↦ (k, ground arith, e)
    ]

pub mark-IsUniform : (w : Word) (i : ℕ) → IsUniform w → IsUniform (mark w i)
mark-IsUniform w i u k h = ground (arith, u k h)

pub clear-IsUniform : (w : Word) (i : ℕ) → IsUniform w → IsUniform (clear w i)
clear-IsUniform w i u k h = ground (arith, u k h)

-- A slot that was clear is clear again after it is marked and cleared, and so is the whole word.
pub clear-mark : (w : Word) (i : ℕ) → IsUniform w → w (i % 32) ≡ false → clear (mark w i) i ≡ w
clear-mark w i u e = fun_ext λ k. elim (Bool-cases (mask i k)) [
  | inl m ↦ rw (m, masked_bit w i k u m, e) refl
  | inr m ↦ ground (arith, m)
]

pub mark_self : (w : Word) (i : ℕ) → mark w i (i % 32) ≡ true
mark_self w i = ground arith

-- The count of the shift is modulo 32.
pub clear_wraps : (w : Word) (i : ℕ) → clear w (64 + i) ≡ clear w i
clear_wraps w i =
    let same : (64 + i) % 32 ≡ i % 32 = omega arith in
    ap (λ s k. w k && not (if s == 31 then leb 31 k else k == s)) same
