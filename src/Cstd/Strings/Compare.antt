-- ===== src/Cstd/Strings/Compare.antt =====
-- The functions of lib/cstd/src/string.c that compare.
use frosk.Prelude.{
  ℕ, zero, suc, ◌+◌, ◌≤◌, ◌<◌, ◌≡◌, ◌≢◌, ◌↔◌, refl, true, false, Bool, ◌&&◌, some, List, [], ◌∷◌,
  ◌⊎◌, inl, inr, ◌==◌, ltb, if◌then◌else◌, length, arith, subst, Bool-cases, take,
}
use frosk.Prelude.Int.{ℤ, pos, negsuc}
use frosk.Cstd.Memory.{Mem, IsString}
use frosk.Cstd.Strings.{
  schar_gt, sign, memcmp_from, memcmp, strcmp_from, strcmp, strncmp_from, strncmp,
}

-- what a comparison of two strings returns: 0 as soon as the first one ends, else the order of
-- the first two characters that differ, the end of the second string being a 0
abbrev pub order : List ℕ → List ℕ → ℤ
order [] t = pos 0
order (a ∷ s) [] = sign (schar_gt a 0)
order (a ∷ s) (b ∷ t) = if a == b then order s t else sign (schar_gt a b)

abbrev pub is_prefix : List ℕ → List ℕ → Bool
is_prefix [] t = true
is_prefix (a ∷ s) [] = false
is_prefix (a ∷ s) (b ∷ t) = (a == b) && is_prefix s t

sign-ne : (b : Bool) → sign b ≢ pos 0
sign-ne true = cc
sign-ne false = cc

order-prefix : (s t : List ℕ) → (order s t ≡ pos 0) ↔ (is_prefix s t ≡ true)
order-prefix [] t = (λ h. refl, λ h. refl)
order-prefix (a ∷ s) [] = (λ h. absurd (sign-ne (schar_gt a 0) h), λ h. cc)
order-prefix (a ∷ s) (b ∷ t) = elim (Bool-cases (a == b)) [
  | inl e ↦ rw e (order-prefix s t)
  | inr e ↦ rw e (λ h. absurd (sign-ne (schar_gt a b) h), λ h. cc)
]

strcmp_from-order :
    (fuel : ℕ) (m : Mem) (p q i : ℕ) (s t : List ℕ)
    → IsString m (p + i) s
    → IsString m (q + i) t
    → length s < fuel
    → strcmp_from fuel m p q i ≡ some (order s t)
unfolding strcmp_from
strcmp_from-order zero m p q i s t hs ht lt = absurd (omega arith)
strcmp_from-order (suc fuel) m p q i [] t hs ht lt = rw hs refl
strcmp_from-order (suc fuel) m p q i (a ∷ s) [] hs ht lt =
    let more : (a == 0) ≡ false = ground (arith, hs.1) in rw (hs.0, ht, more) refl
strcmp_from-order (suc fuel) m p q i (a ∷ s) (b ∷ t) hs ht lt =
    let more : (a == 0) ≡ false = ground (arith, hs.1) in
    let np : p + i + 1 ≡ p + (i + 1) = omega arith in
    let nq : q + i + 1 ≡ q + (i + 1) = omega arith in
    let ih =
      strcmp_from-order fuel m p q (i + 1) s t (subst (λ k. IsString m k s) np hs.2)
        (subst (λ k. IsString m k t) nq ht.2) (omega arith) in
    rw (hs.0, ht.0, more) (elim (Bool-cases (a == b)) [ inl e ↦ rw e ih | inr e ↦ rw e refl ])

-- `strcmp` of two strings ends, given fuel for each character of the first and one round more. It
-- returns 0 exactly if the first string is a prefix of the second, and else the order, as signed
-- characters, of the first two that differ.
pub strcmp_lem :
    (fuel : ℕ) (m : Mem) (p q : ℕ) (s t : List ℕ)
    → IsString m p s
    → IsString m q t
    → length s < fuel
    → (strcmp fuel m p q ≡ some (order s t)) × ((order s t ≡ pos 0) ↔ (is_prefix s t ≡ true))
unfolding strcmp
strcmp_lem fuel m p q s t hs ht lt =
    let np : p ≡ p + 0 = omega arith in
    let nq : q ≡ q + 0 = omega arith in
    (
      strcmp_from-order fuel m p q 0 s t (subst (λ k. IsString m k s) np hs)
          (subst (λ k. IsString m k t) nq ht) lt,
      order-prefix s t,
    )

strncmp_from-order :
    (n : ℕ) (m : Mem) (p q i : ℕ) (s t : List ℕ)
    → IsString m (p + i) s
    → IsString m (q + i) t
    → strncmp_from m p q n i ≡ order (take n s) t
unfolding strncmp_from
strncmp_from-order zero m p q i s t hs ht = refl
strncmp_from-order (suc n) m p q i [] t hs ht = rw hs refl
strncmp_from-order (suc n) m p q i (a ∷ s) [] hs ht =
    let more : (a == 0) ≡ false = ground (arith, hs.1) in rw (hs.0, ht, more) refl
strncmp_from-order (suc n) m p q i (a ∷ s) (b ∷ t) hs ht =
    let more : (a == 0) ≡ false = ground (arith, hs.1) in
    let np : p + i + 1 ≡ p + (i + 1) = omega arith in
    let nq : q + i + 1 ≡ q + (i + 1) = omega arith in
    let ih =
      strncmp_from-order n m p q (i + 1) s t (subst (λ k. IsString m k s) np hs.2)
        (subst (λ k. IsString m k t) nq ht.2) in
    rw (hs.0, ht.0, more) (elim (Bool-cases (a == b)) [ inl e ↦ rw e ih | inr e ↦ rw e refl ])

-- `strncmp` of two strings returns 0 exactly if the first n characters of the first, or all where
-- it is shorter, are a prefix of the second, and else the order of the first two that differ.
pub strncmp_lem :
    (n : ℕ) (m : Mem) (p q : ℕ) (s t : List ℕ)
    → IsString m p s
    → IsString m q t
    → (strncmp m p q n ≡ order (take n s) t)
      × ((strncmp m p q n ≡ pos 0) ↔ (is_prefix (take n s) t ≡ true))
unfolding strncmp
strncmp_lem n m p q s t hs ht =
    let np : p ≡ p + 0 = omega arith in
    let nq : q ≡ q + 0 = omega arith in
    let run =
      strncmp_from-order n m p q 0 s t (subst (λ k. IsString m k s) np hs)
        (subst (λ k. IsString m k t) nq ht) in
    (run, rw run (order-prefix (take n s) t))

-- how two blocks differ: the byte values at the first place where they do
abbrev pub Differ : Mem → ℕ → ℕ → ℕ → ℕ → ℤ → Type 0
Differ m p q i n r =
    (k : ℕ) × (i ≤ k)
    × (k < i + n)
    × ((j : ℕ) → i ≤ j → j < k → m (p + j) ≡ m (q + j))
    × (((m (q + k) < m (p + k)) × (r ≡ pos 1)) ⊎ ((m (p + k) < m (q + k)) × (r ≡ negsuc 0)))

abbrev pub Same : Mem → ℕ → ℕ → ℕ → ℕ → ℤ → Type 0
Same m p q i n r = ((j : ℕ) → i ≤ j → j < i + n → m (p + j) ≡ m (q + j)) × (r ≡ pos 0)

sign_differ :
    (a b : ℕ)
    → (a == b) ≡ false
    → ((b < a) × (sign (ltb b a) ≡ pos 1)) ⊎ ((a < b) × (sign (ltb b a) ≡ negsuc 0))
sign_differ a b e = elim (Bool-cases (ltb b a)) [
  | inl l ↦ inl (ground arith, rw l refl)
  | inr l ↦ inr (ground arith, rw l refl)
]

memcmp_from_lem :
    (n : ℕ) (m : Mem) (p q i : ℕ)
    → Same m p q i n (memcmp_from m p q n i) ⊎ Differ m p q i n (memcmp_from m p q n i)
unfolding memcmp_from
memcmp_from_lem zero m p q i = inl (λ j l u. absurd (omega arith), refl)
memcmp_from_lem (suc n) m p q i = elim (Bool-cases (m (p + i) == m (q + i))) [
  | inl e ↦ rw e (elim (memcmp_from_lem n m p q (i + 1)) [
    | inl (all, r) ↦ inl (λ j l u. ground (arith, e, all j), r)
    | inr (k, l, u, before, r) ↦
        inr (k, omega arith, omega arith, λ j jl ju. ground (arith, e, before j), r)
  ])
  | inr e ↦
      rw e (inr (i, omega arith, omega arith, λ j l u. absurd (omega arith), sign_differ _ _ e))
]

-- `memcmp` of n bytes returns 0 if these are equal, and otherwise 1 or -1 as the first byte that
-- differs is greater or less, as an unsigned byte, in the first block.
pub memcmp_lem :
    (n : ℕ) (m : Mem) (p q : ℕ)
    → Same m p q 0 n (memcmp m p q n) ⊎ Differ m p q 0 n (memcmp m p q n)
unfolding memcmp
memcmp_lem n m p q = memcmp_from_lem n m p q 0
