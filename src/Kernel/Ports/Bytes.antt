-- ===== src/Kernel/Ports/Bytes.antt =====
-- Bytes stored in the memory of kernel/src/ports.c are those that are loaded.
use frosk.Prelude.{
  ℕ, zero, suc, ◌+◌, ◌≤◌, ◌<◌, ◌≡◌, refl, ap, ap₂, sym, drop, ◌∙◌, List, [], ◌∷◌, ◌++◌, ◌⊎◌, inl,
  length, arith, get_or,
}
use frosk.Cstd.Memory.{Mem, write}
use frosk.Kernel.Ports.{store, load}

pub store_outside :
    (xs : List ℕ) (m : Mem) (a p : ℕ) → (p < a) ⊎ (a + length xs ≤ p) → store m a xs p ≡ m p
unfolding store
store_outside [] m a p h = refl
store_outside (x ∷ xs) m a p h =
    store_outside xs (write m a x) (a + 1) p (ground (arith, h)) ∙ ground (arith, h)

pub store_at :
    (xs : List ℕ) (m : Mem) (a k : ℕ) → k < length xs → store m a xs (a + k) ≡ get_or xs k 0
unfolding store
store_at [] m a k h = absurd (omega arith)
store_at (x ∷ xs) m a zero h =
    let e : a + 0 ≡ a = omega arith in
    rw e (store_outside xs (write m a x) (a + 1) a (inl (omega arith)) ∙ ground arith)
store_at (x ∷ xs) m a (suc k) h =
    let e : a + suc k ≡ a + 1 + k = omega arith in
    rw e (store_at xs (write m a x) (a + 1) k (omega arith))

pub load-store_outside :
    (n : ℕ) (xs : List ℕ) (m : Mem) (a p : ℕ)
    → (p + n ≤ a) ⊎ (a + length xs ≤ p)
    → load (store m a xs) p n ≡ load m p n
unfolding load
load-store_outside zero xs m a p h = refl
load-store_outside (suc n) xs m a p h =
    ap₂ ◌∷◌ (store_outside xs m a p (ground (arith, h)))
      (load-store_outside n xs m a (p + 1) (ground (arith, h)))

pub load-store : (xs : List ℕ) (m : Mem) (a : ℕ) → load (store m a xs) a (length xs) ≡ xs
unfolding load store
load-store [] m a = refl
load-store (x ∷ xs) m a =
    ap₂ ◌∷◌ (store_outside xs (write m a x) (a + 1) a (inl (omega arith)) ∙ ground arith)
      (load-store xs (write m a x) (a + 1))

load-append : (n k : ℕ) (m : Mem) (a : ℕ) → load m a (n + k) ≡ load m a n ++ load m (a + n) k
unfolding load
load-append zero k m a =
    let e : zero + k ≡ k = omega arith in let e' : a + zero ≡ a = omega arith in rw (e, e') refl
load-append (suc n) k m a =
    let e : suc n + k ≡ suc (n + k) = omega arith in
    let e' : a + suc n ≡ a + 1 + n = omega arith in
    rw (e, e') (ap (m a ∷◌) (load-append n k m (a + 1)))

-- Bytes stored right behind a block extend it.
pub load-store_behind :
    (n : ℕ) (xs : List ℕ) (m : Mem) (a : ℕ)
    → load (store m (a + n) xs) a (n + length xs) ≡ load m a n ++ xs
load-store_behind n xs m a =
    load-append n (length xs) (store m (a + n) xs) a
    ∙ ap₂ ◌++◌ (load-store_outside n xs m (a + n) a (inl (omega arith))) (load-store xs m (a + n))

pub length-load : (m : Mem) (a n : ℕ) → length (load m a n) ≡ n
unfolding load
length-load m a zero = refl
length-load m a (suc n) = omega (arith, length-load m (a + 1) n)

-- a block of bytes is two blocks
pub load-split :
    (m : Mem) (a k : ℕ) (xs ys : List ℕ)
    → load m a (length xs + k) ≡ xs ++ ys
    → (load m a (length xs) ≡ xs) × (load m (a + length xs) k ≡ ys)
unfolding load
load-split m a k [] ys e =
    let z : 0 + k ≡ k = omega arith in
    let z' : a + 0 ≡ a = omega arith in (refl, rw z' (ap (load m a) (sym z) ∙ e))
load-split m a k (x ∷ xs) ys e =
    let n : suc (length xs) + k ≡ suc (length xs + k) = omega arith in
    let e' : m a ∷ load m (a + 1) (length xs + k) ≡ x ∷ (xs ++ ys) = ap (load m a) (sym n) ∙ e in
    let (first, rest) = load-split m (a + 1) k xs ys (ap (drop 1) e') in
    let next : a + suc (length xs) ≡ a + 1 + length xs = omega arith in
    (ap₂ ◌∷◌ (ap (λ bs. get_or bs 0 0) e') first, rw next rest)
