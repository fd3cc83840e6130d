-- ===== src/Cstd/Strings/Copy.antt =====
-- The functions of lib/cstd/src/string.c that copy.
use frosk.Prelude.{
  ℕ, zero, suc, ◌+◌, ◌≤◌, ◌<◌, ◌≡◌, refl, ap, ◌∙◌, true, false, some, List, [], ◌∷◌, ◌⊎◌, inl, inr,
  ◌==◌, ltb, if◌then◌else◌, length, arith, subst, Bool-cases,
}
use frosk.Cstd.Memory.{Mem, write, IsString, IsString-write}
use frosk.Cstd.Strings.{strlen_from, strlen, memcpy, memmove, strcpy, strncpy, strcat}

-- Bytes outside the target are kept.
pub memcpy_outside :
    (n : ℕ) (m : Mem) (dst src a : ℕ) → (a < dst) ⊎ (dst + n ≤ a) → memcpy m dst src n a ≡ m a
unfolding memcpy
memcpy_outside zero m dst src a h = refl
memcpy_outside (suc n) m dst src a h =
    memcpy_outside n (write m dst (m src)) (dst + 1) (src + 1) a (ground (arith, h))
    ∙ ground (arith, h)

-- Where the target does not begin inside the source, or is the source, every byte arrives.
pub memcpy_at :
    (n i : ℕ) (m : Mem) (dst src : ℕ)
    → (dst ≤ src) ⊎ (src + n ≤ dst)
    → i < n
    → memcpy m dst src n (dst + i) ≡ m (src + i)
unfolding memcpy
memcpy_at zero i m dst src h lt = absurd (omega arith)
memcpy_at (suc n) zero m dst src h lt =
    let d : dst + 0 ≡ dst = omega arith in
    let e : src + 0 ≡ src = omega arith in
    rw (d, e)
      (memcpy_outside n (write m dst (m src)) (dst + 1) (src + 1) dst (inl (omega arith))
        ∙ ground arith)
memcpy_at (suc n) (suc i) m dst src h lt =
    let d : dst + suc i ≡ dst + 1 + i = omega arith in
    let e : src + suc i ≡ src + 1 + i = omega arith in
    rw (d, e)
      (memcpy_at n i (write m dst (m src)) (dst + 1) (src + 1) (ground (arith, h)) (omega arith)
        ∙ ground (arith, h))

-- `memmove` through a buffer apart from source and target moves the source's bytes to the target,
-- also where these overlap, and writes nowhere else but to the buffer.
pub memmove_lem :
    (n : ℕ) (buf dst src : ℕ) (m : Mem)
    → (buf + n ≤ src) ⊎ (src + n ≤ buf)
    → (buf + n ≤ dst) ⊎ (dst + n ≤ buf)
    → ((i : ℕ) → i < n → memmove buf m dst src n (dst + i) ≡ m (src + i))
      × ((a : ℕ)
          → (a < dst) ⊎ (dst + n ≤ a)
          → (a < buf) ⊎ (buf + n ≤ a)
          → memmove buf m dst src n a ≡ m a)
unfolding memmove
memmove_lem n buf dst src m apart apart' = (
  λ i lt.
      memcpy_at n i (memcpy m buf src n) dst buf (ground (arith, apart')) lt
      ∙ memcpy_at n i m buf src (ground (arith, apart)) lt,
  λ a out out'.
      memcpy_outside n (memcpy m buf src n) dst buf a out ∙ memcpy_outside n m buf src a out',
)

strlen_from_lem :
    (fuel : ℕ) (m : Mem) (s i : ℕ) (cs : List ℕ)
    → IsString m (s + i) cs
    → length cs < fuel
    → strlen_from fuel m s i ≡ some (i + length cs)
unfolding strlen_from
strlen_from_lem zero m s i cs h lt = absurd (omega arith)
strlen_from_lem (suc fuel) m s i [] h lt = let e : i + 0 ≡ i = omega arith in rw (h, e) refl
strlen_from_lem (suc fuel) m s i (c ∷ cs) h lt =
    let next : s + i + 1 ≡ s + (i + 1) = omega arith in
    let e : i + suc (length cs) ≡ i + 1 + length cs = omega arith in
    let more : (c == 0) ≡ false = ground (arith, h.1) in
    rw (h.0, more, e)
      (strlen_from_lem fuel m s (i + 1) cs (subst (λ p. IsString m p cs) next h.2) (omega arith))

-- `strlen` of a string is the number of its characters, given fuel for each and one round more.
pub strlen_lem :
    (fuel : ℕ) (m : Mem) (s : ℕ) (cs : List ℕ)
    → IsString m s cs
    → length cs < fuel
    → strlen fuel m s ≡ some (length cs)
unfolding strlen
strlen_lem fuel m s cs h lt =
    let e : s ≡ s + 0 = omega arith in
    strlen_from_lem fuel m s 0 cs (subst (λ p. IsString m p cs) e h) lt ∙ ap some (omega arith)

strcpy_run :
    (fuel : ℕ) (m : Mem) (dst src c : ℕ) (cs : List ℕ)
    → IsString m src (c ∷ cs)
    → (dst + suc (length cs) ≤ src) ⊎ (src + suc (length cs) < dst)
    → length cs < fuel
    → strcpy fuel m dst src ≡ some (memcpy m dst src (suc (length cs)))
unfolding strcpy memcpy
strcpy_run zero m dst src c cs h apart lt = absurd (omega arith)
strcpy_run (suc fuel) m dst src c [] h apart lt =
    let stop : (write m dst (m src) (src + 1) == 0) ≡ true = ground (arith, h.2, apart) in
    rw stop refl
strcpy_run (suc fuel) m dst src c (c' ∷ cs) h apart lt =
    let more : (write m dst (m src) (src + 1) == 0) ≡ false = ground (arith, h.2.0, h.2.1, apart) in
    let kept = IsString-write m (src + 1) dst (m src) (c' ∷ cs) (ground (arith, apart)) h.2 in
    rw more (
      strcpy_run fuel (write m dst (m src)) (dst + 1) (src + 1) c' cs kept (ground (arith, apart))
        (omega arith))

-- `strcpy` of a string that is not empty, to a target apart from it, ends, given fuel for each
-- character; and it copies the characters of the string only, so that the byte behind them keeps
-- what it held.
pub strcpy-memcpy :
    (fuel : ℕ) (m : Mem) (dst src c : ℕ) (cs : List ℕ)
    → IsString m src (c ∷ cs)
    → (dst + suc (length cs) ≤ src) ⊎ (src + suc (length cs) < dst)
    → length cs < fuel
    → (m' : Mem) × (strcpy fuel m dst src ≡ some m')
      × ((i : ℕ) → i < suc (length cs) → m' (dst + i) ≡ m (src + i))
      × ((a : ℕ) → (a < dst) ⊎ (dst + suc (length cs) ≤ a) → m' a ≡ m a)
strcpy-memcpy fuel m dst src c cs h apart lt = (
  memcpy m dst src (suc (length cs)),
  strcpy_run fuel m dst src c cs h apart lt,
  λ i k. memcpy_at (suc (length cs)) i m dst src (ground (arith, apart)) k,
  λ a out. memcpy_outside (suc (length cs)) m dst src a out,
)

-- what `strncpy` leaves: at most sz characters, and a 0 only where there is room for it
abbrev pub copied : Mem → ℕ → ℕ → ℕ → ℕ → Mem
copied m dst src len sz =
    if ltb len sz then write (memcpy m dst src len) (dst + len) 0 else memcpy m dst src sz

copied_step :
    (m : Mem) (dst src len sz : ℕ)
    → copied (write m dst (m src)) (dst + 1) (src + 1) len sz ≡ copied m dst src (suc len) (suc sz)
unfolding memcpy
copied_step m dst src len sz = elim (Bool-cases (ltb len sz)) [
  | inl e ↦
      let e' : ltb (suc len) (suc sz) ≡ true = ground arith in
      let at : dst + 1 + len ≡ dst + suc len = omega arith in rw (e, e', at) refl
  | inr e ↦ let e' : ltb (suc len) (suc sz) ≡ false = ground arith in rw (e, e') refl
]

-- `strncpy` of a string to a target apart from it copies as many characters as it is given room
-- for, ends these with a 0 exactly where that leaves room, and writes no other byte.
pub strncpy_lem :
    (sz : ℕ) (m : Mem) (dst src : ℕ) (cs : List ℕ)
    → IsString m src cs
    → (dst + sz ≤ src) ⊎ (src + length cs < dst)
    → strncpy m dst src sz ≡ copied m dst src (length cs) sz
unfolding strncpy memcpy
strncpy_lem zero m dst src cs h apart = ground arith
strncpy_lem (suc sz) m dst src [] h apart =
    let here : dst + 0 ≡ dst = omega arith in rw (h, here) (ground arith)
strncpy_lem (suc sz) m dst src (c ∷ cs) h apart =
    let more : (m src == 0) ≡ false = ground (arith, h.0, h.1) in
    let m' = write m dst (m src) in
    let kept = IsString-write m (src + 1) dst (m src) cs (ground (arith, apart)) h.2 in
    rw more (
      strncpy_lem sz m' (dst + 1) (src + 1) cs kept (ground (arith, apart))
      ∙ copied_step m dst src (length cs) sz)

-- `strcat` to a string that is apart from a source that is not empty puts the source's characters
-- in the place of the 0 and behind it, with no 0 at their end, and writes no other byte.
pub strcat_lem :
    (fuel : ℕ) (m : Mem) (dst src c : ℕ) (ds cs : List ℕ)
    → IsString m dst ds
    → IsString m src (c ∷ cs)
    → (dst + length ds + suc (length cs) ≤ src) ⊎ (src + suc (length cs) < dst + length ds)
    → length ds < fuel
    → length cs < fuel
    → (m' : Mem) × (strcat fuel m dst src ≡ some m')
      × ((i : ℕ) → i < suc (length cs) → m' (dst + length ds + i) ≡ m (src + i))
      × ((a : ℕ) → (a < dst + length ds) ⊎ (dst + length ds + suc (length cs) ≤ a) → m' a ≡ m a)
unfolding strcat
strcat_lem fuel m dst src c ds cs h h' apart lt lt' =
    let (m', done, at, outside) = strcpy-memcpy fuel m (dst + length ds) src c cs h' apart lt' in
    (m', rw (strlen_lem fuel m dst ds h lt, strcat) done, at, outside)
