-- ===== src/Kernel/Pages/Free.antt =====
-- `free_pages` of kernel/src/pagemgr.c.
use frosk.Prelude.{
  ℕ, ◌+◌, ◌^◌, ◌<◌, ◌≡◌, ◌≢◌, refl, true, false, ◌||◌, none, some, List, [], ◌∷◌, ◌⊎◌, inl, inr,
  ◌==◌, arith, Bool-cases,
}
use frosk.Kernel.Kobj.{Header, alloc_kobj}
use frosk.Kernel.Pages.{
  PageType, Region, Manager, usable, add64, head, set_head, merge, new_region, free_into,
  free_pages,
}
use frosk.Kernel.Pages.Cover.{
  inside, is_free, free_bytes, Apart, AllApart, Fits, IsValid, AllApart-join,
}
use frosk.Kernel.Pages.Alloc.{other, head-set_head, set_head_lem}

-- No region that is not for use touches the block.
abbrev pub NoReservedTouches : ℕ → ℕ → List Region → Type 0
NoReservedTouches a n [] = Unit
NoReservedTouches a n (r ∷ rs) =
    ((r.type ≡ usable) ⊎ ((r.addr + r.size ≢ a) × (a + n ≢ r.addr))) × NoReservedTouches a n rs

-- The block is free now, and nothing else changed.
pub record Given (a n : ℕ) (rs rs' : List Region) : Type 0 where
  pub cover : (x : ℕ) → is_free rs' x ≡ (inside a n x || is_free rs x)
  pub bytes : free_bytes rs' ≡ n + free_bytes rs
  pub valid : IsValid rs'
  pub apart : (b k : ℕ) → 0 < k → Apart b k a n → AllApart b k rs → AllApart b k rs'

pub record Block (a n : ℕ) : Type 0 where
  pub not_null : a ≢ 0
  pub not_empty : 0 < n
  pub no_wrap : a + n < 2 ^ 64

module _ (a n : ℕ) where
  into_merged :
      (rs rs' : List Region) (ks : List Header)
      → merge a n rs ≡ some rs'
      → free_into a n rs ks ≡ some (rs', ks)
  unfolding free_into
  into_merged rs rs' ks e = rw (e, free_into) refl

  into_new :
      (rs : List Region) (o : ℕ) (ks ks' : List Header)
      → merge a n rs ≡ none
      → alloc_kobj ks ≡ some (o, ks')
      → free_into a n rs ks ≡ some (new_region o usable a n ∷ rs, ks')
  unfolding free_into
  into_new rs o ks ks' e made = rw (e, free_into, made) refl

module _ (a n : ℕ) (block : Block a n) where
  Given-after :
      (r : Region) (rs : List Region)
      → IsValid (r ∷ rs)
      → AllApart a n (r ∷ rs)
      → r.type ≡ usable
      → r.addr + r.size ≡ a
      → Given a n (r ∷ rs) (record r { size = r.size + n } ∷ rs)
  unfolding is_free free_bytes
  Given-after r rs v h t e =
      let fits : Fits r = v.0 in
      let h' : AllApart (r.addr + r.size) n rs = rw e h.1 in
      record {
        cover = λ x. ground arith;
        bytes = ground arith;
        valid = (omega arith, AllApart-join r.addr r.size n rs v.2 v.1 h', v.2);
        apart = λ b k p c d. (ground (arith, p, c, d.0), d.1);
      }

  Given-before :
      (r : Region) (rs : List Region)
      → IsValid (r ∷ rs)
      → AllApart a n (r ∷ rs)
      → r.type ≡ usable
      → a + n ≡ r.addr
      → Given a n (r ∷ rs) (record r { addr = a; size = r.size + n } ∷ rs)
  unfolding is_free free_bytes
  Given-before r rs v h t e =
      let fits : Fits r = v.0 in
      let h' : AllApart (a + n) r.size rs = rw e v.1 in
      let sum : r.size + n ≡ n + r.size = omega arith in
      record {
        cover = λ x. ground arith;
        bytes = ground arith;
        valid = (omega arith, rw sum (AllApart-join a n r.size rs v.2 h.1 h'), v.2);
        apart = λ b k p c d. (ground (arith, p, c, d.0), d.1);
      }

  Given-later :
      (r : Region) (rs rs' : List Region)
      → IsValid (r ∷ rs)
      → Apart a n r.addr r.size
      → Given a n rs rs'
      → Given a n (r ∷ rs) (r ∷ rs')
  unfolding is_free free_bytes
  Given-later r rs rs' v h g = record {
    cover = λ x. ground (arith, g.cover x);
    bytes = omega (arith, g.bytes);
    valid = (v.0, g.apart r.addr r.size v.0.not_empty (ground (arith, h)) v.1, g.valid);
    apart = λ b k p c d. (d.0, g.apart b k p c d.1);
  }

  abbrev Merged : List Region → Type 0
  Merged rs =
      (merge a n rs ≡ none) ⊎ ((rs' : List Region) × (merge a n rs ≡ some rs') × Given a n rs rs')

  merge_after :
      (r : Region) (rs : List Region)
      → IsValid (r ∷ rs)
      → AllApart a n (r ∷ rs)
      → NoReservedTouches a n (r ∷ rs)
      → (add64 r.addr r.size == a) ≡ true
      → Merged (r ∷ rs)
  unfolding merge
  merge_after r rs v h t e =
      let fits : Fits r = v.0 in
      let touch : r.addr + r.size ≡ a = ground arith in
      let size : add64 r.size n ≡ r.size + n = omega arith in
      inr (
        record r { size = add64 r.size n } ∷ rs,
        rw e refl,
        rw size (Given-after r rs v h (ground (arith, t.0)) touch),
      )

  merge_before :
      (r : Region) (rs : List Region)
      → IsValid (r ∷ rs)
      → AllApart a n (r ∷ rs)
      → NoReservedTouches a n (r ∷ rs)
      → (add64 r.addr r.size == a) ≡ false
      → (add64 a n == r.addr) ≡ true
      → Merged (r ∷ rs)
  unfolding merge
  merge_before r rs v h t e f =
      let fits : Fits r = v.0 in
      let touch : a + n ≡ r.addr = ground arith in
      let size : add64 r.size n ≡ r.size + n = omega arith in
      inr (
        record r { addr = a; size = add64 r.size n } ∷ rs,
        rw (e, f) refl,
        rw size (Given-before r rs v h (ground (arith, t.0)) touch),
      )

  merge_lem :
      (rs : List Region) → IsValid rs → AllApart a n rs → NoReservedTouches a n rs → Merged rs
  unfolding merge
  merge_lem [] v h t = inl refl
  merge_lem (r ∷ rs) v h t = elim (Bool-cases (add64 r.addr r.size == a)) [
    | inl e ↦ merge_after r rs v h t e
    | inr e ↦ elim (Bool-cases (add64 a n == r.addr)) [
      | inl f ↦ merge_before r rs v h t e f
      | inr f ↦ elim (merge_lem rs v.2 h.1 t.1) [
        | inl stop ↦ inl (rw (e, f, stop) refl)
        | inr (rs', found, g) ↦ inr (r ∷ rs', rw (e, f, found) refl, Given-later r rs rs' v h.0 g)
      ]
    ]
  ]

  Given-new :
      (o : ℕ) (rs : List Region)
      → IsValid rs
      → AllApart a n rs
      → Given a n rs (new_region o usable a n ∷ rs)
  unfolding is_free free_bytes
  Given-new o rs v h = record {
    cover = λ x. ground arith;
    bytes = ground arith;
    valid = (omega arith, h, v);
    apart = λ b k p c d. (c, d);
  }

  -- On a valid list that the block (not empty, not at 0, not up to the end of the address space)
  -- is apart from, where no region that is not for use touches the block and the pool has an
  -- object, `free_pages` returns. Then exactly the addresses of the block are free besides those
  -- that were, its n bytes are counted, and the list is valid. The list of the other page type is
  -- unchanged.
  pub free_pages_lem :
      (ty : PageType) (m : Manager) (o : ℕ) (ks : List Header)
      → IsValid (head ty m)
      → AllApart a n (head ty m)
      → NoReservedTouches a n (head ty m)
      → alloc_kobj m.kobjs ≡ some (o, ks)
      → (m' : Manager) × (free_pages a n ty m ≡ some m')
        × Given a n (head ty m) (head ty m')
        × (head (other ty) m' ≡ head (other ty) m)
  unfolding free_pages
  free_pages_lem ty m o ks v h t made = elim (merge_lem (head ty m) v h t) [
    | inl stop ↦
        let rs' : List Region = new_region o usable a n ∷ head ty m in
        let m' : Manager = set_head ty rs' (record m { kobjs = ks }) in
        (
          m',
          rw (into_new a n (head ty m) o m.kobjs ks stop made) refl,
          rw (head-set_head ty rs' (record m { kobjs = ks })) (Given-new o (head ty m) v h),
          set_head_lem ty rs' ks m,
        )
    | inr (rs', found, g) ↦
        let m' : Manager = set_head ty rs' (record m { kobjs = m.kobjs }) in
        (
          m',
          rw (into_merged a n (head ty m) rs' m.kobjs found) refl,
          rw (head-set_head ty rs' (record m { kobjs = m.kobjs })) g,
          set_head_lem ty rs' m.kobjs m,
        )
  ]

-- A region that is not for use swallows a block freed just behind it: `free_pages` returns, and
-- no address of the block has become free.
pub free_pages_reserved :
    (a n : ℕ) (r : Region) (rs : List Region) (ty : PageType) (m : Manager)
    → head ty m ≡ r ∷ rs
    → r.type ≢ usable
    → r.addr + r.size ≡ a
    → a < 2 ^ 64
    → (m' : Manager) × (free_pages a n ty m ≡ some m')
      × ((x : ℕ) → is_free (head ty m') x ≡ is_free (r ∷ rs) x)
unfolding free_pages merge is_free
free_pages_reserved a n r rs ty m e ne at small =
    let touch : (add64 r.addr r.size == a) ≡ true = ground arith in
    let rs' : List Region = record r { size = add64 r.size n } ∷ rs in
    let m' : Manager = set_head ty rs' (record m { kobjs = m.kobjs }) in
    (
      m',
      rw (e, into_merged a n (r ∷ rs) rs' m.kobjs (rw touch refl)) refl,
      λ x. rw (head-set_head ty rs' (record m { kobjs = m.kobjs })) (ground arith),
    )
