-- ===== src/Kernel/Pages/Alloc.antt =====
-- `alloc_pages` of kernel/src/pagemgr.c.
use frosk.Prelude.{
  ℕ, ◌+◌, ◌-◌, ◌*◌, ◌%◌, ◌^◌, ◌<◌, ◌≡◌, ◌≢◌, refl, Bool, true, false, ◌&&◌, ◌||◌, some, List, [],
  ◌∷◌, ◌⊎◌, inl, inr, ◌==◌, leb, arith, ap, Bool-cases,
}
use frosk.Kernel.Kobj.{Header, free_kobj}
use frosk.Kernel.Pages.{
  PageType, phys_pages, kvirt_pages, set_head, Region, Manager, usable, head, alloc_from,
  alloc_pages,
}
use frosk.Kernel.Pages.Cover.{
  inside, is_free, free_bytes, AllApart, IsValid, AllApart-not_free, AllApart-part,
}

-- a region that `alloc_pages` passes over
abbrev pub serves : ℕ → Region → Bool
serves sz r = leb sz r.size && r.type == usable

abbrev pub NoneServes : ℕ → List Region → Type 0
NoneServes sz [] = Unit
NoneServes sz (r ∷ rs) = (serves sz r ≡ false) × NoneServes sz rs

-- The block was free, is so no longer, and nothing else changed.
pub record Taken (rs : List Region) (a sz : ℕ) (rs' : List Region) : Type 0 where
  pub not_null : a ≢ 0
  pub before : (x : ℕ) → is_free rs x ≡ (inside a sz x || is_free rs' x)
  pub after : (x : ℕ) → inside a sz x ≡ true → is_free rs' x ≡ false
  pub bytes : free_bytes rs ≡ sz + free_bytes rs'
  pub valid : IsValid rs'
  pub apart : (b n : ℕ) → AllApart b n rs → AllApart b n rs'

Taken-whole :
    (r : Region) (rs : List Region) (sz : ℕ)
    → IsValid (r ∷ rs)
    → r.type ≡ usable
    → r.size ≡ sz
    → Taken (r ∷ rs) r.addr sz rs
unfolding is_free free_bytes
Taken-whole r rs sz v t e = record {
  not_null = v.0.not_null;
  before = λ x. ground arith;
  after = λ x i. AllApart-not_free r.addr r.size x rs v.1 (ground arith);
  bytes = ground arith;
  valid = v.2;
  apart = λ b n h. h.1;
}

Taken-part :
    (r : Region) (rs : List Region) (sz : ℕ)
    → 0 < sz
    → IsValid (r ∷ rs)
    → r.type ≡ usable
    → sz < r.size
    → Taken (r ∷ rs) r.addr sz (record r { addr = (r.addr + sz) % 2 ^ 64; size = r.size - sz } ∷ rs)
unfolding is_free free_bytes
Taken-part r rs sz p v t lt =
    let no_wrap : r.addr + r.size < 2 ^ 64 = v.0.no_wrap in
    let e : (r.addr + sz) % 2 ^ 64 ≡ r.addr + sz = omega arith in
    rw e record {
      not_null = v.0.not_null;
      before = λ x. ground arith;
      after = λ x i. ground (arith, AllApart-not_free r.addr r.size x rs v.1);
      bytes = ground arith;
      valid = (
        omega arith,
        AllApart-part r.addr r.size (r.addr + sz) (r.size - sz) rs (omega arith) (omega arith) v.1,
        v.2,
      );
      apart = λ b n h. (ground (arith, h.0), h.1);
    }

Taken-later :
    (r : Region) (rs rs' : List Region) (a sz : ℕ)
    → IsValid (r ∷ rs)
    → Taken rs a sz rs'
    → Taken (r ∷ rs) a sz (r ∷ rs')
unfolding is_free free_bytes
Taken-later r rs rs' a sz v t = record {
  not_null = t.not_null;
  before = λ x. ground (arith, t.before x);
  after = λ x i. ground (arith, t.before x, t.after x i, AllApart-not_free r.addr r.size x rs v.1);
  bytes = omega (arith, t.bytes);
  valid = (v.0, t.apart r.addr r.size v.1, t.valid);
  apart = λ b n h. (h.0, t.apart b n h.1);
}

-- every region's object lies in a page of the pool
abbrev pub AllOwned : List Header → List Region → Type 0
AllOwned ks [] = Unit
AllOwned ks (r ∷ rs) = ((ks' : List Header) × (free_kobj r.obj ks ≡ some ks')) × AllOwned ks rs

-- how the loop ends: on a block that it took, or at the end of the list
abbrev Served : ℕ → List Region → List Header → Type 0
Served sz rs ks =
    (a : ℕ) × (rs' : List Region) × (ks' : List Header) × (alloc_from sz rs ks ≡ some (a, rs', ks'))
    × (((a ≡ 0) × (rs' ≡ rs) × (ks' ≡ ks) × NoneServes sz rs) ⊎ Taken rs a sz rs')

Served-head :
    (sz : ℕ) (r : Region) (rs : List Region) (ks : List Header)
    → 0 < sz
    → IsValid (r ∷ rs)
    → AllOwned ks (r ∷ rs)
    → serves sz r ≡ true
    → Served sz (r ∷ rs) ks
unfolding alloc_from
Served-head sz r rs ks p v o s = elim (Bool-cases (r.size == sz)) [
  | inl e ↦
      let (ks', freed) = o.0 in
      (
        r.addr,
        rs,
        ks',
        rw (s, e, freed) refl,
        inr (Taken-whole r rs sz v (ground arith) (ground arith)),
      )
  | inr e ↦ (
    r.addr,
    record r { addr = (r.addr + sz) % 2 ^ 64; size = r.size - sz } ∷ rs,
    ks,
    rw (s, e) refl,
    inr (Taken-part r rs sz p v (ground arith) (ground arith)),
  )
]

alloc_from_lem :
    (sz : ℕ) (rs : List Region) (ks : List Header)
    → 0 < sz
    → IsValid rs
    → AllOwned ks rs
    → Served sz rs ks
unfolding alloc_from
alloc_from_lem sz [] ks p v o = (0, [], ks, refl, inl (refl, refl, refl, tt))
alloc_from_lem sz (r ∷ rs) ks p v o = elim (Bool-cases (serves sz r)) [
  | inl s ↦ Served-head sz r rs ks p v o s
  | inr s ↦
      let (a, rs', ks', done, out) = alloc_from_lem sz rs ks p v.2 o.1 in
      (
        a,
        r ∷ rs',
        ks',
        rw (s, done) refl,
        elim out [
          | inl (z, same, same', n) ↦ inl (z, ap (λ l. r ∷ l) same, same', (s, n))
          | inr t ↦ inr (Taken-later r rs rs' a sz v t)
        ],
      )
]

abbrev pub other : PageType → PageType
other phys_pages = kvirt_pages
other kvirt_pages = phys_pages

pub head-set_head :
    (ty : PageType) (rs : List Region) (m : Manager) → head ty (set_head ty rs m) ≡ rs
head-set_head phys_pages rs m = refl
head-set_head kvirt_pages rs m = refl

pub set_head_lem :
    (ty : PageType) (rs : List Region) (ks : List Header) (m : Manager)
    → head (other ty) (set_head ty rs (record m { kobjs = ks })) ≡ head (other ty) m
set_head_lem phys_pages rs ks m = refl
set_head_lem kvirt_pages rs ks m = refl

-- what `alloc_pages` promises, for `sz` bytes
abbrev pub Answers : ℕ → ℕ → PageType → Manager → Type 0
Answers n sz ty m =
    (a : ℕ) × (m' : Manager) × (alloc_pages n ty m ≡ some (a, m'))
    × (((a ≡ 0) × (head ty m' ≡ head ty m) × NoneServes sz (head ty m))
        ⊎ Taken (head ty m) a sz (head ty m'))
    × (head (other ty) m' ≡ head (other ty) m)

deliver :
    (n sz : ℕ) (ty : PageType) (m : Manager)
    → n * 0x1000 % 2 ^ 32 ≡ sz
    → Served sz (head ty m) m.kobjs
    → Answers n sz ty m
unfolding alloc_pages
deliver n sz ty m e (a, rs', ks', done, out) =
    let m' : Manager = set_head ty rs' (record m { kobjs = ks' }) in
    let got : head ty m' ≡ rs' = head-set_head ty rs' (record m { kobjs = ks' }) in
    (
      a,
      m',
      rw (e, done) refl,
      rw got (elim out [
        | inl (z, same, same', none_serves) ↦ inl (z, same, none_serves)
        | inr t ↦ inr t
      ]),
      set_head_lem ty rs' ks' m,
    )

-- On a valid list whose objects lie in the pool, `alloc_pages` of n pages (0 < n < 2^20) returns.
-- Either it returns 0 with the list unchanged, and no usable region holds n pages; or it returns
-- the address of a block of n pages that was free and is so no longer, every other address is free
-- exactly if it was, n * 0x1000 free bytes are gone, and the list is valid. The list of the other
-- page type is unchanged.
pub alloc_pages_lem :
    (n : ℕ) (ty : PageType) (m : Manager)
    → 0 < n
    → n < 2 ^ 20
    → IsValid (head ty m)
    → AllOwned m.kobjs (head ty m)
    → Answers n (n * 0x1000) ty m
alloc_pages_lem n ty m p small v o =
    deliver n (n * 0x1000) ty m (omega arith)
      (alloc_from_lem (n * 0x1000) (head ty m) m.kobjs (omega arith) v o)
