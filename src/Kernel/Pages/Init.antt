-- ===== src/Kernel/Pages/Init.antt =====
-- `init_page_mgr` of kernel/src/pagemgr.c.
use mathlib.Core.Option
use frosk.Prelude.{
  ℕ, zero, suc, ◌+◌, ◌%◌, ◌^◌, ◌<◌, ◌≡◌, ◌≢◌, refl, Bool, true, false, not, ◌&&◌, ◌||◌, some, List,
  [], ◌∷◌, ◌⊎◌, inl, inr, ◌==◌, arith, subst, Bool-cases, if◌then◌else◌,
}
use frosk.Kernel.Kobj.{Header, alloc_kobj}
use frosk.Kernel.Pages.{
  Region, MapNode, Manager, usable, new_region, init_from, init_page_mgr, kvirt_base,
}
use frosk.Kernel.Pages.Cover.{inside, is_free, Apart, AllApart, IsValid}

-- the addresses of the map's nodes that are usable by the low byte of their type, the node at 0 left out
unfoldable pub map_free : List MapNode → ℕ → Bool
map_free [] x = false
map_free (n ∷ ns) x =
    (not (n.base == 0) && (n.type % 256 == usable) && inside n.base n.size x) || map_free ns x

-- how many objects the map takes
unfoldable pub needed : List MapNode → ℕ
needed [] = 0
needed (n ∷ ns) = (if n.base == 0 then 0 else 1) + needed ns

-- the pool has k objects to give, one after another
abbrev pub Supplies : ℕ → List Header → Type 0
Supplies zero ks = Unit
Supplies (suc k) ks =
    (o : ℕ) × (ks' : List Header) × (alloc_kobj ks ≡ some (o, ks')) × Supplies k ks'

abbrev pub NodesApart : ℕ → ℕ → List MapNode → Type 0
NodesApart a k [] = Unit
NodesApart a k (n ∷ ns) = ((n.base ≡ 0) ⊎ Apart a k n.base n.size) × NodesApart a k ns

-- The nodes not at 0 are disjoint, not empty, and end below the end of the address space.
abbrev pub IsMap : List MapNode → Type 0
IsMap [] = Unit
IsMap (n ∷ ns) =
    ((n.base ≡ 0) ⊎ ((0 < n.size) × (n.base + n.size < 2 ^ 64) × NodesApart n.base n.size ns))
    × IsMap ns

pub record Listed (ns : List MapNode) (rs : List Region) : Type 0 where
  pub cover : (x : ℕ) → is_free rs x ≡ map_free ns x
  pub apart : (a k : ℕ) → NodesApart a k ns → AllApart a k rs
  pub valid : IsMap ns → IsValid rs

Listed-skip :
    (n : MapNode) (ns : List MapNode) (rs : List Region)
    → n.base ≡ 0
    → Listed ns rs
    → Listed (n ∷ ns) rs
unfolding map_free
Listed-skip n ns rs z l = record {
  cover = λ x. ground (arith, l.cover x);
  apart = λ a k h. l.apart a k h.1;
  valid = λ h. l.valid h.1;
}

Listed-add :
    (o : ℕ) (n : MapNode) (ns : List MapNode) (rs : List Region)
    → n.base ≢ 0
    → Listed ns rs
    → Listed (n ∷ ns) (new_region o (n.type % 256) n.base n.size ∷ rs)
unfolding map_free is_free
Listed-add o n ns rs nz l = record {
  cover = λ x. ground (arith, l.cover x);
  apart = λ a k h. (ground (arith, h.0), l.apart a k h.1);
  valid = λ h. elim h.0 [
    | inl z ↦ absurd (nz z)
    | inr (p, q, r) ↦ (omega arith, l.apart n.base n.size r, l.valid h.1)
  ];
}

abbrev Starts : ℕ → List MapNode → List Header → Type 0
Starts k ns ks =
    (rs : List Region) × (ks' : List Header) × (init_from ns ks ≡ some (rs, ks'))
    × Listed ns rs
    × Supplies k ks'

Supplies-eq : (c d : ℕ) (ks : List Header) → c ≡ d → Supplies c ks → Supplies d ks
Supplies-eq c d ks e = subst (λ k. Supplies k ks) e

Starts-skip :
    (k : ℕ) (n : MapNode) (ns : List MapNode) (ks : List Header)
    → (n.base == 0) ≡ true
    → Starts k ns ks
    → Starts k (n ∷ ns) ks
unfolding init_from
Starts-skip k n ns ks z (rs, ks', made, l, left) =
    (rs, ks', rw z made, Listed-skip n ns rs (ground arith) l, left)

Starts-add :
    (k : ℕ) (n : MapNode) (ns : List MapNode) (ks ks₁ : List Header) (o : ℕ)
    → (n.base == 0) ≡ false
    → alloc_kobj ks ≡ some (o, ks₁)
    → Starts k ns ks₁
    → Starts k (n ∷ ns) ks
unfolding init_from Option.bind
Starts-add k n ns ks ks₁ o nz given (rs, ks', made, l, left) = (
  new_region o (n.type % 256) n.base n.size ∷ rs,
  ks',
  rw (nz, given, made) refl,
  Listed-add o n ns rs (ground arith) l,
  left,
)

needed_skip :
    (k : ℕ) (n : MapNode) (ns : List MapNode)
    → (n.base == 0) ≡ true
    → needed (n ∷ ns) + k ≡ needed ns + k
unfolding needed
needed_skip k n ns z = ground arith

needed_add :
    (k : ℕ) (n : MapNode) (ns : List MapNode)
    → (n.base == 0) ≡ false
    → needed (n ∷ ns) + k ≡ suc (needed ns + k)
unfolding needed
needed_add k n ns z = ground arith

Listed-nil : Listed [] []
unfolding is_free map_free
Listed-nil = record { cover = λ x. refl; apart = λ a n h. tt; valid = λ h. tt }

init_from_lem :
    (k : ℕ) (ns : List MapNode) (ks : List Header) → Supplies (needed ns + k) ks → Starts k ns ks
unfolding init_from needed
init_from_lem k [] ks s = ([], ks, refl, Listed-nil, Supplies-eq (0 + k) k ks (omega arith) s)
init_from_lem k (n ∷ ns) ks s = elim (Bool-cases (n.base == 0)) [
  | inl z ↦
      Starts-skip k n ns ks z (init_from_lem k ns ks (Supplies-eq _ _ ks (needed_skip k n ns z) s))
  | inr nz ↦
      let (o, ks₁, given, more) = Supplies-eq _ _ ks (needed_add k n ns nz) s in
      Starts-add k n ns ks ks₁ o nz given (init_from_lem k ns ks₁ more)
]

Starts-manager :
    (map : List MapNode) (ks : List Header)
    → Starts 1 map ks
    → (m : Manager) × (init_page_mgr map ks ≡ some m)
      × ((x : ℕ) → is_free m.phys x ≡ map_free map x)
      × (IsMap map → IsValid m.phys)
      × ((x : ℕ) → is_free m.kvirt x ≡ inside kvirt_base 0x80000000 x)
      × IsValid m.kvirt
unfolding init_page_mgr is_free Option.bind
Starts-manager map ks (rs, ks', made, l, (o, ks'', given, _)) = (
  record { phys = rs; kvirt = new_region o usable kvirt_base 0x80000000 ∷ []; kobjs = ks'' },
  rw (made, given) refl,
  l.cover,
  l.valid,
  λ x. ground arith,
  (omega arith, tt, tt),
)

-- There are enough objects in the pool, and the nodes of the map that are not at 0 are disjoint, not empty
-- and end below the end of the address space. Then `init_page_mgr` returns. The free physical addresses
-- are exactly those of the nodes that are usable by the low byte of their type, less a node at 0, which is
-- skipped with all its addresses; the free virtual addresses are the 2 GiB from `kvirt_base` on; and both
-- lists are valid.
pub init_page_mgr_lem :
    (map : List MapNode) (ks : List Header)
    → Supplies (needed map + 1) ks
    → IsMap map
    → (m : Manager) × (init_page_mgr map ks ≡ some m)
      × ((x : ℕ) → is_free m.phys x ≡ map_free map x)
      × IsValid m.phys
      × ((x : ℕ) → is_free m.kvirt x ≡ inside kvirt_base 0x80000000 x)
      × IsValid m.kvirt
init_page_mgr_lem map ks s ok =
    let (m, made, cover, valid, virtual, valid') =
      Starts-manager map ks (init_from_lem 1 map ks s) in
    (m, made, cover, valid ok, virtual, valid')
