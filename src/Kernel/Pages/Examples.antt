-- ===== src/Kernel/Pages/Examples.antt =====
-- A memory map like the one of a PC, and the page manager that starts from it.
use frosk.Prelude.{inl, inr, ℕ, ◌≡◌, refl, false, some, List, [], ◌∷◌, arith, ◌==◌}
use frosk.Kernel.Kobj.{
  Header, full, all_below, any_below, test, first_clear, claim_low, alloc_kobj, free_kobj, free_at,
  loc_kobj,
}
use frosk.Kernel.Pages.{phys_pages, Region, MapNode, Manager, free_pages, init_page_mgr, kvirt_base}
use frosk.Kernel.Pages.Cover.{inside, is_free, IsValid}
use frosk.Kernel.Pages.Alloc.{Answers, alloc_pages_lem}
use frosk.Kernel.Pages.Free.{Given, free_pages_lem}
use frosk.Kernel.Pages.Init.{map_free, needed, init_page_mgr_lem}

abbrev pool : List Header
pool = record { addr = 0xC000; low = λ k. k == 0; high = λ k. false } ∷ []

abbrev node : ℕ → ℕ → ℕ → MapNode
node base size type = record { base = base; size = size; type = type }

abbrev memory_map : List MapNode
memory_map = node 0 0x9F000 1 ∷ node 0x9F000 0x1000 2 ∷ node 0x100000 0x300000 1 ∷ []

abbrev region : ℕ → ℕ → ℕ → ℕ → Region
region obj type addr size = record { obj = obj; type = type; addr = addr; size = size }

abbrev manager : Manager
manager = record {
  phys = region 0xC020 2 0x9F000 0x1000 ∷ region 0xC040 1 0x100000 0x300000 ∷ [];
  kvirt = [];
  kobjs = pool;
}

init_page_mgr_lem_example :
    (m : Manager) × (init_page_mgr memory_map pool ≡ some m)
    × ((x : ℕ) → is_free m.phys x ≡ map_free memory_map x)
    × IsValid m.phys
    × ((x : ℕ) → is_free m.kvirt x ≡ inside kvirt_base 0x80000000 x)
    × IsValid m.kvirt
unfolding needed alloc_kobj full all_below any_below test claim_low first_clear
init_page_mgr_lem_example =
    init_page_mgr_lem memory_map pool (_, _, refl, (_, _, refl, (_, _, refl, tt)))
      (
        inl refl,
        (
          inr (omega arith, omega arith, (inr (inl (omega arith)), tt)),
          (inr (omega arith, omega arith, tt), tt),
        ),
      )

alloc_pages_lem_example : Answers 2 0x2000 phys_pages manager
unfolding free_kobj free_at loc_kobj
alloc_pages_lem_example =
    alloc_pages_lem 2 phys_pages manager (omega arith) (omega arith) (omega arith)
      ((_, refl), ((_, refl), tt))

free_pages_lem_example :
    (m' : Manager) × (free_pages 0x400000 0x2000 phys_pages manager ≡ some m')
    × Given 0x400000 0x2000 manager.phys m'.phys
    × (m'.kvirt ≡ [])
unfolding alloc_kobj full all_below any_below test claim_low first_clear
free_pages_lem_example =
    free_pages_lem 0x400000 0x2000 (omega arith) phys_pages manager _ _ (omega arith) (omega arith)
      (omega arith) refl
