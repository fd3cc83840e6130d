-- ===== src/Kernel/Paging/Entry.antt =====
-- `set_pt_entry` and `page_in` of kernel/src/paging.c: which pages are mapped to what.
use mathlib.Core.Option
use frosk.Prelude.{
  ℕ, zero, suc, ◌+◌, ◌/◌, ◌%◌, ◌^◌, ◌<◌, ◌≡◌, refl, sym, ap, ◌∙◌, ap₂, subst, true, false, ◌&&◌,
  Option, some, ◌==◌, if◌then◌else◌, arith, Bool-cases, inl, inr, ==_iff,
}
use frosk.Cstd.Memory.{write}
use frosk.Cstd.Malloc.{clear}
use frosk.Kernel.Pages.{Manager, phys_pages, alloc_pages}
use frosk.Kernel.Paging.{
  State, page, present, pml4t_loc, kspace_loc, get_entry_addr, check_table, set_pt_entry, set_atq,
  translated, linear, page_to_kpt0_0, clear_page,
}
use frosk.Kernel.Paging.Walk.{shift, entry_of, Back, IsTree}
use frosk.Kernel.Paging.Tables.{
  set_from, slot, same_path, lead, Supply, Supply-less, Shows, IsEntrySet, page-at, slot-small,
  write-IsEntrySet,
}
use frosk.Kernel.Paging.Fresh.{with_table, lead-new, fresh-IsTree}
use frosk.Kernel.Paging.Maps.{present-IsEntrySet, absent-IsEntrySet}

-- the window shows a table
kspace-Shows : (st : State) (r t : ℕ) → page r ≡ t → Shows (page_to_kpt0_0 r st) kspace_loc t
kspace-Shows st r t e j small = ground (arith, e)

-- the result of setting an entry, with pages left over
abbrev Done : ℕ → ℕ → ℕ → ℕ → ℕ → Back → State → Option State → Type 0
Done n m t a val back st r =
    (back' : Back) × (st' : State) × (r ≡ some st')
    × IsEntrySet n t a val back back' st.mem st'.mem
    × Supply m back' st'.pages

-- what `check_table` does where there is no table
abbrev filled : ℕ → ℕ → State → ℕ × Manager → ℕ × State
filled eaddr fl st (p, pages') = (
  kspace_loc,
  clear_page (page_to_kpt0_0 (p + fl) (set_atq eaddr (p + fl) (record st { pages = pages' }))),
)

abbrev made : ℕ → ℕ → State → Option (ℕ × State)
made eaddr fl st = Option.map (filled eaddr fl st) (alloc_pages 1 phys_pages st.pages)

module _ (a v t n fl : ℕ) (st : State)
    (at : translated st (v + slot (suc n) a) ≡ t + slot (suc n) a) where
  check_table-present :
      present (st.mem (t + slot (suc n) a)) ≡ true
      → check_table a v (shift (suc n)) fl st
        ≡ some (kspace_loc, page_to_kpt0_0 (st.mem (t + slot (suc n) a)) st)
  unfolding check_table get_entry_addr
  check_table-present there =
      ap
        (λ q.
          if present (st.mem q)
          then some (kspace_loc, page_to_kpt0_0 (st.mem q) st)
          else made (v + slot (suc n) a) fl st)
        at
      ∙ rw there refl

  check_table-absent :
      (p : ℕ) (pages' : Manager)
      → present (st.mem (t + slot (suc n) a)) ≡ false
      → alloc_pages 1 phys_pages st.pages ≡ some (p, pages')
      → p % 0x1000 ≡ 0
      → fl < 0x1000
      → check_table a v (shift (suc n)) fl st
        ≡ some (
          kspace_loc,
          record {
            mem = with_table st.mem (t + slot (suc n) a) p fl;
            window = p + fl;
            pages = pages';
          },
        )
  unfolding check_table get_entry_addr
  check_table-absent p pages' absent got al few =
      let st₀ : State = record {
        mem = write st.mem (translated st (v + slot (suc n) a)) (p + fl);
        window = p + fl;
        pages = pages';
      } in
      let cleared : translated st₀ kspace_loc ≡ p =
        kspace-Shows st₀ (p + fl) p (page-at p fl al few) 0 (omega arith) ∙ omega arith in
      let result : ℕ → ℕ → ℕ × State = λ x y. (
        kspace_loc,
        record { mem = clear 0x1000 x (write st.mem y (p + fl)); window = p + fl; pages = pages' },
      ) in
      ap
        (λ q.
          if present (st.mem q)
          then some (kspace_loc, page_to_kpt0_0 (st.mem q) st)
          else made (v + slot (suc n) a) fl st)
        at
      ∙ (rw absent (ap (Option.map (filled (v + slot (suc n) a) fl st)) got))
      ∙ ap some (ap₂ result cleared at)

-- n more than m
abbrev on_top : ℕ → ℕ → ℕ
on_top zero m = m
on_top (suc n) m = suc (on_top n m)

set_from-IsEntrySet :
    (n m a val fl v t k i : ℕ) (back : Back) (st : State)
    → IsTree back st.mem
    → back t ≡ some (n, k, i)
    → Shows st v t
    → Supply (on_top n m) back st.pages
    → fl < 0x1000
    → fl % 2 ≡ 1
    → Done n m t a val back st (set_from n a v val fl st)
unfolding get_entry_addr Option.bind
set_from-IsEntrySet zero m a val fl v t k i back st tree leads shows supply few odd =
    let j = slot 0 a in
    (
      back,
      set_atq (v + j) val st,
      refl,
      subst (λ q. IsEntrySet 0 t a val back back st.mem (write st.mem q val))
          (sym (shows j (slot-small 0 a))) (write-IsEntrySet back st.mem t k i a val tree leads),
      supply,
    )
set_from-IsEntrySet (suc n) m a val fl v t k i back st tree leads shows supply few odd =
    let j = slot (suc n) a in
    let small = slot-small (suc n) a in
    let at = shows j small in
    elim (Bool-cases (present (st.mem (t + j)))) [
      | inl there ↦
          let r = st.mem (t + j) in
          let st₁ = page_to_kpt0_0 r st in
          let (back', st', e, set, rest) =
            set_from-IsEntrySet n m a val fl kspace_loc (page r) t j back st₁ tree
              (tree.below t n k i j leads small there) (kspace-Shows st r (page r) refl)
              (Supply-less (on_top n m) back st.pages supply) few odd in
          (
            back',
            st',
            rw (check_table-present a v t n fl st at there) e,
            present-IsEntrySet n t k i a val back back' st.mem st'.mem tree leads there set,
            rest,
          )
      | inr absent ↦
          let (p, pages', got, nz, al, free, more) = supply in
          let back₁ = lead back p (n, t, j) in
          let tree₁ = fresh-IsTree back st.mem t n k i j p fl tree leads small al free few in
          let st₁ : State = record {
            mem = with_table st.mem (t + j) p fl;
            window = p + fl;
            pages = pages';
          } in
          let (back', st', e, set, rest) =
            set_from-IsEntrySet n m a val fl kspace_loc p t j back₁ st₁ tree₁
              (lead-new back p (n, t, j)) (kspace-Shows st₁ (p + fl) p (page-at p fl al few))
              (more (n, t, j)) few odd in
          (
            back',
            st',
            rw (check_table-absent a v t n fl st at p pages' absent got al few) e,
            absent-IsEntrySet n t k i a val p fl back back' st.mem st'.mem tree leads absent al free
                few odd set,
            rest,
          )
    ]

-- the page of an address, as far as the tables distinguish pages
abbrev pub page_number : ℕ → ℕ
page_number a = a / 0x1000 % 2 ^ 36

same_slots :
    (a a' : ℕ)
    → slot 0 a ≡ slot 0 a'
    → slot 1 a ≡ slot 1 a'
    → slot 2 a ≡ slot 2 a'
    → slot 3 a ≡ slot 3 a'
    → page_number a ≡ page_number a'
same_slots a a' e₀ e₁ e₂ e₃ = omega (arith, e₀, e₁, e₂, e₃)

some-differ :
    (x y z w x' y' z' w' : ℕ)
    → (x ≡ x' → y ≡ y' → z ≡ z' → w ≡ w' → ⊥)
    → ((w == w') && ((z == z') && ((y == y') && (x == x')))) ≡ false
some-differ x y z w x' y' z' w' h = elim (Bool-cases (w == w')) [
  | inr e ↦ rw e refl
  | inl e ↦ rw e (elim (Bool-cases (z == z')) [
    | inr e' ↦ rw e' refl
    | inl e' ↦ rw e' (elim (Bool-cases (y == y')) [
      | inr e'' ↦ rw e'' refl
      | inl e'' ↦ rw e'' (elim (Bool-cases (x == x')) [
        | inr f ↦ f
        | inl f ↦
            absurd
              (h ((==_iff x x').0 f) ((==_iff y y').0 e'') ((==_iff z z').0 e') ((==_iff w w').0 e))
      ])
    ])
  ])
]

same_path_lem : (a a' : ℕ) → same_path 3 a a' ≡ (page_number a == page_number a')
same_path_lem a a' = elim (Bool-cases (page_number a == page_number a')) [
  | inl e ↦
      let same = (==_iff (page_number a) (page_number a')).0 e in
      let s₀ : slot 0 a ≡ slot 0 a' = omega (arith, same) in
      let s₁ : slot 1 a ≡ slot 1 a' = omega (arith, same) in
      let s₂ : slot 2 a ≡ slot 2 a' = omega (arith, same) in
      let s₃ : slot 3 a ≡ slot 3 a' = omega (arith, same) in rw (e, s₀, s₁, s₂, s₃) (ground arith)
  | inr e ↦
      some-differ (slot 0 a) (slot 1 a) (slot 2 a) (slot 3 a) (slot 0 a') (slot 1 a') (slot 2 a')
        (slot 3 a') (λ s₀ s₁ s₂ s₃. ground (arith, e, same_slots a a' s₀ s₁ s₂ s₃))
      ∙ sym e
]

root-Shows : (st : State) → Shows st pml4t_loc pml4t_loc
root-Shows st j small = ground (arith, small)

-- The tables form a tree, there are pages for three tables, and the flags have the present bit. Then
-- `set_pt_entry` returns; the processor finds the entry for every address of the page, and for every other
-- page what it found before; and the tables form a tree again.
pub set_pt_entry_lem :
    (m addr val fl : ℕ) (back : Back) (st : State)
    → IsTree back st.mem
    → Supply (suc (suc (suc m))) back st.pages
    → fl < 0x1000
    → fl % 2 ≡ 1
    → (back' : Back) × (st' : State) × (set_pt_entry addr val fl st ≡ some st')
      × IsTree back' st'.mem
      × Supply m back' st'.pages
      × ((a : ℕ)
          → entry_of a st'.mem
            ≡ (if page_number (linear addr) == page_number a then val else entry_of a st.mem))
unfolding set_pt_entry
set_pt_entry_lem m addr val fl back st tree supply few odd =
    let (back', st', e, set, rest) =
      set_from-IsEntrySet 3 m (linear addr) val fl pml4t_loc pml4t_loc 0 0 back st tree tree.root
        (root-Shows st) supply few odd in
    (
      back',
      st',
      e,
      set.tree,
      rest,
      λ a.
          set.here a
          ∙ ap (λ b. if b then val else entry_of a st.mem) (same_path_lem (linear addr) a),
    )
