-- ===== src/Kernel/Paging/Maps.antt =====
-- One level of `set_pt_entry` of kernel/src/paging.c, from what it does below it.
use frosk.Prelude.{
  ℕ, suc, ◌+◌, ◌%◌, ◌<◌, ◌≡◌, ◌≢◌, refl, sym, ap, ◌∙◌, subst, true, false, some, none, ◌==◌,
  if◌then◌else◌, arith, Bool-cases, inl, inr, ==_iff,
}
use frosk.Cstd.Memory.{Mem}
use frosk.Kernel.Paging.{page, present, get_entry_addr}
use frosk.Kernel.Paging.Walk.{walk, Back, IsTree}
use frosk.Kernel.Paging.Tables.{
  slot, slot_in, table_in, one-table, same_path, lead, IsEntrySet, page-at, slot-small,
}
use frosk.Kernel.Paging.Fresh.{
  with_table, with_table-other, lead-old, not-fresh, lead-new, fresh-other, fresh-at, fresh-walk,
  fresh-empty, fresh-IsTree,
}

-- Two entries lead to different tables.
children-apart :
    (back : Back) (c c' n t j t' j' : ℕ)
    → back c ≡ some (n, t, j)
    → back c' ≡ some (n, t', j')
    → ((t' ≡ t) × (j' ≡ j) → ⊥)
    → c' ≢ c
children-apart back c c' n t j t' j' e e' ne same =
    let both = sym e' ∙ (ap back same ∙ e) in ne (ap table_in both, ap slot_in both)

-- the walk on from an entry
abbrev from_entry : ℕ → ℕ → ℕ → Mem → ℕ
from_entry n e a mem = if present e then walk n (page e) a mem else 0

module _ (n t j a val : ℕ) (back back' : Back) (mem mem' : Mem) (c : ℕ) (tree : IsTree back mem)
    (c_leads : back c ≡ some (n, t, j)) (set : IsEntrySet n c a val back back' mem mem') where
  -- another entry of a table of the next level leads where it did
  other-entry :
      (T k i j' a' : ℕ)
      → back T ≡ some (suc n, k, i)
      → j' < 0x1000
      → ((T ≡ t) × (j' ≡ j) → ⊥)
      → from_entry n (mem' (T + j')) a' mem' ≡ from_entry n (mem (T + j')) a' mem
  other-entry T k i j' a' leads small ne =
      let kept =
        set.above (T + j') (suc n) k i
          (ap back (page-at T j' (tree.aligned T (suc n) k i leads) small) ∙ leads) (omega arith) in
      rw kept (elim (Bool-cases (present (mem (T + j')))) [
        | inl there ↦
            let leads' = tree.below T n k i j' leads small there in
            rw there (
              set.beside (page (mem (T + j'))) T j' a' leads'
                (children-apart back c (page (mem (T + j'))) n t j T j' c_leads leads' ne))
        | inr absent ↦ rw absent refl
      ])

-- One level of it: the entry is there.
pub present-IsEntrySet :
    (n t k i a val : ℕ) (back back' : Back) (mem mem' : Mem)
    → IsTree back mem
    → back t ≡ some (suc n, k, i)
    → present (mem (t + slot (suc n) a)) ≡ true
    → IsEntrySet n (page (mem (t + slot (suc n) a))) a val back back' mem mem'
    → IsEntrySet (suc n) t a val back back' mem mem'
unfolding get_entry_addr
present-IsEntrySet n t k i a val back back' mem mem' tree leads there set =
    let j = slot (suc n) a in
    let c = page (mem (t + j)) in
    let small = slot-small (suc n) in
    let c_leads = tree.below t n k i j leads (small a) there in
    let other = other-entry n t j a val back back' mem mem' c tree c_leads set in
    let kept =
      set.above (t + j) (suc n) k i
        (ap back (page-at t j (tree.aligned t (suc n) k i leads) (small a)) ∙ leads)
        (omega arith) in
    record {
      tree = set.tree;
      extends = set.extends;
      here = λ a'. elim (Bool-cases (j == slot (suc n) a')) [
        | inl hit ↦
            let same = (==_iff j (slot (suc n) a')).0 hit in
            rw hit (
              subst
                (λ q.
                  from_entry n (mem' (t + q)) a' mem'
                  ≡ (if same_path n a a' then val else from_entry n (mem (t + q)) a' mem))
                same (rw kept (rw there (set.here a'))))
        | inr miss ↦ rw miss (
            other t k i (slot (suc n) a') a' leads (small a') (λ (e, e'). ground (arith, miss, e')))
      ];
      beside =
          λ c' k' i' a' e' ne. other c' k' i' (slot (suc n) a') a' e' (small a') (λ (e, e''). ne e);
      above = λ x k' p' i' e' less. set.above x k' p' i' e' (omega (arith, less));
    }

-- With the new table, another entry of a table of the level leads where it did.
fresh-entry :
    (back : Back) (mem : Mem) (t n k i j p fl : ℕ)
    → IsTree back mem
    → back t ≡ some (suc n, k, i)
    → j < 0x1000
    → p % 0x1000 ≡ 0
    → back p ≡ none
    → fl < 0x1000
    → (T k' i' j' a : ℕ) → back T ≡ some (suc n, k', i')
    → j' < 0x1000
    → ((T ≡ t) × (j' ≡ j) → ⊥)
    → from_entry n (with_table mem (t + j) p fl (T + j')) a (with_table mem (t + j) p fl)
      ≡ from_entry n (mem (T + j')) a mem
fresh-entry back mem t n k i j p fl tree leads small al free few T k' i' j' a leads' small' ne =
    let al-t = tree.aligned t (suc n) k i leads in
    let al-T = tree.aligned T (suc n) k' i' leads' in
    let kept =
      with_table-other mem (t + j) p fl al (T + j')
        (λ same.
          not-fresh back p T (suc n, k', i') free leads' (sym (page-at T j' al-T small') ∙ same))
        (λ same.
          let same_t = one-table t T j j' al-t al-T small small' same in
          ne (same_t, omega (arith, same, same_t))) in
    rw kept (elim (Bool-cases (present (mem (T + j')))) [
      | inl there ↦ rw there (
          fresh-walk back mem t n k i j p fl tree leads small al free few (page (mem (T + j'))) n T
            j' a (omega arith) (tree.below T n k' i' j' leads' small' there))
      | inr absent ↦ rw absent refl
    ])

-- One level of it: a page becomes the table that the entry leads to.
pub absent-IsEntrySet :
    (n t k i a val p fl : ℕ) (back back' : Back) (mem mem' : Mem)
    → IsTree back mem
    → back t ≡ some (suc n, k, i)
    → present (mem (t + slot (suc n) a)) ≡ false
    → p % 0x1000 ≡ 0
    → back p ≡ none
    → fl < 0x1000
    → fl % 2 ≡ 1
    → IsEntrySet n p a val
        (lead back p (n, t, slot (suc n) a))
        back'
        (with_table mem (t + slot (suc n) a) p fl)
        mem'
    → IsEntrySet (suc n) t a val back back' mem mem'
unfolding get_entry_addr
absent-IsEntrySet n t k i a val p fl back back' mem mem' tree leads absent al free few odd set =
    let j = slot (suc n) a in
    let small = slot-small (suc n) in
    let back₁ = lead back p (n, t, j) in
    let mem₁ = with_table mem (t + j) p fl in
    let tree₁ : IsTree back₁ mem₁ =
      fresh-IsTree back mem t n k i j p fl tree leads (small a) al free few in
    let old : (q : ℕ) (to : ℕ × ℕ × ℕ) → back q ≡ some to → back₁ q ≡ some to =
      λ q to e. lead-old back p q (n, t, j) (not-fresh back p q to free e) ∙ e in
    let other =
      other-entry n t j a val back₁ back' mem₁ mem' p tree₁ (lead-new back p (n, t, j)) set in
    let above : (x k' p' i' : ℕ) → back (page x) ≡ some (k', p', i') → suc n < k' → mem' x ≡ mem x =
      λ x k' p' i' e less.
        set.above x k' p' i' (old (page x) (k', p', i') e) (omega (arith, less))
        ∙ fresh-other back mem t n k i j p fl tree leads (small a) al free few x k' p' i' e
            (omega (arith, less)) in
    let at : mem' (t + j) ≡ p + fl =
      set.above (t + j) (suc n) k i
        (ap back₁ (page-at t j (tree.aligned t (suc n) k i leads) (small a))
          ∙ old t (suc n, k, i) leads)
        (omega arith)
      ∙ fresh-at back mem t n k i j p fl tree leads (small a) al free few in
    let there : present (p + fl) ≡ true = ground (arith, al, odd) in
    let through : (a' : ℕ)
        → from_entry n (mem' (t + j)) a' mem' ≡ (if same_path n a a' then val else 0) =
      λ a'.
        rw (at, there, page-at p fl al few)
          (rw (sym (fresh-empty back mem t n k i j p fl tree leads (small a) al free few n a'))
            (set.here a')) in
    let beside : (T k' i' j' a' : ℕ)
        → back T ≡ some (suc n, k', i')
        → j' < 0x1000
        → ((T ≡ t) × (j' ≡ j) → ⊥)
        → from_entry n (mem' (T + j')) a' mem' ≡ from_entry n (mem (T + j')) a' mem =
      λ T k' i' j' a' e less ne.
        other T k' i' j' a' (old T (suc n, k', i') e) less ne
        ∙ fresh-entry back mem t n k i j p fl tree leads (small a) al free few T k' i' j' a' e less
            ne in
    record {
      tree = set.tree;
      extends = λ q to e. set.extends q to (old q to e);
      here = λ a'. elim (Bool-cases (j == slot (suc n) a')) [
        | inl hit ↦
            let same = (==_iff j (slot (suc n) a')).0 hit in
            rw hit (
              subst
                (λ q.
                  from_entry n (mem' (t + q)) a' mem'
                  ≡ (if same_path n a a' then val else from_entry n (mem (t + q)) a' mem))
                same (rw absent (through a')))
        | inr miss ↦ rw miss (
            beside t k i (slot (suc n) a') a' leads (small a')
              (λ (e, e'). ground (arith, miss, e')))
      ];
      beside = λ c' k' i' a' e' ne.
          beside c' k' i' (slot (suc n) a') a' e' (small a') (λ (e, e''). ne e);
      above = above;
    }
