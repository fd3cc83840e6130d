-- ===== src/Kernel/Paging/Fresh.antt =====
-- A page that `check_table` of kernel/src/paging.c makes a table.
use frosk.Prelude.{
  ℕ, zero, suc, ◌+◌, ◌%◌, ◌<◌, ◌≡◌, ◌≢◌, refl, sym, ap, ◌∙◌, subst, true, some, none, ◌==◌, arith,
  Bool-cases, inl, inr, ==_iff,
}
use frosk.Cstd.Memory.{Mem, write}
use frosk.Cstd.Malloc.{clear}
use frosk.Cstd.Malloc.Bytes.{clear_lem}
use frosk.Kernel.Paging.{page, present, pml4t_loc, get_entry_addr}
use frosk.Kernel.Paging.Walk.{walk, Back, IsTree}
use frosk.Kernel.Paging.Tables.{slot, lead, page-at, slot-small, one-table, one-level, walk-same}

-- the entry at `at` leads to p, whose entries are 0
abbrev pub with_table : Mem → ℕ → ℕ → ℕ → Mem
with_table mem at p fl = clear 0x1000 p (write mem at (p + fl))

module _ (mem : Mem) (at p fl : ℕ) (al : p % 0x1000 ≡ 0) where
  pub with_table-in : (x : ℕ) → page x ≡ p → with_table mem at p fl x ≡ 0
  with_table-in x e = clear_lem 0x1000 p (write mem at (p + fl)) x ∙ ground (arith, e)

  pub with_table-at : page at ≢ p → with_table mem at p fl at ≡ p + fl
  with_table-at ne = clear_lem 0x1000 p (write mem at (p + fl)) at ∙ ground (arith, ne, al)

  pub with_table-other : (x : ℕ) → page x ≢ p → x ≢ at → with_table mem at p fl x ≡ mem x
  with_table-other x ne ne' =
      clear_lem 0x1000 p (write mem at (p + fl)) x ∙ ground (arith, ne, ne', al)

pub lead-new : (back : Back) (p : ℕ) (to : ℕ × ℕ × ℕ) → lead back p to p ≡ some to
lead-new back p to = ground arith

pub lead-old : (back : Back) (p q : ℕ) (to : ℕ × ℕ × ℕ) → q ≢ p → lead back p to q ≡ back q
lead-old back p q to ne = ground (arith, ne)

pub not-fresh : (back : Back) (p q : ℕ) (to : ℕ × ℕ × ℕ) → back p ≡ none → back q ≡ some to → q ≢ p
not-fresh back p q to free e same = let bad = sym free ∙ (ap back (sym same) ∙ e) in cc

module _ (back : Back) (mem : Mem) (t n k i j p fl : ℕ) (tree : IsTree back mem)
    (leads : back t ≡ some (suc n, k, i)) (small : j < 0x1000) (al : p % 0x1000 ≡ 0)
    (free : back p ≡ none) (few : fl < 0x1000) where
  abbrev back' : Back
  back' = lead back p (n, t, j)

  abbrev mem' : Mem
  mem' = with_table mem (t + j) p fl

  t-page : page (t + j) ≡ t
  t-page = page-at t j (tree.aligned t (suc n) k i leads) small

  -- what is not in the new table and not its entry stays
  pub fresh-other :
      (x k' p' i' : ℕ) → back (page x) ≡ some (k', p', i') → k' ≢ suc n → mem' x ≡ mem x
  fresh-other x k' p' i' e ne =
      with_table-other mem (t + j) p fl al x (not-fresh back p (page x) (k', p', i') free e)
        λ same. ne (one-level back t (page x) (suc n) k i k' p' i' leads e (ap page same ∙ t-page))

  pub fresh-at : mem' (t + j) ≡ p + fl
  fresh-at =
      with_table-at mem (t + j) p fl al
        λ same. not-fresh back p t (suc n, k, i) free leads (sym t-page ∙ same)

  pub fresh-beside : (j' : ℕ) → j' < 0x1000 → j' ≢ j → mem' (t + j') ≡ mem (t + j')
  fresh-beside j' small' ne =
      with_table-other mem (t + j) p fl al (t + j')
        (λ same.
          not-fresh back p t (suc n, k, i) free leads
            (sym (page-at t j' (tree.aligned t (suc n) k i leads) small') ∙ same))
        (λ same. ne (omega (arith, same)))

  pub fresh-walk :
      (c m q r a : ℕ) → m < suc n → back c ≡ some (m, q, r) → walk m c a mem' ≡ walk m c a mem
  fresh-walk c m q r a less e =
      walk-same (suc n) back mem mem' tree
        (λ x k' p' i' e' less'. fresh-other x k' p' i' e' (omega (arith, less'))) m c q r a less e

  pub fresh-empty : (m a : ℕ) → walk m p a mem' ≡ 0
  unfolding get_entry_addr
  fresh-empty zero a =
      with_table-in mem (t + j) p fl al (p + slot 0 a) (page-at p (slot 0 a) al (slot-small 0 a))
  fresh-empty (suc m) a =
      let gone =
        with_table-in mem (t + j) p fl al (p + slot (suc m) a)
          (page-at p (slot (suc m) a) al (slot-small (suc m) a)) in
      rw gone refl

  fresh-below-old :
      (t' k' p' i' j' : ℕ)
      → back t' ≡ some (suc k', p', i')
      → j' < 0x1000
      → present (mem' (t' + j')) ≡ true
      → back' (page (mem' (t' + j'))) ≡ some (k', t', j')
  fresh-below-old t' k' p' i' j' e less there = elim (Bool-cases (t' + j' == t + j)) [
    | inl hit ↦
        let same = (==_iff (t' + j') (t + j)).0 hit in
        let al-t = tree.aligned t (suc n) k i leads in
        let al-t' = tree.aligned t' (suc k') p' i' e in
        let same_t : t' ≡ t = one-table t t' j j' al-t al-t' small less same in
        let same_j : j' ≡ j = omega (arith, same, same_t) in
        let same_k : k' ≡ n =
          omega (arith, one-level back t t' (suc n) k i (suc k') p' i' leads e same_t) in
        let value = ap mem' same ∙ fresh-at in
        rw (value, page-at p fl al few, same_k, same_t, same_j) (lead-new back p (n, t, j))
    | inr miss ↦
        let at = page-at t' j' (tree.aligned t' (suc k') p' i' e) less in
        let kept =
          with_table-other mem (t + j) p fl al (t' + j')
            (λ same. not-fresh back p t' (suc k', p', i') free e (sym at ∙ same))
            (λ same. ground (arith, miss, same)) in
        let old = tree.below t' k' p' i' j' e less (subst (λ v. present v ≡ true) kept there) in
        rw kept (
          lead-old back p (page (mem (t' + j'))) (n, t, j)
            (not-fresh back p (page (mem (t' + j'))) (k', t', j') free old)
          ∙ old)
  ]

  pub fresh-IsTree : IsTree back' mem'
  fresh-IsTree = record {
    root =
        lead-old back p pml4t_loc (n, t, j) (not-fresh back p pml4t_loc (3, 0, 0) free tree.root)
        ∙ tree.root;
    aligned = λ t' k' p' i' e. elim (Bool-cases (t' == p)) [
      | inl hit ↦ ground (arith, hit, al)
      | inr miss ↦
          tree.aligned t' k' p' i'
            (sym (lead-old back p t' (n, t, j) (λ same. ground (arith, miss, same))) ∙ e)
    ];
    below = λ t' k' p' i' j' e less there. elim (Bool-cases (t' == p)) [
      | inl hit ↦
          let same = (==_iff t' p).0 hit in
          let gone = with_table-in mem (t + j) p fl al (p + j') (page-at p j' al less) in
          let there' = subst (λ q. present (mem' (q + j')) ≡ true) same there in
          let bad = subst (λ v. present v ≡ true) gone there' in cc (bad)
      | inr miss ↦
          fresh-below-old t' k' p' i' j'
            (sym (lead-old back p t' (n, t, j) (λ same. ground (arith, miss, same))) ∙ e) less there
    ];
  }
