-- ===== src/Kernel/Paging/Tables.antt =====
-- What one entry of the tables of kernel/src/paging.c becomes, and that the others stay.
use mathlib.Core.Option
use frosk.Prelude.{
  ℕ, zero, suc, ◌+◌, ◌*◌, ◌/◌, ◌%◌, ◌^◌, ◌<◌, ◌≡◌, ◌≢◌, refl, sym, ap, ◌∙◌, subst, Bool, true, ◌&&◌,
  Option, some, none, ◌==◌, if◌then◌else◌, arith, Bool-cases, inl, inr,
}
use frosk.Cstd.Memory.{Mem, write}
use frosk.Kernel.Pages.{Manager, phys_pages, alloc_pages}
use frosk.Kernel.Paging.{State, page, present, get_entry_addr, check_table, set_atq, translated}
use frosk.Kernel.Paging.Walk.{shift, walk, Back, IsTree}

-- the three or fewer tables below a table, and the entry in the last one
abbrev pub set_from : ℕ → ℕ → ℕ → ℕ → ℕ → State → Option State
set_from zero a v val fl st = some (set_atq (get_entry_addr a v 12) val st)
set_from (suc n) a v val fl st =
    Option.bind (check_table a v (shift (suc n)) fl st) λ (v', st'). set_from n a v' val fl st'

-- an address's entry in a table of a level, and whether two addresses have the same ones
abbrev pub slot : ℕ → ℕ → ℕ
slot n a = a / 2 ^ shift n * 8 % 0x1000

abbrev pub same_path : ℕ → ℕ → ℕ → Bool
same_path zero a a' = slot 0 a == slot 0 a'
same_path (suc n) a a' = (slot (suc n) a == slot (suc n) a') && same_path n a a'

-- a page becomes a table
abbrev pub lead : Back → ℕ → ℕ × ℕ × ℕ → Back
lead back p to q = if q == p then some to else back q

-- the manager has n free pages, which are no tables
abbrev pub Supply : ℕ → Back → Manager → Type 0
Supply zero back m = Unit
Supply (suc n) back m =
    (p : ℕ) × (m' : Manager) × (alloc_pages 1 phys_pages m ≡ some (p, m'))
    × (p ≢ 0)
    × (p % 0x1000 ≡ 0)
    × (back p ≡ none)
    × ((to : ℕ × ℕ × ℕ) → Supply n (lead back p to) m')

-- the code's address of a table leads to it
abbrev pub Shows : State → ℕ → ℕ → Type 0
Shows st v t = (j : ℕ) → j < 0x1000 → translated st (v + j) ≡ t + j

-- what setting the entry of a below table t, of level n, does
pub record IsEntrySet (n t a val : ℕ) (back back' : Back) (mem mem' : Mem) : Type 0 where
  pub tree : IsTree back' mem'
  pub extends : (q : ℕ) (to : ℕ × ℕ × ℕ) → back q ≡ some to → back' q ≡ some to
  pub here : (a' : ℕ) → walk n t a' mem' ≡ (if same_path n a a' then val else walk n t a' mem)
  pub beside : (c k i a' : ℕ) → back c ≡ some (n, k, i) → c ≢ t → walk n c a' mem' ≡ walk n c a' mem
  pub above : (x k p i : ℕ) → back (page x) ≡ some (k, p, i) → n < k → mem' x ≡ mem x

pub page-at : (t j : ℕ) → t % 0x1000 ≡ 0 → j < 0x1000 → page (t + j) ≡ t
page-at t j aligned small = omega (arith, aligned, small)

pub slot-small : (n a : ℕ) → slot n a < 0x1000
slot-small n a = omega arith

pub Supply-less : (n : ℕ) (back : Back) (m : Manager) → Supply (suc n) back m → Supply n back m
Supply-less zero back m h = omega arith
Supply-less (suc n) back m (p, m', e, nz, al, free, more) =
    (p, m', e, nz, al, free, λ to. Supply-less n (lead back p to) m' (more to))

-- where the tables of levels below L stay, so do the walks from them
pub walk-same :
    (L : ℕ) (back : Back) (mem mem' : Mem)
    → IsTree back mem
    → ((x k p i : ℕ) → back (page x) ≡ some (k, p, i) → k < L → mem' x ≡ mem x)
    → (n c p i a : ℕ) → n < L
    → back c ≡ some (n, p, i)
    → walk n c a mem' ≡ walk n c a mem
unfolding get_entry_addr
walk-same L back mem mem' tree stay zero c p i a less e =
    let at = page-at c (slot 0 a) (tree.aligned c 0 p i e) (slot-small 0 a) in
    stay (c + slot 0 a) 0 p i (ap back at ∙ e) less
walk-same L back mem mem' tree stay (suc n) c p i a less e =
    let j = slot (suc n) a in
    let at = page-at c j (tree.aligned c (suc n) p i e) (slot-small (suc n) a) in
    let kept = stay (c + j) (suc n) p i (ap back at ∙ e) less in
    rw kept (elim (Bool-cases (present (mem (c + j)))) [
      | inl yes_there ↦ rw yes_there (
          walk-same L back mem mem' tree stay n (page (mem (c + j))) c j a (omega (arith, less))
            (tree.below c n p i j e (slot-small (suc n) a) yes_there))
      | inr not_there ↦ rw not_there refl
    ])

-- two tables with one entry are one
pub one-table :
    (t t' j j' : ℕ)
    → t % 0x1000 ≡ 0
    → t' % 0x1000 ≡ 0
    → j < 0x1000
    → j' < 0x1000
    → t' + j' ≡ t + j
    → t' ≡ t
one-table t t' j j' al al' small small' e = omega (arith, al, al', small, small', e)

-- the level in what leads to a table, and the entry
abbrev level_in : Option (ℕ × ℕ × ℕ) → ℕ
level_in none = 0
level_in (some (k, p, i)) = k

abbrev pub slot_in : Option (ℕ × ℕ × ℕ) → ℕ
slot_in none = 0
slot_in (some (k, p, i)) = i

abbrev pub table_in : Option (ℕ × ℕ × ℕ) → ℕ
table_in none = 0
table_in (some (k, p, i)) = p

pub one-level :
    (back : Back) (t t' k p i k' p' i' : ℕ)
    → back t ≡ some (k, p, i)
    → back t' ≡ some (k', p', i')
    → t' ≡ t
    → k' ≡ k
one-level back t t' k p i k' p' i' e e' same = ap level_in (sym e' ∙ ap back same ∙ e)

write-far : (mem : Mem) (a b v : ℕ) → b ≢ a → write mem a v b ≡ mem b
write-far mem a b v ne = ground (arith, ne)

-- The entry of a page is written, in a table of the last level.
pub write-IsEntrySet :
    (back : Back) (mem : Mem) (t k i a val : ℕ)
    → IsTree back mem
    → back t ≡ some (0, k, i)
    → IsEntrySet 0 t a val back back mem (write mem (t + slot 0 a) val)
unfolding get_entry_addr
write-IsEntrySet back mem t k i a val tree e =
    let al = tree.aligned t 0 k i e in
    let small = slot-small 0 a in
    record {
      tree = record {
        root = tree.root;
        aligned = tree.aligned;
        below = λ t' k' p' i' j e' less there.
            let al' = tree.aligned t' (suc k') p' i' e' in
            let kept = write-far mem (t + slot 0 a) (t' + j) val λ same. absurd (
              omega (
                arith,
                one-level back t t' 0 k i (suc k') p' i' e e'
                    (one-table t t' (slot 0 a) j al al' small less same),
              )) in
            rw kept (tree.below t' k' p' i' j e' less (subst (λ v. present v ≡ true) kept there));
      };
      extends = λ q to h. h;
      here = λ a'. ground arith;
      beside = λ c k' i' a' e' ne. write-far mem (t + slot 0 a) (c + slot 0 a') val λ same. ne (
          one-table t c (slot 0 a) (slot 0 a') al (tree.aligned c 0 k' i' e') small
            (slot-small 0 a') same);
      above = λ x k' p' i' e' less. write-far mem (t + slot 0 a) x val λ same. absurd (
          omega (
            arith,
            less,
            one-level back t (page x) 0 k i k' p' i' e e'
                (ap page same ∙ page-at t (slot 0 a) al small),
          ));
    }
