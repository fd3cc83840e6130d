-- ===== src/Kernel/Pages/Cover.antt =====
-- What a list of regions stands for: the set of the addresses that are free for use.
use frosk.Prelude.{
  ℕ, ◌+◌, ◌^◌, ◌≤◌, ◌<◌, ◌≡◌, ◌≢◌, refl, Bool, false, ◌&&◌, ◌||◌, List, [], ◌∷◌, ◌⊎◌, ◌==◌, leb,
  ltb, arith, true, if◌then◌else◌,
}
use frosk.Kernel.Pages.{Region, usable}

abbrev pub inside : ℕ → ℕ → ℕ → Bool
inside a size x = leb a x && ltb x (a + size)

abbrev pub free_in : Region → ℕ → Bool
free_in r x = r.type == usable && inside r.addr r.size x

unfoldable pub is_free : List Region → ℕ → Bool
is_free [] x = false
is_free (r ∷ rs) x = free_in r x || is_free rs x

-- bytes free for use
unfoldable pub free_bytes : List Region → ℕ
free_bytes [] = 0
free_bytes (r ∷ rs) = (if r.type == usable then r.size else 0) + free_bytes rs

-- the two blocks have no address in common
abbrev pub Apart : ℕ → ℕ → ℕ → ℕ → Type 0
Apart a n b m = (a + n ≤ b) ⊎ (b + m ≤ a)

abbrev pub AllApart : ℕ → ℕ → List Region → Type 0
AllApart a n [] = Unit
AllApart a n (r ∷ rs) = Apart a n r.addr r.size × AllApart a n rs

pub record Fits (r : Region) : Type 0 where
  pub not_null : r.addr ≢ 0
  pub not_empty : 0 < r.size
  pub no_wrap : r.addr + r.size < 2 ^ 64

-- The regions are disjoint and not empty, none is at 0, and none reaches the end of the address space.
abbrev pub IsValid : List Region → Type 0
IsValid [] = Unit
IsValid (r ∷ rs) = Fits r × AllApart r.addr r.size rs × IsValid rs

pub AllApart-not_free :
    (a n x : ℕ) (rs : List Region) → AllApart a n rs → inside a n x ≡ true → is_free rs x ≡ false
unfolding is_free
AllApart-not_free a n x [] h i = refl
AllApart-not_free a n x (r ∷ rs) h i = ground (arith, AllApart-not_free a n x rs h.1 i)

-- A part of a block is apart from what the block is apart from.
pub AllApart-part :
    (a n b m : ℕ) (rs : List Region) → a ≤ b → b + m ≤ a + n → AllApart a n rs → AllApart b m rs
AllApart-part a n b m [] l u h = tt
AllApart-part a n b m (r ∷ rs) l u h = (ground (arith, h.0), AllApart-part a n b m rs l u h.1)

-- Two blocks that follow each other are apart from what both are apart from.
pub AllApart-join :
    (a n m : ℕ) (rs : List Region)
    → IsValid rs
    → AllApart a n rs
    → AllApart (a + n) m rs
    → AllApart a (n + m) rs
AllApart-join a n m [] v h k = tt
AllApart-join a n m (r ∷ rs) v h k =
    let some_byte : 0 < r.size = v.0.not_empty in
    (ground (arith, h.0, k.0, some_byte), AllApart-join a n m rs v.2 h.1 k.1)
