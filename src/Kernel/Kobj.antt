-- ===== src/Kernel/Kobj.antt =====
-- kernel/src/kernobj.c: the allocator of kernel objects. A page of objects starts with a header
-- object whose two 64-bit words mark the used objects of its lower and upper half.
--
-- `1 << i` is an `int` shift, taken as the compiler runs it on this machine: the count is modulo
-- 32 and the result is sign-extended to 64 bits, so that the mask of 31 has the bits 31 to 63.
-- The list of headers is the ring from `first_hdr` on.
pub mod Words
pub mod Alloc
pub mod Free
mod Examples
use mathlib.Core.Option
use frosk.Prelude.{
  ℕ, zero, suc, ◌+◌, ◌-◌, ◌*◌, ◌/◌, ◌%◌, Bool, true, false, not, ◌&&◌, ◌||◌, Option, none, some,
  List, [], ◌∷◌, ◌==◌, leb, ltb, if◌then◌else◌,
}

-- a `ulong` of the bitmap by its bits, of which the first 64 count
abbrev pub Word : Type 0
Word = ℕ → Bool

unfoldable pub any_below : ℕ → Word → Bool
any_below zero w = false
any_below (suc n) w = w n || any_below n w

unfoldable pub all_below : ℕ → Word → Bool
all_below zero w = true
all_below (suc n) w = w n && all_below n w

-- `(ulong)(1 << i)`
abbrev pub mask : ℕ → Word
mask i k = if i % 32 == 31 then leb 31 k else k == i % 32

-- `w & (1 << i)`, as a condition
unfoldable pub test : Word → ℕ → Bool
test w i = any_below 64 (λ k. w k && mask i k)

-- `w |= 1 << i`
abbrev pub mark : Word → ℕ → Word
mark w i k = w k || mask i k

-- `w &= ~(1 << i)`
abbrev pub clear : Word → ℕ → Word
clear w i k = w k && not (mask i k)

-- `w == 0xFfffFfffFfffFfff`
unfoldable pub full : Word → Bool
full w = all_below 64 w

pub record Header : Type 0 where
  pub addr : ℕ
  pub low : Word
  pub high : Word

-- `for (i = 0; w & (1 << i); i++);`; `none` means that the fuel ran out
unfoldable pub first_clear : ℕ → Word → ℕ → Option ℕ
first_clear zero w i = none
first_clear (suc fuel) w i =
    let rest = first_clear fuel w (i + 1) in if test w i then rest else some i

unfoldable pub claim_low : Header → Option (ℕ × Header)
claim_low h =
    Option.map (λ i. (h.addr + i * 0x20, record h { low = mark h.low i })) (first_clear 64 h.low 0)

unfoldable pub claim_high : Header → Option (ℕ × Header)
claim_high h =
    Option.map (λ i. (h.addr + 0x800 + i * 0x20, record h { high = mark h.high i }))
      (first_clear 64 h.high 0)

abbrev pub beside : List Header → Option (ℕ × Header) → Option (ℕ × List Header)
beside hs = Option.map (λ (a, h). (a, h ∷ hs))

-- `alloc_kobj`; `none` is the null pointer of a pool with no free object
unfoldable pub alloc_kobj : List Header → Option (ℕ × List Header)
alloc_kobj [] = none
alloc_kobj (h ∷ hs) =
    let rest = Option.map (λ (a, hs'). (a, h ∷ hs')) (alloc_kobj hs) in
    if not (full h.low)
    then beside hs (claim_low h)
    else if not (full h.high)
    then beside hs (claim_high h)
    else rest

-- `loc_kobj`: the header's address, whether it is the upper word, and the bit
unfoldable pub loc_kobj : ℕ → ℕ × Bool × ℕ
loc_kobj obj =
    let off = obj % 0x1000 in
    if ltb 0x2000 off
    then (obj - off, true, (off - 0x2000) / 0x20)
    else (obj - off, false, off / 0x20)

abbrev pub clear_in : Header → Bool → ℕ → Header
clear_in h false i = record h { low = clear h.low i }
clear_in h true i = record h { high = clear h.high i }

abbrev pub test_in : Header → Bool → ℕ → Bool
test_in h false i = test h.low i
test_in h true i = test h.high i

unfoldable pub free_at : List Header → ℕ → Bool → ℕ → Option (List Header)
free_at [] a b i = none
free_at (h ∷ hs) a b i =
    if h.addr == a then some (clear_in h b i ∷ hs) else Option.map (λ r. h ∷ r) (free_at hs a b i)

unfoldable pub verify_at : List Header → ℕ → Bool → ℕ → Option Bool
verify_at [] a b i = none
verify_at (h ∷ hs) a b i = if h.addr == a then some (test_in h b i) else verify_at hs a b i

-- `free_kobj`; `none` is a write to a page that holds no header
unfoldable pub free_kobj : ℕ → List Header → Option (List Header)
free_kobj obj hs = let (a, b, i) = loc_kobj obj in free_at hs a b i

-- `verify_kobj`, as a condition
unfoldable pub verify_kobj : ℕ → List Header → Option Bool
verify_kobj obj hs = let (a, b, i) = loc_kobj obj in verify_at hs a b i

-- `init_kobj_mgr`: one header, whose own slot is taken
unfoldable pub init_kobj_mgr : ℕ → List Header
init_kobj_mgr page = record { addr = page; low = λ k. k == 0; high = λ k. false } ∷ []
