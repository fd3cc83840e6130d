-- ===== src/Cstd/Strings.antt =====
-- lib/cstd/src/string.c, over a memory of bytes. A loop whose end depends on the bytes runs on
-- fuel, and `none` means that the fuel ran out. `char` is signed on this machine, and `memcmp`
-- compares unsigned bytes.
pub mod Compare
pub mod Copy
mod Examples
use frosk.Prelude.{
  ℕ, zero, suc, ◌+◌, ◌%◌, Bool, true, false, not, ◌&&◌, ◌||◌, Option, none, some, ◌==◌, ltb,
  if◌then◌else◌,
}
use frosk.Prelude.Int.{ℤ, pos, negsuc}
use frosk.Cstd.Memory.{Mem, write}

-- `for (i = 0; s[i] != '\0'; i++);` from i on
unfoldable pub strlen_from : ℕ → Mem → ℕ → ℕ → Option ℕ
strlen_from zero m s i = none
strlen_from (suc fuel) m s i =
    let rest = strlen_from fuel m s (i + 1) in if m (s + i) == 0 then some i else rest

unfoldable pub strlen : ℕ → Mem → ℕ → Option ℕ
strlen fuel m s = strlen_from fuel m s 0

-- `memcpy`, the lowest byte first
unfoldable pub memcpy : Mem → ℕ → ℕ → ℕ → Mem
memcpy m dst src zero = m
memcpy m dst src (suc sz) = memcpy (write m dst (m src)) (dst + 1) (src + 1) sz

-- `memmove`, through the buffer that `malloc` returned
unfoldable pub memmove : ℕ → Mem → ℕ → ℕ → ℕ → Mem
memmove buf m dst src sz = memcpy (memcpy m buf src sz) dst buf sz

-- `strcpy`: a byte is copied, then the next one is tested
unfoldable pub strcpy : ℕ → Mem → ℕ → ℕ → Option Mem
strcpy zero m dst src = none
strcpy (suc fuel) m dst src =
    let m' = write m dst (m src) in
    let rest = strcpy fuel m' (dst + 1) (src + 1) in if m' (src + 1) == 0 then some m' else rest

unfoldable pub strncpy : Mem → ℕ → ℕ → ℕ → Mem
strncpy m dst src zero = m
strncpy m dst src (suc sz) =
    let rest = strncpy (write m dst (m src)) (dst + 1) (src + 1) sz in
    if m src == 0 then write m dst 0 else rest

-- `a > b` for two `char`s
abbrev pub schar_gt : ℕ → ℕ → Bool
schar_gt a b = ltb ((b + 128) % 256) ((a + 128) % 256)

abbrev pub sign : Bool → ℤ
sign true = pos 1
sign false = negsuc 0

unfoldable pub memcmp_from : Mem → ℕ → ℕ → ℕ → ℕ → ℤ
memcmp_from m s1 s2 zero i = pos 0
memcmp_from m s1 s2 (suc left) i =
    let a = m (s1 + i) in
    let b = m (s2 + i) in
    let rest = memcmp_from m s1 s2 left (i + 1) in if not (a == b) then sign (ltb b a) else rest

unfoldable pub memcmp : Mem → ℕ → ℕ → ℕ → ℤ
memcmp m s1 s2 sz = memcmp_from m s1 s2 sz 0

unfoldable pub strcmp_from : ℕ → Mem → ℕ → ℕ → ℕ → Option ℤ
strcmp_from zero m s1 s2 i = none
strcmp_from (suc fuel) m s1 s2 i =
    let a = m (s1 + i) in
    let b = m (s2 + i) in
    let rest = strcmp_from fuel m s1 s2 (i + 1) in
    if a == 0 then some (pos 0) else if not (a == b) then some (sign (schar_gt a b)) else rest

unfoldable pub strcmp : ℕ → Mem → ℕ → ℕ → Option ℤ
strcmp fuel m s1 s2 = strcmp_from fuel m s1 s2 0

unfoldable pub strncmp_from : Mem → ℕ → ℕ → ℕ → ℕ → ℤ
strncmp_from m s1 s2 zero i = pos 0
strncmp_from m s1 s2 (suc left) i =
    let a = m (s1 + i) in
    let b = m (s2 + i) in
    let rest = strncmp_from m s1 s2 left (i + 1) in
    if a == 0 then pos 0 else if not (a == b) then sign (schar_gt a b) else rest

unfoldable pub strncmp : Mem → ℕ → ℕ → ℕ → ℤ
strncmp m s1 s2 sz = strncmp_from m s1 s2 sz 0

unfoldable pub strcat : ℕ → Mem → ℕ → ℕ → Option Mem
strcat fuel m dst src = elim (strlen fuel m dst) [
  | none ↦ none
  | some n ↦ strcpy fuel m (dst + n) src
]

unfoldable pub strncat : ℕ → Mem → ℕ → ℕ → ℕ → Option Mem
strncat fuel m dst src sz = elim (strlen fuel m dst) [
  | none ↦ none
  | some n ↦ some (strncpy m (dst + n) src sz)
]
