-- ===== src/Cstd/Memory.antt =====
-- Bytes at addresses, and what a C string is.
use frosk.Prelude.{ℕ, ◌+◌, ◌<◌, ◌≡◌, ◌≢◌, List, [], ◌∷◌, ◌⊎◌, ◌==◌, if◌then◌else◌, length, arith}

abbrev pub Mem : Type 0
Mem = ℕ → ℕ

abbrev pub write : Mem → ℕ → ℕ → Mem
write m p v a = if a == p then v else m a

-- the bytes from p on are those of `cs`, none of which is 0, and a 0
abbrev pub IsString : Mem → ℕ → List ℕ → Type 0
IsString m p [] = m p ≡ 0
IsString m p (c ∷ cs) = (m p ≡ c) × (c ≢ 0) × IsString m (p + 1) cs

-- A write elsewhere leaves a string alone.
pub IsString-write :
    (m : Mem) (p d v : ℕ) (cs : List ℕ)
    → (d < p) ⊎ (p + length cs < d)
    → IsString m p cs
    → IsString (write m d v) p cs
IsString-write m p d v [] h s = ground arith
IsString-write m p d v (c ∷ cs) h s =
    (ground (arith, h, s.0), s.1, IsString-write m (p + 1) d v cs (ground (arith, h)) s.2)
