-- ===== src/Kernel/Wsys/Holder/Examples.antt =====
-- Two processes that ask for the window system.
use frosk.Prelude.{ℕ, ◌≡◌, ◌≢◌, true, false, none, some, List, [], ◌∷◌, arith}
use frosk.Kernel.Wsys.{reg_wsys, unreg_wsys, Call, reg, unreg, run}
use frosk.Kernel.Wsys.Holder.{reg_wsys_lem}

abbrev calls : List Call
calls = reg (some 9) ∷ unreg (some 9) ∷ []

reg_wsys_lem_example :
    (reg_wsys (some 7) none ≡ (true, some 7))
    × (run (reg (some 7) ∷ calls) none ≡ some 7)
    × ((q : ℕ) → reg_wsys (some q) (run (reg (some 7) ∷ calls) none) ≡ (false, some 7))
    × ((q : ℕ) → 7 ≢ q → unreg_wsys (some q) (run (reg (some 7) ∷ calls) none) ≡ (false, some 7))
    × (unreg_wsys (some 7) (run (reg (some 7) ∷ calls) none) ≡ (true, none))
reg_wsys_lem_example = reg_wsys_lem 7 calls (tt, (omega arith, tt))
