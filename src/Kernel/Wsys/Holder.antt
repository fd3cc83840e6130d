-- ===== src/Kernel/Wsys/Holder.antt =====
-- Who holds the registration of kernel/src/wsysreg.c.
mod Examples
use frosk.Prelude.{
  ℕ, ◌≡◌, ◌≢◌, refl, Bool, true, false, Option, none, some, List, [], ◌∷◌, ◌++◌, ◌==◌,
  if◌then◌else◌, arith, ◌∙◌, Bool-cases, ◌⊎◌, inl, inr,
}
use frosk.Kernel.Wsys.{reg_wsys, unreg_wsys, Call, reg, unreg, call, run}

-- the call is not the process's own request to give the registration up
abbrev pub Keeps : ℕ → Call → Type 0
Keeps p (reg cur) = Unit
Keeps p (unreg none) = Unit
Keeps p (unreg (some q)) = p ≢ q

abbrev pub AllKeep : ℕ → List Call → Type 0
AllKeep p [] = Unit
AllKeep p (c ∷ cs) = Keeps p c × AllKeep p cs

call-Keeps : (p : ℕ) (c : Call) → Keeps p c → (call c (some p)).1 ≡ some p
unfolding call reg_wsys unreg_wsys
call-Keeps p (reg none) h = refl
call-Keeps p (reg (some q)) h = refl
call-Keeps p (unreg none) h = refl
call-Keeps p (unreg (some q)) h = let ne : (p == q) ≡ false = ground (arith, h) in rw ne refl

run-AllKeep : (p : ℕ) (cs : List Call) → AllKeep p cs → run cs (some p) ≡ some p
unfolding run
run-AllKeep p [] h = refl
run-AllKeep p (c ∷ cs) (h, hs) = rw (call-Keeps p c h) (run-AllKeep p cs hs)

-- A process registers while no window system is registered. Then it is told so and holds the
-- registration through any calls but its own `unreg_wsys`: every other process that then asks for
-- the registration, or to end it, is refused. Its own `unreg_wsys` frees the registration for the
-- next process.
pub reg_wsys_lem :
    (p : ℕ) (cs : List Call)
    → AllKeep p cs
    → (reg_wsys (some p) none ≡ (true, some p))
      × (run (reg (some p) ∷ cs) none ≡ some p)
      × ((q : ℕ) → reg_wsys (some q) (run (reg (some p) ∷ cs) none) ≡ (false, some p))
      × ((q : ℕ) → p ≢ q → unreg_wsys (some q) (run (reg (some p) ∷ cs) none) ≡ (false, some p))
      × (unreg_wsys (some p) (run (reg (some p) ∷ cs) none) ≡ (true, none))
unfolding run call reg_wsys unreg_wsys
reg_wsys_lem p cs h = rw (run-AllKeep p cs h) (
  refl,
  refl,
  λ q. refl,
  λ q ne. (let e : (p == q) ≡ false = ground (arith, ne) in rw e refl),
  (let e : (p == p) ≡ true = ground arith in rw e refl),
)
