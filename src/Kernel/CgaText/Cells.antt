-- ===== src/Kernel/CgaText/Cells.antt =====
-- Where kernel/src/cga_text.c puts the characters of a string.
use mathlib.Core.Option
use frosk.Prelude.{
  ℕ, zero, suc, ◌+◌, ◌*◌, ◌/◌, ◌%◌, ◌≤◌, ◌<◌, ◌≡◌, ◌≢◌, refl, ap, ◌∙◌, sym, true, false, some, List,
  [], ◌∷◌, if◌then◌else◌, ◌==◌, Bool-cases, inl, inr, arith, subst,
}
use frosk.Cstd.Memory.{Mem, write}
use frosk.Kernel.CgaText.{Screen, cls, ensure_cleared, line_end, putnl, put_one, put_all, puts}

-- the place behind a character: the next cell, or behind a newline the first line's start that is not
-- before it
abbrev pub advance : ℕ → ℕ → ℕ
advance p c = if c == 10 then (p + 159) / 160 * 160 else p + 2

abbrev pub place : ℕ → List ℕ → ℕ
place p [] = p
place p (c ∷ cs) = place (advance p c) cs

line_end_lem :
    (fuel p : ℕ)
    → p % 2 ≡ 0
    → (p + 159) / 160 * 160 + 2 ≤ p + 2 * fuel
    → line_end fuel p ≡ some ((p + 159) / 160 * 160)
unfolding line_end
line_end_lem zero p even h = absurd (omega arith)
line_end_lem (suc fuel) p even h = elim (Bool-cases (p % 160 == 0)) [
  | inl e ↦ rw e (ap some (ground (arith, e)))
  | inr e ↦
      let off : p % 160 ≢ 0 = ground (arith, e) in
      let same : (p + 2 + 159) / 160 * 160 ≡ (p + 159) / 160 * 160 = omega (arith, off) in
      rw e (line_end_lem fuel (p + 2) (omega arith) (omega (arith, same, h)) ∙ ap some same)
]

-- the screen behind a character
abbrev printed : ℕ → Screen → Screen
printed c s = record {
  mem = if c == 10 then s.mem else write s.mem s.cursor c;
  cursor = advance s.cursor c;
  cleared = true;
}

put_one_lem :
    (c p : ℕ) (m : Mem)
    → p % 2 ≡ 0
    → put_one c (record { mem = m; cursor = p; cleared = true })
      ≡ some (printed c (record { mem = m; cursor = p; cleared = true }))
unfolding put_one putnl ensure_cleared
put_one_lem c p m even = elim (Bool-cases (c == 10)) [
  | inl e ↦ rw e (rw (line_end_lem 81 p even (omega arith)) refl)
  | inr e ↦ rw e refl
]

-- every character but a newline stands at its place
abbrev pub Shown : Mem → ℕ → List ℕ → Type 0
Shown m p [] = Unit
Shown m p (c ∷ cs) = (c ≢ 10 → m p ≡ c) × Shown m (advance p c) cs

-- no character but a newline stands at a
abbrev pub Unwritten : ℕ → List ℕ → ℕ → Type 0
Unwritten p [] a = Unit
Unwritten p (c ∷ cs) a = (c ≢ 10 → a ≢ p) × Unwritten (advance p c) cs a

abbrev pub Printed : Mem → ℕ → List ℕ → Screen → Type 0
Printed m p cs s =
    (s.cursor ≡ place p cs)
    × (s.cleared ≡ true)
    × Shown s.mem p cs
    × ((a : ℕ) → Unwritten p cs a → s.mem a ≡ m a)

-- the cells before the first place
before-Unwritten : (cs : List ℕ) (p a : ℕ) → a < p → Unwritten p cs a
before-Unwritten [] p a h = tt
before-Unwritten (c ∷ cs) p a h =
    let further : p ≤ advance p c = ground arith in
    (λ ne. omega (arith, h), before-Unwritten cs (advance p c) a (omega (arith, further, h)))

untouched : (c p a : ℕ) (m : Mem) → (c ≢ 10 → a ≢ p) → (if c == 10 then m else write m p c) a ≡ m a
untouched c p a m h = elim (Bool-cases (c == 10)) [
  | inl e ↦ rw e refl
  | inr e ↦
      let other : c ≢ 10 = ground (arith, e) in
      let apart : (a == p) ≡ false = ground (arith, h other) in rw e (ground (arith, apart))
]

-- a character in front
Printed-cons :
    (c : ℕ) (cs : List ℕ) (p : ℕ) (m : Mem) (s : Screen)
    → Printed (if c == 10 then m else write m p c) (advance p c) cs s
    → Printed m p (c ∷ cs) s
Printed-cons c cs p m s (at, clear, shown, kept) =
    let here : c ≢ 10 → s.mem p ≡ c = λ ne.
      (let before : p < advance p c = ground (arith, ne) in
        kept p (before-Unwritten cs (advance p c) p before) ∙ ground (arith, ne)) in
    (at, clear, (here, shown), λ a (h, hs). kept a hs ∙ untouched c p a m h)

put_all_lem :
    (cs : List ℕ) (p : ℕ) (m : Mem)
    → p % 2 ≡ 0
    → (s : Screen) × (put_all cs (record { mem = m; cursor = p; cleared = true }) ≡ some s)
      × Printed m p cs s
unfolding put_all Option.bind
put_all_lem [] p m even = (_, refl, (refl, refl, tt, λ a h. refl))
put_all_lem (c ∷ cs) p m even =
    let s₁ = printed c (record { mem = m; cursor = p; cleared = true }) in
    let even' : advance p c % 2 ≡ 0 = ground (arith, even) in
    let (s, all, prints) = put_all_lem cs (advance p c) s₁.mem even' in
    (s, rw (put_one_lem c p m even) all, Printed-cons c cs p m s prints)

ensure_cleared_lem : (s : Screen) → (ensure_cleared s).cleared ≡ true
unfolding ensure_cleared cls
ensure_cleared_lem s = elim (Bool-cases s.cleared) [ inl e ↦ rw e refl | inr e ↦ rw e refl ]

-- The cursor of the screen, which is cleared first where it has not been, is at a cell. Then `puts`
-- returns: the fuel for a line's end is enough. Each character but a newline stands at its place, a
-- newline moves to the first start of a line that is not before the cursor, and the cursor is behind the
-- last character. No other byte of the screen, as it is after that clearing, changes: no cell that a
-- newline skips, and no attribute.
pub puts_lem :
    (cs : List ℕ) (s : Screen)
    → (ensure_cleared s).cursor % 2 ≡ 0
    → (s' : Screen) × (puts cs s ≡ some s')
      × Printed (ensure_cleared s).mem (ensure_cleared s).cursor cs s'
unfolding puts
puts_lem cs s even =
    let t = ensure_cleared s in
    subst
      (λ b.
        (s' : Screen) × (put_all cs (record { mem = t.mem; cursor = t.cursor; cleared = b })
          ≡ some s')
        × Printed t.mem t.cursor cs s')
      (sym (ensure_cleared_lem s)) (put_all_lem cs t.cursor t.mem even)
