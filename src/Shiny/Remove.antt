-- ===== src/Shiny/Remove.antt =====
-- Things that are taken out of a container of lib/shiny/src/shiny_container.c.
use mathlib.Core.Option
use frosk.Prelude.{
  Bool-cases, inl, inr, ℕ, ◌≡◌, ◌≢◌, refl, ap, ◌∙◌, true, false, none, some, List, [], ◌∷◌, ◌++◌,
  ◌==◌, arith,
}
use frosk.Shiny.{
  closed, add_last, container_add_thingy, remove_behind, remove_thing, container_remove_thingy,
}

-- the thing is not among them
abbrev pub Absent : ℕ → List ℕ → Type 0
Absent t [] = Unit
Absent t (u ∷ us) = (u ≢ t) × Absent t us

other : (t u : ℕ) → u ≢ t → (u == t) ≡ false
other t u ne = ground (arith, ne)

remove_behind-Absent :
    (a : ℕ) (s : List ℕ) (t : ℕ) → Absent t s → remove_behind (a ∷ s) t ≡ some (a ∷ s)
unfolding remove_behind
remove_behind-Absent a [] t h = refl
remove_behind-Absent a (u ∷ s) t (ne, h) = rw (other t u ne, remove_behind-Absent u s t h) refl

-- in the middle, and at the end
remove_behind-middle :
    (s : List ℕ) (a t b : ℕ) (r : List ℕ)
    → Absent t s
    → Absent t r
    → remove_behind (a ∷ (s ++ (t ∷ b ∷ r))) t ≡ some (a ∷ (s ++ (b ∷ r)))
unfolding remove_behind
remove_behind-middle [] a t b r h k =
    let same : (t == t) ≡ true = ground arith in rw (same, remove_behind-Absent b r t k) refl
remove_behind-middle (u ∷ s) a t b r (ne, h) k =
    rw (other t u ne, remove_behind-middle s u t b r h k) refl

remove_behind-last :
    (s : List ℕ) (a t : ℕ) → Absent t s → remove_behind (a ∷ (s ++ (t ∷ []))) t ≡ none
unfolding remove_behind
remove_behind-last [] a t h = let same : (t == t) ≡ true = ground arith in rw same refl
remove_behind-last (u ∷ s) a t (ne, h) = rw (other t u ne, remove_behind-last s u t h) refl

remove_thing-remove_behind :
    (a : ℕ) (s : List ℕ) (t : ℕ) (r : List ℕ)
    → remove_thing (a ∷ (s ++ (t ∷ r))) t ≡ remove_behind (a ∷ (s ++ (t ∷ r))) t
unfolding remove_thing
remove_thing-remove_behind a [] t r = refl
remove_thing-remove_behind a (u ∷ s) t r = refl

add_last-append : (s : List ℕ) (t : ℕ) → add_last s t ≡ s ++ (t ∷ [])
unfolding add_last
add_last-append [] t = refl
add_last-append (u ∷ s) t = ap (λ (l : List ℕ). u ∷ l) (add_last-append s t)

-- whether or not the list of the last thing ends, it cannot be removed
remove-last :
    (a : ℕ) (s : List ℕ) (t fresh : ℕ)
    → Absent t s
    → container_remove_thingy (add_last (a ∷ s) t, fresh) t ≡ none
unfolding container_remove_thingy
remove-last a s t fresh h =
    let e : remove_thing (add_last (a ∷ s) t) t ≡ none =
      ap (λ (l : List ℕ). remove_thing l t) (add_last-append (a ∷ s) t)
      ∙ remove_thing-remove_behind a s t []
      ∙ remove_behind-last s a t h in
    elim (Bool-cases (closed (add_last (a ∷ s) t, fresh))) [
      | inl c ↦ rw c (rw e refl)
      | inr c ↦ rw c refl
    ]

-- A container has several things, in a list that ends, and one of them, behind the first, once. Then
-- `container_remove_thingy` takes it out where another thing follows it, and the others keep their
-- order. A thing that `container_add_thingy` has added cannot be taken out: whatever malloc left in its
-- `next`, the call reads at NULL, or where that leads.
pub container_remove_thingy_lem :
    (a : ℕ) (s : List ℕ) (t b : ℕ) (r : List ℕ) (fresh : ℕ)
    → Absent t s
    → b ≢ t
    → Absent t r
    → (container_remove_thingy (a ∷ (s ++ (t ∷ b ∷ r)), 0) t ≡ some (a ∷ (s ++ (b ∷ r)), 0))
      × (Option.bind
            (container_add_thingy fresh (a ∷ s, 0) t)
            (λ things. container_remove_thingy things t)
          ≡ none)
unfolding container_remove_thingy container_add_thingy Option.bind
container_remove_thingy_lem a s t b r fresh h ne k = (
  rw (remove_thing-remove_behind a s t (b ∷ r)) (rw (remove_behind-middle s a t b r h k) refl),
  remove-last a s t fresh h,
)
