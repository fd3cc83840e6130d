-- ===== src/Rusk/Expanses/Handles.antt =====
-- What the operations of prgm/rusk/src/rusk.c do to the list of expanses, by their handles.
use frosk.Prelude.{
  ℕ, ◌≡◌, refl, sym, ap, ◌∙◌, Bool, true, false, ◌||◌, Option, none, some, List, [], ◌∷◌, ◌⊎◌, inl,
  inr, ◌==◌, if◌then◌else◌, arith, subst, ==_iff, Bool-cases,
}
use frosk.Rusk.Expanses.{FullExpanse, handle_of, unlink, remove_from, extract, bring_to_front}

abbrev pub has : ℕ → List FullExpanse → Bool
has e [] = false
has e (f ∷ fs) = (handle_of f == e) || has e fs

abbrev pub HasUnique : List FullExpanse → Type 0
HasUnique [] = Unit
HasUnique (f ∷ fs) = (has (handle_of f) fs ≡ false) × HasUnique fs

-- the list without the expanses of a handle
abbrev pub without : ℕ → List FullExpanse → List FullExpanse
without e [] = []
without e (f ∷ fs) = if handle_of f == e then without e fs else f ∷ without e fs

-- the first expanse of a handle
abbrev pub find : ℕ → List FullExpanse → Option FullExpanse
find e [] = none
find e (f ∷ fs) = if handle_of f == e then some f else find e fs

without-absent : (e : ℕ) (fs : List FullExpanse) → has e fs ≡ false → without e fs ≡ fs
without-absent e [] h = refl
without-absent e (f ∷ fs) h =
    let miss : (handle_of f == e) ≡ false = ground arith in
    rw miss (ap (λ gs. f ∷ gs) (without-absent e fs (ground arith)))

absent_behind :
    (e : ℕ) (f : FullExpanse) (fs : List FullExpanse)
    → HasUnique (f ∷ fs)
    → (handle_of f == e) ≡ true
    → has e fs ≡ false
absent_behind e f fs u hit = subst (λ h. has h fs ≡ false) ((==_iff (handle_of f) e).0 hit) u.0

unlink-without : (e : ℕ) (fs : List FullExpanse) → HasUnique fs → unlink e fs ≡ without e fs
unfolding unlink
unlink-without e [] u = refl
unlink-without e (f ∷ fs) u = elim (Bool-cases (handle_of f == e)) [
  | inl hit ↦ rw hit (sym (without-absent e fs (absent_behind e f fs u hit)))
  | inr miss ↦ rw miss (ap (λ gs. f ∷ gs) (unlink-without e fs u.1))
]

-- the handle is that of the front expanse, and there are more
abbrev pub front_of_many : ℕ → List FullExpanse → Bool
front_of_many e [] = false
front_of_many e (f ∷ []) = false
front_of_many e (f ∷ g ∷ fs) = handle_of f == e

-- Where no two expanses share a handle, `remove_expanse` takes out the expanse with the handle and
-- keeps the others in order, unless that is the front one of several: then it does nothing.
pub remove_from_lem :
    (e : ℕ) (fs : List FullExpanse)
    → HasUnique fs
    → remove_from e fs ≡ (if front_of_many e fs then fs else without e fs)
unfolding remove_from
remove_from_lem e [] u = refl
remove_from_lem e (f ∷ []) u = refl
remove_from_lem e (f ∷ g ∷ fs) u = elim (Bool-cases (handle_of f == e)) [
  | inl hit ↦
      let absent = absent_behind e f (g ∷ fs) u hit in
      rw hit (ap (λ gs. f ∷ gs) (unlink-without e (g ∷ fs) u.1 ∙ without-absent e (g ∷ fs) absent))
  | inr miss ↦ rw miss (ap (λ gs. f ∷ gs) (unlink-without e (g ∷ fs) u.1))
]

abbrev Extracted : ℕ → List FullExpanse → Type 0
Extracted e fs =
    ((find e fs ≡ none) × (extract e fs ≡ none) × (has e fs ≡ false))
    ⊎ ((f : FullExpanse) × (find e fs ≡ some f)
        × (extract e fs ≡ some (f, without e fs))
        × (has e fs ≡ true))

extract_lem : (e : ℕ) (fs : List FullExpanse) → HasUnique fs → Extracted e fs
unfolding extract
extract_lem e [] u = inl (refl, refl, refl)
extract_lem e (f ∷ fs) u = elim (Bool-cases (handle_of f == e)) [
  | inl hit ↦
      inr (
        f,
        rw hit refl,
        rw (hit, without-absent e fs (absent_behind e f fs u hit)) refl,
        rw hit refl,
      )
  | inr miss ↦ elim (extract_lem e fs u.1) [
    | inl (n, x, h) ↦ inl (rw miss n, rw (miss, x) refl, rw miss h)
    | inr (g, n, x, h) ↦ inr (g, rw miss n, rw (miss, x) refl, rw miss h)
  ]
]

-- Where no two expanses share a handle, `bring_expanse_to_front` puts the expanse with the handle
-- in front of the others, which keep their order; without such an expanse it does nothing.
pub bring_to_front_lem :
    (e : ℕ) (fs : List FullExpanse)
    → HasUnique fs
    → ((find e fs ≡ none) × (bring_to_front e fs ≡ fs))
      ⊎ ((f : FullExpanse) × (find e fs ≡ some f) × (bring_to_front e fs ≡ f ∷ without e fs))
unfolding bring_to_front
bring_to_front_lem e [] u = inl (refl, refl)
bring_to_front_lem e (f ∷ []) u = elim (Bool-cases (handle_of f == e)) [
  | inl hit ↦ inr (f, rw hit refl, rw hit refl)
  | inr miss ↦ inl (rw miss refl, refl)
]
bring_to_front_lem e (f ∷ g ∷ fs) u = elim (Bool-cases (handle_of f == e)) [
  | inl hit ↦
      let absent = absent_behind e f (g ∷ fs) u hit in
      elim (extract_lem e (g ∷ fs) u.1) [
        | inl (n, x, h) ↦ inr (
          f,
          rw hit refl,
          rw (x, bring_to_front, hit) (ap (λ gs. f ∷ gs) (sym (without-absent e (g ∷ fs) absent))),
        )
        | inr (first, n, x, h) ↦ cc
      ]
  | inr miss ↦ elim (extract_lem e (g ∷ fs) u.1) [
    | inl (n, x, h) ↦ inl (rw miss n, rw (x, bring_to_front) refl)
    | inr (first, n, x, h) ↦ inr (first, rw miss n, rw (x, bring_to_front, miss) refl)
  ]
]
