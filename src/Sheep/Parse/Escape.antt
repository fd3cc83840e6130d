-- ===== src/Sheep/Parse/Escape.antt =====
-- Texts in double quotes, of lib/sheep/src/parse.c.
use frosk.Prelude.{
  ℕ, ◌≡◌, ◌≢◌, refl, ap, ap₂, sym, subst, ◌∙◌, false, List, [], ◌∷◌, ◌++◌, ◌==◌, if◌then◌else◌,
  arith, Bool-cases, inl, inr,
}
use frosk.Sheep.Parse.{after_string, ends_string, double_quote, backslash, unescape, escaped}

-- backslashes before quotes and backslashes, and for the end of a line
abbrev pub escape : List ℕ → List ℕ
escape [] = []
escape (c ∷ cs) =
    if c == double_quote
    then backslash ∷ double_quote ∷ escape cs
    else if c == backslash
    then backslash ∷ backslash ∷ escape cs
    else if c == 0x0a
    then backslash ∷ b'n' ∷ escape cs
    else c ∷ escape cs

abbrev pub last_or : ℕ → List ℕ → ℕ
last_or d [] = d
last_or d (c ∷ cs) = last_or c cs

pub last_or-other :
    (s : List ℕ) (c d : ℕ) → last_or c s ≢ backslash → d ≢ backslash → last_or d s ≢ backslash
last_or-other [] c d h e = e
last_or-other (a ∷ s) c d h e = h

-- one step over a plain character, and over an escaped one
unescape-plain :
    (l : List ℕ) (prev c : ℕ)
    → (c == double_quote) ≡ false
    → (c == backslash) ≡ false
    → unescape prev (c ∷ l) ≡ c ∷ unescape c l
unfolding unescape ends_string
unescape-plain [] prev c h e = rw (h, e) refl
unescape-plain (d ∷ l) prev c h e = rw (h, e) refl

unescape-backslash :
    (l : List ℕ) (prev d : ℕ) → unescape prev (backslash ∷ d ∷ l) ≡ escaped d ∷ unescape d l
unfolding unescape ends_string
unescape-backslash l prev d = refl

after_string-plain :
    (l : List ℕ) (prev c : ℕ)
    → (c == double_quote) ≡ false
    → after_string prev (c ∷ l) ≡ after_string c l
unfolding after_string ends_string
after_string-plain l prev c h = rw h refl

after_string-backslash :
    (l : List ℕ) (prev d : ℕ) → after_string prev (backslash ∷ d ∷ l) ≡ after_string d l
unfolding after_string ends_string
after_string-backslash l prev d = ground arith

unescape-end :
    (r : List ℕ) (prev : ℕ)
    → (prev == backslash) ≡ false
    → (unescape prev (double_quote ∷ r) ≡ [])
      × (after_string prev (double_quote ∷ r) ≡ double_quote ∷ r)
unfolding unescape after_string ends_string
unescape-end [] prev h = rw h (refl, refl)
unescape-end (d ∷ r) prev h = rw h (refl, refl)

closes : (prev : ℕ) → prev ≢ backslash → (prev == backslash) ≡ false
closes prev h = ground (arith, h)

escaped-double_quote : escaped double_quote ≡ double_quote
unfolding escaped
escaped-double_quote = refl

escaped-backslash : escaped backslash ≡ backslash
unfolding escaped
escaped-backslash = refl

escaped-n : escaped b'n' ≡ 0x0a
unfolding escaped
escaped-n = refl

-- the escaped text is read back up to the closing quote
pub unescape-escape :
    (s : List ℕ) (prev : ℕ) (r : List ℕ)
    → last_or prev s ≢ backslash
    → (unescape prev (escape s ++ (double_quote ∷ r)) ≡ s)
      × (after_string prev (escape s ++ (double_quote ∷ r)) ≡ double_quote ∷ r)
unescape-escape [] prev r h = unescape-end r prev (closes prev h)
unescape-escape (c ∷ s) prev r h = elim (Bool-cases (c == double_quote)) [
  | inl e ↦
      let at : c ≡ double_quote = ground (arith, e) in
      let (ih, after) =
        unescape-escape s double_quote r (last_or-other s c double_quote h (omega arith)) in
      rw e (
        unescape-backslash _ prev double_quote
            ∙ ap₂ (λ (x : ℕ) (l : List ℕ). x ∷ l) (escaped-double_quote ∙ sym at) ih,
        after_string-backslash _ prev double_quote ∙ after,
      )
  | inr e ↦ elim (Bool-cases (c == backslash)) [
    | inl f ↦
        let at : c ≡ backslash = ground (arith, f) in
        let (ih, after) =
          unescape-escape s backslash r (subst (λ x. last_or x s ≢ backslash) at h) in
        rw (e, f)
          (
            unescape-backslash _ prev backslash
                ∙ ap₂ (λ (x : ℕ) (l : List ℕ). x ∷ l) (escaped-backslash ∙ sym at) ih,
            after_string-backslash _ prev backslash ∙ after,
          )
    | inr f ↦ elim (Bool-cases (c == 0x0a)) [
      | inl g ↦
          let at : c ≡ 0x0a = ground (arith, g) in
          let (ih, after) = unescape-escape s b'n' r (last_or-other s c b'n' h (omega arith)) in
          rw (e, f, g)
            (
              unescape-backslash _ prev b'n'
                  ∙ ap₂ (λ (x : ℕ) (l : List ℕ). x ∷ l) (escaped-n ∙ sym at) ih,
              after_string-backslash _ prev b'n' ∙ after,
            )
      | inr g ↦
          let (ih, after) = unescape-escape s c r h in
          rw (e, f, g)
            (
              unescape-plain _ prev c e f ∙ ap (λ (l : List ℕ). c ∷ l) ih,
              after_string-plain _ prev c e ∙ after,
            )
    ]
  ]
]
