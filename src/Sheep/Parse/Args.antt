-- ===== src/Sheep/Parse/Args.antt =====
-- `next_statement` of lib/sheep/src/parse.c returns on every buffer.
use frosk.Prelude.{
  ℕ, zero, suc, ◌+◌, ◌≤◌, ◌<◌, ◌≡◌, refl, Bool, true, not, some, List, [], ◌∷◌, ◌==◌, if◌then◌else◌,
  length, drop, arith, Bool-cases, inl, inr,
}
use frosk.Sheep.Parse.{
  ignore_spaces, isch1, isch2, span, after_string, next_arg, next_args, next_statement,
  double_quote, quote,
}

ignore_spaces-length : (cs : List ℕ) (ln : ℕ) → length (ignore_spaces cs ln).0 ≤ length cs
unfolding ignore_spaces
ignore_spaces-length [] ln = omega arith
ignore_spaces-length (c ∷ cs) ln =
    let e = ignore_spaces-length cs (if c == 0x0a then ln + 1 else ln) in ground (arith, e)

span-length : (p : ℕ → Bool) (cs : List ℕ) → length (span p cs).1 ≤ length cs
unfolding span
span-length p [] = omega arith
span-length p (c ∷ cs) = let e = span-length p cs in ground (arith, e)

-- a span that takes the first character
span-less :
    (p : ℕ → Bool) (c : ℕ) (cs : List ℕ) → p c ≡ true → length (span p (c ∷ cs)).1 ≤ length cs
unfolding span
span-less p c cs h = rw h (span-length p cs)

after_string-length : (prev : ℕ) (cs : List ℕ) → length (after_string prev cs) ≤ length cs
unfolding after_string
after_string-length prev [] = omega arith
after_string-length prev (c ∷ cs) = let e = after_string-length c cs in ground (arith, e)

drop-length : (cs : List ℕ) → length (drop 1 cs) ≤ length cs
drop-length [] = omega arith
drop-length (c ∷ cs) = omega arith

-- an argument takes one character at least
next_arg-less : (c : ℕ) (cs : List ℕ) → length (next_arg (c ∷ cs)).1 ≤ length cs
unfolding next_arg
next_arg-less c cs = elim (Bool-cases (isch1 c)) [
  | inl e ↦ rw e (span-less isch1 c cs e)
  | inr e ↦ elim (Bool-cases (isch2 c)) [
    | inl f ↦ rw (e, f) (span-less isch2 c cs f)
    | inr f ↦
        let q = span-length (λ d. not (d == quote)) cs in
        let r = drop-length (span (λ d. not (d == quote)) cs).1 in
        let s = after_string-length double_quote cs in
        let t = drop-length (after_string double_quote cs) in rw (e, f) (ground (arith, q, r, s, t))
  ]
]

next_args-returns :
    (fuel : ℕ) (buf : List ℕ) (ln : ℕ)
    → length buf < fuel
    → (argv : List (List ℕ)) × (r : List ℕ) × (l : ℕ) × (next_args fuel buf ln ≡ some (argv, r, l))
unfolding next_args
next_args-returns zero buf ln le = absurd (omega (arith, le))
next_args-returns (suc fuel) [] ln le = ([], [], ln, refl)
next_args-returns (suc fuel) (c ∷ cs) ln le = elim (Bool-cases (c == b';')) [
  | inl e ↦ ([], c ∷ cs, ln, rw e refl)
  | inr e ↦
      let r = (next_arg (c ∷ cs)).1 in
      let short = ignore_spaces-length r ln in
      let (argv, buf, l, ih) =
        next_args-returns fuel (ignore_spaces r ln).0 (ignore_spaces r ln).1
          (omega (arith, short, next_arg-less c cs, le)) in
      ((next_arg (c ∷ cs)).0 ∷ argv, buf, l, rw (e, ih) refl)
]

-- On every buffer `next_statement` returns arguments, what is left of the buffer, and the line.
pub next_statement-returns :
    (pbuf : List ℕ) (ln : ℕ)
    → (argv : List (List ℕ)) × (r : List ℕ) × (l : ℕ) × (next_statement pbuf ln ≡ some (argv, r, l))
unfolding next_statement
next_statement-returns pbuf ln =
    let (buf, ln') = ignore_spaces pbuf ln in
    let (argv, r, l, e) = next_args-returns (suc (length buf)) buf ln' (omega arith) in
    (argv, drop 1 r, l, rw e refl)
