-- ===== src/Start/Programs.antt =====
-- The list of programs of prgm/start/src/start.c.
use mathlib.Core.Option
use frosk.Prelude.{
  ℕ, zero, suc, ◌+◌, ◌-◌, ◌≤◌, ◌<◌, ◌≡◌, refl, ap, ◌∙◌, Bool, true, false, not, ◌&&◌, some, List,
  [], ◌∷◌, ◌++◌, ◌==◌, length, arith, append_assoc, append-nil, length-append,
}
use frosk.Cstd.Ctype.{isspace}
use frosk.Start.{skip_spaces, skip_line, run_from, main}

-- a line of the list
pub data Line : Type 0 where
  program : List ℕ → Line
  comment : List ℕ → Line

abbrev pub All : (ℕ → Bool) → List ℕ → Type 0
All p [] = Unit
All p (c ∷ cs) = (p c ≡ true) × All p cs

abbrev pub in_name : ℕ → Bool
in_name c = not (c == b'#') && not (isspace c)

abbrev pub in_comment : ℕ → Bool
in_comment c = not (c == 0x0a)

-- a name has a character, and neither a space nor a '#'
abbrev pub AreLines : List Line → Type 0
AreLines [] = Unit
AreLines (program [] ∷ ls) = ⊥
AreLines (program (c ∷ s) ∷ ls) = All in_name (c ∷ s) × AreLines ls
AreLines (comment s ∷ ls) = All in_comment s × AreLines ls

abbrev pub print : List Line → List ℕ → List ℕ
print [] last = last
print (program s ∷ ls) last = s ++ (0x0a ∷ print ls last)
print (comment s ∷ ls) last = b'#' ∷ (s ++ (0x0a ∷ print ls last))

abbrev pub names : List Line → List (List ℕ)
names [] = []
names (program s ∷ ls) = s ∷ names ls
names (comment s ∷ ls) = names ls

newline_space : isspace 0x0a ≡ true
unfolding isspace
newline_space = refl

hash_no_space : isspace b'#' ≡ false
unfolding isspace
hash_no_space = refl

in_name-tests : (c : ℕ) → in_name c ≡ true → ((c == b'#') ≡ false) × (isspace c ≡ false)
in_name-tests c h = ground (arith, h)

-- a line begins with no space
skip_spaces-print :
    (ls : List Line) (last : List ℕ)
    → AreLines ls
    → All in_name last
    → skip_spaces (print ls last) ≡ print ls last
unfolding skip_spaces
skip_spaces-print [] [] h k = refl
skip_spaces-print [] (c ∷ s) h (k, ks) = rw (in_name-tests c k).1 refl
skip_spaces-print (program [] ∷ ls) last h k = absurd h
skip_spaces-print (program (c ∷ s) ∷ ls) last ((h, hs), more) k = rw (in_name-tests c h).1 refl
skip_spaces-print (comment s ∷ ls) last h k = rw hash_no_space refl

skip_spaces-newline :
    (ls : List Line) (last : List ℕ)
    → AreLines ls
    → All in_name last
    → skip_spaces (0x0a ∷ print ls last) ≡ print ls last
unfolding skip_spaces
skip_spaces-newline ls last h k = rw newline_space (skip_spaces-print ls last h k)

skip_line-append :
    (s rest : List ℕ) → All in_comment s → skip_line (s ++ (0x0a ∷ rest)) ≡ some (0x0a ∷ rest)
unfolding skip_line
skip_line-append [] rest h = refl
skip_line-append (c ∷ s) rest (h, hs) =
    let other : (c == 0x0a) ≡ false = ground (arith, h) in rw other (skip_line-append s rest hs)

-- a name is collected, and run at the line's end
run_from-name :
    (s start : List ℕ) (fuel : ℕ) (ls : List Line) (last : List ℕ) (out : List (List ℕ))
    → All in_name s
    → AreLines ls
    → All in_name last
    → run_from fuel [] (print ls last) ≡ some out
    → run_from (length s + suc fuel) start (s ++ (0x0a ∷ print ls last)) ≡ some ((start ++ s) ∷ out)
unfolding run_from
run_from-name [] start fuel ls last out h good k e =
    let n : 0 + suc fuel ≡ suc fuel = omega arith in
    rw n (rw newline_space (rw (skip_spaces-print ls last good k) (rw (e, append-nil start) refl)))
run_from-name (c ∷ s) start fuel ls last out (h, hs) good k e =
    let n : suc (length s) + suc fuel ≡ suc (length s + suc fuel) = omega arith in
    let (hash, space) = in_name-tests c h in
    let ih = run_from-name s (start ++ (c ∷ [])) fuel ls last out hs good k e in
    rw n
      (rw (hash, space) (ih ∙ ap (λ (l : List ℕ). some (l ∷ out)) (append_assoc start (c ∷ []) s)))

-- a name with nothing behind it is not run
run_from-last :
    (s start : List ℕ) (fuel : ℕ)
    → All in_name s
    → length s < fuel
    → run_from fuel start s ≡ some []
unfolding run_from
run_from-last s start zero h le = absurd (omega (arith, le))
run_from-last [] start (suc fuel) h le = refl
run_from-last (c ∷ s) start (suc fuel) (h, hs) le =
    let (hash, space) = in_name-tests c h in
    rw (hash, space) (run_from-last s (start ++ (c ∷ [])) fuel hs (omega (arith, le)))

-- the steps that lines take
abbrev cost : List Line → List ℕ → ℕ
cost [] last = suc (length last)
cost (program s ∷ ls) last = length s + suc (cost ls last)
cost (comment s ∷ ls) last = suc (cost ls last)

run_from-print :
    (ls : List Line) (last : List ℕ) (fuel : ℕ)
    → AreLines ls
    → All in_name last
    → cost ls last ≤ fuel
    → run_from fuel [] (print ls last) ≡ some (names ls)
unfolding run_from Option.bind
run_from-print [] last fuel h k le = run_from-last last [] fuel k (omega (arith, le))
run_from-print (program [] ∷ ls) last fuel h k le = absurd h
run_from-print (program (c ∷ s) ∷ ls) last fuel (h, more) k le =
    let left = fuel - length (c ∷ s) - 1 in
    let n : fuel ≡ length (c ∷ s) + suc left = omega (arith, le) in
    rw n (
      run_from-name (c ∷ s) [] left ls last (names ls) h more k
        (run_from-print ls last left more k (omega (arith, le))))
run_from-print (comment s ∷ ls) last zero h k le = absurd (omega (arith, le))
run_from-print (comment s ∷ ls) last (suc fuel) (h, more) k le =
    rw (skip_line-append (b'#' ∷ s) (print ls last) (refl, h)) (
      rw (skip_spaces-newline ls last more k)
        (run_from-print ls last fuel more k (omega (arith, le))))

cost-print : (ls : List Line) (last : List ℕ) → cost ls last ≤ suc (length (print ls last))
cost-print [] last = omega arith
cost-print (program s ∷ ls) last =
    let e = length-append s (0x0a ∷ print ls last) in omega (arith, e, cost-print ls last)
cost-print (comment s ∷ ls) last =
    let e = length-append s (0x0a ∷ print ls last) in omega (arith, e, cost-print ls last)

-- The list holds names with neither a space nor a '#', and comments, each on a line of its own, and
-- behind them a last name, or nothing, with no line end. Then `main` runs the programs of the names on
-- the lines, all and in their order, and not the last one.
pub main-print :
    (ls : List Line) (last : List ℕ)
    → AreLines ls
    → All in_name last
    → main (print ls last) ≡ some (names ls)
unfolding main
main-print ls last h k =
    rw (skip_spaces-print ls last h k)
      (run_from-print ls last (suc (length (print ls last))) h k (cost-print ls last))
