-- ===== src/Sheep/Parse/Print.antt =====
-- What `next_statement` of lib/sheep/src/parse.c reads from a statement that is written out.
use frosk.Prelude.{
  ℕ, zero, suc, ◌≤◌, ◌<◌, ◌≡◌, ◌≢◌, refl, subst, Bool, true, false, not, some, List, [], ◌∷◌, ◌++◌,
  ◌==◌, length, map, arith, append_assoc, length-append,
}
use frosk.Cstd.Ctype.{isspace, isalpha, isdigit, isupper, islower}
use frosk.Sheep.Parse.{
  ignore_spaces, isspec, isch1, isch2, span, next_arg, next_args, next_statement, double_quote,
  quote, backslash,
}
use frosk.Sheep.Parse.Escape.{escape, last_or, last_or-other, unescape-escape}

-- an argument as it may be written
pub data Arg : Type 0 where
  word : List ℕ → Arg
  oper : List ℕ → Arg
  single : List ℕ → Arg
  double : List ℕ → Arg

abbrev pub text : Arg → List ℕ
text (word s) = s
text (oper s) = s
text (single s) = s
text (double s) = s

abbrev pub print : Arg → List ℕ
print (word s) = s
print (oper s) = s
print (single s) = quote ∷ (s ++ (quote ∷ []))
print (double s) = double_quote ∷ (escape s ++ (double_quote ∷ []))

-- arguments with a space behind each, and a semicolon
abbrev pub print_all : List Arg → List ℕ → List ℕ
print_all [] rest = b';' ∷ rest
print_all (a ∷ as') rest = print a ++ (0x20 ∷ print_all as' rest)

abbrev pub All : (ℕ → Bool) → List ℕ → Type 0
All p [] = Unit
All p (c ∷ cs) = (p c ≡ true) × All p cs

-- A word is of letters, digits and `$@._`, an operator of the other signs; both have a character. What
-- stands in single quotes has none inside, and in double quotes does not end in a backslash.
abbrev pub IsArg : Arg → Type 0
IsArg (word s) = (0 < length s) × All isch1 s
IsArg (oper s) = (0 < length s) × All isch2 s
IsArg (single s) = All (λ d. not (d == quote)) s
IsArg (double s) = last_or 0 s ≢ backslash

abbrev pub AreArgs : List Arg → Type 0
AreArgs [] = Unit
AreArgs (a ∷ as') = IsArg a × AreArgs as'

-- a span ends where the test fails first
pub span-append :
    (p : ℕ → Bool) (s : List ℕ) (c : ℕ) (r : List ℕ)
    → All p s
    → p c ≡ false
    → span p (s ++ (c ∷ r)) ≡ (s, c ∷ r)
unfolding span
span-append p [] c r h e = rw e refl
span-append p (a ∷ s) c r (h, hs) e = rw h (rw (span-append p s c r hs e) refl)

-- none of the signs that end a word or an operator is one
isch1_space : isch1 0x20 ≡ false
unfolding isch1 isalpha isupper islower isdigit isspec
isch1_space = refl

isch2_space : isch2 0x20 ≡ false
unfolding isch2 isspec
isch2_space = refl

isch1_quotes :
    (isch1 quote ≡ false)
    × (isch2 quote ≡ false)
    × (isch1 double_quote ≡ false)
    × (isch2 double_quote ≡ false)
unfolding isch1 isch2 isalpha isupper islower isdigit isspec
isch1_quotes = (refl, refl, refl, refl)

-- a character that begins an argument is not a space or a semicolon
isch1-starts : (c : ℕ) → isch1 c ≡ true → (isspace c ≡ false) × ((c == b';') ≡ false)
unfolding isch1 isspace isalpha isupper islower isdigit isspec
isch1-starts c h = ground (arith, h)

isch2-starts :
    (c : ℕ) → isch2 c ≡ true → (isspace c ≡ false) × ((c == b';') ≡ false) × (isch1 c ≡ false)
unfolding isch1 isch2 isspace isalpha isupper islower isdigit isspec
isch2-starts c h = ground (arith, h)

-- what stands behind an argument: it is taken up to there
next_arg-print :
    (a : Arg) (rest : List ℕ)
    → IsArg a
    → next_arg (print a ++ (0x20 ∷ rest)) ≡ (text a, 0x20 ∷ rest)
unfolding next_arg
next_arg-print (word []) rest (le, h) = absurd (omega (arith, le))
next_arg-print (word (c ∷ s)) rest (le, h) =
    rw h.0 (span-append isch1 (c ∷ s) 0x20 rest h isch1_space)
next_arg-print (oper []) rest (le, h) = absurd (omega (arith, le))
next_arg-print (oper (c ∷ s)) rest (le, h) =
    let (sp, semi, other) = isch2-starts c h.0 in
    rw (other, h.0) (span-append isch2 (c ∷ s) 0x20 rest h isch2_space)
next_arg-print (single s) rest h =
    let (q, q', d, d') = isch1_quotes in
    let e = append_assoc s (quote ∷ []) (0x20 ∷ rest) in
    rw (q, q') (rw e (rw (span-append (λ d. not (d == quote)) s quote (0x20 ∷ rest) h refl) refl))
next_arg-print (double s) rest h =
    let (q, q', d, d') = isch1_quotes in
    let e = append_assoc (escape s) (double_quote ∷ []) (0x20 ∷ rest) in
    let (ih, after) =
      unescape-escape s double_quote (0x20 ∷ rest)
        (last_or-other s 0 double_quote h (omega arith)) in
    rw (d, d') (rw e (rw (ih, after) refl))

quotes_start :
    (isspace quote ≡ false)
    × ((quote == b';') ≡ false)
    × (isspace double_quote ≡ false)
    × ((double_quote == b';') ≡ false)
unfolding isspace
quotes_start = (refl, refl, refl, refl)

-- an argument begins with a character that is no space and no semicolon
print-starts :
    (a : Arg)
    → IsArg a
    → (c : ℕ) × (s : List ℕ) × (print a ≡ c ∷ s) × (isspace c ≡ false) × ((c == b';') ≡ false)
print-starts (word []) (le, h) = absurd (omega (arith, le))
print-starts (word (c ∷ s)) (le, h) = let (p, q) = isch1-starts c h.0 in (c, s, refl, p, q)
print-starts (oper []) (le, h) = absurd (omega (arith, le))
print-starts (oper (c ∷ s)) (le, h) = let (p, q, r) = isch2-starts c h.0 in (c, s, refl, p, q)
print-starts (single s) h = let (p, q, p', q') = quotes_start in (quote, _, refl, p, q)
print-starts (double s) h = let (p, q, p', q') = quotes_start in (double_quote, _, refl, p', q')

semicolon_start : isspace b';' ≡ false
unfolding isspace
semicolon_start = refl

space_start : isspace 0x20 ≡ true
unfolding isspace
space_start = refl

-- a statement begins with no space
ignore_spaces-print :
    (as' : List Arg) (rest : List ℕ) (ln : ℕ)
    → AreArgs as'
    → ignore_spaces (print_all as' rest) ln ≡ (print_all as' rest, ln)
unfolding ignore_spaces
ignore_spaces-print [] rest ln h = rw semicolon_start refl
ignore_spaces-print (a ∷ as') rest ln (h, hs) =
    let (c, s, e, sp, semi) = print-starts a h in rw e (rw sp refl)

ignore_spaces-space :
    (as' : List Arg) (rest : List ℕ) (ln : ℕ)
    → AreArgs as'
    → ignore_spaces (0x20 ∷ print_all as' rest) ln ≡ (print_all as' rest, ln)
unfolding ignore_spaces
ignore_spaces-space as' rest ln h = rw space_start (ignore_spaces-print as' rest ln h)

next_args-print :
    (as' : List Arg) (fuel : ℕ) (rest : List ℕ) (ln : ℕ)
    → AreArgs as'
    → length as' < fuel
    → next_args fuel (print_all as' rest) ln ≡ some (map text as', b';' ∷ rest, ln)
unfolding next_args
next_args-print as' zero rest ln h le = absurd (omega (arith, le))
next_args-print [] (suc fuel) rest ln h le = refl
next_args-print (a ∷ as') (suc fuel) rest ln (h, hs) le =
    let (c, s, e, sp, semi) = print-starts a h in
    let more = print_all as' rest in
    let arg : next_arg (c ∷ (s ++ (0x20 ∷ more))) ≡ (text a, 0x20 ∷ more) =
      subst (λ (l : List ℕ). next_arg (l ++ (0x20 ∷ more)) ≡ (text a, 0x20 ∷ more)) e
        (next_arg-print a more h) in
    let ih = next_args-print as' fuel rest ln hs (omega (arith, le)) in
    rw e (rw (semi, arg) (rw (ignore_spaces-space as' rest ln hs) (rw ih refl)))

print_all-length : (as' : List Arg) (rest : List ℕ) → length as' ≤ length (print_all as' rest)
print_all-length [] rest = omega arith
print_all-length (a ∷ as') rest =
    let e = length-append (print a) (0x20 ∷ print_all as' rest) in
    omega (arith, e, print_all-length as' rest)

-- A statement is written as its arguments with a space behind each and a semicolon: words, operators,
-- texts in single quotes that have none inside, and texts in double quotes, escaped, that do not end in
-- a backslash. Then `next_statement` returns the texts of the arguments in order, the buffer behind the
-- semicolon, and the line as it was.
pub next_statement-print :
    (as' : List Arg) (rest : List ℕ) (ln : ℕ)
    → AreArgs as'
    → next_statement (print_all as' rest) ln ≡ some (map text as', rest, ln)
unfolding next_statement
next_statement-print as' rest ln h = rw (ignore_spaces-print as' rest ln h) (
    rw
      (next_args-print as' (suc (length (print_all as' rest))) rest ln h
        (omega (arith, print_all-length as' rest)))
      refl)
