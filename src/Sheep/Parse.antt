-- ===== src/Sheep/Parse.antt =====
-- lib/sheep/src/parse.c: the statements of a script, and its comments. A buffer is the list of the
-- characters from the pointer to the 0, which the list leaves out; `ln` is the line that is counted. `none`
-- is fuel that ran out, and in `remove_comments` a read behind the 0. `realloc` is a standard one, which makes
-- a block of NULL, and a text in double quotes, behind which the code writes no 0, ends where it was read to.
pub mod Args
pub mod Escape
pub mod Print
pub mod Comments
mod Examples
use mathlib.Core.Option
use frosk.Prelude.{
  ℕ, zero, suc, ◌+◌, ◌-◌, Bool, true, false, not, ◌&&◌, ◌||◌, Option, none, some, List, [], ◌∷◌,
  ◌++◌, ◌==◌, if◌then◌else◌, length, drop,
}
use frosk.Cstd.Ctype.{isspace, isalpha, isdigit}

unfoldable pub ignore_spaces : List ℕ → ℕ → List ℕ × ℕ
ignore_spaces [] ln = ([], ln)
ignore_spaces (c ∷ cs) ln =
    let rest = ignore_spaces cs (if c == 0x0a then ln + 1 else ln) in
    if isspace c then rest else (c ∷ cs, ln)

unfoldable pub isspec : ℕ → List ℕ → Bool
isspec c [] = false
isspec c (s ∷ ss) = if s == c then true else isspec c ss

-- "$@._"
unfoldable pub isch1 : ℕ → Bool
unfolding isalpha isdigit isspec
isch1 c = isalpha c || isdigit c || isspec c (b'$' ∷ b'@' ∷ b'.' ∷ b'_' ∷ [])

-- "=-+*/<>%^&|!?:"
unfoldable pub isch2 : ℕ → Bool
unfolding isspec
isch2 c = isspec c (
    b'=' ∷ b'-' ∷ b'+' ∷ b'*' ∷ b'/' ∷ b'<' ∷ b'>' ∷ b'%' ∷ b'^' ∷ b'&' ∷ b'|' ∷ b'!' ∷ b'?' ∷ b':'
    ∷ [])

-- the characters up to the first that fails the test, and the rest
unfoldable pub span : (ℕ → Bool) → List ℕ → List ℕ × List ℕ
span p [] = ([], [])
span p (c ∷ cs) = let (s, r) = span p cs in if p c then (c ∷ s, r) else ([], c ∷ cs)

abbrev pub quote : ℕ
quote = 0x27

abbrev pub double_quote : ℕ
double_quote = 0x22

abbrev pub backslash : ℕ
backslash = 0x5c

-- the end of a string in double quotes, by the character before
unfoldable pub ends_string : ℕ → ℕ → Bool
ends_string prev c = (c == double_quote) && not (prev == backslash)

unfoldable pub after_string : ℕ → List ℕ → List ℕ
after_string prev [] = []
after_string prev (c ∷ cs) =
    let rest = after_string c cs in if ends_string prev c then c ∷ cs else rest

-- the character that a backslash stands before
unfoldable pub escaped : ℕ → ℕ
escaped c = if c == b'n' then 0x0a else if c == b't' then 0x09 else if c == b'r' then 0x0d else c

-- the characters of a string in double quotes
unfoldable pub unescape : ℕ → List ℕ → List ℕ
unescape prev [] = []
unescape prev (c ∷ []) = if ends_string prev c then [] else if c == backslash then [] else c ∷ []
unescape prev (c ∷ d ∷ cs) =
    let after = unescape d cs in
    let next = unescape c (d ∷ cs) in
    if ends_string prev c then [] else if c == backslash then escaped d ∷ after else c ∷ next

-- an argument at the start of the buffer, and the rest
unfoldable pub next_arg : List ℕ → List ℕ × List ℕ
next_arg [] = ([], [])
next_arg (c ∷ cs) =
    let (s, r) = span (λ d. not (d == quote)) cs in
    if isch1 c
    then span isch1 (c ∷ cs)
    else if isch2 c
    then span isch2 (c ∷ cs)
    else if c == quote
    then (s, drop 1 r)
    else if c == double_quote
    then (unescape double_quote cs, drop 1 (after_string double_quote cs))
    else (c ∷ [], cs)

-- the loop of `next_statement`: the arguments, the buffer and the line
unfoldable pub next_args : ℕ → List ℕ → ℕ → Option (List (List ℕ) × List ℕ × ℕ)
next_args zero buf ln = none
next_args (suc fuel) [] ln = some ([], [], ln)
next_args (suc fuel) (c ∷ cs) ln =
    let (a, r) = next_arg (c ∷ cs) in
    let (r', ln') = ignore_spaces r ln in
    let more = Option.map (λ (argv, buf, l). (a ∷ argv, buf, l)) (next_args fuel r' ln') in
    if c == b';' then some ([], c ∷ cs, ln) else more

unfoldable pub next_statement : List ℕ → ℕ → Option (List (List ℕ) × List ℕ × ℕ)
next_statement pbuf ln =
    let (buf, ln') = ignore_spaces pbuf ln in
    Option.map (λ (argv, r, l). (argv, drop 1 r, l)) (next_args (suc (length buf)) buf ln')

-- the buffer from a '#' on, after d characters were to be taken out: those behind are copied to the front,
-- the 0 is not
abbrev pub shift_down : ℕ → List ℕ → List ℕ
shift_down d buf = drop d buf ++ drop (length buf - d) buf

unfoldable pub remove_from : ℕ → List ℕ → Option (List ℕ)
remove_from fuel [] = some []
remove_from zero (c ∷ cs) = none
remove_from (suc fuel) (c ∷ cs) =
    let (comment, r) = span (λ d. not (d == 0x0a)) (c ∷ cs) in
    let kept = Option.map (λ buf. c ∷ buf) (remove_from fuel cs) in
    let shifted = shift_down (length comment) (c ∷ cs) in
    let removed = Option.map (λ buf. 0x0a ∷ buf) (remove_from fuel (drop 1 shifted)) in
    if not (c == b'#') then kept else if length r == 0 then none else removed

unfoldable pub remove_comments : List ℕ → Option (List ℕ)
remove_comments buf = remove_from (length buf) buf
