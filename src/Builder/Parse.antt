-- ===== src/Builder/Parse.antt =====
-- util/f301_builder/src/parse.c: the script of the file system. What is left of the script is the list
-- of its characters. `none` is a call of `error`, which ends the program, or a loop at the end of the
-- script, which does not end, or fuel that ran out; for `parse_next` it is also NULL, at the end of the
-- script. The host's `atoi` is a parameter. The count of lines, which serves the messages only, is left
-- out, and so is what `contents` holds before its field is read.
pub mod Tokens
pub mod Print
pub mod Script
mod Examples
use mathlib.Core.Option
use frosk.Prelude.{
  ℕ, zero, suc, ◌+◌, Bool, true, false, not, ◌&&◌, ◌||◌, Option, none, some, List, [], ◌∷◌, ◌++◌,
  ◌==◌, if◌then◌else◌, length, take,
}
use frosk.Cstd.Ctype.{isspace}

unfoldable pub ignore_whitespace : List ℕ → List ℕ
ignore_whitespace [] = []
ignore_whitespace (c ∷ cs) = let rest = ignore_whitespace cs in if isspace c then rest else c ∷ cs

abbrev pub expect_here : ℕ → List ℕ → Option (List ℕ)
expect_here want [] = none
expect_here want (c ∷ cs) = if c == want then some cs else none

unfoldable pub expect : ℕ → List ℕ → Option (List ℕ)
expect want cs = expect_here want (ignore_whitespace cs)

abbrev pub bufsize : ℕ
bufsize = 1024

-- the characters up to a `]`, a `,` or a `=`, and that one
unfoldable pub until_end : List ℕ → Option (List ℕ × ℕ × List ℕ)
until_end [] = none
until_end (c ∷ cs) =
    let more = Option.map (λ (s, d, r). (c ∷ s, d, r)) (until_end cs) in
    if c == b']' || c == b',' || c == b'=' then some ([], c, cs) else more

-- without the spaces at the end
abbrev pub keep : ℕ → List ℕ → List ℕ
keep c [] = if isspace c then [] else c ∷ []
keep c (d ∷ ds) = c ∷ d ∷ ds

unfoldable pub trim : List ℕ → List ℕ
trim [] = []
trim (c ∷ cs) = keep c (trim cs)

-- what `strcmp`, `strcpy` and `atoi` see of a buffer: the characters up to the first 0
unfoldable pub c_string : List ℕ → List ℕ
c_string [] = []
c_string (c ∷ cs) = if c == 0 then [] else c ∷ c_string cs

-- the token, as a C string, the character that ended it, and the rest
unfoldable pub next_token : List ℕ → Option (List ℕ × ℕ × List ℕ)
next_token cs =
    Option.map (λ (s, d, r). (c_string (trim (take 1023 s)), d, r))
      (until_end (ignore_whitespace cs))

pub data Perm : Type 0 where
  perm_none : Perm
  perm_owner : Perm
  perm_all : Perm

-- `parse_struct` less its links: `name` is not set before its field is read, and `text` is `actual` or `dest`
pub record Attributes : Type 0 where
  pub type : ℕ
  pub name : Option (List ℕ)
  pub read_perm : Perm
  pub write_perm : Perm
  pub exec_perm : Perm
  pub owner : ℕ
  pub text : Option (List ℕ)

mutual
  pub data Entry : Type 0 where
    entry : Attributes → Contents → Entry

  pub data Contents : Type 0 where
    nothing : Contents
    cons : Entry → Contents → Contents

abbrev pub equal : List ℕ → List ℕ → Bool
equal [] [] = true
equal [] (b ∷ t) = false
equal (a ∷ s) [] = false
equal (a ∷ s) (b ∷ t) = (a == b) && equal s t

-- "none", "owner" and "all"
unfoldable pub perm_of : List ℕ → Perm → Perm
perm_of s old =
    if equal s (b'n' ∷ b'o' ∷ b'n' ∷ b'e' ∷ [])
    then perm_all
    else if equal s (b'o' ∷ b'w' ∷ b'n' ∷ b'e' ∷ b'r' ∷ [])
    then perm_owner
    else if equal s (b'a' ∷ b'l' ∷ b'l' ∷ [])
    then perm_all
    else old

pub data Field : Type 0 where
  name_field : Field
  exec_field : Field
  read_field : Field
  write_field : Field
  owner_field : Field
  actual_field : Field
  dest_field : Field
  contents_field : Field
  unknown_field : Field

unfoldable pub field_of : List ℕ → Field
field_of s =
    if equal s (b'n' ∷ b'a' ∷ b'm' ∷ b'e' ∷ [])
    then name_field
    else if equal s (b'e' ∷ b'x' ∷ b'e' ∷ b'c' ∷ [])
    then exec_field
    else if equal s (b'r' ∷ b'e' ∷ b'a' ∷ b'd' ∷ [])
    then read_field
    else if equal s (b'w' ∷ b'r' ∷ b'i' ∷ b't' ∷ b'e' ∷ [])
    then write_field
    else if equal s (b'o' ∷ b'w' ∷ b'n' ∷ b'e' ∷ b'r' ∷ [])
    then owner_field
    else if equal s (b'a' ∷ b'c' ∷ b't' ∷ b'u' ∷ b'a' ∷ b'l' ∷ [])
    then actual_field
    else if equal s (b'd' ∷ b'e' ∷ b's' ∷ b't' ∷ [])
    then dest_field
    else if equal s (b'c' ∷ b'o' ∷ b'n' ∷ b't' ∷ b'e' ∷ b'n' ∷ b't' ∷ b's' ∷ [])
    then contents_field
    else unknown_field

-- the value of a field but `contents`
unfoldable pub set_field : (List ℕ → ℕ) → Field → List ℕ → Attributes → Option Attributes
set_field atoi name_field v a = some (record a { name = some v })
set_field atoi exec_field v a = some (record a { exec_perm = perm_of v a.exec_perm })
set_field atoi read_field v a = some (record a { read_perm = perm_of v a.read_perm })
set_field atoi write_field v a = some (record a { write_perm = perm_of v a.write_perm })
set_field atoi owner_field v a = some (record a { owner = atoi v })
set_field atoi actual_field v a = if a.type == b'f' then some (record a { text = some v }) else none
set_field atoi dest_field v a = if a.type == b'i' then some (record a { text = some v }) else none
set_field atoi contents_field v a = none
set_field atoi unknown_field v a = none

abbrev pub is_contents : Field → Bool
is_contents contents_field = true
is_contents f = false

-- the first character behind spaces, and the rest
abbrev pub first_char : List ℕ → Option (ℕ × List ℕ)
first_char [] = none
first_char (c ∷ cs) = some (c, cs)

unfoldable pub next_char : List ℕ → Option (ℕ × List ℕ)
next_char cs = first_char (ignore_whitespace cs)

-- `parse_next`; its loop over the fields; the entries of a directory up to the `}`
unfoldable mutual
  pub parse_next : (List ℕ → ℕ) → ℕ → Perm → Perm → Perm → List ℕ → Option (Entry × List ℕ)
  parse_next atoi zero defr defw defe cs = none
  parse_next atoi (suc fuel) defr defw defe cs = Option.bind (next_char cs) λ (type_char, r).
      Option.bind (expect b':' r) λ r₁. Option.bind (expect b'[' r₁) λ r₂.
        if not (type_char == b'f' || type_char == b'd' || type_char == b'i')
        then none
        else parse_fields atoi fuel
            (record {
              type = type_char;
              name = none;
              read_perm = defr;
              write_perm = defw;
              exec_perm = defe;
              owner = 0;
              text = none;
            })
            nothing r₂

  pub parse_fields : (List ℕ → ℕ) → ℕ → Attributes → Contents → List ℕ → Option (Entry × List ℕ)
  parse_fields atoi zero a kids cs = none
  parse_fields atoi (suc fuel) a kids cs = Option.bind (next_token cs) λ (buffer, d, r).
      let plain = Option.bind (next_token r) λ (v, d', r').
        Option.bind (set_field atoi (field_of buffer) v a) λ a'. elim (d' == b']') [
          | true ↦ some (entry a' kids, r')
          | false ↦ parse_fields atoi fuel a' kids r'
        ] in
      let inside = Option.bind (expect b'{' r) λ r₁.
        Option.bind (parse_contents atoi fuel a r₁) λ (kids', r₂).
          Option.bind (next_char r₂) λ (d', r'). elim (d' == b']') [
            | true ↦ some (entry a kids', r')
            | false ↦ parse_fields atoi fuel a kids' r'
          ] in
      if not (d == b'=')
      then none
      else if is_contents (field_of buffer)
      then (if a.type == b'd' then inside else none)
      else plain

  pub parse_contents : (List ℕ → ℕ) → ℕ → Attributes → List ℕ → Option (Contents × List ℕ)
  parse_contents atoi zero a cs = none
  parse_contents atoi (suc fuel) a cs = Option.bind (next_char cs) λ (d, r). elim (d == b'}') [
    | true ↦ some (nothing, r)
    | false ↦
        Option.bind (parse_next atoi fuel a.read_perm a.write_perm a.exec_perm cs)
          λ (e, r₁). Option.map (λ (es, r₂). (cons e es, r₂)) (parse_contents atoi fuel a r₁)
  ]
