-- ===== src/Builder/Parse/Examples.antt =====
-- A script of util/f301_builder, with owners of one digit.
use Prim.{tt}
use frosk.Prelude.{ℕ, ◌+◌, ◌-◌, ◌≡◌, refl, some, none, List, [], ◌∷◌, arith}
use frosk.Cstd.Ctype.{isspace}
use frosk.Builder.Nodes.{ParseStruct, null, pst_file, pst_dir, pst_indirect}
use frosk.Builder.Parse.{parse_next, perm_none, perm_all, entry}
use frosk.Builder.Parse.Print.{print, attributes, contents_of}
use frosk.Builder.Parse.Script.{parse_next-print}

abbrev digit : ℕ → List ℕ
digit n = (48 + n) ∷ []

abbrev value : List ℕ → ℕ
value [] = 0
value (c ∷ cs) = c - 48

abbrev inside : ParseStruct
inside = pst_file 3 (97 ∷ []) (120 ∷ 46 ∷ 111 ∷ []) (pst_indirect 0 (98 ∷ []) (47 ∷ 97 ∷ []) null)

parse_next-print_example :
    parse_next value 15 perm_all perm_none perm_all
      (print digit (pst_dir 0 (47 ∷ []) inside null) (10 ∷ []))
    ≡ some (
      entry
          (attributes perm_all perm_none perm_all b'd' 0 (47 ∷ []) none)
          (contents_of perm_all perm_none perm_all inside),
      10 ∷ [],
    )
unfolding isspace
parse_next-print_example =
    parse_next-print value digit 0 (47 ∷ []) inside 11 perm_all perm_none perm_all (10 ∷ [])
      ((omega arith, omega arith, (refl, tt)), refl) (omega arith, omega arith, (refl, tt))
      (
        ((omega arith, omega arith, (refl, tt)), refl),
        (omega arith, omega arith, (refl, tt)),
        (omega arith, omega arith, (refl, (refl, (refl, tt)))),
        (
          ((omega arith, omega arith, (refl, tt)), refl),
          (omega arith, omega arith, (refl, tt)),
          (omega arith, omega arith, (refl, (refl, tt))),
          tt,
        ),
      )
      (omega arith)
