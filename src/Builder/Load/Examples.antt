-- ===== src/Builder/Load/Examples.antt =====
-- A script with a root that has one file, by an owner of one digit.
use Prim.{tt}
use frosk.Prelude.{ℕ, ◌+◌, ◌-◌, ◌^◌, ◌<◌, ◌≡◌, refl, some, eq_of_some, List, [], ◌∷◌, arith}
use frosk.Cstd.Ctype.{isspace}
use frosk.Builder.Nodes.{ParseStruct, null, pst_file, pst_dir, FileSys, file_sys}
use frosk.Builder.Nodes.Alloc.{position, file_sys-IsValid}
use frosk.Builder.Nodes.Tree.{Represents}
use frosk.Builder.Parse.Print.{print}
use frosk.Builder.Load.{EntryPoints, make_unused, load_next}
use frosk.Builder.Load.Roots.{load_next-print}

abbrev digit : ℕ → List ℕ
digit n = (48 + n) ∷ []

abbrev value : List ℕ → ℕ
value [] = 0
value (c ∷ cs) = c - 48

abbrev inside : ParseStruct
inside = pst_file 3 (97 ∷ []) (120 ∷ 46 ∷ 111 ∷ []) null

abbrev no_roots : EntryPoints
no_roots = record { root = 0; predir = 0; unused = 0 }

small : {size : ℕ} → 5000 ≡ size → size < 2 ^ 31
small e = omega (arith, e)

load_next-print_example :
    (roots' : EntryPoints) × (fs' : FileSys) × (load_next value
        (λ s. some 5000)
        0
        10
        (print digit (pst_dir 0 (47 ∷ []) inside null) (10 ∷ []))
        no_roots
        file_sys
      ≡ some (roots', fs', 10 ∷ []))
    × Represents
        (λ s. some 5000)
        fs'.nodes
        (position (make_unused 0 no_roots file_sys).1)
        (position fs')
        0
        (pst_dir 0 (47 ∷ []) inside null)
        roots'.root
unfolding isspace
load_next-print_example =
    load_next-print value digit (λ s. some 5000) 0 0 inside 6 (10 ∷ []) no_roots file_sys
      ((omega arith, omega arith, (refl, tt)), refl)
      (
        ((omega arith, omega arith, (refl, tt)), refl),
        (omega arith, omega arith, (refl, tt)),
        (omega arith, omega arith, (refl, (refl, (refl, tt)))),
        tt,
      )
      (omega arith) file_sys-IsValid refl (omega arith) λ fn size e. small (eq_of_some _ _ e)
