-- ===== src/Sheep/Parse/Examples.antt =====
-- Concrete runs of lib/sheep/src/parse.c.
use Prim.{tt}
use frosk.Prelude.{◌≡◌, refl, List, [], ◌∷◌, some, arith}
use frosk.Sheep.Parse.{next_statement, remove_comments, isch1, isch2}
use frosk.Sheep.Parse.Print.{
  Arg, word, oper, single, double, print_all, AreArgs, next_statement-print,
}
use frosk.Sheep.Parse.Comments.{remove_comments_lem}

-- a = "say \"b\"" 'c d';
abbrev args : List Arg
args =
    word (97 ∷ [])
    ∷ oper (61 ∷ [])
    ∷ double (115 ∷ 97 ∷ 121 ∷ 32 ∷ 34 ∷ 98 ∷ 34 ∷ [])
    ∷ single (99 ∷ 32 ∷ 100 ∷ [])
    ∷ []

args-AreArgs : AreArgs args
unfolding isch1 isch2
args-AreArgs = (
  (omega arith, (refl, tt)),
  ((omega arith, (refl, tt)), (omega arith, ((refl, (refl, (refl, tt))), tt))),
)

quoted_statement :
    next_statement (print_all args (120 ∷ [])) 4
    ≡ some (
      (97 ∷ []) ∷ (61 ∷ []) ∷ (115 ∷ 97 ∷ 121 ∷ 32 ∷ 34 ∷ 98 ∷ 34 ∷ []) ∷ (99 ∷ 32 ∷ 100 ∷ []) ∷ [],
      120 ∷ [],
      4,
    )
quoted_statement = next_statement-print args (120 ∷ []) 4 args-AreArgs

-- "x;\n#ab\nfoo;\n" keeps its end, "o;\n", twice
remove_comments_lem_example :
    remove_comments (120 ∷ 59 ∷ 10 ∷ 35 ∷ 97 ∷ 98 ∷ 10 ∷ 102 ∷ 111 ∷ 111 ∷ 59 ∷ 10 ∷ [])
    ≡ some (120 ∷ 59 ∷ 10 ∷ 10 ∷ 102 ∷ 111 ∷ 111 ∷ 59 ∷ 10 ∷ 111 ∷ 59 ∷ 10 ∷ [])
remove_comments_lem_example =
    remove_comments_lem (120 ∷ 59 ∷ 10 ∷ []) (97 ∷ 98 ∷ []) (102 ∷ 111 ∷ 111 ∷ 59 ∷ 10 ∷ [])
      (refl, (refl, (refl, tt))) (refl, (refl, tt)) (refl, (refl, (refl, (refl, (refl, tt)))))
      (omega arith)
