-- ===== src/Shiny/Examples.antt =====
-- Concrete runs of lib/shiny/src.
use mathlib.Core.Option
use frosk.Prelude.{◌≡◌, refl, none, some, [], ◌∷◌, arith}
use frosk.Shiny.{container_add_thingy, container_remove_thingy, exps, freed, remove_expanse}
use frosk.Shiny.Remove.{container_remove_thingy_lem}

-- The only expanse is freed and stays in `exp_list`.
one_expanse : remove_expanse (exps (7 ∷ [])) 7 ≡ some freed
unfolding remove_expanse
one_expanse = refl

container_remove_thingy_lem_example :
    (container_remove_thingy (1 ∷ 2 ∷ 3 ∷ 4 ∷ [], 0) 3 ≡ some (1 ∷ 2 ∷ 4 ∷ [], 0))
    × (Option.bind
          (container_add_thingy 5 (1 ∷ 2 ∷ [], 0) 3)
          (λ things. container_remove_thingy things 3)
        ≡ none)
container_remove_thingy_lem_example =
    container_remove_thingy_lem 1 (2 ∷ []) 3 4 [] 5 (omega arith) (omega arith) (omega arith)
