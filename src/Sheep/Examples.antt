-- ===== src/Sheep/Examples.antt =====
-- Variables of a small environment, and an array of eleven elements.
use frosk.Prelude.{
  ℕ, ◌+◌, ◌/◌, ◌%◌, ◌≡◌, refl, none, some, false, List, [], ◌∷◌, ltb, if◌then◌else◌, replicate,
  ◌++◌,
}
use frosk.Cstd.Strings.Compare.{is_prefix}
use frosk.Sheep.{
  Var, str, empty, set_in, get_in, sheep_set_elm, sheep_get_elm, sheep_set_var, sheep_get_var,
  sheep_new_arr, add_elms, sheep_copy_var,
}
use frosk.Sheep.Elements.{NoStart, sheep_get_var-set_var}

abbrev one : Var
one = str (b'1' ∷ []) (b'a' ∷ [])

first_variable :
    (sheep_get_var (b'1' ∷ []) (sheep_set_var one none) ≡ (some one, sheep_set_var one none))
    × ((n : List ℕ)
        → NoStart (b'1' ∷ []) empty
        → is_prefix (b'1' ∷ []) n ≡ false
        → sheep_get_var n (sheep_set_var one none) ≡ (get_in n empty, sheep_set_var one none))
first_variable = sheep_get_var-set_var one none [] empty refl

-- decimal digits below 100
abbrev digits : ℕ → List ℕ
digits n = (if ltb n 10 then [] else (n / 10 + b'0') ∷ []) ++ ((n % 10 + b'0') ∷ [])

-- The element with the number 10 takes the place of the one with the number 1.
eleven_elements :
    sheep_get_elm
      (sheep_new_arr digits [] (replicate 10 (b'x' ∷ []) ++ ((b'y' ∷ []) ∷ [])))
      (b'1' ∷ [])
    ≡ none
unfolding sheep_new_arr add_elms sheep_set_elm set_in sheep_get_elm get_in sheep_copy_var
eleven_elements = refl
