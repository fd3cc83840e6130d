-- ===== src/Rusk/Expanses/Examples.antt =====
-- Three expanses, and the theorems about the list at them.
use frosk.Prelude.{ℕ, ◌≡◌, refl, true, false, none, some, List, [], ◌∷◌, ◌⊎◌, arith, map}
use frosk.Prelude.Int.{pos}
use frosk.Rusk.Expanses.{
  FullExpanse, Server, ApiExpanse, PixelBuffer, handle_of, add_expanse, remove_from, remove_expanse,
  unlink, bring_to_front, bring_expanse_to_front,
}
use frosk.Rusk.Expanses.Handles.{HasUnique, without, find, bring_to_front_lem}
use frosk.Rusk.Expanses.Reach.{IsValid, here, step, add, remove, front, Reach-IsValid}

abbrev blank : PixelBuffer
blank = record { buffer = []; width = pos 0; height = pos 0 }

abbrev api : ApiExpanse
api = record { width = pos 2; height = pos 1; attributes = 0 }

abbrev window : ℕ → FullExpanse
window handle = record {
  exp = record {
    x = pos 0;
    y = pos 0;
    sub_offset_x = pos 0;
    sub_offset_y = pos 0;
    width = pos 2;
    height = pos 1;
    visible = true;
    handle = handle;
    api_exp = api;
  };
  expanse_buffer = blank;
  top_buffer = blank;
  pid = 7;
  lbuf = none;
  dirty_lbuf = false;
  tlbuf = none;
  dirty_tlbuf = false;
}

abbrev three : List FullExpanse
three = window 3 ∷ window 2 ∷ window 1 ∷ []

abbrev server : Server
server = record { expanses = three; count = 4 }

three-HasUnique : HasUnique three
three-HasUnique = (refl, (refl, (refl, tt)))

server-IsValid : IsValid server
server-IsValid = record { unique = three-HasUnique; below = omega arith }

-- The front one of several is not removed; another one is.
remove_front : map handle_of (remove_expanse 3 server).expanses ≡ 3 ∷ 2 ∷ 1 ∷ []
unfolding remove_expanse remove_from unlink
remove_front = refl

remove_second : map handle_of (remove_expanse 2 server).expanses ≡ 3 ∷ 1 ∷ []
unfolding remove_expanse remove_from unlink
remove_second = refl

bring_to_front_lem_example :
    ((find 1 three ≡ none) × (bring_to_front 1 three ≡ three))
    ⊎ ((f : FullExpanse) × (find 1 three ≡ some f) × (bring_to_front 1 three ≡ f ∷ without 1 three))
bring_to_front_lem_example = bring_to_front_lem 1 three three-HasUnique

Reach-IsValid_example :
    IsValid (bring_expanse_to_front 2 (remove_expanse 1 (add_expanse (window 0) api 9 server).1))
Reach-IsValid_example = Reach-IsValid server-IsValid (
    step
      (step (step here (add (window 0) api 9 server))
        (remove 1 (add_expanse (window 0) api 9 server).1))
      (front 2 (remove_expanse 1 (add_expanse (window 0) api 9 server).1)))
