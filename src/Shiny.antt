-- ===== src/Shiny.antt =====
-- lib/shiny/src/shiny_container.c, the things of a container, and the list of expanses of
-- lib/shiny/src/shiny.c. A list is in the order of its `next` pointers, and of a thing and an expanse only
-- the identity and the handle matter. `none` is a read at NULL, in a freed block, or where a pointer leads
-- that was never set.
pub mod Remove
mod Examples
use mathlib.Core.Option
use frosk.Prelude.{ℕ, Bool, true, Option, none, some, List, [], ◌∷◌, ◌==◌, if◌then◌else◌}

-- the things of a container, and `next` of the last one
abbrev pub Things : Type 0
Things = List ℕ × ℕ

-- the list ends: it is NULL, or `next` of its last thing is
abbrev pub closed : Things → Bool
closed ([], end) = true
closed (t ∷ ts, end) = end == 0

unfoldable pub add_last : List ℕ → ℕ → List ℕ
add_last [] thingy = thingy ∷ []
add_last (t ∷ ts) thingy = t ∷ add_last ts thingy

-- `container_add_thingy`, which does not set `next`: malloc left `fresh` there
unfoldable pub container_add_thingy : ℕ → Things → ℕ → Option Things
container_add_thingy fresh (ts, end) thingy =
    if closed (ts, end) then some (add_last ts thingy, fresh) else none

-- the loop of `container_remove_thingy`, from `itr` on; behind the last thing, once that is removed,
-- it reads `next` of NULL
unfoldable pub remove_behind : List ℕ → ℕ → Option (List ℕ)
remove_behind [] thingy = none
remove_behind (t ∷ []) thingy = some (t ∷ [])
remove_behind (t ∷ u ∷ ts) thingy =
    let removed = Option.map (λ r. t ∷ r) (remove_behind ts thingy) in
    let kept = Option.map (λ r. t ∷ r) (remove_behind (u ∷ ts) thingy) in
    if u == thingy then removed else kept

unfoldable pub remove_thing : List ℕ → ℕ → Option (List ℕ)
remove_thing [] thingy = some []
remove_thing (t ∷ []) thingy = if t == thingy then some [] else some (t ∷ [])
remove_thing (t ∷ u ∷ ts) thingy = remove_behind (t ∷ u ∷ ts) thingy

unfoldable pub container_remove_thingy : Things → ℕ → Option Things
container_remove_thingy (ts, end) thingy =
    if closed (ts, end) then Option.map (λ ts'. (ts', 0)) (remove_thing ts thingy) else none

-- the list of expanses by their handles; `freed` is a list whose first block was freed while `exp_list`
-- still points to it
pub data ExpList : Type 0 where
  exps : List ℕ → ExpList
  freed : ExpList

-- the end of `create_shiny_expanse`
unfoldable pub add_handle : List ℕ → ℕ → List ℕ
add_handle [] h = h ∷ []
add_handle (e ∷ es) h = e ∷ add_handle es h

-- the loop of `remove_expanse` behind the first expanse
unfoldable pub remove_handle : List ℕ → ℕ → List ℕ
remove_handle [] h = []
remove_handle (e ∷ es) h = if e == h then es else e ∷ remove_handle es h

unfoldable pub remove_expanse : ExpList → ℕ → Option ExpList
remove_expanse freed h = none
remove_expanse (exps []) h = some (exps [])
remove_expanse (exps (e ∷ [])) h = if e == h then some freed else some (exps (e ∷ []))
remove_expanse (exps (e ∷ f ∷ es)) h =
    if e == h then some (exps (f ∷ es)) else some (exps (e ∷ remove_handle (f ∷ es) h))
