-- ===== src/Sheep.antt =====
-- lib/sheep/src/var.c: the variables of the shell language. A string is the list of its characters,
-- as the C standard has `strcpy` and `realloc`; those of lib/cstd copy no terminator, run past an empty
-- string, and fault on NULL. The C structs with a type tag are
-- `Var`; the array of a sack is `Vars`. `free` has no effect in a value. `sprintf` for "%d" is a
-- parameter.
pub mod Elements
pub mod Parse
mod Examples
use frosk.Prelude.{ℕ, suc, ◌+◌, Option, none, some, Bool, List, [], ◌∷◌, if◌then◌else◌}
use frosk.Cstd.Strings.Compare.{is_prefix}

mutual
  pub data Var : Type 0 where
    str : List ℕ → List ℕ → Var
    sck : List ℕ → Vars → Var

  pub data Vars : Type 0 where
    empty : Vars
    cons : Var → Vars → Vars

abbrev pub name_of : Var → List ℕ
name_of (str nm vl) = nm
name_of (sck nm vs) = nm

-- `!strcmp(stored, sought)`, by `Cstd.Strings.Compare.strcmp_lem`
abbrev pub same_name : List ℕ → List ℕ → Bool
same_name stored sought = is_prefix stored sought

abbrev pub sheep_new_str : List ℕ → List ℕ → Var
sheep_new_str nm vl = str nm vl

abbrev pub sheep_new_sck : List ℕ → Var
sheep_new_sck nm = sck nm empty

mutual
  pub sheep_copy_var : Var → Var
  sheep_copy_var (str nm vl) = str nm vl
  sheep_copy_var (sck nm vs) = sck nm (copy_vars vs)

  pub copy_vars : Vars → Vars
  copy_vars empty = empty
  copy_vars (cons v vs) = cons (sheep_copy_var v) (copy_vars vs)

-- the loop of `sheep_set_elm` over the array, and the append behind it
unfoldable pub set_in : Var → Vars → Vars
set_in v empty = cons (sheep_copy_var v) empty
set_in v (cons c cs) =
    let rest = cons c (set_in v cs) in
    if same_name (name_of c) (name_of v) then cons (sheep_copy_var v) cs else rest

unfoldable pub sheep_set_elm : Var → Var → Var
sheep_set_elm (str nm vl) v = str nm vl
sheep_set_elm (sck nm vs) v = sck nm (set_in v vs)

unfoldable pub get_in : List ℕ → Vars → Option Var
get_in nm empty = none
get_in nm (cons c cs) = if same_name (name_of c) nm then some c else get_in nm cs

unfoldable pub sheep_get_elm : Var → List ℕ → Option Var
sheep_get_elm (str n vl) nm = none
sheep_get_elm (sck n vs) nm = get_in nm vs

-- `env`, made at its first use
abbrev pub env_of : Option Var → Var
env_of none = sheep_new_sck []
env_of (some e) = e

unfoldable pub sheep_set_var : Var → Option Var → Option Var
sheep_set_var v env = some (sheep_set_elm (env_of env) v)

-- `sheep_get_var`: the variable and `env`
unfoldable pub sheep_get_var : List ℕ → Option Var → Option Var × Option Var
sheep_get_var nm none = (none, some (sheep_new_sck []))
sheep_get_var nm (some e) = (sheep_get_elm e nm, some e)

-- the loop of `sheep_new_arr` from number i on
unfoldable pub add_elms : (ℕ → List ℕ) → ℕ → List (List ℕ) → Var → Var
add_elms digits i [] r = r
add_elms digits i (s ∷ arr) r =
    add_elms digits (i + 1) arr (sheep_set_elm r (sheep_new_str (digits i) s))

unfoldable pub sheep_new_arr : (ℕ → List ℕ) → List ℕ → List (List ℕ) → Var
sheep_new_arr digits nm arr = add_elms digits 0 arr (sheep_new_sck nm)
