-- ===== src/Sheep/Elements.antt =====
-- Elements that are set are found, of the variables of lib/sheep/src/var.c.
use frosk.Prelude.{
  ℕ, ◌≡◌, refl, ap, ap₂, Option, none, some, true, false, List, [], ◌∷◌, ==_self, if◌then◌else◌,
  Bool-cases, inl, inr,
}
use frosk.Cstd.Strings.Compare.{is_prefix}
use frosk.Sheep.{
  Var, str, sck, Vars, empty, cons, name_of, same_name, sheep_copy_var, copy_vars, set_in,
  sheep_set_elm, get_in, sheep_get_elm, env_of, sheep_set_var, sheep_get_var,
}

mutual
  unfolding sheep_copy_var copy_vars

  sheep_copy_var_lem : (v : Var) → sheep_copy_var v ≡ v
  sheep_copy_var_lem (str nm vl) = refl
  sheep_copy_var_lem (sck nm vs) = ap (sck nm) (copy_vars_lem vs)

  copy_vars_lem : (vs : Vars) → copy_vars vs ≡ vs
  copy_vars_lem empty = refl
  copy_vars_lem (cons v vs) = ap₂ cons (sheep_copy_var_lem v) (copy_vars_lem vs)

is_prefix_self : (s : List ℕ) → is_prefix s s ≡ true
is_prefix_self [] = refl
is_prefix_self (a ∷ s) = rw (==_self a) (is_prefix_self s)

get_in-set_in : (v : Var) (vs : Vars) → get_in (name_of v) (set_in v vs) ≡ some v
unfolding get_in set_in
get_in-set_in v empty = rw (sheep_copy_var_lem v) (rw (is_prefix_self (name_of v)) refl)
get_in-set_in v (cons c cs) = elim (Bool-cases (is_prefix (name_of c) (name_of v))) [
  | inl e ↦ rw e (rw (sheep_copy_var_lem v) (rw (is_prefix_self (name_of v)) refl))
  | inr e ↦ rw e (rw e (get_in-set_in v cs))
]

-- no name of an array is the start of a longer one
abbrev pub NoStart : List ℕ → Vars → Type 0
NoStart nm empty = Unit
NoStart nm (cons c cs) = (is_prefix (name_of c) nm ≡ true → name_of c ≡ nm) × NoStart nm cs

get_in-set_in_ne :
    (v : Var) (vs : Vars) (nm : List ℕ)
    → NoStart (name_of v) vs
    → is_prefix (name_of v) nm ≡ false
    → get_in nm (set_in v vs) ≡ get_in nm vs
unfolding get_in set_in
get_in-set_in_ne v empty nm all ne = rw (sheep_copy_var_lem v) (rw ne refl)
get_in-set_in_ne v (cons c cs) nm (same, all) ne =
    elim (Bool-cases (is_prefix (name_of c) (name_of v))) [
      | inl e ↦
          let out : is_prefix (name_of c) nm ≡ false = rw (same e) ne in
          rw e (rw (sheep_copy_var_lem v) (rw (ne, out) refl))
      | inr e ↦ rw e (
          ap (λ r. if same_name (name_of c) nm then some c else r)
            (get_in-set_in_ne v cs nm all ne))
    ]

-- A variable is set in an environment that is a sack, or not made yet. Then `sheep_get_var` of its name
-- gives it; and of a name that it is no start of, where no name in the environment is the start of
-- the variable's own but that name itself, what the environment gave before.
pub sheep_get_var-set_var :
    (v : Var) (env : Option Var) (nm : List ℕ) (vs : Vars)
    → env_of env ≡ sck nm vs
    → (sheep_get_var (name_of v) (sheep_set_var v env) ≡ (some v, sheep_set_var v env))
      × ((n : List ℕ)
          → NoStart (name_of v) vs
          → is_prefix (name_of v) n ≡ false
          → sheep_get_var n (sheep_set_var v env) ≡ (get_in n vs, sheep_set_var v env))
unfolding sheep_get_var sheep_set_var sheep_set_elm sheep_get_elm
sheep_get_var-set_var v env nm vs e = rw e (
  ap (λ o. (o, some (sck nm (set_in v vs)))) (get_in-set_in v vs),
  λ n all ne. ap (λ o. (o, some (sck nm (set_in v vs)))) (get_in-set_in_ne v vs n all ne),
)

-- The first element of a sack has a name that is a proper start of the name of another variable, and
-- no name behind it is a start of that name. Setting the variable puts it in the place of the element,
-- which is not found any more, and the array is no longer than before.
pub lost_element :
    (c v : Var) (cs : Vars) (nm : List ℕ)
    → is_prefix (name_of c) (name_of v) ≡ true
    → is_prefix (name_of v) (name_of c) ≡ false
    → get_in (name_of c) cs ≡ none
    → (sheep_get_elm (sck nm (cons c cs)) (name_of c) ≡ some c)
      × (sheep_set_elm (sck nm (cons c cs)) v ≡ sck nm (cons v cs))
      × (sheep_get_elm (sheep_set_elm (sck nm (cons c cs)) v) (name_of c) ≡ none)
unfolding sheep_get_elm sheep_set_elm set_in get_in
lost_element c v cs nm start proper behind =
    let found : (if same_name (name_of c) (name_of c) then some c else get_in (name_of c) cs)
        ≡ some c =
      rw (is_prefix_self (name_of c)) refl in
    let set : set_in v (cons c cs) ≡ cons v cs = rw start (rw (sheep_copy_var_lem v) refl) in
    (found, ap (sck nm) set, rw set (rw (proper, behind) refl))
