-- ===== src/Prelude/Outcome.antt =====
-- What holds of a result, where there is one.
use mathlib.Core.Path.{◌≡◌, refl, subst}
use mathlib.Core.Option.{Option, none, some}
use mathlib.Core.Option
use native.Mathlib.Omega.{arith}

abbrev pub Ensures {ℓ} : {A : Type ℓ} → (A → Type 0) → Option A → Type 0
Ensures P none = Unit
Ensures P (some a) = P a

pub Ensures-bind {ℓ ℓ'} :
    {A : Type ℓ} {B : Type ℓ'} (P : B → Type 0) (r : Option A) (f : A → Option B)
    → ((a : A) → r ≡ some a → Ensures P (f a))
    → Ensures P (Option.bind r f)
unfolding Option.bind
Ensures-bind P none f h = omega arith
Ensures-bind P (some a) f h = h a refl

pub Ensures-then {ℓ ℓ'} :
    {A : Type ℓ} {B : Type ℓ'} (P : A → Type 0) (Q : B → Type 0) (r : Option A) (f : A → Option B)
    → Ensures P r
    → ((a : A) → P a → Ensures Q (f a))
    → Ensures Q (Option.bind r f)
unfolding Option.bind
Ensures-then P Q none f h k = omega arith
Ensures-then P Q (some a) f h k = k a h

pub Ensures-map {ℓ} :
    {A : Type ℓ} (P Q : A → Type 0) (r : Option A)
    → ((a : A) → P a → Q a)
    → Ensures P r
    → Ensures Q r
Ensures-map P Q none k h = omega arith
Ensures-map P Q (some a) k h = k a h

-- of a result that is mapped
pub Ensures-mapped {ℓ ℓ'} :
    {A : Type ℓ} {B : Type ℓ'} (P : B → Type 0) (r : Option A) (f : A → B)
    → ((a : A) → r ≡ some a → P (f a))
    → Ensures P (Option.map f r)
Ensures-mapped P none f h = omega arith
Ensures-mapped P (some a) f h = h a refl

pub outcome {ℓ} :
    {A : Type ℓ} (P : A → Type 0) {r : Option A} {a : A} → r ≡ some a → Ensures P r → P a
outcome P e h = subst (Ensures P) e h
