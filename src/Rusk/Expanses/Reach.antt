-- ===== src/Rusk/Expanses/Reach.antt =====
-- The requests that change the list of expanses of prgm/rusk/src/rusk.c, in any order.
use frosk.Prelude.{
  ℕ, ◌+◌, ◌<◌, ◌≡◌, refl, ap, true, false, List, [], ◌∷◌, inl, inr, ◌==◌, arith, Bool-cases, ==_iff,
  eq_of_some, subst, sym, ◌∙◌, some, Ensures, Ensures-bind, Ensures-mapped, outcome,
}
use frosk.Prelude.Int.{ℤ}
use frosk.Rusk.Partial.{part_of, overlay_at, update_partial_of, update_partial_in, update_partial}
use frosk.Rusk.Expanses.{
  FullExpanse, Expanse, ApiExpanse, PixelBuffer, Server, handle_of, new_expanse, add_expanse,
  remove_from, remove_expanse, update_in, update_expanse, bring_to_front, bring_expanse_to_front,
  decorate, set_decoration_buffers,
}
use frosk.Rusk.Expanses.Handles.{
  has, HasUnique, without, find, front_of_many, remove_from_lem, bring_to_front_lem,
}

abbrev pub AllBelow : ℕ → List FullExpanse → Type 0
AllBelow c [] = Unit
AllBelow c (f ∷ fs) = (handle_of f < c) × AllBelow c fs

-- The handles differ, and are below the next one.
pub record IsValid (s : Server) : Type 0 where
  pub unique : HasUnique s.expanses
  pub below : AllBelow s.count s.expanses

-- every handle of `gs` is one of `fs`, and only once if it was
record Kept (fs gs : List FullExpanse) : Type 0 where
  absent : (a : ℕ) → has a fs ≡ false → has a gs ≡ false
  unique : HasUnique fs → HasUnique gs
  below : (c : ℕ) → AllBelow c fs → AllBelow c gs

Kept-refl : (fs : List FullExpanse) → Kept fs fs
Kept-refl fs = record { absent = λ a h. h; unique = λ u. u; below = λ c b. b }

Kept-eq : (fs gs : List FullExpanse) → fs ≡ gs → Kept fs gs
Kept-eq fs gs e = subst (λ hs. Kept fs hs) e (Kept-refl fs)

Kept-cons :
    (f g : FullExpanse) (fs gs : List FullExpanse)
    → handle_of f ≡ handle_of g
    → Kept fs gs
    → Kept (f ∷ fs) (g ∷ gs)
Kept-cons f g fs gs e k = record {
  absent = λ a h. ground (arith, k.absent a);
  unique = λ u. (subst (λ h. has h gs ≡ false) e (k.absent (handle_of f) u.0), k.unique u.1);
  below = λ c b. (subst (λ h. h < c) e b.0, k.below c b.1);
}

Kept-drop : (f : FullExpanse) (fs gs : List FullExpanse) → Kept fs gs → Kept (f ∷ fs) gs
Kept-drop f fs gs k = record {
  absent = λ a h. k.absent a (ground arith);
  unique = λ u. k.unique u.1;
  below = λ c b. k.below c b.1;
}

without-Kept : (e : ℕ) (fs : List FullExpanse) → Kept fs (without e fs)
without-Kept e [] = Kept-refl []
without-Kept e (f ∷ fs) = elim (Bool-cases (handle_of f == e)) [
  | inl hit ↦ rw hit (Kept-drop f fs (without e fs) (without-Kept e fs))
  | inr miss ↦ rw miss (Kept-cons f f fs (without e fs) refl (without-Kept e fs))
]

update-Kept : (e : Expanse) (fs : List FullExpanse) → Kept fs (update_in e fs).1
unfolding update_in
update-Kept e [] = Kept-refl []
update-Kept e (f ∷ fs) = elim (Bool-cases (handle_of f == e.handle)) [
  | inl hit ↦ rw hit (
      Kept-cons f (record f { dirty_lbuf = true; exp = e }) fs fs ((==_iff _ _).0 hit)
        (Kept-refl fs))
  | inr miss ↦ rw miss (Kept-cons f f fs (update_in e fs).1 refl (update-Kept e fs))
]

decorate-Kept : (e : ℕ) (top : PixelBuffer) (fs : List FullExpanse) → Kept fs (decorate e top fs)
unfolding decorate
decorate-Kept e top [] = Kept-refl []
decorate-Kept e top (f ∷ fs) = elim (Bool-cases (handle_of f == e)) [
  | inl hit ↦
      rw hit
        (Kept-cons f (record f { top_buffer = top; dirty_tlbuf = true }) fs fs refl (Kept-refl fs))
  | inr miss ↦ rw miss (Kept-cons f f fs (decorate e top fs) refl (decorate-Kept e top fs))
]

remove-Kept : (e : ℕ) (fs : List FullExpanse) → HasUnique fs → Kept fs (remove_from e fs)
remove-Kept e fs u = rw (remove_from_lem e fs u) (elim (Bool-cases (front_of_many e fs)) [
  | inl front ↦ rw front (Kept-refl fs)
  | inr other ↦ rw other (without-Kept e fs)
])

not-has-without : (e : ℕ) (fs : List FullExpanse) → has e (without e fs) ≡ false
not-has-without e [] = refl
not-has-without e (f ∷ fs) = elim (Bool-cases (handle_of f == e)) [
  | inl hit ↦ rw hit (not-has-without e fs)
  | inr miss ↦ rw (miss, miss) (not-has-without e fs)
]

update_partial_of-handle :
    (p : PixelBuffer) (x y : ℤ) (f : FullExpanse)
    → Ensures (λ g. handle_of f ≡ handle_of g) (update_partial_of p x y f)
unfolding update_partial_of
update_partial_of-handle p x y f =
    Ensures-bind _ (part_of p) _
      λ cs e. Ensures-mapped _ (overlay_at x y cs f.expanse_buffer.buffer) _ λ columns e'. refl

update_partial-Kept :
    (handle : ℕ) (p : PixelBuffer) (x y : ℤ) (fs : List FullExpanse)
    → Ensures (Kept fs) (update_partial_in handle p x y fs)
unfolding update_partial_in
update_partial-Kept handle p x y [] = Kept-refl []
update_partial-Kept handle p x y (f ∷ fs) = elim (Bool-cases (handle_of f == handle)) [
  | inl hit ↦ rw hit (
      Ensures-mapped _ (update_partial_of p x y f) (◌∷ fs) λ g e.
        Kept-cons f g fs fs
          (outcome (λ k. handle_of f ≡ handle_of k) e (update_partial_of-handle p x y f))
          (Kept-refl fs))
  | inr miss ↦ rw miss (
      Ensures-mapped _ (update_partial_in handle p x y fs) (f ∷◌) λ gs e.
        Kept-cons f f fs gs refl (outcome (Kept fs) e (update_partial-Kept handle p x y fs)))
]

-- what `find` finds has the handle, and is one of the list
find_lem :
    (e : ℕ) (f : FullExpanse) (fs : List FullExpanse)
    → find e fs ≡ some f
    → (handle_of f ≡ e) × (has e fs ≡ true) × ((c : ℕ) → AllBelow c fs → handle_of f < c)
find_lem e f [] h = cc
find_lem e f (g ∷ fs) h = elim (Bool-cases (handle_of g == e)) [
  | inl hit ↦
      let same : g ≡ f = eq_of_some g f (rw hit at h) in
      subst
        (λ k.
          (handle_of k ≡ e)
          × (has e (g ∷ fs) ≡ true)
          × ((c : ℕ) → AllBelow c (g ∷ fs) → handle_of k < c))
        same ((==_iff _ _).0 hit, rw hit refl, λ c b. b.0)
  | inr miss ↦
      let (same, present, below) = find_lem e f fs (rw miss at h) in
      (same, rw (miss, present) refl, λ c b. below c b.1)
]

front-Kept :
    (e : ℕ) (f : FullExpanse) (fs : List FullExpanse)
    → find e fs ≡ some f
    → Kept fs (f ∷ without e fs)
front-Kept e f fs found =
    let (same, present, below) = find_lem e f fs found in
    let kept = without-Kept e fs in
    record {
      absent = λ a h. elim (Bool-cases (handle_of f == a)) [
        | inl hit ↦ let is : e ≡ a = sym same ∙ (==_iff _ _).0 hit in cc (ap (λ b. has b fs) is)
        | inr miss ↦ rw miss (kept.absent a h)
      ];
      unique = λ u. (
        subst (λ h. has h (without e fs) ≡ false) (sym same) (not-has-without e fs),
        kept.unique u,
      );
      below = λ c b. (below c b, kept.below c b);
    }

bring-Kept : (e : ℕ) (fs : List FullExpanse) → HasUnique fs → Kept fs (bring_to_front e fs)
bring-Kept e fs u = elim (bring_to_front_lem e fs u) [
  | inl (n, same) ↦ rw same (Kept-refl fs)
  | inr (f, found, same) ↦ rw same (front-Kept e f fs found)
]

-- A request of a client, of the expanse manager or of the server itself that changes the list or an expanse.
pub data Step : Server → Server → Type 0 where
  add :
      (raw : FullExpanse) (e : ApiExpanse) (pid : ℕ) (s : Server)
      → Step s (add_expanse raw e pid s).1
  remove : (e : ℕ) (s : Server) → Step s (remove_expanse e s)
  update : (e : Expanse) (s : Server) → Step s (update_expanse e s).1
  front : (e : ℕ) (s : Server) → Step s (bring_expanse_to_front e s)
  partial :
      (handle : ℕ) (p : PixelBuffer) (x y : ℤ) (s t : Server)
      → update_partial handle p x y s ≡ some t
      → Step s t
  buffers : (e : Expanse) (top : PixelBuffer) (s : Server) → Step s (set_decoration_buffers e top s)

pub data Reach (s : Server) : Server → Type 0 where
  here : Reach s s
  step : {t u : Server} → Reach s t → Step t u → Reach s u

Kept-IsValid :
    (s : Server) (fs : List FullExpanse)
    → IsValid s
    → Kept s.expanses fs
    → IsValid (record s { expanses = fs })
Kept-IsValid s fs v k = record { unique = k.unique v.unique; below = k.below s.count v.below }

below-absent : (c : ℕ) (fs : List FullExpanse) → AllBelow c fs → has c fs ≡ false
below-absent c [] b = refl
below-absent c (f ∷ fs) b = ground (arith, below-absent c fs b.1, b.0)

below-suc : (c : ℕ) (fs : List FullExpanse) → AllBelow c fs → AllBelow (c + 1) fs
below-suc c [] b = tt
below-suc c (f ∷ fs) b = (omega (arith, b.0), below-suc c fs b.1)

pub Step-IsValid : {s t : Server} → Step s t → IsValid s → IsValid t
unfolding add_expanse new_expanse remove_expanse update_expanse bring_expanse_to_front
    set_decoration_buffers update_partial
Step-IsValid (add raw e pid s) v = record {
  unique = (below-absent s.count s.expanses v.below, v.unique);
  below = (omega arith, below-suc s.count s.expanses v.below);
}
Step-IsValid (remove e s) v = Kept-IsValid s _ v (remove-Kept e s.expanses v.unique)
Step-IsValid (update e s) v = Kept-IsValid s _ v (update-Kept e s.expanses)
Step-IsValid (front e s) v = Kept-IsValid s _ v (bring-Kept e s.expanses v.unique)
Step-IsValid (partial handle p x y s t e) v = outcome IsValid e (
    Ensures-mapped IsValid (update_partial_in handle p x y s.expanses) _ λ fs e'.
      Kept-IsValid s fs v
        (outcome (Kept s.expanses) e' (update_partial-Kept handle p x y s.expanses)))
Step-IsValid (buffers e top s) v = Kept-IsValid s _ v (decorate-Kept e.handle top s.expanses)

-- Whatever requests are served, in any order, from a list whose handles differ and are below
-- `count`, the handles of the expanses differ and are below `count`.
pub Reach-IsValid : {s t : Server} → IsValid s → Reach s t → IsValid t
Reach-IsValid v here = v
Reach-IsValid v (step r st) = Step-IsValid st (Reach-IsValid v r)
