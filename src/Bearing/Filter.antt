-- ===== src/Bearing/Filter.antt =====
-- Which events the window manager of prgm/bearing/src/bearing.c keeps.
use mathlib.Core.Option
use frosk.Prelude.{
  ℕ, ◌≡◌, refl, ap, Bool, true, false, Option, none, some, ◌&&◌, List, [], ◌∷◌, ◌==◌, if◌then◌else◌,
  arith, Bool-cases, ◌⊎◌, inl, inr,
}
use frosk.Prelude.Int.{ℤ}
use frosk.Rusk.Expanses.{Expanse}
use frosk.Rusk.Keys.{Event, mouse_down, mouse_up, key_down}
use frosk.Bearing.{Hold, Call, Ends, closed, check_event, divide, act_all, handle_events}

-- the third list is made of the two others, each in its order
pub data Shuffle : List Event → List Event → List Event → Type 0 where
  done : Shuffle [] [] []
  left : (ev : Event) {xs ys zs : List Event} → Shuffle xs ys zs → Shuffle (ev ∷ xs) ys (ev ∷ zs)
  right : (ev : Event) {xs ys zs : List Event} → Shuffle xs ys zs → Shuffle xs (ev ∷ ys) (ev ∷ zs)

-- the letters typed
abbrev pub typed : List Event → List ℕ
typed [] = []
typed (key_down l s c a ∷ evs) = l ∷ typed evs
typed (mouse_down x y b ∷ evs) = typed evs
typed (mouse_up x y b ∷ evs) = typed evs

abbrev pub without_s : List ℕ → List ℕ
without_s [] = []
without_s (l ∷ ls) = if l == b's' then without_s ls else l ∷ without_s ls

-- whether a button is held after the events, each release of which is of a button that is held
abbrev pub watch : Bool → List Event → Option Bool
watch held [] = some held
watch held (key_down l s c a ∷ evs) = watch held evs
watch held (mouse_down x y b ∷ evs) = watch true evs
watch true (mouse_up x y b ∷ evs) = watch false evs
watch false (mouse_up x y b ∷ evs) = none

abbrev pub Divided : Bool → List Event → List Expanse → Type 0
Divided down evs es =
    (mine : List Event) × (new : List Event) × (down' : Bool) × (divide down evs es
      ≡ some (mine, new, down'))
    × Shuffle mine new evs
    × (typed new ≡ without_s (typed evs))
    × (watch down mine ≡ some down')

divide_keep :
    (down down' end : Bool) (ev : Event) (evs mine new : List Event) (es : List Expanse)
    → check_event down ev es ≡ some (true, down')
    → divide down' evs es ≡ some (mine, new, end)
    → divide down (ev ∷ evs) es ≡ some (ev ∷ mine, new, end)
unfolding divide Option.bind
divide_keep down down' end ev evs mine new es e e' = rw e (rw e' refl)

divide_hand :
    (down down' end : Bool) (ev : Event) (evs mine new : List Event) (es : List Expanse)
    → check_event down ev es ≡ some (false, down')
    → divide down' evs es ≡ some (mine, new, end)
    → divide down (ev ∷ evs) es ≡ some (mine, ev ∷ new, end)
unfolding divide Option.bind
divide_hand down down' end ev evs mine new es e e' = rw e (rw e' refl)

check_event-press :
    (down : Bool) (x y : ℤ) (b : ℕ) (e : Expanse) (es : List Expanse)
    → (check_event down (mouse_down x y b) (e ∷ es) ≡ some (true, true))
      ⊎ (check_event down (mouse_down x y b) (e ∷ es) ≡ some (false, down))
unfolding check_event
check_event-press down x y b e es = ground arith

divide_lem :
    (down : Bool) (evs : List Event) (e : Expanse) (es : List Expanse) → Divided down evs (e ∷ es)
unfolding divide check_event
divide_lem down [] e es = ([], [], down, refl, done, refl, refl)
divide_lem down (key_down l s c a ∷ evs) e es =
    let (mine, new, end, eq, sh, t, r) = divide_lem down evs e es in
    let ev = key_down l s c a in
    elim (Bool-cases (l == b's')) [
      | inl q ↦ (
        ev ∷ mine,
        new,
        end,
        divide_keep down down end ev evs mine new (e ∷ es) (rw q refl) eq,
        left ev sh,
        rw q t,
        r,
      )
      | inr q ↦ (
        mine,
        ev ∷ new,
        end,
        divide_hand down down end ev evs mine new (e ∷ es) (rw q refl) eq,
        right ev sh,
        rw q (ap (l ∷◌) t),
        r,
      )
    ]
divide_lem down (mouse_down x y b ∷ evs) e es = elim (check_event-press down x y b e es) [
  | inl q ↦
      let (mine, new, end, eq, sh, t, r) = divide_lem true evs e es in
      let ev = mouse_down x y b in
      (
        ev ∷ mine,
        new,
        end,
        divide_keep down true end ev evs mine new (e ∷ es) q eq,
        left ev sh,
        t,
        r,
      )
  | inr q ↦
      let (mine, new, end, eq, sh, t, r) = divide_lem down evs e es in
      let ev = mouse_down x y b in
      (
        mine,
        ev ∷ new,
        end,
        divide_hand down down end ev evs mine new (e ∷ es) q eq,
        right ev sh,
        t,
        r,
      )
]
divide_lem true (mouse_up x y b ∷ evs) e es =
    let (mine, new, end, eq, sh, t, r) = divide_lem false evs e es in
    let ev = mouse_up x y b in
    (
      ev ∷ mine,
      new,
      end,
      divide_keep true false end ev evs mine new (e ∷ es) refl eq,
      left ev sh,
      t,
      r,
    )
divide_lem false (mouse_up x y b ∷ evs) e es =
    let (mine, new, end, eq, sh, t, r) = divide_lem false evs e es in
    let ev = mouse_up x y b in
    (
      mine,
      ev ∷ new,
      end,
      divide_hand false false end ev evs mine new (e ∷ es) refl eq,
      right ev sh,
      t,
      r,
    )

closed-zero : (end : ℕ) (evs : List Event) → end ≡ 0 → closed end evs ≡ true
closed-zero end [] e = refl
closed-zero end (ev ∷ evs) e = ground (arith, e)

both_true : (a b : Bool) → a ≡ true → b ≡ true → (a && b) ≡ true
both_true a b h k = rw h k

-- There is a window, and `malloc` leaves NULL where the code relies on it for the ends of its lists. Then
-- `handle_events` returns. The manager's events and those handed back make up the events, each in its
-- order; the letters handed back are those typed, less every s; and each release that the manager keeps
-- is of a button held before: by a press that it kept, with no other release since, or at first. The flag
-- says in the end whether one is held.
pub handle_events_lem :
    (ends : Ends) (down : Bool) (st : Hold) (evs : List Event) (e : Expanse) (es : List Expanse)
    → ends.mine ≡ 0
    → ends.new ≡ 0
    → (mine : List Event) × (new : List Event) × (down' : Bool) × (st' : Hold) × (calls : List Call)
      × (handle_events ends down st evs (e ∷ es) ≡ some (new, down', st', calls))
      × Shuffle mine new evs
      × (typed new ≡ without_s (typed evs))
      × (watch down mine ≡ some down')
unfolding handle_events Option.bind
handle_events_lem ends down st evs e es mine_end new_end =
    let (mine, new, down', eq, sh, t, r) = divide_lem down evs e es in
    let both =
      both_true _ _ (closed-zero ends.mine mine mine_end) (closed-zero ends.new new new_end) in
    let (st', calls) = act_all (e ∷ es) st mine in
    (mine, new, down', st', calls, rw eq (rw both refl), sh, t, r)
