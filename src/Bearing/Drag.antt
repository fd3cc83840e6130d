-- ===== src/Bearing/Drag.antt =====
-- A window is dragged and resized through prgm/bearing/src/bearing.c.
use mathlib.Core.Option
use frosk.Prelude.{
  ℕ, ◌≡◌, refl, Bool, true, false, not, ◌&&◌, ◌||◌, some, List, [], ◌∷◌, ◌++◌, arith, ◌==◌,
}
use frosk.Prelude.Int.{ℤ, ◌+ℤ◌, ◌-ℤ◌}
use frosk.Rusk.Expanses.{Expanse}
use frosk.Rusk.Keys.{mouse_down, mouse_up}
use frosk.Bearing.{
  Hold, Ends, update, switch, setup_borders, in_range_header, in_range, in_resize, in_some,
  check_event, divide, press, act, act_all, handle_events,
}

-- the point is in no part of the window
abbrev pub misses : ℤ → ℤ → Expanse → Bool
misses x y e = not (in_resize x y e) && not (in_range x y e) && not (in_range_header x y e)

abbrev pub AllMiss : ℤ → ℤ → List Expanse → Type 0
AllMiss x y [] = Unit
AllMiss x y (e ∷ es) = (misses x y e ≡ true) × AllMiss x y es

in_some-behind :
    (x y : ℤ) (before : List Expanse) (e : Expanse) (after : List Expanse)
    → (in_range_header x y e || in_range x y e) ≡ true
    → in_some x y (before ++ (e ∷ after)) ≡ true
unfolding in_some
in_some-behind x y [] e after h = rw h refl
in_some-behind x y (f ∷ before) e after h =
    let rest = in_some-behind x y before e after h in ground (arith, rest)

press-behind :
    (x y : ℤ) (before : List Expanse) (e : Expanse) (after : List Expanse) (st : Hold)
    → AllMiss x y before
    → press x y (before ++ (e ∷ after)) st ≡ press x y (e ∷ after) st
unfolding press
press-behind x y [] e after st h = refl
press-behind x y (f ∷ before) e after st (h, hs) =
    let rest = press-behind x y before e after st hs in ground (arith, rest, h)

-- the press is the manager's
check_event-own :
    (down : Bool) (x y : ℤ) (b : ℕ) (before : List Expanse) (e : Expanse) (after : List Expanse)
    → AllMiss x y before
    → (in_range_header x y e || in_range x y e) ≡ true
    → (in_range x y e && not (in_resize x y e)) ≡ false
    → check_event down (mouse_down x y b) (before ++ (e ∷ after)) ≡ some (true, true)
unfolding check_event
check_event-own down x y b [] e after h on_window other =
    let hit = in_some-behind x y [] e after on_window in ground (arith, hit, other)
check_event-own down x y b (f ∷ before) e after (h, hs) on_window other =
    let hit = in_some-behind x y (f ∷ before) e after on_window in ground (arith, hit, h)

divide_pair :
    (down : Bool) (x y x' y' : ℤ) (b b' : ℕ) (es : List Expanse)
    → check_event down (mouse_down x y b) es ≡ some (true, true)
    → divide down (mouse_down x y b ∷ mouse_up x' y' b' ∷ []) es
      ≡ some (mouse_down x y b ∷ mouse_up x' y' b' ∷ [], [], false)
unfolding divide check_event Option.bind
divide_pair down x y x' y' b b' es h = rw h refl

-- the window moved, and resized, by the way from one point to another
abbrev pub moved : ℤ → ℤ → ℤ → ℤ → Expanse → Expanse
moved x y x' y' e = record e { x = e.x +ℤ (x' -ℤ x); y = e.y +ℤ (y' -ℤ y) }

abbrev pub sized : ℤ → ℤ → ℤ → ℤ → Expanse → Expanse
sized x y x' y' e = record e { width = e.width +ℤ (x' -ℤ x); height = e.height +ℤ (y' -ℤ y) }

-- A button is pressed on the header of a window, outside the window itself and its corner, where no
-- window in front of it lies, and released elsewhere. Then both events are the manager's; it takes
-- up the window with the three calls for that, and the release moves the window, as it stood in
-- the list, by the way of the pointer, with its size as it was. That `malloc` leaves NULL at the end of
-- the manager's list, on which the code relies, is a condition.
pub drag_lem :
    (ends : Ends) (down : Bool) (st : Hold) (x y x' y' : ℤ) (b b' : ℕ) (before : List Expanse)
    (e : Expanse) (after : List Expanse)
    → ends.mine ≡ 0
    → AllMiss x y before
    → in_range_header x y e ≡ true
    → in_range x y e ≡ false
    → in_resize x y e ≡ false
    → handle_events ends down st (mouse_down x y b ∷ mouse_up x' y' b' ∷ []) (before ++ (e ∷ after))
      ≡ some (
        [],
        false,
        record { mdx = x; mdy = y; exp = moved x y x' y' e; resize = false },
        switch st.exp e ++ (update (moved x y x' y' e) ∷ []),
      )
unfolding handle_events act_all act press Option.bind
drag_lem ends down st x y x' y' b b' before e after null missed header inside corner =
    let own = check_event-own down x y b before e after missed (rw header refl) (rw inside refl) in
    let is_null : (ends.mine == 0) ≡ true = ground (arith, null) in
    let took = press-behind x y before e after (record st { mdx = x; mdy = y }) missed in
    rw (divide_pair down x y x' y' b b' (before ++ (e ∷ after)) own)
      (rw took (rw (corner, header, inside, press) (rw is_null refl)))

-- A button is pressed in the lower right corner of a window other than the one held, where no window
-- in front of it lies, and released elsewhere. Then the manager takes up the window, and the release
-- resizes it by the way of the pointer, at its place as it was, and draws its border again. That
-- `malloc` leaves NULL at the end of the manager's list is a condition.
pub resize_lem :
    (ends : Ends) (down : Bool) (st : Hold) (x y x' y' : ℤ) (b b' : ℕ) (before : List Expanse)
    (e : Expanse) (after : List Expanse)
    → ends.mine ≡ 0
    → AllMiss x y before
    → in_range x y e ≡ true
    → in_resize x y e ≡ true
    → (st.exp.handle == e.handle) ≡ false
    → handle_events ends down st (mouse_down x y b ∷ mouse_up x' y' b' ∷ []) (before ++ (e ∷ after))
      ≡ some (
        [],
        false,
        record { mdx = x; mdy = y; exp = sized x y x' y' e; resize = true },
        switch st.exp e
            ++ (update (sized x y x' y' e) ∷ setup_borders 0 0 100 (sized x y x' y' e) ∷ []),
      )
unfolding handle_events act_all act press Option.bind
resize_lem ends down st x y x' y' b b' before e after null missed inside corner other =
    let own =
      check_event-own down x y b before e after missed (ground (arith, inside))
        (rw (corner, inside) refl) in
    let is_null : (ends.mine == 0) ≡ true = ground (arith, null) in
    let took = press-behind x y before e after (record st { mdx = x; mdy = y }) missed in
    rw (divide_pair down x y x' y' b b' (before ++ (e ∷ after)) own)
      (rw took (rw (corner, other, press) (rw is_null refl)))
