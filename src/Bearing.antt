-- ===== src/Bearing.antt =====
-- prgm/bearing/src/bearing.c: the window manager. `handle_events` keeps the events that are its own
-- and hands the others back. An event is one that the window server makes. The code never sets `next` of
-- the last event of a list that it makes: `ends` is what `malloc` left there. `none` is a read through an
-- empty list of windows, or a list that goes on where such a pointer leads.
pub mod Filter
pub mod Drag
pub mod Serve
mod Examples
use mathlib.Core.Option
use frosk.Prelude.{
  ℕ, Bool, true, false, not, ◌&&◌, ◌||◌, Option, none, some, List, [], ◌∷◌, ◌++◌, ◌==◌,
  if◌then◌else◌,
}
use frosk.Prelude.Int.{ℤ, pos, ◌+ℤ◌, ◌-ℤ◌, leb_ℤ}
use frosk.Rusk.Expanses.{Expanse, PixelBuffer, pixel, create_buffer}
use frosk.Rusk.Keys.{Event, mouse_down, mouse_up, key_down}

abbrev pub between : ℤ → ℤ → ℤ → Bool
between low a high = leb_ℤ low a && leb_ℤ a high

unfoldable pub in_range_header : ℤ → ℤ → Expanse → Bool
in_range_header x y e = between e.x x (e.x +ℤ e.width) && between (e.y +ℤ e.sub_offset_y) y e.y

unfoldable pub in_range : ℤ → ℤ → Expanse → Bool
in_range x y e = between e.x x (e.x +ℤ e.width) && between e.y y (e.y +ℤ e.height)

unfoldable pub in_resize : ℤ → ℤ → Expanse → Bool
in_resize x y e =
    between (e.x +ℤ e.width -ℤ pos 10) x (e.x +ℤ e.width)
    && between (e.y +ℤ e.height -ℤ pos 10) y (e.y +ℤ e.height)

unfoldable pub in_some : ℤ → ℤ → List Expanse → Bool
in_some x y [] = false
in_some x y (e ∷ es) = (in_range_header x y e || in_range x y e) || in_some x y es

-- `check_event`: whether the event is the manager's, and the flag `mouse_down`
unfoldable pub check_event : Bool → Event → List Expanse → Option (Bool × Bool)
check_event down (key_down letter shift ctrl alt) es = some (letter == b's', down)
check_event down (mouse_down x y button) [] = none
check_event down (mouse_down x y button) (e ∷ es) =
    if in_range x y e && not (in_resize x y e)
    then some (false, down)
    else if in_some x y (e ∷ es)
    then some (true, true)
    else some (false, down)
check_event down (mouse_up x y button) es = if down then some (true, false) else some (false, down)

-- the first loop of `handle_events`: the manager's events, the others, and the flag
unfoldable pub divide : Bool → List Event → List Expanse → Option (List Event × List Event × Bool)
divide down [] es = some ([], [], down)
divide down (ev ∷ evs) es = Option.bind (check_event down ev es) λ (own, down').
    Option.map (λ (mine, new, end). if own then (ev ∷ mine, new, end) else (mine, ev ∷ new, end))
      (divide down' evs es)

-- the calls that the manager makes of the window server
pub data Call : Type 0 where
  update : Expanse → Call
  set_front : Expanse → Call
  borders : Expanse → PixelBuffer → Call

-- the static variables of `handle_events`
pub record Hold : Type 0 where
  pub mdx : ℤ
  pub mdy : ℤ
  pub exp : Expanse
  pub resize : Bool

unfoldable pub setup_borders : ℕ → ℕ → ℕ → Expanse → Call
setup_borders r g b e = borders e (create_buffer e.width (pos 0 -ℤ e.sub_offset_y) (pixel r g b))

-- the new window is held: the old one's border is dark, the new one's bright
abbrev pub switch : Expanse → Expanse → List Call
switch old new = setup_borders 40 40 40 old ∷ set_front new ∷ setup_borders 0 0 100 new ∷ []

-- the loop over the windows for a press
unfoldable pub press : ℤ → ℤ → List Expanse → Hold → Hold × List Call
press x y [] st = (st, [])
press x y (e ∷ es) st =
    let rest = press x y es st in
    if in_resize x y e
    then (if st.exp.handle == e.handle
        then (record st { resize = true }, [])
        else (record st { exp = e; resize = true }, switch st.exp e))
    else if in_range x y e || in_range_header x y e
    then (record st { exp = e; resize = false }, switch st.exp e)
    else rest

-- one round of the second loop of `handle_events`
unfoldable pub act : List Expanse → Hold → Event → Hold × List Call
act es st (key_down letter shift ctrl alt) =
    let exp = record st.exp { visible = not st.exp.visible } in
    if letter == b's' then (record st { exp = exp }, update exp ∷ []) else (st, [])
act es st (mouse_down x y button) = press x y es (record st { mdx = x; mdy = y })
act es st (mouse_up x y button) =
    let sized = record st.exp {
      width = st.exp.width +ℤ (x -ℤ st.mdx);
      height = st.exp.height +ℤ (y -ℤ st.mdy);
    } in
    let moved = record st.exp { x = st.exp.x +ℤ (x -ℤ st.mdx); y = st.exp.y +ℤ (y -ℤ st.mdy) } in
    if st.resize
    then (record st { exp = sized }, update sized ∷ setup_borders 0 0 100 sized ∷ [])
    else (record st { exp = moved }, update moved ∷ [])

unfoldable pub act_all : List Expanse → Hold → List Event → Hold × List Call
act_all es st [] = (st, [])
act_all es st (ev ∷ evs) =
    let (st', calls) = act es st ev in
    let (st'', more) = act_all es st' evs in (st'', calls ++ more)

-- what `malloc` left in `next` of the last of the manager's events, and of the others
pub record Ends : Type 0 where
  pub mine : ℕ
  pub new : ℕ

-- a list ends: it is NULL, or `next` of its last event is
abbrev pub closed : ℕ → List Event → Bool
closed end [] = true
closed end (ev ∷ evs) = end == 0

-- `handle_events`: the events handed back, the statics, and the calls made
unfoldable pub handle_events :
    Ends → Bool → Hold → List Event → List Expanse → Option (List Event × Bool × Hold × List Call)
handle_events ends down st evs es = Option.bind (divide down evs es) λ (mine, new, down').
    let (st', calls) = act_all es st mine in
    if closed ends.mine mine && closed ends.new new then some (new, down', st', calls) else none
