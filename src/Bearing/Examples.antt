-- ===== src/Bearing/Examples.antt =====
-- Two windows with a header of 20 rows, and the theorems of Bearing at them.
use frosk.Prelude.{ℕ, ◌≡◌, refl, Bool, true, false, some, List, [], ◌∷◌, ◌++◌}
use frosk.Prelude.Int.{pos, negsuc, ◌+ℤ◌, ◌-ℤ◌}
use frosk.Rusk.Expanses.{Expanse}
use frosk.Rusk.Keys.{Event, mouse_down, mouse_up, key_down}
use frosk.Bearing.{
  Hold, Ends, Call, update, switch, setup_borders, in_range_header, in_range, in_resize,
  handle_events,
}
use frosk.Bearing.Filter.{Shuffle, typed, watch, handle_events_lem}
use frosk.Bearing.Drag.{sized, drag_lem, resize_lem}

abbrev window : ℕ → ℕ → ℕ → Expanse
window handle x y = record {
  x = pos x;
  y = pos y;
  sub_offset_x = pos 0;
  sub_offset_y = negsuc 19;
  width = pos 100;
  height = pos 50;
  visible = true;
  handle = handle;
  api_exp = record { width = pos 100; height = pos 50; attributes = 0 };
}

abbrev start : Hold
start = record { mdx = pos 0; mdy = pos 0; exp = window 1 200 200; resize = false }

abbrev null_ends : Ends
null_ends = record { mine = 0; new = 0 }

abbrev events : List Event
events = mouse_down (pos 30) (pos 90) 1 ∷ mouse_up (pos 40) (pos 95) 1 ∷ []

drag_lem_example :
    handle_events null_ends false start events (window 1 200 200 ∷ window 2 20 100 ∷ [])
    ≡ some (
      [],
      false,
      record { mdx = pos 30; mdy = pos 90; exp = window 2 30 105; resize = false },
      switch (window 1 200 200) (window 2 20 100) ++ (update (window 2 30 105) ∷ []),
    )
unfolding in_range_header in_range in_resize ◌+ℤ◌ ◌-ℤ◌
drag_lem_example =
    drag_lem null_ends false start (pos 30) (pos 90) (pos 40) (pos 95) 1 1 (window 1 200 200 ∷ [])
      (window 2 20 100) [] refl (refl, tt) refl refl refl

handle_events_lem_example :
    (mine : List Event) × (new : List Event) × (down' : Bool) × (st' : Hold) × (calls : List Call)
    × (handle_events null_ends false start
          (key_down b's' false false false ∷ events)
          (window 2 20 100 ∷ [])
        ≡ some (new, down', st', calls))
    × Shuffle mine new (key_down b's' false false false ∷ events)
    × (typed new ≡ [])
    × (watch false mine ≡ some down')
handle_events_lem_example =
    handle_events_lem null_ends false start (key_down b's' false false false ∷ events)
      (window 2 20 100) [] refl refl

resize_lem_example :
    handle_events null_ends false start
      (mouse_down (pos 115) (pos 145) 1 ∷ mouse_up (pos 125) (pos 150) 1 ∷ [])
      (window 1 200 200 ∷ window 2 20 100 ∷ [])
    ≡ some (
      [],
      false,
      record {
        mdx = pos 115;
        mdy = pos 145;
        exp = sized (pos 115) (pos 145) (pos 125) (pos 150) (window 2 20 100);
        resize = true;
      },
      switch (window 1 200 200) (window 2 20 100)
          ++ (update (sized (pos 115) (pos 145) (pos 125) (pos 150) (window 2 20 100))
              ∷ setup_borders 0 0 100
                  (sized (pos 115) (pos 145) (pos 125) (pos 150) (window 2 20 100))
              ∷ []),
    )
unfolding in_range_header in_range in_resize ◌+ℤ◌ ◌-ℤ◌
resize_lem_example =
    resize_lem null_ends false start (pos 115) (pos 145) (pos 125) (pos 150) 1 1
      (window 1 200 200 ∷ []) (window 2 20 100) [] refl (refl, tt) refl refl refl
