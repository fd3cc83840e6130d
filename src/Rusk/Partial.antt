-- ===== src/Rusk/Partial.antt =====
-- `update_partial` of prgm/rusk/src/rusk.c: pixels are copied into the buffer of an expanse. `none` is an
-- access outside a buffer.
use mathlib.Core.Option
use frosk.Prelude.{ℕ, zero, suc, true, Option, some, none, List, [], ◌∷◌, ◌==◌, if◌then◌else◌}
use frosk.Prelude.Int.{ℤ, pos, negsuc, pos_part}
use frosk.Rusk.Expanses.{Pixel, PixelBuffer, FullExpanse, Server, handle_of}
use frosk.Comm.Buffers.{copy_columns}

-- pixels are written over a column from y on
unfoldable pub overlay : ℕ → List Pixel → List Pixel → Option (List Pixel)
overlay y [] column = some column
overlay y (p ∷ ps) [] = none
overlay zero (p ∷ ps) (q ∷ column) = Option.map (p ∷◌) (overlay zero ps column)
overlay (suc y) (p ∷ ps) (q ∷ column) = Option.map (q ∷◌) (overlay y (p ∷ ps) column)

-- columns are written over those from x on
unfoldable pub overlay_columns :
    ℕ → ℕ → List (List Pixel) → List (List Pixel) → Option (List (List Pixel))
overlay_columns x y [] columns = some columns
overlay_columns x y (c ∷ cs) [] = none
overlay_columns zero y (c ∷ cs) (d ∷ columns) =
    Option.bind (overlay y c d) λ d'. Option.map (d' ∷◌) (overlay_columns zero y cs columns)
overlay_columns (suc x) y (c ∷ cs) (d ∷ columns) =
    Option.map (d ∷◌) (overlay_columns x y (c ∷ cs) columns)

unfoldable pub overlay_at :
    ℤ → ℤ → List (List Pixel) → List (List Pixel) → Option (List (List Pixel))
overlay_at x y [] columns = some columns
overlay_at (pos x) (pos y) (c ∷ cs) columns = overlay_columns x y (c ∷ cs) columns
overlay_at (pos x) (negsuc y) (c ∷ cs) columns = none
overlay_at (negsuc x) y (c ∷ cs) columns = none

-- the pixels that the loops of `update_partial` read
abbrev pub part_of : PixelBuffer → Option (List (List Pixel))
part_of p =
    if pos_part p.height == 0
    then some []
    else copy_columns (pos_part p.width) (pos_part p.height) p.buffer

unfoldable pub update_partial_of : PixelBuffer → ℤ → ℤ → FullExpanse → Option FullExpanse
update_partial_of p x y f = Option.bind (part_of p) λ cs.
    Option.map
      (λ columns. record f {
        expanse_buffer = record f.expanse_buffer { buffer = columns };
        dirty_lbuf = true;
      })
      (overlay_at x y cs f.expanse_buffer.buffer)

unfoldable pub update_partial_in :
    ℕ → PixelBuffer → ℤ → ℤ → List FullExpanse → Option (List FullExpanse)
update_partial_in handle p x y [] = some []
update_partial_in handle p x y (f ∷ fs) =
    let rest = Option.map (f ∷◌) (update_partial_in handle p x y fs) in
    if handle_of f == handle then Option.map (◌∷ fs) (update_partial_of p x y f) else rest

unfoldable pub update_partial : ℕ → PixelBuffer → ℤ → ℤ → Server → Option Server
update_partial handle p x y s =
    Option.map (λ fs. record s { expanses = fs }) (update_partial_in handle p x y s.expanses)
