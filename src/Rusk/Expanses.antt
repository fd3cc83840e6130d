-- ===== src/Rusk/Expanses.antt =====
-- prgm/rusk/src/rusk.c: the list of expanses (windows), the front one first. `malloc` is taken to
-- succeed. `raw` is the block that it returns, whose fields keep what they held until they are
-- written; a pointer to a linear buffer is an option of its bytes.
pub mod Handles
pub mod Reach
mod Examples
use mathlib.Core.Option
use frosk.Prelude.{
  ℕ, ◌+◌, Bool, true, false, Option, none, some, List, [], ◌∷◌, ◌==◌, if◌then◌else◌, replicate,
}
use frosk.Prelude.Int.{ℤ, pos, pos_part, ◌+ℤ◌}

pub record Pixel : Type 0 where
  pub r : ℕ
  pub g : ℕ
  pub b : ℕ

-- `pixel_buffer`, by columns
pub record PixelBuffer : Type 0 where
  pub buffer : List (List Pixel)
  pub width : ℤ
  pub height : ℤ

pub record ApiExpanse : Type 0 where
  pub width : ℤ
  pub height : ℤ
  pub attributes : ℕ

pub record Expanse : Type 0 where
  pub x : ℤ
  pub y : ℤ
  pub sub_offset_x : ℤ
  pub sub_offset_y : ℤ
  pub width : ℤ
  pub height : ℤ
  pub visible : Bool
  pub handle : ℕ
  pub api_exp : ApiExpanse

pub record FullExpanse : Type 0 where
  pub exp : Expanse
  pub expanse_buffer : PixelBuffer
  pub top_buffer : PixelBuffer
  pub pid : ℕ
  pub lbuf : Option (List ℕ)
  pub dirty_lbuf : Bool
  pub tlbuf : Option (List ℕ)
  pub dirty_tlbuf : Bool

-- a call of `gr_fill`
pub record Fill : Type 0 where
  pub color : Pixel
  pub x : ℤ
  pub y : ℤ
  pub w : ℤ
  pub h : ℤ

-- `expanses` and `count`
pub record Server : Type 0 where
  pub expanses : List FullExpanse
  pub count : ℕ

abbrev pub handle_of : FullExpanse → ℕ
handle_of f = f.exp.handle

abbrev pub pixel : ℕ → ℕ → ℕ → Pixel
pixel r g b = record { r = r; g = g; b = b }

-- `create_buffer` of bufferutils.c
unfoldable pub create_buffer : ℤ → ℤ → Pixel → PixelBuffer
create_buffer w h fill = record {
  buffer = replicate (pos_part w) (replicate (pos_part h) fill);
  width = w;
  height = h;
}

unfoldable pub new_expanse : FullExpanse → ApiExpanse → ℕ → ℕ → FullExpanse
new_expanse raw e pid count = record raw {
  exp = record {
    x = pos 10;
    y = pos 10;
    sub_offset_x = pos 0;
    sub_offset_y = pos 0;
    width = e.width;
    height = e.height;
    visible = true;
    handle = count;
    api_exp = e;
  };
  expanse_buffer = create_buffer e.width e.height (pixel 0 128 0);
  pid = pid;
  lbuf = none;
  dirty_lbuf = true;
}

unfoldable pub add_expanse : FullExpanse → ApiExpanse → ℕ → Server → Expanse × Server
add_expanse raw e pid s =
    let new_e = new_expanse raw e pid s.count in
    (new_e.exp, record { expanses = new_e ∷ s.expanses; count = s.count + 1 })

-- the list behind the first expanse, less the first one of it with the handle
unfoldable pub unlink : ℕ → List FullExpanse → List FullExpanse
unlink e [] = []
unlink e (f ∷ fs) = let rest = f ∷ unlink e fs in if handle_of f == e then fs else rest

unfoldable pub remove_from : ℕ → List FullExpanse → List FullExpanse
remove_from e [] = []
remove_from e (f ∷ []) = if handle_of f == e then [] else f ∷ []
remove_from e (f ∷ g ∷ fs) = f ∷ unlink e (g ∷ fs)

unfoldable pub remove_expanse : ℕ → Server → Server
remove_expanse e s = record s { expanses = remove_from e s.expanses }

-- the two fills of `update_expanse`, of the expanse as it was
abbrev pub erased : FullExpanse → List Fill
erased f =
    record { color = pixel 0 0 0; x = f.exp.x; y = f.exp.y; w = f.exp.width; h = f.exp.height }
    ∷ record {
      color = pixel 0 0 0;
      x = f.exp.x +ℤ f.exp.sub_offset_x;
      y = f.exp.y +ℤ f.exp.sub_offset_y;
      w = f.top_buffer.width;
      h = f.top_buffer.height;
    }
    ∷ []

unfoldable pub update_in : Expanse → List FullExpanse → List Fill × List FullExpanse
update_in e [] = ([], [])
update_in e (f ∷ fs) =
    let (fills, fs') = update_in e fs in
    if handle_of f == e.handle
    then (erased f, record f { dirty_lbuf = true; exp = e } ∷ fs)
    else (fills, f ∷ fs')

-- `update_expanse`, with the fills that it makes
unfoldable pub update_expanse : Expanse → Server → List Fill × Server
update_expanse e s = let (fills, fs) = update_in e s.expanses in (fills, record s { expanses = fs })

-- the first expanse of a list with the handle, and the list without it
unfoldable pub extract : ℕ → List FullExpanse → Option (FullExpanse × List FullExpanse)
extract e [] = none
extract e (f ∷ fs) =
    let rest = Option.map (λ (g, gs). (g, f ∷ gs)) (extract e fs) in
    if handle_of f == e then some (f, fs) else rest

unfoldable pub bring_to_front : ℕ → List FullExpanse → List FullExpanse
bring_to_front e [] = []
bring_to_front e (f ∷ []) = f ∷ []
bring_to_front e (f ∷ g ∷ fs) = elim (extract e (g ∷ fs)) [
  | none ↦ f ∷ g ∷ fs
  | some (first, rest) ↦ first ∷ f ∷ rest
]

unfoldable pub bring_expanse_to_front : ℕ → Server → Server
bring_expanse_to_front e s = record s { expanses = bring_to_front e s.expanses }

unfoldable pub decorate : ℕ → PixelBuffer → List FullExpanse → List FullExpanse
decorate e top [] = []
decorate e top (f ∷ fs) =
    let rest = f ∷ decorate e top fs in
    if handle_of f == e then record f { top_buffer = top; dirty_tlbuf = true } ∷ fs else rest

unfoldable pub set_decoration_buffers : Expanse → PixelBuffer → Server → Server
set_decoration_buffers e top s = record s { expanses = decorate e.handle top s.expanses }
