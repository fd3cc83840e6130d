-- ===== src/Comm/Buffers.antt =====
-- lib/ykw/src/bufferutils.c: pixel buffers, by columns, that are copied, resized, sent and received.
-- `none` is a read outside a buffer, or a `receive` that waits for bytes that have not been sent;
-- width and height are not negative. What `malloc` and `realloc` leave in new memory is a parameter.
pub mod Sizes
pub mod Messages
use mathlib.Core.Option
use frosk.Prelude.{
  ℕ, zero, suc, ◌*◌, Bool, ◌&&◌, Option, none, some, List, [], ◌∷◌, ◌++◌, ◌==◌, take, length, ltb,
  if◌then◌else◌,
}
use frosk.Prelude.Int.{ℤ, pos_part}
use frosk.Rusk.Expanses.{Pixel, PixelBuffer, pixel}
use frosk.Comm.{Channel, int_bytes, int_value}

-- the first n items, all of them there
unfoldable pub items {ℓ} : {A : Type ℓ} → ℕ → List A → Option (List A)
items zero xs = some []
items (suc n) [] = none
items (suc n) (x ∷ xs) = Option.map (x ∷◌) (items n xs)

-- the inner loop of `copy_buffer` for each of n columns
unfoldable pub copy_columns : ℕ → ℕ → List (List Pixel) → Option (List (List Pixel))
copy_columns zero h cols = some []
copy_columns (suc n) h [] = none
copy_columns (suc n) h (c ∷ cols) =
    Option.bind (items h c) λ c'. Option.map (c' ∷◌) (copy_columns n h cols)

unfoldable pub copy_buffer : PixelBuffer → Option PixelBuffer
copy_buffer pb =
    Option.map (λ cols. record pb { buffer = cols })
      (copy_columns (pos_part pb.width) (pos_part pb.height) pb.buffer)

-- `realloc` of a column: `behind` is what follows the old pixels
unfoldable pub resize_column : ℕ → List Pixel → List Pixel → List Pixel
resize_column h behind c = take h (c ++ behind)

-- The columns up to the new width, from those there are and then from `malloc`. The columns that are
-- left count which one is made.
unfoldable pub resize_columns :
    ℕ → ℕ → (ℕ → List Pixel) → (ℕ → List Pixel) → List (List Pixel) → List (List Pixel)
resize_columns zero h behind fresh cols = []
resize_columns (suc w) h behind fresh [] = fresh w ∷ resize_columns w h behind fresh []
resize_columns (suc w) h behind fresh (c ∷ cols) =
    resize_column h (behind w) c ∷ resize_columns w h behind fresh cols

abbrev pub same : ℤ → ℤ → Bool
same a b = pos_part a == pos_part b

unfoldable pub resize_buffer :
    (ℕ → List Pixel) → (ℕ → List Pixel) → ℤ → ℤ → PixelBuffer → PixelBuffer
resize_buffer behind fresh w h pb =
    let resized : PixelBuffer = record {
      buffer = resize_columns (pos_part w) (pos_part h) behind fresh pb.buffer;
      width = w;
      height = h;
    } in
    if same w pb.width && same h pb.height then pb else resized

unfoldable pub pixel_bytes : List Pixel → List ℕ
pixel_bytes [] = []
pixel_bytes (p ∷ ps) = p.r ∷ p.g ∷ p.b ∷ pixel_bytes ps

unfoldable pub pixels : List ℕ → List Pixel
pixels (r ∷ g ∷ b ∷ bs) = pixel r g b ∷ pixels bs
pixels bs = []

module _ {S : Type 0} (ch : Channel S) where
  unfoldable pub send_columns : ℕ → ℕ → List (List Pixel) → S → Option S
  send_columns zero h cols s = some s
  send_columns (suc n) h [] s = none
  send_columns (suc n) h (c ∷ cols) s =
      Option.bind (items h c) λ c'. send_columns n h cols (ch.send (pixel_bytes c') s)

  unfoldable pub send_buffer : PixelBuffer → S → Option S
  send_buffer pb s =
      send_columns (pos_part pb.width) (pos_part pb.height) pb.buffer
        (ch.send (int_bytes pb.height) (ch.send (int_bytes pb.width) s))

  unfoldable pub receive_columns : ℕ → ℕ → S → Option (List (List Pixel) × S)
  receive_columns zero h s = some ([], s)
  receive_columns (suc n) h s =
      Option.bind (ch.receive (h * 3) s)
        λ (bs, s'). Option.map (λ (cols, s''). (pixels bs ∷ cols, s'')) (receive_columns n h s')

  -- `receive_buffer`, which makes a buffer and fills each of its columns
  unfoldable pub receive_buffer : S → Option (PixelBuffer × S)
  receive_buffer s = Option.bind (ch.receive 4 s) λ (bw, s₁).
      Option.bind (ch.receive 4 s₁) λ (bh, s₂).
        let w = int_value bw in
        let h = int_value bh in
        Option.map (λ (cols, s₃). (record { buffer = cols; width = w; height = h }, s₃))
          (receive_columns (pos_part w) (pos_part h) s₂)
