-- ===== src/Comm/Buffers/Sizes.antt =====
-- Copies and new sizes of the pixel buffers of lib/ykw/src/bufferutils.c.
use mathlib.Core.Option
use frosk.Prelude.{
  ℕ, zero, suc, ◌+◌, ◌≤◌, ◌<◌, ◌≡◌, refl, ap, some, List, [], ◌∷◌, ◌++◌, length, length-append,
  arith, take, ◌==◌, get_or, Bool-cases, ◌⊎◌, inl, inr, ◌&&◌,
}
use frosk.Prelude.Int.{pos}
use frosk.Rusk.Expanses.{Pixel, PixelBuffer}
use frosk.Comm.Buffers.{
  items, copy_columns, copy_buffer, resize_column, resize_columns, resize_buffer,
}

-- as many columns as the width, of as many pixels as the height
abbrev pub AllOf : ℕ → List (List Pixel) → Type 0
AllOf h [] = Unit
AllOf h (c ∷ cols) = (length c ≡ h) × AllOf h cols

abbrev pub IsBuffer : PixelBuffer → ℕ → ℕ → Type 0
IsBuffer pb w h =
    (pb.width ≡ pos w) × (pb.height ≡ pos h) × (length pb.buffer ≡ w) × AllOf h pb.buffer

pub items_all {ℓ} : {A : Type ℓ} (n : ℕ) (xs : List A) → length xs ≡ n → items n xs ≡ some xs
unfolding items
items_all zero [] h = refl
items_all zero (x ∷ xs) h = absurd (omega arith)
items_all (suc n) [] h = absurd (omega arith)
items_all (suc n) (x ∷ xs) h = rw (items_all n xs (omega arith)) refl

copy_columns_lem :
    (n h : ℕ) (cols : List (List Pixel))
    → length cols ≡ n
    → AllOf h cols
    → copy_columns n h cols ≡ some cols
unfolding copy_columns Option.bind
copy_columns_lem zero h [] e all = refl
copy_columns_lem zero h (c ∷ cols) e all = absurd (omega arith)
copy_columns_lem (suc n) h [] e all = absurd (omega arith)
copy_columns_lem (suc n) h (c ∷ cols) e (ec, all) =
    rw (items_all h c ec) (rw (copy_columns_lem n h cols (omega arith) all) refl)

length-take {ℓ} : {A : Type ℓ} (n : ℕ) (xs : List A) → n ≤ length xs → length (take n xs) ≡ n
length-take zero xs h = refl
length-take (suc n) [] h = absurd (omega arith)
length-take (suc n) (x ∷ xs) h = ap suc (length-take n xs (omega arith))

get_or-take_append {ℓ} :
    {A : Type ℓ} (n : ℕ) (xs ys : List A) (j : ℕ) (d : A)
    → j < n
    → j < length xs
    → get_or (take n (xs ++ ys)) j d ≡ get_or xs j d
get_or-take_append zero xs ys j d h h' = absurd (omega arith)
get_or-take_append (suc n) [] ys j d h h' = absurd (omega arith)
get_or-take_append (suc n) (x ∷ xs) ys zero d h h' = refl
get_or-take_append (suc n) (x ∷ xs) ys (suc j) d h h' =
    get_or-take_append n xs ys j d (omega arith) (omega arith)

module _ (h h' : ℕ) (behind fresh : ℕ → List Pixel) (enough : (n : ℕ) → h' ≤ h + length (behind n))
    (made : (n : ℕ) → length (fresh n) ≡ h') where
  resize_column_lem :
      (n : ℕ) (c : List Pixel) → length c ≡ h → length (resize_column h' (behind n) c) ≡ h'
  unfolding resize_column
  resize_column_lem n c e =
      let more = enough n in
      let l = length-append c (behind n) in
      length-take h' (c ++ behind n) (omega (arith, more, l, e))

  resize_columns-AllOf :
      (w : ℕ) (cols : List (List Pixel))
      → AllOf h cols
      → (length (resize_columns w h' behind fresh cols) ≡ w)
        × AllOf h' (resize_columns w h' behind fresh cols)
  unfolding resize_columns
  resize_columns-AllOf zero cols all = (refl, tt)
  resize_columns-AllOf (suc w) [] all =
      let (l, rest) = resize_columns-AllOf w [] tt in (ap suc l, (made w, rest))
  resize_columns-AllOf (suc w) (c ∷ cols) (e, all) =
      let (l, rest) = resize_columns-AllOf w cols all in (ap suc l, (resize_column_lem w c e, rest))

  resize_columns_kept :
      (w i j : ℕ) (cols : List (List Pixel)) (d : Pixel)
      → AllOf h cols
      → i < w
      → i < length cols
      → j < h
      → j < h'
      → get_or (get_or (resize_columns w h' behind fresh cols) i []) j d
        ≡ get_or (get_or cols i []) j d
  unfolding resize_columns resize_column
  resize_columns_kept zero i j cols d all iw ic jh jh' = absurd (omega arith)
  resize_columns_kept (suc w) i j [] d all iw ic jh jh' = absurd (omega arith)
  resize_columns_kept (suc w) zero j (c ∷ cols) d (e, all) iw ic jh jh' =
      get_or-take_append h' c (behind w) j d jh' (omega (arith, e))
  resize_columns_kept (suc w) (suc i) j (c ∷ cols) d (e, all) iw ic jh jh' =
      resize_columns_kept w i j cols d all (omega arith) (omega arith) jh jh'

-- A copy of a buffer is equal to it.
pub copy_buffer_lem : (pb : PixelBuffer) (w h : ℕ) → IsBuffer pb w h → copy_buffer pb ≡ some pb
unfolding copy_buffer
copy_buffer_lem pb w h (ew, eh, n, all) =
    rw (ew, eh) (rw (copy_columns_lem w h pb.buffer n all) refl)

abbrev resized : (behind fresh : ℕ → List Pixel) → PixelBuffer → ℕ → ℕ → PixelBuffer
resized behind fresh pb w' h' = record {
  buffer = resize_columns w' h' behind fresh pb.buffer;
  width = pos w';
  height = pos h';
}

resize_buffer-cases :
    (behind fresh : ℕ → List Pixel) (pb : PixelBuffer) (w h w' h' : ℕ)
    → pb.width ≡ pos w
    → pb.height ≡ pos h
    → ((w' ≡ w) × (h' ≡ h) × (resize_buffer behind fresh (pos w') (pos h') pb ≡ pb))
      ⊎ (resize_buffer behind fresh (pos w') (pos h') pb ≡ resized behind fresh pb w' h')
unfolding resize_buffer
resize_buffer-cases behind fresh pb w h w' h' ew eh = elim (Bool-cases ((w' == w) && (h' == h))) [
  | inl e ↦ inl (ground (arith, e), ground (arith, e), rw (ew, eh) (rw e refl))
  | inr e ↦ inr (rw (ew, eh) (rw e refl))
]

-- The memory that `realloc` gives behind a column is enough for the new height, and a column from
-- `malloc` has that height. Then `resize_buffer` of a buffer is a buffer of the new size, and each
-- pixel within both sizes is what it was.
pub resize_buffer_lem :
    (behind fresh : ℕ → List Pixel) (pb : PixelBuffer) (w h w' h' : ℕ)
    → IsBuffer pb w h
    → ((n : ℕ) → h' ≤ h + length (behind n))
    → ((n : ℕ) → length (fresh n) ≡ h')
    → IsBuffer (resize_buffer behind fresh (pos w') (pos h') pb) w' h'
      × ((i j : ℕ) (d : Pixel)
          → i < w
          → i < w'
          → j < h
          → j < h'
          → get_or (get_or (resize_buffer behind fresh (pos w') (pos h') pb).buffer i []) j d
            ≡ get_or (get_or pb.buffer i []) j d)
unfolding resize_buffer
resize_buffer_lem behind fresh pb w h w' h' (ew, eh, n, all) enough made =
    elim (resize_buffer-cases behind fresh pb w h w' h' ew eh) [
      | inl (e, e', same) ↦ rw (same, e, e') ((ew, eh, n, all), λ i j d iw iw' jh jh'. refl)
      | inr changed ↦
          let (l, alls) = resize_columns-AllOf h h' behind fresh enough made w' pb.buffer all in
          rw changed (
            (refl, refl, l, alls),
            λ i j d iw iw' jh jh'.
                resize_columns_kept h h' behind fresh enough made w' i j pb.buffer d all iw'
                  (omega (arith, iw, n)) jh jh',
          )
    ]
