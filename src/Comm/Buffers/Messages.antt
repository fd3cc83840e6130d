-- ===== src/Comm/Buffers/Messages.antt =====
-- Messages of the pixel buffers of lib/ykw/src/bufferutils.c.
use mathlib.Core.Option
use frosk.Prelude.{
  ℕ, zero, suc, ◌+◌, ◌*◌, ◌^◌, ◌<◌, ◌≡◌, refl, ap, sym, ◌∙◌, subst, some, List, [], ◌∷◌, ◌++◌,
  append-nil, append_assoc, length, length-append, arith,
}
use frosk.Prelude.Int.{pos, pos_part}
use frosk.Rusk.Expanses.{Pixel, PixelBuffer}
use frosk.Comm.{Channel, word}
use frosk.Comm.Steady.{Steady, anything}
use frosk.Comm.Lists.{int_value-word}
use frosk.Comm.Buffers.{
  pixel_bytes, pixels, send_columns, send_buffer, receive_columns, receive_buffer,
}
use frosk.Comm.Buffers.Sizes.{AllOf, IsBuffer, items_all}

pixels-pixel_bytes : (ps : List Pixel) → pixels (pixel_bytes ps) ≡ ps
unfolding pixels pixel_bytes
pixels-pixel_bytes [] = refl
pixels-pixel_bytes (p ∷ ps) = ap (p ∷◌) (pixels-pixel_bytes ps)

length-pixel_bytes : (ps : List Pixel) → length (pixel_bytes ps) ≡ length ps * 3
unfolding pixel_bytes
length-pixel_bytes [] = refl
length-pixel_bytes (p ∷ ps) = omega (arith, length-pixel_bytes ps)

abbrev columns_bytes : List (List Pixel) → List ℕ
columns_bytes [] = []
columns_bytes (c ∷ cols) = pixel_bytes c ++ columns_bytes cols

module _ {S : Type 0} (ch : Channel S) (P : S → Type 0) (steady : Steady ch P) where
  send_columns_lem :
      (n h k : ℕ) (cols : List (List Pixel)) (s : S)
      → length cols ≡ n
      → AllOf h cols
      → ch.Room (length (columns_bytes cols) + k) s
      → (s' : S) × (send_columns ch n h cols s ≡ some s')
        × (ch.waiting s' ≡ ch.waiting s ++ columns_bytes cols)
        × (P s → P s')
        × ch.Room k s'
  unfolding send_columns Option.bind
  send_columns_lem zero h k [] s e all room = (
    s,
    refl,
    sym (append-nil (ch.waiting s)),
    λ p. p,
    ch.room_less k (0 + k) s (omega arith) room,
  )
  send_columns_lem zero h k (c ∷ cols) s e all room = absurd (omega arith)
  send_columns_lem (suc n) h k [] s e all room = absurd (omega arith)
  send_columns_lem (suc n) h k (c ∷ cols) s e (ec, all) room =
      let size = length-append (pixel_bytes c) (columns_bytes cols) in
      let all_room = length (pixel_bytes c ++ columns_bytes cols) + k in
      let (s', sent, w, p, left) =
        send_columns_lem n h k cols (ch.send (pixel_bytes c) s) (omega arith) all (
          ch.room-send (pixel_bytes c) (length (columns_bytes cols) + k) s (
            ch.room_less (length (pixel_bytes c) + (length (columns_bytes cols) + k)) all_room s
              (omega (arith, size)) room)) in
      (
        s',
        rw (items_all h c ec) sent,
        w
            ∙ ap (◌++ columns_bytes cols) (
                ch.waiting-send (pixel_bytes c) s
                  (ch.room_less (length (pixel_bytes c)) all_room s (omega (arith, size)) room))
            ∙ append_assoc (ch.waiting s) (pixel_bytes c) (columns_bytes cols),
        λ q. p (steady.on_send (pixel_bytes c) s q),
        left,
      )

  receive_columns_lem :
      (n h : ℕ) (cols : List (List Pixel)) (ys : List ℕ) (s : S)
      → length cols ≡ n
      → AllOf h cols
      → ch.Room 0 s
      → ch.waiting s ≡ columns_bytes cols ++ ys
      → (s' : S) × (receive_columns ch n h s ≡ some (cols, s'))
        × (ch.waiting s' ≡ ys)
        × (P s → P s')
  unfolding receive_columns Option.bind
  receive_columns_lem zero h [] ys s e all room w = (s, refl, w, λ p. p)
  receive_columns_lem zero h (c ∷ cols) ys s e all room w = absurd (omega arith)
  receive_columns_lem (suc n) h [] ys s e all room w = absurd (omega arith)
  receive_columns_lem (suc n) h (c ∷ cols) ys s e (ec, all) room w =
      let (s₁, e₁, w₁, left) =
        ch.receive_waiting (pixel_bytes c) (columns_bytes cols ++ ys) s room
          (w ∙ append_assoc (pixel_bytes c) (columns_bytes cols) ys) in
      let (s₂, e₂, w₂, p) = receive_columns_lem n h cols ys s₁ (omega arith) all left w₁ in
      let size : length (pixel_bytes c) ≡ h * 3 = length-pixel_bytes c ∙ ap (◌* 3) ec in
      let got = subst (λ k. ch.receive k s ≡ some (pixel_bytes c, s₁)) size e₁ in
      (
        s₂,
        rw got (rw e₂ (rw (pixels-pixel_bytes c) refl)),
        w₂,
        λ q. p (steady.on_receive (h * 3) s (pixel_bytes c) s₁ got q),
      )

abbrev buffer_of : List (List Pixel) → ℕ → ℕ → PixelBuffer
buffer_of cols w h = record { buffer = cols; width = pos w; height = pos h }

buffer_of_lem : (pb : PixelBuffer) (w h : ℕ) → IsBuffer pb w h → buffer_of pb.buffer w h ≡ pb
buffer_of_lem pb w h (ew, eh, n, all) i = record {
  buffer = pb.buffer;
  width = sym ew i;
  height = sym eh i;
}

receive_buffer_steps :
    {S : Type 0} (ch : Channel S) (cols : List (List Pixel)) (w h : ℕ) (s₁ s₂ s₃ s₄ : S)
    → w < 2 ^ 31
    → h < 2 ^ 31
    → ch.receive 4 s₁ ≡ some (word w, s₂)
    → ch.receive 4 s₂ ≡ some (word h, s₃)
    → receive_columns ch w h s₃ ≡ some (cols, s₄)
    → receive_buffer ch s₁ ≡ some (buffer_of cols w h, s₄)
unfolding receive_buffer Option.bind
receive_buffer_steps ch cols w h s₁ s₂ s₃ s₄ sw sh e₁ e₂ e₃ =
    rw e₁ (rw e₂ (rw (int_value-word w sw) (rw (int_value-word h sh) (rw e₃ refl))))

-- the bytes of the message of a buffer
abbrev pub buffer_message : PixelBuffer → List ℕ
buffer_message pb =
    word (pos_part pb.width) ++ (word (pos_part pb.height) ++ columns_bytes pb.buffer)

-- a buffer that can be sent
abbrev pub Sendable : PixelBuffer → Type 0
Sendable pb = (w : ℕ) × (h : ℕ) × IsBuffer pb w h × (w < 2 ^ 31) × (h < 2 ^ 31)

module _ {S : Type 0} (ch : Channel S) (P : S → Type 0) (steady : Steady ch P) where
  pub waiting-send_buffer :
      (pb : PixelBuffer) (k : ℕ) (s : S)
      → Sendable pb
      → ch.Room (length (buffer_message pb) + k) s
      → (s₁ : S) × (send_buffer ch pb s ≡ some s₁)
        × (ch.waiting s₁ ≡ ch.waiting s ++ buffer_message pb)
        × (P s → P s₁)
        × ch.Room k s₁
  unfolding send_buffer
  waiting-send_buffer pb k s (w, h, (ew, eh, n, all), small, small') room =
      let s' = ch.send (word h) (ch.send (word w) s) in
      let size = length (columns_bytes pb.buffer) in
      let full = length (buffer_message pb) + k in
      let room_w = ch.room_less (4 + (4 + (size + k))) full s (omega arith) room in
      let room_h = ch.room-send (word w) (4 + (size + k)) s room_w in
      let (s₁, sent, w₁, p, left) =
        send_columns_lem ch P steady w h k pb.buffer s' n all
          (ch.room-send (word h) (size + k) (ch.send (word w) s) room_h) in
      (
        s₁,
        rw (ew, eh) sent,
        w₁
            ∙ ap (◌++ columns_bytes pb.buffer) (
                ch.waiting-send (word h) (ch.send (word w) s)
                  (ch.room_less 4 (4 + (size + k)) (ch.send (word w) s) (omega arith) room_h)
                ∙ ap (◌++ word h)
                    (ch.waiting-send (word w) s (ch.room_less 4 full s (omega arith) room)))
            ∙ rw (ew, eh)
                (append_assoc (ch.waiting s ++ word w) (word h) (columns_bytes pb.buffer)
                  ∙ append_assoc (ch.waiting s) (word w) (word h ++ columns_bytes pb.buffer)),
        λ q. p (steady.on_send (word h) (ch.send (word w) s) (steady.on_send (word w) s q)),
        left,
      )

  pub receive_buffer_waiting :
      (pb : PixelBuffer) (ys : List ℕ) (s : S)
      → Sendable pb
      → ch.Room 0 s
      → ch.waiting s ≡ buffer_message pb ++ ys
      → (s₁ : S) × (receive_buffer ch s ≡ some (pb, s₁)) × (ch.waiting s₁ ≡ ys) × (P s → P s₁)
  receive_buffer_waiting pb ys s (w, h, (ew, eh, n, all), small, small') room waits =
      let split : buffer_message pb ++ ys ≡ word w ++ (word h ++ (columns_bytes pb.buffer ++ ys)) =
        rw (ew, eh)
          (append_assoc (word w) (word h ++ columns_bytes pb.buffer) ys
            ∙ ap (word w ++◌) (append_assoc (word h) (columns_bytes pb.buffer) ys)) in
      let (s₂, e₂, w₂, left) =
        ch.receive_waiting (word w) (word h ++ (columns_bytes pb.buffer ++ ys)) s room
          (waits ∙ split) in
      let (s₃, e₃, w₃, left') =
        ch.receive_waiting (word h) (columns_bytes pb.buffer ++ ys) s₂ left w₂ in
      let (s₄, e₄, w₄, p) = receive_columns_lem ch P steady w h pb.buffer ys s₃ n all left' w₃ in
      (
        s₄,
        receive_buffer_steps ch pb.buffer w h s s₂ s₃ s₄ small small' e₂ e₃ e₄
            ∙ ap (λ b. some (b, s₄)) (buffer_of_lem pb w h (ew, eh, n, all)),
        w₄,
        λ q. p (steady.on_receive 4 s₂ (word h) s₃ e₃ (steady.on_receive 4 s (word w) s₂ e₂ q)),
      )

-- A buffer of the given size, less than 2^31 each way, is sent to a port at which nothing waits and that
-- has room for the message: its size and its pixels. Then `send_buffer` returns, `receive_buffer` returns the buffer, and nothing is left at the port.
pub receive_buffer-send_buffer :
    {S : Type 0} (ch : Channel S) (pb : PixelBuffer) (w h : ℕ) (s : S)
    → IsBuffer pb w h
    → w < 2 ^ 31
    → h < 2 ^ 31
    → ch.Room (length (buffer_message pb)) s
    → ch.waiting s ≡ []
    → (s₁ : S) × (s₂ : S) × (send_buffer ch pb s ≡ some s₁)
      × (receive_buffer ch s₁ ≡ some (pb, s₂))
      × (ch.waiting s₂ ≡ [])
receive_buffer-send_buffer ch pb w h s is small small' room empty =
    let (s₁, sent, w₁, p, left) =
      waiting-send_buffer ch (λ t. Unit {0}) (anything ch) pb 0 s (w, h, is, small, small')
        (ch.room_less (length (buffer_message pb) + 0) (length (buffer_message pb)) s (omega arith)
          room) in
    let (s₂, e₂, w₂, q) =
      receive_buffer_waiting ch (λ t. Unit {0}) (anything ch) pb [] s₁ (w, h, is, small, small')
        left (w₁ ∙ ap (◌++ buffer_message pb) empty ∙ sym (append-nil (buffer_message pb))) in
    (s₁, s₂, sent, e₂, w₂)
