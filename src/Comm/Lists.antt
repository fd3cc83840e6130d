-- ===== src/Comm/Lists.antt =====
-- Lists that are sent and received, of lib/events/src/events.c and lib/expanse/src/expanse.c.
use mathlib.Core.Option
use frosk.Prelude.{
  ℕ, ◌+◌, ◌^◌, ◌<◌, ◌≡◌, refl, ap, sym, ◌∙◌, subst, some, List, [], ◌∷◌, ◌++◌, append-nil,
  append_assoc, length, length-append, arith,
}
use frosk.Prelude.Int.{pos}
use frosk.Comm.{
  Channel, Struct, word, unsigned, int_bytes, int_value, send_items, send_list, receive_items,
  get_events, receive_exp_list,
}

pub unsigned-word : (n : ℕ) → n < 2 ^ 32 → unsigned (word n) ≡ n
unsigned-word n h = omega arith

pub int_value-word : (n : ℕ) → n < 2 ^ 31 → int_value (int_bytes (pos n)) ≡ pos n
int_value-word n h = rw (unsigned-word n (omega arith)) (ground arith)

module _ {S : Type 0} (ch : Channel S) {A : Type 0} (struct : Struct A) where
  abbrev pub encoded : List A → List ℕ
  encoded [] = []
  encoded (a ∷ xs) = struct.encode a ++ encoded xs

  waiting-send_items :
      (xs : List A) (s : S)
      → ch.Room (length (encoded xs)) s
      → (ch.waiting (send_items ch struct xs s) ≡ ch.waiting s ++ encoded xs)
        × ch.Room 0 (send_items ch struct xs s)
  unfolding send_items
  waiting-send_items [] s room = (sym (append-nil (ch.waiting s)), room)
  waiting-send_items (a ∷ xs) s room =
      let size = length-append (struct.encode a) (encoded xs) in
      let bs = struct.encode a in
      let (w, left) = waiting-send_items xs (ch.send bs s) (
        ch.room-send bs (length (encoded xs)) s (
          ch.room_less (length bs + length (encoded xs)) (length (bs ++ encoded xs)) s
            (omega (arith, size)) room)) in
      (
        w
            ∙ ap (◌++ encoded xs) (
                ch.waiting-send bs s (
                  ch.room_less (length bs) (length (bs ++ encoded xs)) s (omega (arith, size))
                    room))
            ∙ append_assoc (ch.waiting s) bs (encoded xs),
        left,
      )

  receive-encode :
      (a : A) (ys : List ℕ) (s : S)
      → ch.Room 0 s
      → ch.waiting s ≡ struct.encode a ++ ys
      → (s' : S) × (ch.receive struct.size s ≡ some (struct.encode a, s'))
        × (ch.waiting s' ≡ ys)
        × ch.Room 0 s'
  receive-encode a ys s room h =
      let (s', e, w, left) = ch.receive_waiting (struct.encode a) ys s room h in
      (
        s',
        subst (λ n. ch.receive n s ≡ some (struct.encode a, s')) (struct.length-encode a) e,
        w,
        left,
      )

  receive_items_lem :
      (xs : List A) (ys : List ℕ) (s : S)
      → ch.Room 0 s
      → ch.waiting s ≡ encoded xs ++ ys
      → (s' : S) × (receive_items ch struct (length xs) s ≡ some (xs, s')) × (ch.waiting s' ≡ ys)
  unfolding receive_items Option.bind
  receive_items_lem [] ys s room h = (s, refl, h)
  receive_items_lem (a ∷ xs) ys s room h =
      let (s', e, w, left) =
        receive-encode a (encoded xs ++ ys) s room
          (h ∙ append_assoc (struct.encode a) (encoded xs) ys) in
      let (s'', e', w') = receive_items_lem xs ys s' left w in
      (s'', rw e (rw e' (rw (struct.decode-encode a) refl)), w')

  -- the bytes of the message of a list
  abbrev pub message : List A → List ℕ
  message xs = word (length xs) ++ encoded xs

  pub waiting-send_list :
      (xs : List A) (s : S)
      → ch.Room (length (message xs)) s
      → (ch.waiting (send_list ch struct xs s) ≡ ch.waiting s ++ message xs)
        × ch.Room 0 (send_list ch struct xs s)
  unfolding send_list
  waiting-send_list xs s room =
      let (w, left) = waiting-send_items xs (ch.send (word (length xs)) s) (
        ch.room-send (word (length xs)) (length (encoded xs)) s
          (ch.room_less (4 + length (encoded xs)) (length (message xs)) s (omega arith) room)) in
      (
        w
            ∙ ap (◌++ encoded xs) (
                ch.waiting-send (word (length xs)) s
                  (ch.room_less 4 (length (message xs)) s (omega arith) room))
            ∙ append_assoc (ch.waiting s) (word (length xs)) (encoded xs),
        left,
      )

  -- A list of fewer than 2^32 events is sent to a port at which nothing waits and
  -- that has room for it. Then `get_events`
  -- returns exactly that list, and nothing is left at the port.
  pub get_events-send_list :
      (xs : List A) (s : S)
      → ch.Room (length (message xs)) s
      → ch.waiting s ≡ []
      → length xs < 2 ^ 32
      → (s' : S) × (get_events ch struct (send_list ch struct xs s) ≡ some (xs, s'))
        × (ch.waiting s' ≡ [])
  unfolding get_events Option.bind
  get_events-send_list xs s room h short =
      let (got, left) = waiting-send_list xs s room in
      let sent = got ∙ ap (◌++ message xs) h in
      let (s₁, e₁, w₁, left₁) =
        ch.receive_waiting (word (length xs)) (encoded xs) (send_list ch struct xs s) left sent in
      let (s₂, e₂, w₂) = receive_items_lem xs [] s₁ left₁ (w₁ ∙ sym (append-nil (encoded xs))) in
      (s₂, rw e₁ (rw (unsigned-word (length xs) short) e₂), w₂)

  -- A list of fewer than 2^31 expanses is sent to a port at which nothing waits and
  -- that has room for it. Then
  -- `receive_exp_list` returns exactly that list, and nothing is left at the port.
  pub receive_exp_list-send_list :
      (xs : List A) (s : S)
      → ch.Room (length (message xs)) s
      → ch.waiting s ≡ []
      → length xs < 2 ^ 31
      → (s' : S) × (receive_exp_list ch struct (send_list ch struct xs s) ≡ some (xs, s'))
        × (ch.waiting s' ≡ [])
  unfolding receive_exp_list Option.bind
  receive_exp_list-send_list xs s room h short =
      let (got, left) = waiting-send_list xs s room in
      let sent = got ∙ ap (◌++ message xs) h in
      let (s₁, e₁, w₁, left₁) =
        ch.receive_waiting (word (length xs)) (encoded xs) (send_list ch struct xs s) left sent in
      let (s₂, e₂, w₂) = receive_items_lem xs [] s₁ left₁ (w₁ ∙ sym (append-nil (encoded xs))) in
      (s₂, rw e₁ (rw (int_value-word (length xs) short) e₂), w₂)
