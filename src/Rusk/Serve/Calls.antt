-- ===== src/Rusk/Serve/Calls.antt =====
-- The calls of prgm/bearing/src/bearing_comm.c, served by prgm/rusk/src/rusk_comm.c.
use mathlib.Core.Option
use frosk.Prelude.{
  ◌+◌, ℕ, ◌≡◌, refl, sym, ap, ◌∙◌, some, List, [], ◌∷◌, ◌++◌, append_assoc, length, append-nil,
}
use frosk.Rusk.Expanses.{Server, update_expanse, bring_expanse_to_front, set_decoration_buffers}
use frosk.Comm.{Channel, word}
use frosk.Comm.Steady.{Steady}
use frosk.Comm.Buffers.Messages.{buffer_message, Sendable, waiting-send_buffer}
use frosk.Comm.Net.{Net, es_comm_port}
use frosk.Bearing.{Call, update, set_front, borders}
use frosk.Bearing.Serve.{Outside as Manager, call_server, call_all, update_borders}
use frosk.Bearing.Serve
use frosk.Rusk.Serve.{Outside}

-- the server's operation that a call is for
unfoldable pub perform : Call → Server → Server
perform (update e) s = (update_expanse e s).1
perform (set_front e) s = bring_expanse_to_front e.handle s
perform (borders e top) s = set_decoration_buffers e top s

unfoldable pub perform_all : List Call → Server → Server
perform_all [] s = s
perform_all (c ∷ cs) s = perform_all cs (perform c s)

-- the buffers of the calls can be sent
abbrev pub CanSend : Call → Type 0
CanSend (update e) = Unit
CanSend (set_front e) = Unit
CanSend (borders e top) = Sendable top

abbrev pub AllSend : List Call → Type 0
AllSend [] = Unit
AllSend (c ∷ cs) = CanSend c × AllSend cs

-- the window manager, process b, as the server sees it
abbrev pub manager : Outside → ℕ → Manager
manager o b = record {
  me = b;
  expsys = o.me;
  expanses = o.expanses;
  events = o.events;
  ends = record { mine = 0; new = 0 };
}

module _ {S : Type 0} (net : Net S) (o : Outside) (b : ℕ) where
  abbrev ch : Channel S
  ch = net.chan b o.me es_comm_port

  -- the bytes of a call
  abbrev pub call_message : Call → List ℕ
  call_message (update e) = word 3 ++ o.expanses.encode e
  call_message (set_front e) = word 5 ++ o.expanses.encode e
  call_message (borders e top) = word 7 ++ (o.expanses.encode e ++ buffer_message top)

  abbrev pub messages : List Call → List ℕ
  messages [] = []
  messages (c ∷ cs) = call_message c ++ messages cs

  waiting-two :
      (xs ys : List ℕ) (s : S) → ch.waiting (ch.send ys (ch.send xs s)) ≡ ch.waiting s ++ (xs ++ ys)
  waiting-two xs ys s =
      ch.waiting-send ys (ch.send xs s) (net.roomy b o.me es_comm_port (length ys) (ch.send xs s))
      ∙ ap (◌++ ys) (ch.waiting-send xs s (net.roomy b o.me es_comm_port (length xs) s))
      ∙ append_assoc (ch.waiting s) xs ys

  module _ (P : S → Type 0) (steady : Steady ch P) where
    call_server-sends :
        (c : Call) (s : S)
        → CanSend c
        → (s' : S) × (call_server net (manager o b) c s ≡ some s')
          × (ch.waiting s' ≡ ch.waiting s ++ call_message c)
          × (P s → P s')
    unfolding call_server Serve.update_expanse Serve.set_front_expanse Serve.update_borders
    call_server-sends (update e) s can = (
      _,
      refl,
      waiting-two (word 3) (o.expanses.encode e) s,
      λ p. steady.on_send (o.expanses.encode e) _ (steady.on_send (word 3) s p),
    )
    call_server-sends (set_front e) s can = (
      _,
      refl,
      waiting-two (word 5) (o.expanses.encode e) s,
      λ p. steady.on_send (o.expanses.encode e) _ (steady.on_send (word 5) s p),
    )
    call_server-sends (borders e top) s can =
        let s₁ = ch.send (o.expanses.encode e) (ch.send (word 7) s) in
        let (s', sent, w, p, room) =
          waiting-send_buffer ch P steady top 0 s₁ can
            (net.roomy b o.me es_comm_port (length (buffer_message top) + 0) s₁) in
        (
          s',
          sent,
          w
              ∙ ap (◌++ buffer_message top) (waiting-two (word 7) (o.expanses.encode e) s)
              ∙ append_assoc (ch.waiting s) (word 7 ++ o.expanses.encode e) (buffer_message top)
              ∙ ap (ch.waiting s ++◌)
                  (append_assoc (word 7) (o.expanses.encode e) (buffer_message top)),
          λ q. p (steady.on_send (o.expanses.encode e) _ (steady.on_send (word 7) s q)),
        )

    pub call_all-sends :
        (cs : List Call) (s : S)
        → AllSend cs
        → (s' : S) × (call_all net (manager o b) cs s ≡ some s')
          × (ch.waiting s' ≡ ch.waiting s ++ messages cs)
          × (P s → P s')
    unfolding call_all Option.bind
    call_all-sends [] s can = (s, refl, sym (append-nil (ch.waiting s)), λ p. p)
    call_all-sends (c ∷ cs) s (can, cans) =
        let (s₁, e₁, w₁, p₁) = call_server-sends c s can in
        let (s₂, e₂, w₂, p₂) = call_all-sends cs s₁ cans in
        (
          s₂,
          rw e₁ e₂,
          w₂ ∙ ap (◌++ messages cs) w₁ ∙ append_assoc (ch.waiting s) (call_message c) (messages cs),
          λ p. p₂ (p₁ p),
        )
