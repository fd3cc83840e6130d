-- ===== src/Kernel/Ports/Link.antt =====
-- A port of kernel/src/ports.c between two processes as a `Channel`, while its page has room: `send` of
-- one of them and the loop around `receive` of the other, on the state of the kernel. A fault is `none`.
use mathlib.Core.Option
use frosk.Prelude.{
  ℕ, ◌+◌, ◌-◌, ◌≤◌, ◌<◌, ◌≡◌, refl, ap, sym, ◌∙◌, Option, none, some, List, [], ◌∷◌, ◌++◌, length,
  length-append, append-nil, append_assoc, arith, true, Option-cases, inl, inr,
}
use frosk.Comm.{Channel}
use frosk.Kernel.Ports.{Port, State, store, load, joins, last_joining, send, receive}
use frosk.Kernel.Ports.Bytes.{load-store_behind, length-load, load-split}
use frosk.Cstd.Memory.{Mem}
use frosk.Kernel.Ports.Fifo.{pending, below_page, send_joining, receive_only}

abbrev pub Kernel : Type 0
Kernel = Option State

-- the port is the only one that joins the processes, and has had bytes; its page has room for n more
abbrev Has : ℕ → ℕ → ℕ → ℕ → State → List Port → Port → List Port → Type 0
Has to port from n s before l behind =
    (s.ports ≡ before ++ (l ∷ behind))
    × (last_joining to port from before ≡ none)
    × (last_joining to port from behind ≡ none)
    × (joins to port from l ≡ true)
    × (0 < l.off + l.size)
    × (l.off + l.size + n < 0x1000)

abbrev pub HasRoom : ℕ → ℕ → ℕ → ℕ → Kernel → Type 0
HasRoom to port from n none = ⊥
HasRoom to port from n (some s) =
    (before : List Port) × (l : Port) × (behind : List Port) × Has to port from n s before l behind

-- what waits at the last port that joins the processes
abbrev pub at_last : Mem → Option (List Port × Port × List Port) → List ℕ
at_last m none = []
at_last m (some (before, l, behind)) = pending m l

abbrev pub waiting_at : ℕ → ℕ → ℕ → Kernel → List ℕ
waiting_at to port from none = []
waiting_at to port from (some s) = at_last s.mem (last_joining to port from s.ports)

abbrev pub send_bytes : ℕ → ℕ → ℕ → List ℕ → Kernel → Kernel
send_bytes to port from xs k = Option.bind k (send (some from) to port xs)

-- `while (!receive(...));`, where a failed `receive` leaves the state as it is
abbrev received : Option (Option (List ℕ) × State) → Option (List ℕ × Kernel)
received none = none
received (some (none, s)) = none
received (some (some xs, s)) = some (xs, some s)

abbrev pub receive_from : ℕ → ℕ → ℕ → ℕ → Kernel → Option (List ℕ × Kernel)
receive_from to port from n none = none
receive_from to port from n (some s) = received (receive (some to) from port n s)

last_joining-only :
    (to port from : ℕ) (before behind : List Port) (l : Port)
    → last_joining to port from before ≡ none
    → last_joining to port from behind ≡ none
    → joins to port from l ≡ true
    → last_joining to port from (before ++ (l ∷ behind)) ≡ some (before, l, behind)
unfolding last_joining
last_joining-only to port from [] behind l h k j = rw (k, last_joining) (rw j refl)
last_joining-only to port from (c ∷ before) behind l h k j =
    elim (Option-cases (last_joining to port from before)) [
      | inl e ↦ rw (last_joining-only to port from before behind l e k j, last_joining) refl
      | inr (x, e) ↦ absurd (ground (arith, e, h))
    ]

pending-load : (m : Mem) (l : Port) → load m (l.addr + l.off) l.size ≡ pending m l
unfolding pending
pending-load m l = refl

module _ (to port from : ℕ) where
  abbrev at : Kernel → List ℕ
  at = waiting_at to port from

  waiting_lem :
      (n : ℕ) (s : State) (before : List Port) (l : Port) (behind : List Port)
      → Has to port from n s before l behind
      → at (some s) ≡ pending s.mem l
  waiting_lem n s before l behind (e, b, h, j, pos, fits) =
      let found =
        ap (last_joining to port from) e ∙ last_joining-only to port from before behind l b h j in
      ap (at_last s.mem) found

  pub HasRoom-less :
      (k n : ℕ) (s : Kernel) → k ≤ n → HasRoom to port from n s → HasRoom to port from k s
  HasRoom-less k n none le r = r
  HasRoom-less k n (some s) le (before, l, behind, (e, b, h, j, pos, fits)) =
      (before, l, behind, (e, b, h, j, pos, omega (arith, le, fits)))

  -- the port and the state behind a `send`
  abbrev more : List ℕ → Port → Port
  more xs l = record l { size = l.size + length xs }

  abbrev sent : List ℕ → State → List Port → Port → List Port → State
  sent xs s before l behind = record s {
    ports = before ++ (more xs l ∷ behind);
    mem = store s.mem (l.addr + (l.size + l.off)) xs;
  }

  send-sent :
      (xs : List ℕ) (s : State) (before : List Port) (l : Port) (behind : List Port)
      → Has to port from (length xs) s before l behind
      → send (some from) to port xs s ≡ some (sent xs s before l behind)
  send-sent xs s before l behind (e, b, h, j, pos, fits) =
      send_joining from to port xs s before behind l
        (ap (last_joining to port from) e ∙ last_joining-only to port from before behind l b h j)
        (omega (arith, pos))
        (below_page (l.size + l.off) (length xs) (omega (arith, pos)) (omega (arith, fits)))

  pub HasRoom-send :
      (xs : List ℕ) (n : ℕ) (s : Kernel)
      → HasRoom to port from (length xs + n) s
      → HasRoom to port from n (send_bytes to port from xs s)
  unfolding Option.bind
  HasRoom-send xs n none r = r
  HasRoom-send xs n (some s) (before, l, behind, (e, b, h, j, pos, fits)) =
      let went = send-sent xs s before l behind (e, b, h, j, pos, omega (arith, fits)) in
      rw went (before, more xs l, behind, (refl, b, h, j, omega (arith, pos), omega (arith, fits)))

  pub waiting-send :
      (xs : List ℕ) (s : Kernel)
      → HasRoom to port from (length xs) s
      → at (send_bytes to port from xs s) ≡ at s ++ xs
  unfolding pending Option.bind send
  waiting-send xs none r = absurd r
  waiting-send xs (some s) (before, l, behind, (e, b, h, j, pos, fits)) =
      let s' = sent xs s before l behind in
      let now =
        waiting_lem 0 s' before (more xs l) behind
          (refl, b, h, j, omega (arith, pos), omega (arith, fits)) in
      let was = waiting_lem (length xs) s before l behind (e, b, h, j, pos, fits) in
      let at_end : l.addr + (l.size + l.off) ≡ l.addr + l.off + l.size = omega arith in
      let joined : pending s'.mem (more xs l) ≡ pending s.mem l ++ xs =
        rw at_end (load-store_behind l.size xs s.mem (l.addr + l.off)) in
      ap at (send-sent xs s before l behind (e, b, h, j, pos, fits))
      ∙ now
      ∙ joined
      ∙ ap (◌++ xs) (sym was)

  pub receive_waiting :
      (xs ys : List ℕ) (s : Kernel)
      → HasRoom to port from 0 s
      → at s ≡ xs ++ ys
      → (s' : Kernel) × (receive_from to port from (length xs) s ≡ some (xs, s'))
        × (at s' ≡ ys)
        × HasRoom to port from 0 s'
  receive_waiting xs ys none r w = absurd r
  receive_waiting xs ys (some s) (before, l, behind, (e, b, h, j, pos, fits)) w =
      let now = waiting_lem 0 s before l behind (e, b, h, j, pos, fits) in
      let bytes : load s.mem (l.addr + l.off) l.size ≡ xs ++ ys =
        pending-load s.mem l ∙ sym now ∙ w in
      let size = sym (length-load s.mem (l.addr + l.off) l.size) ∙ ap length bytes in
      let few : length xs ≤ l.size = omega (arith, size, length-append xs ys) in
      let whole : length xs + (l.size - length xs) ≡ l.size = omega (arith, few) in
      let (first, rest) =
        load-split s.mem (l.addr + l.off) (l.size - length xs) xs ys (rw whole bytes) in
      let l' = record l { size = l.size - length xs; off = l.off + length xs } in
      let s' : State = record s { ports = before ++ (l' ∷ behind) } in
      let got =
        receive_only to port from (length xs) before behind l s e b j few
          (omega (arith, few, fits)) in
      let room : Has to port from 0 s' before l' behind =
        (refl, b, h, j, omega (arith, few, pos), omega (arith, few, fits)) in
      let along : l'.addr + l'.off ≡ l.addr + l.off + length xs = omega arith in
      (
        some s',
        ap received got ∙ ap (λ bs. some (bs, some s')) first,
        waiting_lem 0 s' before l' behind room
            ∙ sym (pending-load s.mem l')
            ∙ ap (λ a. load s.mem a (l.size - length xs)) along
            ∙ rest,
        (before, l', behind, room),
      )

-- the port of one process to another
abbrev pub link : ℕ → ℕ → ℕ → Channel Kernel
link from to port = record {
  send = send_bytes to port from;
  receive = receive_from to port from;
  waiting = waiting_at to port from;
  Room = HasRoom to port from;
  room_less = HasRoom-less to port from;
  room-send = HasRoom-send to port from;
  waiting-send = waiting-send to port from;
  receive_waiting = receive_waiting to port from;
}

-- messages are sent one after the other, and received by their sizes
unfoldable pub send_each : ℕ → ℕ → ℕ → List (List ℕ) → Kernel → Kernel
send_each from to port [] k = k
send_each from to port (xs ∷ xss) k = send_each from to port xss (send_bytes to port from xs k)

unfoldable pub receive_each : ℕ → ℕ → ℕ → List ℕ → Kernel → Option (List (List ℕ) × Kernel)
receive_each from to port [] k = some ([], k)
receive_each from to port (n ∷ ns) k =
    Option.bind (receive_from to port from n k)
      λ (xs, k'). Option.map (λ (xss, k''). (xs ∷ xss, k'')) (receive_each from to port ns k')

abbrev pub joined : List (List ℕ) → List ℕ
joined [] = []
joined (xs ∷ xss) = xs ++ joined xss

abbrev pub sizes : List (List ℕ) → List ℕ
sizes [] = []
sizes (xs ∷ xss) = length xs ∷ sizes xss

module _ (from to port : ℕ) where
  send_each_lem :
      (xss : List (List ℕ)) (k : Kernel)
      → HasRoom to port from (length (joined xss)) k
      → (waiting_at to port from (send_each from to port xss k)
          ≡ waiting_at to port from k ++ joined xss)
        × HasRoom to port from 0 (send_each from to port xss k)
  unfolding send_each
  send_each_lem [] k room = (sym (append-nil (waiting_at to port from k)), room)
  send_each_lem (xs ∷ xss) k room =
      let size = length-append xs (joined xss) in
      let all = length (xs ++ joined xss) in
      let (w, left) = send_each_lem xss (send_bytes to port from xs k) (
        HasRoom-send to port from xs (length (joined xss)) k (
          HasRoom-less to port from (length xs + length (joined xss)) all k (omega (arith, size))
            room)) in
      (
        w
            ∙ ap (◌++ joined xss) (
                waiting-send to port from xs k
                  (HasRoom-less to port from (length xs) all k (omega (arith, size)) room))
            ∙ append_assoc (waiting_at to port from k) xs (joined xss),
        left,
      )

  receive_each_lem :
      (xss : List (List ℕ)) (ys : List ℕ) (k : Kernel)
      → HasRoom to port from 0 k
      → waiting_at to port from k ≡ joined xss ++ ys
      → (k' : Kernel) × (receive_each from to port (sizes xss) k ≡ some (xss, k'))
        × (waiting_at to port from k' ≡ ys)
  unfolding receive_each Option.bind
  receive_each_lem [] ys k room w = (k, refl, w)
  receive_each_lem (xs ∷ xss) ys k room w =
      let (k₁, e₁, w₁, room₁) =
        receive_waiting to port from xs (joined xss ++ ys) k room
          (w ∙ append_assoc xs (joined xss) ys) in
      let (k₂, e₂, w₂) = receive_each_lem xss ys k₁ room₁ w₁ in (k₂, rw e₁ (rw e₂ refl), w₂)

-- Nothing waits at the one port that joins two processes, which has had bytes, and whose page has room for
-- all of the messages, with a byte to spare. Then the messages that one process sends are received by
-- the other whole and in their order, asked for by their sizes, each `receive` returns, and nothing
-- is left at the port.
pub receive_each-send_each :
    (from to port : ℕ) (xss : List (List ℕ)) (k : Kernel)
    → HasRoom to port from (length (joined xss)) k
    → waiting_at to port from k ≡ []
    → (k' : Kernel) × (receive_each from to port (sizes xss) (send_each from to port xss k)
        ≡ some (xss, k'))
      × (waiting_at to port from k' ≡ [])
receive_each-send_each from to port xss k room empty =
    let (w, left) = send_each_lem from to port xss k room in
    receive_each_lem from to port xss [] (send_each from to port xss k) left
      (w ∙ ap (◌++ joined xss) empty ∙ sym (append-nil (joined xss)))
