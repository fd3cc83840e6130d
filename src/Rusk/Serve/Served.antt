-- ===== src/Rusk/Serve/Served.antt =====
-- The loop of prgm/rusk/src/rusk_comm.c on the calls that prgm/bearing/src/bearing_comm.c makes.
use mathlib.Core.Option
use frosk.Prelude.{
  ℕ, zero, suc, ◌≤◌, ◌<◌, ◌≡◌, ◌≢◌, refl, sym, ap, ◌∙◌, subst, some, List, [], ◌∷◌, ◌++◌, ◌==◌,
  arith, append_assoc, length, false, Bool-cases, inl, inr, ==_iff,
}
use frosk.Comm.{Channel, word}
use frosk.Comm.Steady.{Steady}
use frosk.Comm.Buffers.Messages.{buffer_message, receive_buffer_waiting}
use frosk.Comm.Net.{Net, es_comm_port}
use frosk.Bearing.{Call, update, set_front, borders}
use frosk.Bearing.Serve.{call_all}
use frosk.Rusk.Serve.{
  State, Outside, serve_one, serve, update_expanse_func, set_front_expanse_func,
  update_decoration_buffer_func,
}
use frosk.Rusk.Serve.Calls.{
  perform, perform_all, CanSend, AllSend, manager, call_message, messages, call_all-sends,
}

module _ {S : Type 0} (net : Net S) (o : Outside) (b : ℕ) where
  abbrev ch : Channel S
  ch = net.chan b o.me es_comm_port

  receive_lem :
      (xs ys : List ℕ) (n : ℕ) (s : S) (P : S → Type 0)
      → Steady ch P
      → length xs ≡ n
      → ch.waiting s ≡ xs ++ ys
      → (s' : S) × (ch.receive n s ≡ some (xs, s')) × (ch.waiting s' ≡ ys) × (P s → P s')
  receive_lem xs ys n s P steady size w =
      let (s', e, w', room) = ch.receive_waiting xs ys s (net.roomy b o.me es_comm_port 0 s) w in
      let e' = subst (λ k. ch.receive k s ≡ some (xs, s')) size e in
      (s', e', w', λ p. steady.on_receive n s xs s' e' p)

  module _ (P : S → Type 0) (steady : Steady ch P) where
    serve_one-call :
        (c : Call) (ys : List ℕ) (st : State S)
        → CanSend c
        → ch.waiting st.ports ≡ call_message net o b c ++ ys
        → (s : S) × (serve_one net o b st
            ≡ some (record st { server = perform c st.server; ports = s }))
          × (ch.waiting s ≡ ys)
          × (P st.ports → P s)
    unfolding serve_one update_expanse_func set_front_expanse_func update_decoration_buffer_func
        perform Option.bind
    serve_one-call (update e) ys st can w =
        let bs = o.expanses.encode e in
        let (s₁, e₁, w₁, p₁) =
          receive_lem (word 3) (bs ++ ys) 4 st.ports P steady refl
            (w ∙ append_assoc (word 3) bs ys) in
        let (s₂, e₂, w₂, p₂) =
          receive_lem bs ys o.expanses.size s₁ P steady (o.expanses.length-encode e) w₁ in
        (s₂, rw e₁ (rw e₂ (rw (o.expanses.decode-encode e) refl)), w₂, λ p. p₂ (p₁ p))
    serve_one-call (set_front e) ys st can w =
        let bs = o.expanses.encode e in
        let (s₁, e₁, w₁, p₁) =
          receive_lem (word 5) (bs ++ ys) 4 st.ports P steady refl
            (w ∙ append_assoc (word 5) bs ys) in
        let (s₂, e₂, w₂, p₂) =
          receive_lem bs ys o.expanses.size s₁ P steady (o.expanses.length-encode e) w₁ in
        (s₂, rw e₁ (rw e₂ (rw (o.expanses.decode-encode e) refl)), w₂, λ p. p₂ (p₁ p))
    serve_one-call (borders e top) ys st can w =
        let bs = o.expanses.encode e in
        let (s₁, e₁, w₁, p₁) =
          receive_lem (word 7) ((bs ++ buffer_message top) ++ ys) 4 st.ports P steady refl
            (w ∙ append_assoc (word 7) (bs ++ buffer_message top) ys) in
        let (s₂, e₂, w₂, p₂) =
          receive_lem bs (buffer_message top ++ ys) o.expanses.size s₁ P steady
            (o.expanses.length-encode e) (w₁ ∙ append_assoc bs (buffer_message top) ys) in
        let (s₃, e₃, w₃, p₃) =
          receive_buffer_waiting ch P steady top ys s₂ can (net.roomy b o.me es_comm_port 0 s₂)
            w₂ in
        (s₃, rw e₁ (rw e₂ (rw e₃ (rw (o.expanses.decode-encode e) refl))), w₃, λ p. p₃ (p₂ (p₁ p)))

  -- nothing waits from other processes
  abbrev pub Quiet : S → Type 0
  Quiet s = (other : ℕ) → other ≢ b → (net.chan other o.me es_comm_port).waiting s ≡ []

  Quiet-Steady : Steady ch Quiet
  Quiet-Steady = record {
    on_send = λ xs s q other ne.
        net.send_apart b o.me es_comm_port other o.me xs s (λ (e, e'). ne (sym e)) ∙ q other ne;
    on_receive = λ n s bs s' e q other ne.
        net.receive_apart b o.me es_comm_port other o.me n bs s s' (λ (e', e''). ne (sym e')) e
        ∙ q other ne;
  }

  message_some : (c : Call) (ys : List ℕ) → call_message net o b c ++ ys ≢ []
  message_some (update e) ys h = cc
  message_some (set_front e) ys h = cc
  message_some (borders e top) ys h = cc

  all_empty :
      (s : S)
      → ch.waiting s ≡ []
      → Quiet s
      → (other : ℕ) → (net.chan other o.me es_comm_port).waiting s ≡ []
  all_empty s w quiet other = elim (Bool-cases (other == b)) [
    | inl e ↦
        subst (λ a. (net.chan a o.me es_comm_port).waiting s ≡ []) (sym ((==_iff other b).0 e)) w
    | inr e ↦ quiet other (λ same. ground (arith, e, same))
  ]

  pub serve-nothing :
      (fuel : ℕ) (st : State S)
      → net.poll o.me es_comm_port st.ports ≡ 0
      → serve net o fuel st ≡ some st
  unfolding serve
  serve-nothing zero st none_waits = rw none_waits refl
  serve-nothing (suc fuel) st none_waits = rw none_waits refl

  pub serve-calls :
      (cs : List Call) (fuel : ℕ) (st : State S)
      → 0 < b
      → b ≤ net.most
      → AllSend cs
      → length cs ≤ fuel
      → ch.waiting st.ports ≡ messages net o b cs
      → Quiet st.ports
      → (s : S) × (serve net o fuel st
          ≡ some (record st { server = perform_all cs st.server; ports = s }))
        × ((other : ℕ) → (net.chan other o.me es_comm_port).waiting s ≡ [])
  unfolding serve perform_all Option.bind
  serve-calls [] fuel st some_b le can few w quiet =
      let all = all_empty st.ports w quiet in
      (st.ports, serve-nothing fuel st (net.poll_none o.me es_comm_port st.ports all), all)
  serve-calls (c ∷ cs) zero st some_b le can few w quiet = absurd (omega (arith, few))
  serve-calls (c ∷ cs) (suc fuel) st some_b le (can, cans) few w quiet =
      let from : net.poll o.me es_comm_port st.ports ≡ b =
        net.poll_one o.me es_comm_port b st.ports some_b le quiet
          (λ nothing. message_some c (messages net o b cs) (sym w ∙ nothing)) in
      let nz : (b == 0) ≡ false = ground (arith, some_b) in
      let (s₁, e₁, w₁, q₁) = serve_one-call Quiet Quiet-Steady c (messages net o b cs) st can w in
      let next : State S = record st { server = perform c st.server; ports = s₁ } in
      let (s₂, e₂, all) =
        serve-calls cs fuel next some_b le cans (omega (arith, few)) w₁ (q₁ quiet) in
      (s₂, rw from (rw nz (rw e₁ e₂)), all)

-- The window manager makes calls of the window server, whose buffers can be sent, and no bytes wait for
-- the server. Then the manager's sending returns, and the server's `serve` returns, given fuel for the
-- calls: it has performed exactly these calls in their order, `em` is as before, and no bytes wait.
pub serve-call_all :
    {S : Type 0} (net : Net S) (o : Outside) (b : ℕ) (cs : List Call) (fuel : ℕ) (st : State S)
    → 0 < b
    → b ≤ net.most
    → AllSend cs
    → length cs ≤ fuel
    → ((other : ℕ) → (net.chan other o.me es_comm_port).waiting st.ports ≡ [])
    → (s : S) × (s' : S) × (call_all net (manager o b) cs st.ports ≡ some s)
      × (serve net o fuel (record st { ports = s })
          ≡ some (record st { server = perform_all cs st.server; ports = s' }))
      × ((other : ℕ) → (net.chan other o.me es_comm_port).waiting s' ≡ [])
serve-call_all net o b cs fuel st some_b le can few empty =
    let (s, e, w, q) =
      call_all-sends net o b (Quiet net o b) (Quiet-Steady net o b) cs st.ports can in
    let (s', e', all) =
      serve-calls net o b cs fuel (record st { ports = s }) some_b le can few
        (w ∙ ap (◌++ messages net o b cs) (empty b)) (q (λ other ne. empty other)) in
    (s, s', e, e', all)
