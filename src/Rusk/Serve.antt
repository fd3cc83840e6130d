-- ===== src/Rusk/Serve.antt =====
-- prgm/rusk/src/rusk_comm.c: the messages of the window server, over the ports of the kernel. `raw` is
-- what malloc returns for an expanse, and `at` reads the handle behind a pointer. `none` is a `receive`
-- of bytes that have not been sent, whose failure the code does not look at, an access outside a table or
-- a buffer, or fuel that ran out.
pub mod Calls
pub mod Served
pub mod Steps
pub mod Register
pub mod Layout
pub mod Arranged
pub mod Start
mod Examples
use mathlib.Core.Option
use frosk.Prelude.{
  ℕ, zero, suc, ◌+◌, ◌≡◌, ◌≢◌, Bool, true, false, Option, some, none, List, [], ◌∷◌, ◌++◌, ◌==◌,
  map, if◌then◌else◌, get_elem?,
}
use frosk.Prelude.Int.{ℤ, pos, negsuc, pos_part}
use frosk.Rusk.Expanses.{
  Pixel, PixelBuffer, ApiExpanse, Expanse, FullExpanse, Server, handle_of, add_expanse,
  remove_expanse, update_expanse, bring_expanse_to_front, set_decoration_buffers,
}
use frosk.Rusk.Partial.{update_partial}
use frosk.Rusk.Keys.{Event, adjust}
use frosk.Comm.{Channel, Struct, int_bytes, int_value, unsigned, send_list, get_events}
use frosk.Comm.Buffers.{copy_columns, receive_buffer}
use frosk.Comm.Net.{Net, es_comm_port, event_comm_port, bool_bytes, long_bytes, long_value}

-- the server with `em`, and the ports
pub record State (S : Type 0) : Type 0 where
  pub server : Server
  pub em : ℕ
  pub ports : S

-- what the server's code takes as given: its own process, C types, malloc, and memory
pub record Outside : Type 0 where
  pub me : ℕ
  pub expanses : Struct Expanse
  pub requests : Struct ApiExpanse
  pub events : Struct Event
  pub raw : FullExpanse
  pub at : ℕ → Option ℕ

module _ {S : Type 0} (net : Net S) (o : Outside) where
  -- `send` and `receive_data`, with process id
  abbrev pub send_to : ℕ → List ℕ → S → S
  send_to id = (net.chan o.me id es_comm_port).send

  abbrev pub receive_data : ℕ → ℕ → S → Option (List ℕ × S)
  receive_data id = (net.chan id o.me es_comm_port).receive

  abbrev pub call_func : ℕ → ℕ → S → S
  call_func id func = send_to id (int_bytes (pos func))

  unfoldable pub em_init_expanse : ℕ → Expanse → S → S
  em_init_expanse em e s = send_to em (o.expanses.encode e) (call_func em 0 s)

  -- `em_registered` of rusk.c
  unfoldable pub em_registered : ℕ → List FullExpanse → S → S
  em_registered em [] s = s
  em_registered em (f ∷ fs) s = em_registered em fs (em_init_expanse em f.exp s)

  unfoldable pub create_expanse_func : ℕ → State S → Option (State S)
  create_expanse_func id st =
      Option.map
        (λ (bs, s).
          let (e, server') = add_expanse o.raw (o.requests.decode bs) id st.server in
          let s' = if st.em == 0 then s else em_init_expanse st.em e s in
          record st { server = server'; ports = send_to id (long_bytes e.handle) s' })
        (receive_data id o.requests.size st.ports)

  -- a pointer is received, and read through
  unfoldable pub remove_expanse_func : ℕ → State S → Option (State S)
  remove_expanse_func id st = Option.bind (receive_data id 8 st.ports) λ (bs, s).
      Option.map (λ handle. record st { server = remove_expanse handle st.server; ports = s })
        (o.at (long_value bs))

  unfoldable pub update_partial_expanse_func : ℕ → State S → Option (State S)
  update_partial_expanse_func id st = Option.bind (receive_data id 8 st.ports) λ (bh, s₁).
      Option.bind (receive_data id 4 s₁) λ (bx, s₂). Option.bind (receive_data id 4 s₂) λ (by', s₃).
        Option.bind (receive_buffer (net.chan id o.me es_comm_port) s₃) λ (p, s₄).
          Option.map (λ server'. record st { server = server'; ports = s₄ })
            (update_partial (long_value bh) p (int_value bx) (int_value by') st.server)

  unfoldable pub update_expanse_func : ℕ → State S → Option (State S)
  update_expanse_func id st =
      Option.map
        (λ (bs, s). record st {
          server = (update_expanse (o.expanses.decode bs) st.server).1;
          ports = s;
        })
        (receive_data id o.expanses.size st.ports)

  unfoldable pub register_em_func : ℕ → State S → Option (State S)
  register_em_func id st =
      let s = send_to id (bool_bytes (st.em == 0)) st.ports in
      some (
        if st.em == 0
        then record st { em = id; ports = em_registered id st.server.expanses s }
        else record st { ports = s })

  unfoldable pub set_front_expanse_func : ℕ → State S → Option (State S)
  set_front_expanse_func id st =
      Option.map
        (λ (bs, s). record st {
          server = bring_expanse_to_front (o.expanses.decode bs).handle st.server;
          ports = s;
        })
        (receive_data id o.expanses.size st.ports)

  -- `handle_events`: the events go to the event manager, with the expanses
  unfoldable pub handle_events : List Event → State S → State S
  handle_events evs st =
      let events_to = net.chan o.me st.em event_comm_port in
      let s₁ = call_func st.em 2 st.ports in
      let s₂ =
        send_list events_to o.expanses (map (λ (f : FullExpanse). f.exp) st.server.expanses) s₁ in
      if st.em == 0 then st else record st { ports = send_list events_to o.events evs s₂ }

  -- the events that the manager hands back go to the front expanse
  unfoldable pub pass_on : List Event → List FullExpanse → S → S
  pass_on evs [] s = s
  pass_on evs (f ∷ fs) s =
      let events_to = net.chan o.me f.pid event_comm_port in
      send_list events_to o.events (map (adjust f) evs)
        (events_to.send (long_bytes (handle_of f)) s)

  unfoldable pub send_events_func : ℕ → State S → Option (State S)
  send_events_func id st =
      Option.map (λ (evs, s). record st { ports = pass_on evs st.server.expanses s })
        (get_events (net.chan st.em o.me event_comm_port) o.events st.ports)

  unfoldable pub update_decoration_buffer_func : ℕ → State S → Option (State S)
  update_decoration_buffer_func id st =
      Option.bind (receive_data id o.expanses.size st.ports) λ (bs, s₁).
        Option.map
          (λ (top, s₂). record st {
            server = set_decoration_buffers (o.expanses.decode bs) top st.server;
            ports = s₂;
          })
          (receive_buffer (net.chan id o.me es_comm_port) s₁)

  abbrev pub funcs : List (ℕ → State S → Option (State S))
  funcs =
      create_expanse_func ∷ remove_expanse_func ∷ update_partial_expanse_func ∷ update_expanse_func
      ∷ register_em_func ∷ set_front_expanse_func ∷ send_events_func ∷ update_decoration_buffer_func
      ∷ []

  -- a request of process id
  unfoldable pub serve_one : ℕ → State S → Option (State S)
  serve_one id st = Option.bind (receive_data id 4 st.ports) λ (bs, s).
      Option.bind (get_elem? funcs (unsigned bs)) λ func. func id (record st { ports = s })

  -- the loop of `serve`, at most `fuel` requests
  unfoldable pub serve : ℕ → State S → Option (State S)
  serve zero st = if net.poll o.me es_comm_port st.ports == 0 then some st else none
  serve (suc fuel) st =
      let id = net.poll o.me es_comm_port st.ports in
      let rest = Option.bind (serve_one id st) (serve fuel) in if id == 0 then some st else rest
