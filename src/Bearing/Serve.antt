-- ===== src/Bearing/Serve.antt =====
-- prgm/bearing/src/bearing_comm.c: the messages of the window manager, over the ports of the kernel,
-- with `setup_borders` and `resize_expanse` of bearing.c. `none` is as in Rusk/Serve; so is a wait for
-- bytes that have not been sent, which the code makes by asking `poll` again and again.
use mathlib.Core.Option
use frosk.Prelude.{
  ℕ, zero, suc, Bool, Option, some, none, List, [], ◌∷◌, ◌==◌, if◌then◌else◌, get_elem?,
}
use frosk.Prelude.Int.{ℤ, pos, negsuc, ◌+ℤ◌}
use frosk.Rusk.Expanses.{Expanse, PixelBuffer}
use frosk.Rusk.Keys.{Event}
use frosk.Comm.{Struct, int_bytes, int_value, unsigned, send_list, get_events, receive_exp_list}
use frosk.Comm.Buffers.{send_buffer}
use frosk.Comm.Net.{Net, es_comm_port, event_comm_port, bool_value}
use frosk.Bearing.{Call, update, set_front, borders, Hold, Ends, setup_borders, handle_events}

-- the static variables: those of `init_expanse_func`, of `handle_events`, and the ports
pub record State (S : Type 0) : Type 0 where
  pub last_x : ℤ
  pub down : Bool
  pub hold : Hold
  pub ports : S

-- the manager's own process, the server's, the C types, and what malloc leaves in `handle_events`
pub record Outside : Type 0 where
  pub me : ℕ
  pub expsys : ℕ
  pub expanses : Struct Expanse
  pub events : Struct Event
  pub ends : Ends

-- where a new window is put
unfoldable pub placed : ℤ → Expanse → Expanse
placed x e = record e { y = pos 30; x = x; sub_offset_x = pos 0; sub_offset_y = negsuc 9 }

module _ {S : Type 0} (net : Net S) (o : Outside) where
  abbrev pub send_data : List ℕ → S → S
  send_data = (net.chan o.me o.expsys es_comm_port).send

  abbrev pub send_func : ℕ → S → S
  send_func func = send_data (int_bytes (pos func))

  unfoldable pub receive_data : ℕ → S → Option (List ℕ × S)
  receive_data size s =
      if net.poll o.me es_comm_port s == 0
      then none
      else (net.chan o.expsys o.me es_comm_port).receive size s

  -- `register_em`, once `get_esys` gives the server
  unfoldable pub register_em : S → Option (Bool × S)
  register_em s = Option.map (λ (bs, s'). (bool_value bs, s')) (receive_data 1 (send_func 4 s))

  unfoldable pub update_expanse : Expanse → S → S
  update_expanse e s = send_data (o.expanses.encode e) (send_func 3 s)

  unfoldable pub update_borders : Expanse → PixelBuffer → S → Option S
  update_borders e top s =
      send_buffer (net.chan o.me o.expsys es_comm_port) top
        (send_data (o.expanses.encode e) (send_func 7 s))

  unfoldable pub set_front_expanse : Expanse → S → S
  set_front_expanse e s = send_data (o.expanses.encode e) (send_func 5 s)

  -- the calls that bearing.c makes, and several of them
  unfoldable pub call_server : Call → S → Option S
  call_server (update e) s = some (update_expanse e s)
  call_server (set_front e) s = some (set_front_expanse e s)
  call_server (borders e top) s = update_borders e top s

  unfoldable pub call_all : List Call → S → Option S
  call_all [] s = some s
  call_all (c ∷ cs) s = Option.bind (call_server c s) (call_all cs)

  unfoldable pub init_expanse_func : State S → Option (State S)
  init_expanse_func st = Option.bind (receive_data o.expanses.size st.ports) λ (bs, s).
      let e = placed st.last_x (o.expanses.decode bs) in
      Option.map (λ s'. record st { last_x = st.last_x +ℤ (e.width +ℤ pos 10); ports = s' })
        (call_all (update e ∷ setup_borders 40 40 40 e ∷ []) s)

  -- the new size goes into the fields that the program asked for
  unfoldable pub resize_expanse : Expanse → ℤ → ℤ → Call
  resize_expanse e width height =
      update (record e { api_exp = record e.api_exp { width = width; height = height } })

  unfoldable pub resize_func : State S → Option (State S)
  resize_func st = Option.bind (receive_data o.expanses.size st.ports) λ (be, s₁).
      Option.bind (receive_data 8 s₁) λ (bh, s₂). Option.bind (receive_data 4 s₂) λ (bw, s₃).
        Option.bind (receive_data 4 s₃) λ (bt, s₄).
          Option.map (λ s₅. record st { ports = s₅ })
            (call_server (resize_expanse (o.expanses.decode be) (int_value bw) (int_value bt)) s₄)

  unfoldable pub handle_events_func : State S → Option (State S)
  handle_events_func st =
      let from = net.chan o.expsys o.me event_comm_port in
      Option.bind (receive_exp_list from o.expanses st.ports) λ (es, s₁).
        Option.bind (get_events from o.events s₁) λ (evs, s₂).
          Option.bind (handle_events o.ends st.down st.hold evs es) λ (back, down', hold', calls).
            Option.map
              (λ s₃. record st {
                down = down';
                hold = hold';
                ports =
                    send_list (net.chan o.me o.expsys event_comm_port) o.events back
                      (send_func 6 s₃);
              })
              (call_all calls s₂)

  abbrev pub funcs : List (State S → Option (State S))
  funcs = init_expanse_func ∷ resize_func ∷ handle_events_func ∷ []

  unfoldable pub serve_one : State S → Option (State S)
  serve_one st =
      Option.bind (receive_data 4 st.ports) λ (bs, s).
        Option.bind (get_elem? funcs (unsigned bs)) λ func. func (record st { ports = s })

  -- the loop of `serve`, at most `fuel` requests
  unfoldable pub serve : ℕ → State S → Option (State S)
  serve zero st = if net.poll o.me es_comm_port st.ports == 0 then some st else none
  serve (suc fuel) st =
      let rest = Option.bind (serve_one st) (serve fuel) in
      if net.poll o.me es_comm_port st.ports == 0 then some st else rest
