-- ===== src/Rusk/Serve/Start.antt =====
-- prgm/rusk/src/rusk_comm.c and prgm/bearing/src/bearing_comm.c together: the window manager starts.
use frosk.Prelude.{
  ℕ, zero, suc, ◌+◌, ◌*◌, ◌≤◌, ◌<◌, ◌≡◌, ◌≢◌, refl, sym, some, List, [], ◌∷◌, length, arith, true,
}
use frosk.Prelude.Int.{ℤ}
use frosk.Rusk.Expanses.{Expanse}
use frosk.Comm.{word}
use frosk.Comm.Net.{Net, es_comm_port, bool_bytes}
use frosk.Comm.Pair.{Waiting, turn, Waiting-send, others}
use frosk.Bearing.Serve.{State as ManagerState, send_func, receive_data, serve as manager_serve}
use frosk.Rusk.Serve.{State, Outside, serve}
use frosk.Rusk.Serve.Calls.{perform_all, manager}
use frosk.Rusk.Serve.Served.{serve-calls}
use frosk.Rusk.Serve.Register.{exps, serve-register}
use frosk.Rusk.Expanses.Handles.{HasUnique}
use frosk.Rusk.Serve.Arranged.{arranged, layout-arranged}
use frosk.Rusk.Serve.Layout.{
  AllWide, after, layout, extent, layout-AllSend, serve-inits, receive_data-Waiting,
}

length-layout : (es : List Expanse) (x : ℤ) → length (layout x es) ≡ 2 * length es
length-layout [] x = refl
length-layout (e ∷ es) x = let ih = length-layout es (after x e) in omega (arith, ih)

-- The window manager, process b, starts while no bytes wait, and no manager is registered. Then the
-- server registers it and announces its windows; the manager is told so, and makes the calls of the
-- layout; the server performs them in their order, after which its windows are in the order they had, each
-- behind the one before. Each of the loops returns, given fuel for the windows, whose handles differ and
-- whose widths are not negative, and in the end no bytes wait for the server.
pub serve-register_em :
    {S : Type 0} (net : Net S) (o : Outside) (b fuel : ℕ) (st : State S) (bst : ManagerState S)
    → 0 < b
    → b ≤ net.most
    → 0 < o.me
    → o.me ≤ net.most
    → o.me ≢ b
    → 0 < o.expanses.size
    → st.em ≡ 0
    → HasUnique st.server.expanses
    → AllWide (exps st.server.expanses)
    → 1 + 2 * length (exps st.server.expanses) ≤ fuel
    → ((from to : ℕ) → (net.chan from to es_comm_port).waiting st.ports ≡ [])
    → (s₁ : S) × (s₂ : S) × (s₃ : S) × (s₄ : S) × (serve net o fuel
          (record st { ports = send_func net (manager o b) 4 st.ports })
        ≡ some (record st { em = b; ports = s₁ }))
      × (receive_data net (manager o b) 1 s₁ ≡ some (bool_bytes true, s₂))
      × (manager_serve net (manager o b) fuel (record bst { ports = s₂ })
          ≡ some (record bst { last_x = extent bst.last_x (exps st.server.expanses); ports = s₃ }))
      × (serve net o fuel (record st { em = b; ports = s₃ })
          ≡ some (record st {
            em = b;
            server = perform_all (layout bst.last_x (exps st.server.expanses)) st.server;
            ports = s₄;
          }))
      × (exps (perform_all (layout bst.last_x (exps st.server.expanses)) st.server).expanses
          ≡ arranged bst.last_x (exps st.server.expanses))
      × ((other : ℕ) → (net.chan other o.me es_comm_port).waiting s₄ ≡ [])
serve-register_em net o b zero st bst some_b le some_me le' ne size free unique wide few empty =
    absurd (omega (arith, few))
serve-register_em net o b (suc fuel) st bst some_b le some_me le' ne size free unique wide few
      empty =
    let ne' : b ≢ o.me = λ e. ne (sym e) in
    let es = exps st.server.expanses in
    let s = send_func net (manager o b) 4 st.ports in
    let w : Waiting net b o.me s (word 4) [] =
      Waiting-send net b o.me ne' (word 4) st.ports [] []
        (λ from to p q. empty from to, empty b o.me, empty o.me b) in
    let (s₁, e₁, w₁) = serve-register net o b ne fuel (record st { ports = s }) some_b le free w in
    let (s₂, e₂, w₂) =
      receive_data-Waiting net o b ne some_me le' 1 (bool_bytes true) _ s₁ [] (omega arith) refl
        w₁ in
    let (s₃, e₃, w₃) =
      serve-inits net o b ne some_me le' es (suc fuel) [] (record bst { ports = s₂ }) size wide
        (omega (arith, few)) w₂ in
    let w₄ = turn net o.me b s₃ [] _ w₃ in
    let (s₄, e₄, all) =
      serve-calls net o b (layout bst.last_x es) (suc fuel) (record st { em = b; ports = s₃ })
        some_b le (layout-AllSend bst.last_x es wide)
        (omega (arith, length-layout es bst.last_x, few)) w₄.1 (others net b o.me ne' s₃ _ [] w₄) in
    (s₁, s₂, s₃, s₄, e₁, e₂, e₃, e₄, layout-arranged st.server bst.last_x unique, all)
