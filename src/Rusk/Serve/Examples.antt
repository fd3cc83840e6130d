-- ===== src/Rusk/Serve/Examples.antt =====
-- The theorems of Rusk/Serve at two windows, over queues of bytes.
mod Pipes
mod Structs
use mathlib.Core.Option
use frosk.Prelude.{
  ℕ, zero, suc, ◌+◌, ◌≤◌, ◌<◌, ◌≡◌, ◌≢◌, refl, ap, Bool, true, false, Option, some, none, List, [],
  ◌∷◌, ◌++◌, ◌==◌, ◌&&◌, if◌then◌else◌, length, arith, inl, inr, Bool-cases, drop, get_or,
  eq_of_some, sym, ◌∙◌,
}
use frosk.Prelude.Int.{ℤ, pos, negsuc, ◌+ℤ◌}
use frosk.Rusk.Expanses.{ApiExpanse, Expanse, FullExpanse}
use frosk.Rusk.Keys.{Event, key_down, mouse_down, mouse_up}
use frosk.Comm.{Channel, Struct, word}
use frosk.Comm.Net.{Net, bool_bytes}
use frosk.Bearing.{Call, update, set_front}
use frosk.Bearing.Serve.{
  State as ManagerState, call_all, placed, receive_data, send_func, serve as manager_serve,
}
use frosk.Rusk.Expanses.Handles.{HasUnique}
use frosk.Rusk.Expanses.Reach.{IsValid}
use frosk.Rusk.Serve.{State, Outside, serve, serve_one, register_em_func}
use frosk.Rusk.Serve.Calls.{perform_all, manager}
use frosk.Rusk.Serve.Served.{serve-call_all}
use frosk.Rusk.Serve.Steps.{serve-IsValid}
use frosk.Rusk.Serve.Register.{exps}
use frosk.Rusk.Serve.Layout.{layout}
use frosk.Rusk.Serve.Start.{serve-register_em}
use frosk.Rusk.Serve.Examples.Pipes.{Queues, put, at_port, queue, net}
use frosk.Rusk.Serve.Examples.Structs.{requests, expanses, events}

abbrev window : ℕ → FullExpanse
window handle = record {
  exp = record {
    x = pos 10;
    y = pos 10;
    sub_offset_x = pos 0;
    sub_offset_y = pos 0;
    width = pos 100;
    height = pos 50;
    visible = true;
    handle = handle;
    api_exp = record { width = pos 100; height = pos 50; attributes = 0 };
  };
  expanse_buffer = record { buffer = []; width = pos 0; height = pos 0 };
  top_buffer = record { buffer = []; width = pos 0; height = pos 0 };
  pid = 7;
  lbuf = none;
  dirty_lbuf = false;
  tlbuf = none;
  dirty_tlbuf = false;
}

abbrev outside : Outside
outside = record {
  me = 1;
  expanses = expanses;
  requests = requests;
  events = events;
  raw = window 0;
  at = λ p. none;
}

abbrev state : State (ℕ → Queues)
state = record {
  server = record { expanses = window 2 ∷ window 1 ∷ []; count = 3 };
  em = 0;
  ports = λ port from to. [];
}

abbrev placed_at : ℕ → ℕ → Expanse
placed_at handle x = placed (pos x) (window handle).exp

abbrev manager_state : ManagerState (ℕ → Queues)
manager_state = record {
  last_x = pos 30;
  down = false;
  hold = record { mdx = pos 0; mdy = pos 0; exp = (window 1).exp; resize = false };
  ports = λ port from to. [];
}

state-HasUnique : HasUnique state.server.expanses
state-HasUnique = (refl, (refl, tt))

state-IsValid : IsValid state.server
state-IsValid = record { unique = state-HasUnique; below = omega arith }

abbrev calls : List Call
calls = update (placed_at 1 30) ∷ set_front (window 1).exp ∷ []

two_calls :
    (s : ℕ → Queues) × (s' : ℕ → Queues) × (call_all net (manager outside 2) calls state.ports
      ≡ some s)
    × (serve net outside 2 (record state { ports = s })
        ≡ some (record state { server = perform_all calls state.server; ports = s' }))
    × ((other : ℕ) → s' 16 other 1 ≡ [])
two_calls =
    serve-call_all net outside 2 calls 2 state (omega arith) (omega arith) (omega arith)
      (omega arith) λ other. refl

-- a second manager, process 2, asks to be registered, and then the server answers
abbrev asked : ℕ → Queues
asked = (queue 2 1 16).send (word 4) (λ port from to. [])

abbrev answered : ℕ → Queues
answered = (queue 1 2 16).send (bool_bytes false) (at_port 16 (put 2 1 [] (asked 16)) asked)

abbrev taken : State (ℕ → Queues)
taken = record state { em = 3; ports = asked }

second_manager : IsValid state.server × ((◌≢◌ {A = ℕ} 3 0) → ◌≡◌ {A = ℕ} 3 3)
unfolding serve serve_one register_em_func Option.bind
second_manager =
    serve-IsValid net outside 1 taken (record taken { ports = answered }) refl state-IsValid

manager_starts :
    (s₁ : ℕ → Queues) × (s₂ : ℕ → Queues) × (s₃ : ℕ → Queues) × (s₄ : ℕ → Queues) × (serve net
        outside 5
        (record state { ports = send_func net (manager outside 2) 4 state.ports })
      ≡ some (record state { em = 2; ports = s₁ }))
    × (receive_data net (manager outside 2) 1 s₁ ≡ some (1 ∷ [], s₂))
    × (manager_serve net (manager outside 2) 5 (record manager_state { ports = s₂ })
        ≡ some (record manager_state { last_x = pos 250; ports = s₃ }))
    × (serve net outside 5 (record state { em = 2; ports = s₃ })
        ≡ some (record state {
          em = 2;
          server = perform_all (layout (pos 30) (exps state.server.expanses)) state.server;
          ports = s₄;
        }))
    × (exps (perform_all (layout (pos 30) (exps state.server.expanses)) state.server).expanses
        ≡ placed_at 2 30 ∷ placed_at 1 140 ∷ [])
    × ((other : ℕ) → s₄ 16 other 1 ≡ [])
unfolding ◌+ℤ◌
manager_starts =
    serve-register_em net outside 2 5 state manager_state (omega arith) (omega arith) (omega arith)
      (omega arith) (omega arith) (omega arith) refl state-HasUnique
      ((100, refl, omega arith), ((100, refl, omega arith), omega arith)) (omega arith)
      λ from to. refl
