-- ===== src/Kernel/Ports/Examples.antt =====
-- Ports of concrete processes.
use frosk.Prelude.{ℕ, ◌+◌, ◌≤◌, ◌≡◌, refl, false, none, some, List, [], ◌∷◌, ◌⊎◌, ◌==◌, arith}
use frosk.Kernel.Kobj.{Header, alloc_kobj, full, all_below, any_below, test, claim_low, first_clear}
use frosk.Kernel.Pages.{Region, alloc_pages, alloc_from}
use frosk.Kernel.Ports.{load, Port, State, last_joining, send, poll, receive}
use frosk.Kernel.Ports.Fifo.{pending, receive-send, pending-send, send_past_page}
use frosk.Kernel.Ports.Link.{Kernel, waiting_at, send_each, receive_each, receive_each-send_each}

abbrev pool : List Header
pool = record { addr = 0xC000; low = λ k. k == 0; high = λ k. false } ∷ []

abbrev window : Region
window = record { obj = 0xC020; type = 1; addr = 0x100000; size = 0x300000 }

abbrev before : State
before = record {
  ports = [];
  mgr = record { phys = []; kvirt = window ∷ []; kobjs = pool };
  mem = λ p. 0;
}

receive-send_example :
    (s₁ : State) × (s₂ : State) × (send (some 7) 8 1 (10 ∷ 20 ∷ []) before ≡ some s₁)
    × (poll (some 8) 1 before ≡ none → poll (some 8) 1 s₁ ≡ some 7)
    × (receive (some 8) 7 1 2 s₁ ≡ some (some (10 ∷ 20 ∷ []), s₂))
    × (s₂.mem ≡ s₁.mem)
unfolding last_joining alloc_kobj full all_below claim_low first_clear test any_below alloc_pages
    alloc_from
receive-send_example =
    receive-send 7 8 1 (10 ∷ 20 ∷ []) before 0x100000 refl (_, _, _, _, _, refl, refl, refl)
      (omega arith) (omega arith) (omega arith)

abbrev port : ℕ → Port
port size = record { port = 1; to = 8; from = 7; addr = 0x100000; off = 0; size = size }

abbrev shared : ℕ → State
shared size = record before { ports = port size ∷ [] }

pending-send_example :
    (s₁ : State) × (s₂ : State) × (s₃ : State) × (send (some 7) 8 1 (30 ∷ []) (shared 2) ≡ some s₁)
    × (s₁.mgr ≡ before.mgr)
    × (receive (some 8) 7 1 2 s₁ ≡ some (some (pending (λ p. 0) (port 2)), s₂))
    × (receive (some 8) 7 1 1 s₂ ≡ some (some (30 ∷ []), s₃))
    × ((c : Port)
        → (c.addr + c.off + c.size ≤ 0x100000) ⊎ (0x100000 + 0x1000 ≤ c.addr + c.off)
        → pending s₁.mem c ≡ pending (λ p. 0) c)
unfolding last_joining
pending-send_example =
    pending-send 7 8 1 (30 ∷ []) (shared 2) [] [] (port 2) refl refl (omega arith) (omega arith)

-- the port has had bytes, which have been received
abbrev drained : Kernel
drained = some (record before { ports = record (port 0) { off = 2 } ∷ [] })

receive_each-send_each_example :
    (k : Kernel) × (receive_each 7 8 1
        (2 ∷ 1 ∷ [])
        (send_each 7 8 1 ((10 ∷ 20 ∷ []) ∷ (30 ∷ []) ∷ []) drained)
      ≡ some ((10 ∷ 20 ∷ []) ∷ (30 ∷ []) ∷ [], k))
    × (waiting_at 8 1 7 k ≡ [])
unfolding last_joining pending load
receive_each-send_each_example =
    receive_each-send_each 7 8 1 ((10 ∷ 20 ∷ []) ∷ (30 ∷ []) ∷ []) drained
      ([], record (port 0) { off = 2 }, [], (refl, refl, refl, refl, omega arith, omega arith)) refl

send_past_page_example :
    (s' : State) × (send (some 7) 8 1 (10 ∷ 20 ∷ []) (shared 0x1000) ≡ some s')
    × (s'.mgr ≡ before.mgr)
    × (load s'.mem (0x100000 + 0x1000) 2 ≡ 10 ∷ 20 ∷ [])
unfolding last_joining
send_past_page_example =
    send_past_page 7 8 1 (10 ∷ 20 ∷ []) (shared 0x1000) [] [] (port 0x1000) refl refl (omega arith)
