-- ===== src/Comm/Net.antt =====
-- What prgm/rusk/src/rusk_comm.c and prgm/bearing/src/bearing_comm.c use of the kernel's ports: a
-- `Channel` with room for each two processes and port, and `poll`. They are a parameter.
use frosk.Prelude.{
  ℕ, ◌+◌, ◌*◌, ◌/◌, drop, ◌^◌, ◌≤◌, ◌<◌, ◌≡◌, ◌≢◌, some, List, [], ◌∷◌, ◌++◌, ◌==◌, if◌then◌else◌,
  Bool, true, false, get_or,
}
use frosk.Comm.{Channel, word, unsigned}

pub record Net (S : Type 0) : Type 1 where
  -- from one process to another, at a port
  pub chan : ℕ → ℕ → ℕ → Channel S
  -- every port has room for what is sent
  pub roomy : (from to port n : ℕ) (s : S) → (chan from to port).Room n s
  -- a process from which bytes wait for the first one at the port, or 0
  pub poll : ℕ → ℕ → S → ℕ
  -- there are that many processes, from 1 on
  pub most : ℕ
  pub send_apart :
      (from to port from' to' : ℕ) (xs : List ℕ) (s : S)
      → ((from ≡ from') × (to ≡ to') → ⊥)
      → (chan from' to' port).waiting ((chan from to port).send xs s)
        ≡ (chan from' to' port).waiting s
  pub receive_apart :
      (from to port from' to' n : ℕ) (xs : List ℕ) (s s' : S)
      → ((from ≡ from') × (to ≡ to') → ⊥)
      → (chan from to port).receive n s ≡ some (xs, s')
      → (chan from' to' port).waiting s' ≡ (chan from' to' port).waiting s
  pub poll_one :
      (me port from : ℕ) (s : S)
      → 0 < from
      → from ≤ most
      → ((other : ℕ) → other ≢ from → (chan other me port).waiting s ≡ [])
      → (chan from me port).waiting s ≢ []
      → poll me port s ≡ from
  pub poll_none :
      (me port : ℕ) (s : S)
      → ((other : ℕ) → (chan other me port).waiting s ≡ [])
      → poll me port s ≡ 0

abbrev pub es_comm_port : ℕ
es_comm_port = 0x10

abbrev pub event_comm_port : ℕ
event_comm_port = 0x11

-- a `bool` and a `long`
abbrev pub bool_bytes : Bool → List ℕ
bool_bytes b = (if b then 1 else 0) ∷ []

abbrev pub bool_value : List ℕ → Bool
bool_value bs = if get_or bs 0 0 == 0 then false else true

abbrev pub long_bytes : ℕ → List ℕ
long_bytes n = word n ++ word (n / 2 ^ 32)

abbrev pub long_value : List ℕ → ℕ
long_value bs = unsigned bs + 2 ^ 32 * unsigned (drop 4 bs)
