-- ===== src/Kernel/Ports.antt =====
-- kernel/src/ports.c: messages between processes. A port index object and its data object are one
-- `Port`; `none` is a fault: a null object or page that is written to, a division by 0, or pages
-- freed that the page manager cannot take. The lock is held over the whole of each call, so that
-- calls follow one another. `cur` is the process of the current thread, if there is one.
pub mod Bytes
pub mod Fifo
pub mod Link
mod Examples
use mathlib.Core.Option
use frosk.Prelude.{
  ℕ, zero, suc, ◌+◌, ◌-◌, ◌/◌, ◌%◌, Bool, true, false, not, ◌&&◌, Option, none, some, List, [], ◌∷◌,
  ◌++◌, ◌==◌, leb, if◌then◌else◌, length,
}
use frosk.Cstd.Memory.{Mem, write}
use frosk.Kernel.Kobj.{alloc_kobj}
use frosk.Kernel.Pages.{Manager, kvirt_pages, alloc_pages, free_pages}

pub record Port : Type 0 where
  pub port : ℕ
  pub to : ℕ
  pub from : ℕ
  pub addr : ℕ
  pub off : ℕ
  pub size : ℕ

pub record State : Type 0 where
  pub ports : List Port
  pub mgr : Manager
  pub mem : Mem

-- `memcpy` of kstrlib.c into kernel memory, and out of it
unfoldable pub store : Mem → ℕ → List ℕ → Mem
store m a [] = m
store m a (x ∷ xs) = store (write m a x) (a + 1) xs

unfoldable pub load : Mem → ℕ → ℕ → List ℕ
load m a zero = []
load m a (suc n) = m a ∷ load m (a + 1) n

abbrev pub joins : ℕ → ℕ → ℕ → Port → Bool
joins to port from c = c.port == port && c.to == to && c.from == from

-- the last port of the list that joins the two processes, between those before and behind it
unfoldable pub last_joining : ℕ → ℕ → ℕ → List Port → Option (List Port × Port × List Port)
last_joining to port from [] = none
last_joining to port from (c ∷ cs) = elim (last_joining to port from cs) [
  | some (before, l, behind) ↦ some (c ∷ before, l, behind)
  | none ↦ if joins to port from c then some ([], c, cs) else none
]

-- the end of `send`: a port of its own for the message
unfoldable pub send_new : ℕ → ℕ → ℕ → List ℕ → State → Option State
send_new from to port buf s =
    let size = length buf in
    let n = size / 0x1000 + (if size % 0x1000 == 0 then 0 else 1) in
    elim (alloc_kobj s.mgr.kobjs) [
      | none ↦ none
      | some (d, ks) ↦ elim (alloc_kobj ks) [
        | none ↦ none
        | some (l, ks') ↦ elim (alloc_pages n kvirt_pages (record s.mgr { kobjs = ks' })) [
          | none ↦ none
          | some (a, mgr') ↦
              let new : Port = record {
                port = port;
                to = to;
                from = from;
                addr = a;
                off = 0;
                size = size;
              } in
              let s' : State = record {
                ports = s.ports ++ (new ∷ []);
                mgr = mgr';
                mem = store s.mem a buf;
              } in
              if a == 0 then none else some s'
        ]
      ]
    ]

unfoldable pub send_from : ℕ → ℕ → ℕ → List ℕ → State → Option State
send_from from to port buf s = elim (last_joining to port from s.ports) [
  | none ↦ send_new from to port buf s
  | some (before, l, behind) ↦
      let n = l.size + l.off in
      let more = record l { size = l.size + length buf } in
      if n == 0
      then none
      else if leb (length buf) (0x1000 - 0x1000 % n)
      then some (record s { ports = before ++ (more ∷ behind); mem = store s.mem (l.addr + n) buf })
      else send_new from to port buf s
]

unfoldable pub send : Option ℕ → ℕ → ℕ → List ℕ → State → Option State
send none to port buf s = some s
send (some from) to port buf s = send_from from to port buf s

unfoldable pub poll_in : ℕ → ℕ → List Port → Option ℕ
poll_in to port [] = none
poll_in to port (c ∷ cs) =
    if c.port == port && c.to == to && not (c.size == 0) then some c.from else poll_in to port cs

-- `poll`; `none` is the null pointer
unfoldable pub poll : Option ℕ → ℕ → State → Option ℕ
poll none port s = none
poll (some to) port s = poll_in to port s.ports

-- the first port that joins the processes and holds as many bytes
unfoldable pub first_holding : ℕ → ℕ → ℕ → ℕ → List Port → Option (List Port × Port × List Port)
first_holding to port from size [] = none
first_holding to port from size (c ∷ cs) =
    let rest =
      Option.map (λ (before, d, behind). (c ∷ before, d, behind))
        (first_holding to port from size cs) in
    if joins to port from c && leb size c.size then some ([], c, cs) else rest

-- the bytes taken off a port
unfoldable pub take_bytes : ℕ → List Port → Port → List Port → State → Option (List ℕ × State)
take_bytes size before d behind s =
    let got = load s.mem (d.addr + d.off) size in
    let off = d.off + size in
    let left = record d { size = d.size - size; off = off } in
    let cut = record d { size = d.size - size; off = off % 0x1000 } in
    let freed =
      Option.map (λ mgr'. (got, record s { ports = before ++ (cut ∷ behind); mgr = mgr' }))
        (free_pages d.addr (off / 0x1000) kvirt_pages s.mgr) in
    if leb 0x1000 off then freed else some (got, record s { ports = before ++ (left ∷ behind) })

-- `receive`: the bytes where it returns 1, and the state
unfoldable pub receive : Option ℕ → ℕ → ℕ → ℕ → State → Option (Option (List ℕ) × State)
receive none from port size s = some (none, s)
receive (some to) from port size s = elim (first_holding to port from size s.ports) [
  | none ↦ some (none, s)
  | some (before, d, behind) ↦
      Option.map (λ (got, s'). (some got, s')) (take_bytes size before d behind s)
]
