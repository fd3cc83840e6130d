-- ===== src/Kernel/Ports/Fifo.antt =====
-- Messages through the ports of kernel/src/ports.c arrive whole and in order.
use native.Mathlib.Nat.{mod-lt}
use frosk.Prelude.{
  ℕ, ◌+◌, ◌-◌, ◌/◌, ◌%◌, ◌≤◌, ◌<◌, ◌≡◌, refl, ap, sym, ◌∙◌, Bool-cases, true, false, none, some,
  Option-cases, List, [], ◌∷◌, ◌++◌, ◌⊎◌, inl, inr, ◌==◌, leb, if◌then◌else◌, length, arith,
}
use frosk.Cstd.Memory.{Mem}
use frosk.Kernel.Kobj.{Header, alloc_kobj}
use frosk.Kernel.Pages.{Manager, kvirt_pages, alloc_pages}
use frosk.Kernel.Ports.{
  Port, State, store, load, joins, last_joining, send_new, send_from, send, poll_in, poll,
  first_holding, take_bytes, receive,
}
use frosk.Kernel.Ports.Bytes.{load-store, load-store_outside}

-- the bytes that wait at a port
unfoldable pub pending : Mem → Port → List ℕ
pending m p = load m (p.addr + p.off) p.size

-- the pages that hold a message of `size` bytes
abbrev pub pages_for : ℕ → ℕ
pages_for size = size / 0x1000 + (if size % 0x1000 == 0 then 0 else 1)

-- the port that `send` makes
abbrev pub fresh : ℕ → ℕ → ℕ → ℕ → ℕ → Port
fresh from to port a size = record {
  port = port;
  to = to;
  from = from;
  addr = a;
  off = 0;
  size = size;
}

send_new_lem :
    (from to port : ℕ) (buf : List ℕ) (s : State) (d l a : ℕ) (ks ks' : List Header)
    (mgr' : Manager)
    → alloc_kobj s.mgr.kobjs ≡ some (d, ks)
    → alloc_kobj ks ≡ some (l, ks')
    → alloc_pages (pages_for (length buf)) kvirt_pages (record s.mgr { kobjs = ks' })
      ≡ some (a, mgr')
    → 0 < a
    → send_new from to port buf s
      ≡ some (record {
        ports = s.ports ++ (fresh from to port a (length buf) ∷ []);
        mgr = mgr';
        mem = store s.mem a buf;
      })
unfolding send_new
send_new_lem from to port buf s d l a ks ks' mgr' e₁ e₂ e₃ h =
    rw (e₁, e₂, e₃, send_new) (ground arith)

-- a list that is not joined to the processes has neither a first port that is nor a later one
last_joining_lem :
    (to port from : ℕ) (c : Port) (cs : List Port)
    → last_joining to port from (c ∷ cs) ≡ none
    → (last_joining to port from cs ≡ none) × (joins to port from c ≡ false)
unfolding last_joining
last_joining_lem to port from c cs h = elim (Option-cases (last_joining to port from cs)) [
  | inl e ↦ (e, ground (arith, e, h))
  | inr (x, e) ↦ absurd (ground (arith, e, h))
]

first_holding_last :
    (to port from size a : ℕ) (cs : List Port)
    → last_joining to port from cs ≡ none
    → first_holding to port from size (cs ++ (fresh from to port a size ∷ []))
      ≡ some (cs, fresh from to port a size, [])
unfolding first_holding
first_holding_last to port from size a [] h = ground arith
first_holding_last to port from size a (c ∷ cs) h =
    let (h₁, h₂) = last_joining_lem to port from c cs h in
    rw (first_holding_last to port from size a cs h₁, h₂) refl

poll_in_last :
    (to port from size a : ℕ) (cs : List Port)
    → 0 < size
    → poll_in to port cs ≡ none
    → poll_in to port (cs ++ (fresh from to port a size ∷ [])) ≡ some from
unfolding poll_in
poll_in_last to port from size a [] p h = ground (arith, p)
poll_in_last to port from size a (c ∷ cs) p h =
    let e = poll_in_last to port from size a cs p in ground (arith, e, h)

-- the objects and pages for a message are there
abbrev pub Room : ℕ → State → ℕ → Type 0
Room size s a =
    (ks : List Header) × (ks' : List Header) × (d : ℕ) × (l : ℕ) × (mgr' : Manager) × (alloc_kobj
        s.mgr.kobjs
      ≡ some (d, ks))
    × (alloc_kobj ks ≡ some (l, ks'))
    × (alloc_pages (pages_for size) kvirt_pages (record s.mgr { kobjs = ks' }) ≡ some (a, mgr'))

take_fresh :
    (from to port a : ℕ) (buf : List ℕ) (cs : List Port) (m : Mem) (mgr : Manager)
    → length buf < 0x1000
    → take_bytes (length buf) cs (fresh from to port a (length buf)) [] (record {
      ports = cs ++ (fresh from to port a (length buf) ∷ []);
      mgr = mgr;
      mem = store m a buf;
    })
      ≡ some (
        buf,
        record {
          ports =
              cs
              ++ (record (fresh from to port a (length buf)) { off = length buf; size = 0 } ∷ []);
          mgr = mgr;
          mem = store m a buf;
        },
      )
unfolding take_bytes
take_fresh from to port a buf cs m mgr h =
    let e : a + 0 ≡ a = omega arith in
    let e' : 0 + length buf ≡ length buf = omega arith in
    let z : length buf - length buf ≡ 0 = omega arith in
    let l : leb 0x1000 (length buf) ≡ false = ground arith in
    rw (e, e', z, l, load-store buf m a) refl

-- A process sends a message to another one that it shares no port with, less than a page long and
-- not empty, and the kernel has the objects and pages for it. Then `send` returns, `poll` of the
-- receiver, where nothing waited for it before, names the sender, and `receive` of that many bytes
-- gives the message, byte for byte.
pub receive-send :
    (from to port : ℕ) (buf : List ℕ) (s : State) (a : ℕ)
    → last_joining to port from s.ports ≡ none
    → Room (length buf) s a
    → 0 < a
    → 0 < length buf
    → length buf < 0x1000
    → (s₁ : State) × (s₂ : State) × (send (some from) to port buf s ≡ some s₁)
      × (poll (some to) port s ≡ none → poll (some to) port s₁ ≡ some from)
      × (receive (some to) from port (length buf) s₁ ≡ some (some buf, s₂))
      × (s₂.mem ≡ s₁.mem)
unfolding send poll receive send_from
receive-send from to port buf s a none_joins (ks, ks', d, l, mgr', e₁, e₂, e₃) a_pos pos small =
    let sent = send_new_lem from to port buf s d l a ks ks' mgr' e₁ e₂ e₃ a_pos in
    let s₁ : State = record {
      ports = s.ports ++ (fresh from to port a (length buf) ∷ []);
      mgr = mgr';
      mem = store s.mem a buf;
    } in
    let s₂ : State = record s₁ {
      ports =
          s.ports
          ++ (record (fresh from to port a (length buf)) { off = length buf; size = 0 } ∷ []);
    } in
    (
      s₁,
      s₂,
      rw (none_joins, send_from) sent,
      poll_in_last to port from (length buf) a s.ports pos,
      rw (first_holding_last to port from (length buf) a s.ports none_joins, receive)
          (rw (take_fresh from to port a buf s.ports s.mem mgr' small) refl),
      refl,
    )

pub send_joining :
    (from to port : ℕ) (buf : List ℕ) (s : State) (before behind : List Port) (l : Port)
    → last_joining to port from s.ports ≡ some (before, l, behind)
    → 0 < l.size + l.off
    → length buf + 0x1000 % (l.size + l.off) ≤ 0x1000
    → send (some from) to port buf s
      ≡ some (record s {
        ports = before ++ (record l { size = l.size + length buf } ∷ behind);
        mem = store s.mem (l.addr + (l.size + l.off)) buf;
      })
unfolding send send_from
send_joining from to port buf s before behind l e pos fits =
    let full : (l.size + l.off == 0) ≡ false = ground arith in
    let test : leb (length buf) (0x1000 - 0x1000 % (l.size + l.off)) ≡ true = ground arith in
    rw (e, send_from) (rw (full, test) refl)

-- a message that fits into the page passes the test of `send`
pub below_page : (n k : ℕ) → 0 < n → n + k < 0x1000 → k + 0x1000 % n ≤ 0x1000
below_page n k pos fits = let r = mod-lt 0x1000 pos in omega (arith, r, fits)

outside_page :
    (b k a n size : ℕ)
    → (b + k ≤ a) ⊎ (a + 0x1000 ≤ b)
    → n + size < 0x1000
    → (b + k ≤ a + n) ⊎ (a + n + size ≤ b)
outside_page b k a n size (inl h) fits = inl (omega (arith, h))
outside_page b k a n size (inr h) fits = inr (omega (arith, h, fits))

last_joining-joins :
    (to port from : ℕ) (cs before behind : List Port) (l : Port)
    → last_joining to port from cs ≡ some (before, l, behind)
    → joins to port from l ≡ true
unfolding last_joining
last_joining-joins to port from [] before behind l h = ground (arith, h)
last_joining-joins to port from (c ∷ cs) before behind l h =
    elim (Option-cases (last_joining to port from cs)) [
      | inl e ↦ elim (Bool-cases (joins to port from c)) [
        | inl j ↦ let same : c ≡ l = ground (arith, h, e, j) in rw (sym same) j
        | inr j ↦ absurd (ground (arith, h, e, j))
      ]
      | inr ((b, k, r), e) ↦
          let same : k ≡ l = ground (arith, h, e) in
          last_joining-joins to port from cs b r l (e ∙ ap (λ x. some (b, x, r)) same)
    ]

-- the only port that joins the processes is found
first_holding_only :
    (to port from n : ℕ) (before behind : List Port) (l : Port)
    → last_joining to port from before ≡ none
    → joins to port from l ≡ true
    → n ≤ l.size
    → first_holding to port from n (before ++ (l ∷ behind)) ≡ some (before, l, behind)
unfolding first_holding
first_holding_only to port from n [] behind l h j le =
    let enough : leb n l.size ≡ true = ground arith in rw (j, enough) refl
first_holding_only to port from n (c ∷ before) behind l h j le =
    let (h₁, h₂) = last_joining_lem to port from c before h in
    rw (first_holding_only to port from n before behind l h₁ j le, h₂) refl

-- bytes are received that stay within the port's page
pub receive_only :
    (to port from n : ℕ) (before behind : List Port) (l : Port) (s : State)
    → s.ports ≡ before ++ (l ∷ behind)
    → last_joining to port from before ≡ none
    → joins to port from l ≡ true
    → n ≤ l.size
    → l.off + n < 0x1000
    → receive (some to) from port n s
      ≡ some (
        some (load s.mem (l.addr + l.off) n),
        record s { ports = before ++ (record l { size = l.size - n; off = l.off + n } ∷ behind) },
      )
unfolding receive take_bytes
receive_only to port from n before behind l s e h j le small =
    let found = first_holding_only to port from n before behind l h j le in
    let inside : leb 0x1000 (l.off + n) ≡ false = ground arith in
    rw (e, found, receive) (rw inside refl)

-- A process sends to the one port that it shares with the receiver, and the message fits behind the bytes
-- of the port into its page, with a byte to spare. Then `send` returns, and takes neither pages nor
-- objects. `receive` of as many bytes as waited before gives these, and a second `receive`, of the
-- message's size, gives the message. The bytes of a port that lie outside the page stay as they are.
pub pending-send :
    (from to port : ℕ) (buf : List ℕ) (s : State) (before behind : List Port) (l : Port)
    → last_joining to port from s.ports ≡ some (before, l, behind)
    → last_joining to port from before ≡ none
    → 0 < l.off + l.size
    → l.off + l.size + length buf < 0x1000
    → (s₁ : State) × (s₂ : State) × (s₃ : State) × (send (some from) to port buf s ≡ some s₁)
      × (s₁.mgr ≡ s.mgr)
      × (receive (some to) from port l.size s₁ ≡ some (some (pending s.mem l), s₂))
      × (receive (some to) from port (length buf) s₂ ≡ some (some buf, s₃))
      × ((c : Port)
          → (c.addr + c.off + c.size ≤ l.addr) ⊎ (l.addr + 0x1000 ≤ c.addr + c.off)
          → pending s₁.mem c ≡ pending s.mem c)
unfolding pending
pending-send from to port buf s before behind l e only pos fits =
    let j = last_joining-joins to port from s.ports before behind l e in
    let l₁ = record l { size = l.size + length buf } in
    let l₂ = record l { size = l.size + length buf - l.size; off = l.off + l.size } in
    let s₁ : State = record s {
      ports = before ++ (l₁ ∷ behind);
      mem = store s.mem (l.addr + (l.size + l.off)) buf;
    } in
    let s₂ : State = record s₁ { ports = before ++ (l₂ ∷ behind) } in
    let at_end : l.addr + (l.size + l.off) ≡ l.addr + (l.off + l.size) = omega arith in
    let l₃ = record l₂ { size = l₂.size - length buf; off = l₂.off + length buf } in
    let s₃ : State = record s₁ { ports = before ++ (l₃ ∷ behind) } in
    let test =
      below_page (l.size + l.off) (length buf) (omega (arith, pos)) (omega (arith, fits)) in
    let first =
      receive_only to port from l.size before behind l₁ s₁ refl only j (omega arith)
        (omega (arith, fits)) in
    let kept =
      load-store_outside l.size buf s.mem (l.addr + (l.size + l.off)) (l.addr + l.off)
        (inl (omega arith)) in
    let second =
      receive_only to port from (length buf) before behind l₂ s₂ refl only j (omega arith)
        (omega (arith, fits)) in
    let message : load s₁.mem (l.addr + (l.off + l.size)) (length buf) ≡ buf =
      rw at_end (load-store buf s.mem (l.addr + (l.off + l.size))) in
    (
      s₁,
      s₂,
      s₃,
      send_joining from to port buf s before behind l e (omega (arith, pos)) test,
      refl,
      first ∙ ap (λ bs. some (some bs, s₂)) kept,
      second ∙ ap (λ bs. some (some bs, s₃)) message,
      λ c apart. load-store_outside c.size buf s.mem (l.addr + (l.size + l.off)) (c.addr + c.off) (
          outside_page (c.addr + c.off) c.size l.addr (l.size + l.off) (length buf) apart
            (omega (arith, fits))),
    )

-- The page of a port is full up to its end (size and offset make 0x1000), and a message of at most
-- a page is sent to it. Then `send` returns and writes every byte of the message behind the page,
-- without a page taken from the page manager.
pub send_past_page :
    (from to port : ℕ) (buf : List ℕ) (s : State) (before behind : List Port) (l : Port)
    → last_joining to port from s.ports ≡ some (before, l, behind)
    → l.size + l.off ≡ 0x1000
    → length buf ≤ 0x1000
    → (s' : State) × (send (some from) to port buf s ≡ some s')
      × (s'.mgr ≡ s.mgr)
      × (load s'.mem (l.addr + 0x1000) (length buf) ≡ buf)
send_past_page from to port buf s before behind l e full small =
    let fits : length buf + 0x1000 % (l.size + l.off) ≤ 0x1000 = rw full (omega arith) in
    (
      _,
      send_joining from to port buf s before behind l e (omega arith) fits,
      refl,
      rw full (load-store buf s.mem (l.addr + 0x1000)),
    )
