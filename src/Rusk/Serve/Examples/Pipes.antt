-- ===== src/Rusk/Serve/Examples/Pipes.antt =====
-- Ports as queues of bytes: a `Net` for the theorems of Rusk/Serve.
use mathlib.Core.Option
use frosk.Prelude.{
  ℕ, zero, suc, ◌≤◌, ◌<◌, ◌≡◌, ◌≢◌, refl, ap, true, Option, some, none, List, [], ◌∷◌, ◌++◌, ◌==◌,
  ◌&&◌, if◌then◌else◌, length, arith, inl, inr, Bool-cases, eq_of_some, sym, ◌∙◌,
}
use frosk.Comm.{Channel}
use frosk.Comm.Net.{Net}

abbrev pub Queues : Type 0
Queues = ℕ → ℕ → List ℕ

abbrev pull : ℕ → List ℕ → Option (List ℕ × List ℕ)
pull zero s = some ([], s)
pull (suc n) [] = none
pull (suc n) (x ∷ s) = Option.map (λ (xs, s'). (x ∷ xs, s')) (pull n s)

pub pull-append : (xs ys : List ℕ) → pull (length xs) (xs ++ ys) ≡ some (xs, ys)
pull-append [] ys = refl
pull-append (x ∷ xs) ys = rw (pull-append xs ys) refl

abbrev pub put : ℕ → ℕ → List ℕ → Queues → Queues
put from to xs s f t = if (f == from) && (t == to) then xs else s f t

pub put-at : (from to : ℕ) (xs : List ℕ) (s : Queues) → put from to xs s from to ≡ xs
put-at from to xs s = ground arith

pub put-other :
    (from to from' to' : ℕ) (xs : List ℕ) (s : Queues)
    → ((from ≡ from') × (to ≡ to') → ⊥)
    → put from to xs s from' to' ≡ s from' to'
put-other from to from' to' xs s apart = elim (Bool-cases ((from' == from) && (to' == to))) [
  | inl e ↦ absurd (apart (ground (arith, e), ground (arith, e)))
  | inr e ↦ rw e refl
]

-- the queues by their port
abbrev pub at_port : ℕ → Queues → (ℕ → Queues) → ℕ → Queues
at_port port q s p = if p == port then q else s p

pub at_port-at : (port : ℕ) (q : Queues) (s : ℕ → Queues) → at_port port q s port ≡ q
at_port-at port q s = let e : (port == port) ≡ true = ground arith in rw e refl

abbrev pub queue : ℕ → ℕ → ℕ → Channel (ℕ → Queues)
queue from to port = record {
  send = λ xs s. at_port port (put from to (s port from to ++ xs) (s port)) s;
  receive = λ n s.
      Option.map (λ (xs, rest). (xs, at_port port (put from to rest (s port)) s))
        (pull n (s port from to));
  waiting = λ s. s port from to;
  Room = λ n s. Unit {0};
  room_less = λ k n s le r. r;
  room-send = λ xs n s r. r;
  waiting-send = λ xs s r.
      ap (λ (q : Queues). q from to) (at_port-at port _ s)
      ∙ put-at from to (s port from to ++ xs) (s port);
  receive_waiting = λ xs ys s r h. (
    at_port port (put from to ys (s port)) s,
    rw h (rw (pull-append xs ys) refl),
    ap (λ (q : Queues). q from to) (at_port-at port _ s) ∙ put-at from to ys (s port),
    tt,
  );
}

pub queue-receive_apart :
    (from to port from' to' : ℕ) (s s' : ℕ → Queues) (r : Option (List ℕ × List ℕ)) (xs : List ℕ)
    → ((from ≡ from') × (to ≡ to') → ⊥)
    → Option.map {B = List ℕ × (ℕ → Queues)}
        (λ (ys, rest). (ys, at_port port (put from to rest (s port)) s))
        r
      ≡ some (xs, s')
    → s' port from' to' ≡ s port from' to'
queue-receive_apart from to port from' to' s s' none xs apart e = cc
queue-receive_apart from to port from' to' s s' (some (ys, rest)) xs apart e =
    let same = ap (λ (p : List ℕ × (ℕ → Queues)). p.1) (eq_of_some _ _ e) in
    ap (λ (t : ℕ → Queues). t port from' to') (sym same)
    ∙ ap (λ (q : Queues). q from' to') (at_port-at port _ s)
    ∙ put-other from to from' to' rest (s port) apart

abbrev pick : List ℕ → ℕ → ℕ → ℕ
pick [] i rest = rest
pick (x ∷ xs) i rest = i

abbrev first_waiting : ℕ → (ℕ → List ℕ) → ℕ
first_waiting zero q = 0
first_waiting (suc n) q = pick (q (suc n)) (suc n) (first_waiting n q)

pick-some : (xs : List ℕ) (i rest : ℕ) → xs ≢ [] → pick xs i rest ≡ i
pick-some [] i rest h = absurd (h refl)
pick-some (x ∷ xs) i rest h = refl

pub first_waiting-none : (n : ℕ) (q : ℕ → List ℕ) → ((i : ℕ) → q i ≡ []) → first_waiting n q ≡ 0
first_waiting-none zero q h = refl
first_waiting-none (suc n) q h =
    ap (λ xs. pick xs (suc n) (first_waiting n q)) (h (suc n)) ∙ first_waiting-none n q h

pub first_waiting-one :
    (n i : ℕ) (q : ℕ → List ℕ)
    → 0 < i
    → i ≤ n
    → ((j : ℕ) → j ≢ i → q j ≡ [])
    → q i ≢ []
    → first_waiting n q ≡ i
first_waiting-one zero i q some_i le h k = absurd (omega (arith, some_i, le))
first_waiting-one (suc n) i q some_i le h k = elim (Bool-cases (suc n == i)) [
  | inl e ↦
      let same : suc n ≡ i = ground (arith, e) in
      pick-some (q (suc n)) (suc n) (first_waiting n q) (λ z. k (ap q (sym same) ∙ z)) ∙ same
  | inr e ↦
      ap (λ xs. pick xs (suc n) (first_waiting n q)) (h (suc n) (λ same. ground (arith, e, same)))
      ∙ first_waiting-one n i q some_i (ground (arith, e, le)) h k
]

-- process 1 is the server, process 2 the manager
abbrev pub net : Net (ℕ → Queues)
net = record {
  chan = λ from to port. queue from to port;
  roomy = λ from to port n s. tt;
  poll = λ me port s. first_waiting 2 (λ from. s port from me);
  most = 2;
  send_apart = λ from to port from' to' xs s apart.
      ap (λ (q : Queues). q from' to') (at_port-at port _ s)
      ∙ put-other from to from' to' (s port from to ++ xs) (s port) apart;
  receive_apart = λ from to port from' to' n xs s s' apart e.
      queue-receive_apart from to port from' to' s s' (pull n (s port from to)) xs apart e;
  poll_one = λ me port from s some_from le quiet waits.
      first_waiting-one 2 from (λ f. s port f me) some_from le quiet waits;
  poll_none = λ me port s quiet. first_waiting-none 2 (λ f. s port f me) quiet;
}
