-- ===== src/Comm/Pair.antt =====
-- Two processes that speak with each other at `es_comm_port`, and no others.
use frosk.Prelude.{
  ℕ, ◌≤◌, ◌<◌, ◌≡◌, ◌≢◌, sym, ap, ◌∙◌, subst, some, List, [], ◌++◌, ◌==◌, length, arith, Bool-cases,
  ==_iff, inl, inr,
}
use frosk.Comm.{Channel}
use frosk.Comm.Steady.{Steady}
use frosk.Comm.Net.{Net, es_comm_port}

module _ {S : Type 0} (net : Net S) where
  -- nothing waits but from x to y and from y to x
  abbrev pub Between : ℕ → ℕ → S → Type 0
  Between x y s =
      (from to : ℕ)
      → ((from ≡ x) × (to ≡ y) → ⊥)
      → ((from ≡ y) × (to ≡ x) → ⊥)
      → (net.chan from to es_comm_port).waiting s ≡ []

  -- and u waits from x to y, v from y to x
  abbrev pub Waiting : ℕ → ℕ → S → List ℕ → List ℕ → Type 0
  Waiting x y s u v =
      Between x y s
      × ((net.chan x y es_comm_port).waiting s ≡ u)
      × ((net.chan y x es_comm_port).waiting s ≡ v)

  pub turn : (x y : ℕ) (s : S) (u v : List ℕ) → Waiting x y s u v → Waiting y x s v u
  turn x y s u v (quiet, w, w') = (λ from to a b. quiet from to b a, w', w)

module _ {S : Type 0} (net : Net S) (x y : ℕ) (ne : x ≢ y) where
  abbrev ch : Channel S
  ch = net.chan x y es_comm_port

  pub Between-Steady :
      (v : List ℕ)
      → Steady ch (λ s. Between net x y s × ((net.chan y x es_comm_port).waiting s ≡ v))
  Between-Steady v = record {
    on_send = λ xs s (quiet, w). (
      λ from to a b.
          net.send_apart x y es_comm_port from to xs s (λ (e, e'). a (sym e, sym e'))
          ∙ quiet from to a b,
      net.send_apart x y es_comm_port y x xs s (λ (e, e'). ne e) ∙ w,
    );
    on_receive = λ n s bs s' e (quiet, w). (
      λ from to a b.
          net.receive_apart x y es_comm_port from to n bs s s' (λ (e', e''). a (sym e', sym e'')) e
          ∙ quiet from to a b,
      net.receive_apart x y es_comm_port y x n bs s s' (λ (e', e''). ne e') e ∙ w,
    );
  }

  pub Waiting-send :
      (xs : List ℕ) (s : S) (u v : List ℕ)
      → Waiting net x y s u v
      → Waiting net x y (ch.send xs s) (u ++ xs) v
  Waiting-send xs s u v (quiet, w, w') =
      let (quiet', w'') = (Between-Steady v).on_send xs s (quiet, w') in
      (quiet', ch.waiting-send xs s (net.roomy x y es_comm_port (length xs) s) ∙ ap (◌++ xs) w, w'')

  pub Waiting-receive :
      (n : ℕ) (xs ys : List ℕ) (s : S) (v : List ℕ)
      → length xs ≡ n
      → Waiting net x y s (xs ++ ys) v
      → (s' : S) × (ch.receive n s ≡ some (xs, s')) × Waiting net x y s' ys v
  Waiting-receive n xs ys s v size (quiet, w, w') =
      let (s', e, w'', room) = ch.receive_waiting xs ys s (net.roomy x y es_comm_port 0 s) w in
      let e' = subst (λ k. ch.receive k s ≡ some (xs, s')) size e in
      let (quiet', w₃) = (Between-Steady v).on_receive n s xs s' e' (quiet, w') in
      (s', e', (quiet', w'', w₃))

  -- from others nothing waits for y
  pub others :
      (s : S) (u v : List ℕ)
      → Waiting net x y s u v
      → (other : ℕ) → other ≢ x
      → (net.chan other y es_comm_port).waiting s ≡ []
  others s u v (quiet, w, w') other apart =
      quiet other y (λ (e, e'). apart e) (λ (e, e'). ne (sym e'))

  pub poll-some :
      (s : S) (u v : List ℕ)
      → 0 < x
      → x ≤ net.most
      → Waiting net x y s u v
      → u ≢ []
      → net.poll y es_comm_port s ≡ x
  poll-some s u v some_x le waits some_u =
      net.poll_one y es_comm_port x s some_x le (others s u v waits)
        (λ nothing. some_u (sym waits.1 ∙ nothing))

  pub poll-nothing : (s : S) (v : List ℕ) → Waiting net x y s [] v → net.poll y es_comm_port s ≡ 0
  poll-nothing s v waits = net.poll_none y es_comm_port s λ other. elim (Bool-cases (other == x)) [
    | inl e ↦
        subst (λ a. (net.chan a y es_comm_port).waiting s ≡ []) (sym ((==_iff other x).0 e)) waits.1
    | inr e ↦ others s [] v waits other (λ same. ground (arith, e, same))
  ]
