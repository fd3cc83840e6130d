-- ===== src/Rusk/Serve/Register.antt =====
-- The window manager registers with prgm/rusk/src/rusk_comm.c.
use mathlib.Core.Option
use frosk.Prelude.{
  ℕ, suc, ◌≤◌, ◌<◌, ◌≡◌, ◌≢◌, refl, sym, subst, some, List, [], ◌∷◌, ◌++◌, ◌==◌, arith, false, true,
  append_assoc, append-nil,
}
use frosk.Rusk.Expanses.{Expanse, FullExpanse}
use frosk.Comm.{word}
use frosk.Comm.Net.{Net, es_comm_port, bool_bytes}
use frosk.Comm.Pair.{Waiting, turn, Waiting-send, Waiting-receive, poll-some, poll-nothing}
use frosk.Rusk.Serve.{
  State, Outside, serve_one, serve, register_em_func, em_registered, em_init_expanse,
}
use frosk.Rusk.Serve.Served.{serve-nothing}

-- the messages that announce expanses to the manager
abbrev pub inits : Outside → List Expanse → List ℕ
inits o [] = []
inits o (e ∷ es) = (word 0 ++ o.expanses.encode e) ++ inits o es

abbrev pub exps : List FullExpanse → List Expanse
exps [] = []
exps (f ∷ fs) = f.exp ∷ exps fs

module _ {S : Type 0} (net : Net S) (o : Outside) (b : ℕ) (ne : o.me ≢ b) where
  em_init_expanse-Waiting :
      (e : Expanse) (s : S) (u v : List ℕ)
      → Waiting net o.me b s u v
      → Waiting net o.me b (em_init_expanse net o b e s) (u ++ (word 0 ++ o.expanses.encode e)) v
  unfolding em_init_expanse
  em_init_expanse-Waiting e s u v w =
      subst (λ k. Waiting net o.me b (em_init_expanse net o b e s) k v)
        (append_assoc u (word 0) (o.expanses.encode e))
        (Waiting-send net o.me b ne (o.expanses.encode e) _ _ v
          (Waiting-send net o.me b ne (word 0) s u v w))

  em_registered-Waiting :
      (fs : List FullExpanse) (s : S) (u v : List ℕ)
      → Waiting net o.me b s u v
      → Waiting net o.me b (em_registered net o b fs s) (u ++ inits o (exps fs)) v
  unfolding em_registered
  em_registered-Waiting [] s u v w = subst (λ k. Waiting net o.me b s k v) (sym (append-nil u)) w
  em_registered-Waiting (f ∷ fs) s u v w =
      let bs = word 0 ++ o.expanses.encode f.exp in
      let s' = em_init_expanse net o b f.exp s in
      subst (λ k. Waiting net o.me b (em_registered net o b fs s') k v)
        (append_assoc u bs (inits o (exps fs)))
        (em_registered-Waiting fs s' (u ++ bs) v (em_init_expanse-Waiting f.exp s u v w))

  -- The server serves a registration: where no manager was registered, process b is one then, is told so,
  -- and all expanses are announced to it.
  pub serve-register :
      (fuel : ℕ) (st : State S)
      → 0 < b
      → b ≤ net.most
      → st.em ≡ 0
      → Waiting net b o.me st.ports (word 4) []
      → (s : S) × (serve net o (suc fuel) st ≡ some (record st { em = b; ports = s }))
        × Waiting net o.me b s (bool_bytes true ++ inits o (exps st.server.expanses)) []
  unfolding serve serve_one register_em_func Option.bind
  serve-register fuel st some_b le free w =
      let ne' : b ≢ o.me = λ e. ne (sym e) in
      let from : net.poll o.me es_comm_port st.ports ≡ b =
        poll-some net b o.me ne' st.ports (word 4) [] some_b le w (λ e. cc) in
      let nz : (b == 0) ≡ false = ground (arith, some_b) in
      let free' : (st.em == 0) ≡ true = ground (arith, free) in
      let (s₁, e₁, w₁) = Waiting-receive net b o.me ne' 4 (word 4) [] st.ports [] refl w in
      let w₂ =
        Waiting-send net o.me b ne (bool_bytes true) s₁ [] [] (turn net b o.me s₁ [] [] w₁) in
      let s₂ = (net.chan o.me b es_comm_port).send (bool_bytes true) s₁ in
      let w₃ = em_registered-Waiting st.server.expanses s₂ (bool_bytes true) [] w₂ in
      let s₃ = em_registered net o b st.server.expanses s₂ in
      let done : State S = record st { em = b; ports = s₃ } in
      (
        s₃,
        rw from (
            rw nz (
              rw e₁ (
                rw free' (
                  serve-nothing net o b fuel done
                    (poll-nothing net b o.me ne' s₃ _ (turn net o.me b s₃ _ [] w₃)))))),
        w₃,
      )
