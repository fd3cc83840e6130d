-- ===== src/Rusk/Serve/Steps.antt =====
-- What every request does to the state of prgm/rusk/src/rusk_comm.c, whoever makes it.
use frosk.Prelude.{
  ℕ, zero, suc, ◌≡◌, ◌≢◌, refl, sym, ◌∙◌, Option, some, List, [], ◌∷◌, ◌==◌, arith, Bool-cases, inl,
  inr, get_elem?, subst, Ensures, Ensures-bind, Ensures-then, Ensures-map, Ensures-mapped, outcome,
  eq_of_some,
}
use frosk.Rusk.Expanses.Reach.{
  IsValid, Step, add, remove, update, front, buffers, partial, Step-IsValid,
}
use frosk.Comm.{unsigned, int_value}
use frosk.Comm.Net.{Net, es_comm_port, long_value}
use frosk.Rusk.Serve.{
  State, Outside, serve_one, serve, create_expanse_func, remove_expanse_func,
  update_partial_expanse_func, update_expanse_func, register_em_func, set_front_expanse_func,
  send_events_func, update_decoration_buffer_func, funcs, receive_data,
}

-- handles stay different, an event manager that has registered stays, and only a process that made a
-- request becomes it
pub record Sound {S : Type 0} (st st' : State S) : Type 0 where
  pub valid : IsValid st.server → IsValid st'.server
  pub stays : st.em ≢ 0 → st'.em ≡ st.em

module _ {S : Type 0} where
  Sound-refl : (st : State S) → Sound st st
  Sound-refl st = record { valid = λ v. v; stays = λ nz. refl }

  pub Sound-trans : (a b c : State S) → Sound a b → Sound b c → Sound a c
  Sound-trans a b c p q = record {
    valid = λ v. q.valid (p.valid v);
    stays = λ nz. q.stays (λ z. nz (sym (p.stays nz) ∙ z)) ∙ p.stays nz;
  }

  Sound-Step : (st st' : State S) → Step st.server st'.server → st'.em ≡ st.em → Sound st st'
  Sound-Step st st' step e = record { valid = Step-IsValid step; stays = λ nz. e }

module _ {S : Type 0} (net : Net S) (o : Outside) (id : ℕ) (st : State S) where
  create_expanse-Sound : Ensures (Sound st) (create_expanse_func net o id st)
  unfolding create_expanse_func
  create_expanse-Sound =
      Ensures-mapped (Sound st) (receive_data net o id o.requests.size st.ports) _
        λ (bs, s) e. Sound-Step st _ (add o.raw (o.requests.decode bs) id st.server) refl

  remove_expanse-Sound : Ensures (Sound st) (remove_expanse_func net o id st)
  unfolding remove_expanse_func
  remove_expanse-Sound = Ensures-bind (Sound st) (receive_data net o id 8 st.ports) _ λ (bs, s) e.
      Ensures-mapped (Sound st) (o.at (long_value bs)) _
        λ handle e'. Sound-Step st _ (remove handle st.server) refl

  update_partial-Sound : Ensures (Sound st) (update_partial_expanse_func net o id st)
  unfolding update_partial_expanse_func
  update_partial-Sound = Ensures-bind (Sound st) (receive_data net o id 8 st.ports) _ λ (bh, s₁) e₁.
      Ensures-bind (Sound st) (receive_data net o id 4 s₁) _ λ (bx, s₂) e₂.
        Ensures-bind (Sound st) (receive_data net o id 4 s₂) _ λ (bz, s₃) e₃.
          Ensures-bind (Sound st) _ _ λ (p, s₄) e₄. Ensures-mapped (Sound st) _ _ λ server' e.
            Sound-Step st _
              (partial (long_value bh) p (int_value bx) (int_value bz) st.server server' e) refl

  update_expanse-Sound : Ensures (Sound st) (update_expanse_func net o id st)
  unfolding update_expanse_func
  update_expanse-Sound =
      Ensures-mapped (Sound st) (receive_data net o id o.expanses.size st.ports) _
        λ (bs, s) e. Sound-Step st _ (update (o.expanses.decode bs) st.server) refl

  register_em-Sound : Ensures (Sound st) (register_em_func net o id st)
  unfolding register_em_func
  register_em-Sound = elim (Bool-cases (st.em == 0)) [
    | inl e ↦ rw e (record { valid = λ v. v; stays = λ nz. absurd (nz (ground (arith, e))) })
    | inr e ↦ rw e (record { valid = λ v. v; stays = λ nz. refl })
  ]

  set_front_expanse-Sound : Ensures (Sound st) (set_front_expanse_func net o id st)
  unfolding set_front_expanse_func
  set_front_expanse-Sound =
      Ensures-mapped (Sound st) (receive_data net o id o.expanses.size st.ports) _
        λ (bs, s) e. Sound-Step st _ (front (o.expanses.decode bs).handle st.server) refl

  send_events-Sound : Ensures (Sound st) (send_events_func net o id st)
  unfolding send_events_func
  send_events-Sound =
      Ensures-mapped (Sound st) _ _ λ (evs, s) e. record { valid = λ v. v; stays = λ nz. refl }

  update_decoration_buffer-Sound : Ensures (Sound st) (update_decoration_buffer_func net o id st)
  unfolding update_decoration_buffer_func
  update_decoration_buffer-Sound =
      Ensures-bind (Sound st) (receive_data net o id o.expanses.size st.ports) _ λ (bs, s₁) e.
        Ensures-mapped (Sound st) _ _
          λ (top, s₂) e'. Sound-Step st _ (buffers (o.expanses.decode bs) top st.server) refl

-- an operation that keeps the state sound, for every process
abbrev Keeps : {S : Type 0} → (ℕ → State S → Option (State S)) → Type 0
Keeps {S = S} f = (id : ℕ) (st : State S) → Ensures (Sound st) (f id st)

abbrev AllKeep : {S : Type 0} → List (ℕ → State S → Option (State S)) → Type 0
AllKeep [] = Unit
AllKeep (f ∷ fs) = Keeps f × AllKeep fs

AllKeep-get :
    {S : Type 0} (fs : List (ℕ → State S → Option (State S))) (i : ℕ)
    (f : ℕ → State S → Option (State S))
    → AllKeep fs
    → get_elem? fs i ≡ some f
    → Keeps f
AllKeep-get [] i f all e = cc
AllKeep-get (g ∷ fs) zero f (k, all) e = subst Keeps (eq_of_some g f e) k
AllKeep-get (g ∷ fs) (suc i) f (k, all) e = AllKeep-get fs i f all e

module _ {S : Type 0} (net : Net S) (o : Outside) where
  funcs-AllKeep : AllKeep (funcs net o)
  funcs-AllKeep = (
    create_expanse-Sound net o,
    (
      remove_expanse-Sound net o,
      (
        update_partial-Sound net o,
        (
          update_expanse-Sound net o,
          (
            register_em-Sound net o,
            (
              set_front_expanse-Sound net o,
              (send_events-Sound net o, (update_decoration_buffer-Sound net o, omega arith)),
            ),
          ),
        ),
      ),
    ),
  )

  serve_one-Sound : (id : ℕ) (st : State S) → Ensures (Sound st) (serve_one net o id st)
  unfolding serve_one
  serve_one-Sound id st = Ensures-bind (Sound st) (receive_data net o id 4 st.ports) _ λ (bs, s) e.
      Ensures-bind (Sound st) (get_elem? (funcs net o) (unsigned bs)) _ λ f e'.
        let st' : State S = record st { ports = s } in
        Ensures-map (Sound st') (Sound st) (f id st')
          (λ c k. record { valid = k.valid; stays = k.stays })
          (AllKeep-get (funcs net o) (unsigned bs) f funcs-AllKeep e' id st')

  serve-Sound : (fuel : ℕ) (st : State S) → Ensures (Sound st) (serve net o fuel st)
  unfolding serve
  serve-Sound zero st = elim (Bool-cases (net.poll o.me es_comm_port st.ports == 0)) [
    | inl e ↦ rw e (Sound-refl st)
    | inr e ↦ rw e (omega arith)
  ]
  serve-Sound (suc fuel) st = elim (Bool-cases (net.poll o.me es_comm_port st.ports == 0)) [
    | inl e ↦ rw e (Sound-refl st)
    | inr e ↦ rw e (
        Ensures-then (Sound st) (Sound st)
          (serve_one net o (net.poll o.me es_comm_port st.ports) st) (serve net o fuel)
          (serve_one-Sound (net.poll o.me es_comm_port st.ports) st)
          λ st₁ k.
            Ensures-map (Sound st₁) (Sound st) (serve net o fuel st₁)
              (λ c k'. Sound-trans st st₁ c k k') (serve-Sound fuel st₁))
  ]

  -- Whatever requests arrive, from whatever processes and in whatever order: when `serve` has returned, the
  -- handles of the expanses differ and are below `count` if they did before, and an event manager that had
  -- registered is still the one.
  pub serve-IsValid :
      (fuel : ℕ) (st st' : State S)
      → serve net o fuel st ≡ some st'
      → IsValid st.server
      → IsValid st'.server × (st.em ≢ 0 → st'.em ≡ st.em)
  serve-IsValid fuel st st' e v =
      let k = outcome (Sound st) e (serve-Sound fuel st) in (k.valid v, k.stays)
