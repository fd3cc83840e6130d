-- ===== src/Rusk/Serve/Layout.antt =====
-- The window manager of prgm/bearing/src/bearing_comm.c places the windows that are announced to it.
use mathlib.Core.Option
use frosk.Prelude.{
  ℕ, zero, suc, ◌^◌, ◌≤◌, ◌<◌, ◌≡◌, ◌≢◌, refl, sym, ap, ◌∙◌, subst, some, List, [], ◌∷◌, ◌++◌, ◌==◌,
  length, arith, false, append_assoc, append-nil, replicate,
}
use frosk.Prelude.Int.{ℤ, pos, ◌+ℤ◌, ◌-ℤ◌}
use frosk.Rusk.Expanses.{Expanse, Pixel, pixel, create_buffer}
use frosk.Comm.{word}
use frosk.Comm.Buffers.Sizes.{AllOf}
use frosk.Comm.Net.{Net, es_comm_port}
use frosk.Comm.Pair.{
  Between, Waiting, turn, Between-Steady, Waiting-receive, poll-some, poll-nothing,
}
use frosk.Bearing.{Call, update, setup_borders}
use frosk.Bearing.Serve.{State, placed, receive_data, init_expanse_func, serve_one, serve, call_all}
use frosk.Rusk.Serve.{Outside}
use frosk.Rusk.Serve.Calls.{AllSend, manager, call_message, messages, call_all-sends}
use frosk.Rusk.Serve.Register.{inits}

-- where the next window goes
abbrev pub after : ℤ → Expanse → ℤ
after x e = x +ℤ (e.width +ℤ pos 10)

-- the calls for windows that are announced, and where the last one ends
abbrev pub greet : ℤ → Expanse → List Call
greet x e = update (placed x e) ∷ setup_borders 40 40 40 (placed x e) ∷ []

abbrev pub layout : ℤ → List Expanse → List Call
layout x [] = []
layout x (e ∷ es) = greet x e ++ layout (after x e) es

abbrev pub extent : ℤ → List Expanse → ℤ
extent x [] = x
extent x (e ∷ es) = extent (after x e) es

-- the widths are not negative
abbrev pub AllWide : List Expanse → Type 0
AllWide [] = Unit
AllWide (e ∷ es) = ((w : ℕ) × (e.width ≡ pos w) × (w < 2 ^ 31)) × AllWide es

length-replicate : {A : Type 0} (n : ℕ) (a : A) → length (replicate n a) ≡ n
length-replicate zero a = refl
length-replicate (suc n) a = ap suc (length-replicate n a)

AllOf-replicate : (n h : ℕ) (p : Pixel) → AllOf h (replicate n (replicate h p))
AllOf-replicate zero h p = omega arith
AllOf-replicate (suc n) h p = (length-replicate h p, AllOf-replicate n h p)

greet-AllSend : (x : ℤ) (e : Expanse) (w : ℕ) → e.width ≡ pos w → w < 2 ^ 31 → AllSend (greet x e)
unfolding placed setup_borders create_buffer ◌-ℤ◌
greet-AllSend x e w ew small = (
  omega arith,
  (
    (
      w,
      10,
      (
        ew,
        refl,
        rw ew (length-replicate w (replicate 10 (pixel 40 40 40))),
        rw ew (AllOf-replicate w 10 (pixel 40 40 40)),
      ),
      small,
      omega arith,
    ),
    omega arith,
  ),
)

messages-append :
    {S : Type 0} (net : Net S) (o : Outside) (b : ℕ) (cs ds : List Call)
    → messages net o b (cs ++ ds) ≡ messages net o b cs ++ messages net o b ds
messages-append net o b [] ds = refl
messages-append net o b (c ∷ cs) ds =
    let bs = call_message net o b c in
    ap (bs ++◌) (messages-append net o b cs ds)
    ∙ sym (append_assoc bs (messages net o b cs) (messages net o b ds))

pub AllSend-append : (cs ds : List Call) → AllSend cs → AllSend ds → AllSend (cs ++ ds)
AllSend-append [] ds h k = k
AllSend-append (c ∷ cs) ds (h, hs) k = (h, AllSend-append cs ds hs k)

pub layout-AllSend : (x : ℤ) (es : List Expanse) → AllWide es → AllSend (layout x es)
layout-AllSend x [] wide = omega arith
layout-AllSend x (e ∷ es) ((w, ew, small), wide) =
    AllSend-append (greet x e) (layout (after x e) es) (greet-AllSend x e w ew small)
      (layout-AllSend (after x e) es wide)

module _ {S : Type 0} (net : Net S) (o : Outside) (b : ℕ) (ne : o.me ≢ b) (some_me : 0 < o.me)
    (le : o.me ≤ net.most) where
  -- the manager receives what the server sent
  pub receive_data-Waiting :
      (n : ℕ) (xs ys : List ℕ) (s : S) (v : List ℕ)
      → 0 < n
      → length xs ≡ n
      → Waiting net o.me b s (xs ++ ys) v
      → (s' : S) × (receive_data net (manager o b) n s ≡ some (xs, s')) × Waiting net o.me b s' ys v
  unfolding receive_data
  receive_data-Waiting n [] ys s v some_n size w = absurd (omega (arith, some_n, size))
  receive_data-Waiting n (x ∷ xs) ys s v some_n size w =
      let from : net.poll b es_comm_port s ≡ o.me =
        poll-some net o.me b ne s (x ∷ (xs ++ ys)) v some_me le w (λ e. cc) in
      let nz : (o.me == 0) ≡ false = ground (arith, some_me) in
      let (s', e, w') = Waiting-receive net o.me b ne n (x ∷ xs) ys s v size w in
      (s', rw from (rw nz e), w')

  call_all-Waiting :
      (cs : List Call) (s : S) (u v : List ℕ)
      → AllSend cs
      → Waiting net o.me b s u v
      → (s' : S) × (call_all net (manager o b) cs s ≡ some s')
        × Waiting net o.me b s' u (v ++ messages net o b cs)
  call_all-Waiting cs s u v can w =
      let ne' : b ≢ o.me = λ e. ne (sym e) in
      let (quiet, w₁, w₂) = turn net o.me b s u v w in
      let (s', e, w', keep) =
        call_all-sends net o b
          (λ s. Between net b o.me s × ((net.chan o.me b es_comm_port).waiting s ≡ u))
          (Between-Steady net b o.me ne' u) cs s can in
      let (quiet', w₃) = keep (quiet, w₂) in
      (
        s',
        e,
        turn net b o.me s' (v ++ messages net o b cs) u
            (quiet', w' ∙ ap (◌++ messages net o b cs) w₁, w₃),
      )

  serve_one-init :
      (e : Expanse) (ys v : List ℕ) (st : State S)
      → 0 < o.expanses.size
      → AllSend (greet st.last_x e)
      → Waiting net o.me b st.ports ((word 0 ++ o.expanses.encode e) ++ ys) v
      → (s : S) × (serve_one net (manager o b) st
          ≡ some (record st { last_x = after st.last_x e; ports = s }))
        × Waiting net o.me b s ys (v ++ messages net o b (greet st.last_x e))
  unfolding serve_one init_expanse_func placed Option.bind
  serve_one-init e ys v st some_size can w =
      let bs = o.expanses.encode e in
      let (s₁, e₁, w₁) =
        receive_data-Waiting 4 (word 0) (bs ++ ys) st.ports v (omega arith) refl
          (subst (λ k. Waiting net o.me b st.ports k v) (append_assoc (word 0) bs ys) w) in
      let (s₂, e₂, w₂) =
        receive_data-Waiting o.expanses.size bs ys s₁ v some_size (o.expanses.length-encode e) w₁ in
      let (s₃, e₃, w₃) = call_all-Waiting (greet st.last_x e) s₂ ys v can w₂ in
      (s₃, rw e₁ (rw e₂ (rw (o.expanses.decode-encode e) (rw e₃ refl))), w₃)

  -- The manager serves the windows that are announced to it: it returns, given fuel for them, and has sent
  -- the calls that place each window behind the one before.
  pub serve-inits :
      (es : List Expanse) (fuel : ℕ) (v : List ℕ) (st : State S)
      → 0 < o.expanses.size
      → AllWide es
      → length es ≤ fuel
      → Waiting net o.me b st.ports (inits o es) v
      → (s : S) × (serve net (manager o b) fuel st
          ≡ some (record st { last_x = extent st.last_x es; ports = s }))
        × Waiting net o.me b s [] (v ++ messages net o b (layout st.last_x es))
  unfolding serve Option.bind
  serve-inits [] zero v st some_size wide few w =
      let none_waits : net.poll b es_comm_port st.ports ≡ 0 =
        poll-nothing net o.me b ne st.ports v w in
      (
        st.ports,
        rw none_waits refl,
        subst (λ k. Waiting net o.me b st.ports [] k) (sym (append-nil v)) w,
      )
  serve-inits [] (suc fuel) v st some_size wide few w =
      let none_waits : net.poll b es_comm_port st.ports ≡ 0 =
        poll-nothing net o.me b ne st.ports v w in
      (
        st.ports,
        rw none_waits refl,
        subst (λ k. Waiting net o.me b st.ports [] k) (sym (append-nil v)) w,
      )
  serve-inits (e ∷ es) zero v st some_size wide few w = absurd (omega (arith, few))
  serve-inits (e ∷ es) (suc fuel) v st some_size ((width, ew, small), wide) few w =
      let from : net.poll b es_comm_port st.ports ≡ o.me =
        poll-some net o.me b ne st.ports (inits o (e ∷ es)) v some_me le w (λ e'. cc) in
      let nz : (o.me == 0) ≡ false = ground (arith, some_me) in
      let (s₁, e₁, w₁) =
        serve_one-init e (inits o es) v st some_size (greet-AllSend st.last_x e width ew small) w in
      let next : State S = record st { last_x = after st.last_x e; ports = s₁ } in
      let sent = messages net o b (greet st.last_x e) in
      let (s₂, e₂, w₂) =
        serve-inits es fuel (v ++ sent) next some_size wide (omega (arith, few)) w₁ in
      let rest = layout (after st.last_x e) es in
      (
        s₂,
        rw from (rw nz (rw e₁ e₂)),
        subst (λ k. Waiting net o.me b s₂ [] k)
            (append_assoc v sent (messages net o b rest)
              ∙ ap (v ++◌) (sym (messages-append net o b (greet st.last_x e) rest)))
            w₂,
      )
