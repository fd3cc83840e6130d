-- ===== src/Rusk/Serve/Arranged.antt =====
-- The calls with which prgm/bearing/src/bearing_comm.c places windows, in the list of
-- prgm/rusk/src/rusk.c.
use frosk.Prelude.{
  ℕ, ◌≡◌, refl, sym, ap, ◌∙◌, true, false, List, [], ◌∷◌, ◌++◌, ◌==◌, arith, append_assoc,
  append-nil,
}
use frosk.Prelude.Int.{ℤ, pos, ◌-ℤ◌}
use frosk.Rusk.Expanses.{
  Expanse, FullExpanse, PixelBuffer, Server, handle_of, update_in, update_expanse, decorate,
  set_decoration_buffers, create_buffer, pixel,
}
use frosk.Rusk.Expanses.Handles.{has, HasUnique}
use frosk.Bearing.{Call, setup_borders}
use frosk.Bearing.Serve.{placed}
use frosk.Rusk.Serve.Calls.{perform, perform_all}
use frosk.Rusk.Serve.Register.{exps}
use frosk.Rusk.Serve.Layout.{after, greet, layout}

-- each window behind the one before
abbrev pub arranged : ℤ → List Expanse → List Expanse
arranged x [] = []
arranged x (e ∷ es) = placed x e ∷ arranged (after x e) es

-- no handle of the second list is one of the first
abbrev Disjoint : List FullExpanse → List FullExpanse → Type 0
Disjoint pre [] = Unit
Disjoint pre (f ∷ fs) = (has (handle_of f) pre ≡ false) × Disjoint pre fs

has-append :
    (a : ℕ) (pre fs : List FullExpanse)
    → has a pre ≡ false
    → has a fs ≡ false
    → has a (pre ++ fs) ≡ false
has-append a [] fs h k = k
has-append a (f ∷ pre) fs h k =
    let ih = has-append a pre fs in ground (arith, h, ih (ground (arith, h)) k)

update_in-at :
    (pre fs : List FullExpanse) (f : FullExpanse) (e : Expanse)
    → has e.handle pre ≡ false
    → handle_of f ≡ e.handle
    → (update_in e (pre ++ (f ∷ fs))).1 ≡ pre ++ (record f { dirty_lbuf = true; exp = e } ∷ fs)
unfolding update_in
update_in-at [] fs f e h same =
    let hit : (handle_of f == e.handle) ≡ true = ground (arith, same) in rw hit refl
update_in-at (g ∷ pre) fs f e h same =
    let miss : (handle_of g == e.handle) ≡ false = ground (arith, h) in
    rw miss (ap (g ∷◌) (update_in-at pre fs f e (ground (arith, h)) same))

decorate-at :
    (pre fs : List FullExpanse) (f : FullExpanse) (a : ℕ) (top : PixelBuffer)
    → has a pre ≡ false
    → handle_of f ≡ a
    → decorate a top (pre ++ (f ∷ fs))
      ≡ pre ++ (record f { top_buffer = top; dirty_tlbuf = true } ∷ fs)
unfolding decorate
decorate-at [] fs f a top h same =
    let hit : (handle_of f == a) ≡ true = ground (arith, same) in rw hit refl
decorate-at (g ∷ pre) fs f a top h same =
    let miss : (handle_of g == a) ≡ false = ground (arith, h) in
    rw miss (ap (g ∷◌) (decorate-at pre fs f a top (ground (arith, h)) same))

perform_all-append :
    (cs ds : List Call) (s : Server) → perform_all (cs ++ ds) s ≡ perform_all ds (perform_all cs s)
unfolding perform_all
perform_all-append [] ds s = refl
perform_all-append (c ∷ cs) ds s = perform_all-append cs ds (perform c s)

-- an expanse that was placed, with its border
abbrev settled : ℤ → FullExpanse → FullExpanse
settled x f = record f {
  dirty_lbuf = true;
  exp = placed x f.exp;
  top_buffer = create_buffer f.exp.width (pos 10) (pixel 40 40 40);
  dirty_tlbuf = true;
}

greet-settled :
    (x : ℤ) (pre fs : List FullExpanse) (f : FullExpanse) (s : Server)
    → s.expanses ≡ pre ++ (f ∷ fs)
    → has (handle_of f) pre ≡ false
    → perform_all (greet x f.exp) s ≡ record s { expanses = pre ++ (settled x f ∷ fs) }
unfolding perform_all perform update_expanse set_decoration_buffers setup_borders placed ◌-ℤ◌
greet-settled x pre fs f s e h = rw e (
    rw (update_in-at pre fs f (placed x f.exp) h refl) (
      rw
        (decorate-at pre fs (record f { dirty_lbuf = true; exp = placed x f.exp }) (handle_of f)
          (create_buffer f.exp.width (pos 10) (pixel 40 40 40)) h refl)
        refl))

Disjoint-snoc :
    (pre fs : List FullExpanse) (g : FullExpanse)
    → Disjoint pre fs
    → has (handle_of g) fs ≡ false
    → Disjoint (pre ++ (g ∷ [])) fs
Disjoint-snoc pre [] g h k = h
Disjoint-snoc pre (f ∷ fs) g (h, hs) k = (
  has-append (handle_of f) pre (g ∷ []) h (ground (arith, k)),
  Disjoint-snoc pre fs g hs (ground (arith, k)),
)

exps-append : (fs gs : List FullExpanse) → exps (fs ++ gs) ≡ exps fs ++ exps gs
exps-append [] gs = refl
exps-append (f ∷ fs) gs = ap (f.exp ∷◌) (exps-append fs gs)

layout-behind :
    (fs pre : List FullExpanse) (x : ℤ) (s : Server)
    → s.expanses ≡ pre ++ fs
    → HasUnique fs
    → Disjoint pre fs
    → exps (perform_all (layout x (exps fs)) s).expanses ≡ exps pre ++ arranged x (exps fs)
unfolding perform_all placed
layout-behind [] pre x s e unique apart = ap exps (e ∙ append-nil pre) ∙ sym (append-nil (exps pre))
layout-behind (f ∷ fs) pre x s e (alone, unique) (h, apart) =
    let g = settled x f in
    let s' : Server = record s { expanses = pre ++ (g ∷ fs) } in
    let rest = layout (after x f.exp) (exps fs) in
    ap (λ (t : Server). exps t.expanses)
      (perform_all-append (greet x f.exp) rest s
        ∙ ap (perform_all rest) (greet-settled x pre fs f s e h))
    ∙ layout-behind fs (pre ++ (g ∷ [])) (after x f.exp) s' (sym (append_assoc pre (g ∷ []) fs))
        unique (Disjoint-snoc pre fs g apart alone)
    ∙ ap (◌++ arranged (after x f.exp) (exps fs)) (exps-append pre (g ∷ []))
    ∙ append_assoc (exps pre) (placed x f.exp ∷ []) (arranged (after x f.exp) (exps fs))

Disjoint-nil : (fs : List FullExpanse) → Disjoint [] fs
Disjoint-nil [] = omega arith
Disjoint-nil (f ∷ fs) = (refl, Disjoint-nil fs)

-- The calls of the layout leave the windows, whose handles differ, in their order, each behind the one
-- before.
pub layout-arranged :
    (s : Server) (x : ℤ)
    → HasUnique s.expanses
    → exps (perform_all (layout x (exps s.expanses)) s).expanses ≡ arranged x (exps s.expanses)
layout-arranged s x unique = layout-behind s.expanses [] x s refl unique (Disjoint-nil s.expanses)
