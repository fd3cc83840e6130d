-- ===== src/Builder/Image/Write/Held.antt =====
-- Which nodes util/f301_builder/src/fs.c writes: all that a node leads to.
use frosk.Prelude.{
  ℕ, zero, suc, ◌+◌, ◌≡◌, ◌≢◌, refl, sym, ◌∙◌, ◌⊎◌, inl, inr, Option, some, List, [], ◌∷◌, ◌==◌,
  if◌then◌else◌, arith, subst, Bool-cases, eq_of_some, Ensures, Ensures-bind, Ensures-then,
  Ensures-map,
}
use frosk.Cstd.Memory.{Mem}
use frosk.Builder.Nodes.{Node, Nodes}
use frosk.Builder.Image.{node_bytes, seek_to_node, put_bytes, write_node}
use frosk.Builder.Image.Reads.{Bytes, put_bytes-Bytes}
use frosk.Builder.Image.Write.{Host, write_file_data, children, write_each, write_fs_h}
use frosk.Builder.Image.Write.Places.{
  place, Holds, InOne, Keeps, Keeps-refl, Keeps-trans, write_node-Keeps,
}
use frosk.Builder.Image.Write.Kept.{write_file_data-Keeps, place_of, write_fs_h-Keeps}

abbrev pub IsIn : ℕ → List ℕ → Type 0
IsIn c [] = ⊥
IsIn c (d ∷ ds) = (c ≡ d) ⊎ IsIn c ds

-- from node p one comes to node q by names, data, entries and next nodes
pub data Leads (nodes : Nodes) : ℕ → ℕ → Type 0 where
  here : (p q : ℕ) → p ≡ q → Leads nodes p q
  there :
      (p c q : ℕ) (n : Node)
      → nodes p ≡ some n
      → c ≢ 0
      → IsIn c (children n)
      → Leads nodes c q
      → Leads nodes p q

-- all nodes that p leads to stand where they belong
abbrev pub HeldFrom : Host → ℕ → Nodes → ℕ → Mem → Type 0
HeldFrom h l nodes p m = (q : ℕ) (n : Node) → Leads nodes p q → nodes q ≡ some n → Holds h l m q n

-- and so for each of some nodes
abbrev AllHeld : Host → ℕ → Nodes → List ℕ → Mem → Type 0
AllHeld h l nodes [] m = Unit
AllHeld h l nodes (p ∷ ps) m = (p ≢ 0 → HeldFrom h l nodes p m) × AllHeld h l nodes ps m

module _ (h : Host) (l : ℕ) (nodes : Nodes) where
  pub HeldFrom-Keeps :
      (p : ℕ) (a b : Mem) → Keeps h l nodes a b → HeldFrom h l nodes p a → HeldFrom h l nodes p b
  HeldFrom-Keeps p a b k held q n leads e = k.nodes_stay q n e (held q n leads e)

  AllHeld-Keeps :
      (ps : List ℕ) (a b : Mem)
      → Keeps h l nodes a b
      → AllHeld h l nodes ps a
      → AllHeld h l nodes ps b
  AllHeld-Keeps [] a b k held = held
  AllHeld-Keeps (p ∷ ps) a b k (held, more) =
      (λ nz. HeldFrom-Keeps p a b k (held nz), AllHeld-Keeps ps a b k more)

  AllHeld-IsIn :
      (ps : List ℕ) (c : ℕ) (m : Mem)
      → AllHeld h l nodes ps m
      → IsIn c ps
      → c ≢ 0
      → HeldFrom h l nodes c m
  AllHeld-IsIn [] c m held at nz = elim at [ ]
  AllHeld-IsIn (p ∷ ps) c m (held, more) (inl e) nz =
      subst (λ d. HeldFrom h l nodes d m) (sym e) (held (λ z. nz (e ∙ z)))
  AllHeld-IsIn (p ∷ ps) c m (held, more) (inr at) nz = AllHeld-IsIn ps c m more at nz

  -- A node stands where it belongs, and so do those that its children lead to.
  HeldFrom-node :
      (p : ℕ) (n : Node) (m : Mem)
      → nodes p ≡ some n
      → Holds h l m p n
      → AllHeld h l nodes (children n) m
      → HeldFrom h l nodes p m
  HeldFrom-node p n m e holds held q n' (here _ _ same) e' =
      let same_n : n ≡ n' =
        eq_of_some n n' (sym e ∙ (subst (λ r. nodes r ≡ some n') (sym same) e')) in
      subst (λ r. Holds h l m r n') same (subst (λ k. Holds h l m p k) same_n holds)
  HeldFrom-node p n m e holds held q n' (there _ c _ k e'' nz at leads) e' =
      let same_n : k ≡ n = eq_of_some k n (sym e'' ∙ e) in
      AllHeld-IsIn (children n) c m held (subst (λ j. IsIn c (children j)) same_n at) nz q n' leads
        e'

write_node-Holds :
    (h : Host) (l p : ℕ) (n : Node) (m : Mem) (at : ℕ)
    → at ≡ place l p
    → Holds h l (write_node h.address (h.perm p) (h.junk p) at n m) p n
unfolding write_node
write_node-Holds h l p n m at e =
    let bs = node_bytes h.address (h.perm p) (h.junk p) n in
    subst (λ a. Bytes (put_bytes a bs m) (place l p) bs) (sym e) (put_bytes-Bytes bs (place l p) m)

module _ (h : Host) (l : ℕ) (nodes : Nodes) (one : InOne h l nodes) where
  -- a run leaves what stands, and then all that p leads to stands
  abbrev Wrote : ℕ → Mem → Mem → Type 0
  Wrote p m m' = Keeps h l nodes m m' × HeldFrom h l nodes p m'

  or_held :
      (again : ℕ → Mem → Option Mem)
      → ((p : ℕ) (m : Mem) → Ensures (Wrote p m) (again p m))
      → (p : ℕ) (m : Mem)
      → Ensures
          (λ m'. Keeps h l nodes m m' × (p ≢ 0 → HeldFrom h l nodes p m'))
          (if p == 0 then some m else again p m)
  or_held again ih p m = elim (Bool-cases (p == 0)) [
    | inl e ↦ rw e (Keeps-refl h l nodes m, λ nz. absurd (nz (ground (arith, e))))
    | inr e ↦ rw e (Ensures-map (Wrote p m) _ (again p m) (λ c (k, held). (k, λ nz. held)) (ih p m))
  ]

  write_each-held :
      (again : ℕ → Mem → Option Mem)
      → ((p : ℕ) (m : Mem) → Ensures (Wrote p m) (again p m))
      → (ps : List ℕ) (m : Mem)
      → Ensures (λ m'. Keeps h l nodes m m' × AllHeld h l nodes ps m') (write_each again ps m)
  unfolding write_each
  write_each-held again ih [] m = (Keeps-refl h l nodes m, omega arith)
  write_each-held again ih (p ∷ ps) m =
      let f : Mem → Type 0 = λ m'. Keeps h l nodes m m' × AllHeld h l nodes (p ∷ ps) m' in
      Ensures-then (λ m'. Keeps h l nodes m m' × (p ≢ 0 → HeldFrom h l nodes p m')) f
        (if p == 0 then some m else again p m) (write_each again ps) (or_held again ih p m)
        λ m₁ (k, held).
          Ensures-map (λ m'. Keeps h l nodes m₁ m' × AllHeld h l nodes ps m') f
            (write_each again ps m₁)
            (λ c (k', more). (
              Keeps-trans h l nodes m m₁ c k k',
              (λ nz. HeldFrom-Keeps h l nodes p m₁ c k' (held nz), more),
            ))
            (write_each-held again ih ps m₁)

  -- What `write_fs_h` of a node returns in the first pass is an image in which all nodes that it leads
  -- to stand where they belong, and all that stood there before.
  pub write_fs_h-held :
      (fuel p : ℕ) (m : Mem) → Ensures (Wrote p m) (write_fs_h fuel h (l ∷ []) nodes p 0 m)
  unfolding write_fs_h
  write_fs_h-held zero p m = omega arith
  write_fs_h-held (suc fuel) p m = Ensures-bind (Wrote p m) (seek_to_node (l ∷ []) p) _ λ at e.
      Ensures-bind (Wrote p m) (nodes p) _ λ n e'.
        let here : at ≡ place l p = place_of h l nodes one p at (one p n e').1 e in
        let m₀ = write_node h.address (h.perm p) (h.junk p) (at + 0) n m in
        let k₀ : Keeps h l nodes m m₀ =
          subst (λ a. Keeps h l nodes m (write_node h.address (h.perm p) (h.junk p) (a + 0) n m))
            (sym here) (write_node-Keeps h l nodes one p 0 n m e' (inl refl)) in
        let holds : Holds h l m₀ p n = write_node-Holds h l p n m (at + 0) (omega (arith, here)) in
        Ensures-then (λ c. Keeps h l nodes m₀ c × AllHeld h l nodes (children n) c) (Wrote p m)
          (write_each (λ q. write_fs_h fuel h (l ∷ []) nodes q 0) (children n) m₀) _
          (write_each-held (λ q. write_fs_h fuel h (l ∷ []) nodes q 0)
            (λ q c. write_fs_h-held fuel q c) (children n) m₀)
          λ m₁ (k₁, held).
            Ensures-then (Keeps h l nodes m₁) (Wrote p m) (write_file_data fuel h nodes n m₁) _
              (write_file_data-Keeps h l nodes one fuel n m₁)
              λ m₂ k₂.
                Ensures-map (Keeps h l nodes m₂) (Wrote p m)
                  (write_fs_h fuel h (l ∷ []) nodes p 0x1000 m₂)
                  (λ c k₃.
                    let k = Keeps-trans h l nodes m₁ m₂ c k₂ k₃ in
                    let k' = Keeps-trans h l nodes m₀ m₁ c k₁ k in
                    (
                      Keeps-trans h l nodes m m₀ c k₀ k',
                      HeldFrom-node h l nodes p n c e' (k'.nodes_stay p n e' holds)
                          (AllHeld-Keeps h l nodes (children n) m₁ c k held),
                    ))
                  (write_fs_h-Keeps h l nodes one fuel p 0x1000 m₂ (inr refl))
