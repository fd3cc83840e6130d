-- ===== src/Builder/Image/Write/Kept.antt =====
-- What the writes of util/f301_builder/src/fs.c leave as it is: nodes of the one table at block l that
-- stand where they belong, and the head of the table.
use frosk.Prelude.{
  ℕ, zero, suc, ◌+◌, ◌*◌, ◌<◌, ◌≡◌, refl, ◌∙◌, inl, inr, Option, some, none, List, [], ◌∷◌, ◌==◌,
  if◌then◌else◌, drop, arith, subst, Bool-cases, eq_of_some, sym, ◌-◌, ◌/◌, ◌%◌, Ensures,
  Ensures-bind, Ensures-then, Ensures-map,
}
use frosk.Cstd.Memory.{Mem}
use frosk.Builder.Nodes.{Node, Nodes, file, dir, data_node, string, indirect}
use frosk.Builder.Image.{seek_to_node, put_bytes, write_node}
use frosk.Builder.Image.Write.{
  Host, write_data, write_data_node, write_opened, write_file_data, children, write_each,
  write_fs_h, first_pass, buffer,
}
use frosk.Builder.Image.Write.Places.{
  place, InOne, Keeps, Keeps-refl, Keeps-trans, IsPass, write_node-Keeps, put_bytes-Keeps,
}

module _ (h : Host) (l : ℕ) (nodes : Nodes) (one : InOne h l nodes) where
  put_nothing : (lba : ℕ) (m : Mem) → Keeps h l nodes m (put_bytes (lba * 0x1000) [] m)
  unfolding put_bytes
  put_nothing lba m = Keeps-refl h l nodes m

  write_data_node-Keeps :
      (again : ℕ → List ℕ → Mem → Option Mem)
      → ((d : ℕ) (text : List ℕ) (m : Mem) → Ensures (Keeps h l nodes m) (again d text m))
      → (d : ℕ) (text : List ℕ) (m : Mem) (o : Option Node) → nodes d ≡ o
      → Ensures (Keeps h l nodes m) (write_data_node again text m o)
  unfolding write_data_node
  write_data_node-Keeps again ih d text m (some (data_node count lba next last)) e =
      let bs = buffer count last text in
      let rest = drop (count * 0x1000 + last - 0x1000) text in
      let m' = put_bytes (lba * 0x1000) bs m in
      let first : Keeps h l nodes m m' = elim (one d (data_node count lba next last) e).3 [
        | inl zero_count ↦ rw zero_count (put_nothing lba m)
        | inr far ↦ put_bytes-Keeps h l nodes one bs (lba * 0x1000) m (omega (arith, far))
      ] in
      Ensures-map (Keeps h l nodes m') (Keeps h l nodes m) (again next rest m')
        (λ c k. Keeps-trans h l nodes m m' c first k) (ih next rest m')
  write_data_node-Keeps again ih d text m (some (file owner name a next parent actual)) e =
      omega arith
  write_data_node-Keeps again ih d text m (some (dir owner name a next parent)) e = omega arith
  write_data_node-Keeps again ih d text m (some (indirect owner name a next parent)) e = omega arith
  write_data_node-Keeps again ih d text m (some (string str next)) e = omega arith
  write_data_node-Keeps again ih d text m none e = omega arith

  write_data-Keeps :
      (fuel d : ℕ) (text : List ℕ) (m : Mem)
      → Ensures (Keeps h l nodes m) (write_data fuel nodes d text m)
  unfolding write_data
  write_data-Keeps zero d text m = omega arith
  write_data-Keeps (suc fuel) d text m = elim (Bool-cases (d == 0)) [
    | inl e ↦ rw e (Keeps-refl h l nodes m)
    | inr e ↦ rw e (
        write_data_node-Keeps (write_data fuel nodes) (write_data-Keeps fuel) d text m (nodes d)
          refl)
  ]

  write_opened-Keeps :
      (fuel d : ℕ) (m : Mem) (o : Option (List ℕ))
      → Ensures (Keeps h l nodes m) (write_opened fuel nodes d m o)
  write_opened-Keeps fuel d m none = Keeps-refl h l nodes m
  write_opened-Keeps fuel d m (some text) = write_data-Keeps fuel d text m

  pub write_file_data-Keeps :
      (fuel : ℕ) (n : Node) (m : Mem)
      → Ensures (Keeps h l nodes m) (write_file_data fuel h nodes n m)
  unfolding write_file_data
  write_file_data-Keeps fuel (file owner name d next parent actual) m =
      write_opened-Keeps fuel d m (h.contents actual)
  write_file_data-Keeps fuel (dir owner name a next parent) m = Keeps-refl h l nodes m
  write_file_data-Keeps fuel (indirect owner name a next parent) m = Keeps-refl h l nodes m
  write_file_data-Keeps fuel (data_node count lba next last) m = Keeps-refl h l nodes m
  write_file_data-Keeps fuel (string str next) m = Keeps-refl h l nodes m

  or_nothing :
      (again : ℕ → Mem → Option Mem)
      → ((p : ℕ) (m : Mem) → Ensures (Keeps h l nodes m) (again p m))
      → (p : ℕ) (m : Mem) → Ensures (Keeps h l nodes m) (if p == 0 then some m else again p m)
  or_nothing again ih p m = elim (Bool-cases (p == 0)) [
    | inl e ↦ rw e (Keeps-refl h l nodes m)
    | inr e ↦ rw e (ih p m)
  ]

  write_each-Keeps :
      (again : ℕ → Mem → Option Mem)
      → ((p : ℕ) (m : Mem) → Ensures (Keeps h l nodes m) (again p m))
      → (ps : List ℕ) (m : Mem) → Ensures (Keeps h l nodes m) (write_each again ps m)
  unfolding write_each
  write_each-Keeps again ih [] m = Keeps-refl h l nodes m
  write_each-Keeps again ih (p ∷ ps) m =
      Ensures-then (Keeps h l nodes m) (Keeps h l nodes m) (if p == 0 then some m else again p m)
        (write_each again ps) (or_nothing again ih p m)
        (λ m₁ k.
          Ensures-map (Keeps h l nodes m₁) (Keeps h l nodes m) (write_each again ps m₁)
            (λ c k'. Keeps-trans h l nodes m m₁ c k k') (write_each-Keeps again ih ps m₁))

  pub first_pass-Keeps :
      (add : ℕ) (f : Mem → Option Mem) (m : Mem)
      → (add ≡ 0 → Ensures (Keeps h l nodes m) (f m))
      → Ensures (Keeps h l nodes m) (first_pass add f m)
  first_pass-Keeps zero f m ih = ih refl
  first_pass-Keeps (suc add) f m ih = Keeps-refl h l nodes m

  -- where a node is written
  pub place_of : (p at : ℕ) → p < 170 → seek_to_node (l ∷ []) p ≡ some at → at ≡ place l p
  unfolding seek_to_node
  place_of p at small e =
      let first : p / 256 ≡ 0 = omega (arith, small) in
      let s : seek_to_node (l ∷ []) p ≡ some (l * 0x1000 + p % 256 * 24) = rw first refl in
      let same = eq_of_some (l * 0x1000 + p % 256 * 24) at (sym s ∙ e) in omega (arith, same, small)

  pub write_fs_h-Keeps :
      (fuel p add : ℕ) (m : Mem)
      → IsPass add
      → Ensures (Keeps h l nodes m) (write_fs_h fuel h (l ∷ []) nodes p add m)
  unfolding write_fs_h
  write_fs_h-Keeps zero p add m pass = omega arith
  write_fs_h-Keeps (suc fuel) p add m pass =
      let K = Keeps h l nodes in
      Ensures-bind (K m) (seek_to_node (l ∷ []) p) _ λ at e. Ensures-bind (K m) (nodes p) _ λ n e'.
        let here : at ≡ place l p = place_of p at (one p n e').1 e in
        let m₀ = write_node h.address (h.perm p) (h.junk p) (at + add) n m in
        let k₀ : K m m₀ =
          subst (λ a. K m (write_node h.address (h.perm p) (h.junk p) (a + add) n m)) (sym here)
            (write_node-Keeps h l nodes one p add n m e' pass) in
        Ensures-then (K m) (K m)
          (write_each (λ q. write_fs_h fuel h (l ∷ []) nodes q add) (children n) m₀) _
          (Ensures-map (K m₀) (K m) _ (λ c k. Keeps-trans h l nodes m m₀ c k₀ k)
            (write_each-Keeps (λ q. write_fs_h fuel h (l ∷ []) nodes q add)
              (λ q c. write_fs_h-Keeps fuel q add c pass) (children n) m₀))
          λ m₁ k₁.
            Ensures-then (K m) (K m) (first_pass add (write_file_data fuel h nodes n) m₁) _
              (Ensures-map (K m₁) (K m) _ (λ c k. Keeps-trans h l nodes m m₁ c k₁ k)
                (first_pass-Keeps add (write_file_data fuel h nodes n) m₁
                  (λ z. write_file_data-Keeps fuel n m₁)))
              λ m₂ k₂.
                Ensures-map (K m₂) (K m) _ (λ c k. Keeps-trans h l nodes m m₂ c k₂ k)
                  (first_pass-Keeps add (write_fs_h fuel h (l ∷ []) nodes p 0x1000) m₂
                    (λ z. write_fs_h-Keeps fuel p 0x1000 m₂ (inr refl)))
