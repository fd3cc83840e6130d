-- ===== src/Builder/Image/Write/Ends.antt =====
-- `write_fs_h` of util/f301_builder/src/fs.c comes to an end.
use mathlib.Core.Option
use frosk.Prelude.{
  ℕ, zero, suc, ◌+◌, ◌*◌, ◌/◌, ◌%◌, ◌≤◌, ◌<◌, ◌≡◌, ◌≢◌, refl, ◌∙◌, inl, inr, Option, some, none,
  List, [], ◌∷◌, ◌==◌, false, if◌then◌else◌, arith, Bool-cases, length, length-append, ap,
}
use frosk.Cstd.Memory.{Mem}
use frosk.Builder.Nodes.{
  Node, Nodes, file, dir, data_node, string, indirect, ParseStruct, null, pst_file, pst_dir,
  pst_indirect,
}
use frosk.Builder.Nodes.Strings.{Spells, last, more, string_nodes}
use frosk.Builder.Nodes.Tree.{DataOf, Represents, tree_nodes}
use frosk.Builder.Image.{seek_to_node}
use frosk.Builder.Image.Write.{
  Host, write_data, write_data_node, write_opened, write_file_data, children, write_each,
  write_fs_h, first_pass,
}
use frosk.Builder.Image.Write.Places.{InOne}

abbrev pub Returns : Option Mem → Type 0
Returns r = (m : Mem) × (r ≡ some m)

pub Returns-bind {ℓ} :
    {A : Type ℓ} (r : Option A) (f : A → Option Mem) (a : A)
    → r ≡ some a
    → Returns (f a)
    → Returns (Option.bind r f)
unfolding Option.bind
Returns-bind r f a e h = rw e h

pub Returns-then :
    (r : Option Mem) (f : Mem → Option Mem)
    → Returns r
    → ((m : Mem) → Returns (f m))
    → Returns (Option.bind r f)
unfolding Option.bind
Returns-then r f (m, e) h = rw e (h m)

first_pass-Returns :
    (add : ℕ) (f : Mem → Option Mem) (m : Mem)
    → (add ≡ 0 → Returns (f m))
    → Returns (first_pass add f m)
first_pass-Returns zero f m h = h refl
first_pass-Returns (suc add) f m h = (m, refl)

abbrev AllReturn : (ℕ → Mem → Option Mem) → List ℕ → Type 0
AllReturn again [] = Unit
AllReturn again (p ∷ ps) = (p ≢ 0 → (m : Mem) → Returns (again p m)) × AllReturn again ps

write_each-Returns :
    (again : ℕ → Mem → Option Mem) (ps : List ℕ) (m : Mem)
    → AllReturn again ps
    → Returns (write_each again ps m)
unfolding write_each
write_each-Returns again [] m h = (m, refl)
write_each-Returns again (p ∷ ps) m (h, hs) =
    Returns-then (if p == 0 then some m else again p m) (write_each again ps)
      (elim (Bool-cases (p == 0)) [
        | inl e ↦ rw e (m, refl)
        | inr e ↦ rw e (h (λ z. ground (arith, e, z)) m)
      ])
      (λ m₁. write_each-Returns again ps m₁ hs)

-- the first pass goes one step deeper
abbrev extra : ℕ → ℕ
extra add = if add == 0 then 1 else 0

module _ (h : Host) (l : ℕ) (nodes : Nodes) (one : InOne h l nodes) where
  seek_to_node_lem : (p : ℕ) → p < 170 → seek_to_node (l ∷ []) p ≡ some (l * 0x1000 + p % 256 * 24)
  unfolding seek_to_node
  seek_to_node_lem p small = let first : p / 256 ≡ 0 = omega (arith, small) in rw first refl

  node-Returns :
      (fuel p add : ℕ) (n : Node) (m : Mem)
      → nodes p ≡ some n
      → AllReturn (λ q. write_fs_h fuel h (l ∷ []) nodes q add) (children n)
      → ((m' : Mem) → Returns (write_file_data fuel h nodes n m'))
      → (add ≡ 0 → (m' : Mem) → Returns (write_fs_h fuel h (l ∷ []) nodes p 0x1000 m'))
      → Returns (write_fs_h (suc fuel) h (l ∷ []) nodes p add m)
  unfolding write_fs_h
  node-Returns fuel p add n m e below has copy =
      Returns-bind (seek_to_node (l ∷ []) p) _ _ (seek_to_node_lem p (one p n e).1) (
        Returns-bind (nodes p) _ n e (
          Returns-then _ _ (write_each-Returns _ (children n) _ below) λ m₁.
            Returns-then _ _ (first_pass-Returns add _ m₁ (λ z. has m₁))
              λ m₂. first_pass-Returns add _ m₂ (λ z. copy z m₂)))

  string-Returns :
      (fuel add lo hi p : ℕ) (w : List ℕ) (m : Mem)
      → Spells nodes lo hi p w
      → string_nodes w + extra add ≤ fuel
      → Returns (write_fs_h fuel h (l ∷ []) nodes p add m)
  unfolding children write_file_data
  string-Returns zero add lo hi p w m s le = absurd (omega (arith, le))
  string-Returns (suc fuel) add lo hi _ _ m (last p w a b c e few) le =
      node-Returns fuel p add (string w 0) m e (λ z. absurd (z refl), omega arith)
        (λ m'. (m', refl))
        λ z m'.
          string-Returns fuel 0x1000 lo hi p w m' (last p w a b c e few) (ground (arith, le, z))
  string-Returns (suc fuel) add lo hi _ _ m (more p next s t w a b c e few e' rest) le =
      let sizes = ap length e' ∙ length-append s t in
      node-Returns fuel p add (string s next) m e
        (
          λ z m'. string-Returns fuel add lo hi next t m' rest (omega (arith, le, sizes, few)),
          omega arith,
        )
        (λ m'. (m', refl))
        λ z m'.
          string-Returns fuel 0x1000 lo hi p w m' (more p next s t w a b c e few e' rest)
            (ground (arith, le, z))

  pub extent-Returns :
      (fuel add d blocks lba k : ℕ) (m : Mem)
      → nodes d ≡ some (data_node blocks lba 0 k)
      → 1 + extra add ≤ fuel
      → Returns (write_fs_h fuel h (l ∷ []) nodes d add m)
  unfolding children write_file_data
  extent-Returns zero add d blocks lba k m e le = absurd (omega (arith, le))
  extent-Returns (suc fuel) add d blocks lba k m e le =
      node-Returns fuel d add (data_node blocks lba 0 k) m e (λ z. absurd (z refl), omega arith)
        (λ m'. (m', refl))
        λ z m'. extent-Returns fuel 0x1000 d blocks lba k m' e (ground (arith, le, z))

  data-Returns :
      (fuel add lo hi : ℕ) (size : Option ℕ) (d : ℕ) (m : Mem)
      → DataOf nodes lo hi size d
      → d ≢ 0
      → 1 + extra add ≤ fuel
      → Returns (write_fs_h fuel h (l ∷ []) nodes d add m)
  data-Returns fuel add lo hi none d m has nz le = absurd (nz has)
  data-Returns fuel add lo hi (some bytes) d m (a, b, c, (blocks, lba, k, e, f, g)) nz le =
      extent-Returns fuel add d blocks lba k m e le

  write_opened-Returns :
      (fuel lo hi : ℕ) (size : Option ℕ) (d : ℕ) (o : Option (List ℕ)) (m : Mem)
      → DataOf nodes lo hi size d
      → 2 ≤ fuel
      → Returns (write_opened fuel nodes d m o)
  unfolding write_data write_data_node
  write_opened-Returns fuel lo hi size d none m has le = (m, refl)
  write_opened-Returns zero lo hi size d (some text) m has le = absurd (omega (arith, le))
  write_opened-Returns (suc zero) lo hi size d (some text) m has le = absurd (omega (arith, le))
  write_opened-Returns (suc (suc fuel)) lo hi none d (some text) m has le = rw has (m, refl)
  write_opened-Returns (suc (suc fuel)) lo hi (some bytes) d (some text) m
        (a, b, c, (blocks, lba, k, e, f, g)) le =
      let nz : (d == 0) ≡ false = ground (arith, c) in rw nz (rw e (_, refl))

  -- `write_fs_h` returns on nodes that stand for a tree, given fuel for the nodes, and one more in the
  -- first pass.
  pub write_fs_h-Returns :
      (fuel add lo hi : ℕ) (size_of : List ℕ → Option ℕ) (t : ParseStruct) (parent p : ℕ) (m : Mem)
      → Represents size_of nodes lo hi parent t p
      → p ≢ 0
      → tree_nodes t + extra add ≤ fuel
      → Returns (write_fs_h fuel h (l ∷ []) nodes p add m)
  unfolding children write_file_data
  write_fs_h-Returns fuel add lo hi size_of null parent p m r nz le = absurd (nz r)
  write_fs_h-Returns zero add lo hi size_of (pst_file owner name actual rest) parent p m r nz le =
      absurd (omega (arith, le))
  write_fs_h-Returns zero add lo hi size_of (pst_dir owner name contents rest) parent p m r nz le =
      absurd (omega (arith, le))
  write_fs_h-Returns zero add lo hi size_of (pst_indirect owner name dest rest) parent p m r nz le =
      absurd (omega (arith, le))
  write_fs_h-Returns (suc fuel) add lo hi size_of (pst_file owner name actual rest) parent p m
        (a, b, c, (name_at, d, next, e, spells, has, others)) nz le =
      node-Returns fuel p add (file owner name_at d next parent actual) m e
        (
          λ z m'. string-Returns fuel add lo hi name_at name m' spells (omega (arith, le)),
          (
            λ z m'. data-Returns fuel add lo hi (size_of actual) d m' has z (omega (arith, le)),
            (
              λ z m'.
                  write_fs_h-Returns fuel add lo hi size_of rest parent next m' others z
                    (omega (arith, le)),
              omega arith,
            ),
          ),
        )
        (λ m'.
          write_opened-Returns fuel lo hi (size_of actual) d (h.contents actual) m' has
            (omega (arith, le)))
        λ z m'.
          write_fs_h-Returns fuel 0x1000 lo hi size_of (pst_file owner name actual rest) parent p m'
            (a, b, c, (name_at, d, next, e, spells, has, others)) nz (ground (arith, le, z))
  write_fs_h-Returns (suc fuel) add lo hi size_of (pst_dir owner name contents rest) parent p m
        (a, b, c, (name_at, d, next, e, spells, has, others)) nz le =
      node-Returns fuel p add (dir owner name_at d next (if parent == 0 then p else parent)) m e
        (
          λ z m'. string-Returns fuel add lo hi name_at name m' spells (omega (arith, le)),
          (
            λ z m'.
                write_fs_h-Returns fuel add lo hi size_of contents p d m' has z (omega (arith, le)),
            (
              λ z m'.
                  write_fs_h-Returns fuel add lo hi size_of rest parent next m' others z
                    (omega (arith, le)),
              omega arith,
            ),
          ),
        )
        (λ m'. (m', refl))
        λ z m'.
          write_fs_h-Returns fuel 0x1000 lo hi size_of (pst_dir owner name contents rest) parent p
            m' (a, b, c, (name_at, d, next, e, spells, has, others)) nz (ground (arith, le, z))
  write_fs_h-Returns (suc fuel) add lo hi size_of (pst_indirect owner name dest rest) parent p m
        (a, b, c, (name_at, d, next, e, spells, has, others)) nz le =
      node-Returns fuel p add (indirect owner name_at d next parent) m e
        (
          λ z m'. string-Returns fuel add lo hi name_at name m' spells (omega (arith, le)),
          (
            λ z m'. string-Returns fuel add lo hi d dest m' has (omega (arith, le)),
            (
              λ z m'.
                  write_fs_h-Returns fuel add lo hi size_of rest parent next m' others z
                    (omega (arith, le)),
              omega arith,
            ),
          ),
        )
        (λ m'. (m', refl))
        λ z m'.
          write_fs_h-Returns fuel 0x1000 lo hi size_of (pst_indirect owner name dest rest) parent p
            m' (a, b, c, (name_at, d, next, e, spells, has, others)) nz (ground (arith, le, z))
