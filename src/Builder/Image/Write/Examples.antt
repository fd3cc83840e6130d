-- ===== src/Builder/Image/Write/Examples.antt =====
-- An image with a file "a" in the root, and an empty directory "@".
use frosk.Prelude.{
  ℕ, zero, suc, ◌+◌, ◌-◌, ◌*◌, ◌≡◌, refl, Option, some, none, [], ◌∷◌, arith, replicate, inl, inr,
  subst, ◌<◌,
}
use frosk.Cstd.Memory.{Mem}
use frosk.Kernel.Fs.{fs_aquire}
use frosk.Kernel.Fs.Tree.{answer}
use frosk.Builder.Nodes.{Node, Nodes, file, dir, data_node, string, ParseStruct, null, pst_file}
use frosk.Builder.Nodes.Strings.{last}
use frosk.Builder.Load.{EntryPoints}
use frosk.Builder.Image.Reads.{Fits}
use frosk.Builder.Image.Write.{Host, write_fs}
use frosk.Builder.Image.Write.Places.{InOne, Behind}
use frosk.Builder.Image.Write.Found.{Built, fs_aquire-write_fs}

abbrev nodes : Nodes
nodes zero = none
nodes (suc zero) = some (data_node 0 5 0 0)
nodes (suc (suc zero)) = some (dir 0 3 0 0 2)
nodes (suc (suc (suc zero))) = some (string (64 ∷ []) 0)
nodes (suc (suc (suc (suc zero)))) = some (dir 0 5 6 0 4)
nodes (suc (suc (suc (suc (suc zero))))) = some (string (47 ∷ []) 0)
nodes (suc (suc (suc (suc (suc (suc zero)))))) = some (file 0 7 8 0 4 (120 ∷ []))
nodes (suc (suc (suc (suc (suc (suc (suc zero))))))) = some (string (97 ∷ []) 0)
nodes (suc (suc (suc (suc (suc (suc (suc (suc zero)))))))) = some (data_node 1 3 0 10)
nodes (suc (suc (suc (suc (suc (suc (suc (suc (suc p))))))))) = none

abbrev host : Host
host = record {
  address = λ p. p;
  perm = λ p. 0;
  junk = λ p. replicate 17 0;
  contents = λ s. some (replicate 10 49);
}

abbrev roots : EntryPoints
roots = record { root = 4; predir = 2; unused = 1 }

abbrev inside : ParseStruct
inside = pst_file 0 (97 ∷ []) (120 ∷ []) null

-- the table's one entry for a node, if there is one
abbrev Entry : ℕ → Option Node → Type 0
Entry p none = Unit
Entry p (some n) = (0 < p) × (p < 170) × Fits (replicate 17 0) n × Behind 1 n

Entry-nodes : (p : ℕ) → Entry p (nodes p)
Entry-nodes zero = omega arith
Entry-nodes (suc zero) = (omega arith, omega arith, omega arith, inl refl)
Entry-nodes (suc (suc zero)) = omega arith
Entry-nodes (suc (suc (suc zero))) = omega arith
Entry-nodes (suc (suc (suc (suc zero)))) = omega arith
Entry-nodes (suc (suc (suc (suc (suc zero))))) = omega arith
Entry-nodes (suc (suc (suc (suc (suc (suc zero)))))) = omega arith
Entry-nodes (suc (suc (suc (suc (suc (suc (suc zero))))))) = omega arith
Entry-nodes (suc (suc (suc (suc (suc (suc (suc (suc zero)))))))) =
    (omega arith, omega arith, omega arith, inr (omega arith))
Entry-nodes (suc (suc (suc (suc (suc (suc (suc (suc (suc p))))))))) = omega arith

nodes-InOne : InOne host 1 nodes
nodes-InOne p n e = subst (Entry p) e (Entry-nodes p)

nodes-Built : Built (λ s. some 10) nodes roots null inside
nodes-Built = record {
  lo = 0;
  hi = 9;
  lba = 5;
  owner = 0;
  pre_owner = 0;
  unused = refl;
  predir = (
    omega arith,
    omega arith,
    omega arith,
    (
      3,
      0,
      0,
      refl,
      last 3 (64 ∷ []) (omega arith) (omega arith) (omega arith) refl (omega arith),
      refl,
      refl,
    ),
  );
  root = (
    omega arith,
    omega arith,
    omega arith,
    (
      5,
      6,
      0,
      refl,
      last 5 (47 ∷ []) (omega arith) (omega arith) (omega arith) refl (omega arith),
      (
        omega arith,
        omega arith,
        omega arith,
        (
          7,
          8,
          0,
          refl,
          last 7 (97 ∷ []) (omega arith) (omega arith) (omega arith) refl (omega arith),
          (omega arith, omega arith, omega arith, (1, 3, 10, refl, omega arith, omega arith)),
          refl,
        ),
      ),
      refl,
    ),
  );
}

-- the first table, read to 8192
abbrev load : Mem → Mem
load image a = image (0x1000 + (a - 8192))

load_lem : (image : Mem) (i : ℕ) → i < 0x1000 → load image (8192 + i) ≡ image (1 * 0x1000 + i)
load_lem image i less = let e : 8192 + i - 8192 ≡ i = omega arith in rw e refl

fs_aquire-write_fs_example :
    (image : Mem) × (write_fs 20 host (1 ∷ []) roots nodes (λ a. 0) ≡ some image)
    × (fs_aquire 3 1 (8192 ∷ []) (load image) (47 ∷ 97 ∷ []) 0 ≡ answer (load image) (some 8336))
fs_aquire-write_fs_example =
    fs_aquire-write_fs host 1 nodes nodes-InOne load (λ s. some 10) roots null inside 20 1 8192
      (λ a. 0) (97 ∷ []) [] 0 load_lem nodes-Built (omega arith) (omega arith) (omega arith)
      (omega arith)
