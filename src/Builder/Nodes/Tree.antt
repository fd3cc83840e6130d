-- ===== src/Builder/Nodes/Tree.antt =====
-- What the nodes of util/f301_builder/src/fs.c stand for.
use frosk.Prelude.{
  ℕ, ◌+◌, ◌*◌, ◌≤◌, ◌<◌, ◌≡◌, ◌≢◌, ◌∙◌, List, Option, some, none, if◌then◌else◌, ◌==◌, arith,
}
use frosk.Builder.Nodes.{
  ParseStruct, null, pst_file, pst_dir, pst_indirect, Nodes, file, dir, indirect, data_node,
}
use frosk.Builder.Nodes.Strings.{Spells, Spells-Agree, Agree, string_nodes}

-- d is the data node of a file of that many bytes, or NULL where there is no file
abbrev pub DataOf : Nodes → ℕ → ℕ → Option ℕ → ℕ → Type 0
DataOf nodes lo hi none d = d ≡ 0
DataOf nodes lo hi (some bytes) d =
    (lo ≤ d)
    × (d < hi)
    × (d ≢ 0)
    × ((blocks : ℕ) × (lba : ℕ) × (last : ℕ) × (nodes d ≡ some (data_node blocks lba 0 last))
        × (blocks * 0x1000 + last ≡ bytes + 0x1000)
        × (last ≤ 0x1000))

-- the nodes from ptr on stand for the tree, with numbers from lo to hi
abbrev pub Represents : (List ℕ → Option ℕ) → Nodes → ℕ → ℕ → ℕ → ParseStruct → ℕ → Type 0
Represents size_of nodes lo hi parent null ptr = ptr ≡ 0
Represents size_of nodes lo hi parent (pst_file owner name actual rest) ptr =
    (lo ≤ ptr)
    × (ptr < hi)
    × (ptr ≢ 0)
    × ((name_at : ℕ) × (d : ℕ) × (next : ℕ) × (nodes ptr
          ≡ some (file owner name_at d next parent actual))
        × Spells nodes lo hi name_at name
        × DataOf nodes lo hi (size_of actual) d
        × Represents size_of nodes lo hi parent rest next)
Represents size_of nodes lo hi parent (pst_dir owner name contents rest) ptr =
    (lo ≤ ptr)
    × (ptr < hi)
    × (ptr ≢ 0)
    × ((name_at : ℕ) × (first : ℕ) × (next : ℕ) × (nodes ptr
          ≡ some (dir owner name_at first next (if parent == 0 then ptr else parent)))
        × Spells nodes lo hi name_at name
        × Represents size_of nodes lo hi ptr contents first
        × Represents size_of nodes lo hi parent rest next)
Represents size_of nodes lo hi parent (pst_indirect owner name dest rest) ptr =
    (lo ≤ ptr)
    × (ptr < hi)
    × (ptr ≢ 0)
    × ((name_at : ℕ) × (dest_at : ℕ) × (next : ℕ) × (nodes ptr
          ≡ some (indirect owner name_at dest_at next parent))
        × Spells nodes lo hi name_at name
        × Spells nodes lo hi dest_at dest
        × Represents size_of nodes lo hi parent rest next)

-- the number of nodes that are made
abbrev pub tree_nodes : ParseStruct → ℕ
tree_nodes null = 0
tree_nodes (pst_file owner name actual rest) = 1 + (string_nodes name + (tree_nodes rest + 1))
tree_nodes (pst_dir owner name contents rest) =
    1 + (string_nodes name + (tree_nodes contents + tree_nodes rest))
tree_nodes (pst_indirect owner name dest rest) =
    1 + (string_nodes name + (string_nodes dest + tree_nodes rest))

module _ (a b : Nodes) (lo hi lo' hi' : ℕ) (same : Agree a b lo hi) (le : lo' ≤ lo)
    (le' : hi ≤ hi') where
  pub DataOf-Agree : (size : Option ℕ) (d : ℕ) → DataOf a lo hi size d → DataOf b lo' hi' size d
  DataOf-Agree none d h = h
  DataOf-Agree (some bytes) d (at, below, nz, (blocks, lba, last, n, sum, few)) = (
    omega (arith, le, at),
    omega (arith, le', below),
    nz,
    (blocks, lba, last, same d at below ∙ n, sum, few),
  )

  pub Represents-Agree :
      (size_of : List ℕ → Option ℕ) (t : ParseStruct) (parent ptr : ℕ)
      → Represents size_of a lo hi parent t ptr
      → Represents size_of b lo' hi' parent t ptr
  Represents-Agree size_of null parent ptr h = h
  Represents-Agree size_of (pst_file owner name actual rest) parent ptr
        (at, below, nz, (k, d, next, n, spells, has, others)) =
      (
        omega (arith, le, at),
        omega (arith, le', below),
        nz,
        (
          k,
          d,
          next,
          same ptr at below ∙ n,
          Spells-Agree a b lo hi lo' hi' k name same le le' spells,
          DataOf-Agree (size_of actual) d has,
          Represents-Agree size_of rest parent next others,
        ),
      )
  Represents-Agree size_of (pst_dir owner name contents rest) parent ptr
        (at, below, nz, (k, d, next, n, spells, has, others)) =
      (
        omega (arith, le, at),
        omega (arith, le', below),
        nz,
        (
          k,
          d,
          next,
          same ptr at below ∙ n,
          Spells-Agree a b lo hi lo' hi' k name same le le' spells,
          Represents-Agree size_of contents ptr d has,
          Represents-Agree size_of rest parent next others,
        ),
      )
  Represents-Agree size_of (pst_indirect owner name dest rest) parent ptr
        (at, below, nz, (k, d, next, n, spells, has, others)) =
      (
        omega (arith, le, at),
        omega (arith, le', below),
        nz,
        (
          k,
          d,
          next,
          same ptr at below ∙ n,
          Spells-Agree a b lo hi lo' hi' k name same le le' spells,
          Spells-Agree a b lo hi lo' hi' d dest same le le' has,
          Represents-Agree size_of rest parent next others,
        ),
      )
