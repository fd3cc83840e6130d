-- ===== src/Builder/Nodes/Parts.antt =====
-- A node of util/f301_builder whose parts are made one after the other.
use frosk.Prelude.{ℕ, ◌+◌, ◌≤◌, ◌<◌, ◌∙◌, List, Option, arith}
use frosk.Builder.Nodes.{ParseStruct, FileSys, Node, fill}
use frosk.Builder.Nodes.Alloc.{position, Made, Made-trans, fill-Made, fill-other}
use frosk.Builder.Nodes.Strings.{Spells, Spells-Agree, Agree}
use frosk.Builder.Nodes.Tree.{DataOf, DataOf-Agree, Represents, Represents-Agree}

-- what was made stays as it is while more is made, and a node below it is filled
later :
    (a b : FileSys) (k p : ℕ) (n : Node) (lo : ℕ)
    → Made a b k
    → p < lo
    → Agree a.nodes (fill p n b).nodes lo (position a)
later a b k p n lo m less q at below = fill-other b p q n (omega (arith, less, at)) ∙ m.same q below

-- a node n of fs whose three parts were made one after the other, from w on
pub record Parts (fs w x y z : FileSys) (n i j k : ℕ) : Type 0 where
  pub at : position fs ≤ n
  pub below : n < position w
  pub made : Made fs w 1
  pub first : Made w x i
  pub second : Made x y j
  pub third : Made y z k

module _ (fs w x y z : FileSys) (n i j k : ℕ) (node : Node) (p : Parts fs w x y z n i j k) where
  pub parts_Made : Made fs (fill n node z) (1 + (i + (j + k)))
  parts_Made =
      fill-Made fs z (1 + (i + (j + k))) n node
        (Made-trans fs w z 1 (i + (j + k)) p.made
          (Made-trans w x z i (j + k) p.first (Made-trans x y z j k p.second p.third)))
        p.at

  -- the range of all, and of each part in it
  pub ranges :
      (n < position z)
      × (position fs ≤ position w)
      × (position w ≤ position x)
      × (position x ≤ position y)
      × (position y ≤ position z)
  ranges = omega (arith, p.below, p.made.grows, p.first.grows, p.second.grows, p.third.grows)

  first-Agree : Agree x.nodes (fill n node z).nodes (position w) (position x)
  first-Agree =
      later x z (j + k) n node (position w) (Made-trans x y z j k p.second p.third) p.below

  second-Agree : Agree y.nodes (fill n node z).nodes (position x) (position y)
  second-Agree = later y z k n node (position x) p.third (omega (arith, p.below, p.first.grows))

  third-Agree : Agree z.nodes (fill n node z).nodes (position y) (position z)
  third-Agree q le less =
      fill-other z n q node (omega (arith, p.below, p.first.grows, p.second.grows, le))

  pub first-Spells :
      (a : ℕ) (s : List ℕ)
      → Spells x.nodes (position w) (position x) a s
      → Spells (fill n node z).nodes (position fs) (position z) a s
  first-Spells a s =
      Spells-Agree x.nodes (fill n node z).nodes (position w) (position x) (position fs)
        (position z) a s first-Agree (omega (arith, ranges)) (omega (arith, ranges))

  pub second-Spells :
      (a : ℕ) (s : List ℕ)
      → Spells y.nodes (position x) (position y) a s
      → Spells (fill n node z).nodes (position fs) (position z) a s
  second-Spells a s =
      Spells-Agree y.nodes (fill n node z).nodes (position x) (position y) (position fs)
        (position z) a s second-Agree (omega (arith, ranges)) (omega (arith, ranges))

  pub third-DataOf :
      (size : Option ℕ) (d : ℕ)
      → DataOf z.nodes (position y) (position z) size d
      → DataOf (fill n node z).nodes (position fs) (position z) size d
  third-DataOf =
      DataOf-Agree z.nodes (fill n node z).nodes (position y) (position z) (position fs)
        (position z) third-Agree (omega (arith, ranges)) (omega arith)

  module _ (size_of : List ℕ → Option ℕ) (t : ParseStruct) (parent a : ℕ) where
    pub second-Represents :
        Represents size_of y.nodes (position x) (position y) parent t a
        → Represents size_of (fill n node z).nodes (position fs) (position z) parent t a
    second-Represents =
        Represents-Agree y.nodes (fill n node z).nodes (position x) (position y) (position fs)
          (position z) second-Agree (omega (arith, ranges)) (omega (arith, ranges)) size_of t parent
          a

    pub third-Represents :
        Represents size_of z.nodes (position y) (position z) parent t a
        → Represents size_of (fill n node z).nodes (position fs) (position z) parent t a
    third-Represents =
        Represents-Agree z.nodes (fill n node z).nodes (position y) (position z) (position fs)
          (position z) third-Agree (omega (arith, ranges)) (omega arith) size_of t parent a
