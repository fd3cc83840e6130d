-- ===== src/Builder/Nodes/Alloc.antt =====
-- The numbers that util/f301_builder/src/fs.c gives its nodes.
use frosk.Prelude.{ℕ, ◌+◌, ◌*◌, ◌%◌, ◌^◌, ◌≤◌, ◌<◌, ◌≡◌, ◌≢◌, refl, ◌∙◌, some, arith}
use frosk.Builder.Nodes.{FileSys, Node, new_node, next_table, alloc_blocks, fill, file_sys}

-- the number that the next node has at least
abbrev pub position : FileSys → ℕ
position fs = (fs.cur_high_addr + fs.cur_tbl_entry) % 2 ^ 32

pub record IsValid (fs : FileSys) : Type 0 where
  pub table : fs.cur_high_addr % 0x100 ≡ 0
  pub high : fs.cur_high_addr < 2 ^ 32
  pub entry : fs.cur_tbl_entry ≤ 0x100
  pub some_entry : 0 < fs.cur_tbl_entry

-- from fs on at most k nodes were made, and the nodes that were there are as before
pub record Made (fs fs' : FileSys) (k : ℕ) : Type 0 where
  pub valid : IsValid fs'
  pub grows : position fs ≤ position fs'
  pub few : position fs' ≤ position fs + 2 * k
  pub same : (p : ℕ) → p < position fs → fs'.nodes p ≡ fs.nodes p

-- there is room for k nodes
abbrev pub Room : FileSys → ℕ → Type 0
Room fs k = position fs + 2 * k < 2 ^ 32

pub new_node-position :
    (fs : FileSys)
    → IsValid fs
    → Room fs 1
    → (position fs ≤ (new_node fs).0)
      × ((new_node fs).0 < position (new_node fs).1)
      × ((new_node fs).0 ≢ 0)
unfolding new_node next_table alloc_blocks
new_node-position fs v room = ground arith

pub new_node-Made : (fs : FileSys) → IsValid fs → Room fs 1 → Made fs (new_node fs).1 1
unfolding new_node next_table alloc_blocks
new_node-Made fs v room = record {
  valid = record {
    table = ground arith;
    high = ground arith;
    entry = ground arith;
    some_entry = ground arith;
  };
  grows = ground arith;
  few = ground arith;
  same = λ p le. ground arith;
}

pub file_sys-IsValid : IsValid file_sys
file_sys-IsValid = record {
  table = refl;
  high = omega arith;
  entry = omega arith;
  some_entry = omega arith;
}

pub Made-trans : (a b c : FileSys) (j k : ℕ) → Made a b j → Made b c k → Made a c (j + k)
Made-trans a b c j k p q = record {
  valid = q.valid;
  grows = omega (arith, p.grows, q.grows);
  few = omega (arith, p.few, q.few);
  same = λ n le. q.same n (omega (arith, p.grows)) ∙ p.same n le;
}

-- a node that is new is filled in
pub fill-Made :
    (a b : FileSys) (k p : ℕ) (n : Node) → Made a b k → position a ≤ p → Made a (fill p n b) k
unfolding fill
fill-Made a b k p n m le = record {
  valid = record {
    table = m.valid.table;
    high = m.valid.high;
    entry = m.valid.entry;
    some_entry = m.valid.some_entry;
  };
  grows = m.grows;
  few = m.few;
  same = λ q less. ground (arith, m.same q less);
}

pub fill-at : (fs : FileSys) (p : ℕ) (n : Node) → (fill p n fs).nodes p ≡ some n
unfolding fill
fill-at fs p n = ground arith

pub fill-other : (fs : FileSys) (p q : ℕ) (n : Node) → q ≢ p → (fill p n fs).nodes q ≡ fs.nodes q
unfolding fill
fill-other fs p q n ne = ground (arith, ne)

pub fill-position : (fs : FileSys) (p : ℕ) (n : Node) → position (fill p n fs) ≡ position fs
unfolding fill
fill-position fs p n = refl

pub Made-more : (a b : FileSys) (j k : ℕ) → Made a b j → j ≤ k → Made a b k
Made-more a b j k m le = record {
  valid = m.valid;
  grows = m.grows;
  few = omega (arith, m.few, le);
  same = m.same;
}
