-- ===== src/Builder/Image/Write/Places.antt =====
-- Where util/f301_builder/src/fs.c puts the nodes of the one table at block l, and what a write leaves as
-- it is.
use frosk.Prelude.{
  ℕ, zero, suc, ◌+◌, ◌*◌, ◌≤◌, ◌<◌, ◌≡◌, refl, ap, ◌∙◌, ◌⊎◌, inl, inr, some, List, [], ◌∷◌, ◌++◌,
  ◌==◌, if◌then◌else◌, length, take, arith, subst, length-append, eq_of_some, sym, ap₂, dec_lt,
}
use frosk.Cstd.Memory.{Mem, write}
use frosk.Builder.Nodes.{Node, Nodes, file, dir, data_node, string, indirect}
use frosk.Builder.Image.{int_bytes, node_bytes, put_bytes, write_node}
use frosk.Builder.Image.Reads.{Bytes, put_bytes-below, put_bytes-Bytes, Fits}
use frosk.Builder.Image.Write.{Host}

-- a node's place in the table at block l, and its bytes there
abbrev pub place : ℕ → ℕ → ℕ
place l p = l * 0x1000 + p * 24

abbrev pub Holds : Host → ℕ → Mem → ℕ → Node → Type 0
Holds h l m p n = Bytes m (place l p) (node_bytes h.address (h.perm p) (h.junk p) n)

-- a data node with blocks has them behind the table
abbrev pub Behind : ℕ → Node → Type 0
Behind l (file owner name first_data next parent actual) = Unit
Behind l (dir owner name first_file next parent) = Unit
Behind l (indirect owner name dest next parent) = Unit
Behind l (data_node count lba next last) = (count ≡ 0) ⊎ (l + 2 ≤ lba)
Behind l (string str next) = Unit

-- all nodes have their entries in one block, and their fields are as wide as they are declared
abbrev pub InOne : Host → ℕ → Nodes → Type 0
InOne h l nodes =
    (p : ℕ) (n : Node) → nodes p ≡ some n → (0 < p) × (p < 170) × Fits (h.junk p) n × Behind l n

-- from a to b, nodes that stand where they belong stay, and so does the head
pub record Keeps (h : Host) (l : ℕ) (nodes : Nodes) (a b : Mem) : Type 0 where
  pub nodes_stay : (q : ℕ) (n : Node) → nodes q ≡ some n → Holds h l a q n → Holds h l b q n
  pub head_stays : (i : ℕ) → i < 24 → b (l * 0x1000 + i) ≡ a (l * 0x1000 + i)

pub put_bytes-above :
    (bs : List ℕ) (at a : ℕ) (m : Mem) → at + length bs ≤ a → put_bytes at bs m a ≡ m a
unfolding put_bytes
put_bytes-above [] at a m le = refl
put_bytes-above (b ∷ bs) at a m le =
    put_bytes-above bs (at + 1) a (write m at b) (omega (arith, le)) ∙ ground (arith, le)

-- Bytes stay where others are written below or above them.
pub put_bytes-apart :
    (bs cs : List ℕ) (at a : ℕ) (m : Mem)
    → (a + length cs ≤ at) ⊎ (at + length bs ≤ a)
    → Bytes m a cs
    → Bytes (put_bytes at bs m) a cs
put_bytes-apart bs [] at a m far h = h
put_bytes-apart bs (c ∷ cs) at a m (inl far) (h, hs) = (
  put_bytes-below bs at a m (omega (arith, far)) ∙ h,
  put_bytes-apart bs cs at (a + 1) m (inl (omega (arith, far))) hs,
)
put_bytes-apart bs (c ∷ cs) at a m (inr far) (h, hs) = (
  put_bytes-above bs at a m far ∙ h,
  put_bytes-apart bs cs at (a + 1) m (inr (omega (arith, far))) hs,
)

length-take_le : (n : ℕ) (xs : List ℕ) → length (take n xs) ≤ n
length-take_le zero xs = omega arith
length-take_le (suc n) [] = omega arith
length-take_le (suc n) (x ∷ xs) = omega (arith, length-take_le n xs)

pub length-node_bytes :
    (address : ℕ → ℕ) (perm : ℕ) (junk : List ℕ) (n : Node)
    → length (node_bytes address perm junk n) ≤ 24
unfolding node_bytes
length-node_bytes address perm junk (file owner name first_data next parent actual) = omega arith
length-node_bytes address perm junk (dir owner name first_file next parent) = omega arith
length-node_bytes address perm junk (indirect owner name dest next parent) = omega arith
length-node_bytes address perm junk (data_node count lba next last) = omega arith
length-node_bytes address perm junk (string str next) =
    let e =
      length-append (take 18 (str ++ junk))
        (int_bytes (if next == 0 then 0 else address next) []) in
    omega (arith, e, length-take_le 18 (str ++ junk))

pub Keeps-refl : (h : Host) (l : ℕ) (nodes : Nodes) (m : Mem) → Keeps h l nodes m m
Keeps-refl h l nodes m = record { nodes_stay = λ q n e k. k; head_stays = λ i le. refl }

pub Keeps-trans :
    (h : Host) (l : ℕ) (nodes : Nodes) (a b c : Mem)
    → Keeps h l nodes a b
    → Keeps h l nodes b c
    → Keeps h l nodes a c
Keeps-trans h l nodes a b c p q = record {
  nodes_stay = λ r n e k. q.nodes_stay r n e (p.nodes_stay r n e k);
  head_stays = λ i le. q.head_stays i le ∙ p.head_stays i le;
}

-- the two passes
abbrev pub IsPass : ℕ → Type 0
IsPass add = (add ≡ 0) ⊎ (add ≡ 0x1000)

-- The writing of entry p and entry q: they are apart, or the same, in the first pass.
apart :
    (l p q add i j : ℕ)
    → i ≤ 24
    → j ≤ 24
    → q < 170
    → p < 170
    → IsPass add
    → ((place l q + j ≤ place l p + add) ⊎ (place l p + add + i ≤ place l q))
      ⊎ ((q ≡ p) × (add ≡ 0))
apart l p q add i j few few' small small' pass = elim (dec_lt q p) [
  | yes less ↦ inl (inl (omega (arith, few', less)))
  | no ge ↦ elim pass [
    | inr second ↦ inl (inl (omega (arith, few', small, second)))
    | inl first ↦ elim (dec_lt p q) [
      | yes less ↦ inl (inr (omega (arith, few, less, first)))
      | no ge' ↦ inr (omega (arith, ge, ge'), first)
    ]
  ]
]

module _ (h : Host) (l : ℕ) (nodes : Nodes) (one : InOne h l nodes) where
  pub write_node-Keeps :
      (p add : ℕ) (n : Node) (m : Mem)
      → nodes p ≡ some n
      → IsPass add
      → Keeps h l nodes m (write_node h.address (h.perm p) (h.junk p) (place l p + add) n m)
  unfolding write_node
  write_node-Keeps p add n m e pass = record {
    nodes_stay = λ q n' e' k.
        let (some_q, small, fits, far) = one q n' e' in
        let (some_p, small', fits', far') = one p n e in
        let bs = node_bytes h.address (h.perm p) (h.junk p) n in
        let cs = node_bytes h.address (h.perm q) (h.junk q) n' in
        let few : length bs ≤ 24 = length-node_bytes h.address (h.perm p) (h.junk p) n in
        let few' : length cs ≤ 24 = length-node_bytes h.address (h.perm q) (h.junk q) n' in
        elim (apart l p q add (length bs) (length cs) few few' small small' pass) [
          | inl side ↦ put_bytes-apart bs cs (place l p + add) (place l q) m side k
          | inr (same, first) ↦
              let same_n : n' ≡ n = eq_of_some n' n (sym e' ∙ ap nodes same ∙ e) in
              let at : place l p + add ≡ place l q = omega (arith, same, first) in
              subst (λ a. Bytes (put_bytes a bs m) (place l q) cs) (sym at)
                (subst (λ b. Bytes (put_bytes (place l q) b m) (place l q) cs)
                  (ap₂ (λ r k. node_bytes h.address (h.perm r) (h.junk r) k) same same_n)
                  (put_bytes-Bytes cs (place l q) m))
        ];
    head_stays = λ i le.
        let (some_p, small, fits, far) = one p n e in
        put_bytes-below (node_bytes h.address (h.perm p) (h.junk p) n) (place l p + add)
          (l * 0x1000 + i) m (omega (arith, some_p, le));
  }

  pub put_bytes-Keeps :
      (bs : List ℕ) (at : ℕ) (m : Mem)
      → (l + 1) * 0x1000 ≤ at
      → Keeps h l nodes m (put_bytes at bs m)
  put_bytes-Keeps bs at m le = record {
    nodes_stay = λ q n e k.
        let (some_q, small, fits, far) = one q n e in
        let cs = node_bytes h.address (h.perm q) (h.junk q) n in
        put_bytes-apart bs cs at (place l q) m
          (inl (omega (arith, small, le, length-node_bytes h.address (h.perm q) (h.junk q) n))) k;
    head_stays = λ i less. put_bytes-below bs at (l * 0x1000 + i) m (omega (arith, le, less));
  }
