-- ===== src/Builder/Nodes/Strings.antt =====
-- `make_string` of util/f301_builder/src/fs.c.
use frosk.Prelude.{
  ℕ, zero, suc, ◌+◌, ◌-◌, ◌/◌, ◌≤◌, ◌<◌, ◌≡◌, ◌≢◌, refl, ap, ◌∙◌, List, [], ◌∷◌, ◌++◌, some, leb,
  length, take, drop, arith, Bool-cases, inl, inr,
}
use frosk.Builder.Nodes.{
  FileSys, Node, Nodes, string, new_node, fill, make_string_from, make_string,
}
use frosk.Builder.Nodes.Alloc.{
  position, IsValid, Made, Room, new_node-position, new_node-Made, Made-trans, Made-more, fill-Made,
  fill-at, fill-other,
}

-- the node p and those that follow it, of numbers from lo to hi, spell the string, 18 characters each
-- but in the last
pub data Spells (nodes : Nodes) (lo hi : ℕ) : ℕ → List ℕ → Type 0 where
  last :
      (p : ℕ) (s : List ℕ)
      → lo ≤ p
      → p < hi
      → p ≢ 0
      → nodes p ≡ some (string s 0)
      → length s ≤ 18
      → Spells nodes lo hi p s
  more :
      (p next : ℕ) (s t w : List ℕ)
      → lo ≤ p
      → p < hi
      → p ≢ 0
      → nodes p ≡ some (string s next)
      → length s ≡ 18
      → w ≡ s ++ t
      → Spells nodes lo hi next t
      → Spells nodes lo hi p w

-- nodes that agree in the range
abbrev pub Agree : Nodes → Nodes → ℕ → ℕ → Type 0
Agree a b lo hi = (q : ℕ) → lo ≤ q → q < hi → b q ≡ a q

pub Spells-Agree :
    (a b : Nodes) (lo hi lo' hi' p : ℕ) (w : List ℕ)
    → Agree a b lo hi
    → lo' ≤ lo
    → hi ≤ hi'
    → Spells a lo hi p w
    → Spells b lo' hi' p w
Spells-Agree a b lo hi lo' hi' _ _ same le le' (last p w at below nz n few) =
    last p w (omega (arith, le, at)) (omega (arith, le', below)) nz (same p at below ∙ n) few
Spells-Agree a b lo hi lo' hi' _ _ same le le' (more p next s t w at below nz n few e rest) =
    more p next s t w (omega (arith, le, at)) (omega (arith, le', below)) nz (same p at below ∙ n)
      few e (Spells-Agree a b lo hi lo' hi' next t same le le' rest)

-- a node that is filled below the range
pub fill-Agree :
    (fs : FileSys) (p : ℕ) (n : Node) (lo hi : ℕ)
    → p < lo
    → Agree fs.nodes (fill p n fs).nodes lo hi
fill-Agree fs p n lo hi less q at below = fill-other fs p q n (omega (arith, less, at))

-- the nodes of a string
abbrev pub string_nodes : List ℕ → ℕ
string_nodes str = length str / 18 + 1

take-drop : (n : ℕ) (s : List ℕ) → s ≡ take n s ++ drop n s
take-drop zero s = refl
take-drop (suc n) [] = refl
take-drop (suc n) (c ∷ s) = ap (λ (r : List ℕ). c ∷ r) (take-drop n s)

length-take : (n : ℕ) (s : List ℕ) → n ≤ length s → length (take n s) ≡ n
length-take zero s le = refl
length-take (suc n) [] le = absurd (omega (arith, le))
length-take (suc n) (c ∷ s) le = let e = length-take n s (omega (arith, le)) in omega arith

length-drop : (n : ℕ) (s : List ℕ) → length (drop n s) ≡ length s - n
length-drop zero s = omega arith
length-drop (suc n) [] = omega arith
length-drop (suc n) (c ∷ s) = let e = length-drop n s in omega arith

-- what `make_string` promises of the node's number and of the state after
abbrev pub IsString : FileSys → List ℕ → ℕ × FileSys → Type 0
IsString fs str (p, fs') =
    Made fs fs' (string_nodes str) × Spells fs'.nodes (position fs) (position fs') p str

-- a node that is filled where it was made
last_string :
    (str : List ℕ) (fs : FileSys)
    → length str ≤ 18
    → IsValid fs
    → Room fs (string_nodes str)
    → IsString fs str ((new_node fs).0, fill (new_node fs).0 (string str 0) (new_node fs).1)
unfolding fill
last_string str fs few v room =
    let (at, below, nz) = new_node-position fs v (omega (arith, room)) in
    let made = new_node-Made fs v (omega (arith, room)) in
    let (n, fs₁) = new_node fs in
    (
      Made-more fs _ 1 (string_nodes str) (fill-Made fs fs₁ 1 n (string str 0) made at)
          (omega arith),
      last n str at below nz (fill-at fs₁ n (string str 0)) few,
    )

pub make_string_from_lem :
    (fuel : ℕ) (str : List ℕ) (fs : FileSys)
    → length str ≤ fuel
    → IsValid fs
    → Room fs (string_nodes str)
    → IsString fs str (make_string_from fuel str fs)
unfolding make_string_from fill
make_string_from_lem zero str fs le v room = last_string str fs (omega arith) v room
make_string_from_lem (suc fuel) str fs le v room = elim (Bool-cases (leb (length str) 18)) [
  | inl e ↦ rw e (last_string str fs (ground (arith, e)) v room)
  | inr e ↦
      let (at, below, nz) = new_node-position fs v (omega (arith, room)) in
      let made = new_node-Made fs v (omega (arith, room)) in
      let (n, fs₁) = new_node fs in
      let long : 18 < length str = ground (arith, e) in
      let left = length-drop 18 str in
      let (next, fs₂) = make_string_from fuel (drop 18 str) fs₁ in
      let node = string (take 18 str) next in
      let (rest, spells) =
        make_string_from_lem fuel (drop 18 str) fs₁ (omega (arith, left, long, le)) made.valid
          (omega (arith, made.few, room, left, long)) in
      rw e (
        Made-more fs _ (1 + string_nodes (drop 18 str)) (string_nodes str)
            (fill-Made fs fs₂ (1 + string_nodes (drop 18 str)) n node
              (Made-trans fs fs₁ fs₂ 1 (string_nodes (drop 18 str)) made rest) at)
            (omega (arith, left, long)),
        more n next (take 18 str) (drop 18 str) str at (omega (arith, below, rest.grows)) nz
            (fill-at fs₂ n node) (length-take 18 str (omega (arith, long))) (take-drop 18 str)
            (Spells-Agree _ _ (position fs₁) _ (position fs) _ _ (drop 18 str)
              (fill-Agree fs₂ n node (position fs₁) (position fs₂) below) made.grows (omega arith)
              spells),
      )
]

-- In a valid state with room `make_string` makes a chain of nodes that spell the string, 18 characters
-- each but in the last, under new numbers that are not 0. The nodes that were there stay as they are.
pub make_string_lem :
    (str : List ℕ) (fs : FileSys)
    → IsValid fs
    → Room fs (string_nodes str)
    → IsString fs str (make_string str fs)
unfolding make_string
make_string_lem str fs v room = make_string_from_lem (length str) str fs (omega arith) v room
