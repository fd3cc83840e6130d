-- ===== src/Kernel/Fs/Tree.antt =====
-- What the table of nodes of kernel/src/fs.c stands for: a tree of files and directories.
use frosk.Prelude.{
  ℕ, ◌+◌, ◌≤◌, ◌≡◌, ◌≢◌, Bool, true, false, ◌&&◌, Option, none, some, List, [], ◌∷◌, ◌++◌, ◌==◌,
  if◌then◌else◌, length,
}
use frosk.Cstd.Memory.{Mem}
use frosk.Kernel.Fs.{
  get_type, fs_directory, name_ptr, first_ptr, file_next_ptr, string_size, string_str,
  string_next_ptr, resolve, lock_handle, Answer,
}

-- the entries of a directory in their order: the node's address, the name in the pieces that its string
-- nodes hold, and for a directory its own entries
pub data Entries : Type 0 where
  end : Entries
  file : ℕ → List (List ℕ) → Entries → Entries
  dir : ℕ → List (List ℕ) → Entries → Entries → Entries

abbrev pub concat : List (List ℕ) → List ℕ
concat [] = []
concat (c ∷ cs) = c ++ concat cs

-- the characters stand in memory
abbrev pub Chars : Mem → ℕ → List ℕ → Type 0
Chars m a [] = Unit
Chars m a (c ∷ cs) = (m a ≡ c) × (c ≢ 0) × Chars m (a + 1) cs

-- the string nodes from n on hold the pieces
abbrev pub Pieces : List ℕ → Mem → ℕ → List (List ℕ) → Type 0
Pieces hdrs m n [] = ⊥
Pieces hdrs m n (c ∷ []) =
    (string_size m n ≡ length c) × Chars m (string_str n) c × (string_next_ptr m n ≡ 0)
Pieces hdrs m n (c ∷ c' ∷ cs) =
    (string_size m n ≡ length c)
    × Chars m (string_str n) c
    × (string_next_ptr m n ≢ 0)
    × ((n' : ℕ) × (resolve hdrs (string_next_ptr m n) ≡ some n') × Pieces hdrs m n' (c' ∷ cs))

-- neither a 0 nor a slash
abbrev pub NoSlash : List ℕ → Type 0
NoSlash [] = Unit
NoSlash (c ∷ cs) = (c ≢ 0) × (c ≢ b'/') × NoSlash cs

-- the node at a has the name, of nf pieces at most
abbrev pub HasName : ℕ → List ℕ → Mem → ℕ → List (List ℕ) → Type 0
HasName nf hdrs m a c =
    (n : ℕ) × (resolve hdrs (name_ptr m a) ≡ some n)
    × Pieces hdrs m n c
    × (length c ≤ nf)
    × NoSlash (concat c)

-- the entries are those that a pointer to the first node leads to
abbrev pub InTable : ℕ → List ℕ → Mem → ℕ → Entries → Type 0
InTable nf hdrs m ptr end = ptr ≡ 0
InTable nf hdrs m ptr (file a c rest) =
    (ptr ≢ 0)
    × (resolve hdrs ptr ≡ some a)
    × (a ≢ 0)
    × HasName nf hdrs m a c
    × (get_type m a ≢ fs_directory)
    × InTable nf hdrs m (file_next_ptr m a) rest
InTable nf hdrs m ptr (dir a c kids rest) =
    (ptr ≢ 0)
    × (resolve hdrs ptr ≡ some a)
    × (a ≢ 0)
    × HasName nf hdrs m a c
    × (get_type m a ≡ fs_directory)
    × InTable nf hdrs m (first_ptr m a) kids
    × InTable nf hdrs m (file_next_ptr m a) rest

-- the components of a path, and the characters
abbrev pub join : List ℕ → List (List ℕ) → List ℕ
join n [] = n
join n (n' ∷ ns) = n ++ (b'/' ∷ join n' ns)

abbrev pub same : List ℕ → List ℕ → Bool
same [] [] = true
same [] (b ∷ t) = false
same (a ∷ s) [] = false
same (a ∷ s) (b ∷ t) = (a == b) && same s t

-- the node that a path names: in each directory the first entry of the name counts
abbrev pub find : List ℕ → List (List ℕ) → Entries → Option ℕ
find n ns end = none
find n [] (file a c rest) = if same (concat c) n then some a else find n [] rest
find n [] (dir a c kids rest) = if same (concat c) n then some a else find n [] rest
find n (n' ∷ ns) (file a c rest) = if same (concat c) n then none else find n (n' ∷ ns) rest
find n (n' ∷ ns) (dir a c kids rest) =
    if same (concat c) n then find n' ns kids else find n (n' ∷ ns) rest

-- a component: not empty, no slash
abbrev pub IsComponent : List ℕ → Type 0
IsComponent [] = ⊥
IsComponent (c ∷ cs) = NoSlash (c ∷ cs)

abbrev pub AllComponents : List ℕ → List (List ℕ) → Type 0
AllComponents n [] = IsComponent n
AllComponents n (n' ∷ ns) = IsComponent n × AllComponents n' ns

-- steps that a lookup can take
abbrev pub steps : Entries → ℕ
steps end = 0
steps (file a c rest) = 1 + steps rest
steps (dir a c kids rest) = 3 + steps kids + steps rest

-- the handle of a node that was found, which is locked, or 0
abbrev pub answer : Mem → Option ℕ → Answer
answer m none = some (0, m)
answer m (some a) = lock_handle m a
