-- ===== src/Builder/Image/Write/Served.antt =====
-- What kernel/src/fs.c finds in the image that util/f301_builder/src/fs.c wrote.
use frosk.Prelude.{
  ℕ, suc, ◌+◌, ◌*◌, ◌/◌, ◌%◌, ◌≤◌, ◌<◌, ◌≡◌, ◌≢◌, refl, sym, ap, ◌∙◌, subst, inl, inr, Option, some,
  none, List, [], ◌∷◌, ◌==◌, if◌then◌else◌, arith, length, length-append, append-nil,
}
use frosk.Cstd.Memory.{Mem}
use frosk.Kernel.Fs.{name_ptr, string_str, resolve}
use frosk.Kernel.Fs.Tree.{Entries, Chars, NoSlash, HasName, InTable}
use frosk.Builder.Nodes.{
  Node, Nodes, file, dir, data_node, string, indirect, ParseStruct, null, pst_file, pst_dir,
  pst_indirect,
}
use frosk.Builder.Nodes.Strings.{Spells, last, more}
use frosk.Builder.Nodes.Tree.{Represents}
use frosk.Builder.Image.{node_bytes}
use frosk.Builder.Image.Reads.{Bytes, Reads, node_bytes-Reads}
use frosk.Builder.Image.Write.{Host, children}
use frosk.Builder.Image.Write.Places.{place, InOne, length-node_bytes}
use frosk.Builder.Image.Write.Held.{here, there, IsIn, HeldFrom}

-- the pointers of a node to the next entry and to its contents
abbrev pub next_of : Option Node → ℕ
next_of (some (file owner name first_data next parent actual)) = next
next_of (some (dir owner name first_file next parent)) = next
next_of (some (indirect owner name dest next parent)) = next
next_of (some (data_node count lba next bytes)) = next
next_of (some (string str next)) = next
next_of none = 0

abbrev pub first_of : Option Node → ℕ
first_of (some (dir owner name first_file next parent)) = first_file
first_of other = 0

-- the entries that stand for the tree, in a table at base
abbrev pub entries : ℕ → Nodes → ParseStruct → ℕ → Entries
entries base nodes null p = Entries.end
entries base nodes (pst_file owner name actual rest) p =
    Entries.file (base + p * 24) (name ∷ []) (entries base nodes rest (next_of (nodes p)))
entries base nodes (pst_dir owner name contents rest) p =
    Entries.dir (base + p * 24) (name ∷ []) (entries base nodes contents (first_of (nodes p)))
      (entries base nodes rest (next_of (nodes p)))
entries base nodes (pst_indirect owner name dest rest) p =
    Entries.file (base + p * 24) (name ∷ []) (entries base nodes rest (next_of (nodes p)))

-- the names are shorter than 18 characters, with neither a slash nor a 0
abbrev pub IsShort : List ℕ → Type 0
IsShort name = (length name < 18) × NoSlash name

abbrev pub AllShort : ParseStruct → Type 0
AllShort null = Unit
AllShort (pst_file owner name actual rest) = IsShort name × AllShort rest
AllShort (pst_dir owner name contents rest) = IsShort name × AllShort contents × AllShort rest
AllShort (pst_indirect owner name dest rest) = IsShort name × AllShort rest

pub Bytes-same :
    (bs : List ℕ) (a b : ℕ) (m m' : Mem)
    → ((i : ℕ) → i < length bs → m' (b + i) ≡ m (a + i))
    → Bytes m a bs
    → Bytes m' b bs
Bytes-same [] a b m m' e h = omega arith
Bytes-same (c ∷ bs) a b m m' e (h, hs) =
    let zero_a : a + 0 ≡ a = omega arith in
    let zero_b : b + 0 ≡ b = omega arith in
    (
      subst (λ k. m' k ≡ c) zero_b (e 0 (omega arith) ∙ subst (λ k. m k ≡ c) (sym zero_a) h),
      Bytes-same bs (a + 1) (b + 1) m m'
          (λ i less.
            let next_a : a + suc i ≡ a + 1 + i = omega arith in
            let next_b : b + suc i ≡ b + 1 + i = omega arith in
            subst (λ k. m' k ≡ m (a + 1 + i)) next_b
              (e (suc i) (omega (arith, less)) ∙ ap m next_a))
          hs,
    )

Bytes-Chars : (cs : List ℕ) (a : ℕ) (m : Mem) → Bytes m a cs → NoSlash cs → Chars m a cs
Bytes-Chars [] a m h plain = omega arith
Bytes-Chars (c ∷ cs) a m (h, hs) (nz, slash, more') = (h, nz, Bytes-Chars cs (a + 1) m hs more')

pub resolve_lem : (base p : ℕ) → p < 170 → resolve (base ∷ []) p ≡ some (base + p * 24)
unfolding resolve
resolve_lem base p small =
    let first : p / 256 ≡ 0 = omega (arith, small) in
    let same : p % 256 ≡ p = omega (arith, small) in rw (first, same) refl

Spells-nz : (lo hi p : ℕ) (w : List ℕ) → {nodes : Nodes} → Spells nodes lo hi p w → p ≢ 0
Spells-nz lo hi _ _ (last p w a b nz e few) = nz
Spells-nz lo hi _ _ (more p next s t w a b nz e few e' rest) = nz

pub HeldFrom-child :
    (h : Host) (l : ℕ) (nodes : Nodes) (m : Mem) (p c : ℕ) (n : Node)
    → HeldFrom h l nodes p m
    → nodes p ≡ some n
    → IsIn c (children n)
    → c ≢ 0
    → HeldFrom h l nodes c m
HeldFrom-child h l nodes m p c n held e at nz q n' leads e' =
    held q n' (there p c q n e nz at leads) e'

-- the table is in memory at base
abbrev pub IsLoaded : ℕ → Mem → ℕ → Mem → Type 0
IsLoaded l image base km = (i : ℕ) → i < 0x1000 → km (base + i) ≡ image (l * 0x1000 + i)

module _ (h : Host) (l : ℕ) (nodes : Nodes) (one : InOne h l nodes) (image : Mem) (base : ℕ)
    (km : Mem) (loaded : IsLoaded l image base km) where
  pub Holds-Reads :
      (p : ℕ) (n : Node)
      → nodes p ≡ some n
      → HeldFrom h l nodes p image
      → Reads h.address km (base + p * 24) n
  Holds-Reads p n e held =
      let (some_p, small, fits, far) = one p n e in
      let bs = node_bytes h.address (h.perm p) (h.junk p) n in
      let few : length bs ≤ 24 = length-node_bytes h.address (h.perm p) (h.junk p) n in
      node_bytes-Reads h.address (h.perm p) (h.junk p) km (base + p * 24) n fits (
        Bytes-same bs (place l p) (base + p * 24) image km
          (λ i less.
            let here : base + (p * 24 + i) ≡ base + p * 24 + i = omega arith in
            let there' : l * 0x1000 + (p * 24 + i) ≡ place l p + i = omega arith in
            subst (λ k. km k ≡ image (place l p + i)) here
              (loaded (p * 24 + i) (omega (arith, small, less, few)) ∙ ap image there'))
          (held p n (here p p refl) e))

  Spells-HasName :
      (lo hi p a : ℕ) (w : List ℕ)
      → Spells nodes lo hi p w
      → IsShort w
      → HeldFrom h l nodes p image
      → name_ptr km a ≡ p
      → HasName 1 (base ∷ []) km a (w ∷ [])
  Spells-HasName lo hi _ a _ (last p w _ _ nz e few) (short, plain) held at =
      let (type, size, chars, next) = Holds-Reads p (string w 0) e held in
      (
        base + p * 24,
        rw at (resolve_lem base p (one p (string w 0) e).1),
        (size, Bytes-Chars w (string_str (base + p * 24)) km chars plain, next),
        omega arith,
        subst NoSlash (sym (append-nil w)) plain,
      )
  Spells-HasName lo hi _ a _ (more p next s t w _ _ nz e few e' rest) (short, plain) held at =
      absurd (omega (arith, ap length e' ∙ length-append s t, few, short))

  -- a node with entries behind it is read as one, and so are they
  entry_lem :
      (p name_at next lo hi : ℕ) (n : Node) (name : List ℕ)
      → nodes p ≡ some n
      → p ≢ 0
      → HeldFrom h l nodes p image
      → Spells nodes lo hi name_at name
      → name_at ≢ 0
      → IsShort name
      → IsIn name_at (children n)
      → name_ptr km (base + p * 24) ≡ name_at
      → (p ≢ 0)
        × (resolve (base ∷ []) p ≡ some (base + p * 24))
        × (base + p * 24 ≢ 0)
        × HasName 1 (base ∷ []) km (base + p * 24) (name ∷ [])
  entry_lem p name_at next lo hi n name e nz held spells name_nz short at ptr = (
    nz,
    resolve_lem base p (one p n e).1,
    omega (arith, nz),
    Spells-HasName lo hi name_at (base + p * 24) name spells short
        (HeldFrom-child h l nodes image p name_at n held e at name_nz) ptr,
  )

  pub Represents-InTable :
      (size_of : List ℕ → Option ℕ) (lo hi : ℕ) (t : ParseStruct) (parent p : ℕ)
      → Represents size_of nodes lo hi parent t p
      → AllShort t
      → (p ≢ 0 → HeldFrom h l nodes p image)
      → InTable 1 (base ∷ []) km p (entries base nodes t p)
  unfolding children
  Represents-InTable size_of lo hi null parent p r short held = r
  Represents-InTable size_of lo hi (pst_file owner name actual rest) parent p
        (_, _, nz, (name_at, d, next, e, spells, has, others)) (short, shorts) held =
      let n = file owner name_at d next parent actual in
      let (type, name_e, first_e, next_e) = Holds-Reads p n e (held nz) in
      let (nz', at, nz'', named) =
        entry_lem p name_at next lo hi n name e nz (held nz) spells
          (Spells-nz lo hi name_at name spells) short (inl refl) name_e in
      (
        nz',
        at,
        nz'',
        named,
        omega (arith, type),
        rw next_e (
            rw e (
              Represents-InTable size_of lo hi rest parent next others shorts
                (HeldFrom-child h l nodes image p next n (held nz) e (inr (inr (inl refl)))))),
      )
  Represents-InTable size_of lo hi (pst_dir owner name contents rest) parent p
        (_, _, nz, (name_at, d, next, e, spells, inside, others)) (short, within, shorts) held =
      let n = dir owner name_at d next (if parent == 0 then p else parent) in
      let (type, name_e, first_e, next_e) = Holds-Reads p n e (held nz) in
      let (nz', at, nz'', named) =
        entry_lem p name_at next lo hi n name e nz (held nz) spells
          (Spells-nz lo hi name_at name spells) short (inl refl) name_e in
      (
        nz',
        at,
        nz'',
        named,
        type,
        rw first_e (
            rw e (
              Represents-InTable size_of lo hi contents p d inside within
                (HeldFrom-child h l nodes image p d n (held nz) e (inr (inl refl))))),
        rw next_e (
            rw e (
              Represents-InTable size_of lo hi rest parent next others shorts
                (HeldFrom-child h l nodes image p next n (held nz) e (inr (inr (inl refl)))))),
      )
  Represents-InTable size_of lo hi (pst_indirect owner name dest rest) parent p
        (_, _, nz, (name_at, d, next, e, spells, leads, others)) (short, shorts) held =
      let n = indirect owner name_at d next parent in
      let (type, name_e, next_e) = Holds-Reads p n e (held nz) in
      let (nz', at, nz'', named) =
        entry_lem p name_at next lo hi n name e nz (held nz) spells
          (Spells-nz lo hi name_at name spells) short (inl refl) name_e in
      (
        nz',
        at,
        nz'',
        named,
        omega (arith, type),
        rw next_e (
            rw e (
              Represents-InTable size_of lo hi rest parent next others shorts
                (HeldFrom-child h l nodes image p next n (held nz) e (inr (inr (inl refl)))))),
      )
