-- ===== src/Builder/Image/Write/Found.antt =====
-- `write_fs` of util/f301_builder/src/fs.c and `fs_aquire` of kernel/src/fs.c together.
use mathlib.Core.Option
use frosk.Prelude.{
  ℕ, suc, ◌+◌, ◌*◌, ◌/◌, ◌^◌, ◌≤◌, ◌≡◌, refl, ap, ◌∙◌, subst, inl, inr, Option, some, List, [], ◌∷◌,
  ◌==◌, if◌then◌else◌, arith, Ensures,
}
use frosk.Cstd.Memory.{Mem}
use frosk.Kernel.Fs.{uint, fs_aquire}
use frosk.Kernel.Fs.Tree.{join, find, AllComponents, steps, answer}
use frosk.Kernel.Fs.Lookup.{fs_aquire_lem}
use frosk.Builder.Nodes.{Nodes, dir, data_node, ParseStruct, null, pst_dir}
use frosk.Builder.Nodes.Tree.{Represents, tree_nodes}
use frosk.Builder.Load.{EntryPoints}
use frosk.Builder.Image.{int_bytes, put_bytes}
use frosk.Builder.Image.Reads.{Bytes, Bytes-drop, put_bytes-Bytes, uint-int_bytes}
use frosk.Builder.Image.Write.{Host, children, write_fs_h, header_bytes, write_headers, write_fs}
use frosk.Builder.Image.Write.Places.{InOne, Keeps, Keeps-trans}
use frosk.Builder.Image.Write.Held.{HeldFrom, HeldFrom-Keeps, write_fs_h-held}
use frosk.Builder.Image.Write.Ends.{Returns, write_fs_h-Returns, extent-Returns}
use frosk.Builder.Image.Write.Served.{
  entries, first_of, AllShort, IsLoaded, Represents-InTable, Bytes-same, Holds-Reads, resolve_lem,
  HeldFrom-child,
}

-- what `main` has built: the two directories and the unused node
pub record Built (size_of : List ℕ → Option ℕ) (nodes : Nodes) (roots : EntryPoints)
    (pre contents : ParseStruct) : Type 0 where
  pub lo : ℕ
  pub hi : ℕ
  pub lba : ℕ
  pub owner : ℕ
  pub pre_owner : ℕ
  pub unused : nodes roots.unused ≡ some (data_node 0 lba 0 0)
  pub predir :
      Represents size_of nodes lo hi 0 (pst_dir pre_owner (b'@' ∷ []) pre null) roots.predir
  pub root : Represents size_of nodes lo hi 0 (pst_dir owner (b'/' ∷ []) contents null) roots.root

module _ (h : Host) (l : ℕ) (nodes : Nodes) (one : InOne h l nodes) where
  -- a node that is written, where the writing returns
  step :
      (fuel p : ℕ) (m : Mem)
      → Returns (write_fs_h fuel h (l ∷ []) nodes p 0 m)
      → (m' : Mem) × (write_fs_h fuel h (l ∷ []) nodes p 0 m ≡ some m')
        × Keeps h l nodes m m'
        × HeldFrom h l nodes p m'
  step fuel p m (m', e) =
      let (keeps, held) =
        subst (Ensures (λ c. Keeps h l nodes m c × HeldFrom h l nodes p c)) e
          (write_fs_h-held h l nodes one fuel p m) in
      (m', e, keeps, held)

  -- The builder has made the root, the directory "@" and the unused node, all in one table. Then `write_fs`
  -- returns, given fuel for all nodes. In the image that it wrote all nodes that the three lead to stand
  -- where they belong, and the table has its mark and the root's pointer.
  pub write_fs_lem :
      (size_of : List ℕ → Option ℕ) (roots : EntryPoints) (pre contents : ParseStruct) (fuel : ℕ)
      (m : Mem)
      → Built size_of nodes roots pre contents
      → 3 + tree_nodes pre + tree_nodes contents ≤ fuel
      → (image : Mem) × (write_fs fuel h (l ∷ []) roots nodes m ≡ some image)
        × HeldFrom h l nodes roots.predir image
        × HeldFrom h l nodes roots.root image
        × HeldFrom h l nodes roots.unused image
        × Bytes image (l * 0x1000) (header_bytes roots l)
  unfolding write_fs write_headers Option.bind
  write_fs_lem size_of roots pre contents fuel m b le =
      let bs = header_bytes roots l in
      let m₀ = put_bytes (l * 0x1000) bs m in
      let (m₁, e₁, k₁, h₁) = step fuel roots.predir m₀ (
        write_fs_h-Returns h l nodes one fuel 0 b.lo b.hi size_of
          (pst_dir b.pre_owner (b'@' ∷ []) pre null) 0 roots.predir m₀ b.predir b.predir.2
          (omega (arith, le))) in
      let (m₂, e₂, k₂, h₂) = step fuel roots.root m₁ (
        write_fs_h-Returns h l nodes one fuel 0 b.lo b.hi size_of
          (pst_dir b.owner (b'/' ∷ []) contents null) 0 roots.root m₁ b.root b.root.2
          (omega (arith, le))) in
      let (m₃, e₃, k₃, h₃) = step fuel roots.unused m₂ (
        extent-Returns h l nodes one fuel 0 roots.unused 0 b.lba 0 m₂ b.unused
          (omega (arith, le))) in
      let k = Keeps-trans h l nodes m₁ m₂ m₃ k₂ k₃ in
      (
        m₃,
        rw e₁ (rw e₂ e₃),
        HeldFrom-Keeps h l nodes roots.predir m₁ m₃ k h₁,
        HeldFrom-Keeps h l nodes roots.root m₂ m₃ k₃ h₂,
        h₃,
        Bytes-same bs (l * 0x1000) (l * 0x1000) m₀ m₃
            (Keeps-trans h l nodes m₀ m₁ m₃ k₁ k).head_stays (put_bytes-Bytes bs (l * 0x1000) m),
      )

  -- a lookup in an image with the root's nodes and the head of the table
  found :
      (image : Mem) (base : ℕ) (km : Mem)
      → IsLoaded l image base km
      → (size_of : List ℕ → Option ℕ) (roots : EntryPoints) (contents : ParseStruct) (fuel : ℕ)
        (n : List ℕ) (ns : List (List ℕ)) (cd lo hi owner : ℕ)
      → Represents size_of nodes lo hi 0 (pst_dir owner (b'/' ∷ []) contents null) roots.root
      → HeldFrom h l nodes roots.root image
      → Bytes image (l * 0x1000) (header_bytes roots l)
      → AllShort contents
      → AllComponents n ns
      → steps (entries base nodes contents (first_of (nodes roots.root))) ≤ fuel
      → fs_aquire (suc (suc fuel)) 1 (base ∷ []) km (b'/' ∷ join n ns) cd
        ≡ answer km (find n ns (entries base nodes contents (first_of (nodes roots.root))))
  unfolding children
  found image base km is_loaded size_of roots contents fuel n ns cd lo hi owner
        (_, _, nz, (name_at, first, next, e, spells, inside, others)) held head short comps le =
      let node = dir owner name_at first next (if 0 == 0 then roots.root else 0) in
      let (type, name_e, first_e, next_e) =
        Holds-Reads h l nodes one image base km is_loaded roots.root node e held in
      let small = (one roots.root node e).1 in
      let first_at : first_of (nodes roots.root) ≡ first = ap first_of e in
      let bytes =
        Bytes-same (header_bytes roots l) (l * 0x1000) base image km
          (λ i less. is_loaded i (omega (arith, less))) head in
      let ptr : uint km (base + 4) ≡ roots.root =
        uint-int_bytes km (base + 4) roots.root
          (int_bytes roots.predir
            (int_bytes roots.unused (int_bytes (l + 1) (int_bytes ((l + 1) / 2 ^ 32) []))))
          (Bytes-drop 4 (header_bytes roots l) base km bytes)
        ∙ omega (arith, small) in
      rw first_at (
        fs_aquire_lem (entries base nodes contents first) fuel 1 base [] km n ns cd
          (base + roots.root * 24) comps (rw ptr (resolve_lem base roots.root small)) type
          (rw first_e (
            Represents-InTable h l nodes one image base km is_loaded size_of lo hi contents
              roots.root first inside short
              (HeldFrom-child h l nodes image roots.root first node held e (inr (inl refl)))))
          (subst (λ f. steps (entries base nodes contents f) ≤ fuel) first_at le))

  -- The builder has made the root, the directory "@" and the unused node, all in one table, and the names
  -- in the root are shorter than 18 characters, with neither a slash nor a 0. Then `write_fs` returns, given
  -- fuel for all nodes, and with its table in memory, `fs_aquire` of an absolute path returns what the tree
  -- of the root says of the path, given fuel for the entries.
  pub fs_aquire-write_fs :
      (load : Mem → Mem) (size_of : List ℕ → Option ℕ) (roots : EntryPoints)
      (pre contents : ParseStruct) (fuel fuel' base : ℕ) (m : Mem) (n : List ℕ) (ns : List (List ℕ))
      (cd : ℕ)
      → ((image : Mem) → IsLoaded l image base (load image))
      → Built size_of nodes roots pre contents
      → AllShort contents
      → 3 + tree_nodes pre + tree_nodes contents ≤ fuel
      → AllComponents n ns
      → steps (entries base nodes contents (first_of (nodes roots.root))) ≤ fuel'
      → (image : Mem) × (write_fs fuel h (l ∷ []) roots nodes m ≡ some image)
        × (fs_aquire (suc (suc fuel')) 1 (base ∷ []) (load image) (b'/' ∷ join n ns) cd
            ≡ answer
                (load image)
                (find n ns (entries base nodes contents (first_of (nodes roots.root)))))
  fs_aquire-write_fs load size_of roots pre contents fuel fuel' base m n ns cd is_loaded b short le
        comps le' =
      let (image, e, h_pre, h_root, h_unused, head) =
        write_fs_lem size_of roots pre contents fuel m b le in
      (
        image,
        e,
        found image base (load image) (is_loaded image) size_of roots contents fuel' n ns cd b.lo
            b.hi b.owner b.root h_root head short comps le',
      )
