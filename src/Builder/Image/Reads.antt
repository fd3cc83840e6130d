-- ===== src/Builder/Image/Reads.antt =====
-- What the kernel reads from the nodes that util/f301_builder/src/fs.c writes.
use mathlib.Core.Option
use frosk.Prelude.{
  ℕ, zero, suc, ◌+◌, ◌*◌, ◌/◌, ◌%◌, ◌^◌, ◌<◌, ◌≡◌, refl, ap, ◌∙◌, List, [], ◌∷◌, ◌++◌, ◌==◌,
  if◌then◌else◌, length, take, drop, arith, subst, map, length-append, get_elem?,
}
use frosk.Cstd.Memory.{Mem, write}
use frosk.Builder.Nodes.{Node, file, dir, data_node, string, indirect}
use frosk.Kernel.Fs.{
  get_type, name_ptr, first_ptr, file_next_ptr, string_size, string_str, string_next_ptr,
  data_blocks, data_lba, data_next_ptr, bytes_in_last_block, uint, ulong, resolve,
}
use frosk.Builder.Image.{int_bytes, node_bytes, seek_to_node, put_bytes, write_node}

abbrev pub Bytes : Mem → ℕ → List ℕ → Type 0
Bytes m at [] = Unit
Bytes m at (b ∷ bs) = (m at ≡ b) × Bytes m (at + 1) bs

pub put_bytes-below : (bs : List ℕ) (at a : ℕ) (m : Mem) → a < at → put_bytes at bs m a ≡ m a
unfolding put_bytes
put_bytes-below [] at a m less = refl
put_bytes-below (b ∷ bs) at a m less =
    put_bytes-below bs (at + 1) a (write m at b) (omega arith) ∙ ground (arith, less)

pub put_bytes-Bytes : (bs : List ℕ) (at : ℕ) (m : Mem) → Bytes (put_bytes at bs m) at bs
unfolding put_bytes
put_bytes-Bytes [] at m = omega arith
put_bytes-Bytes (b ∷ bs) at m = (
  put_bytes-below bs (at + 1) at (write m at b) (omega arith) ∙ ground arith,
  put_bytes-Bytes bs (at + 1) (write m at b),
)

pub Bytes-drop :
    (i : ℕ) (bs : List ℕ) (at : ℕ) (m : Mem) → Bytes m at bs → Bytes m (at + i) (drop i bs)
Bytes-drop zero bs at m h = let e : at + 0 ≡ at = omega arith in rw e h
Bytes-drop (suc i) [] at m h = h
Bytes-drop (suc i) (b ∷ bs) at m (h, hs) =
    let e : at + suc i ≡ at + 1 + i = omega arith in rw e (Bytes-drop i bs (at + 1) m hs)

uint_digits :
    (v : ℕ)
    → v % 256 + 256 * (v / 256 % 256) + 65536 * (v / 65536 % 256) + 16777216 * (v / 16777216 % 256)
      ≡ v % 2 ^ 32
uint_digits v = omega arith

pub uint-int_bytes :
    (m : Mem) (a v : ℕ) (rest : List ℕ) → Bytes m a (int_bytes v rest) → uint m a ≡ v % 2 ^ 32
uint-int_bytes m a v rest (b, (c, (d, (e, more)))) =
    let two : a + 2 ≡ a + 1 + 1 = omega arith in
    let three : a + 3 ≡ a + 1 + 1 + 1 = omega arith in
    rw (two, three) (rw (b, c, d, e) (uint_digits v))

-- what the kernel reads of a node at h: type, name, and the pointers and numbers by the node's type
abbrev pub Reads : (ℕ → ℕ) → Mem → ℕ → Node → Type 0
Reads address m h (file owner name first_data next parent actual) =
    (get_type m h ≡ 2)
    × (name_ptr m h ≡ name)
    × (first_ptr m h ≡ first_data)
    × (file_next_ptr m h ≡ next)
Reads address m h (dir owner name first_file next parent) =
    (get_type m h ≡ 1)
    × (name_ptr m h ≡ name)
    × (first_ptr m h ≡ first_file)
    × (file_next_ptr m h ≡ next)
Reads address m h (indirect owner name dest next parent) =
    (get_type m h ≡ 5) × (name_ptr m h ≡ name) × (file_next_ptr m h ≡ next)
Reads address m h (data_node count lba next last) =
    (get_type m h ≡ 3)
    × (data_blocks m h ≡ count)
    × (data_lba m h ≡ lba)
    × (data_next_ptr m h ≡ (if next == 0 then 0 else address next % 2 ^ 32))
    × (bytes_in_last_block m h ≡ last)
Reads address m h (string str next) =
    (get_type m h ≡ 4)
    × (string_size m h ≡ length str)
    × Bytes m (string_str h) str
    × (string_next_ptr m h ≡ (if next == 0 then 0 else address next % 2 ^ 32))

-- the fields are as wide as they are declared, and with `junk` a string's characters are 18
abbrev pub Fits : List ℕ → Node → Type 0
Fits junk (file owner name first_data next parent actual) =
    (name < 2 ^ 32) × (first_data < 2 ^ 32) × (next < 2 ^ 32)
Fits junk (dir owner name first_file next parent) =
    (name < 2 ^ 32) × (first_file < 2 ^ 32) × (next < 2 ^ 32)
Fits junk (indirect owner name dest next parent) = (name < 2 ^ 32) × (next < 2 ^ 32)
Fits junk (data_node count lba next last) = (count < 2 ^ 32) × (lba < 2 ^ 64) × (last < 2 ^ 32)
Fits junk (string str next) = (length str + length junk ≡ 18)

field_at :
    (m : Mem) (at i v : ℕ) (bs rest : List ℕ)
    → drop i bs ≡ int_bytes v rest
    → Bytes m at bs
    → v < 2 ^ 32
    → uint m (at + i) ≡ v
field_at m at i v bs rest e h small =
    uint-int_bytes m (at + i) v rest (subst (λ l. Bytes m (at + i) l) e (Bytes-drop i bs at m h))
    ∙ omega (arith, small)

ulong-int_bytes :
    (m : Mem) (a v : ℕ) (rest : List ℕ)
    → Bytes m a (int_bytes v (int_bytes (v / 2 ^ 32) rest))
    → v < 2 ^ 64
    → ulong m a ≡ v
ulong-int_bytes m a v rest h small =
    let low = uint-int_bytes m a v (int_bytes (v / 2 ^ 32) rest) h in
    let high =
      uint-int_bytes m (a + 4) (v / 2 ^ 32) rest
        (Bytes-drop 4 (int_bytes v (int_bytes (v / 2 ^ 32) rest)) a m h) in
    rw (low, high) (omega (arith, small))

low_pointer :
    (address : ℕ → ℕ) (next : ℕ)
    → (if next == 0 then 0 else address next) % 2 ^ 32
      ≡ (if next == 0 then 0 else address next % 2 ^ 32)
low_pointer address next = ground arith

take-length : (n : ℕ) (xs : List ℕ) → length xs ≡ n → take n xs ≡ xs
take-length zero [] e = refl
take-length zero (x ∷ xs) e = absurd (omega (arith, e))
take-length (suc n) [] e = refl
take-length (suc n) (x ∷ xs) e = ap (λ (l : List ℕ). x ∷ l) (take-length n xs (omega (arith, e)))

drop-append : (n : ℕ) (xs ys : List ℕ) → length xs ≡ n → drop n (xs ++ ys) ≡ ys
drop-append zero [] ys e = refl
drop-append zero (x ∷ xs) ys e = absurd (omega (arith, e))
drop-append (suc n) [] ys e = absurd (omega (arith, e))
drop-append (suc n) (x ∷ xs) ys e = drop-append n xs ys (omega (arith, e))

resolve_in :
    (lbas : List ℕ) (ptr i : ℕ)
    → Option.map
        (λ (a : ℕ). a + ptr % 256 * 24)
        (get_elem? (map (λ (lba : ℕ). lba * 0x1000) lbas) i)
      ≡ Option.map (λ (lba : ℕ). lba * 0x1000 + ptr % 256 * 24) (get_elem? lbas i)
resolve_in [] ptr i = refl
resolve_in (l ∷ lbas) ptr zero = refl
resolve_in (l ∷ lbas) ptr (suc i) = resolve_in lbas ptr i

Bytes-append : (xs ys : List ℕ) (m : Mem) (at : ℕ) → Bytes m at (xs ++ ys) → Bytes m at xs
Bytes-append [] ys m at h = omega arith
Bytes-append (x ∷ xs) ys m at (h, hs) = (h, Bytes-append xs ys m (at + 1) hs)

module _ (address : ℕ → ℕ) (perm : ℕ) (junk : List ℕ) (m : Mem) (h : ℕ) where
  pub node_bytes-Reads :
      (n : Node) → Fits junk n → Bytes m h (node_bytes address perm junk n) → Reads address m h n
  unfolding node_bytes
  node_bytes-Reads (file owner name first_data next parent actual) (a, b, c) bs =
      let all =
        2
        ∷ perm
        ∷ 0
        ∷ 0
        ∷ int_bytes owner
            (int_bytes name (int_bytes first_data (int_bytes next (int_bytes parent [])))) in
      (
        rw bs.0 refl,
        field_at m h 8 name all _ refl bs a,
        field_at m h 12 first_data all _ refl bs b,
        field_at m h 16 next all _ refl bs c,
      )
  node_bytes-Reads (dir owner name first_file next parent) (a, b, c) bs =
      let all =
        1
        ∷ perm
        ∷ 0
        ∷ 0
        ∷ int_bytes owner
            (int_bytes name (int_bytes first_file (int_bytes next (int_bytes parent [])))) in
      (
        rw bs.0 refl,
        field_at m h 8 name all _ refl bs a,
        field_at m h 12 first_file all _ refl bs b,
        field_at m h 16 next all _ refl bs c,
      )
  node_bytes-Reads (indirect owner name dest next parent) (a, c) bs =
      let all =
        5
        ∷ perm
        ∷ 0
        ∷ 0
        ∷ int_bytes owner
            (int_bytes name (int_bytes dest (int_bytes next (int_bytes parent [])))) in
      (rw bs.0 refl, field_at m h 8 name all _ refl bs a, field_at m h 16 next all _ refl bs c)
  node_bytes-Reads (data_node count lba next last) (a, b, c) bs =
      let ptr = if next == 0 then 0 else address next in
      let all =
        3
        ∷ 0
        ∷ 0
        ∷ 0
        ∷ int_bytes count
            (int_bytes lba (int_bytes (lba / 2 ^ 32) (int_bytes ptr (int_bytes last [])))) in
      (
        rw bs.0 refl,
        field_at m h 4 count all _ refl bs a,
        ulong-int_bytes m (h + 8) lba (int_bytes ptr (int_bytes last [])) (Bytes-drop 8 all h m bs)
            b,
        uint-int_bytes m (h + 16) ptr (int_bytes last []) (Bytes-drop 16 all h m bs)
            ∙ low_pointer address next,
        field_at m h 20 last all _ refl bs c,
      )
  node_bytes-Reads (string str next) fit bs =
      let ptr = if next == 0 then 0 else address next in
      let chars : take 18 (str ++ junk) ≡ str ++ junk =
        take-length 18 (str ++ junk) (length-append str junk ∙ fit) in
      let all = 4 ∷ length str ∷ ((str ++ junk) ++ int_bytes ptr []) in
      let bytes : Bytes m h all =
        subst (λ (l : List ℕ). Bytes m h (4 ∷ length str ∷ (l ++ int_bytes ptr []))) chars bs in
      let tail : drop 20 all ≡ int_bytes ptr [] =
        drop-append 18 (str ++ junk) (int_bytes ptr []) (length-append str junk ∙ fit) in
      (
        rw bs.0 refl,
        bytes.1.0,
        Bytes-append str junk m (h + 2)
            (Bytes-append (str ++ junk) (int_bytes ptr []) m (h + 2) (Bytes-drop 2 all h m bytes)),
        uint-int_bytes m (h + 20) ptr []
              (subst (λ l. Bytes m (h + 20) l) tail (Bytes-drop 20 all h m bytes))
            ∙ low_pointer address next,
      )

-- The kernel reads from a node that the builder wrote, whose fields are as wide as their declarations,
-- the type, the name, the pointers to entries and data, the numbers and the characters that the node has.
-- Of a string's or a data node's next node it reads 0 where there is none, and otherwise the low 32 bits
-- of that node's address in the builder's memory.
pub write_node-Reads :
    (address : ℕ → ℕ) (perm : ℕ) (junk : List ℕ) (h : ℕ) (n : Node) (m : Mem)
    → Fits junk n
    → Reads address (write_node address perm junk h n m) h n
unfolding write_node
write_node-Reads address perm junk h n m fit =
    node_bytes-Reads address perm junk (put_bytes h (node_bytes address perm junk n) m) h n fit
      (put_bytes-Bytes (node_bytes address perm junk n) h m)

-- The builder writes a node to the place where the kernel looks for it, the tables being loaded to where
-- they lie in the image.
pub seek_to_node-resolve :
    (lbas : List ℕ) (ptr : ℕ) → resolve (map (λ lba. lba * 0x1000) lbas) ptr ≡ seek_to_node lbas ptr
unfolding resolve seek_to_node
seek_to_node-resolve lbas ptr = resolve_in lbas ptr (ptr / 256)
